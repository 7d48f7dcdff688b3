-- ===== src/Net/BwClient.antt =====
-- src/prost_net/bandwidth_client.rs: the client of one other host. What the gRPC library answers, and
-- whether the channel of the replies is open, are arguments.
use Prim.Native.String.{String}
use network_listener.Prelude.{
  ℕ, ◌-◌, Bool, true, false, Option, none, some, List, [], ◌∷◌, ◌++◌, leb, if◌then◌else◌, Run, ok,
  panic, ◌>>=◌, Duration,
}
use network_listener.Packet.Ip.{IpAddr}
pub mod Status

-- the counter of `Instant::now`
abbrev pub Instant : Type 0
Instant = ℕ

-- `Instant::duration_since`: nothing, when `earlier` is the later one
abbrev instant_since : Instant → Instant → Duration
instant_since t earlier = if leb earlier t then t - earlier else 0

pub data ClientEvent : Type 0 where
  send_hello : String → ClientEvent
  stop : ClientEvent

pub data ClientStatus : Type 0 where
  connected disconnected : Instant → ClientStatus

unfoldable pub duration_since_now : Instant → ClientStatus → Duration
duration_since_now now (connected t) = instant_since t now
duration_since_now now (disconnected t) = instant_since t now

-- a reply keeps the answered address, or is the error status
pub data ClientEventResult : Type 0 where
  hello_reply : String → ClientEventResult
  hello_status : ClientEventResult
  server_connect_error : ClientEventResult
  server_connected : IpAddr → ClientEventResult

-- how `say_hello` ends within its three seconds
pub data Hello : Type 0 where
  replied : String → Hello
  refused : Hello
  timed_out : Hello

pub record BwClient : Type 0 where
  pub status : Option ClientStatus

-- a reply that cannot be sent makes the task panic
abbrev pub reply : Bool → ClientEventResult → Run (List ClientEventResult)
reply true result = ok (result ∷ [])
reply false result = panic

unfoldable pub say_hello :
    Bool → Instant → BwClient → Hello → Run (BwClient × List ClientEventResult)
say_hello is_open now c (replied ip_addr) = do
  sent ← reply is_open (hello_reply ip_addr)
  ok (record c { status = some (connected now) }, sent)
say_hello is_open now c refused = do
  sent ← reply is_open hello_status
  ok (record c { status = some (disconnected now) }, sent)
say_hello is_open now c timed_out = ok (record c { status = some (disconnected now) }, [])

-- `send_hello_noreply`, whose error is `none`
unfoldable send_hello_noreply : Instant → BwClient → Hello → BwClient × Option String
send_hello_noreply now c (replied ip_addr) =
    (record c { status = some (connected now) }, some ip_addr)
send_hello_noreply now c refused = (record c { status = some (disconnected now) }, none)
send_hello_noreply now c timed_out = (record c { status = some (disconnected now) }, none)

-- the loop of the task, on the events with what the clock says and how the call ends
unfoldable pub event_loop :
    Bool → BwClient → List (ClientEvent × Instant × Hello) → Run (BwClient × List ClientEventResult)
unfolding say_hello
event_loop is_open c [] = ok (c, [])
event_loop is_open c ((stop, now, hello) ∷ rest) = ok (c, [])
event_loop is_open c ((send_hello message, now, hello) ∷ rest) = do
  (c, sent) ← say_hello is_open now c hello
  (c, more) ← event_loop is_open c rest
  ok (c, sent ++ more)

-- how connecting ends within three seconds; a task that is started is known by its channel
pub data Dial : Type 0 where
  accepted : ℕ → Dial
  rejected : Dial
  expired : Dial

-- `BwClient::new`: the channel of the new task, or `none` for the error
unfoldable pub new : Bool → IpAddr → Dial → Run (Option ℕ × List ClientEventResult)
new is_open ip (accepted task) = do sent ← reply is_open (server_connected ip); ok (some task, sent)
new is_open ip rejected = ok (none, [])
new is_open ip expired = ok (none, [])
