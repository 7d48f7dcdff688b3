-- ===== src/Net/ClientHandler.antt =====
-- src/prost_net/bandwidth_client.rs: the handler of all clients, and the stream of data messages to
-- the server. The tasks of the clients are known by their channels.
use Prim.Native.String.{String}
use network_listener.Prelude.{
  ℕ, ◌+◌, Bool, true, false, Option, none, some, List, [], ◌∷◌, ◌++◌, ltb, if◌then◌else◌, Run, ok,
  panic, ◌>>=◌, map,
}
use network_listener.Prelude.HashMap
use network_listener.Prelude.HashMap.{HashMap, Hashed, Prober}
use network_listener.Packet.Ip.{IpAddr, ip_eq}
use network_listener.Tracking.StreamId.{ip_pairable}
use network_listener.Net.Messages.{DataMsg}
use network_listener.Net.BwClient
use network_listener.Net.BwClient.{ClientEventResult, server_connect_error, reply, Dial}
pub mod Initialising
pub mod Greeting

instance abbrev pub ip_hashed : Hashed IpAddr
ip_hashed = record { equal = ip_eq; words = ip_pairable.words }

-- a client whose channel is `none` has not been initiated
abbrev pub Clients : Type 0
Clients = HashMap IpAddr (Option ℕ)

pub data ClientHandlerEvent (F : Type 0) : Type 0 where
  init_clients : List IpAddr → ClientHandlerEvent F
  send_hello : IpAddr → String → ClientHandlerEvent F
  broadcast_hello : String → ClientHandlerEvent F
  stop : ClientHandlerEvent F
  do_iperf3 : String → ℕ → ℕ → ClientHandlerEvent F
  do_pathload_test : String → ClientHandlerEvent F
  send_data_msg : DataMsg F → ClientHandlerEvent F

-- what the handler does beside changing its clients
pub data Effect (F : Type 0) : Type 0 where
  -- the task gets a hello to send
  hello_to : ℕ → String → Effect F
  replied : ClientEventResult → Effect F
  iperf_client : String → ℕ → ℕ → Effect F
  pathload_client : String → Effect F
  broadcast : DataMsg F → Effect F

-- the world as one event is handled: which tasks still receive, whether the channel of the replies is
-- open, how the i-th connection that is begun ends, and how many receivers the broadcast has
pub record World : Type 0 where
  pub receives : ℕ → Bool
  pub is_open : Bool
  pub dial : ℕ → IpAddr → Dial
  pub receiver_count : ℕ

-- a spawned connection: its address, and the channel, an error, or a panic
abbrev pub Attempt : Type 0
Attempt = IpAddr × Run (Option ℕ × List ClientEventResult)

abbrev pub is_known : Option (Option ℕ) → Bool
is_known none = false
is_known (some c) = true

-- the loop that spawns a task for each address that is not yet a client
unfoldable pub spawn_all : Prober → World → Clients → ℕ → List IpAddr → List Attempt
spawn_all probe w clients i [] = []
spawn_all probe w clients i (ip ∷ ips) =
    let later = spawn_all probe w clients i ips in
    let next =
      (ip, BwClient.new w.is_open ip (w.dial i ip)) ∷ spawn_all probe w clients (i + 1) ips in
    if is_known (HashMap.get probe ip clients) then later else next

-- what the tasks themselves send, in the order in which they were spawned
replies_of : List Attempt → List ClientEventResult
replies_of [] = []
replies_of ((ip, ok (task, sent)) ∷ rest) = sent ++ replies_of rest
replies_of ((ip, panic) ∷ rest) = replies_of rest

-- the loop over the results; an error, and a task that panicked, is reported
store_results : Prober → Bool → List Attempt → Clients → Run (Clients × List ClientEventResult)
store_results probe is_open [] clients = ok (clients, [])
store_results probe is_open ((ip, ok (some task, sent)) ∷ rest) clients =
    store_results probe is_open rest (HashMap.insert probe ip (some task) clients)
store_results probe is_open ((ip, ok (none, sent)) ∷ rest) clients = do
  reported ← reply is_open server_connect_error
  (clients, more) ← store_results probe is_open rest clients
  ok (clients, reported ++ more)
store_results probe is_open ((ip, panic) ∷ rest) clients = do
  reported ← reply is_open server_connect_error
  (clients, more) ← store_results probe is_open rest clients
  ok (clients, reported ++ more)

unfoldable pub connect_all :
    Prober → World → Clients → List IpAddr → Run (Clients × List ClientEventResult)
unfolding spawn_all replies_of store_results
connect_all probe w clients ips =
    let results = spawn_all probe w clients 0 ips in
    do
      (clients, reported) ← store_results probe w.is_open results clients
      ok (clients, replies_of results ++ reported)

module _ {F : Type 0} where
  -- `tx.send().await.unwrap()`: it panics if the task of the client has ended
  hello : World → String → Option (Option ℕ) → Run (List (Effect F))
  hello w message none = ok []
  hello w message (some none) = ok []
  hello w message (some (some task)) =
      if w.receives task then ok (hello_to task message ∷ []) else panic

  unfoldable pub greet : Prober → World → Clients → IpAddr → String → Run (List (Effect F))
  unfolding hello
  greet probe w clients ip message = hello w message (HashMap.get probe ip clients)

  -- the loop over the keys
  unfoldable pub greet_all : Prober → World → Clients → List IpAddr → String → Run (List (Effect F))
  unfolding greet
  greet_all probe w clients [] message = ok []
  greet_all probe w clients (ip ∷ ips) message = do
    sent ← greet probe w clients ip message
    more ← greet_all probe w clients ips message
    ok (sent ++ more)

  -- what one event does; `none` ends the loop
  unfoldable pub handle :
      Prober → World → Clients → ClientHandlerEvent F → Run (Option Clients × List (Effect F))
  unfolding connect_all greet greet_all
  handle probe w clients (send_hello ip message) = do
    sent ← greet probe w clients ip message
    ok (some clients, sent)
  handle probe w clients stop = ok (none, [])
  handle probe w clients (init_clients ips) = do
    (clients, results) ← connect_all probe w clients ips
    ok (some clients, map replied results)
  handle probe w clients (broadcast_hello message) = do
    sent ← greet_all probe w clients (map (λ (e : IpAddr × Option ℕ). e.0) clients) message
    ok (some clients, sent)
  handle probe w clients (do_iperf3 ip port duration) =
      ok (some clients, iperf_client ip port duration ∷ [])
  handle probe w clients (do_pathload_test ip) = ok (some clients, pathload_client ip ∷ [])
  handle probe w clients (send_data_msg bw) =
      ok (some clients, if ltb 0 w.receiver_count then broadcast bw ∷ [] else [])

  -- unless the loop has ended
  continue :
      (Clients → Run (Clients × List (Effect F)))
      → Clients
      → Option Clients
      → List (Effect F)
      → Run (Clients × List (Effect F))
  continue go clients none done = ok (clients, done)
  continue go clients (some next) done = do (last, more) ← go next; ok (last, done ++ more)

  -- the loop on the events that come, each with the world as it is then
  unfoldable pub start_event_loop :
      Prober → List (World × ClientHandlerEvent F) → Clients → Run (Clients × List (Effect F))
  unfolding handle continue
  start_event_loop probe [] clients = ok (clients, [])
  start_event_loop probe ((w, event) ∷ rest) clients = do
    (next, done) ← handle probe w clients event
    continue (start_event_loop probe rest) clients next done
