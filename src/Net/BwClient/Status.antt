-- ===== src/Net/BwClient/Status.antt =====
-- What the status of a client says, and which replies its task sends.
use network_listener.Prelude.{
  ℕ, ◌+◌, ◌≤◌, ◌≡◌, refl, true, Option, some, List, [], ◌∷◌, Returns, arith, length,
}
use network_listener.Net.BwClient.{
  Instant, ClientEvent, send_hello, stop, ClientStatus, connected, disconnected, duration_since_now,
  hello_reply, hello_status, Hello, replied, refused, timed_out, BwClient, event_loop,
}

-- the time of a status
abbrev pub since : ClientStatus → Instant
since (connected t) = t
since (disconnected t) = t

-- For a status that was taken at any time up to now, the time that has gone by since is computed as
-- zero, since the two times are subtracted the wrong way round.
pub duration_since_now-zero :
    (now : Instant) (s : ClientStatus) → since s ≤ now → duration_since_now now s ≡ 0
unfolding duration_since_now
duration_since_now-zero now (connected t) h = ground arith
duration_since_now-zero now (disconnected t) h = ground arith

-- what the last call that was made says of the connection
abbrev pub status_of :
    Option ClientStatus → List (ClientEvent × Instant × Hello) → Option ClientStatus
status_of s [] = s
status_of s ((stop, now, hello) ∷ rest) = s
status_of s ((send_hello m, now, replied a) ∷ rest) = status_of (some (connected now)) rest
status_of s ((send_hello m, now, refused) ∷ rest) = status_of (some (disconnected now)) rest
status_of s ((send_hello m, now, timed_out) ∷ rest) = status_of (some (disconnected now)) rest

-- the calls before the stop that did not time out
abbrev pub answered : List (ClientEvent × Instant × Hello) → ℕ
answered [] = 0
answered ((stop, now, hello) ∷ rest) = 0
answered ((send_hello m, now, replied a) ∷ rest) = 1 + answered rest
answered ((send_hello m, now, refused) ∷ rest) = 1 + answered rest
answered ((send_hello m, now, timed_out) ∷ rest) = answered rest

-- While the channel of the replies is open the task does not panic. The status it ends with is that
-- of the last call before the stop, connected exactly if that call was answered, with its time; and
-- one reply is sent for each call before the stop that did not time out.
pub event_loop_lem :
    (c : BwClient) (events : List (ClientEvent × Instant × Hello))
    → Returns
        (event_loop true c events)
        λ (c', sent). (c'.status ≡ status_of c.status events) × (length sent ≡ answered events)
unfolding event_loop
event_loop_lem c [] = (_, refl, (refl, refl))
event_loop_lem c ((stop, now, hello) ∷ rest) = (_, refl, (refl, refl))
event_loop_lem c ((send_hello m, now, replied a) ∷ rest) =
    let ((c', sent), e, (s, n)) =
      event_loop_lem (record c { status = some (connected now) }) rest in
    ((c', hello_reply a ∷ sent), rw e refl, (s, omega (arith, n)))
event_loop_lem c ((send_hello m, now, refused) ∷ rest) =
    let ((c', sent), e, (s, n)) =
      event_loop_lem (record c { status = some (disconnected now) }) rest in
    ((c', hello_status ∷ sent), rw e refl, (s, omega (arith, n)))
event_loop_lem c ((send_hello m, now, timed_out) ∷ rest) =
    let ((c', sent), e, (s, n)) =
      event_loop_lem (record c { status = some (disconnected now) }) rest in
    ((c', sent), rw e refl, (s, n))
