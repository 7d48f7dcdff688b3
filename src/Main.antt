-- ===== src/Main.antt =====
-- src/main.rs: the tasks that the program starts, and how it ends. A handle is known by its task.
use network_listener.Prelude.{
  ◌≡◌, refl, ap, ◌∙◌, inl, inr, Bool-cases, Bool, true, false, not, Option, none, some, List, [],
  ◌∷◌, ◌++◌, keep, Duration, if◌then◌else◌,
}

pub data Task : Type 0 where
  parser client_handler capture iperf_server bw_server : Task

pub data EventMessage : Type 0 where
  pause_pcap : Duration → EventMessage
  resume_pcap : EventMessage

pub record NetworkListener : Type 0 where
  pub handles : List Task
  pub result_handles : List Task

unfoldable new : NetworkListener
new = record { handles = []; result_handles = [] }

-- `start`, if a device can be captured from; the error otherwise
unfoldable start : Bool → NetworkListener → Option NetworkListener
start false n = none
start true n = some (record {
  handles = n.handles ++ parser ∷ client_handler ∷ [];
  result_handles = n.result_handles ++ capture ∷ iperf_server ∷ bw_server ∷ [];
})

-- what `select!` takes next
pub data Select : Type 0 where
  received : EventMessage → Select
  ctrl_c : Select
  closed : Select

-- `blocking_event_loop`: the listener, once the loop has ended; both messages are only logged
unfoldable blocking_event_loop : NetworkListener → List Select → Option NetworkListener
blocking_event_loop n [] = none
blocking_event_loop n (received event ∷ rest) = blocking_event_loop n rest
blocking_event_loop n (ctrl_c ∷ rest) = some n
blocking_event_loop n (closed ∷ rest) = some n

-- the tasks of some handles that are aborted, unless they have finished
unfoldable abort : (Task → Bool) → List Task → List Task
abort is_finished [] = []
abort is_finished (handle ∷ rest) =
    let later = abort is_finished rest in if is_finished handle then later else handle ∷ later

unfoldable stop : (Task → Bool) → NetworkListener → List Task
unfolding abort
stop is_finished n = abort is_finished n.handles ++ abort is_finished n.result_handles

-- `main`, on what the world gives; `none` while it runs and where it ends in an error
unfoldable main : Bool → List Select → (Task → Bool) → Option (List Task)
unfolding new start blocking_event_loop stop
main has_device selects is_finished = go (start has_device new)
  where
    ended : Option NetworkListener → Option (List Task)
    ended none = none
    ended (some n) = some (stop is_finished n)

    go : Option NetworkListener → Option (List Task)
    go none = none
    go (some n) = ended (blocking_event_loop n selects)

abort-append :
    (is_finished : Task → Bool) (xs ys : List Task)
    → (abort is_finished xs ++ abort is_finished ys) ≡ abort is_finished (xs ++ ys)
unfolding abort
abort-append is_finished [] ys = refl
abort-append is_finished (t ∷ ts) ys = elim (Bool-cases (is_finished t)) [
  | inl y ↦ rw y (abort-append is_finished ts ys)
  | inr n ↦ rw n (ap (λ l. t ∷ l) (abort-append is_finished ts ys))
]

abort-keep :
    (is_finished : Task → Bool) (tasks : List Task)
    → abort is_finished tasks ≡ keep (λ t. not (is_finished t)) tasks
unfolding abort
abort-keep is_finished [] = refl
abort-keep is_finished (t ∷ ts) = elim (Bool-cases (is_finished t)) [
  | inl y ↦ rw y (abort-keep is_finished ts)
  | inr n ↦ rw n (ap (λ l. t ∷ l) (abort-keep is_finished ts))
]

-- some messages, and then the signal
abbrev signalled : List EventMessage → List Select
signalled [] = ctrl_c ∷ []
signalled (event ∷ rest) = received event ∷ signalled rest

-- Whatever messages come before the signal: a program that has a device to capture from ends, and by
-- then every task that it started has finished or is aborted, the parser first.
main_lem :
    (events : List EventMessage) (is_finished : Task → Bool)
    → main true (signalled events) is_finished
      ≡ some (
          keep
            (λ t. not (is_finished t))
            (parser ∷ client_handler ∷ capture ∷ iperf_server ∷ bw_server ∷ []))
unfolding main new start blocking_event_loop stop
main_lem [] is_finished = ap some (
    abort-append is_finished (parser ∷ client_handler ∷ [])
      (capture ∷ iperf_server ∷ bw_server ∷ [])
    ∙ abort-keep is_finished (parser ∷ client_handler ∷ capture ∷ iperf_server ∷ bw_server ∷ []))
main_lem (event ∷ rest) is_finished = main_lem rest is_finished
