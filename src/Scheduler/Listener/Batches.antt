-- ===== src/Scheduler/Listener/Batches.antt =====
-- The batches that reach the server of the sessions and the throughputs that the emulator gives.
use network_listener.Prelude.{
  ◌≡◌, refl, ap, ◌∙◌, sym, inl, inr, true, not, Option, some, List, [], ◌∷◌, ◌++◌, map, keep, ok,
  Returns, if◌then◌else◌, All, append_assoc, append-nil, is_empty, length, sum_by,
}
use network_listener.Prelude.HashMap.{Prober, FindsSame}
use network_listener.Scheduler.CoreSession.{CoreSession, Session}
use network_listener.Scheduler.CoreSession.Building.{listed, all_attachable}
use network_listener.Scheduler.CoreSession.Resolving.{Built, build_session_lem}
use network_listener.Scheduler.Throughput.{
  InterfaceThroughput, ThroughputDp, Clock, Message, event, closed, on_event, push_batch,
  thput_event_loop,
}
use network_listener.Scheduler.Throughput.Naming.{count_reports}
use network_listener.Scheduler.Throughput.Reporting.{Tells, on_event_lem}
use network_listener.Scheduler.Listener.{start_listener, listen, with_session}

-- an event, with what the clock says as it is handled
abbrev pub Measured : Type 0 → Type 0
Measured F = Clock × List (InterfaceThroughput F)

module _ {F : Type 0} where
  -- the events, and then the end of the stream
  abbrev pub stream : List (Measured F) → Clock → List (Clock × Message F)
  stream [] clock = (clock, closed) ∷ []
  stream ((c, thpts) ∷ rest) clock = (c, event thpts) ∷ stream rest clock

  pushed :
      (dps : List (ThroughputDp F)) (sent rest : List (List (ThroughputDp F)))
      → push_batch dps sent ++ rest ≡ sent ++ (if not (is_empty dps) then dps ∷ rest else rest)
  unfolding push_batch
  pushed [] sent rest = refl
  pushed (dp ∷ dps) sent rest = append_assoc sent ((dp ∷ dps) ∷ []) rest

module _ {O F : Type 0} (probe : Prober) where
  abbrev pub batch : Session O → Measured F → List (ThroughputDp F)
  batch session e = on_event probe session e.0 e.1 []

  -- one data point for each interface and link, which tells of both
  abbrev pub Reports : Session O → Measured F → List (ThroughputDp F) → Type 0
  Reports session e dps =
      (length dps ≡ sum_by (λ t. count_reports probe session t session.links) e.1)
      × All (Tells probe session e.0 e.1) dps

  abbrev pub batches_of : Session O → List (Measured F) → List (List (ThroughputDp F))
  batches_of session events = keep (λ dps. not (is_empty dps)) (map (batch session) events)

  looped :
      (session : Session O) (events : List (Measured F)) (clock : Clock)
      (sent : List (List (ThroughputDp F)))
      → thput_event_loop probe session (stream events clock) sent
        ≡ ok (sent ++ batches_of session events)
  unfolding thput_event_loop
  looped session [] clock sent = ap ok (sym (append-nil sent))
  looped session (e ∷ rest) clock sent =
      looped session rest clock (push_batch (batch session e) sent)
      ∙ ap ok (pushed (batch session e) sent (batches_of session rest))

  all_reported :
      (s : CoreSession O) (session : Session O)
      → Built probe s session
      → (events : List (Measured F)) → All (λ e. Reports session e (batch session e)) events
  all_reported s session b [] = tt
  all_reported s session b (e ∷ rest) =
      (on_event_lem probe session e.0 s e.1 b, all_reported s session b rest)

  -- what is returned for a session and its events
  pub record Listened (s : CoreSession O) (events : List (Measured F))
      (r : Option (List (List (ThroughputDp F)))) : Type 0 where
    pub session : Session O
    pub built : Built probe s session
    pub result : r ≡ some (batches_of session events)
    pub reported : All (λ e. Reports session e (batch session e)) events

module _ {O F : Type 0} (probe : Prober) (same : FindsSame probe) where
  -- Where no link names a listed node without an interface at that side, and the emulator answers both
  -- calls and ends the stream of its events normally: a session is built from the description, and the
  -- batches that are sent are those of the events, in order, less the empty ones. In each batch there
  -- is one data point for each measured interface and each link that ends there between known nodes,
  -- which names both ends and carries the throughput.
  pub start_listener_lem :
      (s : CoreSession O) (events : List (Measured F)) (clock : Clock)
      → all_attachable (listed s.nodes) s.links ≡ true
      → Returns
          (start_listener probe true (some (some s)) (some (stream events clock)))
          (Listened probe s events)
  unfolding start_listener with_session listen
  start_listener_lem s events clock h = elim (build_session_lem probe same s) [
    | inr (e, _) ↦ cc
    | inl (_, (session, run, built)) ↦
        rw (run, looped probe session events clock [])
          (
            _,
            refl,
            record {
              session = session;
              built = built;
              result = refl;
              reported = all_reported probe s session built events;
            },
          )
  ]
