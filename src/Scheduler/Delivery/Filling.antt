-- ===== src/Scheduler/Delivery/Filling.antt =====
-- The rows that the messages of a window become.
use mathlib.Core.Logic.Or
use mathlib.Core.List.{mem-cons}
use network_listener.Prelude.{
  ℕ, ◌+◌, append-nil, zero, suc, ◌≡◌, refl, ap, Bool, true, false, Option, none, some, List, [],
  ◌∷◌, ◌++◌, map, Mem, if◌then◌else◌, as_millis,
}
use network_listener.Prelude.Int.{ℤ, pos}
use network_listener.Prelude.Double.{Double}
use network_listener.Prelude.HashMap.{HashMap}
use network_listener.Config.{AppConfig}
use network_listener.Tracking.LinkState.{LinkStateProto, RttMessage, PgmDps}
use network_listener.Tracking.StreamId.{IpPair}
use network_listener.Tracking.StreamManager.{StreamManager}
use network_listener.Tracking.Link.Reporting.{Describes, AllDescribed}
use network_listener.Tracking.Link.{Readings}
use network_listener.Net.Messages.{DataMsg}
use network_listener.Scheduler.Database.Rows.{value_of}
use network_listener.Scheduler.Database.Expected.{
  flat_map, link_row, state_fields, state_rows, gap_rows,
}
use network_listener.Scheduler.Server.{received}
use network_listener.Scheduler.Server.Storing.{msg_taken, event_taken}
use network_listener.Scheduler.Delivery.{IsStored, AllStored}

value_of-Mem : {A : Type 0} (xs : List A) (i : ℕ) {x : A} → value_of xs i ≡ some x → Mem x xs
value_of-Mem (v ∷ vs) (suc zero) e = mem-cons.1 (Or.inl (cc))
value_of-Mem (v ∷ vs) (suc (suc i)) e = mem-cons.1 (Or.inr (value_of-Mem vs (suc i) e))
value_of-Mem [] i e = cc
value_of-Mem (v ∷ vs) zero e = cc

module _ {F T : Type 0} ⦃f : Double F⦄ (experiment_id : ℤ) where
  is_stored :
      (config : AppConfig) (at : Readings) (ts : T) (k : IpPair) (sm : StreamManager F)
      (l : LinkStateProto F) (r : RttMessage F) (p : PgmDps F)
      → Describes config at k sm l r p
      → IsStored experiment_id config at ts k sm (
          link_row "link_state" l.sender_ip l.receiver_ip
            (state_fields (λ t. none) experiment_id l ts))
  is_stored config at ts k sm l r p d = record {
    in_table = refl;
    sender_is = rw d.sender_is refl;
    receiver_is = rw d.receiver_is refl;
    rate_in = value_of-Mem _ 1 (rw d.rate_in refl);
    rate_out = value_of-Mem _ 2 (rw d.rate_out refl);
    bandwidth = value_of-Mem _ 3 (rw d.bandwidth refl);
    available = value_of-Mem _ 4 (rw d.available refl);
    mean_rtt = value_of-Mem _ 5 (rw d.mean_rtt refl);
    no_delay = value_of-Mem _ 6 (rw d.no_delay refl);
    no_jitter = value_of-Mem _ 7 (rw d.no_jitter refl);
    no_loss = value_of-Mem _ 8 (rw d.no_loss refl);
    taken_at = value_of-Mem _ 9 refl;
    in_experiment = value_of-Mem _ 10 refl;
  }

  module _ (datetime : ℤ → Option T) (config : AppConfig) where
    pub all_stored :
        (clock : ℕ → Readings) (times : ℕ → T)
        → ((i : ℕ) → datetime (pos (as_millis (clock i).tstamp)) ≡ some (times i))
        → (m : HashMap IpPair (StreamManager F)) (ls : List (LinkStateProto F))
          (rs : List (RttMessage F)) (ps : List (PgmDps F))
        → AllDescribed config clock m ls rs ps
        → AllStored experiment_id config clock times m
            (flat_map (state_rows datetime experiment_id) ls)
    all_stored clock times converts [] [] rs ps d = tt
    all_stored clock times converts [] (l ∷ ls) rs ps d = absurd d
    all_stored clock times converts (e ∷ m) [] rs ps d = absurd d
    all_stored clock times converts (e ∷ m) (l ∷ ls) [] ps d = absurd d
    all_stored clock times converts (e ∷ m) (l ∷ ls) (r ∷ rs) [] d = absurd d
    all_stored clock times converts ((k, sm) ∷ m) (l ∷ ls) (r ∷ rs) (p ∷ ps) (here, d) =
        rw (here.link_time, converts 0)
          (
            is_stored config (clock 0) (times 0) k sm l r p here,
            all_stored (λ i. clock (i + 1)) (λ i. times (i + 1)) (λ i. converts (i + 1)) m ls rs ps
                d,
          )

module _ {F : Type 0} where
  -- a message, if it is wanted
  abbrev pub chosen : Bool → DataMsg F → List (DataMsg F)
  chosen wanted msg = if wanted then msg ∷ [] else []

module _ {F T : Type 0} (datetime : ℤ → Option T) (experiment_id : ℤ) where
  pub event_taken_lem :
      (msgs : List (DataMsg F))
      → event_taken datetime experiment_id (map received msgs)
        ≡ flat_map (msg_taken datetime experiment_id) msgs
  event_taken_lem [] = refl
  event_taken_lem (m ∷ ms) =
      ap (λ rows. msg_taken datetime experiment_id m ++ rows) (event_taken_lem ms)

  -- of the messages of a window, those of round trips fill no row
  pub window_taken :
      (a b c : Bool) (ls : List (LinkStateProto F)) (rs : List (RttMessage F))
      (ps : List (PgmDps F))
      → a ≡ true
      → flat_map (msg_taken datetime experiment_id) (
          chosen a (DataMsg.bandwidth ls)
          ++ chosen b (DataMsg.rtts rs)
          ++ chosen c (DataMsg.pgmmsg ps))
        ≡ flat_map (state_rows datetime experiment_id) ls
          ++ (if c then flat_map (gap_rows datetime experiment_id) ps else [])
  window_taken false b c ls rs ps e = cc
  window_taken true true true ls rs ps e = rw append-nil refl
  window_taken true true false ls rs ps e = refl
  window_taken true false true ls rs ps e = rw append-nil refl
  window_taken true false false ls rs ps e = refl
