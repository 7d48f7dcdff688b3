-- ===== src/Scheduler/Database/Uploads.antt =====
-- What the statements of an upload store.
use Prim.Native.String.{String}
use network_listener.Prelude.{
  ◌≡◌, refl, ap, ap₂, ◌∙◌, Option, none, some, List, [], ◌∷◌, ◌++◌, map, length, suc,
}
use network_listener.Prelude.Int.{ℤ, pos, as_i64}
use network_listener.Packet.Ip.{IpAddr}
use network_listener.Tracking.LinkState.{LinkStateProto, PgmDp, PgmDps, Rtt, RttMessage}
use network_listener.Scheduler.Throughput.{ThroughputDp}
use network_listener.Scheduler.Database.{
  Value, addr, pgm_point, pgm_points, throughput_row, upload_throughput, link_state_row,
  upload_bandwidth, rtt_row, rtt_rows, upload_rtt, upload_probe_gap_measurements, insert_into,
  throughput_query, range, join,
}
use network_listener.Scheduler.Database.Rows.{row_of, zip, insert_into_lem}
use network_listener.Scheduler.Database.Expected.{
  flat_map, gap_fields, gap_row, gap_rows, link_row, state_fields, state_row, state_rows, thput_row,
  thput_rows, trip_fields, trip_row, trip_rows, when_some,
}

pub map-append :
    {A B : Type 0} (f : A → B) (xs ys : List A) → map f (xs ++ ys) ≡ map f xs ++ map f ys
map-append f [] ys = refl
map-append f (x ∷ xs) ys = ap (λ l. f x ∷ l) (map-append f xs ys)

module _ {F T : Type 0} where
  link_row_lem :
      (name : String) (sender receiver : Option IpAddr) (fields : List (String × Value F T))
      → row_of (
          insert_into sender receiver name
            (map (λ (f : String × Value F T). f.0) fields)
            (map (λ (f : String × Value F T). f.1) fields))
        ≡ link_row name sender receiver fields
  link_row_lem name sender receiver fields =
      insert_into_lem sender receiver name _ _ (same fields)
      ∙ ap₂
          (λ fs bs. record {
            table = some name;
            fields = fs;
            bound =
                some (addr sender)
                ∷ some (addr receiver)
                ∷ some (addr sender)
                ∷ some (addr receiver)
                ∷ bs;
          })
          (zipped fields) (bound fields)
    where
      same :
          (fields : List (String × Value F T))
          → length (map (λ (f : String × Value F T). f.0) fields)
            ≡ length (map (λ (f : String × Value F T). f.1) fields)
      same [] = refl
      same (f ∷ fs) = ap suc (same fs)

      zipped :
          (fields : List (String × Value F T))
          → zip
              (map (λ (f : String × Value F T). f.0) fields)
              (map some (map (λ (f : String × Value F T). f.1) fields))
            ≡ map (λ (f : String × Value F T). (f.0, some f.1)) fields
      zipped [] = refl
      zipped (f ∷ fs) = ap (λ l. (f.0, some f.1) ∷ l) (zipped fs)

      bound :
          (fields : List (String × Value F T))
          → map some (map (λ (f : String × Value F T). f.1) fields)
            ≡ map (λ (f : String × Value F T). some f.1) fields
      bound [] = refl
      bound (f ∷ fs) = ap (λ l. some f.1 ∷ l) (bound fs)

  module _ (datetime : ℤ → Option T) (experiment_id : ℤ) where
    pub states_stored :
        (ls : List (LinkStateProto F))
        → map row_of (upload_bandwidth datetime experiment_id ls)
          ≡ flat_map (state_rows datetime experiment_id) ls
    unfolding upload_bandwidth
    states_stored [] = refl
    states_stored (ls ∷ rest) =
        map-append row_of (link_state_row datetime experiment_id ls (datetime (pos ls.timestamp)))
          (upload_bandwidth datetime experiment_id rest)
        ∙ ap₂ ◌++◌ (one (datetime (pos ls.timestamp))) (states_stored rest)
      where
        one :
            (at : Option T)
            → map row_of (link_state_row datetime experiment_id ls at)
              ≡ when_some at (state_row datetime experiment_id ls)
        one none = refl
        one (some ts) =
            ap (λ r. r ∷ [])
              (link_row_lem "link_state" ls.sender_ip ls.receiver_ip
                (state_fields datetime experiment_id ls ts))

    trips_of :
        (msg : RttMessage F) (trips : List (Rtt F))
        → map row_of (rtt_rows datetime experiment_id msg trips)
          ≡ flat_map (trip_rows datetime experiment_id msg) trips
    unfolding rtt_rows
    trips_of msg [] = refl
    trips_of msg (rtt ∷ rest) =
        map-append row_of (rtt_row datetime experiment_id msg rtt (datetime (pos rtt.timestamp)))
          (rtt_rows datetime experiment_id msg rest)
        ∙ ap₂ ◌++◌ (one (datetime (pos rtt.timestamp))) (trips_of msg rest)
      where
        one :
            (at : Option T)
            → map row_of (rtt_row datetime experiment_id msg rtt at)
              ≡ when_some at (trip_row datetime experiment_id msg rtt)
        one none = refl
        one (some ts) =
            ap (λ r. r ∷ [])
              (link_row_lem "rtt" (some msg.sender_ip) (some msg.receiver_ip)
                (trip_fields datetime experiment_id rtt ts))

    pub trips_stored :
        (ms : List (RttMessage F))
        → map row_of (upload_rtt datetime experiment_id ms)
          ≡ flat_map (λ msg. flat_map (trip_rows datetime experiment_id msg) msg.rtt) ms
    unfolding upload_rtt
    trips_stored [] = refl
    trips_stored (msg ∷ rest) =
        map-append row_of (rtt_rows datetime experiment_id msg msg.rtt)
          (upload_rtt datetime experiment_id rest)
        ∙ ap₂ ◌++◌ (trips_of msg msg.rtt) (trips_stored rest)

    pub gaps_stored :
        (ms : List (PgmDps F))
        → map row_of (upload_probe_gap_measurements datetime experiment_id ms)
          ≡ flat_map (gap_rows datetime experiment_id) ms
    unfolding upload_probe_gap_measurements
    gaps_stored [] = refl
    gaps_stored (msg ∷ rest) =
        map-append row_of (pgm_points datetime experiment_id msg (datetime (pos msg.timestamp)))
          (upload_probe_gap_measurements datetime experiment_id rest)
        ∙ ap₂ ◌++◌ (one (datetime (pos msg.timestamp))) (gaps_stored rest)
      where
        each :
            (ts : T) (dps : List (PgmDp F))
            → map row_of (map (pgm_point datetime experiment_id msg ts) dps)
              ≡ map (gap_row datetime experiment_id msg ts) dps
        each ts [] = refl
        each ts (dp ∷ dps) =
            ap₂ ◌∷◌
              (link_row_lem "pgm" (some msg.sender_ip) (some msg.receiver_ip)
                (gap_fields datetime experiment_id ts dp))
              (each ts dps)

        one :
            (at : Option T)
            → map row_of (pgm_points datetime experiment_id msg at)
              ≡ when_some at (λ ts. map (gap_row datetime experiment_id msg ts) msg.pgm_dp)
        one none = refl
        one (some ts) = each ts msg.pgm_dp

    pub thputs_stored :
        (dps : List (ThroughputDp F))
        → map row_of (upload_throughput datetime experiment_id dps)
          ≡ flat_map (thput_rows datetime experiment_id) dps
    unfolding upload_throughput throughput_query range join
    thputs_stored [] = refl
    thputs_stored (dp ∷ rest) =
        map-append row_of
          (throughput_row datetime experiment_id dp (datetime (as_i64 dp.timestamp)))
          (upload_throughput datetime experiment_id rest)
        ∙ ap₂ ◌++◌ (one (datetime (as_i64 dp.timestamp))) (thputs_stored rest)
      where
        one :
            (at : Option T)
            → map row_of (throughput_row datetime experiment_id dp at)
              ≡ when_some at (thput_row datetime experiment_id dp)
        one none = refl
        one (some ts) = refl
