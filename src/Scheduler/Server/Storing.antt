-- ===== src/Scheduler/Server/Storing.antt =====
-- What the server's statements store, for each of the messages, in the tables of up.sql.
use network_listener.Prelude.{
  ◌≡◌, refl, ap, ap₂, ◌∙◌, Bool, Option, none, some, List, [], ◌∷◌, ◌++◌, map, keep, arith,
}
use network_listener.Prelude.Int.{ℤ, pos, as_i64}
use network_listener.Tracking.LinkState.{PgmDp, PgmDps}
use network_listener.Net.Messages.{DataMsg, empty, bandwidth, hello, rtts, pgmmsg}
use network_listener.Scheduler.Database.{upload_throughput}
use network_listener.Scheduler.Database.Rows.{Row, row_of}
use network_listener.Scheduler.Database.Schema.{is_taken}
use network_listener.Scheduler.Database.Expected.{
  flat_map, when_some, state_row, trip_row, thput_row, gap_row, state_rows, trip_rows, gap_rows,
  thput_rows,
}
use network_listener.Scheduler.Database.Uploads.{
  map-append, states_stored, trips_stored, gaps_stored, thputs_stored,
}
use network_listener.Scheduler.Server.{
  ServerEvent, throughputs, received, all_closed, store_msg, run_server,
}

keep-append :
    {A : Type 0} (p : A → Bool) (xs ys : List A) → keep p (xs ++ ys) ≡ keep p xs ++ keep p ys
keep-append p [] ys = refl
keep-append p (x ∷ xs) ys = ground (arith, keep-append p xs ys)

flat_map-nil : {A B : Type 0} (xs : List A) → flat_map {B = B} (λ x. []) xs ≡ []
flat_map-nil [] = refl
flat_map-nil (x ∷ xs) = flat_map-nil xs

module _ {F T A : Type 0} where
  keep-flat_map :
      (f g : A → List (Row F T))
      → ((x : A) → keep is_taken (f x) ≡ g x)
      → (xs : List A) → keep is_taken (flat_map f xs) ≡ flat_map g xs
  keep-flat_map f g h [] = refl
  keep-flat_map f g h (x ∷ xs) =
      keep-append is_taken (f x) (flat_map f xs) ∙ ap₂ ◌++◌ (h x) (keep-flat_map f g h xs)

module _ {F T : Type 0} where
  keep-when_some :
      (f : T → List (Row F T))
      → ((ts : T) → keep is_taken (f ts) ≡ f ts)
      → (o : Option T) → keep is_taken (when_some o f) ≡ when_some o f
  keep-when_some f h none = refl
  keep-when_some f h (some ts) = h ts

  refused :
      (o : Option T) (f : T → List (Row F T))
      → ((ts : T) → keep is_taken (f ts) ≡ [])
      → keep is_taken (when_some o f) ≡ []
  refused none f h = refl
  refused (some ts) f h = h ts

module _ {F T : Type 0} (datetime : ℤ → Option T) (experiment_id : ℤ) where
  -- the rows of a message
  abbrev pub msg_rows : DataMsg F → List (Row F T)
  msg_rows empty = []
  msg_rows (bandwidth ls) = flat_map (state_rows datetime experiment_id) ls
  msg_rows (hello message) = []
  msg_rows (rtts ms) = flat_map (λ msg. flat_map (trip_rows datetime experiment_id msg) msg.rtt) ms
  msg_rows (pgmmsg ms) = flat_map (gap_rows datetime experiment_id) ms

  -- the rows of what came in before the channels were closed
  abbrev pub event_rows : List (ServerEvent F) → List (Row F T)
  event_rows [] = []
  event_rows (throughputs dps ∷ rest) =
      flat_map (thput_rows datetime experiment_id) dps ++ event_rows rest
  event_rows (received msg ∷ rest) = msg_rows msg ++ event_rows rest
  event_rows (all_closed ∷ rest) = []

  -- those of them that the tables take
  abbrev pub msg_taken : DataMsg F → List (Row F T)
  msg_taken empty = []
  msg_taken (bandwidth ls) = flat_map (state_rows datetime experiment_id) ls
  msg_taken (hello message) = []
  msg_taken (rtts ms) = []
  msg_taken (pgmmsg ms) = flat_map (gap_rows datetime experiment_id) ms

  abbrev pub event_taken : List (ServerEvent F) → List (Row F T)
  event_taken [] = []
  event_taken (throughputs dps ∷ rest) =
      flat_map (thput_rows datetime experiment_id) dps ++ event_taken rest
  event_taken (received msg ∷ rest) = msg_taken msg ++ event_taken rest
  event_taken (all_closed ∷ rest) = []

  msg_rows_lem :
      (msg : DataMsg F) → map row_of (store_msg datetime experiment_id msg) ≡ msg_rows msg
  unfolding store_msg
  msg_rows_lem empty = refl
  msg_rows_lem (bandwidth ls) = states_stored datetime experiment_id ls
  msg_rows_lem (hello message) = refl
  msg_rows_lem (rtts ms) = trips_stored datetime experiment_id ms
  msg_rows_lem (pgmmsg ms) = gaps_stored datetime experiment_id ms

  run_server_executes :
      (events : List (ServerEvent F))
      → map row_of (run_server datetime experiment_id events).0 ≡ event_rows events
  unfolding run_server
  run_server_executes [] = refl
  run_server_executes (throughputs dps ∷ rest) =
      map-append row_of (upload_throughput datetime experiment_id dps)
        (run_server datetime experiment_id rest).0
      ∙ ap₂ ◌++◌ (thputs_stored datetime experiment_id dps) (run_server_executes rest)
  run_server_executes (received msg ∷ rest) =
      map-append row_of (store_msg datetime experiment_id msg)
        (run_server datetime experiment_id rest).0
      ∙ ap₂ ◌++◌ (msg_rows_lem msg) (run_server_executes rest)
  run_server_executes (all_closed ∷ rest) = refl

  msg_taken_lem : (msg : DataMsg F) → keep is_taken (msg_rows msg) ≡ msg_taken msg
  msg_taken_lem empty = refl
  msg_taken_lem (bandwidth ls) =
      keep-flat_map _ (state_rows datetime experiment_id)
        (λ ls.
          keep-when_some (state_row datetime experiment_id ls) (λ ts. refl)
            (datetime (pos ls.timestamp)))
        ls
  msg_taken_lem (hello message) = refl
  msg_taken_lem (rtts ms) =
      keep-flat_map _ (λ msg. [])
        (λ msg.
          keep-flat_map _ (λ rtt. [])
            (λ rtt.
              refused (datetime (pos rtt.timestamp)) (trip_row datetime experiment_id msg rtt)
                (λ ts. refl))
            msg.rtt
          ∙ flat_map-nil msg.rtt)
        ms
      ∙ flat_map-nil ms
  msg_taken_lem (pgmmsg ms) =
      keep-flat_map _ (gap_rows datetime experiment_id)
        (λ msg.
          keep-when_some (λ ts. map (gap_row datetime experiment_id msg ts) msg.pgm_dp)
            (λ ts. each msg ts msg.pgm_dp) (datetime (pos msg.timestamp)))
        ms
    where
      each :
          (msg : PgmDps F) (ts : T) (dps : List (PgmDp F))
          → keep is_taken (map (gap_row datetime experiment_id msg ts) dps)
            ≡ map (gap_row datetime experiment_id msg ts) dps
      each msg ts [] = refl
      each msg ts (dp ∷ dps) =
          ap (λ rows. gap_row datetime experiment_id msg ts dp ∷ rows) (each msg ts dps)

  event_taken_lem :
      (events : List (ServerEvent F)) → keep is_taken (event_rows events) ≡ event_taken events
  event_taken_lem [] = refl
  event_taken_lem (throughputs dps ∷ rest) =
      keep-append is_taken (flat_map (thput_rows datetime experiment_id) dps) (event_rows rest)
      ∙ ap₂ ◌++◌
          (keep-flat_map _ (thput_rows datetime experiment_id)
            (λ dp.
              keep-when_some (thput_row datetime experiment_id dp) (λ ts. refl)
                (datetime (as_i64 dp.timestamp)))
            dps)
          (event_taken_lem rest)
  event_taken_lem (received msg ∷ rest) =
      keep-append is_taken (msg_rows msg) (event_rows rest)
      ∙ ap₂ ◌++◌ (msg_taken_lem msg) (event_taken_lem rest)
  event_taken_lem (all_closed ∷ rest) = refl

  -- Read as the database reads them, every column with the parameter of its placeholder, the
  -- statements that the server executes are exactly the rows of what it received before its channels
  -- were closed, in that order: one for each link state, round trip, gap and throughput whose time can
  -- be converted, with each value for the column of its name, and for all but the throughputs with the
  -- link of sender and receiver. With the tables of `up.sql` the database takes those of link states,
  -- gaps and throughputs, all of them, and refuses every round trip.
  pub run_server-rows :
      (events : List (ServerEvent F))
      → let rows = map row_of (run_server datetime experiment_id events).0 in
        (rows ≡ event_rows events) × (keep is_taken rows ≡ event_taken events)
  run_server-rows events = (
    run_server_executes events,
    ap (keep is_taken) (run_server_executes events) ∙ event_taken_lem events,
  )
