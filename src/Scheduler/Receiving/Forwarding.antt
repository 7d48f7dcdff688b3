-- ===== src/Scheduler/Receiving/Forwarding.antt =====
-- What the handler of a stream passes on.
use network_listener.Prelude.{◌≡◌, refl, ap, ◌⊎◌, inl, inr, List, [], ◌∷◌, ◌++◌, map}
use network_listener.Scheduler.Receiving.{
  Arrival, taken, not_taken, broken, Reply, goodbye, internal, stream_error, client_stream,
}

module _ {M : Type 0} where
  -- the stream stops here
  pub data Stops : Arrival M → Reply → Type 0 where
    refused : (msg : M) → Stops (not_taken msg) (internal "Failed to send message to data receiver")
    broke : Stops broken stream_error

  -- Either every message of the stream is passed on, in its order, and the client is bidden goodbye;
  -- or just those are that come before the first one that is not taken in time, or before the first
  -- error of the stream, and the reply is the error that belongs to it.
  pub client_stream_lem :
      (arrivals : List (Arrival M))
      → ((arrivals ≡ map taken (client_stream arrivals).0)
          × ((client_stream arrivals).1 ≡ goodbye "Goodbye!"))
        ⊎ ((stop : Arrival M) × (rest : List (Arrival M)) × (arrivals
              ≡ map taken (client_stream arrivals).0 ++ stop ∷ rest)
            × Stops stop (client_stream arrivals).1)
  unfolding client_stream
  client_stream_lem [] = inl (refl, refl)
  client_stream_lem (not_taken msg ∷ rest) = inr (not_taken msg, rest, refl, refused msg)
  client_stream_lem (broken ∷ rest) = inr (broken, rest, refl, broke)
  client_stream_lem (taken msg ∷ rest) = elim (client_stream_lem rest) [
    | inl (e, r) ↦ inl (ap (λ l. taken msg ∷ l) e, r)
    | inr (stop, after, e, s) ↦ inr (stop, after, ap (λ l. taken msg ∷ l) e, s)
  ]
