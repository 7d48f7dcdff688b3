-- ===== src/Net/BwServer/Streaming.antt =====
-- What reaches the server of the messages that are broadcast.
use network_listener.Prelude.{
  ℕ, zero, suc, ◌+◌, ◌≡◌, refl, ap, Bool, true, false, List, [], ◌∷◌, ◌++◌, length, length-append,
  arith,
}
use network_listener.Net.BwServer.{Item, message, lagged, msg_stream, answered, stream_data_msg}

-- this many attempts that failed
abbrev pub refusals : ℕ → List Bool
refusals zero = []
refusals (suc n) = false ∷ refusals n

module _ {M : Type 0} where
  -- What a receiver gets of these messages: each of them, or a number of them is dropped at once.
  pub data Delivers : List M → List (Item M) → Type 0 where
    done : Delivers [] []
    got :
        (m : M) {ms : List M} {items : List (Item M)}
        → Delivers ms items
        → Delivers (m ∷ ms) (message m ∷ items)
    dropped :
        (n : ℕ) (lost : List M) {ms all : List M} {items : List (Item M)}
        → n ≡ length lost
        → all ≡ lost ++ ms
        → Delivers ms items
        → Delivers all (lagged n ∷ items)

  -- how many were dropped
  abbrev pub lost_of : List (Item M) → ℕ
  lost_of [] = 0
  lost_of (message m ∷ items) = lost_of items
  lost_of (lagged n ∷ items) = n + lost_of items

  -- some messages of a list, in its order
  pub data IsPart : List M → List M → Type 0 where
    none : IsPart [] []
    take : (m : M) {xs ys : List M} → IsPart xs ys → IsPart (m ∷ xs) (m ∷ ys)
    skip : (m : M) {xs ys : List M} → IsPart xs ys → IsPart xs (m ∷ ys)

  skip_all : {xs ys : List M} (lost : List M) → IsPart xs ys → IsPart xs (lost ++ ys)
  skip_all [] p = p
  skip_all (m ∷ lost) p = skip m (skip_all lost p)

  streamed-IsPart :
      {ms : List M} {items : List (Item M)} → Delivers ms items → IsPart (msg_stream items) ms
  unfolding msg_stream
  streamed-IsPart done = none
  streamed-IsPart (got m d) = take m (streamed-IsPart d)
  streamed-IsPart (dropped n lost e a d) = rw a (skip_all lost (streamed-IsPart d))

  streamed-length :
      {ms : List M} {items : List (Item M)}
      → Delivers ms items
      → length (msg_stream items) + lost_of items ≡ length ms
  unfolding msg_stream
  streamed-length done = refl
  streamed-length (got m d) = omega (arith, streamed-length d)
  streamed-length (dropped n lost {ms} {all} {items} e a d) =
      omega (arith, streamed-length d, ap length a, length-append lost ms)

  attempts :
      (n : ℕ) (rest : List Bool) (items : List (Item M))
      → stream_data_msg (refusals n ++ true ∷ rest) true items ≡ (answered, n, msg_stream items)
  unfolding stream_data_msg
  attempts zero rest items = refl
  attempts (suc n) rest items = rw (attempts n rest items) refl

  -- If the server can be reached after any number of attempts and answers the call in the end, the
  -- stream has ended normally with one error reported for each attempt that failed. What was streamed
  -- of the messages that were broadcast since the receiver subscribed is a part of them in their
  -- order, and it misses just those that the broadcast itself dropped.
  pub stream_data_msg_lem :
      (n : ℕ) (rest : List Bool) (ms : List M) (items : List (Item M))
      → Delivers ms items
      → (stream_data_msg (refusals n ++ true ∷ rest) true items ≡ (answered, n, msg_stream items))
        × IsPart (msg_stream items) ms
        × (length (msg_stream items) + lost_of items ≡ length ms)
  stream_data_msg_lem n rest ms items d =
      (attempts n rest items, streamed-IsPart d, streamed-length d)
