-- ===== src/Prelude/HashMap.antt =====
-- `HashMap` and `HashSet`: the entries in the order in which they are iterated over. A search looks at
-- an entry only if the hash of the key leads it there, and takes it only if the keys are equal.
use Prim.Native.Nat.{ℕ, ◌+◌}
use mathlib.Core.Path.{◌≡◌, refl, subst}
use mathlib.Core.Bool.{Bool, true, false, ◌&&◌}
use mathlib.Core.Option.{Option, none, some, some-injective}
use mathlib.Core.List.{List, [], ◌∷◌}
use native.Mathlib.Omega.{arith}
use network_listener.Prelude.Tests.{if◌then◌else◌}
use network_listener.Prelude.Lists.{length, All}
pub mod Laws
pub mod Distinct

abbrev pub HashMap : Type 0 → Type 0 → Type 0
HashMap K V = List (K × V)

-- what a type of keys gives: `PartialEq`, and the words that `Hash` feeds to the hasher
pub record Hashed (K : Type 0) : Type 0 where
  pub equal : K → K → Bool
  pub words : K → List ℕ

-- the hasher: does the search for a key with these words come to an entry with those?
abbrev pub Prober : Type 0
Prober = List ℕ → List ℕ → Bool

-- a search comes to every entry that has the same hash
abbrev pub FindsSame : Prober → Type 0
FindsSame probe = (w : List ℕ) → probe w w ≡ true

abbrev pub hit : {K : Type 0} ⦃h : Hashed K⦄ → Prober → K → K → Bool
hit ⦃h⦄ probe k j = probe (h.words k) (h.words j) && h.equal k j

-- the number of entries that an insertion adds
abbrev pub grows : {V : Type 0} → Option V → ℕ
grows none = 1
grows (some v) = 0

module _ {K V : Type 0} ⦃h : Hashed K⦄ (probe : Prober) where
  unfoldable pub get : K → HashMap K V → Option V
  get k [] = none
  get k ((j, v) ∷ m) = if hit probe k j then some v else get k m

  -- an entry that is found keeps its key
  unfoldable pub insert : K → V → HashMap K V → HashMap K V
  insert k v [] = (k, v) ∷ []
  insert k v ((j, w) ∷ m) =
      let rest = insert k v m in if hit probe k j then (j, v) ∷ m else (j, w) ∷ rest

  unfoldable pub remove : K → HashMap K V → HashMap K V
  remove k [] = []
  remove k ((j, w) ∷ m) = let rest = remove k m in if hit probe k j then m else (j, w) ∷ rest

  pub length-insert :
      (k : K) (v : V) (m : HashMap K V) → length (insert k v m) ≡ length m + grows (get k m)
  unfolding get insert
  length-insert k v [] = refl
  length-insert k v ((j, w) ∷ m) = ground (arith, length-insert k v m)

  pub insert-All {κ} :
      (P : V → Type κ) (k : K) (v : V) (m : HashMap K V)
      → P v
      → All (λ e. P e.1) m
      → All (λ e. P e.1) (insert k v m)
  unfolding insert
  insert-All P k v [] p a = (p, tt)
  insert-All P k v ((j, w) ∷ m) p a = split (hit probe k j) (insert-All P k v m p a.1)
    where
      split :
          (b : Bool)
          → All (λ e. P e.1) (insert k v m)
          → All (λ e. P e.1) (if b then (j, v) ∷ m else (j, w) ∷ insert k v m)
      split true r = (p, a.1)
      split false r = (a.0, r)

  pub get-All {κ} :
      (P : V → Type κ) (k : K) (m : HashMap K V) {v : V}
      → All (λ e. P e.1) m
      → get k m ≡ some v
      → P v
  unfolding get
  get-All P k [] a e = cc
  get-All P k ((j, w) ∷ m) {v} a e = split (hit probe k j) e (get-All P k m a.1)
    where
      split : (b : Bool) → (if b then some w else get k m) ≡ some v → (get k m ≡ some v → P v) → P v
      split true e r = subst P (some-injective _ _ e) a.0
      split false e r = r e
