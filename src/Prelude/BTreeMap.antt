-- ===== src/Prelude/BTreeMap.antt =====
-- `BTreeMap<u32, V>`: the entries in ascending order of their keys.
use Prim.Native.Nat.{ℕ, ◌+◌, ◌≤◌, ◌<◌}
use mathlib.Core.Path.{◌≡◌, refl}
use mathlib.Core.Option.{Option, none, some}
use mathlib.Core.List.{List, [], ◌∷◌}
use native.Mathlib.Omega.{arith}
use network_listener.Prelude.Tests.{ltb, ◌==◌, if◌then◌else◌}
use network_listener.Prelude.Lists.{length}

abbrev pub BTreeMap {ℓ} : Type ℓ → Type ℓ
BTreeMap V = List (ℕ × V)

module _ {ℓ} {V : Type ℓ} where
  unfoldable pub get : ℕ → BTreeMap V → Option V
  get k [] = none
  get k ((j, v) ∷ m) = if k == j then some v else get k m

  -- a key that is present keeps its place and gets the new value
  unfoldable pub insert : ℕ → V → BTreeMap V → BTreeMap V
  insert k v [] = (k, v) ∷ []
  insert k v ((j, w) ∷ m) =
      let rest = insert k v m in
      if ltb k j then (k, v) ∷ (j, w) ∷ m else if k == j then (k, v) ∷ m else (j, w) ∷ rest

  unfoldable pub remove : ℕ → BTreeMap V → BTreeMap V
  remove k [] = []
  remove k ((j, w) ∷ m) = let rest = remove k m in if k == j then m else (j, w) ∷ rest

  -- the keys ascend from above `lo`, so each occurs once
  abbrev pub IsAbove : ℕ → BTreeMap V → Type 0
  IsAbove lo [] = Unit
  IsAbove lo ((k, v) ∷ m) = (lo < k) × IsAbove k m

  abbrev pub Ascends : BTreeMap V → Type 0
  Ascends [] = Unit
  Ascends ((k, v) ∷ m) = IsAbove k m

  -- the number of entries that an insertion adds
  abbrev pub grows : Option V → ℕ
  grows none = 1
  grows (some v) = 0

  get-IsAbove : (k lo : ℕ) (m : BTreeMap V) → k ≤ lo → IsAbove lo m → get k m ≡ none
  unfolding get
  get-IsAbove k lo [] h a = refl
  get-IsAbove k lo ((j, v) ∷ m) h a = ground (arith, get-IsAbove k j m)

  insert-IsAbove :
      (lo k : ℕ) (v : V) (m : BTreeMap V) → lo < k → IsAbove lo m → IsAbove lo (insert k v m)
  unfolding insert
  insert-IsAbove lo k v [] h a = (h, tt)
  insert-IsAbove lo k v ((j, w) ∷ m) h a = ground (arith, insert-IsAbove j k v m)

  pub insert-Ascends : (k : ℕ) (v : V) (m : BTreeMap V) → Ascends m → Ascends (insert k v m)
  unfolding insert
  insert-Ascends k v [] a = tt
  insert-Ascends k v ((j, w) ∷ m) a = ground (arith, insert-IsAbove j k v m)

  pub IsAbove-le : (lo hi : ℕ) (m : BTreeMap V) → lo ≤ hi → IsAbove hi m → IsAbove lo m
  IsAbove-le lo hi [] h a = tt
  IsAbove-le lo hi ((k, v) ∷ m) h a = (omega arith, a.1)

  remove-IsAbove : (lo k : ℕ) (m : BTreeMap V) → IsAbove lo m → IsAbove lo (remove k m)
  unfolding remove
  remove-IsAbove lo k [] a = tt
  remove-IsAbove lo k ((j, w) ∷ m) a = ground (arith, remove-IsAbove j k m, IsAbove-le lo j m)

  pub length-insert :
      (k : ℕ) (v : V) (m : BTreeMap V)
      → Ascends m
      → length (insert k v m) ≡ length m + grows (get k m)
  unfolding insert get
  length-insert k v [] a = omega arith
  length-insert k v ((j, w) ∷ []) a = ground arith
  length-insert k v ((j, w) ∷ (i, u) ∷ m) a =
      ground (arith, length-insert k v ((i, u) ∷ m), get-IsAbove k j ((i, u) ∷ m))
