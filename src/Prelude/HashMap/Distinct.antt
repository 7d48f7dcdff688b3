-- ===== src/Prelude/HashMap/Distinct.antt =====
-- Maps whose keys are all different, as insertion makes them.
use mathlib.Core.Path.{◌≡◌, refl}
use mathlib.Core.Logic.{◌≢◌, inl, inr}
use mathlib.Core.Option.{some}
use mathlib.Core.List.{[], ◌∷◌}
use network_listener.Prelude.Tests.{Bool-cases}
use network_listener.Prelude.Lists.{All}
use network_listener.Prelude.HashMap.{HashMap, Hashed, Prober, FindsSame, hit, get, insert}
use network_listener.Prelude.HashMap.Laws.{Decides, hit_iff, hit-false}

abbrev pub Distinct : {K V : Type 0} → HashMap K V → Type 0
Distinct [] = Unit
Distinct ((k, v) ∷ m) = All (λ e. e.0 ≢ k) m × Distinct m

module _ {K V : Type 0} ⦃h : Hashed K⦄ (probe : Prober) where
  insert_keys :
      (P : K → Type 0) (k : K) (v : V) (m : HashMap K V)
      → P k
      → All (λ e. P e.0) m
      → All (λ e. P e.0) (insert probe k v m)
  unfolding insert
  insert_keys P k v [] p a = (p, tt)
  insert_keys P k v ((j, w) ∷ m) p a = elim (Bool-cases (hit probe k j)) [
    | inl y ↦ rw y a
    | inr n ↦ rw n (a.0, insert_keys P k v m p a.1)
  ]

  module _ (same : FindsSame probe) (dec : Decides h) where
    pub insert-Distinct :
        (k : K) (v : V) (m : HashMap K V) → Distinct m → Distinct (insert probe k v m)
    unfolding insert
    insert-Distinct k v [] d = (tt, tt)
    insert-Distinct k v ((j, w) ∷ m) d = elim (Bool-cases (hit probe k j)) [
      | inl y ↦ rw y d
      | inr n ↦ rw n (
        insert_keys (λ i. i ≢ j) k v m (λ e. cc ((hit_iff probe same dec k j).1 e)) d.0,
        insert-Distinct k v m d.1,
      )
    ]

    -- every entry is found by its key
    pub get-Distinct : (m : HashMap K V) → Distinct m → All (λ e. get probe e.0 m ≡ some e.1) m
    unfolding get
    get-Distinct [] d = tt
    get-Distinct ((k, v) ∷ m) d =
        (rw ((hit_iff probe same dec k k).1 refl) refl, behind m d.0 (get-Distinct m d.1))
      where
        behind :
            (l : HashMap K V)
            → All (λ e. e.0 ≢ k) l
            → All (λ e. get probe e.0 m ≡ some e.1) l
            → All (λ e. get probe e.0 ((k, v) ∷ m) ≡ some e.1) l
        behind [] a b = tt
        behind ((i, w) ∷ l) a b = (rw (hit-false probe same dec i k a.0) b.0, behind l a.1 b.1)
