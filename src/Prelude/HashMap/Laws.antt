-- ===== src/Prelude/HashMap/Laws.antt =====
-- Searching after an insertion, for keys whose equality decides `≡`.
use mathlib.Core.Path.{◌≡◌, refl, subst}
use mathlib.Core.Logic.{◌↔◌, inl, inr, ◌≢◌}
use mathlib.Core.Bool.{true, false}
use mathlib.Core.Option.{some}
use mathlib.Core.List.{[], ◌∷◌}
use native.Mathlib.Omega.{arith}
use network_listener.Prelude.Tests.{Bool-cases}
use network_listener.Prelude.HashMap.{HashMap, Hashed, Prober, FindsSame, hit, get, insert}

-- `PartialEq` is equality
abbrev pub Decides : {K : Type 0} → Hashed K → Type 0
Decides {K} h = (a b : K) → (h.equal a b ≡ true) ↔ (a ≡ b)

module _ {K : Type 0} ⦃h : Hashed K⦄ (probe : Prober) (same : FindsSame probe)
    (dec : Decides h) where
  -- a search takes an entry exactly if its key is the one searched for
  pub hit_iff : (k j : K) → (hit probe k j ≡ true) ↔ (k ≡ j)
  hit_iff k j = (found, reached)
    where
      found : hit probe k j ≡ true → k ≡ j
      found e = elim (Bool-cases (h.equal k j)) [ inl y ↦ (dec k j).0 y | inr n ↦ ground (arith) ]

      reached : k ≡ j → hit probe k j ≡ true
      reached e = subst (λ i. hit probe k i ≡ true) e (rw (same (h.words k), (dec k k).1 refl) refl)

  pub hit-false : (k j : K) → k ≢ j → hit probe k j ≡ false
  hit-false k j ne = elim (Bool-cases (hit probe k j)) [
    | inl y ↦ absurd (ne ((hit_iff k j).0 y))
    | inr n ↦ n
  ]

  pub get-insert_self :
      {V : Type 0} (k : K) (v : V) (m : HashMap K V) → get probe k (insert probe k v m) ≡ some v
  unfolding get insert
  get-insert_self k v [] = rw ((hit_iff k k).1 refl) refl
  get-insert_self k v ((j, w) ∷ m) = elim (Bool-cases (hit probe k j)) [
    | inl y ↦ rw (y, y) refl
    | inr n ↦ rw (n, n) (get-insert_self k v m)
  ]

  pub get-insert_other :
      {V : Type 0} (k i : K) (v : V) (m : HashMap K V)
      → i ≢ k
      → get probe i (insert probe k v m) ≡ get probe i m
  unfolding get insert
  get-insert_other k i v [] ne = rw (hit-false i k ne) refl
  get-insert_other k i v ((j, w) ∷ m) ne = elim (Bool-cases (hit probe k j)) [
    | inl y ↦ rw y (rw (hit-false i j (λ e. ne (cc ((hit_iff k j).0 y)))) refl)
    | inr n ↦ rw n (elim (Bool-cases (hit probe i j)) [
      | inl y' ↦ rw y' refl
      | inr n' ↦ rw n' (get-insert_other k i v m ne)
    ])
  ]
