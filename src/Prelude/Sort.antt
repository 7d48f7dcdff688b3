-- ===== src/Prelude/Sort.antt =====
-- `slice::sort_by`, a stable sort, with what it promises.
use Prim.Native.Nat.{ℕ, ◌+◌}
use mathlib.Core.Path.{◌≡◌, refl}
use mathlib.Core.Bool.{Bool, true, false}
use mathlib.Core.List.{List, [], ◌∷◌, Perm}
use mathlib.Core.List.Perm
use native.Mathlib.Omega.{arith}
use network_listener.Prelude.Tests.{leb, if◌then◌else◌}
use network_listener.Prelude.Lists.{length, All, All-map}

module _ {ℓ} {A : Type ℓ} where
  -- `le a b` is `cmp(a, b) != Greater`
  insert_by : (A → A → Bool) → A → List A → List A
  insert_by le x [] = x ∷ []
  insert_by le x (y ∷ ys) = let rest = y ∷ insert_by le x ys in if le x y then x ∷ y ∷ ys else rest

  unfoldable pub sort_by : (A → A → Bool) → List A → List A
  unfolding insert_by
  sort_by le [] = []
  sort_by le (x ∷ xs) = insert_by le x (sort_by le xs)

  insert_by-perm : (le : A → A → Bool) (x : A) (ys : List A) → Perm (insert_by le x ys) (x ∷ ys)
  unfolding insert_by
  insert_by-perm le x [] = Perm.refl _
  insert_by-perm le x (y ∷ ys) =
      split (le x y) (Perm.trans (Perm.cons y (insert_by-perm le x ys)) (Perm.swap _ _ _))
    where
      split :
          (b : Bool)
          → Perm (y ∷ insert_by le x ys) (x ∷ y ∷ ys)
          → Perm (if b then x ∷ y ∷ ys else (y ∷ insert_by le x ys)) (x ∷ y ∷ ys)
      split true p = Perm.refl _
      split false p = p

  pub sort_by-perm : (le : A → A → Bool) (xs : List A) → Perm (sort_by le xs) xs
  unfolding sort_by
  sort_by-perm le [] = Perm.refl _
  sort_by-perm le (x ∷ xs) =
      Perm.trans (insert_by-perm le x (sort_by le xs)) (Perm.cons x (sort_by-perm le xs))

  insert_by-length :
      (le : A → A → Bool) (x : A) (ys : List A) → length (insert_by le x ys) ≡ length ys + 1
  unfolding insert_by
  insert_by-length le x [] = omega arith
  insert_by-length le x (y ∷ ys) = ground (arith, insert_by-length le x ys)

  pub length-sort_by : (le : A → A → Bool) (xs : List A) → length (sort_by le xs) ≡ length xs
  unfolding sort_by
  length-sort_by le [] = refl
  length-sort_by le (x ∷ xs) =
      omega (arith, insert_by-length le x (sort_by le xs), length-sort_by le xs)

  module _ {κ} (P : A → Type κ) (le : A → A → Bool) where
    insert_by-All : (x : A) (ys : List A) → P x → All P ys → All P (insert_by le x ys)
    unfolding insert_by
    insert_by-All x [] px h = (px, tt)
    insert_by-All x (y ∷ ys) px h = split (le x y) (insert_by-All x ys px h.1)
      where
        split :
            (b : Bool)
            → All P (insert_by le x ys)
            → All P (if b then x ∷ y ∷ ys else (y ∷ insert_by le x ys))
        split true r = (px, (h.0, h.1))
        split false r = (h.0, r)

    pub sort_by-All : (xs : List A) → All P xs → All P (sort_by le xs)
    unfolding sort_by
    sort_by-All [] h = tt
    sort_by-All (x ∷ xs) h = insert_by-All x (sort_by le xs) h.0 (sort_by-All xs h.1)

  -- every member comes no later than the ones behind it
  abbrev pub IsSorted : (A → A → Bool) → List A → Type 0
  IsSorted le [] = Unit
  IsSorted le (x ∷ xs) = All (λ y. le x y ≡ true) xs × IsSorted le xs

  module _ (le : A → A → Bool) (le_total : (a b : A) → le a b ≡ false → le b a ≡ true)
      (le_trans : (a b c : A) → le a b ≡ true → le b c ≡ true → le a c ≡ true) where
    insert_by-IsSorted : (x : A) (ys : List A) → IsSorted le ys → IsSorted le (insert_by le x ys)
    unfolding insert_by
    insert_by-IsSorted x [] s = (tt, tt)
    insert_by-IsSorted x (y ∷ ys) s = split (le x y) refl (insert_by-IsSorted x ys s.1)
      where
        split :
            (b : Bool)
            → le x y ≡ b
            → IsSorted le (insert_by le x ys)
            → IsSorted le (if b then x ∷ y ∷ ys else (y ∷ insert_by le x ys))
        split true e r = ((e, All-map _ _ ys (λ z h. le_trans x y z e h) s.0), (s.0, s.1))
        split false e r = (insert_by-All (λ z. le y z ≡ true) le x ys (le_total x y e) s.0, r)

    pub sort_by-IsSorted : (xs : List A) → IsSorted le (sort_by le xs)
    unfolding sort_by
    sort_by-IsSorted [] = tt
    sort_by-IsSorted (x ∷ xs) = insert_by-IsSorted x (sort_by le xs) (sort_by-IsSorted xs)

  -- `a.key().cmp(&b.key())`
  abbrev pub by_key : (A → ℕ) → A → A → Bool
  by_key key a b = leb (key a) (key b)

  pub sort_by_key-IsSorted :
      (key : A → ℕ) (xs : List A) → IsSorted (by_key key) (sort_by (by_key key) xs)
  sort_by_key-IsSorted key =
      sort_by-IsSorted (by_key key) (λ a b h. ground arith) (λ a b c h k. ground arith)
