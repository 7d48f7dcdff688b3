-- ===== src/Registry/Regression.antt =====
-- src/listener/packet/estimation.rs: `robust_least_squares`, and the sorting of floats. Ordering two
-- floats of which one is not a number panics.
use network_listener.Prelude.{
  ℕ, zero, suc, ◌-◌, ◌/◌, ◌%◌, Bool, false, not, ◌&&◌, ◌||◌, Option, none, some, List, [], ◌∷◌, map,
  length, ltb, ◌==◌, if◌then◌else◌, Run, ok, panic, ◌>>=◌, sort_by,
}
use network_listener.Prelude.Double.{Double}

-- one point with its weight
pub record Point (F : Type 0) : Type 0 where
  pub weight : F
  pub px : F
  pub py : F

pub record Sums (F : Type 0) : Type 0 where
  pub sum_w : F
  pub sum_wx : F
  pub sum_wy : F
  pub sum_wxx : F
  pub sum_wxy : F

max_iter : ℕ
max_iter = 100

module _ {F : Type 0} ⦃f : Double F⦄ where
  open f use {add, sub, mul, div, abs, lt, le, of_nat, decimal, epsilon}

  -- only what is not a number fails to be equal to itself
  abbrev pub is_nan : F → Bool
  is_nan x = not (le x x)

  unfoldable pub any_nan : List F → Bool
  any_nan [] = false
  any_nan (x ∷ xs) = is_nan x || any_nan xs

  -- `sort_by(|a, b| a.partial_cmp(b).unwrap())`: every one of two values or more is compared
  unfoldable pub sort_floats : {A : Type 0} → (A → F) → List A → Run (List A)
  unfolding any_nan
  sort_floats key xs =
      if ltb 1 (length xs) && any_nan (map key xs)
      then panic
      else ok (sort_by (λ a b. le (key a) (key b)) xs)

  no_sums : Sums F
  no_sums = record {
    sum_w = of_nat 0;
    sum_wx = of_nat 0;
    sum_wy = of_nat 0;
    sum_wxx = of_nat 0;
    sum_wxy = of_nat 0;
  }

  weighted_sums : Sums F → List (Point F) → Sums F
  weighted_sums s [] = s
  weighted_sums s (p ∷ rest) =
      weighted_sums
        (record {
          sum_w = add s.sum_w p.weight;
          sum_wx = add s.sum_wx (mul p.weight p.px);
          sum_wy = add s.sum_wy (mul p.weight p.py);
          sum_wxx = add s.sum_wxx (mul (mul p.weight p.px) p.px);
          sum_wxy = add s.sum_wxy (mul (mul p.weight p.px) p.py);
        })
        rest

  residual : F → F → Point F → F
  residual a b p = abs (sub p.py (add (mul a p.px) b))

  -- `residuals[i]`; the index is always in range
  nth : List F → ℕ → F
  nth [] i = of_nat 0
  nth (x ∷ xs) zero = x
  nth (x ∷ xs) (suc i) = nth xs i

  -- of sorted residuals
  median : ℕ → List F → F
  unfolding nth
  median n residuals =
      if n % 2 == 1
      then nth residuals (n / 2)
      else div (add (nth residuals (n / 2 - 1)) (nth residuals (n / 2))) (of_nat 2)

  tol : F
  tol = decimal 1 4

  huber_threshold : F → F
  unfolding tol
  huber_threshold m = let delta = mul (decimal 1345 3) m in if lt delta tol then tol else delta

  reweigh : F → F → F → Point F → Point F
  unfolding residual
  reweigh a b delta p =
      let res = residual a b p in
      record p { weight = if le res delta then of_nat 1 else div delta res }

  -- the weights for the next round
  next_points : F → F → List (Point F) → Run (List (Point F))
  unfolding residual median huber_threshold reweigh
  next_points a b points = do
    residuals ← sort_floats (λ r. r) (map (residual a b) points)
    ok (map (reweigh a b (huber_threshold (median (length points) residuals))) points)

  has_converged : F → F → F → F → Bool
  unfolding tol
  has_converged a b a' b' = lt (abs (sub a' a)) tol && lt (abs (sub b' b)) tol

  -- the rounds of the loop that are left, and the last slope and intercept
  fit_rounds : ℕ → F → F → List (Point F) → Run (Option (F × F))
  unfolding weighted_sums no_sums next_points has_converged
  fit_rounds zero a b points = ok (some (a, b))
  fit_rounds (suc left) a b points =
      let s = weighted_sums no_sums points in
      let denominator = sub (mul s.sum_w s.sum_wxx) (mul s.sum_wx s.sum_wx) in
      let a' = div (sub (mul s.sum_w s.sum_wxy) (mul s.sum_wx s.sum_wy)) denominator in
      let b' = div (sub s.sum_wy (mul a' s.sum_wx)) s.sum_w in
      let next = next_points a' b' points >>= fit_rounds left a' b' in
      if lt (abs denominator) epsilon
      then ok none
      else if has_converged a b a' b'
      then ok (some (a', b'))
      else next

  point_of : F × F → Point F
  point_of xy = record { weight = of_nat 1; px = xy.0; py = xy.1 }

  -- the points are the pairs of the two slices
  unfoldable pub robust_least_squares : List (F × F) → Run (Option (F × F))
  unfolding fit_rounds max_iter point_of
  robust_least_squares [] = ok none
  robust_least_squares (p ∷ rest) =
      fit_rounds max_iter (of_nat 0) (of_nat 0) (map point_of (p ∷ rest))
