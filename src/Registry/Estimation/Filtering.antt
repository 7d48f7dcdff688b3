-- ===== src/Registry/Estimation/Filtering.antt =====
-- Which data points the filter keeps, and which estimates are given.
use network_listener.Prelude.{
  ap, ℕ, zero, suc, Bool, ◌&&◌, take, ◌+◌, ◌≤◌, ◌<◌, ◌≡◌, refl, true, false, Option, none, some,
  List, [], ◌∷◌, length, is_empty, keep, map, All, All-keep, All-Mem, keep-All, ok, >>=-eq-ok,
  ok-injective, Returns, sort_by, sort_by-All, arith, Bool-cases, inl, inr, ltb, Mem,
}
use network_listener.Prelude.Double.{Double}
use network_listener.Registry.Regression.{is_nan, any_nan, sort_floats, robust_least_squares}
use network_listener.Registry.Estimation.{
  GinGout, PabweSender, is_plausible, is_possible, g_max_in, sum_gout, tenth, filter_gin_gacks,
  Moments, no_moments, add_point, moments, bounded, solve, passive_pgm_abw, points, from_line,
  passive_pgm_abw_rls,
}

-- what compares as greater than zero is a number
abbrev pub PositiveIsNumber : (F : Type 0) ⦃f : Double F⦄ → Type 0
PositiveIsNumber F ⦃f⦄ = (x : F) → f.lt (f.of_nat 0) x ≡ true → is_nan x ≡ false

module _ {F : Type 0} ⦃f : Double F⦄ where
  open f use {add, mul, div, lt, le, of_nat, decimal, ceil}

  any_nan-plausible :
      PositiveIsNumber F
      → (link_cap : ℕ) (dps : List (GinGout F)) → All (λ dp. is_plausible link_cap dp ≡ true) dps
      → any_nan (map (λ (dp : GinGout F). dp.gin) dps) ≡ false
  unfolding any_nan
  any_nan-plausible law link_cap [] h = refl
  any_nan-plausible law link_cap (dp ∷ rest) h =
      ground (arith, any_nan-plausible law link_cap rest, law dp.gin)

  sort_floats-total :
      {A : Type 0} (key : A → F) (xs : List A)
      → any_nan (map key xs) ≡ false
      → sort_floats key xs ≡ ok (sort_by (λ a b. f.le (key a) (key b)) xs)
  unfolding sort_floats
  sort_floats-total key xs h =
      rw h (elim (Bool-cases (ltb 1 (length xs))) [ inl e ↦ rw e | inr e ↦ rw e ])

  -- a full-sized payload behind a positive input gap, and below an eighth of the link's capacity
  -- over either gap
  abbrev pub is_usable : ℕ → GinGout F → Bool
  is_usable link_cap dp =
      lt (of_nat 0) dp.gin
      && le (of_nat 1362) dp.len
      && lt (div dp.len dp.gin) (div (of_nat link_cap) (of_nat 8))
      && lt (div dp.len dp.gout) (div (of_nat link_cap) (of_nat 8))

  -- the usable ones of the points, in order of their input gaps
  abbrev pub by_gap : ℕ → List (GinGout F) → List (GinGout F)
  by_gap link_cap dps = sort_by (λ a b. le a.gin b.gin) (keep (is_usable link_cap) dps)

  abbrev pub total : F → List F → F
  total acc [] = acc
  total acc (x ∷ xs) = total (add acc x) xs

  -- the mean output gap of the first tenth of the points, rounded up
  abbrev pub mean_gap : List (GinGout F) → F
  mean_gap dps =
      let n = ceil (mul (of_nat (length dps)) (decimal 1 1)) in
      div (total (of_nat 0) (take n (map (λ (dp : GinGout F). dp.gout) dps))) (of_nat n)

  -- the usable ones with an input gap below that mean
  abbrev pub kept : ℕ → List (GinGout F) → List (GinGout F)
  kept link_cap dps =
      let usable = by_gap link_cap dps in keep (λ dp. lt dp.gin (mean_gap usable)) usable

  sum_gout_lem :
      (acc : F) (n : ℕ) (dps : List (GinGout F))
      → sum_gout acc (take n dps) ≡ total acc (take n (map (λ (dp : GinGout F). dp.gout) dps))
  unfolding sum_gout
  sum_gout_lem acc zero dps = refl
  sum_gout_lem acc (suc n) [] = refl
  sum_gout_lem acc (suc n) (dp ∷ dps) = sum_gout_lem (add acc dp.gout) n dps

  g_max_in_lem : (dps : List (GinGout F)) → g_max_in dps ≡ mean_gap dps
  unfolding g_max_in tenth
  g_max_in_lem dps =
      let n = ceil (mul (of_nat (length dps)) (decimal 1 1)) in
      ap (λ x. div x (of_nat n)) (sum_gout_lem (of_nat 0) n dps)

  -- Where no value above zero is a NaN the filter does not panic. It returns, in order of their input
  -- gaps, exactly those of the recorded points that are usable and have an input gap below the mean
  -- output gap of the tenth of the usable ones with the shortest input gaps, rounded up. Usable is a
  -- point with a positive input gap, a payload of 1362 or more, and, over either gap, a rate below an
  -- eighth of the link's capacity.
  pub filter_gin_gacks_lem :
      PositiveIsNumber F
      → (link_cap : ℕ) (s : PabweSender F)
      → Returns (filter_gin_gacks link_cap s) λ dps.
        (dps ≡ kept link_cap s.dps)
        × All (λ dp. Mem dp s.dps) dps
        × All (λ dp. is_usable link_cap dp ≡ true) dps
  unfolding filter_gin_gacks
  filter_gin_gacks_lem law link_cap s =
      let usable = by_gap link_cap s.dps in
      let le_gin = λ (a b : GinGout F). le a.gin b.gin in
      let below = λ (dp : GinGout F). lt dp.gin (mean_gap usable) in
      let tested = keep-All (is_usable link_cap) s.dps in
      let run =
        sort_floats-total (λ (dp : GinGout F). dp.gin) (keep (is_usable link_cap) s.dps)
          (any_nan-plausible law link_cap (keep (is_usable link_cap) s.dps) tested) in
      (
        keep below usable,
        rw (run, g_max_in_lem usable) refl,
        (
          refl,
          All-keep _ below usable
              (sort_by-All _ le_gin _ (All-keep _ (is_usable link_cap) s.dps (All-Mem s.dps))),
          All-keep _ below usable (sort_by-All _ le_gin _ tested),
        ),
      )

  count-moments :
      (m : Moments F) (dps : List (GinGout F)) → (moments m dps).count ≡ m.count + length dps
  unfolding moments
  count-moments m [] = omega arith
  count-moments m (dp ∷ rest) = omega (arith, count-moments (add_point m dp) rest)

  bounded-possible :
      (link_cap : ℕ) (x : F) {res : F}
      → bounded link_cap x ≡ some res
      → is_possible link_cap res ≡ true
  unfolding bounded
  bounded-possible link_cap x e = ground arith

  solve-possible :
      (link_cap : ℕ) (m : Moments F) {res : F}
      → solve link_cap m ≡ some res
      → (is_possible link_cap res ≡ true) × (0 < m.count)
  unfolding solve
  solve-possible link_cap m e = ground arith

  -- An estimate by ordinary least squares is positive and below the link's capacity, and rests on at
  -- least one data point.
  pub passive_pgm_abw_possible :
      (link_cap : ℕ) (s : PabweSender F) {res : F} {dps : List (GinGout F)}
      → passive_pgm_abw link_cap s ≡ ok (some res, dps)
      → (is_possible link_cap res ≡ true) × (0 < length dps)
  unfolding passive_pgm_abw
  passive_pgm_abw_possible link_cap s {res} {dps} e = elim (Bool-cases (is_empty s.dps)) [
    | inl empty ↦ cc (rw empty at e)
    | inr full ↦
        let (kept, _, ret) = >>=-eq-ok (filter_gin_gacks link_cap s) _ (rw full at e) in
        estimated kept (ok-injective ret)
  ]
    where
      estimated :
          (kept : List (GinGout F))
          → ◌≡◌ {A = Option F × List (GinGout F)}
              (solve link_cap (moments no_moments kept), kept)
              (some res, dps)
          → (is_possible link_cap res ≡ true) × (0 < length dps)
      estimated kept ret =
          let solved : solve link_cap (moments no_moments kept) ≡ some res = cc in
          let same : kept ≡ dps = cc in
          let (possible, counted) = solve-possible link_cap (moments no_moments kept) solved in
          (possible, omega (arith, count-moments no_moments kept, ap length same))

  length-points-le : (dps : List (GinGout F)) → length (points dps) ≤ length dps
  unfolding points
  length-points-le [] = omega arith
  length-points-le (dp ∷ rest) = ground (arith, length-points-le rest)

  from_line-possible :
      (link_cap : ℕ) (line : Option (F × F)) {res : F}
      → from_line link_cap line ≡ some res
      → is_possible link_cap res ≡ true
  unfolding from_line
  from_line-possible link_cap none e = cc
  from_line-possible link_cap (some (a, b)) e = ground arith

  from_line-none : (link_cap : ℕ) → from_line {F = F} link_cap none ≡ none
  unfolding from_line
  from_line-none link_cap = refl

  robust-nonempty :
      (xys : List (F × F)) {line : F × F}
      → robust_least_squares xys ≡ ok (some line)
      → 0 < length xys
  unfolding robust_least_squares
  robust-nonempty [] e = cc
  robust-nonempty (xy ∷ rest) e = omega arith

  -- An estimate by robust regression is positive and below the link's capacity, and rests on at
  -- least one data point.
  pub passive_pgm_abw_rls_possible :
      (link_cap : ℕ) (s : PabweSender F) {res : F} {dps : List (GinGout F)}
      → passive_pgm_abw_rls link_cap s ≡ ok (some res, dps)
      → (is_possible link_cap res ≡ true) × (0 < length dps)
  unfolding passive_pgm_abw_rls
  passive_pgm_abw_rls_possible link_cap s {res} {dps} e = elim (Bool-cases (is_empty s.dps)) [
    | inl empty ↦ cc (rw empty at e)
    | inr full ↦
        let (kept, _, fitted) = >>=-eq-ok (filter_gin_gacks link_cap s) _ (rw full at e) in
        let (line, run, ret) = >>=-eq-ok (robust_least_squares (points kept)) _ fitted in
        estimated kept line run (ok-injective ret)
  ]
    where
      estimated :
          (kept : List (GinGout F)) (line : Option (F × F))
          → robust_least_squares (points kept) ≡ ok line
          → ◌≡◌ {A = Option F × List (GinGout F)} (from_line link_cap line, kept) (some res, dps)
          → (is_possible link_cap res ≡ true) × (0 < length dps)
      estimated kept none run ret =
          let solved : from_line link_cap none ≡ some res = cc in cc (from_line-none link_cap)
      estimated kept (some line) run ret =
          let solved : from_line link_cap (some line) ≡ some res = cc in
          let same : kept ≡ dps = cc in
          (
            from_line-possible link_cap (some line) solved,
            omega (arith, robust-nonempty (points kept) run, length-points-le kept, ap length same),
          )
