-- ===== src/Registry/Estimation/Fitting.antt =====
-- The estimate by ordinary least squares against the closed form of the line that it fits.
use network_listener.Prelude.{
  ℕ, ◌+◌, ◌≡◌, refl, ◌∙◌, ap, true, Run, ◌&&◌, ◌||◌, Option, none, some, List, [], ◌∷◌, length,
  is_empty, map, ◌==◌, if◌then◌else◌, ok, arith, Bool-cases, inl, inr, sort_by,
}
use network_listener.Prelude.Double.{Double}
use network_listener.Registry.Estimation.{
  GinGout, PabweSender, Moments, no_moments, add_point, moments, bounded, solve, passive_pgm_abw,
}
use network_listener.Registry.Estimation.Filtering.{
  PositiveIsNumber, total, kept, filter_gin_gacks_lem,
}

module _ {F : Type 0} ⦃f : Double F⦄ where
  open f use {add, sub, mul, div, abs, lt, of_nat, epsilon}

  -- the rate at which a point was sent, and by how much its gap was stretched
  abbrev pub rate : GinGout F → F
  rate dp = div dp.len dp.gin

  abbrev pub stretch : GinGout F → F
  stretch dp = div dp.gout dp.gin

  abbrev pub sum_of : (GinGout F → F) → List (GinGout F) → F
  sum_of g dps = total (of_nat 0) (map g dps)

  -- The line of least squares through the points, stretch over rate, by the closed form: the rate at
  -- which it says that a gap begins to be stretched. There is none without points, for points of one
  -- rate, for a line that is level, and if that rate is not positive or not below the capacity.
  abbrev pub line_estimate : ℕ → List (GinGout F) → Option F
  line_estimate link_cap dps =
      let n = of_nat (length dps) in
      let x = sum_of rate dps in
      let y = sum_of stretch dps in
      let xy = sum_of (λ dp. mul (rate dp) (stretch dp)) dps in
      let xx = sum_of (λ dp. mul (rate dp) (rate dp)) dps in
      let spread = sub (mul n xx) (mul x x) in
      let slope = div (sub (mul n xy) (mul x y)) spread in
      let intercept = div (sub y (mul slope x)) n in
      let turning = div (sub (of_nat 1) intercept) slope in
      if length dps == 0 || lt (abs spread) epsilon
      then none
      else if lt epsilon (abs slope)
          && (lt (of_nat 0) turning && lt turning (div (of_nat link_cap) (of_nat 8)))
      then some turning
      else none

  moments_lem :
      (m : Moments F) (dps : List (GinGout F))
      → moments m dps ≡ record {
        sum_x = total m.sum_x (map rate dps);
        sum_y = total m.sum_y (map stretch dps);
        sum_xy = total m.sum_xy (map (λ (dp : GinGout F). mul (rate dp) (stretch dp)) dps);
        sum_x2 = total m.sum_x2 (map (λ (dp : GinGout F). mul (rate dp) (rate dp)) dps);
        count = m.count + length dps;
      }
  unfolding moments add_point
  moments_lem m [] = ap (λ c. record m { count = c }) (omega arith)
  moments_lem m (dp ∷ rest) =
      moments_lem (add_point m dp) rest
      ∙ ap
          (λ c. record {
            sum_x = total (add m.sum_x (rate dp)) (map rate rest);
            sum_y = total (add m.sum_y (stretch dp)) (map stretch rest);
            sum_xy =
                total (add m.sum_xy (mul (rate dp) (stretch dp)))
                  (map (λ (p : GinGout F). mul (rate p) (stretch p)) rest);
            sum_x2 =
                total (add m.sum_x2 (mul (rate dp) (rate dp)))
                  (map (λ (p : GinGout F). mul (rate p) (rate p)) rest);
            count = c;
          })
          (omega arith)

  solve_lem :
      (link_cap : ℕ) (dps : List (GinGout F))
      → solve link_cap (moments no_moments dps) ≡ line_estimate link_cap dps
  unfolding solve bounded no_moments
  solve_lem link_cap dps = rw (moments_lem no_moments dps) (ground arith)

  -- Where no value above zero is a NaN the estimate by ordinary least squares never panics. It is the
  -- one of the closed form for the points that the filter keeps, which are returned with it.
  pub passive_pgm_abw_lem :
      PositiveIsNumber F
      → (link_cap : ℕ) (s : PabweSender F)
      → passive_pgm_abw link_cap s
        ≡ ok (line_estimate link_cap (kept link_cap s.dps), kept link_cap s.dps)
  unfolding passive_pgm_abw sort_by
  passive_pgm_abw_lem ieee link_cap s = elim (Bool-cases (is_empty s.dps)) [
    | inl empty ↦ rw empty (nothing s.dps empty)
    | inr full ↦
        let (dps, run, (e, _, _)) = filter_gin_gacks_lem ieee link_cap s in
        rw (full, run, e, solve_lem) refl
  ]
    where
      nothing :
          (dps : List (GinGout F))
          → is_empty dps ≡ true
          → ◌≡◌ {A = Run (Option F × List (GinGout F))}
              (ok (none, []))
              (ok (line_estimate link_cap (kept link_cap dps), kept link_cap dps))
      nothing [] e = refl
      nothing (dp ∷ dps) e = cc
