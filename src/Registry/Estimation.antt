-- ===== src/Registry/Estimation.antt =====
-- src/listener/packet/estimation.rs
pub mod Filtering
pub mod Fitting
use network_listener.Prelude.{
  ℕ, ◌+◌, Bool, true, false, ◌&&◌, Option, none, some, List, [], ◌∷◌, ◌++◌, length, is_empty, take,
  keep, map, if◌then◌else◌, ◌==◌, Run, ok, ◌>>=◌, SystemTime,
}
use network_listener.Prelude.Double.{Double}
use network_listener.Registry.Regression.{sort_floats, robust_least_squares}

pub record GinGout (F : Type 0) : Type 0 where
  pub gout : F
  pub gin : F
  pub len : F
  pub num_acked : ℕ
  pub timestamp : SystemTime

pub record PabweSender (F : Type 0) : Type 0 where
  pub dps : List (GinGout F)

pub record Moments (F : Type 0) : Type 0 where
  pub sum_x : F
  pub sum_y : F
  pub sum_xy : F
  pub sum_x2 : F
  pub count : ℕ

module _ {F : Type 0} ⦃f : Double F⦄ where
  open f use {add, sub, mul, div, abs, lt, le, of_nat, decimal, epsilon, ceil}

  unfoldable pub new : PabweSender F
  new = record { dps = [] }

  unfoldable pub push : PabweSender F → GinGout F → PabweSender F
  push s dp = record s { dps = s.dps ++ dp ∷ [] }

  unfoldable get_dp : GinGout F → F × F × SystemTime
  get_dp dp = (div dp.len dp.gin, div dp.gout dp.gin, dp.timestamp)

  -- `MIN_PAYLOAD_SIZE`
  abbrev min_payload_size : F
  min_payload_size = of_nat 1362

  -- `link_phy_cap as f64 / 8.0`
  abbrev phy_cap : ℕ → F
  phy_cap link_phy_cap = div (of_nat link_phy_cap) (of_nat 8)

  abbrev pub is_plausible : ℕ → GinGout F → Bool
  is_plausible link_phy_cap dp =
      lt (of_nat 0) dp.gin
      && le min_payload_size dp.len
      && lt (div dp.len dp.gin) (phy_cap link_phy_cap)
      && lt (div dp.len dp.gout) (phy_cap link_phy_cap)

  sum_gout : F → List (GinGout F) → F
  sum_gout acc [] = acc
  sum_gout acc (dp ∷ rest) = sum_gout (add acc dp.gout) rest

  -- `(len as f64 * 0.1).ceil() as usize`
  tenth : List (GinGout F) → ℕ
  tenth dps = ceil (mul (of_nat (length dps)) (decimal 1 1))

  -- the mean output gap of the tenth with the shortest input gaps
  unfoldable pub g_max_in : List (GinGout F) → F
  unfolding sum_gout tenth
  g_max_in sorted = let n = tenth sorted in div (sum_gout (of_nat 0) (take n sorted)) (of_nat n)

  unfoldable pub filter_gin_gacks : ℕ → PabweSender F → Run (List (GinGout F))
  filter_gin_gacks link_phy_cap s = do
    sorted ← sort_floats (λ (dp : GinGout F). dp.gin) (keep (is_plausible link_phy_cap) s.dps)
    ok (keep (λ dp. lt dp.gin (g_max_in sorted)) sorted)

  no_moments : Moments F
  no_moments = record {
    sum_x = of_nat 0;
    sum_y = of_nat 0;
    sum_xy = of_nat 0;
    sum_x2 = of_nat 0;
    count = 0;
  }

  -- the body of the loop
  add_point : Moments F → GinGout F → Moments F
  add_point m dp =
      let x = div dp.len dp.gin in
      let y = div dp.gout dp.gin in
      record {
        sum_x = add m.sum_x x;
        sum_y = add m.sum_y y;
        sum_xy = add m.sum_xy (mul x y);
        sum_x2 = add m.sum_x2 (mul x x);
        count = m.count + 1;
      }

  moments : Moments F → List (GinGout F) → Moments F
  unfolding add_point
  moments m [] = m
  moments m (dp ∷ rest) = moments (add_point m dp) rest

  -- an estimate counts if it is positive and below the capacity
  abbrev pub is_possible : ℕ → F → Bool
  is_possible link_phy_cap res = lt (of_nat 0) res && lt res (phy_cap link_phy_cap)

  bounded : ℕ → F → Option F
  bounded link_phy_cap res = if is_possible link_phy_cap res then some res else none

  -- slope and intercept from the sums, and where the line is at one
  solve : ℕ → Moments F → Option F
  unfolding bounded
  solve link_phy_cap m =
      let n = of_nat m.count in
      let numerator = sub (mul n m.sum_xy) (mul m.sum_x m.sum_y) in
      let denominator = sub (mul n m.sum_x2) (mul m.sum_x m.sum_x) in
      let a = div numerator denominator in
      let b = div (sub m.sum_y (mul a m.sum_x)) n in
      if m.count == 0
      then none
      else if lt (abs denominator) epsilon
      then none
      else if lt epsilon (abs a)
      then bounded link_phy_cap (div (sub (of_nat 1) b) a)
      else none

  unfoldable pub passive_pgm_abw : ℕ → PabweSender F → Run (Option F × List (GinGout F))
  unfolding solve moments no_moments
  passive_pgm_abw link_phy_cap s = if is_empty s.dps then ok (none, []) else do
    dps ← filter_gin_gacks link_phy_cap s
    ok (solve link_phy_cap (moments no_moments dps), dps)

  points : List (GinGout F) → List (F × F)
  points [] = []
  points (dp ∷ rest) =
      let more = points rest in
      if lt (abs dp.gin) epsilon then more else (div dp.len dp.gin, div dp.gout dp.gin) ∷ more

  from_line : ℕ → Option (F × F) → Option F
  unfolding bounded
  from_line link_phy_cap none = none
  from_line link_phy_cap (some (a, b)) =
      if lt (abs a) epsilon then none else bounded link_phy_cap (div (sub (of_nat 1) b) a)

  unfoldable pub passive_pgm_abw_rls : ℕ → PabweSender F → Run (Option F × List (GinGout F))
  unfolding points from_line
  passive_pgm_abw_rls link_phy_cap s = if is_empty s.dps then ok (none, []) else do
    dps ← filter_gin_gacks link_phy_cap s
    line ← robust_least_squares (points dps)
    ok (from_line link_phy_cap line, dps)
