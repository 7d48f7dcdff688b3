-- ===== src/Tests/Estimates.antt =====
-- Estimation at concrete inputs, with millionths for floats.
use network_listener.Prelude.{
  sort_by, ℕ, ◌*◌, ◌≡◌, refl, true, some, List, [], ◌∷◌, All, Mem, Returns, ok, arith, Option,
}
use network_listener.Prelude.Double.{micro_double}
use network_listener.Registry.Estimation.{
  GinGout, PabweSender, g_max_in, filter_gin_gacks, passive_pgm_abw, passive_pgm_abw_rls,
}
use network_listener.Registry.Regression.{sort_floats, robust_least_squares}
use network_listener.Registry.Estimation.Fitting.{line_estimate, passive_pgm_abw_lem}
use network_listener.Registry.Estimation.Filtering.{
  PositiveIsNumber, is_usable, kept, filter_gin_gacks_lem,
}

pub micro-PositiveIsNumber : PositiveIsNumber ℕ
micro-PositiveIsNumber x e = ground arith

abbrev point_of : ℕ → ℕ → ℕ → GinGout ℕ
point_of gin gout len = record {
  gout = gout;
  gin = gin;
  len = len * 1000000;
  num_acked = 1;
  timestamp = 5;
}

abbrev points : List (GinGout ℕ)
points = point_of 1000000 2000000 1500 ∷ point_of 1500000 1800000 1500 ∷ point_of 0 5 1500 ∷ []

abbrev sender : PabweSender ℕ
sender = record { dps = points }

filter_gin_gacks_lem_example : Returns (filter_gin_gacks 100000000 sender) λ dps.
    (dps ≡ kept 100000000 points)
    × All (λ dp. Mem dp points) dps
    × All (λ dp. is_usable 100000000 dp ≡ true) dps
filter_gin_gacks_lem_example = filter_gin_gacks_lem micro-PositiveIsNumber 100000000 sender

-- 625 bytes a second, in millionths, from the first two points
abbrev result : Option ℕ × List (GinGout ℕ)
result = (some 625000000, point_of 1000000 2000000 1500 ∷ point_of 1500000 1800000 1500 ∷ [])

estimated : passive_pgm_abw 100000000 sender ≡ ok result
unfolding passive_pgm_abw filter_gin_gacks sort_floats sort_by g_max_in
estimated = refl

estimated_rls : passive_pgm_abw_rls 100000000 sender ≡ ok result
unfolding passive_pgm_abw_rls filter_gin_gacks sort_floats sort_by g_max_in robust_least_squares
estimated_rls = refl

passive_pgm_abw_lem_example :
    passive_pgm_abw 100000000 sender
    ≡ ok (line_estimate 100000000 (kept 100000000 points), kept 100000000 points)
passive_pgm_abw_lem_example = passive_pgm_abw_lem micro-PositiveIsNumber 100000000 sender
