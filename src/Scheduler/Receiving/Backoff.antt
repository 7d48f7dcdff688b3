-- ===== src/Scheduler/Receiving/Backoff.antt =====
-- How long the server waits, and when it returns.
use network_listener.Prelude.{
  ℕ, zero, suc, ◌*◌, ◌^◌, ◌≤◌, ◌≡◌, refl, some, List, [], ◌∷◌, ◌++◌, sum_by, arith, Duration,
  from_secs,
}
use native.Mathlib.Nat.{pow-suc}
use network_listener.Scheduler.Receiving.{
  Serve, exited, failed, returned, min_duration, serve_loop, dispatch_server,
}

-- this many failed runs
abbrev pub failures : ℕ → List Serve
failures zero = []
failures (suc n) = failed ∷ failures n

-- the delay after `i` failures: three seconds, doubled each time, and at most 30
abbrev pub delay : ℕ → Duration
delay i = min_duration (from_secs 3 * 2 ^ i) (from_secs 30)

-- `delay` at i, i + 1, and so on
abbrev pub delays : ℕ → ℕ → List Duration
delays i zero = []
delays i (suc n) = delay i ∷ delays (suc i) n

doubled :
    (p : ℕ)
    → min_duration (min_duration (from_secs 3 * p) (from_secs 30) * 2) (from_secs 30)
      ≡ min_duration (from_secs 3 * (p * 2)) (from_secs 30)
doubled p = ground arith

delay_bound : (i : ℕ) → delay i ≤ from_secs 30
delay_bound i = ground arith

delay_next : (i : ℕ) → min_duration (delay i * 2) (from_secs 30) ≡ delay (suc i)
delay_next i = rw (pow-suc 2 i) (doubled (2 ^ i))

serve_loop-failures :
    (i n : ℕ) (rest : List Serve)
    → serve_loop (delay i) (failures n ++ exited ∷ rest) ≡ (returned, delays i n)
unfolding serve_loop
serve_loop-failures i zero rest = refl
serve_loop-failures i (suc n) rest = rw (delay_next i, serve_loop-failures (suc i) n rest) refl

delays_bound : (i n : ℕ) → sum_by (λ d. d) (delays i n) ≤ n * from_secs 30
delays_bound i zero = omega arith
delays_bound i (suc n) = omega (arith, delay_bound i, delays_bound (suc i) n)

-- Once a run of the server ends by itself, after any number of runs that failed, `dispatch_server`
-- returns, whatever would have come after it. It has slept once after each failure, first for three
-- seconds and then twice as long each time, but never longer than 30 seconds.
pub dispatch_server-returns :
    (addr n : ℕ) (rest : List Serve)
    → (dispatch_server (some addr) (failures n ++ exited ∷ rest) ≡ (returned, delays 0 n))
      × (sum_by (λ d. d) (delays 0 n) ≤ n * from_secs 30)
unfolding dispatch_server
dispatch_server-returns addr n rest = (serve_loop-failures 0 n rest, delays_bound 0 n)
