-- ===== src/Prelude/Double.antt =====
-- `f64`: the operations that the program uses, of which nothing is assumed.
use Prim.Native.Nat.{ℕ, ◌+◌, ◌-◌, ◌*◌, ◌/◌}
use mathlib.Core.Bool.{Bool}
use network_listener.Prelude.Tests.{ltb, leb, if◌then◌else◌}
use network_listener.Prelude.Int.{ℤ, pos}
use network_listener.Prelude.Words.{Duration}

pub record Double (F : Type 0) : Type 0 where
  pub add : F → F → F
  pub sub : F → F → F
  pub mul : F → F → F
  pub div : F → F → F
  pub abs : F → F
  pub min : F → F → F
  pub max : F → F → F
  pub lt : F → F → Bool
  pub le : F → F → Bool
  -- `n as f64`
  pub of_nat : ℕ → F
  -- the literal m * 10 ^ -e
  pub decimal : ℕ → ℕ → F
  pub epsilon : F
  -- `f64::MAX`
  pub max_value : F
  -- `x.ceil() as usize`
  pub ceil : F → ℕ
  -- `x as i32`
  pub to_i32 : F → ℤ
  -- `Duration::as_secs_f64`
  pub as_secs : Duration → F

-- Millionths as whole numbers, for runs of the model.
instance abbrev pub micro_double : Double ℕ
micro_double = record {
  add = λ a b. a + b;
  sub = λ a b. a - b;
  mul = λ a b. a * b / 1000000;
  div = λ a b. a * 1000000 / b;
  abs = λ a. a;
  min = λ a b. if leb a b then a else b;
  max = λ a b. if leb a b then b else a;
  lt = ltb;
  le = leb;
  of_nat = λ n. n * 1000000;
  decimal = λ m e. m * 1000000 / Prim.Native.Nat.◌^◌ 10 e;
  epsilon = 1;
  max_value = 1000000000000000000;
  ceil = λ a. (a + 999999) / 1000000;
  to_i32 = λ a. pos (a / 1000000);
  as_secs = λ d. d / 1000;
}
