-- ===== src/Prelude/Float64.antt =====
-- IEEE 754 doubles, which the source takes from the machine: a type with the operations that the
-- source applies, and the facts about them that a theorem may assume.
use Prim.Native.Nat.{ℕ, ◌+◌, ◌*◌, ◌/◌, ◌^◌, ◌<◌}
use mathlib.Core.Path.{◌≡◌}
use mathlib.Core.Bool.{Bool}
use uptime_mesh.Prelude.Tests.{ltb}

pub record Float64 (F : Type 0) : Type 0 where
  pub of_int : ℕ → F
  pub add : F → F → F
  pub mul : F → F → F
  pub div : F → F → F
  pub lt : F → F → Bool

-- What IEEE 754 guarantees of integers that a double holds exactly: `n / n` is 1, `0 / n` is 0, products of small
-- integers are exact, and the order of converted integers is theirs.
pub record Lawful {F : Type 0} (fl : Float64 F) : Type 0 where
  pub div_self : (n : ℕ) → 0 < n → n < 2 ^ 53 → fl.div (fl.of_int n) (fl.of_int n) ≡ fl.of_int 1
  pub div_zero : (n : ℕ) → 0 < n → n < 2 ^ 53 → fl.div (fl.of_int 0) (fl.of_int n) ≡ fl.of_int 0
  pub mul_int : (a b : ℕ) → a * b < 2000 → fl.mul (fl.of_int a) (fl.of_int b) ≡ fl.of_int (a * b)
  pub lt_int : (a b : ℕ) → a < 2000 → b < 2000 → fl.lt (fl.of_int a) (fl.of_int b) ≡ ltb a b

-- Whole numbers with truncating division have these operations and meet the laws.
abbrev pub whole : Float64 ℕ
whole = record { of_int = λ n. n; add = ◌+◌; mul = ◌*◌; div = ◌/◌; lt = ltb }
