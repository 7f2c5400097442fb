-- ===== src/Base/Int.antt =====
-- Signed integers over the native numbers: C's `int`, whose range is stated where it matters.
use Prim.Native.Nat.{ℕ}
use mathlib.Core.Bool.{Bool, true, false}
use native.Mathlib.Decide.{ℕ_discrete}

-- `negsuc n` is -(n + 1).
pub data ℤ : Type 0 where
  pos : ℕ → ℤ
  negsuc : ℕ → ℤ

-- The sentinel -1 of page, frame and slot numbers.
abbrev pub minus_one : ℤ
minus_one = negsuc 0

abbrev pub is_neg : ℤ → Bool
is_neg (pos n) = false
is_neg (negsuc n) = true

discrete_lem : Discrete ℤ
discrete_lem = hlevel ℕ_discrete

unfoldable pub ℤ-discrete : Discrete ℤ
unfolding discrete_lem
ℤ-discrete = discrete_lem
