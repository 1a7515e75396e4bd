-- ===== src/Base/Int.antt =====
-- Signed values: the integer that a 32-bit pattern stands for, and C's division of integers.
use Prim.Native.Nat.{ℕ, zero, suc, ◌-◌, ◌/◌, ◌^◌}
use mathlib.Core.Bool.{Bool, true, false}
use haskell_os.Base.Tests.{ltb, if◌then◌else◌}

-- `negsuc n` is -(n + 1).
pub data ℤ : Type 0 where
  pos : ℕ → ℤ
  negsuc : ℕ → ℤ

abbrev pub magnitude : ℤ → ℕ
magnitude (pos n) = n
magnitude (negsuc n) = suc n

abbrev pub is_negative : ℤ → Bool
is_negative (pos n) = false
is_negative (negsuc n) = true

-- `x > 0`.
abbrev pub is_positive : ℤ → Bool
is_positive (pos zero) = false
is_positive (pos (suc n)) = true
is_positive (negsuc n) = false

abbrev pub minus : ℕ → ℤ
minus zero = pos 0
minus (suc n) = negsuc n

-- An `int` is its pattern, below 2^32.
abbrev pub signed32 : ℕ → ℤ
signed32 w = if ltb w (2 ^ 31) then pos w else negsuc (2 ^ 32 - w - 1)

abbrev pub same_sign : Bool → Bool → Bool
same_sign true b = b
same_sign false true = false
same_sign false false = true

-- C's `/` on integers rounds towards zero.
abbrev pub quotient : ℤ → ℤ → ℤ
quotient x y =
    if same_sign (is_negative x) (is_negative y)
    then pos (magnitude x / magnitude y)
    else minus (magnitude x / magnitude y)
