-- ===== src/Common/Numbers.antt =====
-- JavaScript numbers, as far as the program compares them: a finite one is a signed fraction
-- `over / (under + 1)`, and the others are named.
use Prim.Native.Nat.{ℕ, ◌+◌, ◌*◌, ◌/◌, ◌%◌}
use mathlib.Core.Bool.{Bool, true, false, not, ◌&&◌, ◌||◌}
use ai_knowledge_system.Common.Tests.{ltb, ◌==◌}

pub data Number : Type 0 where
  fraction : (negative : Bool) (over under : ℕ) → Number
  infinity : (negative : Bool) → Number
  not_a_number : Number

abbrev pub integer : ℕ → Number
integer n = fraction false n 0

-- `value < 0`, false for -0 and for NaN.
unfoldable pub lt_zero : Number → Bool
lt_zero (fraction negative over under) = negative && ltb 0 over
lt_zero (infinity negative) = negative
lt_zero not_a_number = false

-- `value > 1`.
unfoldable pub gt_one : Number → Bool
gt_one (fraction negative over under) = not negative && ltb (under + 1) over
gt_one (infinity negative) = not negative
gt_one not_a_number = false

-- `Number.isFinite(value)`.
unfoldable pub is_finite : Number → Bool
is_finite (fraction negative over under) = true
is_finite (infinity negative) = false
is_finite not_a_number = false

-- `Number.isInteger(value)`.
unfoldable pub is_integer : Number → Bool
is_integer (fraction negative over under) = over % (under + 1) == 0
is_integer (infinity negative) = false
is_integer not_a_number = false

-- `Number.isSafeInteger(value)`: an integer whose size is at most 2^53 - 1.
unfoldable pub is_safe_integer : Number → Bool
is_safe_integer (fraction negative over under) =
    over % (under + 1) == 0 && ltb (over / (under + 1)) 9007199254740992
is_safe_integer (infinity negative) = false
is_safe_integer not_a_number = false

-- `value === n`, for a natural number `n`; -0 equals 0.
unfoldable pub equals_natural : Number → ℕ → Bool
equals_natural (fraction negative over under) n =
    over == n * (under + 1) && (not negative || over == 0)
equals_natural (infinity negative) n = false
equals_natural not_a_number n = false

-- `left > right`.
unfoldable pub gt : (left right : Number) → Bool
gt (fraction false a b) (fraction false c d) = ltb (c * (b + 1)) (a * (d + 1))
gt (fraction false a b) (fraction true c d) = ltb 0 (a + c)
gt (fraction true a b) (fraction false c d) = false
gt (fraction true a b) (fraction true c d) = ltb (a * (d + 1)) (c * (b + 1))
gt (fraction negative a b) (infinity other) = other
gt (infinity negative) (fraction other c d) = not negative
gt (infinity negative) (infinity other) = not negative && other
gt left not_a_number = false
gt not_a_number right = false

-- The natural number that a number is, of one that is.
unfoldable pub natural_of : Number → ℕ
natural_of (fraction negative over under) = over / (under + 1)
natural_of (infinity negative) = 0
natural_of not_a_number = 0
