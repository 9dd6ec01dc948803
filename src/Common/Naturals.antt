-- ===== src/Common/Naturals.antt =====
-- JavaScript numbers that are natural numbers.
use Prim.Native.Nat.{ℕ, zero, suc, ◌+◌, ◌*◌, ◌/◌, ◌%◌, ◌<◌}
use mathlib.Core.Path.{◌≡◌, refl, ap, ◌∙◌}
use mathlib.Core.Logic.{◌↔◌}
use mathlib.Core.Bool.{Bool, true, false, not, ◌&&◌}
use native.Mathlib.Omega.{arith}
use native.Mathlib.Nat.{
  div-add-mod', mul-mod_left, mul_assoc, mul_comm, mul-pos, lt_of_mul-lt-mul_right,
  mul-lt-mul_of_pos_right,
}
use ai_knowledge_system.Common.Tests.{ltb}
use ai_knowledge_system.Common.Numbers.{
  Number, fraction, infinity, not_a_number, is_integer, lt_zero, equals_natural, gt,
}

integer_iff :
    (negative : Bool) (over under : ℕ)
    → ((is_integer (fraction negative over under) && not (lt_zero (fraction negative over under)))
        ≡ true)
      ↔ ((n : ℕ) × (equals_natural (fraction negative over under) n ≡ true))
unfolding is_integer lt_zero equals_natural
integer_iff negative over under =
    let d = under + 1 in
    let whole : over / d * d + over % d ≡ over = div-add-mod' over d in
    (
      λ e.
          let exact : over % d ≡ 0 = ground arith in
          let eq : over ≡ over / d * d = omega (arith, whole, exact) in (over / d, ground arith),
      λ (n, e).
          let eq : over ≡ n * d = ground arith in
          let exact : over % d ≡ 0 = rw eq (mul-mod_left n d) in ground arith,
    )

-- An integer that is not negative is a natural number.
pub natural_iff :
    (value : Number)
    → ((is_integer value && not (lt_zero value)) ≡ true)
      ↔ ((n : ℕ) × (equals_natural value n ≡ true))
unfolding is_integer equals_natural
natural_iff (fraction negative over under) = integer_iff negative over under
natural_iff (infinity negative) = (λ e. cc, λ (n, e). cc)
natural_iff not_a_number = (λ e. cc, λ (n, e). cc)

-- Both sides brought to one denominator.
scaled_lt : (b d m n : ℕ) → 0 < b → 0 < d → (m * d * b < n * b * d) ↔ (m < n)
scaled_lt b d m n p q =
    let k = d * b in
    let left : m * d * b ≡ m * k = mul_assoc m d b in
    let right : n * b * d ≡ n * k = mul_assoc n b d ∙ ap (λ j. n * j) (mul_comm b d) in
    (
      λ h. lt_of_mul-lt-mul_right k (rw (← left, ← right) h),
      λ h. rw (left, right) (mul-lt-mul_of_pos_right h (mul-pos q p)),
    )

by_parts :
    (a b c d n m : ℕ)
    → a ≡ n * (b + 1)
    → c ≡ m * (d + 1)
    → (ltb (c * (b + 1)) (a * (d + 1)) ≡ true) ↔ (m < n)
by_parts a b c d n m e f =
    let (to, from) = scaled_lt (b + 1) (d + 1) m n (omega arith) (omega arith) in
    (
      λ h. let less : c * (b + 1) < a * (d + 1) = ground arith in to (rw (← e, ← f) less),
      λ h. let less : c * (b + 1) < a * (d + 1) = rw (e, f) (from h) in ground arith,
    )

zero_of : (n b : ℕ) → 0 ≡ n * (b + 1) → n ≡ 0
zero_of zero b e = refl
zero_of (suc n) b e = absurd (omega (arith, e))

positive_iff : (n b : ℕ) → (0 < n * (b + 1)) ↔ (0 < n)
positive_iff zero b = (λ h. omega (arith, h), λ h. omega (arith, h))
positive_iff (suc n) b = (λ h. omega arith, λ h. mul-pos h (omega arith))

-- Two natural numbers compare as numbers.
pub gt_iff :
    (x y : Number) (n m : ℕ)
    → equals_natural x n ≡ true
    → equals_natural y m ≡ true
    → (gt x y ≡ true) ↔ (m < n)
unfolding equals_natural gt
gt_iff (fraction false a b) (fraction false c d) n m e f =
    by_parts a b c d n m (ground arith) (ground arith)
gt_iff (fraction true a b) (fraction false c d) n m e f =
    let none : n ≡ 0 = zero_of n b (ground arith) in (λ h. cc, λ h. absurd (omega (arith, h, none)))
gt_iff (fraction false a b) (fraction true c d) n m e f =
    let none : m ≡ 0 = zero_of m d (ground arith) in
    let absent : c ≡ 0 = ground arith in
    let whole : a ≡ n * (b + 1) = ground arith in
    let (to, from) = positive_iff n b in
    (
      λ h.
          let some : 0 < a = ground arith in
          let many : 0 < n = to (rw (← whole) some) in omega (arith, none, many),
      λ h. let some : 0 < a = rw whole (from (omega (arith, none, h))) in ground arith,
    )
gt_iff (fraction true a b) (fraction true c d) n m e f =
    let first : n ≡ 0 = zero_of n b (ground arith) in
    let second : m ≡ 0 = zero_of m d (ground arith) in
    let absent : a ≡ 0 = ground arith in
    let missing : c ≡ 0 = ground arith in
    (λ h. absurd (ground arith), λ h. absurd (omega (arith, h, first, second)))
gt_iff (infinity s) y n m e f = cc
gt_iff not_a_number y n m e f = cc
gt_iff (fraction s a b) (infinity t) n m e f = cc
gt_iff (fraction s a b) not_a_number n m e f = cc
