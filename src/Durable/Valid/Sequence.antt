-- ===== src/Durable/Valid/Sequence.antt =====
-- shared/execution-history.ts: which numbers pass as the sequence of an event.
use native.Mathlib.Nat.{div-add-mod', le-div_iff_mul-le, mul-div_left, mul-mod_left}
use ai_knowledge_system.Common.{
  ℕ, ◌+◌, ◌*◌, ◌≤◌, ◌<◌, ◌/◌, ◌%◌, true, false, ◌≡◌, refl, ◌↔◌, arith, Number, fraction, infinity,
  not_a_number, integer, gt, is_safe_integer, natural_of,
}
use ai_knowledge_system.Durable.Contract.{is_positive_safe}

-- The number `n`.
abbrev pub IsNatural : Number → ℕ → Type 0
IsNatural (fraction negative over under) n = (negative ≡ false) × (over ≡ n * (under + 1))
IsNatural (infinity negative) n = ⊥
IsNatural not_a_number n = ⊥

-- From 1 to 2^53 - 1.
abbrev pub IsPositiveSafe : Number → Type 0
IsPositiveSafe number = (n : ℕ) × (0 < n) × (n < 9007199254740992) × IsNatural number n

sequence-to :
    (over under : ℕ)
    → is_positive_safe (fraction false over under) ≡ true
    → IsPositiveSafe (fraction false over under)
unfolding is_positive_safe is_safe_integer gt
sequence-to over under e =
    let d = under + 1 in
    let pos : 0 < d = omega arith in
    let exact : over % d ≡ 0 = ground arith in
    let low : 1 * d ≤ over = ground arith in
    let below : over / d < 9007199254740992 = ground arith in
    let whole : over / d * d + over % d ≡ over = div-add-mod' over d in
    (over / d, (le-div_iff_mul-le pos).1 low, below, (refl, omega (arith, whole, exact)))

sequence-from :
    (over under n : ℕ)
    → 0 < n
    → n < 9007199254740992
    → over ≡ n * (under + 1)
    → is_positive_safe (fraction false over under) ≡ true
unfolding is_positive_safe is_safe_integer gt
sequence-from over under n low high e =
    let d = under + 1 in
    let pos : 0 < d = omega arith in
    let exact : over % d ≡ 0 = rw e (mul-mod_left n d) in
    let quotient : over / d ≡ n = rw e (mul-div_left n pos) in
    let least : 1 * d ≤ over = (le-div_iff_mul-le pos).0 (omega (arith, quotient, low)) in
    ground arith

pub is_positive_safe_iff : (n : Number) → (is_positive_safe n ≡ true) ↔ IsPositiveSafe n
unfolding is_positive_safe is_safe_integer gt
is_positive_safe_iff (fraction true over under) =
    (λ e. absurd (ground arith), λ (n, a, b, f). cc (f.0))
is_positive_safe_iff (fraction false over under) =
    (sequence-to over under, λ (n, a, b, f). sequence-from over under n a b f.1)
is_positive_safe_iff (infinity negative) = (λ e. cc, λ (n, a, b, f). absurd f)
is_positive_safe_iff not_a_number = (λ e. cc, λ (n, a, b, f). absurd f)

-- A natural number is read back from its number.
pub natural_of-integer : (n : ℕ) → natural_of (integer n) ≡ n
unfolding natural_of
natural_of-integer n = omega arith
