-- ===== src/Durable/Queries.antt =====
-- server/workflows/execution-history-store.ts: which queries `assertExecutionHistoryListQuery` accepts.
use native.Mathlib.Nat.{
  div-add-mod', le-div_iff_mul-le, div-lt_iff_lt-mul, mul-div_left, mul-mod_left, mul-le-mul_right,
}
use ai_knowledge_system.Common.{
  ℕ, ◌+◌, ◌*◌, ◌≤◌, ◌<◌, ◌/◌, ◌%◌, Bool, true, false, not, ◌&&◌, ◌≡◌, refl, ◌↔◌, Option, none, some,
  arith, Number, fraction, infinity, not_a_number, integer, includes, is_text, is_text_iff, gt,
  is_safe_integer,
}
use ai_knowledge_system.Provenance.Validity.{HasText}
use ai_knowledge_system.Workflows.Types.{Mode}
use ai_knowledge_system.Durable.Names.{execution_history_modes, mode_name}
use ai_knowledge_system.Durable.Valid.Sequence.{IsNatural}
use ai_knowledge_system.Durable.Valid.Records.{is_known_mode}
use ai_knowledge_system.Durable.Store.{
  optionally, ExecutionHistoryListQuery, assert_execution_history_list_query,
}

abbrev is_limit : Number → Bool
is_limit limit = is_safe_integer limit && not (gt (integer 1) limit) && not (gt limit (integer 200))

-- A fraction in the interval, by its quotient.
limit-to :
    (over under : ℕ)
    → is_limit (fraction false over under) ≡ true
    → (n : ℕ) × (1 ≤ n) × (n ≤ 200) × IsNatural (fraction false over under) n
unfolding is_safe_integer gt
limit-to over under e =
    let d = under + 1 in
    let pos : 0 < d = omega arith in
    let exact : over % d ≡ 0 = ground arith in
    let low : 1 * d ≤ over = ground arith in
    let high : over < 201 * d = ground arith in
    let whole : over / d * d + over % d ≡ over = div-add-mod' over d in
    let below : over / d < 201 = (div-lt_iff_lt-mul pos).1 high in
    (
      over / d,
      (le-div_iff_mul-le pos).1 low,
      omega (arith, below),
      (refl, omega (arith, whole, exact)),
    )

limit-from :
    (over under n : ℕ)
    → 1 ≤ n
    → n ≤ 200
    → over ≡ n * (under + 1)
    → is_limit (fraction false over under) ≡ true
unfolding is_safe_integer gt
limit-from over under n low high e =
    let d = under + 1 in
    let pos : 0 < d = omega arith in
    let exact : over % d ≡ 0 = rw e (mul-mod_left n d) in
    let quotient : over / d ≡ n = rw e (mul-div_left n pos) in
    let least : 1 * d ≤ over = (le-div_iff_mul-le pos).0 (omega (arith, quotient, low)) in
    let most : over ≤ 200 * d = rw e (mul-le-mul_right d high) in ground arith

limit_iff :
    (limit : Number) → (is_limit limit ≡ true) ↔ ((n : ℕ) × (1 ≤ n) × (n ≤ 200) × IsNatural limit n)
unfolding is_safe_integer gt
limit_iff (fraction true over under) = (λ e. absurd (ground arith), λ (n, a, b, f). cc (f.0))
limit_iff (fraction false over under) =
    (limit-to over under, λ (n, a, b, f). limit-from over under n a b f.1)
limit_iff (infinity true) = (λ e. cc, λ (n, a, b, f). absurd f)
limit_iff (infinity false) = (λ e. cc, λ (n, a, b, f). absurd f)
limit_iff not_a_number = (λ e. cc, λ (n, a, b, f). absurd f)

-- `P` of the value, if there is one.
abbrev pub OnValue : {A : Type 0} → (A → Type 0) → Option A → Type 0
OnValue P none = Unit
OnValue P (some a) = P a

optionally_iff :
    {A : Type 0} {P : A → Type 0} (p : A → Bool)
    → ((a : A) → (p a ≡ true) ↔ P a)
    → (value : Option A) → (optionally p value ≡ true) ↔ OnValue P value
optionally_iff p each none = (λ e. tt, λ h. refl)
optionally_iff p each (some a) = each a

mode_passes :
    (mode : Option Mode)
    → optionally (λ m. includes execution_history_modes (mode_name m)) mode ≡ true
mode_passes none = refl
mode_passes (some mode) = is_known_mode mode

-- A query is accepted exactly when its scope is given, its capability, where it has one, is given too,
-- and its limit, where it has one, is a natural number from 1 to 200.
pub assert_execution_history_list_query_iff :
    (query : ExecutionHistoryListQuery)
    → (assert_execution_history_list_query query ≡ none) ↔ (
        HasText query.scope_key
        × OnValue HasText query.capability_id
        × OnValue (λ limit. (n : ℕ) × (1 ≤ n) × (n ≤ 200) × IsNatural limit n) query.limit)
unfolding assert_execution_history_list_query
assert_execution_history_list_query_iff query =
    let (scope_to, scope_from) = is_text_iff query.scope_key in
    let (capability_to, capability_from) = optionally_iff is_text is_text_iff query.capability_id in
    let (limit_to, limit_from) = optionally_iff is_limit limit_iff query.limit in
    let mode = mode_passes query.mode in
    (
      λ e. (scope_to (ground arith), capability_to (ground arith), limit_to (ground arith)),
      λ (a, b, c).
          let scope = scope_from a in
          let capability = capability_from b in let limit = limit_from c in ground arith,
    )
