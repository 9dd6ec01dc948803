-- ===== src/Durable/Valid.antt =====
-- shared/execution-history.ts: what the assertions demand, stated without the order of the tests.
pub mod Json
pub mod Sequence
pub mod Records
pub mod Bundles
use ai_knowledge_system.Common.{
  String, Bool, true, false, not, ◌≡◌, refl, ◌↔◌, inl, inr, Option, none, some, List, [], ◌∷◌,
  arith, All, or_option, is_text_iff,
}
use ai_knowledge_system.Provenance.Validity.{HasText}
use ai_knowledge_system.Durable.Types.{HistoryErrorCode, ContractError}
use ai_knowledge_system.Durable.Checks.{Check, refuse_if, in_turn, require_text}

-- The assertions in turn pass exactly when each of them does.
pub chain_iff :
    {P Q : Type 0} (check rest : Check)
    → (check ≡ none) ↔ P
    → (rest ≡ none) ↔ Q
    → (or_option check rest ≡ none) ↔ (P × Q)
chain_iff none rest p q = (λ e. (p.0 refl, q.0 e), λ h. q.1 h.1)
chain_iff (some error) rest p q = (λ e. cc, λ h. cc (p.1 h.0))

abbrev passed : Check
passed = none

pub end_iff : (passed ≡ none) ↔ Unit {0}
end_iff = (λ e. tt, λ h. refl)

-- All of the propositions.
abbrev pub Every : List (Type 0) → Type 0
Every parts = All (λ P. P) parts

module _ {P : Type 0} (test : Bool) (code : HistoryErrorCode) (message : List String) where
  pub refuse_if-none_iff : (test ≡ false) ↔ P → (refuse_if test code message ≡ none) ↔ P
  refuse_if-none_iff p = by_test test p
    where
      by_test : (b : Bool) → (b ≡ false) ↔ P → (refuse_if b code message ≡ none) ↔ P
      by_test true p = (λ e. cc, λ h. cc (p.1 h))
      by_test false p = (λ e. p.0 refl, λ h. refl)

  pub refuse_if-not-none_iff : (test ≡ true) ↔ P → (refuse_if (not test) code message ≡ none) ↔ P
  refuse_if-not-none_iff p = by_test test p
    where
      by_test : (b : Bool) → (b ≡ true) ↔ P → (refuse_if (not b) code message ≡ none) ↔ P
      by_test true p = (λ e. p.0 refl, λ h. refl)
      by_test false p = (λ e. cc, λ h. cc (p.1 h))

pub require_text-none_iff : (value name : String) → (require_text value name ≡ none) ↔ HasText value
unfolding require_text
require_text-none_iff value name = refuse_if-not-none_iff _ _ _ (is_text_iff value)
