-- ===== src/Governance/Authority.antt =====
-- server/governance/research-delta-guards.ts: when an agent may use a tool.
use ai_knowledge_system.Common.{
  String, ◌≡◌, ◌≢◌, ◌↔◌, ◌⊎◌, refl, sym, ◌∙◌, true, false, List, [], ◌∷◌, arith, is_text_iff,
  trim_text, includes, All, Bool, Bool-cases, inl, inr, str_eq, eq_iff,
}
use ai_knowledge_system.Provenance.Validity.{
  HasText, iff_trans, both-nil_iff, issue_if-nil_iff, issue_if-not-nil_iff,
}
use ai_knowledge_system.Governance.Guards.{
  CapabilityClass, read_only, mutating, ToolAuthorityInput, allow, normalized_scopes,
  missing_scopes, mutation_issues, authority_reasons, evaluate_agent_tool_authority,
}

-- One of the principal's scopes is the required one, up to white space around it.
abbrev pub HasScope : (owned : List String) → (required : String) → Type 0
HasScope [] required = ⊥
HasScope (scope ∷ rest) required = (trim_text scope ≡ trim_text required) ⊎ HasScope rest required

abbrev pub IsGranted : (owned : List String) → (required : String) → Type 0
IsGranted owned required = (trim_text required ≢ "") × HasScope owned required

-- A tool that mutates is declared to, and only such a one.
abbrev pub IsDeclared : CapabilityClass → Bool → Type 0
IsDeclared read_only expected = expected ≡ false
IsDeclared mutating expected = expected ≡ true

includes-normalized_iff :
    (owned : List String) (required : String)
    → (includes (normalized_scopes owned) (trim_text required) ≡ true) ↔ IsGranted owned required
unfolding normalized_scopes
includes-normalized_iff [] required = (λ e. absurd (ground arith), λ h. absurd h.1)
includes-normalized_iff (scope ∷ rest) required =
    let (to, from) = includes-normalized_iff rest required in
    let same = eq_iff (trim_text scope) (trim_text required) in
    elim (Bool-cases (str_eq (trim_text scope) "")) [
      | inl bare ↦
          let none_there : trim_text scope ≡ "" = (eq_iff (trim_text scope) "").0 bare in
          (
            λ e. let (given, there) = to (rw bare at e) in (given, inr there),
            λ (given, there). rw bare (elim there [
              | inl e ↦ absurd (given (sym e ∙ none_there))
              | inr later ↦ from (given, later)
            ]),
          )
      | inr filled ↦ elim (Bool-cases (str_eq (trim_text scope) (trim_text required))) [
        | inl here ↦
            let e = same.0 here in
            let given : trim_text required ≢ "" =
              λ r. let bare = (eq_iff (trim_text scope) "").1 (e ∙ r) in ground arith in
            (λ _. (given, inl e), λ _. ground arith)
        | inr elsewhere ↦ (
          λ e. let (given, there) = to (ground arith) in (given, inr there),
          λ (given, there). elim there [
            | inl e ↦ let here = same.1 e in absurd (ground arith)
            | inr later ↦ let found = from (given, later) in ground arith
          ],
        )
      ]
    ]

missing_scopes-nil_iff :
    (owned required : List String)
    → (missing_scopes (normalized_scopes owned) required ≡ []) ↔ All (IsGranted owned) required
unfolding missing_scopes
missing_scopes-nil_iff owned [] = (λ _. tt, λ _. refl)
missing_scopes-nil_iff owned (scope ∷ rest) =
    both-nil_iff _ _ (issue_if-not-nil_iff _ _ (includes-normalized_iff owned scope))
      (missing_scopes-nil_iff owned rest)

mutation_issues-nil_iff :
    (class : CapabilityClass) (expected : Bool)
    → (mutation_issues class expected ≡ []) ↔ IsDeclared class expected
unfolding mutation_issues
mutation_issues-nil_iff read_only expected = issue_if-nil_iff expected _ (λ e. e, λ e. e)
mutation_issues-nil_iff mutating expected = issue_if-not-nil_iff expected _ (λ e. e, λ e. e)

pub record IsAuthority (input : ToolAuthorityInput) : Type 0 where
  pub principal : HasText input.principal_id
  pub tool : HasText input.tool_id
  pub revision : HasText input.tool_schema_revision
  pub run : HasText input.run_identity
  pub scopes : All (IsGranted input.principal_scopes) input.required_scopes
  pub declared : IsDeclared input.capability_class input.mutation_expected

authority_reasons-nil_iff :
    (input : ToolAuthorityInput) → (authority_reasons input ≡ []) ↔ IsAuthority input
unfolding authority_reasons
authority_reasons-nil_iff input =
    iff_trans
      (both-nil_iff _ _
        (both-nil_iff _ _
          (both-nil_iff _ _
            (both-nil_iff _ _
              (both-nil_iff _ _ (issue_if-not-nil_iff _ _ (is_text_iff input.principal_id))
                (issue_if-not-nil_iff _ _ (is_text_iff input.tool_id)))
              (issue_if-not-nil_iff _ _ (is_text_iff input.tool_schema_revision)))
            (issue_if-not-nil_iff _ _ (is_text_iff input.run_identity)))
          (missing_scopes-nil_iff input.principal_scopes input.required_scopes))
        (mutation_issues-nil_iff input.capability_class input.mutation_expected))
      (
        λ h. record {
          principal = h.0.0.0.0.0;
          tool = h.0.0.0.0.1;
          revision = h.0.0.0.1;
          run = h.0.0.1;
          scopes = h.0.1;
          declared = h.1;
        },
        λ a. (((((a.principal, a.tool), a.revision), a.run), a.scopes), a.declared),
      )

-- A tool call is allowed exactly when principal, tool, schema revision and run are named, each
-- required scope is one of the principal's, up to white space around it and not blank, and a tool is
-- declared to mutate exactly if its class says so.
pub evaluate_agent_tool_authority_iff :
    (input : ToolAuthorityInput)
    → ((evaluate_agent_tool_authority input).state ≡ allow) ↔ IsAuthority input
unfolding evaluate_agent_tool_authority
evaluate_agent_tool_authority_iff input =
    let (to, from) = authority_reasons-nil_iff input in
    (λ e. to (ground arith), λ a. let empty = from a in ground arith)
