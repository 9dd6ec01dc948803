-- ===== src/Provenance/Validity.antt =====
-- server/provenance/service.ts: what an envelope without issues satisfies, stated field by field.
use ai_knowledge_system.Common.{
  String, Bool, true, false, not, ◌≡◌, refl, ◌≢◌, ◌↔◌, Option, none, some, List, [], ◌∷◌, ◌++◌,
  arith, Number, All, is_empty, codes, IsBlank, is_text_iff, lt_zero, gt_one, concat,
}
use ai_knowledge_system.Provenance.Types.{
  retrieval, transformation, governed_write, ProvenanceOperation, Envelope, EpistemicType, claim,
}
use ai_knowledge_system.Provenance.Service.{
  issue_if, non_empty, required_issues, required_strings, is_epistemic, bad_confidence,
  lineage_issues, operation_issues, validate,
}

pub iff_trans : {P Q R : Type 0} → P ↔ Q → Q ↔ R → P ↔ R
iff_trans p q = (λ h. q.0 (p.0 h), λ h. p.1 (q.1 h))

-- Two parts are empty exactly when both are.
pub both-nil_iff :
    {P Q : Type 0} (xs ys : List String) → (xs ≡ []) ↔ P → (ys ≡ []) ↔ Q → (xs ++ ys ≡ []) ↔ (P × Q)
both-nil_iff [] ys p q = (λ e. (p.0 refl, q.0 e), λ h. q.1 h.1)
both-nil_iff (x ∷ xs) ys p q = (λ e. cc, λ h. cc (p.1 h.0))

pub issue_if-nil_iff :
    {P : Type 0} (test : Bool) (issue : String)
    → (test ≡ false) ↔ P
    → (issue_if test issue ≡ []) ↔ P
issue_if-nil_iff true issue p = (λ e. cc, λ h. cc (p.1 h))
issue_if-nil_iff false issue p = (λ e. p.0 refl, λ h. refl)

pub issue_if-not-nil_iff :
    {P : Type 0} (test : Bool) (issue : String)
    → (test ≡ true) ↔ P
    → (issue_if (not test) issue ≡ []) ↔ P
issue_if-not-nil_iff true issue p = (λ e. p.0 refl, λ h. refl)
issue_if-not-nil_iff false issue p = (λ e. cc, λ h. cc (p.1 h))

pub is_empty-false_iff {ℓ} : {A : Type ℓ} (xs : List A) → (is_empty xs ≡ false) ↔ (xs ≢ [])
is_empty-false_iff xs = ground arith

-- The text has a character that is no white space.
abbrev pub HasText : String → Type 0
HasText s = ¬ IsBlank (codes s)

abbrev pub Given : Option String → Type 0
Given none = ⊥
Given (some s) = HasText s

pub non_empty_iff : (value : Option String) → (non_empty value ≡ true) ↔ Given value
unfolding non_empty
non_empty_iff none = ground arith
non_empty_iff (some s) = is_text_iff s

-- An envelope derives from evidence, by recorded steps.
pub record HasLineage (e : Envelope) : Type 0 where
  pub parents : e.parent_evidence_ids ≢ []
  pub steps : e.transform_chain ≢ []

-- A governed write was authorized: by a policy, in an episode, under a plan, with a receipt.
pub record IsAuthorizedWrite (e : Envelope) : Type 0 where
  pub lineage : HasLineage e
  pub authorized : e.write_authorized ≡ true
  pub policies : e.write_policy_refs ≢ []
  pub episode : Given e.mason_episode_id
  pub plan : Given e.write_plan_id
  pub authorization : Given e.authorization_id
  pub receipt : Given e.execution_receipt_id
  pub target : Given e.destination

abbrev pub MeetsOperation : ProvenanceOperation → Envelope → Type 0
MeetsOperation retrieval e = Given e.retrieved_at
MeetsOperation transformation e = HasLineage e
MeetsOperation governed_write e = IsAuthorizedWrite e

pub record IsValid (e : Envelope) : Type 0 where
  pub envelope_id : HasText e.envelope_id
  pub object_id : HasText e.object_id
  pub object_type : HasText e.object_type
  pub scope_key : HasText e.scope_key
  pub source_system : HasText e.source_system
  pub source_id : HasText e.source_id
  pub source_fingerprint : HasText e.source_fingerprint
  pub object_fingerprint : HasText e.object_fingerprint
  pub authority_owner : HasText e.authority_owner
  pub authority_domain : HasText e.authority_domain
  pub used_by_execution_id : HasText e.used_by_execution_id
  pub workflow_id : HasText e.workflow_id
  pub emitted_at : HasText e.emitted_at
  pub validated_at : HasText e.validated_at
  pub confidence :
      (value : Number)
      → e.confidence ≡ some value
      → (lt_zero value ≡ false) × (gt_one value ≡ false)
  pub access : e.access_policy_refs ≢ []
  pub operation : MeetsOperation e.operation e

required_issues-nil_iff :
    (fields : List (String × String))
    → (required_issues fields ≡ []) ↔ All (λ field. HasText field.1) fields
unfolding required_issues
required_issues-nil_iff [] = (λ e. tt, λ h. refl)
required_issues-nil_iff ((field, value) ∷ rest) =
    both-nil_iff _ _ (issue_if-not-nil_iff _ _ (is_text_iff value)) (required_issues-nil_iff rest)

lineage_issues-nil_iff :
    (e : Envelope) (operation : String) → (lineage_issues e operation ≡ []) ↔ HasLineage e
unfolding lineage_issues
lineage_issues-nil_iff e operation =
    let (to, from) =
      both-nil_iff _ _
        (issue_if-nil_iff _ (concat (operation ∷ " envelopes require parent_evidence_ids." ∷ []))
          (is_empty-false_iff e.parent_evidence_ids))
        (issue_if-nil_iff _ (concat (operation ∷ " envelopes require transform_chain." ∷ []))
          (is_empty-false_iff e.transform_chain)) in
    (λ h. record { parents = (to h).0; steps = (to h).1 }, λ l. from (l.parents, l.steps))

true_iff : (b : Bool) → (b ≡ true) ↔ (b ≡ true)
true_iff b = (λ h. h, λ h. h)

operation_issues-nil_iff :
    (operation : ProvenanceOperation) (e : Envelope)
    → (operation_issues operation e ≡ []) ↔ MeetsOperation operation e
unfolding operation_issues
operation_issues-nil_iff retrieval e = issue_if-not-nil_iff _ _ (non_empty_iff e.retrieved_at)
operation_issues-nil_iff transformation e = lineage_issues-nil_iff e "TRANSFORMATION"
operation_issues-nil_iff governed_write e =
    iff_trans
      (both-nil_iff _ _
        (both-nil_iff _ _
          (both-nil_iff _ _
            (both-nil_iff _ _
              (both-nil_iff _ _
                (both-nil_iff _ _
                  (both-nil_iff _ _ (lineage_issues-nil_iff e "GOVERNED_WRITE")
                    (issue_if-not-nil_iff e.write_authorized _ (true_iff e.write_authorized)))
                  (issue_if-nil_iff _ _ (is_empty-false_iff e.write_policy_refs)))
                (issue_if-not-nil_iff _ _ (non_empty_iff e.mason_episode_id)))
              (issue_if-not-nil_iff _ _ (non_empty_iff e.write_plan_id)))
            (issue_if-not-nil_iff _ _ (non_empty_iff e.authorization_id)))
          (issue_if-not-nil_iff _ _ (non_empty_iff e.execution_receipt_id)))
        (issue_if-not-nil_iff _ _ (non_empty_iff e.destination)))
      (
        λ h. record {
          lineage = h.0.0.0.0.0.0.0;
          authorized = h.0.0.0.0.0.0.1;
          policies = h.0.0.0.0.0.1;
          episode = h.0.0.0.0.1;
          plan = h.0.0.0.1;
          authorization = h.0.0.1;
          receipt = h.0.1;
          target = h.1;
        },
        λ w. (
          (
            (((((w.lineage, w.authorized), w.policies), w.episode), w.plan), w.authorization),
            w.receipt,
          ),
          w.target,
        ),
      )

is_epistemic-true : (e : EpistemicType) → is_epistemic e ≡ true
unfolding is_epistemic
is_epistemic-true claim = refl
is_epistemic-true _ = refl

abbrev InRange : Option Number → Type 0
InRange confidence =
    (value : Number) → confidence ≡ some value → (lt_zero value ≡ false) × (gt_one value ≡ false)

bad_confidence_iff :
    (confidence : Option Number) → (bad_confidence confidence ≡ false) ↔ InRange confidence
unfolding bad_confidence
bad_confidence_iff none = (λ h value e. cc, λ h. refl)
bad_confidence_iff (some value) =
    (λ h other e. ground (arith), λ h. let k = h value refl in ground arith)

-- An envelope has no issues exactly when every required text holds a visible character, the
-- confidence is in range, an access policy is named, and its operation's own rules are met.
pub validate-nil_iff : (e : Envelope) → (validate e ≡ []) ↔ IsValid e
unfolding validate
validate-nil_iff e =
    iff_trans
      (both-nil_iff _ _
        (both-nil_iff _ _
          (both-nil_iff _ _
            (both-nil_iff _ _ (required_issues-nil_iff (required_strings e))
              (issue_if-not-nil_iff _ _ (true_iff (is_epistemic e.epistemic_type))))
            (issue_if-nil_iff _ _ (bad_confidence_iff e.confidence)))
          (issue_if-nil_iff _ _ (is_empty-false_iff e.access_policy_refs)))
        (operation_issues-nil_iff e.operation e))
      (
        λ h. record {
          envelope_id = h.0.0.0.0.0;
          object_id = h.0.0.0.0.1.0;
          object_type = h.0.0.0.0.1.1.0;
          scope_key = h.0.0.0.0.1.1.1.0;
          source_system = h.0.0.0.0.1.1.1.1.0;
          source_id = h.0.0.0.0.1.1.1.1.1.0;
          source_fingerprint = h.0.0.0.0.1.1.1.1.1.1.0;
          object_fingerprint = h.0.0.0.0.1.1.1.1.1.1.1.0;
          authority_owner = h.0.0.0.0.1.1.1.1.1.1.1.1.0;
          authority_domain = h.0.0.0.0.1.1.1.1.1.1.1.1.1.0;
          used_by_execution_id = h.0.0.0.0.1.1.1.1.1.1.1.1.1.1.0;
          workflow_id = h.0.0.0.0.1.1.1.1.1.1.1.1.1.1.1.0;
          emitted_at = h.0.0.0.0.1.1.1.1.1.1.1.1.1.1.1.1.0;
          validated_at = h.0.0.0.0.1.1.1.1.1.1.1.1.1.1.1.1.1.0;
          confidence = h.0.0.1;
          access = h.0.1;
          operation = h.1;
        },
        λ v. (
          (
            (
              (
                (
                  v.envelope_id,
                  (
                    v.object_id,
                    (
                      v.object_type,
                      (
                        v.scope_key,
                        (
                          v.source_system,
                          (
                            v.source_id,
                            (
                              v.source_fingerprint,
                              (
                                v.object_fingerprint,
                                (
                                  v.authority_owner,
                                  (
                                    v.authority_domain,
                                    (
                                      v.used_by_execution_id,
                                      (v.workflow_id, (v.emitted_at, (v.validated_at, tt))),
                                    ),
                                  ),
                                ),
                              ),
                            ),
                          ),
                        ),
                      ),
                    ),
                  ),
                ),
                is_epistemic-true e.epistemic_type,
              ),
              v.confidence,
            ),
            v.access,
          ),
          v.operation,
        ),
      )
