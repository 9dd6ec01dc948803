-- ===== src/Governance/Publication.antt =====
-- server/governance/research-delta-guards.ts: when a publication is verified, and when a retry is
-- authorized.
use ai_knowledge_system.Common.{
  ◌⊎◌, String, ◌≡◌, ◌↔◌, refl, sym, ap, ◌∙◌, true, false, Option, none, some, arith, is_empty,
  is_text, trim, drop_space, truthy, Bool-cases, inl, inr, str_eq, eq_iff,
}
use ai_knowledge_system.Provenance.Service.{non_empty}
use ai_knowledge_system.Governance.Guards.{
  PublicationInput, Acknowledgement, ack, rejected, unknown, verified_published, conflicts, matches,
  blocked_reasons, by_acknowledgement, assess_staged_artifact_publication,
}

-- Staging and publishing are authorized, and the digest that was approved is the staged one.
abbrev pub IsApproved : PublicationInput → Type 0
IsApproved input =
    (input.stage_authorized ≡ true)
    × (input.publish_authorized ≡ true)
    × (is_text input.staged_digest ≡ true)
    × (input.approved_digest ≡ some input.staged_digest)

is_text-nil : is_text "" ≡ false
unfolding is_text trim drop_space
is_text-nil = refl

-- A digest that has text and does not conflict is the staged one.
agrees :
    (digest : Option String) (staged : String)
    → non_empty digest ≡ true
    → conflicts digest staged ≡ false
    → digest ≡ some staged
unfolding conflicts truthy non_empty
agrees none staged given free = absurd (ground arith)
agrees (some d) staged given free = elim (Bool-cases (str_eq d "")) [
  | inl bare ↦
      let e : d ≡ "" = (eq_iff d "").0 bare in
      let no_text : is_text d ≡ false = rw e is_text-nil in absurd (ground arith)
  | inr filled ↦
      let same : str_eq d staged ≡ true = ground arith in
      ap (λ t. some t) ((eq_iff d staged).0 same)
]

-- The staged digest does not conflict with itself.
conflicts_self : (staged : String) → conflicts (some staged) staged ≡ false
unfolding conflicts truthy
conflicts_self staged = ground (arith, eq_iff staged staged)

blocked_reasons-nil_iff :
    (input : PublicationInput) → (is_empty (blocked_reasons input) ≡ true) ↔ IsApproved input
unfolding blocked_reasons
blocked_reasons-nil_iff input = (
  λ e.
      let given : non_empty input.approved_digest ≡ true = ground arith in
      let free : conflicts input.approved_digest input.staged_digest ≡ false = ground arith in
      (
        ground arith,
        ground arith,
        ground arith,
        agrees input.approved_digest input.staged_digest given free,
      ),
  λ (stage, publish, text, approved).
      let given : non_empty input.approved_digest ≡ true = rw approved (unfold non_empty in text) in
      let free : conflicts input.approved_digest input.staged_digest ≡ false =
        rw approved (conflicts_self input.staged_digest) in
      ground arith,
)

matches_iff :
    (observed : Option String) (staged : String)
    → (matches observed staged ≡ true) ↔ (observed ≡ some staged)
unfolding matches
matches_iff none staged = (λ e. absurd (ground arith), λ e. absurd (ground arith))
matches_iff (some d) staged =
    (λ e. ap (λ t. some t) ((eq_iff d staged).0 e), λ e. ground (arith, eq_iff d staged))

Acknowledgement-cases : (a : Acknowledgement) → (a ≡ ack) ⊎ (a ≡ rejected) ⊎ (a ≡ unknown)
Acknowledgement-cases ack = inl refl
Acknowledgement-cases rejected = inr (inl refl)
Acknowledgement-cases unknown = inr (inr refl)

-- A digest that is missing or empty neither conflicts nor matches, and only such a one.
unobserved_iff :
    (observed : Option String) (staged : String)
    → is_text staged ≡ true
    → ((conflicts observed staged ≡ false) × (matches observed staged ≡ false))
      ↔ (truthy observed ≡ none)
unfolding conflicts matches truthy
unobserved_iff none staged text = (λ _. refl, λ _. (refl, refl))
unobserved_iff (some d) staged text = elim (Bool-cases (str_eq d "")) [
  | inl bare ↦
      let e : d ≡ "" = (eq_iff d "").0 bare in
      let differs : str_eq d staged ≡ false = elim (Bool-cases (str_eq d staged)) [
        | inl same ↦
            let f : staged ≡ "" = sym ((eq_iff d staged).0 same) ∙ e in
            let no_text : is_text staged ≡ false = rw f is_text-nil in absurd (ground arith)
        | inr other ↦ other
      ] in
      (λ _. ground arith, λ _. (ground arith, differs))
  | inr filled ↦ (λ h. absurd (ground arith), λ h. absurd (ground arith))
]

retry_if :
    (input : PublicationInput)
    → (assess_staged_artifact_publication input).retry_authorized ≡ true
    → (is_empty (blocked_reasons input) ≡ true)
      × (conflicts input.observed_published_digest input.staged_digest ≡ false)
      × (matches input.observed_published_digest input.staged_digest ≡ false)
      × (input.acknowledgement ≡ rejected)
unfolding assess_staged_artifact_publication by_acknowledgement
retry_if input e = elim (Acknowledgement-cases input.acknowledgement) [
  | inl a ↦ absurd (ground arith)
  | inr (inl a) ↦ (ground arith, ground arith, ground arith, a)
  | inr (inr a) ↦ absurd (ground arith)
]

verified_if :
    (input : PublicationInput)
    → (assess_staged_artifact_publication input).state ≡ verified_published
    → (is_empty (blocked_reasons input) ≡ true)
      × (matches input.observed_published_digest input.staged_digest ≡ true)
unfolding assess_staged_artifact_publication by_acknowledgement
verified_if input e =
    elim (Bool-cases (matches input.observed_published_digest input.staged_digest)) [
      | inl same ↦ (ground arith, same)
      | inr other ↦ elim (Acknowledgement-cases input.acknowledgement) [
        | inl a ↦ absurd (ground arith)
        | inr (inl a) ↦ absurd (ground arith)
        | inr (inr a) ↦ absurd (ground arith)
      ]
    ]

-- A publication is verified exactly when it was authorized, its staged digest was approved, and the
-- digest that is observed is the staged one; a retry is authorized exactly when it was authorized and
-- approved, no digest is observed, and the publication was rejected.
pub assess_staged_artifact_publication_lem :
    (input : PublicationInput)
    → let answer = assess_staged_artifact_publication input in
      ((answer.state ≡ verified_published)
        ↔ (IsApproved input × (input.observed_published_digest ≡ some input.staged_digest)))
      × ((answer.retry_authorized ≡ true) ↔ (
          IsApproved input
          × (truthy input.observed_published_digest ≡ none)
          × (input.acknowledgement ≡ rejected)))
unfolding assess_staged_artifact_publication by_acknowledgement
assess_staged_artifact_publication_lem input =
    let (clear_to, clear_from) = blocked_reasons-nil_iff input in
    let (same_to, same_from) = matches_iff input.observed_published_digest input.staged_digest in
    (
      (
        λ e. let (clear, same) = verified_if input e in (clear_to clear, same_to same),
        λ (approved, same).
            let clear = clear_from approved in
            let matching = same_from same in
            let free : conflicts input.observed_published_digest input.staged_digest ≡ false =
              rw same (conflicts_self input.staged_digest) in
            ground arith,
      ),
      (
        λ e.
            let (clear, free, other, down) = retry_if input e in
            let approved = clear_to clear in
            (
              approved,
              (unobserved_iff input.observed_published_digest input.staged_digest approved.2).0
                  (free, other),
              down,
            ),
        λ (approved, unseen, down).
            let clear = clear_from approved in
            let (free, other) =
              (unobserved_iff input.observed_published_digest input.staged_digest approved.2).1
                unseen in
            ground arith,
      ),
    )
