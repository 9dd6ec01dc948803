-- ===== src/Influence/References.antt =====
-- server/influence-receipt/reference-validator.ts: which inputs are resolved, and to what.
use ai_knowledge_system.Common.{
  ℕ, ◌≤◌, String, true, false, ◌≡◌, refl, ap, sym, ◌∙◌, ◌↔◌, none, some, List, [], ◌∷◌, arith,
  length, Number, equals_natural, gt, natural_iff, gt_iff,
}
use ai_knowledge_system.Provenance.Types.{Envelope, ReadProjection}
use ai_knowledge_system.Workflows.Kernel.State.{Kernel, Outcome, returned, thrown, after}
use ai_knowledge_system.Workflows.Kernel.Restore.{get_provenance_envelope}
use ai_knowledge_system.Workflows.Transitions.Reading.{
  shown_of, IsReadable, get_provenance_envelope_iff,
}
use ai_knowledge_system.Influence.Receipt.{
  reference_of, prepend, ReferencedSource, ReferenceInput, ResolvedReference, Resolution, resolved,
  refused, unreadable, assert_non_negative_integer, check_counts, read_sources,
  resolve_influence_receipt_provenance_references,
}

-- The counts are natural numbers, the first at least the second, which counts the sources.
abbrev pub HasGoodCounts : ReferenceInput → Type 0
HasGoodCounts input =
    (equals_natural input.referenced_object_count (length input.referenced_sources) ≡ true)
    × ((admitted : ℕ) × (equals_natural input.admitted_object_count admitted ≡ true)
        × (length input.referenced_sources ≤ admitted))

non_negative_iff :
    (value : Number) (name : String)
    → (assert_non_negative_integer value name ≡ none) ↔ ((n : ℕ) × (equals_natural value n ≡ true))
unfolding assert_non_negative_integer
non_negative_iff value name =
    let (to, from) = natural_iff value in
    (λ e. to (ground arith), λ h. let passed = from h in ground arith)

check_counts-none_iff : (input : ReferenceInput) → (check_counts input ≡ none) ↔ HasGoodCounts input
unfolding check_counts
check_counts-none_iff input =
    let x = input.referenced_object_count in
    let y = input.admitted_object_count in
    let n = length input.referenced_sources in
    (
      λ e.
          let first : assert_non_negative_integer y "admitted_object_count" ≡ none = ground arith in
          let same : equals_natural x n ≡ true = ground arith in
          let less : gt x y ≡ false = ground arith in
          let (m, natural) = (non_negative_iff y _).0 first in
          let compared = gt_iff x y n m same natural in
          (same, (m, natural, ground (arith, compared))),
      λ (same, (m, natural, le)).
          let first = (non_negative_iff y "admitted_object_count").1 (m, natural) in
          let second = (non_negative_iff x "referenced_object_count").1 (n, same) in
          let compared = gt_iff x y n m same natural in ground arith,
    )

abbrev state_after : Resolution → Kernel
state_after (resolved references k) = k
state_after (refused error k) = k
state_after (unreadable failure k) = k

prepend-resolved :
    (reference : ResolvedReference) (r : Resolution) (references : List ResolvedReference)
    (k : Kernel)
    → prepend reference r ≡ resolved references k
    → (later : List ResolvedReference) × (r ≡ resolved later k) × (references ≡ reference ∷ later)
prepend-resolved reference (resolved later k') references k e = (later, cc, cc)
prepend-resolved reference (refused error k') references k e = cc
prepend-resolved reference (unreadable failure k') references k e = cc

-- The kernel's reader.
abbrev read_source :
    (execution_id scope : String) → ReferencedSource → Kernel → Outcome ReadProjection
read_source execution_id scope source =
    get_provenance_envelope execution_id source.provenance_envelope_id (some scope)

abbrev read_all : (execution_id scope : String) → List ReferencedSource → Kernel → Resolution
read_all = read_sources get_provenance_envelope

module _ (execution_id scope : String) where
  -- What the outcome of one read leads to.
  abbrev step : ReferencedSource → List ReferencedSource → Outcome ReadProjection → Resolution
  step source rest (thrown failure k) = unreadable failure k
  step source rest (returned provenance k) =
      prepend (reference_of source provenance) (read_all execution_id scope rest k)

  read_all_lem :
      (source : ReferencedSource) (rest : List ReferencedSource) (k : Kernel)
      → read_all execution_id scope (source ∷ rest) k
        ≡ step source rest (read_source execution_id scope source k)
  unfolding read_sources
  read_all_lem source rest k = refl

  read_all-cons :
      (source : ReferencedSource) (rest : List ReferencedSource) (k : Kernel)
      (provenance : ReadProjection) (references : List ResolvedReference)
      → read_source execution_id scope source k ≡ returned provenance k
      → read_all execution_id scope rest k ≡ resolved references k
      → read_all execution_id scope (source ∷ rest) k
        ≡ resolved (reference_of source provenance ∷ references) k
  read_all-cons source rest k provenance references e f =
      read_all_lem source rest k
      ∙ ap (step source rest) e
      ∙ ap (prepend (reference_of source provenance)) f

  guarded :
      (source : ReferencedSource) (k k' : Kernel) (provenance : ReadProjection)
      → read_source execution_id scope source k ≡ returned provenance k'
      → k' ≡ k
  guarded source k k' provenance e =
      let (keeps, iff) =
        get_provenance_envelope_iff execution_id source.provenance_envelope_id (some scope) k
          provenance in
      ap after (sym e) ∙ keeps

  read_all-inv :
      (source : ReferencedSource) (rest : List ReferencedSource) (k k2 : Kernel)
      (references : List ResolvedReference)
      → read_all execution_id scope (source ∷ rest) k ≡ resolved references k2
      → (provenance : ReadProjection) × (later : List ResolvedReference) × (read_source execution_id
            scope source k
          ≡ returned provenance k)
        × (read_all execution_id scope rest k ≡ resolved later k2)
        × (references ≡ reference_of source provenance ∷ later)
  read_all-inv source rest k k2 references e =
      by_outcome (read_source execution_id scope source k) refl
        (sym (read_all_lem source rest k) ∙ e)
    where
      by_outcome :
          (outcome : Outcome ReadProjection)
          → read_source execution_id scope source k ≡ outcome
          → step source rest outcome ≡ resolved references k2
          → (provenance : ReadProjection) × (later : List ResolvedReference) × (read_source
                execution_id scope source k
              ≡ returned provenance k)
            × (read_all execution_id scope rest k ≡ resolved later k2)
            × (references ≡ reference_of source provenance ∷ later)
      by_outcome (thrown failure k') shown f = cc
      by_outcome (returned provenance k') shown f =
          let same = guarded source k k' provenance shown in
          let (later, read, eq) =
            prepend-resolved (reference_of source provenance) (read_all execution_id scope rest k')
              references k2 f in
          (provenance, later, rw same at shown, rw same at read, eq)

  -- The reference shows an envelope that may be read for the source.
  abbrev IsResolved : Kernel → ReferencedSource → ResolvedReference → Type 0
  IsResolved k source reference =
      (envelope : Envelope) × IsReadable execution_id source.provenance_envelope_id (some scope) k
        envelope
      × (reference ≡ reference_of source (shown_of envelope))

  abbrev pub AreResolved : Kernel → List ReferencedSource → List ResolvedReference → Type 0
  AreResolved k [] [] = Unit
  AreResolved k [] (reference ∷ references) = ⊥
  AreResolved k (source ∷ rest) [] = ⊥
  AreResolved k (source ∷ rest) (reference ∷ references) =
      IsResolved k source reference × AreResolved k rest references

  read_all-to :
      (sources : List ReferencedSource) (k k2 : Kernel) (references : List ResolvedReference)
      → read_all execution_id scope sources k ≡ resolved references k2
      → AreResolved k sources references
  unfolding read_sources
  read_all-to [] k k2 [] e = tt
  read_all-to [] k k2 (reference ∷ references) e = cc
  read_all-to (source ∷ rest) k k2 references e =
      let (provenance, later, shown, read, eq) = read_all-inv source rest k k2 references e in
      let (keeps, iff) =
        get_provenance_envelope_iff execution_id source.provenance_envelope_id (some scope) k
          provenance in
      let (envelope, readable, same) = iff.0 shown in
      rw eq ((envelope, readable, ap (reference_of source) same), read_all-to rest k k2 later read)

  read_all-from :
      (sources : List ReferencedSource) (k : Kernel) (references : List ResolvedReference)
      → AreResolved k sources references
      → read_all execution_id scope sources k ≡ resolved references k
  unfolding read_sources
  read_all-from [] k [] h = refl
  read_all-from [] k (reference ∷ references) h = absurd h
  read_all-from (source ∷ rest) k [] h = absurd h
  read_all-from (source ∷ rest) k (reference ∷ references) ((envelope, readable, eq), h) =
      let (keeps, iff) =
        get_provenance_envelope_iff execution_id source.provenance_envelope_id (some scope) k
          (shown_of envelope) in
      rw eq (
        read_all-cons source rest k (shown_of envelope) references
          (iff.1 (envelope, readable, refl)) (read_all-from rest k references h))

-- Against the kernel, an input is resolved to a list of references exactly when its counts are
-- natural numbers, the referenced one the number of its sources and at most the admitted one, and the
-- list has one reference for each source, in order, which shows an envelope that may be read in the
-- execution and its scope; the kernel stays as it was.
pub resolve_influence_receipt_provenance_references_iff :
    (input : ReferenceInput) (k : Kernel) (references : List ResolvedReference)
    → (resolve_influence_receipt_provenance_references get_provenance_envelope input k
        ≡ resolved references k)
      ↔ (HasGoodCounts input
          × AreResolved input.execution_id input.resolved_scope k input.referenced_sources
              references)
unfolding resolve_influence_receipt_provenance_references
resolve_influence_receipt_provenance_references_iff input k references =
    let (to, from) = check_counts-none_iff input in
    let id = input.execution_id in
    let scope = input.resolved_scope in
    let sources = input.referenced_sources in
    (
      λ e.
          let passed : check_counts input ≡ none = ground arith in
          let read : read_all id scope sources k ≡ resolved references k = ground arith in
          (to passed, read_all-to id scope sources k k references read),
      λ (counts, h).
          let passed = from counts in
          let read = read_all-from id scope sources k references h in ground arith,
    )
