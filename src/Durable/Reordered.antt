-- ===== src/Durable/Reordered.antt =====
-- server/workflows/durable-runtime.ts: `durableHistoryToSnapshot` of a bundle whose links come back in
-- another order, as `getByExecutionId` of server/workflows/d1-execution-history-store.ts gives them:
-- by their time and id.
use mathlib.Core.List.{Permᴰ}
use mathlib.Core.List.Permᴰ
use mathlib.Core.Path.{subst}
use ai_knowledge_system.Common.{
  String, Bool, true, ◌≡◌, refl, sym, ◌∙◌, ap, inl, inr, none, some, List, [], ◌∷◌, ◌++◌, map, find,
  arith, All, str_eq, eq_iff, truthy, Bool-cases, Option-cases, HasDistinct, ◌==◌, ==_iff,
}
use ai_knowledge_system.Provenance.Types.{Envelope}
use ai_knowledge_system.Workflows.Types.{live, WorkflowExecution, ExecutionSnapshot}
use ai_knowledge_system.Workflows.Wellformed.Restore.{IsPersisted}
use ai_knowledge_system.Durable.Types.{
  ExecutionHistoryIdentity, DurableExecutionLink, DurableBundle,
}
use ai_knowledge_system.Durable.Names.{link_type_name}
use ai_knowledge_system.Durable.Snapshots.{
  provenance_link, state_link, parent_links, bundle_of, is_state_link, envelope_in, envelopes_in,
  snapshot_of, converted, durable_history_to_snapshot, identity_of, durable_record,
  next_action_envelope_of, selected_next_action_of,
}
use ai_knowledge_system.Durable.Valid.Bundles.{
  IsBundle, assert_bundle-none_iff, link_key, event_key, sequence_key,
}
use ai_knowledge_system.Durable.Valid.Records.{IsRecord, IsEvent, IsLink}
use ai_knowledge_system.Durable.RoundTrip.{state_back, envelopes_back, events_back, mode_back}

-- The links of one bundle in another order, all else the same.
pub record IsReordered (bundle read : DurableBundle) : Type 0 where
  pub execution : read.execution ≡ bundle.execution
  pub events : read.events ≡ bundle.events
  pub links : Permᴰ bundle.links read.links

module _ {ℓ} {A : Type ℓ} where
  pub All-reordered {κ} : (P : A → Type κ) {xs ys : List A} → Permᴰ xs ys → All P xs → All P ys
  All-reordered P Permᴰ.nil h = h
  All-reordered P (Permᴰ.cons e d) (q, h) = (subst P e q, All-reordered P d h)
  All-reordered P (Permᴰ.swap e f) (q, (r, h)) = (subst P f r, (subst P e q, h))
  All-reordered P (Permᴰ.trans c d) h = All-reordered P d (All-reordered P c h)

  pub find-reordered :
      (p : A → Bool) (y : A) {xs ys : List A}
      → Permᴰ xs ys
      → All (λ x. p x ≡ true → x ≡ y) xs
      → find p xs ≡ some y
      → find p ys ≡ some y
  find-reordered p y Permᴰ.nil only found = found
  find-reordered p y (Permᴰ.cons {a = a} {b = b} {l₁ = l} {l₂ = m} e d) (same, only) found =
      subst (λ c. find p (c ∷ m) ≡ some y) e
        (elim (Bool-cases (p a)) [
          | inl hit ↦ rw (find, hit, same hit) refl
          | inr miss ↦ rw (find, miss) (find-reordered p y d only (rw (miss, find) at found))
        ])
  find-reordered p y (Permᴰ.swap {a = a} {b = b} {a' = c} {b' = d} {l = l} e f)
        (same, (other, only)) found =
      subst (λ x. find p (x ∷ d ∷ l) ≡ some y) f
        (subst (λ x. find p (b ∷ x ∷ l) ≡ some y) e
          (elim (Bool-cases (p b)) [
            | inl hit ↦ rw (find, hit, other hit) refl
            | inr miss ↦
                rw (find, miss)
                  (elim (Bool-cases (p a)) [
                    | inl hit ↦ rw (find, hit, same hit) refl
                    | inr gone ↦ rw (gone, find) (rw (gone, find, miss) at found)
                  ])
          ]))
  find-reordered p y (Permᴰ.trans c d) only found =
      find-reordered p y d (All-reordered _ c only) (find-reordered p y c only found)

distinct-reordered :
    {links others : List DurableExecutionLink}
    → Permᴰ links others
    → HasDistinct str_eq eq_iff link_key links
    → HasDistinct str_eq eq_iff link_key others
distinct-reordered Permᴰ.nil h = h
distinct-reordered (Permᴰ.cons {a = a} {l₁ = l} {l₂ = m} e d) (new, h) =
    subst (λ b. HasDistinct str_eq eq_iff link_key (b ∷ m)) e
      (All-reordered _ d new, distinct-reordered d h)
distinct-reordered (Permᴰ.swap {a = a} {b = b} {a' = c} {b' = d} {l = l} e f)
      ((ne, new), (other, h)) =
    subst (λ x. HasDistinct str_eq eq_iff link_key (x ∷ d ∷ l)) f
      (subst (λ x. HasDistinct str_eq eq_iff link_key (b ∷ x ∷ l)) e
        (((λ same. ne (sym same)), other), (new, h)))
distinct-reordered (Permᴰ.trans c d) h = distinct-reordered d (distinct-reordered c h)

pub IsBundle-reordered :
    (is_date : String → Bool) (bundle read : DurableBundle)
    → IsReordered bundle read
    → IsBundle is_date bundle
    → IsBundle is_date read
IsBundle-reordered is_date bundle read same h =
    let execution = sym same.execution in
    let events = sym same.events in
    record {
      execution = subst (IsRecord is_date) execution h.execution;
      events =
          subst (λ xs. All (IsEvent is_date read.execution) xs) events
            (subst (λ r. All (IsEvent is_date r) bundle.events) execution h.events);
      event_ids = subst (HasDistinct str_eq eq_iff event_key) events h.event_ids;
      sequences = subst (HasDistinct ◌==◌ ==_iff sequence_key) events h.sequences;
      links =
          All-reordered _ same.links
            (subst (λ r. All (IsLink is_date r) bundle.links) execution h.links);
      link_ids = distinct-reordered same.links h.link_ids;
    }

envelopes_in-none :
    (link : DurableExecutionLink) (rest : List DurableExecutionLink)
    → envelope_in link ≡ none
    → envelopes_in (link ∷ rest) ≡ envelopes_in rest
unfolding envelopes_in
envelopes_in-none link rest e = ground arith

envelopes_in-some :
    (link : DurableExecutionLink) (rest : List DurableExecutionLink) (envelope : Envelope)
    → envelope_in link ≡ some envelope
    → envelopes_in (link ∷ rest) ≡ envelope ∷ envelopes_in rest
unfolding envelopes_in
envelopes_in-some link rest envelope e = ground arith

-- Two links that change places.
swapped :
    (a b : DurableExecutionLink) (l : List DurableExecutionLink)
    → Permᴰ (envelopes_in (a ∷ b ∷ l)) (envelopes_in (b ∷ a ∷ l))
swapped a b l = elim (Option-cases (envelope_in a)) [
  | inl left ↦ rw (envelopes_in-none a (b ∷ l) left) (elim (Option-cases (envelope_in b)) [
    | inl also ↦
        rw
          (envelopes_in-none b (a ∷ l) also, envelopes_in-none a l left, envelopes_in-none b l also)
          (Permᴰ.refl (envelopes_in l))
    | inr (other, that) ↦
        rw
          (
            envelopes_in-some b (a ∷ l) other that,
            envelopes_in-none a l left,
            envelopes_in-some b l other that,
          )
          (Permᴰ.refl (other ∷ envelopes_in l))
  ])
  | inr (envelope, it) ↦
      rw (envelopes_in-some a (b ∷ l) envelope it) (elim (Option-cases (envelope_in b)) [
        | inl left ↦
            rw
              (
                envelopes_in-none b (a ∷ l) left,
                envelopes_in-some a l envelope it,
                envelopes_in-none b l left,
              )
              (Permᴰ.refl (envelope ∷ envelopes_in l))
        | inr (other, that) ↦
            rw
              (
                envelopes_in-some b (a ∷ l) other that,
                envelopes_in-some a l envelope it,
                envelopes_in-some b l other that,
              )
              (Permᴰ.swap refl refl)
      ])
]

envelopes_in-reordered :
    {links others : List DurableExecutionLink}
    → Permᴰ links others
    → Permᴰ (envelopes_in links) (envelopes_in others)
unfolding envelopes_in
envelopes_in-reordered Permᴰ.nil = Permᴰ.nil
envelopes_in-reordered (Permᴰ.cons {a = a} {b = b} {l₁ = l} {l₂ = m} e d) =
    subst (λ c. Permᴰ (envelopes_in (a ∷ l)) (envelopes_in (c ∷ m))) e
      (elim (Option-cases (envelope_in a)) [
        | inl nothing ↦ rw (nothing, envelopes_in) (envelopes_in-reordered d)
        | inr (envelope, it) ↦ rw (it, envelopes_in) (Permᴰ.cons refl (envelopes_in-reordered d))
      ])
envelopes_in-reordered (Permᴰ.swap {a = a} {b = b} {a' = c} {b' = d} {l = l} e f) =
    subst (λ x. Permᴰ (envelopes_in (a ∷ b ∷ l)) (envelopes_in (x ∷ d ∷ l))) f
      (subst (λ x. Permᴰ (envelopes_in (a ∷ b ∷ l)) (envelopes_in (b ∷ x ∷ l))) e (swapped a b l))
envelopes_in-reordered (Permᴰ.trans c d) =
    Permᴰ.trans (envelopes_in-reordered c) (envelopes_in-reordered d)

-- No other link of the bundle is taken for the one that carries the state.
only_state :
    (identity : ExecutionHistoryIdentity) (execution : WorkflowExecution)
    (envelopes : List Envelope)
    → All
        (λ (link : DurableExecutionLink).
          is_state_link execution.execution_id link ≡ true → link ≡ state_link identity execution)
        (map (provenance_link identity) envelopes
          ++ (state_link identity execution ∷ parent_links identity execution))
unfolding is_state_link provenance_link parent_links link_type_name
only_state identity execution [] = (
  λ e. refl,
  elim (Option-cases (truthy execution.parent_execution_id)) [
    | inl absent ↦ rw (absent, parent_links) tt
    | inr (parent, present) ↦ rw (present, parent_links) (λ e. absurd (ground arith), tt)
  ],
)
only_state identity execution (envelope ∷ rest) =
    (λ e. absurd (ground arith), only_state identity execution rest)

-- The snapshot that is read back, from links in another order.
abbrev pub read_back : ExecutionSnapshot → DurableBundle → ExecutionSnapshot
read_back saved read = record saved { provenance_envelopes = envelopes_in read.links }

module _ (saved : ExecutionSnapshot) (capability_id : String) (read : DurableBundle) where
  state_reordered :
      IsReordered (bundle_of saved capability_id) read
      → find (is_state_link saved.execution.execution_id) read.links
        ≡ some (state_link (identity_of saved.execution capability_id) saved.execution)
  unfolding bundle_of
  state_reordered same =
      let identity = identity_of saved.execution capability_id in
      find-reordered (is_state_link saved.execution.execution_id)
        (state_link identity saved.execution) same.links
        (only_state identity saved.execution saved.provenance_envelopes)
        (state_back identity saved.execution saved.provenance_envelopes)

  pub evidence_reordered :
      IsReordered (bundle_of saved capability_id) read
      → Permᴰ saved.provenance_envelopes (envelopes_in read.links)
  unfolding bundle_of
  evidence_reordered same =
      subst (λ xs. Permᴰ xs (envelopes_in read.links))
        (envelopes_back (identity_of saved.execution capability_id) saved.execution
          saved.provenance_envelopes)
        (envelopes_in-reordered same.links)

  snapshot_of-reordered :
      IsPersisted saved
      → IsReordered (bundle_of saved capability_id) read
      → snapshot_of read ≡ read_back saved read
  unfolding snapshot_of bundle_of durable_record identity_of next_action_envelope_of
      selected_next_action_of state_link
  snapshot_of-reordered p same =
      rw
        (
          same.execution,
          same.events,
          state_reordered same,
          events_back saved.execution capability_id 0 saved.events p.log,
          ← p.mode,
        )
        refl

  pub read_back-IsPersisted :
      IsPersisted saved
      → IsReordered (bundle_of saved capability_id) read
      → IsPersisted (read_back saved read)
  read_back-IsPersisted p same = record {
    mode = p.mode;
    log = p.log;
    distinct = p.distinct;
    evidence = All-reordered _ (evidence_reordered same) p.evidence;
  }

  pub converted-reordered :
      (is_date : String → Bool)
      → IsPersisted saved
      → IsBundle is_date (bundle_of saved capability_id)
      → IsReordered (bundle_of saved capability_id) read
      → durable_history_to_snapshot is_date read ≡ converted (read_back saved read)
  unfolding durable_history_to_snapshot
  converted-reordered is_date p h same =
      let passed =
        (assert_bundle-none_iff is_date read).1
          (IsBundle-reordered is_date (bundle_of saved capability_id) read same h) in
      let mode : read.execution.mode ≡ live =
        ap (λ r. r.mode) same.execution ∙ mode_back saved capability_id p in
      let back = snapshot_of-reordered p same in ground arith
