-- ===== src/Durable/Valid/Bundles.antt =====
-- shared/execution-history.ts: what `assertDurableExecutionHistoryBundle` demands of a bundle.
use ai_knowledge_system.Common.{
  ℕ, String, Bool, ◌≡◌, refl, ◌↔◌, none, List, [], ◌∷◌, All, ◌==◌, ==_iff, str_eq, eq_iff,
  natural_of, IsFreshFor, HasDistinct, fresh-cons_iff, all_fresh,
}
use ai_knowledge_system.Provenance.Validity.{iff_trans}
use ai_knowledge_system.Durable.Types.{
  DurableExecutionRecord, DurableExecutionEvent, DurableExecutionLink, DurableBundle,
}
use ai_knowledge_system.Durable.Contract.{assert_events, assert_links, assert_bundle}
use ai_knowledge_system.Durable.Valid.{chain_iff, end_iff, Every, refuse_if-none_iff}
use ai_knowledge_system.Durable.Valid.Records.{
  IsRecord, IsEvent, IsLink, assert_durable_execution_record-none_iff,
  assert_durable_execution_event-none_iff, assert_durable_execution_link-none_iff,
}

abbrev pub event_key : DurableExecutionEvent → String
event_key event = event.event_id

abbrev pub sequence_key : DurableExecutionEvent → ℕ
sequence_key event = natural_of event.sequence

abbrev pub link_key : DurableExecutionLink → String
link_key link = link.link_id

same : {P : Type 0} → P ↔ P
same = (λ h. h, λ h. h)

module _ (is_date : String → Bool) where
  -- What the loop over the events asks for, given the two sets.
  abbrev IsUnread :
      DurableExecutionRecord → List String → List ℕ → List DurableExecutionEvent → Type 0
  IsUnread execution ids sequences events = Every (
      All (IsEvent is_date execution) events
      ∷ HasDistinct str_eq eq_iff event_key events
      ∷ IsFreshFor str_eq eq_iff event_key ids events
      ∷ HasDistinct ◌==◌ ==_iff sequence_key events
      ∷ IsFreshFor ◌==◌ ==_iff sequence_key sequences events
      ∷ [])

  assert_events-none_iff :
      (execution : DurableExecutionRecord) (ids : List String) (sequences : List ℕ)
      (events : List DurableExecutionEvent)
      → (assert_events is_date execution ids sequences events ≡ none)
        ↔ IsUnread execution ids sequences events
  unfolding assert_events
  assert_events-none_iff execution ids sequences [] =
      (λ e. (tt, (tt, (tt, (tt, (tt, tt))))), λ h. refl)
  assert_events-none_iff execution ids sequences (event ∷ rest) =
      iff_trans
        (chain_iff _ _ (assert_durable_execution_event-none_iff is_date execution event) (
          chain_iff _ _ (refuse_if-none_iff _ _ _ same) (
            chain_iff _ _ (refuse_if-none_iff _ _ _ same) (
              chain_iff _ _
                (assert_events-none_iff execution (event.event_id ∷ ids)
                  (natural_of event.sequence ∷ sequences) rest)
                end_iff))))
        (let (ids_to, ids_from) = fresh-cons_iff str_eq eq_iff event_key event.event_id ids rest in
          let (seq_to, seq_from) =
            fresh-cons_iff ◌==◌ ==_iff sequence_key (natural_of event.sequence) sequences rest in
          (
            λ (p, (q, (r, ((all, (distinct, (fresh, (others, (unseen, u))))), v)))).
                let (d, f) = ids_to fresh in
                let (e, g) = seq_to unseen in
                ((p, all), ((d, distinct), ((q, f), ((e, others), ((r, g), tt))))),
            λ ((p, all), ((d, distinct), ((q, f), ((e, others), ((r, g), u))))). (
              p,
              (q, (r, ((all, (distinct, (ids_from (d, f), (others, (seq_from (e, g), tt))))), tt))),
            ),
          ))

  assert_links-none_iff :
      (execution : DurableExecutionRecord) (ids : List String) (links : List DurableExecutionLink)
      → (assert_links is_date execution ids links ≡ none)
        ↔ Every (
            All (IsLink is_date execution) links
            ∷ HasDistinct str_eq eq_iff link_key links
            ∷ IsFreshFor str_eq eq_iff link_key ids links
            ∷ [])
  unfolding assert_links
  assert_links-none_iff execution ids [] = (λ e. (tt, (tt, (tt, tt))), λ h. refl)
  assert_links-none_iff execution ids (link ∷ rest) =
      iff_trans
        (chain_iff _ _ (assert_durable_execution_link-none_iff is_date execution link) (
          chain_iff _ _ (refuse_if-none_iff _ _ _ same)
            (chain_iff _ _ (assert_links-none_iff execution _ rest) end_iff)))
        (let (to, from) = fresh-cons_iff str_eq eq_iff link_key link.link_id ids rest in
          (
            λ (p, (q, ((all, (distinct, (fresh, u))), v))).
                let (d, f) = to fresh in ((p, all), ((d, distinct), ((q, f), tt))),
            λ ((p, all), ((d, distinct), ((q, f), u))).
                (p, (q, ((all, (distinct, (from (d, f), tt))), tt))),
          ))

  -- A bundle that may be stored.
  pub record IsBundle (bundle : DurableBundle) : Type 0 where
    pub execution : IsRecord is_date bundle.execution
    pub events : All (IsEvent is_date bundle.execution) bundle.events
    pub event_ids : HasDistinct str_eq eq_iff event_key bundle.events
    pub sequences : HasDistinct ◌==◌ ==_iff sequence_key bundle.events
    pub links : All (IsLink is_date bundle.execution) bundle.links
    pub link_ids : HasDistinct str_eq eq_iff link_key bundle.links

  -- A bundle passes exactly when its record, its events and its links are well formed and bound to one
  -- identity, its texts given, its dates read and its values plain JSON with finite numbers, the sequence of
  -- an event an integer from 1 to 2^53 - 1, and no event id, no sequence and no link id occurs twice.
  pub assert_bundle-none_iff :
      (bundle : DurableBundle) → (assert_bundle is_date bundle ≡ none) ↔ IsBundle bundle
  unfolding assert_bundle
  assert_bundle-none_iff bundle =
      iff_trans
        (chain_iff _ _ (assert_durable_execution_record-none_iff is_date bundle.execution) (
          chain_iff _ _ (assert_events-none_iff bundle.execution [] [] bundle.events)
            (chain_iff _ _ (assert_links-none_iff bundle.execution [] bundle.links) end_iff)))
        (
          λ (r, ((e, (d, (f, (s, (g, u))))), ((l, (m, (n, v))), w))). record {
            execution = r;
            events = e;
            event_ids = d;
            sequences = s;
            links = l;
            link_ids = m;
          },
          λ h. (
            h.execution,
            (
              (
                h.events,
                (
                  h.event_ids,
                  (
                    all_fresh str_eq eq_iff event_key bundle.events,
                    (h.sequences, (all_fresh ◌==◌ ==_iff sequence_key bundle.events, tt)),
                  ),
                ),
              ),
              ((h.links, (h.link_ids, (all_fresh str_eq eq_iff link_key bundle.links, tt))), tt),
            ),
          ),
        )
