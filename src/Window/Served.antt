-- ===== src/Window/Served.antt =====
-- What a committed update leaves to be read: the stored events against the reported features, and
-- `Snapshot` right after `Apply`.
use distributed_fraud_detect.Prelude.{
  ◌≤◌, ◌≡◌, sym, subst, Bool, true, false, inl, inr, [], ◌∷◌, arith, if◌then◌else◌, Bool-cases,
  length, drop, All-append, All-drop, get_or, lookup, lookup-insert_self, AllValues,
  AllValues-insert, AllValues-delete, AllValues-lookup, Option-cases,
}
use distributed_fraud_detect.Float.{Float64}
use distributed_fraud_detect.Text.{Text, text_key, is_empty}
use distributed_fraud_detect.Window.{
  Window, Event, Features, PendingUpdate, next_features, next_events, next_watermark, cutoff,
  in_window, first_live, events_of, new_event, valid_event, evict_entity_locked, commit_events,
  commit_locked, pending_update, apply,
}
use distributed_fraud_detect.Window.Sort.{Follows, slice_stable-All}
use distributed_fraud_detect.Window.Live.{Follows-drop}
use distributed_fraud_detect.Window.Invariant.{IsValid}
use distributed_fraud_detect.Window.Base.{events_of-IsSorted}
use distributed_fraud_detect.Window.Steps.{
  IsAccepted, prepare_locked-IsAccepted, prepare_cases, refused, skipped, prepared,
}
use distributed_fraud_detect.Window.Totals.{IsPriced, sum_amounts, max_amounts, add_features-sums}

module _ {A : Type 0} where
  -- The reads of an entity behind a commit.
  pub stored_events :
      (w : Window A) (e : Event A) (p : PendingUpdate A)
      → events_of e.entity_id (commit_locked w e p).by_entity ≡ p.events
  unfolding commit_locked commit_events
  stored_events w e p = ground (
    arith,
    lookup-insert_self e.entity_id p.events
        (if is_empty p.evict_entity then w else evict_entity_locked w p.evict_entity).by_entity,
  )

  pub stored_watermark :
      (w : Window A) (e : Event A) (p : PendingUpdate A)
      → get_or e.entity_id (commit_locked w e p).watermark 0 ≡ p.watermark
  unfolding commit_locked commit_events
  stored_watermark w e p = ground (
    arith,
    lookup-insert_self e.entity_id p.watermark
        (if is_empty p.evict_entity then w else evict_entity_locked w p.evict_entity).watermark,
  )

  pub same_duration :
      (w : Window A) (e : Event A) (p : PendingUpdate A)
      → (commit_locked w e p).duration ≡ w.duration
  unfolding commit_locked commit_events evict_entity_locked
  same_duration w e p = ground arith

  -- All events that an update keeps lie at or behind its cutoff.
  pub next_events-Follows :
      (w : Window A) (e : Event A) → IsValid w → Follows (cutoff w e) (next_events w e)
  unfolding next_events
  next_events-Follows w e v =
      let kept = Follows-drop w e (events_of-IsSorted w e v) in
      elim (Bool-cases (in_window w e)) [
        | inl b ↦ rw b (
            slice_stable-All (λ y. cutoff w e ≤ y.at) _
              (All-append _ (drop (first_live w e) (events_of e.entity_id w.by_entity))
                (new_event e ∷ []) kept (unfold in_window in (ground arith), tt)))
        | inr b ↦ rw b kept
      ]

module _ {A : Type 0} ⦃F : Float64 A⦄ where
  -- No stored amount is negative or not a number.
  abbrev pub AllPriced : Window A → Type 0
  AllPriced w = AllValues IsPriced w.by_entity

  priced_amount : (e : Event A) → valid_event e ≡ true → F.leb F.zero e.amount ≡ true
  unfolding valid_event
  priced_amount e h = ground arith

  module _ (w : Window A) (e : Event A) where
    events_of-IsPriced : AllPriced w → IsPriced (events_of e.entity_id w.by_entity)
    events_of-IsPriced v = elim (Option-cases (lookup e.entity_id w.by_entity)) [
      | inl a ↦
          let same : events_of e.entity_id w.by_entity ≡ [] = ground arith in
          subst IsPriced (sym same) tt
      | inr (es, a) ↦
          let same : events_of e.entity_id w.by_entity ≡ es = ground arith in
          subst IsPriced (sym same) (AllValues-lookup IsPriced e.entity_id w.by_entity v a)
    ]

    pub next_events-IsPriced : AllPriced w → valid_event e ≡ true → IsPriced (next_events w e)
    unfolding next_events
    next_events-IsPriced v h =
        let kept =
          All-drop (λ x. F.leb F.zero x.amount ≡ true) (first_live w e)
            (events_of e.entity_id w.by_entity) (events_of-IsPriced v) in
        elim (Bool-cases (in_window w e)) [
          | inl b ↦ rw b (
              slice_stable-All (λ x. F.leb F.zero x.amount ≡ true) _
                (All-append _ (drop (first_live w e) (events_of e.entity_id w.by_entity))
                  (new_event e ∷ []) kept (priced_amount e h, tt)))
          | inr b ↦ rw b kept
        ]

    evicted_priced :
        (x : Text) (b : Bool) → AllPriced w → AllPriced (if b then w else evict_entity_locked w x)
    unfolding evict_entity_locked
    evicted_priced x true v = v
    evicted_priced x false v = AllValues-delete IsPriced x w.by_entity v

    commit_locked-AllPriced :
        (p : PendingUpdate A) → AllPriced w → IsAccepted w e p → AllPriced (commit_locked w e p)
    unfolding commit_locked commit_events
    commit_locked-AllPriced p v a =
        AllValues-insert IsPriced e.entity_id p.events _
          (subst (λ q. IsPriced q.events) (sym a.update)
            (unfold pending_update in (next_events-IsPriced v a.valid)))
          (evicted_priced p.evict_entity (is_empty p.evict_entity) v)

    pub apply-AllPriced : AllPriced w → AllPriced (apply w e).0
    unfolding apply
    apply-AllPriced v = elim (prepare_cases w e) [
      | refused x h ↦ rw (h, apply) v
      | skipped h ↦ rw (h, apply) v
      | prepared p h ↦
          rw (h, apply) (commit_locked-AllPriced p v (prepare_locked-IsAccepted w e p h))
    ]

    abbrev pub first_features : Features A
    first_features = record {
      entity_id = e.entity_id;
      event_count = length (next_events w e);
      total_amount = F.zero;
      max_amount = F.zero;
      window_end = next_watermark w e;
    }

    pub accepted_features :
        (p : PendingUpdate A)
        → IsAccepted w e p
        → (p.features ≡ record first_features {
          total_amount = sum_amounts F.zero p.events;
          max_amount = max_amounts F.zero p.events;
        })
          × (p.events ≡ next_events w e)
          × (p.watermark ≡ next_watermark w e)
    unfolding pending_update next_features
    accepted_features p a =
        let same = add_features-sums first_features a.features (next_events w e) a.features_lem in
        ground (arith, same, a.update)
