-- ===== src/Window/Reads.antt =====
-- What can be read after an accepted event: the features against the stored events, and
-- `Snapshot` right behind `Apply`.
use distributed_fraud_detect.Prelude.{
  ℕ, ◌-◌, ◌≤◌, ◌≡◌, refl, sym, ap, subst, ◌∙◌, true, List, [], ◌∷◌, arith, ltb, if◌then◌else◌,
  length, ok, get_or,
}
use distributed_fraud_detect.Float.{Float64}
use distributed_fraud_detect.Text.{Text, text_key}
use distributed_fraud_detect.Window.{
  Window, Event, Features, PendingUpdate, next_features, next_events, next_watermark, cutoff,
  in_window, events_of, snapshot_features, snapshot_from, commit_locked, pending_update, apply,
  snapshot, accepted, prepare_locked,
}
use distributed_fraud_detect.Window.Sort.{WindowEvent, IsSorted, Follows}
use distributed_fraud_detect.Window.Invariant.{IsValid}
use distributed_fraud_detect.Window.Base.{events_of-IsSorted}
use distributed_fraud_detect.Window.Live.{first_live-le}
use distributed_fraud_detect.Window.Events.{next_events-IsSorted, length-next_events}
use distributed_fraud_detect.Window.Steps.{
  IsAccepted, prepare_locked-IsAccepted, prepare_cases, refused, skipped, prepared,
  length-expired_ids,
}
use distributed_fraud_detect.Window.Totals.{
  sum_amounts, max_amounts, max_amounts-le-sum_amounts, snapshot_features-add_features,
}
use distributed_fraud_detect.Window.Served.{
  AllPriced, stored_events, stored_watermark, same_duration, next_events-Follows,
  next_events-IsPriced, accepted_features, first_features,
}

module _ {A : Type 0} ⦃F : Float64 A⦄ where
  -- Features that describe the events which a window stores for an entity.
  pub record Agrees (w : Window A) (entity : Text) (f : Features A) : Type 0 where
    pub same_entity : f.entity_id ≡ entity
    pub same_count : f.event_count ≡ length (events_of entity w.by_entity)
    pub same_total : f.total_amount ≡ sum_amounts F.zero (events_of entity w.by_entity)
    pub same_max : f.max_amount ≡ max_amounts F.zero (events_of entity w.by_entity)
    pub same_end : f.window_end ≡ get_or entity w.watermark 0
    pub live : Follows (f.window_end - w.duration) (events_of entity w.by_entity)
    pub sorted : IsSorted (events_of entity w.by_entity)
    pub max-le-total : F.leb f.max_amount f.total_amount ≡ true
    pub total-positive : F.leb F.zero f.total_amount ≡ true

  module _ (w : Window A) (e : Event A) where
    abbrev IsApplied : PendingUpdate A → Features A → Type 0
    IsApplied p f =
        (prepare_locked w e ≡ ok (accepted p))
        × ((apply w e).0 ≡ commit_locked w e p)
        × (p.features ≡ f)

    -- Only an accepted update reports a change.
    pub apply-changed :
        (f : Features A) → (apply w e).1 ≡ ok (f, true) → (p : PendingUpdate A) × IsApplied p f
    unfolding apply
    apply-changed f h = elim (prepare_cases w e) [
      | refused x r ↦ absurd (ground (arith, r, h))
      | skipped r ↦ absurd (ground (arith, r, h))
      | prepared p r ↦ (p, (r, ground (arith, r), ground (arith, r, h)))
    ]

    commit_locked-Agrees :
        (p : PendingUpdate A)
        → IsValid w
        → AllPriced w
        → IsAccepted w e p
        → Agrees (commit_locked w e p) e.entity_id p.features
    unfolding cutoff
    commit_locked-Agrees p v m a =
        let (f, es, mark) = accepted_features w e p a in
        let order =
          max_amounts-le-sum_amounts F.zero F.zero (next_events w e) zero_le zero_le
            (next_events-IsPriced w e m a.valid) in
        let same = same_duration w e p in
        let times : cutoff w e ≡ p.features.window_end - (commit_locked w e p).duration =
          omega (arith, same, ap (λ g. g.window_end) f) in
        let stored = stored_events w e p ∙ es in
        record {
          same_entity = ap (λ g. g.entity_id) f;
          same_count = ap (λ g. g.event_count) f ∙ sym (ap length stored);
          same_total =
              ap (λ g. g.total_amount) f ∙ ap (sum_amounts F.zero) (sym (stored_events w e p));
          same_max = ap (λ g. g.max_amount) f ∙ ap (max_amounts F.zero) (sym (stored_events w e p));
          same_end = ap (λ g. g.window_end) f ∙ sym mark ∙ sym (stored_watermark w e p);
          live =
              subst (λ t. Follows t (events_of e.entity_id (commit_locked w e p).by_entity)) times
                (subst (Follows (cutoff w e)) (sym stored) (next_events-Follows w e v));
          sorted =
              subst IsSorted (sym stored) (next_events-IsSorted w e (events_of-IsSorted w e v));
          max-le-total = ground (arith, order, f, es);
          total-positive = ground (arith, order, f, es);
        }
      where
        zero_le : F.leb F.zero F.zero ≡ true
        zero_le = F.leb_refl F.zero F.zero-not_nan

    -- The features of a change describe what the window now stores for the entity: their count, the
    -- sum and the maximum of the amounts in event order, the watermark; the stored events are
    -- sorted and none lies before the window; and the maximum is at most the sum.
    pub apply-Agrees :
        (f : Features A)
        → IsValid w
        → AllPriced w
        → (apply w e).1 ≡ ok (f, true)
        → Agrees (apply w e).0 e.entity_id f
    apply-Agrees f v m h =
        let (p, (r, state, same)) = apply-changed f h in
        subst (λ u. Agrees u e.entity_id f) (sym state)
          (subst (Agrees (commit_locked w e p) e.entity_id) same
            (commit_locked-Agrees p v m (prepare_locked-IsAccepted w e p r)))

    -- With a new event in the window the list is not empty.
    next_events-cons :
        IsValid w
        → in_window w e ≡ true
        → (es : List (WindowEvent A)) → next_events w e ≡ es
        → (x : WindowEvent A) × (xs : List (WindowEvent A)) × (es ≡ x ∷ xs)
    next_events-cons v h [] q = absurd (
        ground (
          arith,
          h,
          ap length q,
          length-next_events w e,
          length-expired_ids w e v,
          first_live-le w e (events_of-IsSorted w e v),
        ))
    next_events-cons v h (x ∷ xs) q = (x, xs, refl)

    -- `Snapshot` of the event's entity at a time up to its watermark.
    snapshot_stored :
        (u : Window A) (now mark : ℕ) (es : List (WindowEvent A))
        → events_of e.entity_id u.by_entity ≡ es
        → get_or e.entity_id u.watermark 0 ≡ mark
        → u.duration ≡ w.duration
        → now ≤ mark
        → snapshot u e.entity_id now ≡ snapshot_from w.duration mark e.entity_id es
    unfolding snapshot
    snapshot_stored u now mark es q m d le =
        let kept : (if ltb (get_or e.entity_id u.watermark 0) now
              then now
              else get_or e.entity_id u.watermark 0)
            ≡ mark =
          ground arith in
        cc

    snapshot_from_cons :
        (mark : ℕ) (es : List (WindowEvent A)) {x : WindowEvent A} {xs : List (WindowEvent A)}
        → es ≡ x ∷ xs
        → snapshot_from w.duration mark e.entity_id es ≡ (
          snapshot_features
              (mark - w.duration)
              (record {
                entity_id = e.entity_id;
                event_count = 0;
                total_amount = F.zero;
                max_amount = F.zero;
                window_end = mark;
              })
              es,
          true,
        )
    unfolding snapshot_from
    snapshot_from_cons mark es q = rw (q, snapshot_from) refl

    snapshot-commit_locked :
        (p : PendingUpdate A) (now : ℕ)
        → IsValid w
        → in_window w e ≡ true
        → IsAccepted w e p
        → now ≤ p.watermark
        → snapshot (commit_locked w e p) e.entity_id now ≡ (p.features, true)
    unfolding cutoff next_features pending_update
    snapshot-commit_locked p now v i a le =
        let (f, es, mark) = accepted_features w e p a in
        let same : p.features ≡ a.features = ap (λ q. q.features) a.update in
        let (x, xs, q) = next_events-cons v i (next_events w e) refl in
        let sums =
          snapshot_features-add_features (cutoff w e) (first_features w e) a.features
            (next_events w e) (next_events-Follows w e v) a.features_lem 0 in
        snapshot_stored (commit_locked w e p) now (next_watermark w e) (next_events w e)
          (stored_events w e p ∙ es) (stored_watermark w e p ∙ mark) (same_duration w e p)
          (omega (arith, mark))
        ∙ snapshot_from_cons (next_watermark w e) (next_events w e) q
        ∙ ap (λ g. (g, true)) (sums ∙ ground (arith, same, ap (λ g. g.event_count) f))

    -- `Snapshot`, at a time up to the watermark, gives back the features that `Apply` reported for an
    -- event inside the window.
    pub snapshot-apply :
        (f : Features A) (now : ℕ)
        → IsValid w
        → in_window w e ≡ true
        → (apply w e).1 ≡ ok (f, true)
        → now ≤ f.window_end
        → snapshot (apply w e).0 e.entity_id now ≡ (f, true)
    snapshot-apply f now v i h le =
        let (p, (r, state, same)) = apply-changed f h in
        let a = prepare_locked-IsAccepted w e p r in
        let (g, es, mark) = accepted_features w e p a in
        ap (λ u. snapshot u e.entity_id now) state
        ∙ snapshot-commit_locked p now v i a
            (omega (arith, mark, ap (λ g. g.window_end) g, ap (λ g. g.window_end) same))
        ∙ ap (λ g. (g, true)) same
