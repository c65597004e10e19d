-- ===== src/Window/Steps.antt =====
-- The methods of a window keep its invariant: a prepared update fits the state that it is
-- committed to, evicted or not.
use distributed_fraud_detect.Prelude.{
  ◌+◌, ◌≤◌, ◌≡◌, refl, sym, subst, ◌∙◌, true, false, inl, inr, List, [], ◌∷◌, arith, length, take,
  length-take, contains, total, Result, ok, err, Result-cases, ℤ, positive_or,
}
use distributed_fraud_detect.Float.{Float64}
use distributed_fraud_detect.Text.{text_key, is_empty}
use distributed_fraud_detect.Window.{
  Window, Event, Error, Features, PendingUpdate, Prepared, ignored, accepted, events_of,
  evict_entity_locked, commit_events, commit_locked, prepare_locked, pending_update, next_features,
  valid_event, is_stale, projected_event_count, apply, new_with_limits, entity_count, dedupe_size,
  in_window, next_events, expired_ids, first_live, cutoff,
}
use distributed_fraud_detect.Window.Dedupe.{absent_of_count, count_absent}
use distributed_fraud_detect.Window.Live.{first_live-le}
use distributed_fraud_detect.Window.Events.{
  next_events-IsSorted, length-next_events, count-next_events, count-expired_ids-le,
}
use distributed_fraud_detect.Window.Invariant.{IsValid, Fits, commit_events-IsValid, length-ids}
use distributed_fraud_detect.Window.Base.{events_of-IsSorted, base, base-IsBase}

-- A new window is well formed, whatever limits it is given.
pub new_with_limits-IsValid :
    (A : Type 0) (duration max_entities max_events : ℤ)
    → IsValid (new_with_limits A duration max_entities max_events)
unfolding new_with_limits
new_with_limits-IsValid A duration max_entities max_events = record {
  some_room = ground arith;
  entity_room = omega arith;
  event_room = omega arith;
  counted = refl;
  same_keys = refl;
  same_active = refl;
  named = refl;
  sorted = tt;
  recorded = λ x. refl;
  once = λ x. omega arith;
  deduped = refl;
}

module _ {A : Type 0} where
  module _ ⦃F : Float64 A⦄ (w : Window A) (e : Event A) where
    pub record IsAccepted (p : PendingUpdate A) : Type 0 where
      pub valid : valid_event e ≡ true
      pub unseen : contains w.seen e.id ≡ false
      pub newer : is_stale w e ≡ false
      pub fits : projected_event_count w e ≤ w.max_events
      pub features : Features A
      pub features_lem : next_features w e ≡ ok features
      pub update : p ≡ pending_update w e features

    pub prepare_locked-IsAccepted :
        (p : PendingUpdate A) → prepare_locked w e ≡ ok (accepted p) → IsAccepted p
    unfolding prepare_locked
    prepare_locked-IsAccepted p h = elim (Result-cases (next_features w e)) [
      | inl (f, ef) ↦ record {
        valid = ground arith;
        unseen = ground arith;
        newer = ground arith;
        fits = ground arith;
        features = f;
        features_lem = ef;
        update = ground arith;
      }
      | inr (x, ex) ↦ absurd (ground arith)
    ]

    entity_named : valid_event e ≡ true → is_empty e.entity_id ≡ false
    unfolding valid_event
    entity_named h = ground arith

    pub length-expired_ids : IsValid w → length (expired_ids w e) ≡ first_live w e
    unfolding expired_ids
    length-expired_ids v = omega (
      arith,
      length-ids (take (first_live w e) (events_of e.entity_id w.by_entity)),
      length-take (first_live w e) (events_of e.entity_id w.by_entity),
      first_live-le w e (events_of-IsSorted w e v),
    )

    events_fit :
        (v : IsValid w)
        → projected_event_count w e ≤ w.max_events
        → (base w e v).event_count + length (next_events w e)
          ≤ w.max_events + length (events_of e.entity_id w.by_entity)
    unfolding projected_event_count
    events_fit v h =
        ground (arith, (base-IsBase w e v).count_less, length-next_events w e, length-expired_ids v)

    pending_update-Fits :
        (v : IsValid w) (f : Features A)
        → IsAccepted (pending_update w e f)
        → Fits (base w e v) e (pending_update w e f)
    unfolding pending_update
    pending_update-Fits v f a =
        let b = base-IsBase w e v in
        record {
          fresh = in_window w e;
          fresh_lem = rw b.same_duration (unfold in_window cutoff in refl);
          unseen =
              absent_of_count e.id _
                (omega (arith, b.seen_less e.id, count_absent e.id w.seen a.unseen));
          entity_named = entity_named a.valid;
          entity_fits = b.fits;
          events_fit = rw (b.same_limit, b.same_current) (events_fit v a.fits);
          sorted = next_events-IsSorted w e (events_of-IsSorted w e v);
          sizes = rw b.same_current (length-next_events w e);
          stored = λ x. rw b.same_current (count-expired_ids-le w e x);
          conserved = λ x. rw b.same_current (count-next_events w e x);
        }

    -- A committed update leaves a well-formed window.
    pub commit_locked-IsValid :
        (p : PendingUpdate A)
        → IsValid w
        → prepare_locked w e ≡ ok (accepted p)
        → IsValid (commit_locked w e p)
    unfolding commit_locked pending_update base
    commit_locked-IsValid p v h =
        let a = prepare_locked-IsAccepted p h in
        let fits = pending_update-Fits v a.features (subst IsAccepted a.update a) in
        subst (λ q. IsValid (commit_locked w e q)) (sym a.update)
          (commit_events-IsValid (base w e v) e (pending_update w e a.features)
            (base-IsBase w e v).valid fits)

    -- Every outcome of `prepareLocked`, as a case.
    pub data PrepareCase : Type 0 where
      refused : (x : Error) → prepare_locked w e ≡ err x → PrepareCase
      skipped : prepare_locked w e ≡ ok ignored → PrepareCase
      prepared : (p : PendingUpdate A) → prepare_locked w e ≡ ok (accepted p) → PrepareCase

    prepare_case_of : (r : Result Error (Prepared A)) → prepare_locked w e ≡ r → PrepareCase
    prepare_case_of (err x) h = refused x h
    prepare_case_of (ok ignored) h = skipped h
    prepare_case_of (ok (accepted p)) h = prepared p h

    pub prepare_cases : PrepareCase
    prepare_cases = prepare_case_of (prepare_locked w e) refl

    commit_limits :
        (p : PendingUpdate A)
        → ((commit_locked w e p).max_entities ≡ w.max_entities)
          × ((commit_locked w e p).max_events ≡ w.max_events)
    unfolding commit_locked commit_events evict_entity_locked
    commit_limits p = ground arith

    pub apply-limits :
        ((apply w e).0.max_entities ≡ w.max_entities) × ((apply w e).0.max_events ≡ w.max_events)
    unfolding apply
    apply-limits = elim prepare_cases [
      | refused x h ↦ rw (h, apply) (refl, refl)
      | skipped h ↦ rw (h, apply) (refl, refl)
      | prepared p h ↦ rw (h, apply) (commit_limits p)
    ]

    -- `Apply` keeps a window well formed, whatever event comes in.
    pub apply-IsValid : IsValid w → IsValid (apply w e).0
    unfolding apply
    apply-IsValid v = elim prepare_cases [
      | refused x h ↦ rw (h, apply) v
      | skipped h ↦ rw (h, apply) v
      | prepared p h ↦ rw (h, apply) (commit_locked-IsValid p v h)
    ]

module _ {A : Type 0} ⦃F : Float64 A⦄ where
  -- Any sequence of events.
  unfoldable pub run : Window A → List (Event A) → Window A
  run w [] = w
  run w (e ∷ es) = run (apply w e).0 es

  run-IsValid : (w : Window A) (es : List (Event A)) → IsValid w → IsValid (run w es)
  unfolding run
  run-IsValid w [] v = v
  run-IsValid w (e ∷ es) v = run-IsValid (apply w e).0 es (apply-IsValid w e v)

  run-limits :
      (w : Window A) (es : List (Event A))
      → ((run w es).max_entities ≡ w.max_entities) × ((run w es).max_events ≡ w.max_events)
  unfolding run
  run-limits w [] = (refl, refl)
  run-limits w (e ∷ es) =
      let rest = run-limits (apply w e).0 es in
      let here = apply-limits w e in (rest.0 ∙ here.0, rest.1 ∙ here.1)

  -- After any sequence of events a new window stores at most `max_entities` entities and at most
  -- `max_events` deduplication IDs (a limit below 1 counts as 1), and as many IDs as events.
  pub run_bounds :
      (duration max_entities max_events : ℤ) (es : List (Event A))
      → let w = run (new_with_limits A duration max_entities max_events) es in
        (entity_count w ≤ positive_or 1 max_entities)
        × (dedupe_size w ≤ positive_or 1 max_events)
        × (dedupe_size w ≡ total length w.by_entity)
  unfolding entity_count dedupe_size new_with_limits
  run_bounds duration max_entities max_events es =
      let new = new_with_limits A duration max_entities max_events in
      let v = run-IsValid new es (new_with_limits-IsValid A duration max_entities max_events) in
      let l = run-limits new es in
      (
        omega (arith, v.entity_room, l.0),
        omega (arith, v.event_room, v.deduped, l.1),
        v.deduped ∙ v.counted,
      )
