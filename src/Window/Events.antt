-- ===== src/Window/Events.antt =====
-- The event list that an update stores: sorted, and the old list less what expired plus the new
-- event if it lies in the window.
use distributed_fraud_detect.Prelude.{
  ℕ, zero, suc, ◌+◌, ◌≤◌, ◌≡◌, refl, sym, ap, ◌∙◌, inl, inr, List, [], ◌∷◌, ◌++◌, arith,
  if◌then◌else◌, Bool-cases, length, take, drop, take-append-drop, count, ◌==◌,
}
use distributed_fraud_detect.Text.{Text, text_key}
use distributed_fraud_detect.Window.{
  Window, Event, events_of, first_live, in_window, next_events, expired_ids, new_event,
}
use distributed_fraud_detect.Window.Sort.{
  WindowEvent, IsSorted, slice_stable-IsSorted, sum_of, sum_of-slice_stable, sum_of-append,
  length-sum_of, count-sum_of, occurs, ids,
}

module _ {A : Type 0} where
  IsSorted-drop : (n : ℕ) (xs : List (WindowEvent A)) → IsSorted xs → IsSorted (drop n xs)
  IsSorted-drop zero xs s = s
  IsSorted-drop (suc n) [] s = s
  IsSorted-drop (suc n) (x ∷ xs) s = IsSorted-drop n xs s.1

  sum_of-take-drop :
      (f : WindowEvent A → ℕ) (n : ℕ) (xs : List (WindowEvent A))
      → sum_of f (take n xs) + sum_of f (drop n xs) ≡ sum_of f xs
  sum_of-take-drop f n xs =
      sym (sum_of-append f (take n xs) (drop n xs)) ∙ ap (sum_of f) (take-append-drop n xs)

  length-ids-sum_of : (xs : List (WindowEvent A)) → length (ids xs) ≡ sum_of (λ _. 1) xs
  length-ids-sum_of [] = refl
  length-ids-sum_of (x ∷ xs) = omega (arith, length-ids-sum_of xs)

  module _ (w : Window A) (e : Event A) where
    pub next_events-IsSorted :
        IsSorted (events_of e.entity_id w.by_entity) → IsSorted (next_events w e)
    unfolding next_events
    next_events-IsSorted s = elim (Bool-cases (in_window w e)) [
      | inl b ↦ rw b (
          slice_stable-IsSorted
            (drop (first_live w e) (events_of e.entity_id w.by_entity) ++ new_event e ∷ []))
      | inr b ↦ rw b (IsSorted-drop (first_live w e) _ s)
    ]

    -- Every sum over the stored events is conserved by an update.
    pub sum_of-next_events :
        (f : WindowEvent A → ℕ)
        → sum_of f (next_events w e)
            + sum_of f (take (first_live w e) (events_of e.entity_id w.by_entity))
          ≡ sum_of f (events_of e.entity_id w.by_entity)
            + (if in_window w e then f (new_event e) else 0)
    unfolding next_events
    sum_of-next_events f = elim (Bool-cases (in_window w e)) [
      | inl b ↦ rw b (
          omega (
            arith,
            sum_of-slice_stable f (drop (first_live w e) current ++ new_event e ∷ []),
            sum_of-append f (drop (first_live w e) current) (new_event e ∷ []),
            sum_of-take-drop f (first_live w e) current,
          ))
      | inr b ↦ rw b (omega (arith, sum_of-take-drop f (first_live w e) current))
    ]
      where
        current : List (WindowEvent A)
        current = events_of e.entity_id w.by_entity

    pub length-next_events :
        length (next_events w e) + length (expired_ids w e)
        ≡ length (events_of e.entity_id w.by_entity) + (if in_window w e then 1 else 0)
    unfolding expired_ids
    length-next_events = omega (
      arith,
      sum_of-next_events (λ _. 1),
      length-sum_of (next_events w e),
      length-ids-sum_of (take (first_live w e) (events_of e.entity_id w.by_entity)),
      length-sum_of (events_of e.entity_id w.by_entity),
    )

    pub count-next_events :
        (x : Text)
        → count x (ids (next_events w e)) + count x (expired_ids w e)
          ≡ count x (ids (events_of e.entity_id w.by_entity))
            + (if in_window w e then (if e.id == x then 1 else 0) else 0)
    unfolding expired_ids
    count-next_events x = omega (
      arith,
      sum_of-next_events (occurs x),
      count-sum_of x (next_events w e),
      count-sum_of x (take (first_live w e) (events_of e.entity_id w.by_entity)),
      count-sum_of x (events_of e.entity_id w.by_entity),
    )

    pub count-expired_ids-le :
        (x : Text) → count x (expired_ids w e) ≤ count x (ids (events_of e.entity_id w.by_entity))
    unfolding expired_ids
    count-expired_ids-le x = omega (
      arith,
      sum_of-take-drop (occurs x) (first_live w e) (events_of e.entity_id w.by_entity),
      count-sum_of x (take (first_live w e) (events_of e.entity_id w.by_entity)),
      count-sum_of x (events_of e.entity_id w.by_entity),
    )
