-- ===== src/Window/Live.antt =====
-- The split of an entity's events at the cutoff: what the binary search of `prepareLocked` finds.
use distributed_fraud_detect.Prelude.{
  ℕ, zero, suc, ◌≤◌, ◌<◌, ◌≡◌, refl, true, false, List, [], ◌∷◌, some, arith, length, take, drop,
  get_elem?, All, Option-cases, inl, inr,
}
use distributed_fraud_detect.Window.{Window, Event, events_of, is_live, cutoff, first_live}
use distributed_fraud_detect.Window.Search.{Monotone, IsFirst, search-IsFirst}
use distributed_fraud_detect.Window.Sort.{WindowEvent, Follows, IsSorted}

module _ {A : Type 0} where
  Follows-get_elem? :
      (t : ℕ) (xs : List (WindowEvent A)) (i : ℕ) {x : WindowEvent A}
      → Follows t xs
      → get_elem? xs i ≡ some x
      → t ≤ x.at
  Follows-get_elem? t [] i f h = absurd (cc)
  Follows-get_elem? t (y ∷ ys) zero f h = ground arith
  Follows-get_elem? t (y ∷ ys) (suc i) f h = Follows-get_elem? t ys i f.1 h

  -- Past a live event of a sorted list every event is live.
  is_live-Monotone :
      (cut : ℕ) (xs : List (WindowEvent A)) → IsSorted xs → Monotone (length xs) (is_live cut xs)
  is_live-Monotone cut [] s a b le lt h = refl
  is_live-Monotone cut (x ∷ xs) s zero zero le lt h = h
  is_live-Monotone cut (x ∷ xs) s (suc a) zero le lt h = absurd (omega arith)
  is_live-Monotone cut (x ∷ xs) s (suc a) (suc b) le lt h =
      is_live-Monotone cut xs s.1 a b (omega arith) (omega arith) h
  is_live-Monotone cut (x ∷ xs) s zero (suc b) le lt h = elim (Option-cases (get_elem? xs b)) [
    | inl e ↦ rw (e, is_live) refl
    | inr (y, e) ↦ ground (arith, Follows-get_elem? x.at xs b s.0 e)
  ]

  live_drop :
      (cut : ℕ) (xs : List (WindowEvent A)) (r : ℕ)
      → ((k : ℕ) → r ≤ k → k < length xs → is_live cut xs k ≡ true)
      → Follows cut (drop r xs)
  live_drop cut [] zero h = tt
  live_drop cut [] (suc r) h = tt
  live_drop cut (x ∷ xs) zero h =
      (ground (arith, h 0), live_drop cut xs zero (λ k a b. h (suc k) (omega arith) (omega arith)))
  live_drop cut (x ∷ xs) (suc r) h =
      live_drop cut xs r (λ k a b. h (suc k) (omega arith) (omega arith))

  -- Every event lies before the time.
  abbrev pub Precedes : ℕ → List (WindowEvent A) → Type 0
  Precedes t = All (λ y. y.at < t)

  dead_take :
      (cut : ℕ) (xs : List (WindowEvent A)) (r : ℕ)
      → ((k : ℕ) → k < r → is_live cut xs k ≡ false)
      → Precedes cut (take r xs)
  dead_take cut xs zero h = tt
  dead_take cut [] (suc r) h = tt
  dead_take cut (x ∷ xs) (suc r) h =
      (ground (arith, h 0), dead_take cut xs r (λ k a. h (suc k) (omega arith)))

  module _ (w : Window A) (e : Event A)
      (sorted : IsSorted (events_of e.entity_id w.by_entity)) where
    split :
        IsFirst
          (length (events_of e.entity_id w.by_entity))
          (is_live (cutoff w e) (events_of e.entity_id w.by_entity))
          (first_live w e)
    unfolding first_live
    split = search-IsFirst _ _ (is_live-Monotone (cutoff w e) _ sorted)

    pub first_live-le : first_live w e ≤ length (events_of e.entity_id w.by_entity)
    first_live-le = split.bounded

    -- What the search drops lies before the cutoff, and what it keeps does not.
    pub Precedes-take :
        Precedes (cutoff w e) (take (first_live w e) (events_of e.entity_id w.by_entity))
    Precedes-take = dead_take _ _ _ split.before

    pub Follows-drop :
        Follows (cutoff w e) (drop (first_live w e) (events_of e.entity_id w.by_entity))
    Follows-drop = live_drop _ _ _ split.after
