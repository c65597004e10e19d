-- ===== src/Window/Base.antt =====
-- The state that `commitLocked` writes an update to: the window, or the window less the entity
-- that `prepareLocked` chose to evict.
use distributed_fraud_detect.Prelude.{
  ◌-◌, ◌≤◌, ◌<◌, ◌≡◌, refl, sym, ap, subst, true, false, ◌⊎◌, inl, inr, List, [], ◌∷◌, arith, leb,
  if◌then◌else◌, length, count, contains, Bool-cases, Option-cases, keys, lookup, lookup-keys,
  keys-lookup, lookup-delete_ne, AllValues-lookup, length-keys,
}
use distributed_fraud_detect.Text.{Text, text_key, text_beq_iff, is_empty}
use distributed_fraud_detect.Window.{Window, Event, events_of, evict_entity_locked, evict_choice}
use distributed_fraud_detect.Window.Sort.{IsSorted, ids}
use distributed_fraud_detect.Window.Oldest.{oldest_entity, oldest_entity-mem}
use distributed_fraud_detect.Window.Dedupe.{count-delete_all}
use distributed_fraud_detect.Window.Invariant.{
  IsValid, evict_entity_locked-IsValid, length-evict_entity_locked,
}

named_of_mem :
    (x : Text) (ks : List Text) → contains ks [] ≡ false → contains ks x ≡ true → is_empty x ≡ false
named_of_mem [] ks a b = cc
named_of_mem (c ∷ x) ks a b = refl

module _ {A : Type 0} where
  -- The choice of an entity to evict: none, with room for the new one; or one that is stored, and
  -- the event's entity is not.
  abbrev EvictChoice : Window A → Event A → Text → Type 0
  EvictChoice w e x =
      ((is_empty x ≡ true)
        × (contains (keys w.watermark) e.entity_id ≡ false → length w.watermark < w.max_entities))
      ⊎ ((is_empty x ≡ false)
          × (contains (keys w.watermark) x ≡ true)
          × (contains (keys w.watermark) e.entity_id ≡ false))

  module _ (w : Window A) (e : Event A) (v : IsValid w) where
    pub events_of-IsSorted : IsSorted (events_of e.entity_id w.by_entity)
    events_of-IsSorted = elim (Option-cases (lookup e.entity_id w.by_entity)) [
      | inl a ↦
          let same : events_of e.entity_id w.by_entity ≡ [] = ground arith in
          subst IsSorted (sym same) tt
      | inr (es, a) ↦
          let same : events_of e.entity_id w.by_entity ≡ es = ground arith in
          subst IsSorted (sym same) (AllValues-lookup IsSorted e.entity_id w.by_entity v.sorted a)
    ]

    oldest_stored :
        w.max_entities ≤ length w.watermark
        → contains (keys w.watermark) (oldest_entity w.last_active) ≡ true
    oldest_stored h = rw (← v.same_active) (
        oldest_entity-mem w.last_active (
          omega (
            arith,
            v.some_room,
            length-keys w.watermark,
            length-keys w.last_active,
            ap length v.same_active,
          )))

    evict_choice-cases : EvictChoice w e (evict_choice w e)
    unfolding evict_choice
    evict_choice-cases = elim (Option-cases (lookup e.entity_id w.watermark)) [
      | inr (t, a) ↦
          rw (a, evict_choice)
            (inl (refl, λ h. absurd (ground (arith, a, keys-lookup e.entity_id w.watermark h))))
      | inl a ↦ elim (Bool-cases (leb w.max_entities (length w.watermark))) [
        | inl full ↦
            rw (a, full, evict_choice)
              (inr (
                named_of_mem _ _ v.named (oldest_stored (ground arith)),
                oldest_stored (ground arith),
                lookup-keys e.entity_id w.watermark a,
              ))
        | inr room ↦ rw (a, room, evict_choice) (inl (refl, λ _. ground arith))
      ]
    ]

    -- The state that `commitLocked` writes the update to.
    unfoldable pub base : Window A
    base = if is_empty (evict_choice w e) then w else evict_entity_locked w (evict_choice w e)

    pub record IsBase (u : Window A) : Type 0 where
      pub valid : IsValid u
      pub same_current : events_of e.entity_id u.by_entity ≡ events_of e.entity_id w.by_entity
      pub same_duration : u.duration ≡ w.duration
      pub same_limit : u.max_events ≡ w.max_events
      pub seen_less : (x : Text) → count x u.seen ≤ count x w.seen
      pub fits :
          contains (keys u.watermark) e.entity_id ≡ false → length u.watermark < u.max_entities
      pub count_less :
          u.event_count
          ≡ w.event_count
            - (if is_empty (evict_choice w e)
                then 0
                else length (events_of (evict_choice w e) w.by_entity))

    evicted-IsBase :
        is_empty (evict_choice w e) ≡ false
        → contains (keys w.watermark) (evict_choice w e) ≡ true
        → contains (keys w.watermark) e.entity_id ≡ false
        → IsBase (evict_entity_locked w (evict_choice w e))
    unfolding evict_entity_locked
    evicted-IsBase named stored new = record {
      valid = evict_entity_locked-IsValid w (evict_choice w e) v stored;
      same_current = ground (
        arith,
        text_beq_iff (evict_choice w e) e.entity_id,
        lookup-delete_ne (evict_choice w e) e.entity_id w.by_entity,
      );
      same_duration = refl;
      same_limit = refl;
      seen_less = λ x.
          omega (arith, count-delete_all x (ids (events_of (evict_choice w e) w.by_entity)) w.seen);
      fits = λ _.
          omega (arith, v.entity_room, length-evict_entity_locked w (evict_choice w e) v stored);
      count_less = rw named;
    }

    pub base-IsBase : IsBase base
    unfolding base
    base-IsBase = elim evict_choice-cases [
      | inl (empty, room) ↦ rw empty (record {
        valid = v;
        same_current = refl;
        same_duration = refl;
        same_limit = refl;
        seen_less = λ x. omega arith;
        fits = room;
        count_less = rw empty (omega arith);
      })
      | inr (named, stored, new) ↦ rw named (evicted-IsBase named stored new)
    ]
