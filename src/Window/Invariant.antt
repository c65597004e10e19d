-- ===== src/Window/Invariant.antt =====
-- The well-formedness of a window: its maps describe the same entities, its counters and its set
-- of IDs describe the stored events, and the limits hold. `commitLocked` keeps it.
use distributed_fraud_detect.Prelude.{
  suc, ◌+◌, ◌-◌, ◌≤◌, ◌<◌, ◌≡◌, refl, ap, Bool, true, false, not, inl, inr, List, [], ◌∷◌, Map,
  arith, ltb, if◌then◌else◌, length, count, contains, erase, ◌==◌, Bool-cases, keys, total, measure,
  AllValues, lookup, insert, delete, total-insert, total-delete, keys-insert, keys-delete, add_key,
  length-keys, length-add_key_new, length-add_key_old, contains-add_key, length-erase,
  AllValues-insert, AllValues-delete,
}
use distributed_fraud_detect.Text.{Text, text_key, text_beq_iff, is_empty}
use distributed_fraud_detect.Window.{
  Window, Event, PendingUpdate, events_of, delete_all, evict_entity_locked, commit_events,
}
use distributed_fraud_detect.Window.Sort.{WindowEvent, IsSorted, ids}
use distributed_fraud_detect.Window.Dedupe.{
  count_absent, count-delete_all, length-delete_all, count-set_add, length-set_add, absent_of_count,
}

pub record IsValid {A : Type 0} (w : Window A) : Type 0 where
  pub some_room : 0 < w.max_entities
  pub entity_room : length w.watermark ≤ w.max_entities
  pub event_room : w.event_count ≤ w.max_events
  pub counted : w.event_count ≡ total length w.by_entity
  pub same_keys : keys w.by_entity ≡ keys w.watermark
  pub same_active : keys w.last_active ≡ keys w.watermark
  pub named : contains (keys w.watermark) [] ≡ false
  pub sorted : AllValues IsSorted w.by_entity
  pub recorded : (x : Text) → count x w.seen ≡ total (λ es. count x (ids es)) w.by_entity
  pub once : (x : Text) → count x w.seen ≤ 1
  pub deduped : length w.seen ≡ w.event_count

pub length-ids : {A : Type 0} (xs : List (WindowEvent A)) → length (ids xs) ≡ length xs
length-ids [] = refl
length-ids (x ∷ xs) = omega (arith, length-ids xs)

contains-erase_absent :
    (x y : Text) (xs : List Text) → contains xs y ≡ false → contains (erase xs x) y ≡ false
contains-erase_absent x y [] h = refl
contains-erase_absent x y (z ∷ zs) h = ground (arith, contains-erase_absent x y zs)

named_ne : (x : Text) → is_empty x ≡ false → (x == []) ≡ false
named_ne [] h = cc
named_ne (b ∷ x) h = refl

module _ {A : Type 0} where
  -- A read with the zero value measures like the optional one.
  measure-length :
      (k : Text) (m : Map Text (List (WindowEvent A)))
      → measure length (lookup k m) ≡ length (events_of k m)
  measure-length k m = ground arith

  measure-count :
      (x k : Text) (m : Map Text (List (WindowEvent A)))
      → measure (λ es. count x (ids es)) (lookup k m) ≡ count x (ids (events_of k m))
  measure-count x k m = ground arith

  module _ (w : Window A) (x : Text) (v : IsValid w)
      (known : contains (keys w.watermark) x ≡ true) where
    held : (y : Text) → count y (ids (events_of x w.by_entity)) ≤ count y w.seen
    held y = omega (
      arith,
      v.recorded y,
      measure-count y x w.by_entity,
      total-delete (λ es. count y (ids es)) x w.by_entity,
    )

    pub length-evict_entity_locked :
        suc (length (evict_entity_locked w x).watermark) ≡ length w.watermark
    unfolding evict_entity_locked
    length-evict_entity_locked = omega (
      arith,
      length-keys w.watermark,
      length-keys (delete x w.watermark),
      ap length (keys-delete x w.watermark),
      length-erase x (keys w.watermark) known,
    )

    -- Eviction keeps the invariant and frees the place of one entity.
    pub evict_entity_locked-IsValid : IsValid (evict_entity_locked w x)
    unfolding evict_entity_locked
    evict_entity_locked-IsValid = record {
      some_room = v.some_room;
      entity_room = omega (arith, v.entity_room, length-evict_entity_locked);
      event_room = omega (arith, v.event_room);
      counted =
          omega (arith, v.counted, measure-length x w.by_entity, total-delete length x w.by_entity);
      same_keys = rw (keys-delete x w.by_entity, keys-delete x w.watermark, v.same_keys);
      same_active = rw (keys-delete x w.last_active, keys-delete x w.watermark, v.same_active);
      named =
          rw (keys-delete x w.watermark) (contains-erase_absent x [] (keys w.watermark) v.named);
      sorted = AllValues-delete IsSorted x w.by_entity v.sorted;
      recorded = λ y. omega (
        arith,
        v.recorded y,
        measure-count y x w.by_entity,
        count-delete_all y (ids (events_of x w.by_entity)) w.seen,
        total-delete (λ es. count y (ids es)) x w.by_entity,
      );
      once =
          λ y. omega (arith, v.once y, count-delete_all y (ids (events_of x w.by_entity)) w.seen);
      deduped = omega (
        arith,
        v.deduped,
        length-ids (events_of x w.by_entity),
        length-delete_all (ids (events_of x w.by_entity)) w.seen held,
      );
    }

  -- What an update must satisfy to be committed.
  pub record Fits (w : Window A) (e : Event A) (p : PendingUpdate A) : Type 0 where
    pub fresh : Bool
    pub fresh_lem : not (ltb e.occurred_at (p.watermark - w.duration)) ≡ fresh
    pub unseen : contains w.seen e.id ≡ false
    pub entity_named : is_empty e.entity_id ≡ false
    pub entity_fits :
        contains (keys w.watermark) e.entity_id ≡ false → length w.watermark < w.max_entities
    pub events_fit :
        w.event_count + length p.events ≤ w.max_events + length (events_of e.entity_id w.by_entity)
    pub sorted : IsSorted p.events
    pub sizes :
        length p.events + length p.expired
        ≡ length (events_of e.entity_id w.by_entity) + (if fresh then 1 else 0)
    pub stored : (x : Text) → count x p.expired ≤ count x (ids (events_of e.entity_id w.by_entity))
    pub conserved :
        (x : Text)
        → count x (ids p.events) + count x p.expired
          ≡ count x (ids (events_of e.entity_id w.by_entity))
            + (if fresh then (if e.id == x then 1 else 0) else 0)

  module _ (w : Window A) (e : Event A) (p : PendingUpdate A) (v : IsValid w)
      (fits : Fits w e p) where
    current : List (WindowEvent A)
    current = events_of e.entity_id w.by_entity

    keys_fit : length (add_key e.entity_id (keys w.watermark)) ≤ w.max_entities
    keys_fit = elim (Bool-cases (contains (keys w.watermark) e.entity_id)) [
      | inl old ↦
          omega
            (arith, v.entity_room, length-keys w.watermark, length-add_key_old e.entity_id _ old)
      | inr new ↦ omega (
        arith,
        fits.entity_fits new,
        length-keys w.watermark,
        length-add_key_new e.entity_id _ new,
      )
    ]

    stored_seen : (x : Text) → count x p.expired ≤ count x w.seen
    stored_seen x = omega (
      arith,
      v.recorded x,
      measure-count x e.entity_id w.by_entity,
      fits.stored x,
      total-delete (λ es. count x (ids es)) e.entity_id w.by_entity,
    )

    still_unseen : contains (delete_all p.expired w.seen) e.id ≡ false
    still_unseen = absent_of_count e.id _ (
        omega (arith, count-delete_all e.id p.expired w.seen, count_absent e.id w.seen fits.unseen))

    count_seen :
        (x : Text)
        → count x (commit_events w e p).seen
          ≡ (if fits.fresh then (if e.id == x then 1 else 0) else 0)
            + (count x w.seen - count x p.expired)
    unfolding commit_events
    count_seen x = rw fits.fresh_lem (
        ground (
          arith,
          count-delete_all x p.expired w.seen,
          count-set_add x e.id (delete_all p.expired w.seen) still_unseen,
        ))

    length_seen :
        length (commit_events w e p).seen + length p.expired
        ≡ length w.seen + (if fits.fresh then 1 else 0)
    unfolding commit_events
    length_seen = rw fits.fresh_lem (
        ground (
          arith,
          length-delete_all p.expired w.seen stored_seen,
          length-set_add e.id (delete_all p.expired w.seen) still_unseen,
        ))

    pub commit_events-IsValid : IsValid (commit_events w e p)
    unfolding commit_events
    commit_events-IsValid = record {
      some_room = v.some_room;
      entity_room = omega (
        arith,
        length-keys w.watermark,
        length-keys (insert e.entity_id p.watermark w.watermark),
        ap length (keys-insert e.entity_id p.watermark w.watermark),
        keys_fit,
      );
      event_room = omega (arith, v.event_room, fits.events_fit);
      counted = omega (
        arith,
        v.counted,
        measure-length e.entity_id w.by_entity,
        total-insert length e.entity_id p.events w.by_entity,
      );
      same_keys = rw (
        keys-insert e.entity_id p.events w.by_entity,
        keys-insert e.entity_id p.watermark w.watermark,
        v.same_keys,
      );
      same_active = rw (
        keys-insert e.entity_id p.watermark w.last_active,
        keys-insert e.entity_id p.watermark w.watermark,
        v.same_active,
      );
      named = rw (keys-insert e.entity_id p.watermark w.watermark) (
          ground (
            arith,
            v.named,
            contains-add_key e.entity_id [] (keys w.watermark),
            named_ne e.entity_id fits.entity_named,
          ));
      sorted = AllValues-insert IsSorted e.entity_id p.events w.by_entity fits.sorted v.sorted;
      recorded = λ x. omega (
        arith,
        v.recorded x,
        measure-count x e.entity_id w.by_entity,
        fits.conserved x,
        fits.stored x,
        count_seen x,
        total-insert (λ es. count x (ids es)) e.entity_id p.events w.by_entity,
        total-delete (λ es. count x (ids es)) e.entity_id w.by_entity,
      );
      once = λ x. ground (
        arith,
        v.once x,
        count_seen x,
        count_absent e.id w.seen fits.unseen,
        text_beq_iff e.id x,
      );
      deduped = omega (arith, v.deduped, v.counted, length_seen, fits.sizes);
    }
