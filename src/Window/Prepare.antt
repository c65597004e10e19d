-- ===== src/Window/Prepare.antt =====
-- `prepareLocked` of stream_processor/aggregations/window.go: what an event would change.
use distributed_fraud_detect.Prelude.{
  ℕ, ◌+◌, ◌-◌, Bool, true, false, not, ◌&&◌, List, [], ◌∷◌, ◌++◌, none, some, Map, ltb, leb, eqb,
  if◌then◌else◌, length, take, drop, get_elem?, contains, lookup, get_or, pos, leb_ℤ, ltb_ℤ,
  int_key, Result, ok, err, ◌>>=◌,
}
use distributed_fraud_detect.Float.{Float64}
use distributed_fraud_detect.Text.{Text, text_key, is_empty, is_printable, is_trimmed_printable}
use distributed_fraud_detect.Window.Search.{search}
use distributed_fraud_detect.Window.Sort.{WindowEvent, slice_stable, ids}
use distributed_fraud_detect.Window.Oldest.{oldest_entity}
use distributed_fraud_detect.Window.State.{
  Event, Features, Error, invalid_event, numeric_range, state_capacity, Window,
  max_tracked_partitions, PendingUpdate, Prepared, ignored, accepted,
}

module _ {A : Type 0} where
  abbrev pub events_of : Text → Map Text (List (WindowEvent A)) → List (WindowEvent A)
  events_of entity by_entity = get_or entity by_entity []

  -- `w.watermark[in.EntityID]`, advanced by the event.
  unfoldable pub next_watermark : Window A → Event A → ℕ
  next_watermark w e =
      let mark = get_or e.entity_id w.watermark 0 in
      if ltb mark e.occurred_at then e.occurred_at else mark

  unfoldable pub cutoff : Window A → Event A → ℕ
  cutoff w e = next_watermark w e - w.duration

  -- `!current[i].at.Before(cutoff)`
  abbrev pub is_live : ℕ → List (WindowEvent A) → ℕ → Bool
  is_live cut current i = elim (get_elem? current i) [ none ↦ true | some x ↦ not (ltb x.at cut) ]

  unfoldable pub first_live : Window A → Event A → ℕ
  first_live w e =
      let current = events_of e.entity_id w.by_entity in
      search (length current) (is_live (cutoff w e) current)

  unfoldable pub in_window : Window A → Event A → Bool
  in_window w e = not (ltb e.occurred_at (cutoff w e))

  abbrev pub new_event : Event A → WindowEvent A
  new_event e = record { id = e.id; at = e.occurred_at; amount = e.amount }

  unfoldable pub next_events : Window A → Event A → List (WindowEvent A)
  next_events w e =
      let kept = drop (first_live w e) (events_of e.entity_id w.by_entity) in
      if in_window w e then slice_stable (kept ++ new_event e ∷ []) else kept

  unfoldable pub expired_ids : Window A → Event A → List Text
  expired_ids w e = ids (take (first_live w e) (events_of e.entity_id w.by_entity))

  -- The entity to evict, or "" if there is room or the entity is known.
  unfoldable pub evict_choice : Window A → Event A → Text
  evict_choice w e = elim (lookup e.entity_id w.watermark) [
    | some _ ↦ []
    | none ↦ if leb w.max_entities (length w.watermark) then oldest_entity w.last_active else []
  ]

  unfoldable pub projected_event_count : Window A → Event A → ℕ
  projected_event_count w e =
      let evict = evict_choice w e in
      let held = w.event_count - first_live w e in
      let left = if is_empty evict then held else held - length (events_of evict w.by_entity) in
      if in_window w e then left + 1 else left

  -- `high, ok := w.offsets[in.Partition]; ok && in.Offset <= high`
  unfoldable pub is_stale : Window A → Event A → Bool
  is_stale w e = elim (lookup e.partition w.offsets) [
    | none ↦ false
    | some high ↦ leb_ℤ e.offset high
  ]

module _ {A : Type 0} ⦃F : Float64 A⦄ where
  unfoldable pub valid_event : Event A → Bool
  valid_event e =
      not (is_empty e.id)
      && leb (length e.id) 256
      && is_printable e.id
      && not (is_empty e.entity_id)
      && leb (length e.entity_id) 256
      && is_trimmed_printable e.entity_id
      && F.leb F.zero e.amount
      && not (F.is_nan e.amount)
      && not (F.is_inf e.amount)
      && not (eqb e.occurred_at 0)
      && leb_ℤ (pos 0) e.partition
      && ltb_ℤ e.partition (pos max_tracked_partitions)
      && leb_ℤ (pos 0) e.offset

  unfoldable pub add_features : Features A → List (WindowEvent A) → Result Error (Features A)
  add_features f [] = ok f
  add_features f (x ∷ xs) = elim (F.ltb (F.sub F.max_float x.amount) f.total_amount) [
    | true ↦ err numeric_range
    | false ↦
        add_features
          (record f {
            total_amount = F.add f.total_amount x.amount;
            max_amount = if F.ltb f.max_amount x.amount then x.amount else f.max_amount;
          })
          xs
  ]

  unfoldable pub next_features : Window A → Event A → Result Error (Features A)
  next_features w e =
      add_features
        (record {
          entity_id = e.entity_id;
          event_count = length (next_events w e);
          total_amount = F.zero;
          max_amount = F.zero;
          window_end = next_watermark w e;
        })
        (next_events w e)

  unfoldable pub pending_update : Window A → Event A → Features A → PendingUpdate A
  pending_update w e f = record {
    changed = if in_window w e then true else ltb 0 (length (expired_ids w e));
    features = f;
    events = next_events w e;
    watermark = next_watermark w e;
    expired = expired_ids w e;
    evict_entity = evict_choice w e;
  }

  unfoldable pub prepare_locked : Window A → Event A → Result Error (Prepared A)
  prepare_locked w e =
      if not (valid_event e)
      then err invalid_event
      else if contains w.seen e.id
      then ok ignored
      else if is_stale w e
      then ok ignored
      else if ltb w.max_events (projected_event_count w e)
      then err state_capacity
      else next_features w e >>= λ f. ok (accepted (pending_update w e f))
