-- ===== src/Window.antt =====
-- stream_processor/aggregations/window.go: the per-entity sliding windows behind the fraud
-- features. A `Window` method returns the new state beside its result; the mutex makes each method
-- one step.
-- Times are nanoseconds from Go's zero time, so `IsZero` is `== 0`, and instants before the year 1
-- are left out; `cutoff` stops at 0, below which no event lies. A Go map is an association list,
-- and the set `seen` a list. Counts are numbers: the invariant of Window/Invariant.antt shows that
-- no difference of counts goes below 0.
mod State
mod Prepare
pub mod Search
pub mod Sort
pub mod Oldest
pub mod Live
pub mod Dedupe
pub mod Invariant
pub mod Events
pub mod Base
pub mod Steps
pub mod Totals
pub mod Served
pub mod Reads
pub mod Redelivery
pub mod Sink
mod Examples
unfoldable pub use State.*
unfoldable pub use Prepare.*
use distributed_fraud_detect.Prelude.{
  ℕ, zero, ◌+◌, ◌-◌, ◌*◌, Bool, true, false, not, List, [], ◌∷◌, Option, none, some, ltb,
  if◌then◌else◌, length, contains, erase, get_or, insert, delete, int_key, Result, ok, err,
}
use distributed_fraud_detect.Float.{Float64}
use distributed_fraud_detect.Text.{Text, text_key, is_empty}
use Sort.{WindowEvent, ids}

-- `delete(w.seen, id)` for each id of a list.
abbrev pub delete_all : List Text → List Text → List Text
delete_all [] seen = seen
delete_all (x ∷ xs) seen = delete_all xs (erase seen x)

abbrev pub set_add : Text → List Text → List Text
set_add x seen = if contains seen x then seen else x ∷ seen

module _ {A : Type 0} where
  unfoldable pub evict_entity_locked : Window A → Text → Window A
  evict_entity_locked w entity = record w {
    by_entity = delete entity w.by_entity;
    seen = delete_all (ids (events_of entity w.by_entity)) w.seen;
    watermark = delete entity w.watermark;
    last_active = delete entity w.last_active;
    event_count = w.event_count - length (events_of entity w.by_entity);
  }

  -- The body of `commitLocked` behind the eviction.
  unfoldable pub commit_events : Window A → Event A → PendingUpdate A → Window A
  commit_events w e p =
      let seen = delete_all p.expired w.seen in
      record w {
        by_entity = insert e.entity_id p.events w.by_entity;
        seen =
            if not (ltb e.occurred_at (p.watermark - w.duration)) then set_add e.id seen else seen;
        offsets = insert e.partition e.offset w.offsets;
        watermark = insert e.entity_id p.watermark w.watermark;
        last_active = insert e.entity_id p.watermark w.last_active;
        event_count = w.event_count + length p.events - length (events_of e.entity_id w.by_entity);
      }

  unfoldable pub commit_locked : Window A → Event A → PendingUpdate A → Window A
  commit_locked w e p =
      commit_events (if is_empty p.evict_entity then w else evict_entity_locked w p.evict_entity) e
        p

  unfoldable pub dedupe_size : Window A → ℕ
  dedupe_size w = length w.seen

  unfoldable pub entity_count : Window A → ℕ
  entity_count w = length w.watermark

module _ {A : Type 0} ⦃F : Float64 A⦄ where
  -- The features that come with no update.
  abbrev pub no_features : Features A
  no_features = record {
    entity_id = [];
    event_count = 0;
    total_amount = F.zero;
    max_amount = F.zero;
    window_end = 0;
  }

  unfoldable pub apply : Window A → Event A → Window A × Result Error (Features A × Bool)
  apply w e = elim (prepare_locked w e) [
    | err x ↦ (w, err x)
    | ok ignored ↦ (w, ok (no_features, false))
    | ok (accepted p) ↦ (commit_locked w e p, ok (p.features, p.changed))
  ]

  -- Behind `sink.Put`: an error leaves the window as it was.
  unfoldable pub after_put :
      {S E : Type 0}
      → Window A
      → Event A
      → PendingUpdate A
      → S × Option E
      → Window A × S × Result (Failure E) (Features A × Bool)
  after_put w e p (s, some x) = (w, s, err (sink_error x))
  after_put w e p (s, none) = (commit_locked w e p, s, ok (p.features, p.changed))

  unfoldable pub apply_and_materialize :
      {S E : Type 0}
      → Window A
      → S
      → Event A
      → Option (Materializer S E A)
      → Window A × S × Result (Failure E) (Features A × Bool)
  apply_and_materialize w s e none = (w, s, err materializer_required)
  apply_and_materialize w s e (some put) = elim (prepare_locked w e) [
    | err x ↦ (w, s, err (window_error x))
    | ok ignored ↦ (w, s, ok (no_features, false))
    | ok (accepted p) ↦ after_put w e p (if p.changed then put s p.features else (s, none))
  ]

  -- The loop of `Snapshot`.
  unfoldable pub snapshot_features : ℕ → Features A → List (WindowEvent A) → Features A
  snapshot_features cut f [] = f
  snapshot_features cut f (x ∷ xs) =
      snapshot_features cut
        (if ltb x.at cut then f else record f {
          event_count = f.event_count + 1;
          total_amount = F.add f.total_amount x.amount;
          max_amount = if F.ltb f.max_amount x.amount then x.amount else f.max_amount;
        })
        xs

  -- `Snapshot` behind its choice of the watermark.
  unfoldable pub snapshot_from : ℕ → ℕ → Text → List (WindowEvent A) → Features A × Bool
  snapshot_from duration mark entity [] = (no_features, false)
  snapshot_from duration mark entity (x ∷ xs) = (
    snapshot_features (mark - duration)
        (record {
          entity_id = entity;
          event_count = 0;
          total_amount = F.zero;
          max_amount = F.zero;
          window_end = mark;
        })
        (x ∷ xs),
    true,
  )

  unfoldable pub snapshot : Window A → Text → ℕ → Features A × Bool
  snapshot w entity now =
      let stored = get_or entity w.watermark 0 in
      snapshot_from w.duration (if ltb stored now then now else stored) entity
        (events_of entity w.by_entity)
