-- ===== src/Window/State.antt =====
-- The types of stream_processor/aggregations/window.go, and its constructor.
pub use distributed_fraud_detect.Ingestion.Event.{Event}
use distributed_fraud_detect.Prelude.{ℕ, Bool, List, [], Option, Map, ℤ, positive_or, int_key}
use distributed_fraud_detect.Text.{Text, text_key}
use distributed_fraud_detect.Window.Sort.{WindowEvent}

pub record Features (A : Type 0) : Type 0 where
  pub entity_id : Text
  pub event_count : ℕ
  pub total_amount : A
  pub max_amount : A
  pub window_end : ℕ

pub data Error : Type 0 where
  invalid_event numeric_range state_capacity : Error

pub record Window (A : Type 0) : Type 0 where
  pub duration : ℕ
  pub by_entity : Map Text (List (WindowEvent A))
  pub seen : List Text
  pub offsets : Map ℤ ℤ
  pub watermark : Map Text ℕ
  pub last_active : Map Text ℕ
  pub event_count : ℕ
  pub max_entities : ℕ
  pub max_events : ℕ

abbrev pub max_tracked_partitions : ℕ
max_tracked_partitions = 100_000

abbrev pub five_minutes : ℕ
five_minutes = 300_000_000_000

unfoldable pub new_with_limits : (A : Type 0) → ℤ → ℤ → ℤ → Window A
new_with_limits A duration max_entities max_events = record {
  duration = positive_or five_minutes duration;
  by_entity = [];
  seen = [];
  offsets = [];
  watermark = [];
  last_active = [];
  event_count = 0;
  max_entities = positive_or 1 max_entities;
  max_events = positive_or 1 max_events;
}

-- What `prepareLocked` hands to `commitLocked`. The zero pendingUpdate is `ignored`.
pub record PendingUpdate (A : Type 0) : Type 0 where
  pub changed : Bool
  pub features : Features A
  pub events : List (WindowEvent A)
  pub watermark : ℕ
  pub expired : List Text
  pub evict_entity : Text

pub data Prepared (A : Type 0) : Type 0 where
  ignored : Prepared A
  accepted : PendingUpdate A → Prepared A

-- The sink's error is what `Put` returned.
pub data Failure (E : Type 0) : Type 0 where
  window_error : Error → Failure E
  materializer_required : Failure E
  sink_error : E → Failure E

-- A Materializer over a state of its own: `Put` gives the new state and an error, if any.
abbrev pub Materializer : Type 0 → Type 0 → Type 0 → Type 0
Materializer S E A = S → Features A → S × Option E
