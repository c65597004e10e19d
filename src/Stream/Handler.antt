-- ===== src/Stream/Handler.antt =====
-- The handler of the stream processor's command, which joins the consumers to the window and the
-- sink, with the state behind /readyz and /metrics. `S` is the sink's state and `E` its errors.
use distributed_fraud_detect.Prelude.{
  ℕ, ◌+◌, ◌%◌, ◌^◌, Bool, true, false, ◌++◌, Option, none, some, if◌then◌else◌, ok, err,
}
use distributed_fraud_detect.Float.{Float64}
use distributed_fraud_detect.Text.{Text, text}
use distributed_fraud_detect.Window.{Window, Event, Failure, Materializer, apply_and_materialize}

-- `operationalState`; uint64 counters wrap around.
pub record OperationalState (A : Type 0) : Type 0 where
  pub ready : Bool
  pub attempts : ℕ
  pub events : ℕ
  pub materialized : ℕ
  pub failures : ℕ
  pub event_lag : A

pub record Processor (A S : Type 0) : Type 0 where
  pub window : Window A
  pub sink : S
  pub state : OperationalState A

abbrev pub add_one : ℕ → ℕ
add_one n = (n + 1) % 2 ^ 64

module _ {A : Type 0} ⦃float : Float64 A⦄ where
  -- The state of a processor that is set up, with its probe behind it.
  abbrev pub started_state : OperationalState A
  started_state = record {
    ready = true;
    attempts = 0;
    events = 0;
    materialized = 0;
    failures = 0;
    event_lag = float.zero;
  }

  -- In front of the window: the attempt, and the lag, which is not negative.
  unfoldable pub note_attempt : A → OperationalState A → OperationalState A
  note_attempt lag s = record s {
    attempts = add_one s.attempts;
    event_lag = if float.ltb lag float.zero then float.zero else lag;
  }

  unfoldable pub note_failure : OperationalState A → OperationalState A
  note_failure s = record s { ready = false; failures = add_one s.failures }

  unfoldable pub note_success : Bool → OperationalState A → OperationalState A
  note_success changed s = record s {
    events = add_one s.events;
    ready = true;
    materialized = if changed then add_one s.materialized else s.materialized;
  }

  -- The function that `main` hands to `Consume`; `lag` is `time.Since(event.OccurredAt).Seconds()`.
  unfoldable pub handle_event :
      {S E : Type 0}
      → Materializer S E A
      → A
      → Event A
      → Processor A S
      → Option (Failure E) × Processor A S
  unfolding note_attempt note_failure note_success
  handle_event put lag e p =
      let (w, s, r) = apply_and_materialize p.window p.sink e (some put) in
      let noted = note_attempt lag p.state in
      elim r [
        | err x ↦ (some x, record { window = w; sink = s; state = note_failure noted })
        | ok (f, changed) ↦
            (none, record { window = w; sink = s; state = note_success changed noted })
      ]

-- How `Consume` may end: the signal's context, its own error or its end, or the HTTP server's error.
pub data Ending (X : Type 0) : Type 0 where
  signalled : Ending X
  consumed : Option X → Ending X
  http_failed : X → Ending X

-- The select of `main` and what is behind it: the state, and whether the process exits with status 1.
unfoldable pub finish :
    {A X : Type 0} → (X → Bool) → Ending X → OperationalState A → OperationalState A × Bool
unfolding note_failure
finish is_canceled signalled s = (record s { ready = false }, false)
finish is_canceled (consumed none) s = (record s { ready = false }, false)
finish is_canceled (consumed (some x)) s =
    if is_canceled x
    then (record s { ready = false }, false)
    else (record s { ready = false; failures = add_one s.failures }, true)
finish is_canceled (http_failed x) s = (record s { ready = false }, true)

-- The status of GET /readyz; `probe` is the outcome of the sink's probe, if it has one.
unfoldable pub ready_status : {A X : Type 0} → OperationalState A → Option (Option X) → ℕ
ready_status s none = if s.ready then 200 else 503
ready_status s (some none) = if s.ready then 200 else 503
ready_status s (some (some x)) = 503

-- The body of GET /metrics; `format_uint` and `format_float` are strconv's.
unfoldable pub metrics_body : {A : Type 0} → (ℕ → Text) → (A → Text) → OperationalState A → Text
metrics_body format_uint format_float s =
    text "fraud_stream_attempts_total "
    ++ format_uint s.attempts
    ++ text "\nfraud_stream_processed_total "
    ++ format_uint s.events
    ++ text "\nfraud_stream_event_lag_seconds "
    ++ format_float s.event_lag
    ++ text "\nfraud_stream_materialized_total "
    ++ format_uint s.materialized
    ++ text "\nfraud_stream_failures_total "
    ++ format_uint s.failures
    ++ text "\n"
