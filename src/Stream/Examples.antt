-- ===== src/Stream/Examples.antt =====
-- Processors that start in production and that work off a queue, and the command's theorems on them.
use distributed_fraud_detect.Prelude.{
  Result, err, true, zero, suc, ℕ, ◌≡◌, refl, false, List, [], ◌∷◌, Option, none, some, pos, arith,
  length, if◌then◌else◌, ◌==◌, Map, ok, All,
}
use distributed_fraud_detect.Float.Whole.{
  Whole, fin, whole, whole_add, whole_sub, whole_ltb, whole_leb, whole_is_nan, whole_is_inf,
}
use distributed_fraud_detect.Text.{Text, text, text_key, is_printable, is_trimmed_printable}
use distributed_fraud_detect.Text.Trim.{trim_text}
use distributed_fraud_detect.Tls.{root_cas_of, certificates_of}
use distributed_fraud_detect.Process.{Process, env_bool}
use distributed_fraud_detect.Window.{
  Event, Failure, apply_and_materialize, after_put, new_with_limits, next_watermark, cutoff,
  first_live, in_window, next_events, expired_ids, evict_choice, projected_event_count, is_stale,
  valid_event, add_features, next_features, pending_update, prepare_locked,
}
use distributed_fraud_detect.Window.Search.{search}
use distributed_fraud_detect.Window.Sort.{slice_stable}
use distributed_fraud_detect.Window.Reads.{Agrees}
use distributed_fraud_detect.Window.Steps.{new_with_limits-IsValid}
use distributed_fraud_detect.Features.Ticks.{
  ticks, read, ticks-IsExact, opened, payment, reported, payment_taken, opened-AllPriced,
}
use distributed_fraud_detect.Features.Materialize.{
  SinkError, put_redis, valid_features, vector, materialized_feature_width,
}
use distributed_fraud_detect.Features.Vector.{join, split}
use distributed_fraud_detect.Features.Store.{get_redis}
use distributed_fraud_detect.Features.Redis.{
  RedisOptions, new_redis_materializer_with_config, redis_tls_config,
}
use distributed_fraud_detect.Features.RoundTrip.{numbers}
use distributed_fraud_detect.Ingestion.Config.{Services}
use distributed_fraud_detect.Ingestion.Dialer.{new_kafka_dialer, dial_with}
use distributed_fraud_detect.Ingestion.Secure.{new_kafka}
use distributed_fraud_detect.Ingestion.Memory.{MemoryError, consume_memory}
use distributed_fraud_detect.Stream.Settings.{Stdin, at_end}
use distributed_fraud_detect.Stream.Start.{Started, probe_sink, start}
use distributed_fraud_detect.Stream.Secured.{IsProduction}
use distributed_fraud_detect.Stream.Production.{start-IsProduction}
use distributed_fraud_detect.Stream.Handler.{
  Processor, started_state, handle_event, note_attempt, note_failure, note_success,
}
use distributed_fraud_detect.Stream.Delivered.{IsProcessed, consume_memory-IsProcessed}
use distributed_fraud_detect.Features.Store.{StoreError}
use distributed_fraud_detect.Scheduler.State.{Error, queue_delay}
use distributed_fraud_detect.Worker.Types.{Request, Score}
use distributed_fraud_detect.Gateway.Request.{authorized, behind}
use distributed_fraud_detect.Gateway.Handler.{Config, Counters, HttpRequest, score}
use distributed_fraud_detect.Stream.Decided.{store_services, IsAnswer, score-handled}
use distributed_fraud_detect.Stream.Served.{redis_materializer, handle_event-get_redis}

-- An environment of Kafka with SCRAM and Redis with a password; every other variable is unset.
abbrev variables : Map Text Text
variables =
    (text "KAFKA_BROKERS", text "kafka:9093")
    ∷ (text "KAFKA_SASL_USERNAME", text " user ")
    ∷ (text "KAFKA_SASL_PASSWORD", text "secret")
    ∷ (text "REDIS_ADDR", text "redis:6380")
    ∷ (text "REDIS_PASSWORD", text "secret")
    ∷ (text "STREAM_PROCESSOR_TLS_CERT_FILE", text "cert.pem")
    ∷ (text "STREAM_PROCESSOR_TLS_KEY_FILE", text "key.pem")
    ∷ []

abbrev value_of : Map Text Text → Text → Text
value_of [] key = []
value_of ((k, v) ∷ more) key = if k == key then v else value_of more key

abbrev process : Process
process = record { getenv = value_of variables; parse_duration = λ s. none }

abbrev services : Services ℕ Text Text Text
services = record {
  files = record {
    read_file = λ name. ok name;
    append_certs_from_pem = λ pem. some pem;
    load_x509_key_pair = λ certificate key. ok certificate;
  };
  scram_sha512 = λ user password. ok user;
}

abbrev ping : RedisOptions Text Text → Option ℕ
ping o = none

abbrev nothing : Stdin Whole ℕ
nothing = at_end

started : (r : Started Whole Text Text Text) × (start process services ping nothing ≡ ok r)
unfolding start trim_text new_kafka split new_kafka_dialer dial_with root_cas_of certificates_of
    new_redis_materializer_with_config redis_tls_config
started = (_, refl)

production : env_bool process (text "FRAUD_DEVELOPMENT_INSECURE") ≡ false
unfolding env_bool trim_text
production = refl

start-IsProduction_example : (probe_sink ping started.0.sink ≡ none) × IsProduction started.0
start-IsProduction_example =
    start-IsProduction process services ping nothing started.0 production started.1

queue : List (Event Whole)
queue = payment ∷ record payment { id = text "e2"; occurred_at = 110; offset = pos 8 } ∷ []

queue_numbers : All (λ e. whole_is_nan e.amount ≡ false) queue
unfolding whole_is_nan queue
queue_numbers = (refl, (refl, tt))

abbrev processor : Processor Whole (Map Text Text)
processor = record { window = opened; sink = []; state = started_state }

abbrev lag : Event Whole → Processor Whole (Map Text Text) → Whole
lag e p = fin 2

consume_memory-IsProcessed_example :
    (r : Option (MemoryError (Failure (SinkError ℕ)))) × (rest : List (Event Whole))
    × (q : Processor Whole (Map Text Text)) × (consume_memory
          (λ p. none)
          (λ e p. handle_event (redis_materializer {X = ℕ} ticks (λ s. none)) (lag e p) e p)
          (suc (length queue))
          (record { events = queue; closed = false })
          processor
        ≡ (some r, record { events = rest; closed = false }, q))
    × IsProcessed (redis_materializer {X = ℕ} ticks (λ s. none)) processor queue r rest q
consume_memory-IsProcessed_example =
    consume_memory-IsProcessed (redis_materializer {X = ℕ} ticks (λ s. none)) lag (λ p. none) queue
      processor queue_numbers (omega arith, omega arith, omega arith)

payment_handled :
    (handle_event {E = SinkError ℕ}
      (redis_materializer {X = ℕ} ticks (λ s. none))
      (fin 2)
      payment
      processor).0
    ≡ none
unfolding handle_event note_attempt note_failure note_success apply_and_materialize after_put
    prepare_locked valid_event is_printable is_trimmed_printable whole_add whole_sub whole_ltb
    whole_leb whole_is_nan whole_is_inf new_with_limits is_stale projected_event_count in_window
    cutoff next_watermark evict_choice first_live expired_ids next_events add_features next_features
    pending_update search slice_stable put_redis valid_features vector join
payment_handled = refl

handle_event-get_redis_example :
    let q =
      (handle_event (redis_materializer {X = ℕ} ticks (λ s. none)) (fin 2) payment processor).1 in
    Agrees q.window (text "acct") reported
    × (get_redis {X = ℕ} read materialized_feature_width none none (text "acct") q.sink
        ≡ ok (numbers ticks read fin ticks-IsExact reported))
handle_event-get_redis_example =
    handle_event-get_redis ticks read fin ticks-IsExact (λ s. none) (fin 2) payment processor
      reported (new_with_limits-IsValid Whole (pos 60) (pos 2) (pos 3)) opened-AllPriced
      payment_taken payment_handled

-- A gateway over the same store; its scheduler is in time for as many requests as its world says.
abbrev config : Config Whole
config = record {
  auth_token = text "key";
  timeout = 40_000_000;
  feature_timeout = 10_000_000;
  queue_delay_limit = 2_000_000;
  inference_timeout = 20_000_000;
  deny_score = fin 4;
}

abbrev sum_of : List Whole → Score Whole
sum_of fs = record {
  score = elim fs [ [] ↦ fin 0 | f ∷ more ↦ f ];
  confidence = fin 1;
  explanation = [];
  model = text "count";
  calibration_version = text "c";
  policy_version = text "p";
  feature_version = text "f";
  fallback = false;
  fallback_reason = [];
}

abbrev schedule : Request Whole → ℕ → Result (Error (StoreError ℕ)) (Score Whole) × ℕ
schedule r zero = (err queue_delay, zero)
schedule r (suc v) = (ok (sum_of r.features), v)

abbrev counters : Counters
counters = record {
  requests = 0;
  denied = 0;
  failures = 0;
  feature_fallbacks = 0;
  queue_fallbacks = 0;
  worker_fallbacks = 0;
  request_nanos = 0;
  request_buckets = 0 ∷ 0 ∷ 0 ∷ 0 ∷ 0 ∷ 0 ∷ 0 ∷ [];
}

abbrev decode : Text → Option (Text × Whole)
decode body = some (body, fin 3)

abbrev lookup_request : HttpRequest Text
lookup_request = record { authorization = text "Bearer key"; id = text "r1"; body = text "acct" }

shows_token : authorized (text "key") (text "Bearer key") ≡ true
unfolding authorized behind
shows_token = refl

not_negative : whole_ltb (fin 3) (fin 0) ≡ false
unfolding whole_ltb
not_negative = refl

score-handled_example :
    let q =
      (handle_event (redis_materializer {X = ℕ} ticks (λ s. none)) (fin 2) payment processor).1 in
    IsAnswer
      (fin 1)
      config
      {X = StoreError ℕ}
      (text "r1")
      (ok (sum_of (numbers ticks read fin ticks-IsExact reported)))
      (score
        (fin 1)
        (store_services {X = ℕ} decode read schedule (λ v. 1_000))
        config
        lookup_request
        (record { counters = counters; world = (q.sink, 1) })).0
score-handled_example =
    score-handled ticks read fin ticks-IsExact (λ s. none) decode schedule (λ v. 1_000) (fin 1)
      config (fin 2) payment processor reported lookup_request (fin 3) counters 1
      (new_with_limits-IsValid Whole (pos 60) (pos 2) (pos 3)) opened-AllPriced payment_taken
      payment_handled shows_token refl not_negative
