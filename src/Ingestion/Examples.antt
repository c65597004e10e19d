-- ===== src/Ingestion/Examples.antt =====
-- A topic of two records whose handler fails once, and the consumer's theorems on it.
use distributed_fraud_detect.Prelude.{
  ℕ, zero, suc, ◌+◌, ◌-◌, ◌≤◌, ◌≡◌, refl, true, false, List, [], ◌∷◌, Option, none, some, pos, ok,
  err, eqb, if◌then◌else◌,
}
use distributed_fraud_detect.Float.Whole.{Whole, fin, whole, whole_is_nan}
use distributed_fraud_detect.Ingestion.Event.{Event}
use distributed_fraud_detect.Ingestion.Kafka.{
  Message, Environment, Consumer, State, fetch_failed, note, wait, pause_after, call_fetch,
  fetch_loop, fetch, call_commit, commit_loop, commit, give_up, attempt_event, process_loop,
  process, consume_round, consume, committed, handled, waited, fetched,
}
use distributed_fraud_detect.Ingestion.Backoff.{wait_backoff}
use distributed_fraud_detect.Ingestion.Commits.{commits_settled, consume-settled}
use distributed_fraud_detect.Ingestion.Attempts.{tries, pauses, burials, process_bounds}
use distributed_fraud_detect.Text.{Text, text}
use distributed_fraud_detect.Text.Trim.{trim_text}
use distributed_fraud_detect.Ingestion.Memory.{
  MemoryError, consume_memory, Delivery, consume_memory-Delivery,
}
use distributed_fraud_detect.Ingestion.Config.{KafkaConfig, Services, Dialer, sasl_with_plaintext}
use distributed_fraud_detect.Tls.{version_tls13, root_cas_of, certificates_of}
use distributed_fraud_detect.Ingestion.Dialer.{new_kafka_dialer, dial_with}
use distributed_fraud_detect.Ingestion.Secure.{new_kafka, build, IsSafe, new_kafka-IsSafe}

abbrev record_7 : Message
record_7 = record {
  topic = text "events";
  partition = pos 1;
  offset = pos 7;
  key = text "acct";
  value = text "{}";
  headers = [];
  time = 0;
}

abbrev decoded : Event Whole
decoded = record {
  id = text "e1";
  entity_id = text "acct";
  amount = fin 20;
  occurred_at = 100;
  partition = pos 0;
  offset = pos 0;
}

-- The world counts down: its calls succeed from 3 on, the handler's first call fails.
abbrev topic : Environment Whole ℕ ℕ
topic = record {
  fetch_message = λ w. elim w [ zero ↦ (err 5, 0) | suc n ↦ (ok record_7, n) ];
  commit_messages = λ m w. (none, w);
  write_messages = λ m w. (none, w);
  poison_handler = λ value last w. (none, w);
  handle = λ event w. (if eqb w 2 then some 4 else none, w - 1);
  unmarshal = λ value. ok decoded;
  ctx_err = λ w. none;
  select_timer = λ pause w. (none, w);
  format_time = λ t. text "2026-01-01T00:00:00Z";
  format_int = λ n. text "7";
}

abbrev two_attempts : Consumer
two_attempts = record {
  max_attempts = 2;
  retry_backoff = 50_000_000;
  poison_policy = text "halt";
  has_poison_handler = false;
  has_dlq_writer = false;
  source_topic = text "events";
}

abbrev start : State ℕ
start = record { world = 3; log = [] }

-- The first record is handled at its second try and committed; then the topic ends.
runs_to_the_end : consume topic two_attempts 5 true start ≡ (
  some (fetch_failed 2 (some 5)),
  record {
    world = 0;
    log =
        fetched none
        ∷ waited 50_000_000 true
        ∷ fetched none
        ∷ committed record_7 true
        ∷ handled record_7 true
        ∷ waited 50_000_000 true
        ∷ handled record_7 false
        ∷ fetched (some record_7)
        ∷ [];
  },
)
unfolding consume consume_round fetch fetch_loop process process_loop commit commit_loop
    attempt_event give_up call_fetch call_commit pause_after wait note wait_backoff
runs_to_the_end = refl

none_yet : commits_settled [] ≡ true
unfolding commits_settled
none_yet = refl

consume-settled_example : commits_settled (consume topic two_attempts 5 true start).1.log ≡ true
consume-settled_example = consume-settled topic two_attempts 5 true start none_yet

process_bounds_example :
    let log = (process topic two_attempts record_7 start).1.log in
    (tries log ≤ tries [] + 2)
    × (pauses log ≤ pauses [] + (2 - 1))
    × (burials log ≤ suc (burials []))
process_bounds_example = process_bounds topic two_attempts record_7 start

-- Services on which every file is there; pools, key pairs and mechanisms are the text they came of.
abbrev files : Services ℕ Text Text Text
files = record {
  files = record {
    read_file = λ name. ok name;
    append_certs_from_pem = λ pem. some pem;
    load_x509_key_pair = λ certificate key. ok certificate;
  };
  scram_sha512 = λ user password. ok user;
}

abbrev to_dlq : KafkaConfig
to_dlq = record {
  brokers = text "kafka:9093" ∷ [];
  topic = text "events";
  group_id = text "group";
  max_attempts = pos 0;
  retry_backoff = pos 0;
  poison_policy = text "dlq";
  development_insecure = false;
  tls_ca_file = text " ca.pem ";
  tls_server_name = [];
  tls_client_cert_file = [];
  tls_client_key_file = [];
  sasl_username = text "user";
  sasl_password = text "secret";
  dlq_topic = text " events-dlq ";
  has_poison_handler = false;
}

abbrev to_dlq_dialer : Dialer Text Text Text
to_dlq_dialer = record {
  timeout = 5_000_000_000;
  keep_alive = 30_000_000_000;
  tls = some (record {
    min_version = version_tls13;
    server_name = [];
    root_cas = some (text "ca.pem");
    certificates = [];
  });
  sasl_mechanism = some (text "user");
}

to_dlq_built : new_kafka files to_dlq ≡ ok (build to_dlq to_dlq_dialer)
unfolding new_kafka new_kafka_dialer dial_with trim_text root_cas_of certificates_of
to_dlq_built = refl

new_kafka-IsSafe_example : IsSafe to_dlq (build to_dlq to_dlq_dialer)
new_kafka-IsSafe_example = new_kafka-IsSafe files to_dlq (build to_dlq to_dlq_dialer) to_dlq_built

-- Plaintext with credentials is refused.
plaintext_refused :
    new_kafka files (record to_dlq { development_insecure = true; tls_ca_file = [] })
    ≡ err sasl_with_plaintext
unfolding new_kafka new_kafka_dialer dial_with trim_text
plaintext_refused = refl

abbrev flaky : Event Whole → ℕ → Option ℕ × ℕ
flaky event w = (if eqb w 2 then some 4 else none, w - 1)

decoded_priced : whole_is_nan (fin 20) ≡ false
unfolding whole_is_nan
decoded_priced = refl

consume_memory-Delivery_example :
    (r : Option (MemoryError ℕ)) × (rest : List (Event Whole)) × (end : ℕ) × (consume_memory
        (λ w. none)
        flaky
        3
        (record { events = decoded ∷ decoded ∷ []; closed = false })
        3
      ≡ (some r, record { events = rest; closed = false }, end))
    × Delivery (λ w. none) flaky (decoded ∷ decoded ∷ []) 3 r rest end
consume_memory-Delivery_example =
    consume_memory-Delivery (λ w. none) flaky (decoded ∷ decoded ∷ []) 3
      (decoded_priced, (decoded_priced, tt))
