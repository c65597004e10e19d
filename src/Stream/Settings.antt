-- ===== src/Stream/Settings.antt =====
-- The configuration of the stream processor's command, from its environment: source, sink, HTTP.
use distributed_fraud_detect.Prelude.{
  ℕ, ◌*◌, Bool, true, false, not, ◌&&◌, ◌||◌, List, [], map, if◌then◌else◌, pos, Result, ok, err,
  ◌>>=◌,
}
use distributed_fraud_detect.Text.{Text, text, is_empty}
use distributed_fraud_detect.Text.Trim.{trim_text}
use distributed_fraud_detect.Tls.{version_tls13}
use distributed_fraud_detect.Process.{Process, env_or, env_duration, env_positive_int}
use distributed_fraud_detect.Features.Vector.{split}
use distributed_fraud_detect.Features.Probe.{ProbeError}
use distributed_fraud_detect.Features.Redis.{
  RedisConfig, RedisOptions, RedisError, new_redis_materializer_with_config,
}
use distributed_fraud_detect.Ingestion.Event.{Event}
use distributed_fraud_detect.Ingestion.Memory.{MemoryConsumer}
use distributed_fraud_detect.Ingestion.Config.{KafkaConfig, ConfigError, Services, Built, second}
use distributed_fraud_detect.Ingestion.Secure.{new_kafka}

pub data StartError (X : Type 0) : Type 0 where
  kafka_credentials_required : StartError X
  kafka_failed : ConfigError X → StartError X
  stdin_failed : X → StartError X
  trailing_json : StartError X
  redis_username_alone : StartError X
  redis_credentials_required : StartError X
  redis_failed : RedisError X → StartError X
  redis_required : StartError X
  probe_failed : ProbeError X → StartError X
  http_pair_required : StartError X

-- What the JSON decoder finds on stdin: nothing, no list of events, or one and what is behind it.
pub data Stdin (A X : Type 0) : Type 0 where
  at_end : Stdin A X
  malformed : X → Stdin A X
  decoded : List (Event A) → Bool → Stdin A X

pub data Source (A P C M : Type 0) : Type 0 where
  kafka : Built P C M → Source A P C M
  stdin : MemoryConsumer A → Source A P C M

pub data Sink (P C : Type 0) : Type 0 where
  redis : RedisOptions P C → Sink P C
  memory : Sink P C

-- http.Server, with the files of its certificate.
pub record HttpServer : Type 0 where
  pub address : Text
  pub cert_file : Text
  pub key_file : Text
  pub min_version : ℕ
  pub read_header_timeout : ℕ
  pub read_timeout : ℕ
  pub write_timeout : ℕ
  pub idle_timeout : ℕ
  pub max_header_bytes : ℕ

-- What is called on an http.Server: ListenAndServe, or ListenAndServeTLS with two files.
pub data Listening : Type 0 where
  listen_and_serve : Listening
  listen_and_serve_tls : Text → Text → Listening

module _ (process : Process) where
  -- `strings.TrimSpace(os.Getenv(key))`
  abbrev pub setting : Text → Text
  setting key = trim_text (process.getenv key)

  unfoldable pub configured_http_server :
      {X : Type 0} → Text → Bool → Result (StartError X) HttpServer
  configured_http_server address insecure =
      let cert_file = setting (text "STREAM_PROCESSOR_TLS_CERT_FILE") in
      let key_file = setting (text "STREAM_PROCESSOR_TLS_KEY_FILE") in
      if not insecure && (is_empty cert_file || is_empty key_file)
      then err http_pair_required
      else ok (record {
        address = address;
        cert_file = cert_file;
        key_file = key_file;
        min_version = version_tls13;
        read_header_timeout = 2 * second;
        read_timeout = 5 * second;
        write_timeout = 5 * second;
        idle_timeout = 30 * second;
        max_header_bytes = 16_384;
      })

  -- The settings that `configuredKafka` makes of the environment, behind its check.
  unfoldable pub kafka_settings : List Text → Bool → KafkaConfig
  unfolding env_or env_duration env_positive_int
  kafka_settings brokers insecure = record {
    brokers = brokers;
    topic = env_or process (text "KAFKA_TOPIC") (text "financial-events");
    group_id = env_or process (text "KAFKA_GROUP_ID") (text "fraud-feature-aggregator");
    max_attempts = pos (env_positive_int process (text "KAFKA_MAX_ATTEMPTS") 3);
    retry_backoff = pos (env_duration process (text "KAFKA_RETRY_BACKOFF") 50_000_000);
    poison_policy = env_or process (text "KAFKA_POISON_POLICY") (text "halt");
    development_insecure = insecure;
    tls_ca_file = setting (text "KAFKA_TLS_CA_FILE");
    tls_server_name = setting (text "KAFKA_TLS_SERVER_NAME");
    tls_client_cert_file = setting (text "KAFKA_TLS_CERT_FILE");
    tls_client_key_file = setting (text "KAFKA_TLS_KEY_FILE");
    sasl_username = setting (text "KAFKA_SASL_USERNAME");
    sasl_password = process.getenv (text "KAFKA_SASL_PASSWORD");
    dlq_topic = setting (text "KAFKA_DLQ_TOPIC");
    has_poison_handler = false;
  }

  -- SCRAM credentials, or a client certificate.
  unfoldable pub has_kafka_credentials : Bool
  has_kafka_credentials =
      not (is_empty (setting (text "KAFKA_SASL_USERNAME")))
        && not (is_empty (process.getenv (text "KAFKA_SASL_PASSWORD")))
      || not (is_empty (setting (text "KAFKA_TLS_CERT_FILE")))
        && not (is_empty (setting (text "KAFKA_TLS_KEY_FILE")))

  unfoldable pub configured_kafka :
      {X : Type 0} → List Text → Bool → Result (StartError X) KafkaConfig
  unfolding has_kafka_credentials kafka_settings
  configured_kafka brokers insecure =
      if not insecure && not has_kafka_credentials
      then err kafka_credentials_required
      else ok (kafka_settings brokers insecure)

  unfoldable pub redis_settings : Text → Bool → RedisConfig
  unfolding env_duration
  redis_settings address insecure = record {
    address = address;
    timeout = pos (env_duration process (text "REDIS_TIMEOUT") 100_000_000);
    username = setting (text "REDIS_USERNAME");
    password = process.getenv (text "REDIS_PASSWORD");
    use_tls = not insecure;
    ca_file = setting (text "REDIS_TLS_CA_FILE");
    server_name = setting (text "REDIS_TLS_SERVER_NAME");
    cert_file = setting (text "REDIS_TLS_CERT_FILE");
    key_file = setting (text "REDIS_TLS_KEY_FILE");
  }

  unfoldable pub configured_redis_materializer :
      {X : Type 0} → Text → Bool → Result (StartError X) RedisConfig
  unfolding redis_settings
  configured_redis_materializer address insecure =
      let username = setting (text "REDIS_USERNAME") in
      let password = process.getenv (text "REDIS_PASSWORD") in
      let cert_file = setting (text "REDIS_TLS_CERT_FILE") in
      let key_file = setting (text "REDIS_TLS_KEY_FILE") in
      if not (is_empty username) && is_empty password
      then err redis_username_alone
      else if not insecure && (is_empty password && (is_empty cert_file || is_empty key_file))
      then err redis_credentials_required
      else ok (redis_settings address insecure)

  module _ {X P C M : Type 0} (services : Services X P C M) where
    unfoldable pub kafka_source :
        {A : Type 0} → Text → Bool → Result (StartError X) (Source A P C M)
    unfolding configured_kafka
    kafka_source value insecure =
        configured_kafka (map trim_text (split value)) insecure >>= λ config.
        elim (new_kafka services config) [ err x ↦ err (kafka_failed x) | ok b ↦ ok (kafka b) ]

    -- `configuredConsumer`
    unfoldable pub configured_consumer :
        {A : Type 0} → Stdin A X → Bool → Result (StartError X) (Source A P C M)
    unfolding kafka_source
    configured_consumer input insecure =
        let value = setting (text "KAFKA_BROKERS") in
        if not (is_empty value) then kafka_source value insecure else elim input [
          | at_end ↦ ok (stdin (record { events = []; closed = false }))
          | malformed x ↦ err (stdin_failed x)
          | decoded events true ↦ ok (stdin (record { events = events; closed = false }))
          | decoded events false ↦ err trailing_json
        ]

    unfoldable pub redis_sink : Text → Bool → Result (StartError X) (Sink P C)
    unfolding configured_redis_materializer
    redis_sink address insecure = configured_redis_materializer address insecure >>= λ config.
        elim (new_redis_materializer_with_config services.files config) [
          | err x ↦ err (redis_failed x)
          | ok o ↦ ok (redis o)
        ]

    -- `configuredMaterializer`
    unfoldable pub configured_materializer : Bool → Bool → Result (StartError X) (Sink P C)
    unfolding redis_sink
    configured_materializer require_remote insecure =
        let address = setting (text "REDIS_ADDR") in
        if not (is_empty address)
        then redis_sink address insecure
        else if require_remote
        then err redis_required
        else ok memory
