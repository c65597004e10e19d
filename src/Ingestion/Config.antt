-- ===== src/Ingestion/Config.antt =====
-- The configuration of a Kafka consumer in stream_processor/ingestion/ingestion.go, and the data of
-- kafka-go and crypto/tls that is made of it.
use distributed_fraud_detect.Prelude.{ℕ, Bool, List, Option, ℤ, Result}
use distributed_fraud_detect.Text.{Text}
use distributed_fraud_detect.Tls.{Files, TlsConfig, TlsError}
use distributed_fraud_detect.Ingestion.Kafka.{Consumer}

pub record KafkaConfig : Type 0 where
  pub brokers : List Text
  pub topic : Text
  pub group_id : Text
  pub max_attempts : ℤ
  pub retry_backoff : ℤ
  pub poison_policy : Text
  pub development_insecure : Bool
  pub tls_ca_file : Text
  pub tls_server_name : Text
  pub tls_client_cert_file : Text
  pub tls_client_key_file : Text
  pub sasl_username : Text
  pub sasl_password : Text
  pub dlq_topic : Text
  pub has_poison_handler : Bool

pub data ConfigError (X : Type 0) : Type 0 where
  brokers_topic_group_required : ConfigError X
  bad_poison_policy : ConfigError X
  dlq_topic_required : ConfigError X
  dlq_topic_is_source : ConfigError X
  certificate_without_key : ConfigError X
  sasl_incomplete : ConfigError X
  tls_with_plaintext : ConfigError X
  sasl_with_plaintext : ConfigError X
  of_tls : TlsError X → ConfigError X
  mechanism_failed : X → ConfigError X

-- Files, and the SCRAM package: `M` are its mechanisms.
pub record Services (X P C M : Type 0) : Type 0 where
  pub files : Files X P C
  pub scram_sha512 : Text → Text → Result X M

pub record Dialer (P C M : Type 0) : Type 0 where
  pub timeout : ℕ
  pub keep_alive : ℕ
  pub tls : Option (TlsConfig P C)
  pub sasl_mechanism : Option M

pub record Transport (P C M : Type 0) : Type 0 where
  pub dial_timeout : ℕ
  pub dial_keep_alive : ℕ
  pub idle_timeout : ℕ
  pub tls : Option (TlsConfig P C)
  pub sasl : Option M

pub record Writer (P C M : Type 0) : Type 0 where
  pub addr : List Text
  pub topic : Text
  pub transport : Transport P C M
  pub require_all : Bool
  pub async : Bool
  pub batch_size : ℕ
  pub max_attempts : ℕ
  pub write_backoff_min : ℕ
  pub write_backoff_max : ℕ
  pub read_timeout : ℕ
  pub write_timeout : ℕ

pub record Reader (P C M : Type 0) : Type 0 where
  pub brokers : List Text
  pub topic : Text
  pub group_id : Text
  pub dialer : Dialer P C M
  pub min_bytes : ℕ
  pub max_bytes : ℕ
  pub commit_interval : ℕ

-- What NewKafka returns: the consumer's settings, its reader and its DLQ writer.
pub record Built (P C M : Type 0) : Type 0 where
  pub consumer : Consumer
  pub reader : Reader P C M
  pub dlq_writer : Option (Writer P C M)

abbrev pub second : ℕ
second = 1_000_000_000
