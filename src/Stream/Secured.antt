-- ===== src/Stream/Secured.antt =====
-- What the configurations of a stream processor are like without the opt-out of development: its
-- HTTP server, Kafka and Redis.
use distributed_fraud_detect.Prelude.{
  ◌≡◌, ◌⊎◌, refl, true, false, List, [], ◌∷◌, some, inl, inr, arith, ok,
}
use distributed_fraud_detect.Text.{Text, text, is_empty}
use distributed_fraud_detect.Text.Trim.Twice.{trim_text-is_empty}
use distributed_fraud_detect.Tls.{TlsConfig, version_tls13}
use distributed_fraud_detect.Process.{Process}
use distributed_fraud_detect.Features.Redis.{RedisConfig}
use distributed_fraud_detect.Ingestion.Config.{KafkaConfig, Services, Dialer}
use distributed_fraud_detect.Ingestion.Dialer.{
  IsSecure, new_kafka_dialer, new_kafka_dialer-Presents,
}
use distributed_fraud_detect.Stream.Settings.{
  Source, kafka, stdin, Sink, redis, memory, HttpServer, Listening, listen_and_serve_tls, setting,
  configured_http_server, configured_kafka, kafka_settings, has_kafka_credentials, redis_settings,
  configured_redis_materializer,
}
use distributed_fraud_detect.Stream.Start.{Started, is_kafka, serve_http}

-- A dialer that shows who it is: a SCRAM mechanism, or a client certificate.
abbrev pub IsIdentified : {P C M : Type 0} → Dialer P C M → Type 0
IsIdentified {P} {C} {M} dialer =
    ((m : M) × (dialer.sasl_mechanism ≡ some m))
    ⊎ ((t : TlsConfig P C) × (c : C) × (dialer.tls ≡ some t) × (t.certificates ≡ c ∷ []))

unfoldable pub SourceIsGuarded : {A P C M : Type 0} → Source A P C M → Type 0
SourceIsGuarded (kafka b) = IsSecure false b.reader.dialer × IsIdentified b.reader.dialer
SourceIsGuarded (stdin m) = Unit

-- A Redis client over TLS 1.3 with a password or a certificate; memory serves stdin alone.
unfoldable pub SinkIsGuarded : {A P C M : Type 0} → Source A P C M → Sink P C → Type 0
SinkIsGuarded source memory = is_kafka source ≡ false
SinkIsGuarded {P = P} {C = C} source (redis o) =
    (t : TlsConfig P C) × (o.tls ≡ some t)
    × (t.min_version ≡ version_tls13)
    × ((is_empty o.password ≡ false) ⊎ ((c : C) × (t.certificates ≡ c ∷ [])))

-- A server that serves over TLS, of version 1.3 at least, with a certificate and its key.
pub record ServesTls (server : HttpServer) (listening : Listening) : Type 0 where
  pub cert_file : Text
  pub key_file : Text
  pub over_tls : listening ≡ listen_and_serve_tls cert_file key_file
  pub cert_ok : is_empty cert_file ≡ false
  pub key_ok : is_empty key_file ≡ false
  pub version_ok : server.min_version ≡ version_tls13

-- What a started processor has: an HTTP server that serves over TLS, and of its source and its sink
-- what is said above of them.
pub record IsProduction {A P C M : Type 0} (r : Started A P C M) : Type 0 where
  pub http_ok : ServesTls r.server r.listening
  pub source_ok : SourceIsGuarded r.source
  pub sink_ok : SinkIsGuarded r.source r.sink

pub configured_http_server-ServesTls :
    {X : Type 0} (process : Process) (address : Text) (server : HttpServer)
    → configured_http_server process {X = X} address false ≡ ok server
    → ServesTls server (serve_http false server)
unfolding configured_http_server serve_http
configured_http_server-ServesTls process address server h = record {
  cert_file = server.cert_file;
  key_file = server.key_file;
  over_tls = refl;
  cert_ok = ground (arith, h);
  key_ok = ground (arith, h);
  version_ok = ground (arith, h);
}

has_kafka_credentials-cases :
    (process : Process)
    → has_kafka_credentials process ≡ true
    → (is_empty (setting process (text "KAFKA_SASL_USERNAME")) ≡ false)
      ⊎ (is_empty (setting process (text "KAFKA_TLS_CERT_FILE")) ≡ false)
unfolding has_kafka_credentials
has_kafka_credentials-cases process h = ground (arith, h)

pub kafka_settings-IsIdentified :
    {X P C M : Type 0} (process : Process) (services : Services X P C M) (brokers : List Text)
    (dialer : Dialer P C M)
    → new_kafka_dialer services (kafka_settings process brokers false) ≡ ok dialer
    → has_kafka_credentials process ≡ true
    → IsIdentified dialer
unfolding kafka_settings
kafka_settings-IsIdentified process services brokers dialer h k =
    let shown =
      new_kafka_dialer-Presents services (kafka_settings process brokers false) dialer h in
    elim (has_kafka_credentials-cases process k) [
      | inl u ↦ inl (shown.0 (trim_text-is_empty (process.getenv (text "KAFKA_SASL_USERNAME")) u))
      | inr c ↦
          inr (shown.1 refl (trim_text-is_empty (process.getenv (text "KAFKA_TLS_CERT_FILE")) c))
    ]

pub configured_kafka-ok :
    {X : Type 0} (process : Process) (brokers : List Text) (config : KafkaConfig)
    → configured_kafka process {X = X} brokers false ≡ ok config
    → (has_kafka_credentials process ≡ true) × (config ≡ kafka_settings process brokers false)
unfolding configured_kafka
configured_kafka-ok process brokers config h = (ground (arith, h), ground (arith, h))

pub configured_redis_materializer-ok :
    {X : Type 0} (process : Process) (address : Text) (config : RedisConfig)
    → configured_redis_materializer process {X = X} address false ≡ ok config
    → (config.use_tls ≡ true)
      × ((is_empty config.password ≡ false) ⊎ (is_empty config.cert_file ≡ false))
unfolding configured_redis_materializer redis_settings
configured_redis_materializer-ok process address config h = (ground (arith, h), ground (arith, h))
