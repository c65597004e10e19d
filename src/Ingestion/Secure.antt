-- ===== src/Ingestion/Secure.antt =====
-- NewKafka of stream_processor/ingestion/ingestion.go, and what holds of each consumer it builds.
use distributed_fraud_detect.Prelude.{
  ◌*◌, ◌≤◌, ◌≡◌, ◌⊎◌, refl, subst, bind-ok, Bool, true, false, not, ◌&&◌, ◌||◌, List, [], ◌∷◌,
  Option, none, some, inl, inr, arith, if◌then◌else◌, ◌==◌, positive_or, Result, ok, err, ◌>>=◌,
  Bool-cases, Option-cases,
}
use distributed_fraud_detect.Text.{Text, text, text_key, is_empty}
use distributed_fraud_detect.Text.Trim.{trim_text}
use distributed_fraud_detect.Ingestion.Backoff.{bounded_backoff}
use distributed_fraud_detect.Ingestion.Config.{
  KafkaConfig, ConfigError, brokers_topic_group_required, bad_poison_policy, dlq_topic_required,
  dlq_topic_is_source, Services, Dialer, Transport, Writer, Built, second,
}
use distributed_fraud_detect.Ingestion.Dialer.{
  new_kafka_dialer, IsSecure, new_kafka_dialer-IsSecure,
}

abbrev no_brokers : List Text → Bool
no_brokers [] = true
no_brokers (b ∷ bs) = false

-- `config.PoisonPolicy` with its default.
abbrev policy_of : KafkaConfig → Text
policy_of config = if is_empty config.poison_policy then text "halt" else config.poison_policy

abbrev uses_writer : KafkaConfig → Bool
uses_writer config = policy_of config == text "dlq" && not config.has_poison_handler

unfoldable pub kafka_transport : {P C M : Type 0} → Dialer P C M → Transport P C M
kafka_transport dialer = record {
  dial_timeout = dialer.timeout;
  dial_keep_alive = dialer.keep_alive;
  idle_timeout = 30 * second;
  tls = dialer.tls;
  sasl = dialer.sasl_mechanism;
}

unfoldable pub dlq_writer_of : {P C M : Type 0} → KafkaConfig → Dialer P C M → Writer P C M
unfolding kafka_transport
dlq_writer_of config dialer = record {
  addr = config.brokers;
  topic = trim_text config.dlq_topic;
  transport = kafka_transport dialer;
  require_all = true;
  async = false;
  batch_size = 1;
  max_attempts = positive_or 3 config.max_attempts;
  write_backoff_min = positive_or 50_000_000 config.retry_backoff;
  write_backoff_max =
      bounded_backoff (positive_or 50_000_000 config.retry_backoff)
        (positive_or 3 config.max_attempts);
  read_timeout = 5 * second;
  write_timeout = 5 * second;
}

unfoldable pub build : {P C M : Type 0} → KafkaConfig → Dialer P C M → Built P C M
unfolding dlq_writer_of
build config dialer =
    let attempts = positive_or 3 config.max_attempts in
    let backoff = positive_or 50_000_000 config.retry_backoff in
    record {
      consumer = record {
        max_attempts = attempts;
        retry_backoff = backoff;
        poison_policy = policy_of config;
        has_poison_handler = config.has_poison_handler;
        has_dlq_writer = uses_writer config;
        source_topic = config.topic;
      };
      reader = record {
        brokers = config.brokers;
        topic = config.topic;
        group_id = config.group_id;
        dialer = dialer;
        min_bytes = 1;
        max_bytes = 10_000_000;
        commit_interval = 0;
      };
      dlq_writer = if uses_writer config then some (dlq_writer_of config dialer) else none;
    }

-- The checks in front of the dialer.
unfoldable pub config_checks : {X : Type 0} → KafkaConfig → Option (ConfigError X)
config_checks config =
    let dlq_topic = trim_text config.dlq_topic in
    if no_brokers config.brokers || (is_empty config.topic || is_empty config.group_id)
    then some brokers_topic_group_required
    else if not (policy_of config == text "halt") && not (policy_of config == text "dlq")
    then some bad_poison_policy
    else if uses_writer config && is_empty dlq_topic
    then some dlq_topic_required
    else if uses_writer config && (dlq_topic == config.topic)
    then some dlq_topic_is_source
    else none

-- What NewKafka promises of a consumer.
pub record IsSafe {P C M : Type 0} (config : KafkaConfig) (built : Built P C M) : Type 0 where
  pub dialer_ok : IsSecure config.development_insecure built.reader.dialer
  pub attempts_ok : 1 ≤ built.consumer.max_attempts
  pub policy_ok :
      ((built.consumer.poison_policy == text "halt") ≡ true)
      ⊎ ((built.consumer.has_poison_handler || built.consumer.has_dlq_writer) ≡ true)
  pub writer_known :
      built.consumer.has_dlq_writer ≡ not (elim built.dlq_writer [ none ↦ true | some w ↦ false ])
  pub writer_ok :
      (w : Writer P C M)
      → built.dlq_writer ≡ some w
      → (w.transport.tls ≡ built.reader.dialer.tls)
        × (w.transport.sasl ≡ built.reader.dialer.sasl_mechanism)
        × (is_empty w.topic ≡ false)
        × ((w.topic == built.reader.topic) ≡ false)

module _ {X P C M : Type 0} (services : Services X P C M) where
  unfoldable pub new_kafka : KafkaConfig → Result (ConfigError X) (Built P C M)
  unfolding config_checks build
  new_kafka config = elim (config_checks config) [
    | some e ↦ err e
    | none ↦ new_kafka_dialer services config >>= λ dialer. ok (build config dialer)
  ]

  build-IsSafe :
      (config : KafkaConfig) (dialer : Dialer P C M)
      → config_checks {X = X} config ≡ none
      → IsSecure config.development_insecure dialer
      → IsSafe config (build config dialer)
  unfolding build dlq_writer_of kafka_transport config_checks
  build-IsSafe config dialer c h = record {
    dialer_ok = h;
    attempts_ok = ground arith;
    policy_ok = elim (Bool-cases (policy_of config == text "halt")) [
      | inl e ↦ inl e
      | inr e ↦ inr (elim (Bool-cases config.has_poison_handler) [
        | inl g ↦ ground (arith, g)
        | inr g ↦ ground (arith, c, e, g)
      ])
    ];
    writer_known = ground arith;
    writer_ok = λ w e. elim (Bool-cases (uses_writer config)) [
      | inr u ↦ absurd (ground (arith, e, u))
      | inl u ↦
          subst
            (λ v.
              (v.transport.tls ≡ dialer.tls)
              × (v.transport.sasl ≡ dialer.sasl_mechanism)
              × (is_empty v.topic ≡ false)
              × ((v.topic == config.topic) ≡ false))
            {x = dlq_writer_of config dialer} {y = w} (ground (arith, e, u))
            (refl, refl, ground (arith, c, u), ground (arith, c, u))
    ];
  }

  pub new_kafka-dialer :
      (config : KafkaConfig) (built : Built P C M)
      → new_kafka config ≡ ok built
      → (new_kafka_dialer services config ≡ ok built.reader.dialer)
  unfolding new_kafka build
  new_kafka-dialer config built h = elim (Option-cases (config_checks {X = X} config)) [
    | inr (e, c) ↦ absurd (ground (arith, h, c))
    | inl c ↦
        let made : (new_kafka_dialer services config >>= λ dialer. ok (build config dialer))
            ≡ ok built =
          ground (arith, h, c) in
        let (dialer, e, f) = bind-ok (new_kafka_dialer services config) _ built made in cc
  ]

  -- Every consumer that NewKafka builds tries at least once, reads over TLS 1.3 or was opted out of
  -- it and then carries no credentials, has a place for poison records if its policy wants one, and
  -- writes them under the reader's TLS and SASL policy to a topic that has a name and is not the
  -- source.
  pub new_kafka-IsSafe :
      (config : KafkaConfig) (built : Built P C M)
      → new_kafka config ≡ ok built
      → IsSafe config built
  unfolding new_kafka
  new_kafka-IsSafe config built h = elim (Option-cases (config_checks {X = X} config)) [
    | inr (e, c) ↦ absurd (ground (arith, h, c))
    | inl c ↦
        let made : (new_kafka_dialer services config >>= λ dialer. ok (build config dialer))
            ≡ ok built =
          ground (arith, h, c) in
        let (dialer, e, f) = bind-ok (new_kafka_dialer services config) _ built made in
        subst (IsSafe config) {y = built} (cc)
          (build-IsSafe config dialer c (new_kafka_dialer-IsSecure services config dialer e))
  ]
