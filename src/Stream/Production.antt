-- ===== src/Stream/Production.antt =====
-- What holds of every stream processor that comes up without the opt-out of development.
use distributed_fraud_detect.Prelude.{
  ◌≡◌, refl, sym, subst, ap, ◌∙◌, true, false, [], map, Option, none, inl, inr, arith, ok, bind-ok,
  Bool-cases, Option-cases, Result-cases,
}
use distributed_fraud_detect.Text.{Text, text, is_empty}
use distributed_fraud_detect.Text.Trim.{trim_text}
use distributed_fraud_detect.Process.{Process, env_bool, env_or}
use distributed_fraud_detect.Features.Vector.{split}
use distributed_fraud_detect.Features.Redis.{
  RedisOptions, IsGuarded-tls, new_redis_materializer_with_config,
  new_redis_materializer_with_config-IsGuarded,
}
use distributed_fraud_detect.Ingestion.Config.{Services}
use distributed_fraud_detect.Ingestion.Dialer.{IsSecure, new_kafka_dialer}
use distributed_fraud_detect.Ingestion.Secure.{new_kafka, new_kafka-IsSafe, new_kafka-dialer}
use distributed_fraud_detect.Stream.Settings.{
  Stdin, at_end, malformed, decoded, Source, kafka, stdin, Sink, redis, memory, setting,
  configured_http_server, configured_kafka, configured_redis_materializer, kafka_source,
  configured_consumer, redis_sink, configured_materializer,
}
use distributed_fraud_detect.Stream.Start.{
  Started, is_kafka, probe_sink, configured_window, serve_http, start_server, start_with, start_as,
  start,
}
use distributed_fraud_detect.Stream.Secured.{
  SourceIsGuarded, SinkIsGuarded, IsProduction, configured_http_server-ServesTls,
  kafka_settings-IsIdentified, configured_kafka-ok, configured_redis_materializer-ok,
}

module _ {A X P C M : Type 0} (process : Process) (services : Services X P C M) where
  kafka_source-IsGuarded :
      (value : Text) (source : Source A P C M)
      → kafka_source process services value false ≡ ok source
      → SourceIsGuarded source
  unfolding kafka_source SourceIsGuarded
  kafka_source-IsGuarded value source h =
      let brokers = map trim_text (split value) in
      let (config, e, f) = bind-ok (configured_kafka process brokers false) _ source h in
      let (k, same) = configured_kafka-ok process brokers config e in
      elim (Result-cases (new_kafka services config)) [
        | inr (x, g) ↦ absurd (ground (arith, f, g))
        | inl (b, g) ↦
            let safe = new_kafka-IsSafe services config b g in
            let dialled = new_kafka-dialer services config b g in
            subst SourceIsGuarded {x = kafka b} {y = source} (ground (arith, f, g)) (
              subst (λ i. IsSecure i b.reader.dialer) (ground (arith, same)) safe.dialer_ok,
              kafka_settings-IsIdentified process services brokers b.reader.dialer
                  (ap (new_kafka_dialer services) (sym same) ∙ dialled) k,
            )
      ]

  stdin-IsGuarded :
      (input : Stdin A X) (source : Source A P C M)
      → configured_consumer process services input false ≡ ok source
      → is_empty (setting process (text "KAFKA_BROKERS")) ≡ true
      → SourceIsGuarded source
  unfolding configured_consumer SourceIsGuarded
  stdin-IsGuarded at_end source h k =
      subst SourceIsGuarded {x = stdin (record { events = []; closed = false })} {y = source}
        (ground (arith, h, k)) tt
  stdin-IsGuarded (malformed x) source h k = absurd (ground (arith, h, k))
  stdin-IsGuarded (decoded events true) source h k =
      subst SourceIsGuarded {x = stdin (record { events = events; closed = false })} {y = source}
        (ground (arith, h, k)) tt
  stdin-IsGuarded (decoded events false) source h k = absurd (ground (arith, h, k))

  configured_consumer-IsGuarded :
      (input : Stdin A X) (source : Source A P C M)
      → configured_consumer process services input false ≡ ok source
      → SourceIsGuarded source
  unfolding configured_consumer SourceIsGuarded
  configured_consumer-IsGuarded input source h =
      elim (Bool-cases (is_empty (setting process (text "KAFKA_BROKERS")))) [
        | inr k ↦
            kafka_source-IsGuarded (setting process (text "KAFKA_BROKERS")) source
              (ground (arith, h, k))
        | inl k ↦ stdin-IsGuarded input source h k
      ]

  redis_sink-IsGuarded :
      (source : Source A P C M) (address : Text) (sink : Sink P C)
      → redis_sink process services address false ≡ ok sink
      → SinkIsGuarded source sink
  unfolding redis_sink SinkIsGuarded
  redis_sink-IsGuarded source address sink h =
      let (config, e, f) = bind-ok (configured_redis_materializer process address false) _ sink h in
      let (u, shown) = configured_redis_materializer-ok process address config e in
      elim (Result-cases (new_redis_materializer_with_config services.files config)) [
        | inr (x, g) ↦ absurd (ground (arith, f, g))
        | inl (o, g) ↦
            let (guarded, password) =
              new_redis_materializer_with_config-IsGuarded services.files config o g in
            subst (SinkIsGuarded source) {x = redis o} {y = sink} (ground (arith, f, g)) (
              let (t, i, v, certified) = IsGuarded-tls config o.tls u guarded in
              (t, i, v, elim shown [ inl w ↦ inl (rw password w) | inr c ↦ inr (certified c) ]))
      ]

  configured_materializer-IsGuarded :
      (source : Source A P C M) (sink : Sink P C)
      → configured_materializer process services (is_kafka source) false ≡ ok sink
      → SinkIsGuarded source sink
  unfolding configured_materializer SinkIsGuarded
  configured_materializer-IsGuarded source sink h =
      elim (Bool-cases (is_empty (setting process (text "REDIS_ADDR")))) [
        | inr k ↦
            redis_sink-IsGuarded source (setting process (text "REDIS_ADDR")) sink
              (ground (arith, h, k))
        | inl k ↦ elim (Bool-cases (is_kafka source)) [
          | inl r ↦ absurd (ground (arith, h, k, r))
          | inr r ↦ subst (SinkIsGuarded source) {x = memory} {y = sink} (ground (arith, h, k, r)) r
        ]
      ]

  module _ (ping : RedisOptions P C → Option X) where
    start_server-IsProduction :
        (source : Source A P C M) (sink : Sink P C) (r : Started A P C M)
        → SourceIsGuarded source
        → SinkIsGuarded source sink
        → start_server process services ping false source sink ≡ ok r
        → (r.sink ≡ sink) × IsProduction r
    unfolding start_server
    start_server-IsProduction source sink r g s h =
        let address = env_or process (text "STREAM_PROCESSOR_HTTP_ADDR") (text ":8082") in
        let (server, e, f) = bind-ok (configured_http_server process address false) _ r h in
        let pair = configured_http_server-ServesTls process address server e in
        subst (λ q. (q.sink ≡ sink) × IsProduction q)
          {x = record {
            source = source;
            sink = sink;
            window = configured_window A process;
            server = server;
            listening = serve_http false server;
          }}
          {y = r} (cc) (refl, record { http_ok = pair; source_ok = g; sink_ok = s })

    start_with-IsProduction :
        (source : Source A P C M) (sink : Sink P C) (r : Started A P C M)
        → SourceIsGuarded source
        → SinkIsGuarded source sink
        → start_with process services ping false source sink ≡ ok r
        → (probe_sink ping r.sink ≡ none) × IsProduction r
    unfolding start_with
    start_with-IsProduction source sink r g s h = elim (Option-cases (probe_sink ping sink)) [
      | inr (x, e) ↦ absurd (ground (arith, h, e))
      | inl e ↦
          let (same, made) = start_server-IsProduction source sink r g s (ground (arith, h, e)) in
          (ap (probe_sink ping) same ∙ e, made)
    ]

    start_as-IsProduction :
        (input : Stdin A X) (r : Started A P C M)
        → start_as process services ping false input ≡ ok r
        → (probe_sink ping r.sink ≡ none) × IsProduction r
    unfolding start_as
    start_as-IsProduction input r h =
        let (source, e, f) = bind-ok (configured_consumer process services input false) _ r h in
        let (sink, i, j) =
          bind-ok (configured_materializer process services (is_kafka source) false) _ r f in
        start_with-IsProduction source sink r (configured_consumer-IsGuarded input source e)
          (configured_materializer-IsGuarded source sink i) j

    -- A stream processor that comes up outside development has reached its sink; serves its HTTP by
    -- ListenAndServeTLS with a certificate and its key, and TLS 1.3 at least; writes, if it reads from Kafka, to Redis over TLS 1.3
    -- with a password or a client certificate; and talks to Kafka over TLS 1.3 with SCRAM or a client
    -- certificate.
    pub start-IsProduction :
        (input : Stdin A X) (r : Started A P C M)
        → env_bool process (text "FRAUD_DEVELOPMENT_INSECURE") ≡ false
        → start process services ping input ≡ ok r
        → (probe_sink ping r.sink ≡ none) × IsProduction r
    unfolding start
    start-IsProduction input r d h =
        start_as-IsProduction input r (ap (λ i. start_as process services ping i input) (sym d) ∙ h)
