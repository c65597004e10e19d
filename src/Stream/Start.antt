-- ===== src/Stream/Start.antt =====
-- `main` of the stream processor's command, up to its loops: everything that is set up, in order,
-- or the first failure, on which the process exits with status 1.
use distributed_fraud_detect.Prelude.{
  Bool, true, false, if◌then◌else◌, Option, none, some, pos, Result, ok, err, ◌>>=◌,
}
use distributed_fraud_detect.Text.{text}
use distributed_fraud_detect.Process.{Process, env_bool, env_or, env_duration, env_positive_int}
use distributed_fraud_detect.Window.{Window, new_with_limits, five_minutes}
use distributed_fraud_detect.Features.Probe.{probe_redis, ProbeError}
use distributed_fraud_detect.Features.Redis.{RedisOptions}
use distributed_fraud_detect.Ingestion.Config.{Services}
use distributed_fraud_detect.Stream.Settings.{
  StartError, probe_failed, Stdin, Source, kafka, stdin, Sink, redis, memory, HttpServer, Listening,
  listen_and_serve, listen_and_serve_tls, configured_consumer, configured_materializer,
  configured_http_server,
}

pub record Started (A P C M : Type 0) : Type 0 where
  pub source : Source A P C M
  pub sink : Sink P C
  pub window : Window A
  pub server : HttpServer
  pub listening : Listening

-- How the goroutine of the operational HTTP server serves.
unfoldable pub serve_http : Bool → HttpServer → Listening
serve_http insecure server =
    if insecure then listen_and_serve else listen_and_serve_tls server.cert_file server.key_file

-- `source == "kafka"`
abbrev pub is_kafka : {A P C M : Type 0} → Source A P C M → Bool
is_kafka (kafka b) = true
is_kafka (stdin m) = false

-- `if probe != nil { err = probe(startupCtx) }`: the memory sink has no probe.
unfoldable pub probe_sink :
    {X P C : Type 0} → (RedisOptions P C → Option X) → Sink P C → Option (ProbeError X)
unfolding probe_redis
probe_sink ping memory = none
probe_sink ping (redis o) = (probe_redis {W = Unit} (some (λ w. (ping o, w))) tt).0

unfoldable pub configured_window : (A : Type 0) → Process → Window A
unfolding new_with_limits env_duration env_positive_int
configured_window A process =
    new_with_limits A (pos (env_duration process (text "STREAM_WINDOW") five_minutes))
      (pos (env_positive_int process (text "STREAM_MAX_ENTITIES") 100_000))
      (pos (env_positive_int process (text "STREAM_MAX_EVENTS") 1_000_000))

module _ {A X P C M : Type 0} (process : Process) (services : Services X P C M)
    (ping : RedisOptions P C → Option X) where
  -- The operational HTTP server.
  unfoldable pub start_server :
      Bool → Source A P C M → Sink P C → Result (StartError X) (Started A P C M)
  unfolding configured_window configured_http_server env_or serve_http
  start_server insecure source sink =
      configured_http_server process
        (env_or process (text "STREAM_PROCESSOR_HTTP_ADDR") (text ":8082")) insecure
      >>= λ server. ok (record {
        source = source;
        sink = sink;
        window = configured_window A process;
        server = server;
        listening = serve_http insecure server;
      })

  -- Behind the choice of the source and of the sink.
  unfoldable pub start_with :
      Bool → Source A P C M → Sink P C → Result (StartError X) (Started A P C M)
  unfolding probe_sink start_server
  start_with insecure source sink = elim (probe_sink ping sink) [
    | some x ↦ err (probe_failed x)
    | none ↦ start_server insecure source sink
  ]

  unfoldable pub start_as : Bool → Stdin A X → Result (StartError X) (Started A P C M)
  unfolding start_with configured_consumer configured_materializer
  start_as insecure input = configured_consumer process services input insecure >>= λ source.
      configured_materializer process services (is_kafka source) insecure >>= λ sink.
      start_with insecure source sink

  unfoldable pub start : Stdin A X → Result (StartError X) (Started A P C M)
  unfolding start_as env_bool
  start = start_as (env_bool process (text "FRAUD_DEVELOPMENT_INSECURE"))
