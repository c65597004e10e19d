-- ===== src/Serving/Start.antt =====
-- How the gateway of serving_plane/cmd/gateway/main.go comes up: gateway.New, the probes and the
-- HTTP server, behind the choices of Serving/Gateway.antt.
use distributed_fraud_detect.Prelude.{
  ◌*◌, Bool, true, not, ◌&&◌, ◌||◌, [], ◌∷◌, Option, none, some, if◌then◌else◌, ℤ, pos, Result, ok,
  err, ◌>>=◌,
}
use distributed_fraud_detect.Float.{Float64}
use distributed_fraud_detect.Text.{Text, text, is_empty}
use distributed_fraud_detect.Tls.{Files, TlsConfig, version_tls13}
use distributed_fraud_detect.Process.{Process, env_bool, env_duration, first_env}
use distributed_fraud_detect.Features.Probe.{probe_fallback}
use distributed_fraud_detect.Features.Redis.{RedisStore}
use distributed_fraud_detect.Ingestion.Config.{second}
use distributed_fraud_detect.Gateway.Handler.{Config, new_config}
use distributed_fraud_detect.Scheduler.State.{Error, Scheduler, new}
use distributed_fraud_detect.Stream.Settings.{
  HttpServer, Listening, listen_and_serve, listen_and_serve_tls,
}
use distributed_fraud_detect.Serving.Gateway.{
  GatewayError, setup_failed, probe_failed, http_pair_required, FeatureSource, redis_store,
  redis_or_local, local_store, InferenceEngine, required_secret, configured_features,
  configured_engine,
}

-- What the dependencies answer while the gateway comes up: the PING, the engine's Healthy, and what
-- the startup context's `Err` and deadline give.
pub record Dependencies (N P C X : Type 0) : Type 0 where
  pub ping : RedisStore P C → Option X
  pub healthy : InferenceEngine N P C → Option X
  pub startup_err : Option X
  pub time_left : Option ℤ

pub record StartedGateway (N P C A : Type 0) : Type 0 where
  pub config : Config A
  pub features : FeatureSource P C
  pub engine : InferenceEngine N P C
  pub server : HttpServer
  pub listening : Listening

-- gateway.New with a store and an engine: the defaults of the configuration and the scheduler, whose
-- queue holds 256 items of type `I` and whose batches hold 32.
unfoldable pub new_gateway :
    {A X I : Type 0} ⦃float : Float64 A⦄
    → A
    → Text
    → ℤ
    → ℤ
    → ℤ
    → ℤ
    → A
    → A
    → Result (Error X) (Config A × Scheduler I)
unfolding new_config new
new_gateway one token timeout feature_timeout delay inference_timeout deny_score half =
    let config =
      new_config one token timeout feature_timeout delay inference_timeout deny_score half in
    new (pos 256) (pos 32) (pos config.queue_delay_limit) true >>= λ s. ok (config, s)

-- The probe of the feature store; the fixture's own probe is the context's `Err`.
unfoldable pub probe_features :
    {N P C X : Type 0} → Dependencies N P C X → FeatureSource P C → Option X
unfolding probe_fallback
probe_features deps (redis_store s) = deps.ping s
probe_features deps (redis_or_local s) =
    (probe_fallback {W = Unit} (some (λ budget w. (deps.ping s, w)))
      (some (λ w. (deps.startup_err, w))) (λ w. deps.time_left) (λ w. deps.startup_err) tt).0
probe_features deps local_store = deps.startup_err

-- `if err == nil { err = engine.Healthy(startupCtx) }`
unfoldable pub probe_dependencies :
    {N P C X : Type 0} → Dependencies N P C X → FeatureSource P C → InferenceEngine N P C → Option X
unfolding probe_features
probe_dependencies deps features engine = elim (probe_features deps features) [
  | some x ↦ some x
  | none ↦ deps.healthy engine
]

-- The service of `main`: gateway.New with the token and the durations of the environment.
unfoldable pub gateway_setup :
    {A X : Type 0} ⦃float : Float64 A⦄ → A → A → Process → Text → Result (GatewayError X) (Config A)
unfolding new_gateway env_duration
gateway_setup {X = X} ⦃float⦄ one half process token =
    elim (new_gateway {X = X} {I = Unit} one token
      (pos (env_duration process (text "FRAUD_TIMEOUT") 40_000_000))
      (pos (env_duration process (text "FRAUD_FEATURE_TIMEOUT") 10_000_000))
      (pos (env_duration process (text "FRAUD_QUEUE_DELAY") 2_000_000))
      (pos (env_duration process (text "FRAUD_INFERENCE_TIMEOUT") 20_000_000)) float.zero half) [
        | err x ↦ err setup_failed
        | ok (config, scheduler) ↦ ok config
      ]

unfoldable pub gateway_server : {X : Type 0} → Process → Bool → Result (GatewayError X) HttpServer
unfolding first_env
gateway_server process insecure =
    let configured = first_env process (text "FRAUD_GATEWAY_ADDR" ∷ text "GATEWAY_ADDR" ∷ []) in
    let cert_file = process.getenv (text "FRAUD_GATEWAY_TLS_CERT_FILE") in
    let key_file = process.getenv (text "FRAUD_GATEWAY_TLS_KEY_FILE") in
    if not insecure && (is_empty cert_file || is_empty key_file)
    then err http_pair_required
    else ok (record {
      address = if is_empty configured then text ":8080" else configured;
      cert_file = cert_file;
      key_file = key_file;
      min_version = version_tls13;
      read_header_timeout = 2 * second;
      read_timeout = 5 * second;
      write_timeout = 5 * second;
      idle_timeout = 30 * second;
      max_header_bytes = 16_384;
    })

-- How the goroutine of the gateway's server serves.
unfoldable pub serve_gateway : Bool → HttpServer → Listening
serve_gateway insecure server =
    if insecure then listen_and_serve else listen_and_serve_tls server.cert_file server.key_file

module _ {A X P C N : Type 0} (process : Process) (deps : Dependencies N P C X) where
  unfoldable pub open_gateway :
      Bool
      → Config A
      → FeatureSource P C
      → InferenceEngine N P C
      → Result (GatewayError X) (StartedGateway N P C A)
  unfolding gateway_server serve_gateway
  open_gateway insecure config features engine = gateway_server process insecure >>= λ server.
      ok (record {
        config = config;
        features = features;
        engine = engine;
        server = server;
        listening = serve_gateway insecure server;
      })

  -- The probes, behind gateway.New.
  unfoldable pub probe_gateway :
      Bool
      → Config A
      → FeatureSource P C
      → InferenceEngine N P C
      → Result (GatewayError X) (StartedGateway N P C A)
  unfolding probe_dependencies open_gateway
  probe_gateway insecure config features engine = elim (probe_dependencies deps features engine) [
    | some x ↦ err (probe_failed x)
    | none ↦ open_gateway insecure config features engine
  ]

module _ {A X P C N : Type 0} ⦃float : Float64 A⦄ (one half : A) (process : Process)
    (files : Files X P C) (dial : Text → Option (TlsConfig P C) → Result X N)
    (deps : Dependencies N P C X) where
  unfoldable pub start_gateway_as : Bool → Result (GatewayError X) (StartedGateway N P C A)
  unfolding required_secret configured_features configured_engine gateway_setup probe_gateway
  start_gateway_as insecure =
      required_secret process (text "FRAUD_AUTH_TOKEN") insecure >>= λ token.
      configured_features process files dial insecure >>= λ features.
      configured_engine process files dial insecure >>= λ engine.
      gateway_setup one half process token >>= λ config.
      probe_gateway process deps insecure config features engine

  unfoldable pub start_gateway : Result (GatewayError X) (StartedGateway N P C A)
  unfolding start_gateway_as env_bool
  start_gateway = start_gateway_as (env_bool process (text "FRAUD_DEVELOPMENT_INSECURE"))
