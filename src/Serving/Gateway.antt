-- ===== src/Serving/Gateway.antt =====
-- `main` of serving_plane/cmd/gateway/main.go, up to its server: the feature store, the workers, the
-- service and the probes, in order, or the first failure, on which the process exits with status 1.
-- `N` are gRPC connections; the dial, the pings and the health checks are arguments.
use distributed_fraud_detect.Prelude.{
  Bool, false, not, ◌&&◌, ◌||◌, List, [], ◌∷◌, Option, if◌then◌else◌, length, replicate, Map, pos,
  Result, ok, err, ◌>>=◌,
}
use distributed_fraud_detect.Float.{Float64}
use distributed_fraud_detect.Text.{Text, text, is_empty}
use distributed_fraud_detect.Text.Trim.{trim_text}
use distributed_fraud_detect.Tls.{Files, TlsConfig}
use distributed_fraud_detect.Process.{Process, env_duration, first_env}
use distributed_fraud_detect.Features.Vector.{split}
use distributed_fraud_detect.Features.Store.{put_local}
use distributed_fraud_detect.Features.Redis.{
  StoreConfig, RedisStore, RedisError, new_redis_with_config,
}
use distributed_fraud_detect.Worker.Rpc.{model_feature_width}
use distributed_fraud_detect.Worker.Pool.{Pool, PoolError, new_pool}
use distributed_fraud_detect.Worker.Credentials.{TransportConfig, Dialled, dial_with_transport}

pub data GatewayError (X : Type 0) : Type 0 where
  secret_required : Text → GatewayError X
  redis_username_alone : GatewayError X
  redis_credentials_required : GatewayError X
  redis_failed : RedisError X → GatewayError X
  redis_required : GatewayError X
  workers_required : GatewayError X
  pool_failed : PoolError X → GatewayError X
  setup_failed : GatewayError X
  probe_failed : X → GatewayError X
  http_pair_required : GatewayError X

-- The store that features come from: Redis, Redis with the fixture behind it, or the fixture alone.
pub data FeatureSource (P C : Type 0) : Type 0 where
  redis_store : RedisStore P C → FeatureSource P C
  redis_or_local : RedisStore P C → FeatureSource P C
  local_store : FeatureSource P C

-- What scores: the worker of the process itself, or a pool over clients.
pub data InferenceEngine (N P C : Type 0) : Type 0 where
  in_process : InferenceEngine N P C
  remote : List (Dialled N P C) → Pool → InferenceEngine N P C

-- `developmentFeatures`, for the float64 of 0.1, 0.3 and 0.2.
unfoldable pub development_features :
    {A : Type 0} ⦃float : Float64 A⦄ → A → A → A → Map Text (List A)
unfolding put_local
development_features ⦃float⦄ a b c =
    (put_local {X = Unit} model_feature_width (text "demo-account")
      (a ∷ b ∷ c ∷ replicate 29 float.zero) []).1

-- `requiredSecret`
unfoldable pub required_secret : {X : Type 0} → Process → Text → Bool → Result (GatewayError X) Text
required_secret process key insecure =
    let value = trim_text (process.getenv key) in
    if is_empty value && not insecure then err (secret_required key) else ok value

module _ (process : Process) where
  unfoldable pub store_settings : Text → Bool → StoreConfig
  unfolding env_duration
  store_settings address insecure = record {
    redis = record {
      address = address;
      timeout = pos (env_duration process (text "REDIS_TIMEOUT") 5_000_000);
      username = trim_text (process.getenv (text "REDIS_USERNAME"));
      password = process.getenv (text "REDIS_PASSWORD");
      use_tls = not insecure;
      ca_file = trim_text (process.getenv (text "REDIS_TLS_CA_FILE"));
      server_name = trim_text (process.getenv (text "REDIS_TLS_SERVER_NAME"));
      cert_file = trim_text (process.getenv (text "REDIS_TLS_CERT_FILE"));
      key_file = trim_text (process.getenv (text "REDIS_TLS_KEY_FILE"));
    };
    width = pos model_feature_width;
  }

  -- `configuredRedis`
  unfoldable pub configured_redis : {X : Type 0} → Text → Bool → Result (GatewayError X) StoreConfig
  unfolding store_settings
  configured_redis address insecure =
      let config = store_settings address insecure in
      if not (is_empty config.redis.username) && is_empty config.redis.password
      then err redis_username_alone
      else if not insecure
          && (is_empty config.redis.password
              && (is_empty config.redis.cert_file || is_empty config.redis.key_file))
      then err redis_credentials_required
      else ok config

  unfoldable pub worker_transport : Bool → TransportConfig
  worker_transport insecure = record {
    insecure = insecure;
    server_name = process.getenv (text "FRAUD_WORKER_TLS_SERVER_NAME");
    ca_file = process.getenv (text "FRAUD_WORKER_TLS_CA_FILE");
    cert_file = process.getenv (text "FRAUD_GATEWAY_MTLS_CERT_FILE");
    key_file = process.getenv (text "FRAUD_GATEWAY_MTLS_KEY_FILE");
    require_client_cert = false;
  }

  module _ {X P C N : Type 0} (files : Files X P C)
      (dial : Text → Option (TlsConfig P C) → Result X N) where
    unfoldable pub connect_redis : Text → Bool → Result (GatewayError X) (FeatureSource P C)
    unfolding configured_redis
    connect_redis address insecure = configured_redis address insecure >>= λ config.
        elim (new_redis_with_config files config) [
          | err x ↦ err (redis_failed x)
          | ok store ↦ ok (if insecure then redis_or_local store else redis_store store)
        ]

    -- The choice of the feature store in `main`.
    unfoldable pub configured_features : Bool → Result (GatewayError X) (FeatureSource P C)
    unfolding connect_redis
    configured_features insecure =
        let address = trim_text (process.getenv (text "REDIS_ADDR")) in
        if not (is_empty address)
        then connect_redis address insecure
        else if not insecure
        then err redis_required
        else ok local_store

    -- The loop over the endpoints: one that is empty or cannot be dialled is skipped.
    unfoldable pub dial_all : Text → TransportConfig → List Text → List (Dialled N P C)
    dial_all token config [] = []
    dial_all token config (raw ∷ more) =
        let rest = dial_all token config more in
        let address = trim_text raw in
        if is_empty address
        then rest
        else elim (dial_with_transport files dial address token config) [
          | err x ↦ rest
          | ok client ↦ client ∷ rest
        ]

    unfoldable pub remote_engine :
        Text → Text → Bool → Result (GatewayError X) (InferenceEngine N P C)
    unfolding worker_transport env_duration
    remote_engine addresses token insecure =
        let clients = dial_all token (worker_transport insecure) (split addresses) in
        elim (new_pool (length clients)
          (pos (env_duration process (text "FRAUD_WORKER_PROBE_INTERVAL") 1_000_000_000))) [
            | err x ↦ err (pool_failed x)
            | ok pool ↦ ok (remote clients pool)
          ]

    -- `configuredEngine`
    unfoldable pub configured_engine : Bool → Result (GatewayError X) (InferenceEngine N P C)
    unfolding first_env required_secret remote_engine
    configured_engine insecure =
        let addresses =
          first_env process (text "FRAUD_WORKER_ADDRS" ∷ text "FRAUD_WORKER_ADDR" ∷ []) in
        if is_empty (trim_text addresses)
        then if insecure then ok in_process else err workers_required
        else required_secret process (text "FRAUD_WORKER_AUTH_TOKEN") insecure >>= λ token.
            remote_engine addresses token insecure
