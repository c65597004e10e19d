-- ===== src/Serving/Parts.antt =====
-- What the parts of a gateway of serving_plane/cmd/gateway/main.go are like without the opt-out of
-- development: its feature store, its workers and its server.
use distributed_fraud_detect.Prelude.{
  ℕ, ◌≤◌, ◌≡◌, ◌≢◌, ◌⊎◌, refl, subst, true, false, List, [], ◌∷◌, Option, none, some, inl, inr,
  arith, length, All, pos, Result, ok, bind-ok, Bool-cases, Result-cases,
}
use distributed_fraud_detect.Text.{Text, text, is_empty}
use distributed_fraud_detect.Text.Trim.{trim_text}
use distributed_fraud_detect.Tls.{Files, TlsConfig, version_tls13}
use distributed_fraud_detect.Process.{Process, env_duration, first_env}
use distributed_fraud_detect.Features.Vector.{split}
use distributed_fraud_detect.Features.Redis.{
  StoreConfig, IsGuarded-tls, new_redis_with_config, new_redis_with_config-IsGuarded,
}
use distributed_fraud_detect.Worker.Pool.{Pool, new_pool}
use distributed_fraud_detect.Worker.Rpc.{model_feature_width}
use distributed_fraud_detect.Worker.Credentials.{
  TransportConfig, Dialled, IsTrusted, dial_with_transport, dial_with_transport-IsTrusted,
}
use distributed_fraud_detect.Stream.Settings.{HttpServer}
use distributed_fraud_detect.Serving.Gateway.{
  FeatureSource, redis_store, redis_or_local, local_store, InferenceEngine, in_process, remote,
  required_secret, store_settings, configured_redis, worker_transport, connect_redis,
  configured_features, dial_all, remote_engine, configured_engine,
}
use distributed_fraud_detect.Stream.Secured.{ServesTls}
use distributed_fraud_detect.Serving.Start.{StartedGateway, gateway_server, serve_gateway}

-- Redis alone, over TLS 1.3, with a password or a client certificate, of the model's width.
unfoldable pub FeaturesAreGuarded : {P C : Type 0} → FeatureSource P C → Type 0
FeaturesAreGuarded {P} {C} (redis_store s) =
    (s.width ≡ model_feature_width)
    × (t : TlsConfig P C) × (s.client.tls ≡ some t)
    × (t.min_version ≡ version_tls13)
    × ((is_empty s.client.password ≡ false) ⊎ ((c : C) × (t.certificates ≡ c ∷ [])))
FeaturesAreGuarded (redis_or_local s) = ⊥
FeaturesAreGuarded local_store = ⊥

-- A client that was dialled over TLS 1.3 with roots of its own, and that has a token.
abbrev pub IsGuardedClient : {N P C : Type 0} → Dialled N P C → Type 0
IsGuardedClient {P = P} {C = C} d =
    ((t : TlsConfig P C) × (d.transport ≡ some t)
      × (t.min_version ≡ version_tls13)
      × (t.root_cas ≢ none))
    × (is_empty d.auth_token ≡ false)

-- At least one such client, with a pool over just them.
unfoldable pub EngineIsGuarded : {N P C : Type 0} → InferenceEngine N P C → Type 0
EngineIsGuarded in_process = ⊥
EngineIsGuarded (remote clients pool) =
    (1 ≤ length clients) × (pool.workers ≡ length clients) × All IsGuardedClient clients

pub record IsGuardedGateway {N P C A : Type 0} (g : StartedGateway N P C A) : Type 0 where
  pub token_ok : is_empty g.config.auth_token ≡ false
  pub features_ok : FeaturesAreGuarded g.features
  pub engine_ok : EngineIsGuarded g.engine
  pub http_ok : ServesTls g.server g.listening

pub required_secret-ok :
    {X : Type 0} (process : Process) (key value : Text)
    → required_secret {X = X} process key false ≡ ok value
    → is_empty value ≡ false
unfolding required_secret
required_secret-ok process key value h = ground (arith, h)

pub gateway_server-ServesTls :
    {X : Type 0} (process : Process) (server : HttpServer)
    → gateway_server {X = X} process false ≡ ok server
    → ServesTls server (serve_gateway false server)
unfolding gateway_server serve_gateway
gateway_server-ServesTls process server h = record {
  cert_file = server.cert_file;
  key_file = server.key_file;
  over_tls = refl;
  cert_ok = ground (arith, h);
  key_ok = ground (arith, h);
  version_ok = ground (arith, h);
}

configured_redis-ok :
    {X : Type 0} (process : Process) (address : Text) (config : StoreConfig)
    → configured_redis process {X = X} address false ≡ ok config
    → (config.width ≡ pos model_feature_width)
      × (config.redis.use_tls ≡ true)
      × ((is_empty config.redis.password ≡ false) ⊎ (is_empty config.redis.cert_file ≡ false))
unfolding configured_redis store_settings
configured_redis-ok process address config h =
    (ground (arith, h), ground (arith, h), ground (arith, h))

trusted_transport :
    {P C : Type 0} (config : TransportConfig) (transport : Option (TlsConfig P C))
    → config.insecure ≡ false
    → IsTrusted config transport
    → (t : TlsConfig P C) × (transport ≡ some t)
      × (t.min_version ≡ version_tls13)
      × (t.root_cas ≢ none)
unfolding IsTrusted
trusted_transport config none i h = absurd (ground (arith, i, h))
trusted_transport config (some t) i h = (t, refl, h.1, h.2)

trusted_client :
    {N P C : Type 0} (config : TransportConfig) (token : Text) (d : Dialled N P C)
    → config.insecure ≡ false
    → is_empty token ≡ false
    → IsTrusted config d.transport × (d.auth_token ≡ token)
    → IsGuardedClient d
trusted_client config token d i n h = (trusted_transport config d.transport i h.0, rw h.1 n)

new_pool-workers :
    {X : Type 0} (count probe_every : ℕ) (pool : Pool)
    → new_pool {X = X} count (pos probe_every) ≡ ok pool
    → (1 ≤ count) × (pool.workers ≡ count)
unfolding new_pool
new_pool-workers count probe_every pool h = (ground (arith, h), ground (arith, h))

secure_transport : (process : Process) → (worker_transport process false).insecure ≡ false
unfolding worker_transport
secure_transport process = refl

module _ {X P C N : Type 0} (process : Process) (files : Files X P C)
    (dial : Text → Option (TlsConfig P C) → Result X N) where
  connect_redis-guarded :
      (address : Text) (features : FeatureSource P C)
      → connect_redis process files dial address false ≡ ok features
      → FeaturesAreGuarded features
  unfolding connect_redis FeaturesAreGuarded
  connect_redis-guarded address features h =
      let (config, e, f) = bind-ok (configured_redis process address false) _ features h in
      let (width, u, shown) = configured_redis-ok process address config e in
      elim (Result-cases (new_redis_with_config files config)) [
        | inr (x, g) ↦ absurd (ground (arith, f, g))
        | inl (store, g) ↦
            let (guarded, password, same) = new_redis_with_config-IsGuarded files config store g in
            subst FeaturesAreGuarded {x = redis_store store} {y = features} (ground (arith, f, g)) (
              let (t, i, v, certified) = IsGuarded-tls config.redis store.client.tls u guarded in
              (
                ground (arith, width, same),
                t,
                i,
                v,
                elim shown [ inl w ↦ inl (rw password w) | inr c ↦ inr (certified c) ],
              ))
      ]

  pub configured_features-guarded :
      (features : FeatureSource P C)
      → configured_features process files dial false ≡ ok features
      → FeaturesAreGuarded features
  unfolding configured_features
  configured_features-guarded features h =
      elim (Bool-cases (is_empty (trim_text (process.getenv (text "REDIS_ADDR"))))) [
        | inl k ↦ absurd (ground (arith, h, k))
        | inr k ↦
            connect_redis-guarded (trim_text (process.getenv (text "REDIS_ADDR"))) features
              (ground (arith, h, k))
      ]

  dial_all-guarded :
      (token : Text) (config : TransportConfig) (raws : List Text)
      → config.insecure ≡ false
      → is_empty token ≡ false
      → All IsGuardedClient (dial_all process files dial token config raws)
  unfolding dial_all
  dial_all-guarded token config [] i n = tt
  dial_all-guarded token config (raw ∷ more) i n =
      let rest = dial_all-guarded token config more i n in
      let address = trim_text raw in
      elim (Bool-cases (is_empty address)) [
        | inl e ↦ rw (e, dial_all) rest
        | inr e ↦ elim (Result-cases (dial_with_transport files dial address token config)) [
          | inr (x, f) ↦ rw (e, dial_all, f) rest
          | inl (d, f) ↦
              let made = dial_with_transport-IsTrusted files dial address token config d f in
              rw (e, dial_all, f) (trusted_client config token d i n made, rest)
        ]
      ]

  remote_engine-guarded :
      (addresses token : Text) (engine : InferenceEngine N P C)
      → remote_engine process files dial addresses token false ≡ ok engine
      → is_empty token ≡ false
      → EngineIsGuarded engine
  unfolding remote_engine EngineIsGuarded
  remote_engine-guarded addresses token engine h n =
      let clients =
        dial_all process files dial token (worker_transport process false) (split addresses) in
      let probe_every = env_duration process (text "FRAUD_WORKER_PROBE_INTERVAL") 1_000_000_000 in
      elim (Result-cases (new_pool {X = X} (length clients) (pos probe_every))) [
        | inr (x, e) ↦ absurd (ground (arith, h, e))
        | inl (pool, e) ↦
            let (some_client, all) = new_pool-workers (length clients) probe_every pool e in
            subst EngineIsGuarded {x = remote clients pool} {y = engine} (ground (arith, h, e)) (
              some_client,
              all,
              dial_all-guarded token (worker_transport process false) (split addresses)
                  (secure_transport process) n,
            )
      ]

  pub configured_engine-guarded :
      (engine : InferenceEngine N P C)
      → configured_engine process files dial false ≡ ok engine
      → EngineIsGuarded engine
  unfolding configured_engine
  configured_engine-guarded engine h =
      let addresses =
        first_env process (text "FRAUD_WORKER_ADDRS" ∷ text "FRAUD_WORKER_ADDR" ∷ []) in
      elim (Bool-cases (is_empty (trim_text addresses))) [
        | inl e ↦ absurd (ground (arith, h, e))
        | inr e ↦
            let (token, f, g) =
              bind-ok (required_secret process (text "FRAUD_WORKER_AUTH_TOKEN") false)
                (λ token. remote_engine process files dial addresses token false) engine
                (ground (arith, h, e)) in
            remote_engine-guarded addresses token engine g
              (required_secret-ok process (text "FRAUD_WORKER_AUTH_TOKEN") token f)
      ]
