-- ===== src/Features/Redis.antt =====
-- The Redis clients of both planes: RedisConfig, the constructors and `redisTLSConfig` of
-- stream_processor/aggregations/materialize.go and serving_plane/feature_store/store.go, which share
-- their text but for widths, defaults and sizes.
use distributed_fraud_detect.Prelude.{
  ℕ, ◌≡◌, refl, Bool, true, false, not, ◌||◌, [], ◌∷◌, Option, none, some, inl, inr, arith,
  if◌then◌else◌, ℤ, pos, positive_or, ltb_ℤ, Result, ok, err, ◌>>=◌, bind-ok, Result-cases,
  Bool-cases,
}
use distributed_fraud_detect.Text.{Text, is_empty}
use distributed_fraud_detect.Tls.{
  Files, TlsConfig, TlsError, pair_required, options_without_tls, one_of, root_cas_of,
  certificates_of, certificates_of-some, version_tls13,
}

pub record RedisConfig : Type 0 where
  pub address : Text
  pub timeout : ℤ
  pub username : Text
  pub password : Text
  pub use_tls : Bool
  pub ca_file : Text
  pub server_name : Text
  pub cert_file : Text
  pub key_file : Text

-- The feature store's configuration has a width beside.
pub record StoreConfig : Type 0 where
  pub redis : RedisConfig
  pub width : ℤ

-- redis.Options, as far as the files set them.
pub record RedisOptions (P C : Type 0) : Type 0 where
  pub addr : Text
  pub username : Text
  pub password : Text
  pub tls : Option (TlsConfig P C)
  pub protocol : ℕ
  pub dial_timeout : ℕ
  pub read_timeout : ℕ
  pub write_timeout : ℕ
  pub pool_size : ℕ
  pub min_idle_conns : ℕ
  pub retries : Bool
  pub disable_identity : Bool

-- A store's client, its width and its timeout.
pub record RedisStore (P C : Type 0) : Type 0 where
  pub client : RedisOptions P C
  pub width : ℕ
  pub timeout : ℕ

pub data RedisError (X : Type 0) : Type 0 where
  address_required : RedisError X
  of_tls : TlsError X → RedisError X

-- How a client reaches Redis: without TLS, or over TLS 1.3 with the certificate that is configured.
unfoldable pub IsGuarded : {P C : Type 0} → RedisConfig → Option (TlsConfig P C) → Type 0
IsGuarded config none = (config.use_tls ≡ false) × (is_empty config.cert_file ≡ true)
IsGuarded {C = C} config (some t) =
    (config.use_tls ≡ true)
    × (t.min_version ≡ version_tls13)
    × (is_empty config.cert_file ≡ false → (c : C) × (t.certificates ≡ c ∷ []))

-- Where TLS is asked for, there it is.
pub IsGuarded-tls :
    {P C : Type 0} (config : RedisConfig) (tls : Option (TlsConfig P C))
    → config.use_tls ≡ true
    → IsGuarded config tls
    → (t : TlsConfig P C) × (tls ≡ some t)
      × (t.min_version ≡ version_tls13)
      × (is_empty config.cert_file ≡ false → (c : C) × (t.certificates ≡ c ∷ []))
unfolding IsGuarded
IsGuarded-tls config none u g = absurd (ground (arith, u, g.0))
IsGuarded-tls config (some t) u g = (t, refl, g.1, g.2)

abbrev pub options_of :
    {P C : Type 0} → ℕ → ℕ → RedisConfig → Option (TlsConfig P C) → RedisOptions P C
options_of timeout pool_size config tls = record {
  addr = config.address;
  username = config.username;
  password = config.password;
  tls = tls;
  protocol = 2;
  dial_timeout = timeout;
  read_timeout = timeout;
  write_timeout = timeout;
  pool_size = pool_size;
  min_idle_conns = 1;
  retries = false;
  disable_identity = true;
}

-- An address and a timeout alone.
abbrev pub plain : Text → ℤ → RedisConfig
plain address timeout = record {
  address = address;
  timeout = timeout;
  username = [];
  password = [];
  use_tls = false;
  ca_file = [];
  server_name = [];
  cert_file = [];
  key_file = [];
}

module _ {X P C : Type 0} (files : Files X P C) where
  -- The TLS configuration behind the checks.
  unfoldable pub redis_tls : RedisConfig → Result (TlsError X) (TlsConfig P C)
  redis_tls config = root_cas_of files config.ca_file >>= λ roots.
      certificates_of files config.cert_file config.key_file >>= λ certificates. ok (record {
        min_version = version_tls13;
        server_name = config.server_name;
        root_cas = roots;
        certificates = certificates;
      })

  unfoldable pub redis_tls_config : RedisConfig → Result (TlsError X) (Option (TlsConfig P C))
  unfolding redis_tls
  redis_tls_config config =
      if one_of config.cert_file config.key_file
      then err pair_required
      else if not config.use_tls
      then if not (is_empty config.ca_file)
          || not (is_empty config.server_name)
          || not (is_empty config.cert_file)
        then err options_without_tls
        else ok none
      else elim (redis_tls config) [ err x ↦ err x | ok t ↦ ok (some t) ]

  -- `NewRedisMaterializerWithConfig`
  unfoldable pub new_redis_materializer_with_config :
      RedisConfig → Result (RedisError X) (RedisOptions P C)
  new_redis_materializer_with_config config =
      if is_empty config.address then err address_required else elim (redis_tls_config config) [
        | err x ↦ err (of_tls x)
        | ok tls ↦ ok (options_of (positive_or 100_000_000 config.timeout) 8 config tls)
      ]

  -- `NewRedisMaterializer`, for local development.
  unfoldable pub new_redis_materializer : Text → ℤ → Result (RedisError X) (RedisOptions P C)
  unfolding new_redis_materializer_with_config
  new_redis_materializer address timeout =
      new_redis_materializer_with_config (plain address timeout)

  -- `redisTLSConfig` of the feature store, which is the same.
  unfoldable pub store_tls_config : RedisConfig → Result (TlsError X) (Option (TlsConfig P C))
  unfolding redis_tls_config
  store_tls_config = redis_tls_config

  -- `NewRedisWithConfig`
  unfoldable pub new_redis_with_config : StoreConfig → Result (RedisError X) (RedisStore P C)
  unfolding store_tls_config
  new_redis_with_config config =
      if is_empty config.redis.address || ltb_ℤ config.width (pos 1)
      then err address_required
      else elim (store_tls_config config.redis) [
        | err x ↦ err (of_tls x)
        | ok tls ↦
            let timeout = positive_or 50_000_000 config.redis.timeout in
            ok (record {
              client = options_of timeout 32 config.redis tls;
              width = positive_or 1 config.width;
              timeout = timeout;
            })
      ]

  -- `NewRedis`, for local development.
  unfoldable pub new_redis : Text → ℤ → ℤ → Result (RedisError X) (RedisStore P C)
  unfolding new_redis_with_config
  new_redis address width timeout =
      new_redis_with_config (record { redis = plain address timeout; width = width })

  redis_tls-certified :
      (config : RedisConfig) (t : TlsConfig P C)
      → redis_tls config ≡ ok t
      → (t.min_version ≡ version_tls13)
        × (is_empty config.cert_file ≡ false → (c : C) × (t.certificates ≡ c ∷ []))
  unfolding redis_tls
  redis_tls-certified config t h =
      let (roots, e, h1) = bind-ok (root_cas_of files config.ca_file) _ t h in
      let (cs, f, h2) = bind-ok (certificates_of files config.cert_file config.key_file) _ t h1 in
      (
        cc,
        λ n.
            let (c, g) = certificates_of-some files config.cert_file config.key_file cs f n in
            (c, cc),
      )

  redis_tls_config-IsGuarded :
      (config : RedisConfig) (tls : Option (TlsConfig P C))
      → redis_tls_config config ≡ ok tls
      → IsGuarded config tls
  unfolding redis_tls_config IsGuarded
  redis_tls_config-IsGuarded config none h = elim (Bool-cases config.use_tls) [
    | inr u ↦ (u, ground (arith, h, u))
    | inl u ↦ absurd (elim (Result-cases (redis_tls config)) [
      | inr (x, e) ↦ ground (arith, h, u, e)
      | inl (t, e) ↦ ground (arith, h, u, e)
    ])
  ]
  redis_tls_config-IsGuarded config (some t) h = elim (Bool-cases config.use_tls) [
    | inr u ↦ absurd (ground (arith, h, u))
    | inl u ↦ elim (Result-cases (redis_tls config)) [
      | inr (x, e) ↦ absurd (ground (arith, h, u, e))
      | inl (s, e) ↦
          let same : redis_tls config ≡ ok t = ground (arith, h, u, e) in
          let made = redis_tls-certified config t same in (u, made.0, made.1)
    ]
  ]

  -- A sink's client carries the credentials and the TLS of its configuration.
  pub new_redis_materializer_with_config-IsGuarded :
      (config : RedisConfig) (o : RedisOptions P C)
      → new_redis_materializer_with_config config ≡ ok o
      → IsGuarded config o.tls × (o.password ≡ config.password)
  unfolding new_redis_materializer_with_config
  new_redis_materializer_with_config-IsGuarded config o h =
      elim (Result-cases (redis_tls_config config)) [
        | inr (x, e) ↦ absurd (ground (arith, h, e))
        | inl (tls, e) ↦
            let same : o.tls ≡ tls = ground (arith, h, e) in
            (rw same (redis_tls_config-IsGuarded config tls e), ground (arith, h, e))
      ]

  pub new_redis_with_config-IsGuarded :
      (config : StoreConfig) (s : RedisStore P C)
      → new_redis_with_config config ≡ ok s
      → IsGuarded config.redis s.client.tls
        × (s.client.password ≡ config.redis.password)
        × (pos s.width ≡ config.width)
  unfolding new_redis_with_config store_tls_config
  new_redis_with_config-IsGuarded config s h = elim (Result-cases (redis_tls_config config.redis)) [
    | inr (x, e) ↦ absurd (ground (arith, h, e))
    | inl (tls, e) ↦
        let same : s.client.tls ≡ tls = ground (arith, h, e) in
        (
          rw same (redis_tls_config-IsGuarded config.redis tls e),
          ground (arith, h, e),
          ground (arith, h, e),
        )
  ]
