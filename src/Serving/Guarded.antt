-- ===== src/Serving/Guarded.antt =====
-- What holds of every gateway of serving_plane/cmd/gateway/main.go that comes up without the opt-out
-- of development.
use distributed_fraud_detect.Prelude.{
  ◌≡◌, refl, sym, subst, ap, ◌∙◌, false, Option, none, inl, inr, arith, Result, ok, bind-ok,
  Option-cases,
}
use mathlib.Core.Path.{ap₂}
use distributed_fraud_detect.Float.{Float64}
use distributed_fraud_detect.Text.{Text, text, is_empty}
use distributed_fraud_detect.Tls.{Files, TlsConfig}
use distributed_fraud_detect.Process.{Process, env_bool}
use distributed_fraud_detect.Gateway.Handler.{new_config}
use distributed_fraud_detect.Serving.Gateway.{
  FeatureSource, InferenceEngine, required_secret, configured_features, configured_engine,
}
use distributed_fraud_detect.Gateway.Handler.{Config, new_config}
use distributed_fraud_detect.Scheduler.State.{new}
use distributed_fraud_detect.Serving.Start.{
  gateway_setup, new_gateway, Dependencies, StartedGateway, probe_dependencies, gateway_server,
  serve_gateway, open_gateway, probe_gateway, start_gateway_as, start_gateway,
}
use distributed_fraud_detect.Serving.Parts.{
  FeaturesAreGuarded, EngineIsGuarded, IsGuardedGateway, required_secret-ok,
  gateway_server-ServesTls, configured_features-guarded, configured_engine-guarded,
}

gateway_setup-token :
    {A X : Type 0} ⦃float : Float64 A⦄ (one half : A) (process : Process) (token : Text)
    (config : Config A)
    → gateway_setup {X = X} one half process token ≡ ok config
    → config.auth_token ≡ token
unfolding gateway_setup new_gateway new_config new
gateway_setup-token one half process token config h = ground (arith, h)

module _ {A X P C N : Type 0} (process : Process) (deps : Dependencies N P C X) where
  open_gateway-guarded :
      (config : Config A) (features : FeatureSource P C) (engine : InferenceEngine N P C)
      (g : StartedGateway N P C A)
      → is_empty config.auth_token ≡ false
      → FeaturesAreGuarded features
      → EngineIsGuarded engine
      → open_gateway process deps false config features engine ≡ ok g
      → (g.features ≡ features) × (g.engine ≡ engine) × IsGuardedGateway g
  unfolding open_gateway
  open_gateway-guarded config features engine g n f e h =
      let (server, i, j) = bind-ok (gateway_server process false) _ g h in
      subst (λ q. (q.features ≡ features) × (q.engine ≡ engine) × IsGuardedGateway q)
        {x = record {
          config = config;
          features = features;
          engine = engine;
          server = server;
          listening = serve_gateway false server;
        }}
        {y = g} (cc)
        (
          refl,
          refl,
          record {
            token_ok = n;
            features_ok = f;
            engine_ok = e;
            http_ok = gateway_server-ServesTls process server i;
          },
        )

  probe_gateway-guarded :
      (config : Config A) (features : FeatureSource P C) (engine : InferenceEngine N P C)
      (g : StartedGateway N P C A)
      → is_empty config.auth_token ≡ false
      → FeaturesAreGuarded features
      → EngineIsGuarded engine
      → probe_gateway process deps false config features engine ≡ ok g
      → (probe_dependencies deps g.features g.engine ≡ none) × IsGuardedGateway g
  unfolding probe_gateway
  probe_gateway-guarded config features engine g n f e h =
      elim (Option-cases (probe_dependencies deps features engine)) [
        | inr (x, p) ↦ absurd (ground (arith, h, p))
        | inl p ↦
            let (sf, se, made) =
              open_gateway-guarded config features engine g n f e (ground (arith, h, p)) in
            (ap₂ (probe_dependencies deps) sf se ∙ p, made)
      ]

module _ {A X P C N : Type 0} ⦃float : Float64 A⦄ (one half : A) (process : Process)
    (files : Files X P C) (dial : Text → Option (TlsConfig P C) → Result X N)
    (deps : Dependencies N P C X) where
  start_gateway_as-guarded :
      (g : StartedGateway N P C A)
      → start_gateway_as one half process files dial deps false ≡ ok g
      → (probe_dependencies deps g.features g.engine ≡ none) × IsGuardedGateway g
  unfolding start_gateway_as
  start_gateway_as-guarded g h =
      let (token, n, h1) =
        bind-ok (required_secret process (text "FRAUD_AUTH_TOKEN") false) _ g h in
      let (features, f, h2) = bind-ok (configured_features process files dial false) _ g h1 in
      let (engine, e, h3) = bind-ok (configured_engine process files dial false) _ g h2 in
      let (config, c, h4) = bind-ok (gateway_setup one half process token) _ g h3 in
      let shown =
        subst (λ t. is_empty t ≡ false)
          (sym (gateway_setup-token {X = X} one half process token config c))
          (required_secret-ok process (text "FRAUD_AUTH_TOKEN") token n) in
      probe_gateway-guarded process deps config features engine g shown
        (configured_features-guarded process files dial features f)
        (configured_engine-guarded process files dial engine e) h4

  -- A gateway that comes up outside development has a token that callers must show; reads features
  -- from Redis alone, over TLS 1.3 with a password or a client certificate, of the model's width; has
  -- at least one worker, each of them dialled over TLS 1.3 with roots of its own and called with a
  -- token; serves by ListenAndServeTLS with a certificate and its key, and TLS 1.3 at least; and its
  -- dependencies have answered.
  pub start_gateway-IsGuarded :
      (g : StartedGateway N P C A)
      → env_bool process (text "FRAUD_DEVELOPMENT_INSECURE") ≡ false
      → start_gateway one half process files dial deps ≡ ok g
      → (probe_dependencies deps g.features g.engine ≡ none) × IsGuardedGateway g
  unfolding start_gateway
  start_gateway-IsGuarded g d h =
      start_gateway_as-guarded g
        (ap (start_gateway_as one half process files dial deps) (sym d) ∙ h)
