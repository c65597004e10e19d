-- ===== src/Serving/Mutual.antt =====
-- What holds of every worker of serving_plane/cmd/worker/main.go that comes up without the opt-out of
-- development, and what its counters show.
use distributed_fraud_detect.Prelude.{
  ◌≡◌, ◌≢◌, refl, sym, ap, subst, ◌∙◌, true, false, List, [], ◌∷◌, ◌++◌, Option, none, some, inl,
  inr, arith, ◌==◌, ok, err, bind-ok, Bool-cases, Option-cases, Result-cases,
}
use distributed_fraud_detect.Float.{Float64}
use distributed_fraud_detect.Text.{Text, text, text_key, text_beq_iff, is_empty}
use distributed_fraud_detect.Text.Trim.{trim_text}
use distributed_fraud_detect.Tls.{Files, version_tls13}
use distributed_fraud_detect.Process.{Process, env_bool}
use distributed_fraud_detect.Worker.Types.{Request}
use distributed_fraud_detect.Worker.Rpc.{Engine, unauthenticated, admits, serve_score}
use distributed_fraud_detect.Worker.Credentials.{
  TransportConfig, ServerTls, IsVerifying, server_credentials, server_credentials-IsVerifying,
}
use distributed_fraud_detect.Stream.Settings.{HttpServer}
use distributed_fraud_detect.Stream.Secured.{ServesTls}
use distributed_fraud_detect.Serving.Worker.{
  serve_operations, StartedWorker, env_or_raw, grpc_transport, worker_http, serve_worker,
  start_worker_as, start_worker,
}

-- Mutual TLS 1.3 in front of a token, and an operational server over TLS.
pub record IsMutual {P C : Type 0} (w : StartedWorker P C) : Type 0 where
  pub token_ok : is_empty w.auth_token ≡ false
  pub transport_ok :
      (t : ServerTls P C) × (w.transport ≡ some t)
      × (t.min_version ≡ version_tls13)
      × (t.client_cas ≢ none)
  pub http_ok : ServesTls w.http w.listening

verifying_transport :
    {P C : Type 0} (config : TransportConfig) (transport : Option (ServerTls P C))
    → config.insecure ≡ false
    → config.require_client_cert ≡ true
    → IsVerifying config transport
    → (t : ServerTls P C) × (transport ≡ some t)
      × (t.min_version ≡ version_tls13)
      × (t.client_cas ≢ none)
unfolding IsVerifying
verifying_transport config none i r h = absurd (ground (arith, i, h))
verifying_transport config (some t) i r h = (t, refl, h.1, h.2 r)

-- Without its bearer alone, a token does not admit.
refuses :
    (token : Text) (values : List Text)
    → is_empty token ≡ false
    → values ≢ (text "Bearer " ++ token) ∷ []
    → admits token values ≡ false
unfolding admits
refuses token [] n h = n
refuses token (v ∷ []) n h = elim (Bool-cases (v == (text "Bearer " ++ token))) [
  | inl e ↦ absurd (h (ap (λ t. t ∷ []) ((text_beq_iff v (text "Bearer " ++ token)).0 e)))
  | inr e ↦ ground (arith, n, e)
]
refuses token (v ∷ u ∷ more) n h = n

module _ {X P C : Type 0} (process : Process) (files : Files X P C) (listen : Text → Option X) where
  worker_http-ServesTls :
      (http : HttpServer)
      → worker_http process files listen false ≡ ok http
      → ServesTls http (serve_operations false http)
  unfolding worker_http serve_operations
  worker_http-ServesTls http h = record {
    cert_file = http.cert_file;
    key_file = http.key_file;
    over_tls = refl;
    cert_ok = ground (arith, h);
    key_ok = ground (arith, h);
    version_ok = ground (arith, h);
  }

  serve_worker-IsMutual :
      (address token : Text) (w : StartedWorker P C)
      → is_empty token ≡ false
      → serve_worker process files listen false address token ≡ ok w
      → IsMutual w
  unfolding serve_worker grpc_transport
  serve_worker-IsMutual address token w n h =
      let config = grpc_transport process files listen false in
      elim (Result-cases (server_credentials files config)) [
        | inr (x, e) ↦ absurd (ground (arith, h, e))
        | inl (transport, e) ↦
            let (http, f, g) =
              bind-ok (worker_http process files listen false)
                (λ http. ok (record {
                  grpc_address = address;
                  auth_token = token;
                  transport = transport;
                  http = http;
                  listening = serve_operations false http;
                }))
                w (ground (arith, h, e)) in
            subst IsMutual
              {x = record {
                grpc_address = address;
                auth_token = token;
                transport = transport;
                http = http;
                listening = serve_operations false http;
              }}
              {y = w} (cc)
              (record {
                token_ok = n;
                transport_ok =
                    verifying_transport config transport refl refl
                      (server_credentials-IsVerifying files config transport e);
                http_ok = worker_http-ServesTls http f;
              })
      ]

  start_worker_as-IsMutual :
      (w : StartedWorker P C) → start_worker_as process files listen false ≡ ok w → IsMutual w
  unfolding start_worker_as
  start_worker_as-IsMutual w h =
      let address = env_or_raw process (text "FRAUD_WORKER_ADDR") (text ":50051") in
      let token = trim_text (process.getenv (text "FRAUD_WORKER_AUTH_TOKEN")) in
      elim (Bool-cases (is_empty token)) [
        | inl e ↦ absurd (ground (arith, h, e))
        | inr e ↦ elim (Option-cases (listen address)) [
          | inr (x, f) ↦ absurd (ground (arith, h, e, f))
          | inl f ↦ serve_worker-IsMutual address token w e (ground (arith, h, e, f))
        ]
      ]

  started-IsMutual :
      (w : StartedWorker P C)
      → env_bool process (text "FRAUD_DEVELOPMENT_INSECURE") ≡ false
      → start_worker process files listen ≡ ok w
      → IsMutual w
  unfolding start_worker
  started-IsMutual w d h =
      start_worker_as-IsMutual w (ap (start_worker_as process files listen) (sym d) ∙ h)

  module _ {A W Y : Type 0} ⦃float : Float64 A⦄ (one minus_one : A) (engine : Engine A W Y) where
    -- A worker that comes up outside development serves gRPC over TLS 1.3 to clients whose certificates
    -- it verifies, has a token, and refuses a call whose authorization is not the one bearer of that
    -- token without calling the engine; its operational server serves by ListenAndServeTLS with a
    -- certificate and its key, and TLS 1.3 at least.
    pub start_worker-IsMutual :
        (w : StartedWorker P C) (values : List Text) (message : Option (List (Option (Request A))))
        (u : W)
        → env_bool process (text "FRAUD_DEVELOPMENT_INSECURE") ≡ false
        → start_worker process files listen ≡ ok w
        → values ≢ (text "Bearer " ++ w.auth_token) ∷ []
        → IsMutual w
          × (serve_score one minus_one engine true w.auth_token values message u
              ≡ (err unauthenticated, u))
    unfolding serve_score
    start_worker-IsMutual w values message u d h n =
        let made = started-IsMutual w d h in
        (made, rw (refuses w.auth_token values made.token_ok n, serve_score) refl)
