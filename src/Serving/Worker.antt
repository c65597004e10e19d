-- ===== src/Serving/Worker.antt =====
-- serving_plane/cmd/worker/main.go: the engine that measures its calls, how the worker comes up and
-- how it ends. The engine, the listener and the clock are arguments.
use distributed_fraud_detect.Prelude.{
  ℕ, ◌*◌, Bool, not, ◌&&◌, ◌||◌, List, [], ◌∷◌, Option, none, some, if◌then◌else◌, length, Result,
  ok, err, ◌>>=◌,
}
use distributed_fraud_detect.Text.{Text, text, is_empty}
use distributed_fraud_detect.Text.Trim.{trim_text}
use distributed_fraud_detect.Tls.{Files, TlsError, version_tls13}
use distributed_fraud_detect.Process.{Process, env_bool}
use distributed_fraud_detect.Ingestion.Config.{second}
use distributed_fraud_detect.Scheduler.Metrics.{add_word, add_buckets}
use distributed_fraud_detect.Worker.Credentials.{TransportConfig, ServerTls, server_credentials}
use distributed_fraud_detect.Stream.Settings.{
  HttpServer, Listening, listen_and_serve, listen_and_serve_tls,
}

-- `measuredEngine`; its counters are uint64 words.
pub record Measured : Type 0 where
  pub batches : ℕ
  pub items : ℕ
  pub failures : ℕ
  pub duration_nanos : ℕ
  pub duration_buckets : List ℕ

-- `workerDurationBounds`, in nanoseconds.
abbrev pub worker_duration_bounds : List ℕ
worker_duration_bounds = 100_000 ∷ 500_000 ∷ 1_000_000 ∷ 5_000_000 ∷ 10_000_000 ∷ 20_000_000 ∷ []

abbrev pub unmeasured : Measured
unmeasured = record {
  batches = 0;
  items = 0;
  failures = 0;
  duration_nanos = 0;
  duration_buckets = 0 ∷ 0 ∷ 0 ∷ 0 ∷ 0 ∷ 0 ∷ 0 ∷ [];
}

-- `observeDuration`
unfoldable pub observe_duration : ℕ → Measured → Measured
observe_duration duration m = record m {
  duration_nanos = add_word m.duration_nanos duration;
  duration_buckets = add_buckets worker_duration_bounds duration m.duration_buckets;
}

-- `measuredEngine.Infer`, with its deferred observation; `elapsed` is `time.Since(started)`, from the
-- worlds in front of the call and behind it.
unfoldable pub infer_measured :
    {Q R W X : Type 0}
    → (List Q → W → Result X R × W)
    → (W → W → ℕ)
    → List Q
    → Measured × W
    → Result X R × Measured × W
unfolding observe_duration
infer_measured infer elapsed requests (m, w) =
    let (r, w1) = infer requests w in
    let counted = record m {
      batches = add_word m.batches 1;
      items = add_word m.items (length requests);
      failures = elim r [ ok v ↦ m.failures | err x ↦ add_word m.failures 1 ];
    } in
    (r, observe_duration (elapsed w w1) counted, w1)

pub data WorkerError (X : Type 0) : Type 0 where
  token_required : WorkerError X
  listen_failed : X → WorkerError X
  of_tls : TlsError X → WorkerError X
  http_pair_required : WorkerError X

pub record StartedWorker (P C : Type 0) : Type 0 where
  pub grpc_address : Text
  pub auth_token : Text
  pub transport : Option (ServerTls P C)
  pub http : HttpServer
  pub listening : Listening

-- How the goroutine of the operational server serves.
unfoldable pub serve_operations : Bool → HttpServer → Listening
serve_operations insecure server =
    if insecure then listen_and_serve else listen_and_serve_tls server.cert_file server.key_file

-- `envOr` of the worker, which does not trim.
unfoldable pub env_or_raw : Process → Text → Text → Text
env_or_raw process key fallback =
    let value = process.getenv key in if is_empty value then fallback else value

module _ {X P C : Type 0} (process : Process) (files : Files X P C) (listen : Text → Option X) where
  unfoldable pub grpc_transport : Bool → TransportConfig
  grpc_transport insecure = record {
    insecure = insecure;
    server_name = [];
    ca_file = process.getenv (text "FRAUD_GATEWAY_MTLS_CA_FILE");
    cert_file = process.getenv (text "FRAUD_WORKER_TLS_CERT_FILE");
    key_file = process.getenv (text "FRAUD_WORKER_TLS_KEY_FILE");
    require_client_cert = not insecure;
  }

  unfoldable pub worker_http : Bool → Result (WorkerError X) HttpServer
  unfolding env_or_raw
  worker_http insecure =
      let cert_file = process.getenv (text "FRAUD_WORKER_HTTP_TLS_CERT_FILE") in
      let key_file = process.getenv (text "FRAUD_WORKER_HTTP_TLS_KEY_FILE") in
      if not insecure && (is_empty cert_file || is_empty key_file)
      then err http_pair_required
      else ok (record {
        address = env_or_raw process (text "FRAUD_WORKER_HTTP_ADDR") (text ":9091");
        cert_file = cert_file;
        key_file = key_file;
        min_version = version_tls13;
        read_header_timeout = 2 * second;
        read_timeout = 5 * second;
        write_timeout = 5 * second;
        idle_timeout = 30 * second;
        max_header_bytes = 16_384;
      })

  -- Behind the listener: the credentials of ServeWithTransportObserved, and the operational server.
  unfoldable pub serve_worker : Bool → Text → Text → Result (WorkerError X) (StartedWorker P C)
  unfolding grpc_transport worker_http serve_operations
  serve_worker insecure address token = elim (server_credentials files (grpc_transport insecure)) [
    | err x ↦ err (of_tls x)
    | ok transport ↦ worker_http insecure >>= λ http. ok (record {
      grpc_address = address;
      auth_token = token;
      transport = transport;
      http = http;
      listening = serve_operations insecure http;
    })
  ]

  unfoldable pub start_worker_as : Bool → Result (WorkerError X) (StartedWorker P C)
  unfolding serve_worker env_or_raw
  start_worker_as insecure =
      let address = env_or_raw process (text "FRAUD_WORKER_ADDR") (text ":50051") in
      let token = trim_text (process.getenv (text "FRAUD_WORKER_AUTH_TOKEN")) in
      if is_empty token && not insecure then err token_required else elim (listen address) [
        | some x ↦ err (listen_failed x)
        | none ↦ serve_worker insecure address token
      ]

  -- `main`, up to its servers.
  unfoldable pub start_worker : Result (WorkerError X) (StartedWorker P C)
  unfolding start_worker_as env_bool
  start_worker = start_worker_as (env_bool process (text "FRAUD_DEVELOPMENT_INSECURE"))

-- The select of `main`: the signal, the operational server's error, or the end of the gRPC server's
-- accept loop, with its error if it has one.
pub data WorkerEnd (X : Type 0) : Type 0 where
  signalled : WorkerEnd X
  http_ended : X → WorkerEnd X
  grpc_ended : Option X → WorkerEnd X

-- The status that the process exits with; a gRPC server that stops by itself is a failure.
unfoldable pub worker_status : {X : Type 0} → WorkerEnd X → ℕ
worker_status signalled = 0
worker_status (http_ended x) = 1
worker_status (grpc_ended x) = 1
