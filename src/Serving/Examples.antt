-- ===== src/Serving/Examples.antt =====
-- A gateway and a worker that start in production, a probe of them and a worker's counters, with the
-- commands' theorems on them.
use distributed_fraud_detect.Prelude.{
  ℕ, suc, ◌+◌, ◌-◌, ◌*◌, ◌≡◌, ◌≢◌, refl, true, false, List, [], ◌∷◌, ◌++◌, Option, none, some,
  arith, length, if◌then◌else◌, ◌==◌, leb, Map, Result, ok, err,
}
use distributed_fraud_detect.Float.Whole.{Whole, fin, whole, whole_leb}
use distributed_fraud_detect.Text.{Text, text, text_key}
use distributed_fraud_detect.Text.Trim.{trim_text}
use distributed_fraud_detect.Tls.{
  Files, TlsConfig, load_roots, root_cas_of, load_pair, certificates_of,
}
use distributed_fraud_detect.Process.{Process, env_bool}
use distributed_fraud_detect.Features.Vector.{split}
use distributed_fraud_detect.Features.Redis.{
  new_redis_with_config, store_tls_config, redis_tls_config,
}
use distributed_fraud_detect.Worker.Pool.{new_pool}
use distributed_fraud_detect.Worker.Rpc.{Engine, unauthenticated, serve_score}
use distributed_fraud_detect.Worker.Credentials.{dial_with_transport, server_credentials}
use distributed_fraud_detect.Gateway.Handler.{new_config}
use distributed_fraud_detect.Scheduler.Metrics.{add_buckets}
use distributed_fraud_detect.Serving.Gateway.{dial_all}
use distributed_fraud_detect.Serving.Start.{
  Dependencies, StartedGateway, probe_dependencies, start_gateway,
}
use distributed_fraud_detect.Serving.Parts.{IsGuardedGateway}
use distributed_fraud_detect.Serving.Guarded.{start_gateway-IsGuarded}
use distributed_fraud_detect.Serving.Worker.{
  StartedWorker, start_worker, unmeasured, infer_measured, observe_duration,
}
use distributed_fraud_detect.Serving.Mutual.{IsMutual, start_worker-IsMutual}
use distributed_fraud_detect.Serving.Measures.{
  Counts, AreWords, calls_of, run_measured, run_measured-Counts,
}

-- An environment for both commands; every other variable is unset.
abbrev variables : Map Text Text
variables =
    (text "FRAUD_AUTH_TOKEN", text " callers ")
    ∷ (text "FRAUD_WORKER_AUTH_TOKEN", text "workers")
    ∷ (text "REDIS_ADDR", text "redis:6380")
    ∷ (text "REDIS_PASSWORD", text "secret")
    ∷ (text "FRAUD_WORKER_ADDRS", text "a:50051,,b:50051")
    ∷ (text "FRAUD_WORKER_TLS_CA_FILE", text "ca.pem")
    ∷ (text "FRAUD_GATEWAY_TLS_CERT_FILE", text "cert.pem")
    ∷ (text "FRAUD_GATEWAY_TLS_KEY_FILE", text "key.pem")
    ∷ (text "FRAUD_GATEWAY_MTLS_CA_FILE", text "ca.pem")
    ∷ (text "FRAUD_WORKER_TLS_CERT_FILE", text "cert.pem")
    ∷ (text "FRAUD_WORKER_TLS_KEY_FILE", text "key.pem")
    ∷ (text "FRAUD_WORKER_HTTP_TLS_CERT_FILE", text "cert.pem")
    ∷ (text "FRAUD_WORKER_HTTP_TLS_KEY_FILE", text "key.pem")
    ∷ []

abbrev value_of : Map Text Text → Text → Text
value_of [] key = []
value_of ((k, v) ∷ more) key = if k == key then v else value_of more key

abbrev process : Process
process = record { getenv = value_of variables; parse_duration = λ s. none }

abbrev files : Files ℕ Text Text
files = record {
  read_file = λ name. ok name;
  append_certs_from_pem = λ pem. some pem;
  load_x509_key_pair = λ certificate key. ok certificate;
}

abbrev dial : Text → Option (TlsConfig Text Text) → Result ℕ Text
dial address transport = ok address

abbrev deps : Dependencies Text Text Text ℕ
deps = record { ping = λ s. none; healthy = λ engine. none; startup_err = none; time_left = none }

production : env_bool process (text "FRAUD_DEVELOPMENT_INSECURE") ≡ false
unfolding env_bool trim_text
production = refl

gateway :
    (g : StartedGateway Text Text Text Whole) × (start_gateway
        (fin 1)
        (fin 1)
        process
        files
        dial
        deps
      ≡ ok g)
unfolding start_gateway trim_text split root_cas_of certificates_of new_redis_with_config
    store_tls_config redis_tls_config dial_with_transport new_pool new_config whole_leb dial_all
gateway = (_, refl)

start_gateway-IsGuarded_example :
    (probe_dependencies deps gateway.0.features gateway.0.engine ≡ none)
    × IsGuardedGateway gateway.0
start_gateway-IsGuarded_example =
    start_gateway-IsGuarded (fin 1) (fin 1) process files dial deps gateway.0 production gateway.1

abbrev listen : Text → Option ℕ
listen address = none

worker : (w : StartedWorker Text Text) × (start_worker process files listen ≡ ok w)
unfolding start_worker trim_text server_credentials load_pair load_roots
worker = (_, refl)

-- An engine that counts its calls.
abbrev counting : Engine Whole ℕ ℕ
counting = record {
  infer = λ rs w. (ok [], suc w);
  is_canceled = λ x. false;
  is_deadline = λ x. false;
}

stranger : [] ≢ (text "Bearer " ++ worker.0.auth_token) ∷ []
stranger e = absurd (cc)

start_worker-IsMutual_example :
    IsMutual worker.0
    × (serve_score (fin 1) (fin 0) counting true worker.0.auth_token [] (some []) 4
        ≡ (err unauthenticated, 4))
start_worker-IsMutual_example =
    start_worker-IsMutual process files listen (fin 1) (fin 0) counting worker.0 [] (some []) 4
      production worker.1 stranger

-- An engine that fails on batches of more than two, and takes a millisecond for each request.
abbrev small_only : List ℕ → ℕ → Result ℕ ℕ × ℕ
small_only batch w = (if leb (length batch) 2 then ok 1 else err 9, w + 1_000_000 * length batch)

abbrev since : ℕ → ℕ → ℕ
since w w1 = w1 - w

abbrev batches : List (List ℕ)
batches = (1 ∷ 2 ∷ []) ∷ (3 ∷ 4 ∷ 5 ∷ []) ∷ []

unmeasured-AreWords : AreWords unmeasured
unmeasured-AreWords = record {
  batches = omega arith;
  items = omega arith;
  failures = omega arith;
  nanos = omega arith;
  buckets = (
    omega arith,
    (omega arith, (omega arith, (omega arith, (omega arith, (omega arith, (omega arith, tt)))))),
  );
}

measured :
    (run_measured small_only since batches unmeasured 0).duration_buckets
    ≡ 0 ∷ 0 ∷ 0 ∷ 2 ∷ 2 ∷ 2 ∷ 2 ∷ []
unfolding run_measured infer_measured observe_duration add_buckets
measured = refl

run_measured-Counts_example :
    Counts unmeasured
      (calls_of small_only since batches 0)
      (run_measured small_only since batches unmeasured 0)
run_measured-Counts_example =
    run_measured-Counts small_only since batches unmeasured 0 unmeasured-AreWords
