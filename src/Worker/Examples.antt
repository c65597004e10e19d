-- ===== src/Worker/Examples.antt =====
-- A pool of three workers, the first of them down and the second failing, and a valid result.
use distributed_fraud_detect.Prelude.{
  ℕ, ◌+◌, ◌%◌, ◌^◌, ◌<◌, ◌≡◌, ◌↔◌, refl, true, false, List, [], ◌∷◌, ◌++◌, map, none, some,
  if◌then◌else◌, ok, err, eqb, length, take, every, count, All, pos, nat_key,
}
use distributed_fraud_detect.Float.Whole.{Whole, fin, whole}
use distributed_fraud_detect.Text.{text}
use distributed_fraud_detect.Worker.Types.{Request, Score}
use distributed_fraud_detect.Worker.Sound.{IsSound, validate_results-IsSound}
use distributed_fraud_detect.Worker.Validate.{validate_results, validate_requests}
use distributed_fraud_detect.Worker.Validate.{
  check_results, check_result, valid_explanation, valid_versions, valid_fallback, valid_version,
  check_requests, check_request,
}
use distributed_fraud_detect.Text.{is_printable}
use distributed_fraud_detect.Float.Whole.{whole_ltb, whole_is_nan, whole_is_inf}
use distributed_fraud_detect.Prelude.{replicate}
use distributed_fraud_detect.Worker.Messages.{
  results_to_proto, results_from_proto, results_from_proto-results_to_proto,
}
use distributed_fraud_detect.Worker.Rpc.{
  Engine, serve_score, admits, infer_checked, requests_from_proto, all_requests,
  validate_rpc_requests, serve_score-IsSound,
}
use distributed_fraud_detect.Worker.Client.{infer_remote}
use distributed_fraud_detect.Worker.Hop.{over_service, expected_answer, infer_remote-transparent}
use distributed_fraud_detect.Worker.Pool.{
  State, Workers, Visit, unavailable, failed, served, infer, infer_loop, available, call_worker,
  visit, mark_down, mark_up, attempt_context, of_worker,
}
use distributed_fraud_detect.Worker.Failover.{worker_of, is_miss, seats, Served, infer-Served}
use distributed_fraud_detect.Worker.Seats.{infer-err}

-- Only worker 2 answers, in a world that is alive; in another world none does.
abbrev three : Workers ℕ ℕ ℕ
three = record {
  infer = λ i budget w. (if eqb (i + w) 2 then ok 9 else err i, w);
  healthy = λ i budget w. (none, w);
  now = λ w. 100;
  time_left = λ w. some (pos 30);
  ctx_err = λ w. none;
}

abbrev pool : ℕ → State ℕ
pool w = record {
  pool = record { workers = 3; probe_every = 50; next = 3; unhealthy = (0, 120) ∷ [] };
  world = w;
  visits = [];
}

fails_over : (infer three (pool 0)).1.visits ≡ unavailable 0 ∷ failed 1 ∷ served 2 ∷ []
unfolding infer infer_loop available call_worker visit mark_down mark_up attempt_context
fails_over = refl

infer-Served_example :
    let r = infer three (pool 0) in
    (vs : List Visit) × (r.1.visits ≡ [] ++ vs)
    × (map worker_of vs ≡ take (length vs) (seats 3 (3 % 3) 0 3))
    × Served 3 r.0 vs
    × (r.1.pool.next ≡ (3 + 1) % 2 ^ 64)
infer-Served_example = infer-Served three (pool 0)

all_fail : (infer three (pool 7)).0 ≡ err (of_worker 2)
unfolding infer infer_loop available call_worker visit mark_down mark_up attempt_context
all_fail = refl

infer-err_example :
    (vs : List Visit) × ((infer three (pool 7)).1.visits ≡ [] ++ vs)
    × (every is_miss vs ≡ true)
    × ((i : ℕ) → i < 3 → count i (map worker_of vs) ≡ 1)
infer-err_example = infer-err three (pool 7) (of_worker 2) all_fail

abbrev denied : Score Whole
denied = record {
  score = fin 1;
  confidence = fin 1;
  explanation = record { feature_index = pos 4; impact = fin 1 } ∷ [];
  model = text "m";
  calibration_version = text "c";
  policy_version = text "p";
  feature_version = text "f";
  fallback = false;
  fallback_reason = [];
}

validate_results-IsSound_example :
    (validate_results (fin 1) (fin 0) (denied ∷ []) 1 ≡ none)
    ↔ ((length (denied ∷ []) ≡ 1) × All (IsSound (fin 1) (fin 0)) (denied ∷ []))
validate_results-IsSound_example = validate_results-IsSound (fin 1) (fin 0) (denied ∷ []) 1

abbrev request : Request Whole
request = record { features = fin 2 ∷ []; transaction_amount = fin 5 }

-- A request of the model's width, and an engine that denies each request.
abbrev wide : Request Whole
wide = record { features = replicate 32 (fin 2); transaction_amount = fin 5 }

abbrev denies : Engine Whole ℕ ℕ
denies = record {
  infer = λ rs w. (ok (map (λ r. denied) rs), w);
  is_canceled = λ x. false;
  is_deadline = λ x. false;
}

denied_passes : validate_results (fin 1) (fin 0) (denied ∷ []) 1 ≡ none
unfolding validate_results check_results check_result valid_explanation valid_versions
    valid_fallback valid_version is_printable whole_ltb whole_is_nan whole_is_inf
denied_passes = refl

results_from_proto-results_to_proto_example :
    results_from_proto (fin 1) (fin 0) (some (results_to_proto (denied ∷ []))) ≡ denied ∷ []
results_from_proto-results_to_proto_example =
    results_from_proto-results_to_proto (fin 1) (fin 0) (denied ∷ []) 1 denied_passes

served_wide :
    (serve_score
      (fin 1)
      (fin 0)
      denies
      true
      (text "key")
      (text "Bearer key" ∷ [])
      (some (some wide ∷ []))
      0).0
    ≡ ok (results_to_proto (denied ∷ []))
unfolding serve_score admits infer_checked requests_from_proto all_requests validate_rpc_requests
    validate_requests check_requests check_request validate_results check_results check_result
    valid_explanation valid_versions valid_fallback valid_version is_printable whole_ltb
    whole_is_nan whole_is_inf
served_wide = refl

serve_score-IsSound_example :
    (admits (text "key") (text "Bearer key" ∷ []) ≡ true)
    × (rs : List (Request Whole)) × (requests_from_proto (fin 1) (fin 0) (some (some wide ∷ []))
        ≡ ok rs)
    × (scores : List (Score Whole)) × ((denies.infer rs 0).0 ≡ ok scores)
    × (length scores ≡ length rs)
    × All (IsSound (fin 1) (fin 0)) scores
    × (results_from_proto (fin 1) (fin 0) (some (results_to_proto (denied ∷ []))) ≡ scores)
serve_score-IsSound_example =
    serve_score-IsSound (fin 1) (fin 0) denies (text "key") (text "Bearer key" ∷ [])
      (some (some wide ∷ [])) 0 (results_to_proto (denied ∷ [])) served_wide

wide_accepted : validate_rpc_requests (fin 1) (fin 0) (wide ∷ []) ≡ none
unfolding validate_rpc_requests validate_requests check_requests check_request whole_ltb
    whole_is_nan whole_is_inf
wide_accepted = refl

infer_remote-transparent_example :
    infer_remote
      (fin 1)
      (fin 0)
      (over_service (fin 1) (fin 0) denies (text "key"))
      (record { connected = true; auth_token = text "key" })
      []
      none
      (wide ∷ [])
      0
    ≡ (expected_answer (fin 1) (fin 0) denies (wide ∷ []) (ok (denied ∷ [])), 0)
infer_remote-transparent_example =
    infer_remote-transparent (fin 1) (fin 0) denies (text "key") none (wide ∷ []) 0 refl
      wide_accepted
