-- ===== src/Gateway/Handler.antt =====
-- The scoring handler of serving_plane/gateway/gateway.go with its counters. Its decoder, feature
-- store and scheduler are arguments, over a world `W`; `X` are their errors, a float64 is an `A`.
use distributed_fraud_detect.Prelude.{
  ℕ, Bool, true, false, not, ◌||◌, List, [], ◌∷◌, Option, none, some, if◌then◌else◌, ◌==◌, ℤ,
  positive_or, Result, ok, err,
}
use distributed_fraud_detect.Float.{Float64}
use distributed_fraud_detect.Text.{Text, text, text_key}
use distributed_fraud_detect.Scheduler.Metrics.{add_word, add_buckets}
use distributed_fraud_detect.Scheduler.State.{
  Error, closed_error, full_error, queue_delay, bad_configuration, wrong_result_count, of_context,
  of_handler,
}
use distributed_fraud_detect.Worker.Types.{
  Request, Score, feature_unavailable, queue_deadline, worker_unavailable,
}
use distributed_fraud_detect.Gateway.Request.{authorized, valid_entity_id}

pub record Config (A : Type 0) : Type 0 where
  pub auth_token : Text
  pub timeout : ℕ
  pub feature_timeout : ℕ
  pub queue_delay_limit : ℕ
  pub inference_timeout : ℕ
  pub deny_score : A

pub record Counters : Type 0 where
  pub requests : ℕ
  pub denied : ℕ
  pub failures : ℕ
  pub feature_fallbacks : ℕ
  pub queue_fallbacks : ℕ
  pub worker_fallbacks : ℕ
  pub request_nanos : ℕ
  pub request_buckets : List ℕ

abbrev pub request_duration_bounds : List ℕ
request_duration_bounds = 100_000 ∷ 500_000 ∷ 1_000_000 ∷ 5_000_000 ∷ 10_000_000 ∷ 40_000_000 ∷ []

pub data Decision : Type 0 where
  allow : Decision
  deny : Decision

-- The JSON of an answer: an error's text, or a score with the request's ID and a decision.
pub data Body (A : Type 0) : Type 0 where
  problem : Text → Body A
  scored : Text → Score A → Decision → Body A

pub record Response (A : Type 0) : Type 0 where
  pub status : ℕ
  pub body : Body A

pub record HttpRequest (B : Type 0) : Type 0 where
  pub authorization : Text
  pub id : Text
  pub body : B

pub record Services (A B W X : Type 0) : Type 0 where
  -- Exactly one JSON object of the two known fields, of at most 16 KiB; none otherwise.
  pub decode : B → Option (Text × A)
  pub get_features : Text → W → Result X (List A) × W
  pub submit : Request A → W → Result (Error X) (Score A) × W
  -- `time.Since(started)`
  pub elapsed : W → ℕ

pub record State (W : Type 0) : Type 0 where
  pub counters : Counters
  pub world : W

-- `errors.Is` with ErrQueueDelay or ErrFull, on what the scheduler returns itself.
abbrev pub queue_failed : {X : Type 0} → Error X → Bool
queue_failed queue_delay = true
queue_failed full_error = true
queue_failed closed_error = false
queue_failed bad_configuration = false
queue_failed wrong_result_count = false
queue_failed (of_context x) = false
queue_failed (of_handler x) = false

-- `observeRequest`
unfoldable pub observe_request : ℕ → Counters → Counters
observe_request duration c = record c {
  request_nanos = add_word c.request_nanos duration;
  request_buckets = add_buckets request_duration_bounds duration c.request_buckets;
}

-- The counter of `respondFallback`.
unfoldable pub count_fallback : Text → Counters → Counters
count_fallback reason c =
    if reason == feature_unavailable
    then record c { feature_fallbacks = add_word c.feature_fallbacks 1 }
    else if reason == queue_deadline
    then record c { queue_fallbacks = add_word c.queue_fallbacks 1 }
    else record c { worker_fallbacks = add_word c.worker_fallbacks 1 }

module _ {A : Type 0} ⦃float : Float64 A⦄ (one : A) where
  -- `New`, as far as the configuration: its defaults, with a half as the default score.
  unfoldable pub new_config : Text → ℤ → ℤ → ℤ → ℤ → A → A → Config A
  new_config token timeout feature_timeout delay inference_timeout deny_score half = record {
    auth_token = token;
    timeout = positive_or 40_000_000 timeout;
    feature_timeout = positive_or 10_000_000 feature_timeout;
    queue_delay_limit = positive_or 2_000_000 delay;
    inference_timeout = positive_or 20_000_000 inference_timeout;
    deny_score = if float.leb deny_score float.zero then half else deny_score;
  }

  -- What `respondFallback` writes.
  unfoldable pub fallback_response : Text → Text → Response A
  fallback_response id reason = record {
    status = 503;
    body =
        scored id
          (record {
            score = one;
            confidence = one;
            explanation = [];
            model = text "fail-closed";
            calibration_version = text "unavailable";
            policy_version = text "fail-closed-v1";
            feature_version = text "rolling-features-v1-32";
            fallback = true;
            fallback_reason = reason;
          })
          deny;
  }

  module _ {B W X : Type 0} (env : Services A B W X) (config : Config A) where
    -- A failed request: both counters and the answer.
    unfoldable pub fail_closed : Text → Text → State W → Response A × State W
    fail_closed id reason s =
        let c = record s.counters { failures = add_word s.counters.failures 1 } in
        (fallback_response id reason, record s { counters = count_fallback reason c })

    -- The handler behind the checks of the request.
    unfoldable pub score_entity : Text → Text → A → State W → Response A × State W
    score_entity id entity amount s =
        let (features, w1) = env.get_features entity s.world in
        let s1 = record s { world = w1 } in
        elim features [
          | err x ↦ fail_closed id feature_unavailable s1
          | ok fs ↦
              let (result, w2) =
                env.submit (record { features = fs; transaction_amount = amount }) s1.world in
              let s2 = record s1 { world = w2 } in
              elim result [
                | err e ↦
                    fail_closed id (if queue_failed e then queue_deadline else worker_unavailable)
                      s2
                | ok r ↦ (
                  record {
                    status = 200;
                    body =
                        scored id r (if float.leb config.deny_score r.score then deny else allow);
                  },
                  s2,
                )
              ]
        ]

    bad_request : Response A
    bad_request = record { status = 400; body = problem (text "invalid request") }

    -- The handler between its counters.
    unfoldable pub answer : HttpRequest B → State W → Response A × State W
    unfolding bad_request
    answer r s = elim (env.decode r.body) [
      | none ↦ (bad_request, s)
      | some (entity, amount) ↦
          if not (valid_entity_id entity) || float.ltb amount float.zero
          then (bad_request, s)
          else score_entity r.id entity amount s
    ]

    unfoldable pub score : HttpRequest B → State W → Response A × State W
    score r s =
        if not (authorized config.auth_token r.authorization)
        then (
          record { status = 401; body = problem (text "unauthorized") },
          record s { counters = record s.counters { denied = add_word s.counters.denied 1 } },
        )
        else let (a, s1) = answer r (record s {
          counters = record s.counters { requests = add_word s.counters.requests 1 };
        }) in
          (a, record s1 { counters = observe_request (env.elapsed s1.world) s1.counters })
