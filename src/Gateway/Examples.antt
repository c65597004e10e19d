-- ===== src/Gateway/Examples.antt =====
-- A gateway over a store of one feature and a scheduler that gives a score, and its theorems there.
use distributed_fraud_detect.Prelude.{
  ℕ, pos, none, ◌≡◌, ◌↔◌, refl, inl, inr, true, false, [], ◌∷◌, some, if◌then◌else◌, ok, err, eqb,
}
use distributed_fraud_detect.Float.Whole.{Whole, fin, whole, whole_ltb, whole_leb}
use distributed_fraud_detect.Text.Digits.{format_uint, format_int}
use distributed_fraud_detect.Text.{Text, text, is_trimmed_printable}
use distributed_fraud_detect.Scheduler.State.{queue_delay}
use distributed_fraud_detect.Scheduler.Metrics.{add_buckets}
use distributed_fraud_detect.Worker.Types.{Score}
use distributed_fraud_detect.Gateway.Request.{valid_request_id, authorized, valid_entity_id, behind}
use distributed_fraud_detect.Gateway.Handler.{
  Config, HttpRequest, Services, State, score, answer, score_entity, fail_closed, fallback_response,
  count_fallback, observe_request,
}
use distributed_fraud_detect.Gateway.Identity.{identify, new_request_id, identify-valid}
use distributed_fraud_detect.Gateway.Counters.{Agree, score-Agree}
use distributed_fraud_detect.Gateway.FailClosed.{Allowed, allowed, score-Allowed}
use distributed_fraud_detect.Gateway.Denial.{Denies, FailsFor, score-Denies}

abbrev low : Score Whole
low = record {
  score = fin 0;
  confidence = fin 1;
  explanation = [];
  model = text "m";
  calibration_version = text "c";
  policy_version = text "p";
  feature_version = text "f";
  fallback = false;
  fallback_reason = [];
}

-- The body is the entity; the store knows all but "gone", and the queue is slow for "slow".
abbrev services : Services Whole Text ℕ ℕ
services = record {
  decode = λ body. some (body, fin 5);
  get_features = λ entity w. (if eqb w 1 then err 7 else ok (fin 3 ∷ []), w);
  submit = λ request w. (if eqb w 2 then err queue_delay else ok low, w);
  elapsed = λ w. 600_000;
}

abbrev config : Config Whole
config = record {
  auth_token = text "key";
  timeout = 40_000_000;
  feature_timeout = 10_000_000;
  queue_delay_limit = 2_000_000;
  inference_timeout = 20_000_000;
  deny_score = fin 1;
}

abbrev request : HttpRequest Text
request = record { authorization = text "Bearer key"; id = text "r1"; body = text "acct" }

abbrev fresh : ℕ → State ℕ
fresh w = record {
  counters = record {
    requests = 0;
    denied = 0;
    failures = 0;
    feature_fallbacks = 0;
    queue_fallbacks = 0;
    worker_fallbacks = 0;
    request_nanos = 0;
    request_buckets = 0 ∷ 0 ∷ 0 ∷ 0 ∷ 0 ∷ 0 ∷ 0 ∷ [];
  };
  world = w;
}

program : Unit {0}
unfolding score answer score_entity fail_closed fallback_response count_fallback observe_request
    authorized valid_entity_id behind is_trimmed_printable whole_ltb whole_leb add_buckets Agree
program = tt

answers_low : allowed (score (fin 1) services config request (fresh 0)).0.body ≡ some low
unfolding program
answers_low = refl

score-Allowed_example : Allowed (fin 1) services config request (fresh 0) low
score-Allowed_example = score-Allowed (fin 1) services config request (fresh 0) low answers_low

fresh-Agree : Agree 0 (fresh 1).counters
unfolding program
fresh-Agree = (refl, refl, refl)

score-Agree_example : Agree 0 (score (fin 1) services config request (fresh 1)).1.counters
score-Agree_example = score-Agree (fin 1) services config request (fresh 1) fresh-Agree

score-Denies_example :
    (((score (fin 1) services config request (fresh 2)).0.status ≡ 503)
      ↔ ((t : Text) × FailsFor (fin 1) services config request (fresh 2) t))
    × (FailsFor (fin 1) services config request (fresh 2) (text "queue_deadline")
        ↔ Denies
            (fin 1)
            (text "r1")
            (text "queue_deadline")
            (score (fin 1) services config request (fresh 2)).0)
score-Denies_example =
    score-Denies (fin 1) services config request (fresh 2) (text "queue_deadline")

is_slow : FailsFor (fin 1) services config request (fresh 2) (text "queue_deadline")
unfolding program
is_slow = (
  refl,
  text "acct",
  fin 5,
  refl,
  refl,
  refl,
  inr (fin 3 ∷ [], refl, queue_delay, refl, inl (inl refl, refl)),
)

denied_slow :
    Denies
      (fin 1)
      (text "r1")
      (text "queue_deadline")
      (score (fin 1) services config request (fresh 2)).0
denied_slow =
    (score-Denies (fin 1) services config request (fresh 2) (text "queue_deadline")).1.0 is_slow

identify-valid_example :
    (valid_request_id (identify (text "a b") none (pos 1_700_000) 4).0 ≡ true)
    × (valid_request_id (text "a b") ≡ true
        → identify (text "a b") none (pos 1_700_000) 4 ≡ (text "a b", 4))
identify-valid_example = identify-valid (text "a b") none (pos 1_700_000) 4 tt

identified : identify (text "a b") none (pos 1_700_000) 4 ≡ (text "1700000-5", 5)
unfolding identify new_request_id valid_request_id format_int format_uint
identified = refl
