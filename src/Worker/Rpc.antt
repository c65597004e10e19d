-- ===== src/Worker/Rpc.antt =====
-- The worker's RPC of serving_plane/worker/grpc.go: the service's Score and the client's Infer. The
-- engine and the connection are arguments over a world `W`; `X` are their errors.
use distributed_fraud_detect.Prelude.{
  ℕ, ◌≡◌, ap, sym, ◌∙◌, Bool, true, false, not, ◌||◌, List, [], ◌∷◌, ◌++◌, map, Option, none, some,
  arith, eqb, if◌then◌else◌, length, All, every, ◌==◌, Result, ok, err, inl, inr, Bool-cases,
  Option-cases, Result-cases,
}
use distributed_fraud_detect.Float.{Float64}
use distributed_fraud_detect.Text.{Text, text, text_key, is_empty}
use distributed_fraud_detect.Worker.Types.{Request, Score}
use distributed_fraud_detect.Worker.Validate.{Invalid, validate_requests, validate_results}
use distributed_fraud_detect.Worker.Sound.{IsSound, validate_results-IsSound}
use distributed_fraud_detect.Worker.Messages.{
  ScoreMessage, results_to_proto, results_from_proto, results_from_proto-results_to_proto,
}

abbrev pub model_feature_width : ℕ
model_feature_width = 32

pub data RequestError : Type 0 where
  request_required : RequestError
  empty_request : RequestError
  invalid_requests : Invalid → RequestError
  exact_width : RequestError

-- The codes of status.Error.
pub data Status : Type 0 where
  unavailable_status : Status
  unauthenticated : Status
  invalid_argument : RequestError → Status
  canceled : Status
  deadline_exceeded : Status
  internal : Status

pub record Engine (A W X : Type 0) : Type 0 where
  pub infer : List (Request A) → W → Result X (List (Score A)) × W
  -- `errors.Is` with context.Canceled and context.DeadlineExceeded
  pub is_canceled : X → Bool
  pub is_deadline : X → Bool

-- The requests of a message, unless one is missing.
unfoldable pub all_requests : {A : Type 0} → List (Option (Request A)) → Option (List (Request A))
all_requests [] = some []
all_requests (none ∷ more) = none
all_requests (some r ∷ more) = elim (all_requests more) [ none ↦ none | some rs ↦ some (r ∷ rs) ]

-- `requestsToProto`
abbrev pub requests_to_proto : {A : Type 0} → List (Request A) → Option (List (Option (Request A)))
requests_to_proto rs = some (map some rs)

-- The token's check: one value of the metadata, and it is the bearer's.
unfoldable pub admits : Text → List Text → Bool
admits token [] = is_empty token
admits token (v ∷ []) = is_empty token || v == (text "Bearer " ++ token)
admits token (v ∷ u ∷ more) = is_empty token

module _ {A : Type 0} ⦃float : Float64 A⦄ (one minus_one : A) where
  -- `validateRPCRequests`
  unfoldable pub validate_rpc_requests : List (Request A) → Option RequestError
  validate_rpc_requests rs = elim (validate_requests one minus_one rs false) [
    | some e ↦ some (invalid_requests e)
    | none ↦
        if every (λ r. eqb (length r.features) model_feature_width) rs
        then none
        else some exact_width
  ]

  -- `requestsFromProto`
  unfoldable pub requests_from_proto :
      Option (List (Option (Request A))) → Result RequestError (List (Request A))
  requests_from_proto none = err request_required
  requests_from_proto (some items) = elim (all_requests items) [
    | none ↦ err empty_request
    | some rs ↦ elim (validate_rpc_requests rs) [ some e ↦ err e | none ↦ ok rs ]
  ]

  module _ {W X : Type 0} (engine : Engine A W X) where
    -- `contextStatus`
    unfoldable pub context_status : X → Status
    context_status x =
        if engine.is_canceled x
        then canceled
        else if engine.is_deadline x
        then deadline_exceeded
        else internal

    unfoldable pub infer_checked :
        List (Request A) → W → Result Status (List (Option (ScoreMessage A))) × W
    infer_checked rs w =
        let (results, w1) = engine.infer rs w in
        elim results [
          | err x ↦ (err (context_status x), w1)
          | ok scores ↦ elim (validate_results one minus_one scores (length rs)) [
            | some e ↦ (err internal, w1)
            | none ↦ (ok (results_to_proto scores), w1)
          ]
        ]

    -- `Service.Score`
    unfoldable pub serve_score :
        Bool
        → Text
        → List Text
        → Option (List (Option (Request A)))
        → W
        → Result Status (List (Option (ScoreMessage A))) × W
    serve_score has_engine token values message w =
        if not has_engine
        then (err unavailable_status, w)
        else if not (admits token values)
        then (err unauthenticated, w)
        else elim (requests_from_proto message) [
          | err e ↦ (err (invalid_argument e), w)
          | ok rs ↦ infer_checked rs w
        ]

    infer_checked-IsSound :
        (rs : List (Request A)) (w : W) (items : List (Option (ScoreMessage A)))
        → (infer_checked rs w).0 ≡ ok items
        → (scores : List (Score A)) × ((engine.infer rs w).0 ≡ ok scores)
          × (length scores ≡ length rs)
          × All (IsSound one minus_one) scores
          × (results_from_proto one minus_one (some items) ≡ scores)
    unfolding infer_checked
    infer_checked-IsSound rs w items h = elim (Result-cases (engine.infer rs w).0) [
      | inr (x, e) ↦ absurd (ground (arith, h, e))
      | inl (scores, e) ↦ elim (Option-cases (validate_results one minus_one scores (length rs))) [
        | inr (x, f) ↦ absurd (ground (arith, h, e, f))
        | inl f ↦
            let sound = (validate_results-IsSound one minus_one scores (length rs)).0 f in
            let same : results_to_proto scores ≡ items = ground (arith, h, e, f) in
            (
              scores,
              e,
              sound.0,
              sound.1,
              ap (λ m. results_from_proto one minus_one (some m)) (sym same)
                  ∙ results_from_proto-results_to_proto one minus_one scores (length rs) f,
            )
      ]
    ]

    -- The service answers with scores only to a caller that its token admits and requests that pass
    -- the checks, and what the client reads of the answer is what the engine gave: a sound result
    -- for each request.
    pub serve_score-IsSound :
        (token : Text) (values : List Text) (message : Option (List (Option (Request A)))) (w : W)
        (items : List (Option (ScoreMessage A)))
        → (serve_score true token values message w).0 ≡ ok items
        → (admits token values ≡ true)
          × (rs : List (Request A)) × (requests_from_proto message ≡ ok rs)
          × (scores : List (Score A)) × ((engine.infer rs w).0 ≡ ok scores)
          × (length scores ≡ length rs)
          × All (IsSound one minus_one) scores
          × (results_from_proto one minus_one (some items) ≡ scores)
    unfolding serve_score
    serve_score-IsSound token values message w items h = elim (Bool-cases (admits token values)) [
      | inr a ↦ absurd (ground (arith, h, a))
      | inl a ↦ elim (Result-cases (requests_from_proto message)) [
        | inr (x, e) ↦ absurd (ground (arith, h, a, e))
        | inl (rs, e) ↦
            let made : (infer_checked rs w).0 ≡ ok items = ground (arith, h, a, e) in
            let (scores, given, many, sound, back) = infer_checked-IsSound rs w items made in
            (a, rs, e, scores, given, many, sound, back)
      ]
    ]
