-- ===== src/Worker/Messages.antt =====
-- Requests and results as messages, of serving_plane/worker/grpc.go. A nil pointer is none, a uint32
-- wraps around.
use distributed_fraud_detect.Prelude.{
  All-map, ℕ, ◌+◌, ◌-◌, ◌%◌, ◌^◌, ◌≤◌, ◌≡◌, refl, ap, ◌∙◌, Bool, true, false, List, [], ◌∷◌, map,
  Option, none, some, arith, ltb, length, All, ℤ, pos, negsuc, leb_ℤ, ltb_ℤ,
}
use distributed_fraud_detect.Float.{Float64}
use distributed_fraud_detect.Text.{Text}
use distributed_fraud_detect.Worker.Types.{Score, Explanation, max_explanations, max_feature_width}
use distributed_fraud_detect.Worker.Validate.{valid_explanation, validate_results}
use distributed_fraud_detect.Worker.Sound.{
  IsSound, IsExplanation, valid_explanation-IsExplanation, validate_results-IsSound,
}

pub record ExplanationMessage (A : Type 0) : Type 0 where
  pub feature_index : ℕ
  pub impact : A

pub record ScoreMessage (A : Type 0) : Type 0 where
  pub score : A
  pub confidence : A
  pub explanation : List (Option (ExplanationMessage A))
  pub model : Text
  pub calibration_version : Text
  pub policy_version : Text
  pub feature_version : Text
  pub fallback : Bool
  pub fallback_reason : Text

-- `uint32(n)`
unfoldable pub to_uint32 : ℤ → ℕ
to_uint32 (pos n) = n % 2 ^ 32
to_uint32 (negsuc n) = 2 ^ 32 - 1 - n % 2 ^ 32

uint32_back :
    (n : ℤ)
    → leb_ℤ (pos 0) n ≡ true
    → ltb_ℤ n (pos max_feature_width) ≡ true
    → pos (to_uint32 n) ≡ n
unfolding to_uint32
uint32_back (pos n) h l = ap pos (ground (arith, l))
uint32_back (negsuc n) h l = absurd (ground (arith, h))

module _ {A : Type 0} where
  abbrev pub explanation_to_proto : Explanation A → Option (ExplanationMessage A)
  explanation_to_proto d =
      some (record { feature_index = to_uint32 d.feature_index; impact = d.impact })

  unfoldable pub result_to_proto : Score A → Option (ScoreMessage A)
  result_to_proto r = some (record {
    score = r.score;
    confidence = r.confidence;
    explanation = map explanation_to_proto r.explanation;
    model = r.model;
    calibration_version = r.calibration_version;
    policy_version = r.policy_version;
    feature_version = r.feature_version;
    fallback = r.fallback;
    fallback_reason = r.fallback_reason;
  })

  unfoldable pub results_to_proto : List (Score A) → List (Option (ScoreMessage A))
  results_to_proto rs = map result_to_proto rs

  -- The loop over a message's explanations, with the number that is taken already.
  unfoldable pub explanations_from : ℕ → List (Option (ExplanationMessage A)) → List (Explanation A)
  explanations_from taken [] = []
  explanations_from taken (none ∷ more) = explanations_from taken more
  explanations_from taken (some d ∷ more) = elim (ltb taken max_explanations) [
    | true ↦
        record { feature_index = pos d.feature_index; impact = d.impact }
        ∷ explanations_from (taken + 1) more
    | false ↦ explanations_from taken more
  ]

module _ {A : Type 0} ⦃float : Float64 A⦄ (one minus_one : A) where
  -- The zero Result, which an empty message leaves.
  abbrev pub no_result : Score A
  no_result = record {
    score = float.zero;
    confidence = float.zero;
    explanation = [];
    model = [];
    calibration_version = [];
    policy_version = [];
    feature_version = [];
    fallback = false;
    fallback_reason = [];
  }

  unfoldable pub result_from_proto : Option (ScoreMessage A) → Score A
  result_from_proto none = no_result
  result_from_proto (some m) = record {
    score = m.score;
    confidence = m.confidence;
    explanation = explanations_from 0 m.explanation;
    model = m.model;
    calibration_version = m.calibration_version;
    policy_version = m.policy_version;
    feature_version = m.feature_version;
    fallback = m.fallback;
    fallback_reason = m.fallback_reason;
  }

  -- `resultsFromProto`; a missing response has no results.
  unfoldable pub results_from_proto : Option (List (Option (ScoreMessage A))) → List (Score A)
  results_from_proto none = []
  results_from_proto (some items) = map result_from_proto items

  index_back :
      (d : Explanation A)
      → valid_explanation one minus_one d ≡ true
      → record { feature_index = pos (to_uint32 d.feature_index); impact = d.impact } ≡ d
  unfolding valid_explanation to_uint32
  index_back d h =
      ap (λ k. record { feature_index = k; impact = d.impact })
        (uint32_back d.feature_index (ground (arith, h)) (ground (arith, h)))

  explanations-back :
      (taken : ℕ) (ds : List (Explanation A))
      → taken + length ds ≤ max_explanations
      → All (λ d. valid_explanation one minus_one d ≡ true) ds
      → explanations_from taken (map explanation_to_proto ds) ≡ ds
  unfolding explanations_from
  explanations-back taken [] l h = refl
  explanations-back taken (d ∷ ds) l h =
      let here : ltb taken max_explanations ≡ true = ground (arith, l) in
      rw (here, explanations_from)
        (ap (λ x. x ∷ explanations_from (taken + 1) (map explanation_to_proto ds))
            (index_back d h.0)
          ∙ ap (◌∷◌ d) (explanations-back (taken + 1) ds (omega (arith, l)) h.1))

  result_from_proto-result_to_proto :
      (r : Score A) → IsSound one minus_one r → result_from_proto (result_to_proto r) ≡ r
  unfolding result_from_proto result_to_proto
  result_from_proto-result_to_proto r h =
      ap (λ es. record r { explanation = es })
        (explanations-back 0 r.explanation (omega (arith, h.explanation_few)) (
          All-map (IsExplanation one minus_one) (λ d. valid_explanation one minus_one d ≡ true)
            (λ d. (valid_explanation-IsExplanation one minus_one d).1) r.explanation
            h.explanation_ok))

  messages_back :
      (rs : List (Score A))
      → All (IsSound one minus_one) rs
      → map result_from_proto (map result_to_proto rs) ≡ rs
  messages_back [] h = refl
  messages_back (r ∷ rs) h =
      ap (λ x. x ∷ map result_from_proto (map result_to_proto rs))
        (result_from_proto-result_to_proto r h.0)
      ∙ ap (◌∷◌ r) (messages_back rs h.1)

  -- Results that pass the worker's validation arrive at the client as they are.
  pub results_from_proto-results_to_proto :
      (rs : List (Score A)) (expected : ℕ)
      → validate_results one minus_one rs expected ≡ none
      → results_from_proto (some (results_to_proto rs)) ≡ rs
  unfolding results_from_proto results_to_proto
  results_from_proto-results_to_proto rs expected h =
      messages_back rs ((validate_results-IsSound one minus_one rs expected).0 h).1
