-- ===== src/Worker/Scorer.antt =====
-- CPUScorer of serving_plane/worker/worker.go. What it uses of float64's arithmetic beyond
-- Float.antt, and of package math, is an argument.
use distributed_fraud_detect.Prelude.{
  ℕ, suc, Bool, true, false, not, List, [], ◌∷◌, map, Option, none, some, eqb, if◌then◌else◌,
  length, take, replicate, pos, ltb_ℤ, Result, ok, err,
}
use distributed_fraud_detect.Float.{Float64}
use distributed_fraud_detect.Text.{Text, text, is_empty}
use distributed_fraud_detect.Worker.Types.{Request, Score, Explanation, max_explanations}
use distributed_fraud_detect.Worker.Validate.{Invalid, validate_requests}

-- The constants 1, -1, 0.5, 2 and 0.0001, `*`, `/`, unary minus, `==`, math.Abs and math.Exp.
pub record Math (A : Type 0) : Type 0 where
  pub one : A
  pub minus_one : A
  pub half : A
  pub two : A
  pub amount_weight : A
  pub mul : A → A → A
  pub div : A → A → A
  pub neg : A → A
  pub equal : A → A → Bool
  pub abs : A → A
  pub exp : A → A

pub record CpuScorer (A : Type 0) : Type 0 where
  pub weights : List A
  pub bias : A
  pub model_name : Text
  pub calibration_version : Text
  pub policy_version : Text
  pub feature_version : Text

pub data ScorerError (X : Type 0) : Type 0 where
  no_weights : ScorerError X
  invalid_batch : Invalid → ScorerError X
  context_done : X → ScorerError X
  width_mismatch : ScorerError X

-- `DefaultCPUScorer`, for the float64 of 1.2, 0.8 and 1.1.
unfoldable pub default_cpu_scorer :
    {A : Type 0} ⦃float : Float64 A⦄ → Math A → A → A → A → CpuScorer A
default_cpu_scorer ⦃float⦄ math a b c = record {
  weights = a ∷ b ∷ c ∷ replicate 29 float.zero;
  bias = math.minus_one;
  model_name = [];
  calibration_version = [];
  policy_version = [];
  feature_version = [];
}

-- What `name` and the three version methods share.
abbrev pub or_default : Text → Text → Text
or_default value fallback = if is_empty value then fallback else value

module _ {A : Type 0} ⦃float : Float64 A⦄ (math : Math A) where
  unfoldable pub contributions : ℕ → List A → List A → List (Explanation A)
  contributions j [] ws = []
  contributions j (x ∷ xs) [] = []
  contributions j (x ∷ xs) (w ∷ ws) =
      record { feature_index = pos j; impact = math.mul x w } ∷ contributions (suc j) xs ws

  -- `z` behind the loop over the features.
  unfoldable pub dot_from : A → List A → List A → A
  dot_from z [] ws = z
  dot_from z (x ∷ xs) [] = z
  dot_from z (x ∷ xs) (w ∷ ws) = dot_from (float.add z (math.mul x w)) xs ws

  unfoldable pub logit : CpuScorer A → Request A → A
  unfolding dot_from
  logit s r =
      float.add (dot_from s.bias r.features s.weights)
        (math.mul math.amount_weight r.transaction_amount)

  unfoldable pub sigmoid : A → A
  sigmoid z = math.div math.one (float.add math.one (math.exp (math.neg z)))

  unfoldable pub confidence_of : A → A
  confidence_of score = math.mul (math.abs (float.sub score math.half)) math.two

  -- The order of `boundedExplanations`: the larger impact first, the smaller index among equals.
  unfoldable pub before : Explanation A → Explanation A → Bool
  before a b =
      if math.equal (math.abs a.impact) (math.abs b.impact)
      then ltb_ℤ a.feature_index b.feature_index
      else float.ltb (math.abs b.impact) (math.abs a.impact)

  unfoldable pub insert_before : Explanation A → List (Explanation A) → List (Explanation A)
  insert_before x [] = x ∷ []
  insert_before x (y ∷ ys) =
      let rest = insert_before x ys in if before x y then x ∷ y ∷ ys else y ∷ rest

  -- sort.Slice with that order, on explanations of different indices.
  unfoldable pub sort_slice : List (Explanation A) → List (Explanation A)
  unfolding insert_before
  sort_slice [] = []
  sort_slice (x ∷ xs) = insert_before x (sort_slice xs)

  -- math.Max(-1, math.Min(1, x)), with the value that is no number passed on.
  unfoldable pub clip : A → A
  clip x =
      if float.is_nan x
      then x
      else if float.ltb x math.one
      then if float.ltb math.minus_one x then x else math.minus_one
      else math.one

  abbrev pub clipped : Explanation A → Explanation A
  clipped v = record v { impact = clip v.impact }

  -- `boundedExplanations`
  unfoldable pub bounded_explanations : List (Explanation A) → List (Explanation A)
  unfolding sort_slice clip
  bounded_explanations values = map clipped (take max_explanations (sort_slice values))

  unfoldable pub score_request : CpuScorer A → Request A → Score A
  unfolding logit sigmoid confidence_of contributions bounded_explanations
  score_request s r =
      let score = sigmoid (logit s r) in
      record {
        score = score;
        confidence = confidence_of score;
        explanation = bounded_explanations (contributions 0 r.features s.weights);
        model = or_default s.model_name (text "deterministic-cpu-v1");
        calibration_version = or_default s.calibration_version (text "sigmoid-v1");
        policy_version = or_default s.policy_version (text "fraud-threshold-v1");
        feature_version = or_default s.feature_version (text "rolling-features-v1-32");
        fallback = false;
        fallback_reason = [];
      }

  module _ {X : Type 0} (ctx_err : ℕ → Option X) where
    -- The loop over the requests from the i-th on; `ctx_err i` is `ctx.Err()` in front of it.
    unfoldable pub score_all :
        CpuScorer A → ℕ → List (Request A) → Result (ScorerError X) (List (Score A))
    unfolding score_request
    score_all s i [] = ok []
    score_all s i (r ∷ rs) =
        let rest = score_all s (suc i) rs in
        elim (ctx_err i) [
          | some x ↦ err (context_done x)
          | none ↦
              if not (eqb (length r.features) (length s.weights))
              then err width_mismatch
              else elim rest [ err x ↦ err x | ok scores ↦ ok (score_request s r ∷ scores) ]
        ]

    -- `CPUScorer.Infer`
    unfoldable pub infer_cpu :
        CpuScorer A → List (Request A) → Result (ScorerError X) (List (Score A))
    unfolding score_all
    infer_cpu s rs =
        if eqb (length s.weights) 0
        then err no_weights
        else elim (validate_requests math.one math.minus_one rs true) [
          | some e ↦ err (invalid_batch e)
          | none ↦ score_all s 0 rs
        ]

-- `CPUScorer.Healthy`
unfoldable pub healthy_cpu : {A X : Type 0} → CpuScorer A → Option (ScorerError X)
healthy_cpu s = if eqb (length s.weights) 0 then some no_weights else none
