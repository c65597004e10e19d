-- ===== src/Worker/Scored.antt =====
-- What CPUScorer of serving_plane/worker/worker.go gives on requests that pass its checks.
use distributed_fraud_detect.Prelude.{
  ℕ, zero, suc, ◌+◌, ◌≤◌, ◌<◌, ◌≡◌, refl, ap, Bool, true, false, List, [], ◌∷◌, map, Option, none,
  inl, inr, arith, eqb, length, take, pos, ok, All, All-map, length-map, length-take, Bool-cases,
}
use distributed_fraud_detect.Float.{Float64}
use distributed_fraud_detect.Text.{text}
use distributed_fraud_detect.Worker.Types.{
  Request, Score, Explanation, max_explanations, max_feature_width,
}
use distributed_fraud_detect.Worker.Validate.{
  is_finite, within, valid_version, valid_versions, valid_explanation, valid_fallback, IsScorable,
  validate_requests, validate_results, validate_requests-IsScorable,
}
use distributed_fraud_detect.Worker.Labels.{valid_version-IsVersion}
use distributed_fraud_detect.Worker.Sound.{
  IsSound, IsExplanation, within-IsWithin, valid_explanation-IsExplanation,
  validate_results-IsSound,
}
use distributed_fraud_detect.Worker.Ranked.{insert_before-All}
use distributed_fraud_detect.Worker.Scorer.{
  Math, CpuScorer, or_default, contributions, logit, sigmoid, confidence_of, sort_slice, clip,
  clipped, bounded_explanations, score_request, score_all, infer_cpu,
}

module _ {A : Type 0} ⦃float : Float64 A⦄ (math : Math A) where
  abbrev pub finite : A → Bool
  finite = is_finite math.one math.minus_one

  abbrev pub in_range : A → A → A → Bool
  in_range = within math.one math.minus_one

  -- What the scorer relies on in float64's arithmetic: where no operand is a NaN, exp is not negative,
  -- one over a number of at least one lies between zero and one, twice the distance from a half of
  -- such a number does too, and a product of finite numbers is no NaN.
  pub record IsArithmetic : Type 0 where
    pub zero-one : float.leb float.zero math.one ≡ true
    pub minus_one-one : float.ltb math.minus_one math.one ≡ true
    pub one-finite : finite math.one ≡ true
    pub minus_one-finite : finite math.minus_one ≡ true
    pub neg-not_nan : (x : A) → float.is_nan x ≡ false → float.is_nan (math.neg x) ≡ false
    pub exp-positive : (x : A) → float.is_nan x ≡ false → float.leb float.zero (math.exp x) ≡ true
    pub div-within :
        (x : A)
        → float.leb math.one x ≡ true
        → in_range float.zero math.one (math.div math.one x) ≡ true
    pub confidence-within :
        (x : A)
        → in_range float.zero math.one x ≡ true
        → in_range float.zero math.one (math.mul (math.abs (float.sub x math.half)) math.two) ≡ true
    pub mul-not_nan :
        (x y : A) → finite x ≡ true → finite y ≡ true → float.is_nan (math.mul x y) ≡ false
    pub between-finite : (x y z : A) → float.ltb x y ≡ true → float.ltb y z ≡ true → finite y ≡ true

  -- A scorer with weights that are finite, and names that are empty or pass validVersion.
  pub record IsFit (s : CpuScorer A) : Type 0 where
    pub some_weight : eqb (length s.weights) 0 ≡ false
    pub weights_finite : All (λ w. finite w ≡ true) s.weights
    pub model_ok : valid_version (or_default s.model_name (text "deterministic-cpu-v1")) ≡ true
    pub calibration_ok : valid_version (or_default s.calibration_version (text "sigmoid-v1")) ≡ true
    pub policy_ok : valid_version (or_default s.policy_version (text "fraud-threshold-v1")) ≡ true
    pub feature_ok :
        valid_version (or_default s.feature_version (text "rolling-features-v1-32")) ≡ true

  -- An index of the model's and an impact that is a number.
  abbrev IsListed : Explanation A → Type 0
  IsListed v =
      (j : ℕ) × (v.feature_index ≡ pos j)
      × (j < max_feature_width)
      × (float.is_nan v.impact ≡ false)

  module _ (laws : IsArithmetic) where
    sigmoid-within :
        (z : A) → float.is_nan z ≡ false → in_range float.zero math.one (sigmoid math z) ≡ true
    unfolding sigmoid
    sigmoid-within z n = laws.div-within _ (
        float.leb-add_left math.one (math.exp (math.neg z)) laws.zero-one
          (laws.exp-positive (math.neg z) (laws.neg-not_nan z n)))

    not_before : (x y : A) → float.ltb x y ≡ true → float.ltb y x ≡ false
    not_before x y h = float.leb-not_ltb x y (float.ltb-leb x y h)

    not_itself : (x : A) → finite x ≡ true → float.ltb x x ≡ false
    not_itself x h = float.leb-not_ltb x x (float.leb_refl x (ground (arith, h)))

    clip-within :
        (x : A) → float.is_nan x ≡ false → in_range math.minus_one math.one (clip math x) ≡ true
    unfolding clip
    clip-within x n =
        let apart = not_before math.minus_one math.one laws.minus_one-one in
        elim (Bool-cases (float.ltb x math.one)) [
          | inr a ↦
              rw (n, a, clip)
                (ground (arith, apart, not_itself math.one laws.one-finite, laws.one-finite))
          | inl a ↦ elim (Bool-cases (float.ltb math.minus_one x)) [
            | inr b ↦
                rw (n, a, b, clip)
                  (ground (
                    arith,
                    apart,
                    not_itself math.minus_one laws.minus_one-finite,
                    laws.minus_one-finite,
                  ))
            | inl b ↦
                rw (n, a, b, clip)
                  (ground (
                    arith,
                    not_before x math.one a,
                    not_before math.minus_one x b,
                    laws.between-finite math.minus_one x math.one b a,
                  ))
          ]
        ]

    sort_slice-All :
        (P : Explanation A → Type 0) (vs : List (Explanation A))
        → All P vs
        → All P (sort_slice math vs)
    unfolding sort_slice
    sort_slice-All P [] h = tt
    sort_slice-All P (v ∷ vs) h =
        insert_before-All math P v (sort_slice math vs) h.0 (sort_slice-All P vs h.1)

    take-All :
        (P : Explanation A → Type 0) (n : ℕ) (vs : List (Explanation A))
        → All P vs
        → All P (take n vs)
    take-All P zero vs h = tt
    take-All P (suc n) [] h = tt
    take-All P (suc n) (v ∷ vs) h = (h.0, take-All P n vs h.1)

    contributions-IsListed :
        (j : ℕ) (xs ws : List A)
        → j + length xs ≤ max_feature_width
        → All (λ x. finite x ≡ true) xs
        → All (λ w. finite w ≡ true) ws
        → All IsListed (contributions math j xs ws)
    unfolding contributions
    contributions-IsListed j [] ws h fx fw = tt
    contributions-IsListed j (x ∷ xs) [] h fx fw = tt
    contributions-IsListed j (x ∷ xs) (w ∷ ws) h fx fw = (
      (j, refl, omega (arith, h), laws.mul-not_nan x w fx.0 fw.0),
      contributions-IsListed (suc j) xs ws (omega (arith, h)) fx.1 fw.1,
    )

    clipped-valid :
        (v : Explanation A)
        → IsListed v
        → valid_explanation math.one math.minus_one (clipped math v) ≡ true
    unfolding valid_explanation
    clipped-valid v (j, same, below, n) = ground (arith, same, below, clip-within v.impact n)

    All-clipped :
        (vs : List (Explanation A))
        → All IsListed vs
        → All (λ d. valid_explanation math.one math.minus_one d ≡ true) (map (clipped math) vs)
    All-clipped [] h = tt
    All-clipped (v ∷ vs) h = (clipped-valid v h.0, All-clipped vs h.1)

    bounded_explanations-valid :
        (vs : List (Explanation A))
        → All IsListed vs
        → All
            (λ d. valid_explanation math.one math.minus_one d ≡ true)
            (bounded_explanations math vs)
    unfolding bounded_explanations
    bounded_explanations-valid vs h =
        All-clipped (take max_explanations (sort_slice math vs))
          (take-All IsListed max_explanations (sort_slice math vs) (sort_slice-All IsListed vs h))

    length-bounded_explanations :
        (vs : List (Explanation A)) → length (bounded_explanations math vs) ≤ max_explanations
    unfolding bounded_explanations
    length-bounded_explanations vs =
        let cut = length-map (clipped math) (take max_explanations (sort_slice math vs)) in
        ground (arith, cut, length-take max_explanations (sort_slice math vs))

    score_request-IsSound :
        (s : CpuScorer A) (r : Request A)
        → IsFit s
        → IsScorable math.one math.minus_one r
        → float.is_nan (logit math s r) ≡ false
        → IsSound math.one math.minus_one (score_request math s r)
    unfolding score_request confidence_of valid_versions valid_fallback
    score_request-IsSound s r fit r_ok n =
        let within = sigmoid-within (logit math s r) n in
        let listed =
          contributions-IsListed 0 r.features s.weights (omega (arith, r_ok.width_ok))
            r_ok.features_ok fit.weights_finite in
        let made = contributions math 0 r.features s.weights in
        let probability = within-IsWithin math.one math.minus_one float.zero math.one in
        record {
          score_ok = (probability (sigmoid math (logit math s r))).0 within;
          confidence_ok =
              (probability (confidence_of math (sigmoid math (logit math s r)))).0
                (laws.confidence-within (sigmoid math (logit math s r)) within);
          explanation_few = length-bounded_explanations made;
          explanation_ok =
              All-map (λ d. valid_explanation math.one math.minus_one d ≡ true)
                (IsExplanation math.one math.minus_one)
                (λ d. (valid_explanation-IsExplanation math.one math.minus_one d).0)
                (bounded_explanations math made) (bounded_explanations-valid made listed);
          model_ok = (valid_version-IsVersion (score_request math s r).model).0 fit.model_ok;
          calibration_ok =
              (valid_version-IsVersion (score_request math s r).calibration_version).0
                fit.calibration_ok;
          policy_ok =
              (valid_version-IsVersion (score_request math s r).policy_version).0 fit.policy_ok;
          feature_ok =
              (valid_version-IsVersion (score_request math s r).feature_version).0 fit.feature_ok;
          fallback_ok = inl (refl, refl);
        }

    module _ {X : Type 0} (ctx_err : ℕ → Option X) (s : CpuScorer A) (fit : IsFit s) where
      -- The requests have the scorer's width, the context stays alive, and no sum is a NaN.
      abbrev pub IsAnswerable : Request A → Type 0
      IsAnswerable r =
          (length r.features ≡ length s.weights) × (float.is_nan (logit math s r) ≡ false)

      scored :
          (i : ℕ) (rs : List (Request A))
          → ((k : ℕ) → ctx_err k ≡ none)
          → All (IsScorable math.one math.minus_one) rs
          → All IsAnswerable rs
          → (scores : List (Score A)) × (score_all math ctx_err s i rs ≡ ok scores)
            × (length scores ≡ length rs)
            × All (IsSound math.one math.minus_one) scores
      unfolding score_all
      scored i [] alive h a = ([], refl, refl, tt)
      scored i (r ∷ rs) alive h a =
          let (scores, e, same, sound) = scored (suc i) rs alive h.1 a.1 in
          let width : eqb (length r.features) (length s.weights) ≡ true = ground (arith, a.0.0) in
          (
            score_request math s r ∷ scores,
            rw (alive i, width, e, score_all) refl,
            ap suc same,
            (score_request-IsSound s r fit h.0 a.0.1, sound),
          )

      -- On requests that pass validateRequests, of the scorer's width, whose sums are no NaN, and with
      -- a context that stays alive, a fit scorer gives results, and they pass validateResults.
      pub infer_cpu-valid :
          (rs : List (Request A))
          → ((k : ℕ) → ctx_err k ≡ none)
          → validate_requests math.one math.minus_one rs true ≡ none
          → All IsAnswerable rs
          → (scores : List (Score A)) × (infer_cpu math ctx_err s rs ≡ ok scores)
            × (validate_results math.one math.minus_one scores (length rs) ≡ none)
      unfolding infer_cpu
      infer_cpu-valid rs alive v a =
          let (few, some_request, h) =
            (validate_requests-IsScorable math.one math.minus_one rs true).0 v in
          let (scores, e, same, sound) = scored 0 rs alive h a in
          (
            scores,
            rw (fit.some_weight, v, e, infer_cpu) refl,
            (validate_results-IsSound math.one math.minus_one scores (length rs)).1 (same, sound),
          )
