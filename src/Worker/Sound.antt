-- ===== src/Worker/Sound.antt =====
-- What validateResults of serving_plane/worker/worker.go says of the results that pass it.
use distributed_fraud_detect.Prelude.{
  ℕ, ◌+◌, ◌≤◌, ◌<◌, ◌≡◌, ◌↔◌, ◌⊎◌, refl, true, false, List, [], ◌∷◌, none, inl, inr, arith, length,
  All, All-map, every_iff, ℤ, pos, negsuc,
}
use distributed_fraud_detect.Float.{Float64}
use distributed_fraud_detect.Text.{text_key}
use distributed_fraud_detect.Worker.Types.{Score, Explanation}
use distributed_fraud_detect.Worker.Labels.{
  IsVersion, IsExplained, valid_version-IsVersion, fallback-IsExplained,
}
use distributed_fraud_detect.Worker.Validate.{
  within, valid_explanation, valid_versions, check_result, check_results, validate_results,
}

ℤ-cases : (k : ℤ) → ((n : ℕ) × (k ≡ pos n)) ⊎ ((n : ℕ) × (k ≡ negsuc n))
ℤ-cases (pos n) = inl (n, refl)
ℤ-cases (negsuc n) = inr (n, refl)

module _ {A : Type 0} ⦃float : Float64 A⦄ (one minus_one : A) where
  -- A number from `low` to `high`, none of the special values.
  pub record IsWithin (low high x : A) : Type 0 where
    pub not_below : float.ltb x low ≡ false
    pub not_above : float.ltb high x ≡ false
    pub not_nan : float.is_nan x ≡ false
    pub not_inf : float.is_inf x ≡ false

  -- An explanation of one of 256 features, with an impact from minus one to one.
  pub record IsExplanation (d : Explanation A) : Type 0 where
    pub feature : ℕ
    pub index_ok : d.feature_index ≡ pos feature
    pub index_below : feature < 256
    pub impact_ok : IsWithin minus_one one d.impact

  -- The contract of a result that the worker hop lets through.
  pub record IsSound (r : Score A) : Type 0 where
    pub score_ok : IsWithin float.zero one r.score
    pub confidence_ok : IsWithin float.zero one r.confidence
    pub explanation_few : length r.explanation ≤ 3
    pub explanation_ok : All IsExplanation r.explanation
    pub model_ok : IsVersion r.model
    pub calibration_ok : IsVersion r.calibration_version
    pub policy_ok : IsVersion r.policy_version
    pub feature_ok : IsVersion r.feature_version
    pub fallback_ok : IsExplained r.fallback r.fallback_reason

  pub within-IsWithin :
      (low high x : A) → (within one minus_one low high x ≡ true) ↔ IsWithin low high x
  within-IsWithin low high x = (
    λ h. record {
      not_below = ground (arith, h);
      not_above = ground (arith, h);
      not_nan = ground (arith, h);
      not_inf = ground (arith, h);
    },
    λ h. ground (arith, h.not_below, h.not_above, h.not_nan, h.not_inf),
  )

  index-pos :
      (d : Explanation A)
      → valid_explanation one minus_one d ≡ true
      → (n : ℕ) × (d.feature_index ≡ pos n) × (n < 256)
  unfolding valid_explanation
  index-pos d h = elim (ℤ-cases d.feature_index) [
    | inl (n, e) ↦ (n, e, ground (arith, h, e))
    | inr (n, e) ↦ absurd (ground (arith, h, e))
  ]

  pub valid_explanation-IsExplanation :
      (d : Explanation A) → (valid_explanation one minus_one d ≡ true) ↔ IsExplanation d
  unfolding valid_explanation
  valid_explanation-IsExplanation d = (
    λ h.
        let (n, e, below) = index-pos d h in
        record {
          feature = n;
          index_ok = e;
          index_below = below;
          impact_ok = (within-IsWithin minus_one one d.impact).0 (ground (arith, h));
        },
    λ h.
        let within = (within-IsWithin minus_one one d.impact).1 h.impact_ok in
        ground (arith, h.index_ok, h.index_below, within),
  )

  check_result-IsSound : (i : ℕ) (r : Score A) → (check_result one minus_one i r ≡ none) ↔ IsSound r
  unfolding check_result valid_versions
  check_result-IsSound i r =
      let explained = every_iff (valid_explanation one minus_one) r.explanation in
      let score = within-IsWithin float.zero one r.score in
      let confidence = within-IsWithin float.zero one r.confidence in
      (
        λ h. record {
          score_ok = score.0 (ground (arith, h));
          confidence_ok = confidence.0 (ground (arith, h));
          explanation_few = ground (arith, h);
          explanation_ok =
              All-map (λ d. valid_explanation one minus_one d ≡ true) IsExplanation
                (λ d. (valid_explanation-IsExplanation d).0) r.explanation
                (explained.0 (ground (arith, h)));
          model_ok = (valid_version-IsVersion r.model).0 (ground (arith, h));
          calibration_ok = (valid_version-IsVersion r.calibration_version).0 (ground (arith, h));
          policy_ok = (valid_version-IsVersion r.policy_version).0 (ground (arith, h));
          feature_ok = (valid_version-IsVersion r.feature_version).0 (ground (arith, h));
          fallback_ok = (fallback-IsExplained one minus_one r).0 (ground (arith, h));
        },
        λ h.
            let all = explained.1 (
              All-map IsExplanation (λ d. valid_explanation one minus_one d ≡ true)
                (λ d. (valid_explanation-IsExplanation d).1) r.explanation h.explanation_ok) in
            ground (
              arith,
              score.1 h.score_ok,
              confidence.1 h.confidence_ok,
              h.explanation_few,
              all,
              (valid_version-IsVersion r.model).1 h.model_ok,
              (valid_version-IsVersion r.calibration_version).1 h.calibration_ok,
              (valid_version-IsVersion r.policy_version).1 h.policy_ok,
              (valid_version-IsVersion r.feature_version).1 h.feature_ok,
              (fallback-IsExplained one minus_one r).1 h.fallback_ok,
            ),
      )

  check_results-IsSound :
      (i : ℕ) (rs : List (Score A)) → (check_results one minus_one i rs ≡ none) ↔ All IsSound rs
  unfolding check_results
  check_results-IsSound i [] = (λ _. tt, λ _. refl)
  check_results-IsSound i (r ∷ rs) =
      let here = check_result-IsSound i r in
      let later = check_results-IsSound (i + 1) rs in
      (
        λ h. (here.0 (ground (arith, h)), later.0 (ground (arith, h))),
        λ h. ground (arith, here.1 h.0, later.1 h.1),
      )

  -- Results pass validateResults just if they are as many as expected and each of them has a score
  -- and a confidence from zero to one, at most three explanations of features below 256 with impacts
  -- from minus one to one, four names of 1 to 64 bytes in UTF-8 without control characters, and
  -- either no fallback and no reason or a fallback for one of the three reasons.
  pub validate_results-IsSound :
      (rs : List (Score A)) (expected : ℕ)
      → (validate_results one minus_one rs expected ≡ none)
        ↔ ((length rs ≡ expected) × All IsSound rs)
  unfolding validate_results
  validate_results-IsSound rs expected =
      let all = check_results-IsSound 0 rs in
      (λ h. (ground (arith, h), all.0 (ground (arith, h))), λ h. ground (arith, h.0, all.1 h.1))
