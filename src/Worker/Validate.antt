-- ===== src/Worker/Validate.antt =====
-- What serving_plane/worker/worker.go accepts as requests and as results.
use distributed_fraud_detect.Prelude.{
  ℕ, ◌+◌, ◌≤◌, ◌≡◌, ◌↔◌, refl, Bool, true, false, not, ◌&&◌, ◌||◌, List, [], ◌∷◌, Option, none,
  some, inl, inr, arith, ltb, leb, eqb, if◌then◌else◌, length, All, every, every_iff, ◌==◌, pos,
  leb_ℤ, ltb_ℤ, Bool-cases,
}
use distributed_fraud_detect.Float.{Float64}
use distributed_fraud_detect.Text.{Text, text_key, is_empty, is_printable}
use distributed_fraud_detect.Worker.Types.{
  Request, Score, Explanation, max_batch_size, max_feature_width, max_explanations,
  feature_unavailable, queue_deadline, worker_unavailable,
}

-- What is wrong, and with which element.
pub data Invalid : Type 0 where
  batch_size : Invalid
  feature_width : ℕ → Invalid
  transaction_amount : ℕ → Invalid
  non_finite_feature : ℕ → Invalid
  result_count : Invalid
  bad_score : ℕ → Invalid
  bad_confidence : ℕ → Invalid
  too_many_explanations : ℕ → Invalid
  bad_explanation : ℕ → Invalid
  bad_version : ℕ → Invalid
  bad_fallback_reason : ℕ → Invalid

unfoldable pub valid_version : Text → Bool
valid_version value = not (is_empty value) && leb (length value) 64 && is_printable value

abbrev pub valid_fallback_reason : Text → Bool
valid_fallback_reason value =
    is_empty value
    || value == feature_unavailable
    || value == queue_deadline
    || value == worker_unavailable

-- `a != b` on Booleans.
abbrev differ : Bool → Bool → Bool
differ a b = if a then not b else b

module _ {A : Type 0} ⦃float : Float64 A⦄ (one minus_one : A) where
  abbrev pub is_finite : A → Bool
  is_finite x = not (float.is_nan x) && not (float.is_inf x)

  -- The checks of one request, and of one result, in order; none if it passes them all.
  unfoldable pub check_request : ℕ → Request A → Option Invalid
  check_request i r =
      if eqb (length r.features) 0 || ltb max_feature_width (length r.features)
      then some (feature_width i)
      else if float.ltb r.transaction_amount float.zero || not (is_finite r.transaction_amount)
      then some (transaction_amount i)
      else if not (every is_finite r.features)
      then some (non_finite_feature i)
      else none

  unfoldable pub check_requests : ℕ → List (Request A) → Option Invalid
  check_requests i [] = none
  check_requests i (r ∷ rs) = elim (check_request i r) [
    | some e ↦ some e
    | none ↦ check_requests (i + 1) rs
  ]

  -- `validateRequests`
  unfoldable pub validate_requests : List (Request A) → Bool → Option Invalid
  validate_requests requests allow_empty =
      if not allow_empty && eqb (length requests) 0 || ltb max_batch_size (length requests)
      then some batch_size
      else check_requests 0 requests

  -- From low to high and no special value.
  abbrev pub within : A → A → A → Bool
  within low high x = not (float.ltb x low) && not (float.ltb high x) && is_finite x

  unfoldable pub valid_explanation : Explanation A → Bool
  valid_explanation d =
      leb_ℤ (pos 0) d.feature_index
      && ltb_ℤ d.feature_index (pos max_feature_width)
      && within minus_one one d.impact

  unfoldable pub valid_versions : Score A → Bool
  valid_versions r =
      valid_version r.model
      && valid_version r.calibration_version
      && valid_version r.policy_version
      && valid_version r.feature_version

  unfoldable pub valid_fallback : Score A → Bool
  valid_fallback r =
      not (differ r.fallback (not (is_empty r.fallback_reason)))
      && valid_fallback_reason r.fallback_reason

  unfoldable pub check_result : ℕ → Score A → Option Invalid
  check_result i r =
      if not (within float.zero one r.score)
      then some (bad_score i)
      else if not (within float.zero one r.confidence)
      then some (bad_confidence i)
      else if ltb max_explanations (length r.explanation)
      then some (too_many_explanations i)
      else if not (every valid_explanation r.explanation)
      then some (bad_explanation i)
      else if not (valid_versions r)
      then some (bad_version i)
      else if not (valid_fallback r)
      then some (bad_fallback_reason i)
      else none

  unfoldable pub check_results : ℕ → List (Score A) → Option Invalid
  check_results i [] = none
  check_results i (r ∷ rs) = elim (check_result i r) [
    | some e ↦ some e
    | none ↦ check_results (i + 1) rs
  ]

  -- `validateResults`
  unfoldable pub validate_results : List (Score A) → ℕ → Option Invalid
  validate_results results expected =
      if eqb (length results) expected then check_results 0 results else some result_count

  -- What the worker hop asks of a request.
  pub record IsScorable (r : Request A) : Type 0 where
    pub width_ok : (1 ≤ length r.features) × (length r.features ≤ max_feature_width)
    pub amount_ok :
        (float.ltb r.transaction_amount float.zero ≡ false)
        × (is_finite r.transaction_amount ≡ true)
    pub features_ok : All (λ x. is_finite x ≡ true) r.features

  check_request-IsScorable : (i : ℕ) (r : Request A) → (check_request i r ≡ none) ↔ IsScorable r
  unfolding check_request
  check_request-IsScorable i r = (
    λ h. record {
      width_ok = (ground (arith, h), ground (arith, h));
      amount_ok = (ground (arith, h), ground (arith, h));
      features_ok = (every_iff is_finite r.features).0 (ground (arith, h));
    },
    λ h. ground (arith, h.width_ok, h.amount_ok, (every_iff is_finite r.features).1 h.features_ok),
  )

  check_requests-IsScorable :
      (i : ℕ) (rs : List (Request A)) → (check_requests i rs ≡ none) ↔ All IsScorable rs
  unfolding check_requests
  check_requests-IsScorable i [] = (λ _. tt, λ _. refl)
  check_requests-IsScorable i (r ∷ rs) =
      let here = check_request-IsScorable i r in
      let later = check_requests-IsScorable (i + 1) rs in
      (
        λ h. (here.0 (ground (arith, h)), later.0 (ground (arith, h))),
        λ h. ground (arith, here.1 h.0, later.1 h.1),
      )

  -- A batch passes validateRequests just if it has at most 64 requests, at least one unless empty
  -- batches are allowed, and each of them is scorable.
  pub validate_requests-IsScorable :
      (rs : List (Request A)) (allow_empty : Bool)
      → (validate_requests rs allow_empty ≡ none)
        ↔ ((length rs ≤ max_batch_size) × (allow_empty ≡ false → 1 ≤ length rs) × All IsScorable rs)
  unfolding validate_requests
  validate_requests-IsScorable rs allow_empty =
      let all = check_requests-IsScorable 0 rs in
      (
        λ h. (ground (arith, h), λ e. ground (arith, h, e), all.0 (ground (arith, h))),
        λ h. elim (Bool-cases allow_empty) [
          | inl t ↦ ground (arith, h.0, t, all.1 h.2)
          | inr f ↦ ground (arith, h.0, f, h.1 f, all.1 h.2)
        ],
      )
