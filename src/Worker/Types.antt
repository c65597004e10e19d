-- ===== src/Worker/Types.antt =====
-- The requests, results and limits of serving_plane/worker/worker.go, over the type of a float64.
use distributed_fraud_detect.Prelude.{ℕ, ℤ, List, Bool}
use distributed_fraud_detect.Text.{Text, text}

pub record Request (A : Type 0) : Type 0 where
  pub features : List A
  pub transaction_amount : A

pub record Explanation (A : Type 0) : Type 0 where
  pub feature_index : ℤ
  pub impact : A

pub record Score (A : Type 0) : Type 0 where
  pub score : A
  pub confidence : A
  pub explanation : List (Explanation A)
  pub model : Text
  pub calibration_version : Text
  pub policy_version : Text
  pub feature_version : Text
  pub fallback : Bool
  pub fallback_reason : Text

abbrev pub max_batch_size : ℕ
max_batch_size = 64

abbrev pub max_feature_width : ℕ
max_feature_width = 256

abbrev pub max_explanations : ℕ
max_explanations = 3

abbrev pub feature_unavailable : Text
feature_unavailable = text "feature_unavailable"

abbrev pub queue_deadline : Text
queue_deadline = text "queue_deadline"

abbrev pub worker_unavailable : Text
worker_unavailable = text "worker_unavailable"
