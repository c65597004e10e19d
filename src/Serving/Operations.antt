-- ===== src/Serving/Operations.antt =====
-- The operational endpoints of serving_plane/cmd/worker/main.go, and how the gateway's process ends.
use distributed_fraud_detect.Prelude.{ℕ, [], ◌∷◌, ◌++◌, Option, none, some}
use distributed_fraud_detect.Text.{Text, text}
use distributed_fraud_detect.Text.Digits.{format_uint}
use distributed_fraud_detect.Gateway.Operations.{line, bucket_lines}
use distributed_fraud_detect.Serving.Worker.{Measured}

-- The status of GET /readyz, for the engine's `Healthy`.
unfoldable pub worker_ready : {W X : Type 0} → (W → Option X × W) → W → ℕ × W
worker_ready healthy w = let (r, w1) = healthy w in (elim r [ some x ↦ 503 | none ↦ 200 ], w1)

-- The body of GET /metrics; `seconds` prints a number of nanoseconds as seconds with %g.
unfoldable pub worker_metrics : (ℕ → Text) → Measured → Text
worker_metrics seconds m =
    line (text "fraud_worker_requests_total") (format_uint m.items)
    ++ (line (text "fraud_worker_errors_total") (format_uint m.failures)
        ++ (line (text "fraud_worker_batches_total") (format_uint m.batches)
            ++ (bucket_lines (text "fraud_worker_batch_duration_seconds")
                  (text "0.0001"
                    ∷ text "0.0005"
                    ∷ text "0.001"
                    ∷ text "0.005"
                    ∷ text "0.01"
                    ∷ text "0.02"
                    ∷ text "+Inf"
                    ∷ [])
                  m.duration_buckets
                ++ (line (text "fraud_worker_batch_duration_seconds_sum") (seconds m.duration_nanos)
                    ++ line (text "fraud_worker_batch_duration_seconds_count")
                        (format_uint m.batches)))))

-- The select of the gateway's `main`: the signal, or the HTTP server's error.
pub data GatewayEnd (X : Type 0) : Type 0 where
  signalled : GatewayEnd X
  http_failed : X → GatewayEnd X

-- The status that the gateway exits with.
unfoldable pub gateway_status : {X : Type 0} → GatewayEnd X → ℕ
gateway_status signalled = 0
gateway_status (http_failed x) = 1
