-- ===== src/Gateway/Operations.antt =====
-- The operational endpoints of serving_plane/gateway/gateway.go: /healthz, /readyz and /metrics.
use distributed_fraud_detect.Prelude.{ℕ, ◌+◌, ◌≡◌, refl, List, [], ◌∷◌, ◌++◌, Option, none, some}
use distributed_fraud_detect.Text.{Text, text}
use distributed_fraud_detect.Text.Digits.{format_uint}
use distributed_fraud_detect.Scheduler.Metrics.{Metrics}
use distributed_fraud_detect.Worker.Types.{feature_unavailable, queue_deadline, worker_unavailable}
use distributed_fraud_detect.Gateway.Handler.{Counters}

-- A status, and the text behind "status" in the JSON object.
abbrev pub StatusBody : Type 0
StatusBody = ℕ × Text

-- `health`
abbrev pub health : StatusBody
health = (200, text "ok")

-- The engine's part of `ready`.
unfoldable pub ready_engine : {W X : Type 0} → (W → Option X × W) → W → StatusBody × W
ready_engine healthy w =
    let (r, w1) = healthy w in
    (elim r [ some x ↦ (503, text "not ready") | none ↦ (200, text "ready") ], w1)

-- `ready`; the feature store has a probe or has none.
unfoldable pub ready :
    {W X : Type 0} → Option (W → Option X × W) → (W → Option X × W) → W → StatusBody × W
unfolding ready_engine
ready none healthy w = ready_engine healthy w
ready (some probe) healthy w =
    let (r, w1) = probe w in
    elim r [
      | some x ↦ ((503, text "feature store unavailable"), w1)
      | none ↦ ready_engine healthy w1
    ]

abbrev quote : Text
quote = 0x22 ∷ []

-- A line of a counter, and one of a counter with a label.
abbrev pub line : Text → Text → Text
line name value = name ++ (text " " ++ (value ++ text "\n"))

abbrev pub labelled : Text → Text → Text → Text → Text
labelled name label of value =
    line (name ++ (text "{" ++ (label ++ (text "=" ++ (quote ++ (of ++ (quote ++ text "}")))))))
      value

-- The lines of a histogram's buckets, in step with their labels.
abbrev pub bucket_lines : Text → List Text → List ℕ → Text
bucket_lines name [] counts = []
bucket_lines name (label ∷ labels) [] = []
bucket_lines name (label ∷ labels) (n ∷ counts) =
    labelled (name ++ text "_bucket") (text "le") label (format_uint n)
    ++ bucket_lines name labels counts

abbrev fallback_line : Text → ℕ → Text
fallback_line reason n =
    labelled (text "fraud_gateway_fallback_total") (text "reason") reason (format_uint n)

-- The request's part of `metrics`; `seconds` prints a number of nanoseconds as seconds with %g.
unfoldable pub request_metrics : (ℕ → Text) → Counters → Text
request_metrics seconds c =
    line (text "fraud_gateway_requests_total") (format_uint c.requests)
    ++ (line (text "fraud_gateway_auth_denied_total") (format_uint c.denied)
        ++ (fallback_line feature_unavailable c.feature_fallbacks
            ++ (fallback_line queue_deadline c.queue_fallbacks
                ++ (fallback_line worker_unavailable c.worker_fallbacks
                    ++ (line (text "fraud_gateway_fail_closed_total") (format_uint c.failures)
                        ++ (bucket_lines (text "fraud_gateway_request_duration_seconds")
                              (text "0.0001"
                                ∷ text "0.0005"
                                ∷ text "0.001"
                                ∷ text "0.005"
                                ∷ text "0.01"
                                ∷ text "0.04"
                                ∷ text "+Inf"
                                ∷ [])
                              c.request_buckets
                            ++ (line (text "fraud_gateway_request_duration_seconds_sum")
                                  (seconds c.request_nanos)
                                ++ line (text "fraud_gateway_request_duration_seconds_count")
                                    (format_uint c.requests))))))))

-- The scheduler's part of `metrics`.
unfoldable pub scheduler_metrics : (ℕ → Text) → Metrics → Text
scheduler_metrics seconds m =
    bucket_lines (text "fraud_scheduler_queue_duration_seconds")
      (text "0.0001" ∷ text "0.0005" ∷ text "0.001" ∷ text "0.002" ∷ text "+Inf" ∷ [])
      m.queue.buckets
    ++ (line (text "fraud_scheduler_queue_duration_seconds_sum") (seconds m.queue.total)
        ++ (line (text "fraud_scheduler_queue_duration_seconds_count")
              (format_uint m.queue.total_count)
            ++ (bucket_lines (text "fraud_scheduler_batch_size")
                  (text "1" ∷ text "4" ∷ text "8" ∷ text "16" ∷ text "32" ∷ text "+Inf" ∷ [])
                  m.batch.buckets
                ++ (line (text "fraud_scheduler_batch_size_sum") (format_uint m.batch.total)
                    ++ line (text "fraud_scheduler_batch_size_count")
                        (format_uint m.batch.total_count)))))

-- `metrics`
unfoldable pub metrics_text : (ℕ → Text) → Counters → Metrics → Text
unfolding request_metrics scheduler_metrics
metrics_text seconds c m = request_metrics seconds c ++ scheduler_metrics seconds m

bucket_line :
    bucket_lines (text "b") (text "+Inf" ∷ []) (120 ∷ []) ≡ text "b_bucket{le=\"+Inf\"} 120\n"
unfolding format_uint
bucket_line = refl

not_ready :
    ready {W = ℕ} {X = ℕ} (some (λ w. (none, w + 1))) (λ w. (some 7, w + 1)) 0
    ≡ ((503, text "not ready"), 2)
unfolding ready
not_ready = refl
