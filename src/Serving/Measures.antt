-- ===== src/Serving/Measures.antt =====
-- What the counters of serving_plane/cmd/worker/main.go show after any sequence of calls.
use distributed_fraud_detect.Prelude.{
  ℕ, ◌+◌, ◌<◌, ◌≡◌, sym, ◌∙◌, Bool, true, false, List, [], ◌∷◌, arith, if◌then◌else◌, length, map,
  All, Result, ok, err,
}
use distributed_fraud_detect.Scheduler.Metrics.{
  word, add_word, add_counts, sum, add_buckets-All, add_counts-nothing, add_counts-add_buckets,
}
use distributed_fraud_detect.Serving.Worker.{
  Measured, worker_duration_bounds, observe_duration, infer_measured,
}

-- One call: how many requests it had, how long it took and whether it failed.
pub record Call : Type 0 where
  pub size : ℕ
  pub duration : ℕ
  pub has_failed : Bool

abbrev pub failures_of : List Call → ℕ
failures_of [] = 0
failures_of (c ∷ cs) = (if c.has_failed then 1 else 0) + failures_of cs

-- The counters behind a list of calls: each is the counter in front of them plus, modulo 2^64, the
-- number of calls, of requests and of failures, and the time in all; a bucket counts the calls that
-- took at most its bound, the last one all of them.
pub record Counts (m : Measured) (calls : List Call) (n : Measured) : Type 0 where
  pub batches : n.batches ≡ add_word m.batches (length calls)
  pub items : n.items ≡ add_word m.items (sum (map (λ c. c.size) calls))
  pub failures : n.failures ≡ add_word m.failures (failures_of calls)
  pub nanos : n.duration_nanos ≡ add_word m.duration_nanos (sum (map (λ c. c.duration) calls))
  pub buckets :
      n.duration_buckets
      ≡ add_counts worker_duration_bounds (map (λ c. c.duration) calls) m.duration_buckets

-- Counters are words.
pub record AreWords (m : Measured) : Type 0 where
  pub batches : m.batches < word
  pub items : m.items < word
  pub failures : m.failures < word
  pub nanos : m.duration_nanos < word
  pub buckets : All (λ b. b < word) m.duration_buckets

module _ {Q R W X : Type 0} (infer : List Q → W → Result X R × W) (elapsed : W → W → ℕ) where
  abbrev call_of : List Q → W → Call
  call_of batch w = record {
    size = length batch;
    duration = elapsed w (infer batch w).1;
    has_failed = elim (infer batch w).0 [ ok v ↦ false | err x ↦ true ];
  }

  -- What the engine's calls are like on a sequence of batches, and what is measured of them.
  unfoldable pub calls_of : List (List Q) → W → List Call
  calls_of [] w = []
  calls_of (batch ∷ batches) w = call_of batch w ∷ calls_of batches (infer batch w).1

  unfoldable pub run_measured : List (List Q) → Measured → W → Measured
  run_measured [] m w = m
  run_measured (batch ∷ batches) m w =
      run_measured batches (infer_measured infer elapsed batch (m, w)).1 (infer batch w).1

  infer_measured-words :
      (batch : List Q) (m : Measured) (w : W)
      → AreWords m
      → AreWords (infer_measured infer elapsed batch (m, w)).1
  unfolding infer_measured observe_duration
  infer_measured-words batch m w h = record {
    batches = omega arith;
    items = omega arith;
    failures = ground (arith, h.failures);
    nanos = omega arith;
    buckets = add_buckets-All worker_duration_bounds m.duration_buckets _ h.buckets;
  }

  -- After any sequence of batches, whose calls may fail, the counters are what the calls add up to.
  pub run_measured-Counts :
      (batches : List (List Q)) (m : Measured) (w : W)
      → AreWords m
      → Counts m (calls_of batches w) (run_measured batches m w)
  unfolding run_measured calls_of infer_measured observe_duration
  run_measured-Counts [] m w h = record {
    batches = omega (arith, h.batches);
    items = omega (arith, h.items);
    failures = omega (arith, h.failures);
    nanos = omega (arith, h.nanos);
    buckets = sym (add_counts-nothing worker_duration_bounds m.duration_buckets h.buckets);
  }
  run_measured-Counts (batch ∷ batches) m w h =
      let next = (infer_measured infer elapsed batch (m, w)).1 in
      let rest =
        run_measured-Counts batches next (infer batch w).1 (infer_measured-words batch m w h) in
      record {
        batches = omega (arith, rest.batches);
        items = omega (arith, rest.items);
        failures = ground (arith, rest.failures);
        nanos = omega (arith, rest.nanos);
        buckets =
            rest.buckets
            ∙ add_counts-add_buckets worker_duration_bounds
                (map (λ c. c.duration) (calls_of batches (infer batch w).1)) m.duration_buckets
                (elapsed w (infer batch w).1);
      }
