-- ===== src/Scheduler/Metrics.antt =====
-- The counters of serving_plane/scheduler/scheduler.go: uint64 words that wrap around, and
-- cumulative histograms whose last bucket has no bound.
use distributed_fraud_detect.Prelude.{
  ℕ, ◌+◌, ◌%◌, ◌^◌, ◌≡◌, refl, ap, sym, ◌∙◌, inl, inr, Bool-cases, List, [], ◌∷◌, ◌++◌, map, arith,
  leb, if◌then◌else◌, length, All, ◌<◌,
}

abbrev pub word : ℕ
word = 2 ^ 64

-- Atomic `Add` on a uint64.
abbrev pub add_word : ℕ → ℕ → ℕ
add_word a b = (a + b) % word

-- A count, a sum, and buckets: the part of the counters that one observation changes.
pub record Histogram : Type 0 where
  pub total_count : ℕ
  pub total : ℕ
  pub buckets : List ℕ

-- The first buckets belong to the bounds, in order; the one behind them takes everything.
unfoldable pub add_buckets : List ℕ → ℕ → List ℕ → List ℕ
add_buckets (bound ∷ bounds) x (b ∷ buckets) =
    (if leb x bound then add_word b 1 else b) ∷ add_buckets bounds x buckets
add_buckets [] x (b ∷ []) = add_word b 1 ∷ []
add_buckets bounds x buckets = buckets

unfoldable pub observe : List ℕ → ℕ → Histogram → Histogram
observe bounds x h = record {
  total_count = add_word h.total_count 1;
  total = add_word h.total x;
  buckets = add_buckets bounds x h.buckets;
}

-- `queueBounds`, in nanoseconds, and `batchBounds`.
abbrev pub queue_bounds : List ℕ
queue_bounds = 100_000 ∷ 500_000 ∷ 1_000_000 ∷ 2_000_000 ∷ []

abbrev pub batch_bounds : List ℕ
batch_bounds = 1 ∷ 4 ∷ 8 ∷ 16 ∷ 32 ∷ []

pub record Metrics : Type 0 where
  pub queue : Histogram
  pub batch : Histogram

unfoldable pub observe_queue : ℕ → Metrics → Metrics
observe_queue duration m = record m { queue = observe queue_bounds duration m.queue }

unfoldable pub observe_batch : ℕ → Metrics → Metrics
observe_batch size m = record m { batch = observe batch_bounds size m.batch }

abbrev pub empty_histogram : List ℕ → Histogram
empty_histogram bounds = record {
  total_count = 0;
  total = 0;
  buckets = map (λ b. 0) bounds ++ (0 ∷ []);
}

abbrev pub no_metrics : Metrics
no_metrics = record { queue = empty_histogram queue_bounds; batch = empty_histogram batch_bounds }

-- Observations in order.
unfoldable pub observe_all : List ℕ → List ℕ → Histogram → Histogram
observe_all bounds [] h = h
observe_all bounds (x ∷ xs) h = observe_all bounds xs (observe bounds x h)

abbrev pub at_most : ℕ → List ℕ → ℕ
at_most bound [] = 0
at_most bound (x ∷ xs) = (if leb x bound then 1 else 0) + at_most bound xs

abbrev pub sum : List ℕ → ℕ
sum [] = 0
sum (x ∷ xs) = x + sum xs

-- The buckets that a list of observations adds to, each by its bound.
abbrev pub add_counts : List ℕ → List ℕ → List ℕ → List ℕ
add_counts (bound ∷ bounds) xs (b ∷ buckets) =
    add_word b (at_most bound xs) ∷ add_counts bounds xs buckets
add_counts [] xs (b ∷ []) = add_word b (length xs) ∷ []
add_counts bounds xs buckets = buckets

add_word_assoc : (a b c : ℕ) → add_word (add_word a b) c ≡ add_word a (b + c)
add_word_assoc a b c = omega arith

bucket_step :
    (bound b x n : ℕ)
    → add_word (if leb x bound then add_word b 1 else b) n
      ≡ add_word b ((if leb x bound then 1 else 0) + n)
bucket_step bound b x n = elim (Bool-cases (leb x bound)) [
  | inl e ↦ rw e (omega arith)
  | inr e ↦ rw e (omega arith)
]

-- `add_counts` behind one observation counts that one too.
pub add_counts-add_buckets :
    (bounds xs buckets : List ℕ) (x : ℕ)
    → add_counts bounds xs (add_buckets bounds x buckets) ≡ add_counts bounds (x ∷ xs) buckets
unfolding add_buckets
add_counts-add_buckets [] xs [] x = refl
add_counts-add_buckets [] xs (b ∷ []) x = ap (λ c. c ∷ []) (omega arith)
add_counts-add_buckets [] xs (b ∷ c ∷ buckets) x = refl
add_counts-add_buckets (bound ∷ bounds) xs [] x = refl
add_counts-add_buckets (bound ∷ bounds) xs (b ∷ buckets) x =
    ap (λ c. c ∷ add_counts bounds xs (add_buckets bounds x buckets))
      (bucket_step bound b x (at_most bound xs))
    ∙ ap (◌∷◌ (add_word b (at_most bound (x ∷ xs)))) (add_counts-add_buckets bounds xs buckets x)

-- `add_counts` of nothing, on words.
pub add_counts-nothing :
    (bounds buckets : List ℕ) → All (λ b. b < word) buckets → add_counts bounds [] buckets ≡ buckets
add_counts-nothing [] [] h = refl
add_counts-nothing [] (b ∷ []) h = ap (λ c. c ∷ []) (omega (arith, h.0))
add_counts-nothing [] (b ∷ c ∷ buckets) h = refl
add_counts-nothing (bound ∷ bounds) [] h = refl
add_counts-nothing (bound ∷ bounds) (b ∷ buckets) h =
    ap (λ c. c ∷ add_counts bounds [] buckets) (omega (arith, h.0))
    ∙ ap (◌∷◌ b) (add_counts-nothing bounds buckets h.1)

pub add_buckets-All :
    (bounds buckets : List ℕ) (x : ℕ)
    → All (λ b. b < word) buckets
    → All (λ b. b < word) (add_buckets bounds x buckets)
unfolding add_buckets
add_buckets-All [] [] x h = tt
add_buckets-All [] (b ∷ []) x h = (omega arith, tt)
add_buckets-All [] (b ∷ c ∷ buckets) x h = h
add_buckets-All (bound ∷ bounds) [] x h = tt
add_buckets-All (bound ∷ bounds) (b ∷ buckets) x h =
    (ground (arith, h.0), add_buckets-All bounds buckets x h.1)

-- What a histogram shows after a list of observations, modulo 2^64: how many they were, their sum,
-- in each bucket with a bound how many were at most the bound, and all of them in the last one.
pub observe_all_lem :
    (bounds xs : List ℕ) (h : Histogram)
    → h.total_count < word
    → h.total < word
    → All (λ b. b < word) h.buckets
    → (observe_all bounds xs h).total_count ≡ add_word h.total_count (length xs)
      × ((observe_all bounds xs h).total ≡ add_word h.total (sum xs))
      × ((observe_all bounds xs h).buckets ≡ add_counts bounds xs h.buckets)
unfolding observe_all observe
observe_all_lem bounds [] h c t b =
    (omega (arith, c), omega (arith, t), sym (add_counts-nothing bounds h.buckets b))
observe_all_lem bounds (x ∷ xs) h c t b =
    let rest =
      observe_all_lem bounds xs (observe bounds x h) (omega arith) (omega arith)
        (add_buckets-All bounds h.buckets x b) in
    (
      omega (arith, rest.0),
      omega (arith, rest.1),
      rest.2 ∙ add_counts-add_buckets bounds xs h.buckets x,
    )
