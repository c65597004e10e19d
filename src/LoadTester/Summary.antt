-- ===== src/LoadTester/Summary.antt =====
-- What load_tester/main.go sends and counts: the arrival schedule, the results' summary.
use distributed_fraud_detect.Prelude.{
  ℕ, ◌+◌, ◌/◌, ◌≤◌, ◌≡◌, Bool, ◌&&◌, List, [], ◌∷◌, inl, inr, arith, ltb, leb, if◌then◌else◌,
  length, All, Map, insert, lookup, get_or, total, total-insert, Option-cases,
}
use distributed_fraud_detect.Text.{Text, text, text_key}

-- One request's outcome: its latency in nanoseconds, and its status or a transport error.
pub record LoadResult : Type 0 where
  pub latency : ℕ
  pub status : ℕ
  pub has_error : Bool

-- The counters of a run; `recorded` are the histogram's values, in microseconds, the latest first.
pub record Summary : Type 0 where
  pub completed : ℕ
  pub successful : ℕ
  pub errors : ℕ
  pub status_counts : Map Text ℕ
  pub recorded : List ℕ

abbrev pub max64 : ℕ → ℕ → ℕ
max64 a b = if ltb b a then a else b

-- `s.StatusCounts[key]++`
abbrev pub count_status : Text → Map Text ℕ → Map Text ℕ
count_status key counts = insert key (get_or key counts 0 + 1) counts

module _ (itoa : ℕ → Text) where
  -- The body of the loop over the results; `itoa` is strconv.Itoa.
  unfoldable pub record_result : LoadResult → Summary → Summary
  record_result r s =
      let done = record s {
        completed = s.completed + 1;
        recorded = max64 1 (r.latency / 1_000) ∷ s.recorded;
      } in
      if r.has_error
      then record done {
        errors = s.errors + 1;
        status_counts = count_status (text "transport_error") s.status_counts;
      }
      else if leb 200 r.status && ltb r.status 300
      then record done {
        successful = s.successful + 1;
        status_counts = count_status (itoa r.status) s.status_counts;
      }
      else record done {
        errors = s.errors + 1;
        status_counts = count_status (itoa r.status) s.status_counts;
      }

  unfoldable pub summarise : List LoadResult → Summary → Summary
  summarise [] s = s
  summarise (r ∷ rs) s = summarise rs (record_result r s)

  -- Every request that completed is a success or an error, has one status, and one recorded latency,
  -- which is at least a microsecond.
  unfoldable pub AddsUp : Summary → Type 0
  AddsUp s =
      (s.successful + s.errors ≡ s.completed)
      × (total (λ n. n) s.status_counts ≡ s.completed)
      × (length s.recorded ≡ s.completed)
      × All (λ x. 1 ≤ x) s.recorded

  total-count_status :
      (key : Text) (counts : Map Text ℕ)
      → total (λ n. n) (count_status key counts) ≡ total (λ n. n) counts + 1
  total-count_status key counts =
      let grown = total-insert (λ n. n) key (get_or key counts 0 + 1) counts in
      elim (Option-cases (lookup key counts)) [
        | inl e ↦ ground (arith, grown, e)
        | inr (v, e) ↦ ground (arith, grown, e)
      ]

  record_result-AddsUp : (r : LoadResult) (s : Summary) → AddsUp s → AddsUp (record_result r s)
  unfolding record_result AddsUp
  record_result-AddsUp r s h = ground (
    arith,
    h.0,
    h.1,
    h.2,
    h.3,
    total-count_status (text "transport_error") s.status_counts,
    total-count_status (itoa r.status) s.status_counts,
  )

  -- After any results, in any order.
  pub summarise-AddsUp :
      (rs : List LoadResult) (s : Summary)
      → AddsUp s
      → AddsUp (summarise rs s) × ((summarise rs s).completed ≡ s.completed + length rs)
  unfolding summarise record_result
  summarise-AddsUp [] s h = (h, omega arith)
  summarise-AddsUp (r ∷ rs) s h =
      let rest = summarise-AddsUp rs (record_result r s) (record_result-AddsUp r s h) in
      (rest.0, ground (arith, rest.1))
