-- ===== src/Ingestion/Backoff.antt =====
-- The exponential backoff of stream_processor/ingestion/ingestion.go, in nanoseconds.
use distributed_fraud_detect.Prelude.{
  ℕ, zero, suc, ◌-◌, ◌*◌, ◌≤◌, true, false, inl, inr, arith, leb, Bool-cases,
}

abbrev pub one_second : ℕ
one_second = 1_000_000_000

abbrev pub half_second : ℕ
half_second = 500_000_000

-- `for range rounds { if backoff >= time.Second/2 { return time.Second }; backoff *= 2 }`
backoff_rounds : ℕ → ℕ → ℕ
backoff_rounds zero backoff = backoff
backoff_rounds (suc rounds) backoff = elim (leb half_second backoff) [
  | true ↦ one_second
  | false ↦ backoff_rounds rounds (backoff * 2)
]

-- `boundedBackoff`
unfoldable pub bounded_backoff : ℕ → ℕ → ℕ
unfolding backoff_rounds
bounded_backoff base attempts = backoff_rounds (attempts - 1) base

-- The time that `waitBackoff` sets its timer to.
unfoldable pub wait_backoff : ℕ → ℕ → ℕ
unfolding backoff_rounds
wait_backoff base attempt = backoff_rounds (attempt - 1) base

backoff_rounds-le : (n b : ℕ) → b ≤ one_second → backoff_rounds n b ≤ one_second
unfolding backoff_rounds
backoff_rounds-le zero b h = h
backoff_rounds-le (suc n) b h = elim (Bool-cases (leb half_second b)) [
  | inl top ↦ rw (top, backoff_rounds) (omega arith)
  | inr low ↦ rw (low, backoff_rounds) (backoff_rounds-le n (b * 2) (ground arith))
]

backoff_rounds-ge : (n b : ℕ) → b ≤ one_second → b ≤ backoff_rounds n b
unfolding backoff_rounds
backoff_rounds-ge zero b h = omega arith
backoff_rounds-ge (suc n) b h = elim (Bool-cases (leb half_second b)) [
  | inl top ↦ rw (top, backoff_rounds) h
  | inr low ↦ rw (low, backoff_rounds) (omega (arith, backoff_rounds-ge n (b * 2) (ground arith)))
]

backoff_rounds_mono : (m n b : ℕ) → b ≤ one_second → m ≤ n → backoff_rounds m b ≤ backoff_rounds n b
unfolding backoff_rounds
backoff_rounds_mono zero n b h le = backoff_rounds-ge n b h
backoff_rounds_mono (suc m) zero b h le = absurd (omega arith)
backoff_rounds_mono (suc m) (suc n) b h le = elim (Bool-cases (leb half_second b)) [
  | inl top ↦ rw (top, backoff_rounds) (omega arith)
  | inr low ↦
      rw (low, backoff_rounds) (backoff_rounds_mono m n (b * 2) (ground arith) (omega arith))
]

-- From a base of at most a second a wait is at least the base and at most the bound that the DLQ
-- writer is given for as many attempts, itself at most a second.
pub wait_backoff_bounds :
    (base attempt attempts : ℕ)
    → base ≤ one_second
    → attempt ≤ attempts
    → (base ≤ wait_backoff base attempt)
      × (wait_backoff base attempt ≤ bounded_backoff base attempts)
      × (bounded_backoff base attempts ≤ one_second)
unfolding wait_backoff bounded_backoff
wait_backoff_bounds base attempt attempts h le = (
  backoff_rounds-ge (attempt - 1) base h,
  backoff_rounds_mono (attempt - 1) (attempts - 1) base h (omega arith),
  backoff_rounds-le (attempts - 1) base h,
)
