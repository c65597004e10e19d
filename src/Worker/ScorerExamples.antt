-- ===== src/Worker/ScorerExamples.antt =====
-- A scorer over whole amounts, whose least number stands in for -1, and its theorem on a batch.
use distributed_fraud_detect.Prelude.{
  length, map, not, ◌&&◌, ◌||◌, ◌++◌, ℕ, ◌*◌, ◌≡◌, refl, Bool, true, false, List, [], ◌∷◌, Option,
  none, arith, eqb, if◌then◌else◌, pos, ok, All,
}
use distributed_fraud_detect.Float.Whole.{
  Whole, fin, nan, inf, whole, whole_add, whole_sub, whole_ltb, whole_leb, whole_is_nan,
  whole_is_inf,
}
use distributed_fraud_detect.Text.{text, is_printable}
use distributed_fraud_detect.Worker.Types.{Request, Score, Explanation}
use distributed_fraud_detect.Worker.Validate.{
  validate_requests, check_requests, check_request, valid_version, validate_results,
}
use distributed_fraud_detect.Worker.Scorer.{
  Math, clipped, CpuScorer, infer_cpu, logit, dot_from, contributions, bounded_explanations,
  sort_slice, insert_before, before, clip,
}
use Prim.Native.Nat.{min}
use mathlib.Core.List.{Perm}
use distributed_fraud_detect.Worker.Ranked.{IsOrdered, IsRanked, bounded_explanations-IsRanked}
use distributed_fraud_detect.Worker.Scored.{
  IsArithmetic, IsFit, IsAnswerable, in_range, finite, infer_cpu-valid,
}

abbrev times : Whole → Whole → Whole
times (fin a) (fin b) = fin (a * b)
times _ _ = nan

abbrev over : Whole → Whole → Whole
over x (fin n) = if eqb n 1 then x else fin 0
over x nan = fin 0
over x inf = fin 0

abbrev same : Whole → Whole → Bool
same (fin a) (fin b) = eqb a b
same inf inf = true
same _ _ = false

abbrev math : Math Whole
math = record {
  one = fin 1;
  minus_one = fin 0;
  half = fin 0;
  two = fin 1;
  amount_weight = fin 1;
  mul = times;
  div = over;
  neg = λ x. x;
  equal = same;
  abs = λ x. x;
  exp = λ x. fin 0;
}

over-in_range :
    (x : Whole) → whole_leb (fin 1) x ≡ true → in_range math (fin 0) (fin 1) (over (fin 1) x) ≡ true
unfolding whole_leb whole_ltb whole_is_nan whole_is_inf
over-in_range nan h = absurd (cc)
over-in_range inf h = refl
over-in_range (fin n) h = ground (arith, h)

confidence_in_range :
    (x : Whole)
    → in_range math (fin 0) (fin 1) x ≡ true
    → in_range math (fin 0) (fin 1) (times (whole_sub x (fin 0)) (fin 1)) ≡ true
unfolding whole_ltb whole_is_nan whole_is_inf whole_sub
confidence_in_range nan h = absurd (cc)
confidence_in_range inf h = absurd (cc)
confidence_in_range (fin n) h = ground (arith, h)

times_number :
    (x y : Whole) → finite math x ≡ true → finite math y ≡ true → whole_is_nan (times x y) ≡ false
unfolding whole_is_nan whole_is_inf
times_number x y h k = ground (arith, h, k)

between : (x y z : Whole) → whole_ltb x y ≡ true → whole_ltb y z ≡ true → finite math y ≡ true
unfolding whole_ltb whole_is_nan whole_is_inf
between x y z h k = ground (arith, h, k)

math-IsArithmetic : IsArithmetic math
unfolding whole_leb whole_ltb whole_is_nan whole_is_inf
math-IsArithmetic = record {
  zero-one = refl;
  minus_one-one = refl;
  one-finite = refl;
  minus_one-finite = refl;
  neg-not_nan = λ x n. n;
  exp-positive = λ x n. refl;
  div-within = over-in_range;
  confidence-within = confidence_in_range;
  mul-not_nan = times_number;
  between-finite = between;
}

abbrev scorer : CpuScorer Whole
scorer = record {
  weights = fin 2 ∷ fin 5 ∷ fin 1 ∷ fin 5 ∷ [];
  bias = fin 0;
  model_name = [];
  calibration_version = text "c2";
  policy_version = [];
  feature_version = [];
}

scorer-IsFit : IsFit math scorer
unfolding whole_is_nan whole_is_inf valid_version is_printable
scorer-IsFit = record {
  some_weight = refl;
  weights_finite = (refl, (refl, (refl, (refl, tt))));
  model_ok = refl;
  calibration_ok = refl;
  policy_ok = refl;
  feature_ok = refl;
}

abbrev request : Request Whole
request = record { features = fin 1 ∷ fin 3 ∷ fin 0 ∷ fin 3 ∷ []; transaction_amount = fin 7 }

abbrev alive : ℕ → Option ℕ
alive k = none

-- The two equal impacts come in the order of their indices, and each is cut at one.
top_three :
    bounded_explanations math (contributions math 0 request.features scorer.weights)
    ≡ record { feature_index = pos 1; impact = fin 1 }
      ∷ record { feature_index = pos 3; impact = fin 1 }
      ∷ record { feature_index = pos 0; impact = fin 1 }
      ∷ []
unfolding bounded_explanations contributions sort_slice insert_before before clip whole_ltb
    whole_is_nan
top_three = refl

request_accepted : validate_requests (fin 1) (fin 0) (request ∷ []) true ≡ none
unfolding validate_requests check_requests check_request whole_ltb whole_is_nan whole_is_inf
request_accepted = refl

request-IsAnswerable :
    All (IsAnswerable math math-IsArithmetic alive scorer scorer-IsFit) (request ∷ [])
unfolding logit dot_from whole_add whole_is_nan
request-IsAnswerable = ((refl, refl), tt)

infer_cpu-valid_example :
    (scores : List (Score Whole)) × (infer_cpu math alive scorer (request ∷ []) ≡ ok scores)
    × (validate_results (fin 1) (fin 0) scores 1 ≡ none)
infer_cpu-valid_example =
    infer_cpu-valid math math-IsArithmetic alive scorer scorer-IsFit (request ∷ []) (λ k. refl)
      request_accepted request-IsAnswerable

equal_neither :
    (x y : Whole)
    → whole_is_nan x ≡ false
    → whole_is_nan y ≡ false
    → same x y ≡ (not (whole_ltb x y) && not (whole_ltb y x))
unfolding whole_is_nan whole_ltb
equal_neither x y n m = ground (arith, n, m)

between_or_out :
    (x y z : Whole)
    → whole_is_nan y ≡ false
    → (not (whole_ltb x z) || (whole_ltb x y || whole_ltb y z)) ≡ true
unfolding whole_is_nan whole_ltb
between_or_out x y z n = ground (arith, n)

math-IsOrdered : IsOrdered math
math-IsOrdered = record {
  abs-number = λ x n. n;
  equal-neither = equal_neither;
  ltb-cotrans = between_or_out;
}

abbrev given : List (Explanation Whole)
given =
    record { feature_index = pos 0; impact = fin 2 }
    ∷ record { feature_index = pos 1; impact = fin 15 }
    ∷ record { feature_index = pos 2; impact = fin 0 }
    ∷ record { feature_index = pos 3; impact = fin 15 }
    ∷ []

given_numbers : All (λ v. whole_is_nan v.impact ≡ false) given
unfolding whole_is_nan
given_numbers = (refl, (refl, (refl, (refl, tt))))

bounded_explanations-IsRanked_example :
    (listed rest : List (Explanation Whole)) × (bounded_explanations math given
      ≡ map (clipped math) listed)
    × (length listed ≡ min 3 4)
    × Perm (listed ++ rest) given
    × IsRanked math listed
    × All (λ v. All (λ u. before math u v ≡ false) rest) listed
bounded_explanations-IsRanked_example =
    bounded_explanations-IsRanked math math-IsOrdered given given_numbers
