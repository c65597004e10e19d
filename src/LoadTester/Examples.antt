-- ===== src/LoadTester/Examples.antt =====
-- A mix of two entities, a few results and arrivals, with the load generator's theorems on them.
use distributed_fraud_detect.Prelude.{
  ℕ, ◌*◌, ◌≤◌, ◌≡◌, refl, true, false, List, [], ◌∷◌, map, none, some, arith, length, All, take, ℤ,
  pos, ok,
}
use distributed_fraud_detect.Float.Whole.{
  Whole, fin, nan, inf, whole, whole_ltb, whole_leb, whole_add,
}
use distributed_fraud_detect.Text.{Text, text}
use distributed_fraud_detect.Text.Trim.{trim_text}
use distributed_fraud_detect.Process.{atoi}
use distributed_fraud_detect.Features.Vector.{split}
use distributed_fraud_detect.Gateway.Request.{behind}
use distributed_fraud_detect.LoadTester.Settings.{
  LoadConfig, IsMix, parse_entities, parse_parts, split_on, entity_of, validate,
  parse_entities-IsMix,
}
use distributed_fraud_detect.LoadTester.Mix.{entity_for_index, turn}
use distributed_fraud_detect.LoadTester.Turns.{entity_for_index-turn}
use distributed_fraud_detect.LoadTester.Summary.{LoadResult, Summary, AddsUp}
use distributed_fraud_detect.LoadTester.Schedule.{
  Arrivals, IsMonotone, arrival_schedule, offsets, elapsed_after, is_draw,
}
use distributed_fraud_detect.LoadTester.Payload.{
  transaction_id_of, format_hex, transaction_id_of_unique,
}

abbrev names : List Text
names = text "hot" ∷ text "cold" ∷ []

abbrev weights : List ℤ
weights = pos 3 ∷ pos 1 ∷ []

parsed : parse_entities (text "hot:3, cold") ≡ ok (names, weights)
unfolding parse_entities parse_parts split_on entity_of trim_text split atoi
parsed = refl

parse_entities-IsMix_example : IsMix names weights × (1 ≤ length names)
parse_entities-IsMix_example = parse_entities-IsMix (text "hot:3, cold") names weights parsed

abbrev config : LoadConfig Whole
config = record {
  url = text "https://gateway:8080/v1/score";
  token = [];
  duration = pos 0;
  requests = pos 100;
  concurrency = pos 4;
  rate = fin 50;
  timeout = pos 1_000_000_000;
  seed = 1;
  entities = names;
  entity_weights = weights;
  payload_mode = text "transaction";
  output_dir = text "out";
}

config_passes : validate config ≡ none
unfolding validate whole_leb behind
config_passes = refl

entity_for_index-turn_example :
    map (entity_for_index config) (4 * 2 ∷ 9 ∷ 10 ∷ 11 ∷ [])
    ≡ some (text "hot") ∷ some (text "hot") ∷ some (text "hot") ∷ some (text "cold") ∷ []
unfolding turn
entity_for_index-turn_example = entity_for_index-turn config 2 config_passes (omega arith)

abbrev fresh : Summary
fresh = record { completed = 0; successful = 0; errors = 0; status_counts = []; recorded = [] }

abbrev results : List LoadResult
results =
    record { latency = 2_500_000; status = 200; has_error = false }
    ∷ record { latency = 300; status = 503; has_error = false }
    ∷ record { latency = 9_000_000; status = 0; has_error = true }
    ∷ []

abbrev digits : ℕ → Text
digits n = n ∷ []

fresh-AddsUp : AddsUp digits fresh
unfolding AddsUp
fresh-AddsUp = (refl, refl, refl, tt)

-- Arrivals three seconds apart, for a draw that is not one.
abbrev nanoseconds : Whole → ℕ
nanoseconds (fin n) = n * 1_000_000_000
nanoseconds nan = 0
nanoseconds inf = 0

abbrev arrivals : Arrivals Whole
arrivals = record {
  smallest = fin 1;
  one = fin 1;
  limit = fin 1000;
  gap = λ rate u. fin 3;
  to_duration = nanoseconds;
}

nanoseconds_mono :
    (x y : Whole)
    → whole_leb (fin 0) x ≡ true
    → whole_leb x y ≡ true
    → whole_leb y (fin 1000) ≡ true
    → nanoseconds x ≤ nanoseconds y
unfolding whole_leb
nanoseconds_mono x y z h l = ground (arith, z, h, l)

arrivals-IsMonotone : IsMonotone arrivals
unfolding whole_leb
arrivals-IsMonotone = record {
  smallest-positive = refl;
  smallest-draw = refl;
  gap-positive = λ rate u r p o. refl;
  to_duration-mono = nanoseconds_mono;
}

abbrev draws : List Whole
draws = fin 0 ∷ fin 1 ∷ []

draws_drawn : All (λ u. is_draw arrivals u ≡ true) draws
unfolding is_draw whole_leb
draws_drawn = (refl, (refl, tt))

draws_in_range :
    whole_leb (elapsed_after arrivals (fin 50) (fin 0) (take 2 draws)) (fin 1000) ≡ true
unfolding elapsed_after whole_leb whole_add
draws_in_range = refl

abbrev limit : ℕ
limit = 5_000_000_000

abbrev planned : List ℕ
planned = 3_000_000_000 ∷ 6_000_000_000 ∷ []

plan : arrival_schedule arrivals (pos 2) (fin 50) draws ≡ some planned
unfolding arrival_schedule offsets whole_leb whole_add
plan = refl

rate_positive : whole_ltb (fin 0) (fin 50) ≡ true
unfolding whole_ltb
rate_positive = refl

transaction_id : transaction_id_of 1 26 ≡ text "load-0000000000000001-0000001a"
unfolding transaction_id_of format_hex
transaction_id = refl

abbrev last_index : ℕ
last_index = 26

transaction_id_of_unique_example : last_index ≡ last_index
transaction_id_of_unique_example =
    transaction_id_of_unique 1 last_index last_index (omega arith) (omega arith) refl
