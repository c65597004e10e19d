-- ===== src/Window/Examples.antt =====
-- Runs of the window, and its theorems at an input: two events of one account, ten seconds apart.
use distributed_fraud_detect.Prelude.{
  ℕ, ◌+◌, ◌*◌, ◌≤◌, ◌≡◌, refl, Bool, true, false, [], ◌∷◌, none, some, arith, ℤ, pos, positive_or,
  lookup, leb_ℤ, total, length, ok, err, leb, int_key,
}
use distributed_fraud_detect.Float.Whole.{
  Whole, fin, whole, whole_add, whole_sub, whole_ltb, whole_leb, whole_is_nan, whole_is_inf,
}
use distributed_fraud_detect.Text.{text, is_printable, is_trimmed_printable}
use distributed_fraud_detect.Window.{
  Window, Event, Features, sink_error, Materializer, new_with_limits, apply, apply_and_materialize,
  after_put, snapshot, snapshot_from, snapshot_features, entity_count, dedupe_size, next_watermark,
  cutoff, first_live, in_window, next_events, expired_ids, evict_choice, projected_event_count,
  evict_entity_locked, commit_events, commit_locked, is_stale, valid_event, add_features,
  next_features, pending_update, prepare_locked, no_features,
}
use distributed_fraud_detect.Window.Search.{search, Monotone}
use distributed_fraud_detect.Window.Sort.{slice_stable}
use distributed_fraud_detect.Window.Oldest.{oldest_entity}
use distributed_fraud_detect.Window.Invariant.{IsValid}
use distributed_fraud_detect.Window.Steps.{new_with_limits-IsValid, apply-IsValid, run, run_bounds}
use distributed_fraud_detect.Window.Served.{AllPriced, apply-AllPriced}
use distributed_fraud_detect.Window.Reads.{Agrees, apply-Agrees, snapshot-apply}
use distributed_fraud_detect.Window.Redelivery.{apply_again, offsets_mono}
use distributed_fraud_detect.Window.Sink.{
  apply_and_materialize-err, apply_and_materialize-ok, Materialized,
}

program : Unit {0}
unfolding whole_add whole_sub whole_ltb whole_leb whole_is_nan whole_is_inf is_printable
    is_trimmed_printable new_with_limits apply apply_and_materialize after_put snapshot
    snapshot_from snapshot_features entity_count dedupe_size next_watermark cutoff first_live
    in_window next_events expired_ids evict_choice projected_event_count evict_entity_locked
    commit_events commit_locked is_stale valid_event add_features next_features pending_update
    prepare_locked search slice_stable oldest_entity
program = tt

abbrev second : ℕ
second = 1_000_000_000

abbrev first : Event Whole
first = record {
  id = text "e1";
  entity_id = text "acct";
  amount = fin 20;
  occurred_at = 100 * second;
  partition = pos 0;
  offset = pos 7;
}

abbrev later : Event Whole
later = record first { id = text "e2"; amount = fin 30; occurred_at = 110 * second; offset = pos 8 }

-- A window of one minute, with room for two entities and three events.
abbrev empty : Window Whole
empty = new_with_limits Whole (pos (60 * second)) (pos 2) (pos 3)

abbrev one : Window Whole
one = (apply empty first).0

abbrev two : Features Whole
two = record {
  entity_id = text "acct";
  event_count = 2;
  total_amount = fin 50;
  max_amount = fin 30;
  window_end = 110 * second;
}

later_taken : (apply one later).1 ≡ ok (two, true)
unfolding program
later_taken = refl

one-IsValid : IsValid one
one-IsValid =
    apply-IsValid empty first (new_with_limits-IsValid Whole (pos (60 * second)) (pos 2) (pos 3))

one-AllPriced : AllPriced one
unfolding new_with_limits
one-AllPriced = apply-AllPriced empty first tt

apply-IsValid_example : IsValid (apply one later).0
apply-IsValid_example = apply-IsValid one later one-IsValid

run_bounds_example :
    let w = run empty (first ∷ later ∷ first ∷ []) in
    (entity_count w ≤ positive_or 1 (pos 2))
    × (dedupe_size w ≤ positive_or 1 (pos 3))
    × (dedupe_size w ≡ total length w.by_entity)
run_bounds_example = run_bounds (pos (60 * second)) (pos 2) (pos 3) (first ∷ later ∷ first ∷ [])

apply-Agrees_example : Agrees (apply one later).0 (text "acct") two
apply-Agrees_example = apply-Agrees one later two one-IsValid one-AllPriced later_taken

later-in_window : in_window one later ≡ true
unfolding program
later-in_window = refl

snapshot-apply_example : snapshot (apply one later).0 (text "acct") (105 * second) ≡ (two, true)
snapshot-apply_example =
    snapshot-apply one later two (105 * second) one-IsValid later-in_window later_taken
      (omega arith)

apply_again_example :
    apply (apply one later).0 later ≡ ((apply one later).0, ok (no_features, false))
apply_again_example = apply_again later one two true later_taken

one_offset : lookup (pos 0) one.offsets ≡ some (pos 7)
unfolding program
one_offset = refl

offsets_mono_example :
    (high : ℤ) × (lookup (pos 0) (apply one later).0.offsets ≡ some high)
    × (leb_ℤ (pos 7) high ≡ true)
offsets_mono_example = offsets_mono later one (pos 0) (pos 7) one_offset

-- A sink that counts its calls, and one that is down.
abbrev counting : Materializer ℕ ℕ Whole
counting calls f = (calls + 1, none)

abbrev down : Materializer ℕ ℕ Whole
down calls f = (calls, some 503)

down_fails : (apply_and_materialize one 0 later (some down)).2 ≡ err (sink_error 503)
unfolding program
down_fails = refl

apply_and_materialize-err_example : (apply_and_materialize one 0 later (some down)).0 ≡ one
apply_and_materialize-err_example =
    apply_and_materialize-err one 0 later (some down) (sink_error 503) down_fails

counting_takes : (apply_and_materialize one 0 later (some counting)).2 ≡ ok (two, true)
unfolding program
counting_takes = refl

apply_and_materialize-ok_example :
    ((apply_and_materialize one 0 later (some counting)).0 ≡ (apply one later).0)
    × ((apply one later).1 ≡ ok (two, true))
    × Materialized one 0 later counting
        (apply_and_materialize one 0 later (some counting)).1
        (two, true)
apply_and_materialize-ok_example =
    apply_and_materialize-ok one 0 later counting two true counting_takes

abbrev is_big : ℕ → Bool
is_big i = leb 3 i

is_big-Monotone : Monotone 5 is_big
is_big-Monotone a b le lt h = ground arith
