-- ===== src/Scheduler/Examples.antt =====
-- A batch of three, its arrivals and the race of one item, with the scheduler's theorems on them.
use distributed_fraud_detect.Prelude.{
  ℕ, ◌+◌, ◌≤◌, ◌≡◌, ◌≢◌, ◌⊎◌, refl, true, false, List, [], ◌∷◌, map, none, some, arith, Result, ok,
  err, length, All, inl,
}
use distributed_fraud_detect.Scheduler.Metrics.{
  no_metrics, observe_queue, observe_batch, observe, add_buckets,
}
use distributed_fraud_detect.Scheduler.State.{
  Error, queue_delay, of_context, queued, dispatched, expired, Item, Scheduler, enqueue,
}
use distributed_fraud_detect.Scheduler.Race.{
  Race, start, waiting, returned, undecided, handling, finished, Reachable, at_start, next, admit,
  answer, timer_loses, a_value,
}
use distributed_fraud_detect.Scheduler.Once.{Reachable-once}
use distributed_fraud_detect.Scheduler.Progress.{
  Run, at_once, further, CalmStep, steps_left, Run-returns,
}
use distributed_fraud_detect.Scheduler.Dispatch.{
  Handler, dispatch, admit_all, admit_item, refuse, active_items, latest_deadline, outcome,
  answer_all,
}
use distributed_fraud_detect.Scheduler.Replies.{
  Pairwise, Answered, is_admissible, dispatch-Answered,
}
use distributed_fraud_detect.Scheduler.Calls.{keep, values, called_with, dispatch-called_with}
use distributed_fraud_detect.Scheduler.Delivery.{delivered, dispatch-delivered}
use distributed_fraud_detect.Scheduler.Collect.{
  Arrival, item, queue_closed, run, accepted, concat, run-accepted,
}

abbrev waits : ℕ → Item ℕ ℕ ℕ
waits n = record {
  value = n;
  err_before = none;
  err_after = none;
  ctx_deadline = some 9_000_000;
  queue_expiry = 2_000_000;
  state = queued;
  reply = none;
  announced = false;
}

-- A live item, one whose context is done, and one whose queueing time is over.
abbrev batch : List (Item ℕ ℕ ℕ)
batch =
    waits 1
    ∷ record (waits 2) { err_before = some 7 }
    ∷ record (waits 3) { queue_expiry = 1_000_000 }
    ∷ []

abbrev doubles : Handler ℕ ℕ ℕ
doubles deadline vs = ok (map (λ v. v + v) vs)

batch_replies :
    map (λ it. it.reply) (dispatch doubles 1_500_000 1_000_000 batch no_metrics).items
    ≡ some (ok 2) ∷ some (err (of_context 7)) ∷ some (err queue_delay) ∷ []
unfolding dispatch admit_all admit_item refuse active_items latest_deadline outcome answer_all
    observe_queue observe_batch observe add_buckets
batch_replies = refl

dispatch-Answered_example :
    Pairwise
      (Answered 1_500_000)
      batch
      (dispatch doubles 1_500_000 1_000_000 batch no_metrics).items
dispatch-Answered_example = dispatch-Answered doubles 1_500_000 1_000_000 batch no_metrics

dispatch-called_with_example :
    let call = (dispatch doubles 1_500_000 1_000_000 batch no_metrics).call in
    (called_with call ≡ values (keep (is_admissible 1_500_000) batch))
    × (length (called_with call) ≤ 3)
    × (called_with call ≡ [] → call ≡ none)
dispatch-called_with_example = dispatch-called_with doubles 1_500_000 1_000_000 batch no_metrics

dispatch-delivered_example :
    delivered (dispatch doubles 1_500_000 1_000_000 batch no_metrics).items
    ≡ map (λ v. v + v) (values (keep (is_admissible 1_500_000) batch))
dispatch-delivered_example =
    dispatch-delivered doubles (λ v. v + v) 1_500_000 1_000_000 batch no_metrics
      (λ deadline vs. refl) ((refl, refl), ((refl, refl), ((refl, refl), tt)))

abbrev received : List (Arrival ℕ)
received = item 1 queued ∷ item 2 expired ∷ item 3 queued ∷ item 4 queued ∷ queue_closed ∷ []

run-accepted_example :
    let batches = run (λ i. i) 2 5 received in
    (concat batches ≡ accepted (λ i. i) 2 received)
    × All (λ b. (1 ≤ length b) × (length b ≤ 2)) batches
run-accepted_example = run-accepted (λ i. i) 2 5 received (omega arith) (omega arith)

-- The timer fires after the loop has admitted the item; the value still arrives.
abbrev answered : Race ℕ ℕ
answered = record start {
  word = dispatched;
  announced = true;
  handler_calls = 1;
  submitter = waiting;
  loop = finished;
  reply = some (ok 5);
}

answered-Reachable : Reachable answered
answered-Reachable =
    next _ _ (next _ _ (next _ _ at_start (admit start refl refl)) (timer_loses _ refl (inl refl)))
      (answer _ (ok 5) refl (a_value 5))

Reachable-once_example :
    (answered.handler_calls ≤ 1)
    × (answered.submitter ≡ returned (err queue_delay)
        → (answered.handler_calls ≡ 0) × (answered.word ≡ expired))
    × ((answered.loop ≡ undecided) ⊎ (answered.loop ≡ handling) → answered.reply ≡ none)
    × (answered.submitter ≡ waiting → (answered.loop ≡ handling) ⊎ (answered.reply ≢ none))
Reachable-once_example = Reachable-once answered answered-Reachable

answered-Run : Run 3 answered
answered-Run =
    further 2 _ _
      (further 1 _ _ (further 0 _ _ at_once (admit start refl refl))
        (timer_loses _ refl (inl refl)))
      (answer _ (ok 5) refl (a_value 5))

Run-returns_example :
    (3 + steps_left answered ≤ 4)
    × (((r : Result (Error ℕ) ℕ) × (answered.submitter ≡ returned r))
        ⊎ ((t : Race ℕ ℕ) × CalmStep answered t))
Run-returns_example = Run-returns 3 answered answered-Run

abbrev small : Scheduler ℕ
small = record {
  queue = 4 ∷ [];
  max_queue = 2;
  closed = false;
  max_batch = 2;
  max_delay = 1_000_000;
  metrics = no_metrics;
}

small_takes : enqueue {X = ℕ} none 5 small ≡ ok (record small { queue = 4 ∷ 5 ∷ [] })
unfolding enqueue
small_takes = refl
