-- ===== src/Scheduler/Dispatch.antt =====
-- `dispatch` of serving_plane/scheduler/scheduler.go: which items of a batch the handler gets, its
-- deadline, and the replies.
use distributed_fraud_detect.Prelude.{
  ℕ, ◌+◌, ◌-◌, Bool, true, false, List, [], ◌∷◌, map, Option, none, some, ltb, leb, eqb,
  if◌then◌else◌, length, Result, ok, err,
}
use distributed_fraud_detect.Scheduler.Metrics.{Metrics, observe_queue, observe_batch}
use distributed_fraud_detect.Scheduler.State.{
  Error, queue_delay, wrong_result_count, of_context, of_handler, dispatched, expired, is_queued,
  Item,
}

-- The handler's answer to a deadline and the values, as `dispatch` sees it.
abbrev pub Handler : Type 0 → Type 0 → Type 0 → Type 0
Handler X T R = Option ℕ → List T → Result X (List R)

-- What a call of `dispatch` leaves: the items, the counters, and what the handler got.
pub record Dispatched (X T R : Type 0) : Type 0 where
  pub items : List (Item X T R)
  pub metrics : Metrics
  pub call : Option (Option ℕ × List T)

-- The handler's results, or the error that stands for all of them.
unfoldable pub outcome : {X R : Type 0} → Result X (List R) → ℕ → Result (Error X) (List R)
outcome (err x) n = err (of_handler x)
outcome (ok results) n = if eqb (length results) n then ok results else err wrong_result_count

module _ {X T R : Type 0} where
  -- `CompareAndSwap(stateQueued, stateExpired)`, then the reply.
  unfoldable pub refuse : Error X → Item X T R → Item X T R
  refuse e it =
      if is_queued it.state then record it { state = expired; reply = some (err e) } else it

  -- One round of the first loop; true if the item is active.
  unfoldable pub admit_item : ℕ → Item X T R → Item X T R × Bool
  admit_item now it = elim (it.err_before) [
    | some x ↦ (refuse (of_context x) it, false)
    | none ↦
        if leb it.queue_expiry now
        then (refuse queue_delay it, false)
        else if is_queued it.state
        then (record it { state = dispatched; announced = true }, true)
        else (it, false)
  ]

  unfoldable pub admit_all :
      ℕ → ℕ → List (Item X T R) → Metrics → List (Item X T R × Bool) × Metrics
  admit_all now max_delay [] m = ([], m)
  admit_all now max_delay (it ∷ batch) m =
      let (it', active) = admit_item now it in
      let (rest, m') =
        admit_all now max_delay batch
          (if active then observe_queue (now + max_delay - it.queue_expiry) m else m) in
      ((it', active) ∷ rest, m')

  unfoldable pub active_items : List (Item X T R × Bool) → List (Item X T R)
  active_items [] = []
  active_items ((it, active) ∷ batch) =
      if active then it ∷ active_items batch else active_items batch

  -- The latest deadline of the active items; none if one has no deadline.
  unfoldable pub latest_deadline : List (Item X T R) → ℕ → Option ℕ
  latest_deadline [] latest = if eqb latest 0 then none else some latest
  latest_deadline (it ∷ items) latest = elim (it.ctx_deadline) [
    | none ↦ none
    | some deadline ↦ latest_deadline items (if ltb latest deadline then deadline else latest)
  ]

  -- The last loop, over the batch: each active item takes the next result.
  unfoldable pub answer_all :
      Result (Error X) (List R) → List (Item X T R × Bool) → List (Item X T R)
  answer_all r [] = []
  answer_all r ((it, false) ∷ batch) = it ∷ answer_all r batch
  answer_all (err e) ((it, true) ∷ batch) =
      record it { reply = some (err (elim (it.err_after) [ some x ↦ of_context x | none ↦ e ])) }
      ∷ answer_all (err e) batch
  answer_all (ok (r ∷ results)) ((it, true) ∷ batch) =
      record it { reply = some (elim (it.err_after) [ some x ↦ err (of_context x) | none ↦ ok r ]) }
      ∷ answer_all (ok results) batch
  -- `results[i]` out of range: `outcome` rules it out.
  answer_all (ok []) ((it, true) ∷ batch) = it ∷ answer_all (ok []) batch

  unfoldable pub dispatch : Handler X T R → ℕ → ℕ → List (Item X T R) → Metrics → Dispatched X T R
  dispatch handler now max_delay batch m =
      let (decided, m1) = admit_all now max_delay batch m in
      let active = active_items decided in
      if eqb (length active) 0
      then record { items = map (λ p. p.0) decided; metrics = m1; call = none }
      else let values = map (λ it. it.value) active in
        let deadline = latest_deadline active 0 in
        record {
          items = answer_all (outcome (handler deadline values) (length active)) decided;
          metrics = observe_batch (length active) m1;
          call = some (deadline, values);
        }
