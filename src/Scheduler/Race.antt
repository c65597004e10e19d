-- ===== src/Scheduler/Race.antt =====
-- One item of serving_plane/scheduler/scheduler.go between its submitter and the batching loop: the
-- atomic steps of `Submit`, `waitForResult` and `dispatch` on the item's state word, its reply
-- channel and its `dispatched` channel, in any interleaving. A compare-and-swap with what its
-- winner does next is one step; nothing else looks at the item in between.
use distributed_fraud_detect.Prelude.{
  ℕ, suc, ◌≡◌, ◌⊎◌, Bool, true, false, Option, none, some, Result, ok, err,
}
use distributed_fraud_detect.Scheduler.State.{
  Error, closed_error, queue_delay, wrong_result_count, of_context, of_handler, ItemState, queued,
  dispatched, expired,
}

-- Where the submitter is: in `Submit`'s select, in `waitForResult`, or back with a result.
pub data Submitter (X R : Type 0) : Type 0 where
  selecting : Submitter X R
  waiting : Submitter X R
  returned : Result (Error X) R → Submitter X R

-- Where the loop is with the item: before `dispatch` decides on it, with the handler, or done.
pub data Loop : Type 0 where
  undecided : Loop
  handling : Loop
  finished : Loop

pub record Race (X R : Type 0) : Type 0 where
  pub word : ItemState
  pub reply : Option (Result (Error X) R)
  pub announced : Bool
  pub handler_calls : ℕ
  pub submitter : Submitter X R
  pub loop : Loop

-- `stateQueued` becomes `stateExpired`, any other state stays.
abbrev pub expire : ItemState → ItemState
expire queued = expired
expire w = w

-- What the loop sends for an item that the handler had.
pub data Answer {X R : Type 0} : Result (Error X) R → Type 0 where
  a_value : (r : R) → Answer (ok r)
  a_context : (x : X) → Answer (err (of_context x))
  a_failure : (x : X) → Answer (err (of_handler x))
  a_miscount : Answer (err wrong_result_count)

pub data Step {X R : Type 0} : Race X R → Race X R → Type 0 where
  -- `dispatch`, lines in order: context done, expired, lost, admitted, answered.
  drop_cancelled :
      (s : Race X R) (x : X)
      → s.loop ≡ undecided
      → s.word ≡ queued
      → Step s (record s { word = expired; reply = some (err (of_context x)); loop = finished })
  drop_late :
      (s : Race X R)
      → s.loop ≡ undecided
      → s.word ≡ queued
      → Step s (record s { word = expired; reply = some (err queue_delay); loop = finished })
  skip :
      (s : Race X R)
      → s.loop ≡ undecided
      → (s.word ≡ dispatched) ⊎ (s.word ≡ expired)
      → Step s (record s { loop = finished })
  admit :
      (s : Race X R)
      → s.loop ≡ undecided
      → s.word ≡ queued
      → Step s (record s {
        word = dispatched;
        announced = true;
        handler_calls = suc s.handler_calls;
        loop = handling;
      })
  answer :
      (s : Race X R) (r : Result (Error X) R)
      → s.loop ≡ handling
      → Answer r
      → Step s (record s { reply = some r; loop = finished })
  -- `Submit`, its cases in order.
  receive :
      (s : Race X R) (r : Result (Error X) R)
      → s.submitter ≡ selecting
      → s.reply ≡ some r
      → Step s (record s { reply = none; submitter = returned r })
  see_dispatched :
      (s : Race X R)
      → s.submitter ≡ selecting
      → s.announced ≡ true
      → Step s (record s { submitter = waiting })
  timer_wins :
      (s : Race X R)
      → s.submitter ≡ selecting
      → s.word ≡ queued
      → Step s (record s { word = expired; submitter = returned (err queue_delay) })
  timer_loses :
      (s : Race X R)
      → s.submitter ≡ selecting
      → (s.word ≡ dispatched) ⊎ (s.word ≡ expired)
      → Step s (record s { submitter = waiting })
  cancel :
      (s : Race X R) (x : X)
      → s.submitter ≡ selecting
      → Step s (record s { word = expire s.word; submitter = returned (err (of_context x)) })
  stopped :
      (s : Race X R)
      → s.submitter ≡ selecting
      → s.reply ≡ none
      → Step s (record s { submitter = returned (err closed_error) })
  -- `waitForResult`
  wait_receive :
      (s : Race X R) (r : Result (Error X) R)
      → s.submitter ≡ waiting
      → s.reply ≡ some r
      → Step s (record s { reply = none; submitter = returned r })
  wait_cancel :
      (s : Race X R) (x : X)
      → s.submitter ≡ waiting
      → Step s (record s { submitter = returned (err (of_context x)) })

-- An item that `Submit` has just put on the queue.
abbrev pub start : {X R : Type 0} → Race X R
start = record {
  word = queued;
  reply = none;
  announced = false;
  handler_calls = 0;
  submitter = selecting;
  loop = undecided;
}

pub data Reachable {X R : Type 0} : Race X R → Type 0 where
  at_start : Reachable start
  next : (s t : Race X R) → Reachable s → Step s t → Reachable t
