-- ===== src/Scheduler/State.antt =====
-- The items, results and queue of serving_plane/scheduler/scheduler.go. Times are in nanoseconds,
-- the zero time.Time is 0; `X` are the errors of contexts and handlers.
use distributed_fraud_detect.Prelude.{
  ℕ, ◌+◌, ◌-◌, ◌/◌, ◌<◌, not, ltb_ℤ, inl, inr, Bool-cases, subst, length-append, ◌≤◌, ◌≡◌, refl,
  Bool, true, false, ◌||◌, ◌++◌, List, [], ◌∷◌, Option, none, some, arith, ltb, if◌then◌else◌,
  length, ℤ, pos, positive_or, leb_ℤ, Result, ok, err,
}
use distributed_fraud_detect.Scheduler.Metrics.{Metrics, no_metrics}

pub data Error (X : Type 0) : Type 0 where
  closed_error : Error X
  full_error : Error X
  queue_delay : Error X
  bad_configuration : Error X
  wrong_result_count : Error X
  of_context : X → Error X
  of_handler : X → Error X

-- `item.state`
pub data ItemState : Type 0 where
  queued : ItemState
  dispatched : ItemState
  expired : ItemState

abbrev pub is_queued : ItemState → Bool
is_queued queued = true
is_queued _ = false

-- An item. Its context is what `ctx.Err()` gives before the handler runs (`err_before`) and
-- behind it (`err_after`), and its deadline; `reply` is the channel's buffer of one result.
pub record Item (X T R : Type 0) : Type 0 where
  pub value : T
  pub err_before : Option X
  pub err_after : Option X
  pub ctx_deadline : Option ℕ
  pub queue_expiry : ℕ
  pub state : ItemState
  pub reply : Option (Result (Error X) R)
  -- `dispatched` is closed.
  pub announced : Bool

pub record Scheduler (I : Type 0) : Type 0 where
  pub queue : List I
  pub max_queue : ℕ
  pub closed : Bool
  pub max_batch : ℕ
  pub max_delay : ℕ
  pub metrics : Metrics

module _ {X I : Type 0} where
  -- `New`, without the goroutine that it starts.
  unfoldable pub new : ℤ → ℤ → ℤ → Bool → Result (Error X) (Scheduler I)
  new max_queue max_batch max_delay has_handler =
      if ltb_ℤ max_queue (pos 1)
        || (ltb_ℤ max_batch (pos 1) || (leb_ℤ max_delay (pos 0) || not has_handler))
      then err bad_configuration
      else ok (record {
        queue = [];
        max_queue = positive_or 1 max_queue;
        closed = false;
        max_batch = positive_or 1 max_batch;
        max_delay = positive_or 1 max_delay;
        metrics = no_metrics;
      })

  -- The part of `Submit` in front of its wait: the context, the lock, and the send that does not
  -- block.
  unfoldable pub enqueue : Option X → I → Scheduler I → Result (Error X) (Scheduler I)
  enqueue (some x) it s = err (of_context x)
  enqueue none it s =
      if s.closed
      then err closed_error
      else if ltb (length s.queue) s.max_queue
      then ok (record s { queue = s.queue ++ (it ∷ []) })
      else err full_error

-- `Close`; the queue keeps what it holds.
unfoldable pub close : {I : Type 0} → Scheduler I → Scheduler I
close s = record s { closed = true }

-- `collectionWait`: the time until the deadline, 0 where it has passed, less the guard.
unfoldable pub collection_wait : ℕ → ℕ → ℕ → ℕ
collection_wait max_delay now deadline =
    let wait = deadline - now in
    let guard = if ltb (max_delay / 2) 50_000 then 50_000 else max_delay / 2 in
    if ltb guard wait then wait - guard else wait

-- An item that is put on the queue stands at its end, the queue stays within its capacity, and the
-- scheduler was not closed.
pub enqueue_bound :
    {X I : Type 0} (e : Option X) (it : I) (s t : Scheduler I)
    → length s.queue ≤ s.max_queue
    → enqueue e it s ≡ ok t
    → (t.queue ≡ s.queue ++ (it ∷ [])) × (length t.queue ≤ t.max_queue) × (s.closed ≡ false)
unfolding enqueue
enqueue_bound (some x) it s t h e = absurd (cc)
enqueue_bound none it s t h e = elim (Bool-cases s.closed) [
  | inl c ↦ absurd (ground (arith, e, c))
  | inr c ↦ elim (Bool-cases (ltb (length s.queue) s.max_queue)) [
    | inr l ↦ absurd (ground (arith, e, c, l))
    | inl l ↦
        subst
          (λ u.
            (u.queue ≡ s.queue ++ (it ∷ [])) × (length u.queue ≤ u.max_queue) × (s.closed ≡ false))
          {x = record s { queue = s.queue ++ (it ∷ []) }} {y = t} (ground (arith, e, c, l))
          (refl, ground (arith, l, length-append s.queue (it ∷ [])), c)
  ]
]

-- A collection ends by its deadline, and exactly half of maxDelay before it where that is at least
-- 50 microseconds and so much time is left.
pub collection_wait_bounds :
    (max_delay now deadline : ℕ)
    → now ≤ deadline
    → let wait = collection_wait max_delay now deadline in
      (now + wait ≤ deadline)
      × (now + max_delay / 2 < deadline
          → 50_000 ≤ max_delay / 2
          → now + wait + max_delay / 2 ≡ deadline)
unfolding collection_wait
collection_wait_bounds max_delay now deadline h =
    (ground (arith, h), λ g k. ground (arith, h, g, k))
