-- ===== src/Scheduler/Collect.antt =====
-- `run` and `nextQueued` of serving_plane/scheduler/scheduler.go: how the loop makes batches of what
-- it receives. The outcomes of the loop's receives are an argument, in order: an item with the state
-- that the loop then loads, the fired timer, or the closed queue.
use distributed_fraud_detect.Prelude.{
  ℕ, zero, suc, ◌≤◌, ◌≡◌, refl, ap, sym, ◌∙◌, Bool, true, false, List, [], ◌∷◌, ◌++◌, Option, none,
  some, arith, ltb, if◌then◌else◌, length, length-append, inl, inr, Option-cases, Bool-cases, All,
}
use distributed_fraud_detect.Scheduler.State.{ItemState, queued, dispatched, expired, is_queued}
use mathlib.Core.List.{append_assoc}

pub data Arrival (I : Type 0) : Type 0 where
  item : I → ItemState → Arrival I
  timer : Arrival I
  queue_closed : Arrival I

-- What a collection leaves: the batch, its deadline, whether the queue is open, and what comes next.
pub record Collected (I : Type 0) : Type 0 where
  pub batch : List I
  pub deadline : ℕ
  pub queue_open : Bool
  pub rest : List (Arrival I)

abbrev pub concat : {I : Type 0} → List (List I) → List I
concat [] = []
concat (b ∷ bs) = b ++ concat bs

module _ {I : Type 0} (expiry : I → ℕ) (max_batch : ℕ) where
  -- The loop `collect`, with the batch so far.
  unfoldable pub collect : List (Arrival I) → List I → ℕ → Collected I
  collect [] batch deadline = record {
    batch = batch;
    deadline = deadline;
    queue_open = true;
    rest = [];
  }
  collect (timer ∷ more) batch deadline = elim (ltb (length batch) max_batch) [
    | true ↦ record { batch = batch; deadline = deadline; queue_open = true; rest = more }
    | false ↦ record { batch = batch; deadline = deadline; queue_open = true; rest = timer ∷ more }
  ]
  collect (queue_closed ∷ more) batch deadline = elim (ltb (length batch) max_batch) [
    | true ↦ record { batch = batch; deadline = deadline; queue_open = false; rest = more }
    | false ↦ record {
      batch = batch;
      deadline = deadline;
      queue_open = true;
      rest = queue_closed ∷ more;
    }
  ]
  collect (item i state ∷ more) batch deadline = elim (ltb (length batch) max_batch) [
    | false ↦ record {
      batch = batch;
      deadline = deadline;
      queue_open = true;
      rest = item i state ∷ more;
    }
    | true ↦ elim (is_queued state) [
      | false ↦ collect more batch deadline
      | true ↦
          collect more (batch ++ (i ∷ [])) (if ltb (expiry i) deadline then expiry i else deadline)
    ]
  ]

  -- `nextQueued`; none if the queue is closed, or if nothing more arrives. The timer of the last
  -- batch is stopped, so it says nothing here.
  unfoldable pub next_queued : List (Arrival I) → Option (I × List (Arrival I))
  next_queued [] = none
  next_queued (timer ∷ more) = next_queued more
  next_queued (queue_closed ∷ more) = none
  next_queued (item i state ∷ more) = elim (is_queued state) [
    | true ↦ some (i, more)
    | false ↦ next_queued more
  ]

  -- The batches that `run` dispatches, up to a number of rounds.
  unfoldable pub run : ℕ → List (Arrival I) → List (List I)
  run zero arrivals = []
  run (suc rounds) arrivals = elim (next_queued arrivals) [
    | none ↦ []
    | some (first, more) ↦
        let c = collect more (first ∷ []) (expiry first) in
        c.batch ∷ elim (c.queue_open) [ true ↦ run rounds c.rest | false ↦ [] ]
  ]

  -- The items that arrive queued, until the queue is closed.
  unfoldable pub accepted : List (Arrival I) → List I
  accepted [] = []
  accepted (timer ∷ more) = accepted more
  accepted (queue_closed ∷ more) = []
  accepted (item i state ∷ more) = if is_queued state then i ∷ accepted more else accepted more

  -- What is still to come behind a collection.
  abbrev to_come : Collected I → List I
  to_come c = elim (c.queue_open) [ true ↦ accepted c.rest | false ↦ [] ]

  collect-accepted :
      (arrivals : List (Arrival I)) (batch : List I) (d : ℕ)
      → let c = collect arrivals batch d in
        (c.batch ++ to_come c ≡ batch ++ accepted arrivals)
        × (length c.rest ≤ length arrivals)
        × (length batch ≤ max_batch → length c.batch ≤ max_batch)
        × (length batch ≤ length c.batch)
  unfolding collect accepted
  collect-accepted [] batch d = (refl, omega arith, λ h. h, omega arith)
  collect-accepted (timer ∷ more) batch d = elim (Bool-cases (ltb (length batch) max_batch)) [
    | inl e ↦ rw (e, collect) (refl, omega arith, λ h. h, omega arith)
    | inr e ↦ rw (e, collect) (refl, omega arith, λ h. h, omega arith)
  ]
  collect-accepted (queue_closed ∷ more) batch d =
      elim (Bool-cases (ltb (length batch) max_batch)) [
        | inl e ↦ rw (e, collect) (refl, omega arith, λ h. h, omega arith)
        | inr e ↦ rw (e, collect) (refl, omega arith, λ h. h, omega arith)
      ]
  collect-accepted (item i state ∷ more) batch d =
      elim (Bool-cases (ltb (length batch) max_batch)) [
        | inr e ↦ rw (e, collect) (refl, omega arith, λ h. h, omega arith)
        | inl e ↦ elim (Bool-cases (is_queued state)) [
          | inr q ↦
              let rest = collect-accepted more batch d in
              rw (e, collect, q) (rest.0, omega (arith, rest.1), rest.2, rest.3)
          | inl q ↦
              let rest =
                collect-accepted more (batch ++ (i ∷ []))
                  (if ltb (expiry i) d then expiry i else d) in
              let size = length-append batch (i ∷ []) in
              rw (e, collect, q)
                (
                  rest.0 ∙ append_assoc batch (i ∷ []) (accepted more),
                  omega (arith, rest.1),
                  λ h. rest.2 (ground (arith, size, e)),
                  omega (arith, rest.3, size),
                )
        ]
      ]

  next_queued-some :
      (arrivals : List (Arrival I)) (first : I) (more : List (Arrival I))
      → next_queued arrivals ≡ some (first, more)
      → (accepted arrivals ≡ first ∷ accepted more) × (suc (length more) ≤ length arrivals)
  unfolding next_queued accepted
  next_queued-some [] first more h = absurd (cc)
  next_queued-some (timer ∷ as') first more h =
      let rest = next_queued-some as' first more h in (rest.0, omega (arith, rest.1))
  next_queued-some (queue_closed ∷ as') first more h = absurd (cc)
  next_queued-some (item i queued ∷ as') first more h =
      let same : as' ≡ more = cc in (cc, omega (arith, ap length same))
  next_queued-some (item i dispatched ∷ as') first more h =
      let rest = next_queued-some as' first more h in (rest.0, omega (arith, rest.1))
  next_queued-some (item i expired ∷ as') first more h =
      let rest = next_queued-some as' first more h in (rest.0, omega (arith, rest.1))

  next_queued-none :
      (arrivals : List (Arrival I)) → next_queued arrivals ≡ none → accepted arrivals ≡ []
  unfolding next_queued accepted
  next_queued-none [] h = refl
  next_queued-none (timer ∷ as') h = next_queued-none as' h
  next_queued-none (queue_closed ∷ as') h = refl
  next_queued-none (item i state ∷ as') h = ground (arith, next_queued-none as')

  open_end : (c : Collected I) → c.queue_open ≡ true → accepted c.rest ≡ to_come c
  open_end c o = rw o refl

  closed_end : (c : Collected I) → c.queue_open ≡ false → [] ≡ to_come c
  closed_end c o = rw o refl

  -- However the receives and timers fall, and with a round for each arrival: the batches that are
  -- dispatched hold every item that arrived queued before the queue was closed, once and in order,
  -- and each batch has between one item and maxBatch.
  pub run-accepted :
      (rounds : ℕ) (arrivals : List (Arrival I))
      → length arrivals ≤ rounds
      → 1 ≤ max_batch
      → (concat (run rounds arrivals) ≡ accepted arrivals)
        × All (λ b. (1 ≤ length b) × (length b ≤ max_batch)) (run rounds arrivals)
  unfolding run accepted
  run-accepted zero [] h k = (refl, tt)
  run-accepted zero (a ∷ as') h k = absurd (omega (arith, h))
  run-accepted (suc rounds) arrivals h k = elim (Option-cases (next_queued arrivals)) [
    | inl e ↦ rw (e, run) (sym (next_queued-none arrivals e), tt)
    | inr (p, e) ↦
        let got = next_queued-some arrivals p.0 p.1 e in
        let made = collect-accepted p.1 (p.0 ∷ []) (expiry p.0) in
        let c = collect p.1 (p.0 ∷ []) (expiry p.0) in
        let size : (1 ≤ length c.batch) × (length c.batch ≤ max_batch) = (made.3, made.2 k) in
        elim (Bool-cases c.queue_open) [
          | inr o ↦
              rw (e, run, o) (ap (◌++◌ c.batch) (closed_end c o) ∙ made.0 ∙ sym got.0, (size, tt))
          | inl o ↦
              let rest = run-accepted rounds c.rest (omega (arith, got.1, made.1, h)) k in
              rw (e, run, o)
                (ap (◌++◌ c.batch) (rest.0 ∙ open_end c o) ∙ made.0 ∙ sym got.0, (size, rest.1))
        ]
  ]
