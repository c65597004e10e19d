-- ===== src/Worker/Pool.antt =====
-- The pool of serving_plane/worker/worker.go: round robin over workers, which are set aside for a
-- while when they fail. The workers, the clock and the context are arguments, over a world `W`;
-- `R` are the results of a call and `X` the errors. What a call of Infer does with each worker is
-- noted in a log, in order.
use distributed_fraud_detect.Prelude.{
  ℕ, zero, suc, ◌+◌, ◌/◌, ◌%◌, ◌^◌, Bool, true, false, List, [], ◌∷◌, ◌++◌, Option, none, some, ltb,
  eqb, if◌then◌else◌, ℤ, pos, negsuc, positive_or, Map, lookup, insert, delete, nat_key, Result, ok,
  err,
}

-- How long an attempt may take: as long as the caller's context, or at most a time.
pub data Budget : Type 0 where
  of_caller : Budget
  at_most : ℕ → Budget

pub record Workers (W X R : Type 0) : Type 0 where
  pub infer : ℕ → Budget → W → Result X R × W
  pub healthy : ℕ → Budget → W → Option X × W
  pub now : W → ℕ
  -- `time.Until` of the context's deadline, if it has one.
  pub time_left : W → Option ℤ
  pub ctx_err : W → Option X

pub record Pool : Type 0 where
  pub workers : ℕ
  pub probe_every : ℕ
  pub next : ℕ
  pub unhealthy : Map ℕ ℕ

pub data Visit : Type 0 where
  unavailable : ℕ → Visit
  failed : ℕ → Visit
  served : ℕ → Visit

pub data PoolError (X : Type 0) : Type 0 where
  empty_pool : PoolError X
  no_healthy_worker : PoolError X
  of_worker : X → PoolError X

pub record State (W : Type 0) : Type 0 where
  pub pool : Pool
  pub world : W
  pub visits : List Visit

-- `NewPool`
unfoldable pub new_pool : {X : Type 0} → ℕ → ℤ → Result (PoolError X) Pool
new_pool count probe_every =
    if eqb count 0
    then err empty_pool
    else ok (record {
      workers = count;
      probe_every = positive_or 1_000_000_000 probe_every;
      next = 0;
      unhealthy = [];
    })

-- `attemptContext`
unfoldable pub attempt_context : Option ℤ → ℕ → Budget
attempt_context none remaining = at_most 100_000_000
attempt_context (some (negsuc late)) remaining = of_caller
attempt_context (some (pos left)) remaining =
    let budget = left / (if ltb remaining 1 then 1 else remaining) in
    if eqb budget 0 then of_caller else at_most budget

module _ {W X R : Type 0} (env : Workers W X R) where
  -- `markDown`
  unfoldable pub mark_down : ℕ → State W → State W
  mark_down i s = record s {
    pool = record s.pool {
      unhealthy = insert i (env.now s.world + s.pool.probe_every) s.pool.unhealthy;
    };
  }

  unfoldable pub mark_up : ℕ → State W → State W
  mark_up i s = record s { pool = record s.pool { unhealthy = delete i s.pool.unhealthy } }

  unfoldable pub available : Budget → ℕ → State W → Bool × State W
  available budget i s = elim (lookup i s.pool.unhealthy) [
    | none ↦ (true, s)
    | some until ↦
        if ltb (env.now s.world) until
        then (false, s)
        else let (r, w) = env.healthy i budget s.world in
          let s1 = record s { world = w } in
          elim r [ some x ↦ (false, mark_down i s1) | none ↦ (true, mark_up i s1) ]
  ]

  unfoldable pub visit : Visit → State W → State W
  visit v s = record s { visits = s.visits ++ (v ∷ []) }

  -- One call of a worker.
  unfoldable pub call_worker : Budget → ℕ → State W → Result X R × State W
  call_worker budget i s =
      let (r, w) = env.infer i budget s.world in
      (r, visit (elim r [ ok v ↦ served i | err x ↦ failed i ]) (record s { world = w }))

  -- The loop of `Infer` with the rounds left, from `offset`.
  unfoldable pub infer_loop : ℕ → ℕ → ℕ → Option X → State W → Result (PoolError X) R × State W
  infer_loop zero offset start last s =
      (err (elim last [ none ↦ no_healthy_worker | some x ↦ of_worker x ]), s)
  infer_loop (suc left) offset start last s =
      let i = (start + offset) % s.pool.workers in
      let budget = attempt_context (env.time_left s.world) (suc left) in
      let (up, s1) = available budget i s in
      elim up [
        | false ↦ infer_loop left (offset + 1) start last (visit (unavailable i) s1)
        | true ↦
            let (r, s2) = call_worker budget i s1 in
            elim r [
              | ok v ↦ (ok v, s2)
              | err x ↦
                  infer_loop left (offset + 1) start (some x)
                    (elim (env.ctx_err s2.world) [ some c ↦ s2 | none ↦ mark_down i s2 ])
            ]
      ]

  -- `Infer`, with the counter that wraps around.
  unfoldable pub infer : State W → Result (PoolError X) R × State W
  infer s =
      infer_loop s.pool.workers 0 (s.pool.next % s.pool.workers) none
        (record s { pool = record s.pool { next = (s.pool.next + 1) % 2 ^ 64 } })

  -- The loop of `Healthy`, over the workers left, from `i`.
  unfoldable pub healthy_loop : ℕ → ℕ → State W → Option (PoolError X) × State W
  healthy_loop zero i s = (some no_healthy_worker, s)
  healthy_loop (suc left) i s =
      let (r, w) = env.healthy i (attempt_context (env.time_left s.world) (suc left)) s.world in
      let s1 = record s { world = w } in
      elim r [ none ↦ (none, mark_up i s1) | some x ↦ healthy_loop left (i + 1) (mark_down i s1) ]

  unfoldable pub healthy : State W → Option (PoolError X) × State W
  healthy s = healthy_loop s.pool.workers 0 s
