-- ===== src/Worker/Failover.antt =====
-- Which workers a call of `Infer` of serving_plane/worker/worker.go visits.
use distributed_fraud_detect.Prelude.{
  ℕ, zero, suc, ◌+◌, ◌%◌, ◌^◌, ◌≡◌, refl, ap, sym, ◌∙◌, Bool, true, false, List, [], ◌∷◌, ◌++◌, map,
  Option, none, some, inl, inr, arith, length, take, every, nat_key, Bool-cases, Result-cases,
  Result, ok, err,
}
use mathlib.Core.List.{append_assoc, append-nil}
use distributed_fraud_detect.Worker.Pool.{
  Budget, Workers, Visit, unavailable, failed, served, PoolError, State, attempt_context, mark_down,
  mark_up, available, visit, call_worker, infer_loop, infer,
}

abbrev pub worker_of : Visit → ℕ
worker_of (unavailable i) = i
worker_of (failed i) = i
worker_of (served i) = i

abbrev pub is_miss : Visit → Bool
is_miss (unavailable i) = true
is_miss (failed i) = true
is_miss (served i) = false

-- The workers from `start` on, around the pool.
abbrev pub seats : ℕ → ℕ → ℕ → ℕ → List ℕ
seats workers start offset zero = []
seats workers start offset (suc left) =
    (start + offset) % workers ∷ seats workers start (offset + 1) left

-- A result is the last worker's, behind misses; an error is a miss of all of `left` workers.
abbrev pub Served : {X R : Type 0} → ℕ → Result (PoolError X) R → List Visit → Type 0
Served left (ok v) vs =
    (front : List Visit) × (i : ℕ) × (vs ≡ front ++ (served i ∷ [])) × (every is_miss front ≡ true)
Served left (err e) vs = (length vs ≡ left) × (every is_miss vs ≡ true)

Served-more :
    {X R : Type 0} (left : ℕ) (r : Result (PoolError X) R) (v : Visit) (vs : List Visit)
    → is_miss v ≡ true
    → Served left r vs
    → Served (suc left) r (v ∷ vs)
Served-more left (ok x) v vs m (front, i, e, f) = (v ∷ front, i, ap (◌∷◌ v) e, ground (arith, m, f))
Served-more left (err x) v vs m h = (ap suc h.0, ground (arith, m, h.1))

module _ {W X R : Type 0} (env : Workers W X R) where
  -- What availability checks leave alone.
  abbrev Keeps : State W → State W → Type 0
  Keeps s t =
      (t.pool.workers ≡ s.pool.workers) × (t.pool.next ≡ s.pool.next) × (t.visits ≡ s.visits)

  available-Keeps : (b : Budget) (i : ℕ) (s : State W) → Keeps s (available env b i s).1
  unfolding available mark_down mark_up
  available-Keeps b i s = (ground arith, ground arith, ground arith)

  -- What a call of a worker notes.
  call_worker-ok :
      (b : Budget) (i : ℕ) (s : State W) (v : R)
      → (call_worker env b i s).0 ≡ ok v
      → (call_worker env b i s).1.visits ≡ s.visits ++ (served i ∷ [])
  unfolding call_worker visit
  call_worker-ok b i s v e =
      ap (λ r. s.visits ++ (elim r [ ok v ↦ served i | err x ↦ failed i ] ∷ [])) e

  call_worker-err :
      (b : Budget) (i : ℕ) (s : State W) (x : X)
      → (call_worker env b i s).0 ≡ err x
      → (call_worker env b i s).1.visits ≡ s.visits ++ (failed i ∷ [])
  unfolding call_worker visit
  call_worker-err b i s x e =
      ap (λ r. s.visits ++ (elim r [ ok v ↦ served i | err x ↦ failed i ] ∷ [])) e

  call_worker-pool : (b : Budget) (i : ℕ) (s : State W) → (call_worker env b i s).1.pool ≡ s.pool
  unfolding call_worker visit
  call_worker-pool b i s = refl

  -- The state behind a failed call: the worker is marked down unless the caller has given up.
  abbrev after_failure : ℕ → State W → State W
  after_failure i s = elim (env.ctx_err s.world) [ some c ↦ s | none ↦ mark_down env i s ]

  after_failure-Keeps : (i : ℕ) (s : State W) → Keeps s (after_failure i s)
  unfolding mark_down
  after_failure-Keeps i s = (ground arith, ground arith, ground arith)

  -- A loop's visits behind `s`.
  abbrev Visits : ℕ → ℕ → ℕ → State W → Result (PoolError X) R × State W → Type 0
  Visits left offset start s r =
      (vs : List Visit) × (r.1.visits ≡ s.visits ++ vs)
      × (map worker_of vs ≡ take (length vs) (seats s.pool.workers start offset left))
      × Served left r.0 vs
      × (r.1.pool.next ≡ s.pool.next)

  -- A miss in front of a loop's visits.
  Visits-more :
      (left offset start : ℕ) (s t : State W) (v : Visit) (r : Result (PoolError X) R × State W)
      → t.pool.workers ≡ s.pool.workers
      → t.pool.next ≡ s.pool.next
      → t.visits ≡ s.visits ++ (v ∷ [])
      → worker_of v ≡ (start + offset) % s.pool.workers
      → is_miss v ≡ true
      → Visits left (offset + 1) start t r
      → Visits (suc left) offset start s r
  Visits-more left offset start s t v r n k log w m (vs, log', seated, ended, next') = (
    v ∷ vs,
    log' ∙ ap (λ l. l ++ vs) log ∙ append_assoc s.visits (v ∷ []) vs,
    ap (λ x. x ∷ map worker_of vs) w
        ∙ ap (◌∷◌ ((start + offset) % s.pool.workers))
            (seated ∙ ap (λ c. take (length vs) (seats c start (offset + 1) left)) n),
    Served-more left r.0 v vs m ended,
    next' ∙ k,
  )

  infer_loop-Visits :
      (left offset start : ℕ) (last : Option X) (s : State W)
      → Visits left offset start s (infer_loop env left offset start last s)
  unfolding infer_loop visit call_worker mark_down
  infer_loop-Visits zero offset start last s =
      ([], sym (append-nil s.visits), refl, (refl, refl), refl)
  infer_loop-Visits (suc left) offset start last s =
      let i = (start + offset) % s.pool.workers in
      let b = attempt_context (env.time_left s.world) (suc left) in
      let s1 = (available env b i s).1 in
      let kept = available-Keeps b i s in
      elim (Bool-cases (available env b i s).0) [
        | inr up ↦
            rw (up, infer_loop)
              (Visits-more left offset start s (visit env (unavailable i) s1) (unavailable i)
                (infer_loop env left (offset + 1) start last (visit env (unavailable i) s1)) kept.0
                kept.1 (ap (λ l. l ++ (unavailable i ∷ [])) kept.2) refl refl
                (infer_loop-Visits left (offset + 1) start last (visit env (unavailable i) s1)))
        | inl up ↦
            let s2 = (call_worker env b i s1).1 in
            let pool : s2.pool ≡ s1.pool = call_worker-pool b i s1 in
            let after = after_failure-Keeps i s2 in
            elim (Result-cases (call_worker env b i s1).0) [
              | inl (v, e) ↦
                  rw (up, infer_loop, e)
                    (
                      served i ∷ [],
                      call_worker-ok b i s1 v e ∙ ap (λ l. l ++ (served i ∷ [])) kept.2,
                      refl,
                      ([], i, refl, refl),
                      ap (λ p. p.next) pool ∙ kept.1,
                    )
              | inr (x, e) ↦
                  rw (up, infer_loop, e)
                    (Visits-more left offset start s (after_failure i s2) (failed i)
                      (infer_loop env left (offset + 1) start (some x) (after_failure i s2))
                      (after.0 ∙ ap (λ p. p.workers) pool ∙ kept.0)
                      (after.1 ∙ ap (λ p. p.next) pool ∙ kept.1)
                      (after.2 ∙ call_worker-err b i s1 x e ∙ ap (λ l. l ++ (failed i ∷ [])) kept.2)
                      refl refl
                      (infer_loop-Visits left (offset + 1) start (some x) (after_failure i s2)))
            ]
      ]

  -- A call of Infer visits the workers in turn from the one the counter names, around the pool: it
  -- gives a result only behind the first worker that serves, and an error only once every worker was
  -- unavailable or has failed; the counter moves on by one, modulo 2^64.
  pub infer-Served :
      (s : State W)
      → let n = s.pool.workers in
        let r = infer env s in
        (vs : List Visit) × (r.1.visits ≡ s.visits ++ vs)
        × (map worker_of vs ≡ take (length vs) (seats n (s.pool.next % n) 0 n))
        × Served n r.0 vs
        × (r.1.pool.next ≡ (s.pool.next + 1) % 2 ^ 64)
  unfolding infer
  infer-Served s =
      infer_loop-Visits s.pool.workers 0 (s.pool.next % s.pool.workers) none
        (record s { pool = record s.pool { next = (s.pool.next + 1) % 2 ^ 64 } })
