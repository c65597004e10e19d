-- ===== src/Worker/Seats.antt =====
-- A round of the pool of serving_plane/worker/worker.go: from any start it comes by every worker once.
use distributed_fraud_detect.Prelude.{
  ℕ, zero, suc, ◌+◌, ◌-◌, ◌%◌, ◌≤◌, ◌<◌, ◌≡◌, refl, ap, sym, ◌∙◌, true, List, [], ◌∷◌, inl, inr,
  arith, ltb, leb, eqb, if◌then◌else◌, count, nat_key, Bool-cases, subst, length, take, map, every,
  ◌++◌, err,
}
use native.Mathlib.Nat.{mod-lt, mod-eq_of_lt, mod-eq-sub-mod}
use distributed_fraud_detect.Worker.Pool.{Workers, State, PoolError, Visit, infer}
use distributed_fraud_detect.Worker.Failover.{seats, worker_of, is_miss, Served, infer-Served}

-- The offset at which a round from `start` comes by a worker.
abbrev turn : ℕ → ℕ → ℕ → ℕ
turn n start i = if leb start i then i - start else i + n - start

around :
    (n start offset : ℕ)
    → start < n
    → offset < n
    → (start + offset) % n ≡ (if ltb (start + offset) n then start + offset else start + offset - n)
around n start offset s o = elim (Bool-cases (ltb (start + offset) n)) [
  | inl e ↦ rw e (mod-eq_of_lt (ground (arith, e)))
  | inr e ↦ rw e (mod-eq-sub-mod (ground (arith, e)) ∙ mod-eq_of_lt (ground (arith, e, s, o)))
]

seat_lem :
    (n start i offset : ℕ)
    → start < n
    → i < n
    → offset < n
    → eqb ((start + offset) % n) i ≡ eqb (turn n start i) offset
seat_lem n start i offset s h o = ground (arith, around n start offset s o, s, h, o)

count-seats :
    (n start i left offset : ℕ)
    → start < n
    → i < n
    → offset + left ≤ n
    → count i (seats n start offset left) ≡ (
        if leb offset (turn n start i)
        then if ltb (turn n start i) (offset + left) then 1 else 0
        else 0)
count-seats n start i zero offset s h o = ground arith
count-seats n start i (suc left) offset s h o = ground (
  arith,
  seat_lem n start i offset s h (omega (arith, o)),
  count-seats n start i left (offset + 1) s h (omega (arith, o)),
)

-- A round of as many seats as there are workers comes by each of them exactly once.
pub seats-once : (n start i : ℕ) → start < n → i < n → count i (seats n start 0 n) ≡ 1
seats-once n start i s h = ground (arith, count-seats n start i n 0 s h (omega arith), s, h)

length-seats : (n start offset left : ℕ) → length (seats n start offset left) ≡ left
length-seats n start offset zero = refl
length-seats n start offset (suc left) = ap suc (length-seats n start (offset + 1) left)

take-length : {A : Type 0} (xs : List A) → take (length xs) xs ≡ xs
take-length [] = refl
take-length (x ∷ xs) = ap (◌∷◌ x) (take-length xs)

-- An error of Infer says that in this call each worker of the pool was asked for exactly once, and
-- was unavailable or failed.
pub infer-err :
    {W X R : Type 0} (env : Workers W X R) (s : State W) (e : PoolError X)
    → (infer env s).0 ≡ err e
    → (vs : List Visit) × ((infer env s).1.visits ≡ s.visits ++ vs)
      × (every is_miss vs ≡ true)
      × ((i : ℕ) → i < s.pool.workers → count i (map worker_of vs) ≡ 1)
infer-err {R = R} env s e h =
    let n = s.pool.workers in
    let (vs, log, seated, ended, moved) = infer-Served env s in
    let ended' : Served {R = R} n (err e) vs = subst (λ r. Served {R = R} n r vs) h ended in
    let round : map worker_of vs ≡ seats n (s.pool.next % n) 0 n =
      seated
      ∙ ap (λ k. take k (seats n (s.pool.next % n) 0 n))
          (ended'.0 ∙ sym (length-seats n (s.pool.next % n) 0 n))
      ∙ take-length (seats n (s.pool.next % n) 0 n) in
    (
      vs,
      log,
      ended'.1,
      λ i l.
          ap (count i) round
          ∙ seats-once n (s.pool.next % n) i (mod-lt s.pool.next (omega (arith, l))) l,
    )
