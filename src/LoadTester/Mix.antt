-- ===== src/LoadTester/Mix.antt =====
-- The mix of entities in load_tester/main.go: `entityForIndex`, a weighted round robin.
use distributed_fraud_detect.Prelude.{
  ℕ, zero, suc, ◌+◌, ◌-◌, ◌%◌, ◌^◌, List, [], ◌∷◌, ◌++◌, Option, none, some, ltb, eqb,
  if◌then◌else◌, length, get_elem?, replicate, ℤ, pos, negsuc,
}
use distributed_fraud_detect.Text.{Text}
use distributed_fraud_detect.LoadTester.Settings.{LoadConfig}

-- A weight that has passed Validate, which is at least 1.
abbrev pub weight_of : ℤ → ℕ
weight_of (pos n) = n
weight_of (negsuc n) = 0

abbrev pub total_weight : List ℤ → ℕ
total_weight [] = 0
total_weight (w ∷ ws) = weight_of w + total_weight ws

abbrev pub last_of : List Text → Option Text
last_of [] = none
last_of (n ∷ []) = some n
last_of (n ∷ m ∷ ns) = last_of (m ∷ ns)

-- The loop of `entityForIndex` over the weights and, in step, the entities; none where the code reads
-- behind the end. `last` is what it returns behind the loop.
unfoldable pub pick : Option Text → List ℤ → List Text → ℕ → Option Text
pick last [] names position = last
pick last (w ∷ ws) [] position =
    let rest = pick last ws [] (position - weight_of w) in
    if ltb position (weight_of w) then none else rest
pick last (w ∷ ws) (n ∷ ns) position =
    let rest = pick last ws ns (position - weight_of w) in
    if ltb position (weight_of w) then some n else rest

-- The size of the sum of the weights, in an int that wraps around; `%` takes the sign of an index.
unfoldable pub modulus : List ℤ → ℕ
modulus ws = let t = total_weight ws % 2 ^ 64 in if ltb t (2 ^ 63) then t else 2 ^ 64 - t

-- `entityForIndex`; none stands for a panic.
unfoldable pub entity_for_index : {A : Type 0} → LoadConfig A → ℕ → Option Text
unfolding pick modulus
entity_for_index c index =
    if eqb (length c.entity_weights) 0
    then get_elem? c.entities (index % length c.entities)
    else if eqb (modulus c.entity_weights) 0
    then none
    else pick (last_of c.entities) c.entity_weights c.entities (index % modulus c.entity_weights)

-- The indices from one on.
abbrev pub indices : ℕ → ℕ → List ℕ
indices start zero = []
indices start (suc n) = start ∷ indices (suc start) n

-- One turn of the mix: each entity as often as its weight says.
unfoldable pub turn : List ℤ → List Text → List Text
turn [] names = []
turn (w ∷ ws) [] = []
turn (w ∷ ws) (n ∷ ns) = replicate (weight_of w) n ++ turn ws ns
