-- ===== src/LoadTester/Turns.antt =====
-- That `entityForIndex` of load_tester/main.go goes through the entities in turns.
use native.Mathlib.Nat.{mul-add-mod_self_left, mod-eq_of_lt}
use distributed_fraud_detect.Prelude.{
  ℕ, zero, suc, ◌+◌, ◌-◌, ◌*◌, ◌%◌, ◌^◌, ◌≤◌, ◌<◌, ◌≡◌, refl, sym, ap, ◌∙◌, true, false, List, [],
  ◌∷◌, ◌++◌, map, Option, none, some, inl, inr, arith, eqb, if◌then◌else◌, length, every, get_elem?,
  replicate, ℤ, pos, negsuc, Bool-cases,
}
use mathlib.Core.Path.{ap₂}
use distributed_fraud_detect.Float.{Float64}
use distributed_fraud_detect.Text.{Text}
use distributed_fraud_detect.LoadTester.Settings.{LoadConfig, validate, is_positive}
use distributed_fraud_detect.LoadTester.Mix.{
  weight_of, total_weight, last_of, pick, modulus, entity_for_index, indices, turn,
}

map-append {ℓ κ} :
    {A : Type ℓ} {B : Type κ} (f : A → B) (xs ys : List A) → map f (xs ++ ys) ≡ map f xs ++ map f ys
map-append f [] ys = refl
map-append f (x ∷ xs) ys = ap (◌∷◌ (f x)) (map-append f xs ys)

indices-append : (start m n : ℕ) → indices start (m + n) ≡ indices start m ++ indices (start + m) n
indices-append start zero n =
    let none_more : 0 + n ≡ n = omega arith in
    let same : start ≡ start + 0 = omega arith in
    ap (indices start) none_more ∙ ap (λ s. indices s n) same
indices-append start (suc m) n =
    let one_more : suc m + n ≡ suc (m + n) = omega arith in
    let same : suc start + m ≡ start + suc m = omega arith in
    ap (indices start) one_more
    ∙ ap (◌∷◌ start)
        (indices-append (suc start) m n ∙ ap (λ s. indices (suc start) m ++ indices s n) same)

-- What is the same at each index of a range is the same on the range.
map-indices {ℓ} :
    {B : Type ℓ} (f g : ℕ → B) (a b n : ℕ)
    → ((k : ℕ) → k < n → f (a + k) ≡ g (b + k))
    → map f (indices a n) ≡ map g (indices b n)
map-indices f g a b zero h = refl
map-indices f g a b (suc n) h =
    let first : f a ≡ g b = ap f (omega arith) ∙ h 0 (omega arith) ∙ ap g (omega arith) in
    ap₂ ◌∷◌ first (
      map-indices f g (suc a) (suc b) n
        (λ k l. ap f (omega arith) ∙ h (suc k) (omega (arith, l)) ∙ ap g (omega arith)))

pick-front :
    (last : Option Text) (w : ℤ) (ws : List ℤ) (n : Text) (ns : List Text) (k : ℕ)
    → k < weight_of w
    → pick last (w ∷ ws) (n ∷ ns) k ≡ some n
unfolding pick
pick-front last w ws n ns k h = ground (arith, h)

pick-behind :
    (last : Option Text) (w : ℤ) (ws : List ℤ) (n : Text) (ns : List Text) (k : ℕ)
    → pick last (w ∷ ws) (n ∷ ns) (weight_of w + k) ≡ pick last ws ns k
unfolding pick
pick-behind last w ws n ns k =
    let same : weight_of w + k - weight_of w ≡ k = omega arith in ground (arith, same)

map-replicate : (n start : ℕ) (v : Option Text) → map (λ k. v) (indices start n) ≡ replicate n v
map-replicate zero start v = refl
map-replicate (suc n) start v = ap (◌∷◌ v) (map-replicate n (suc start) v)

some-replicate : (n : ℕ) (v : Text) → replicate n (some v) ≡ map some (replicate n v)
some-replicate zero v = refl
some-replicate (suc n) v = ap (◌∷◌ (some v)) (some-replicate n v)

pick-turn :
    (last : Option Text) (ws : List ℤ) (ns : List Text)
    → length ws ≡ length ns
    → map (pick last ws ns) (indices 0 (total_weight ws)) ≡ map some (turn ws ns)
unfolding turn
pick-turn last [] ns h = refl
pick-turn last (w ∷ ws) [] h = absurd (omega (arith, h))
pick-turn last (w ∷ ws) (n ∷ ns) h =
    let f = pick last (w ∷ ws) (n ∷ ns) in
    let front : map f (indices 0 (weight_of w)) ≡ map some (replicate (weight_of w) n) =
      map-indices f (λ k. some n) 0 0 (weight_of w)
        (λ k l. pick-front last w ws n ns (0 + k) (omega (arith, l)))
      ∙ map-replicate (weight_of w) 0 (some n)
      ∙ some-replicate (weight_of w) n in
    let back : map f (indices (0 + weight_of w) (total_weight ws)) ≡ map some (turn ws ns) =
      map-indices f (pick last ws ns) (0 + weight_of w) 0 (total_weight ws) (λ k l.
        ap f (omega arith) ∙ pick-behind last w ws n ns k ∙ ap (pick last ws ns) (omega arith))
      ∙ pick-turn last ws ns (omega (arith, h)) in
    ap (map f) (indices-append 0 (weight_of w) (total_weight ws))
    ∙ map-append f (indices 0 (weight_of w)) (indices (0 + weight_of w) (total_weight ws))
    ∙ ap₂ ◌++◌ front back
    ∙ sym (map-append some (replicate (weight_of w) n) (turn ws ns))

get_elem?-indices : (ns : List Text) → map (get_elem? ns) (indices 0 (length ns)) ≡ map some ns
get_elem?-indices [] = refl
get_elem?-indices (n ∷ ns) = ap (◌∷◌ (some n)) (
    map-indices (get_elem? (n ∷ ns)) (get_elem? ns) 1 0 (length ns) (λ k l.
      ap (get_elem? (n ∷ ns)) {x = 1 + k} {y = suc k} (omega arith)
      ∙ ap (get_elem? ns) (omega arith))
    ∙ get_elem?-indices ns)

-- The weights that a configuration stands for: its own, or 1 for each entity.
abbrev pub mix_weights : {A : Type 0} → LoadConfig A → List ℤ
mix_weights c =
    if eqb (length c.entity_weights) 0
    then replicate (length c.entities) (pos 1)
    else c.entity_weights

total_weight-ones : (n : ℕ) → total_weight (replicate n (pos 1)) ≡ n
total_weight-ones zero = refl
total_weight-ones (suc n) = omega (arith, total_weight-ones n)

turn-ones : (ns : List Text) → turn (replicate (length ns) (pos 1)) ns ≡ ns
unfolding turn
turn-ones [] = refl
turn-ones (n ∷ ns) = ap (◌∷◌ n) (turn-ones ns)

-- The q-th turn of an index that is taken modulo its length.
map-turn {ℓ} :
    {B : Type ℓ} (f g : ℕ → B) (t q : ℕ)
    → ((k : ℕ) → f k ≡ g (k % t))
    → map f (indices (t * q) t) ≡ map g (indices 0 t)
map-turn f g t q h = map-indices f g (t * q) 0 t (λ k l.
    h (t * q + k) ∙ ap g (mul-add-mod_self_left t q k ∙ mod-eq_of_lt l) ∙ ap g (omega arith))

modulus-total_weight : (ws : List ℤ) → total_weight ws < 2 ^ 63 → modulus ws ≡ total_weight ws
unfolding modulus
modulus-total_weight ws l = ground (arith, l)

weight_positive : (w : ℤ) → is_positive w ≡ true → 1 ≤ weight_of w
weight_positive (pos n) h = ground (arith, h)
weight_positive (negsuc n) h = absurd (cc)

total_weight-positive :
    (ws : List ℤ) → every is_positive ws ≡ true → eqb (length ws) 0 ≡ false → 1 ≤ total_weight ws
total_weight-positive [] h e = absurd (cc)
total_weight-positive (w ∷ ws) h e = omega (arith, weight_positive w (ground (arith, h)))

module _ {A : Type 0} ⦃float : Float64 A⦄ (c : LoadConfig A) where
  validate-positive : validate c ≡ none → every is_positive c.entity_weights ≡ true
  unfolding validate
  validate-positive v = ground (arith, v)

  validate-lengths :
      validate c ≡ none
      → eqb (length c.entity_weights) 0 ≡ false
      → length c.entity_weights ≡ length c.entities
  unfolding validate
  validate-lengths v e = ground (arith, v, e)

  plain_index :
      (k : ℕ)
      → eqb (length c.entity_weights) 0 ≡ true
      → entity_for_index c k ≡ get_elem? c.entities (k % length c.entities)
  unfolding entity_for_index
  plain_index k e = rw (e, entity_for_index) refl

  weighted_index :
      (k : ℕ)
      → eqb (length c.entity_weights) 0 ≡ false
      → 1 ≤ total_weight c.entity_weights
      → total_weight c.entity_weights < 2 ^ 63
      → entity_for_index c k
        ≡ pick (last_of c.entities) c.entity_weights c.entities (k % total_weight c.entity_weights)
  unfolding entity_for_index
  weighted_index k e p l =
      let m = modulus-total_weight c.entity_weights l in
      let some_weight : eqb (total_weight c.entity_weights) 0 ≡ false = ground (arith, p) in
      rw (e, entity_for_index, m, some_weight) refl

  plain_turn :
      (q : ℕ)
      → eqb (length c.entity_weights) 0 ≡ true
      → let n = length c.entities in
        map (entity_for_index c) (indices (n * q) n)
        ≡ map some (turn (replicate n (pos 1)) c.entities)
  plain_turn q e =
      map-turn (entity_for_index c) (get_elem? c.entities) (length c.entities) q
        (λ k. plain_index k e)
      ∙ get_elem?-indices c.entities
      ∙ ap (map some) (sym (turn-ones c.entities))

  weighted_turn :
      (q : ℕ)
      → validate c ≡ none
      → eqb (length c.entity_weights) 0 ≡ false
      → total_weight c.entity_weights < 2 ^ 63
      → let t = total_weight c.entity_weights in
        map (entity_for_index c) (indices (t * q) t) ≡ map some (turn c.entity_weights c.entities)
  weighted_turn q v e l =
      let p = total_weight-positive c.entity_weights (validate-positive v) e in
      map-turn (entity_for_index c) (pick (last_of c.entities) c.entity_weights c.entities)
        (total_weight c.entity_weights) q (λ k. weighted_index k e p l)
      ∙ pick-turn (last_of c.entities) c.entity_weights c.entities (validate-lengths v e)

  -- In a configuration that passes Validate, with weights that add up to less than 2^63, the indices go through the entities in turns: in each turn
  -- every entity comes as often as its weight says (once, without weights), one after the other.
  pub entity_for_index-turn :
      (q : ℕ)
      → validate c ≡ none
      → total_weight c.entity_weights < 2 ^ 63
      → let t = total_weight (mix_weights c) in
        map (entity_for_index c) (indices (t * q) t) ≡ map some (turn (mix_weights c) c.entities)
  entity_for_index-turn q v l = elim (Bool-cases (eqb (length c.entity_weights) 0)) [
    | inl e ↦ rw (e, total_weight-ones (length c.entities)) (plain_turn q e)
    | inr e ↦ rw e (weighted_turn q v e l)
  ]
