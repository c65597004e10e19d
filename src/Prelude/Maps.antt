-- ===== src/Prelude/Maps.antt =====
-- Go maps as association lists: a write replaces the entry of its key or adds one at the end, and
-- a read of a missing key gives the zero value of the element type.
use Prim.Native.Nat.{ℕ, suc, ◌+◌}
use mathlib.Core.Path.{◌≡◌, refl, subst}
use mathlib.Core.Bool.{true, false}
use mathlib.Core.List.{List, [], ◌∷◌}
use mathlib.Core.Option.{Option, none, some}
use mathlib.Core.Logic.{inl, inr}
use native.Mathlib.Omega.{arith}
use distributed_fraud_detect.Prelude.Tests.{if◌then◌else◌, Key, ◌==◌, Bool-cases, ==_refl}
use distributed_fraud_detect.Prelude.Lists.{length, contains, erase}

abbrev pub Map {ℓ κ} : Type ℓ → Type κ → Type (ℓ ⊔ κ)
Map K V = List (K × V)

abbrev pub measure {κ} : {V : Type κ} → (V → ℕ) → Option V → ℕ
measure f none = 0
measure f (some v) = f v

-- What a write does to the keys.
abbrev pub add_key {ℓ} : {K : Type ℓ} ⦃e : Key K⦄ → K → List K → List K
add_key k [] = k ∷ []
add_key k (j ∷ ks) = if j == k then k ∷ ks else j ∷ add_key k ks

module _ {ℓ κ} {K : Type ℓ} {V : Type κ} where
  abbrev pub keys : Map K V → List K
  keys [] = []
  keys ((k, _) ∷ m) = k ∷ keys m

  pub length-keys : (m : Map K V) → length (keys m) ≡ length m
  length-keys [] = refl
  length-keys ((k, v) ∷ m) = omega (arith, length-keys m)

  -- The sum of a measure over the values.
  abbrev pub total : (V → ℕ) → Map K V → ℕ
  total f [] = 0
  total f ((_, v) ∷ m) = f v + total f m

  abbrev pub AllValues {μ} : (V → Type μ) → Map K V → Type μ
  AllValues P [] = Unit
  AllValues P ((_, v) ∷ m) = P v × AllValues P m

module _ {ℓ κ} {K : Type ℓ} {V : Type κ} ⦃e : Key K⦄ where
  abbrev pub lookup : K → Map K V → Option V
  lookup k [] = none
  lookup k ((j, v) ∷ m) = if j == k then some v else lookup k m

  abbrev pub get_or : K → Map K V → V → V
  get_or k m d = elim (lookup k m) [ none ↦ d | some v ↦ v ]

  abbrev pub insert : K → V → Map K V → Map K V
  insert k v [] = (k, v) ∷ []
  insert k v ((j, w) ∷ m) = if j == k then (k, v) ∷ m else (j, w) ∷ insert k v m

  abbrev pub delete : K → Map K V → Map K V
  delete k [] = []
  delete k ((j, w) ∷ m) = if j == k then m else (j, w) ∷ delete k m

  pub lookup-insert :
      (k j : K) (v : V) (m : Map K V)
      → lookup j (insert k v m) ≡ (if k == j then some v else lookup j m)
  lookup-insert k j v [] = refl
  lookup-insert k j v ((i, w) ∷ m) =
      ground (arith, e.same_iff k j, e.same_iff i k, e.same_iff i j, lookup-insert k j v m)

  pub lookup-insert_self : (k : K) (v : V) (m : Map K V) → lookup k (insert k v m) ≡ some v
  lookup-insert_self k v m = ground (arith, lookup-insert k k v m, ==_refl k)

  pub lookup-delete_ne :
      (k j : K) (m : Map K V) → (k == j) ≡ false → lookup j (delete k m) ≡ lookup j m
  lookup-delete_ne k j [] h = refl
  lookup-delete_ne k j ((i, w) ∷ m) h =
      ground (arith, e.same_iff i k, e.same_iff i j, e.same_iff k j, lookup-delete_ne k j m)

  pub lookup-keys : (k : K) (m : Map K V) → (lookup k m ≡ none) → contains (keys m) k ≡ false
  lookup-keys k [] h = refl
  lookup-keys k ((j, v) ∷ m) h = ground (arith, lookup-keys k m)

  pub keys-lookup : (k : K) (m : Map K V) → contains (keys m) k ≡ false → lookup k m ≡ none
  keys-lookup k [] h = refl
  keys-lookup k ((j, v) ∷ m) h = ground (arith, keys-lookup k m)

  pub keys-insert : (k : K) (v : V) (m : Map K V) → keys (insert k v m) ≡ add_key k (keys m)
  keys-insert k v [] = refl
  keys-insert k v ((j, w) ∷ m) = ground (arith, keys-insert k v m)

  pub keys-delete : (k : K) (m : Map K V) → keys (delete k m) ≡ erase (keys m) k
  keys-delete k [] = refl
  keys-delete k ((j, w) ∷ m) = ground (arith, keys-delete k m)

  pub total-insert :
      (f : V → ℕ) (k : K) (v : V) (m : Map K V)
      → total f (insert k v m) + measure f (lookup k m) ≡ total f m + f v
  total-insert f k v [] = omega arith
  total-insert f k v ((j, w) ∷ m) = ground (arith, total-insert f k v m)

  pub total-delete :
      (f : V → ℕ) (k : K) (m : Map K V) → total f (delete k m) + measure f (lookup k m) ≡ total f m
  total-delete f k [] = omega arith
  total-delete f k ((j, w) ∷ m) = ground (arith, total-delete f k m)

  pub AllValues-insert {μ} :
      (P : V → Type μ) (k : K) (v : V) (m : Map K V)
      → P v
      → AllValues P m
      → AllValues P (insert k v m)
  AllValues-insert P k v [] hv hm = (hv, tt)
  AllValues-insert P k v ((j, w) ∷ m) hv hm =
      elim (j == k) as (λ b. AllValues P (if b then (k, v) ∷ m else (j, w) ∷ insert k v m)) [
        | true ↦ (hv, hm.1)
        | false ↦ (hm.0, AllValues-insert P k v m hv hm.1)
      ]

  pub AllValues-delete {μ} :
      (P : V → Type μ) (k : K) (m : Map K V) → AllValues P m → AllValues P (delete k m)
  AllValues-delete P k [] hm = tt
  AllValues-delete P k ((j, w) ∷ m) hm =
      elim (j == k) as (λ b. AllValues P (if b then m else (j, w) ∷ delete k m)) [
        | true ↦ hm.1
        | false ↦ (hm.0, AllValues-delete P k m hm.1)
      ]

  pub AllValues-lookup {μ} :
      (P : V → Type μ) (k : K) (m : Map K V) {v : V} → AllValues P m → lookup k m ≡ some v → P v
  AllValues-lookup P k [] hm h = absurd (cc)
  AllValues-lookup P k ((j, w) ∷ m) {v} hm h = elim (Bool-cases (j == k)) [
    | inl hit ↦ let same : w ≡ v = ground arith in subst P same hm.0
    | inr miss ↦ AllValues-lookup P k m hm.1 (ground arith)
  ]

module _ {ℓ} {K : Type ℓ} ⦃e : Key K⦄ where
  pub length-add_key_new :
      (k : K) (ks : List K) → contains ks k ≡ false → length (add_key k ks) ≡ suc (length ks)
  length-add_key_new k [] h = refl
  length-add_key_new k (j ∷ ks) h = ground (arith, length-add_key_new k ks)

  pub length-add_key_old :
      (k : K) (ks : List K) → contains ks k ≡ true → length (add_key k ks) ≡ length ks
  length-add_key_old k [] h = cc
  length-add_key_old k (j ∷ ks) h = ground (arith, length-add_key_old k ks)

  pub length-erase :
      (k : K) (ks : List K) → contains ks k ≡ true → suc (length (erase ks k)) ≡ length ks
  length-erase k [] h = cc
  length-erase k (j ∷ ks) h = ground (arith, length-erase k ks)

  pub contains-add_key :
      (k j : K) (ks : List K) → contains (add_key k ks) j ≡ (if k == j then true else contains ks j)
  contains-add_key k j [] = refl
  contains-add_key k j (i ∷ ks) =
      ground (arith, e.same_iff k j, e.same_iff i k, e.same_iff i j, contains-add_key k j ks)

  pub contains-erase_ne :
      (k j : K) (ks : List K) → (k == j) ≡ false → contains (erase ks k) j ≡ contains ks j
  contains-erase_ne k j [] h = refl
  contains-erase_ne k j (i ∷ ks) h =
      ground (arith, e.same_iff k j, e.same_iff i k, e.same_iff i j, contains-erase_ne k j ks)
