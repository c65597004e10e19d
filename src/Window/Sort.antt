-- ===== src/Window/Sort.antt =====
-- sort.SliceStable of the standard library on the events of a window, as stable insertion: the
-- element goes behind those that are not later than itself.
use distributed_fraud_detect.Prelude.{
  ℕ, ◌+◌, ◌≤◌, ◌≡◌, refl, inl, inr, List, [], ◌∷◌, ◌++◌, arith, ltb, if◌then◌else◌, Bool-cases,
  length, All, count, ◌==◌, true, false,
}
use distributed_fraud_detect.Text.{Text, text_key}

pub record WindowEvent (A : Type 0) : Type 0 where
  pub id : Text
  pub at : ℕ
  pub amount : A

module _ {A : Type 0} where
  abbrev pub ids : List (WindowEvent A) → List Text
  ids [] = []
  ids (x ∷ xs) = x.id ∷ ids xs

  insert_stable : WindowEvent A → List (WindowEvent A) → List (WindowEvent A)
  insert_stable x [] = x ∷ []
  insert_stable x (y ∷ ys) = if ltb x.at y.at then x ∷ y ∷ ys else y ∷ insert_stable x ys

  sort_into : List (WindowEvent A) → List (WindowEvent A) → List (WindowEvent A)
  sort_into sorted [] = sorted
  sort_into sorted (x ∷ xs) = sort_into (insert_stable x sorted) xs

  unfoldable pub slice_stable : List (WindowEvent A) → List (WindowEvent A)
  unfolding sort_into insert_stable
  slice_stable = sort_into []

  abbrev pub Follows : ℕ → List (WindowEvent A) → Type 0
  Follows t = All (λ y. t ≤ y.at)

  abbrev pub IsSorted : List (WindowEvent A) → Type 0
  IsSorted [] = Unit
  IsSorted (x ∷ xs) = Follows x.at xs × IsSorted xs

  Follows-mono : (s t : ℕ) (xs : List (WindowEvent A)) → s ≤ t → Follows t xs → Follows s xs
  Follows-mono s t [] h f = tt
  Follows-mono s t (x ∷ xs) h f = (omega arith, Follows-mono s t xs h f.1)

  insert_stable-Follows :
      (t : ℕ) (x : WindowEvent A) (ys : List (WindowEvent A))
      → t ≤ x.at
      → Follows t ys
      → Follows t (insert_stable x ys)
  unfolding insert_stable
  insert_stable-Follows t x [] h f = (h, tt)
  insert_stable-Follows t x (y ∷ ys) h f = ground (arith, insert_stable-Follows t x ys h f.1)

  insert_stable-IsSorted :
      (x : WindowEvent A) (ys : List (WindowEvent A)) → IsSorted ys → IsSorted (insert_stable x ys)
  unfolding insert_stable
  insert_stable-IsSorted x [] s = (tt, tt)
  insert_stable-IsSorted x (y ∷ ys) s = elim (Bool-cases (ltb x.at y.at)) [
    | inl lt ↦
        let le : x.at ≤ y.at = ground arith in rw lt ((le, Follows-mono x.at y.at ys le s.0), s)
    | inr ge ↦
        rw ge (insert_stable-Follows y.at x ys (ground arith) s.0, insert_stable-IsSorted x ys s.1)
  ]

  sort_into-IsSorted :
      (sorted xs : List (WindowEvent A)) → IsSorted sorted → IsSorted (sort_into sorted xs)
  unfolding sort_into
  sort_into-IsSorted sorted [] s = s
  sort_into-IsSorted sorted (x ∷ xs) s =
      sort_into-IsSorted (insert_stable x sorted) xs (insert_stable-IsSorted x sorted s)

  pub slice_stable-IsSorted : (xs : List (WindowEvent A)) → IsSorted (slice_stable xs)
  unfolding slice_stable
  slice_stable-IsSorted xs = sort_into-IsSorted [] xs tt

  -- Any predicate of the events is kept.
  insert_stable-All :
      (P : WindowEvent A → Type 0) (x : WindowEvent A) (ys : List (WindowEvent A))
      → P x
      → All P ys
      → All P (insert_stable x ys)
  unfolding insert_stable
  insert_stable-All P x [] h f = (h, tt)
  insert_stable-All P x (y ∷ ys) h f =
      elim (ltb x.at y.at) as (λ b. All P (if b then x ∷ y ∷ ys else y ∷ insert_stable x ys)) [
        | true ↦ (h, f)
        | false ↦ (f.0, insert_stable-All P x ys h f.1)
      ]

  sort_into-All :
      (P : WindowEvent A → Type 0) (sorted xs : List (WindowEvent A))
      → All P sorted
      → All P xs
      → All P (sort_into sorted xs)
  unfolding sort_into
  sort_into-All P sorted [] s f = s
  sort_into-All P sorted (x ∷ xs) s f =
      sort_into-All P (insert_stable x sorted) xs (insert_stable-All P x sorted f.0 s) f.1

  pub slice_stable-All :
      (P : WindowEvent A → Type 0) (xs : List (WindowEvent A)) → All P xs → All P (slice_stable xs)
  unfolding slice_stable
  slice_stable-All P xs f = sort_into-All P [] xs tt f

  -- A measure that sums over the events is not changed by sorting.
  abbrev pub sum_of : (WindowEvent A → ℕ) → List (WindowEvent A) → ℕ
  sum_of f [] = 0
  sum_of f (x ∷ xs) = f x + sum_of f xs

  sum_of-insert_stable :
      (f : WindowEvent A → ℕ) (x : WindowEvent A) (ys : List (WindowEvent A))
      → sum_of f (insert_stable x ys) ≡ f x + sum_of f ys
  unfolding insert_stable
  sum_of-insert_stable f x [] = refl
  sum_of-insert_stable f x (y ∷ ys) = ground (arith, sum_of-insert_stable f x ys)

  sum_of-sort_into :
      (f : WindowEvent A → ℕ) (sorted xs : List (WindowEvent A))
      → sum_of f (sort_into sorted xs) ≡ sum_of f sorted + sum_of f xs
  unfolding sort_into
  sum_of-sort_into f sorted [] = omega arith
  sum_of-sort_into f sorted (x ∷ xs) =
      omega (arith, sum_of-sort_into f (insert_stable x sorted) xs, sum_of-insert_stable f x sorted)

  pub sum_of-slice_stable :
      (f : WindowEvent A → ℕ) (xs : List (WindowEvent A)) → sum_of f (slice_stable xs) ≡ sum_of f xs
  unfolding slice_stable
  sum_of-slice_stable f xs = omega (arith, sum_of-sort_into f [] xs)

  pub sum_of-append :
      (f : WindowEvent A → ℕ) (xs ys : List (WindowEvent A))
      → sum_of f (xs ++ ys) ≡ sum_of f xs + sum_of f ys
  sum_of-append f [] ys = omega arith
  sum_of-append f (x ∷ xs) ys = omega (arith, sum_of-append f xs ys)

  pub length-sum_of : (xs : List (WindowEvent A)) → length xs ≡ sum_of (λ _. 1) xs
  length-sum_of [] = refl
  length-sum_of (x ∷ xs) = omega (arith, length-sum_of xs)

  abbrev pub occurs : Text → WindowEvent A → ℕ
  occurs id x = if x.id == id then 1 else 0

  pub count-sum_of :
      (id : Text) (xs : List (WindowEvent A)) → count id (ids xs) ≡ sum_of (occurs id) xs
  count-sum_of id [] = refl
  count-sum_of id (x ∷ xs) = omega (arith, count-sum_of id xs)
