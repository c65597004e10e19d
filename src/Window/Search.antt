-- ===== src/Window/Search.antt =====
-- sort.Search of the standard library: the loop that the window uses to find its first live event.
use distributed_fraud_detect.Prelude.{
  ℕ, zero, suc, ◌+◌, ◌/◌, ◌≤◌, ◌<◌, ◌≡◌, Bool, true, false, inl, inr, arith, ltb, Bool-cases,
}

-- `for i < j { h := (i + j) / 2; if !f(h) { i = h + 1 } else { j = h } }; return i`. A round halves
-- the range, so its length is fuel enough.
search_loop : ℕ → (ℕ → Bool) → ℕ → ℕ → ℕ
search_loop zero f i j = i
search_loop (suc fuel) f i j = elim (ltb i j) [
  | false ↦ i
  | true ↦ elim (f ((i + j) / 2)) [
    | true ↦ search_loop fuel f i ((i + j) / 2)
    | false ↦ search_loop fuel f ((i + j) / 2 + 1) j
  ]
]

unfoldable pub search : ℕ → (ℕ → Bool) → ℕ
unfolding search_loop
search n f = search_loop n f 0 n

-- `r` splits the first `n` indices into those that fail the test and those that pass it.
pub record IsFirst (n : ℕ) (f : ℕ → Bool) (r : ℕ) : Type 0 where
  pub bounded : r ≤ n
  pub before : (k : ℕ) → k < r → f k ≡ false
  pub after : (k : ℕ) → r ≤ k → k < n → f k ≡ true

-- Once the test passes it passes from there on.
abbrev pub Monotone : ℕ → (ℕ → Bool) → Type 0
Monotone n f = (a b : ℕ) → a ≤ b → b < n → f a ≡ true → f b ≡ true

module _ (n : ℕ) (f : ℕ → Bool) (mono : Monotone n f) where
  below : (h : ℕ) → h < n → f h ≡ false → (k : ℕ) → k < h + 1 → f k ≡ false
  below h hn fh k hk = elim (Bool-cases (f k)) [
    | inl e ↦ ground (arith, mono k h (omega arith) hn e)
    | inr e ↦ e
  ]

  search_loop-IsFirst :
      (fuel i j : ℕ)
      → j ≤ i + fuel
      → i ≤ j
      → j ≤ n
      → ((k : ℕ) → k < i → f k ≡ false)
      → ((k : ℕ) → j ≤ k → k < n → f k ≡ true)
      → IsFirst n f (search_loop fuel f i j)
  unfolding search_loop
  search_loop-IsFirst zero i j enough le bound lo hi = record {
    bounded = omega arith;
    before = lo;
    after = λ k a b. hi k (omega arith) b;
  }
  search_loop-IsFirst (suc fuel) i j enough le bound lo hi = elim (Bool-cases (ltb i j)) [
    | inr done ↦
        rw (done, search_loop)
          (record { bounded = omega arith; before = lo; after = λ k a b. hi k (ground arith) b })
    | inl more ↦
        let lt : i < j = ground arith in
        elim (Bool-cases (f ((i + j) / 2))) [
          | inl pass ↦
              rw (more, pass, search_loop)
                (search_loop-IsFirst fuel i ((i + j) / 2) (omega arith) (omega arith) (omega arith)
                  lo (λ k a b. mono ((i + j) / 2) k a b pass))
          | inr fails ↦
              rw (more, fails, search_loop)
                (search_loop-IsFirst fuel ((i + j) / 2 + 1) j (omega arith) (omega arith) bound
                  (below ((i + j) / 2) (omega arith) fails) hi)
        ]
  ]

  -- On a monotone test the loop finds the first index that passes, or `n`.
  pub search-IsFirst : IsFirst n f (search n f)
  unfolding search
  search-IsFirst =
      search_loop-IsFirst n 0 n (omega arith) (omega arith) (omega arith)
        (λ k h. absurd (omega arith)) (λ k a b. absurd (omega arith))
