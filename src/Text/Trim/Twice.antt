-- ===== src/Text/Trim/Twice.antt =====
-- strings.TrimSpace a second time: what is left by the first is not lost.
use distributed_fraud_detect.Prelude.{
  ℕ, zero, suc, ◌-◌, ◌≡◌, refl, sym, ap, subst, ◌∙◌, true, false, [], ◌∷◌, ◌++◌, inl, inr, arith,
  ltb, take, Bool-cases, Option-cases,
}
use distributed_fraud_detect.Text.{Text, lead, continues, runes, rune_width, is_empty}
use distributed_fraud_detect.Text.Trim.{starts_with_space, trim_front, trim_back, trim_text}

continues-append :
    (left low high : ℕ) (u v : Text)
    → continues left low high u ≡ true
    → (continues left low high (u ++ v) ≡ true) × (take left (u ++ v) ≡ take left u)
unfolding continues
continues-append zero low high u v h = (refl, refl)
continues-append (suc left) low high [] v h = absurd (cc)
continues-append (suc left) low high (b ∷ u) v h =
    let rest = continues-append left 0x80 0xBF u v (ground (arith, h)) in
    (ground (arith, h, rest.0), ap (◌∷◌ b) rest.1)

-- A whole character at the front stays one, whatever comes behind.
rune_width-append :
    (b k : ℕ) (u v : Text)
    → rune_width (b ∷ u) ≡ suc k
    → (rune_width (b ∷ u ++ v) ≡ suc k) × (take k (u ++ v) ≡ take k u)
unfolding rune_width
rune_width-append b k u v h = elim (Bool-cases (ltb b 0x80)) [
  | inl a ↦ let width : k ≡ 0 = ground (arith, h, a) in (ground (arith, h, a), rw width refl)
  | inr a ↦ elim (Option-cases (lead b)) [
    | inl e ↦ absurd (ground (arith, h, a, e))
    | inr (p, e) ↦ elim (Bool-cases (continues p.left p.low p.high u)) [
      | inr c ↦ absurd (ground (arith, h, a, e, c))
      | inl c ↦
          let more = continues-append p.left p.low p.high u v c in
          let width : p.left ≡ k = ground (arith, h, a, e, c) in
          (
            ground (arith, h, a, e, more.0, width),
            subst (λ n. take n (u ++ v) ≡ take n u) width more.1,
          )
    ]
  ]
]

starts_with_space-none : (s : Text) → rune_width s ≡ 0 → starts_with_space s ≡ false
unfolding starts_with_space runes
starts_with_space-none s h = rw (h, starts_with_space) refl

starts_with_space-empty : starts_with_space [] ≡ false
unfolding starts_with_space runes rune_width
starts_with_space-empty = refl

starts_with_space-same :
    (b k : ℕ) (u v : Text)
    → rune_width (b ∷ u) ≡ suc k
    → starts_with_space (b ∷ u) ≡ starts_with_space (b ∷ u ++ v)
unfolding starts_with_space
starts_with_space-same b k u v e =
    let more = rune_width-append b k u v e in rw (starts_with_space, e, more.0, more.1) refl

starts_with_space-append :
    (b : ℕ) (u v : Text)
    → starts_with_space (b ∷ u ++ v) ≡ false
    → starts_with_space (b ∷ u) ≡ false
starts_with_space-append b u v h = go (rune_width (b ∷ u)) refl
  where
    go : (n : ℕ) → rune_width (b ∷ u) ≡ n → starts_with_space (b ∷ u) ≡ false
    go zero e = starts_with_space-none (b ∷ u) e
    go (suc k) e = starts_with_space-same b k u v e ∙ h

trim_front-starts : (skip : ℕ) (s : Text) → starts_with_space (trim_front skip s) ≡ false
unfolding trim_front
trim_front-starts skip [] = starts_with_space-empty
trim_front-starts (suc skip) (b ∷ s) = trim_front-starts skip s
trim_front-starts zero (b ∷ s) = elim (Bool-cases (starts_with_space (b ∷ s))) [
  | inl e ↦ rw (e, trim_front) (trim_front-starts (rune_width (b ∷ s) - 1) s)
  | inr e ↦ rw (e, trim_front) e
]

-- What is dropped at the end.
trim_back-prefix : (skip : ℕ) (s : Text) → (v : Text) × (trim_back skip s ++ v ≡ s)
unfolding trim_back
trim_back-prefix skip [] = ([], refl)
trim_back-prefix (suc skip) (b ∷ s) = let (v, e) = trim_back-prefix skip s in (v, ap (◌∷◌ b) e)
trim_back-prefix zero (b ∷ s) = elim (Bool-cases (is_empty (trim_front 0 (b ∷ s)))) [
  | inl e ↦ (b ∷ s, rw (e, trim_back) refl)
  | inr e ↦
      let (v, f) = trim_back-prefix (rune_width (b ∷ s) - 1) s in
      (v, rw (e, trim_back) (ap (◌∷◌ b) f))
]

-- A text that starts with no space is not emptied.
trim_front-keeps :
    (b : ℕ) (s : Text) → starts_with_space (b ∷ s) ≡ false → trim_front 0 (b ∷ s) ≡ b ∷ s
unfolding trim_front
trim_front-keeps b s h = rw (h, trim_front) refl

trim_back-keeps :
    (b : ℕ) (s : Text) → starts_with_space (b ∷ s) ≡ false → is_empty (trim_back 0 (b ∷ s)) ≡ false
unfolding trim_back
trim_back-keeps b s h = rw (trim_back, trim_front-keeps b s h) refl

trim_text-keeps :
    (s : Text) → starts_with_space s ≡ false → is_empty s ≡ false → is_empty (trim_text s) ≡ false
unfolding trim_text
trim_text-keeps [] h n = absurd (cc)
trim_text-keeps (b ∷ s) h n = rw (trim_front-keeps b s h) (trim_back-keeps b s h)

trim_back-starts :
    (s t : Text) → trim_back 0 s ≡ t → starts_with_space s ≡ false → starts_with_space t ≡ false
trim_back-starts s [] e h = starts_with_space-empty
trim_back-starts s (b ∷ t) e h =
    let (v, f) = trim_back-prefix 0 s in
    starts_with_space-append b t v
      (subst (λ x. starts_with_space x ≡ false) (sym f ∙ ap (λ x. x ++ v) e) h)

-- A trimmed text that is trimmed again is empty only if it was.
pub trim_text-is_empty :
    (s : Text) → is_empty (trim_text s) ≡ false → is_empty (trim_text (trim_text s)) ≡ false
unfolding trim_text
trim_text-is_empty s h =
    trim_text-keeps (trim_text s)
      (trim_back-starts (trim_front 0 s) (trim_text s) refl (trim_front-starts 0 s)) h
