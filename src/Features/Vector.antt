-- ===== src/Features/Vector.antt =====
-- strings.Join and strings.Split with a comma, on bytes.
use distributed_fraud_detect.Prelude.{
  ℕ, ◌≡◌, refl, ap, ◌∙◌, Bool, true, not, List, [], ◌∷◌, ◌++◌, arith, eqb, if◌then◌else◌, every,
  All, Bool-cases, inl, inr,
}
use distributed_fraud_detect.Text.{Text}

abbrev comma : ℕ
comma = 0x2C

abbrev pub no_comma : Text → Bool
no_comma s = every (λ b. not (eqb b comma)) s

unfoldable pub join : List Text → Text
join [] = []
join (s ∷ []) = s
join (s ∷ t ∷ rest) = s ++ (comma ∷ join (t ∷ rest))

-- Puts a byte in front of the first part.
abbrev pub onto : ℕ → List Text → List Text
onto b [] = (b ∷ []) ∷ []
onto b (s ∷ parts) = (b ∷ s) ∷ parts

unfoldable pub split : Text → List Text
split [] = [] ∷ []
split (b ∷ s) = let rest = split s in if eqb b comma then [] ∷ rest else onto b rest

split-word : (s : Text) → no_comma s ≡ true → split s ≡ s ∷ []
unfolding split
split-word [] h = refl
split-word (b ∷ s) h = elim (Bool-cases (eqb b comma)) [
  | inl e ↦ absurd (ground (arith, h, e))
  | inr e ↦ rw (e, split, split-word s (ground (arith, h, e))) refl
]

split-comma : (s t : Text) → no_comma s ≡ true → split (s ++ (comma ∷ t)) ≡ s ∷ split t
unfolding split
split-comma [] t h = refl
split-comma (b ∷ s) t h = elim (Bool-cases (eqb b comma)) [
  | inl e ↦ absurd (ground (arith, h, e))
  | inr e ↦ rw (e, split, split-comma s t (ground (arith, h, e))) refl
]

-- Parts without a comma come back from a join.
pub split-join :
    (s : Text) (rest : List Text)
    → All (λ t. no_comma t ≡ true) (s ∷ rest)
    → split (join (s ∷ rest)) ≡ s ∷ rest
unfolding join
split-join s [] h = split-word s h.0
split-join s (t ∷ rest) h = split-comma s (join (t ∷ rest)) h.0 ∙ ap (◌∷◌ s) (split-join t rest h.1)
