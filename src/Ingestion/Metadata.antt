-- ===== src/Ingestion/Metadata.antt =====
-- `safeMetadata` of stream_processor/ingestion/ingestion.go: what may stand in a DLQ header.
use distributed_fraud_detect.Prelude.{
  ℕ, zero, suc, ◌≤◌, ◌≡◌, ◌⊎◌, refl, Bool, true, false, not, ◌||◌, inl, inr, [], ◌∷◌, arith, ltb,
  leb, eqb, Bool-cases, length, length-take, take, every,
}
use distributed_fraud_detect.Text.{Text, rune_width, rune_width-high}

abbrev pub is_unsafe : ℕ → Bool
is_unsafe b = ltb b 0x20 || eqb b 0x7F

-- strings.Map with the function that drops control characters. `skip` counts the bytes of the
-- current character that are copied as they are; a byte that is no character becomes U+FFFD.
drop_controls : ℕ → Text → Text
drop_controls skip [] = []
drop_controls (suc skip) (b ∷ s) = b ∷ drop_controls skip s
drop_controls zero (b ∷ s) = elim (rune_width (b ∷ s)) [
  | zero ↦ 0xEF ∷ 0xBF ∷ 0xBD ∷ drop_controls 0 s
  | suc more ↦ elim (is_unsafe b) [ true ↦ drop_controls 0 s | false ↦ b ∷ drop_controls more s ]
]

unfoldable pub safe_metadata : Text → ℕ → Text
unfolding drop_controls rune_width
safe_metadata value max = take max (drop_controls 0 value)

Width-cases : (n : ℕ) → (n ≡ 0) ⊎ ((m : ℕ) × (n ≡ suc m))
Width-cases zero = inl refl
Width-cases (suc m) = inr (m, refl)

drop_controls-safe :
    (skip : ℕ) (s : Text)
    → every (leb 0x80) (take skip s) ≡ true
    → every (λ b. not (is_unsafe b)) (drop_controls skip s) ≡ true
unfolding drop_controls
drop_controls-safe skip [] h = refl
drop_controls-safe (suc skip) (b ∷ s) h = ground (arith, h, drop_controls-safe skip s)
drop_controls-safe zero (b ∷ s) h = elim (Width-cases (rune_width (b ∷ s))) [
  | inl e ↦ rw (e, drop_controls) (drop_controls-safe 0 s refl)
  | inr (more, e) ↦ elim (Bool-cases (is_unsafe b)) [
    | inl u ↦ rw (e, drop_controls, u) (drop_controls-safe 0 s refl)
    | inr u ↦
        rw (e, drop_controls, u)
          (ground (arith, u, drop_controls-safe more s (rune_width-high b more s e)))
  ]
]

every-take : (p : ℕ → Bool) (n : ℕ) (s : Text) → every p s ≡ true → every p (take n s) ≡ true
every-take p zero s h = refl
every-take p (suc n) [] h = refl
every-take p (suc n) (b ∷ s) h = ground (arith, h, every-take p n s)

-- Whatever the topic's name holds, the header made of it has at most `max` bytes, none of them an
-- ASCII control character.
pub safe_metadata_bounds :
    (value : Text) (max : ℕ)
    → (length (safe_metadata value max) ≤ max)
      × (every (λ b. not (is_unsafe b)) (safe_metadata value max) ≡ true)
unfolding safe_metadata
safe_metadata_bounds value max = (
  omega (arith, length-take max (drop_controls 0 value)),
  every-take (λ b. not (is_unsafe b)) max (drop_controls 0 value) (drop_controls-safe 0 value refl),
)
