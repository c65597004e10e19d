-- ===== src/Text/Trim.antt =====
-- strings.TrimSpace on any bytes: white space is dropped character by character from both ends, and
-- bytes that are no character stay.
pub mod Twice
use distributed_fraud_detect.Prelude.{
  ℕ, zero, suc, ◌-◌, ◌≡◌, refl, Bool, false, [], ◌∷◌, none, some, take, if◌then◌else◌,
}
use distributed_fraud_detect.Text.{Text, text, runes, rune_width, is_space, is_empty}

starts_with_space : Text → Bool
starts_with_space s = elim (runes (take (rune_width s) s)) [
  | none ↦ false
  | some rs ↦ elim rs [ [] ↦ false | r ∷ more ↦ is_space r ]
]

-- `skip` counts the bytes of the current character that are still to come.
trim_front : ℕ → Text → Text
trim_front skip [] = []
trim_front (suc skip) (b ∷ s) = trim_front skip s
trim_front zero (b ∷ s) =
    let rest = trim_front (rune_width (b ∷ s) - 1) s in
    if starts_with_space (b ∷ s) then rest else b ∷ s

trim_back : ℕ → Text → Text
trim_back skip [] = []
trim_back (suc skip) (b ∷ s) = b ∷ trim_back skip s
trim_back zero (b ∷ s) =
    let rest = trim_back (rune_width (b ∷ s) - 1) s in
    if is_empty (trim_front 0 (b ∷ s)) then [] else b ∷ rest

unfoldable pub trim_text : Text → Text
unfolding starts_with_space trim_front trim_back runes rune_width is_space
trim_text s = trim_back 0 (trim_front 0 s)

trims_both_ends : trim_text (0x20 ∷ 0xC2 ∷ 0xA0 ∷ text "a b\n ") ≡ text "a b"
unfolding trim_text
trims_both_ends = refl

-- A continuation byte alone is kept.
keeps_broken_bytes : trim_text (0x20 ∷ 0xA0 ∷ 0x20 ∷ []) ≡ 0xA0 ∷ []
unfolding trim_text
keeps_broken_bytes = refl
