-- ===== src/Text.antt =====
-- Go strings as lists of bytes, with what the planes use of the packages strings, unicode and
-- unicode/utf8: validity, control characters, white space at the ends.
pub mod Trim
pub mod Controls
pub mod Digits
use Prim.Native.Char.{code}
use Prim.Native.String.{String}
use distributed_fraud_detect.Prelude.{
  ℕ, zero, suc, ◌+◌, ◌-◌, ◌*◌, ◌≤◌, ◌≡◌, ◌↔◌, refl, inl, inr, take, Bool-cases, Option-cases, Bool,
  true, false, not, ◌&&◌, ◌||◌, List, [], ◌∷◌, Option, none, some, arith, ltb, leb, eqb,
  if◌then◌else◌, Key, every,
}
use mathlib.Core.List.{reverse}
use mathlib.Core.Option

abbrev pub Text : Type 0
Text = List ℕ

-- The bytes of a literal in ASCII.
abbrev pub text : String → Text
text String.[] = []
text (String.◌∷◌ c s) = code c ∷ text s

abbrev pub text_beq : Text → Text → Bool
text_beq [] [] = true
text_beq (a ∷ s) (b ∷ t) = eqb a b && text_beq s t
text_beq _ _ = false

text_beq→eq : (s t : Text) → text_beq s t ≡ true → s ≡ t
text_beq→eq [] [] h = refl
text_beq→eq (a ∷ s) (b ∷ t) h = ground (arith, text_beq→eq s t)
text_beq→eq [] (b ∷ t) h = cc
text_beq→eq (a ∷ s) [] h = cc

text_beq_self : (s : Text) → text_beq s s ≡ true
text_beq_self [] = refl
text_beq_self (a ∷ s) = ground (arith, text_beq_self s)

pub text_beq_iff : (s t : Text) → (text_beq s t ≡ true) ↔ (s ≡ t)
text_beq_iff s t = (text_beq→eq s t, λ e. ground (arith, text_beq_self s))

instance abbrev pub text_key : Key Text
text_key = record { same = text_beq; same_iff = text_beq_iff }

abbrev pub is_empty : Text → Bool
is_empty [] = true
is_empty (_ ∷ _) = false

-- The order of Go strings: bytewise, a prefix first.
abbrev pub text_lt : Text → Text → Bool
text_lt [] [] = false
text_lt [] (b ∷ t) = true
text_lt (a ∷ s) [] = false
text_lt (a ∷ s) (b ∷ t) = ltb a b || (eqb a b && text_lt s t)

-- What the decoder waits for inside a character: the bytes left, the range of the next one, and
-- the bits read so far.
pub record Pending : Type 0 where
  pub left : ℕ
  pub low : ℕ
  pub high : ℕ
  pub bits : ℕ

abbrev between : ℕ → ℕ → ℕ → Bool
between low high b = leb low b && leb b high

pending : ℕ → ℕ → ℕ → ℕ → Option Pending
pending left low high bits = some (record { left = left; low = low; high = high; bits = bits })

-- The first byte of a character of two to four bytes (table 3-7 of the Unicode standard).
lead : ℕ → Option Pending
unfolding pending
lead b =
    if between 0xC2 0xDF b
    then pending 1 0x80 0xBF (b - 0xC0)
    else if eqb b 0xE0
    then pending 2 0xA0 0xBF 0
    else if eqb b 0xED
    then pending 2 0x80 0x9F 0xD
    else if between 0xE1 0xEF b
    then pending 2 0x80 0xBF (b - 0xE0)
    else if eqb b 0xF0
    then pending 3 0x90 0xBF 0
    else if between 0xF1 0xF3 b
    then pending 3 0x80 0xBF (b - 0xF0)
    else if eqb b 0xF4
    then pending 3 0x80 0x8F 4
    else none

continue : Pending → ℕ → Pending
continue p b = record {
  left = p.left - 1;
  low = 0x80;
  high = 0xBF;
  bits = p.bits * 64 + (b - 0x80);
}

-- The code points of a string, or nothing if it is not valid UTF-8.
runes_from : Option Pending → Text → Option (List ℕ)
runes_from none [] = some []
runes_from none (b ∷ s) = elim (ltb b 0x80) [
  | true ↦ Option.map (λ rs. b ∷ rs) (runes_from none s)
  | false ↦ elim (lead b) [ none ↦ none | some p ↦ runes_from (some p) s ]
]
runes_from (some p) [] = none
runes_from (some p) (b ∷ s) = elim (between p.low p.high b) [
  | false ↦ none
  | true ↦ elim (ltb 1 p.left) [
    | true ↦ runes_from (some (continue p b)) s
    | false ↦ Option.map (λ rs. (continue p b).bits ∷ rs) (runes_from none s)
  ]
]

unfoldable pub runes : Text → Option (List ℕ)
unfolding runes_from lead continue
runes = runes_from none

-- The number of bytes of the character at the front of a string; 0 if it is not valid there.
continues : ℕ → ℕ → ℕ → Text → Bool
continues zero low high s = true
continues (suc left) low high [] = false
continues (suc left) low high (b ∷ s) = between low high b && continues left 0x80 0xBF s

unfoldable pub rune_width : Text → ℕ
unfolding continues lead
rune_width [] = 0
rune_width (b ∷ s) = elim (ltb b 0x80) [
  | true ↦ 1
  | false ↦ elim (lead b) [
    | none ↦ 0
    | some p ↦ if continues p.left p.low p.high s then p.left + 1 else 0
  ]
]

continues-high :
    (left low high : ℕ) (s : Text)
    → 0x80 ≤ low
    → continues left low high s ≡ true
    → every (leb 0x80) (take left s) ≡ true
unfolding continues
continues-high zero low high s h c = refl
continues-high (suc left) low high [] h c = refl
continues-high (suc left) low high (b ∷ s) h c =
    ground (arith, c, h, continues-high left 0x80 0xBF s (omega arith))

lead-low : (b : ℕ) (p : Pending) → lead b ≡ some p → 0x80 ≤ p.low
unfolding lead pending
lead-low b p e = ground (arith, e)

-- Behind its first byte a character has no byte of ASCII.
pub rune_width-high :
    (b more : ℕ) (s : Text) → rune_width (b ∷ s) ≡ suc more → every (leb 0x80) (take more s) ≡ true
unfolding rune_width
rune_width-high b more s e = elim (Bool-cases (ltb b 0x80)) [
  | inl h ↦ ground (arith, e, h)
  | inr h ↦ elim (Option-cases (lead b)) [
    | inl n ↦ absurd (ground (arith, e, h, n))
    | inr (p, f) ↦ elim (Bool-cases (continues p.left p.low p.high s)) [
      | inr c ↦ absurd (ground (arith, e, h, f, c))
      | inl c ↦
          let same : more ≡ p.left = ground (arith, e, h, f, c) in
          rw same (continues-high p.left p.low p.high s (lead-low b p f) c)
    ]
  ]
]

-- unicode.IsControl
unfoldable pub is_control : ℕ → Bool
is_control r = ltb r 0x20 || (leb 0x7F r && ltb r 0xA0)

-- unicode.IsSpace
unfoldable pub is_space : ℕ → Bool
is_space r =
    between 0x09 0x0D r
    || eqb r 0x20
    || eqb r 0x85
    || eqb r 0xA0
    || eqb r 0x1680
    || between 0x2000 0x200A r
    || eqb r 0x2028
    || eqb r 0x2029
    || eqb r 0x202F
    || eqb r 0x205F
    || eqb r 0x3000

drop_spaces : List ℕ → List ℕ
unfolding is_space
drop_spaces [] = []
drop_spaces (r ∷ rs) = if is_space r then drop_spaces rs else r ∷ rs

-- strings.TrimSpace, on the code points of a valid string.
unfoldable pub trim_space : List ℕ → List ℕ
unfolding drop_spaces
trim_space rs = reverse (drop_spaces (reverse (drop_spaces rs)))

-- `utf8.ValidString(s) && strings.IndexFunc(s, unicode.IsControl) < 0`
unfoldable pub is_printable : Text → Bool
unfolding runes is_control
is_printable s = elim (runes s) [ none ↦ false | some rs ↦ every (λ r. not (is_control r)) rs ]

-- `utf8.ValidString(s) && strings.TrimSpace(s) == s && strings.IndexFunc(s, unicode.IsControl) < 0`
unfoldable pub is_trimmed_printable : Text → Bool
unfolding runes is_control trim_space
is_trimmed_printable s = elim (runes s) [
  | none ↦ false
  | some rs ↦ text_beq (trim_space rs) rs && every (λ r. not (is_control r)) rs
]

trimmed_accepts : is_trimmed_printable (text "demo-account") ≡ true
unfolding is_trimmed_printable
trimmed_accepts = refl

trimmed_refuses : is_trimmed_printable (text "demo ") ≡ false
unfolding is_trimmed_printable
trimmed_refuses = refl

-- The euro sign in UTF-8, and its first two bytes alone.
euro : runes (0xE2 ∷ 0x82 ∷ 0xAC ∷ []) ≡ some (0x20AC ∷ [])
unfolding runes
euro = refl

cut_off : runes (0xE2 ∷ 0x82 ∷ []) ≡ none
unfolding runes
cut_off = refl
