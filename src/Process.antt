-- ===== src/Process.antt =====
-- What the commands under cmd/ take from their process and from the package strconv: the environment,
-- with an unset variable empty, Booleans and integers. time.ParseDuration, whose fractions go
-- through a float64, is an argument.
use distributed_fraud_detect.Prelude.{
  ℕ, zero, suc, ◌+◌, ◌-◌, ◌*◌, ◌^◌, Bool, true, false, ◌&&◌, ◌||◌, List, [], ◌∷◌, Option, none,
  some, leb, ltb, eqb, if◌then◌else◌, ◌==◌, ℤ, pos, negsuc, ◌≡◌, refl,
}
use distributed_fraud_detect.Text.{Text, text, text_key, is_empty}
use distributed_fraud_detect.Text.Trim.{trim_text}

pub record Process : Type 0 where
  pub getenv : Text → Text
  pub parse_duration : Text → Option ℤ

-- strconv.ParseBool; none is its error.
unfoldable pub parse_bool : Text → Option Bool
parse_bool s =
    if s == text "1"
      || s == text "t"
      || s == text "T"
      || s == text "TRUE"
      || s == text "true"
      || s == text "True"
    then some true
    else if s == text "0"
        || s == text "f"
        || s == text "F"
        || s == text "FALSE"
        || s == text "false"
        || s == text "False"
    then some false
    else none

-- The digits of a number, behind those that are read already.
digits_value : ℕ → Text → Option ℕ
digits_value n [] = some n
digits_value n (c ∷ s) =
    if leb 0x30 c && leb c 0x39 then digits_value (n * 10 + (c - 0x30)) s else none

magnitude : Text → Option ℕ
unfolding digits_value
magnitude [] = none
magnitude (c ∷ s) = digits_value 0 (c ∷ s)

negated : ℕ → ℤ
negated zero = pos 0
negated (suc n) = negsuc n

-- strconv.Atoi on a 64-bit int; none is its error.
unfoldable pub atoi : Text → Option ℤ
unfolding magnitude negated
atoi [] = none
atoi (c ∷ s) =
    if eqb c 0x2D
    then elim (magnitude s) [
      | none ↦ none
      | some n ↦ if leb n (2 ^ 63) then some (negated n) else none
    ]
    else elim (magnitude (if eqb c 0x2B then s else c ∷ s)) [
      | none ↦ none
      | some n ↦ if ltb n (2 ^ 63) then some (pos n) else none
    ]

module _ (process : Process) where
  -- `envBool` of each command
  unfoldable pub env_bool : Text → Bool
  unfolding parse_bool
  env_bool key = elim (parse_bool (trim_text (process.getenv key))) [ none ↦ false | some b ↦ b ]

  -- `envDuration`, and `duration` of the gateway, with the fallbacks that they are called with.
  unfoldable pub env_duration : Text → ℕ → ℕ
  env_duration key fallback = elim (process.parse_duration (process.getenv key)) [
    | none ↦ fallback
    | some d ↦ elim d [ pos n ↦ if eqb n 0 then fallback else n | negsuc n ↦ fallback ]
  ]

  -- `envPositiveInt`
  unfoldable pub env_positive_int : Text → ℕ → ℕ
  unfolding atoi
  env_positive_int key fallback = elim (atoi (trim_text (process.getenv key))) [
    | none ↦ fallback
    | some d ↦ elim d [ pos n ↦ if ltb n 1 then fallback else n | negsuc n ↦ fallback ]
  ]

  -- `envOr` of the stream processor, and `firstEnv` of the gateway with its keys.
  unfoldable pub env_or : Text → Text → Text
  env_or key fallback =
      let value = trim_text (process.getenv key) in if is_empty value then fallback else value

  unfoldable pub first_env : List Text → Text
  first_env [] = []
  first_env (key ∷ keys) =
      let rest = first_env keys in
      let value = trim_text (process.getenv key) in if is_empty value then rest else value

atoi_reads : atoi (text "-42") ≡ some (negsuc 41)
unfolding atoi
atoi_reads = refl

atoi_refuses : atoi (text "4x") ≡ none
unfolding atoi
atoi_refuses = refl

atoi_overflow : atoi (text "9223372036854775808") ≡ none
unfolding atoi
atoi_overflow = refl

parse_bool_reads : parse_bool (text "TRUE") ≡ some true
unfolding parse_bool
parse_bool_reads = refl
