-- ===== src/Text/Digits.antt =====
-- Digits: strconv.FormatUint and FormatInt in base 10 on 64-bit words, and encoding/hex.
use distributed_fraud_detect.Prelude.{
  ℕ, zero, suc, ◌+◌, ◌*◌, ◌/◌, ◌%◌, ◌≤◌, ◌<◌, ◌≡◌, refl, Bool, true, not, ◌||◌, List, [], ◌∷◌, ◌++◌,
  arith, ltb, if◌then◌else◌, length, every, ℤ, pos, negsuc, Bool-cases, inl, inr, All,
}
use distributed_fraud_detect.Text.{Text}

abbrev pub hex_digit : ℕ → ℕ
hex_digit d = if ltb d 10 then 0x30 + d else 0x57 + d

abbrev pub decimal_digit : ℕ → ℕ
decimal_digit d = 0x30 + d

-- The digits of a number below 10^rounds, in front of others.
decimal_loop : ℕ → ℕ → Text → Text
decimal_loop zero n acc = acc
decimal_loop (suc rounds) n acc =
    let more = decimal_loop rounds (n / 10) (decimal_digit (n % 10) ∷ acc) in
    if ltb n 10 then decimal_digit n ∷ acc else more

-- A uint64 has at most 20 digits.
unfoldable pub format_uint : ℕ → Text
unfolding decimal_loop
format_uint n = decimal_loop 20 n []

unfoldable pub format_int : ℤ → Text
unfolding format_uint
format_int (pos n) = format_uint n
format_int (negsuc n) = 0x2D ∷ format_uint (suc n)

-- hex.EncodeToString
unfoldable pub encode_to_string : List ℕ → Text
encode_to_string [] = []
encode_to_string (b ∷ bytes) = hex_digit (b / 16) ∷ hex_digit (b % 16) ∷ encode_to_string bytes

-- ASCII that is printable and no space.
abbrev pub is_graphic : ℕ → Bool
is_graphic b = not (ltb b 0x21 || ltb 0x7E b)

decimal_loop-graphic :
    (rounds n : ℕ) (acc : Text)
    → every is_graphic acc ≡ true
    → (every is_graphic (decimal_loop rounds n acc) ≡ true)
      × (length (decimal_loop rounds n acc) ≤ rounds + length acc)
unfolding decimal_loop
decimal_loop-graphic zero n acc h = (h, omega arith)
decimal_loop-graphic (suc rounds) n acc h =
    let digit : n % 10 < 10 = omega arith in
    let (same, long) =
      decimal_loop-graphic rounds (n / 10) (decimal_digit (n % 10) ∷ acc)
        (ground (arith, h, digit)) in
    elim (Bool-cases (ltb n 10)) [
      | inl l ↦ rw (l, decimal_loop) (ground (arith, h, l), omega arith)
      | inr l ↦ rw (l, decimal_loop) (same, omega (arith, long))
    ]

pub format_uint-graphic :
    (n : ℕ) → (every is_graphic (format_uint n) ≡ true) × (length (format_uint n) ≤ 20)
unfolding format_uint
format_uint-graphic n =
    let (same, long) = decimal_loop-graphic 20 n [] refl in (same, omega (arith, long))

pub format_int-graphic :
    (z : ℤ) → (every is_graphic (format_int z) ≡ true) × (length (format_int z) ≤ 21)
unfolding format_int
format_int-graphic (pos n) = let (same, long) = format_uint-graphic n in (same, omega (arith, long))
format_int-graphic (negsuc n) =
    let (same, long) = format_uint-graphic (suc n) in (ground (arith, same), omega (arith, long))

hex_digit-graphic : (d : ℕ) → d < 16 → is_graphic (hex_digit d) ≡ true
hex_digit-graphic d h = ground (arith, h)

pub encode_to_string-graphic :
    (bytes : List ℕ)
    → All (λ b. b < 256) bytes
    → (every is_graphic (encode_to_string bytes) ≡ true)
      × (length (encode_to_string bytes) ≡ 2 * length bytes)
unfolding encode_to_string
encode_to_string-graphic [] h = (refl, omega arith)
encode_to_string-graphic (b ∷ bytes) h =
    let (same, long) = encode_to_string-graphic bytes h.1 in
    (
      ground (
        arith,
        same,
        hex_digit-graphic (b / 16) (omega (arith, h.0)),
        hex_digit-graphic (b % 16) (omega arith),
      ),
      omega (arith, long),
    )

pub every-append :
    (s t : Text)
    → every is_graphic s ≡ true
    → every is_graphic t ≡ true
    → every is_graphic (s ++ t) ≡ true
every-append [] t h k = k
every-append (b ∷ s) t h k = ground (arith, h, every-append s t (ground (arith, h)) k)
