-- ===== src/LoadTester/Payload.antt =====
-- The bodies that load_tester/main.go posts, in front of the JSON encoder. A time is in nanoseconds.
use distributed_fraud_detect.Prelude.{
  ℕ, zero, suc, ◌+◌, ◌-◌, ◌*◌, ◌/◌, ◌%◌, ◌^◌, ◌<◌, ◌≡◌, refl, sym, ap, ◌∙◌, List, [], ◌∷◌, ◌++◌,
  Option, none, some, inl, inr, arith, ltb, eqb, if◌then◌else◌, ◌==◌, length, replicate, Bool-cases,
  get_elem?, ℤ, pos, negsuc,
}
use distributed_fraud_detect.Text.{Text, text, text_key}
use distributed_fraud_detect.Text.Digits.{hex_digit}
use distributed_fraud_detect.LoadTester.Settings.{LoadConfig}
use distributed_fraud_detect.LoadTester.Mix.{entity_for_index}

-- `work.scheduled.UnixNano()`, which is negative before 1970.
pub record Job : Type 0 where
  pub index : ℕ
  pub scheduled : ℤ

pub record TransactionPayload : Type 0 where
  pub transaction_id : Text
  pub account_id : Text
  pub amount_micros : ℕ
  pub currency : Text
  pub occurred_at_ns : ℕ
  pub merchant_category : Text

pub data Payload : Type 0 where
  transaction : TransactionPayload → Payload
  -- An entity and 10 plus an amount.
  entity_amount : Text → ℕ → Payload

-- The digits of a number below 16^rounds, in front of others.
hex_loop : ℕ → ℕ → Text → Text
hex_loop zero n acc = acc
hex_loop (suc rounds) n acc =
    let more = hex_loop rounds (n / 16) (hex_digit (n % 16) ∷ acc) in if eqb n 0 then acc else more

-- A uint64 has at most 16 digits.
hex_digits : ℕ → Text
unfolding hex_loop
hex_digits n = hex_loop 16 n []

-- fmt's %0<width>x of a uint64 or an int that is not negative.
unfoldable pub format_hex : ℕ → ℕ → Text
unfolding hex_digits
format_hex width n = let digits = hex_digits n in replicate (width - length digits) 0x30 ++ digits

-- `fmt.Sprintf("load-%016x-%08x", cfg.Seed, work.index)`
unfoldable pub transaction_id_of : ℕ → ℕ → Text
unfolding format_hex
transaction_id_of seed index = text "load-" ++ format_hex 16 seed ++ text "-" ++ format_hex 8 index

abbrev categories : List Text
categories = text "grocery" ∷ text "fuel" ∷ text "travel" ∷ text "retail" ∷ []

-- `occurred`, with its fixed start in 2023 for a clock before 1970.
abbrev occurred_at : Job → ℕ
occurred_at work = elim (work.scheduled) [
  | pos n ↦ if eqb n 0 then 1_700_000_000_000_000_000 + work.index else n
  | negsuc n ↦ 1_700_000_000_000_000_000 + work.index
]

-- `requestPayload`; none stands for a panic.
unfoldable pub request_payload : {A : Type 0} → LoadConfig A → Job → Option Payload
unfolding entity_for_index transaction_id_of
request_payload c work = elim (entity_for_index c work.index) [
  | none ↦ none
  | some entity ↦
      if c.payload_mode == text "transaction"
      then elim (get_elem? categories (work.index % 4)) [
        | none ↦ none
        | some category ↦ some (
            transaction (record {
              transaction_id = transaction_id_of c.seed work.index;
              account_id = entity;
              amount_micros = 1_000_000 + work.index % 100 * 10_000;
              currency = text "USD";
              occurred_at_ns = occurred_at work;
              merchant_category = category;
            }))
      ]
      else some (entity_amount entity (10 + work.index % 100))
]

abbrev hex_value_of : ℕ → ℕ
hex_value_of b = if ltb b 0x3A then b - 0x30 else b - 0x57

-- The number that digits stand for, behind a number.
read_hex : ℕ → Text → ℕ
read_hex n [] = n
read_hex n (b ∷ s) = read_hex (n * 16 + hex_value_of b) s

abbrev pow16 : ℕ → ℕ
pow16 zero = 1
pow16 (suc k) = 16 * pow16 k

hex_digit_back : (d : ℕ) → d < 16 → hex_value_of (hex_digit d) ≡ d
hex_digit_back d h = ground (arith, h)

read_hex-hex_loop :
    (rounds n : ℕ) (acc : Text)
    → n < pow16 rounds
    → read_hex 0 (hex_loop rounds n acc) ≡ read_hex n acc
unfolding hex_loop read_hex
read_hex-hex_loop zero n acc h = ap (λ k. read_hex k acc) (omega (arith, h))
read_hex-hex_loop (suc rounds) n acc h = elim (Bool-cases (eqb n 0)) [
  | inl e ↦ rw (e, hex_loop) (ap (λ k. read_hex k acc) (ground (arith, e)))
  | inr e ↦
      let back : n / 16 * 16 + hex_value_of (hex_digit (n % 16)) ≡ n =
        omega (arith, hex_digit_back (n % 16) (omega arith)) in
      rw (e, hex_loop)
        (read_hex-hex_loop rounds (n / 16) (hex_digit (n % 16) ∷ acc) (omega (arith, h))
          ∙ ap (λ k. read_hex k acc) back)
]

read_hex-zeros : (m : ℕ) (s : Text) → read_hex 0 (replicate m 0x30 ++ s) ≡ read_hex 0 s
unfolding read_hex
read_hex-zeros zero s = refl
read_hex-zeros (suc m) s = read_hex-zeros m s

read_hex-hex_digits : (n : ℕ) → n < pow16 16 → read_hex 0 (hex_digits n) ≡ n
unfolding hex_digits read_hex
read_hex-hex_digits n h = read_hex-hex_loop 16 n [] h

format_hex-padded :
    (width n : ℕ) → (m : ℕ) × (format_hex width n ≡ replicate m 0x30 ++ hex_digits n)
unfolding format_hex
format_hex-padded width n = (width - length (hex_digits n), refl)

read_hex-format_hex : (width n : ℕ) → n < pow16 16 → read_hex 0 (format_hex width n) ≡ n
read_hex-format_hex width n h =
    let (m, e) = format_hex-padded width n in
    ap (read_hex 0) e ∙ read_hex-zeros m (hex_digits n) ∙ read_hex-hex_digits n h

-- The same front can be taken off.
behind_append : (front s t : Text) → front ++ s ≡ front ++ t → s ≡ t
behind_append [] s t h = h
behind_append (b ∷ front) s t h = behind_append front s t (ground (arith, h))

transaction_id-front :
    (seed index : ℕ)
    → transaction_id_of seed index
      ≡ text "load-" ++ format_hex 16 seed ++ text "-" ++ format_hex 8 index
unfolding transaction_id_of
transaction_id-front seed index = refl

-- Requests of one run, with the seed a uint64 and the indices 64-bit, have different transaction IDs.
pub transaction_id_of_unique :
    (seed i j : ℕ)
    → i < 2 ^ 64
    → j < 2 ^ 64
    → transaction_id_of seed i ≡ transaction_id_of seed j
    → i ≡ j
transaction_id_of_unique seed i j hi hj e =
    let front = text "load-" ++ format_hex 16 seed ++ text "-" in
    let same =
      behind_append front (format_hex 8 i) (format_hex 8 j)
        (sym (transaction_id-front seed i) ∙ e ∙ transaction_id-front seed j) in
    sym (read_hex-format_hex 8 i hi) ∙ ap (read_hex 0) same ∙ read_hex-format_hex 8 j hj
