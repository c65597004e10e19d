-- ===== src/Gateway/Identity.antt =====
-- The identity of a request in serving_plane/gateway/gateway.go: `newRequestID` and the middleware
-- `requestID`.
use distributed_fraud_detect.Prelude.{
  ℕ, ◌+◌, ◌%◌, ◌^◌, ◌≤◌, ◌<◌, ◌≡◌, refl, true, not, List, ◌++◌, Option, none, some, inl, inr, arith,
  if◌then◌else◌, length, length-append, every, All, ℤ, Bool-cases,
}
use distributed_fraud_detect.Text.{Text, text}
use distributed_fraud_detect.Text.Digits.{
  format_uint, format_int, encode_to_string, is_graphic, format_uint-graphic, format_int-graphic,
  encode_to_string-graphic, every-append,
}
use distributed_fraud_detect.Gateway.Request.{valid_request_id}

-- `newRequestID`: the 16 bytes that rand.Read gave, or the clock in nanoseconds and the number of
-- IDs that were made so; the counter is passed on.
unfoldable pub new_request_id : Option (List ℕ) → ℤ → ℕ → Text × ℕ
unfolding format_uint format_int encode_to_string
new_request_id (some bytes) now sequence = (encode_to_string bytes, sequence)
new_request_id none now sequence =
    let next = (sequence + 1) % 2 ^ 64 in (format_int now ++ (text "-" ++ format_uint next), next)

-- The middleware: the ID that the request goes on with.
unfoldable pub identify : Text → Option (List ℕ) → ℤ → ℕ → Text × ℕ
unfolding new_request_id
identify header random now sequence =
    if not (valid_request_id header) then new_request_id random now sequence else (header, sequence)

-- rand.Read fills 16 bytes or fails.
abbrev pub IsRead : Option (List ℕ) → Type 0
IsRead none = Unit
IsRead (some bytes) = (length bytes ≡ 16) × All (λ b. b < 256) bytes

short_valid :
    (id : Text)
    → every is_graphic id ≡ true
    → 1 ≤ length id
    → length id ≤ 128
    → valid_request_id id ≡ true
unfolding valid_request_id
short_valid id h l m = ground (arith, h, l, m)

new_request_id-valid :
    (random : Option (List ℕ)) (now : ℤ) (sequence : ℕ)
    → IsRead random
    → valid_request_id (new_request_id random now sequence).0 ≡ true
unfolding new_request_id
new_request_id-valid (some bytes) now sequence r =
    let (same, long) = encode_to_string-graphic bytes r.1 in
    short_valid (encode_to_string bytes) same (omega (arith, long, r.0)) (omega (arith, long, r.0))
new_request_id-valid none now sequence r =
    let next = (sequence + 1) % 2 ^ 64 in
    let (front, front_long) = format_int-graphic now in
    let (back, back_long) = format_uint-graphic next in
    let joined = every-append (text "-") (format_uint next) refl back in
    let long = length-append (format_int now) (text "-" ++ format_uint next) in
    short_valid (format_int now ++ (text "-" ++ format_uint next))
      (every-append (format_int now) (text "-" ++ format_uint next) front joined)
      (omega (arith, long)) (omega (arith, long, front_long, back_long))

-- Whatever the caller sends, the clock shows and rand.Read gives, a request goes on with a valid ID:
-- 1 to 128 bytes of graphic ASCII; a valid ID of the caller's is kept.
pub identify-valid :
    (header : Text) (random : Option (List ℕ)) (now : ℤ) (sequence : ℕ)
    → IsRead random
    → (valid_request_id (identify header random now sequence).0 ≡ true)
      × (valid_request_id header ≡ true → identify header random now sequence ≡ (header, sequence))
unfolding identify
identify-valid header random now sequence r = elim (Bool-cases (valid_request_id header)) [
  | inl v ↦ rw (v, identify) (v, λ _. refl)
  | inr v ↦ rw (v, identify) (new_request_id-valid random now sequence r, λ k. absurd (cc))
]
