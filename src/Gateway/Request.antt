-- ===== src/Gateway/Request.antt =====
-- The checks of a request in serving_plane/gateway/gateway.go: the bearer token, the request's ID and
-- the entity's.
use distributed_fraud_detect.Prelude.{
  ◌≡◌, ◌↔◌, refl, subst, sym, ◌∙◌, Option-cases, ap, Bool, true, false, not, ◌&&◌, ◌||◌, [], ◌∷◌,
  ◌++◌, Option, none, some, arith, ltb, leb, eqb, if◌then◌else◌, ◌==◌, length, every, Bool-cases,
  inl, inr, ◌⊎◌,
}
use distributed_fraud_detect.Text.{
  Text, text, text_key, text_beq_iff, is_empty, is_trimmed_printable,
}

-- strings.HasPrefix with strings.TrimPrefix: what stands behind a prefix.
unfoldable pub behind : Text → Text → Option Text
behind [] s = some s
behind (p ∷ ps) [] = none
behind (p ∷ ps) (b ∷ s) = if eqb p b then behind ps s else none

-- `authorized`; subtle.ConstantTimeCompare is equality.
unfoldable pub authorized : Text → Text → Bool
authorized token header =
    if is_empty token
    then true
    else elim (behind (text "Bearer ") header) [ none ↦ false | some given ↦ given == token ]

-- `validRequestID`
unfoldable pub valid_request_id : Text → Bool
valid_request_id value =
    not (eqb (length value) 0 || ltb 128 (length value))
    && every (λ b. not (ltb b 0x21 || ltb 0x7E b)) value

-- `validEntityID`
unfoldable pub valid_entity_id : Text → Bool
valid_entity_id value = not (is_empty value) && leb (length value) 256 && is_trimmed_printable value

behind-append : (p s : Text) → behind p (p ++ s) ≡ some s
unfolding behind
behind-append [] s = refl
behind-append (b ∷ p) s = ground (arith, behind-append p s)

append-behind : (p s t : Text) → behind p s ≡ some t → s ≡ p ++ t
unfolding behind
append-behind [] s t h = cc
append-behind (b ∷ p) [] t h = absurd (cc)
append-behind (b ∷ p) (c ∷ s) t h = elim (Bool-cases (eqb b c)) [
  | inr e ↦ absurd (ground (arith, h, e))
  | inl e ↦ ground (arith, e, append-behind p s t (ground (arith, h, e)))
]

accepted-append :
    (token header : Text)
    → is_empty token ≡ false
    → authorized token header ≡ true
    → header ≡ text "Bearer " ++ token
unfolding authorized
accepted-append token header n h = elim (Option-cases (behind (text "Bearer ") header)) [
  | inl e ↦ absurd (ground (arith, h, n, e))
  | inr (given, e) ↦
      append-behind (text "Bearer ") header given e
      ∙ ap (◌++◌ (text "Bearer ")) ((text_beq_iff given token).0 (ground (arith, h, n, e)))
]

append-accepted : (token : Text) → authorized token (text "Bearer " ++ token) ≡ true
unfolding authorized
append-accepted token = elim (Bool-cases (is_empty token)) [
  | inl e ↦ ground (arith, e)
  | inr e ↦
      rw (e, authorized, behind-append (text "Bearer ") token) ((text_beq_iff token token).1 refl)
]

-- A request is authorised just if no token is configured or its header is "Bearer " and the token.
pub authorized_iff :
    (token header : Text)
    → (authorized token header ≡ true) ↔ ((token ≡ []) ⊎ (header ≡ text "Bearer " ++ token))
unfolding authorized
authorized_iff [] header = (λ _. inl refl, λ _. refl)
authorized_iff (b ∷ t) header = (
  λ h. inr (accepted-append (b ∷ t) header refl h),
  λ h. elim h [
    | inl e ↦ absurd (cc)
    | inr e ↦ subst (λ s. authorized (b ∷ t) s ≡ true) (sym e) (append-accepted (b ∷ t))
  ],
)
