-- ===== src/LoadTester/Settings.antt =====
-- The configuration of load_tester/main.go: what the flag -entities gives, and Validate.
use distributed_fraud_detect.Prelude.{
  ℕ, suc, ◌≤◌, ◌≡◌, refl, ap, subst, Bool, true, false, not, ◌&&◌, ◌||◌, List, [], ◌∷◌, Option,
  none, some, inl, inr, arith, eqb, if◌then◌else◌, ◌==◌, length, every, ℤ, pos, leb_ℤ, ltb_ℤ,
  Result, ok, err, Option-cases, Result-cases,
}
use distributed_fraud_detect.Float.{Float64}
use distributed_fraud_detect.Text.{Text, text, text_key, is_empty}
use distributed_fraud_detect.Text.Trim.{trim_text}
use distributed_fraud_detect.Process.{atoi}
use distributed_fraud_detect.Gateway.Request.{behind}
use distributed_fraud_detect.Features.Vector.{split}

pub record LoadConfig (A : Type 0) : Type 0 where
  pub url : Text
  pub token : Text
  pub duration : ℤ
  pub requests : ℤ
  pub concurrency : ℤ
  pub rate : A
  pub timeout : ℤ
  pub seed : ℕ
  pub entities : List Text
  pub entity_weights : List ℤ
  pub payload_mode : Text
  pub output_dir : Text

pub data LoadError : Type 0 where
  url_scheme : LoadError
  no_length : LoadError
  not_positive : LoadError
  no_entity : LoadError
  bad_payload_mode : LoadError
  weights_mismatch : LoadError
  weight_not_positive : LoadError
  bad_entity : LoadError
  bad_weight : LoadError

-- strings.HasPrefix
abbrev pub has_prefix : Text → Text → Bool
has_prefix s p = elim (behind p s) [ none ↦ false | some rest ↦ true ]

abbrev pub is_positive : ℤ → Bool
is_positive z = leb_ℤ (pos 1) z

-- `Config.Validate`; none if the configuration passes.
unfoldable pub validate : {A : Type 0} ⦃float : Float64 A⦄ → LoadConfig A → Option LoadError
validate ⦃float⦄ c =
    if not (has_prefix c.url (text "http://")) && not (has_prefix c.url (text "https://"))
    then some url_scheme
    else if ltb_ℤ c.requests (pos 1) && leb_ℤ c.duration (pos 0)
    then some no_length
    else if ltb_ℤ c.requests (pos 0)
        || (ltb_ℤ c.duration (pos 0)
            || (ltb_ℤ c.concurrency (pos 1)
                || (float.leb c.rate float.zero || leb_ℤ c.timeout (pos 0))))
    then some not_positive
    else if eqb (length c.entities) 0
    then some no_entity
    else if not (is_empty c.payload_mode)
        && (not (c.payload_mode == text "entity") && not (c.payload_mode == text "transaction"))
    then some bad_payload_mode
    else if not (eqb (length c.entity_weights) 0)
        && not (eqb (length c.entity_weights) (length c.entities))
    then some weights_mismatch
    else if every is_positive c.entity_weights
    then none
    else some weight_not_positive

-- strings.Split with a separator of one byte.
unfoldable pub split_on : ℕ → Text → List Text
split_on sep [] = [] ∷ []
split_on sep (b ∷ s) =
    let rest = split_on sep s in
    if eqb b sep
    then [] ∷ rest
    else elim rest [ [] ↦ (b ∷ []) ∷ [] | front ∷ more ↦ (b ∷ front) ∷ more ]

-- `name[:weight]`, of its fields.
unfoldable pub entity_of : List Text → Result LoadError (Text × ℤ)
entity_of [] = err bad_entity
entity_of (name ∷ []) = if is_empty name then err bad_entity else ok (name, pos 1)
entity_of (name ∷ weight ∷ []) = if is_empty name then err bad_entity else elim (atoi weight) [
  | none ↦ err bad_weight
  | some w ↦ if is_positive w then ok (name, w) else err bad_weight
]
entity_of (name ∷ weight ∷ third ∷ more) = err bad_entity

abbrev colon : ℕ
colon = 0x3A

-- The loop of `parseEntities`.
unfoldable pub parse_parts : List Text → Result LoadError (List Text × List ℤ)
unfolding split_on entity_of
parse_parts [] = ok ([], [])
parse_parts (part ∷ parts) = elim (entity_of (split_on colon (trim_text part))) [
  | err x ↦ err x
  | ok (name, weight) ↦ elim (parse_parts parts) [
    | err x ↦ err x
    | ok (names, weights) ↦ ok (name ∷ names, weight ∷ weights)
  ]
]

-- `parseEntities`
unfoldable pub parse_entities : Text → Result LoadError (List Text × List ℤ)
unfolding parse_parts
parse_entities s = parse_parts (split s)

-- A mix: as many weights as names, none of them below 1.
abbrev pub IsMix : List Text → List ℤ → Type 0
IsMix names weights = (length weights ≡ length names) × (every is_positive weights ≡ true)

entity_of-positive :
    (fields : List Text) (name : Text) (weight : ℤ)
    → entity_of fields ≡ ok (name, weight)
    → is_positive weight ≡ true
unfolding entity_of
entity_of-positive [] name weight h = absurd (cc)
entity_of-positive (n ∷ []) name weight h = ground (arith, h)
entity_of-positive (n ∷ w ∷ []) name weight h = elim (Option-cases (atoi w)) [
  | inl e ↦ absurd (ground (arith, h, e))
  | inr (z, e) ↦ ground (arith, h, e)
]
entity_of-positive (n ∷ w ∷ t ∷ more) name weight h = absurd (cc)

parse_parts-IsMix :
    (parts : List Text) (names : List Text) (weights : List ℤ)
    → parse_parts parts ≡ ok (names, weights)
    → IsMix names weights × (length names ≡ length parts)
unfolding parse_parts
parse_parts-IsMix [] names weights h =
    subst (λ (q : List Text × List ℤ). IsMix q.0 q.1 × (length q.0 ≡ 0)) {x = ([], [])}
      {y = (names, weights)} (ground (arith, h)) ((refl, refl), refl)
parse_parts-IsMix (part ∷ parts) names weights h =
    elim (Result-cases (entity_of (split_on colon (trim_text part)))) [
      | inr (x, e) ↦ absurd (ground (arith, h, e))
      | inl (p, e) ↦ elim (Result-cases (parse_parts parts)) [
        | inr (x, f) ↦ absurd (ground (arith, h, e, f))
        | inl (q, f) ↦
            let rest = parse_parts-IsMix parts q.0 q.1 f in
            let first = entity_of-positive (split_on colon (trim_text part)) p.0 p.1 e in
            subst (λ (r : List Text × List ℤ). IsMix r.0 r.1 × (length r.0 ≡ suc (length parts)))
              {x = (p.0 ∷ q.0, p.1 ∷ q.1)} {y = (names, weights)} (ground (arith, h, e, f))
              ((ap suc rest.0.0, ground (arith, first, rest.0.1)), ap suc rest.1)
      ]
    ]

length-split : (s : Text) → 1 ≤ length (split s)
unfolding split
length-split [] = omega arith
length-split (b ∷ s) = ground (arith, length-split s)

-- What parseEntities gives passes the checks of Validate on entities and weights: there is a name,
-- and a positive weight for each.
pub parse_entities-IsMix :
    (s : Text) (names : List Text) (weights : List ℤ)
    → parse_entities s ≡ ok (names, weights)
    → IsMix names weights × (1 ≤ length names)
unfolding parse_entities
parse_entities-IsMix s names weights h =
    let made = parse_parts-IsMix (split s) names weights h in
    (made.0, omega (arith, made.1, length-split s))
