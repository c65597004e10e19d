-- ===== src/Features/Store.antt =====
-- serving_plane/feature_store/store.go: the stores that features are read from. Redis is a map from
-- keys to values; what parses a number is an argument, and `X` are the errors of contexts and Redis.
use distributed_fraud_detect.Prelude.{
  ℕ, suc, ◌/◌, Bool, not, ◌&&◌, ◌||◌, List, [], ◌∷◌, Option, none, some, leb, eqb, if◌then◌else◌,
  length, every, Map, insert, lookup, Result, ok, err, ℤ, pos, negsuc,
}
use distributed_fraud_detect.Float.{Float64}
use distributed_fraud_detect.Text.{Text, text_key, is_empty, is_trimmed_printable}
use distributed_fraud_detect.Features.Vector.{split}

pub data StoreError (X : Type 0) : Type 0 where
  not_found : StoreError X
  invalid_key : StoreError X
  invalid_request : StoreError X
  wrong_width : ℕ → StoreError X
  non_finite : StoreError X
  bad_feature : ℕ → StoreError X
  external : X → StoreError X

-- `validFeatureKey`
unfoldable pub valid_feature_key : Text → Bool
valid_feature_key key = not (is_empty key) && leb (length key) 256 && is_trimmed_printable key

abbrev pub is_number : {A : Type 0} ⦃float : Float64 A⦄ → A → Bool
is_number ⦃float⦄ x = not (float.is_nan x || float.is_inf x)

module _ {A X : Type 0} ⦃float : Float64 A⦄ where
  -- `Memory.Put` and `Memory.Get`
  unfoldable pub put_local :
      ℕ → Text → List A → Map Text (List A) → Option (StoreError X) × Map Text (List A)
  put_local width key features values =
      if not (valid_feature_key key)
      then (some invalid_key, values)
      else if not (eqb (length features) width)
      then (some (wrong_width width), values)
      else if not (every is_number features)
      then (some non_finite, values)
      else (none, insert key features values)

  unfoldable pub get_local : Option X → Text → Map Text (List A) → Result (StoreError X) (List A)
  get_local (some x) key values = err (external x)
  get_local none key values = elim (lookup key values) [ none ↦ err not_found | some v ↦ ok v ]

  -- The loop of `Redis.Get`, from feature `i` on.
  unfoldable pub parse_features : (Text → Option A) → ℕ → List Text → Result (StoreError X) (List A)
  parse_features parse i [] = ok []
  parse_features parse i (part ∷ parts) = elim (parse part) [
    | none ↦ err (bad_feature i)
    | some x ↦
        if not (is_number x)
        then err (bad_feature i)
        else elim (parse_features parse (suc i) parts) [ ok xs ↦ ok (x ∷ xs) | err e ↦ err e ]
  ]

  -- `Redis.Get` on an open client: `e` is what the context's `Err` gives, `down` the error of the GET.
  unfoldable pub get_redis :
      (Text → Option A)
      → ℕ
      → Option X
      → Option X
      → Text
      → Map Text Text
      → Result (StoreError X) (List A)
  get_redis parse width e down key redis =
      if not (valid_feature_key key) then err invalid_request else elim e [
        | some x ↦ err (external x)
        | none ↦ elim down [
          | some x ↦ err (external x)
          | none ↦ elim (lookup key redis) [
            | none ↦ err not_found
            | some value ↦
                if not (eqb (length (split value)) width)
                then err (wrong_width (length (split value)))
                else parse_features parse 0 (split value)
          ]
        ]
      ]

-- `reserveFallbackBudget`: the time for the primary store, from the time left; none to go on with
-- the caller's own.
unfoldable pub reserve_fallback_budget : Option ℤ → Option ℕ
reserve_fallback_budget none = none
reserve_fallback_budget (some (negsuc late)) = none
reserve_fallback_budget (some (pos left)) = if eqb left 0 then none else some (left / 2)

-- `Fallback.Get`: a primary store over a world, the context's `Err` behind it, and the local one.
unfoldable pub get_fallback :
    {A W X : Type 0}
    → Option (W → Result (StoreError X) A × W)
    → (W → Option X)
    → Option (W → Result (StoreError X) A × W)
    → W
    → Result (StoreError X) A × W
get_fallback none ctx_err none w = (err not_found, w)
get_fallback none ctx_err (some local) w = local w
get_fallback (some primary) ctx_err local w =
    let (r, w1) = primary w in
    elim r [
      | ok v ↦ (ok v, w1)
      | err e ↦ elim (ctx_err w1) [
        | some x ↦ (err (external x), w1)
        | none ↦ elim local [ none ↦ (err not_found, w1) | some get ↦ get w1 ]
      ]
    ]
