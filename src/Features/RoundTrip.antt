-- ===== src/Features/RoundTrip.antt =====
-- What the stream processor materializes in Redis is what the gateway reads.
use distributed_fraud_detect.Prelude.{
  ℕ, zero, suc, ◌≡◌, refl, true, List, ◌∷◌, Option, none, some, arith, length, replicate, Map,
  lookup-insert_self, ok, All,
}
use distributed_fraud_detect.Float.{Float64}
use distributed_fraud_detect.Text.{Text, text, text_key}
use distributed_fraud_detect.Window.{Features}
use distributed_fraud_detect.Features.Vector.{no_comma, join, split, split-join}
use distributed_fraud_detect.Features.Materialize.{
  Formatter, valid_features, vector, put_redis, materialized_feature_width,
}
use distributed_fraud_detect.Features.Store.{
  valid_feature_key, is_number, parse_features, get_redis,
}

-- What strconv documents: numbers have no comma, an integer is read as the float of its value, and
-- the shortest form of a number is read as that number.
pub record IsExact {A : Type 0} ⦃float : Float64 A⦄ (fmt : Formatter A) (parse : Text → Option A)
    (of_count : ℕ → A) : Type 0 where
  pub itoa-no_comma : (n : ℕ) → no_comma (fmt.itoa n) ≡ true
  pub format-no_comma : (x : A) → no_comma (fmt.format_float x) ≡ true
  pub parse-itoa : (n : ℕ) → parse (fmt.itoa n) ≡ some (of_count n)
  pub parse-zero : parse (text "0") ≡ some float.zero
  pub parse-format : (x : A) → is_number x ≡ true → parse (fmt.format_float x) ≡ some x
  pub of_count-number : (n : ℕ) → is_number (of_count n) ≡ true
  pub zero-number : is_number float.zero ≡ true

module _ {A X : Type 0} ⦃float : Float64 A⦄ (parse : Text → Option A) where
  parse_features-cons :
      (i : ℕ) (p : Text) (ps : List Text) (x : A) (xs : List A)
      → parse p ≡ some x
      → is_number x ≡ true
      → parse_features {X = X} parse (suc i) ps ≡ ok xs
      → parse_features {X = X} parse i (p ∷ ps) ≡ ok (x ∷ xs)
  unfolding parse_features
  parse_features-cons i p ps x xs e n r = rw (e, parse_features, n, r) refl

  parse_features-replicate :
      (n i : ℕ) (p : Text) (x : A)
      → parse p ≡ some x
      → is_number x ≡ true
      → parse_features {X = X} parse i (replicate n p) ≡ ok (replicate n x)
  unfolding parse_features
  parse_features-replicate zero i p x e n = refl
  parse_features-replicate (suc k) i p x e n =
      parse_features-cons i p (replicate k p) x (replicate k x) e n
        (parse_features-replicate k (suc i) p x e n)

replicate-All :
    (n : ℕ) (p : Text) → no_comma p ≡ true → All (λ t. no_comma t ≡ true) (replicate n p)
replicate-All zero p h = tt
replicate-All (suc n) p h = (h, replicate-All n p h)

module _ {A : Type 0} ⦃float : Float64 A⦄ (fmt : Formatter A) (parse : Text → Option A)
    (of_count : ℕ → A) (exact : IsExact fmt parse of_count) where
  -- The numbers that a vector stands for.
  abbrev pub numbers : Features A → List A
  numbers f = of_count f.event_count ∷ f.total_amount ∷ f.max_amount ∷ replicate 29 float.zero

  vector-split : (f : Features A) → split (join (vector fmt f)) ≡ vector fmt f
  unfolding vector
  vector-split f =
      split-join (fmt.itoa f.event_count)
        (fmt.format_float f.total_amount ∷ fmt.format_float f.max_amount ∷ replicate 29 (text "0"))
        (
          exact.itoa-no_comma f.event_count,
          (
            exact.format-no_comma f.total_amount,
            (exact.format-no_comma f.max_amount, replicate-All 29 (text "0") refl),
          ),
        )

  vector-length : (f : Features A) → length (vector fmt f) ≡ 32
  unfolding vector
  vector-length f = refl

  vector-parse :
      {X : Type 0} (f : Features A)
      → valid_features f ≡ true
      → parse_features {X = X} parse 0 (vector fmt f) ≡ ok (numbers f)
  unfolding vector valid_features
  vector-parse f h =
      parse_features-cons parse 0 _ _ _ _ (exact.parse-itoa f.event_count)
        (exact.of_count-number f.event_count)
        (parse_features-cons parse 1 _ _ _ _ (exact.parse-format f.total_amount (ground (arith, h)))
          (ground (arith, h))
          (parse_features-cons parse 2 _ _ _ _ (exact.parse-format f.max_amount (ground (arith, h)))
            (ground (arith, h))
            (parse_features-replicate parse 29 3 (text "0") float.zero exact.parse-zero
              exact.zero-number)))

  -- Features that the Redis sink takes, for an entity that the feature store accepts, are read back as
  -- the count, the sum and the maximum, and 29 zeros.
  pub put-get :
      {X : Type 0} (f : Features A) (redis : Map Text Text)
      → valid_features f ≡ true
      → valid_feature_key f.entity_id ≡ true
      → ((put_redis {X = X} fmt none f redis).0 ≡ none)
        × (get_redis {X = X} parse materialized_feature_width none none f.entity_id
              (put_redis {X = X} fmt none f redis).1
            ≡ ok (numbers f))
  unfolding put_redis get_redis
  put-get f redis h k = (
    rw (h, put_redis) refl,
    rw
        (
          h,
          put_redis,
          k,
          get_redis,
          lookup-insert_self f.entity_id (join (vector fmt f)) redis,
          vector-split f,
          vector-length f,
        )
        (vector-parse f h),
  )
