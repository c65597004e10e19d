-- ===== src/Features/Materialize.antt =====
-- stream_processor/aggregations/materialize.go: the sinks of features. Redis is a map from keys to
-- values; what formats a number is an argument.
use distributed_fraud_detect.Prelude.{
  ℕ, Bool, not, ◌&&◌, ◌||◌, List, ◌∷◌, Option, none, some, ltb, if◌then◌else◌, length, replicate,
  contains, nat_key, Map, insert, lookup,
}
use distributed_fraud_detect.Float.{Float64}
use distributed_fraud_detect.Text.{Text, text, text_key, is_empty}
use distributed_fraud_detect.Window.{Features}
use distributed_fraud_detect.Features.Vector.{join}

pub data SinkError (X : Type 0) : Type 0 where
  invalid_features : SinkError X
  of_context : X → SinkError X
  of_redis : X → SinkError X

abbrev pub materialized_feature_width : ℕ
materialized_feature_width = 32

-- strconv.Itoa and strconv.FormatFloat(x, 'g', -1, 64)
pub record Formatter (A : Type 0) : Type 0 where
  pub itoa : ℕ → Text
  pub format_float : A → Text

module _ {A : Type 0} ⦃float : Float64 A⦄ where
  -- `validateMaterializedFeatures`; a count of the window is not negative.
  unfoldable pub valid_features : Features A → Bool
  valid_features f =
      not (
        is_empty f.entity_id
        || ltb 256 (length f.entity_id)
        || (contains f.entity_id 0x0D || contains f.entity_id 0x0A))
      && not (float.ltb f.total_amount float.zero || float.ltb f.max_amount float.zero)
      && not (float.is_nan f.total_amount || float.is_inf f.total_amount)
      && not (float.is_nan f.max_amount || float.is_inf f.max_amount)
      && not (float.ltb f.total_amount f.max_amount)

  -- `MemoryMaterializer.Put`; `e` is what the context's `Err` gives.
  unfoldable pub put_memory :
      {X : Type 0}
      → Option X
      → Features A
      → Map Text (Features A)
      → Option (SinkError X) × Map Text (Features A)
  put_memory (some x) f values = (some (of_context x), values)
  put_memory none f values =
      if not (valid_features f)
      then (some invalid_features, values)
      else (none, insert f.entity_id f values)

  -- `MemoryMaterializer.Get`
  unfoldable pub get_memory : Text → Map Text (Features A) → Option (Features A)
  get_memory entity values = lookup entity values

  -- The vector that `RedisMaterializer.Put` writes.
  unfoldable pub vector : Formatter A → Features A → List Text
  vector fmt f =
      fmt.itoa f.event_count
      ∷ fmt.format_float f.total_amount
      ∷ fmt.format_float f.max_amount
      ∷ replicate 29 (text "0")

  -- `RedisMaterializer.Put` on an open client; `e` is the error of the SET.
  unfoldable pub put_redis :
      {X : Type 0}
      → Formatter A
      → Option X
      → Features A
      → Map Text Text
      → Option (SinkError X) × Map Text Text
  put_redis fmt e f redis =
      if not (valid_features f) then (some invalid_features, redis) else elim e [
        | some x ↦ (some (of_redis x), redis)
        | none ↦ (none, insert f.entity_id (join (vector fmt f)) redis)
      ]
