-- ===== src/Stream/Served.antt =====
-- From an event to the gateway: what the stream processor's handler reports as done, the serving
-- plane's feature store reads.
use distributed_fraud_detect.Prelude.{
  ◌≡◌, sym, ap, subst, ◌∙◌, true, false, Option, none, some, ℕ, arith, Map, ok,
}
use distributed_fraud_detect.Float.{Float64}
use distributed_fraud_detect.Text.{Text, text_key}
use distributed_fraud_detect.Window.{Event, Features, Materializer, apply}
use distributed_fraud_detect.Window.Invariant.{IsValid}
use distributed_fraud_detect.Window.Served.{AllPriced}
use distributed_fraud_detect.Window.Reads.{Agrees, apply-Agrees}
use distributed_fraud_detect.Features.Materialize.{
  SinkError, Formatter, valid_features, put_redis, materialized_feature_width,
}
use distributed_fraud_detect.Features.Store.{get_redis}
use distributed_fraud_detect.Features.Accepted.{apply-valid_features}
use distributed_fraud_detect.Features.RoundTrip.{IsExact, numbers, put-get}
use distributed_fraud_detect.Stream.Handler.{Processor, handle_event}
use distributed_fraud_detect.Stream.Delivered.{handle_event-IsHandled}

-- `RedisMaterializer.Put` as the window's sink; `down` is the error of the SET.
abbrev pub redis_materializer :
    {A X : Type 0} ⦃float : Float64 A⦄
    → Formatter A
    → (Map Text Text → Option X)
    → Materializer (Map Text Text) (SinkError X) A
redis_materializer fmt down values f =
    let (r, next) = put_redis fmt (down values) f values in (next, r)

module _ {A X : Type 0} ⦃float : Float64 A⦄ (fmt : Formatter A) (parse : Text → Option A)
    (of_count : ℕ → A) (exact : IsExact fmt parse of_count) (down : Map Text Text → Option X) where
  put_redis-none :
      (f : Features A) (values : Map Text Text) (e : Option X)
      → (put_redis fmt e f values).0 ≡ none
      → (valid_features f ≡ true) × (e ≡ none)
  unfolding put_redis
  put_redis-none f values none h = (ground (arith, h), λ i. none)
  put_redis-none f values (some x) h = absurd (ground (arith, h))

  finite_total : (f : Features A) → valid_features f ≡ true → float.is_inf f.total_amount ≡ false
  unfolding valid_features
  finite_total f h = ground (arith, h)

  redis_materializer-taken :
      (f : Features A) (values next : Map Text Text)
      → redis_materializer fmt down values f ≡ (next, none)
      → (valid_features f ≡ true) × ((put_redis {X = X} fmt none f values).1 ≡ next)
  redis_materializer-taken f values next h =
      let (v, up) = put_redis-none f values (down values) (ap (λ t. t.1) h) in
      (v, ap (λ x. (put_redis fmt x f values).1) (sym up) ∙ ap (λ t. t.0) h)

  -- Behind a success of the handler that changed an entity's features, in a window that is well formed
  -- and where numbers are formatted exactly, the feature store reads for the entity: the count, the
  -- sum and the maximum of the events that the window now stores for it, and 29 zeros.
  pub handle_event-get_redis :
      (lag : A) (e : Event A) (p : Processor A (Map Text Text)) (f : Features A)
      → IsValid p.window
      → AllPriced p.window
      → (apply p.window e).1 ≡ ok (f, true)
      → (handle_event (redis_materializer fmt down) lag e p).0 ≡ none
      → let q = (handle_event (redis_materializer fmt down) lag e p).1 in
        Agrees q.window e.entity_id f
        × (get_redis {X = X} parse materialized_feature_width none none e.entity_id q.sink
            ≡ ok (numbers fmt parse of_count exact f))
  handle_event-get_redis lag e p f v m h k =
      let put = redis_materializer fmt down in
      let q = (handle_event put lag e p).1 in
      let done = handle_event-IsHandled put lag e p k in
      let same : done.features ≡ f = ground (arith, done.reported, h) in
      let put_it : put p.sink f ≡ (q.sink, none) =
        subst (λ g. put p.sink g ≡ (q.sink, none)) same
          (done.materialized.0 (ground (arith, done.reported, h))) in
      let (valid, taken) = redis_materializer-taken f p.sink q.sink put_it in
      let (_, key) = apply-valid_features p.window e f v m h (finite_total f valid) in
      let agrees = apply-Agrees p.window e f v m h in
      let (_, read) = put-get fmt parse of_count exact {X = X} f p.sink valid key in
      (
        subst (λ w. Agrees w e.entity_id f) (sym done.same_window) agrees,
        subst
            (λ t.
              get_redis {X = X} parse materialized_feature_width none none t q.sink
              ≡ ok (numbers fmt parse of_count exact f))
            agrees.same_entity
            (subst
              (λ r.
                get_redis {X = X} parse materialized_feature_width none none f.entity_id r
                ≡ ok (numbers fmt parse of_count exact f))
              taken read),
      )
