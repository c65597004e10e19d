-- ===== src/Stream/Decided.antt =====
-- From an event to a decision: a gateway whose feature store reads the Redis that the stream
-- processor's sink writes.
use distributed_fraud_detect.Prelude.{
  ℕ, ◌≡◌, refl, sym, subst, true, false, List, Option, none, some, arith, Map, Result, ok, err,
  if◌then◌else◌, inl, inr, Result-cases,
}
use distributed_fraud_detect.Float.{Float64}
use distributed_fraud_detect.Text.{Text, text_key}
use distributed_fraud_detect.Window.{Event, Features, apply}
use distributed_fraud_detect.Window.Invariant.{IsValid}
use distributed_fraud_detect.Window.Served.{AllPriced}
use distributed_fraud_detect.Features.Materialize.{Formatter, materialized_feature_width}
use distributed_fraud_detect.Features.Store.{StoreError, get_redis, valid_feature_key}
use distributed_fraud_detect.Features.RoundTrip.{IsExact, numbers}
use distributed_fraud_detect.Scheduler.State.{Error}
use distributed_fraud_detect.Worker.Types.{Request, Score, queue_deadline, worker_unavailable}
use distributed_fraud_detect.Gateway.Request.{authorized, valid_entity_id}
use distributed_fraud_detect.Gateway.Handler.{
  Config, Counters, allow, deny, scored, HttpRequest, Response, Services, State, score_entity,
  answer, score, queue_failed,
}
use distributed_fraud_detect.Gateway.FailClosed.{submitted}
use distributed_fraud_detect.Gateway.Denial.{Denies, Blames, queue_failed-Blames, Fails-Denies}
use distributed_fraud_detect.Stream.Handler.{Processor, handle_event}
use distributed_fraud_detect.Stream.Served.{redis_materializer, handle_event-get_redis}

-- The gateway's services over the store and the scheduler's world `V`: `Redis.Get` on an open client
-- of the materialized width, whose context is alive and whose GET succeeds.
unfoldable pub store_services :
    {A B V X : Type 0} ⦃float : Float64 A⦄
    → (B → Option (Text × A))
    → (Text → Option A)
    → (Request A → V → Result (Error (StoreError X)) (Score A) × V)
    → (V → ℕ)
    → Services A B (Map Text Text × V) (StoreError X)
store_services {X = X} decode parse submit elapsed = record {
  decode = decode;
  get_features =
      λ entity w. (get_redis {X = X} parse materialized_feature_width none none entity w.0, w);
  submit = λ request w. let (r, v) = submit request w.1 in (r, (w.0, v));
  elapsed = λ w. elapsed w.1;
}

valid_feature_key-read :
    {A X : Type 0} ⦃float : Float64 A⦄ (parse : Text → Option A) (width : ℕ) (key : Text)
    (store : Map Text Text) (fs : List A)
    → get_redis {X = X} parse width none none key store ≡ ok fs
    → valid_entity_id key ≡ true
unfolding get_redis valid_feature_key valid_entity_id
valid_feature_key-read parse width key store fs h = ground (arith, h)

module _ {A : Type 0} ⦃float : Float64 A⦄ (one : A) (config : Config A) where
  -- The response to a scheduler's answer: its score with the decision on it, or a denial for the
  -- reason of the error.
  unfoldable pub IsAnswer : {X : Type 0} → Text → Result (Error X) (Score A) → Response A → Type 0
  IsAnswer id (ok v) p =
      (p.status ≡ 200)
      × (p.body ≡ scored id v (if float.leb config.deny_score v.score then deny else allow))
  IsAnswer id (err e) p = (reason : Text) × Blames e reason × Denies one id reason p

  module _ {B W X : Type 0} (env : Services A B W X) where
    score-IsAnswer :
        (r : HttpRequest B) (s : State W) (entity : Text) (amount : A) (fs : List A)
        → authorized config.auth_token r.authorization ≡ true
        → env.decode r.body ≡ some (entity, amount)
        → valid_entity_id entity ≡ true
        → float.ltb amount float.zero ≡ false
        → (env.get_features entity s.world).0 ≡ ok fs
        → IsAnswer r.id (submitted one env config entity amount fs s) (score one env config r s).0
    unfolding score answer score_entity IsAnswer
    score-IsAnswer r s entity amount fs a d v n g =
        elim (Result-cases (submitted one env config entity amount fs s)) [
          | inl (q, e) ↦
              subst (λ o. IsAnswer r.id o (score one env config r s).0) (sym e)
                (
                  rw (a, score, d, answer, v, n, g, score_entity, e) refl,
                  rw (a, score, d, answer, v, n, g, score_entity, e) refl,
                )
          | inr (x, e) ↦
              let reason = if queue_failed x then queue_deadline else worker_unavailable in
              let blame = queue_failed-Blames x in
              subst (λ o. IsAnswer r.id o (score one env config r s).0) (sym e)
                (
                  reason,
                  blame,
                  Fails-Denies one env config r s reason
                      (a, entity, amount, d, v, n, inr (fs, g, x, e, blame)),
                )
        ]

module _ {A B V X : Type 0} ⦃float : Float64 A⦄ (fmt : Formatter A) (parse : Text → Option A)
    (of_count : ℕ → A) (exact : IsExact fmt parse of_count) (down : Map Text Text → Option X)
    (decode : B → Option (Text × A))
    (submit : Request A → V → Result (Error (StoreError X)) (Score A) × V) (elapsed : V → ℕ)
    (one : A) (config : Config A) where
  -- Once the handler has taken an event that changed its entity's features, in a well-formed window of
  -- priced events, a request for the entity, authorised and with an amount that is not negative, is
  -- answered by what the scheduler says of just those features: 200 with its score and the decision on
  -- it, or 503 with a denial whose reason is queue_deadline if the queue was full or too slow and
  -- worker_unavailable for any other error.
  pub score-handled :
      (lag : A) (e : Event A) (p : Processor A (Map Text Text)) (f : Features A) (r : HttpRequest B)
      (amount : A) (c : Counters) (v : V)
      → IsValid p.window
      → AllPriced p.window
      → (apply p.window e).1 ≡ ok (f, true)
      → (handle_event (redis_materializer fmt down) lag e p).0 ≡ none
      → authorized config.auth_token r.authorization ≡ true
      → decode r.body ≡ some (e.entity_id, amount)
      → float.ltb amount float.zero ≡ false
      → let q = (handle_event (redis_materializer fmt down) lag e p).1 in
        IsAnswer one config r.id
          (submit
            (record { features = numbers fmt parse of_count exact f; transaction_amount = amount })
            v).0
          (score one
            (store_services {X = X} decode parse submit elapsed)
            config
            r
            (record { counters = c; world = (q.sink, v) })).0
  unfolding store_services
  score-handled lag e p f r amount c v valid priced taken handled a d n =
      let q = (handle_event (redis_materializer fmt down) lag e p).1 in
      let fs = numbers fmt parse of_count exact f in
      let (_, read) =
        handle_event-get_redis fmt parse of_count exact down lag e p f valid priced taken handled in
      score-IsAnswer one config (store_services {X = X} decode parse submit elapsed) r
        (record { counters = c; world = (q.sink, v) }) e.entity_id amount fs a d
        (valid_feature_key-read parse materialized_feature_width e.entity_id q.sink fs read) n read
