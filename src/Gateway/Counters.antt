-- ===== src/Gateway/Counters.antt =====
-- What the counters of serving_plane/gateway/gateway.go say together.
use distributed_fraud_detect.Prelude.{
  ℕ, suc, ◌+◌, ◌%◌, ◌≡◌, refl, ◌∙◌, not, ◌||◌, List, [], ◌∷◌, arith, inl, inr, if◌then◌else◌, ◌==◌,
  length, Bool-cases, Option-cases, Result-cases,
}
use distributed_fraud_detect.Float.{Float64}
use distributed_fraud_detect.Text.{Text, text_key}
use distributed_fraud_detect.Scheduler.Metrics.{word, add_word, add_buckets}
use distributed_fraud_detect.Worker.Types.{feature_unavailable, queue_deadline, worker_unavailable}
use distributed_fraud_detect.Gateway.Request.{authorized, valid_entity_id}
use distributed_fraud_detect.Gateway.Handler.{
  Config, Counters, request_duration_bounds, HttpRequest, Services, State, observe_request,
  count_fallback, fail_closed, score_entity, answer, score, queue_failed,
}

abbrev pub last_bucket : List ℕ → ℕ
last_bucket [] = 0
last_bucket (b ∷ []) = b
last_bucket (b ∷ c ∷ bs) = last_bucket (c ∷ bs)

-- Each failure is one fallback of a reason, and the open bucket has `late` requests less than the
-- counter: those still under way.
unfoldable pub Agree : ℕ → Counters → Type 0
Agree late c =
    (c.failures ≡ (c.feature_fallbacks + c.queue_fallbacks + c.worker_fallbacks) % word)
    × (length c.request_buckets ≡ 7)
    × (add_word (last_bucket c.request_buckets) late ≡ c.requests)

add_buckets-last :
    (bounds buckets : List ℕ) (x : ℕ)
    → length buckets ≡ suc (length bounds)
    → (length (add_buckets bounds x buckets) ≡ length buckets)
      × (last_bucket (add_buckets bounds x buckets) ≡ add_word (last_bucket buckets) 1)
unfolding add_buckets
add_buckets-last [] [] x h = absurd (omega (arith, h))
add_buckets-last [] (b ∷ []) x h = (refl, refl)
add_buckets-last [] (b ∷ c ∷ bs) x h = absurd (omega (arith, h))
add_buckets-last (p ∷ bounds) [] x h = absurd (omega (arith, h))
add_buckets-last (p ∷ bounds) (b ∷ []) x h = absurd (omega (arith, h))
add_buckets-last (p ∷ []) (b ∷ c ∷ []) x h = (refl, refl)
add_buckets-last (p ∷ []) (b ∷ c ∷ d ∷ bs) x h = absurd (omega (arith, h))
add_buckets-last (p ∷ q ∷ bounds) (b ∷ c ∷ bs) x h =
    let rest = add_buckets-last (q ∷ bounds) (c ∷ bs) x (omega (arith, h)) in
    (omega (arith, rest.0), rest.1)

count_fallback-Agree :
    (late : ℕ) (reason : Text) (c : Counters)
    → Agree late c
    → Agree late (count_fallback reason (record c { failures = add_word c.failures 1 }))
unfolding Agree count_fallback
count_fallback-Agree late reason c h = elim (Bool-cases (reason == feature_unavailable)) [
  | inl e ↦ rw (e, count_fallback) (omega (arith, h.0), h.1, h.2)
  | inr e ↦ elim (Bool-cases (reason == queue_deadline)) [
    | inl f ↦ rw (e, count_fallback, f) (omega (arith, h.0), h.1, h.2)
    | inr f ↦ rw (e, count_fallback, f) (omega (arith, h.0), h.1, h.2)
  ]
]

observe_request-Agree :
    (duration : ℕ) (c : Counters) → Agree 1 c → Agree 0 (observe_request duration c)
unfolding Agree observe_request
observe_request-Agree duration c h =
    let made = add_buckets-last request_duration_bounds c.request_buckets duration h.1 in
    (h.0, made.0 ∙ h.1, omega (arith, made.1, h.2))

denied-Agree : (c : Counters) → Agree 0 c → Agree 0 (record c { denied = add_word c.denied 1 })
unfolding Agree
denied-Agree c h = h

started-Agree : (c : Counters) → Agree 0 c → Agree 1 (record c { requests = add_word c.requests 1 })
unfolding Agree
started-Agree c h = (h.0, h.1, omega (arith, h.2))

module _ {A B W X : Type 0} ⦃float : Float64 A⦄ (one : A) (env : Services A B W X)
    (config : Config A) where
  score_entity-Agree :
      (late : ℕ) (id entity : Text) (amount : A) (s : State W)
      → Agree late s.counters
      → Agree late (score_entity one env config id entity amount s).1.counters
  unfolding score_entity fail_closed
  score_entity-Agree late id entity amount s h =
      let (features, w1) = env.get_features entity s.world in
      elim (Result-cases (env.get_features entity s.world).0) [
        | inr (x, e) ↦
            rw (e, score_entity) (count_fallback-Agree late feature_unavailable s.counters h)
        | inl (fs, e) ↦
            elim (Result-cases
              (env.submit (record { features = fs; transaction_amount = amount })
                (env.get_features entity s.world).1).0) [
                  | inr (x, f) ↦
                      rw (e, score_entity, f)
                        (count_fallback-Agree late
                          (if queue_failed x then queue_deadline else worker_unavailable) s.counters
                          h)
                  | inl (r, f) ↦ rw (e, score_entity, f) h
                ]
      ]

  answer-Agree :
      (late : ℕ) (r : HttpRequest B) (s : State W)
      → Agree late s.counters
      → Agree late (answer one env config r s).1.counters
  unfolding answer
  answer-Agree late r s h = elim (Option-cases (env.decode r.body)) [
    | inl e ↦ rw (e, answer) h
    | inr ((entity, amount), e) ↦
        elim (Bool-cases (not (valid_entity_id entity) || float.ltb amount float.zero)) [
          | inl f ↦ rw (e, answer, f) h
          | inr f ↦ rw (e, answer, f) (score_entity-Agree late r.id entity amount s h)
        ]
  ]

  -- Between requests the counters agree: the failures are the fallbacks of the three reasons together,
  -- and the request counter is the open bucket of the durations, modulo 2^64. A request keeps this,
  -- whatever it comes to.
  pub score-Agree :
      (r : HttpRequest B) (s : State W)
      → Agree 0 s.counters
      → Agree 0 (score one env config r s).1.counters
  unfolding score
  score-Agree r s h = elim (Bool-cases (authorized config.auth_token r.authorization)) [
    | inr e ↦ rw (e, score) (denied-Agree s.counters h)
    | inl e ↦
        let s1 = record s {
          counters = record s.counters { requests = add_word s.counters.requests 1 };
        } in
        rw (e, score)
          (observe_request-Agree (env.elapsed (answer one env config r s1).1.world)
            (answer one env config r s1).1.counters
            (answer-Agree 1 r s1 (started-Agree s.counters h)))
  ]
