-- ===== src/Gateway/Denial.antt =====
-- When serving_plane/gateway/gateway.go answers 503, and what it then says.
use distributed_fraud_detect.Prelude.{
  ◌≡◌, ◌≢◌, ◌⊎◌, ◌↔◌, refl, sym, subst, ap, ◌∙◌, true, false, not, ◌||◌, List, [], some, arith, inl,
  inr, if◌then◌else◌, Bool-cases, Option-cases, Result-cases, ok, err,
}
use distributed_fraud_detect.Float.{Float64}
use distributed_fraud_detect.Text.{Text, text}
use distributed_fraud_detect.Scheduler.Metrics.{add_word}
use distributed_fraud_detect.Scheduler.State.{
  Error, closed_error, full_error, queue_delay, bad_configuration, wrong_result_count, of_context,
  of_handler,
}
use distributed_fraud_detect.Worker.Types.{Score, queue_deadline, worker_unavailable}
use distributed_fraud_detect.Gateway.Request.{authorized, valid_entity_id}
use distributed_fraud_detect.Gateway.Handler.{
  Config, deny, scored, HttpRequest, Response, Services, State, fallback_response, fail_closed,
  score_entity, answer, score, queue_failed,
}
use distributed_fraud_detect.Gateway.FailClosed.{submitted}

-- A denial for a reason: 503 with the decision to deny, the score one and no explanation, marked as
-- a fallback of the model "fail-closed".
pub record Denies {A : Type 0} (one : A) (id reason : Text) (p : Response A) : Type 0 where
  pub status_ok : p.status ≡ 503
  pub reported : Score A
  pub body_ok : p.body ≡ scored id reported deny
  pub score_ok : reported.score ≡ one
  pub explanation_ok : reported.explanation ≡ []
  pub model_ok : reported.model ≡ text "fail-closed"
  pub fallback_ok : reported.fallback ≡ true
  pub reason_ok : reported.fallback_reason ≡ reason

-- The reason for a failure behind the features: the queue, if it was full or too slow, or else the
-- worker.
abbrev pub Blames : {X : Type 0} → Error X → Text → Type 0
Blames e reason =
    (((e ≡ queue_delay) ⊎ (e ≡ full_error)) × (reason ≡ text "queue_deadline"))
    ⊎ ((e ≢ queue_delay) × (e ≢ full_error) × (reason ≡ text "worker_unavailable"))

fallback_response-Denies :
    {A : Type 0} ⦃float : Float64 A⦄ (one : A) (id reason : Text)
    → Denies one id reason (fallback_response one id reason)
unfolding fallback_response
fallback_response-Denies one id reason = record {
  status_ok = refl;
  reported = _;
  body_ok = refl;
  score_ok = refl;
  explanation_ok = refl;
  model_ok = refl;
  fallback_ok = refl;
  reason_ok = refl;
}

module _ {X : Type 0} where
  pub queue_failed-Blames :
      (e : Error X) → Blames e (if queue_failed e then queue_deadline else worker_unavailable)
  queue_failed-Blames queue_delay = inl (inl refl, refl)
  queue_failed-Blames full_error = inl (inr refl, refl)
  queue_failed-Blames closed_error = inr (λ p. absurd (cc p), λ p. absurd (cc p), refl)
  queue_failed-Blames bad_configuration = inr (λ p. absurd (cc p), λ p. absurd (cc p), refl)
  queue_failed-Blames wrong_result_count = inr (λ p. absurd (cc p), λ p. absurd (cc p), refl)
  queue_failed-Blames (of_context x) = inr (λ p. absurd (cc p), λ p. absurd (cc p), refl)
  queue_failed-Blames (of_handler x) = inr (λ p. absurd (cc p), λ p. absurd (cc p), refl)

  -- An error has one reason.
  Blames-same : (e : Error X) (s t : Text) → Blames e s → Blames e t → s ≡ t
  Blames-same e s t (inl (h, a)) (inl (k, b)) = a ∙ sym b
  Blames-same e s t (inr (n, m, a)) (inr (k, l, b)) = a ∙ sym b
  Blames-same e s t (inl (inl h, a)) (inr (k, l, b)) = absurd (k h)
  Blames-same e s t (inl (inr h, a)) (inr (k, l, b)) = absurd (l h)
  Blames-same e s t (inr (n, m, a)) (inl (inl h, b)) = absurd (n h)
  Blames-same e s t (inr (n, m, a)) (inl (inr h, b)) = absurd (m h)

module _ {A B W X : Type 0} ⦃float : Float64 A⦄ (one : A) (env : Services A B W X)
    (config : Config A) where
  -- The failures behind a well-formed request: of the features, or of the scheduler or the worker.
  abbrev pub Fails : Text → A → State W → Text → Type 0
  Fails entity amount s reason =
      ((x : X) × ((env.get_features entity s.world).0 ≡ err x)
        × (reason ≡ text "feature_unavailable"))
      ⊎ ((fs : List A) × ((env.get_features entity s.world).0 ≡ ok fs)
          × (e : Error X) × (submitted one env config entity amount fs s ≡ err e)
          × Blames e reason)

  -- A request that is authorised and well formed, and fails for a reason.
  abbrev pub FailsFor : HttpRequest B → State W → Text → Type 0
  FailsFor r s reason =
      (authorized config.auth_token r.authorization ≡ true)
      × (entity : Text) × (amount : A) × (env.decode r.body ≡ some (entity, amount))
      × (valid_entity_id entity ≡ true)
      × (float.ltb amount float.zero ≡ false)
      × Fails entity amount s reason

  pub Fails-Denies :
      (r : HttpRequest B) (s : State W) (reason : Text)
      → FailsFor r s reason
      → Denies one r.id reason (score one env config r s).0
  unfolding score answer score_entity fail_closed
  Fails-Denies r s reason (a, entity, amount, d, v, n, inl (x, e, same)) =
      subst (Denies one r.id reason)
        (sym (rw (same, a, score, d, answer, v, n, e, score_entity) refl))
        (fallback_response-Denies one r.id reason)
  Fails-Denies r s reason (a, entity, amount, d, v, n, inr (fs, e, x, f, blame)) =
      let given = if queue_failed x then queue_deadline else worker_unavailable in
      let same : reason ≡ given = Blames-same x reason given blame (queue_failed-Blames x) in
      subst (Denies one r.id reason)
        (sym (rw (same, a, score, d, answer, v, n, e, score_entity, f) refl))
        (fallback_response-Denies one r.id reason)

  score_entity-Fails :
      (id entity : Text) (amount : A) (s : State W)
      → (score_entity one env config id entity amount s).0.status ≡ 503
      → (t : Text) × Fails entity amount s t
  unfolding score_entity fail_closed
  score_entity-Fails id entity amount s h =
      elim (Result-cases (env.get_features entity s.world).0) [
        | inr (x, e) ↦ (text "feature_unavailable", inl (x, e, refl))
        | inl (fs, e) ↦ elim (Result-cases (submitted one env config entity amount fs s)) [
          | inr (x, f) ↦ (
            if queue_failed x then queue_deadline else worker_unavailable,
            inr (fs, e, x, f, queue_failed-Blames x),
          )
          | inl (v, f) ↦ absurd (ground (arith, h, e, f))
        ]
      ]

  score-FailsFor :
      (r : HttpRequest B) (s : State W)
      → (score one env config r s).0.status ≡ 503
      → (t : Text) × FailsFor r s t
  unfolding score answer
  score-FailsFor r s h = elim (Bool-cases (authorized config.auth_token r.authorization)) [
    | inr a ↦ absurd (ground (arith, h, a))
    | inl a ↦ elim (Option-cases (env.decode r.body)) [
      | inl d ↦ absurd (ground (arith, h, a, d))
      | inr ((entity, amount), d) ↦
          elim (Bool-cases (not (valid_entity_id entity) || float.ltb amount float.zero)) [
            | inl b ↦ absurd (ground (arith, h, a, d, b))
            | inr b ↦
                let counted = record s {
                  counters = record s.counters { requests = add_word s.counters.requests 1 };
                } in
                let (t, f) =
                  score_entity-Fails r.id entity amount counted (ground (arith, h, a, d, b)) in
                (t, (a, entity, amount, d, ground (arith, b), ground (arith, b), f))
          ]
    ]
  ]

  Denies-Fails :
      (r : HttpRequest B) (s : State W) (reason : Text)
      → Denies one r.id reason (score one env config r s).0
      → FailsFor r s reason
  Denies-Fails r s reason h =
      let (t, f) = score-FailsFor r s h.status_ok in
      let g = Fails-Denies r s t f in
      let same : h.reported ≡ g.reported = ground (arith, h.body_ok, g.body_ok) in
      subst (FailsFor r s) (sym g.reason_ok ∙ ap (λ v. v.fallback_reason) (sym same) ∙ h.reason_ok)
        f

  -- The gateway answers 503 just to requests that are authorised and well formed and then fail, in
  -- their features, in the scheduler or in the worker. The answer is then a denial with the score
  -- one, and its reason is feature_unavailable just if the features could not be read, queue_deadline
  -- just if the queue was full or too slow, and worker_unavailable just for any other error.
  pub score-Denies :
      (r : HttpRequest B) (s : State W) (reason : Text)
      → (((score one env config r s).0.status ≡ 503) ↔ ((t : Text) × FailsFor r s t))
        × (FailsFor r s reason ↔ Denies one r.id reason (score one env config r s).0)
  score-Denies r s reason = (
    (score-FailsFor r s, λ f. (Fails-Denies r s f.0 f.1).status_ok),
    (Fails-Denies r s reason, Denies-Fails r s reason),
  )
