-- ===== src/Gateway/FailClosed.antt =====
-- When serving_plane/gateway/gateway.go says "allow".
use distributed_fraud_detect.Prelude.{
  ◌≡◌, ap, sym, ◌∙◌, true, false, not, ◌||◌, List, Option, none, some, arith, inl, inr, Bool-cases,
  Option-cases, Result-cases, Result, ok,
}
use distributed_fraud_detect.Float.{Float64}
use distributed_fraud_detect.Text.{Text}
use distributed_fraud_detect.Scheduler.Metrics.{add_word}
use distributed_fraud_detect.Scheduler.State.{Error}
use distributed_fraud_detect.Worker.Types.{Score}
use distributed_fraud_detect.Gateway.Request.{authorized, valid_entity_id}
use distributed_fraud_detect.Gateway.Handler.{
  Config, allow, deny, Body, problem, scored, HttpRequest, Services, State, fallback_response,
  fail_closed, score_entity, answer, score,
}

-- The score behind an answer that allows.
abbrev pub allowed : {A : Type 0} → Body A → Option (Score A)
allowed (problem t) = none
allowed (scored id v allow) = some v
allowed (scored id v deny) = none

module _ {A B W X : Type 0} ⦃float : Float64 A⦄ (one : A) (env : Services A B W X)
    (config : Config A) where
  -- The scheduler's answer for an entity's features.
  abbrev pub submitted : Text → A → List A → State W → Result (Error X) (Score A)
  submitted entity amount fs s =
      (env.submit (record { features = fs; transaction_amount = amount })
        (env.get_features entity s.world).1).0

  abbrev ScoredBelow : Text → A → State W → Score A → Type 0
  ScoredBelow entity amount s v =
      (fs : List A) × ((env.get_features entity s.world).0 ≡ ok fs)
      × (submitted entity amount fs s ≡ ok v)
      × (float.leb config.deny_score v.score ≡ false)

  score_entity-allow :
      (id entity : Text) (amount : A) (s : State W) (v : Score A)
      → allowed (score_entity one env config id entity amount s).0.body ≡ some v
      → ScoredBelow entity amount s v
  unfolding score_entity fail_closed fallback_response
  score_entity-allow id entity amount s v h =
      elim (Result-cases (env.get_features entity s.world).0) [
        | inr (x, e) ↦ absurd (ground (arith, h, e))
        | inl (fs, e) ↦ elim (Result-cases (submitted entity amount fs s)) [
          | inr (x, f) ↦ absurd (ground (arith, h, e, f))
          | inl (r, f) ↦ elim (Bool-cases (float.leb config.deny_score r.score)) [
            | inl g ↦ absurd (ground (arith, h, e, f, g))
            | inr g ↦
                let same : r ≡ v = ground (arith, h, e, f, g) in
                (
                  fs,
                  e,
                  f ∙ ap ok same,
                  ap (λ q. float.leb config.deny_score q.score) (sym same) ∙ g,
                )
          ]
        ]
      ]

  -- What stands behind an answer that allows.
  abbrev pub Allowed : HttpRequest B → State W → Score A → Type 0
  Allowed r s v =
      (authorized config.auth_token r.authorization ≡ true)
      × (entity : Text) × (amount : A) × (env.decode r.body ≡ some (entity, amount))
      × (valid_entity_id entity ≡ true)
      × (float.ltb amount float.zero ≡ false)
      × ScoredBelow entity amount s v

  -- An answer allows only if the request was authorised and well formed, its features were read, and
  -- the score that came back for them is the one that is reported and is not at or above the limit.
  pub score-Allowed :
      (r : HttpRequest B) (s : State W) (v : Score A)
      → allowed (score one env config r s).0.body ≡ some v
      → Allowed r s v
  unfolding score answer
  score-Allowed r s v h = elim (Bool-cases (authorized config.auth_token r.authorization)) [
    | inr e ↦ absurd (ground (arith, h, e))
    | inl e ↦ elim (Option-cases (env.decode r.body)) [
      | inl d ↦ absurd (ground (arith, h, e, d))
      | inr ((entity, amount), d) ↦
          elim (Bool-cases (not (valid_entity_id entity) || float.ltb amount float.zero)) [
            | inl b ↦ absurd (ground (arith, h, e, d, b))
            | inr b ↦ (
              e,
              entity,
              amount,
              d,
              ground (arith, b),
              ground (arith, b),
              score_entity-allow r.id entity amount
                  (record s {
                    counters = record s.counters { requests = add_word s.counters.requests 1 };
                  })
                  v (ground (arith, h, e, d, b)),
            )
          ]
    ]
  ]
