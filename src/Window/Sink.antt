-- ===== src/Window/Sink.antt =====
-- `ApplyAndMaterialize`: the window moves only if the sink took the features.
use distributed_fraud_detect.Prelude.{
  ◌≡◌, refl, sym, ap, ◌∙◌, Bool, true, false, Option, none, some, arith, if◌then◌else◌, ok, err,
}
use mathlib.Core.Path.{ap₂}
use distributed_fraud_detect.Float.{Float64}
use distributed_fraud_detect.Window.{
  Window, Event, Features, PendingUpdate, Materializer, Failure, apply, apply_and_materialize,
  after_put, commit_locked,
}
use distributed_fraud_detect.Window.Steps.{prepare_cases, refused, skipped, prepared}
use distributed_fraud_detect.Window.Redelivery.{apply-ignored, apply-accepted}

module _ {A S E : Type 0} ⦃F : Float64 A⦄ (w : Window A) (s : S) (e : Event A) where
  after_put-err :
      (p : PendingUpdate A) (r : S × Option E) (x : Failure E)
      → (after_put w e p r).2 ≡ err x
      → (after_put w e p r).0 ≡ w
  unfolding after_put
  after_put-err p (s', some y) x h = refl
  after_put-err p (s', none) x h = cc

  -- Whatever goes wrong, the missing sink and the sink's own error included, the window is left as
  -- it was.
  pub apply_and_materialize-err :
      (sink : Option (Materializer S E A)) (x : Failure E)
      → (apply_and_materialize w s e sink).2 ≡ err x
      → (apply_and_materialize w s e sink).0 ≡ w
  unfolding apply_and_materialize
  apply_and_materialize-err none x h = refl
  apply_and_materialize-err (some put) x h = elim (prepare_cases w e) [
    | refused y r ↦ rw (r, apply_and_materialize) refl
    | skipped r ↦ rw (r, apply_and_materialize) refl
    | prepared p r ↦
        rw (r, apply_and_materialize) (after_put-err p _ x (rw (r, apply_and_materialize) at h))
  ]

  -- What the sink has done behind a success: it took the features if they changed, and was not
  -- called otherwise.
  abbrev pub Materialized : Materializer S E A → S → Features A × Bool → Type 0
  Materialized put s' (f, changed) =
      (changed ≡ true → put s f ≡ (s', none)) × (changed ≡ false → s' ≡ s)

  after_put-ok :
      (put : Materializer S E A) (p : PendingUpdate A) (f : Features A) (changed : Bool) (b : Bool)
      (r : S × Option E)
      → p.changed ≡ b
      → (if b then put s p.features else (s, none)) ≡ r
      → (after_put w e p r).2 ≡ ok (f, changed)
      → ((after_put w e p r).0 ≡ commit_locked w e p)
        × (p.features ≡ f)
        × (p.changed ≡ changed)
        × Materialized put (after_put w e p r).1 (f, changed)
  unfolding after_put
  after_put-ok put p f changed b (s', some y) c q h = absurd (cc)
  after_put-ok put p f changed true (s', none) c q h =
      let sf : p.features ≡ f = ground arith in
      let sc : p.changed ≡ changed = ground arith in
      (refl, sf, sc, (λ _. ap (put s) (sym sf) ∙ q, λ z. absurd (cc)))
  after_put-ok put p f changed false (s', none) c q h =
      let sf : p.features ≡ f = ground arith in
      let sc : p.changed ≡ changed = ground arith in
      (refl, sf, sc, (λ z. absurd (cc), λ _. ap (λ t. t.0) (sym q)))

  -- A success commits exactly what `Apply` commits, reports what it reports, and has put the
  -- features into the sink if they changed.
  pub apply_and_materialize-ok :
      (put : Materializer S E A) (f : Features A) (changed : Bool)
      → (apply_and_materialize w s e (some put)).2 ≡ ok (f, changed)
      → ((apply_and_materialize w s e (some put)).0 ≡ (apply w e).0)
        × ((apply w e).1 ≡ ok (f, changed))
        × Materialized put (apply_and_materialize w s e (some put)).1 (f, changed)
  unfolding apply_and_materialize
  apply_and_materialize-ok put f changed h = elim (prepare_cases w e) [
    | refused y r ↦ absurd (ground (arith, r, h))
    | skipped r ↦
        rw (r, apply_and_materialize, apply-ignored e w r)
          (refl, ground (arith, r, h), (λ z. absurd (ground (arith, r, h)), λ _. refl))
    | prepared p r ↦
        let done =
          after_put-ok put p f changed p.changed _ refl refl (rw (r, apply_and_materialize) at h) in
        rw (r, apply_and_materialize, apply-accepted e w p r)
          (done.0, ap₂ (λ g c. ok (g, c)) done.1 done.2, done.3)
  ]
