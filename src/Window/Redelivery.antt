-- ===== src/Window/Redelivery.antt =====
-- Redelivery and ordering: an event that was taken is a no-op when it comes again, and the offset
-- of a partition never goes back. With a sink, nothing is committed unless the sink succeeded.
use distributed_fraud_detect.Prelude.{
  ◌≡◌, refl, sym, ap, subst, ◌∙◌, Bool, true, false, inl, inr, some, arith, if◌then◌else◌,
  Bool-cases, lookup, insert, lookup-insert, lookup-insert_self, ℤ, leb_ℤ, leb_ℤ_refl, eqb_ℤ,
  eqb_ℤ_iff, int_key, ok,
}
use distributed_fraud_detect.Float.{Float64}
use distributed_fraud_detect.Text.{text_key}
use distributed_fraud_detect.Window.{
  Window, Event, Features, PendingUpdate, apply, no_features, accepted, ignored, prepare_locked,
  commit_locked, commit_events, evict_entity_locked, valid_event, is_stale,
}
use distributed_fraud_detect.Window.Steps.{
  prepare_locked-IsAccepted, prepare_cases, refused, skipped, prepared,
}

module _ {A : Type 0} where
  stored_offset :
      (w : Window A) (e : Event A) (p : PendingUpdate A)
      → (commit_locked w e p).offsets ≡ insert e.partition e.offset w.offsets
  unfolding commit_locked commit_events evict_entity_locked
  stored_offset w e p = ground arith

  stale_again :
      (w : Window A) (e : Event A) (p : PendingUpdate A) → is_stale (commit_locked w e p) e ≡ true
  unfolding is_stale
  stale_again w e p = ground (
    arith,
    stored_offset w e p,
    lookup-insert_self e.partition e.offset w.offsets,
    leb_ℤ_refl e.offset,
  )

module _ {A : Type 0} ⦃F : Float64 A⦄ (e : Event A) where
  stale-ignored :
      (w : Window A) → valid_event e ≡ true → is_stale w e ≡ true → prepare_locked w e ≡ ok ignored
  unfolding prepare_locked
  stale-ignored w v s = ground arith

  pub apply-ignored :
      (w : Window A) → prepare_locked w e ≡ ok ignored → apply w e ≡ (w, ok (no_features, false))
  unfolding apply
  apply-ignored w h = rw (h, apply) refl

  pub apply-accepted :
      (w : Window A) (p : PendingUpdate A)
      → prepare_locked w e ≡ ok (accepted p)
      → apply w e ≡ (commit_locked w e p, ok (p.features, p.changed))
  unfolding apply
  apply-accepted w p h = rw (h, apply) refl

  -- An event that `Apply` took without an error, or ignored, is ignored when it is delivered again:
  -- the state does not change, and no features are reported.
  pub apply_again :
      (w : Window A) (f : Features A) (changed : Bool)
      → (apply w e).1 ≡ ok (f, changed)
      → apply (apply w e).0 e ≡ ((apply w e).0, ok (no_features, false))
  unfolding apply
  apply_again w f changed h = apply-ignored (apply w e).0 (elim (prepare_cases w e) [
    | refused x r ↦ absurd (ground (arith, r, h))
    | skipped r ↦
        subst (λ u. prepare_locked u e ≡ ok ignored) (sym (ap (λ u. u.0) (apply-ignored w r))) r
    | prepared p r ↦
        subst (λ u. prepare_locked u e ≡ ok ignored) (sym (ap (λ u. u.0) (apply-accepted w p r)))
          (stale-ignored (commit_locked w e p) (prepare_locked-IsAccepted w e p r).valid
            (stale_again w e p))
  ])

  newer-leb :
      (w : Window A) (high : ℤ)
      → is_stale w e ≡ false
      → lookup e.partition w.offsets ≡ some high
      → leb_ℤ high e.offset ≡ true
  unfolding is_stale
  newer-leb w high n h = ground arith

  lookup-offsets :
      (w : Window A) (p : PendingUpdate A) (k : ℤ)
      → prepare_locked w e ≡ ok (accepted p)
      → lookup k (apply w e).0.offsets
        ≡ (if eqb_ℤ e.partition k then some e.offset else lookup k w.offsets)
  lookup-offsets w p k r =
      ap (λ u. lookup k u.0.offsets) (apply-accepted w p r)
      ∙ ap (lookup k) (stored_offset w e p)
      ∙ lookup-insert e.partition k e.offset w.offsets

  unmoved :
      (w : Window A) (k high : ℤ)
      → (apply w e).0 ≡ w
      → lookup k w.offsets ≡ some high
      → (high' : ℤ) × (lookup k (apply w e).0.offsets ≡ some high') × (leb_ℤ high high' ≡ true)
  unmoved w k high same h = (high, ap (λ u. lookup k u.offsets) same ∙ h, leb_ℤ_refl high)

  -- The stored offset of a partition never falls, whatever event comes in.
  pub offsets_mono :
      (w : Window A) (k high : ℤ)
      → lookup k w.offsets ≡ some high
      → (high' : ℤ) × (lookup k (apply w e).0.offsets ≡ some high') × (leb_ℤ high high' ≡ true)
  offsets_mono w k high h = elim (prepare_cases w e) [
    | refused x r ↦ unmoved w k high (unfold apply in rw (r, apply) refl) h
    | skipped r ↦ unmoved w k high (ap (λ u. u.0) (apply-ignored w r)) h
    | prepared p r ↦ elim (Bool-cases (eqb_ℤ e.partition k)) [
      | inl same ↦ (
        e.offset,
        lookup-offsets w p k r ∙ rw same refl,
        newer-leb w high (prepare_locked-IsAccepted w e p r).newer
            (rw (← (eqb_ℤ_iff e.partition k).0 same) at h),
      )
      | inr other ↦ (high, lookup-offsets w p k r ∙ rw other h, leb_ℤ_refl high)
    ]
  ]
