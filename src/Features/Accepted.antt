-- ===== src/Features/Accepted.antt =====
-- What the window reports is what the sinks and the feature store take.
use distributed_fraud_detect.Prelude.{
  ◌≡◌, ap, sym, subst, ◌∙◌, true, false, List, [], ◌∷◌, arith, if◌then◌else◌, nat_key, ok,
}
use distributed_fraud_detect.Float.{Float64}
use distributed_fraud_detect.Text.{text_key, is_trimmed_printable}
use distributed_fraud_detect.Text.Controls.{contains_control}
use distributed_fraud_detect.Window.{Window, Event, Features, apply, valid_event, next_events}
use distributed_fraud_detect.Window.Sort.{WindowEvent}
use distributed_fraud_detect.Window.Invariant.{IsValid}
use distributed_fraud_detect.Window.Served.{AllPriced, accepted_features, next_events-IsPriced}
use distributed_fraud_detect.Window.Totals.{IsPriced, max_amounts}
use distributed_fraud_detect.Window.Steps.{prepare_locked-IsAccepted}
use distributed_fraud_detect.Window.Reads.{apply-Agrees, apply-changed}
use distributed_fraud_detect.Features.Materialize.{valid_features}
use distributed_fraud_detect.Features.Store.{valid_feature_key}

module _ {A : Type 0} ⦃F : Float64 A⦄ where
  max_amounts-positive :
      (most : A) (xs : List (WindowEvent A))
      → F.leb F.zero most ≡ true
      → IsPriced xs
      → F.leb F.zero (max_amounts most xs) ≡ true
  max_amounts-positive most [] z p = z
  max_amounts-positive most (x ∷ xs) z p =
      max_amounts-positive (if F.ltb most x.amount then x.amount else most) xs
        (ground (arith, z, p.0)) p.1

  -- An event's entity is a key of the feature store.
  valid_event-key : (e : Event A) → valid_event e ≡ true → valid_feature_key e.entity_id ≡ true
  unfolding valid_event valid_feature_key
  valid_event-key e h = ground (arith, h)

  key-valid_features :
      (f : Features A)
      → valid_feature_key f.entity_id ≡ true
      → F.leb F.zero f.total_amount ≡ true
      → F.leb F.zero f.max_amount ≡ true
      → F.leb f.max_amount f.total_amount ≡ true
      → F.is_inf f.total_amount ≡ false
      → valid_features f ≡ true
  unfolding valid_features valid_feature_key
  key-valid_features f k t m o i =
      let clean : is_trimmed_printable f.entity_id ≡ true = ground (arith, k) in
      ground (
        arith,
        k,
        i,
        contains_control 0x0D f.entity_id (omega arith) clean,
        contains_control 0x0A f.entity_id (omega arith) clean,
        F.leb-not_ltb F.zero f.total_amount t,
        F.leb-not_ltb F.zero f.max_amount m,
        F.leb-not_ltb f.max_amount f.total_amount o,
        F.leb-not_nan F.zero f.total_amount t,
        F.leb-not_nan F.zero f.max_amount m,
        F.leb-not_inf f.max_amount f.total_amount m o i,
      )

  -- Features that a window reports with a change pass the checks of the sinks if their sum is
  -- finite, and their entity is a key that the feature store reads.
  pub apply-valid_features :
      (w : Window A) (e : Event A) (f : Features A)
      → IsValid w
      → AllPriced w
      → (apply w e).1 ≡ ok (f, true)
      → F.is_inf f.total_amount ≡ false
      → (valid_features f ≡ true) × (valid_feature_key f.entity_id ≡ true)
  apply-valid_features w e f v m h i =
      let agrees = apply-Agrees w e f v m h in
      let (p, (r, state, same)) = apply-changed w e f h in
      let a = prepare_locked-IsAccepted w e p r in
      let key =
        subst (λ t. valid_feature_key t ≡ true) (sym agrees.same_entity)
          (valid_event-key e a.valid) in
      let priced = next_events-IsPriced w e m a.valid in
      let (g, es, mark) = accepted_features w e p a in
      let most : f.max_amount ≡ max_amounts F.zero (next_events w e) =
        ap (λ q. q.max_amount) (sym same) ∙ ap (λ q. q.max_amount) g ∙ ap (max_amounts F.zero) es in
      let positive =
        subst (λ x. F.leb F.zero x ≡ true) (sym most)
          (max_amounts-positive F.zero (next_events w e) (F.leb_refl F.zero F.zero-not_nan)
            priced) in
      (key-valid_features f key agrees.total-positive positive agrees.max-le-total i, key)
