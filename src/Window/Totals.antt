-- ===== src/Window/Totals.antt =====
-- The features of an update: their counts, sums and maxima against the events that are stored.
use distributed_fraud_detect.Prelude.{
  ℕ, ◌+◌, ◌≡◌, true, List, [], ◌∷◌, arith, if◌then◌else◌, length, All, ok,
}
use distributed_fraud_detect.Float.{Float64}
use distributed_fraud_detect.Text.{text_key}
use distributed_fraud_detect.Window.{Features, add_features, snapshot_features}
use distributed_fraud_detect.Window.Sort.{WindowEvent, Follows}

module _ {A : Type 0} ⦃F : Float64 A⦄ where
  -- The sum and the maximum of the amounts, in the order of the list.
  abbrev pub sum_amounts : A → List (WindowEvent A) → A
  sum_amounts acc [] = acc
  sum_amounts acc (x ∷ xs) = sum_amounts (F.add acc x.amount) xs

  abbrev pub max_amounts : A → List (WindowEvent A) → A
  max_amounts acc [] = acc
  max_amounts acc (x ∷ xs) = max_amounts (if F.ltb acc x.amount then x.amount else acc) xs

  abbrev pub IsPriced : List (WindowEvent A) → Type 0
  IsPriced = All (λ x. F.leb F.zero x.amount ≡ true)

  abbrev add_event : Features A → WindowEvent A → Features A
  add_event f x = record f {
    total_amount = F.add f.total_amount x.amount;
    max_amount = if F.ltb f.max_amount x.amount then x.amount else f.max_amount;
  }

  -- What a successful fold over the events has computed.
  pub add_features-sums :
      (f g : Features A) (xs : List (WindowEvent A))
      → add_features f xs ≡ ok g
      → g ≡ record f {
        total_amount = sum_amounts f.total_amount xs;
        max_amount = max_amounts f.max_amount xs;
      }
  unfolding add_features
  add_features-sums f g [] h = ground arith
  add_features-sums f g (x ∷ xs) h =
      let rest : add_features (add_event f x) xs ≡ ok g = ground arith in
      add_features-sums (add_event f x) g xs rest

  -- Of amounts that are not negative the maximum stays below the sum.
  pub max_amounts-le-sum_amounts :
      (total most : A) (xs : List (WindowEvent A))
      → F.leb F.zero total ≡ true
      → F.leb most total ≡ true
      → IsPriced xs
      → (F.leb (max_amounts most xs) (sum_amounts total xs) ≡ true)
        × (F.leb F.zero (sum_amounts total xs) ≡ true)
  max_amounts-le-sum_amounts total most [] z m p = (m, z)
  max_amounts-le-sum_amounts total most (x ∷ xs) z m p =
      let grown = F.leb-add_left total x.amount z p.0 in
      max_amounts-le-sum_amounts (F.add total x.amount)
        (if F.ltb most x.amount then x.amount else most) xs
        (F.leb_trans F.zero total (F.add total x.amount) z grown)
        (ground (
          arith,
          F.leb-add_right total x.amount,
          F.leb_trans most total (F.add total x.amount),
          grown,
        ))
        p.1

  -- Without its check of the range the loop of `Snapshot` computes the same, on events that all lie
  -- in the window.
  pub snapshot_features-add_features :
      (cut : ℕ) (f g : Features A) (xs : List (WindowEvent A))
      → Follows cut xs
      → add_features f xs ≡ ok g
      → (n : ℕ)
      → snapshot_features cut (record f { event_count = n }) xs
        ≡ record g { event_count = n + length xs }
  unfolding add_features snapshot_features
  snapshot_features-add_features cut f g [] s h n = ground arith
  snapshot_features-add_features cut f g (x ∷ xs) s h n =
      let rest : add_features (add_event f x) xs ≡ ok g = ground arith in
      ground (arith, s.0, snapshot_features-add_features cut (add_event f x) g xs s.1 rest (n + 1))
