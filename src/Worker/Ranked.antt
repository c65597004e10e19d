-- ===== src/Worker/Ranked.antt =====
-- That `boundedExplanations` of serving_plane/worker/worker.go keeps the largest contributions.
use distributed_fraud_detect.Prelude.{
  ℕ, zero, suc, ◌≡◌, refl, sym, subst, ap, ◌∙◌, true, false, not, ◌&&◌, ◌||◌, List, [], ◌∷◌, ◌++◌,
  map, inl, inr, arith, length, take, drop, length-take, take-append-drop, All, ℤ, ltb_ℤ,
  Bool-cases,
}
use Prim.Native.Nat.{min}
use mathlib.Core.List.{Perm}
use mathlib.Core.List.Perm
use distributed_fraud_detect.Float.{Float64}
use distributed_fraud_detect.Worker.Types.{Explanation, max_explanations}
use distributed_fraud_detect.Worker.Scorer.{
  Math, before, insert_before, sort_slice, clipped, bounded_explanations,
}

module _ {A : Type 0} ⦃float : Float64 A⦄ (math : Math A) where
  -- Numbers that are no NaN are ordered by `<`, math.Abs makes none of them one, and `==` holds just
  -- where neither is below the other.
  pub record IsOrdered : Type 0 where
    pub abs-number : (x : A) → float.is_nan x ≡ false → float.is_nan (math.abs x) ≡ false
    pub equal-neither :
        (x y : A)
        → float.is_nan x ≡ false
        → float.is_nan y ≡ false
        → math.equal x y ≡ (not (float.ltb x y) && not (float.ltb y x))
    pub ltb-cotrans :
        (x y z : A)
        → float.is_nan y ≡ false
        → (not (float.ltb x z) || (float.ltb x y || float.ltb y z)) ≡ true

  abbrev IsNumber : Explanation A → Type 0
  IsNumber v = float.is_nan v.impact ≡ false

  -- None of a list goes before an element.
  abbrev Behind : Explanation A → List (Explanation A) → Type 0
  Behind v = All (λ u. before math u v ≡ false)

  abbrev pub IsRanked : List (Explanation A) → Type 0
  IsRanked [] = Unit
  IsRanked (v ∷ vs) = Behind v vs × IsRanked vs

  asymmetric : (x y : A) → not (float.ltb x y && float.ltb y x) ≡ true
  asymmetric x y = elim (Bool-cases (float.ltb x y)) [
    | inr e ↦ ground (arith, e)
    | inl e ↦ ground (arith, e, float.leb-not_ltb x y (float.ltb-leb x y e))
  ]

  ltb_ℤ_asymmetric : (a b : ℤ) → not (ltb_ℤ a b && ltb_ℤ b a) ≡ true
  ltb_ℤ_asymmetric a b = ground arith

  ltb_ℤ_trans : (a b c : ℤ) → (not (ltb_ℤ a b && ltb_ℤ b c) || ltb_ℤ a c) ≡ true
  ltb_ℤ_trans a b c = ground arith

  pub insert_before-All :
      (P : Explanation A → Type 0) (v : Explanation A) (vs : List (Explanation A))
      → P v
      → All P vs
      → All P (insert_before math v vs)
  unfolding insert_before
  insert_before-All P v [] p h = (p, tt)
  insert_before-All P v (u ∷ us) p h = elim (Bool-cases (before math v u)) [
    | inl b ↦ rw (b, insert_before) (p, h)
    | inr b ↦ rw (b, insert_before) (h.0, insert_before-All P v us p h.1)
  ]

  module _ (order : IsOrdered) where
    before_asymmetric :
        (u v : Explanation A)
        → IsNumber u
        → IsNumber v
        → before math u v ≡ true
        → before math v u ≡ false
    unfolding before
    before_asymmetric u v n m h =
        let a = order.abs-number u.impact n in
        let b = order.abs-number v.impact m in
        ground (
          arith,
          h,
          order.equal-neither (math.abs u.impact) (math.abs v.impact) a b,
          order.equal-neither (math.abs v.impact) (math.abs u.impact) b a,
          asymmetric (math.abs u.impact) (math.abs v.impact),
          ltb_ℤ_asymmetric u.feature_index v.feature_index,
        )

    before_trans :
        (u v w : Explanation A)
        → IsNumber u
        → IsNumber v
        → IsNumber w
        → before math u v ≡ true
        → before math v w ≡ true
        → before math u w ≡ true
    unfolding before
    before_trans u v w n m o h k =
        let x = math.abs u.impact in
        let y = math.abs v.impact in
        let z = math.abs w.impact in
        let a = order.abs-number u.impact n in
        let b = order.abs-number v.impact m in
        let c = order.abs-number w.impact o in
        ground (
          arith,
          h,
          k,
          order.equal-neither x y a b,
          order.equal-neither y z b c,
          order.equal-neither x z a c,
          asymmetric x y,
          asymmetric y z,
          asymmetric x z,
          order.ltb-cotrans x y z b,
          order.ltb-cotrans z y x b,
          order.ltb-cotrans x z y c,
          order.ltb-cotrans y z x c,
          order.ltb-cotrans y x z a,
          order.ltb-cotrans z x y a,
          ltb_ℤ_trans u.feature_index v.feature_index w.feature_index,
        )

    insert_before-perm :
        (v : Explanation A) (vs : List (Explanation A)) → Perm (insert_before math v vs) (v ∷ vs)
    unfolding insert_before
    insert_before-perm v [] = Perm.refl (v ∷ [])
    insert_before-perm v (u ∷ us) = elim (Bool-cases (before math v u)) [
      | inl b ↦ rw (b, insert_before) (Perm.refl (v ∷ u ∷ us))
      | inr b ↦
          rw (b, insert_before)
            (Perm.trans (Perm.cons u (insert_before-perm v us)) (Perm.swap v u us))
    ]

    sort_slice-perm : (vs : List (Explanation A)) → Perm (sort_slice math vs) vs
    unfolding sort_slice
    sort_slice-perm [] = Perm.refl []
    sort_slice-perm (v ∷ vs) =
        Perm.trans (insert_before-perm v (sort_slice math vs)) (Perm.cons v (sort_slice-perm vs))

    -- What goes before an element goes before those behind it.
    Behind-before :
        (v u : Explanation A) (us : List (Explanation A))
        → IsNumber v
        → IsNumber u
        → All IsNumber us
        → before math v u ≡ true
        → Behind u us
        → Behind v us
    Behind-before v u [] n m ms h k = tt
    Behind-before v u (w ∷ ws) n m ms h k = (
      elim (Bool-cases (before math w v)) [
        | inr b ↦ b
        | inl b ↦ absurd (ground (arith, before_trans w v u ms.0 n m b h, k.0))
      ],
      Behind-before v u ws n m ms.1 h k.1,
    )

    insert_before-IsRanked :
        (v : Explanation A) (vs : List (Explanation A))
        → IsNumber v
        → All IsNumber vs
        → IsRanked vs
        → IsRanked (insert_before math v vs)
    unfolding insert_before
    insert_before-IsRanked v [] n ns h = (tt, tt)
    insert_before-IsRanked v (u ∷ us) n ns h = elim (Bool-cases (before math v u)) [
      | inl b ↦
          rw (b, insert_before)
            ((before_asymmetric v u n ns.0 b, Behind-before v u us n ns.0 ns.1 b h.0), h)
      | inr b ↦
          rw (b, insert_before)
            (
              insert_before-All (λ w. before math w u ≡ false) v us b h.0,
              insert_before-IsRanked v us n ns.1 h.1,
            )
    ]

    sort_slice-IsRanked :
        (vs : List (Explanation A))
        → All IsNumber vs
        → IsRanked (sort_slice math vs) × All IsNumber (sort_slice math vs)
    unfolding sort_slice
    sort_slice-IsRanked [] n = (tt, tt)
    sort_slice-IsRanked (v ∷ vs) n =
        let (ranked, numbers) = sort_slice-IsRanked vs n.1 in
        (
          insert_before-IsRanked v (sort_slice math vs) n.0 numbers ranked,
          insert_before-All IsNumber v (sort_slice math vs) n.0 numbers,
        )

    Behind-drop :
        (k : ℕ) (v : Explanation A) (vs : List (Explanation A)) → Behind v vs → Behind v (drop k vs)
    Behind-drop zero v vs h = h
    Behind-drop (suc k) v [] h = tt
    Behind-drop (suc k) v (u ∷ us) h = Behind-drop k v us h.1

    IsRanked-cut :
        (k : ℕ) (vs : List (Explanation A))
        → IsRanked vs
        → All (λ v. Behind v (drop k vs)) (take k vs)
    IsRanked-cut zero vs h = tt
    IsRanked-cut (suc k) [] h = tt
    IsRanked-cut (suc k) (v ∷ vs) h = (Behind-drop k v vs h.0, IsRanked-cut k vs h.1)

    Behind-take :
        (k : ℕ) (v : Explanation A) (vs : List (Explanation A)) → Behind v vs → Behind v (take k vs)
    Behind-take zero v vs h = tt
    Behind-take (suc k) v [] h = tt
    Behind-take (suc k) v (u ∷ us) h = (h.0, Behind-take k v us h.1)

    IsRanked-take : (k : ℕ) (vs : List (Explanation A)) → IsRanked vs → IsRanked (take k vs)
    IsRanked-take zero vs h = tt
    IsRanked-take (suc k) [] h = tt
    IsRanked-take (suc k) (v ∷ vs) h = (Behind-take k v vs h.0, IsRanked-take k vs h.1)

    length-insert_before :
        (v : Explanation A) (vs : List (Explanation A))
        → length (insert_before math v vs) ≡ suc (length vs)
    unfolding insert_before
    length-insert_before v [] = refl
    length-insert_before v (u ∷ us) = ground (arith, length-insert_before v us)

    length-sort_slice : (vs : List (Explanation A)) → length (sort_slice math vs) ≡ length vs
    unfolding sort_slice
    length-sort_slice [] = refl
    length-sort_slice (v ∷ vs) =
        length-insert_before v (sort_slice math vs) ∙ ap suc (length-sort_slice vs)

    -- Of contributions that are numbers, the explanations are three, or all if there are fewer, clipped and in order:
    -- the contributions are those listed and those left out, and none that is left out goes before one
    -- that is listed.
    pub bounded_explanations-IsRanked :
        (vs : List (Explanation A))
        → All IsNumber vs
        → (listed rest : List (Explanation A)) × (bounded_explanations math vs
            ≡ map (clipped math) listed)
          × (length listed ≡ min max_explanations (length vs))
          × Perm (listed ++ rest) vs
          × IsRanked listed
          × All (λ v. Behind v rest) listed
    unfolding bounded_explanations
    bounded_explanations-IsRanked vs n =
        let (ranked, numbers) = sort_slice-IsRanked vs n in
        let sorted = sort_slice math vs in
        (
          take max_explanations sorted,
          drop max_explanations sorted,
          refl,
          length-take max_explanations sorted ∙ ap (min max_explanations) (length-sort_slice vs),
          subst (λ l. Perm l vs) (sym (take-append-drop max_explanations sorted))
              (sort_slice-perm vs),
          IsRanked-take max_explanations sorted ranked,
          IsRanked-cut max_explanations sorted ranked,
        )
