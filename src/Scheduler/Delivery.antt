-- ===== src/Scheduler/Delivery.antt =====
-- Where the handler's results go in `dispatch` of serving_plane/scheduler/scheduler.go.
use distributed_fraud_detect.Prelude.{
  ℕ, ◌+◌, ◌-◌, ◌≡◌, refl, ap, sym, ◌∙◌, Bool, true, false, List, [], ◌∷◌, map, Option, none, some,
  arith, eqb, eqb_iff, if◌then◌else◌, length, length-map, ok, err, inl, inr, Bool-cases, All,
}
use distributed_fraud_detect.Scheduler.Metrics.{Metrics, observe_queue}
use distributed_fraud_detect.Scheduler.State.{Item}
use distributed_fraud_detect.Scheduler.Dispatch.{
  Handler, outcome, refuse, admit_item, admit_all, active_items, latest_deadline, answer_all,
  dispatch,
}
use distributed_fraud_detect.Scheduler.Replies.{is_admissible, is_dispatched}
use distributed_fraud_detect.Scheduler.Calls.{keep, values, values-none, admit_all-values}

outcome-ok :
    {X R : Type 0} (results : List R) (n : ℕ)
    → length results ≡ n
    → outcome {X = X} (ok results) n ≡ ok results
unfolding outcome
outcome-ok results n h = rw ((eqb_iff (length results) n).1 h) refl

module _ {X T R : Type 0} where
  -- The values replied to the dispatched items, in order.
  abbrev pub delivered : List (Item X T R) → List R
  delivered [] = []
  delivered (it ∷ items) =
      let rest = delivered items in
      if is_dispatched it
      then elim (it.reply) [ none ↦ rest | some r ↦ elim r [ ok v ↦ v ∷ rest | err e ↦ rest ] ]
      else rest

  -- A batch whose contexts stay alive behind the handler and that no dispatch has touched.
  abbrev pub IsFresh : Item X T R → Type 0
  IsFresh it = (it.err_after ≡ none) × (is_dispatched it ≡ false)

  abbrev IsMarked : Item X T R × Bool → Type 0
  IsMarked p = (p.0.err_after ≡ none) × (is_dispatched p.0 ≡ p.1)

  admit_item-IsMarked : (now : ℕ) (it : Item X T R) → IsFresh it → IsMarked (admit_item now it)
  unfolding admit_item refuse
  admit_item-IsMarked now it h = (ground (arith, h.0), ground (arith, h.1))

  admit_all-IsMarked :
      (now max_delay : ℕ) (batch : List (Item X T R)) (m : Metrics)
      → All IsFresh batch
      → All IsMarked (admit_all now max_delay batch m).0
  unfolding admit_all
  admit_all-IsMarked now max_delay [] m h = tt
  admit_all-IsMarked now max_delay (it ∷ batch) m h = (
    admit_item-IsMarked now it h.0,
    admit_all-IsMarked now max_delay batch
        (if (admit_item now it).1 then observe_queue (now + max_delay - it.queue_expiry) m else m)
        h.1,
  )

  answer_all-delivered :
      (results : List R) (decided : List (Item X T R × Bool))
      → length results ≡ length (active_items decided)
      → All IsMarked decided
      → delivered (answer_all (ok results) decided) ≡ results
  unfolding answer_all active_items
  answer_all-delivered [] [] f h = refl
  answer_all-delivered (r ∷ rs) [] f h = absurd (omega (arith, f))
  answer_all-delivered rs ((it, false) ∷ decided) f h =
      let rest = answer_all-delivered rs decided f h.1 in rw (h.0.1) rest
  answer_all-delivered [] ((it, true) ∷ decided) f h = absurd (omega (arith, f))
  answer_all-delivered (r ∷ rs) ((it, true) ∷ decided) f h =
      let rest = answer_all-delivered rs decided (omega (arith, f)) h.1 in
      ground (arith, rest, h.0.0, h.0.1)

  none-delivered :
      (decided : List (Item X T R × Bool))
      → length (active_items decided) ≡ 0
      → All IsMarked decided
      → delivered (map (λ p. p.0) decided) ≡ []
  unfolding active_items
  none-delivered [] f h = refl
  none-delivered ((it, false) ∷ decided) f h = rw (h.0.1) (none-delivered decided f h.1)
  none-delivered ((it, true) ∷ decided) f h = absurd (omega (arith, f))

  -- Where every context stays alive and the handler answers each value `v` with `f v`, that is what
  -- the dispatched items are answered with, in order.
  pub dispatch-delivered :
      (handler : Handler X T R) (f : T → R) (now max_delay : ℕ) (batch : List (Item X T R))
      (m : Metrics)
      → ((deadline : Option ℕ) (vs : List T) → handler deadline vs ≡ ok (map f vs))
      → All IsFresh batch
      → delivered (dispatch handler now max_delay batch m).items
        ≡ map f (values (keep (is_admissible now) batch))
  unfolding dispatch outcome
  dispatch-delivered handler f now max_delay batch m g h =
      let decided = (admit_all now max_delay batch m).0 in
      let active = active_items decided in
      let same = admit_all-values now max_delay batch m in
      let full : length (map f (values active)) ≡ length active =
        length-map f (values active) ∙ length-map (λ it. it.value) active in
      let marked = admit_all-IsMarked now max_delay batch m h in
      elim (Bool-cases (eqb (length active) 0)) [
        | inl e ↦
            rw (e, dispatch)
              (none-delivered decided ((eqb_iff (length active) 0).0 e) marked
                ∙ ap (map f) (sym (values-none active ((eqb_iff (length active) 0).0 e)) ∙ same))
        | inr e ↦
            rw (e, dispatch)
              (ap (λ r. delivered (answer_all (outcome r (length active)) decided))
                  (g (latest_deadline active 0) (values active))
                ∙ ap (λ o. delivered (answer_all o decided))
                    (outcome-ok (map f (values active)) (length active) full)
                ∙ answer_all-delivered (map f (values active)) decided full marked
                ∙ ap (map f) same)
      ]
