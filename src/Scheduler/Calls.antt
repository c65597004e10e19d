-- ===== src/Scheduler/Calls.antt =====
-- What `dispatch` of serving_plane/scheduler/scheduler.go passes to the handler, and where the
-- handler's results go.
use distributed_fraud_detect.Prelude.{
  ℕ, ◌+◌, ◌-◌, ◌≤◌, ◌≡◌, refl, ap, sym, ◌∙◌, Bool, true, false, List, [], ◌∷◌, map, Option, none,
  some, arith, eqb, eqb_iff, if◌then◌else◌, length, length-map, inl, inr, Bool-cases,
}
use distributed_fraud_detect.Scheduler.Metrics.{Metrics, observe_queue}
use distributed_fraud_detect.Scheduler.State.{Item}
use distributed_fraud_detect.Scheduler.Dispatch.{
  Handler, refuse, admit_item, admit_all, active_items, dispatch,
}
use distributed_fraud_detect.Scheduler.Replies.{is_admissible, admit_item-Decided}

module _ {A : Type 0} where
  abbrev pub keep : (A → Bool) → List A → List A
  keep p [] = []
  keep p (a ∷ xs) = if p a then a ∷ keep p xs else keep p xs

  keep-length : (p : A → Bool) (xs : List A) → length (keep p xs) ≤ length xs
  keep-length p [] = omega arith
  keep-length p (a ∷ xs) = ground (arith, keep-length p xs)

-- The values of a call; none stand for no call.
abbrev pub called_with : {T : Type 0} → Option (Option ℕ × List T) → List T
called_with none = []
called_with (some (deadline, vs)) = vs

module _ {X T R : Type 0} where
  abbrev pub values : List (Item X T R) → List T
  values items = map (λ it. it.value) items

  admit_item-value : (now : ℕ) (it : Item X T R) → (admit_item now it).0.value ≡ it.value
  unfolding admit_item refuse
  admit_item-value now it = ground arith

  pub values-none : (items : List (Item X T R)) → length items ≡ 0 → values items ≡ []
  values-none [] h = refl
  values-none (it ∷ items) h = absurd (omega (arith, h))

  values_step :
      (b c : Bool) (x y : Item X T R) (xs ys : List (Item X T R))
      → b ≡ c
      → x.value ≡ y.value
      → values xs ≡ values ys
      → values (if b then x ∷ xs else xs) ≡ values (if c then y ∷ ys else ys)
  values_step true true x y xs ys e v h = cc
  values_step false false x y xs ys e v h = h
  values_step true false x y xs ys e v h = absurd (cc)
  values_step false true x y xs ys e v h = absurd (cc)

  pub admit_all-values :
      (now max_delay : ℕ) (batch : List (Item X T R)) (m : Metrics)
      → values (active_items (admit_all now max_delay batch m).0)
        ≡ values (keep (is_admissible now) batch)
  unfolding admit_all active_items
  admit_all-values now max_delay [] m = refl
  admit_all-values now max_delay (it ∷ batch) m =
      values_step (admit_item now it).1 (is_admissible now it) (admit_item now it).0 it _ _
        (admit_item-Decided now it).0 (admit_item-value now it)
        (admit_all-values now max_delay batch (
          if (admit_item now it).1 then observe_queue (now + max_delay - it.queue_expiry) m else m))

  -- The handler is called with the values of the items that are still queued, whose context is
  -- alive and whose queueing time is not over, in the batch's order, and not at all if there is
  -- none; so never with more values than the batch has items.
  pub dispatch-called_with :
      (handler : Handler X T R) (now max_delay : ℕ) (batch : List (Item X T R)) (m : Metrics)
      → let call = (dispatch handler now max_delay batch m).call in
        (called_with call ≡ values (keep (is_admissible now) batch))
        × (length (called_with call) ≤ length batch)
        × (called_with call ≡ [] → call ≡ none)
  unfolding dispatch
  dispatch-called_with handler now max_delay batch m =
      let active = active_items (admit_all now max_delay batch m).0 in
      let same = admit_all-values now max_delay batch m in
      let few : length (values active) ≤ length batch = omega (
        arith,
        ap length same,
        length-map (λ it. it.value) (keep (is_admissible now) batch),
        keep-length (is_admissible now) batch,
      ) in
      elim (Bool-cases (eqb (length active) 0)) [
        | inl e ↦
            rw (e, dispatch)
              (
                sym (values-none active ((eqb_iff (length active) 0).0 e)) ∙ same,
                omega arith,
                λ _. refl,
              )
        | inr e ↦
            rw (e, dispatch)
              (
                same,
                few,
                λ n. absurd (ground (arith, ap length n, length-map (λ it. it.value) active, e)),
              )
      ]
