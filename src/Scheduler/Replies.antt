-- ===== src/Scheduler/Replies.antt =====
-- What `dispatch` of serving_plane/scheduler/scheduler.go does to each item of a batch, and what it
-- passes to the handler.
use distributed_fraud_detect.Prelude.{
  ℕ, ◌+◌, ◌-◌, ◌≡◌, refl, subst, ap, ◌∙◌, Bool, true, false, ◌&&◌, List, [], ◌∷◌, map, none, some,
  arith, ltb, eqb, eqb_iff, if◌then◌else◌, length, Result, ok, err, inl, inr, Bool-cases,
}
use distributed_fraud_detect.Scheduler.Metrics.{Metrics, observe_queue}
use distributed_fraud_detect.Scheduler.State.{
  Error, queue_delay, queued, dispatched, expired, is_queued, Item,
}
use distributed_fraud_detect.Scheduler.Dispatch.{
  Handler, outcome, refuse, admit_item, admit_all, active_items, answer_all, dispatch,
}

abbrev pub Pairwise : {A B : Type 0} → (A → B → Type 0) → List A → List B → Type 0
Pairwise P [] [] = Unit
Pairwise P (a ∷ xs) (b ∷ ys) = P a b × Pairwise P xs ys
Pairwise P [] (b ∷ ys) = ⊥
Pairwise P (a ∷ xs) [] = ⊥

module _ {X T R : Type 0} where
  -- Still queued, its context alive and its queueing time not over.
  abbrev pub is_admissible : ℕ → Item X T R → Bool
  is_admissible now it = elim (it.err_before) [
    | some x ↦ false
    | none ↦ ltb now it.queue_expiry && is_queued it.state
  ]

  abbrev pub has_reply : Item X T R → Bool
  has_reply it = elim (it.reply) [ none ↦ false | some r ↦ true ]

  abbrev pub is_dispatched : Item X T R → Bool
  is_dispatched it = elim (it.state) [ queued ↦ false | dispatched ↦ true | expired ↦ false ]

  -- A queued item is answered, and dispatched just if it was admissible; any other stays as it is.
  abbrev pub Answered : ℕ → Item X T R → Item X T R → Type 0
  Answered now a b =
      (is_queued a.state ≡ false → b ≡ a)
      × (is_queued a.state ≡ true
          → (has_reply b ≡ true)
            × (is_queued b.state ≡ false)
            × (is_dispatched b ≡ is_admissible now a))

  abbrev pub Decided : ℕ → Item X T R → Item X T R × Bool → Type 0
  Decided now a p =
      (p.1 ≡ is_admissible now a)
      × (p.1 ≡ false → Answered now a p.0)
      × (p.1 ≡ true → (is_queued p.0.state ≡ false) × (is_dispatched p.0 ≡ true))

  pub admit_item-Decided : (now : ℕ) (it : Item X T R) → Decided now it (admit_item now it)
  unfolding admit_item refuse
  admit_item-Decided now it = (
    ground arith,
    λ f. (
      λ q. ground (arith, f, q),
      λ q. (ground (arith, f, q), ground (arith, f, q), ground (arith, f, q)),
    ),
    λ t. (ground (arith, t), ground (arith, t)),
  )

  admit_all-Decided :
      (now max_delay : ℕ) (batch : List (Item X T R)) (m : Metrics)
      → Pairwise (Decided now) batch (admit_all now max_delay batch m).0
  unfolding admit_all
  admit_all-Decided now max_delay [] m = tt
  admit_all-Decided now max_delay (it ∷ batch) m = (
    admit_item-Decided now it,
    admit_all-Decided now max_delay batch
        (if (admit_item now it).1 then observe_queue (now + max_delay - it.queue_expiry) m else m),
  )

  -- The results reach the active items one by one.
  abbrev Fits : Result (Error X) (List R) → List (Item X T R × Bool) → Type 0
  Fits (err e) decided = Unit
  Fits (ok results) decided = length results ≡ length (active_items decided)

  answer_all-Answered :
      (now : ℕ) (r : Result (Error X) (List R)) (batch : List (Item X T R))
      (decided : List (Item X T R × Bool))
      → Fits r decided
      → Pairwise (Decided now) batch decided
      → Pairwise (Answered now) batch (answer_all r decided)
  unfolding answer_all active_items
  answer_all-Answered now r [] [] f h = tt
  answer_all-Answered now r [] (p ∷ decided) f h = elim h [ ]
  answer_all-Answered now r (a ∷ batch) [] f h = elim h [ ]
  answer_all-Answered now (err e) (a ∷ batch) ((b, false) ∷ decided) f h =
      (h.0.1 refl, answer_all-Answered now (err e) batch decided f h.1)
  answer_all-Answered now (ok rs) (a ∷ batch) ((b, false) ∷ decided) f h =
      (h.0.1 refl, answer_all-Answered now (ok rs) batch decided f h.1)
  answer_all-Answered now (err e) (a ∷ batch) ((b, true) ∷ decided) f h = (
    (λ q. absurd (ground (arith, h.0.0, q)), λ q. (refl, (h.0.2 refl).0, (h.0.2 refl).1 ∙ h.0.0)),
    answer_all-Answered now (err e) batch decided tt h.1,
  )
  answer_all-Answered now (ok []) (a ∷ batch) ((b, true) ∷ decided) f h = absurd (omega (arith, f))
  answer_all-Answered now (ok (r ∷ rs)) (a ∷ batch) ((b, true) ∷ decided) f h = (
    (λ q. absurd (ground (arith, h.0.0, q)), λ q. (refl, (h.0.2 refl).0, (h.0.2 refl).1 ∙ h.0.0)),
    answer_all-Answered now (ok rs) batch decided (omega (arith, f)) h.1,
  )

  -- Without an active item nothing is left to answer.
  answer_all-none :
      (r : Result (Error X) (List R)) (decided : List (Item X T R × Bool))
      → length (active_items decided) ≡ 0
      → answer_all r decided ≡ map (λ p. p.0) decided
  unfolding answer_all active_items
  answer_all-none r [] h = refl
  answer_all-none (err e) ((b, false) ∷ decided) h = ap (◌∷◌ b) (answer_all-none (err e) decided h)
  answer_all-none (ok rs) ((b, false) ∷ decided) h = ap (◌∷◌ b) (answer_all-none (ok rs) decided h)
  answer_all-none r ((b, true) ∷ decided) h = absurd (omega (arith, h))

  outcome-Fits :
      (r : Result X (List R)) (decided : List (Item X T R × Bool))
      → Fits (outcome r (length (active_items decided))) decided
  unfolding outcome
  outcome-Fits (err x) decided = tt
  outcome-Fits (ok results) decided =
      elim (Bool-cases (eqb (length results) (length (active_items decided)))) [
        | inl e ↦ rw (e, outcome) ((eqb_iff (length results) (length (active_items decided))).0 e)
        | inr e ↦ rw (e, outcome) tt
      ]

  -- Whatever the handler returns, a wrong number of results included: each queued item of the batch
  -- gets a reply and leaves the queue, dispatched just if its context was alive and its queueing time
  -- not over, and the items that were not queued stay as they are.
  pub dispatch-Answered :
      (handler : Handler X T R) (now max_delay : ℕ) (batch : List (Item X T R)) (m : Metrics)
      → Pairwise (Answered now) batch (dispatch handler now max_delay batch m).items
  unfolding dispatch
  dispatch-Answered handler now max_delay batch m =
      let decided = (admit_all now max_delay batch m).0 in
      let h = admit_all-Decided now max_delay batch m in
      elim (Bool-cases (eqb (length (active_items decided)) 0)) [
        | inl e ↦
            rw (e, dispatch)
              (subst (Pairwise (Answered now) batch)
                (answer_all-none (err queue_delay) decided
                  ((eqb_iff (length (active_items decided)) 0).0 e))
                (answer_all-Answered now (err queue_delay) batch decided tt h))
        | inr e ↦
            rw (e, dispatch) (answer_all-Answered now _ batch decided (outcome-Fits _ decided) h)
      ]
