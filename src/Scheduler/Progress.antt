-- ===== src/Scheduler/Progress.antt =====
-- That an item of serving_plane/scheduler/scheduler.go comes to an end: how long its submitter and the
-- batching loop can go on with it, and what is left to do while the submitter has not returned.
use distributed_fraud_detect.Prelude.{
  ℕ, suc, ◌+◌, ◌≤◌, ◌<◌, ◌≡◌, ◌⊎◌, refl, true, some, arith, Result, err, inl, inr, Option-cases,
}
use distributed_fraud_detect.Scheduler.State.{
  Error, wrong_result_count, ItemState, queued, dispatched, expired,
}
use distributed_fraud_detect.Scheduler.Race.{
  Submitter, selecting, waiting, returned, Loop, undecided, handling, finished, Race, a_miscount,
  Step, drop_cancelled, drop_late, skip, admit, answer, receive, see_dispatched, timer_wins,
  timer_loses, cancel, stopped, wait_receive, wait_cancel, start, Reachable, at_start, next,
}
use distributed_fraud_detect.Scheduler.Once.{
  sound, loop_ok, submitter_ok, has_reply, Reachable-sound,
}

ItemState-cases : (w : ItemState) → (w ≡ queued) ⊎ ((w ≡ dispatched) ⊎ (w ≡ expired))
ItemState-cases queued = inl refl
ItemState-cases dispatched = inr (inl refl)
ItemState-cases expired = inr (inr refl)

abbrev pub loop_left : Loop → ℕ
loop_left undecided = 2
loop_left handling = 1
loop_left finished = 0

Loop-cases : (l : Loop) → (l ≡ undecided) ⊎ ((l ≡ handling) ⊎ (l ≡ finished))
Loop-cases undecided = inl refl
Loop-cases handling = inr (inl refl)
Loop-cases finished = inr (inr refl)

module _ {X R : Type 0} where
  abbrev pub submitter_left : Submitter X R → ℕ
  submitter_left selecting = 2
  submitter_left waiting = 1
  submitter_left (returned r) = 0

  -- The most steps that are left.
  abbrev pub steps_left : Race X R → ℕ
  steps_left s = loop_left s.loop + submitter_left s.submitter

  -- A step that needs no context to end, no timer to fire and no shutdown.
  pub data CalmStep : Race X R → Race X R → Type 0 where
    calm_skip : (s t : Race X R) → Step s t → s.loop ≡ undecided → s.word ≡ expired → CalmStep s t
    calm_admit : (s t : Race X R) → Step s t → s.loop ≡ undecided → t.loop ≡ handling → CalmStep s t
    calm_answer : (s t : Race X R) → Step s t → s.loop ≡ handling → t.loop ≡ finished → CalmStep s t
    calm_receive :
        (s t : Race X R) (r : Result (Error X) R)
        → Step s t
        → s.reply ≡ some r
        → t.submitter ≡ returned r
        → CalmStep s t

  pub data Run : ℕ → Race X R → Type 0 where
    at_once : Run 0 start
    further : (n : ℕ) (s t : Race X R) → Run n s → Step s t → Run (suc n) t

  Run-Reachable : (n : ℕ) (s : Race X R) → Run n s → Reachable s
  Run-Reachable _ _ at_once = at_start
  Run-Reachable _ _ (further n s t run step) = next s t (Run-Reachable n s run) step

  Step-steps_left : (s t : Race X R) → Step s t → steps_left t < steps_left s
  Step-steps_left _ _ (drop_cancelled s x l w) = ground (arith, l)
  Step-steps_left _ _ (drop_late s l w) = ground (arith, l)
  Step-steps_left _ _ (skip s l w) = ground (arith, l)
  Step-steps_left _ _ (admit s l w) = ground (arith, l)
  Step-steps_left _ _ (answer s r l a) = ground (arith, l)
  Step-steps_left _ _ (receive s r l w) = ground (arith, l)
  Step-steps_left _ _ (see_dispatched s l w) = ground (arith, l)
  Step-steps_left _ _ (timer_wins s l w) = ground (arith, l)
  Step-steps_left _ _ (timer_loses s l w) = ground (arith, l)
  Step-steps_left _ _ (cancel s x l) = ground (arith, l)
  Step-steps_left _ _ (stopped s l w) = ground (arith, l)
  Step-steps_left _ _ (wait_receive s r l w) = ground (arith, l)
  Step-steps_left _ _ (wait_cancel s x l) = ground (arith, l)

  Run-steps_left : (n : ℕ) (s : Race X R) → Run n s → n + steps_left s ≤ 4
  Run-steps_left _ _ at_once = omega arith
  Run-steps_left _ _ (further n s t run step) =
      omega (arith, Run-steps_left n s run, Step-steps_left s t step)

  Submitter-cases :
      (p : Submitter X R)
      → (p ≡ selecting) ⊎ ((p ≡ waiting) ⊎ ((r : Result (Error X) R) × (p ≡ returned r)))
  Submitter-cases selecting = inl refl
  Submitter-cases waiting = inr (inl refl)
  Submitter-cases (returned r) = inr (inr (r, refl))

  decides :
      (s : Race X R)
      → s.loop ≡ undecided
      → (s.word ≡ queued) ⊎ (s.word ≡ expired)
      → (t : Race X R) × CalmStep s t
  decides s l (inl w) = (_, calm_admit s _ (admit s l w) l refl)
  decides s l (inr w) = (_, calm_skip s _ (skip s l (inr w)) l w)

  answers : (s : Race X R) → s.loop ≡ handling → (t : Race X R) × CalmStep s t
  answers s l = (_, calm_answer s _ (answer s (err wrong_result_count) l a_miscount) l refl)

  receives :
      (s : Race X R) (r : Result (Error X) R)
      → (s.submitter ≡ selecting) ⊎ (s.submitter ≡ waiting)
      → s.reply ≡ some r
      → (t : Race X R) × CalmStep s t
  receives s r (inl p) e = (_, calm_receive s _ r (receive s r p e) e refl)
  receives s r (inr p) e = (_, calm_receive s _ r (wait_receive s r p e) e refl)

  undecided_word :
      (s : Race X R) → sound s ≡ true → s.loop ≡ undecided → (s.word ≡ queued) ⊎ (s.word ≡ expired)
  unfolding sound loop_ok
  undecided_word s h l = elim (ItemState-cases s.word) [
    | inl w ↦ inl w
    | inr (inl w) ↦ absurd (ground (arith, h, l, w))
    | inr (inr w) ↦ inr w
  ]

  goes_on :
      (s : Race X R)
      → sound s ≡ true
      → (s.submitter ≡ selecting) ⊎ (s.submitter ≡ waiting)
      → (t : Race X R) × CalmStep s t
  unfolding sound loop_ok submitter_ok has_reply
  goes_on s h p = elim (Loop-cases s.loop) [
    | inl l ↦ decides s l (undecided_word s h l)
    | inr (inl l) ↦ answers s l
    | inr (inr l) ↦ elim (Option-cases s.reply) [
      | inl e ↦ absurd (ground (arith, h, l, e, p))
      | inr (r, e) ↦ receives s r p e
    ]
  ]

  -- However an item's submitter and the loop are interleaved, the two take at most four steps with it.
  -- Where they stop the submitter has returned: as long as it has not, a step is possible that waits
  -- for no context, timer or shutdown.
  pub Run-returns :
      (n : ℕ) (s : Race X R)
      → Run n s
      → (n + steps_left s ≤ 4)
        × (((r : Result (Error X) R) × (s.submitter ≡ returned r))
            ⊎ ((t : Race X R) × CalmStep s t))
  Run-returns n s run =
      let h = Reachable-sound s (Run-Reachable n s run) in
      (
        Run-steps_left n s run,
        elim (Submitter-cases s.submitter) [
          | inl p ↦ inr (goes_on s h (inl p))
          | inr (inl p) ↦ inr (goes_on s h (inr p))
          | inr (inr q) ↦ inl q
        ],
      )
