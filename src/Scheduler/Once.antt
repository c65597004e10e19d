-- ===== src/Scheduler/Once.antt =====
-- What holds of an item of serving_plane/scheduler/scheduler.go in every interleaving of its
-- submitter and the batching loop.
use distributed_fraud_detect.Prelude.{
  ◌≤◌, ◌≡◌, ◌≢◌, ◌⊎◌, refl, Bool, true, false, not, ◌&&◌, ◌||◌, Option, none, some, arith, Result,
  ok, err, inl, inr, eqb, Option-cases,
}
use distributed_fraud_detect.Scheduler.State.{
  Error, closed_error, full_error, bad_configuration, queue_delay, wrong_result_count, of_context,
  of_handler, queued, dispatched, expired,
}
use distributed_fraud_detect.Scheduler.Race.{
  selecting, waiting, returned, undecided, handling, finished, Race, Answer, a_value, a_context,
  a_failure, a_miscount, Step, drop_cancelled, drop_late, skip, admit, answer, receive,
  see_dispatched, timer_wins, timer_loses, cancel, stopped, wait_receive, wait_cancel, Reachable,
  at_start, next,
}

module _ {X R : Type 0} where
  is_delay : Result (Error X) R → Bool
  is_delay (err queue_delay) = true
  is_delay (err closed_error) = false
  is_delay (err full_error) = false
  is_delay (err bad_configuration) = false
  is_delay (err wrong_result_count) = false
  is_delay (err (of_context x)) = false
  is_delay (err (of_handler x)) = false
  is_delay (ok r) = false

  unfoldable pub has_reply : Option (Result (Error X) R) → Bool
  has_reply none = false
  has_reply (some r) = true

  delay_reply : Option (Result (Error X) R) → Bool
  unfolding is_delay
  delay_reply none = false
  delay_reply (some r) = is_delay r

  -- Before the loop decides, the item is untouched but for a submitter that has left; with the
  -- handler it is dispatched and unanswered; behind that its reply is there unless taken.
  unfoldable pub loop_ok : Race X R → Bool
  unfolding has_reply
  loop_ok s = elim (s.loop) [
    | undecided ↦
        not s.announced
        && (not (has_reply s.reply)
            && (eqb s.handler_calls 0
                && elim (s.word) [ queued ↦ true | dispatched ↦ false | expired ↦ true ]))
    | handling ↦
        not (has_reply s.reply)
        && elim (s.word) [ queued ↦ false | dispatched ↦ true | expired ↦ false ]
    | finished ↦ elim (s.word) [ queued ↦ false | dispatched ↦ true | expired ↦ true ]
  ]

  unfoldable pub submitter_ok : Race X R → Bool
  unfolding has_reply is_delay
  submitter_ok s = elim (s.submitter) [
    | selecting ↦ elim (s.loop) [
      | undecided ↦ elim (s.word) [ queued ↦ true | dispatched ↦ false | expired ↦ false ]
      | handling ↦ true
      | finished ↦ has_reply s.reply
    ]
    | waiting ↦ elim (s.loop) [ undecided ↦ false | handling ↦ true | finished ↦ has_reply s.reply ]
    | returned r ↦
        not (is_delay r) || elim (s.word) [ queued ↦ false | dispatched ↦ false | expired ↦ true ]
  ]

  unfoldable pub word_ok : Race X R → Bool
  unfolding delay_reply
  word_ok s = elim (s.word) [
    | queued ↦ eqb s.handler_calls 0 && not (delay_reply s.reply)
    | dispatched ↦ eqb s.handler_calls 1 && not (delay_reply s.reply)
    | expired ↦ eqb s.handler_calls 0
  ]

  unfoldable pub sound : Race X R → Bool
  sound s = loop_ok s && (submitter_ok s && word_ok s)

  Answer-is_delay : (r : Result (Error X) R) → Answer r → is_delay r ≡ false
  unfolding is_delay
  Answer-is_delay _ (a_value r) = refl
  Answer-is_delay _ (a_context x) = refl
  Answer-is_delay _ (a_failure x) = refl
  Answer-is_delay _ a_miscount = refl

  Step-sound : (s t : Race X R) → Step s t → sound s ≡ true → sound t ≡ true
  unfolding sound loop_ok submitter_ok word_ok
  Step-sound _ _ (drop_cancelled s x l w) h = ground (arith, l, w, h)
  Step-sound _ _ (drop_late s l w) h = ground (arith, l, w, h)
  Step-sound _ _ (skip s l w) h = ground (arith, l, w, h)
  Step-sound _ _ (admit s l w) h = ground (arith, l, w, h)
  Step-sound _ _ (answer s r l a) h = ground (arith, l, h, Answer-is_delay r a)
  Step-sound _ _ (receive s r l w) h = ground (arith, l, w, h)
  Step-sound _ _ (see_dispatched s l w) h = ground (arith, l, w, h)
  Step-sound _ _ (timer_wins s l w) h = ground (arith, l, w, h)
  Step-sound _ _ (timer_loses s l w) h = ground (arith, l, w, h)
  Step-sound _ _ (cancel s x l) h = ground (arith, l, h)
  Step-sound _ _ (stopped s l w) h = ground (arith, l, w, h)
  Step-sound _ _ (wait_receive s r l w) h = ground (arith, l, w, h)
  Step-sound _ _ (wait_cancel s x l) h = ground (arith, l, h)

  pub Reachable-sound : (s : Race X R) → Reachable s → sound s ≡ true
  unfolding sound loop_ok submitter_ok word_ok
  Reachable-sound _ at_start = refl
  Reachable-sound _ (next s t r step) = Step-sound s t step (Reachable-sound s r)

  no_reply :
      (s : Race X R) → Reachable s → (s.loop ≡ undecided) ⊎ (s.loop ≡ handling) → s.reply ≡ none
  unfolding sound loop_ok has_reply
  no_reply s r l = elim (Option-cases s.reply) [
    | inl e ↦ e
    | inr (x, e) ↦ absurd (ground (arith, Reachable-sound s r, e, l))
  ]

  -- Whatever the interleaving: the handler gets an item at most once; a submitter that reports a
  -- queue delay has an item that the handler never gets; the loop's send finds the reply channel
  -- empty; and a submitter that waits for a result has one in the channel or under way.
  pub Reachable-once :
      (s : Race X R)
      → Reachable s
      → (s.handler_calls ≤ 1)
        × (s.submitter ≡ returned (err queue_delay) → (s.handler_calls ≡ 0) × (s.word ≡ expired))
        × ((s.loop ≡ undecided) ⊎ (s.loop ≡ handling) → s.reply ≡ none)
        × (s.submitter ≡ waiting → (s.loop ≡ handling) ⊎ (s.reply ≢ none))
  unfolding sound loop_ok submitter_ok word_ok
  Reachable-once s r =
      let h = Reachable-sound s r in
      (
        ground (arith, h),
        λ e. (ground (arith, h, e), ground (arith, h, e)),
        λ n. no_reply s r n,
        λ e. elim (Option-cases s.reply) [
          | inl f ↦ inl (ground (arith, h, e, f))
          | inr (x, f) ↦ inr (λ n. absurd (cc))
        ],
      )
