-- ===== src/Ingestion/Commits.antt =====
-- At-least-once delivery: what the log of a Kafka consumer shows about its commits.
use distributed_fraud_detect.Prelude.{
  ℕ, zero, suc, ◌+◌, ◌≡◌, refl, ap, ◌∙◌, Bool, true, false, not, ◌&&◌, inl, inr, List, [], ◌∷◌,
  Option, none, some, arith, ltb, Bool-cases, Option-cases, eqb_ℤ, eqb_ℤ_iff, Result-cases,
}
use distributed_fraud_detect.Text.{text_key}
use distributed_fraud_detect.Ingestion.Kafka.{
  Message, Call, fetched, handled, undecodable, poison_handled, dead_lettered, committed, waited,
  Environment, Consumer, Error, State, succeeded, note, wait, pause_after, call_fetch, fetch_loop,
  fetch, call_commit, commit_loop, commit, write_dlq, call_poison_handler, give_up, attempt_event,
  process_loop, process, consume_round, consume,
}

-- The same record of the source topic.
abbrev pub same_record : Message → Message → Bool
same_record m n = eqb_ℤ m.partition n.partition && eqb_ℤ m.offset n.offset

-- The latest thing that was done with a message is a success, of the handler, of the custom poison
-- handler or of the DLQ write; failed commits of it and pauses may follow.
unfoldable pub settled : Message → List Call → Bool
settled m [] = false
settled m (fetched r ∷ log) = false
settled m (handled n done ∷ log) = same_record m n && done
settled m (undecodable n ∷ log) = false
settled m (poison_handled n done ∷ log) = same_record m n && done
settled m (dead_lettered n done ∷ log) = same_record m n && done
settled m (committed n done ∷ log) = same_record m n && (not done && settled m log)
settled m (waited pause fired ∷ log) = settled m log

-- Every commit in the log is of a settled message.
unfoldable pub commits_settled : List Call → Bool
commits_settled [] = true
commits_settled (committed m done ∷ log) = settled m log && commits_settled log
commits_settled (fetched r ∷ log) = commits_settled log
commits_settled (handled n done ∷ log) = commits_settled log
commits_settled (undecodable n ∷ log) = commits_settled log
commits_settled (poison_handled n done ∷ log) = commits_settled log
commits_settled (dead_lettered n done ∷ log) = commits_settled log
commits_settled (waited pause fired ∷ log) = commits_settled log

same_record_self : (m : Message) → same_record m m ≡ true
same_record_self m = ground (arith, eqb_ℤ_iff m.partition m.partition, eqb_ℤ_iff m.offset m.offset)

module _ {A W X : Type 0} (env : Environment A W X) (k : Consumer) where
  -- A pause changes neither property of the log.
  pause_after-settled :
      (m : Message) (attempt : ℕ) (s : State W)
      → (settled m (pause_after env k attempt s).1.log ≡ settled m s.log)
        × (commits_settled (pause_after env k attempt s).1.log ≡ commits_settled s.log)
  unfolding pause_after wait note settled commits_settled
  pause_after-settled m attempt s = elim (Bool-cases (ltb attempt k.max_attempts)) [
    | inl b ↦ rw b (refl, refl)
    | inr b ↦ rw b (refl, refl)
  ]

  pause_after-commits :
      (attempt : ℕ) (s : State W)
      → commits_settled (pause_after env k attempt s).1.log ≡ commits_settled s.log
  unfolding pause_after wait note commits_settled
  pause_after-commits attempt s = elim (Bool-cases (ltb attempt k.max_attempts)) [
    | inl b ↦ rw b refl
    | inr b ↦ rw b refl
  ]

  -- A commit of a settled message keeps the log in order, and one that failed leaves it settled.
  call_commit-settled :
      (m : Message) (s : State W)
      → settled m s.log ≡ true
      → commits_settled s.log ≡ true
      → (commits_settled (call_commit env k m s).1.log ≡ true)
        × (succeeded (call_commit env k m s).0 ≡ false
            → settled m (call_commit env k m s).1.log ≡ true)
  unfolding call_commit note settled commits_settled
  call_commit-settled m s h c =
      (ground (arith, h, c), λ f. ground (arith, f, h, same_record_self m))

  commit_loop-settled :
      (m : Message) (left attempt : ℕ) (last : Option X) (s : State W)
      → settled m s.log ≡ true
      → commits_settled s.log ≡ true
      → commits_settled (commit_loop env k m left attempt last s).1.log ≡ true
  unfolding commit_loop
  commit_loop-settled m zero attempt last s h c = c
  commit_loop-settled m (suc left) attempt last s h c =
      let s1 = (call_commit env k m s).1 in
      let made = call_commit-settled m s h c in
      elim (Option-cases (call_commit env k m s).0) [
        | inl e ↦ rw (e, commit_loop) made.0
        | inr (x, e) ↦
            rw (e, commit_loop)
              (elim (Option-cases (env.ctx_err s1.world)) [
                | inr (y, f) ↦ rw (f, commit_loop) made.0
                | inl f ↦
                    rw (f, commit_loop)
                      (elim (Option-cases (pause_after env k attempt s1).0) [
                        | inr (y, g) ↦
                            rw (g, commit_loop) ((pause_after-settled m attempt s1).1 ∙ made.0)
                        | inl g ↦ rw g (
                            commit_loop-settled m left (attempt + 1) (some x)
                              (pause_after env k attempt s1).1
                              ((pause_after-settled m attempt s1).0 ∙ made.1 (ap succeeded e))
                              ((pause_after-settled m attempt s1).1 ∙ made.0))
                      ])
              ])
      ]

  attempt_event-settled :
      (m : Message) (s : State W)
      → commits_settled s.log ≡ true
      → (commits_settled (attempt_event env k m s).1.log ≡ true)
        × ((attempt_event env k m s).0 ≡ none → settled m (attempt_event env k m s).1.log ≡ true)
  unfolding attempt_event note settled commits_settled
  attempt_event-settled m s c = elim (Result-cases (env.unmarshal m.value)) [
    | inr (x, e) ↦ rw (e, attempt_event, commits_settled, settled) (c, λ n. absurd (cc))
    | inl (v, e) ↦
        rw (e, attempt_event, commits_settled, settled)
          (c, λ n. ground (arith, n, same_record_self m))
  ]

  -- What a step of `process` promises: the log stays in order, and the message is settled where no
  -- error comes back.
  abbrev Settles : Message → Option (Error X) × State W → Type 0
  Settles m r = (commits_settled r.1.log ≡ true) × (r.0 ≡ none → settled m r.1.log ≡ true)

  give_up-Settles :
      (m : Message) (last : Option X) (s : State W)
      → commits_settled s.log ≡ true
      → Settles m (give_up env k m last s)
  unfolding give_up write_dlq call_poison_handler note settled commits_settled
  give_up-Settles m last s c = (ground (arith, c), λ n. ground (arith, n, same_record_self m))

  process_loop-Settles :
      (m : Message) (left attempt : ℕ) (last : Option X) (s : State W)
      → commits_settled s.log ≡ true
      → Settles m (process_loop env k m left attempt last s)
  unfolding process_loop
  process_loop-Settles m zero attempt last s c = give_up-Settles m last s c
  process_loop-Settles m (suc left) attempt last s c =
      let s1 = (attempt_event env k m s).1 in
      let made = attempt_event-settled m s c in
      elim (Option-cases (attempt_event env k m s).0) [
        | inl e ↦ rw (e, process_loop) (made.0, λ _. made.1 e)
        | inr (x, e) ↦
            rw (e, process_loop)
              (elim (Option-cases (pause_after env k attempt s1).0) [
                | inr (y, g) ↦
                    rw (g, process_loop)
                      ((pause_after-settled m attempt s1).1 ∙ made.0, λ n. absurd (cc))
                | inl g ↦ rw g (
                    process_loop-Settles m left (attempt + 1) (some x)
                      (pause_after env k attempt s1).1
                      ((pause_after-settled m attempt s1).1 ∙ made.0))
              ])
      ]

  fetch_loop-settled :
      (left attempt : ℕ) (last : Option X) (s : State W)
      → commits_settled s.log ≡ true
      → commits_settled (fetch_loop env k left attempt last s).1.log ≡ true
  unfolding fetch_loop
  fetch_loop-settled zero attempt last s c = c
  fetch_loop-settled (suc left) attempt last s c =
      let s1 = (call_fetch env k s).1 in
      let made : commits_settled s1.log ≡ true = unfold call_fetch note commits_settled in c in
      elim (Result-cases (call_fetch env k s).0) [
        | inl (m, e) ↦ rw (e, fetch_loop) made
        | inr (x, e) ↦
            rw (e, fetch_loop)
              (elim (Option-cases (env.ctx_err s1.world)) [
                | inr (y, f) ↦ rw (f, fetch_loop) made
                | inl f ↦
                    rw (f, fetch_loop)
                      (elim (Option-cases (pause_after env k attempt s1).0) [
                        | inr (y, g) ↦ rw (g, fetch_loop) (pause_after-commits attempt s1 ∙ made)
                        | inl g ↦
                            rw (g, fetch_loop)
                              (fetch_loop-settled left (attempt + 1) (some x)
                                (pause_after env k attempt s1).1
                                (pause_after-commits attempt s1 ∙ made))
                      ])
              ])
      ]

  consume_round-settled :
      (s : State W)
      → commits_settled s.log ≡ true
      → commits_settled (consume_round env k s).1.log ≡ true
  unfolding consume_round fetch process commit
  consume_round-settled s c =
      let s1 = (fetch env k s).1 in
      let got = fetch_loop-settled k.max_attempts 1 none s c in
      elim (Result-cases (fetch env k s).0) [
        | inr (x, e) ↦ rw (e, consume_round) got
        | inl (m, e) ↦
            let done = process_loop-Settles m k.max_attempts 1 none s1 got in
            rw (e, consume_round)
              (elim (Option-cases (process env k m s1).0) [
                | inr (y, f) ↦ rw (f, consume_round) done.0
                | inl f ↦
                    rw (f, consume_round)
                      (commit_loop-settled m k.max_attempts 1 none (process env k m s1).1 (done.1 f)
                        done.0)
              ])
      ]

  -- At least once: however long `Consume` runs, each commit is of a message whose latest treatment
  -- was a success of the handler, of the poison handler or of the DLQ write.
  pub consume-settled :
      (rounds : ℕ) (has_handler : Bool) (s : State W)
      → commits_settled s.log ≡ true
      → commits_settled (consume env k rounds has_handler s).1.log ≡ true
  unfolding consume
  consume-settled rounds false s c = c
  consume-settled zero true s c = c
  consume-settled (suc rounds) true s c =
      let made = consume_round-settled s c in
      elim (Option-cases (consume_round env k s).0) [
        | inr (y, e) ↦ rw (e, consume) made
        | inl e ↦ rw (e, consume) (consume-settled rounds true (consume_round env k s).1 made)
      ]
