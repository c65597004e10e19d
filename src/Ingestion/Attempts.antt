-- ===== src/Ingestion/Attempts.antt =====
-- Bounded retries: what the log of a Kafka consumer shows about its calls within one message.
use distributed_fraud_detect.Prelude.{
  ℕ, zero, suc, ◌+◌, ◌-◌, ◌≤◌, ◌≡◌, refl, inl, inr, List, [], ◌∷◌, Option, none, some, arith, ltb,
  if◌then◌else◌, Bool-cases, Option-cases, Result-cases,
}
use distributed_fraud_detect.Text.{text_key}
use distributed_fraud_detect.Ingestion.Kafka.{
  Message, Call, fetched, handled, undecodable, poison_handled, dead_lettered, committed, waited,
  Environment, Consumer, State, note, wait, pause_after, write_dlq, call_poison_handler, give_up,
  attempt_event, process_loop, process,
}

-- How often the log shows a try of a message, of a fetch or a commit, and a pause.
unfoldable pub tries : List Call → ℕ
tries [] = 0
tries (fetched r ∷ log) = tries log
tries (handled m done ∷ log) = suc (tries log)
tries (undecodable m ∷ log) = suc (tries log)
tries (poison_handled m done ∷ log) = tries log
tries (dead_lettered m done ∷ log) = tries log
tries (committed m done ∷ log) = tries log
tries (waited pause fired ∷ log) = tries log

unfoldable pub pauses : List Call → ℕ
pauses [] = 0
pauses (waited pause fired ∷ log) = suc (pauses log)
pauses (fetched r ∷ log) = pauses log
pauses (handled m done ∷ log) = pauses log
pauses (undecodable m ∷ log) = pauses log
pauses (poison_handled m done ∷ log) = pauses log
pauses (dead_lettered m done ∷ log) = pauses log
pauses (committed m done ∷ log) = pauses log

unfoldable pub burials : List Call → ℕ
burials [] = 0
burials (poison_handled m done ∷ log) = suc (burials log)
burials (dead_lettered m done ∷ log) = suc (burials log)
burials (fetched r ∷ log) = burials log
burials (handled m done ∷ log) = burials log
burials (undecodable m ∷ log) = burials log
burials (committed m done ∷ log) = burials log
burials (waited pause fired ∷ log) = burials log

module _ {A W X : Type 0} (env : Environment A W X) (k : Consumer) where
  attempt_event-counts :
      (m : Message) (s : State W)
      → (tries (attempt_event env k m s).1.log ≡ suc (tries s.log))
        × (pauses (attempt_event env k m s).1.log ≡ pauses s.log)
        × (burials (attempt_event env k m s).1.log ≡ burials s.log)
  unfolding attempt_event note tries pauses burials
  attempt_event-counts m s = elim (Result-cases (env.unmarshal m.value)) [
    | inr (x, e) ↦ rw (e, attempt_event, tries, pauses, burials) (refl, refl, refl)
    | inl (v, e) ↦ rw (e, attempt_event, tries, pauses, burials) (refl, refl, refl)
  ]

  pause_after-counts :
      (attempt : ℕ) (s : State W)
      → (tries (pause_after env k attempt s).1.log ≡ tries s.log)
        × (pauses (pause_after env k attempt s).1.log
            ≡ pauses s.log + (if ltb attempt k.max_attempts then 1 else 0))
        × (burials (pause_after env k attempt s).1.log ≡ burials s.log)
  unfolding pause_after wait note tries pauses burials
  pause_after-counts attempt s = elim (Bool-cases (ltb attempt k.max_attempts)) [
    | inl b ↦ rw b (refl, omega arith, refl)
    | inr b ↦ rw b (refl, omega arith, refl)
  ]

  give_up-counts :
      (m : Message) (last : Option X) (s : State W)
      → (tries (give_up env k m last s).1.log ≡ tries s.log)
        × (pauses (give_up env k m last s).1.log ≡ pauses s.log)
        × (burials (give_up env k m last s).1.log ≤ suc (burials s.log))
  unfolding give_up write_dlq call_poison_handler note tries pauses burials
  give_up-counts m last s = (ground arith, ground arith, ground arith)

  -- With `left` rounds left, and so `attempt + left` one above the limit.
  process_loop_bounds :
      (m : Message) (left attempt : ℕ) (last : Option X) (s : State W)
      → attempt + left ≡ suc k.max_attempts
      → let log = (process_loop env k m left attempt last s).1.log in
        (tries log ≤ tries s.log + left)
        × (pauses log ≤ pauses s.log + (left - 1))
        × (burials log ≤ suc (burials s.log))
  unfolding process_loop
  process_loop_bounds m zero attempt last s h =
      let made = give_up-counts m last s in (omega (arith, made.0), omega (arith, made.1), made.2)
  process_loop_bounds m (suc left) attempt last s h =
      let s1 = (attempt_event env k m s).1 in
      let made = attempt_event-counts m s in
      let paused = pause_after-counts attempt s1 in
      elim (Option-cases (attempt_event env k m s).0) [
        | inl e ↦
            rw (e, process_loop)
              (omega (arith, made.0), omega (arith, made.1), omega (arith, made.2))
        | inr (x, e) ↦
            rw (e, process_loop)
              (elim (Option-cases (pause_after env k attempt s1).0) [
                | inr (y, g) ↦
                    rw (g, process_loop)
                      (
                        omega (arith, made.0, paused.0),
                        ground (arith, h, made.1, paused.1),
                        omega (arith, made.2, paused.2),
                      )
                | inl g ↦
                    rw (g, process_loop)
                      (let rest =
                          process_loop_bounds m left (attempt + 1) (some x)
                            (pause_after env k attempt s1).1 (omega (arith, h)) in
                        (
                          omega (arith, made.0, paused.0, rest.0),
                          ground (arith, h, made.1, paused.1, rest.1),
                          omega (arith, made.2, paused.2, rest.2),
                        ))
              ])
      ]

  -- Processing a message tries it at most maxAttempts times, pauses at most once less, and hands it
  -- to the poison handler or the DLQ at most once.
  pub process_bounds :
      (m : Message) (s : State W)
      → let log = (process env k m s).1.log in
        (tries log ≤ tries s.log + k.max_attempts)
        × (pauses log ≤ pauses s.log + (k.max_attempts - 1))
        × (burials log ≤ suc (burials s.log))
  unfolding process
  process_bounds m s = process_loop_bounds m k.max_attempts 1 none s (omega arith)
