-- ===== src/Stream/Delivered.antt =====
-- The command on a queue of events: what the consumer takes off it, the window has applied.
use distributed_fraud_detect.Prelude.{
  ℕ, suc, ◌+◌, ◌%◌, ◌^◌, ◌<◌, ◌≡◌, refl, ap, ◌∙◌, Bool, false, List, [], ◌∷◌, ◌++◌, Option, none,
  some, inl, inr, arith, length, All, ok, Result-cases,
}
use distributed_fraud_detect.Float.{Float64}
use distributed_fraud_detect.Window.{
  Event, Features, Failure, Materializer, apply, apply_and_materialize,
}
use distributed_fraud_detect.Window.Steps.{run}
use distributed_fraud_detect.Window.Sink.{
  Materialized, apply_and_materialize-ok, apply_and_materialize-err,
}
use distributed_fraud_detect.Ingestion.Memory.{
  MemoryError, consume_memory, consume_memory-Delivery, handler_failed, context_done,
  consumer_closed, Delivery, drained, refused, failed, delivered,
}
use distributed_fraud_detect.Stream.Handler.{
  OperationalState, Processor, note_attempt, note_failure, note_success, handle_event,
}

module _ {A S E : Type 0} ⦃float : Float64 A⦄ (put : Materializer S E A) where
  -- A success of the handler: Apply's window and report, and the sink's part.
  pub record IsHandled (lag : A) (e : Event A) (p q : Processor A S) : Type 0 where
    pub features : Features A
    pub changed : Bool
    pub same_window : q.window ≡ (apply p.window e).0
    pub reported : (apply p.window e).1 ≡ ok (features, changed)
    pub materialized : Materialized p.window p.sink e put q.sink (features, changed)
    pub same_state : q.state ≡ note_success changed (note_attempt lag p.state)

  pub handle_event-IsHandled :
      (lag : A) (e : Event A) (p : Processor A S)
      → (handle_event put lag e p).0 ≡ none
      → IsHandled lag e p (handle_event put lag e p).1
  unfolding handle_event
  handle_event-IsHandled lag e p h =
      elim (Result-cases (apply_and_materialize p.window p.sink e (some put)).2) [
        | inr (x, r) ↦ absurd (ground (arith, h, r))
        | inl (g, r) ↦
            let done = apply_and_materialize-ok p.window p.sink e put g.0 g.1 r in
            rw (r, handle_event)
              (record {
                features = g.0;
                changed = g.1;
                same_window = done.0;
                reported = done.1;
                materialized = done.2;
                same_state = refl;
              })
      ]

  pub handle_event-failed :
      (lag : A) (e : Event A) (p : Processor A S) (x : Failure E)
      → (handle_event put lag e p).0 ≡ some x
      → ((handle_event put lag e p).1.window ≡ p.window)
        × ((handle_event put lag e p).1.state ≡ note_failure (note_attempt lag p.state))
  unfolding handle_event
  handle_event-failed lag e p x h =
      elim (Result-cases (apply_and_materialize p.window p.sink e (some put)).2) [
        | inl (g, r) ↦ absurd (ground (arith, h, r))
        | inr (y, r) ↦
            rw (r, handle_event) (apply_and_materialize-err p.window p.sink e (some put) y r, refl)
      ]

  -- The failures that a consumer's result stands for: one, if its handler failed.
  unfoldable pub failed_count : Option (MemoryError (Failure E)) → ℕ
  failed_count none = 0
  failed_count (some consumer_closed) = 0
  failed_count (some (context_done x)) = 0
  failed_count (some (handler_failed x)) = 1

  abbrev pub IsCounting : OperationalState A → Type 0
  IsCounting s = (s.attempts < 2 ^ 64) × (s.events < 2 ^ 64) × (s.failures < 2 ^ 64)

  -- A queue's events up to a result: those taken, in order, are applied to the window and counted, and
  -- a failure counts as an attempt and a failure; without an error nothing is left.
  pub record IsProcessed (p : Processor A S) (events : List (Event A))
      (r : Option (MemoryError (Failure E))) (rest : List (Event A)) (q : Processor A S)
      : Type 0 where
    pub taken : List (Event A)
    pub in_order : events ≡ taken ++ rest
    pub applied : q.window ≡ run p.window taken
    pub events_counted : q.state.events ≡ (p.state.events + length taken) % 2 ^ 64
    pub failures_counted : q.state.failures ≡ (p.state.failures + failed_count r) % 2 ^ 64
    pub attempts_counted :
        q.state.attempts ≡ (p.state.attempts + length taken + failed_count r) % 2 ^ 64
    pub complete : r ≡ none → rest ≡ []

  module _ (lag : Event A → Processor A S → A) (ctx_err : Processor A S → Option (Failure E)) where
    abbrev handler : Event A → Processor A S → Option (Failure E) × Processor A S
    handler e p = handle_event put (lag e p) e p

    -- Nothing was taken.
    untouched :
        (p : Processor A S) (events : List (Event A)) (r : Option (MemoryError (Failure E)))
        → IsCounting p.state
        → failed_count r ≡ 0
        → (r ≡ none → events ≡ [])
        → IsProcessed p events r events p
    unfolding run
    untouched p events r c z n = record {
      taken = [];
      in_order = refl;
      applied = refl;
      events_counted = omega (arith, c.1);
      failures_counted = omega (arith, c.2, z);
      attempts_counted = omega (arith, c.0, z);
      complete = n;
    }

    handled-IsCounting :
        {l : A} {e : Event A} {p q : Processor A S}
        → IsHandled l e p q
        → IsCounting p.state
        → IsCounting q.state
    unfolding note_attempt note_success
    handled-IsCounting h c = (
      ground (arith, h.same_state),
      ground (arith, h.same_state),
      ground (arith, h.same_state, c),
    )

    pub Delivery-IsProcessed :
        (events : List (Event A)) (p : Processor A S) (r : Option (MemoryError (Failure E)))
        (rest : List (Event A)) (q : Processor A S)
        → IsCounting p.state
        → Delivery ctx_err handler events p r rest q
        → IsProcessed p events r rest q
    unfolding failed_count note_failure note_attempt note_success run
    Delivery-IsProcessed _ _ _ _ _ c (drained p) = untouched p [] none c refl (λ _. refl)
    Delivery-IsProcessed _ _ _ _ _ c (refused e events p x h) =
        untouched p (e ∷ events) (some (context_done x)) c refl (λ n. absurd (cc))
    Delivery-IsProcessed _ _ _ _ _ c (failed e events p x h f) =
        let (same, state) = handle_event-failed (lag e p) e p x f in
        record {
          taken = [];
          in_order = refl;
          applied = same;
          events_counted = ground (arith, state, c.1);
          failures_counted = ground (arith, state, c.2);
          attempts_counted = ground (arith, state, c.0);
          complete = λ n. absurd (cc);
        }
    Delivery-IsProcessed _ _ _ _ _ c (delivered e events p r rest q h f d) =
        let step = handle_event-IsHandled (lag e p) e p f in
        let rest_of =
          Delivery-IsProcessed events (handler e p).1 r rest q (handled-IsCounting step c) d in
        record {
          taken = e ∷ rest_of.taken;
          in_order = ap (◌∷◌ e) rest_of.in_order;
          applied = rest_of.applied ∙ ap (λ w. run w rest_of.taken) step.same_window;
          events_counted = ground (arith, rest_of.events_counted, step.same_state);
          failures_counted = ground (arith, rest_of.failures_counted, step.same_state);
          attempts_counted = ground (arith, rest_of.attempts_counted, step.same_state);
          complete = rest_of.complete;
        }

    -- The command on a finite queue from stdin, whose amounts are numbers, and with counters below
    -- 2^64: a round more than there are events is enough; the window has then applied, in order, just
    -- the events taken off the queue, each success and failure is counted once, modulo 2^64, and
    -- without an error the queue is empty.
    pub consume_memory-IsProcessed :
        (events : List (Event A)) (p : Processor A S)
        → All (λ e. float.is_nan e.amount ≡ false) events
        → IsCounting p.state
        → (r : Option (MemoryError (Failure E))) × (rest : List (Event A)) × (q : Processor A S)
          × (consume_memory ctx_err handler
                (suc (length events))
                (record { events = events; closed = false })
                p
              ≡ (some r, record { events = rest; closed = false }, q))
          × IsProcessed p events r rest q
    consume_memory-IsProcessed events p numbers c =
        let (r, rest, q, same, d) = consume_memory-Delivery ctx_err handler events p numbers in
        (r, rest, q, same, Delivery-IsProcessed events p r rest q c d)
