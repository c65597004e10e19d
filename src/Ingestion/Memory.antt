-- ===== src/Ingestion/Memory.antt =====
-- MemoryConsumer of stream_processor/ingestion/ingestion.go: a queue that keeps an event until its
-- handler has succeeded. `W` is the world of the handler and of the context, `X` their errors.
use distributed_fraud_detect.Prelude.{
  ℕ, suc, zero, ◌≡◌, refl, ◌∙◌, Bool, true, false, ◌&&◌, List, [], ◌∷◌, Option, none, some, ap, inl,
  inr, arith, if◌then◌else◌, eqb, ◌==◌, length, All, eqb_ℤ, eqb_ℤ_iff, ==_refl, Option-cases,
}
use distributed_fraud_detect.Float.{Float64}
use distributed_fraud_detect.Text.{text_key}
use distributed_fraud_detect.Ingestion.Event.{Event}

pub record MemoryConsumer (A : Type 0) : Type 0 where
  pub events : List (Event A)
  pub closed : Bool

pub data MemoryError (X : Type 0) : Type 0 where
  consumer_closed : MemoryError X
  context_done : X → MemoryError X
  handler_failed : X → MemoryError X

-- `m.events[0] == e`, field by field.
unfoldable pub same_event : {A : Type 0} ⦃float : Float64 A⦄ → Event A → Event A → Bool
same_event ⦃float⦄ e f =
    e.id == f.id
    && e.entity_id == f.entity_id
    && (float.leb e.amount f.amount && float.leb f.amount e.amount)
    && eqb e.occurred_at f.occurred_at
    && eqb_ℤ e.partition f.partition
    && eqb_ℤ e.offset f.offset

module _ {A W X : Type 0} ⦃float : Float64 A⦄ (ctx_err : W → Option X)
    (handle : Event A → W → Option X × W) where
  -- `m.events = m.events[1:]`, if the queue still starts with the event.
  unfoldable pub drop_handled : Event A → MemoryConsumer A → MemoryConsumer A
  drop_handled e m = elim (m.events) [
    | [] ↦ m
    | front ∷ events ↦ if same_event front e then record m { events = events } else m
  ]

  -- The loop of `Consume`, with the rounds left; none if it still runs.
  unfoldable pub consume_memory :
      ℕ → MemoryConsumer A → W → Option (Option (MemoryError X)) × MemoryConsumer A × W
  consume_memory zero m w = (none, m, w)
  consume_memory (suc rounds) m w = elim (m.closed) [
    | true ↦ (some (some consumer_closed), m, w)
    | false ↦ elim (m.events) [
      | [] ↦ (some none, m, w)
      | e ∷ events ↦ elim (ctx_err w) [
        | some x ↦ (some (some (context_done x)), m, w)
        | none ↦
            let (r, w1) = handle e w in
            elim r [
              | some x ↦ (some (some (handler_failed x)), m, w1)
              | none ↦ consume_memory rounds (drop_handled e m) w1
            ]
      ]
    ]
  ]

  -- What an open consumer is to do with a queue: the result, what stays queued, and the world.
  pub data Delivery
      : List (Event A) → W → Option (MemoryError X) → List (Event A) → W → Type 0 where
    drained : (w : W) → Delivery [] w none [] w
    refused :
        (e : Event A) (events : List (Event A)) (w : W) (x : X)
        → ctx_err w ≡ some x
        → Delivery (e ∷ events) w (some (context_done x)) (e ∷ events) w
    failed :
        (e : Event A) (events : List (Event A)) (w : W) (x : X)
        → ctx_err w ≡ none
        → (handle e w).0 ≡ some x
        → Delivery (e ∷ events) w (some (handler_failed x)) (e ∷ events) (handle e w).1
    delivered :
        (e : Event A) (events : List (Event A)) (w : W) (r : Option (MemoryError X))
        (rest : List (Event A)) (end : W)
        → ctx_err w ≡ none
        → (handle e w).0 ≡ none
        → Delivery events (handle e w).1 r rest end
        → Delivery (e ∷ events) w r rest end

  same_event_self : (e : Event A) → float.is_nan e.amount ≡ false → same_event e e ≡ true
  unfolding same_event
  same_event_self e h = ground (
    arith,
    float.leb_refl e.amount h,
    ==_refl e.id,
    ==_refl e.entity_id,
    eqb_ℤ_iff e.partition e.partition,
    eqb_ℤ_iff e.offset e.offset,
  )

  drop_handled-front :
      (e : Event A) (events : List (Event A))
      → float.is_nan e.amount ≡ false
      → drop_handled e (record { events = e ∷ events; closed = false })
        ≡ record { events = events; closed = false }
  unfolding drop_handled
  drop_handled-front e events h = rw (same_event_self e h) refl

  -- A round whose handler succeeds takes the event off the queue.
  consume_memory_round :
      (n : ℕ) (e : Event A) (events : List (Event A)) (w : W)
      → float.is_nan e.amount ≡ false
      → ctx_err w ≡ none
      → (handle e w).0 ≡ none
      → consume_memory (suc n) (record { events = e ∷ events; closed = false }) w
        ≡ consume_memory n (record { events = events; closed = false }) (handle e w).1
  unfolding consume_memory
  consume_memory_round n e events w h c f =
      rw (c, consume_memory, f)
        (ap (λ m. consume_memory n m (handle e w).1) (drop_handled-front e events h))

  -- Where no amount is not a number, one round more than the queue has events is enough: an open
  -- consumer handles them in order, each until success, takes only those off the queue, and stops
  -- at the first error or at the end.
  pub consume_memory-Delivery :
      (events : List (Event A)) (w : W)
      → All (λ e. float.is_nan e.amount ≡ false) events
      → (r : Option (MemoryError X)) × (rest : List (Event A)) × (end : W) × (consume_memory
            (suc (length events))
            (record { events = events; closed = false })
            w
          ≡ (some r, record { events = rest; closed = false }, end))
        × Delivery events w r rest end
  unfolding consume_memory
  consume_memory-Delivery [] w h = (none, [], w, refl, drained w)
  consume_memory-Delivery (e ∷ events) w h = elim (Option-cases (ctx_err w)) [
    | inr (x, c) ↦
        (some (context_done x), e ∷ events, w, rw (c, consume_memory) refl, refused e events w x c)
    | inl c ↦ elim (Option-cases (handle e w).0) [
      | inr (x, f) ↦ (
        some (handler_failed x),
        e ∷ events,
        (handle e w).1,
        rw (c, f, consume_memory) refl,
        failed e events w x c f,
      )
      | inl f ↦
          let (r, rest, end, run, d) = consume_memory-Delivery events (handle e w).1 h.1 in
          (
            r,
            rest,
            end,
            consume_memory_round (suc (length events)) e events w h.0 c f ∙ run,
            delivered e events w r rest end c f d,
          )
    ]
  ]
