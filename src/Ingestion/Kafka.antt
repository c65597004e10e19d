-- ===== src/Ingestion/Kafka.antt =====
-- The Kafka consumer of stream_processor/ingestion/ingestion.go: fetching, processing and
-- committing with bounded retries, and the dead-letter path.
-- What is not in the file is an argument, the record `Environment` over a world `W` and errors `X`:
-- the reader, the writer, the handler, the context, the timer and the JSON decoder. Each call of
-- it is noted in a log, the latest first.
use distributed_fraud_detect.Prelude.{
  ℕ, zero, suc, ◌+◌, eqb, pos, Bool, true, false, not, List, [], ◌∷◌, Option, none, some, ltb,
  if◌then◌else◌, ◌==◌, ℤ, Result, ok, err,
}
use distributed_fraud_detect.Text.{Text, text, text_key, is_empty}
use distributed_fraud_detect.Ingestion.Event.{Event}
use mathlib.Core.Option
use distributed_fraud_detect.Ingestion.Metadata.{safe_metadata}
use distributed_fraud_detect.Ingestion.Backoff.{wait_backoff}

-- kafka.Message, as far as the file reads and writes it.
pub record Message : Type 0 where
  pub topic : Text
  pub partition : ℤ
  pub offset : ℤ
  pub key : Text
  pub value : Text
  pub headers : List (Text × Text)
  pub time : ℕ

-- What the consumer calls, with what happened.
pub data Call : Type 0 where
  fetched : Option Message → Call
  handled : Message → Bool → Call
  undecodable : Message → Call
  poison_handled : Message → Bool → Call
  dead_lettered : Message → Bool → Call
  committed : Message → Bool → Call
  waited : ℕ → Bool → Call

pub record Environment (A W X : Type 0) : Type 0 where
  pub fetch_message : W → Result X Message × W
  pub commit_messages : Message → W → Option X × W
  pub write_messages : Message → W → Option X × W
  pub poison_handler : Text → Option X → W → Option X × W
  pub handle : Event A → W → Option X × W
  pub unmarshal : Text → Result X (Event A)
  -- `ctx.Err()`
  pub ctx_err : W → Option X
  -- `select { case <-ctx.Done(): …; case <-timer.C: … }`: none if the timer fired.
  pub select_timer : ℕ → W → Option X × W
  -- `source.Time.UTC().Format(time.RFC3339Nano)`
  pub format_time : ℕ → Text
  -- strconv.Itoa and strconv.FormatInt
  pub format_int : ℤ → Text

pub record Consumer : Type 0 where
  pub max_attempts : ℕ
  pub retry_backoff : ℕ
  pub poison_policy : Text
  pub has_poison_handler : Bool
  pub has_dlq_writer : Bool
  pub source_topic : Text

pub data Error (X : Type 0) : Type 0 where
  external : X → Error X
  handler_required : Error X
  fetch_failed : ℕ → Option X → Error X
  commit_failed : ℕ → Option X → Error X
  poison : ℤ → ℤ → Option X → Error X
  dlq_not_configured : Error X
  dlq_failed : X → Error X

pub record State (W : Type 0) : Type 0 where
  pub world : W
  pub log : List Call

abbrev pub succeeded : {X : Type 0} → Option X → Bool
succeeded none = true
succeeded (some x) = false

module _ {A W X : Type 0} (env : Environment A W X) (k : Consumer) where
  unfoldable pub note : W → Call → State W → State W
  note w call s = record { world = w; log = call ∷ s.log }

  -- `waitBackoff`
  unfoldable pub wait : ℕ → State W → Option X × State W
  wait attempt s =
      let pause = wait_backoff k.retry_backoff attempt in
      let (r, w) = env.select_timer pause s.world in (r, note w (waited pause (succeeded r)) s)

  -- Between two attempts of a loop; none if the loop goes on.
  unfoldable pub pause_after : ℕ → State W → Option X × State W
  pause_after attempt s = if ltb attempt k.max_attempts then wait attempt s else (none, s)

  unfoldable pub call_fetch : State W → Result X Message × State W
  call_fetch s =
      let (r, w) = env.fetch_message s.world in
      (r, note w (fetched (elim r [ ok m ↦ some m | err x ↦ none ])) s)

  -- The rounds left, the attempt's number, and `last`.
  unfoldable pub fetch_loop : ℕ → ℕ → Option X → State W → Result (Error X) Message × State W
  fetch_loop zero attempt last s = (err (fetch_failed k.max_attempts last), s)
  fetch_loop (suc left) attempt last s =
      let (r, s1) = call_fetch s in
      elim r [
        | ok m ↦ (ok m, s1)
        | err x ↦ elim (env.ctx_err s1.world) [
          | some c ↦ (err (external c), s1)
          | none ↦
              let (t, s2) = pause_after attempt s1 in
              elim t [
                | some c ↦ (err (external c), s2)
                | none ↦ fetch_loop left (attempt + 1) (some x) s2
              ]
        ]
      ]

  unfoldable pub fetch : State W → Result (Error X) Message × State W
  fetch = fetch_loop k.max_attempts 1 none

  unfoldable pub call_commit : Message → State W → Option X × State W
  call_commit m s =
      let (r, w) = env.commit_messages m s.world in (r, note w (committed m (succeeded r)) s)

  unfoldable pub commit_loop : Message → ℕ → ℕ → Option X → State W → Option (Error X) × State W
  commit_loop m zero attempt last s = (some (commit_failed k.max_attempts last), s)
  commit_loop m (suc left) attempt last s =
      let (r, s1) = call_commit m s in
      elim r [
        | none ↦ (none, s1)
        | some x ↦ elim (env.ctx_err s1.world) [
          | some c ↦ (some (external c), s1)
          | none ↦
              let (t, s2) = pause_after attempt s1 in
              elim t [
                | some c ↦ (some (external c), s2)
                | none ↦ commit_loop m left (attempt + 1) (some x) s2
              ]
        ]
      ]

  unfoldable pub commit : Message → State W → Option (Error X) × State W
  commit m = commit_loop m k.max_attempts 1 none

  -- The record of the dead-letter topic: key and value are the source's.
  unfoldable pub dlq_record : Message → Message
  dlq_record source = record {
    topic = [];
    partition = pos 0;
    offset = pos 0;
    key = source.key;
    value = source.value;
    headers =
        (
          text "x-dfd-source-topic",
          safe_metadata (if is_empty source.topic then k.source_topic else source.topic) 249,
        )
        ∷ (text "x-dfd-source-partition", env.format_int source.partition)
        ∷ (text "x-dfd-source-offset", env.format_int source.offset)
        ∷ (
          text "x-dfd-source-timestamp",
          if eqb source.time 0 then [] else env.format_time source.time,
        )
        ∷ (text "x-dfd-dlq-reason", text "retry-exhausted")
        ∷ [];
    time = 0;
  }

  unfoldable pub write_dlq : Message → State W → Option (Error X) × State W
  write_dlq source s =
      if not k.has_dlq_writer
      then (some dlq_not_configured, s)
      else let (r, w) = env.write_messages (dlq_record source) s.world in
        (Option.map dlq_failed r, note w (dead_lettered source (succeeded r)) s)

  unfoldable pub call_poison_handler : Message → Option X → State W → Option (Error X) × State W
  call_poison_handler m last s =
      let (r, w) = env.poison_handler m.value last s.world in
      (Option.map external r, note w (poison_handled m (succeeded r)) s)

  -- The body of `process` behind its loop.
  unfoldable pub give_up : Message → Option X → State W → Option (Error X) × State W
  give_up m last s =
      if k.poison_policy == text "dlq"
      then if k.has_poison_handler then call_poison_handler m last s else write_dlq m s
      else (some (poison m.partition m.offset last), s)

  -- One attempt: decode and handle.
  unfoldable pub attempt_event : Message → State W → Option X × State W
  attempt_event m s = elim (env.unmarshal m.value) [
    | err x ↦ (some x, note s.world (undecodable m) s)
    | ok event ↦
        let (r, w) =
          env.handle (record event { partition = m.partition; offset = m.offset }) s.world in
        (r, note w (handled m (succeeded r)) s)
  ]

  unfoldable pub process_loop : Message → ℕ → ℕ → Option X → State W → Option (Error X) × State W
  process_loop m zero attempt last s = give_up m last s
  process_loop m (suc left) attempt last s =
      let (r, s1) = attempt_event m s in
      elim r [
        | none ↦ (none, s1)
        | some x ↦
            let (t, s2) = pause_after attempt s1 in
            elim t [
              | some c ↦ (some (external c), s2)
              | none ↦ process_loop m left (attempt + 1) (some x) s2
            ]
      ]

  unfoldable pub process : Message → State W → Option (Error X) × State W
  process m = process_loop m k.max_attempts 1 none

  -- One round of the loop of `Consume`; none if the loop goes on.
  unfoldable pub consume_round : State W → Option (Error X) × State W
  consume_round s =
      let (r, s1) = fetch s in
      elim r [
        | err e ↦ (some e, s1)
        | ok m ↦ let (p, s2) = process m s1 in elim p [ some e ↦ (some e, s2) | none ↦ commit m s2 ]
      ]

  -- `Consume`, up to a number of rounds; none if it still runs. The code's loop has no end but an
  -- error.
  unfoldable pub consume : ℕ → Bool → State W → Option (Error X) × State W
  consume rounds false s = (some handler_required, s)
  consume zero true s = (none, s)
  consume (suc rounds) true s =
      let (r, s1) = consume_round s in
      elim r [ some e ↦ (some e, s1) | none ↦ consume rounds true s1 ]
