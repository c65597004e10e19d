-- ===== src/LoadTester/Perform.antt =====
-- One request of load_tester/main.go: `perform`. The JSON encoder, http.NewRequest, the client's Do
-- and the clock are arguments over a world `W`, with errors `X`.
use distributed_fraud_detect.Prelude.{
  ℕ, true, false, ◌++◌, Option, none, some, if◌then◌else◌, Result, ok, err,
}
use distributed_fraud_detect.Text.{Text, text, is_empty}
use distributed_fraud_detect.LoadTester.Settings.{LoadConfig}
use distributed_fraud_detect.LoadTester.Summary.{LoadResult}
use distributed_fraud_detect.LoadTester.Payload.{Job, Payload, request_payload}

-- A POST with its body and its headers.
pub record Outgoing (B : Type 0) : Type 0 where
  pub url : Text
  pub body : B
  pub content_type : Text
  pub authorization : Option Text

pub record Client (B W X : Type 0) : Type 0 where
  pub marshal : Payload → Result X B
  pub new_request : Text → B → Option X
  -- The status, once the body is read and closed.
  pub run_request : Outgoing B → W → Result X ℕ × W
  -- `time.Since(work.scheduled)`
  pub elapsed : Job → W → ℕ

abbrev failed : ℕ → LoadResult
failed latency = record { latency = latency; status = 0; has_error = true }

module _ {A B W X : Type 0} (client : Client B W X) (c : LoadConfig A) (work : Job) where
  unfoldable pub send : B → W → LoadResult × W
  send body w = elim (client.new_request c.url body) [
    | some x ↦ (failed (client.elapsed work w), w)
    | none ↦
        let (r, w1) =
          client.run_request
            (record {
              url = c.url;
              body = body;
              content_type = text "application/json";
              authorization = if is_empty c.token then none else some (text "Bearer " ++ c.token);
            })
            w in
        let latency = client.elapsed work w1 in
        (
          elim r [
            | err x ↦ failed latency
            | ok status ↦ record { latency = latency; status = status; has_error = false }
          ],
          w1,
        )
  ]

  -- `perform`; none stands for a panic of the payload.
  unfoldable pub perform : W → Option (LoadResult × W)
  unfolding send request_payload
  perform w = elim (request_payload c work) [
    | none ↦ none
    | some payload ↦ elim (client.marshal payload) [
      | err x ↦ some (failed (client.elapsed work w), w)
      | ok body ↦ some (send body w)
    ]
  ]
