-- ===== src/Worker/Client.antt =====
-- GRPCClient of serving_plane/worker/grpc.go: the request's metadata, Infer, health and Close. The
-- connection is an argument over a world `W`, with errors `X`.
use distributed_fraud_detect.Prelude.{
  ℕ, Bool, true, false, not, ◌&&◌, List, [], ◌∷◌, ◌++◌, Option, none, some, if◌then◌else◌, length,
  ◌==◌, Result, ok, err,
}
use distributed_fraud_detect.Float.{Float64}
use distributed_fraud_detect.Text.{Text, text, text_key, is_empty}
use distributed_fraud_detect.Worker.Types.{Request, Score}
use distributed_fraud_detect.Worker.Validate.{Invalid, validate_requests, validate_results}
use distributed_fraud_detect.Worker.Messages.{ScoreMessage, results_from_proto}
use distributed_fraud_detect.Worker.Rpc.{requests_to_proto}

-- gRPC metadata: keys and values in the order in which they were appended.
abbrev pub Metadata : Type 0
Metadata = List (Text × Text)

-- `requestMetadata`, which the gateway puts into the context.
pub record RequestMetadata : Type 0 where
  pub request_id : Text
  pub authorization : Text

pub record GrpcClient : Type 0 where
  pub connected : Bool
  pub auth_token : Text

pub data ClientError (X : Type 0) : Type 0 where
  client_closed : ClientError X
  invalid_request : Invalid → ClientError X
  of_rpc : X → ClientError X
  invalid_result : Invalid → ClientError X
  not_serving : ClientError X

abbrev pub authorization_key : Text
authorization_key = text "authorization"

-- An entry, unless its value is left out.
abbrev entry : Bool → Text → Text → Metadata
entry true key value = (key, value) ∷ []
entry false key value = []

unfoldable pub request_entries : Text → RequestMetadata → Metadata
request_entries token m =
    entry (not (is_empty m.request_id)) (text "x-request-id") m.request_id
    ++ entry (is_empty token && not (is_empty m.authorization)) authorization_key m.authorization

-- What `Infer` appends to the metadata that its context carries.
unfoldable pub outgoing_metadata : Text → Option RequestMetadata → Metadata
unfolding request_entries
outgoing_metadata token none =
    entry (not (is_empty token)) authorization_key (text "Bearer " ++ token)
outgoing_metadata token (some m) =
    request_entries token m
    ++ entry (not (is_empty token)) authorization_key (text "Bearer " ++ token)

-- What the entries of a call hold for a key, in order.
unfoldable pub values_of : Text → Metadata → List Text
values_of key [] = []
values_of key ((k, v) ∷ more) = if k == key then v ∷ values_of key more else values_of key more

module _ {A : Type 0} ⦃float : Float64 A⦄ (one minus_one : A) where
  -- Behind the call of `Score`.
  unfoldable pub read_response :
      {X : Type 0}
      → ℕ
      → Result X (Option (List (Option (ScoreMessage A))))
      → Result (ClientError X) (List (Score A))
  read_response expected (err x) = err (of_rpc x)
  read_response expected (ok response) =
      let results = results_from_proto one minus_one response in
      elim (validate_results one minus_one results expected) [
        | some e ↦ err (invalid_result e)
        | none ↦ ok results
      ]

  -- `GRPCClient.Infer`; `call` is the client's `Score` with what the context carries.
  unfoldable pub infer_remote :
      {W X : Type 0}
      → (Metadata
          → Option (List (Option (Request A)))
          → W
          → Result X (Option (List (Option (ScoreMessage A)))) × W)
      → GrpcClient
      → Metadata
      → Option RequestMetadata
      → List (Request A)
      → W
      → Result (ClientError X) (List (Score A)) × W
  unfolding read_response outgoing_metadata
  infer_remote call client carried meta rs w =
      if not client.connected
      then (err client_closed, w)
      else elim (validate_requests one minus_one rs false) [
        | some e ↦ (err (invalid_request e), w)
        | none ↦
            let (r, w1) =
              call (carried ++ outgoing_metadata client.auth_token meta) (requests_to_proto rs) w in
            (read_response (length rs) r, w1)
      ]

-- `GRPCClient.Healthy`; `check` is the health client's Check, true for SERVING.
unfoldable pub healthy_remote :
    {W X : Type 0} → (W → Result X Bool × W) → Bool → W → Option (ClientError X) × W
healthy_remote check false w = (some client_closed, w)
healthy_remote check true w =
    let (r, w1) = check w in
    (
      elim r [ err x ↦ some (of_rpc x) | ok serving ↦ if serving then none else some not_serving ],
      w1,
    )

-- `engineHealthServer.Check`, true for SERVING; `engine` is the engine's `Healthy`, if there is one.
unfoldable pub check_health : {W X : Type 0} → Option (W → Option X × W) → W → Bool × W
check_health none w = (false, w)
check_health (some engine) w =
    let (r, w1) = engine w in (elim r [ none ↦ true | some x ↦ false ], w1)

-- `GRPCClient.Close`, whose `closeOnce` is the first component of the state.
unfoldable pub close_remote :
    {W X : Type 0} → (W → Option X × W) → Bool → Bool × W → Option X × Bool × W
close_remote close_conn false (closed, w) = (none, closed, w)
close_remote close_conn true (true, w) = (none, true, w)
close_remote close_conn true (false, w) = let (r, w1) = close_conn w in (r, true, w1)
