-- ===== src/Worker/Hop.antt =====
-- A remote worker behind GRPCClient of serving_plane/worker/grpc.go against the engine itself.
use distributed_fraud_detect.Prelude.{
  ◌≡◌, refl, ap, sym, ◌∙◌, subst, true, false, List, [], ◌∷◌, ◌++◌, map, Option, none, some, inl,
  inr, arith, length, ==_refl, Result, ok, err, Bool-cases, Option-cases, Result-cases,
}
use mathlib.Core.Path.{ap₂}
use distributed_fraud_detect.Float.{Float64}
use distributed_fraud_detect.Text.{Text, text, text_key, is_empty}
use distributed_fraud_detect.Worker.Types.{Request, Score}
use distributed_fraud_detect.Worker.Validate.{validate_requests, validate_results}
use distributed_fraud_detect.Worker.Messages.{
  ScoreMessage, results_to_proto, results_from_proto-results_to_proto,
}
use distributed_fraud_detect.Worker.Rpc.{
  Engine, Status, internal, admits, all_requests, validate_rpc_requests, requests_from_proto,
  requests_to_proto, context_status, infer_checked, serve_score,
}
use distributed_fraud_detect.Worker.Client.{
  Metadata, RequestMetadata, ClientError, of_rpc, authorization_key, outgoing_metadata,
  request_entries, values_of, read_response, infer_remote,
}

values_of-append :
    (key : Text) (m n : Metadata) → values_of key (m ++ n) ≡ values_of key m ++ values_of key n
unfolding values_of
values_of-append key [] n = refl
values_of-append key ((k, v) ∷ m) n = ground (arith, values_of-append key m n)

-- With a token of its own, a client's call carries that token's bearer as its one authorization,
-- whatever the gateway's caller sent.
pub outgoing_metadata-bearer :
    (token : Text) (meta : Option RequestMetadata)
    → is_empty token ≡ false
    → values_of authorization_key (outgoing_metadata token meta) ≡ (text "Bearer " ++ token) ∷ []
unfolding outgoing_metadata values_of request_entries
outgoing_metadata-bearer token none h = rw h refl
outgoing_metadata-bearer token (some m) h = elim (Bool-cases (is_empty m.request_id)) [
  | inl e ↦ rw (h, e) refl
  | inr e ↦ rw (h, e) refl
]

admits_bearer : (token : Text) → admits token ((text "Bearer " ++ token) ∷ []) ≡ true
unfolding admits
admits_bearer token = ground (arith, ==_refl (text "Bearer " ++ token))

module _ {A : Type 0} ⦃float : Float64 A⦄ (one minus_one : A) where
  all_requests_back : (rs : List (Request A)) → all_requests (map some rs) ≡ some rs
  unfolding all_requests
  all_requests_back [] = refl
  all_requests_back (r ∷ rs) = rw (all_requests, all_requests_back rs) refl

  requests_from_proto-requests_to_proto :
      (rs : List (Request A))
      → validate_rpc_requests one minus_one rs ≡ none
      → requests_from_proto one minus_one (requests_to_proto rs) ≡ ok rs
  unfolding requests_from_proto
  requests_from_proto-requests_to_proto rs h =
      rw (requests_from_proto, all_requests_back rs, h) refl

  validate_rpc_requests-none :
      (rs : List (Request A))
      → validate_rpc_requests one minus_one rs ≡ none
      → validate_requests one minus_one rs false ≡ none
  unfolding validate_rpc_requests
  validate_rpc_requests-none rs h = elim (Option-cases (validate_requests one minus_one rs false)) [
    | inl e ↦ e
    | inr (x, e) ↦ absurd (ground (arith, h, e))
  ]

  module _ {W X : Type 0} (engine : Engine A W X) where
    -- A connection that brings a call's message and metadata to the service, and its answer back.
    unfoldable pub over_service :
        Text
        → Metadata
        → Option (List (Option (Request A)))
        → W
        → Result Status (Option (List (Option (ScoreMessage A)))) × W
    over_service token md message w =
        let (r, w1) =
          serve_score one minus_one engine true token (values_of authorization_key md) message w in
        (elim r [ err s ↦ err s | ok items ↦ ok (some items) ], w1)

    -- The engine's own answer, as a client is to see it: its valid results, or a status.
    unfoldable pub expected_answer :
        List (Request A) → Result X (List (Score A)) → Result (ClientError Status) (List (Score A))
    expected_answer rs (err x) = err (of_rpc (context_status one minus_one engine x))
    expected_answer rs (ok scores) = elim (validate_results one minus_one scores (length rs)) [
      | some e ↦ err (of_rpc internal)
      | none ↦ ok scores
    ]

    -- The service's answer as the client's stub returns it.
    abbrev delivered :
        Result Status (List (Option (ScoreMessage A)))
        → Result Status (Option (List (Option (ScoreMessage A))))
    delivered r = elim r [ err s ↦ err s | ok items ↦ ok (some items) ]

    answered_valid :
        (rs : List (Request A)) (scores : List (Score A))
        → validate_results one minus_one scores (length rs) ≡ none
        → read_response one minus_one (length rs) (delivered (ok (results_to_proto scores)))
          ≡ ok scores
    unfolding read_response
    answered_valid rs scores f =
        let back = results_from_proto-results_to_proto one minus_one scores (length rs) f in
        rw (read_response, back, f) (ap ok back)

    infer_checked-valid :
        (rs : List (Request A)) (w : W) (scores : List (Score A))
        → (engine.infer rs w).0 ≡ ok scores
        → validate_results one minus_one scores (length rs) ≡ none
        → (infer_checked one minus_one engine rs w).0 ≡ ok (results_to_proto scores)
    unfolding infer_checked
    infer_checked-valid rs w scores e f = rw (e, infer_checked, f) refl

    expected_valid :
        (rs : List (Request A)) (scores : List (Score A))
        → validate_results one minus_one scores (length rs) ≡ none
        → expected_answer rs (ok scores) ≡ ok scores
    unfolding expected_answer
    expected_valid rs scores f = rw (expected_answer, f) refl

    answered :
        (rs : List (Request A)) (w : W)
        → read_response one minus_one
            (length rs)
            (delivered (infer_checked one minus_one engine rs w).0)
          ≡ expected_answer rs (engine.infer rs w).0
    unfolding infer_checked expected_answer read_response
    answered rs w = elim (Result-cases (engine.infer rs w).0) [
      | inr (x, e) ↦ rw (e, infer_checked) refl
      | inl (scores, e) ↦ elim (Option-cases (validate_results one minus_one scores (length rs))) [
        | inr (y, f) ↦ rw (e, infer_checked, f, expected_answer) refl
        | inl f ↦
            ap (λ r. read_response one minus_one (length rs) (delivered r))
              (infer_checked-valid rs w scores e f)
            ∙ answered_valid rs scores f
            ∙ sym (expected_valid rs scores f)
            ∙ ap (expected_answer rs) (sym e)
      ]
    ]

    infer_checked-world :
        (rs : List (Request A)) (w : W)
        → (infer_checked one minus_one engine rs w).1 ≡ (engine.infer rs w).1
    unfolding infer_checked
    infer_checked-world rs w = elim (Result-cases (engine.infer rs w).0) [
      | inr (x, e) ↦ rw (e, infer_checked) refl
      | inl (scores, e) ↦ elim (Option-cases (validate_results one minus_one scores (length rs))) [
        | inr (y, f) ↦ rw (e, infer_checked, f) refl
        | inl f ↦ rw (e, infer_checked, f) refl
      ]
    ]

    serve_score-admitted :
        (token : Text) (values : List Text) (rs : List (Request A)) (w : W)
        → admits token values ≡ true
        → validate_rpc_requests one minus_one rs ≡ none
        → serve_score one minus_one engine true token values (requests_to_proto rs) w
          ≡ infer_checked one minus_one engine rs w
    unfolding serve_score
    serve_score-admitted token values rs w a v =
        rw (a, serve_score, requests_from_proto-requests_to_proto rs v) refl

    over_service-admitted :
        (token : Text) (md : Metadata) (rs : List (Request A)) (w : W)
        → admits token (values_of authorization_key md) ≡ true
        → validate_rpc_requests one minus_one rs ≡ none
        → over_service token md (requests_to_proto rs) w ≡ (
          delivered (infer_checked one minus_one engine rs w).0,
          (infer_checked one minus_one engine rs w).1,
        )
    unfolding over_service
    over_service-admitted token md rs w a v =
        ap (λ q. (delivered q.0, q.1))
          (serve_score-admitted token (values_of authorization_key md) rs w a v)

    -- For requests that the service accepts, and a client and a service with one token, the hop changes
    -- nothing: the client gives the engine's valid results as they are, the status of its error, or
    -- an internal error for results that are not valid; the engine is called once, with the requests.
    pub infer_remote-transparent :
        (token : Text) (meta : Option RequestMetadata) (rs : List (Request A)) (w : W)
        → is_empty token ≡ false
        → validate_rpc_requests one minus_one rs ≡ none
        → infer_remote one minus_one
            (over_service token)
            (record { connected = true; auth_token = token })
            []
            meta
            rs
            w
          ≡ (expected_answer rs (engine.infer rs w).0, (engine.infer rs w).1)
    unfolding infer_remote
    infer_remote-transparent token meta rs w h v =
        let md = outgoing_metadata token meta in
        let admitted =
          subst (λ vs. admits token vs ≡ true) (sym (outgoing_metadata-bearer token meta h))
            (admits_bearer token) in
        let call = over_service-admitted token md rs w admitted v in
        rw (validate_rpc_requests-none rs v, infer_remote)
          (ap (λ q. (read_response one minus_one (length rs) q.0, q.1)) call
            ∙ ap₂ (λ r u. (r, u)) (answered rs w) (infer_checked-world rs w))
