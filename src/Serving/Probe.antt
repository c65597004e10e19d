-- ===== src/Serving/Probe.antt =====
-- The health checks of serving_plane/cmd/gateway/main.go and serving_plane/cmd/worker/main.go
-- (`probeHTTPReady`, `probeReady` and `probeRoots`), which ask the local readiness endpoint.
use distributed_fraud_detect.Prelude.{
  ℕ, ◌≡◌, refl, Bool, true, false, not, ◌&&◌, ◌||◌, [], ◌∷◌, ◌++◌, Option, none, some, eqb,
  if◌then◌else◌, contains, nat_key, Result, ok, err,
}
use distributed_fraud_detect.Text.{Text, text, is_empty}
use distributed_fraud_detect.Text.Trim.{trim_text}
use distributed_fraud_detect.Tls.{Files, TlsConfig, TlsError, root_cas_of, version_tls13}

-- The text in front of its last colon and the text behind it.
split_last : Text → Option (Text × Text)
split_last [] = none
split_last (b ∷ s) = elim (split_last s) [
  | some (front, back) ↦ some (b ∷ front, back)
  | none ↦ if eqb b 0x3A then some ([], s) else none
]

-- A host behind its opening bracket: it ends with the one closing bracket.
is_closed : Text → Bool
is_closed [] = false
is_closed (b ∷ []) = eqb b 0x5D
is_closed (b ∷ c ∷ s) = not (eqb b 0x5D) && (not (eqb b 0x5B) && is_closed (c ∷ s))

is_host : Text → Bool
unfolding is_closed
is_host [] = true
is_host (b ∷ s) =
    if eqb b 0x5B
    then is_closed s
    else not (contains (b ∷ s) 0x3A || (contains (b ∷ s) 0x5B || contains (b ∷ s) 0x5D))

-- The port of net.SplitHostPort; none is its error.
unfoldable pub port_of : Text → Option Text
unfolding split_last is_host
port_of address = elim (split_last address) [
  | none ↦ none
  | some (host, port) ↦
      if is_host host && not (contains port 0x5B || contains port 0x5D) then some port else none
]

pub data ReadyError (X : Type 0) : Type 0 where
  port_required : ReadyError X
  roots_failed : TlsError X → ReadyError X
  request_failed : X → ReadyError X
  bad_status : ℕ → ReadyError X

-- `client.Get` of a URL, under the TLS configuration of its transport.
abbrev pub Get : Type 0 → Type 0 → Type 0 → Type 0
Get X P C = Text → Option (TlsConfig P C) → Result X ℕ

module _ {X P C : Type 0} (files : Files X P C) (get : Get X P C) where
  -- `probeRoots`
  unfoldable pub probe_roots : Text → Result (TlsError X) (Option P)
  probe_roots ca_file = root_cas_of files (trim_text ca_file)

  unfoldable pub ask : Text → Text → Option (TlsConfig P C) → Option (ReadyError X)
  ask scheme port tls = elim (get (scheme ++ text "://127.0.0.1:" ++ port ++ text "/readyz") tls) [
    | err x ↦ some (request_failed x)
    | ok status ↦ if eqb status 200 then none else some (bad_status status)
  ]

  -- `probeReady`
  unfoldable pub probe_ready : Text → Bool → Text → Text → Option (ReadyError X)
  unfolding port_of probe_roots ask
  probe_ready address insecure ca_file server_name = elim (port_of address) [
    | none ↦ some port_required
    | some port ↦
        if is_empty port
        then some port_required
        else if insecure
        then ask (text "http") port none
        else elim (probe_roots ca_file) [
          | err x ↦ some (roots_failed x)
          | ok roots ↦ ask (text "https") port (
              some (record {
                min_version = version_tls13;
                server_name = trim_text server_name;
                root_cas = roots;
                certificates = [];
              }))
        ]
  ]

  -- `probeHTTPReady`, with a fallback for an address that is not configured.
  unfoldable pub probe_http_ready : Text → Text → Bool → Text → Text → Option (ReadyError X)
  unfolding probe_ready
  probe_http_ready configured fallback insecure ca_file server_name =
      let address = trim_text configured in
      probe_ready (if is_empty address then fallback else address) insecure ca_file server_name

bare_port : port_of (text ":8080") ≡ some (text "8080")
unfolding port_of
bare_port = refl

bracketed_host : port_of (text "[::1]:9091") ≡ some (text "9091")
unfolding port_of
bracketed_host = refl

too_many_colons : port_of (text "::1:9091") ≡ none
unfolding port_of
too_many_colons = refl
