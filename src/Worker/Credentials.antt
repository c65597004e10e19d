-- ===== src/Worker/Credentials.antt =====
-- The transport of serving_plane/worker/grpc.go: credentials of clients and of servers, dialling,
-- serving and health. grpc-go is an argument.
use distributed_fraud_detect.Prelude.{
  ℕ, ◌≡◌, ◌≢◌, Bool, true, false, not, ◌||◌, List, [], ◌∷◌, Option, none, some, inl, inr, arith,
  if◌then◌else◌, Result, ok, err, ◌>>=◌, bind-ok, subst, sym, Bool-cases, Result-cases,
}
use distributed_fraud_detect.Text.{Text, is_empty}
use distributed_fraud_detect.Tls.{
  Files, TlsConfig, TlsError, pair_required, ca_required, server_pair_required, one_of, load_roots,
  load_pair, certificates_of, certificates_of-some, version_tls13,
}

pub record TransportConfig : Type 0 where
  pub insecure : Bool
  pub server_name : Text
  pub ca_file : Text
  pub cert_file : Text
  pub key_file : Text
  pub require_client_cert : Bool

-- The tls.Config of a server: its certificate, and the pool that clients must be verified against,
-- if they must (tls.RequireAndVerifyClientCert).
pub record ServerTls (P C : Type 0) : Type 0 where
  pub min_version : ℕ
  pub certificate : C
  pub client_cas : Option P

-- A GRPCClient: its connection, with the transport credentials that it was dialled with, and its token.
pub record Dialled (N P C : Type 0) : Type 0 where
  pub conn : N
  pub transport : Option (TlsConfig P C)
  pub auth_token : Text

pub data DialError (X : Type 0) : Type 0 where
  worker_address_required : DialError X
  of_tls : TlsError X → DialError X
  dial_failed : X → DialError X

-- How a client reaches a worker: in plaintext if that was asked for, or over TLS 1.3 with roots of
-- its own, and with a certificate if one is configured.
unfoldable pub IsTrusted : {P C : Type 0} → TransportConfig → Option (TlsConfig P C) → Type 0
IsTrusted config none = config.insecure ≡ true
IsTrusted {C = C} config (some t) =
    (config.insecure ≡ false)
    × (t.min_version ≡ version_tls13)
    × (t.root_cas ≢ none)
    × (is_empty config.cert_file ≡ false → (c : C) × (t.certificates ≡ c ∷ []))

-- How a server is reached: in plaintext if that was asked for, or over TLS 1.3, by clients that it
-- verifies if they must have certificates.
unfoldable pub IsVerifying : {P C : Type 0} → TransportConfig → Option (ServerTls P C) → Type 0
IsVerifying config none = config.insecure ≡ true
IsVerifying config (some t) =
    (config.insecure ≡ false)
    × (t.min_version ≡ version_tls13)
    × (config.require_client_cert ≡ true → t.client_cas ≢ none)

module _ {X P C : Type 0} (files : Files X P C) where
  unfoldable pub client_certificates : TransportConfig → Result (TlsError X) (List C)
  client_certificates config =
      if one_of config.cert_file config.key_file
      then err pair_required
      else certificates_of files config.cert_file config.key_file

  unfoldable pub client_tls : TransportConfig → Result (TlsError X) (TlsConfig P C)
  unfolding client_certificates
  client_tls config = load_roots files config.ca_file >>= λ roots.
      client_certificates config >>= λ certificates. ok (record {
        min_version = version_tls13;
        server_name = config.server_name;
        root_cas = some roots;
        certificates = certificates;
      })

  -- `clientCredentials`; none are the insecure ones.
  unfoldable pub client_credentials : TransportConfig → Result (TlsError X) (Option (TlsConfig P C))
  unfolding client_tls
  client_credentials config =
      if config.insecure
      then ok none
      else if is_empty config.ca_file
      then err ca_required
      else elim (client_tls config) [ err x ↦ err x | ok t ↦ ok (some t) ]

  unfoldable pub client_pool : TransportConfig → Result (TlsError X) (Option P)
  client_pool config =
      if not config.require_client_cert
      then ok none
      else if is_empty config.ca_file
      then err ca_required
      else elim (load_roots files config.ca_file) [ err x ↦ err x | ok pool ↦ ok (some pool) ]

  unfoldable pub server_tls : TransportConfig → Result (TlsError X) (ServerTls P C)
  unfolding client_pool
  server_tls config = load_pair files config.cert_file config.key_file >>= λ certificate.
      client_pool config >>= λ pool.
      ok (record { min_version = version_tls13; certificate = certificate; client_cas = pool })

  -- `ServerCredentials`; none are the insecure ones.
  unfoldable pub server_credentials : TransportConfig → Result (TlsError X) (Option (ServerTls P C))
  unfolding server_tls
  server_credentials config =
      if config.insecure
      then ok none
      else if is_empty config.cert_file || is_empty config.key_file
      then err server_pair_required
      else elim (server_tls config) [ err x ↦ err x | ok t ↦ ok (some t) ]

  -- `DialWithTransport`; `dial` is grpc.DialContext, which gives a connection.
  unfoldable pub dial_with_transport :
      {N : Type 0}
      → (Text → Option (TlsConfig P C) → Result X N)
      → Text
      → Text
      → TransportConfig
      → Result (DialError X) (Dialled N P C)
  unfolding client_credentials
  dial_with_transport dial address token config =
      if is_empty address then err worker_address_required else elim (client_credentials config) [
        | err x ↦ err (of_tls x)
        | ok transport ↦ elim (dial address transport) [
          | err x ↦ err (dial_failed x)
          | ok n ↦ ok (record { conn = n; transport = transport; auth_token = token })
        ]
      ]

  -- `DialInsecureForDevelopment`
  unfoldable pub dial_insecure_for_development :
      {N : Type 0}
      → (Text → Option (TlsConfig P C) → Result X N)
      → Text
      → Text
      → Result (DialError X) (Dialled N P C)
  unfolding dial_with_transport
  dial_insecure_for_development dial address token =
      dial_with_transport dial address token (record {
        insecure = true;
        server_name = [];
        ca_file = [];
        cert_file = [];
        key_file = [];
        require_client_cert = false;
      })

  client_certificates-some :
      (config : TransportConfig) (cs : List C)
      → client_certificates config ≡ ok cs
      → is_empty config.cert_file ≡ false
      → (c : C) × (cs ≡ c ∷ [])
  unfolding client_certificates
  client_certificates-some config cs h n =
      certificates_of-some files config.cert_file config.key_file cs (ground (arith, h)) n

  client_tls-IsTrusted :
      (config : TransportConfig) (t : TlsConfig P C)
      → client_tls config ≡ ok t
      → config.insecure ≡ false
      → IsTrusted config (some t)
  unfolding client_tls IsTrusted
  client_tls-IsTrusted config t h i =
      let (roots, e, f) = bind-ok (load_roots files config.ca_file) _ t h in
      let (cs, g, j) = bind-ok (client_certificates config) _ t f in
      (i, cc, λ n. absurd (cc), λ n. let (c, k) = client_certificates-some config cs g n in (c, cc))

  client_pool-some :
      (config : TransportConfig) (pool : Option P)
      → client_pool config ≡ ok pool
      → config.require_client_cert ≡ true
      → pool ≢ none
  unfolding client_pool
  client_pool-some config pool h r n = ground (arith, h, r, n)

  server_tls-IsVerifying :
      (config : TransportConfig) (t : ServerTls P C)
      → server_tls config ≡ ok t
      → config.insecure ≡ false
      → IsVerifying config (some t)
  unfolding server_tls IsVerifying
  server_tls-IsVerifying config t h i =
      let (certificate, e, f) = bind-ok (load_pair files config.cert_file config.key_file) _ t h in
      let (pool, g, j) = bind-ok (client_pool config) _ t f in
      (i, cc, λ r n. client_pool-some config pool g r (cc))

  pub client_credentials-IsTrusted :
      (config : TransportConfig) (transport : Option (TlsConfig P C))
      → client_credentials config ≡ ok transport
      → IsTrusted config transport
  unfolding client_credentials IsTrusted
  client_credentials-IsTrusted config none h = ground (arith, h)
  client_credentials-IsTrusted config (some t) h = elim (Bool-cases config.insecure) [
    | inl i ↦ absurd (ground (arith, h, i))
    | inr i ↦ client_tls-IsTrusted config t (ground (arith, h, i)) i
  ]

  pub server_credentials-IsVerifying :
      (config : TransportConfig) (transport : Option (ServerTls P C))
      → server_credentials config ≡ ok transport
      → IsVerifying config transport
  unfolding server_credentials IsVerifying
  server_credentials-IsVerifying config none h = ground (arith, h)
  server_credentials-IsVerifying config (some t) h = elim (Bool-cases config.insecure) [
    | inl i ↦ absurd (ground (arith, h, i))
    | inr i ↦ server_tls-IsVerifying config t (ground (arith, h, i)) i
  ]

  pub dial_with_transport-IsTrusted :
      {N : Type 0} (dial : Text → Option (TlsConfig P C) → Result X N) (address token : Text)
      (config : TransportConfig) (d : Dialled N P C)
      → dial_with_transport dial address token config ≡ ok d
      → IsTrusted config d.transport × (d.auth_token ≡ token)
  unfolding dial_with_transport
  dial_with_transport-IsTrusted dial address token config d h =
      elim (Result-cases (client_credentials config)) [
        | inr (x, e) ↦ absurd (ground (arith, h, e))
        | inl (transport, e) ↦ elim (Result-cases (dial address transport)) [
          | inr (x, f) ↦ absurd (ground (arith, h, e, f))
          | inl (n, f) ↦
              let same : d.transport ≡ transport = ground (arith, h, e, f) in
              (
                subst (IsTrusted config) (sym same)
                    (client_credentials-IsTrusted config transport e),
                ground (arith, h, e, f),
              )
        ]
      ]
