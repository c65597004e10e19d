-- ===== src/Tls.antt =====
-- The TLS of both planes: what they use of os, crypto/x509 and crypto/tls. Files are read through an
-- interface; `P` are certificate pools, `C` key pairs and `X` errors.
use distributed_fraud_detect.Prelude.{
  ℕ, ◌≡◌, Bool, false, not, ◌&&◌, ◌||◌, List, [], ◌∷◌, Option, none, some, if◌then◌else◌, Result,
  ok, err, Result-cases, inl, inr, arith,
}
use distributed_fraud_detect.Text.{Text, is_empty}

pub record Files (X P C : Type 0) : Type 0 where
  pub read_file : Text → Result X Text
  -- `AppendCertsFromPEM` on an empty pool; none if it returns false.
  pub append_certs_from_pem : Text → Option P
  pub load_x509_key_pair : Text → Text → Result X C

-- tls.VersionTLS13
abbrev pub version_tls13 : ℕ
version_tls13 = 0x0304

pub record TlsConfig (P C : Type 0) : Type 0 where
  pub min_version : ℕ
  pub server_name : Text
  pub root_cas : Option P
  pub certificates : List C

pub data TlsError (X : Type 0) : Type 0 where
  read_failed : X → TlsError X
  no_certificates : TlsError X
  key_pair_failed : X → TlsError X
  pair_required : TlsError X
  options_without_tls : TlsError X
  ca_required : TlsError X
  server_pair_required : TlsError X

-- Exactly one of two settings is given.
abbrev pub one_of : Text → Text → Bool
one_of s t = not (is_empty s) && is_empty t || is_empty s && not (is_empty t)

module _ {X P C : Type 0} (files : Files X P C) where
  -- A file's certificates as a pool.
  unfoldable pub load_roots : Text → Result (TlsError X) P
  load_roots ca_file = elim (files.read_file ca_file) [
    | err x ↦ err (read_failed x)
    | ok pem ↦ elim (files.append_certs_from_pem pem) [
      | none ↦ err no_certificates
      | some roots ↦ ok roots
    ]
  ]

  -- A pool if a file is named; none stands for the platform's roots.
  unfoldable pub root_cas_of : Text → Result (TlsError X) (Option P)
  unfolding load_roots
  root_cas_of ca_file =
      if is_empty ca_file
      then ok none
      else elim (load_roots ca_file) [ err x ↦ err x | ok roots ↦ ok (some roots) ]

  unfoldable pub load_pair : Text → Text → Result (TlsError X) C
  load_pair cert_file key_file = elim (files.load_x509_key_pair cert_file key_file) [
    | err x ↦ err (key_pair_failed x)
    | ok certificate ↦ ok certificate
  ]

  unfoldable pub certificates_of : Text → Text → Result (TlsError X) (List C)
  unfolding load_pair
  certificates_of cert_file key_file =
      if is_empty cert_file then ok [] else elim (load_pair cert_file key_file) [
        | err x ↦ err x
        | ok certificate ↦ ok (certificate ∷ [])
      ]

  -- With a certificate named, there is one.
  pub certificates_of-some :
      (cert_file key_file : Text) (cs : List C)
      → certificates_of cert_file key_file ≡ ok cs
      → is_empty cert_file ≡ false
      → (c : C) × (cs ≡ c ∷ [])
  unfolding certificates_of
  certificates_of-some cert_file key_file cs h n =
      elim (Result-cases (load_pair cert_file key_file)) [
        | inr (x, e) ↦ absurd (ground (arith, h, n, e))
        | inl (c, e) ↦ (c, ground (arith, h, n, e))
      ]
