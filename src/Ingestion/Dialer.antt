-- ===== src/Ingestion/Dialer.antt =====
-- The TLS and SASL policy of a Kafka consumer in stream_processor/ingestion/ingestion.go, which
-- readers and DLQ writers share.
use distributed_fraud_detect.Prelude.{
  ◌*◌, ◌≡◌, refl, subst, Bool, true, false, not, ◌&&◌, ◌||◌, [], ◌∷◌, Option, none, some, inl, inr,
  arith, if◌then◌else◌, Result, ok, err, ◌>>=◌, bind-ok, Option-cases, Result-cases,
}
use distributed_fraud_detect.Text.{Text, is_empty}
use distributed_fraud_detect.Text.Trim.{trim_text}
use distributed_fraud_detect.Tls.{
  TlsConfig, TlsError, one_of, root_cas_of, certificates_of, certificates_of-some, version_tls13,
}
use distributed_fraud_detect.Ingestion.Config.{
  KafkaConfig, ConfigError, certificate_without_key, sasl_incomplete, tls_with_plaintext,
  sasl_with_plaintext, of_tls, mechanism_failed, Services, Dialer, second,
}

-- The policy of a dialer: TLS 1.3 and up, or, for a configuration that opts out of it, neither TLS
-- nor credentials.
unfoldable pub IsSecure : {P C M : Type 0} → Bool → Dialer P C M → Type 0
IsSecure {P} {C} false dialer =
    (t : TlsConfig P C) × (dialer.tls ≡ some t) × (t.min_version ≡ version_tls13)
IsSecure true dialer = (dialer.tls ≡ none) × (dialer.sasl_mechanism ≡ none)

module _ {X P C M : Type 0} (services : Services X P C M) where
  unfoldable pub kafka_tls_config : KafkaConfig → Result (TlsError X) (TlsConfig P C)
  kafka_tls_config config = root_cas_of services.files (trim_text config.tls_ca_file) >>= λ roots.
      certificates_of services.files (trim_text config.tls_client_cert_file)
        (trim_text config.tls_client_key_file)
      >>= λ certificates. ok (record {
        min_version = version_tls13;
        server_name = trim_text config.tls_server_name;
        root_cas = roots;
        certificates = certificates;
      })

  unfoldable pub dialer_checks : KafkaConfig → Option (ConfigError X)
  dialer_checks config =
      let ca_file = trim_text config.tls_ca_file in
      let server_name = trim_text config.tls_server_name in
      let cert_file = trim_text config.tls_client_cert_file in
      let key_file = trim_text config.tls_client_key_file in
      let username = trim_text config.sasl_username in
      if one_of cert_file key_file
      then some certificate_without_key
      else if one_of username config.sasl_password
      then some sasl_incomplete
      else if config.development_insecure
          && (not (is_empty ca_file) || not (is_empty server_name) || not (is_empty cert_file))
      then some tls_with_plaintext
      else if config.development_insecure && not (is_empty username)
      then some sasl_with_plaintext
      else none

  -- `if !config.DevelopmentInsecure { … }`
  unfoldable pub tls_of : Bool → KafkaConfig → Result (ConfigError X) (Option (TlsConfig P C))
  tls_of true config = ok none
  tls_of false config = elim (kafka_tls_config config) [
    | err x ↦ err (of_tls x)
    | ok tls ↦ ok (some tls)
  ]

  unfoldable pub sasl_of : Text → Text → Result (ConfigError X) (Option M)
  sasl_of username password =
      if not (is_empty username)
      then elim (services.scram_sha512 username password) [
        | err x ↦ err (mechanism_failed x)
        | ok mechanism ↦ ok (some mechanism)
      ]
      else ok none

  -- The dialer, behind the checks.
  unfoldable pub dial_with : KafkaConfig → Result (ConfigError X) (Dialer P C M)
  unfolding tls_of sasl_of kafka_tls_config
  dial_with config = tls_of config.development_insecure config >>= λ tls.
      sasl_of (trim_text config.sasl_username) config.sasl_password >>= λ mechanism. ok (record {
        timeout = 5 * second;
        keep_alive = 30 * second;
        tls = tls;
        sasl_mechanism = mechanism;
      })

  unfoldable pub new_kafka_dialer : KafkaConfig → Result (ConfigError X) (Dialer P C M)
  unfolding dialer_checks tls_of sasl_of kafka_tls_config
  new_kafka_dialer config = elim (dialer_checks config) [ some e ↦ err e | none ↦ dial_with config ]

  kafka_tls_config-version :
      (config : KafkaConfig) (t : TlsConfig P C)
      → kafka_tls_config config ≡ ok t
      → t.min_version ≡ version_tls13
  unfolding kafka_tls_config
  kafka_tls_config-version config t h =
      let (roots, _, h1) =
        bind-ok (root_cas_of services.files (trim_text config.tls_ca_file)) _ t h in
      let (certificates, _, h2) =
        bind-ok
          (certificates_of services.files (trim_text config.tls_client_cert_file)
            (trim_text config.tls_client_key_file))
          _ t h1 in
      cc

  tls_of-IsSecure :
      (insecure : Bool) (config : KafkaConfig) (tls : Option (TlsConfig P C)) (m : Option M)
      → tls_of insecure config ≡ ok tls
      → (insecure ≡ true → m ≡ none)
      → IsSecure insecure
          (record { timeout = 5 * second; keep_alive = 30 * second; tls = tls; sasl_mechanism = m })
  unfolding tls_of IsSecure
  tls_of-IsSecure false config tls m h n = elim (Result-cases (kafka_tls_config config)) [
    | inr (x, e) ↦ absurd (ground (arith, h, e))
    | inl (t, e) ↦ (t, ground (arith, h, e), kafka_tls_config-version config t e)
  ]
  tls_of-IsSecure true config tls m h n = (cc, n refl)

  -- Credentials never pass the checks together with plaintext.
  dialer_checks-sasl :
      (config : KafkaConfig) (mechanism : Option M)
      → dialer_checks config ≡ none
      → sasl_of (trim_text config.sasl_username) config.sasl_password ≡ ok mechanism
      → config.development_insecure ≡ true
      → mechanism ≡ none
  unfolding dialer_checks sasl_of
  dialer_checks-sasl config mechanism c h d = ground (arith, d, c, h)

  dial_with-IsSecure :
      (config : KafkaConfig) (dialer : Dialer P C M)
      → dialer_checks config ≡ none
      → dial_with config ≡ ok dialer
      → IsSecure config.development_insecure dialer
  unfolding dial_with
  dial_with-IsSecure config dialer c h =
      let (tls, e, f) = bind-ok (tls_of config.development_insecure config) _ dialer h in
      let (m, g, i) =
        bind-ok (sasl_of (trim_text config.sasl_username) config.sasl_password) _ dialer f in
      subst (IsSecure config.development_insecure) {y = dialer} (cc) (
        tls_of-IsSecure config.development_insecure config tls m e
          (dialer_checks-sasl config m c g))

  pub new_kafka_dialer-IsSecure :
      (config : KafkaConfig) (dialer : Dialer P C M)
      → new_kafka_dialer config ≡ ok dialer
      → IsSecure config.development_insecure dialer
  unfolding new_kafka_dialer
  new_kafka_dialer-IsSecure config dialer h = elim (Option-cases (dialer_checks config)) [
    | inr (e, c) ↦ absurd (ground (arith, h, c))
    | inl c ↦ dial_with-IsSecure config dialer c (ground (arith, h, c))
  ]

  kafka_tls_config-certificates :
      (config : KafkaConfig) (t : TlsConfig P C)
      → kafka_tls_config config ≡ ok t
      → is_empty (trim_text config.tls_client_cert_file) ≡ false
      → (c : C) × (t.certificates ≡ c ∷ [])
  unfolding kafka_tls_config
  kafka_tls_config-certificates config t h n =
      let (roots, _, h1) =
        bind-ok (root_cas_of services.files (trim_text config.tls_ca_file)) _ t h in
      let cert_file = trim_text config.tls_client_cert_file in
      let key_file = trim_text config.tls_client_key_file in
      let (cs, f, h2) = bind-ok (certificates_of services.files cert_file key_file) _ t h1 in
      let (c, g) = certificates_of-some services.files cert_file key_file cs f n in (c, cc)

  -- What a dialer shows a broker: a SCRAM mechanism if a user is named, and, over TLS, the client's
  -- certificate if a file is.
  abbrev pub Presents : KafkaConfig → Dialer P C M → Type 0
  Presents config dialer =
      (is_empty (trim_text config.sasl_username) ≡ false
        → (m : M) × (dialer.sasl_mechanism ≡ some m))
      × (config.development_insecure ≡ false
          → is_empty (trim_text config.tls_client_cert_file) ≡ false
          → (t : TlsConfig P C) × (c : C) × (dialer.tls ≡ some t) × (t.certificates ≡ c ∷ []))

  sasl_of-some :
      (username password : Text) (m : Option M)
      → sasl_of username password ≡ ok m
      → is_empty username ≡ false
      → (n : M) × (m ≡ some n)
  unfolding sasl_of
  sasl_of-some username password m h n =
      elim (Result-cases (services.scram_sha512 username password)) [
        | inr (x, e) ↦ absurd (ground (arith, h, n, e))
        | inl (a, e) ↦ (a, ground (arith, h, n, e))
      ]

  tls_of-some :
      (config : KafkaConfig) (insecure : Bool) (tls : Option (TlsConfig P C))
      → tls_of insecure config ≡ ok tls
      → insecure ≡ false
      → is_empty (trim_text config.tls_client_cert_file) ≡ false
      → (t : TlsConfig P C) × (c : C) × (tls ≡ some t) × (t.certificates ≡ c ∷ [])
  unfolding tls_of
  tls_of-some config true tls h i n = absurd (cc)
  tls_of-some config false tls h i n = elim (Result-cases (kafka_tls_config config)) [
    | inr (x, e) ↦ absurd (ground (arith, h, e))
    | inl (t, e) ↦
        let (c, g) = kafka_tls_config-certificates config t e n in (t, c, ground (arith, h, e), g)
  ]

  dial_with-Presents :
      (config : KafkaConfig) (dialer : Dialer P C M)
      → dial_with config ≡ ok dialer
      → Presents config dialer
  unfolding dial_with
  dial_with-Presents config dialer h =
      let (tls, e, f) = bind-ok (tls_of config.development_insecure config) _ dialer h in
      let (m, g, i) =
        bind-ok (sasl_of (trim_text config.sasl_username) config.sasl_password) _ dialer f in
      (
        λ n.
            let (a, j) = sasl_of-some (trim_text config.sasl_username) config.sasl_password m g n in
            (a, cc),
        λ d n.
            let (t, c, j, k) = tls_of-some config config.development_insecure tls e d n in
            (t, c, cc, k),
      )

  pub new_kafka_dialer-Presents :
      (config : KafkaConfig) (dialer : Dialer P C M)
      → new_kafka_dialer config ≡ ok dialer
      → Presents config dialer
  unfolding new_kafka_dialer
  new_kafka_dialer-Presents config dialer h = elim (Option-cases (dialer_checks config)) [
    | inr (e, c) ↦ absurd (ground (arith, h, c))
    | inl c ↦ dial_with-Presents config dialer (ground (arith, h, c))
  ]
