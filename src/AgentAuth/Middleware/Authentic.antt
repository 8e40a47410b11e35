-- ===== src/AgentAuth/Middleware/Authentic.antt =====
-- Steps 1 to 5: which requests are authentic, and what the others are told.
use vedox.Base.{
  ◌≡◌, refl, ◌≢◌, ◌↔◌, ◌∙◌, ◌⊎◌, inl, inr, Bytes, Bool, false, Option-cases, none, some, [], arith,
  ℕ,
}
use vedox.Secrets.{SecretStore}
use vedox.AgentAuth.Signing.{Externals, build_signed_string, secure_equal, validate_timestamp}
use vedox.AgentAuth.Signing.Injective.{IsCurrent, validate_timestamp_iff}
use vedox.AgentAuth.KeyStore.{
  Json, World, KeyError, keychain_unavailable, Secret, secret, no_secret, get_secret, lookup_key,
}
use vedox.AgentAuth.KeyStore.Order.{ApiKey}
use vedox.AgentAuth.Middleware.{
  Request, Response, served, Body, absent, broken, stream, Read, read, refused, read_body, Verdict,
  rejected, verified, check_signature, unauthorized, too_large, secret_error, authenticate,
}

Read-cases :
    (b : Read) → ((body : Bytes) × (b ≡ read body)) ⊎ ((resp : Response) × (b ≡ refused resp))
Read-cases (read body) = inl (body, refl)
Read-cases (refused resp) = inr (resp, refl)

read_body-refused :
    (b : Body) (resp : Response)
    → read_body b ≡ refused resp
    → (resp ≡ unauthorized) ⊎ (resp ≡ too_large)
unfolding read_body
read_body-refused absent resp h = cc
read_body-refused broken resp h = inl (cc)
read_body-refused (stream b) resp h = ground arith

secret_error-unauthorized :
    (e : KeyError) → e ≢ keychain_unavailable → secret_error e ≡ unauthorized
secret_error-unauthorized keychain_unavailable h = absurd (h refl)
secret_error-unauthorized _ h = refl

pub Verdict-cases :
    (v : Verdict)
    → ((resp : Response) × (v ≡ rejected resp))
      ⊎ ((key : ApiKey) × (body : Bytes) × (hash : Bytes) × (v ≡ verified key body hash))
Verdict-cases (rejected resp) = inl (resp, refl)
Verdict-cases (verified key body hash) = inr (key, body, hash, refl)

module _ (st : SecretStore) (legacy : Bool) (json : Json) (ext : Externals) where
  -- The request carries a valid signature of an active key: what the package's comments ask for.
  pub record IsAuthentic (w : World st) (now : ℕ) (r : Request) (key : ApiKey) (body : Bytes)
      : Type 0 where
    pub names_key : r.key_id ≢ []
    pub known : lookup_key st legacy json w r.key_id ≡ some key
    pub active : key.revoked ≡ false
    pub current : IsCurrent ext now r.timestamp
    pub body_read : read_body r.body ≡ read body
    pub shared_secret : Bytes
    pub held : get_secret st legacy json w r.key_id ≡ secret shared_secret
    pub names_signature : r.signature ≢ []
    pub signed :
        r.signature
        ≡ ext.hmac_hex shared_secret
            (build_signed_string r.method r.path r.timestamp (ext.sha256_hex body))

  check_signature_sound :
      (found : Secret) (r : Request) (key key' : ApiKey) (body body' body_hash : Bytes)
      → check_signature ext found r key body ≡ verified key' body' body_hash
      → (key ≡ key')
        × (body ≡ body')
        × (body_hash ≡ ext.sha256_hex body)
        × (s : Bytes) × (found ≡ secret s)
        × (r.signature ≢ [])
        × (r.signature
            ≡ ext.hmac_hex s
                (build_signed_string r.method r.path r.timestamp (ext.sha256_hex body)))
  unfolding check_signature secure_equal
  check_signature_sound (no_secret e) r key key' body body' body_hash h = cc
  check_signature_sound (secret s) r key key' body body' body_hash h =
      (ground arith, ground arith, ground arith, s, refl, ground arith, ground arith)

  check_signature_complete :
      (s : Bytes) (r : Request) (key : ApiKey) (body : Bytes)
      → r.signature ≢ []
      → r.signature
        ≡ ext.hmac_hex s (build_signed_string r.method r.path r.timestamp (ext.sha256_hex body))
      → check_signature ext (secret s) r key body ≡ verified key body (ext.sha256_hex body)
  unfolding check_signature secure_equal
  check_signature_complete s r key body ne e = ground arith

  -- The checks before the signature, all passed.
  record Reaches (w : World st) (now : ℕ) (r : Request) (v : Verdict) : Type 0 where
    names_key : r.key_id ≢ []
    key : ApiKey
    known : lookup_key st legacy json w r.key_id ≡ some key
    active : key.revoked ≡ false
    valid : validate_timestamp ext now r.timestamp ≡ none
    body : Bytes
    body_read : read_body r.body ≡ read body
    checked : check_signature ext (get_secret st legacy json w r.key_id) r key body ≡ v

  reaches :
      (w : World st) (now : ℕ) (r : Request) (key : ApiKey) (body body_hash : Bytes)
      → authenticate st legacy json ext w now r ≡ verified key body body_hash
      → Reaches w now r (verified key body body_hash)
  unfolding authenticate
  reaches w now r key body body_hash h =
      elim (Option-cases (lookup_key st legacy json w r.key_id)) [
        | inl e ↦ absurd (ground (arith, e))
        | inr (key', e) ↦ elim (Read-cases (read_body r.body)) [
          | inl (body', b) ↦ record {
            names_key = ground arith;
            key = key';
            known = e;
            active = ground (arith, e);
            valid = ground (arith, e);
            body = body';
            body_read = b;
            checked = ground (arith, e, b);
          }
          | inr (resp, b) ↦ absurd (ground (arith, e, b))
        ]
      ]

  authenticate_sound :
      (w : World st) (now : ℕ) (r : Request) (key : ApiKey) (body body_hash : Bytes)
      → authenticate st legacy json ext w now r ≡ verified key body body_hash
      → IsAuthentic w now r key body × (body_hash ≡ ext.sha256_hex body)
  authenticate_sound w now r key body body_hash h =
      let p = reaches w now r key body body_hash h in
      let (k, b, hash, s, found, named, signed) =
        check_signature_sound (get_secret st legacy json w r.key_id) r p.key key p.body body
          body_hash p.checked in
      (
        record {
          names_key = p.names_key;
          known = rw (← k) p.known;
          active = rw (← k) p.active;
          current = (validate_timestamp_iff ext now r.timestamp).0 p.valid;
          body_read = rw (← b) p.body_read;
          shared_secret = s;
          held = found;
          names_signature = named;
          signed = rw (← b) signed;
        },
        rw (← b) hash,
      )

  pub authenticate_complete :
      (w : World st) (now : ℕ) (r : Request) (key : ApiKey) (body : Bytes)
      → IsAuthentic w now r key body
      → authenticate st legacy json ext w now r ≡ verified key body (ext.sha256_hex body)
  unfolding authenticate
  authenticate_complete w now r key body a =
      let valid = (validate_timestamp_iff ext now r.timestamp).1 a.current in
      let signature =
        check_signature_complete a.shared_secret r key body a.names_signature a.signed in
      ground (arith, valid, signature, a.known, a.held, a.active, a.body_read, a.names_key)

  pub authenticate_iff :
      (w : World st) (now : ℕ) (r : Request) (key : ApiKey) (body body_hash : Bytes)
      → (authenticate st legacy json ext w now r ≡ verified key body body_hash)
        ↔ (IsAuthentic w now r key body × (body_hash ≡ ext.sha256_hex body))
  authenticate_iff w now r key body body_hash = (
    authenticate_sound w now r key body body_hash,
    λ a. authenticate_complete w now r key body a.0 ∙ cc (a.1),
  )

  check_signature-rejected :
      (found : Secret) (r : Request) (key : ApiKey) (body : Bytes) (resp : Response)
      → found ≢ no_secret keychain_unavailable
      → check_signature ext found r key body ≡ rejected resp
      → resp ≡ unauthorized
  unfolding check_signature
  check_signature-rejected (no_secret e) r key body resp reached h =
      let err = secret_error-unauthorized e (λ p. reached (cc)) in cc
  check_signature-rejected (secret s) r key body resp reached h = ground arith

  check_signature-not_served :
      (found : Secret) (r : Request) (key : ApiKey) (body body' : Bytes)
      → check_signature ext found r key body ≢ rejected (served body')
  unfolding check_signature
  check_signature-not_served (no_secret keychain_unavailable) r key body body' h = cc
  check_signature-not_served (no_secret _) r key body body' h = cc
  check_signature-not_served (secret s) r key body body' h = ground arith

  pub authenticate-not_served :
      (w : World st) (now : ℕ) (r : Request) (body : Bytes)
      → authenticate st legacy json ext w now r ≢ rejected (served body)
  unfolding authenticate
  authenticate-not_served w now r body' h =
      elim (Option-cases (lookup_key st legacy json w r.key_id)) [
        | inl e ↦ ground (arith, e)
        | inr (key, e) ↦ elim (Read-cases (read_body r.body)) [
          | inl (body, b) ↦
              let found = get_secret st legacy json w r.key_id in
              ground (arith, e, b, check_signature-not_served found r key body body')
          | inr (resp', b) ↦ ground (arith, e, b, read_body-refused r.body resp' b)
        ]
      ]

  -- A rejection is the generic 401, unless the body is too large or the backend is unreachable.
  pub authenticate-rejected :
      (w : World st) (now : ℕ) (r : Request) (resp : Response)
      → read_body r.body ≢ refused too_large
      → get_secret st legacy json w r.key_id ≢ no_secret keychain_unavailable
      → authenticate st legacy json ext w now r ≡ rejected resp
      → resp ≡ unauthorized
  unfolding authenticate
  authenticate-rejected w now r resp small reached h =
      elim (Option-cases (lookup_key st legacy json w r.key_id)) [
        | inl e ↦ ground (arith, e)
        | inr (key, e) ↦ elim (Read-cases (read_body r.body)) [
          | inl (body, b) ↦
              let found = get_secret st legacy json w r.key_id in
              ground (arith, e, b, check_signature-rejected found r key body resp reached)
          | inr (resp', b) ↦ ground (arith, e, b, read_body-refused r.body resp' b)
        ]
      ]
