-- ===== src/AgentAuth/Middleware.antt =====
-- middleware.go: the handler that `RequireAgent` wraps around an agent endpoint.
pub mod Scope
pub mod Authentic
pub mod Soundness
pub mod Replays
use vedox.Base.{
  ℕ, ◌*◌, Bytes, bytes_eq, Bool, true, false, not, ◌&&◌, ◌||◌, ltb, if◌then◌else◌, Option, none,
  some, List, [], ◌∷◌, is_empty, length, starts_with,
}
use vedox.Secrets.{SecretStore}
use vedox.AgentAuth.Lru.{Lru}
use vedox.AgentAuth.Nonce.{NonceKey, NonceEntry, nonce_key_discrete, check_and_record}
use vedox.AgentAuth.RateLimit.{RateLib, allow}
use vedox.AgentAuth.Signing.{Externals, build_signed_string, secure_equal, validate_timestamp}
use vedox.AgentAuth.KeyStore.{
  Json, World, KeyError, keychain_unavailable, Secret, secret, no_secret, get_secret, lookup_key,
}
use vedox.AgentAuth.KeyStore.Order.{ApiKey}
use vedox.Base.{bytes_discrete}

abbrev pub max_agent_body_bytes : ℕ
max_agent_body_bytes = 2 * 1024 * 1024

-- `r.Body`: nil, a stream that can be read, or one whose read fails.
pub data Body : Type 0 where
  absent broken : Body
  stream : Bytes → Body

-- A header that is not there reads as the empty string, as `Header.Get` gives it, and so does a
-- route parameter.
pub record Request : Type 0 where
  pub method : Bytes
  pub path : Bytes
  pub key_id : Bytes
  pub timestamp : Bytes
  pub signature : Bytes
  pub body : Body
  pub url_project : Bytes

-- `served body` is the call of the inner handler with the rebuilt body; the rest are replies.
pub data Response : Type 0 where
  served : Bytes → Response
  -- 401 VDX-300, 413 VDX-010, 500 VDX-302, 429 VDX-306, 409 VDX-307, 403 VDX-301.
  unauthorized too_large keychain_error rate_limited replayed forbidden : Response

-- The clock at the three places where a request reads it.
pub record Clock : Type 0 where
  pub validated : ℕ
  pub limited : ℕ
  pub nonced : ℕ

pub data Read : Type 0 where
  read : Bytes → Read
  refused : Response → Read

unfoldable pub read_body : Body → Read
read_body absent = read []
read_body broken = refused unauthorized
read_body (stream b) = if ltb max_agent_body_bytes (length b) then refused too_large else read b

-- What steps 1 to 5 find: the key, the body and its hash.
pub data Verdict : Type 0 where
  rejected : Response → Verdict
  verified : ApiKey → Bytes → Bytes → Verdict

abbrev pub secret_error : KeyError → Response
secret_error keychain_unavailable = keychain_error
secret_error _ = unauthorized

-- Steps 4 and 5: the signature of a request whose body was read.
unfoldable pub check_signature : Externals → Secret → Request → ApiKey → Bytes → Verdict
check_signature ext found r key body = elim found [
  | no_secret e ↦ rejected (secret_error e)
  | secret s ↦
      let body_hash = ext.sha256_hex body in
      let signed = build_signed_string r.method r.path r.timestamp body_hash in
      if is_empty r.signature || not (secure_equal (ext.hmac_hex s signed) r.signature)
      then rejected unauthorized
      else verified key body body_hash
]

-- Step 6.
unfoldable pub in_scope : ApiKey → Request → Bool
in_scope key r =
    (if is_empty key.project
      then true
      else not (is_empty r.url_project) && bytes_eq r.url_project key.project)
    && (if is_empty key.path_prefix then true else starts_with r.path key.path_prefix)

-- What the requests share: the limiters and the nonces.
pub record Guard (Limiters Nonces : Type 0) : Type 0 where
  pub limiters : Limiters
  pub nonces : Nonces

abbrev pub nonce_of : Request → Bytes → NonceKey
nonce_of r body_hash = record { key_id = r.key_id; timestamp = r.timestamp; body_hash = body_hash }

module _ (rate : RateLib) (buckets : Lru Bytes rate.Limiter bytes_discrete)
    (lru : Lru NonceKey NonceEntry nonce_key_discrete) where
  abbrev pub Shared : Type 0
  Shared = Guard buckets.Cache lru.Cache

  -- Steps 5b, 5c and 6.
  unfoldable pub admit : Clock → Request → Shared → ApiKey → Bytes → Bytes → Shared × Response
  admit clock r g key body body_hash =
      let (limiters', allowed) = allow rate buckets g.limiters clock.limited r.key_id in
      let g1 : Shared = record g { limiters = limiters' } in
      let (nonces', fresh) = check_and_record lru g.nonces clock.nonced (nonce_of r body_hash) in
      let g2 : Shared = record g1 { nonces = nonces' } in
      if allowed
      then (if fresh
          then (if in_scope key r then (g2, served body) else (g2, forbidden))
          else (g2, replayed))
      else (g1, rate_limited)

module _ (st : SecretStore) (legacy : Bool) (json : Json) (ext : Externals) where
  -- Steps 1 to 5, which change nothing.
  unfoldable pub authenticate : World st → ℕ → Request → Verdict
  authenticate w now r =
      if is_empty r.key_id
      then rejected unauthorized
      else (elim (lookup_key st legacy json w r.key_id) [
        | none ↦ rejected unauthorized
        | some key ↦
            if key.revoked
            then rejected unauthorized
            else (elim (validate_timestamp ext now r.timestamp) [
              | some _ ↦ rejected unauthorized
              | none ↦ elim (read_body r.body) [
                | refused resp ↦ rejected resp
                | read body ↦ check_signature ext (get_secret st legacy json w r.key_id) r key body
              ]
            ])
      ])

  module _ (rate : RateLib) (buckets : Lru Bytes rate.Limiter bytes_discrete)
      (lru : Lru NonceKey NonceEntry nonce_key_discrete) where
    unfoldable pub serve :
        World st → Clock → Request → Shared rate buckets lru → Shared rate buckets lru × Response
    serve w clock r g = elim (authenticate w clock.validated r) [
      | rejected resp ↦ (g, resp)
      | verified key body body_hash ↦ admit rate buckets lru clock r g key body body_hash
    ]

    -- Requests one after another; the two mutexes make each call of the caches atomic.
    unfoldable pub serve_each :
        World st → List (Clock × Request) → Shared rate buckets lru → Shared rate buckets lru
    unfolding serve
    serve_each w [] g = g
    serve_each w ((clock, r) ∷ rest) g = serve_each w rest (serve w clock r g).0
