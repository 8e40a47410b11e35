-- ===== src/AgentAuth/Middleware/Soundness.antt =====
-- Who is let through, what the others are told, and what a refused request leaves behind.
use vedox.Base.{◌≡◌, ◌≢◌, ◌↔◌, ◌∙◌, ap, inl, inr, Bytes, bytes_discrete, Bool, true, arith}
use mathlib.Core.Path.{subst}
use vedox.Secrets.{SecretStore}
use vedox.AgentAuth.Lru.{Lru}
use vedox.AgentAuth.Nonce.{NonceKey, NonceEntry, nonce_key_discrete, check_and_record}
use vedox.AgentAuth.RateLimit.{RateLib, allow}
use vedox.AgentAuth.Signing.{Externals}
use vedox.AgentAuth.KeyStore.{Json, World, keychain_unavailable, no_secret, get_secret}
use vedox.AgentAuth.KeyStore.Order.{ApiKey}
use vedox.AgentAuth.Middleware.Scope.{IsInScope, in_scope→IsInScope, IsInScope→in_scope}
use vedox.AgentAuth.Middleware.{
  Request, Response, served, Clock, refused, read_body, rejected, unauthorized, too_large, in_scope,
  authenticate, Shared, nonce_of, admit, serve,
}
use vedox.AgentAuth.Middleware.Authentic.{
  Verdict-cases, IsAuthentic, authenticate_iff, authenticate_complete, authenticate-not_served,
  authenticate-rejected,
}

module _ (st : SecretStore) (legacy : Bool) (json : Json) (ext : Externals) where
  module _ (rate : RateLib) (buckets : Lru Bytes rate.Limiter bytes_discrete)
      (lru : Lru NonceKey NonceEntry nonce_key_discrete) where
    -- The verdicts of the two caches on a request.
    abbrev pub is_allowed : Clock → Request → Shared rate buckets lru → Bool
    is_allowed clock r g = (allow rate buckets g.limiters clock.limited r.key_id).1

    abbrev pub is_fresh : Clock → Request → Bytes → Shared rate buckets lru → Bool
    is_fresh clock r body g =
        (check_and_record lru g.nonces clock.nonced (nonce_of r (ext.sha256_hex body))).1

    abbrev run :
        World st → Clock → Request → Shared rate buckets lru → Shared rate buckets lru × Response
    run = serve st legacy json ext rate buckets lru

    -- Why the inner handler was called.
    pub record IsAdmitted (w : World st) (clock : Clock) (r : Request) (g : Shared rate buckets lru)
        (body : Bytes) : Type 0 where
      pub key : ApiKey
      pub authentic : IsAuthentic st legacy json ext w clock.validated r key body
      pub allowed : is_allowed clock r g ≡ true
      pub fresh : is_fresh clock r body g ≡ true
      pub scoped : IsInScope key r

    admit-served :
        (clock : Clock) (r : Request) (g : Shared rate buckets lru) (key : ApiKey)
        (body hash body' : Bytes)
        → (admit rate buckets lru clock r g key body hash).1 ≡ served body'
        → (body ≡ body')
          × (is_allowed clock r g ≡ true)
          × ((check_and_record lru g.nonces clock.nonced (nonce_of r hash)).1 ≡ true)
          × (in_scope key r ≡ true)
    unfolding admit
    admit-served clock r g key body hash body' h = ground arith

    served-IsAdmitted :
        (w : World st) (clock : Clock) (r : Request) (g : Shared rate buckets lru) (body : Bytes)
        → (run w clock r g).1 ≡ served body
        → IsAdmitted w clock r g body
    unfolding serve
    served-IsAdmitted w clock r g body h =
        elim (Verdict-cases (authenticate st legacy json ext w clock.validated r)) [
          | inl (resp, e) ↦ absurd (
              authenticate-not_served st legacy json ext w clock.validated r body
                (e ∙ ap rejected (ground (arith, e))))
          | inr (key, body', hash, e) ↦
              let (a, same) =
                (authenticate_iff st legacy json ext w clock.validated r key body' hash).0 e in
              let (b, ok, new, scoped) =
                admit-served clock r g key body' hash body (rw (e, serve) at h) in
              record {
                key = key;
                authentic = subst (IsAuthentic st legacy json ext w clock.validated r key) b a;
                allowed = ok;
                fresh =
                    subst
                      (λ x. (check_and_record lru g.nonces clock.nonced (nonce_of r x)).1 ≡ true)
                      (same ∙ ap ext.sha256_hex b) new;
                scoped = in_scope→IsInScope key r scoped;
              }
        ]

    IsAdmitted-served :
        (w : World st) (clock : Clock) (r : Request) (g : Shared rate buckets lru) (body : Bytes)
        → IsAdmitted w clock r g body
        → (run w clock r g).1 ≡ served body
    unfolding serve admit
    IsAdmitted-served w clock r g body a =
        let e =
          authenticate_complete st legacy json ext w clock.validated r a.key body a.authentic in
        let scoped = IsInScope→in_scope a.key r a.scoped in
        ground (arith, e, a.allowed, a.fresh, scoped)

    pub served_iff :
        (w : World st) (clock : Clock) (r : Request) (g : Shared rate buckets lru) (body : Bytes)
        → ((run w clock r g).1 ≡ served body) ↔ IsAdmitted w clock r g body
    served_iff w clock r g body =
        (served-IsAdmitted w clock r g body, IsAdmitted-served w clock r g body)

    -- Where the body fits and the secret backend answers, a request that is not authentic gets the
    -- generic 401, whatever check failed.
    inauthentic_request_is_refused :
        (w : World st) (clock : Clock) (r : Request) (g : Shared rate buckets lru)
        → ((key : ApiKey) (body : Bytes)
            → ¬ IsAuthentic st legacy json ext w clock.validated r key body)
        → read_body r.body ≢ refused too_large
        → get_secret st legacy json w r.key_id ≢ no_secret keychain_unavailable
        → (run w clock r g).1 ≡ unauthorized
    unfolding serve
    inauthentic_request_is_refused w clock r g none_fits small reached =
        elim (Verdict-cases (authenticate st legacy json ext w clock.validated r)) [
          | inl (resp, e) ↦
              rw (e, serve)
                (authenticate-rejected st legacy json ext w clock.validated r resp small reached e)
          | inr (key, body, hash, e) ↦ absurd (
              none_fits key body
                ((authenticate_iff st legacy json ext w clock.validated r key body hash).0 e).0)
        ]
