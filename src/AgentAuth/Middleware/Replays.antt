-- ===== src/AgentAuth/Middleware/Replays.antt =====
-- A request that was served is not served again within the window of the nonce cache.
use vedox.Base.{
  suc, ◌+◌, ◌≤◌, ◌<◌, ◌≡◌, refl, ◌≢◌, ◌⊎◌, inl, inr, Bytes, bytes_discrete, Bool, true, List, [],
  ◌∷◌, arith, length, All, ℕ, ap,
}
use mathlib.Core.Path.{subst}
use vedox.Secrets.{SecretStore}
use vedox.AgentAuth.Lru.{Lru}
use vedox.AgentAuth.Nonce.{NonceKey, NonceEntry, nonce_key_discrete, nonce_ttl, check_and_record}
use vedox.AgentAuth.Nonce.Replay.{
  Holds, fresh-Holds, check-Holds, same-Holds, Holds-replay, Holds-expired,
}
use vedox.AgentAuth.RateLimit.{RateLib}
use vedox.AgentAuth.Signing.{Externals}
use vedox.AgentAuth.Signing.Injective.{IsCurrent}
use vedox.AgentAuth.KeyStore.{Json, World}
use vedox.AgentAuth.KeyStore.Order.{ApiKey}
use vedox.AgentAuth.Middleware.{
  Request, Response, served, Clock, read_body, authenticate, Shared, nonce_of, admit, serve,
  serve_each,
}
use vedox.AgentAuth.Middleware.Authentic.{Verdict-cases, authenticate_iff}
use vedox.AgentAuth.Middleware.Soundness.{is_allowed, served_iff}

module _ (st : SecretStore) (legacy : Bool) (json : Json) (ext : Externals) (rate : RateLib)
    (buckets : Lru Bytes rate.Limiter bytes_discrete)
    (lru : Lru NonceKey NonceEntry nonce_key_discrete) (w : World st) where
  abbrev run : Clock → Request → Shared rate buckets lru → Shared rate buckets lru × Response
  run = serve st legacy json ext rate buckets lru w

  abbrev run_all : List (Clock × Request) → Shared rate buckets lru → Shared rate buckets lru
  run_all = serve_each st legacy json ext rate buckets lru w

  admit-nonces :
      (clock : Clock) (r : Request) (g : Shared rate buckets lru) (key : ApiKey) (body hash : Bytes)
      → ((admit rate buckets lru clock r g key body hash).0.nonces ≡ g.nonces)
        ⊎ ((admit rate buckets lru clock r g key body hash).0.nonces
            ≡ (check_and_record lru g.nonces clock.nonced (nonce_of r hash)).0)
  unfolding admit
  admit-nonces clock r g key body hash = ground arith

  admit-served_nonces :
      (clock : Clock) (r : Request) (g : Shared rate buckets lru) (key : ApiKey)
      (body hash body' : Bytes)
      → (admit rate buckets lru clock r g key body hash).1 ≡ served body'
      → (admit rate buckets lru clock r g key body hash).0.nonces
        ≡ (check_and_record lru g.nonces clock.nonced (nonce_of r hash)).0
  unfolding admit
  admit-served_nonces clock r g key body hash body' h = ground arith

  -- A request makes one call of the nonce cache at most.
  serve-nonces :
      (clock : Clock) (r : Request) (g : Shared rate buckets lru)
      → ((run clock r g).0.nonces ≡ g.nonces)
        ⊎ ((hash : Bytes) × ((run clock r g).0.nonces
              ≡ (check_and_record lru g.nonces clock.nonced (nonce_of r hash)).0))
  unfolding serve
  serve-nonces clock r g =
      elim (Verdict-cases (authenticate st legacy json ext w clock.validated r)) [
        | inl (resp, e) ↦ rw (e, serve) (inl refl)
        | inr (key, body, hash, e) ↦ elim (admit-nonces clock r g key body hash) [
          | inl same ↦ inl (rw (e, serve) same)
          | inr called ↦ inr (hash, rw (e, serve) called)
        ]
      ]

  serve-Holds :
      (n : ℕ) (key : NonceKey) (t : ℕ) (clock : Clock) (r : Request) (g : Shared rate buckets lru)
      → n < lru.size
      → clock.nonced < t + nonce_ttl
      → Holds lru n key t g.nonces
      → Holds lru (suc n) key t (run clock r g).0.nonces
  serve-Holds n key t clock r g room young h = elim (serve-nonces clock r g) [
    | inl same ↦ rw same (same-Holds lru n g.nonces key t h)
    | inr (hash, called) ↦
        rw called (check-Holds lru n g.nonces key (nonce_of r hash) t clock.nonced room young h)
  ]

  serve_each-Holds :
      (requests : List (Clock × Request)) (n : ℕ) (key : NonceKey) (t : ℕ)
      (g : Shared rate buckets lru)
      → n + length requests ≤ lru.size
      → All (λ q. q.0.nonced < t + nonce_ttl) requests
      → Holds lru n key t g.nonces
      → Holds lru (n + length requests) key t (run_all requests g).nonces
  unfolding serve_each
  serve_each-Holds [] n key t g room young h = let e : n + 0 ≡ n = omega arith in rw e h
  serve_each-Holds ((clock, r) ∷ requests) n key t g room young h =
      let e : n + suc (length requests) ≡ suc n + length requests = omega arith in
      rw e (
        serve_each-Holds requests (suc n) key t (run clock r g).0 (omega arith) young.1
          (serve-Holds n key t clock r g (omega arith) young.0 h))

  served-Holds :
      (clock : Clock) (r : Request) (g : Shared rate buckets lru) (body : Bytes)
      → (run clock r g).1 ≡ served body
      → Holds lru 1 (nonce_of r (ext.sha256_hex body)) clock.nonced (run clock r g).0.nonces
  unfolding serve
  served-Holds clock r g body h =
      let a = (served_iff st legacy json ext rate buckets lru w clock r g body).0 h in
      let hash = ext.sha256_hex body in
      let e =
        (authenticate_iff st legacy json ext w clock.validated r a.key body hash).1
          (a.authentic, refl) in
      let called = admit-served_nonces clock r g a.key body hash body (rw (e, serve) at h) in
      rw (e, serve, called) (fresh-Holds lru g.nonces clock.nonced (nonce_of r hash) a.fresh)

  -- After a request was served, no request with the same key, timestamp and body is served while
  -- less than `nonceTTL` has passed between the two looks at the nonce cache, whatever fewer
  -- than `nonceMaxEntries` requests come between them.
  pub replay_is_not_served :
      (first again : Clock) (r r' : Request) (g : Shared rate buckets lru) (body body' : Bytes)
      (requests : List (Clock × Request))
      → (run first r g).1 ≡ served body
      → r'.key_id ≡ r.key_id
      → r'.timestamp ≡ r.timestamp
      → r'.body ≡ r.body
      → length requests < lru.size
      → All (λ q. q.0.nonced < first.nonced + nonce_ttl) requests
      → again.nonced < first.nonced + nonce_ttl
      → (run again r' (run_all requests (run first r g).0)).1 ≢ served body'
  replay_is_not_served first again r r' g body body' requests ok k t b room young late h =
      let key = nonce_of r (ext.sha256_hex body) in
      let g2 = run_all requests (run first r g).0 in
      let a = (served_iff st legacy json ext rate buckets lru w first r g body).0 ok in
      let a' = (served_iff st legacy json ext rate buckets lru w again r' g2 body').0 h in
      let same_body : body' ≡ body =
        cc (a.authentic.body_read, a'.authentic.body_read, ap read_body b) in
      let same_key : nonce_of r' (ext.sha256_hex body') ≡ key = cc (ap ext.sha256_hex same_body) in
      let held =
        serve_each-Holds requests 1 key first.nonced (run first r g).0 (omega arith) young
          (served-Holds first r g body ok) in
      let refused =
        Holds-replay lru (1 + length requests) g2.nonces key first.nonced again.nonced held late in
      let fresh =
        subst (λ x. (check_and_record lru g2.nonces again.nonced x).1 ≡ true) same_key a'.fresh in
      cc

  -- Once `nonceTTL` has passed the same request is served again, where its timestamp is still
  -- accepted: the window of the cache is no longer than that of the timestamps.
  replay_after_window_is_served :
      (first again : Clock) (r : Request) (g : Shared rate buckets lru) (body : Bytes)
      → (run first r g).1 ≡ served body
      → IsCurrent ext again.validated r.timestamp
      → first.nonced + nonce_ttl ≤ again.nonced
      → is_allowed st legacy json ext rate buckets lru again r (run first r g).0 ≡ true
      → (run again r (run first r g).0).1 ≡ served body
  replay_after_window_is_served first again r g body ok current late allowed =
      let a = (served_iff st legacy json ext rate buckets lru w first r g body).0 ok in
      let old = a.authentic in
      (served_iff st legacy json ext rate buckets lru w again r (run first r g).0 body).1 (record {
        key = a.key;
        authentic = record {
          names_key = old.names_key;
          known = old.known;
          active = old.active;
          current = current;
          body_read = old.body_read;
          shared_secret = old.shared_secret;
          held = old.held;
          names_signature = old.names_signature;
          signed = old.signed;
        };
        allowed = allowed;
        fresh =
            Holds-expired lru 1 (run first r g).0.nonces (nonce_of r (ext.sha256_hex body))
              first.nonced again.nonced (served-Holds first r g body ok) late;
        scoped = a.scoped;
      })
