-- ===== src/AgentAuth/RateLimit.antt =====
-- ratelimit.go: one token bucket for each API key, in a bounded cache.
pub mod Quota
use vedox.Base.{ℕ, Bytes, bytes_discrete, Bool, none, some, List, [], ◌∷◌}
use vedox.AgentAuth.Lru.{Lru}

-- golang.org/x/time/rate: `NewLimiter(100, 200)`, and `Allow` at an instant.
pub record RateLib : Type 1 where
  pub Limiter : Type 0
  pub new_limiter : Limiter
  pub allow_now : Limiter → ℕ → Limiter × Bool

module _ (rate : RateLib) (lru : Lru Bytes rate.Limiter bytes_discrete) where
  open rate use {Limiter, new_limiter, allow_now}
  open lru use {Cache, peek, add}

  -- `Get` moves the key to the front, and `l.Allow()` changes the limiter that the cache holds by
  -- its pointer: together, an `Add` of the changed limiter.
  unfoldable pub allow : Cache → ℕ → Bytes → Cache × Bool
  allow cache now key_id = elim (peek cache key_id) [
    | some l ↦ let (l', ok) = allow_now l now in (add cache key_id l', ok)
    | none ↦ let (l', ok) = allow_now new_limiter now in (add cache key_id l', ok)
  ]

  unfoldable pub allow_all : Cache → List (ℕ × Bytes) → Cache
  unfolding allow
  allow_all cache [] = cache
  allow_all cache ((now, key_id) ∷ calls) = allow_all (allow cache now key_id).0 calls
