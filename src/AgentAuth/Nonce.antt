-- ===== src/AgentAuth/Nonce.antt =====
-- nonce.go: the cache of requests that were seen, by which a replay is detected.
pub mod Replay
use vedox.Base.{
  ℕ, ◌+◌, ◌*◌, Bytes, bytes_discrete, Bool, true, false, ltb, if◌then◌else◌, none, some, List, [],
  ◌∷◌,
}
use vedox.AgentAuth.Lru.{Lru}

-- Instants and durations are counts of nanoseconds.
abbrev pub minute : ℕ
minute = 60 * 1_000_000_000

abbrev pub nonce_ttl : ℕ
nonce_ttl = 10 * minute

pub record NonceKey : Type 0 where
  pub key_id : Bytes
  pub timestamp : Bytes
  pub body_hash : Bytes

unfoldable pub nonce_key_discrete : Discrete NonceKey
nonce_key_discrete = hlevel bytes_discrete

pub record NonceEntry : Type 0 where
  pub seen_at : ℕ

module _ (lru : Lru NonceKey NonceEntry nonce_key_discrete) where
  open lru use {Cache, peek, add}

  -- `now.Sub(entry.seenAt) < nonceTTL`, also where the clock has gone back.
  unfoldable pub check_and_record : Cache → ℕ → NonceKey → Cache × Bool
  check_and_record cache now key =
      let recorded = add cache key (record { seen_at = now }) in
      elim (peek cache key) [
        | some entry ↦
            if ltb now (entry.seen_at + nonce_ttl) then (cache, false) else (recorded, true)
        | none ↦ (recorded, true)
      ]

  -- A sequence of calls, each at its own instant, under the mutex: they do not overlap.
  unfoldable pub check_all : Cache → List (ℕ × NonceKey) → Cache
  unfolding check_and_record
  check_all cache [] = cache
  check_all cache ((now, key) ∷ calls) = check_all (check_and_record cache now key).0 calls
