-- ===== src/AgentAuth/RateLimit/Quota.antt =====
-- A key spends its own tokens only.
use vedox.Base.{
  ℕ, suc, ◌+◌, ◌≤◌, ◌<◌, ◌≡◌, sym, ◌∙◌, ite, if_pos, if_neg, inl, inr, Bytes, bytes_discrete, some,
  Option-cases, List, [], ◌∷◌, arith, length, Among-take_le, Among-of-take,
}
use vedox.AgentAuth.Lru.{Lru, Recent, Recent-add_self, Recent-add_ne}
use vedox.AgentAuth.RateLimit.{RateLib, allow, allow_all}

module _ (rate : RateLib) (lru : Lru Bytes rate.Limiter bytes_discrete) where
  open rate use {Limiter, new_limiter, allow_now}
  open lru use {Cache, size, new, peek, add, keys, size_pos, peek-add_self, peek-add_kept}

  -- The bucket of `key_id`, which is one of the `n` keys that asked last.
  pub record Bucket (n : ℕ) (key_id : Bytes) (l : Limiter) (cache : Cache) : Type 0 where
    pub entry : peek cache key_id ≡ some l
    pub recent : Recent lru n key_id cache

  -- What one token bucket does at the instants at which `key_id` asks.
  pub own_calls : Bytes → Limiter → List (ℕ × Bytes) → Limiter
  own_calls key_id l [] = l
  own_calls key_id l ((now, other) ∷ calls) =
      own_calls key_id (ite (bytes_discrete key_id other) (allow_now l now).0 l) calls

  allow_known :
      (cache : Cache) (now : ℕ) (key_id : Bytes) (l : Limiter)
      → peek cache key_id ≡ some l
      → allow rate lru cache now key_id
        ≡ (add cache key_id (allow_now l now).0, (allow_now l now).1)
  unfolding allow
  allow_known cache now key_id l h = rw (h, allow)

  allow_adds :
      (cache : Cache) (now : ℕ) (key_id : Bytes)
      → (l : Limiter) × ((allow rate lru cache now key_id).0 ≡ add cache key_id l)
  unfolding allow
  allow_adds cache now key_id = elim (Option-cases (peek cache key_id)) [
    | inl e ↦ ((allow_now new_limiter now).0, rw (e, allow))
    | inr (l, e) ↦ ((allow_now l now).0, rw (e, allow))
  ]

  add-Bucket :
      (cache : Cache) (key_id : Bytes) (l : Limiter) → Bucket 1 key_id l (add cache key_id l)
  add-Bucket cache key_id l = record {
    entry = peek-add_self cache key_id l;
    recent = Recent-add_self lru cache key_id l;
  }

  Bucket-le :
      (m n : ℕ) (key_id : Bytes) (l : Limiter) (cache : Cache)
      → m ≤ n
      → Bucket m key_id l cache
      → Bucket n key_id l cache
  Bucket-le m n key_id l cache h b = record {
    entry = b.entry;
    recent = Among-take_le key_id m n (keys cache) h b.recent;
  }

  allow-Bucket :
      (n : ℕ) (cache : Cache) (key_id other : Bytes) (l : Limiter) (now : ℕ)
      → n < size
      → Bucket n key_id l cache
      → Bucket
          (suc n)
          key_id
          (ite (bytes_discrete key_id other) (allow_now l now).0 l)
          (allow rate lru cache now other).0
  allow-Bucket n cache key_id other l now room b = elim (bytes_discrete key_id other) [
    | yes p ↦
        rw (if_pos _ p, ← p, allow_known cache now key_id l b.entry)
          (Bucket-le 1 (suc n) key_id (allow_now l now).0 (add cache key_id (allow_now l now).0)
            (omega arith) (add-Bucket cache key_id (allow_now l now).0))
    | no p ↦
        let (l', e) = allow_adds cache now other in
        let recent = Recent-add_ne lru n cache other key_id l' p room b.recent in
        rw (if_neg _ p, e)
          (record {
            entry =
                peek-add_kept cache other key_id l' (λ q. p (sym q))
                  (Among-of-take key_id (suc n) (keys (add cache other l')) recent)
                ∙ b.entry;
            recent = recent;
          })
  ]

  -- After fewer calls than the cache has room for, by any keys, the bucket of `key_id` has spent
  -- exactly what its own calls spent.
  pub quota_is_own :
      (calls : List (ℕ × Bytes)) (n : ℕ) (cache : Cache) (key_id : Bytes) (l : Limiter)
      → n + length calls ≤ size
      → Bucket n key_id l cache
      → Bucket (n + length calls) key_id (own_calls key_id l calls) (allow_all rate lru cache calls)
  unfolding allow_all own_calls
  quota_is_own [] n cache key_id l room b = let e : n + 0 ≡ n = omega arith in rw e b
  quota_is_own ((now, other) ∷ calls) n cache key_id l room b =
      let e : n + suc (length calls) ≡ suc n + length calls = omega arith in
      rw e (
        quota_is_own calls (suc n) (allow rate lru cache now other).0 key_id
          (ite (bytes_discrete key_id other) (allow_now l now).0 l) (omega arith)
          (allow-Bucket n cache key_id other l now (omega arith) b))
