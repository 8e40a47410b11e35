-- ===== src/AgentAuth/Nonce/Replay.antt =====
-- What the nonce cache promises: no replay within the window, and no false alarm.
use vedox.Base.{
  ℕ, suc, ◌+◌, ◌≤◌, ◌<◌, ◌≡◌, ◌≢◌, ◌⊎◌, inl, inr, true, false, some, Option-cases, List, [], ◌∷◌,
  arith, length, All, Among, Among-take_le, Among-of-take, sym, ap, ◌∙◌,
}
use vedox.AgentAuth.Lru.{Lru, Recent, Recent-add_self, Recent-add_ne}
use vedox.AgentAuth.Nonce.{
  NonceKey, NonceEntry, nonce_key_discrete, nonce_ttl, check_and_record, check_all,
}

module _ (lru : Lru NonceKey NonceEntry nonce_key_discrete) where
  open lru use {
    Cache, size, new, peek, add, keys, size_pos, peek-new, peek-add_self, peek-add_ne,
    peek-add_kept,
  }

  -- The entry of `key` was made at `t`, and is one of the `n` most recent ones.
  pub record Holds (n : ℕ) (key : NonceKey) (t : ℕ) (cache : Cache) : Type 0 where
    pub entry : peek cache key ≡ some (record { seen_at = t })
    pub recent : Recent lru n key cache

  -- A call that answers "fresh" leaves the entry of its key.
  pub fresh-Holds :
      (cache : Cache) (now : ℕ) (key : NonceKey)
      → (check_and_record lru cache now key).1 ≡ true
      → Holds 1 key now (check_and_record lru cache now key).0
  unfolding check_and_record
  fresh-Holds cache now key h = ground (
    arith,
    peek-add_self cache key (record { seen_at = now }),
    Recent-add_self lru cache key (record { seen_at = now }),
  )

  add-Holds :
      (n : ℕ) (cache : Cache) (key other : NonceKey) (t now : ℕ)
      → key ≢ other
      → n < size
      → Holds n key t cache
      → Holds (suc n) key t (add cache other (record { seen_at = now }))
  add-Holds n cache key other t now ne room h =
      let e : NonceEntry = record { seen_at = now } in
      let recent = Recent-add_ne lru n cache other key e ne room h.recent in
      record {
        entry =
            peek-add_kept cache other key e (λ p. ne (sym p))
              (Among-of-take key (suc n) (keys (add cache other e)) recent)
            ∙ h.entry;
        recent = recent;
      }

  pub same-Holds :
      (n : ℕ) (cache : Cache) (key : NonceKey) (t : ℕ)
      → Holds n key t cache
      → Holds (suc n) key t cache
  same-Holds n cache key t h = record {
    entry = h.entry;
    recent = Among-take_le key n (suc n) (keys cache) (omega arith) h.recent;
  }

  -- A held key is refused until its entry is as old as the window.
  pub Holds-replay :
      (n : ℕ) (cache : Cache) (key : NonceKey) (t now : ℕ)
      → Holds n key t cache
      → now < t + nonce_ttl
      → check_and_record lru cache now key ≡ (cache, false)
  unfolding check_and_record
  Holds-replay n cache key t now h young = ground (arith, h.entry)

  pub Holds-expired :
      (n : ℕ) (cache : Cache) (key : NonceKey) (t now : ℕ)
      → Holds n key t cache
      → t + nonce_ttl ≤ now
      → (check_and_record lru cache now key).1 ≡ true
  unfolding check_and_record
  Holds-expired n cache key t now h old = ground (arith, h.entry)

  check_cases :
      (cache : Cache) (now : ℕ) (key : NonceKey)
      → ((check_and_record lru cache now key).0 ≡ cache)
        ⊎ ((check_and_record lru cache now key).0 ≡ add cache key (record { seen_at = now }))
  unfolding check_and_record
  check_cases cache now key = ground arith

  -- One more call, of any request, while the entry is young.
  pub check-Holds :
      (n : ℕ) (cache : Cache) (key other : NonceKey) (t now : ℕ)
      → n < size
      → now < t + nonce_ttl
      → Holds n key t cache
      → Holds (suc n) key t (check_and_record lru cache now other).0
  check-Holds n cache key other t now room young h = elim (nonce_key_discrete key other) [
    | yes p ↦ rw (← p, Holds-replay n cache key t now h young) (same-Holds n cache key t h)
    | no p ↦ elim (check_cases cache now other) [
      | inl e ↦ rw e (same-Holds n cache key t h)
      | inr e ↦ rw e (add-Holds n cache key other t now p room h)
    ]
  ]

  check_all-Holds :
      (calls : List (ℕ × NonceKey)) (n : ℕ) (cache : Cache) (key : NonceKey) (t : ℕ)
      → n + length calls ≤ size
      → All (λ call. call.0 < t + nonce_ttl) calls
      → Holds n key t cache
      → Holds (n + length calls) key t (check_all lru cache calls)
  unfolding check_all
  check_all-Holds [] n cache key t room young h = let e : n + 0 ≡ n = omega arith in rw e h
  check_all-Holds ((now, other) ∷ calls) n cache key t room young h =
      let e : n + suc (length calls) ≡ suc n + length calls = omega arith in
      rw e (
        check_all-Holds calls (suc n) (check_and_record lru cache now other).0 key t (omega arith)
          young.1 (check-Holds n cache key other t now (omega arith) young.0 h))

  -- A tuple that was found fresh at `t` is refused until `t + nonceTTL`, after fewer calls than
  -- the cache has room for, whatever they ask.
  replay_refused :
      (cache : Cache) (t : ℕ) (key : NonceKey) (calls : List (ℕ × NonceKey)) (now : ℕ)
      → (check_and_record lru cache t key).1 ≡ true
      → length calls < size
      → All (λ call. call.0 < t + nonce_ttl) calls
      → now < t + nonce_ttl
      → (check_and_record lru (check_all lru (check_and_record lru cache t key).0 calls) now key).1
        ≡ false
  replay_refused cache t key calls now fresh room young late =
      let h =
        check_all-Holds calls 1 (check_and_record lru cache t key).0 key t (omega arith) young
          (fresh-Holds cache t key fresh) in
      ap (λ r. r.1)
        (Holds-replay (1 + length calls) (check_all lru (check_and_record lru cache t key).0 calls)
          key t now h late)

  -- Every entry of the cache was put there by one of the calls `seen`.
  abbrev pub IsTraced : List (ℕ × NonceKey) → Cache → Type 0
  IsTraced seen cache =
      (key : NonceKey) (entry : NonceEntry)
      → peek cache key ≡ some entry
      → Among (entry.seen_at, key) seen

  new-IsTraced : IsTraced [] new
  new-IsTraced key entry h = let e = peek-new key in cc

  check-IsTraced :
      (seen : List (ℕ × NonceKey)) (cache : Cache) (now : ℕ) (other : NonceKey)
      → IsTraced seen cache
      → IsTraced ((now, other) ∷ seen) (check_and_record lru cache now other).0
  check-IsTraced seen cache now other traced key entry h = elim (check_cases cache now other) [
    | inl e ↦ inr (traced key entry (rw e at h))
    | inr e ↦
        let new_entry : NonceEntry = record { seen_at = now } in
        let h' : peek (add cache other new_entry) key ≡ some entry = rw e at h in
        elim (nonce_key_discrete other key) [
          | yes p ↦ let self = peek-add_self cache other new_entry in inl (ground (arith, self, h'))
          | no p ↦ elim (peek-add_ne cache other key new_entry p) [
            | inl same ↦ inr (traced key entry (sym same ∙ h'))
            | inr gone ↦ cc
          ]
        ]
  ]

  -- The calls that were made, the latest first.
  abbrev pub seen_after : List (ℕ × NonceKey) → List (ℕ × NonceKey) → List (ℕ × NonceKey)
  seen_after seen [] = seen
  seen_after seen (call ∷ calls) = seen_after (call ∷ seen) calls

  check_all-IsTraced :
      (calls seen : List (ℕ × NonceKey)) (cache : Cache)
      → IsTraced seen cache
      → IsTraced (seen_after seen calls) (check_all lru cache calls)
  unfolding check_all
  check_all-IsTraced [] seen cache h = h
  check_all-IsTraced ((now, key) ∷ calls) seen cache h =
      check_all-IsTraced calls ((now, key) ∷ seen) (check_and_record lru cache now key).0
        (check-IsTraced seen cache now key h)

  refused_entry :
      (cache : Cache) (now : ℕ) (key : NonceKey)
      → (check_and_record lru cache now key).1 ≡ false
      → (t : ℕ) × (peek cache key ≡ some (record { seen_at = t })) × (now < t + nonce_ttl)
  unfolding check_and_record
  refused_entry cache now key h = elim (Option-cases (peek cache key)) [
    | inl e ↦ absurd (ground (arith, e))
    | inr (entry, e) ↦ (entry.seen_at, e, ground (arith, e))
  ]

  -- No false alarm: a request is refused only if the same tuple was asked about less than
  -- `nonceTTL` before, by one of the calls made since the cache was empty.
  refused_was_seen :
      (calls : List (ℕ × NonceKey)) (now : ℕ) (key : NonceKey)
      → (check_and_record lru (check_all lru new calls) now key).1 ≡ false
      → (t : ℕ) × Among (t, key) (seen_after [] calls) × (now < t + nonce_ttl)
  refused_was_seen calls now key h =
      let (t, e, young) = refused_entry (check_all lru new calls) now key h in
      (t, check_all-IsTraced calls [] new new-IsTraced key (record { seen_at = t }) e, young)
