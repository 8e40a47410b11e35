-- ===== src/AgentAuth/Lru.antt =====
-- The cache of github.com/hashicorp/golang-lru/v2, which nonce.go and ratelimit.go call: a
-- parameter with the laws that its documentation states, and a list that satisfies them.
use vedox.Base.{
  ℕ, zero, suc, ◌<◌, ◌≡◌, refl, ap, ◌≢◌, ◌⊎◌, inl, inr, ite, Option, none, some, List, [], ◌∷◌,
  arith, take, without, Among, Among-take-without, take-take,
}
use vedox.Base.Dict.{Dict}

pub record Lru (K V : Type 0) (dec : Discrete K) : Type 1 where
  pub Cache : Type 0
  -- `lru.New(size)`, which fails for no positive size.
  pub size : ℕ
  pub new : Cache
  -- `Peek` reads without a change of the order; `Add` moves its key to the front.
  pub peek : Cache → K → Option V
  pub add : Cache → K → V → Cache
  -- The keys, the most recently used first.
  pub keys : Cache → List K
  pub size_pos : 0 < size
  pub peek-new : (k : K) → peek new k ≡ none
  pub peek-add_self : (c : Cache) (k : K) (v : V) → peek (add c k v) k ≡ some v
  -- What an `Add` does to another key is to keep it or to evict it.
  pub peek-add_ne :
      (c : Cache) (k j : K) (v : V)
      → k ≢ j
      → (peek (add c k v) j ≡ peek c j) ⊎ (peek (add c k v) j ≡ none)
  -- An entry is evicted only from the far end of a full cache.
  pub peek-add_kept :
      (c : Cache) (k j : K) (v : V)
      → k ≢ j
      → Among j (keys (add c k v))
      → peek (add c k v) j ≡ peek c j
  pub keys-add :
      (c : Cache) (k : K) (v : V) → keys (add c k v) ≡ take size (k ∷ without dec k (keys c))

module _ {K V : Type 0} {dec : Discrete K} (l : Lru K V dec) where
  open l use {Cache, size, size_pos, add, keys, keys-add}

  -- `k` is one of the `n` keys that were used last.
  abbrev pub Recent : ℕ → K → Cache → Type 0
  Recent n k c = Among k (take n (keys c))

  -- The key of an `Add` is the most recent one.
  pub Recent-add_self : (c : Cache) (k : K) (v : V) → Recent 1 k (add c k v)
  Recent-add_self c k v =
      rw (keys-add c k v, take-take 1 size (k ∷ without dec k (keys c)) size_pos) (inl refl)

  -- Another key falls behind by at most one place.
  pub Recent-add_ne :
      (n : ℕ) (c : Cache) (k j : K) (v : V)
      → j ≢ k
      → n < size
      → Recent n j c
      → Recent (suc n) j (add c k v)
  Recent-add_ne n c k j v ne h r =
      rw (keys-add c k v, take-take (suc n) size (k ∷ without dec k (keys c)) h)
        (inr (Among-take-without dec j k n (keys c) ne r))

-- A list of entries, cut to the size after each `Add`.
module _ {K V : Type 0} (dec : Discrete K) where
  unfoldable pub peek_list : Dict K V → K → Option V
  peek_list [] k = none
  peek_list ((j, v) ∷ c) k = ite (dec j k) (some v) (peek_list c k)

  unfoldable pub drop_key : K → Dict K V → Dict K V
  drop_key k [] = []
  drop_key k ((j, v) ∷ c) = let rest = drop_key k c in ite (dec j k) rest ((j, v) ∷ rest)

  abbrev pub keys_list : Dict K V → List K
  keys_list [] = []
  keys_list ((j, v) ∷ c) = j ∷ keys_list c

  pub peek_list-take :
      (n : ℕ) (c : Dict K V) (k : K)
      → (peek_list (take n c) k ≡ peek_list c k) ⊎ (peek_list (take n c) k ≡ none)
  unfolding peek_list
  peek_list-take zero c k = inr refl
  peek_list-take (suc n) [] k = inl refl
  peek_list-take (suc n) ((j, v) ∷ c) k = ground (arith, peek_list-take n c k)

  pub peek_list-take_kept :
      (n : ℕ) (c : Dict K V) (k : K)
      → Among k (keys_list (take n c))
      → peek_list (take n c) k ≡ peek_list c k
  unfolding peek_list
  peek_list-take_kept zero c k h = absurd h
  peek_list-take_kept (suc n) [] k h = absurd h
  peek_list-take_kept (suc n) ((j, v) ∷ c) k h = ground (arith, peek_list-take_kept n c k)

  pub peek_list-drop_key :
      (c : Dict K V) (k j : K) → k ≢ j → peek_list (drop_key k c) j ≡ peek_list c j
  unfolding peek_list drop_key
  peek_list-drop_key [] k j h = refl
  peek_list-drop_key ((i, v) ∷ c) k j h = ground (arith, peek_list-drop_key c k j)

  pub keys_list-take : (n : ℕ) (c : Dict K V) → keys_list (take n c) ≡ take n (keys_list c)
  keys_list-take zero c = refl
  keys_list-take (suc n) [] = refl
  keys_list-take (suc n) ((j, v) ∷ c) = ap (◌∷◌ j) (keys_list-take n c)

  pub keys_list-drop_key :
      (k : K) (c : Dict K V) → keys_list (drop_key k c) ≡ without dec k (keys_list c)
  unfolding drop_key
  keys_list-drop_key k [] = refl
  keys_list-drop_key k ((j, v) ∷ c) = ground (arith, keys_list-drop_key k c)

  abbrev pub add_list : ℕ → Dict K V → K → V → Dict K V
  add_list n c k v = take n ((k, v) ∷ drop_key k c)

  pub peek-new_list : (k : K) → peek_list [] k ≡ none
  unfolding peek_list
  peek-new_list k = refl

  pub peek-add_self_list :
      (n : ℕ) (c : Dict K V) (k : K) (v : V) → peek_list (add_list (suc n) c k v) k ≡ some v
  unfolding peek_list
  peek-add_self_list n c k v = ground arith

  pub peek-add_ne_list :
      (n : ℕ) (c : Dict K V) (k j : K) (v : V)
      → k ≢ j
      → (peek_list (add_list (suc n) c k v) j ≡ peek_list c j)
        ⊎ (peek_list (add_list (suc n) c k v) j ≡ none)
  unfolding peek_list
  peek-add_ne_list n c k j v h =
      ground (arith, peek_list-take n (drop_key k c) j, peek_list-drop_key c k j)

  pub peek-add_kept_list :
      (n : ℕ) (c : Dict K V) (k j : K) (v : V)
      → k ≢ j
      → Among j (keys_list (add_list (suc n) c k v))
      → peek_list (add_list (suc n) c k v) j ≡ peek_list c j
  unfolding peek_list
  peek-add_kept_list n c k j v h a =
      ground (arith, peek_list-take_kept n (drop_key k c) j, peek_list-drop_key c k j)

  pub keys-add_list :
      (n : ℕ) (c : Dict K V) (k : K) (v : V)
      → keys_list (add_list (suc n) c k v) ≡ take (suc n) (k ∷ without dec k (keys_list c))
  keys-add_list n c k v = rw (keys_list-take n (drop_key k c), keys_list-drop_key k c)

  -- The documented laws can be met.
  abbrev pub list_lru : ℕ → Lru K V dec
  list_lru n = record {
    Cache = Dict K V;
    size = suc n;
    new = [];
    peek = peek_list;
    add = add_list (suc n);
    keys = keys_list;
    size_pos = omega arith;
    peek-new = peek-new_list;
    peek-add_self = peek-add_self_list n;
    peek-add_ne = peek-add_ne_list n;
    peek-add_kept = peek-add_kept_list n;
    keys-add = keys-add_list n;
  }
