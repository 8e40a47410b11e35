-- ===== src/AgentAuth/KeyStore/Order/Sorted.antt =====
-- The insertion sort returns the keys in the order of their creation, none lost and none added.
use vedox.Base.{ℕ, ◌≤◌, List, [], ◌∷◌, ◌++◌, arith, ltb, Bool-cases, inl, inr, All, All-append}
use mathlib.Core.List.{reverse, Perm, reverse-append, append-nil, perm_middle, reverse_perm}
use mathlib.Core.List.Perm
use vedox.AgentAuth.KeyStore.Order.{ApiKey, sink, sort_from, sort_by_created}

-- Each key is no later than all keys behind it.
abbrev pub Ascending : List ApiKey → Type 0
Ascending [] = Unit
Ascending (x ∷ xs) = All (λ y. x.created_at ≤ y.created_at) xs × Ascending xs

abbrev Descending : List ApiKey → Type 0
Descending [] = Unit
Descending (x ∷ xs) = All (λ y. y.created_at ≤ x.created_at) xs × Descending xs

All-sink :
    (n : ℕ) (x : ApiKey) (xs : List ApiKey)
    → x.created_at ≤ n
    → All (λ y. y.created_at ≤ n) xs
    → All (λ y. y.created_at ≤ n) (sink x xs)
unfolding sink
All-sink n x [] h a = (h, tt)
All-sink n x (p ∷ xs) h a = ground (arith, All-sink n x xs h a.1)

All-le :
    (m n : ℕ) (xs : List ApiKey)
    → m ≤ n
    → All (λ y. y.created_at ≤ m) xs
    → All (λ y. y.created_at ≤ n) xs
All-le m n [] h a = tt
All-le m n (x ∷ xs) h a = (omega arith, All-le m n xs h a.1)

sink-Descending : (x : ApiKey) (xs : List ApiKey) → Descending xs → Descending (sink x xs)
unfolding sink
sink-Descending x [] d = (tt, tt)
sink-Descending x (p ∷ xs) d = elim (Bool-cases (ltb x.created_at p.created_at)) [
  | inl lt ↦ rw lt (All-sink p.created_at x xs (ground arith) d.0, sink-Descending x xs d.1)
  | inr ge ↦
      let le : p.created_at ≤ x.created_at = ground arith in
      rw ge ((le, All-le p.created_at x.created_at xs le d.0), d)
]

sort_from-Descending :
    (done rest : List ApiKey) → Descending done → Descending (sort_from done rest)
unfolding sort_from
sort_from-Descending done [] d = d
sort_from-Descending done (x ∷ rest) d =
    sort_from-Descending (sink x done) rest (sink-Descending x done d)

Ascending-snoc :
    (xs : List ApiKey) (x : ApiKey)
    → Ascending xs
    → All (λ y. y.created_at ≤ x.created_at) xs
    → Ascending (xs ++ x ∷ [])
Ascending-snoc [] x a h = (tt, tt)
Ascending-snoc (y ∷ xs) x a h = (
  All-append (λ z. y.created_at ≤ z.created_at) xs (x ∷ []) a.0 (h.0, tt),
  Ascending-snoc xs x a.1 h.1,
)

All-reverse :
    (n : ℕ) (xs : List ApiKey)
    → All (λ y. y.created_at ≤ n) xs
    → All (λ y. y.created_at ≤ n) (reverse xs)
All-reverse n [] h = tt
All-reverse n (x ∷ xs) h =
    rw (reverse-append (x ∷ []) xs)
      (All-append (λ y. y.created_at ≤ n) (reverse xs) (x ∷ []) (All-reverse n xs h.1) (h.0, tt))

Ascending-reverse : (xs : List ApiKey) → Descending xs → Ascending (reverse xs)
Ascending-reverse [] d = tt
Ascending-reverse (x ∷ xs) d =
    rw (reverse-append (x ∷ []) xs)
      (Ascending-snoc (reverse xs) x (Ascending-reverse xs d.1) (All-reverse x.created_at xs d.0))

sink-perm : (x : ApiKey) (xs : List ApiKey) → Perm (sink x xs) (x ∷ xs)
unfolding sink
sink-perm x [] = Perm.refl (x ∷ [])
sink-perm x (p ∷ xs) = elim (Bool-cases (ltb x.created_at p.created_at)) [
  | inl lt ↦ rw lt (Perm.trans (Perm.cons p (sink-perm x xs)) (Perm.swap x p xs))
  | inr ge ↦ rw ge (Perm.refl (x ∷ p ∷ xs))
]

sort_from-perm : (done rest : List ApiKey) → Perm (sort_from done rest) (done ++ rest)
unfolding sort_from
sort_from-perm done [] = rw append-nil (Perm.refl done)
sort_from-perm done (x ∷ rest) =
    Perm.trans (sort_from-perm (sink x done) rest)
      (Perm.trans (Perm.append_right rest (sink-perm x done)) (Perm.symm (perm_middle done rest)))

-- `ListKeys` and `writeLocked` put the keys in ascending order of creation, and the sorted list
-- holds the same keys as the map, in whatever order the map is walked.
sort_by_created-sorts :
    (keys : List ApiKey) → Ascending (sort_by_created keys) × Perm (sort_by_created keys) keys
unfolding sort_by_created
sort_by_created-sorts keys = (
  Ascending-reverse (sort_from [] keys) (sort_from-Descending [] keys tt),
  Perm.trans (reverse_perm (sort_from [] keys)) (sort_from-perm [] keys),
)
