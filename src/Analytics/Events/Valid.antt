-- ===== src/Analytics/Events/Valid.antt =====
-- The events that `Validate` lets pass.
use vedox.Base.{
  ℕ, zero, suc, ◌<◌, ◌≤◌, ◌≡◌, ◌≢◌, ◌↔◌, refl, Bool-cases, both_parts, true, false, none, inl, inr,
  [], ◌∷◌, length, is_empty, arith, All,
}
use vedox.Base.Text.{Text}
use vedox.Analytics.Events.{Event, is_edge, is_inner, match_tail, match_kind, validate}

-- The first and the last character.
abbrev last_of : ℕ → Text → ℕ
last_of c [] = c
last_of c (d ∷ s) = last_of d s

-- 1 to 48 characters from `[a-z0-9_.]`, no dot at either end.
abbrev pub IsKind : Text → Type 0
IsKind [] = ⊥
IsKind (c ∷ s) =
    (length s < 48)
    × All (λ (d : ℕ). is_inner d ≡ true) (c ∷ s)
    × (is_edge c ≡ true)
    × (is_edge (last_of c s) ≡ true)

is_inner_of_edge : (c : ℕ) → is_edge c ≡ true → is_inner c ≡ true
unfolding is_inner
is_inner_of_edge c h = ground (arith, h)

match_tail→ :
    (room c : ℕ) (s : Text)
    → match_tail room (c ∷ s) ≡ true
    → (length s ≤ room)
      × All (λ (d : ℕ). is_inner d ≡ true) (c ∷ s)
      × (is_edge (last_of c s) ≡ true)
unfolding match_tail
match_tail→ room c [] h = (omega arith, (is_inner_of_edge c h, tt), h)
match_tail→ zero c (d ∷ s) h = cc
match_tail→ (suc room) c (d ∷ s) h =
    let (p, q) = both_parts (is_inner c) (match_tail room (d ∷ s)) h in
    let (l, a, e) = match_tail→ room d s q in (omega (arith, l), (p, a), e)

match_tail← :
    (room c : ℕ) (s : Text)
    → length s ≤ room
    → All (λ (d : ℕ). is_inner d ≡ true) (c ∷ s)
    → is_edge (last_of c s) ≡ true
    → match_tail room (c ∷ s) ≡ true
unfolding match_tail
match_tail← room c [] l a e = e
match_tail← zero c (d ∷ s) l a e = absurd (omega arith)
match_tail← (suc room) c (d ∷ s) l (p, a) e = rw p (match_tail← room d s (omega arith) a e)

match_kind→ : (s : Text) → match_kind s ≡ true → IsKind s
unfolding match_kind
match_kind→ [] h = cc
match_kind→ (c ∷ []) h = (omega arith, (is_inner_of_edge c h, tt), h, h)
match_kind→ (c ∷ d ∷ s) h =
    let (p, q) = both_parts (is_edge c) (match_tail 46 (d ∷ s)) h in
    let (l, a, e) = match_tail→ 46 d s q in (omega (arith, l), (is_inner_of_edge c p, a), p, e)

match_kind← : (s : Text) → IsKind s → match_kind s ≡ true
unfolding match_kind
match_kind← [] h = absurd h
match_kind← (c ∷ []) (l, a, p, e) = p
match_kind← (c ∷ d ∷ s) (l, (_, a), p, e) = rw p (match_tail← 46 d s (omega arith) a e)

IsKind-is_empty : (s : Text) → IsKind s → is_empty s ≡ false
IsKind-is_empty [] h = absurd h
IsKind-is_empty (c ∷ s) h = refl

-- `Validate` returns no error exactly for the events whose kind has 1 to 48 characters from
-- `[a-z0-9_.]` with no dot at either end, and whose time and session are set.
validate_iff :
    {Any : Type 0} (e : Event Any)
    → (validate e ≡ none) ↔ (IsKind e.kind × (e.timestamp ≢ 0) × (is_empty e.session_id ≡ false))
unfolding validate
validate_iff e = (
  λ h. elim (Bool-cases (match_kind e.kind)) [
    | inl m ↦ (match_kind→ e.kind m, λ z. ground (arith, h, m, z), ground (arith, h, m))
    | inr m ↦ absurd (ground (arith, h, m))
  ],
  λ (k, t, s). ground (arith, match_kind← e.kind k, IsKind-is_empty e.kind k, t, s),
)
