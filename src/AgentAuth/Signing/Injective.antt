-- ===== src/AgentAuth/Signing/Injective.antt =====
-- The signed string stands for one request, and an accepted timestamp is near the clock.
use vedox.Base.{
  ℕ, ◌+◌, ◌≤◌, ◌≡◌, refl, ◌≢◌, ◌↔◌, Bytes, none, some, Option-cases, inl, inr, [], ◌∷◌, ◌++◌, arith,
}
use vedox.AgentAuth.Signing.{
  Externals, newline, build_signed_string, validate_timestamp, clock_skew_tolerance,
}

-- No line break stands in the text.
abbrev pub OneLine : Bytes → Type 0
OneLine [] = Unit
OneLine (c ∷ s) = (c ≢ newline) × OneLine s

-- The first line break ends the first field.
line_split :
    (a b s t : Bytes)
    → OneLine a
    → OneLine b
    → (a ++ (newline ∷ s)) ≡ (b ++ (newline ∷ t))
    → (a ≡ b) × (s ≡ t)
line_split [] [] s t ha hb e = (refl, cc)
line_split [] (d ∷ b) s t ha hb e = absurd (hb.0 (cc))
line_split (c ∷ a) [] s t ha hb e = absurd (ha.0 (cc))
line_split (c ∷ a) (d ∷ b) s t ha hb e = let (p, q) = line_split a b s t ha.1 hb.1 (cc) in (cc, q)

-- Two requests with the same signed string have the same method, path, timestamp and body hash,
-- where no line break stands in the first three.
pub build_signed_string_injective :
    (m p t h m' p' t' h' : Bytes)
    → OneLine m × OneLine p × OneLine t
    → OneLine m' × OneLine p' × OneLine t'
    → build_signed_string m p t h ≡ build_signed_string m' p' t' h'
    → (m ≡ m') × (p ≡ p') × (t ≡ t') × (h ≡ h')
unfolding build_signed_string
build_signed_string_injective m p t h m' p' t' h' l l' e =
    let (em, e1) = line_split m m' _ _ l.0 l'.0 e in
    let (ep, e2) = line_split p p' _ _ l.1 l'.1 e1 in
    let (et, eh) = line_split t t' _ _ l.2 l'.2 e2 in (em, ep, et, eh)

-- The text is a timestamp within the tolerance on either side of the clock.
pub record IsCurrent (ext : Externals) (now : ℕ) (ts : Bytes) : Type 0 where
  pub present : ts ≢ []
  pub instant : ℕ
  pub parsed : ext.parse_rfc3339 ts ≡ some instant
  pub not_ahead : instant ≤ now + clock_skew_tolerance
  pub not_behind : now ≤ instant + clock_skew_tolerance

validate_timestamp_sound :
    (ext : Externals) (now : ℕ) (ts : Bytes)
    → validate_timestamp ext now ts ≡ none
    → IsCurrent ext now ts
unfolding validate_timestamp
validate_timestamp_sound ext now [] h = cc
validate_timestamp_sound ext now (c ∷ s) h = elim (Option-cases (ext.parse_rfc3339 (c ∷ s))) [
  | inl e ↦ absurd (ground (arith, e))
  | inr (t, e) ↦ record {
    present = λ p. cc;
    instant = t;
    parsed = e;
    not_ahead = ground (arith, e);
    not_behind = ground (arith, e);
  }
]

validate_timestamp_complete :
    (ext : Externals) (now : ℕ) (ts : Bytes)
    → IsCurrent ext now ts
    → validate_timestamp ext now ts ≡ none
unfolding validate_timestamp
validate_timestamp_complete ext now [] h = absurd (h.present refl)
validate_timestamp_complete ext now (c ∷ s) h = ground (arith, h.parsed, h.not_ahead, h.not_behind)

-- A timestamp is accepted exactly when it is there, can be read, and lies within the tolerance on
-- either side of the clock.
pub validate_timestamp_iff :
    (ext : Externals) (now : ℕ) (ts : Bytes)
    → (validate_timestamp ext now ts ≡ none) ↔ IsCurrent ext now ts
validate_timestamp_iff ext now ts =
    (validate_timestamp_sound ext now ts, validate_timestamp_complete ext now ts)
