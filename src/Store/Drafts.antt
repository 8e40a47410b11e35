-- ===== src/Store/Drafts.antt =====
-- Drafts of a file that holds a secret are secret too.
use mathlib.Core.List.{reverse-append, reverse-reverse}
use vedox.Base.{
  ℕ, ◌≡◌, refl, ap, sym, ◌∙◌, inl, inr, Bool-cases, true, false, ◌&&◌, Option-cases, none, some, [],
  ◌∷◌, ◌++◌, arith, bytes, leb, ◌==◌, starts_with,
}
use vedox.Base.Lists.{length, drop}
use vedox.Base.Text.{Text, append_assoc}
use vedox.Base.Search.{starts_with_parts, drop-length}
use vedox.Store.Names.{
  secret_blocklist, cut_last, all_digits, draft, draft_md, strip_plain, strip_draft_suffixes,
  matches_any, is_secret_file,
}

cut_last_parts :
    (d : ℕ) (sub s before behind : Text)
    → cut_last (d ∷ sub) s ≡ some (before, behind)
    → s ≡ before ++ ((d ∷ sub) ++ behind)
unfolding cut_last starts_with
cut_last_parts d sub [] before behind h = cc
cut_last_parts d sub (c ∷ s) before behind h = elim (Option-cases (cut_last (d ∷ sub) s)) [
  | inr ((b, t), e) ↦ let ih = cut_last_parts d sub s b t e in ground (arith, h, e, ih)
  | inl e ↦ elim (Bool-cases (starts_with (c ∷ s) (d ∷ sub))) [
    | inr f ↦ absurd (ground (arith, h, e, f))
    | inl f ↦
        let (r, g) = starts_with_parts (c ∷ s) (d ∷ sub) f in
        let k : drop (length (d ∷ sub)) (c ∷ s) ≡ r =
          ap (λ (t : Text). drop (length (d ∷ sub)) t) g ∙ drop-length (d ∷ sub) r in
        let b : [] ≡ before = ground (arith, h, e, f) in
        let t : drop (length (d ∷ sub)) (c ∷ s) ≡ behind = ground (arith, h, e, f) in
        rw (← b, ← t, k) g
  ]
]

abbrev last_of : ℕ → Text → ℕ
last_of c [] = c
last_of c (d ∷ s) = last_of d s

-- The last of some digits is one.
last_digit :
    (c : ℕ) (s : Text)
    → all_digits (c ∷ s) ≡ true
    → (leb 48 (last_of c s) && leb (last_of c s) 57) ≡ true
unfolding all_digits
last_digit c [] h = ground (arith, h)
last_digit c (d ∷ s) h = last_digit d s (ground (arith, h))

last_of-append : (c d : ℕ) (s t : Text) → last_of c (s ++ d ∷ t) ≡ last_of d t
last_of-append c d [] t = refl
last_of-append c d (e ∷ s) t = last_of-append e d s t

last_of_parts :
    (c d e : ℕ) (x y b sub t : Text) → x ++ d ∷ y ≡ b ++ (sub ++ e ∷ t) → last_of d y ≡ last_of e t
last_of_parts c d e x y b sub t h =
    sym (last_of-append c d x y)
    ∙ ap (λ (s : Text). last_of c s) (h ∙ sym (append_assoc b sub (e ∷ t)))
    ∙ last_of-append c e (b ++ sub) t

abbrev numbered : Text
numbered = bytes "draft.md."

-- The text behind the last mark of a numbered draft is no number, or there is none.
unnumbered_at :
    (d : ℕ) (x y before behind : Text)
    → leb (last_of d y) 57 ≡ false
    → cut_last (46 ∷ numbered) (x ++ d ∷ y) ≡ some (before, behind)
    → strip_draft_suffixes (x ++ d ∷ y) ≡ strip_plain (x ++ d ∷ y)
unfolding strip_draft_suffixes
unnumbered_at d x y before [] h e = ground (arith, e)
unnumbered_at d x y before (c ∷ t) h e = elim (Bool-cases (all_digits (c ∷ t))) [
  | inr f ↦ ground (arith, e, f)
  | inl f ↦
      let same : last_of d y ≡ last_of c t =
        last_of_parts 0 d c x y before (46 ∷ numbered) t
          (cut_last_parts 46 numbered (x ++ d ∷ y) before (c ∷ t) e) in
      absurd (ground (arith, h, same, last_digit c t f))
]

-- A name that does not end in a digit has no numbered draft's suffix.
unnumbered :
    (d : ℕ) (x y : Text)
    → leb (last_of d y) 57 ≡ false
    → strip_draft_suffixes (x ++ d ∷ y) ≡ strip_plain (x ++ d ∷ y)
unnumbered d x y h = elim (Option-cases (cut_last (46 ∷ numbered) (x ++ d ∷ y))) [
  | inl e ↦ unfold strip_draft_suffixes in ground (arith, e)
  | inr ((before, behind), e) ↦ unnumbered_at d x y before behind h e
]

strip_plain_md : (x : Text) → strip_plain (x ++ draft_md) ≡ x
unfolding strip_plain starts_with
strip_plain_md x = rw (reverse-append x draft_md) (reverse-reverse x)

strip_plain-draft : (x : Text) → strip_plain (x ++ draft) ≡ x
unfolding strip_plain starts_with
strip_plain-draft x = rw (reverse-append x draft) (reverse-reverse x)

cut_last_digits : (s : Text) → all_digits s ≡ true → cut_last (46 ∷ numbered) s ≡ none
unfolding cut_last all_digits starts_with
cut_last_digits [] h = refl
cut_last_digits (c ∷ s) h = ground (arith, h, cut_last_digits s (ground (arith, h)))

no_letter : (s : Text) → all_digits s ≡ true → starts_with s numbered ≡ false
unfolding starts_with all_digits
no_letter [] h = refl
no_letter (c ∷ s) h = elim (Bool-cases (c == 100)) [
  | inl e ↦ absurd (ground (arith, h, e))
  | inr e ↦ ground (arith, e)
]

-- Behind the last mark there are digits only.
cut_last-numbered :
    (x s : Text)
    → all_digits s ≡ true
    → cut_last (46 ∷ numbered) (x ++ (46 ∷ numbered ++ s)) ≡ some (x, s)
unfolding cut_last starts_with
cut_last-numbered [] s h = rw (cut_last_digits s h, no_letter s h) refl
cut_last-numbered (c ∷ x) s h = rw (cut_last-numbered x s h) refl

-- A draft is a secret exactly when the name without the draft's suffix matches the list.
pub is_secret_file-drafts :
    (name : Text) (c : ℕ) (digits : Text)
    → all_digits (c ∷ digits) ≡ true
    → (is_secret_file (name ++ draft) ≡ matches_any secret_blocklist name)
      × (is_secret_file (name ++ draft_md) ≡ matches_any secret_blocklist name)
      × (is_secret_file (name ++ (draft_md ++ 46 ∷ c ∷ digits)) ≡ matches_any secret_blocklist name)
unfolding is_secret_file
is_secret_file-drafts name c digits h =
    let m = λ (t : Text). matches_any secret_blocklist t in
    let numbered_name : strip_draft_suffixes (name ++ (draft_md ++ 46 ∷ c ∷ digits)) ≡ name =
      unfold strip_draft_suffixes in ground (arith, cut_last-numbered name (c ∷ digits) h, h) in
    (
      ap m (unnumbered 46 name (bytes "draft") refl ∙ strip_plain-draft name),
      ap m (unnumbered 46 name (bytes "draft.md") refl ∙ strip_plain_md name),
      ap m numbered_name,
    )
