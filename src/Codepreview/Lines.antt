-- ===== src/Codepreview/Lines.antt =====
-- The lines that a preview shows.
use mathlib.Core.Path.{subst}
use vedox.Base.{
  ℕ, ◌+◌, ◌-◌, ◌<◌, ◌≤◌, ◌≡◌, ◌⊎◌, refl, Bool, Bool-cases, false, Option, Option-cases, none, some,
  inl, inr, [], ◌∷◌, length, take, arith, ltb, ◌==◌,
}
use vedox.Base.Text.{Text}
use vedox.Codepreview.Anchor.{LineRange, ok, positive, cut_range, anchor_of, both, parse_anchor}
use vedox.Codepreview.Files.{split_lines, has_null}
use vedox.Codepreview.{
  Preview, max_file_bytes, max_line_range, binary_sniff_bytes, preview_of, apply_anchor, show_bytes,
}

-- No anchor, or a range of lines from 1 on.
abbrev pub IsRange : LineRange → Type 0
IsRange a = (a.start ≡ 0) ⊎ ((1 ≤ a.start) × (a.start ≤ a.stop))

positive-le : (s : Text) (n : ℕ) → positive s ≡ some n → 1 ≤ n
unfolding positive
positive-le [] n h = cc
positive-le (c ∷ s) n h = ground (arith, h)

anchor_of-IsRange :
    (start stop : ℕ) (a : LineRange) → 1 ≤ start → anchor_of start stop ≡ ok a → IsRange a
unfolding anchor_of
anchor_of-IsRange start stop a p h = inr (ground (arith, h))

both-IsRange :
    (m n : Option ℕ) (a : LineRange) → ((k : ℕ) → m ≡ some k → 1 ≤ k) → both m n ≡ ok a → IsRange a
both-IsRange none n a p h = cc
both-IsRange (some k) none a p h = cc
both-IsRange (some k) (some l) a p h = anchor_of-IsRange k l a (p k refl) h

pub parse_anchor-IsRange : (f : Text) (a : LineRange) → parse_anchor f ≡ ok a → IsRange a
unfolding parse_anchor
parse_anchor-IsRange [] a h = inl (ground (arith, h))
parse_anchor-IsRange (c ∷ rest) a h = elim (Bool-cases (c == 76)) [
  | inr e ↦ absurd (ground (arith, h, e))
  | inl e ↦ elim (Option-cases (cut_range rest)) [
    | inl f ↦
        both-IsRange (positive rest) (positive rest) a (positive-le rest) (ground (arith, h, e, f))
    | inr ((s, t), f) ↦
        both-IsRange (positive s) (positive t) a (positive-le s) (ground (arith, h, e, f))
  ]
]

pub ok_injective : {A : Type 0} (a b : A) → ok a ≡ ok b → a ≡ b
ok_injective a b h = cc

some_line : (raw : Text) → 1 ≤ length (split_lines raw)
unfolding split_lines
some_line raw = omega arith

module _ (to_lower : ℕ → ℕ) where
  -- The lines from `start` to `stop` are all those of `raw`, where none were asked for, or those
  -- of the range `a`, which are 500 at most.
  abbrev pub AsAsked : Text → LineRange → ℕ → ℕ → Type 0
  AsAsked raw a start stop =
      ((a.start ≡ 0) × (start ≡ 1) × (stop ≡ length (split_lines raw)))
      ⊎ ((start ≡ a.start) × (stop ≡ a.stop) × (stop < start + max_line_range))

  -- The preview shows lines of `raw`, all of which it has: the ones asked for, or all.
  pub record ShowsLines (rel_path raw : Text) (cut : Bool) (a : LineRange) (p : Preview)
      : Type 0 where
    pub shown : p ≡ preview_of to_lower rel_path raw cut p.start_line p.end_line
    pub first : 1 ≤ p.start_line
    pub ordered : p.start_line ≤ p.end_line
    pub last : p.end_line ≤ length (split_lines raw)
    pub as_asked : AsAsked raw a p.start_line p.end_line

  preview_of-ShowsLines :
      (rel_path raw : Text) (cut : Bool) (a : LineRange) (start stop : ℕ)
      → 1 ≤ start
      → start ≤ stop
      → stop ≤ length (split_lines raw)
      → AsAsked raw a start stop
      → ShowsLines rel_path raw cut a (preview_of to_lower rel_path raw cut start stop)
  unfolding preview_of
  preview_of-ShowsLines rel_path raw cut a start stop f o l m = record {
    shown = refl;
    first = f;
    ordered = o;
    last = l;
    as_asked = m;
  }

  -- What the tests of step 9 let pass.
  apply_anchor-cases :
      (rel_path raw : Text) (cut : Bool) (a : LineRange) (p : Preview)
      → let total = length (split_lines raw) in
        apply_anchor to_lower rel_path raw cut a ≡ ok p
        → ((a.start ≡ 0) × (preview_of to_lower rel_path raw cut 1 total ≡ p))
          ⊎ ((0 < a.start)
              × (a.stop ≤ total)
              × (a.stop < a.start + max_line_range)
              × (preview_of to_lower rel_path raw cut a.start a.stop ≡ p))
  unfolding apply_anchor
  apply_anchor-cases rel_path raw cut a p h =
      let total = length (split_lines raw) in
      elim (Bool-cases (a.start == 0)) [
        | inl z ↦ inl (ground (arith, z), ok_injective _ p (rw z at h))
        | inr z ↦ elim (Bool-cases (ltb max_line_range (a.stop + 1 - a.start))) [
          | inl y ↦ absurd (ground (arith, rw (z, y) at h))
          | inr y ↦ elim (Bool-cases (ltb total a.start)) [
            | inl x ↦ absurd (ground (arith, rw (z, y, x) at h))
            | inr x ↦ elim (Bool-cases (ltb total a.stop)) [
              | inl w ↦ absurd (ground (arith, rw (z, y, x, w) at h))
              | inr w ↦ inr (
                ground (arith, z),
                ground (arith, w),
                ground (arith, y, z),
                ok_injective _ p (rw (z, y, x, w) at h),
              )
            ]
          ]
        ]
      ]

  apply_anchor-ShowsLines :
      (rel_path raw : Text) (cut : Bool) (a : LineRange) (p : Preview)
      → IsRange a
      → apply_anchor to_lower rel_path raw cut a ≡ ok p
      → ShowsLines rel_path raw cut a p
  apply_anchor-ShowsLines rel_path raw cut a p r h =
      let total = length (split_lines raw) in
      elim (apply_anchor-cases rel_path raw cut a p h) [
        | inl (z, e) ↦ subst (ShowsLines rel_path raw cut a) e (
            preview_of-ShowsLines rel_path raw cut a 1 total (omega arith) (some_line raw)
              (omega arith) (inl (z, refl, refl)))
        | inr (z, l, m, e) ↦
            let o : a.start ≤ a.stop = elim r [
              | inl n ↦ absurd (omega (arith, n, z))
              | inr n ↦ n.1
            ] in
            subst (ShowsLines rel_path raw cut a) e
              (preview_of-ShowsLines rel_path raw cut a a.start a.stop z o l (inr (refl, refl, m)))
      ]

  pub show_bytes-ShowsLines :
      (rel_path content : Text) (a : LineRange) (p : Preview)
      → IsRange a
      → show_bytes to_lower rel_path content a ≡ ok p
      → (has_null (take binary_sniff_bytes (take max_file_bytes content)) ≡ false)
        × ShowsLines rel_path
            (take max_file_bytes content)
            (ltb max_file_bytes (length content))
            a
            p
  unfolding show_bytes
  show_bytes-ShowsLines rel_path content a p r h =
      elim (Bool-cases (has_null (take binary_sniff_bytes (take max_file_bytes content)))) [
        | inl b ↦ absurd (ground (arith, rw b at h))
        | inr b ↦ (b, apply_anchor-ShowsLines rel_path _ _ a p r (rw b at h))
      ]
