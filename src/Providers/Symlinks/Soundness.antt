-- ===== src/Providers/Symlinks/Soundness.antt =====
-- A path that `assertNoSymlink` lets pass.
use mathlib.Core.List.{append-nil, append_assoc}
use vedox.Base.Lists.{take}
use vedox.Base.{
  ℕ, zero, suc, ◌⊎◌, ◌≡◌, refl, sym, ap, ◌∙◌, ◌≢◌, inl, inr, Bool-cases, Option-cases, none, some,
  List, [], ◌∷◌, ◌++◌, arith, bytes_eq,
}
use vedox.Base.Text.{Text}
use vedox.Providers.Types.{Look, absent, symlink, plain, unknown}
use vedox.Providers.Symlinks.{
  elements, path_of, relative, walk_parts, lstat_reject_symlink, assert_no_symlink,
}

Look-cases : (l : Look) → (l ≡ absent) ⊎ ((l ≡ plain) ⊎ ((l ≡ symlink) ⊎ (l ≡ unknown)))
Look-cases absent = inl refl
Look-cases plain = inr (inl refl)
Look-cases symlink = inr (inr (inl refl))
Look-cases unknown = inr (inr (inr refl))

-- Below a name that is not there nothing is there.
abbrev pub IsTree : (Text → Look) → Type 0
IsTree look =
    (es : List Text) (e : Text)
    → look (path_of es) ≡ absent
    → look (path_of (es ++ e ∷ [])) ≡ absent

module _ (look : Text → Look) (tree : IsTree look) where
  absent_below :
      (es parts : List Text) → look (path_of es) ≡ absent → look (path_of (es ++ parts)) ≡ absent
  absent_below es [] h = rw (append-nil es) h
  absent_below es (e ∷ parts) h =
      ap (λ (p : List Text). look (path_of p)) (sym (append_assoc es (e ∷ []) parts))
      ∙ absent_below (es ++ e ∷ []) parts (tree es e h)

  walk_parts_sound :
      (cur parts : List Text) (n : ℕ)
      → look (path_of cur) ≢ symlink
      → walk_parts look cur parts ≡ none
      → look (path_of (cur ++ take n parts)) ≢ symlink
  unfolding walk_parts
  walk_parts_sound cur [] zero h w = rw (append-nil cur) h
  walk_parts_sound cur [] (suc n) h w = rw (append-nil cur) h
  walk_parts_sound cur (part ∷ parts) zero h w = rw (append-nil cur) h
  walk_parts_sound cur (part ∷ parts) (suc n) h w =
      let cur' = cur ++ part ∷ [] in
      rw (sym (append_assoc cur (part ∷ []) (take n parts)))
        (elim (Look-cases (look (path_of cur'))) [
          | inl e ↦ λ s. ground (arith, absent_below cur' (take n parts) e, s)
          | inr (inl e) ↦
              walk_parts_sound cur' parts n (λ s. ground (arith, s, e)) (ground (arith, w, e))
          | inr (inr (inl e)) ↦ absurd (ground (arith, w, e))
          | inr (inr (inr e)) ↦ absurd (ground (arith, w, e))
        ])

  relative_parts :
      (boundary target parts : List Text)
      → relative boundary target ≡ some parts
      → target ≡ boundary ++ parts
  unfolding relative
  relative_parts [] target parts h = cc
  relative_parts (b ∷ boundary) [] parts h = cc
  relative_parts (b ∷ boundary) (t ∷ target) parts h = elim (Bool-cases (bytes_eq b t)) [
    | inr e ↦ absurd (ground (arith, h, e))
    | inl e ↦
        let same : b ≡ t = ground (arith, e) in
        let rest = relative_parts boundary target parts (ground (arith, h, e)) in
        rw (same, rest) refl
  ]

  not_linked : (path : Text) → lstat_reject_symlink look path ≡ none → look path ≢ symlink
  unfolding lstat_reject_symlink
  not_linked path h e = ground (arith, h, e)

  -- A target that passes lies below the boundary, and neither the boundary nor a name on the way
  -- from it to the target is a symbolic link, the target included, as long as there is nothing
  -- below a name that is not there.
  pub assert_no_symlink_sound :
      (boundary target : Text)
      → assert_no_symlink look boundary target ≡ none
      → (parts : List Text) × (elements target ≡ elements boundary ++ parts)
        × ((n : ℕ) → look (path_of (elements boundary ++ take n parts)) ≢ symlink)
  unfolding assert_no_symlink
  assert_no_symlink_sound boundary target h =
      let b = elements boundary in
      elim (Option-cases (relative b (elements target))) [
        | inl e ↦ absurd (ground (arith, h, e))
        | inr (parts, e) ↦ elim (Option-cases (lstat_reject_symlink look (path_of b))) [
          | inr (err, f) ↦ absurd (ground (arith, h, e, f))
          | inl f ↦ (
            parts,
            relative_parts b (elements target) parts e,
            λ n. walk_parts_sound b parts n (not_linked (path_of b) f) (ground (arith, h, e, f)),
          )
        ]
      ]
