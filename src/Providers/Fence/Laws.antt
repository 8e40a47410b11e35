-- ===== src/Providers/Fence/Laws.antt =====
-- The fenced block: it is put in once, and taken out again.
use vedox.Base.{
  ◌≡◌, refl, sym, ap, ◌∙◌, inl, inr, Bool-cases, Option-cases, none, some, [], ◌∷◌, ◌++◌, arith,
  ◌⊎◌, not, ◌&&◌, is_empty,
}
use vedox.Base.Paths.{ends_with}
use vedox.Base.Lists.{length, drop, Among}
use vedox.Base.Text.{Text, newline, append_assoc, append-nil}
use vedox.Base.Search.{
  cut, contains, cut_here, cut_behind, cut_first, cut_parts, cut_missing, cut_nil, drop-length,
  trim_right_of-last,
}
use vedox.Providers.Fence.{
  skip_newline, settle, spacing, around_block, replace_fenced_block, remove_fenced_block,
  with_block, without_block,
}

-- A block of lines: the start fence, some lines, the end fence on its own line.
pub record IsBlock (fence_start fence_end block : Text) : Type 0 where
  pub lines : Text
  pub parts : block ≡ fence_start ++ (lines ++ newline ∷ (fence_end ++ newline ∷ []))
  pub start_in_line : Among newline fence_start → ⊥
  pub end_in_line : Among newline fence_end → ⊥
  pub no_end_inside : cut fence_end (fence_start ++ lines) ≡ none

module _ (fence_start fence_end block : Text) (b : IsBlock fence_start fence_end block) where
  -- What stands behind the start fence of a block with a text behind it.
  abbrev behind_start : Text → Text
  behind_start after = b.lines ++ newline ∷ (fence_end ++ newline ∷ after)

  block-append : (after : Text) → block ++ after ≡ fence_start ++ behind_start after
  block-append after =
      ap (λ (t : Text). t ++ after) b.parts
      ∙ append_assoc fence_start (behind_start []) after
      ∙ ap (λ (t : Text). fence_start ++ t)
          (append_assoc b.lines (newline ∷ (fence_end ++ newline ∷ [])) after)
      ∙ ap (λ (t : Text). fence_start ++ (b.lines ++ newline ∷ t))
          (append_assoc fence_end (newline ∷ []) after)

  cut_end :
      (after : Text)
      → cut fence_end (fence_start ++ behind_start after)
        ≡ some ((fence_start ++ b.lines) ++ newline ∷ [], fence_end ++ newline ∷ after)
  cut_end after =
      ap (cut fence_end)
        (sym (append_assoc fence_start b.lines (newline ∷ (fence_end ++ newline ∷ after))))
      ∙ cut_behind fence_end (fence_start ++ b.lines) (fence_end ++ newline ∷ after) []
          (fence_end ++ newline ∷ after) newline b.end_in_line b.no_end_inside
          (cut_here fence_end (newline ∷ after))

  -- A block that was written is found again, with the text before it and behind it.
  around_block-written :
      (before after rest : Text)
      → cut fence_start (before ++ (fence_start ++ rest)) ≡ some (before, fence_start ++ rest)
      → around_block fence_start fence_end (before ++ (block ++ after)) ≡ some (before, after)
  unfolding around_block
  around_block-written before after rest h =
      let found : cut fence_start (before ++ (block ++ after))
          ≡ some (before, fence_start ++ behind_start after) =
        ap (λ (t : Text). cut fence_start (before ++ t)) (block-append after)
        ∙ ap (cut fence_start) (sym (append_assoc before fence_start (behind_start after)))
        ∙ cut_first fence_start before rest (behind_start after)
            (ap (cut fence_start) (append_assoc before fence_start rest) ∙ h) in
      ground (arith, found, cut_end after, drop-length fence_end (newline ∷ after))

  -- The start fence is found behind a text without it and a line break.
  behind_break :
      (u : Text)
      → cut fence_start u ≡ none
      → cut fence_start ((u ++ newline ∷ []) ++ (fence_start ++ []))
        ≡ some (u ++ newline ∷ [], fence_start ++ [])
  behind_break u h =
      ap (cut fence_start) (append_assoc u (newline ∷ []) (fence_start ++ []))
      ∙ cut_behind fence_start u (fence_start ++ []) [] (fence_start ++ []) newline b.start_in_line
          h (cut_here fence_start [])

  settle-break : (u : Text) → settle (u ++ newline ∷ []) ≡ settle u
  unfolding settle
  settle-break u = rw (trim_right_of-last newline u) refl

  spacing-cases : (u : Text) → (spacing u ≡ newline ∷ []) ⊎ (spacing u ≡ newline ∷ newline ∷ [])
  unfolding spacing
  spacing-cases u = elim (Bool-cases (not (is_empty u) && not (ends_with u (newline ∷ [])))) [
    | inl e ↦ inr (ground (arith, e))
    | inr e ↦ inl (ground (arith, e))
  ]

  break-append : (u : Text) → u ++ newline ∷ block ≡ (u ++ newline ∷ []) ++ (block ++ [])
  break-append u =
      sym (append_assoc u (newline ∷ []) block)
      ∙ ap (λ (t : Text). (u ++ newline ∷ []) ++ t) (sym (append-nil block))

  -- A block behind a text without a start fence: the text before it is the text and line breaks.
  appended :
      (existing : Text)
      → cut fence_start existing ≡ none
      → (before : Text) × (existing ++ (spacing existing ++ block) ≡ before ++ (block ++ []))
        × (settle before ≡ settle existing)
        × (cut fence_start (before ++ (fence_start ++ [])) ≡ some (before, fence_start ++ []))
  appended existing h = elim (spacing-cases existing) [
    | inl e ↦ (
      existing ++ newline ∷ [],
      rw e (break-append existing),
      settle-break existing,
      behind_break existing h,
    )
    | inr e ↦
        let line = existing ++ newline ∷ [] in
        let none_in_line =
          cut_missing fence_start existing [] newline b.start_in_line h
            (cut_nil fence_start existing h) in
        (
          line ++ newline ∷ [],
          rw e (sym (append_assoc existing (newline ∷ []) (newline ∷ block)) ∙ break-append line),
          settle-break line ∙ settle-break existing,
          behind_break line none_in_line,
        )
  ]

  -- The text with the block, where it had no start fence.
  with_block-absent :
      (existing : Text)
      → cut fence_start existing ≡ none
      → with_block fence_start fence_end block existing ≡ existing ++ (spacing existing ++ block)
  unfolding with_block contains
  with_block-absent existing h = ground (arith, h)

  -- Where the text has a block, its place is kept.
  with_block-present :
      (existing before after : Text)
      → around_block fence_start fence_end existing ≡ some (before, after)
      → with_block fence_start fence_end block existing ≡ before ++ (block ++ after)
  unfolding with_block contains replace_fenced_block around_block
  with_block-present existing before after h = elim (Option-cases (cut fence_start existing)) [
    | inl e ↦ absurd (ground (arith, h, e))
    | inr ((x, from), e) ↦ ground (arith, h, e)
  ]

  -- Where the end fence is missing, nothing is put in.
  with_block-open :
      (existing before from : Text)
      → cut fence_start existing ≡ some (before, from)
      → cut fence_end from ≡ none
      → with_block fence_start fence_end block existing ≡ existing
  unfolding with_block contains replace_fenced_block around_block
  with_block-open existing before from h k = ground (arith, h, k)

  -- The start fence of a block that is found is the first one of the text.
  around_block-start :
      (existing before from inside tail : Text)
      → cut fence_start existing ≡ some (before, from)
      → cut fence_end from ≡ some (inside, tail)
      → around_block fence_start fence_end existing
        ≡ some (before, skip_newline (drop (length fence_end) tail))
  unfolding around_block
  around_block-start existing before from inside tail h k = ground (arith, h, k)

  -- Putting the block in a second time changes nothing, for any text and for a block of lines
  -- between its fences.
  pub with_block-IsIdempotent :
      (existing : Text)
      → with_block fence_start fence_end block (with_block fence_start fence_end block existing)
        ≡ with_block fence_start fence_end block existing
  with_block-IsIdempotent existing = elim (Option-cases (cut fence_start existing)) [
    | inl e ↦
        let (before, same, _, found) = appended existing e in
        let w = with_block-absent existing e ∙ same in
        rw w (with_block-present _ before [] (around_block-written before [] [] found))
    | inr ((before, from), e) ↦ elim (Option-cases (cut fence_end from)) [
      | inl f ↦ let w = with_block-open existing before from e f in rw w w
      | inr ((inside, tail), f) ↦
          let (rest, begins, same) = cut_parts fence_start existing before from e in
          let after = skip_newline (drop (length fence_end) tail) in
          let w =
            with_block-present existing before after
              (around_block-start existing before from inside tail e f) in
          let found =
            ap (cut fence_start) (sym (append_assoc before fence_start rest) ∙ sym same)
            ∙ e
            ∙ ap (λ (t : Text). some (before, t)) begins in
          rw w (with_block-present _ before after (around_block-written before after rest found))
    ]
  ]

  -- A block that was put in and taken out again leaves the text, with its last lines settled.
  remove_fenced_block-with_block :
      (existing : Text)
      → cut fence_start existing ≡ none
      → remove_fenced_block fence_start fence_end (with_block fence_start fence_end block existing)
        ≡ settle existing
  unfolding remove_fenced_block
  remove_fenced_block-with_block existing h =
      let (before, same, settled, found) = appended existing h in
      let w = with_block-absent existing h ∙ same in
      let around = around_block-written before [] [] found in
      ground (arith, w, around, settled, append-nil (settle existing))

  -- Taking the block out of a text that it was put in gives the text with its last lines settled.
  pub without_block-with_block :
      (existing : Text)
      → cut fence_start existing ≡ none
      → without_block fence_start fence_end (with_block fence_start fence_end block existing)
        ≡ some (settle existing)
  unfolding without_block contains
  without_block-with_block existing h =
      let (before, same, _, found) = appended existing h in
      let w = with_block-absent existing h ∙ same in
      let around = around_block-written before [] [] found in
      elim (Option-cases (cut fence_start (before ++ (block ++ [])))) [
        | inl e ↦ absurd (unfold around_block in ground (arith, around, e))
        | inr (r, e) ↦ ground (arith, w, e, remove_fenced_block-with_block existing h)
      ]

  -- A text without a line break that is neither in the text nor in the block is not in both.
  pub cut-with_block :
      (sub existing : Text)
      → (Among newline sub → ⊥)
      → cut sub existing ≡ none
      → cut sub block ≡ none
      → cut fence_start existing ≡ none
      → cut sub (with_block fence_start fence_end block existing) ≡ none
  cut-with_block sub existing apart h k absent =
      rw (with_block-absent existing absent) (elim (spacing-cases existing) [
        | inl e ↦ rw e (cut_missing sub existing block newline apart h k)
        | inr e ↦ rw e (
            cut_missing sub existing (newline ∷ block) newline apart h
              (cut_missing sub [] block newline apart (cut_nil sub existing h) k))
      ])
