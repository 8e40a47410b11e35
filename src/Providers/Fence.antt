-- ===== src/Providers/Fence.antt =====
-- providers/claude.go: the block between two fences that the installers keep in a file of the user.
-- claude.go, codex.go and gemini.go each write these functions out, with their own fences.
pub mod Laws
use vedox.Base.{
  Bool, true, false, not, ◌&&◌, if◌then◌else◌, Option, none, some, List, [], ◌∷◌, ◌++◌, is_empty,
  ◌==◌,
}
use vedox.Base.Lists.{length, drop}
use vedox.Base.Text.{Text, newline}
use vedox.Base.Paths.{ends_with}
use vedox.Base.Search.{cut, contains, trim_right_of}

-- `if endAbs < len(s) && s[endAbs] == '\n' { endAbs++ }`
abbrev pub skip_newline : Text → Text
skip_newline [] = []
skip_newline (c ∷ s) = if c == newline then s else c ∷ s

-- The text before the block, trimmed to end in one newline if there is any.
unfoldable pub settle : Text → Text
settle before =
    let trimmed = trim_right_of newline before in
    if is_empty trimmed then [] else trimmed ++ newline ∷ []

-- The line break and the empty line that stand between the text and a new block.
unfoldable pub spacing : Text → Text
spacing existing =
    if not (is_empty existing) && not (ends_with existing (newline ∷ []))
    then newline ∷ newline ∷ []
    else newline ∷ []

module _ (fence_start fence_end : Text) where
  -- `s[:start]` and `s[endAbs:]`, or nothing where a fence is missing.
  unfoldable pub around_block : Text → Option (Text × Text)
  around_block s = elim (cut fence_start s) [
    | none ↦ none
    | some (before, from) ↦ elim (cut fence_end from) [
      | none ↦ none
      | some (block, tail) ↦ some (before, skip_newline (drop (length fence_end) tail))
    ]
  ]

  -- `replaceFencedBlock`
  unfoldable pub replace_fenced_block : Text → Text → Text
  unfolding around_block
  replace_fenced_block s new_block = elim (around_block s) [
    | none ↦ s
    | some (before, after) ↦ before ++ (new_block ++ after)
  ]

  -- `removeFencedBlock`
  unfoldable pub remove_fenced_block : Text → Text
  unfolding around_block
  remove_fenced_block s = elim (around_block s) [
    | none ↦ s
    | some (before, after) ↦ settle before ++ after
  ]

  -- `buildClaudeMDContent` behind the read: the text with the block in it.
  unfoldable pub with_block : Text → Text → Text
  unfolding replace_fenced_block
  with_block block existing =
      if contains fence_start existing
      then replace_fenced_block existing block
      else existing ++ (spacing existing ++ block)

  -- `stripVedoxBlock` behind the read: the new text, or nothing where there is no block.
  unfoldable pub without_block : Text → Option Text
  unfolding remove_fenced_block
  without_block s = if contains fence_start s then some (remove_fenced_block s) else none
