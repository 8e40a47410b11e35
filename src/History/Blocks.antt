-- ===== src/History/Blocks.antt =====
-- history/differ.go, `splitBlocks`: a document cut into its structural blocks.
pub mod Coverage
use vedox.Base.{
  ℕ, zero, suc, ◌+◌, bytes, bytes_eq, Bool, true, false, not, ◌&&◌, ◌||◌, Option, none, some, List,
  [], ◌∷◌, ◌++◌, ltb, leb, ◌==◌, if◌then◌else◌, is_empty, starts_with, length, take, drop,
}
use vedox.Base.Text.{Text, newline, trim_space, split_at_each, join_with}

pub data BlockKind : Type 0 where
  frontmatter heading paragraph code_fence list_item unknown : BlockKind

pub record Block : Type 0 where
  pub kind : BlockKind
  pub level : ℕ
  pub raw : Text
  pub section : Text
  pub lang : Text

-- The number of `#` in front.
unfoldable pub hashes : Text → ℕ
hashes [] = 0
hashes (c ∷ s) = let more = hashes s in if c == 35 then suc more else 0

abbrev after_hashes : ℕ → Text → Option (ℕ × Text)
after_hashes level [] = some (level, [])
after_hashes level (c ∷ rest) = if c == 32 then some (level, rest) else none

-- `parseHeading`: the level and the rest of the line.
unfoldable pub parse_heading : Text → Option (ℕ × Text)
parse_heading s =
    if not (starts_with s (bytes "#"))
    then none
    else if ltb 6 (hashes s)
    then none
    else after_hashes (hashes s) (drop (hashes s) s)

unfoldable pub digits : Text → ℕ
digits [] = 0
digits (c ∷ s) = let more = digits s in if leb 48 c && leb c 57 then suc more else 0

abbrev is_bullet : Text → Bool
is_bullet s = starts_with s (bytes "- ") || starts_with s (bytes "* ") || starts_with s (bytes "+ ")

-- `isListMarker`
unfoldable pub is_list_marker : Text → Bool
is_list_marker s =
    if is_empty s
    then false
    else if is_bullet s
    then true
    else ltb 0 (digits s) && starts_with (drop (digits s) s) (bytes ". ")

abbrev is_fence : Text → Bool
is_fence t = starts_with t (bytes "```") || starts_with t (bytes "~~~")

-- A loop `for j < n && keep(lines[j]) { j++ }`: the lines before `j` and those from `j` on.
unfoldable pub span : (Text → Bool) → List Text → List Text × List Text
span keep [] = ([], [])
span keep (line ∷ lines) =
    let more = span keep lines in if keep line then (line ∷ more.0, more.1) else ([], line ∷ lines)

-- The closing line of a fence is part of the block.
abbrev close_fence : List Text × List Text → List Text × List Text
close_fence (inside, []) = (inside, [])
close_fence (inside, line ∷ rest) = (inside ++ line ∷ [], rest)

abbrev continues_list : Text → Bool
continues_list line =
    let t = trim_space line in
    if is_empty t
    then false
    else is_list_marker t || starts_with line (bytes " ") || starts_with line (9 ∷ [])

abbrev is_some {ℓ} : {A : Type ℓ} → Option A → Bool
is_some none = false
is_some (some a) = true

abbrev continues_paragraph : Text → Bool
continues_paragraph line =
    let t = trim_space line in
    if is_empty t
    then false
    else if is_some (parse_heading t)
    then false
    else if is_fence t
    then false
    else not (is_list_marker t)

-- What one round of the loop over the body emits, the section it leaves, and the lines it leaves.
pub record Round : Type 0 where
  pub emitted : List Block
  pub current_section : Text
  pub remaining : List Text

unfoldable pub heading_round : Text → ℕ × Text → List Text → Round
heading_round trimmed (level, rest) lines = record {
  emitted =
      record { kind = heading; level = level; raw = trimmed; section = trim_space rest; lang = [] }
      ∷ [];
  current_section = trim_space rest;
  remaining = lines;
}

unfoldable pub fence_round : Text → Text → Text → List Text → Round
unfolding span
fence_round current line trimmed lines =
    let fence = take 3 trimmed in
    let split = close_fence (span (λ l. not (starts_with (trim_space l) fence)) lines) in
    record {
      emitted =
          record {
            kind = code_fence;
            level = 0;
            raw = join_with newline (line ∷ split.0);
            section = current;
            lang = trim_space (drop 3 trimmed);
          }
          ∷ [];
      current_section = current;
      remaining = split.1;
    }

-- A list or a paragraph: the run of lines, trimmed.
unfoldable pub run_round : BlockKind → (Text → Bool) → Text → Text → List Text → Round
unfolding span
run_round kind continues current line lines =
    let split = span continues lines in
    record {
      emitted =
          record {
            kind = kind;
            level = 0;
            raw = trim_space (join_with newline (line ∷ split.0));
            section = current;
            lang = [];
          }
          ∷ [];
      current_section = current;
      remaining = split.1;
    }

-- The tests of one round, in the order of the code.
unfoldable pub one_round : Text → Text → List Text → Round
one_round current line lines =
    let trimmed = trim_space line in
    if is_empty trimmed
    then record { emitted = []; current_section = current; remaining = lines }
    else (elim (parse_heading trimmed) [
      | some h ↦ heading_round trimmed h lines
      | none ↦
          if is_fence trimmed
          then fence_round current line trimmed lines
          else if is_list_marker trimmed
          then run_round list_item continues_list current line lines
          else run_round paragraph continues_paragraph current line lines
    ])

-- The loop `for i < n`, on fuel.
unfoldable pub body : ℕ → Text → List Text → List Block
body zero current lines = []
body (suc n) current [] = []
body (suc n) current (line ∷ lines) =
    let r = one_round current line lines in r.emitted ++ body n r.current_section r.remaining

abbrev is_rule : Text → Bool
is_rule line = bytes_eq (trim_space line) (bytes "---")

abbrev front_block : List Text → Block
front_block lines = record {
  kind = frontmatter;
  level = 0;
  raw = join_with newline lines;
  section = [];
  lang = [];
}

-- The frontmatter counts only when its closing line is there.
unfoldable pub after_front : ℕ → Text → List Text → List Text × List Text → List Block
unfolding body
after_front fuel line lines (inside, []) = body fuel [] (line ∷ lines)
after_front fuel line lines (inside, closing ∷ rest) =
    front_block (line ∷ inside ++ closing ∷ []) ∷ body fuel [] rest

unfoldable pub split_lines : ℕ → List Text → List Block
unfolding span
split_lines fuel [] = []
split_lines fuel (line ∷ lines) =
    if is_rule line
    then after_front fuel line lines (span (λ l. not (is_rule l)) lines)
    else body fuel [] (line ∷ lines)

-- `splitBlocks`: each round takes a line at least, so the number of lines is fuel enough.
unfoldable pub split_blocks : Text → List Block
split_blocks content = let lines = split_at_each newline content in split_lines (length lines) lines
