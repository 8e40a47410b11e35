-- ===== src/History/Changes.antt =====
-- history/differ.go, `opsToChanges`: the edit operations told as changes of the document.
pub mod Honest
use vedox.Base.{
  zero, suc, ◌==◌, ℕ, bytes, bytes_eq, bytes_discrete, Bool, true, false, not, ◌&&◌, Option, none,
  some, List, [], ◌∷◌, ◌++◌, if◌then◌else◌, is_empty, map,
}
use vedox.Base.Text.{Text}
use vedox.History.Blocks.{
  BlockKind, Block, frontmatter, heading, paragraph, code_fence, list_item, unknown,
}

pub data ChangeType : Type 0 where
  added removed modified moved : ChangeType

pub record Change : Type 0 where
  pub type : ChangeType
  pub kind : BlockKind
  pub section : Text
  pub old_content : Text
  pub new_content : Text
  pub summary : Text

-- `editOp`: an index into the old blocks, or into the new ones.
pub data EditOp : Type 0 where
  delete insert : ℕ → EditOp

-- `blockKindLabel`
unfoldable pub block_kind_label : BlockKind → Text → Text
block_kind_label frontmatter lang = bytes "frontmatter"
block_kind_label heading lang = bytes "heading"
block_kind_label paragraph lang = bytes "paragraph"
block_kind_label code_fence lang =
    if is_empty lang then bytes "code block" else lang ++ bytes " code block"
block_kind_label list_item lang = bytes "list"
block_kind_label unknown lang = bytes "block"

abbrev verb : ChangeType → Text
verb added = bytes "Added "
verb removed = bytes "Removed "
verb modified = bytes "Modified "
verb moved = bytes "Moved "

-- `summariseChange`
unfoldable pub summarise_change : ChangeType → BlockKind → Text → Text → Text
unfolding block_kind_label
summarise_change type kind section lang =
    verb type
    ++ block_kind_label kind lang
    ++ (if is_empty section then [] else bytes " under '" ++ section ++ bytes "'")

abbrev pub change_of : ChangeType → Block → Text → Text → Change
change_of type b old new = record {
  type = type;
  kind = b.kind;
  section = b.section;
  old_content = old;
  new_content = new;
  summary = summarise_change type b.kind b.section b.lang;
}

-- `insertsOnly` and `deletesOnly`
unfoldable pub inserts_only : List Block → List Change
inserts_only bs = map (λ b. change_of added b [] b.raw) bs

unfoldable pub deletes_only : List Block → List Change
deletes_only bs = map (λ b. change_of removed b b.raw []) bs

-- `blockExistsIn`
unfoldable pub block_exists_in : Text → List Block → Bool
block_exists_in raw [] = false
block_exists_in raw (b ∷ bs) =
    let rest = block_exists_in raw bs in if bytes_eq b.raw raw then true else rest

abbrev pub is_heading : BlockKind → Bool
is_heading heading = true
is_heading _ = false

abbrev pub kind_rank : BlockKind → ℕ
kind_rank frontmatter = 0
kind_rank heading = 1
kind_rank paragraph = 2
kind_rank code_fence = 3
kind_rank list_item = 4
kind_rank unknown = 5

-- The test that folds a delete and the insert behind it.
abbrev pub folds : Block → Block → Bool
folds old new =
    (kind_rank old.kind == kind_rank new.kind)
    && bytes_eq old.section new.section
    && not (is_heading old.kind)

abbrev pub modification : Block → Block → Change
modification old new = record {
  type = modified;
  kind = old.kind;
  section = old.section;
  old_content = old.raw;
  new_content = new.raw;
  summary = summarise_change modified old.kind old.section new.lang;
}

-- A delete that is not folded.
unfoldable pub delete_change : List Block → Block → Change
delete_change new_blocks old =
    if block_exists_in old.raw new_blocks
    then change_of moved old old.raw old.raw
    else change_of removed old old.raw []

-- An insert that is not folded: one of a text that was there before is skipped.
unfoldable pub insert_change : List Block → Block → List Change
insert_change old_blocks new =
    if block_exists_in new.raw old_blocks then [] else change_of added new [] new.raw ∷ []

-- `bs[i]`, which panics out of range.
unfoldable pub block_at : List Block → ℕ → Option Block
block_at [] i = none
block_at (b ∷ bs) zero = some b
block_at (b ∷ bs) (suc i) = block_at bs i

-- What the head of the operations stands for, and how many follow-ups it takes in.
pub data Told : Type 0 where
  one : List Change → Told
  two : List Change → Told

unfoldable pub tell : List Block → List Block → EditOp → List EditOp → Option Told
tell old_blocks new_blocks (insert j) ops = elim (block_at new_blocks j) [
  | none ↦ none
  | some new ↦ some (one (insert_change old_blocks new))
]
tell old_blocks new_blocks (delete i) (insert j ∷ ops) = elim (block_at old_blocks i) [
  | none ↦ none
  | some old ↦ elim (block_at new_blocks j) [
    | none ↦ none
    | some new ↦
        if folds old new
        then some (two (modification old new ∷ []))
        else some (one (delete_change new_blocks old ∷ []))
  ]
]
tell old_blocks new_blocks (delete i) ops = elim (block_at old_blocks i) [
  | none ↦ none
  | some old ↦ some (one (delete_change new_blocks old ∷ []))
]

abbrev pub prepend : List Change → Option (List Change) → Option (List Change)
prepend cs none = none
prepend cs (some ds) = some (cs ++ ds)

-- The loop; `true` when the head is an insert that was folded.
unfoldable pub tell_each : List Block → List Block → Bool → List EditOp → Option (List Change)
tell_each old_blocks new_blocks folded [] = some []
tell_each old_blocks new_blocks true (op ∷ ops) = tell_each old_blocks new_blocks false ops
tell_each old_blocks new_blocks false (op ∷ ops) = elim (tell old_blocks new_blocks op ops) [
  | none ↦ none
  | some told ↦ elim told [
    | one cs ↦ prepend cs (tell_each old_blocks new_blocks false ops)
    | two cs ↦ prepend cs (tell_each old_blocks new_blocks true ops)
  ]
]

-- `opsToChanges`
abbrev pub ops_to_changes : List EditOp → List Block → List Block → Option (List Change)
ops_to_changes ops old_blocks new_blocks = tell_each old_blocks new_blocks false ops
