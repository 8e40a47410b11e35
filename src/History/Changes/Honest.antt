-- ===== src/History/Changes/Honest.antt =====
-- What a change says of the two documents is so.
use vedox.Base.{ℕ, zero, suc, ◌≡◌, ◌≢◌, Option, none, some, List, [], Among, All}
use vedox.Base.Text.{Text}
use vedox.History.Blocks.{
  BlockKind, Block, frontmatter, heading, paragraph, code_fence, list_item, unknown,
}
use vedox.History.Changes.{Change, added, removed, moved, change_of, modification, Told, one, two}

-- The text stands in no block.
abbrev Absent : Text → List Block → Type 0
Absent raw bs = (b : Block) → Among b bs → b.raw ≢ raw

-- The text stands in a block.
abbrev Present : Text → List Block → Type 0
Present raw bs = (b : Block) × Among b bs × (b.raw ≡ raw)

-- A change that is true of the old and the new blocks.
pub data IsHonest (old_blocks new_blocks : List Block) (ch : Change) : Type 0 where
  was_added :
      (b : Block)
      → Among b new_blocks
      → Absent b.raw old_blocks
      → ch ≡ change_of added b [] b.raw
      → IsHonest old_blocks new_blocks ch
  was_removed :
      (b : Block)
      → Among b old_blocks
      → Absent b.raw new_blocks
      → ch ≡ change_of removed b b.raw []
      → IsHonest old_blocks new_blocks ch
  was_moved :
      (b : Block)
      → Among b old_blocks
      → Present b.raw new_blocks
      → ch ≡ change_of moved b b.raw b.raw
      → IsHonest old_blocks new_blocks ch
  was_modified :
      (b c : Block)
      → Among b old_blocks
      → Among c new_blocks
      → b.kind ≡ c.kind
      → b.section ≡ c.section
      → b.kind ≢ heading
      → ch ≡ modification b c
      → IsHonest old_blocks new_blocks ch

abbrev kind_of_rank : ℕ → BlockKind
kind_of_rank zero = frontmatter
kind_of_rank (suc zero) = heading
kind_of_rank (suc (suc zero)) = paragraph
kind_of_rank (suc (suc (suc zero))) = code_fence
kind_of_rank (suc (suc (suc (suc zero)))) = list_item
kind_of_rank _ = unknown

abbrev AllHonest : List Block → List Block → Option (List Change) → Type 0
AllHonest old_blocks new_blocks none = Unit
AllHonest old_blocks new_blocks (some cs) = All (IsHonest old_blocks new_blocks) cs

abbrev ToldHonest : List Block → List Block → Option Told → Type 0
ToldHonest old_blocks new_blocks none = Unit
ToldHonest old_blocks new_blocks (some (one cs)) = All (IsHonest old_blocks new_blocks) cs
ToldHonest old_blocks new_blocks (some (two cs)) = All (IsHonest old_blocks new_blocks) cs
