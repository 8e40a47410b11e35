-- ===== src/History/Tests.antt =====
-- Two small documents, and the theorems at them.
use vedox.Base.{
  length, ◌≤◌, List, ℕ, ◌≡◌, refl, some, [], ◌∷◌, bytes, bytes_discrete, starts_with, ◌++◌,
}
use vedox.Base.Text.{Text, is_space, trim_left, trim_right, pieces, join_with, squeeze}
use vedox.History.Blocks.{
  BlockKind, Block, hashes, parse_heading, digits, is_list_marker, span, heading_round, fence_round,
  run_round, one_round, body, after_front, split_lines, split_blocks,
}
use vedox.History.Blocks.Coverage.{squeeze_blocks, split_blocks-keeps_text}
use vedox.History.Changes.{
  delete, insert, block_kind_label, EditOp, summarise_change, block_exists_in, delete_change,
  insert_change, block_at, tell, tell_each, inserts_only, deletes_only,
}
use vedox.History.Myers.{
  read, write, zeros, same_raw, snake, furthest, sweep, forward, back_trace, edit_script,
  myers_diff, diff_docs,
}
use vedox.History.Myers.Moves.{Script}
use vedox.History.Myers.Shortest.{edit_script-Script, forward-more_fuel}

-- The computing definitions of the package.
code : Unit {0}
unfolding bytes_discrete starts_with is_space trim_left trim_right pieces join_with squeeze hashes
    parse_heading digits is_list_marker span heading_round fence_round run_round one_round body
    after_front split_lines split_blocks block_kind_label summarise_change block_exists_in
    delete_change insert_change block_at tell tell_each inserts_only deletes_only read write zeros
    same_raw snake furthest sweep forward back_trace edit_script myers_diff diff_docs
code = tt

abbrev line_break : ℕ
line_break = 10

abbrev old_document : Text
old_document = bytes "# A" ++ line_break ∷ line_break ∷ bytes "one"

abbrev new_document : Text
new_document = bytes "# A" ++ line_break ∷ line_break ∷ bytes "two"

abbrev paragraph_of : Text → Block
paragraph_of raw = record {
  kind = BlockKind.paragraph;
  level = 0;
  raw = raw;
  section = bytes "A";
  lang = [];
}

split_example :
    split_blocks old_document
    ≡ record {
      kind = BlockKind.heading;
      level = 1;
      raw = bytes "# A";
      section = bytes "A";
      lang = [];
    }
      ∷ paragraph_of (bytes "one")
      ∷ []
unfolding code
split_example = refl

keeps_text_example : squeeze_blocks (split_blocks old_document) ≡ squeeze old_document
keeps_text_example = split_blocks-keeps_text old_document

edit_script_example :
    edit_script (split_blocks old_document) (split_blocks new_document) ≡ delete 1 ∷ insert 1 ∷ []
unfolding code
edit_script_example = refl

abbrev old_blocks : List Block
old_blocks = paragraph_of (bytes "one") ∷ []

abbrev new_blocks : List Block
new_blocks = paragraph_of (bytes "two") ∷ paragraph_of (bytes "one") ∷ []

edit_script-Script_example :
    Script old_blocks new_blocks 0 0 (edit_script old_blocks new_blocks)
    × ((ops : List EditOp)
        → Script old_blocks new_blocks 0 0 ops
        → length (edit_script old_blocks new_blocks) ≤ length ops)
edit_script-Script_example = edit_script-Script old_blocks new_blocks

forward-more_fuel_example :
    (forward old_blocks new_blocks 3 9 0 (zeros 8) []
      ≡ forward old_blocks new_blocks 3 4 0 (zeros 8) [])
    × ((forward old_blocks new_blocks 3 4 0 (zeros 8) []).1 ≤ 3)
forward-more_fuel_example = forward-more_fuel old_blocks new_blocks 5

one_insert : edit_script old_blocks new_blocks ≡ insert 0 ∷ []
unfolding code
one_insert = refl

-- A second copy of a paragraph that stood there before is not told at all.
second_copy_is_not_told :
    diff_docs (bytes "one") (bytes "one" ++ line_break ∷ line_break ∷ bytes "one") ≡ some []
unfolding code
second_copy_is_not_told = refl
