-- ===== src/History/Blocks/Coverage.antt =====
-- The blocks of a document hold all of its text, in order.
use vedox.Base.{
  ℕ, zero, suc, ◌<◌, ◌≤◌, ◌≡◌, refl, ap, sym, ◌∙◌, Bool, Bool-cases, true, false, none, some, inl,
  inr, List, [], ◌∷◌, ◌++◌, not, arith, is_empty, length, starts_with, take, if◌then◌else◌,
}
use vedox.Base.Text.{
  Text, newline, trim_space, split_at_each, join_with, squeeze, squeeze_each, squeeze-trim_space,
  squeeze-pieces, squeeze-join_with, append-nil, append_assoc, squeeze_each-append,
}
use vedox.History.Blocks.{
  BlockKind, Block, Round, parse_heading, is_list_marker, span, close_fence, heading_round,
  fence_round, run_round, one_round, body, after_front, split_lines, split_blocks, is_rule,
  is_fence, continues_list, continues_paragraph, list_item, paragraph,
}

-- The text of the blocks, without white space.
abbrev pub squeeze_blocks : List Block → Text
squeeze_blocks [] = []
squeeze_blocks (b ∷ bs) = squeeze b.raw ++ squeeze_blocks bs

-- Nothing is lost in one round, and no line comes back.
abbrev Keeps : Text → List Text → Round → Type 0
Keeps line lines r =
    (squeeze_blocks r.emitted ++ squeeze_each r.remaining ≡ squeeze line ++ squeeze_each lines)
    × (length r.remaining ≤ length lines)

squeeze_blocks-append :
    (cs bs : List Block) → squeeze_blocks (cs ++ bs) ≡ squeeze_blocks cs ++ squeeze_blocks bs
squeeze_blocks-append [] bs = refl
squeeze_blocks-append (a ∷ cs) bs =
    ap (◌++◌ (squeeze a.raw)) (squeeze_blocks-append cs bs)
    ∙ sym (append_assoc (squeeze a.raw) (squeeze_blocks cs) (squeeze_blocks bs))

span-keeps :
    (keep : Text → Bool) (lines : List Text)
    → squeeze_each (span keep lines).0 ++ squeeze_each (span keep lines).1 ≡ squeeze_each lines
unfolding span
span-keeps keep [] = refl
span-keeps keep (line ∷ lines) = ground (
  arith,
  span-keeps keep lines,
  append_assoc (squeeze line) (squeeze_each (span keep lines).0) (squeeze_each (span keep lines).1),
)

span-length : (keep : Text → Bool) (lines : List Text) → length (span keep lines).1 ≤ length lines
unfolding span
span-length keep [] = omega arith
span-length keep (line ∷ lines) = ground (arith, span-length keep lines)

close_fence-keeps :
    (split : List Text × List Text)
    → squeeze_each (close_fence split).0 ++ squeeze_each (close_fence split).1
      ≡ squeeze_each split.0 ++ squeeze_each split.1
close_fence-keeps (inside, []) = refl
close_fence-keeps (inside, line ∷ rest) =
    ap (λ t. t ++ squeeze_each rest) (squeeze_each-append inside (line ∷ []))
    ∙ append_assoc (squeeze_each inside) (squeeze line ++ []) (squeeze_each rest)
    ∙ ap (λ t. squeeze_each inside ++ (t ++ squeeze_each rest)) (append-nil (squeeze line))

close_fence-length : (split : List Text × List Text) → length (close_fence split).1 ≤ length split.1
close_fence-length (inside, []) = omega arith
close_fence-length (inside, line ∷ rest) = omega arith

empty-squeeze : (t : Text) → is_empty t ≡ true → squeeze t ≡ []
unfolding squeeze
empty-squeeze [] h = refl
empty-squeeze (c ∷ t) h = cc

blank-squeeze : (line : Text) → is_empty (trim_space line) ≡ true → squeeze line ≡ []
blank-squeeze line h = sym (squeeze-trim_space line) ∙ empty-squeeze (trim_space line) h

-- A block that joins its lines, and the lines left over.
joined-keeps :
    (line : Text) (lines : List Text) (split : List Text × List Text) (raw : Text)
    → squeeze raw ≡ squeeze (join_with newline (line ∷ split.0))
    → squeeze_each split.0 ++ squeeze_each split.1 ≡ squeeze_each lines
    → (squeeze raw ++ []) ++ squeeze_each split.1 ≡ squeeze line ++ squeeze_each lines
joined-keeps line lines split raw e kept =
    ap (λ t. t ++ squeeze_each split.1)
      (append-nil (squeeze raw) ∙ e ∙ squeeze-join_with (line ∷ split.0))
    ∙ append_assoc (squeeze line) (squeeze_each split.0) (squeeze_each split.1)
    ∙ ap (◌++◌ (squeeze line)) kept

run_round-Keeps :
    (kind : BlockKind) (continues : Text → Bool) (current line : Text) (lines : List Text)
    → Keeps line lines (run_round kind continues current line lines)
unfolding run_round
run_round-Keeps kind continues current line lines =
    let split = span continues lines in
    (
      joined-keeps line lines split (trim_space (join_with newline (line ∷ split.0)))
          (squeeze-trim_space (join_with newline (line ∷ split.0))) (span-keeps continues lines),
      span-length continues lines,
    )

fence_round-Keeps :
    (current line trimmed : Text) (lines : List Text)
    → Keeps line lines (fence_round current line trimmed lines)
unfolding fence_round
fence_round-Keeps current line trimmed lines =
    let inside : Text → Bool = λ l. not (starts_with (trim_space l) (take 3 trimmed)) in
    let split = span inside lines in
    (
      joined-keeps line lines (close_fence split) (join_with newline (line ∷ (close_fence split).0))
          refl (close_fence-keeps split ∙ span-keeps inside lines),
      omega (arith, close_fence-length split, span-length inside lines),
    )

heading_round-Keeps :
    (line : Text) (h : ℕ × Text) (lines : List Text)
    → Keeps line lines (heading_round (trim_space line) h lines)
unfolding heading_round
heading_round-Keeps line (level, rest) lines = (
  ap (λ t. t ++ squeeze_each lines)
      (append-nil (squeeze (trim_space line)) ∙ squeeze-trim_space line),
  omega arith,
)

if-Keeps :
    (b : Bool) (line : Text) (lines : List Text) (x y : Round)
    → (b ≡ true → Keeps line lines x)
    → Keeps line lines y
    → Keeps line lines (if b then x else y)
if-Keeps true line lines x y kx ky = kx refl
if-Keeps false line lines x y kx ky = ky

one_round-Keeps :
    (current line : Text) (lines : List Text) → Keeps line lines (one_round current line lines)
unfolding one_round
one_round-Keeps current line lines =
    let trimmed = trim_space line in
    if-Keeps (is_empty trimmed) line lines
      (record { emitted = []; current_section = current; remaining = lines }) _
      (λ e. (ap (λ t. t ++ squeeze_each lines) (sym (blank-squeeze line e)), omega arith))
      (elim (parse_heading trimmed)
        as (λ o. Keeps line lines (elim o [
          | some h ↦ heading_round trimmed h lines
          | none ↦
              if is_fence trimmed
              then fence_round current line trimmed lines
              else if is_list_marker trimmed
              then run_round list_item continues_list current line lines
              else run_round paragraph continues_paragraph current line lines
        ])) [
          | some h ↦ heading_round-Keeps line h lines
          | none ↦
              if-Keeps (is_fence trimmed) line lines (fence_round current line trimmed lines) _
                (λ e. fence_round-Keeps current line trimmed lines)
                (if-Keeps (is_list_marker trimmed) line lines
                  (run_round list_item continues_list current line lines) _
                  (λ e. run_round-Keeps list_item continues_list current line lines)
                  (run_round-Keeps paragraph continues_paragraph current line lines))
        ])

body-keeps :
    (n : ℕ) (current : Text) (lines : List Text)
    → length lines ≤ n
    → squeeze_blocks (body n current lines) ≡ squeeze_each lines
unfolding body
body-keeps zero current [] h = refl
body-keeps zero current (line ∷ lines) h = absurd (omega arith)
body-keeps (suc n) current [] h = refl
body-keeps (suc n) current (line ∷ lines) h =
    let r = one_round current line lines in
    let k : Keeps line lines r = one_round-Keeps current line lines in
    squeeze_blocks-append r.emitted (body n r.current_section r.remaining)
    ∙ ap (◌++◌ (squeeze_blocks r.emitted))
        (body-keeps n r.current_section r.remaining (omega (arith, h, k.1)))
    ∙ k.0

after_front-keeps :
    (n : ℕ) (line : Text) (lines : List Text) (split : List Text × List Text)
    → squeeze_each split.0 ++ squeeze_each split.1 ≡ squeeze_each lines
    → length split.1 ≤ length lines
    → length lines < n
    → squeeze_blocks (after_front n line lines split) ≡ squeeze line ++ squeeze_each lines
unfolding after_front
after_front-keeps n line lines (inside, []) kept shorter h =
    body-keeps n [] (line ∷ lines) (omega (arith, h))
after_front-keeps n line lines (inside, closing ∷ rest) kept shorter h =
    ap (◌++◌ (squeeze (join_with newline (line ∷ inside ++ closing ∷ []))))
      (body-keeps n [] rest (omega (arith, shorter, h)))
    ∙ ap (λ t. t ++ squeeze_each rest) (squeeze-join_with (line ∷ inside ++ closing ∷ []))
    ∙ append_assoc (squeeze line) (squeeze_each (inside ++ closing ∷ [])) (squeeze_each rest)
    ∙ ap (◌++◌ (squeeze line)) (close_fence-keeps (inside, closing ∷ rest) ∙ kept)

split_lines-keeps :
    (n : ℕ) (lines : List Text)
    → length lines ≤ n
    → squeeze_blocks (split_lines n lines) ≡ squeeze_each lines
unfolding split_lines
split_lines-keeps n [] h = refl
split_lines-keeps n (line ∷ lines) h = elim (Bool-cases (is_rule line)) [
  | inl e ↦
      let inside : Text → Bool = λ l. not (is_rule l) in
      ground (
        arith,
        e,
        after_front-keeps n line lines (span inside lines) (span-keeps inside lines)
            (span-length inside lines) (omega (arith, h)),
      )
  | inr e ↦ ground (arith, e, body-keeps n [] (line ∷ lines) h)
]

-- splitBlocks loses no text, repeats none and keeps its order: up to white space, the blocks
-- joined together read as the document.
pub split_blocks-keeps_text :
    (content : Text) → squeeze_blocks (split_blocks content) ≡ squeeze content
unfolding split_blocks
split_blocks-keeps_text content =
    let lines = split_at_each newline content in
    split_lines-keeps (length lines) lines (omega arith) ∙ squeeze-pieces content
