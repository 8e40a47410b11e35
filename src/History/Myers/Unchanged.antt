-- ===== src/History/Myers/Unchanged.antt =====
-- A document against itself.
use vedox.Base.{
  ℕ, zero, suc, ◌+◌, ◌-◌, ◌*◌, ◌<◌, ◌≡◌, refl, ap, ◌∙◌, bytes_eq_refl, true, some, List, [], ◌∷◌,
  length, arith,
}
use vedox.Base.Text.{Text}
use vedox.History.Blocks.{Block, split_blocks}
use vedox.History.Changes.{block_at, tell_each}
use vedox.History.Myers.{
  read, zeros, same_raw, snake, goes_down, furthest, sweep, forward, back_trace, edit_script,
  myers_diff, diff_docs,
}

block_at_here :
    (old : List Block) (i : ℕ) → i < length old → same_raw (block_at old i) (block_at old i) ≡ true
unfolding block_at same_raw
block_at_here [] i h = absurd (omega arith)
block_at_here (b ∷ old) zero h = bytes_eq_refl b.raw
block_at_here (b ∷ old) (suc i) h = block_at_here old i (omega arith)

-- On the main diagonal every step is free.
snake_self : (old : List Block) (fuel i : ℕ) → i + fuel ≡ length old → snake old old fuel i i ≡ fuel
unfolding snake
snake_self old zero i h = refl
snake_self old (suc fuel) i h =
    ground (
      arith,
      block_at_here old i (omega (arith, h)),
      snake_self old fuel (suc i) (omega (arith, h)),
    )

read-zeros : (n i : ℕ) → read (zeros n) i ≡ 0
unfolding read zeros
read-zeros zero i = refl
read-zeros (suc n) zero = refl
read-zeros (suc n) (suc i) = read-zeros n i

first_move_down : (v : List ℕ) (max : ℕ) → goes_down v max 0 max ≡ true
first_move_down v max = ground arith

minus_self : (n : ℕ) → 0 + n - n ≡ 0
minus_self n = omega arith

furthest_self : (old : List Block) (n max : ℕ) → furthest old old (zeros n) max 0 max ≡ length old
unfolding furthest
furthest_self old n max =
    rw (first_move_down (zeros n) max, read-zeros n (max + 1))
      (rw (minus_self max) (omega (arith, snake_self old (length old) 0 (omega arith))))

sweep_self : (old : List Block) (n max : ℕ) → (sweep old old max 0 1 max (zeros n)).1 ≡ true
unfolding sweep
sweep_self old n max = ground (arith, furthest_self old n max)

minus_zero : (n : ℕ) → n - 0 ≡ n
minus_zero n = omega arith

forward_found :
    (old new : List Block) (max fuel : ℕ) (v : List ℕ)
    → (sweep old new max 0 1 (max - 0) v).1 ≡ true
    → (forward old new max (suc fuel) 0 v []).1 ≡ 0
unfolding forward
forward_found old new max fuel v h = rw (h, forward) refl

no_steps : (max d x y : ℕ) (trace : List (List ℕ)) → d ≡ 0 → back_trace max d x y trace [] ≡ []
unfolding back_trace
no_steps max zero x y trace h = refl
no_steps max (suc d) x y trace h = absurd (omega (arith, h))

-- With nothing to change the search ends at d = 0.
edit_script_self : (old : List Block) → edit_script old old ≡ []
unfolding edit_script
edit_script_self old =
    let max = length old + length old in
    no_steps max _ (length old) (length old) _ (
      forward_found old old max max (zeros (2 * max + 2)) (
        ap (λ k. (sweep old old max 0 1 k (zeros (2 * max + 2))).1) (minus_zero max)
        ∙ sweep_self old (2 * max + 2) max))

myers_diff_self : (old : List Block) → myers_diff old old ≡ some []
unfolding myers_diff tell_each
myers_diff_self [] = refl
myers_diff_self (b ∷ old) = rw (edit_script_self (b ∷ old)) refl

-- DiffDocs of a document with itself reports no change.
diff_docs_self : (content : Text) → diff_docs content content ≡ some []
unfolding diff_docs
diff_docs_self content = myers_diff_self (split_blocks content)
