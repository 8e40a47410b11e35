-- ===== src/History/Myers/Moves.antt =====
-- Edit scripts as walks over the grid of the old and the new blocks.
use mathlib.Core.Path.{subst}
use vedox.Base.{
  ℕ, zero, suc, ◌+◌, ◌<◌, ◌≤◌, ◌≡◌, refl, Bool-cases, true, Option-cases, some, inl, inr, List, [],
  ◌∷◌, length, arith,
}
use vedox.History.Blocks.{Block}
use vedox.History.Changes.{EditOp, delete, insert, block_at}
use vedox.History.Myers.{same_raw, snake}

block_at-lt : (bs : List Block) (i : ℕ) (b : Block) → block_at bs i ≡ some b → i < length bs
unfolding block_at
block_at-lt [] i b h = cc
block_at-lt (c ∷ bs) zero b h = omega arith
block_at-lt (c ∷ bs) (suc i) b h = omega (arith, block_at-lt bs i b h)

subst2 : (P : ℕ → ℕ → Type 0) {x x' y y' : ℕ} → x ≡ x' → y ≡ y' → P x y → P x' y'
subst2 P {x} {x'} {y} {y'} p q h = subst (λ i. P i y') p (subst (λ j. P x j) q h)

module _ (old new : List Block) where
  -- The blocks at `x` and `y` are there and equal.
  abbrev pub Same : ℕ → ℕ → Type 0
  Same x y = same_raw (block_at old x) (block_at new y) ≡ true

  Same-lt : (x y : ℕ) → Same x y → (x < length old) × (y < length new)
  unfolding same_raw
  Same-lt x y h = elim (Option-cases (block_at old x)) [
    | inl e ↦ absurd (ground (arith, e))
    | inr (b, e) ↦ elim (Option-cases (block_at new y)) [
      | inl f ↦ absurd (ground (arith, e, f))
      | inr (c, f) ↦ (block_at-lt old x b e, block_at-lt new y c f)
    ]
  ]

  pub Same-at : {x y x' y' : ℕ} → x ≡ x' → y ≡ y' → Same x y → Same x' y'
  Same-at p q s = subst2 Same p q s

  -- A walk from the start to (x, y), with `a` deletions and `b` insertions.
  pub data Walk : ℕ → ℕ → ℕ → ℕ → Type 0 where
    origin : Walk zero zero zero zero
    keeps : {x y a b : ℕ} → Walk x y a b → Same x y → Walk (suc x) (suc y) a b
    deletes : {x y a b : ℕ} → Walk x y a b → x < length old → Walk (suc x) y (suc a) b
    inserts : {x y a b : ℕ} → Walk x y a b → y < length new → Walk x (suc y) a (suc b)

  -- What is left of a script at (x, y): the operations lead to the end.
  pub data Script : ℕ → ℕ → List EditOp → Type 0 where
    done : {x y : ℕ} → x ≡ length old → y ≡ length new → Script x y []
    keep : {x y : ℕ} {ops : List EditOp} → Same x y → Script (suc x) (suc y) ops → Script x y ops
    drops :
        {x y : ℕ} {ops : List EditOp}
        → x < length old
        → Script (suc x) y ops
        → Script x y (delete x ∷ ops)
    puts :
        {x y : ℕ} {ops : List EditOp}
        → y < length new
        → Script x (suc y) ops
        → Script x y (insert y ∷ ops)

  pub Walk-diagonal : {x y a b : ℕ} → Walk x y a b → x + b ≡ y + a
  Walk-diagonal origin = refl
  Walk-diagonal (keeps w s) = omega (arith, Walk-diagonal w)
  Walk-diagonal (deletes w h) = omega (arith, Walk-diagonal w)
  Walk-diagonal (inserts w h) = omega (arith, Walk-diagonal w)

  pub Walk-at : {x y x' y' a b : ℕ} → x ≡ x' → y ≡ y' → Walk x y a b → Walk x' y' a b
  Walk-at {x} {y} {x'} {y'} {a} {b} p q w =
      subst (λ i. Walk i y' a b) p (subst (λ j. Walk x j a b) q w)

  pub Script-at :
      {x y x' y' : ℕ} {ops : List EditOp} → x ≡ x' → y ≡ y' → Script x y ops → Script x' y' ops
  Script-at {x} {y} {x'} {y'} {ops} p q s =
      subst (λ i. Script i y' ops) p (subst (λ j. Script x j ops) q s)

  -- The snake walks over equal blocks.
  pub snake-Walk :
      (fuel x y a b : ℕ)
      → Walk x y a b
      → Walk (x + snake old new fuel x y) (y + snake old new fuel x y) a b
  unfolding snake
  snake-Walk zero x y a b w = Walk-at (omega arith) (omega arith) w
  snake-Walk (suc fuel) x y a b w = elim (Bool-cases (same_raw (block_at old x) (block_at new y))) [
    | inl s ↦
        let more = snake-Walk fuel (suc x) (suc y) a b (keeps w s) in
        Walk-at (ground (arith, s)) (ground (arith, s)) more
    | inr s ↦ Walk-at (ground (arith, s)) (ground (arith, s)) w
  ]

  -- A script from the snake's end is one from its start.
  pub snake-Script :
      (fuel x y : ℕ) (ops : List EditOp)
      → Script (x + snake old new fuel x y) (y + snake old new fuel x y) ops
      → Script x y ops
  unfolding snake
  snake-Script zero x y ops r = Script-at (omega arith) (omega arith) r
  snake-Script (suc fuel) x y ops r =
      elim (Bool-cases (same_raw (block_at old x) (block_at new y))) [
        | inl s ↦ keep s (
            snake-Script fuel (suc x) (suc y) ops
              (Script-at (ground (arith, s)) (ground (arith, s)) r))
        | inr s ↦ Script-at (ground (arith, s)) (ground (arith, s)) r
      ]

  -- With enough fuel it stops where the blocks differ or one side has ended.
  pub snake_stops :
      (fuel x y : ℕ)
      → length old ≤ x + fuel
      → Same (x + snake old new fuel x y) (y + snake old new fuel x y)
      → ⊥
  unfolding snake
  snake_stops zero x y h s = omega (arith, (Same-lt (x + 0) (y + 0) s).0)
  snake_stops (suc fuel) x y h r = elim (Bool-cases (same_raw (block_at old x) (block_at new y))) [
    | inl s ↦
        snake_stops fuel (suc x) (suc y) (omega arith)
          (subst2 Same (ground (arith, s)) (ground (arith, s)) r)
    | inr s ↦
        let e : same_raw (block_at old x) (block_at new y) ≡ true =
          subst2 Same (ground (arith, s)) (ground (arith, s)) r in
        cc
  ]

  -- Off the grid it takes no step.
  pub snake_off : (fuel x y : ℕ) → (x < length old → length new ≤ y) → snake old new fuel x y ≡ 0
  unfolding snake
  snake_off zero x y h = refl
  snake_off (suc fuel) x y h = elim (Bool-cases (same_raw (block_at old x) (block_at new y))) [
    | inl s ↦ let (p, q) = Same-lt x y s in absurd (omega (arith, h p))
    | inr s ↦ ground (arith, s)
  ]

  pub Walk-bounds :
      {x y a b : ℕ} → Walk x y a b → (x ≤ length old) × (y ≤ length new) × (a ≤ x) × (b ≤ y)
  Walk-bounds origin = omega arith
  Walk-bounds (keeps {x} {y} w s) = omega (arith, Walk-bounds w, Same-lt x y s)
  Walk-bounds (deletes w h) = omega (arith, Walk-bounds w)
  Walk-bounds (inserts w h) = omega (arith, Walk-bounds w)

  -- A walk and what is left of a script make a walk to the end, of as many operations.
  pub Script-Walk :
      {x y a b : ℕ} {ops : List EditOp}
      → Walk x y a b
      → Script x y ops
      → (c : ℕ) × (d : ℕ) × (Walk (length old) (length new) c d) × (c + d ≡ a + b + length ops)
  Script-Walk {a} {b} w (done p q) = (a, b, Walk-at p q w, omega arith)
  Script-Walk w (keep s r) = Script-Walk (keeps w s) r
  Script-Walk w (drops h r) =
      let (c, d, v, e) = Script-Walk (deletes w h) r in (c, d, v, omega arith)
  Script-Walk w (puts h r) =
      let (c, d, v, e) = Script-Walk (inserts w h) r in (c, d, v, omega arith)

  -- One may always delete every old block and insert every new one.
  all_deleted : (x : ℕ) → x ≤ length old → Walk x 0 x 0
  all_deleted zero h = origin
  all_deleted (suc x) h = deletes (all_deleted x (omega arith)) (omega arith)

  pub all_replaced : (y : ℕ) → y ≤ length new → Walk (length old) y (length old) y
  all_replaced zero h = all_deleted (length old) (omega arith)
  all_replaced (suc y) h = inserts (all_replaced y (omega arith)) (omega arith)
