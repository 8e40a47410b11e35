-- ===== src/History/Myers/Frontier.antt =====
-- The furthest points of a round: no walk passes them, and each of them is reached.
use vedox.Base.{
  ℕ, ℕ_discrete, zero, suc, ◌+◌, ◌-◌, ◌≤◌, ◌≡◌, Bool-cases, true, inl, inr, List, length, arith,
}
use vedox.History.Blocks.{Block}
use vedox.History.Myers.Moves.{
  Same, Same-at, Walk, origin, keeps, deletes, inserts, Walk-bounds, snake_stops, Walk-diagonal,
}
use vedox.History.Myers.Rounds.{
  ended, NotYet, furthest_at, start_at, Diagonal, furthest_at_lem, round_missed, came, below,
  start_above,
}

module _ (old new : List Block) (max : ℕ) (size : max ≡ length old + length new) where
  -- The blocks behind a furthest point differ.
  furthest_stops :
      (d i a : ℕ)
      → NotYet old new max d
      → Diagonal old new max d i a
      → let x = furthest_at old new max d i in Same old new x (x + max - i) → ⊥
  furthest_stops d i a h v s =
      let x = start_at old new max d i in
      let e = furthest_at_lem old new max d i in
      snake_stops old new (length old) x (x + max - i) (omega arith)
        (Same-at old new e (omega (arith, e, start_above old new max d i a h v)) s)

  -- No walk of `d` operations passes the furthest point of its diagonal.
  furthest_dominates :
      {x y a b : ℕ} (d i : ℕ)
      → Walk old new x y a b
      → d ≡ a + b
      → i + y ≡ x + max
      → NotYet old new max d
      → x ≤ furthest_at old new max d i
  furthest_dominates d i origin e f h = omega arith
  furthest_dominates {x = suc x} {y = suc y} {a} {b} d i (keeps w s) e f h =
      let far = furthest_dominates d i w e (omega arith) h in
      elim (ℕ_discrete x (furthest_at old new max d i)) [
        | no p ↦ omega (arith, far, p)
        | yes p ↦
            let dia : Diagonal old new max d i a =
              omega (arith, Walk-bounds old new w, Walk-diagonal old new w) in
            absurd (furthest_stops d i a h dia (Same-at old new p (omega (arith, p)) s))
      ]
  furthest_dominates zero i (deletes w q) e f h = absurd (omega arith)
  furthest_dominates {b} (suc d) i (deletes {x} {y} {a} w q) e f h =
      let (p, r, c, t) = Walk-bounds old new w in
      let on = Walk-diagonal old new w in
      let far = furthest_dominates d (i - 1) w (omega arith) (omega arith) (below old new max h) in
      let over = furthest_at_lem old new max (suc d) i in
      let left = (round_missed old new max d (i - 1) a (h d (omega arith)) (omega arith)).0 in
      elim (came old new max d i (suc a) (h d (omega arith)) (omega arith)) [
        | inl (g, here, e', r') ↦ ground (arith, g, far, over, left, e', r', on)
        | inr (g, pos, here, e', r') ↦ omega (arith, far, over, e')
      ]
  furthest_dominates zero i (inserts w q) e f h = absurd (omega arith)
  furthest_dominates (suc d) i (inserts {x} {y} {a} {b} w q) e f h =
      let (p, r, c, t) = Walk-bounds old new w in
      let on = Walk-diagonal old new w in
      let far = furthest_dominates d (i + 1) w (omega arith) (omega arith) (below old new max h) in
      let over = furthest_at_lem old new max (suc d) i in
      let up = (round_missed old new max d (i + 1) a (h d (omega arith)) (omega arith)).0 in
      elim (came old new max d i a (h d (omega arith)) (omega arith)) [
        | inl (g, here, e', r') ↦ omega (arith, far, over, e')
        | inr (g, pos, here, e', r') ↦ ground (arith, g, far, over, up, e', r', on)
      ]

  -- A walk to the end makes a round end, at the latest the one of as many operations.
  pub Walk-ended :
      {a b : ℕ} (d : ℕ)
      → Walk old new (length old) (length new) a b
      → d ≡ a + b
      → NotYet old new max d
      → ended old new max d ≡ true
  Walk-ended {a} {b} d w e h =
      let i = length old + max - length new in
      let far = furthest_dominates d i w e (omega arith) h in
      elim (Bool-cases (ended old new max d)) [
        | inl r ↦ r
        | inr r ↦
            let dia : Diagonal old new max d i a =
              omega (arith, Walk-bounds old new w, Walk-diagonal old new w) in
            absurd (ground (arith, (round_missed old new max d i a r dia).1))
      ]
