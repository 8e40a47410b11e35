-- ===== src/History/Myers/Reach.antt =====
-- The furthest points are reached: a round's points, cut off at the end of the grid, are those of
-- walks of no more operations.
use vedox.Base.{
  ℕ, zero, suc, ◌+◌, ◌-◌, ◌*◌, ◌≤◌, ◌≡◌, refl, sym, true, inl, inr, List, length, arith,
}
use native.Mathlib.Decide.{dec_lt}
use vedox.History.Blocks.{Block}
use vedox.History.Myers.{snake}
use vedox.History.Myers.Array.{read-zeros}
use vedox.History.Myers.Moves.{
  Walk, origin, deletes, inserts, Walk-at, Walk-bounds, snake-Walk, snake_off,
}
use vedox.History.Myers.Sweep.{is_end}
use vedox.History.Myers.Rounds.{
  before, NotYet, furthest_at, start_at, Diagonal, furthest_at_lem, came, below, start_above,
}
use vedox.History.Myers.Frontier.{Walk-ended}

module _ (old new : List Block) where
  -- A walk of at most `d` operations ends at (x, y), where each step off the grid counts as one.
  pub record Reached (d x y : ℕ) : Type 0 where
    pub across : ℕ
    pub along : ℕ
    pub deleted : ℕ
    pub inserted : ℕ
    pub walk : Walk old new across along deleted inserted
    pub cut_across : across ≡ x - (x - length old)
    pub cut_along : along ≡ y - (y - length new)
    pub cost : deleted + inserted + (x - length old) + (y - length new) ≤ d

  Reached-at : (d x y : ℕ) {x' y' : ℕ} → x ≡ x' → y ≡ y' → Reached d x y → Reached d x' y'
  Reached-at d x y {x'} {y'} p q r = record {
    across = r.across;
    along = r.along;
    deleted = r.deleted;
    inserted = r.inserted;
    walk = r.walk;
    cut_across = omega (arith, r.cut_across);
    cut_along = omega (arith, r.cut_along);
    cost = omega (arith, r.cost);
  }

  right_of : (d x y : ℕ) → Reached d x y → Reached (suc d) (x + 1) y
  right_of d x y r = elim (dec_lt x (length old)) [
    | yes p ↦ record {
      across = suc r.across;
      along = r.along;
      deleted = suc r.deleted;
      inserted = r.inserted;
      walk = deletes r.walk (omega (arith, r.cut_across));
      cut_across = omega (arith, p, r.cut_across);
      cut_along = r.cut_along;
      cost = omega (arith, p, r.cost);
    }
    | no p ↦ record {
      across = r.across;
      along = r.along;
      deleted = r.deleted;
      inserted = r.inserted;
      walk = r.walk;
      cut_across = omega (arith, p, r.cut_across);
      cut_along = r.cut_along;
      cost = omega (arith, p, r.cost);
    }
  ]

  down_of : (d x y : ℕ) → Reached d x y → Reached (suc d) x (y + 1)
  down_of d x y r = elim (dec_lt y (length new)) [
    | yes p ↦ record {
      across = r.across;
      along = suc r.along;
      deleted = r.deleted;
      inserted = suc r.inserted;
      walk = inserts r.walk (omega (arith, r.cut_along));
      cut_across = r.cut_across;
      cut_along = omega (arith, p, r.cut_along);
      cost = omega (arith, p, r.cost);
    }
    | no p ↦ record {
      across = r.across;
      along = r.along;
      deleted = r.deleted;
      inserted = r.inserted;
      walk = r.walk;
      cut_across = r.cut_across;
      cut_along = omega (arith, p, r.cut_along);
      cost = omega (arith, p, r.cost);
    }
  ]

  snake-Reached :
      (fuel d x y : ℕ)
      → Reached d x y
      → Reached d (x + snake old new fuel x y) (y + snake old new fuel x y)
  snake-Reached fuel d x y r = elim (dec_lt x (length old)) [
    | no p ↦
        let e = snake_off old new fuel x y (λ q. absurd (p q)) in
        Reached-at d x y (omega (arith, e)) (omega (arith, e)) r
    | yes p ↦ elim (dec_lt y (length new)) [
      | no q ↦
          let e = snake_off old new fuel x y (λ _. omega (arith, q)) in
          Reached-at d x y (omega (arith, e)) (omega (arith, e)) r
      | yes q ↦
          let s = snake old new fuel x y in
          let here : r.across ≡ x = omega (arith, r.cut_across) in
          let there : r.along ≡ y = omega (arith, r.cut_along) in
          let w =
            snake-Walk old new fuel x y r.deleted r.inserted (Walk-at old new here there r.walk) in
          let bounds = Walk-bounds old new w in
          record {
            across = x + s;
            along = y + s;
            deleted = r.deleted;
            inserted = r.inserted;
            walk = w;
            cut_across = omega (arith, bounds);
            cut_along = omega (arith, bounds);
            cost = omega (arith, bounds, r.cost);
          }
    ]
  ]

  start_Reached : Reached 0 0 0
  start_Reached = record {
    across = 0;
    along = 0;
    deleted = 0;
    inserted = 0;
    walk = origin;
    cut_across = omega arith;
    cut_along = omega arith;
    cost = omega arith;
  }

module _ (old new : List Block) (max : ℕ) (size : max ≡ length old + length new) where
  pub none_deleted : (i : ℕ) → i ≡ max → start_at old new max 0 i ≡ 0
  unfolding before
  none_deleted i h = ground (arith, read-zeros (2 * max + 2) (i + 1))

  pub furthest_above :
      (d i a : ℕ)
      → NotYet old new max d
      → Diagonal old new max d i a
      → i ≤ furthest_at old new max d i + max
  furthest_above d i a h v =
      omega (arith, furthest_at_lem old new max d i, start_above old new max d i a h v)

  behind_start :
      (d i a : ℕ)
      → NotYet old new max d
      → Diagonal old new max d i a
      → Reached old new d (start_at old new max d i) (start_at old new max d i + max - i)
      → Reached old new d (furthest_at old new max d i) (furthest_at old new max d i + max - i)
  behind_start d i a h v r =
      let x = start_at old new max d i in
      let e = furthest_at_lem old new max d i in
      Reached-at old new d _ _ (sym e) (omega (arith, e, start_above old new max d i a h v))
        (snake-Reached old new (length old) d x (x + max - i) r)

  start_at-Reached :
      (d i a : ℕ)
      → NotYet old new max d
      → Diagonal old new max d i a
      → Reached old new d (start_at old new max d i) (start_at old new max d i + max - i)
  start_at-Reached zero i a h v =
      let e = none_deleted i (omega arith) in
      Reached-at old new 0 0 0 (omega (arith, e)) (omega (arith, e)) (start_Reached old new)
  start_at-Reached (suc d) i a h v = elim (came old new max d i a (h d (omega arith)) v) [
    | inl (g, v', e, r) ↦
        let h' = below old new max h in
        let x = furthest_at old new max d (i + 1) in
        let before_it = behind_start d (i + 1) a h' v' (start_at-Reached d (i + 1) a h' v') in
        Reached-at old new (suc d) _ _ (sym e) (omega (arith, e, furthest_above d (i + 1) a h' v'))
          (down_of old new d x (x + max - (i + 1)) before_it)
    | inr (g, pos, v', e, r) ↦
        let h' = below old new max h in
        let x = furthest_at old new max d (i - 1) in
        let before_it =
          behind_start d (i - 1) (a - 1) h' v' (start_at-Reached d (i - 1) (a - 1) h' v') in
        Reached-at old new (suc d) _ _ (sym e)
          (omega (arith, e, furthest_above d (i - 1) (a - 1) h' v'))
          (right_of old new d x (x + max - (i - 1)) before_it)
  ]

  -- The round that ends the search does so at the end itself, not behind it.
  pub ended_exactly :
      (d i a : ℕ)
      → NotYet old new max d
      → Diagonal old new max d i a
      → is_end old new max d (furthest_at old new max d i) i ≡ true
      → (furthest_at old new max d i ≡ length old)
        × (furthest_at old new max d i + max - i ≡ length new)
  ended_exactly d i a h v e =
      let x = furthest_at old new max d i in
      let (past, under) : (length old ≤ x) × (length new ≤ x + max - i) = ground (arith, e) in
      let r = behind_start d i a h v (start_at-Reached d i a h v) in
      elim (dec_lt (r.deleted + r.inserted) d) [
        | no p ↦ omega (arith, p, past, under, r.cost)
        | yes p ↦
            let w : Walk old new (length old) (length new) r.deleted r.inserted =
              Walk-at old new (omega (arith, r.cut_across, past))
                (omega (arith, r.cut_along, under)) r.walk in
            let early =
              Walk-ended old new max size (r.deleted + r.inserted) w refl
                (λ c q. h c (omega arith)) in
            let late = h (r.deleted + r.inserted) p in cc
      ]
