-- ===== src/History/Myers/Shortest.antt =====
-- The script of `edit_script` leads from the old to the new document, and none is shorter.
use vedox.Base.{
  ℕ, zero, suc, ◌+◌, ◌-◌, ◌*◌, ◌≤◌, ◌≡◌, refl, sym, ◌∙◌, true, false, inl, inr, List, [], ◌∷◌,
  length, arith,
}
use native.Mathlib.Decide.{dec_lt}
use vedox.History.Blocks.{Block}
use vedox.History.Changes.{EditOp, delete, insert}
use vedox.History.Myers.{read, zeros, goes_down, forward, back_trace, edit_script}
use vedox.History.Myers.Moves.{
  origin, Script, done, drops, puts, Script-at, snake-Script, Script-Walk, all_replaced,
}
use vedox.History.Myers.Rounds.{
  before, traces, ended, NotYet, furthest_at, start_at, Diagonal, furthest_at_lem, round_ended,
  came, below, start_above, forward_lem, first_end,
}
use vedox.History.Myers.Frontier.{Walk-ended}
use vedox.History.Myers.Reach.{furthest_above, ended_exactly, none_deleted}

back_trace_down :
    (max d x y k : ℕ) (prev : List ℕ) (trace : List (List ℕ)) (ops : List EditOp)
    → x + max - y ≡ k
    → goes_down prev max (suc d) k ≡ true
    → let px = read prev (k + 1) in
      let py = px + max - (k + 1) in
      back_trace max (suc d) x y (prev ∷ trace) ops ≡ back_trace max d px py trace (insert py ∷ ops)
unfolding back_trace
back_trace_down max d x y k prev trace ops e g = rw e (rw g refl)

back_trace_right :
    (max d x y k : ℕ) (prev : List ℕ) (trace : List (List ℕ)) (ops : List EditOp)
    → x + max - y ≡ k
    → goes_down prev max (suc d) k ≡ false
    → let px = read prev (k - 1) in
      let py = px + max - (k - 1) in
      back_trace max (suc d) x y (prev ∷ trace) ops ≡ back_trace max d px py trace (delete px ∷ ops)
unfolding back_trace
back_trace_right max d x y k prev trace ops e g = rw e (rw g refl)

module _ (old new : List Block) (max : ℕ) (size : max ≡ length old + length new) where
  -- The script behind a furthest point is one behind the first move of its round.
  from_start :
      (d i a : ℕ) (ops : List EditOp)
      → NotYet old new max d
      → Diagonal old new max d i a
      → let x = furthest_at old new max d i in
        Script old new x (x + max - i) ops
        → let s = start_at old new max d i in Script old new s (s + max - i) ops
  from_start d i a ops h v r =
      let x = start_at old new max d i in
      let e = furthest_at_lem old new max d i in
      snake-Script old new (length old) x (x + max - i) ops
        (Script-at old new e (omega (arith, e, start_above old new max d i a h v)) r)

  back_trace-Script :
      (d i a : ℕ) (ops : List EditOp)
      → NotYet old new max d
      → Diagonal old new max d i a
      → let x = furthest_at old new max d i in
        let y = x + max - i in
        x ≤ length old
        → y ≤ length new
        → Script old new x y ops
        → let out = back_trace max d x y (traces old new max d) ops in
          Script old new 0 0 out × (length out ≡ d + length ops)
  unfolding traces back_trace
  back_trace-Script zero i a ops h v p q r =
      let e = none_deleted old new max size i (omega arith) in
      (Script-at old new e (omega (arith, e)) (from_start 0 i a ops h v r), omega arith)
  back_trace-Script (suc d) i a ops h v p q r =
      let x = furthest_at old new max (suc d) i in
      let on : x + max - (x + max - i) ≡ i =
        omega (arith, furthest_above old new max size (suc d) i a h v) in
      let at_start = from_start (suc d) i a ops h v r in
      let h' = below old new max h in
      let over = furthest_at_lem old new max (suc d) i in
      elim (came old new max d i a (h d (omega arith)) v) [
        | inl (g, v', e, b) ↦
            let px = furthest_at old new max d (i + 1) in
            let py = px + max - (i + 1) in
            let above = furthest_above old new max size d (i + 1) a h' v' in
            let moved : Script old new px py (insert py ∷ ops) =
              puts (omega (arith, e, over, above, q))
                (Script-at old new e (omega (arith, e, above)) at_start) in
            let (s, t) =
              back_trace-Script d (i + 1) a (insert py ∷ ops) h' v' (omega (arith, e, over, p))
                (omega (arith, e, over, above, q)) moved in
            let same = back_trace_down max d x (x + max - i) i _ (traces old new max d) ops on g in
            rw (same, b) (s, omega (arith, t))
        | inr (g, pos, v', e, b) ↦
            let px = furthest_at old new max d (i - 1) in
            let py = px + max - (i - 1) in
            let above = furthest_above old new max size d (i - 1) (a - 1) h' v' in
            let moved : Script old new px py (delete px ∷ ops) =
              drops (omega (arith, e, over, p))
                (Script-at old new (omega (arith, e)) (omega (arith, e, above)) at_start) in
            let (s, t) =
              back_trace-Script d (i - 1) (a - 1) (delete px ∷ ops) h' v'
                (omega (arith, e, over, p)) (omega (arith, e, over, above, q)) moved in
            let same = back_trace_right max d x (x + max - i) i _ (traces old new max d) ops on g in
            rw (same, b) (s, omega (arith, t))
      ]

  whole_back_trace-Script :
      (d i a x y : ℕ)
      → NotYet old new max d
      → Diagonal old new max d i a
      → x ≡ furthest_at old new max d i
      → y ≡ furthest_at old new max d i + max - i
      → x ≡ length old
      → y ≡ length new
      → let out = back_trace max d x y (traces old new max d) [] in
        Script old new 0 0 out × (length out ≡ d)
  whole_back_trace-Script d i a x y h v e f p q =
      let (s, t) =
        back_trace-Script d i a [] h v (omega (arith, e, p)) (omega (arith, f, q))
          (done (sym e ∙ p) (sym f ∙ q)) in
      rw (e, f) (s, omega (arith, t))

  -- The search ends within `n + m` rounds.
  some_end : (last : ℕ) × (last ≤ max) × (ended old new max last ≡ true) × NotYet old new max last
  some_end = elim (first_end old new max (suc max)) [
    | inr (last, p, q, r) ↦ (last, omega arith, q, r)
    | inl h ↦
        let all = all_replaced old new (length new) (omega arith) in
        let e = Walk-ended old new max size max all size (λ c p. h c (omega arith)) in
        let f = h max (omega arith) in cc
  ]

  -- A script of fewer operations would have ended the search before.
  no_shorter :
      (last : ℕ) (ops : List EditOp)
      → NotYet old new max last
      → Script old new 0 0 ops
      → last ≤ length ops
  no_shorter last ops h r =
      let (c, d, w, e) = Script-Walk old new origin r in
      elim (dec_lt (c + d) last) [
        | no p ↦ omega (arith, p, e)
        | yes p ↦
            let early = Walk-ended old new max size (c + d) w refl (λ b q. h b (omega arith)) in
            let late = h (c + d) p in cc
      ]

edit_script_lem :
    (old new : List Block) (last : ℕ)
    → let max = length old + length new in
      last ≤ max
      → ended old new max last ≡ true
      → NotYet old new max last
      → edit_script old new
        ≡ back_trace max last (length old) (length new) (traces old new max last) []
unfolding edit_script before traces
edit_script_lem old new last p e h =
    let max = length old + length new in
    let same = forward_lem old new max (suc max) 0 last (omega arith) (omega arith) e h in
    rw same refl

-- The operations of `edit_script`, one after another, lead from the old document to the new one,
-- and no other script does so with fewer.
pub edit_script-Script :
    (old new : List Block)
    → Script old new 0 0 (edit_script old new)
      × ((ops : List EditOp) → Script old new 0 0 ops → length (edit_script old new) ≤ length ops)
edit_script-Script old new =
    let max = length old + length new in
    let (last, le, e, h) = some_end old new max refl in
    let (i, a, v, r) = round_ended old new max last le e in
    let (p, q) = ended_exactly old new max refl last i a h v r in
    let (s, t) =
      whole_back_trace-Script old new max refl last i a _ _ h v (sym p) (sym q) refl refl in
    rw (edit_script_lem old new last le e h) (
      s,
      λ (ops : List EditOp) (k : Script old new 0 0 ops).
          omega (arith, t, no_shorter old new max refl last ops h k),
    )

-- The search ends by its own test, within `n + m` rounds: more rounds than the bound of the loop
-- change nothing.
pub forward-more_fuel :
    (old new : List Block) (extra : ℕ)
    → let max = length old + length new in
      let v = zeros (2 * max + 2) in
      (forward old new max (suc max + extra) 0 v [] ≡ forward old new max (suc max) 0 v [])
      × ((forward old new max (suc max) 0 v []).1 ≤ max)
unfolding before traces
forward-more_fuel old new extra =
    let max = length old + length new in
    let (last, le, e, h) = some_end old new max refl in
    let short = forward_lem old new max (suc max) 0 last (omega arith) (omega arith) e h in
    let long = forward_lem old new max (suc max + extra) 0 last (omega arith) (omega arith) e h in
    (long ∙ sym short, rw short le)
