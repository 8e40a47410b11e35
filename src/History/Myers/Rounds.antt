-- ===== src/History/Myers/Rounds.antt =====
-- The rounds of the search: the array before each of them, and the round that ends it.
use vedox.Base.{
  ℕ, ℕ_discrete, zero, suc, ◌+◌, ◌-◌, ◌*◌, ◌<◌, ◌≤◌, ◌≡◌, ◌⊎◌, refl, ◌∙◌, Bool, Bool-cases, true,
  false, inl, inr, List, [], ◌∷◌, if◌then◌else◌, length, arith,
}
use vedox.History.Blocks.{Block}
use vedox.History.Myers.{read, zeros, snake, goes_down, furthest, sweep, forward}
use vedox.History.Myers.Array.{length-zeros}
use vedox.History.Myers.Sweep.{is_end, length-sweep, sweep_missed, sweep_ended}

module _ (old new : List Block) (max : ℕ) where
  -- The array before the round `d`, if no earlier one has ended the search.
  unfoldable pub before : ℕ → List ℕ
  before zero = zeros (2 * max + 2)
  before (suc d) = (sweep old new max d (suc d) (max - d) (before d)).0

  -- The snapshots of the rounds below `d`.
  unfoldable pub traces : ℕ → List (List ℕ)
  unfolding before
  traces zero = []
  traces (suc d) = before (suc d) ∷ traces d

  unfoldable pub ended : ℕ → Bool
  unfolding before
  ended d = (sweep old new max d (suc d) (max - d) (before d)).1

  abbrev pub NotYet : ℕ → Type 0
  NotYet d = (e : ℕ) → e < d → ended e ≡ false

  abbrev pub furthest_at : ℕ → ℕ → ℕ
  furthest_at d i = furthest old new (before d) max d i

  abbrev pub start_at : ℕ → ℕ → ℕ
  start_at d i =
      if goes_down (before d) max d i then read (before d) (i + 1) else read (before d) (i - 1) + 1

  -- The diagonal `i` is the one of `a` deletions and `d - a` insertions.
  abbrev pub Diagonal : ℕ → ℕ → ℕ → Type 0
  Diagonal d i a = (a ≤ d) × (d ≤ max) × (i + d ≡ max + (a + a))

  pub furthest_at_lem :
      (d i : ℕ)
      → furthest_at d i
        ≡ start_at d i + snake old new (length old) (start_at d i) (start_at d i + max - i)
  unfolding furthest
  furthest_at_lem d i = refl

  length-before : (d : ℕ) → length (before d) ≡ 2 * max + 2
  unfolding before
  length-before zero = length-zeros (2 * max + 2)
  length-before (suc d) = length-sweep old new max d (suc d) (max - d) (before d) ∙ length-before d

  -- What the next round finds at a diagonal of a round that was not the last.
  pub round_missed :
      (d i a : ℕ)
      → ended d ≡ false
      → Diagonal d i a
      → (read (before (suc d)) i ≡ furthest_at d i)
        × (is_end old new max d (furthest_at d i) i ≡ false)
  unfolding before ended
  round_missed d i a h (p, q, r) =
      sweep_missed old new max d (suc d) (max - d) (before d) h a i (omega arith) (omega arith)
        (omega (arith, length-before d))

  pub round_ended :
      (d : ℕ)
      → d ≤ max
      → ended d ≡ true
      → (i : ℕ) × (a : ℕ) × Diagonal d i a × (is_end old new max d (furthest_at d i) i ≡ true)
  unfolding ended
  round_ended d b h =
      let (j, lt, i, e, r) = sweep_ended old new max d (suc d) (max - d) (before d) h in
      (i, j, (omega arith, b, omega arith), r)

  -- The first move of a round after the first, down or to the right, and the point that it leaves.
  pub came :
      (d i a : ℕ)
      → ended d ≡ false
      → Diagonal (suc d) i a
      → ((goes_down (before (suc d)) max (suc d) i ≡ true)
          × Diagonal d (i + 1) a
          × (start_at (suc d) i ≡ furthest_at d (i + 1))
          × (read (before (suc d)) (i + 1) ≡ furthest_at d (i + 1)))
        ⊎ ((goes_down (before (suc d)) max (suc d) i ≡ false)
            × (0 < a)
            × Diagonal d (i - 1) (a - 1)
            × (start_at (suc d) i ≡ furthest_at d (i - 1) + 1)
            × (read (before (suc d)) (i - 1) ≡ furthest_at d (i - 1)))
  came d i a h (p, q, r) = elim (Bool-cases (goes_down (before (suc d)) max (suc d) i)) [
    | inl g ↦
        let here : Diagonal d (i + 1) a = (ground (arith, g), omega arith, omega arith) in
        let e = (round_missed d (i + 1) a h here).0 in inl (g, here, rw (g, e) refl, e)
    | inr g ↦
        let some_left : 0 < a = ground (arith, g) in
        let here : Diagonal d (i - 1) (a - 1) = (omega arith, omega arith, omega arith) in
        let e = (round_missed d (i - 1) (a - 1) h here).0 in
        inr (g, some_left, here, rw (g, e) refl, e)
  ]

  pub below : {d : ℕ} → NotYet (suc d) → NotYet d
  below h e p = h e (omega arith)

  -- A round's points lie within the document: `y` is no negative number.
  pub start_above : (d i a : ℕ) → NotYet d → Diagonal d i a → i ≤ start_at d i + max
  start_above zero i a h v = omega arith
  start_above (suc d) i a h v = elim (came d i a (h d (omega arith)) v) [
    | inl (g, v', s, r) ↦
        omega (arith, s, start_above d (i + 1) a (below h) v', furthest_at_lem d (i + 1))
    | inr (g, pos, v', s, r) ↦
        omega (arith, s, start_above d (i - 1) (a - 1) (below h) v', furthest_at_lem d (i - 1))
  ]

  forward_more :
      (fuel d : ℕ) (v : List ℕ) (trace : List (List ℕ))
      → (sweep old new max d (suc d) (max - d) v).1 ≡ false
      → let v' = (sweep old new max d (suc d) (max - d) v).0 in
        forward old new max (suc fuel) d v trace ≡ forward old new max fuel (suc d) v' (v' ∷ trace)
  unfolding forward
  forward_more fuel d v trace h = rw (h, forward) refl

  forward_stops :
      (fuel d : ℕ) (v : List ℕ) (trace : List (List ℕ))
      → (sweep old new max d (suc d) (max - d) v).1 ≡ true
      → forward old new max (suc fuel) d v trace
        ≡ ((sweep old new max d (suc d) (max - d) v).0 ∷ trace, d)
  unfolding forward
  forward_stops fuel d v trace h = rw (h, forward) refl

  forward_goes_on :
      (fuel d : ℕ)
      → ended d ≡ false
      → forward old new max (suc fuel) d (before d) (traces d)
        ≡ forward old new max fuel (suc d) (before (suc d)) (traces (suc d))
  unfolding before traces ended
  forward_goes_on fuel d h = forward_more fuel d (before d) (traces d) h

  -- The search stops at the first round that reports the end.
  pub forward_lem :
      (fuel d last : ℕ)
      → d ≤ last
      → last < d + fuel
      → ended last ≡ true
      → NotYet last
      → forward old new max fuel d (before d) (traces d) ≡ (traces (suc last), last)
  unfolding before traces ended
  forward_lem zero d last p q r h = absurd (omega arith)
  forward_lem (suc fuel) d last p q r h = elim (Bool-cases (ended d)) [
    | inl e ↦
        let same : d ≡ last = elim (ℕ_discrete d last) [
          | yes s ↦ s
          | no s ↦ let f = h d (omega (arith, s)) in cc
        ] in
        rw (← same) (forward_stops fuel d (before d) (traces d) e)
    | inr e ↦
        let later : suc d ≤ last = elim (ℕ_discrete d last) [
          | yes s ↦ absurd (ground (arith, s))
          | no s ↦ omega (arith, s)
        ] in
        forward_goes_on fuel d e ∙ forward_lem fuel (suc d) last later (omega arith) r h
  ]

  pub first_end :
      (fuel : ℕ) → NotYet fuel ⊎ ((last : ℕ) × (last < fuel) × (ended last ≡ true) × NotYet last)
  first_end zero = inl (λ e h. absurd (omega arith))
  first_end (suc fuel) = elim (first_end fuel) [
    | inr (last, p, q, r) ↦ inr (last, omega arith, q, r)
    | inl h ↦ elim (Bool-cases (ended fuel)) [
      | inl e ↦ inr (fuel, omega arith, e, h)
      | inr e ↦
          inl (λ i p. elim (ℕ_discrete i fuel) [ yes s ↦ rw s e | no s ↦ h i (omega (arith, s)) ])
    ]
  ]
