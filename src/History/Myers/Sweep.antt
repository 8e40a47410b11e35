-- ===== src/History/Myers/Sweep.antt =====
-- One round of the search: what `sweep` writes, and when it reports the end.
use vedox.Base.{
  ℕ, zero, suc, ◌+◌, ◌-◌, ◌<◌, ◌≤◌, ◌≡◌, ◌≢◌, refl, sym, ap, ◌∙◌, Bool, Bool-cases, true, false,
  ◌&&◌, inl, inr, List, length, leb, arith,
}
use vedox.History.Blocks.{Block}
use vedox.History.Myers.{read, write, furthest, sweep}
use vedox.History.Myers.Array.{read-write_self, read-write_ne, length-write}

module _ (old new : List Block) (max d : ℕ) where
  -- The point at `x` on the diagonal `k` is at the end or behind it.
  abbrev pub is_end : ℕ → ℕ → Bool
  is_end x k = leb (length old) x && leb (length new) (x + max - k)

  furthest-write :
      (v : List ℕ) (k x i : ℕ)
      → k + 2 ≤ i
      → furthest old new (write v k x) max d i ≡ furthest old new v max d i
  unfolding furthest
  furthest-write v k x i h =
      rw
        (
          read-write_ne v k (i + 1) x (λ e. omega arith),
          read-write_ne v k (i - 1) x (λ e. omega arith),
        )
        refl

  sweep_found :
      (count k : ℕ) (v : List ℕ)
      → is_end (furthest old new v max d k) k ≡ true
      → sweep old new max d (suc count) k v ≡ (write v k (furthest old new v max d k), true)
  unfolding sweep
  sweep_found count k v h = rw h refl

  sweep_next :
      (count k : ℕ) (v : List ℕ)
      → is_end (furthest old new v max d k) k ≡ false
      → sweep old new max d (suc count) k v
        ≡ sweep old new max d count (k + 2) (write v k (furthest old new v max d k))
  unfolding sweep
  sweep_next count k v h = rw h refl

  -- It writes no other diagonal.
  sweep-kept :
      (count k : ℕ) (v : List ℕ) (i : ℕ)
      → ((j : ℕ) → i ≢ k + (j + j))
      → read (sweep old new max d count k v).0 i ≡ read v i
  unfolding sweep
  sweep-kept zero k v i h = refl
  sweep-kept (suc count) k v i h =
      let x = furthest old new v max d k in
      let kept = read-write_ne v k i x (λ e. h 0 (omega arith)) in
      elim (Bool-cases (is_end x k)) [
        | inl e ↦ rw (sweep_found count k v e) kept
        | inr e ↦
            rw (sweep_next count k v e)
              (sweep-kept count (k + 2) (write v k x) i (λ j e'. h (suc j) (omega arith)) ∙ kept)
      ]

  pub length-sweep :
      (count k : ℕ) (v : List ℕ) → length (sweep old new max d count k v).0 ≡ length v
  unfolding sweep
  length-sweep zero k v = refl
  length-sweep (suc count) k v =
      let x = furthest old new v max d k in
      elim (Bool-cases (is_end x k)) [
        | inl e ↦ rw (sweep_found count k v e) (length-write v k x)
        | inr e ↦
            rw (sweep_next count k v e)
              (length-sweep count (k + 2) (write v k x) ∙ length-write v k x)
      ]

  -- A round that does not report the end has written the furthest points, none of them an end.
  pub sweep_missed :
      (count k : ℕ) (v : List ℕ)
      → (sweep old new max d count k v).1 ≡ false
      → (j i : ℕ) → j < count
      → i ≡ k + (j + j)
      → i < length v
      → (read (sweep old new max d count k v).0 i ≡ furthest old new v max d i)
        × (is_end (furthest old new v max d i) i ≡ false)
  sweep_missed zero k v m j i h e b = absurd (omega arith)
  sweep_missed (suc count) k v m zero i h e b =
      let x = furthest old new v max d k in
      let same : k ≡ i = omega arith in
      elim (Bool-cases (is_end x k)) [
        | inl f ↦ absurd (ground (arith, sweep_found count k v f))
        | inr f ↦
            rw (← same, sweep_next count k v f)
              (
                sweep-kept count (k + 2) (write v k x) k (λ j e'. omega arith)
                    ∙ read-write_self v k x (omega arith),
                f,
              )
      ]
  sweep_missed (suc count) k v m (suc j) i h e b =
      let x = furthest old new v max d k in
      elim (Bool-cases (is_end x k)) [
        | inl f ↦ absurd (ground (arith, sweep_found count k v f))
        | inr f ↦
            let next = sweep_next count k v f in
            let (q, r) =
              sweep_missed count (k + 2) (write v k x) (ap (λ p. p.1) (sym next) ∙ m) j i
                (omega arith) (omega arith) (omega (arith, length-write v k x)) in
            let same = furthest-write v k x i (omega arith) in rw (next, ← same) (q, r)
      ]

  -- A round that reports the end has a furthest point there.
  pub sweep_ended :
      (count k : ℕ) (v : List ℕ)
      → (sweep old new max d count k v).1 ≡ true
      → (j : ℕ) × (j < count)
        × (i : ℕ) × (i ≡ k + (j + j))
        × (is_end (furthest old new v max d i) i ≡ true)
  unfolding sweep
  sweep_ended zero k v m = cc
  sweep_ended (suc count) k v m =
      let x = furthest old new v max d k in
      elim (Bool-cases (is_end x k)) [
        | inl f ↦ (0, omega arith, k, omega arith, f)
        | inr f ↦
            let next = sweep_next count k v f in
            let (j, h, i, e, r) =
              sweep_ended count (k + 2) (write v k x) (ap (λ p. p.1) (sym next) ∙ m) in
            let same = furthest-write v k x i (omega arith) in
            (suc j, omega arith, i, omega arith, rw (← same) r)
      ]
