-- ===== src/Base/Dict.antt =====
-- A Go map: an association list in which a key stands at most once.
use Prim.Native.Nat.{ℕ, ◌+◌}
use mathlib.Core.Path.{◌≡◌, refl, sym, subst}
use mathlib.Core.Logic.{◌≢◌, ite, if_pos, if_neg}
use mathlib.Core.Option.{Option, none, some}
use mathlib.Core.List.{List, [], ◌∷◌, map}
use native.Mathlib.Omega.{arith}
use vedox.Base.Lists.{Among, All}

abbrev pub Dict {ℓ} : Type ℓ → Type ℓ → Type ℓ
Dict K V = List (K × V)

-- `for _, v := range m`, in the order of the list.
abbrev pub values {ℓ} : {K V : Type ℓ} → Dict K V → List V
values m = map (λ e. e.1) m

module _ {ℓ} {K V : Type ℓ} (dec : Discrete K) where
  -- `v, ok := m[k]`
  unfoldable pub lookup : K → Dict K V → Option V
  lookup k [] = none
  lookup k ((j, v) ∷ m) = ite (dec j k) (some v) (lookup k m)

  -- `m[k] = v`
  unfoldable pub insert : K → V → Dict K V → Dict K V
  insert k v [] = (k, v) ∷ []
  insert k v ((j, w) ∷ m) = ite (dec j k) ((k, v) ∷ m) ((j, w) ∷ insert k v m)

  -- `delete(m, k)`
  unfoldable pub delete : K → Dict K V → Dict K V
  delete k [] = []
  delete k ((j, w) ∷ m) = let rest = delete k m in ite (dec j k) rest ((j, w) ∷ rest)

  pub lookup-insert :
      (k j : K) (v : V) (m : Dict K V)
      → lookup j (insert k v m) ≡ ite (dec k j) (some v) (lookup j m)
  unfolding lookup insert
  lookup-insert k j v [] = refl
  lookup-insert k j v ((i, w) ∷ m) = ground (arith, lookup-insert k j v m)

  pub lookup-delete :
      (k j : K) (m : Dict K V) → lookup j (delete k m) ≡ ite (dec k j) none (lookup j m)
  unfolding lookup delete
  lookup-delete k j [] = ground arith
  lookup-delete k j ((i, w) ∷ m) = ground (arith, lookup-delete k j m)

  pub lookup-insert_self : (k : K) (v : V) (m : Dict K V) → lookup k (insert k v m) ≡ some v
  lookup-insert_self k v m = ground (arith, lookup-insert k k v m)

module _ {K V : Type 0} (dec : Discrete K) where
  -- A key that is bound shows its value in the range.
  lookup-Among : (k : K) (v : V) (m : Dict K V) → lookup dec k m ≡ some v → Among v (values m)
  unfolding lookup
  lookup-Among k v [] h = cc
  lookup-Among k v ((j, w) ∷ m) h = ground (arith, lookup-Among k v m)

-- A measure summed over the values.
module _ {K V : Type 0} (weight : V → ℕ) where
  abbrev pub total : Dict K V → ℕ
  total [] = 0
  total ((k, v) ∷ m) = weight v + total m

abbrev pub weight_at : {V : Type 0} → (V → ℕ) → Option V → ℕ
weight_at weight none = 0
weight_at weight (some v) = weight v

module _ {K V : Type 0} (dec : Discrete K) (weight : V → ℕ) where
  -- A write exchanges the weight of the old value for that of the new one.
  pub total-insert :
      (k : K) (v : V) (m : Dict K V)
      → total weight (insert dec k v m) + weight_at weight (lookup dec k m)
        ≡ total weight m + weight v
  unfolding lookup insert
  total-insert k v [] = omega arith
  total-insert k v ((j, w) ∷ m) = elim (dec j k) [
    | yes p ↦ rw (if_pos _ p, if_pos _ p) (omega arith)
    | no p ↦ rw (if_neg _ p, if_neg _ p) (omega (arith, total-insert k v m))
  ]

module _ {K V : Type 0} where
  -- `k` is bound nowhere in the list.
  abbrev pub Unbound : K → Dict K V → Type 0
  Unbound k m = All (λ e. e.0 ≢ k) m

  -- A key stands at most once, as in a Go map.
  abbrev pub Distinct : Dict K V → Type 0
  Distinct [] = Unit
  Distinct ((k, v) ∷ m) = Unbound k m × Distinct m

  pub All-others {κ} :
      (P Q : K × V → Type κ) (k : K) (m : Dict K V)
      → ((e : K × V) → e.0 ≢ k → P e → Q e)
      → Unbound k m
      → All P m
      → All Q m
  All-others P Q k [] f u h = tt
  All-others P Q k (e ∷ m) f u h = (f e u.0 h.0, All-others P Q k m f u.1 h.1)

module _ {K V : Type 0} (dec : Discrete K) where
  pub Unbound-insert :
      (j k : K) (v : V) (m : Dict K V) → k ≢ j → Unbound j m → Unbound j (insert dec k v m)
  unfolding insert
  Unbound-insert j k v [] ne h = (ne, tt)
  Unbound-insert j k v ((i, w) ∷ m) ne h = elim (dec i k) [
    | yes p ↦ rw (if_pos _ p) (ne, h.1)
    | no p ↦ rw (if_neg _ p) (h.0, Unbound-insert j k v m ne h.1)
  ]

  pub Distinct-insert : (k : K) (v : V) (m : Dict K V) → Distinct m → Distinct (insert dec k v m)
  unfolding insert
  Distinct-insert k v [] h = (tt, tt)
  Distinct-insert k v ((i, w) ∷ m) h = elim (dec i k) [
    | yes p ↦ rw (if_pos _ p) (subst (λ j. Unbound j m) p h.0, h.1)
    | no p ↦
        rw (if_neg _ p) (Unbound-insert i k v m (λ e. p (sym e)) h.0, Distinct-insert k v m h.1)
  ]

  -- Every entry behind a write: the new one, and those of other keys.
  pub All-insert {κ} :
      (P Q : K × V → Type κ) (k : K) (v : V) (m : Dict K V)
      → Distinct m
      → Q (k, v)
      → ((e : K × V) → e.0 ≢ k → P e → Q e)
      → All P m
      → All Q (insert dec k v m)
  unfolding insert
  All-insert P Q k v [] d q f h = (q, tt)
  All-insert P Q k v ((i, w) ∷ m) d q f h = elim (dec i k) [
    | yes p ↦ rw (if_pos _ p) (q, All-others P Q k m f (subst (λ j. Unbound j m) p d.0) h.1)
    | no p ↦ rw (if_neg _ p) (f (i, w) p h.0, All-insert P Q k v m d.1 q f h.1)
  ]
