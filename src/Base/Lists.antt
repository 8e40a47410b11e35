-- ===== src/Base/Lists.antt =====
-- Lists measured by native numbers, and membership by recursion.
use Prim.Native.Nat.{ℕ, zero, suc, ◌+◌, ◌≤◌}
use mathlib.Core.Path.{◌≡◌, refl, ap}
use mathlib.Core.Logic.{◌≢◌, ◌⊎◌, inl, inr, ite}
use mathlib.Core.List.{List, [], ◌∷◌, ◌++◌}
use native.Mathlib.Omega.{arith}

module _ {ℓ} {A : Type ℓ} where
  abbrev pub length : List A → ℕ
  length [] = 0
  length (x ∷ xs) = suc (length xs)

  abbrev pub take : ℕ → List A → List A
  take zero xs = []
  take (suc n) [] = []
  take (suc n) (x ∷ xs) = x ∷ take n xs

  abbrev pub drop : ℕ → List A → List A
  drop zero xs = xs
  drop (suc n) [] = []
  drop (suc n) (x ∷ xs) = drop n xs

  pub length-append : (xs ys : List A) → length (xs ++ ys) ≡ length xs + length ys
  length-append [] ys = omega arith
  length-append (x ∷ xs) ys = omega (arith, length-append xs ys)

  pub take-take : (m n : ℕ) (xs : List A) → m ≤ n → take m (take n xs) ≡ take m xs
  take-take zero n xs h = refl
  take-take (suc m) zero xs h = absurd (omega arith)
  take-take (suc m) (suc n) [] h = refl
  take-take (suc m) (suc n) (x ∷ xs) h = ap (◌∷◌ x) (take-take m n xs (omega arith))

module _ {A : Type 0} where
  -- `a` stands in the list.
  abbrev pub Among : A → List A → Type 0
  Among a [] = ⊥
  Among a (x ∷ xs) = (a ≡ x) ⊎ Among a xs

  -- Every element has the property.
  abbrev pub All {κ} : (A → Type κ) → List A → Type κ
  All P [] = Unit
  All P (x ∷ xs) = P x × All P xs

  pub Among-append_left : (a : A) (xs ys : List A) → Among a xs → Among a (xs ++ ys)
  Among-append_left a [] ys h = absurd h
  Among-append_left a (x ∷ xs) ys (inl e) = inl e
  Among-append_left a (x ∷ xs) ys (inr h) = inr (Among-append_left a xs ys h)

  pub Among-append_right : (a : A) (xs ys : List A) → Among a ys → Among a (xs ++ ys)
  Among-append_right a [] ys h = h
  Among-append_right a (x ∷ xs) ys h = inr (Among-append_right a xs ys h)

  -- A longer prefix holds what a shorter one does.
  pub Among-take_le :
      (a : A) (m n : ℕ) (xs : List A) → m ≤ n → Among a (take m xs) → Among a (take n xs)
  Among-take_le a zero n xs h m = absurd m
  Among-take_le a (suc m) zero xs h _ = absurd (omega arith)
  Among-take_le a (suc m) (suc n) [] h i = absurd i
  Among-take_le a (suc m) (suc n) (x ∷ xs) h (inl e) = inl e
  Among-take_le a (suc m) (suc n) (x ∷ xs) h (inr i) = inr (Among-take_le a m n xs (omega arith) i)

  pub Among-of-take : (a : A) (n : ℕ) (xs : List A) → Among a (take n xs) → Among a xs
  Among-of-take a zero xs h = absurd h
  Among-of-take a (suc n) [] h = absurd h
  Among-of-take a (suc n) (x ∷ xs) (inl e) = inl e
  Among-of-take a (suc n) (x ∷ xs) (inr h) = inr (Among-of-take a n xs h)

  pub All-append {κ} : (P : A → Type κ) (xs ys : List A) → All P xs → All P ys → All P (xs ++ ys)
  All-append P [] ys h g = g
  All-append P (x ∷ xs) ys h g = (h.0, All-append P xs ys h.1 g)

  All-among {κ} : (P : A → Type κ) (a : A) (xs : List A) → All P xs → Among a xs → P a
  All-among P a [] h i = absurd i
  All-among P a (x ∷ xs) h (inl e) = rw e h.0
  All-among P a (x ∷ xs) h (inr i) = All-among P a xs h.1 i

module _ {A : Type 0} (dec : Discrete A) where
  -- The list without `a`.
  abbrev pub without : A → List A → List A
  without a [] = []
  without a (x ∷ xs) = let rest = without a xs in ite (dec x a) rest (x ∷ rest)

  pub Among-take-without :
      (a b : A) (n : ℕ) (xs : List A)
      → a ≢ b
      → Among a (take n xs)
      → Among a (take n (without b xs))
  Among-take-without a b zero xs ne h = absurd h
  Among-take-without a b (suc n) [] ne h = absurd h
  Among-take-without a b (suc n) (x ∷ xs) ne h = elim (dec x b) [
    | yes e ↦ ground (arith, Among-take-without a b n xs, Among-take_le a n (suc n) (without b xs))
    | no e ↦ ground (arith, Among-take-without a b n xs)
  ]
