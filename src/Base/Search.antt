-- ===== src/Base/Search.antt =====
-- Searching and replacing in a text, as packages `strings` and `bytes` do.
use Prim.Native.Nat.{ℕ, zero, suc, ◌-◌, ◌≤◌}
use mathlib.Core.Path.{◌≡◌, refl, sym, ◌∙◌}
use mathlib.Core.Logic.{inl, inr}
use mathlib.Core.Bool.{Bool, true, false}
use mathlib.Core.Option.{Option, none, some}
use mathlib.Core.List.{[], ◌∷◌, ◌++◌}
use native.Mathlib.Omega.{arith}
use vedox.Base.Tests.{if◌then◌else◌, starts_with, ◌==◌, is_empty, Bool-cases, Option-cases, ==→eq}
use vedox.Base.Lists.{length, length-append, drop, Among}
use vedox.Base.Text.{Text}

-- `strings.Index` at the first `sub`: the text before it and the text from it on.
unfoldable pub cut : Text → Text → Option (Text × Text)
cut sub [] = if starts_with [] sub then some ([], []) else none
cut sub (c ∷ s) =
    let rest = cut sub s in
    if starts_with (c ∷ s) sub
    then some ([], c ∷ s)
    else elim rest [ none ↦ none | some (before, from) ↦ some (c ∷ before, from) ]

-- `bytes.Contains`
unfoldable pub contains : Text → Text → Bool
unfolding cut
contains sub s = elim (cut sub s) [ none ↦ false | some _ ↦ true ]

-- `strings.ReplaceAll` of a text that is not empty; `skip` characters belong to the last match.
unfoldable pub replace_from : Text → Text → ℕ → Text → Text
replace_from old new skip [] = []
replace_from old new (suc skip) (c ∷ s) = replace_from old new skip s
replace_from old new zero (c ∷ s) =
    let matched = replace_from old new (length old - 1) s in
    let rest = replace_from old new zero s in
    if starts_with (c ∷ s) old then new ++ matched else c ∷ rest

abbrev pub replace_all : Text → Text → Text → Text
replace_all old new s = replace_from old new zero s

-- `strings.TrimRight` of one character.
unfoldable pub trim_right_of : ℕ → Text → Text
trim_right_of d [] = []
trim_right_of d (c ∷ s) =
    let rest = trim_right_of d s in
    if is_empty rest then (if c == d then [] else c ∷ rest) else c ∷ rest

-- A text that begins with `sub` is `sub` and what is behind it.
starts_with-append : (sub s : Text) → starts_with (sub ++ s) sub ≡ true
unfolding starts_with
starts_with-append [] [] = refl
starts_with-append [] (c ∷ s) = refl
starts_with-append (d ∷ sub) s = ground (arith, starts_with-append sub s)

pub cut_here : (sub s : Text) → cut sub (sub ++ s) ≡ some ([], sub ++ s)
unfolding cut
cut_here [] [] = unfold starts_with in refl
cut_here [] (c ∷ s) = unfold starts_with in refl
cut_here (d ∷ sub) s = ground (arith, starts_with-append (d ∷ sub) s)

pub drop-length : (sub s : Text) → drop (length sub) (sub ++ s) ≡ s
drop-length [] s = refl
drop-length (c ∷ sub) s = drop-length sub s

-- A text does not begin with `sub` because something stands behind a character not in `sub`.
starts_with-barrier :
    (sub x y : Text) (b : ℕ) → (Among b sub → ⊥) → starts_with (x ++ b ∷ y) sub ≡ starts_with x sub
unfolding starts_with
starts_with-barrier [] [] y b h = refl
starts_with-barrier [] (c ∷ x) y b h = refl
starts_with-barrier (d ∷ sub) [] y b h = elim (Bool-cases (b == d)) [
  | inl e ↦ absurd (h (inl (==→eq b d e)))
  | inr e ↦ ground (arith, e)
]
starts_with-barrier (d ∷ sub) (c ∷ x) y b h =
    ground (arith, starts_with-barrier sub x y b (λ a. h (inr a)))

-- The search passes a text without `sub` up to a character that is not in `sub`.
pub cut_behind :
    (sub x y before from : Text) (b : ℕ)
    → (Among b sub → ⊥)
    → cut sub x ≡ none
    → cut sub y ≡ some (before, from)
    → cut sub (x ++ b ∷ y) ≡ some (x ++ b ∷ before, from)
unfolding cut
cut_behind sub [] y before from b h n p = ground (arith, starts_with-barrier sub [] y b h, n, p)
cut_behind sub (c ∷ x) y before from b h n p = elim (Bool-cases (starts_with (c ∷ x) sub)) [
  | inl e ↦ absurd (ground (arith, n, e))
  | inr e ↦ elim (Option-cases (cut sub x)) [
    | inr (r, f) ↦ absurd (ground (arith, n, e, f))
    | inl f ↦
        ground
          (arith, e, starts_with-barrier sub (c ∷ x) y b h, cut_behind sub x y before from b h f p)
  ]
]

-- Whether `sub` stands at the front is settled by as many characters as it has.
nothing_to_match : (s : Text) → starts_with s [] ≡ true
unfolding starts_with
nothing_to_match [] = refl
nothing_to_match (c ∷ s) = refl

pub starts_with_parts : (s sub : Text) → starts_with s sub ≡ true → (r : Text) × (s ≡ sub ++ r)
unfolding starts_with
starts_with_parts s [] h = (s, refl)
starts_with_parts [] (d ∷ sub) h = cc
starts_with_parts (c ∷ s) (d ∷ sub) h = elim (Bool-cases (c == d)) [
  | inr e ↦ absurd (ground (arith, h, e))
  | inl e ↦ let (r, f) = starts_with_parts s sub (ground (arith, h, e)) in (r, ground (arith, e, f))
]

starts_with-front :
    (sub u r r' : Text)
    → length sub ≤ length u
    → starts_with (u ++ r) sub ≡ starts_with (u ++ r') sub
unfolding starts_with
starts_with-front [] u r r' h = nothing_to_match (u ++ r) ∙ sym (nothing_to_match (u ++ r'))
starts_with-front (d ∷ sub) [] r r' h = absurd (omega arith)
starts_with-front (d ∷ sub) (c ∷ u) r r' h = ground (arith, starts_with-front sub u r r')

-- What stands behind the first `sub` may be exchanged.
pub cut_first :
    (sub x r r' : Text)
    → cut sub (x ++ sub ++ r) ≡ some (x, sub ++ r)
    → cut sub (x ++ sub ++ r') ≡ some (x, sub ++ r')
unfolding cut
cut_first sub [] r r' h = cut_here sub r'
cut_first sub (c ∷ x) r r' h = elim (Bool-cases (starts_with (c ∷ x ++ sub ++ r) sub)) [
  | inl e ↦ absurd (ground (arith, h, e))
  | inr e ↦
      let same = starts_with-front sub (c ∷ x ++ sub) r r' (omega (arith, length-append x sub)) in
      let e' : starts_with (c ∷ x ++ sub ++ r') sub ≡ false = sym same ∙ e in
      let rest : cut sub (x ++ sub ++ r) ≡ some (x, sub ++ r) =
        elim (Option-cases (cut sub (x ++ sub ++ r))) [
          | inl f ↦ absurd (ground (arith, h, e, f))
          | inr ((b, t), f) ↦ ground (arith, h, e, f)
        ] in
      let k : cut sub (x ++ sub ++ r') ≡ some (x, sub ++ r') = cut_first sub x r r' rest in
      ground (arith, e', k)
]

-- The two parts of a search are the text, and the second one begins with `sub`.
pub cut_parts :
    (sub s before from : Text)
    → cut sub s ≡ some (before, from)
    → (r : Text) × (from ≡ sub ++ r) × (s ≡ before ++ sub ++ r)
unfolding cut
cut_parts sub [] before from h = elim (Bool-cases (starts_with [] sub)) [
  | inr e ↦ absurd (ground (arith, h, e))
  | inl e ↦
      let (r, f) = starts_with_parts [] sub e in
      (r, ground (arith, h, e, f), ground (arith, h, e, f))
]
cut_parts sub (c ∷ s) before from h = elim (Bool-cases (starts_with (c ∷ s) sub)) [
  | inl e ↦
      let (r, f) = starts_with_parts (c ∷ s) sub e in
      (r, ground (arith, h, e, f), ground (arith, h, e, f))
  | inr e ↦ elim (Option-cases (cut sub s)) [
    | inl f ↦ absurd (ground (arith, h, e, f))
    | inr ((b, t), f) ↦
        let (r, g, k) = cut_parts sub s b t f in
        (r, ground (arith, h, e, f, g), ground (arith, h, e, f, k))
  ]
]

-- Two texts without `sub` have none together, around a character that is not in `sub`.
pub cut_missing :
    (sub x y : Text) (b : ℕ)
    → (Among b sub → ⊥)
    → cut sub x ≡ none
    → cut sub y ≡ none
    → cut sub (x ++ b ∷ y) ≡ none
unfolding cut
cut_missing sub [] y b h n p = ground (arith, starts_with-barrier sub [] y b h, n, p)
cut_missing sub (c ∷ x) y b h n p = elim (Bool-cases (starts_with (c ∷ x) sub)) [
  | inl e ↦ absurd (ground (arith, n, e))
  | inr e ↦ elim (Option-cases (cut sub x)) [
    | inr (r, f) ↦ absurd (ground (arith, n, e, f))
    | inl f ↦ ground (arith, e, starts_with-barrier sub (c ∷ x) y b h, cut_missing sub x y b h f p)
  ]
]

-- One more such character at the end is trimmed with the others.
pub trim_right_of-last : (d : ℕ) (s : Text) → trim_right_of d (s ++ d ∷ []) ≡ trim_right_of d s
unfolding trim_right_of
trim_right_of-last d [] = ground arith
trim_right_of-last d (c ∷ s) = ground (arith, trim_right_of-last d s)

-- Only the empty text stands in the empty text, and it stands in every text.
pub cut_nil : (sub x : Text) → cut sub x ≡ none → cut sub [] ≡ none
unfolding cut starts_with
cut_nil [] [] h = h
cut_nil [] (c ∷ x) h = absurd (ground (arith, h))
cut_nil (d ∷ sub) x h = refl

-- Nothing is replaced where there is nothing to replace.
pub replace_missing : (old new s : Text) → cut old s ≡ none → replace_all old new s ≡ s
unfolding replace_from cut
replace_missing old new [] h = refl
replace_missing old new (c ∷ s) h = elim (Bool-cases (starts_with (c ∷ s) old)) [
  | inl e ↦ absurd (ground (arith, h, e))
  | inr e ↦ elim (Option-cases (cut old s)) [
    | inr (r, f) ↦ absurd (ground (arith, h, e, f))
    | inl f ↦ ground (arith, e, replace_missing old new s f)
  ]
]

-- Whether a character stands in a text, as a test.
abbrev pub has_char : ℕ → Text → Bool
has_char d [] = false
has_char d (c ∷ s) = let rest = has_char d s in if d == c then true else rest

pub not-Among : (d : ℕ) (s : Text) → has_char d s ≡ false → Among d s → ⊥
not-Among d [] h i = i
not-Among d (c ∷ s) h (inl e) = ground (arith, h, e)
not-Among d (c ∷ s) h (inr i) = elim (Bool-cases (d == c)) [
  | inl e ↦ ground (arith, h, e)
  | inr e ↦ not-Among d s (ground (arith, h, e)) i
]
