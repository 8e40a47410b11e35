-- ===== src/Base/Text.antt =====
-- Text as the list of its code points, and what package `strings` does with white space.
use Prim.Native.Nat.{ℕ}
use mathlib.Core.Path.{◌≡◌, refl, ap, sym, ◌∙◌}
use mathlib.Core.Bool.{Bool, ◌&&◌, ◌||◌}
use mathlib.Core.List.{List, [], ◌∷◌, ◌++◌}
use native.Mathlib.Omega.{arith}
use vedox.Base.Tests.{leb, ◌==◌, if◌then◌else◌, is_empty, Bool-cases, ==→eq}
use mathlib.Core.Logic.{inl, inr}

abbrev pub Text : Type 0
Text = List ℕ

abbrev pub newline : ℕ
newline = 10

abbrev between : ℕ → ℕ → ℕ → Bool
between a b c = leb a c && leb c b

-- `unicode.IsSpace`: the White_Space property.
unfoldable pub is_space : ℕ → Bool
is_space c =
    between 9 13 c
    || (c == 32)
    || (c == 0x85)
    || (c == 0xa0)
    || (c == 0x1680)
    || between 0x2000 0x200a c
    || between 0x2028 0x2029 c
    || (c == 0x202f)
    || (c == 0x205f)
    || (c == 0x3000)

unfoldable pub trim_left : Text → Text
trim_left [] = []
trim_left (c ∷ s) = let rest = trim_left s in if is_space c then rest else c ∷ s

unfoldable pub trim_right : Text → Text
trim_right [] = []
trim_right (c ∷ s) = let rest = trim_right s in if is_empty rest && is_space c then [] else c ∷ rest

-- `strings.TrimSpace`
abbrev pub trim_space : Text → Text
trim_space s = trim_right (trim_left s)

-- The pieces between the separators: the first one and the others.
unfoldable pub pieces : ℕ → Text → Text × List Text
pieces sep [] = ([], [])
pieces sep (c ∷ s) =
    let (first, others) = pieces sep s in
    if c == sep then ([], first ∷ others) else (c ∷ first, others)

-- `strings.Split` at one character.
abbrev pub split_at_each : ℕ → Text → List Text
split_at_each sep s = (pieces sep s).0 ∷ (pieces sep s).1

-- `strings.Join`, with one character between.
unfoldable pub join_with : ℕ → List Text → Text
join_with sep [] = []
join_with sep (s ∷ []) = s
join_with sep (s ∷ t ∷ more) = s ++ sep ∷ join_with sep (t ∷ more)

abbrev word_before : Text → List Text → List Text
word_before w words = if is_empty w then words else w ∷ words

unfoldable pub scan_words : Text → Text × List Text
scan_words [] = ([], [])
scan_words (c ∷ s) =
    let (w, words) = scan_words s in
    if is_space c then ([], word_before w words) else (c ∷ w, words)

-- `strings.Fields`
abbrev pub fields : Text → List Text
fields s = word_before (scan_words s).0 (scan_words s).1

-- The text without its white space.
unfoldable pub squeeze : Text → Text
squeeze [] = []
squeeze (c ∷ s) = let rest = squeeze s in if is_space c then rest else c ∷ rest

abbrev pub squeeze_each : List Text → Text
squeeze_each [] = []
squeeze_each (s ∷ more) = squeeze s ++ squeeze_each more

pub append-nil : (s : Text) → s ++ [] ≡ s
append-nil [] = refl
append-nil (c ∷ s) = ap (◌∷◌ c) (append-nil s)

pub append_assoc : (s t u : Text) → (s ++ t) ++ u ≡ s ++ (t ++ u)
append_assoc [] t u = refl
append_assoc (c ∷ s) t u = ap (◌∷◌ c) (append_assoc s t u)

pub squeeze_each-append :
    (ls ms : List Text) → squeeze_each (ls ++ ms) ≡ squeeze_each ls ++ squeeze_each ms
squeeze_each-append [] ms = refl
squeeze_each-append (l ∷ ls) ms =
    ap (◌++◌ (squeeze l)) (squeeze_each-append ls ms)
    ∙ sym (append_assoc (squeeze l) (squeeze_each ls) (squeeze_each ms))

squeeze-append : (s t : Text) → squeeze (s ++ t) ≡ squeeze s ++ squeeze t
unfolding squeeze
squeeze-append [] t = refl
squeeze-append (c ∷ s) t = ground (arith, squeeze-append s t)

squeeze-trim_left : (s : Text) → squeeze (trim_left s) ≡ squeeze s
unfolding squeeze trim_left
squeeze-trim_left [] = refl
squeeze-trim_left (c ∷ s) = ground (arith, squeeze-trim_left s)

squeeze-trim_right : (s : Text) → squeeze (trim_right s) ≡ squeeze s
unfolding squeeze trim_right
squeeze-trim_right [] = refl
squeeze-trim_right (c ∷ s) = ground (arith, squeeze-trim_right s)

pub squeeze-trim_space : (s : Text) → squeeze (trim_space s) ≡ squeeze s
squeeze-trim_space s = squeeze-trim_right (trim_left s) ∙ squeeze-trim_left s

pub squeeze-pieces : (s : Text) → squeeze_each (split_at_each newline s) ≡ squeeze s
unfolding squeeze pieces is_space
squeeze-pieces [] = refl
squeeze-pieces (c ∷ s) = elim (Bool-cases (c == newline)) [
  | inl e ↦ rw (==→eq c newline e) (squeeze-pieces s)
  | inr e ↦ ground (arith, squeeze-pieces s)
]

pub squeeze-join_with : (lines : List Text) → squeeze (join_with newline lines) ≡ squeeze_each lines
unfolding squeeze join_with is_space
squeeze-join_with [] = refl
squeeze-join_with (s ∷ []) = sym (append-nil (squeeze s))
squeeze-join_with (s ∷ t ∷ more) =
    ground (
      arith,
      squeeze-append s (newline ∷ join_with newline (t ∷ more)),
      squeeze-join_with (t ∷ more),
    )
