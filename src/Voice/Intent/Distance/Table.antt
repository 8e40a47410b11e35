-- ===== src/Voice/Intent/Distance/Table.antt =====
-- The two rows hold the table of edit distances between the prefixes.
use vedox.Base.{
  ℕ, zero, suc, ◌≤◌, ◌<◌, ◌⊎◌, inl, inr, ◌+◌, ◌≡◌, refl, sym, ap, ◌∙◌, List, [], ◌∷◌, length, ◌==◌,
  if◌then◌else◌, is_empty, false, arith,
}
use vedox.Base.Text.{Text}
use vedox.Voice.Intent.Distance.{
  min3, count_up, head_or, rest_of, fill_row, next_row, rows, last_of, levenshtein,
}

-- The smaller of two numbers, by their predecessors.
unfoldable pub lesser : ℕ → ℕ → ℕ
lesser zero b = zero
lesser (suc a) zero = zero
lesser (suc a) (suc b) = suc (lesser a b)

-- The edit distance by its recursion, which takes the last letters off. A prefix is given last
-- letter first.
unfoldable pub distance : Text → Text → ℕ
unfolding lesser
distance [] ys = length ys
distance (x ∷ xs) [] = suc (length xs)
distance (x ∷ xs) (y ∷ ys) =
    lesser (suc (distance xs (y ∷ ys)))
      (lesser (suc (distance (x ∷ xs) ys)) (distance xs ys + (if x == y then 0 else 1)))

lesser-cases : (a b : ℕ) → ((a ≤ b) × (lesser a b ≡ a)) ⊎ ((b < a) × (lesser a b ≡ b))
unfolding lesser
lesser-cases zero b = inl (omega arith, refl)
lesser-cases (suc a) zero = inr (omega arith, refl)
lesser-cases (suc a) (suc b) = ground (arith, lesser-cases a b)

-- The code's choice among three numbers is the smallest.
min3-lesser : (a b c : ℕ) → min3 a b c ≡ lesser a (lesser b c)
unfolding min3
min3-lesser a b c = ground (arith, lesser-cases a (lesser b c), lesser-cases b c)

-- The text in front of another one, last letter first.
abbrev pub onto : Text → Text → Text
onto [] done = done
onto (c ∷ s) done = onto s (c ∷ done)

-- The row of a prefix of the first text against the prefixes of the second one from a place on.
unfoldable row : Text → Text → Text → List ℕ
unfolding distance
row xs ys [] = distance xs ys ∷ []
row xs ys (c ∷ b) = distance xs ys ∷ row xs (c ∷ ys) b

head-row : (xs ys b : Text) → head_or 0 (row xs ys b) ≡ distance xs ys
unfolding row
head-row xs ys [] = refl
head-row xs ys (c ∷ b) = refl

count_up-row : (ys b : Text) → count_up (length ys) b ≡ row [] ys b
unfolding count_up row distance
count_up-row ys [] = refl
count_up-row ys (c ∷ b) = ap (◌∷◌ (length ys)) (count_up-row (c ∷ ys) b)

row_parts : (xs ys b : Text) → row xs ys b ≡ distance xs ys ∷ rest_of (row xs ys b)
unfolding row
row_parts xs ys [] = refl
row_parts xs ys (c ∷ b) = refl

-- The entry of the table by the code is the distance.
min3-distance :
    (c d : ℕ) (xs ys : Text)
    → min3
        (distance xs (d ∷ ys) + 1)
        (distance (c ∷ xs) ys + 1)
        (distance xs ys + (if c == d then 0 else 1))
      ≡ distance (c ∷ xs) (d ∷ ys)
unfolding distance
min3-distance c d xs ys =
    let cost : ℕ = if c == d then 0 else 1 in
    let up : suc (distance xs (d ∷ ys)) ≡ distance xs (d ∷ ys) + 1 = omega arith in
    let left : suc (distance (c ∷ xs) ys) ≡ distance (c ∷ xs) ys + 1 = omega arith in
    rw (up, left)
      (min3-lesser (distance xs (d ∷ ys) + 1) (distance (c ∷ xs) ys + 1) (distance xs ys + cost))

fill_row-row :
    (c : ℕ) (xs ys b : Text)
    → fill_row c b (distance (c ∷ xs) ys) (distance xs ys) (rest_of (row xs ys b))
      ≡ rest_of (row (c ∷ xs) ys b)
unfolding fill_row row distance
fill_row-row c xs ys [] = refl
fill_row-row c xs ys (d ∷ b) =
    rw (head-row xs (d ∷ ys) b, min3-distance c d xs ys)
      (ap (◌∷◌ (distance (c ∷ xs) (d ∷ ys))) (fill_row-row c xs (d ∷ ys) b)
        ∙ sym (row_parts (c ∷ xs) (d ∷ ys) b))

next_row-row :
    (i c : ℕ) (xs b : Text) → i ≡ suc (length xs) → next_row i c b (row xs [] b) ≡ row (c ∷ xs) [] b
unfolding next_row distance
next_row-row i c xs b e =
    rw (e, head-row xs [] b)
      (ap (◌∷◌ (suc (length xs))) (fill_row-row c xs [] b) ∙ sym (row_parts (c ∷ xs) [] b))

rows-row :
    (i : ℕ) (a xs b : Text) → i ≡ suc (length xs) → rows i a b (row xs [] b) ≡ row (onto a xs) [] b
unfolding rows
rows-row i [] xs b e = refl
rows-row i (c ∷ a) xs b e =
    ap (rows (suc i) a b) (next_row-row i c xs b e)
    ∙ rows-row (suc i) a (c ∷ xs) b (omega (arith, e))

row_filled : (xs ys b : Text) → is_empty (row xs ys b) ≡ false
unfolding row
row_filled xs ys [] = refl
row_filled xs ys (c ∷ b) = refl

last_of-row : (xs ys b : Text) → last_of (row xs ys b) ≡ distance xs (onto b ys)
unfolding last_of row
last_of-row xs ys [] = refl
last_of-row xs ys (c ∷ b) = rw (row_filled xs (c ∷ ys) b) (last_of-row xs (c ∷ ys) b)

length-onto : (s done : Text) → length (onto s done) ≡ length s + length done
length-onto [] done = omega arith
length-onto (c ∷ s) done = omega (arith, length-onto s (c ∷ done))

distance-empty : (xs : Text) → distance xs [] ≡ length xs
unfolding distance
distance-empty [] = refl
distance-empty (x ∷ xs) = refl

distance_from_empty : (ys : Text) → distance [] ys ≡ length ys
unfolding distance
distance_from_empty ys = refl

-- The loop over two rows computes the edit distance that its recursion on the last letters
-- defines: a deletion, an insertion or an exchange costs one, a common letter nothing, and of the
-- three ways to begin the cheapest counts.
pub levenshtein-distance : (a b : Text) → levenshtein a b ≡ distance (onto a []) (onto b [])
unfolding levenshtein
levenshtein-distance [] b = omega (arith, length-onto b [], distance_from_empty (onto b []))
levenshtein-distance (c ∷ a) [] =
    omega (arith, length-onto (c ∷ a) [], distance-empty (onto (c ∷ a) []))
levenshtein-distance (c ∷ a) (d ∷ b) =
    ap (λ v. last_of (rows 1 (c ∷ a) (d ∷ b) v)) (count_up-row [] (d ∷ b))
    ∙ ap last_of (rows-row 1 (c ∷ a) [] (d ∷ b) refl)
    ∙ last_of-row (onto (c ∷ a) []) [] (d ∷ b)
