-- ===== src/Voice/Intent/Distance.antt =====
-- voice/intent.go, `levenshtein`: the edit distance by two rows of the table.
pub mod Table
use vedox.Base.{ℕ, zero, suc, ◌+◌, List, [], ◌∷◌, ltb, ◌==◌, if◌then◌else◌, is_empty, length}
use vedox.Base.Text.{Text}

-- `min3`
unfoldable pub min3 : ℕ → ℕ → ℕ → ℕ
min3 a b c = if ltb a b then (if ltb a c then a else c) else if ltb b c then b else c

-- `prev[j] = j`, from `j` on, for a text and the place behind it.
unfoldable pub count_up : ℕ → Text → List ℕ
count_up j [] = j ∷ []
count_up j (c ∷ b) = j ∷ count_up (suc j) b

abbrev pub head_or : ℕ → List ℕ → ℕ
head_or x [] = x
head_or x (y ∷ ys) = y

abbrev pub rest_of : List ℕ → List ℕ
rest_of [] = []
rest_of (y ∷ ys) = ys

-- The inner loop: the entries of `curr` from `j` on, behind `left` = `curr[j-1]`, under the row
-- that starts at `prev[j-1]` = `above`.
unfoldable pub fill_row : ℕ → Text → ℕ → ℕ → List ℕ → List ℕ
unfolding min3
fill_row c [] left above prev = []
fill_row c (d ∷ b) left above prev =
    let cost = if c == d then 0 else 1 in
    let here = min3 (head_or 0 prev + 1) (left + 1) (above + cost) in
    here ∷ fill_row c b here (head_or 0 prev) (rest_of prev)

-- One round of the outer loop, with `curr[0] = i`.
unfoldable pub next_row : ℕ → ℕ → Text → List ℕ → List ℕ
unfolding fill_row
next_row i c b prev = i ∷ fill_row c b i (head_or 0 prev) (rest_of prev)

-- The outer loop from `i` on.
unfoldable pub rows : ℕ → Text → Text → List ℕ → List ℕ
unfolding next_row
rows i [] b prev = prev
rows i (c ∷ a) b prev = rows (suc i) a b (next_row i c b prev)

-- `prev[nb]`
unfoldable pub last_of : List ℕ → ℕ
last_of [] = 0
last_of (x ∷ xs) = if is_empty xs then x else last_of xs

unfoldable pub levenshtein : Text → Text → ℕ
unfolding rows count_up last_of
levenshtein a b =
    if is_empty a
    then length b
    else if is_empty b
    then length a
    else last_of (rows 1 a b (count_up 0 b))
