-- ===== src/Codepreview/Anchor.antt =====
-- codepreview/resolver.go, `parseAnchor`: the lines that a link asks for.
use vedox.Base.{
  ℕ, ◌+◌, ◌-◌, ◌*◌, ◌&&◌, if◌then◌else◌, Option, none, some, [], ◌∷◌, leb, ltb, ◌==◌, is_empty,
}
use vedox.Base.Text.{Text}

pub data PreviewError : Type 0 where
  invalid_url invalid_scheme invalid_host empty_path absolute_path traversal : PreviewError
  symlink_escape secret_file binary_file file_not_found invalid_anchor : PreviewError
  anchor_range_too_big anchor_out_of_range io_failed : PreviewError

pub data Result (A : Type 0) : Type 0 where
  ok : A → Result A
  err : PreviewError → Result A

-- The first and the last line; both are 0 where there is no anchor.
pub record LineRange : Type 0 where
  pub start : ℕ
  pub stop : ℕ

abbrev letter_l : ℕ
letter_l = 76

abbrev hyphen : ℕ
hyphen = 45

abbrev plus : ℕ
plus = 43

-- The largest number that `strconv.Atoi` returns, on a 64-bit machine.
abbrev max_int : ℕ
max_int = 9223372036854775807

unfoldable pub digits_value : ℕ → Text → Option ℕ
digits_value acc [] = some acc
digits_value acc (c ∷ s) =
    let rest = digits_value (10 * acc + (c - 48)) s in if leb 48 c && leb c 57 then rest else none

-- `strconv.Atoi`, where it returns a positive number.
unfoldable pub positive : Text → Option ℕ
unfolding digits_value
positive [] = none
positive (c ∷ s) =
    let body = if c == plus then s else c ∷ s in
    if is_empty body then none else elim (digits_value 0 body) [
      | none ↦ none
      | some n ↦ if ltb 0 n && leb n max_int then some n else none
    ]

-- The text before the first "-L" and the text behind it.
unfoldable pub cut_range : Text → Option (Text × Text)
cut_range [] = none
cut_range (c ∷ []) = none
cut_range (c ∷ d ∷ s) =
    let rest = cut_range (d ∷ s) in
    if (c == hyphen) && (d == letter_l)
    then some ([], s)
    else elim rest [ none ↦ none | some (before, behind) ↦ some (c ∷ before, behind) ]

unfoldable pub anchor_of : ℕ → ℕ → Result LineRange
anchor_of start stop =
    if ltb stop start then err invalid_anchor else ok (record { start = start; stop = stop })

abbrev pub both : Option ℕ → Option ℕ → Result LineRange
both none _ = err invalid_anchor
both (some start) none = err invalid_anchor
both (some start) (some stop) = anchor_of start stop

-- `parseAnchor`
unfoldable pub parse_anchor : Text → Result LineRange
unfolding positive cut_range anchor_of
parse_anchor [] = ok (record { start = 0; stop = 0 })
parse_anchor (c ∷ rest) =
    if c == letter_l
    then (elim (cut_range rest) [
      | some (first, last) ↦ both (positive first) (positive last)
      | none ↦ both (positive rest) (positive rest)
    ])
    else err invalid_anchor
