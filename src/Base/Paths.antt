-- ===== src/Base/Paths.antt =====
-- What the program uses of the packages `path` and `path/filepath` and of the tests of `strings`.
use Prim.Native.Nat.{ℕ}
use mathlib.Core.Bool.{Bool, true, false, ◌&&◌, ◌||◌}
use mathlib.Core.Option.{Option, none, some}
use mathlib.Core.List.{List, [], ◌∷◌, ◌++◌, reverse}
use vedox.Base.Tests.{if◌then◌else◌, is_empty, bytes, bytes_eq, starts_with, ◌==◌}
use vedox.Base.Lists.{length, drop}
use vedox.Base.Text.{Text, pieces, split_at_each, join_with}

abbrev pub slash : ℕ
slash = 47

-- `strings.HasSuffix`
unfoldable pub ends_with : Text → Text → Bool
ends_with s suffix = starts_with (reverse s) (reverse suffix)

-- `strings.TrimSuffix` and `strings.TrimPrefix`
unfoldable pub trim_suffix : Text → Text → Text
unfolding ends_with
trim_suffix s suffix = if ends_with s suffix then reverse (drop (length suffix) (reverse s)) else s

unfoldable pub trim_prefix : Text → Text → Text
trim_prefix s prefix = if starts_with s prefix then drop (length prefix) s else s

-- `strings.Contains(s, "/")`
unfoldable pub has_slash : Text → Bool
has_slash [] = false
has_slash (c ∷ s) = (c == slash) || has_slash s

abbrev dots : Text
dots = bytes ".."

-- One element of a path behind the elements before it, the last one first.
unfoldable pub push_element : Bool → Text → List Text → List Text
push_element rooted e out =
    if is_empty e || bytes_eq e (bytes ".")
    then out
    else if bytes_eq e dots
    then elim out [
      | [] ↦ if rooted then [] else dots ∷ []
      | last ∷ before ↦ if bytes_eq last dots then dots ∷ last ∷ before else before
    ]
    else e ∷ out

unfoldable pub push_elements : Bool → List Text → List Text → List Text
unfolding push_element
push_elements rooted [] out = out
push_elements rooted (e ∷ es) out = push_elements rooted es (push_element rooted e out)

-- `path.Clean`
unfoldable pub clean : Text → Text
unfolding push_elements pieces join_with
clean s =
    let rooted = starts_with s (slash ∷ []) in
    let out = join_with slash (reverse (push_elements rooted (split_at_each slash s) [])) in
    if rooted then slash ∷ out else if is_empty out then bytes "." else out

-- `path.Join` of two elements.
unfoldable pub join : Text → Text → Text
unfolding clean
join a b =
    if is_empty a
    then (if is_empty b then [] else clean b)
    else if is_empty b
    then clean a
    else clean (a ++ slash ∷ b)

-- On a reversed text: what is left from the last slash on, and the name behind it.
unfoldable pub drop_name : Text → Text
drop_name [] = []
drop_name (c ∷ s) = let rest = drop_name s in if c == slash then c ∷ s else rest

unfoldable pub take_name : Text → Text
take_name [] = []
take_name (c ∷ s) = let rest = take_name s in if c == slash then [] else c ∷ rest

unfoldable pub drop_slashes : Text → Text
drop_slashes [] = []
drop_slashes (c ∷ s) = let rest = drop_slashes s in if c == slash then rest else c ∷ s

-- `path.Dir`
unfoldable pub dir : Text → Text
unfolding clean drop_name
dir s = clean (reverse (drop_name (reverse s)))

-- `path.Base`
unfoldable pub base : Text → Text
unfolding drop_slashes take_name
base s =
    let name = reverse (take_name (drop_slashes (reverse s))) in
    if is_empty s then bytes "." else if is_empty name then slash ∷ [] else name

-- On a reversed text: what stands behind the last dot of the last element, from its end.
unfoldable pub ext_behind : Text → Option Text
ext_behind [] = none
ext_behind (c ∷ s) =
    let rest = ext_behind s in
    if c == slash
    then none
    else if c == 46
    then some []
    else elim rest [ none ↦ none | some t ↦ some (c ∷ t) ]

-- `path.Ext`
unfoldable pub ext : Text → Text
unfolding ext_behind
ext s = elim (ext_behind (reverse s)) [ none ↦ [] | some t ↦ 46 ∷ reverse t ]

-- `filepath.Match` for a pattern of letters and `*` and a name without a slash.
unfoldable pub match_glob : Text → Text → Bool
match_glob [] [] = true
match_glob [] (c ∷ s) = false
match_glob (d ∷ p) [] = (d == 42) && match_glob p []
match_glob (d ∷ p) (c ∷ s) =
    let skip = match_glob p (c ∷ s) in
    let take = match_glob (d ∷ p) s in
    let same = match_glob p s in if d == 42 then skip || take else if d == c then same else false
