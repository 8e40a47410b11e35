-- ===== src/Store/Names.antt =====
-- store/local_adapter.go: the names of files that hold secrets.
use vedox.Base.{
  Bool, true, false, ◌&&◌, ◌||◌, if◌then◌else◌, Option, none, some, List, [], ◌∷◌, ◌++◌, bytes,
  is_empty, leb, starts_with,
}
use vedox.Base.Lists.{length, drop}
use vedox.Base.Text.{Text}
use vedox.Base.Paths.{ends_with, trim_suffix, match_glob}

abbrev pub secret_blocklist : List Text
secret_blocklist =
    bytes ".env"
    ∷ bytes "*.pem"
    ∷ bytes "*.key"
    ∷ bytes "id_rsa"
    ∷ bytes "*.p12"
    ∷ bytes "credentials.json"
    ∷ []

-- `strings.LastIndex`: the text before the last `sub`, and the text behind it.
unfoldable pub cut_last : Text → Text → Option (Text × Text)
cut_last sub [] = if starts_with [] sub then some ([], []) else none
cut_last sub (c ∷ s) =
    let rest = cut_last sub s in
    elim rest [
      | some (before, behind) ↦ some (c ∷ before, behind)
      | none ↦ if starts_with (c ∷ s) sub then some ([], drop (length sub) (c ∷ s)) else none
    ]

unfoldable pub all_digits : Text → Bool
all_digits [] = true
all_digits (c ∷ s) = (leb 48 c && leb c 57) && all_digits s

abbrev pub draft : Text
draft = bytes ".draft"

abbrev pub draft_md : Text
draft_md = bytes ".draft.md"

-- Without the suffix of a draft that has no number.
unfoldable pub strip_plain : Text → Text
unfolding ends_with trim_suffix
strip_plain name =
    if ends_with name draft_md
    then trim_suffix name draft_md
    else if ends_with name draft
    then trim_suffix name draft
    else name

-- `stripDraftSuffixes`
unfoldable pub strip_draft_suffixes : Text → Text
unfolding cut_last all_digits strip_plain
strip_draft_suffixes name = elim (cut_last (draft_md ++ bytes ".") name) [
  | none ↦ strip_plain name
  | some (before, behind) ↦
      if is_empty behind
      then strip_plain name
      else if all_digits behind
      then before
      else strip_plain name
]

unfoldable pub matches_any : List Text → Text → Bool
unfolding match_glob
matches_any [] name = false
matches_any (p ∷ patterns) name = match_glob p name || matches_any patterns name

-- `isSecretFile`
unfoldable pub is_secret_file : Text → Bool
unfolding strip_draft_suffixes matches_any
is_secret_file name = matches_any secret_blocklist (strip_draft_suffixes name)
