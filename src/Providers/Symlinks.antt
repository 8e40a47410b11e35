-- ===== src/Providers/Symlinks.antt =====
-- providers/atomic.go: `assertNoSymlink`.
pub mod Soundness
use mathlib.Core.List.{reverse}
use vedox.Base.{
  Bool, true, false, if◌then◌else◌, Option, none, some, List, [], ◌∷◌, ◌++◌, bytes_eq, is_empty,
}
use vedox.Base.Text.{Text, split_at_each, join_with}
use vedox.Base.Paths.{slash, push_elements}
use vedox.Providers.Types.{
  ProviderError, escapes_boundary, symlink_rejected, lstat_failed, Look, absent, symlink, plain,
  unknown,
}

-- The elements of `filepath.Clean` of an absolute path.
unfoldable pub elements : Text → List Text
unfolding push_elements
elements path = reverse (push_elements true (split_at_each slash path) [])

-- The absolute path of the elements.
unfoldable pub path_of : List Text → Text
unfolding join_with
path_of es = slash ∷ join_with slash es

-- `filepath.Rel` of absolute paths, where it does not begin with `..`.
unfoldable pub relative : List Text → List Text → Option (List Text)
relative [] target = some target
relative (b ∷ boundary) [] = none
relative (b ∷ boundary) (t ∷ target) =
    let rest = relative boundary target in if bytes_eq b t then rest else none

-- The loop over the parts below `cur`.
unfoldable pub walk_parts : (Text → Look) → List Text → List Text → Option ProviderError
unfolding path_of
walk_parts look cur [] = none
walk_parts look cur (part ∷ parts) =
    let cur' = cur ++ part ∷ [] in
    let rest = walk_parts look cur' parts in
    elim (look (path_of cur')) [
      | absent ↦ none
      | unknown ↦ some (lstat_failed (path_of cur'))
      | symlink ↦ some (symlink_rejected (path_of cur'))
      | plain ↦ rest
    ]

-- `lstatRejectSymlink`
unfoldable pub lstat_reject_symlink : (Text → Look) → Text → Option ProviderError
lstat_reject_symlink look path = elim (look path) [
  | absent ↦ none
  | unknown ↦ some (lstat_failed path)
  | symlink ↦ some (symlink_rejected path)
  | plain ↦ none
]

-- `assertNoSymlink`
unfoldable pub assert_no_symlink : (Text → Look) → Text → Text → Option ProviderError
unfolding elements path_of relative walk_parts lstat_reject_symlink
assert_no_symlink look boundary target = elim (relative (elements boundary) (elements target)) [
  | none ↦ some escapes_boundary
  | some parts ↦ elim (lstat_reject_symlink look (path_of (elements boundary))) [
    | some e ↦ some e
    | none ↦ walk_parts look (elements boundary) parts
  ]
]
