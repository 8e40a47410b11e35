-- ===== src/Docgraph/Targets.antt =====
-- docgraph/graph_query.go, `resolveTarget`: the document that a reference means.
use vedox.Base.{
  ℕ, Bool, true, false, ◌||◌, if◌then◌else◌, Option, none, some, [], ◌∷◌, ◌++◌, map, bytes,
  is_empty, ◌==◌, bytes_discrete, bytes_eq,
}
use vedox.Base.Dict.{Dict, lookup}
use vedox.Base.Text.{Text, trim_space}
use vedox.Base.Paths.{has_slash, ends_with, clean, join, dir}

pub data LinkType : Type 0 where
  md wikilink frontmatter vedox_scheme : LinkType
  other_type : Text → LinkType

pub record DocRef : Type 0 where
  pub source_path : Text
  pub target_path : Text
  pub link_type : LinkType

abbrev markdown : Text
markdown = bytes ".md"

abbrev pub is_bound : {V : Type 0} → Text → Dict Text V → Bool
is_bound k m = elim (lookup bytes_discrete k m) [ none ↦ false | some _ ↦ true ]

-- Runs of blanks become one hyphen; `space` says that the last character was a blank.
unfoldable pub hyphenate : Bool → Text → Text
hyphenate space [] = []
hyphenate space (c ∷ s) =
    let blank = (c == 32) || (c == 9) in
    let rest = hyphenate blank s in
    if blank then (if space then rest else b'-' ∷ rest) else c ∷ rest

module _ (to_lower : ℕ → ℕ) where
  -- `looksLikePath`
  unfoldable pub looks_like_path : Text → Bool
  unfolding has_slash ends_with
  looks_like_path s =
      let low = map to_lower s in
      has_slash s || (ends_with low markdown || ends_with low (bytes ".mdx"))

  -- `slugify`
  unfoldable pub slugify : Text → Text
  unfolding hyphenate
  slugify s = hyphenate false (map to_lower (trim_space s))

  unfoldable pub resolved_path : DocRef → Text → Text
  unfolding clean join dir
  resolved_path r raw = clean (join (dir r.source_path) raw)

  -- Its second part, the short name.
  unfoldable pub by_slug : Text → Dict Text Text → Option Text
  unfolding slugify
  by_slug raw slugs =
      let norm = slugify raw in
      elim (lookup bytes_discrete raw slugs) [
        | some id ↦ some id
        | none ↦ if bytes_eq norm raw then none else lookup bytes_discrete norm slugs
      ]

  module _ {V : Type 0} where
    -- Its first part, the path from the source's folder.
    unfoldable pub by_path : DocRef → Text → Dict Text V → Option Text
    unfolding looks_like_path resolved_path
    by_path r raw docs =
        let resolved = resolved_path r raw in
        if looks_like_path raw
        then (if is_bound resolved docs
            then some resolved
            else if ends_with resolved markdown
            then none
            else if is_bound (resolved ++ markdown) docs
            then some (resolved ++ markdown)
            else none)
        else none

    -- `resolveTarget`
    unfoldable pub resolve_target : DocRef → Dict Text V → Dict Text Text → Text × Bool
    unfolding by_path by_slug resolved_path looks_like_path
    resolve_target r docs slugs =
        let raw = trim_space r.target_path in
        if is_empty raw then ([], true) else elim (by_path r raw docs) [
          | some id ↦ (id, false)
          | none ↦ elim (by_slug raw slugs) [
            | some id ↦ (id, false)
            | none ↦ (if looks_like_path raw then resolved_path r raw else raw, true)
          ]
        ]
