-- ===== src/Importer/Metadata.antt =====
-- importer/importer.go: what is indexed of a document.
use vedox.Base.{
  ℕ, Bool, false, ◌&&◌, ◌||◌, if◌then◌else◌, Option, none, some, List, [], ◌∷◌, ◌++◌, bytes,
  bytes_discrete, is_empty, starts_with, ◌==◌,
}
use vedox.Base.Lists.{drop}
use vedox.Base.Text.{Text, newline, trim_space, split_at_each}
use vedox.Base.Dict.{Dict, lookup, insert}
use vedox.Base.Paths.{base, ext, trim_suffix}
use vedox.Base.Search.{cut}

-- `line[:idx]` and `line[idx+1:]` at the first colon.
unfoldable pub at_colon : Text → Option (Text × Text)
at_colon [] = none
at_colon (c ∷ s) =
    let rest = at_colon s in
    if c == 58
    then some ([], s)
    else elim rest [ none ↦ none | some (key, val) ↦ some (c ∷ key, val) ]

abbrev pub last_is : ℕ → Text → Bool
last_is q [] = false
last_is q (c ∷ []) = c == q
last_is q (c ∷ d ∷ s) = last_is q (d ∷ s)

-- Without the last character.
abbrev pub init : Text → Text
init [] = []
init (c ∷ []) = []
init (c ∷ d ∷ s) = c ∷ init (d ∷ s)

-- A value in quotes loses them.
abbrev pub unquote : Text → Text
unquote [] = []
unquote (c ∷ []) = c ∷ []
unquote (c ∷ d ∷ s) =
    if ((c == 34) && last_is 34 (d ∷ s)) || ((c == 39) && last_is 39 (d ∷ s))
    then init (d ∷ s)
    else c ∷ d ∷ s

-- One line of the block.
unfoldable pub read_line : Text → Dict Text Text → Dict Text Text
unfolding at_colon
read_line line fields = elim (at_colon line) [
  | none ↦ fields
  | some (before, behind) ↦
      let key = trim_space before in
      let val = unquote (trim_space behind) in
      if is_empty before || is_empty key || is_empty val
      then fields
      else insert bytes_discrete key val fields
]

unfoldable pub read_lines : List Text → Dict Text Text → Dict Text Text
unfolding read_line
read_lines [] fields = fields
read_lines (line ∷ lines) fields = read_lines lines (read_line line fields)

-- `extractSimpleFrontmatter`
unfoldable pub extract_simple_frontmatter : Text → Dict Text Text
unfolding read_lines
extract_simple_frontmatter content =
    if starts_with content (bytes "---" ++ newline ∷ [])
    then elim (cut (newline ∷ bytes "---") (drop 4 content)) [
      | none ↦ []
      | some (block, rest) ↦ read_lines (split_at_each newline block) []
    ]
    else []

-- `db.Doc`
pub record DbDoc : Type 0 where
  pub id : Text
  pub project : Text
  pub title : Text
  pub type : Text
  pub status : Text
  pub date : Text
  pub author : Text
  pub content_hash : Text
  pub mod_time : Text
  pub size : ℕ
  pub raw_frontmatter : Text
  pub body : Text

-- `stringVal`
unfoldable pub string_val : Dict Text Text → Text → Text
string_val fields key = elim (lookup bytes_discrete key fields) [ none ↦ [] | some v ↦ v ]

abbrev pub or_default : Text → Text → Text
or_default s fallback = if is_empty s then fallback else s

-- `sha256_hex`, `marshal` and `rfc3339` are the libraries': the hash in hex, the JSON of the
-- fields, and the text of an instant.
pub record Formats : Type 0 where
  pub sha256_hex : Text → Text
  pub marshal : Dict Text Text → Option Text
  pub rfc3339 : ℕ → Text

-- `buildDBDoc`
unfoldable pub build_db_doc : Formats → Text → Text → Text → ℕ → ℕ → DbDoc
unfolding extract_simple_frontmatter string_val
build_db_doc formats dest project raw mod_time size =
    let fields = extract_simple_frontmatter raw in
    let name = base dest in
    let stem = trim_suffix name (ext name) in
    record {
      id = dest;
      project = project;
      title = or_default (string_val fields (bytes "title")) stem;
      type = or_default (string_val fields (bytes "type")) (bytes "readme");
      status = or_default (string_val fields (bytes "status")) (bytes "draft");
      date = string_val fields (bytes "date");
      author = string_val fields (bytes "author");
      content_hash = formats.sha256_hex raw;
      mod_time = formats.rfc3339 mod_time;
      size = size;
      raw_frontmatter =
          if is_empty fields then [] else elim (formats.marshal fields) [ none ↦ [] | some t ↦ t ];
      body = raw;
    }
