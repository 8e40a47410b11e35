-- ===== src/Store.antt =====
-- apps/cli/internal/store/local_adapter.go: the files of a workspace, behind one check of paths.
-- The content of a file is its bytes.
pub mod Names
pub mod Drafts
pub mod Confined
mod Tests
use vedox.Base.{
  ℕ, ◌≡◌, refl, ◌⊎◌, inl, inr, Bool, true, false, not, ◌&&◌, ◌||◌, if◌then◌else◌, Option, none,
  some, Bytes, List, [], ◌∷◌, ◌++◌, bytes, bytes_discrete, bytes_eq, starts_with,
}
use vedox.Base.Lists.{length, drop}
use vedox.Base.Text.{Text, newline}
use vedox.Base.Dict.{Dict, lookup, insert, delete}
use vedox.Base.Paths.{slash, join, clean, base}
use vedox.Base.Search.{cut}
use vedox.AtomicFile.{Fault, Disk, WriteError, save_file}
use Names.{is_secret_file}

pub data StoreError : Type 0 where
  -- VDX-005 and VDX-006.
  path_traversal secret_file : StoreError
  stat_failed read_failed remove_failed read_dir_failed : StoreError
  write_failed : WriteError → StoreError

pub data Result {ℓ} (A : Type ℓ) : Type ℓ where
  ok : A → Result A
  failed : StoreError → Result A

pub Result-cases {ℓ} :
    {A : Type ℓ} (r : Result A) → ((e : StoreError) × (r ≡ failed e)) ⊎ ((a : A) × (r ≡ ok a))
Result-cases (ok a) = inr (a, refl)
Result-cases (failed e) = inl (e, refl)

-- A file on disk, with its time of change.
pub record File : Type 0 where
  pub content : Bytes
  pub mod_time : ℕ

-- The regular files, by the path that no link is part of.
abbrev pub Files : Type 0
Files = Dict Text File

-- `Doc`; `Meta` is what the YAML library returns.
pub record Doc (Meta : Type 0) : Type 0 where
  pub path : Text
  pub content : Bytes
  pub metadata : Meta
  pub mod_time : ℕ
  pub size : ℕ

-- An entry of a folder, and whether its `Info` fails.
pub record Entry : Type 0 where
  pub name : Text
  pub regular : Bool
  pub info_fails : Bool

-- What one operation meets: the call of a write that fails, whether a read or a removal of the
-- path fails though the file is there, the entries that a folder shows, the instant, and the path
-- to which the operating system takes another one, by the links among its folders.
pub record Host : Type 0 where
  pub fault : Fault
  pub unreadable : Text → Bool
  pub undeletable : Text → Bool
  pub read_dir : Text → Option (List Entry)
  pub now : ℕ
  pub leads_to : Text → Text

-- `safePath` of an adapter whose root is `root`.
unfoldable pub safe_path : Text → Text → Result Text
unfolding clean
safe_path root path =
    let abs = clean (join root path) in
    if not (bytes_eq abs root) && not (starts_with abs (root ++ slash ∷ []))
    then failed path_traversal
    else if is_secret_file (base abs)
    then failed secret_file
    else ok abs

-- `Write`
unfoldable pub write : Host → Text → Text → Bytes → Files → Files × Option StoreError
unfolding safe_path save_file
write host root path content files = elim (safe_path root path) [
  | failed e ↦ (files, some e)
  | ok abs ↦
      let place = host.leads_to abs in
      let old : Option Bytes = elim (lookup bytes_discrete place files) [
        | none ↦ none
        | some f ↦ some f.content
      ] in
      let folder : Disk = record { dir_made = true; temp = none; file = old } in
      let (disk, err) = save_file (some content) host.fault folder in
      elim err [
        | some e ↦ (files, some (write_failed e))
        | none ↦ elim (disk.file) [
          | none ↦ (files, none)
          | some written ↦ (
            insert bytes_discrete place (record { content = written; mod_time = host.now }) files,
            none,
          )
        ]
      ]
]

-- `Delete`
unfoldable pub remove : Host → Text → Text → Files → Files × Option StoreError
unfolding safe_path
remove host root path files = elim (safe_path root path) [
  | failed e ↦ (files, some e)
  | ok abs ↦ elim (lookup bytes_discrete (host.leads_to abs) files) [
    | none ↦ (files, some remove_failed)
    | some f ↦
        if host.undeletable abs
        then (files, some remove_failed)
        else (delete bytes_discrete (host.leads_to abs) files, none)
  ]
]

module _ {Meta : Type 0} (no_meta : Meta) (unmarshal : Bytes → Option Meta) where
  -- The block of YAML between the two delimiters.
  unfoldable pub frontmatter_block : Bytes → Option Bytes
  frontmatter_block raw =
      let opening = bytes "---" ++ newline ∷ [] in
      if starts_with raw opening
      then elim (cut (newline ∷ bytes "---") (drop (length opening) raw)) [
        | none ↦ none
        | some (block, rest) ↦ some block
      ]
      else none

  -- `parseFrontmatter`; malformed YAML counts as none.
  unfoldable pub parse_frontmatter : Bytes → Meta × Bytes
  unfolding frontmatter_block
  parse_frontmatter raw = (
    elim (frontmatter_block raw) [
      | none ↦ no_meta
      | some block ↦ elim (unmarshal block) [ none ↦ no_meta | some meta ↦ meta ]
    ],
    raw,
  )

  abbrev pub doc_of : Text → File → Doc Meta
  doc_of path f = record {
    path = path;
    content = (parse_frontmatter f.content).1;
    metadata = (parse_frontmatter f.content).0;
    mod_time = f.mod_time;
    size = length f.content;
  }

  -- `Read`
  unfoldable pub read : Host → Text → Text → Files → Result (Doc Meta)
  unfolding safe_path parse_frontmatter
  read host root path files = elim (safe_path root path) [
    | failed e ↦ failed e
    | ok abs ↦ elim (lookup bytes_discrete (host.leads_to abs) files) [
      | none ↦ failed stat_failed
      | some f ↦ if host.unreadable abs then failed read_failed else ok (doc_of path f)
    ]
  ]

  -- The entries that `List` keeps; it logs and passes over the others.
  unfoldable pub list_entries : Host → Text → Text → Files → List Entry → List (Doc Meta)
  unfolding parse_frontmatter
  list_entries host dir abs files [] = []
  list_entries host dir abs files (e ∷ entries) =
      let rest = list_entries host dir abs files entries in
      let path = join abs e.name in
      if not e.regular || is_secret_file e.name || e.info_fails || host.unreadable path
      then rest
      else elim (lookup bytes_discrete (host.leads_to path) files) [
        | none ↦ rest
        | some f ↦ doc_of (join dir e.name) f ∷ rest
      ]

  -- `List`
  unfoldable pub list_dir : Host → Text → Text → Files → Result (List (Doc Meta))
  unfolding safe_path list_entries
  list_dir host root dir files = elim (safe_path root dir) [
    | failed e ↦ failed e
    | ok abs ↦ elim (host.read_dir abs) [
      | none ↦ failed read_dir_failed
      | some entries ↦ ok (list_entries host dir abs files entries)
    ]
  ]
