-- ===== src/Importer.antt =====
-- apps/cli/internal/importer/importer.go: the documents of another project are copied into the
-- workspace, through its store, and indexed.
pub mod Metadata
pub mod Confined
pub mod Copied
pub mod Faithful
mod Tests
use vedox.Base.{
  ℕ, Bytes, Bool, true, false, not, ◌&&◌, ◌||◌, if◌then◌else◌, Option, none, some, List, [], ◌∷◌,
  ◌++◌, bytes, bytes_discrete, bytes_eq, is_empty, starts_with, ◌==◌, map,
}
use vedox.Base.Text.{Text}
use vedox.Base.Dict.{Dict, insert}
use vedox.Base.Paths.{slash, join, clean, ext, trim_prefix}
use vedox.Store.Names.{is_secret_file}
use vedox.Store.{Files, Host, StoreError, write}
use Metadata.{DbDoc, Formats, build_db_doc}

-- The source: a regular file, with its time of change and size unless `Info` fails and its bytes
-- unless the read does; a folder; or another entry, such as a link or one that cannot be read.
mutual
  pub data Node : Type 0 where
    document : Text → Option (ℕ × ℕ) → Option Bytes → Node
    folder : Text → Nodes → Node
    special : Text → Node

  pub data Nodes : Type 0 where
    nil : Nodes
    cons : Node → Nodes → Nodes

pub data Reason : Type 0 where
  secret_blocked stat_error read_error : Reason
  write_failed : StoreError → Reason

pub data Warning : Type 0 where
  not_indexed : Text → Warning
  cleanup : List Text → Warning

-- The workspace's files, the index and the result so far, the latest first.
pub record State : Type 0 where
  pub files : Files
  pub index : Dict Text DbDoc
  pub imported : List Text
  pub skipped : List (Text × Reason)
  pub warnings : List Warning

-- What the import meets: the host of the write to each destination, and whether the index fails.
pub record Env : Type 0 where
  pub host : Text → Host
  pub upsert_fails : Text → Bool
  pub formats : Formats

-- A folder that is passed over, by its name.
unfoldable pub is_skipped_folder : Text → Bool
is_skipped_folder [] = false
is_skipped_folder (c ∷ name) =
    (c == 46) || bytes_eq (c ∷ name) (bytes "node_modules") || bytes_eq (c ∷ name) (bytes "vendor")

-- The path of an entry, relative to the source.
abbrev pub under : Text → Text → Text
under [] name = name
under (c ∷ prefix) name = (c ∷ prefix) ++ slash ∷ name

abbrev pub skip : Text → Reason → State → State
skip rel reason s = record s { skipped = (rel, reason) ∷ s.skipped }

module _ (env : Env) (root project : Text) where
  -- The index, behind a write.
  unfoldable pub index_doc : Text → Bytes → ℕ → ℕ → State → State
  index_doc dest raw mod_time size s =
      let doc = build_db_doc env.formats dest project raw mod_time size in
      let listed = record s { imported = dest ∷ s.imported } in
      if env.upsert_fails dest
      then record listed { warnings = not_indexed dest ∷ s.warnings }
      else record listed { index = insert bytes_discrete doc.id doc s.index }

  -- The copy of a document that was read.
  unfoldable pub copy_doc : Text → Bytes → ℕ → ℕ → State → State
  unfolding index_doc
  copy_doc rel raw mod_time size s =
      let dest = join project rel in
      let (files, err) = write (env.host dest) root dest raw s.files in
      elim err [
        | some e ↦ skip rel (write_failed e) (record s { files = files })
        | none ↦ index_doc dest raw mod_time size (record s { files = files })
      ]

  -- The callback of the walk for a regular file.
  unfoldable pub import_doc : Text → Text → Option (ℕ × ℕ) → Option Bytes → State → State
  unfolding copy_doc
  import_doc rel name info content s =
      if not (bytes_eq (ext name) (bytes ".md"))
      then s
      else if is_secret_file name
      then skip rel secret_blocked s
      else elim info [
        | none ↦ skip rel stat_error s
        | some (mod_time, size) ↦ elim content [
          | none ↦ skip rel read_error s
          | some raw ↦ copy_doc rel raw mod_time size s
        ]
      ]

  -- `filepath.WalkDir` with the callback.
  unfoldable mutual
    unfolding is_skipped_folder import_doc

    pub walk_node : Text → Node → State → State
    walk_node prefix (document name info content) s =
        import_doc (under prefix name) name info content s
    walk_node prefix (folder name children) s =
        let below = walk_nodes (under prefix name) children s in
        if is_skipped_folder name then s else below
    walk_node prefix (special name) s = s

    pub walk_nodes : Text → Nodes → State → State
    walk_nodes prefix nil s = s
    walk_nodes prefix (cons n ns) s = walk_nodes prefix ns (walk_node prefix n s)

pub data ImportError : Type 0 where
  relative_source missing_source bad_project_name relative_workspace self_import : ImportError

pub data Outcome : Type 0 where
  refused : ImportError → Outcome
  done : State → Outcome

abbrev is_abs : Text → Bool
is_abs path = starts_with path (slash ∷ [])

-- `strings.ContainsAny(projectName, "/\\")`
unfoldable pub has_separator : Text → Bool
has_separator [] = false
has_separator (c ∷ s) = (c == slash) || (c == 92) || has_separator s

unfoldable pub is_segment : Text → Bool
unfolding has_separator
is_segment name =
    not (has_separator name)
    && not (is_empty name)
    && not (bytes_eq name (bytes "."))
    && not (bytes_eq name (bytes ".."))

-- `filepath.EvalSymlinks`, or the path itself where it fails.
abbrev pub real_path : (Text → Option Text) → Text → Text
real_path real path = elim (real path) [ none ↦ path | some p ↦ p ]

unfoldable pub is_inside : Text → Text → Bool
is_inside src dest = bytes_eq src dest || starts_with src (dest ++ slash ∷ [])

-- The reminder, where anything was imported.
unfoldable pub remind : Text → State → State
remind project s = if is_empty s.imported then s else record s {
  warnings = cleanup (map (λ d. trim_prefix d (project ++ slash ∷ [])) s.imported) ∷ s.warnings;
}

-- `Import` into the workspace `dest` with the files and the index given. `exists` says whether the
-- source is there, and `source` is its folder: the walk begins with the folder's own name.
module _ (env : Env) (root : Text) (real : Text → Option Text) where
  unfoldable pub import_project :
      (src project dest : Text) → Bool → (name : Text) → Nodes → Files → Dict Text DbDoc → Outcome
  unfolding is_skipped_folder walk_nodes is_segment is_inside remind clean
  import_project src project dest exists name source files index =
      let start : State = record {
        files = files;
        index = index;
        imported = [];
        skipped = [];
        warnings = [];
      } in
      let walked = walk_nodes env root project [] source start in
      if not (is_abs src)
      then refused relative_source
      else if not exists
      then refused missing_source
      else if not (is_segment project)
      then refused bad_project_name
      else if not (is_abs dest)
      then refused relative_workspace
      else if is_inside (real_path real (clean src)) (real_path real (clean dest))
      then refused self_import
      else done (remind project (if is_skipped_folder name then start else walked))
