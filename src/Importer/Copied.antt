-- ===== src/Importer/Copied.antt =====
-- What becomes of each document of a source: the relation that an import is to satisfy.
use vedox.Base.{
  ℕ, ◌≡◌, ◌⊎◌, true, false, Bytes, Option, none, some, List, [], ◌∷◌, bytes, bytes_discrete,
  bytes_eq, if◌then◌else◌,
}
use vedox.Base.Text.{Text}
use vedox.Base.Dict.{insert}
use vedox.Base.Paths.{join, ext}
use vedox.Store.Names.{is_secret_file}
use vedox.Store.{Files, StoreError, ok, safe_path}
use vedox.Importer.{
  Node, document, folder, special, Nodes, nil, cons, Reason, Env, under, is_skipped_folder,
  secret_blocked, stat_error, read_error, write_failed,
}

-- A Markdown file of the source, by its path below the source, and its bytes where they and its
-- `Info` can be read.
pub record Document : Type 0 where
  pub rel : Text
  pub name : Text
  pub content : Option Bytes

abbrev pub readable : Option (ℕ × ℕ) → Option Bytes → Option Bytes
readable none content = none
readable (some info) content = content

-- The documents seen so far, and a file.
unfoldable pub visit : Text → Text → Option (ℕ × ℕ) → Option Bytes → List Document → List Document
visit rel name info content ds =
    if bytes_eq (ext name) (bytes ".md")
    then record { rel = rel; name = name; content = readable info content } ∷ ds
    else ds

-- The Markdown files in folders that are not passed over, in the order of the walk, the last one
-- first.
unfoldable mutual
  unfolding visit is_skipped_folder

  pub visit_node : Text → Node → List Document → List Document
  visit_node prefix (document name info content) ds = visit (under prefix name) name info content ds
  visit_node prefix (folder name children) ds =
      let below = visit_nodes (under prefix name) children ds in
      if is_skipped_folder name then ds else below
  visit_node prefix (special name) ds = ds

  pub visit_nodes : Text → Nodes → List Document → List Document
  visit_nodes prefix nil ds = ds
  visit_nodes prefix (cons n ns) ds = visit_nodes prefix ns (visit_node prefix n ds)

-- The documents, the paths imported, the entries skipped with their reasons, and the files of the
-- workspace, which began as `before`. Each document is imported, with its own bytes written where
-- its destination leads; or skipped: as a secret, as unreadable, or because the write failed.
pub data Copied (env : Env) (root project : Text) (before : Files)
    : List Document → List Text → List (Text × Reason) → Files → Type 0 where
  nothing : Copied env root project before [] [] [] before
  imported :
      (ds : List Document) (done : List Text) (passed : List (Text × Reason)) (files : Files)
      (d : Document) (raw : Bytes) (abs : Text)
      → Copied env root project before ds done passed files
      → is_secret_file d.name ≡ false
      → d.content ≡ some raw
      → safe_path root (join project d.rel) ≡ ok abs
      → Copied env root project before (d ∷ ds) (join project d.rel ∷ done) passed (
          insert bytes_discrete
            ((env.host (join project d.rel)).leads_to abs)
            (record { content = raw; mod_time = (env.host (join project d.rel)).now })
            files)
  blocked :
      (ds : List Document) (done : List Text) (passed : List (Text × Reason)) (files : Files)
      (d : Document)
      → Copied env root project before ds done passed files
      → is_secret_file d.name ≡ true
      → Copied env root project before (d ∷ ds) done ((d.rel, secret_blocked) ∷ passed) files
  unreadable :
      (ds : List Document) (done : List Text) (passed : List (Text × Reason)) (files : Files)
      (d : Document) (r : Reason)
      → Copied env root project before ds done passed files
      → is_secret_file d.name ≡ false
      → d.content ≡ none
      → (r ≡ stat_error) ⊎ (r ≡ read_error)
      → Copied env root project before (d ∷ ds) done ((d.rel, r) ∷ passed) files
  unwritten :
      (ds : List Document) (done : List Text) (passed : List (Text × Reason)) (files : Files)
      (d : Document) (raw : Bytes) (e : StoreError)
      → Copied env root project before ds done passed files
      → is_secret_file d.name ≡ false
      → d.content ≡ some raw
      → Copied env root project before (d ∷ ds) done ((d.rel, write_failed e) ∷ passed) files
