-- ===== src/Importer/Confined.antt =====
-- An import changes no file that the workspace's store would not let a client change.
use vedox.Base.{
  ℕ, ◌≡◌, refl, ◌∙◌, inl, inr, Bool, Option-cases, Option, none, some, [], arith, bytes_discrete,
  if◌then◌else◌,
}
use vedox.Base.Text.{Text}
use vedox.Base.Dict.{Dict, lookup}
use vedox.Base.Paths.{join}
use vedox.Store.{Files, write}
use vedox.Store.Confined.{IsForeign, writes, run_call-IsForeign}
use vedox.Importer.Metadata.{DbDoc}
use vedox.Importer.{
  Node, document, folder, special, Nodes, nil, cons, State, Env, under, index_doc, copy_doc,
  import_doc, is_skipped_folder, walk_node, walk_nodes, remind, import_project, done,
}

module _ (env : Env) (root project : Text) where
  index_doc-files :
      (dest raw : Text) (mod_time size : ℕ) (s : State)
      → (index_doc env root project dest raw mod_time size s).files ≡ s.files
  unfolding index_doc
  index_doc-files dest raw mod_time size s = ground arith

  copy_doc-IsForeign :
      (rel raw : Text) (mod_time size : ℕ) (s : State) (j : Text)
      → IsForeign (env.host (join project rel)) root j
      → lookup bytes_discrete j (copy_doc env root project rel raw mod_time size s).files
        ≡ lookup bytes_discrete j s.files
  unfolding copy_doc
  copy_doc-IsForeign rel raw mod_time size s j foreign =
      let dest = join project rel in
      let kept = run_call-IsForeign (env.host dest) root (writes dest raw) s.files j foreign in
      elim (Option-cases (write (env.host dest) root dest raw s.files).1) [
        | inr (e, p) ↦ ground (arith, p, kept)
        | inl p ↦
            let written = record s { files = (write (env.host dest) root dest raw s.files).0 } in
            ground (arith, p, kept, index_doc-files dest raw mod_time size written)
      ]

  import_doc-IsForeign :
      (rel name : Text) (info : Option (ℕ × ℕ)) (content : Option Text) (s : State) (j : Text)
      → ((dest : Text) → IsForeign (env.host dest) root j)
      → lookup bytes_discrete j (import_doc env root project rel name info content s).files
        ≡ lookup bytes_discrete j s.files
  unfolding import_doc
  import_doc-IsForeign rel name none content s j foreign = ground arith
  import_doc-IsForeign rel name (some (mod_time, size)) none s j foreign = ground arith
  import_doc-IsForeign rel name (some (mod_time, size)) (some raw) s j foreign =
      ground (arith, copy_doc-IsForeign rel raw mod_time size s j (foreign (join project rel)))

  mutual
    unfolding walk_node

    walk_node-IsForeign :
        (prefix : Text) (n : Node) (s : State) (j : Text)
        → ((dest : Text) → IsForeign (env.host dest) root j)
        → lookup bytes_discrete j (walk_node env root project prefix n s).files
          ≡ lookup bytes_discrete j s.files
    walk_node-IsForeign prefix (document name info content) s j foreign =
        import_doc-IsForeign (under prefix name) name info content s j foreign
    walk_node-IsForeign prefix (folder name children) s j foreign =
        ground (arith, walk_nodes-IsForeign (under prefix name) children s j foreign)
    walk_node-IsForeign prefix (special name) s j foreign = refl

    walk_nodes-IsForeign :
        (prefix : Text) (ns : Nodes) (s : State) (j : Text)
        → ((dest : Text) → IsForeign (env.host dest) root j)
        → lookup bytes_discrete j (walk_nodes env root project prefix ns s).files
          ≡ lookup bytes_discrete j s.files
    walk_nodes-IsForeign prefix nil s j foreign = refl
    walk_nodes-IsForeign prefix (cons n ns) s j foreign =
        walk_nodes-IsForeign prefix ns (walk_node env root project prefix n s) j foreign
        ∙ walk_node-IsForeign prefix n s j foreign

abbrev pub started : Files → Dict Text DbDoc → State
started files index = record {
  files = files;
  index = index;
  imported = [];
  skipped = [];
  warnings = [];
}

module _ (env : Env) (root : Text) (real : Text → Option Text) where
  -- An import that is not refused is the walk, unless the source is a folder to pass over.
  pub import_project_done :
      (src project dest : Text) (exists : Bool) (name : Text) (source : Nodes) (files : Files)
      (index : Dict Text DbDoc) (s : State)
      → import_project env root real src project dest exists name source files index ≡ done s
      → s
        ≡ remind project (
            if is_skipped_folder name
            then started files index
            else walk_nodes env root project [] source (started files index))
  unfolding import_project
  import_project_done src project dest exists name source files index s h = ground (arith, h)

  -- Whatever the source holds, whatever fails and whatever the links of the workspace, an import that
  -- is not refused changes only files to which a path leads that is the root of the workspace's
  -- store or lies below it by its letters and whose name is no secret's.
  pub import_project-IsForeign :
      (src project dest : Text) (exists : Bool) (name : Text) (source : Nodes) (files : Files)
      (index : Dict Text DbDoc) (s : State) (j : Text)
      → import_project env root real src project dest exists name source files index ≡ done s
      → ((dest : Text) → IsForeign (env.host dest) root j)
      → lookup bytes_discrete j s.files ≡ lookup bytes_discrete j files
  unfolding remind
  import_project-IsForeign src project dest exists name source files index s j h foreign =
      let same = import_project_done src project dest exists name source files index s h in
      let walked =
        walk_nodes-IsForeign env root project [] source (started files index) j foreign in
      ground (arith, same, walked)
