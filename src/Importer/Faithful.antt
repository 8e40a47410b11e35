-- ===== src/Importer/Faithful.antt =====
-- What an import does with each document of the source.
use mathlib.Core.Path.{subst}
use vedox.Base.{
  ℕ, ◌≡◌, refl, inl, inr, Bool-cases, true, false, Bytes, Option, none, some, List, ◌∷◌, arith,
  bytes, bytes_discrete, bytes_eq, if◌then◌else◌,
}
use vedox.Base.Text.{Text}
use vedox.Base.Dict.{Dict, insert}
use vedox.Base.Paths.{join, ext}
use vedox.Store.Names.{is_secret_file}
use vedox.Store.{File, Files}
use vedox.Store.Confined.{write-cases}
use vedox.Importer.Copied.{
  Document, readable, visit, visit_node, visit_nodes, Copied, imported, blocked, unreadable,
  unwritten,
}
use vedox.Importer.{
  Node, document, folder, special, Nodes, nil, cons, State, Env, under, skip, index_doc, copy_doc,
  import_doc, is_skipped_folder, walk_node, walk_nodes, secret_blocked, stat_error, read_error,
  write_failed,
}

module _ (env : Env) (root project : Text) (before : Files) where
  abbrev Told : List Document → State → Type 0
  Told ds s = Copied env root project before ds s.imported s.skipped s.files

  index_doc_tells :
      (ds : List Document) (dest : Text) (raw : Bytes) (mod_time size : ℕ) (s : State)
      → Copied env root project before ds (dest ∷ s.imported) s.skipped s.files
      → Told ds (index_doc env root project dest raw mod_time size s)
  unfolding index_doc
  index_doc_tells ds dest raw mod_time size s t = elim (Bool-cases (env.upsert_fails dest)) [
    | inl e ↦ rw e t
    | inr e ↦ rw e t
  ]

  copy_doc_tells :
      (ds : List Document) (d : Document) (raw : Bytes) (mod_time size : ℕ) (s : State)
      → is_secret_file d.name ≡ false
      → d.content ≡ some raw
      → Told ds s
      → Told (d ∷ ds) (copy_doc env root project d.rel raw mod_time size s)
  unfolding copy_doc
  copy_doc_tells ds d raw mod_time size s plain whole t =
      let dest = join project d.rel in
      let next = copy_doc env root project d.rel raw mod_time size s in
      elim (write-cases (env.host dest) root dest raw s.files) [
        | inr (e, p, q) ↦
            let same : skip d.rel (write_failed e) s ≡ next = ground (arith, p, q) in
            subst (λ (x : State). Told (d ∷ ds) x) same
              (unwritten ds s.imported s.skipped s.files d raw e t plain whole)
        | inl (abs, safe, p, q) ↦
            let f : File = record { content = raw; mod_time = (env.host dest).now } in
            let written = record s {
              files = insert bytes_discrete ((env.host dest).leads_to abs) f s.files;
            } in
            let same : index_doc env root project dest raw mod_time size written ≡ next =
              ground (arith, p, q) in
            subst (λ (x : State). Told (d ∷ ds) x) same
              (index_doc_tells (d ∷ ds) dest raw mod_time size written
                (imported ds s.imported s.skipped s.files d raw abs t plain whole safe))
      ]

  -- A Markdown file that is no secret.
  plain_doc_tells :
      (ds : List Document) (rel name : Text) (info : Option (ℕ × ℕ)) (content : Option Bytes)
      (s : State)
      → bytes_eq (ext name) (bytes ".md") ≡ true
      → is_secret_file name ≡ false
      → Told ds s
      → Told
          (record { rel = rel; name = name; content = readable info content } ∷ ds)
          (import_doc env root project rel name info content s)
  unfolding import_doc
  plain_doc_tells ds rel name none content s md plain t =
      let d : Document = record { rel = rel; name = name; content = none } in
      let same : skip rel stat_error s ≡ import_doc env root project rel name none content s =
        ground (arith, md, plain) in
      subst (λ (x : State). Told (d ∷ ds) x) same
        (unreadable ds s.imported s.skipped s.files d stat_error t plain refl (inl refl))
  plain_doc_tells ds rel name (some info) none s md plain t =
      let d : Document = record { rel = rel; name = name; content = none } in
      let same : skip rel read_error s ≡ import_doc env root project rel name (some info) none s =
        ground (arith, md, plain) in
      subst (λ (x : State). Told (d ∷ ds) x) same
        (unreadable ds s.imported s.skipped s.files d read_error t plain refl (inr refl))
  plain_doc_tells ds rel name (some (mod_time, size)) (some raw) s md plain t =
      let d : Document = record { rel = rel; name = name; content = some raw } in
      let same : copy_doc env root project rel raw mod_time size s
          ≡ import_doc env root project rel name (some (mod_time, size)) (some raw) s =
        ground (arith, md, plain) in
      subst (λ (x : State). Told (d ∷ ds) x) same
        (copy_doc_tells ds d raw mod_time size s plain refl t)

  md_doc_tells :
      (ds : List Document) (rel name : Text) (info : Option (ℕ × ℕ)) (content : Option Bytes)
      (s : State)
      → bytes_eq (ext name) (bytes ".md") ≡ true
      → Told ds s
      → Told
          (record { rel = rel; name = name; content = readable info content } ∷ ds)
          (import_doc env root project rel name info content s)
  unfolding import_doc
  md_doc_tells ds rel name info content s md t = elim (Bool-cases (is_secret_file name)) [
    | inr plain ↦ plain_doc_tells ds rel name info content s md plain t
    | inl secret ↦
        let d : Document = record { rel = rel; name = name; content = readable info content } in
        let same : skip rel secret_blocked s ≡ import_doc env root project rel name info content s =
          ground (arith, md, secret) in
        subst (λ (x : State). Told (d ∷ ds) x) same
          (blocked ds s.imported s.skipped s.files d t secret)
  ]

  import_doc_tells :
      (ds : List Document) (rel name : Text) (info : Option (ℕ × ℕ)) (content : Option Bytes)
      (s : State)
      → Told ds s
      → Told (visit rel name info content ds) (import_doc env root project rel name info content s)
  unfolding visit import_doc
  import_doc_tells ds rel name info content s t =
      elim (Bool-cases (bytes_eq (ext name) (bytes ".md"))) [
        | inl e ↦
            let told = md_doc_tells ds rel name info content s e t in
            let seen : record { rel = rel; name = name; content = readable info content } ∷ ds
                ≡ visit rel name info content ds =
              rw e in
            subst
              (λ (x : List Document). Told x (import_doc env root project rel name info content s))
              seen told
        | inr e ↦
            let same : s ≡ import_doc env root project rel name info content s =
              ground (arith, e) in
            let seen : ds ≡ visit rel name info content ds = rw e in
            subst
              (λ (x : List Document). Told x (import_doc env root project rel name info content s))
              seen (subst (λ (x : State). Told ds x) same t)
      ]

  folder_tells :
      (name : Text) (ds below : List Document) (s s' : State)
      → Told ds s
      → Told below s'
      → Told
          (if is_skipped_folder name then ds else below)
          (if is_skipped_folder name then s else s')
  folder_tells name ds below s s' t t' = elim (Bool-cases (is_skipped_folder name)) [
    | inl e ↦ rw e t
    | inr e ↦ rw e t'
  ]

  mutual
    unfolding walk_node visit_node

    walk_node_tells :
        (prefix : Text) (n : Node) (ds : List Document) (s : State)
        → Told ds s
        → Told (visit_node prefix n ds) (walk_node env root project prefix n s)
    walk_node_tells prefix (document name info content) ds s t =
        import_doc_tells ds (under prefix name) name info content s t
    walk_node_tells prefix (folder name children) ds s t =
        folder_tells name ds (visit_nodes (under prefix name) children ds) s
          (walk_nodes env root project (under prefix name) children s) t
          (walk_nodes_tells (under prefix name) children ds s t)
    walk_node_tells prefix (special name) ds s t = t

    walk_nodes_tells :
        (prefix : Text) (ns : Nodes) (ds : List Document) (s : State)
        → Told ds s
        → Told (visit_nodes prefix ns ds) (walk_nodes env root project prefix ns s)
    walk_nodes_tells prefix nil ds s t = t
    walk_nodes_tells prefix (cons n ns) ds s t =
        walk_nodes_tells prefix ns (visit_node prefix n ds) (walk_node env root project prefix n s)
          (walk_node_tells prefix n ds s t)
