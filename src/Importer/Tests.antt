-- ===== src/Importer/Tests.antt =====
-- A project of a few documents, and the theorems at its import.
use vedox.Base.{
  ◌≡◌, refl, map, true, false, Option, none, some, [], ◌∷◌, ◌++◌, bytes, bytes_discrete,
  starts_with,
}
use vedox.Base.Text.{Text, newline, pieces, join_with, is_space, trim_left, trim_right}
use vedox.Base.Dict.{lookup, insert, delete}
use vedox.Base.Paths.{
  push_element, push_elements, clean, join, base, take_name, drop_slashes, ends_with, trim_suffix,
  trim_prefix, match_glob, ext, ext_behind,
}
use vedox.Base.Search.{cut}
use vedox.AtomicFile.{perform, falter, clean_up, run_steps, save_file}
use vedox.Store.Names.{
  cut_last, all_digits, strip_plain, strip_draft_suffixes, matches_any, is_secret_file,
}
use vedox.Store.{Files, Host, safe_path, write}
use vedox.Store.Confined.{IsAllowed, IsForeign, no_links-IsForeign}
use vedox.Importer.Metadata.{
  at_colon, read_line, read_lines, extract_simple_frontmatter, string_val, build_db_doc, DbDoc,
}
use vedox.Importer.{
  Nodes, document, folder, nil, cons, State, Env, done, refused, secret_blocked, self_import,
  is_skipped_folder, index_doc, copy_doc, import_doc, walk_node, walk_nodes, has_separator,
  is_segment, is_inside, remind, import_project,
}
use vedox.Importer.Confined.{started, import_project-IsForeign}
use vedox.Importer.Copied.{visit, visit_node, visit_nodes, Copied}

-- The computing definitions of the package.
code : Unit {0}
unfolding bytes_discrete starts_with lookup insert delete pieces join_with is_space trim_left
    trim_right push_element push_elements clean join base take_name drop_slashes ends_with
    trim_suffix trim_prefix match_glob ext ext_behind cut perform falter clean_up run_steps
    save_file cut_last all_digits strip_plain strip_draft_suffixes matches_any is_secret_file
    safe_path write at_colon read_line read_lines extract_simple_frontmatter string_val build_db_doc
    is_skipped_folder index_doc copy_doc import_doc walk_node walk_nodes has_separator is_segment
    is_inside remind import_project visit visit_node visit_nodes
code = tt

abbrev calm : Host
calm = record {
  fault = record { at = none; written = 0; cleanup_fails = false };
  unreadable = λ path. false;
  undeletable = λ path. false;
  read_dir = λ path. none;
  now = 9;
  leads_to = λ path. path;
}

abbrev env : Env
env = record {
  host = λ dest. calm;
  upsert_fails = λ dest. false;
  formats = record { sha256_hex = λ t. t; marshal = λ d. none; rfc3339 = λ t. t ∷ [] };
}

abbrev text : Text
text =
    bytes "---"
    ++ newline ∷ (bytes "title: 'Hi'" ++ newline ∷ (bytes "---" ++ newline ∷ bytes "body"))

abbrev source : Nodes
source = cons (document (bytes ".env.md") (some (1, 1)) (some (bytes "k"))) (
    cons (document (bytes "key.pem.draft.md") (some (1, 1)) (some (bytes "k"))) (
      cons (folder (bytes "docs") (cons (document (bytes "a.md") (some (5, 30)) (some text)) nil)) (
        cons (folder (bytes "vendor") (cons (document (bytes "b.md") (some (5, 1)) (some [])) nil))
          (cons (document (bytes "c.txt") (some (5, 1)) (some [])) nil))))

abbrev files : Files
files = (bytes "/w/.env", record { content = bytes "k"; mod_time = 3 }) ∷ []

abbrev result : State
result =
    elim (import_project env (bytes "/w") (λ p. none) (bytes "/src") (bytes "proj") (bytes "/w")
      true (bytes "src") source files []) [ refused e ↦ started files [] | done s ↦ s ]

imported_test : result.imported ≡ bytes "proj/docs/a.md" ∷ bytes "proj/.env.md" ∷ []
unfolding code
imported_test = refl

skipped_test : result.skipped ≡ (bytes "key.pem.draft.md", secret_blocked) ∷ []
unfolding code
skipped_test = refl

abbrev title_of : Option DbDoc → Text
title_of none = []
title_of (some d) = d.title

title_test : title_of (lookup bytes_discrete (bytes "proj/docs/a.md") result.index) ≡ bytes "Hi"
unfolding code
title_test = refl

-- A workspace is not imported into itself.
self_import_test :
    import_project env
      (bytes "/w")
      (λ p. none)
      (bytes "/w/sub")
      (bytes "proj")
      (bytes "/w")
      true
      (bytes "sub")
      source
      files
      []
    ≡ refused self_import
unfolding code
self_import_test = refl

-- A source whose own name begins with a dot is passed over whole.
hidden_source_test :
    import_project env
      (bytes "/w")
      (λ p. none)
      (bytes "/.src")
      (bytes "proj")
      (bytes "/w")
      true
      (bytes ".src")
      source
      files
      []
    ≡ done (started files [])
unfolding code
hidden_source_test = refl

env_is_blocked : IsAllowed (bytes "/w") (bytes "/w/.env") → ⊥
unfolding code
env_is_blocked h = let k = h.no_secret in cc

env-IsForeign : IsForeign calm (bytes "/w") (bytes "/w/.env")
env-IsForeign = no_links-IsForeign calm (bytes "/w") (bytes "/w/.env") (λ path. refl) env_is_blocked

import_project-IsForeign_example :
    lookup bytes_discrete (bytes "/w/.env") result.files
    ≡ lookup bytes_discrete (bytes "/w/.env") files
unfolding code
import_project-IsForeign_example =
    import_project-IsForeign env (bytes "/w") (λ p. none) (bytes "/src") (bytes "proj") (bytes "/w")
      true (bytes "src") source files [] result (bytes "/w/.env") refl (λ dest. env-IsForeign)

-- The three Markdown files outside `vendor`, the last one first.
visited_test :
    map (λ d. d.rel) (visit_nodes [] source [])
    ≡ bytes "docs/a.md" ∷ bytes "key.pem.draft.md" ∷ bytes ".env.md" ∷ []
unfolding code
visited_test = refl
