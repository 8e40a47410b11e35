-- ===== src/Store/Tests.antt =====
-- A workspace with one document, and the theorems at it.
use vedox.Base.{
  ◌≡◌, refl, true, false, Option, none, some, List, [], ◌∷◌, ◌++◌, bytes, bytes_discrete, bytes_eq,
  if◌then◌else◌, starts_with,
}
use vedox.Base.Lists.{length}
use vedox.Base.Text.{Text, newline, pieces, join_with}
use vedox.Base.Dict.{lookup, insert, delete}
use vedox.Base.Paths.{
  push_element, push_elements, clean, join, base, take_name, drop_slashes, ends_with, trim_suffix,
  match_glob,
}
use vedox.Base.Search.{cut}
use vedox.AtomicFile.{perform, falter, clean_up, run_steps, save_file}
use vedox.Store.Names.{
  secret_blocklist, cut_last, all_digits, draft, draft_md, strip_plain, strip_draft_suffixes,
  matches_any, is_secret_file,
}
use vedox.Store.Drafts.{is_secret_file-drafts}
use vedox.Store.{
  secret_file, ok, failed, path_traversal, Files, Doc, Host, safe_path, write, remove, read,
  frontmatter_block, parse_frontmatter, list_entries, list_dir,
}
use vedox.Store.Confined.{
  Call, writes, removes, run_calls, IsAllowed, IsForeign, no_links-IsForeign, run_calls-IsForeign,
  read-write,
}

-- The computing definitions of the package.
code : Unit {0}
unfolding bytes_discrete starts_with lookup insert delete pieces join_with push_element
    push_elements clean join base take_name drop_slashes ends_with trim_suffix match_glob cut
    perform falter clean_up run_steps save_file cut_last all_digits strip_plain strip_draft_suffixes
    matches_any is_secret_file safe_path write remove read frontmatter_block parse_frontmatter
    list_entries list_dir
code = tt

abbrev root : Text
root = bytes "/w"

abbrev calm : Host
calm = record {
  fault = record { at = none; written = 0; cleanup_fails = false };
  unreadable = λ path. false;
  undeletable = λ path. false;
  read_dir = λ path. some (
      record { name = bytes "a.md"; regular = true; info_fails = false }
      ∷ record { name = bytes ".env"; regular = true; info_fails = false }
      ∷ []);
  now = 9;
  leads_to = λ path. path;
}

abbrev front : Text
front = bytes "---" ++ newline ∷ (bytes "t: x" ++ newline ∷ (bytes "---" ++ newline ∷ bytes "body"))

abbrev files : Files
files =
    (bytes "/w/docs/a.md", record { content = front; mod_time = 3 })
    ∷ (bytes "/w/docs/.env", record { content = bytes "k"; mod_time = 3 })
    ∷ (bytes "/etc/a.md", record { content = bytes "out"; mod_time = 3 })
    ∷ []

abbrev unmarshal : Text → Option Text
unmarshal t = some t

-- The block between the delimiters is what is parsed; the text stays whole.
read_test :
    read [] unmarshal calm root (bytes "docs/../docs/a.md") files
    ≡ ok (record {
      path = bytes "docs/../docs/a.md";
      content = front;
      metadata = bytes "t: x";
      mod_time = 3;
      size = 17;
    })
unfolding code
read_test = refl

traversal_test : safe_path root (bytes "../etc/a.md") ≡ failed path_traversal
unfolding code
traversal_test = refl

secret_test : safe_path root (bytes "docs/.env.draft.md.2") ≡ failed secret_file
unfolding code
secret_test = refl

-- A draft of a draft is not taken for a secret: one suffix is stripped.
twice_test : is_secret_file (bytes ".env.draft.draft") ≡ false
unfolding code
twice_test = refl

-- The secret file of the folder is not listed.
list_test :
    list_dir [] unmarshal calm root (bytes "docs") files
    ≡ ok (
        record {
          path = bytes "docs/a.md";
          content = front;
          metadata = bytes "t: x";
          mod_time = 3;
          size = 17;
        }
        ∷ [])
unfolding code
list_test = refl

read-write_example :
    (doc : Doc Text) × (read [] unmarshal calm root
        (bytes "b.md")
        (write calm root (bytes "b.md") (bytes "new") files).0
      ≡ ok doc)
    × (doc.path ≡ bytes "b.md")
    × (doc.content ≡ bytes "new")
    × (doc.size ≡ length (bytes "new"))
    × (doc.mod_time ≡ calm.now)
    × (doc.metadata ≡ (parse_frontmatter [] unmarshal (bytes "new")).0)
unfolding code
read-write_example =
    read-write [] unmarshal calm calm root (bytes "b.md") (bytes "new") files refl (λ path. refl)
      (λ path. refl)

abbrev calls : List (Host × Call)
calls =
    (calm, writes (bytes "../etc/a.md") (bytes "x"))
    ∷ (calm, removes (bytes "docs/.env"))
    ∷ (calm, writes (bytes "docs/a.md") (bytes "y"))
    ∷ []

env_is_blocked : IsAllowed root (bytes "/w/docs/.env") → ⊥
unfolding code
env_is_blocked h = let k = h.no_secret in cc

env-IsForeign : IsForeign calm root (bytes "/w/docs/.env")
env-IsForeign = no_links-IsForeign calm root (bytes "/w/docs/.env") (λ path. refl) env_is_blocked

run_calls-IsForeign_example :
    lookup bytes_discrete (bytes "/w/docs/.env") (run_calls root calls files)
    ≡ lookup bytes_discrete (bytes "/w/docs/.env") files
run_calls-IsForeign_example =
    run_calls-IsForeign root calls files (bytes "/w/docs/.env")
      (env-IsForeign, (env-IsForeign, (env-IsForeign, tt)))

-- The write inside the root is made.
written_test :
    lookup bytes_discrete (bytes "/w/docs/a.md") (run_calls root calls files)
    ≡ some (record { content = bytes "y"; mod_time = 9 })
unfolding code
written_test = refl

-- The folder `out` of the root is a link to `/etc`.
abbrev linked : Host
linked = record calm {
  leads_to = λ path. if bytes_eq path (bytes "/w/out/a.md") then bytes "/etc/a.md" else path;
}

-- A write through the link is let pass, and changes a file outside the root.
escape_test :
    lookup bytes_discrete
      (bytes "/etc/a.md")
      (write linked root (bytes "out/a.md") (bytes "x") files).0
    ≡ some (record { content = bytes "x"; mod_time = 9 })
unfolding code
escape_test = refl

is_secret_file-drafts_example :
    (is_secret_file (bytes "a.pem" ++ draft) ≡ matches_any secret_blocklist (bytes "a.pem"))
    × (is_secret_file (bytes "a.pem" ++ draft_md) ≡ matches_any secret_blocklist (bytes "a.pem"))
    × (is_secret_file (bytes "a.pem" ++ (draft_md ++ 46 ∷ 49 ∷ []))
        ≡ matches_any secret_blocklist (bytes "a.pem"))
unfolding code
is_secret_file-drafts_example = is_secret_file-drafts (bytes "a.pem") 49 [] refl
