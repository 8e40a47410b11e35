-- ===== src/Store/Confined.antt =====
-- What the operations of a store can read and change.
use mathlib.Core.Path.{subst}
use vedox.Base.{
  ◌≡◌, refl, sym, ◌∙◌, ◌⊎◌, inl, inr, Bool-cases, true, false, not, ◌&&◌, Option-cases, Option,
  none, some, Bytes, ◌≢◌, List, [], ◌∷◌, ◌++◌, arith, bytes_discrete, bytes_eq, starts_with, if_neg,
}
use vedox.Base.Lists.{length, All}
use vedox.Base.Text.{Text, append_assoc}
use vedox.Base.Dict.{lookup, insert, delete, lookup-insert, lookup-insert_self, lookup-delete}
use vedox.Base.Paths.{slash, clean, join, base}
use vedox.Base.Search.{starts_with_parts}
use vedox.AtomicFile.{Disk}
use vedox.AtomicFile.Saved.{save_file-cases}
use vedox.Store.Names.{is_secret_file}
use vedox.Store.{
  StoreError, Result-cases, ok, File, Files, Doc, Host, safe_path, write, remove, parse_frontmatter,
  doc_of, read, write_failed, remove_failed,
}

-- The root or a path below it, whose name is no secret's.
pub record IsAllowed (root abs : Text) : Type 0 where
  pub below : (abs ≡ root) ⊎ ((rest : Text) × (abs ≡ root ++ slash ∷ rest))
  pub no_secret : is_secret_file (base abs) ≡ false

allowed :
    (root path abs : Text)
    → safe_path root path ≡ ok abs
    → (let found = clean (join root path) in
        (found ≡ root) ⊎ ((rest : Text) × (found ≡ root ++ slash ∷ rest)))
    → IsAllowed root abs
unfolding safe_path
allowed root path abs h below =
    let found = clean (join root path) in
    elim (Bool-cases (not (bytes_eq found root) && not (starts_with found (root ++ slash ∷ [])))) [
      | inl e ↦ absurd (ground (arith, h, e))
      | inr e ↦ elim (Bool-cases (is_secret_file (base found))) [
        | inl f ↦ absurd (ground (arith, h, e, f))
        | inr f ↦
            let same : found ≡ abs = ground (arith, h, e, f) in
            subst (λ p. IsAllowed root p) same (record { below = below; no_secret = f })
      ]
    ]

-- What the check of paths lets pass.
safe_path-IsAllowed : (root path abs : Text) → safe_path root path ≡ ok abs → IsAllowed root abs
unfolding safe_path
safe_path-IsAllowed root path abs h =
    let found = clean (join root path) in
    elim (Bool-cases (bytes_eq found root)) [
      | inl e ↦ allowed root path abs h (inl (ground (arith, e)))
      | inr e ↦ elim (Bool-cases (starts_with found (root ++ slash ∷ []))) [
        | inr f ↦ absurd (ground (arith, h, e, f))
        | inl f ↦
            let (rest, same) = starts_with_parts found (root ++ slash ∷ []) f in
            allowed root path abs h (inr (rest, same ∙ append_assoc root (slash ∷ []) rest))
      ]
    ]

-- A write that succeeds puts the content where the path leads and changes nothing else; one that fails
-- changes nothing.
pub write-cases :
    (host : Host) (root path : Text) (content : Bytes) (files : Files)
    → let r = write host root path content files in
      ((abs : Text) × (safe_path root path ≡ ok abs)
        × (r.1 ≡ none)
        × (r.0
            ≡ insert bytes_discrete
                (host.leads_to abs)
                (record { content = content; mod_time = host.now })
                files))
      ⊎ ((e : StoreError) × (r.1 ≡ some e) × (r.0 ≡ files))
unfolding write
write-cases host root path content files = elim (Result-cases (safe_path root path)) [
  | inl (e, p) ↦ inr (e, ground (arith, p), ground (arith, p))
  | inr (abs, p) ↦
      let old : Option Bytes = elim (lookup bytes_discrete (host.leads_to abs) files) [
        | none ↦ none
        | some f ↦ some f.content
      ] in
      let folder : Disk = record { dir_made = true; temp = none; file = old } in
      elim (save_file-cases (some content) host.fault folder) [
        | inl (c, same, q, f) ↦
            let g : content ≡ c = ground (arith, same) in
            inl (abs, p, ground (arith, p, q, f, g), ground (arith, p, q, f, g))
        | inr (e, q, f) ↦ inr (write_failed e, ground (arith, p, q), ground (arith, p, q))
      ]
]

-- A removal that succeeds removes the file to which the path leads and no other; one that fails changes
-- nothing.
remove-cases :
    (host : Host) (root path : Text) (files : Files)
    → let r = remove host root path files in
      ((abs : Text) × (safe_path root path ≡ ok abs)
        × (r.1 ≡ none)
        × (r.0 ≡ delete bytes_discrete (host.leads_to abs) files))
      ⊎ ((e : StoreError) × (r.1 ≡ some e) × (r.0 ≡ files))
unfolding remove
remove-cases host root path files = elim (Result-cases (safe_path root path)) [
  | inl (e, p) ↦ inr (e, ground (arith, p), ground (arith, p))
  | inr (abs, p) ↦ elim (Option-cases (lookup bytes_discrete (host.leads_to abs) files)) [
    | inl q ↦ inr (remove_failed, ground (arith, p, q), ground (arith, p, q))
    | inr (f, q) ↦ elim (Bool-cases (host.undeletable abs)) [
      | inl g ↦ inr (remove_failed, ground (arith, p, q, g), ground (arith, p, q, g))
      | inr g ↦ inl (abs, p, ground (arith, p, q, g), ground (arith, p, q, g))
    ]
  ]
]

-- A call that changes files.
pub data Call : Type 0 where
  writes : Text → Bytes → Call
  removes : Text → Call

abbrev pub run_call : Host → Text → Call → Files → Files
run_call host root (writes path content) files = (write host root path content files).0
run_call host root (removes path) files = (remove host root path files).0

abbrev pub run_calls : Text → List (Host × Call) → Files → Files
run_calls root [] files = files
run_calls root ((host, call) ∷ calls) files = run_calls root calls (run_call host root call files)

-- A file to which no path leads that the check lets pass. Where no folder of the root is a link,
-- these are the files outside the root and those with the name of a secret.
abbrev pub IsForeign : Host → Text → Text → Type 0
IsForeign host root j = (abs : Text) → IsAllowed root abs → host.leads_to abs ≢ j

-- A root without links.
pub no_links-IsForeign :
    (host : Host) (root j : Text)
    → ((abs : Text) → host.leads_to abs ≡ abs)
    → (IsAllowed root j → ⊥)
    → IsForeign host root j
no_links-IsForeign host root j plain h abs a e =
    h (subst (λ t. IsAllowed root t) (sym (plain abs) ∙ e) a)

pub run_call-IsForeign :
    (host : Host) (root : Text) (call : Call) (files : Files) (j : Text)
    → IsForeign host root j
    → lookup bytes_discrete j (run_call host root call files) ≡ lookup bytes_discrete j files
run_call-IsForeign host root (writes path content) files j foreign =
    elim (write-cases host root path content files) [
      | inl (abs, p, _, q) ↦ rw q (
          lookup-insert bytes_discrete (host.leads_to abs) j _ files
          ∙ if_neg (bytes_discrete (host.leads_to abs) j)
              (foreign abs (safe_path-IsAllowed root path abs p)) _ _)
      | inr (e, _, q) ↦ rw q refl
    ]
run_call-IsForeign host root (removes path) files j foreign =
    elim (remove-cases host root path files) [
      | inl (abs, p, _, q) ↦ rw q (
          lookup-delete bytes_discrete (host.leads_to abs) j files
          ∙ if_neg (bytes_discrete (host.leads_to abs) j)
              (foreign abs (safe_path-IsAllowed root path abs p)) _ _)
      | inr (e, _, q) ↦ rw q refl
    ]

-- Whatever sequence of writes and removals a client asks for, with whatever paths, failures and
-- links, the only files changed are those to which, at one of the calls, a path leads that is the
-- root or lies below it by its letters and whose name is no secret's.
pub run_calls-IsForeign :
    (root : Text) (calls : List (Host × Call)) (files : Files) (j : Text)
    → All (λ c. IsForeign c.0 root j) calls
    → lookup bytes_discrete j (run_calls root calls files) ≡ lookup bytes_discrete j files
run_calls-IsForeign root [] files j foreign = refl
run_calls-IsForeign root ((host, call) ∷ calls) files j (here, more) =
    run_calls-IsForeign root calls (run_call host root call files) j more
    ∙ run_call-IsForeign host root call files j here

module _ {Meta : Type 0} (no_meta : Meta) (unmarshal : Bytes → Option Meta) where
  -- What `Write` has written without an error, `Read` by the same path returns: the bytes whole,
  -- the frontmatter included, how many they are, and the instant of the write. The file can be
  -- read, and no link has changed in between.
  pub read-write :
      (host later : Host) (root path : Text) (content : Bytes) (files : Files)
      → (write host root path content files).1 ≡ none
      → ((abs : Text) → later.unreadable abs ≡ false)
      → ((abs : Text) → later.leads_to abs ≡ host.leads_to abs)
      → (doc : Doc Meta) × (read no_meta unmarshal later root path
            (write host root path content files).0
          ≡ ok doc)
        × (doc.path ≡ path)
        × (doc.content ≡ content)
        × (doc.size ≡ length content)
        × (doc.mod_time ≡ host.now)
        × (doc.metadata ≡ (parse_frontmatter no_meta unmarshal content).0)
  unfolding read parse_frontmatter
  read-write host later root path content files h readable same_links =
      elim (write-cases host root path content files) [
        | inr (e, p, _) ↦ absurd (ground (arith, h, p))
        | inl (abs, p, _, q) ↦
            let f : File = record { content = content; mod_time = host.now } in
            let there : lookup bytes_discrete (later.leads_to abs)
                  (write host root path content files).0
                ≡ some f =
              rw (q, same_links abs)
                (lookup-insert_self bytes_discrete (host.leads_to abs) f files) in
            (
              doc_of no_meta unmarshal path f,
              ground (arith, p, there, readable abs),
              refl,
              refl,
              refl,
              refl,
              refl,
            )
      ]
