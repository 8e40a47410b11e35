-- ===== src/Providers/Files/Written.antt =====
-- What the file operations leave on disk: each hash that they return is that of a file.
use vedox.Base.{
  ◌≡◌, refl, ◌≢◌, ◌⊎◌, inl, inr, Bool, Bool-cases, true, false, Option-cases, Option, none, some,
  arith, bytes_discrete, sym, ◌∙◌, if_neg,
}
use vedox.Base.Lists.{All}
use vedox.Base.Text.{Text}
use vedox.Base.Dict.{
  Dict, lookup, insert, lookup-insert, lookup-insert_self, Distinct, Distinct-insert, All-insert,
}
use vedox.AtomicFile as AtomicFile
use vedox.AtomicFile.{
  Disk, Fault, Step, mkdir, create_temp, write, sync, chmod, close, rename, WriteError, is_at,
  perform, run_steps,
}
use vedox.Providers.Types.{create, update, FileOp, ProviderError, step_failed, ok, Host, Files}
use vedox.Providers.Symlinks.{assert_no_symlink}
use vedox.Providers.Files.{write_steps, put_back, error_of, atomic_file_write, read_file}

abbrev folder : Option Text → Disk
folder file = record { dir_made = true; temp = none; file = file }

-- The calls behind `CreateTemp` replace the file, or leave it.
write_steps-cases :
    (content : Text) (at : Option Step) (written : _) (fails : Bool) (file : Option Text)
    → let r =
        run_steps content
          (record { at = at; written = written; cleanup_fails = fails })
          write_steps
          (perform content create_temp (folder file)) in
      ((r.1 ≡ none) × (r.0.file ≡ some content))
      ⊎ ((e : WriteError) × (r.1 ≡ some e) × (r.0.file ≡ file))
unfolding run_steps
write_steps-cases content none written fails file = inl (refl, refl)
write_steps-cases content (some mkdir) written fails file = inl (refl, refl)
write_steps-cases content (some create_temp) written fails file = inl (refl, refl)
write_steps-cases content (some s) written true file = inr (AtomicFile.step_failed s, refl, refl)
write_steps-cases content (some s) written false file = inr (AtomicFile.step_failed s, refl, refl)

lookup-put_back :
    (path j : Text) (files : Files)
    → lookup bytes_discrete j (put_back path (lookup bytes_discrete path files) files)
      ≡ lookup bytes_discrete j files
lookup-put_back path j files = elim (Option-cases (lookup bytes_discrete path files)) [
  | inl e ↦ rw e refl
  | inr (c, e) ↦ rw e (ground (arith, lookup-insert bytes_discrete path j c files, e))
]

-- What is read is what the files hold.
pub read_file_ok :
    (host : Host) (files : Files) (path : Text) (old : Option Text)
    → read_file host files path ≡ ok old
    → lookup bytes_discrete path files ≡ old
unfolding read_file
read_file_ok host files path old h = elim (Bool-cases (host.unreadable path)) [
  | inl e ↦ absurd (ground (arith, h, e))
  | inr e ↦ ground (arith, h, e)
]

-- A write replaces the file and no other, or leaves every file as it was.
pub atomic_file_write-cases :
    (host : Host) (boundary path content : Text) (files : Files)
    → let r = atomic_file_write host boundary path content files in
      ((r.1 ≡ none) × (r.0 ≡ insert bytes_discrete path content files))
      ⊎ ((e : ProviderError) × (r.1 ≡ some e)
          × ((j : Text) → lookup bytes_discrete j r.0 ≡ lookup bytes_discrete j files))
unfolding atomic_file_write
atomic_file_write-cases host boundary path content files =
    let fault = host.fault path in
    elim (Option-cases (assert_no_symlink host.seen boundary path)) [
      | inr (e, a) ↦ inr (e, ground (arith, a), λ j. ground (arith, a))
      | inl a ↦ elim (Bool-cases (is_at mkdir fault.at)) [
        | inl m ↦ inr (step_failed mkdir, ground (arith, a, m), λ j. ground (arith, a, m))
        | inr m ↦ elim (Option-cases (assert_no_symlink host.seen_again boundary path)) [
          | inr (e, b) ↦ inr (e, ground (arith, a, m, b), λ j. ground (arith, a, m, b))
          | inl b ↦ elim (Bool-cases (is_at create_temp fault.at)) [
            | inl c ↦ inr (
              step_failed create_temp,
              ground (arith, a, m, b, c),
              λ j. ground (arith, a, m, b, c),
            )
            | inr c ↦
                elim (write_steps-cases content fault.at fault.written fault.cleanup_fails
                  (lookup bytes_discrete path files)) [
                    | inl (p, q) ↦
                        inl (ground (arith, a, m, b, c, p), ground (arith, a, m, b, c, q))
                    | inr (e, p, q) ↦ inr (
                      error_of e,
                      ground (arith, a, m, b, c, p),
                      λ j. ground (arith, a, m, b, c, q, lookup-put_back path j files),
                    )
                  ]
          ]
        ]
      ]
    ]

-- An operation that writes.
abbrev pub IsWrite : FileOp → Type 0
IsWrite op = (op.action ≡ create) ⊎ (op.action ≡ update)

-- The file of an entry has the recorded hash.
module _ (sha256_hex : Text → Text) where
  abbrev pub Matches : Files → Text × Text → Type 0
  Matches files e =
      (content : Text) × (lookup bytes_discrete e.0 files ≡ some content)
      × (sha256_hex content ≡ e.1)

  abbrev pub Recorded : Files → Dict Text Text → Type 0
  Recorded files hashes = Distinct hashes × All (Matches files) hashes

  pub Matches-other :
      (path content : Text) (files : Files) (e : Text × Text)
      → e.0 ≢ path
      → Matches files e
      → Matches (insert bytes_discrete path content files) e
  Matches-other path content files (j, hash) ne (old, found, same) = (
    old,
    lookup-insert bytes_discrete path j content files
        ∙ if_neg (bytes_discrete path j) (λ p. ne (sym p)) _ _
        ∙ found,
    same,
  )

  -- A file that is replaced gets its new hash.
  pub Recorded-insert :
      (path content : Text) (files : Files) (hashes : Dict Text Text)
      → Recorded files hashes
      → Recorded
          (insert bytes_discrete path content files)
          (insert bytes_discrete path (sha256_hex content) hashes)
  Recorded-insert path content files hashes (d, h) = (
    Distinct-insert bytes_discrete path (sha256_hex content) hashes d,
    All-insert bytes_discrete (Matches files) (Matches (insert bytes_discrete path content files))
        path (sha256_hex content) hashes d
        (content, lookup-insert_self bytes_discrete path content files, refl)
        (Matches-other path content files) h,
  )
