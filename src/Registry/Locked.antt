-- ===== src/Registry/Locked.antt =====
-- registry.go, `withFileLock`: the manifest and the cache change together, or not at all.
use vedox.Base.{
  ◌≡◌, refl, ap, ◌∙◌, ◌⊎◌, Bool-cases, true, false, Option, Option-cases, none, some, inl, inr,
  List, [], arith, is_empty,
}
use vedox.Base.Text.{Text, trim_space, trim_left, trim_right}
use vedox.AtomicFile.{Disk, WriteError}
use vedox.AtomicFile.Saved.{save_file-cases}
use vedox.Registry.Changes.{
  Repo, Manifest, RegistryError, Change, refused, changed, open_failed, lock_failed, read_failed,
  write_failed,
}
use vedox.Registry.{
  Json, Registry, Env, index_ids, index_names, populate, created_file, read_manifest,
  write_manifest, commit, apply_change, with_file_lock,
}

-- What is used of `encoding/json`: what was marshalled is read back, and is not blank.
pub record JsonLaws (json : Json) : Type 0 where
  pub round_trip : (m : Manifest) (b : Text) → json.marshal m ≡ some b → json.unmarshal b ≡ some m
  pub not_blank :
      (m : Manifest) (b : Text) → json.marshal m ≡ some b → is_empty (trim_space b) ≡ false

-- The cache is that of the manifest, and the manifest is the one on the disk.
pub record Agrees (json : Json) (w : Registry) (m : Manifest) : Type 0 where
  pub on_disk : read_manifest json w.disk.file ≡ some m
  pub ids : w.by_id ≡ index_ids m.repos []
  pub names : w.by_name ≡ index_names m.repos []

-- An error, and nothing has changed.
abbrev pub IsUndone : Json → Manifest → Registry × Option RegistryError → Type 0
IsUndone json m r = (e : RegistryError) × (r.1 ≡ some e) × Agrees json r.0 m

-- A call makes its change in both places, or leaves both.
abbrev pub DoneOrUndone : Json → Change → Manifest → Registry × Option RegistryError → Type 0
DoneOrUndone json c m r =
    ((repos : List Repo) × (c ≡ changed repos)
      × (r.1 ≡ none)
      × Agrees json r.0 (record m { repos = repos }))
    ⊎ IsUndone json m r

module _ (json : Json) (laws : JsonLaws json) where
  pub write_manifest-cases :
      (env : Env) (m : Manifest) (d : Disk)
      → let r = write_manifest json env m d in
        ((r.1 ≡ none) × (read_manifest json r.0.file ≡ some m))
        ⊎ ((e : WriteError) × (r.1 ≡ some e) × (r.0.file ≡ d.file))
  unfolding write_manifest read_manifest
  write_manifest-cases env m d = elim (save_file-cases (json.marshal m) env.fault d) [
    | inl (b, marshalled, ok, written) ↦
        inl (
          ok,
          ground (arith, written, laws.not_blank m b marshalled, laws.round_trip m b marshalled),
        )
    | inr kept ↦ inr kept
  ]

  pub populate-Agrees :
      (m : Manifest) (w : Registry)
      → read_manifest json w.disk.file ≡ some m
      → Agrees json (populate m.repos w) m
  unfolding populate
  populate-Agrees m w h = record { on_disk = h; ids = refl; names = refl }

  commit_written :
      (env : Env) (m : Manifest) (w : Registry)
      → (write_manifest json env m w.disk).1 ≡ none
      → commit json env m w
        ≡ (populate m.repos (record w { disk = (write_manifest json env m w.disk).0 }), none)
  unfolding commit
  commit_written env m w h = rw (h, commit) refl

  commit_failed :
      (env : Env) (m : Manifest) (w : Registry) (e : WriteError)
      → (write_manifest json env m w.disk).1 ≡ some e
      → commit json env m w
        ≡ (record w { disk = (write_manifest json env m w.disk).0 }, some write_failed)
  unfolding commit
  commit_failed env m w e h = rw (h, commit) refl

  moved-Agrees :
      (m : Manifest) (w : Registry) (d : Disk)
      → read_manifest json d.file ≡ read_manifest json w.disk.file
      → Agrees json w m
      → Agrees json (record w { disk = d }) m
  moved-Agrees m w d e a = record { on_disk = e ∙ a.on_disk; ids = a.ids; names = a.names }

  commit-cases :
      (env : Env) (m m' : Manifest) (w : Registry)
      → Agrees json w m
      → let r = commit json env m' w in ((r.1 ≡ none) × Agrees json r.0 m') ⊎ IsUndone json m r
  commit-cases env m m' w a = elim (write_manifest-cases env m' w.disk) [
    | inl (ok, read) ↦ rw (commit_written env m' w ok) (inl (refl, populate-Agrees m' _ read))
    | inr (e, failed, kept) ↦
        rw (commit_failed env m' w e failed)
          (inr (write_failed, refl, moved-Agrees m w _ (ap (read_manifest json) kept) a))
  ]

  pub created-reads :
      (d : Disk) → read_manifest json (created_file d).file ≡ read_manifest json d.file
  unfolding read_manifest
  created-reads d = elim (Option-cases d.file) [
    | inl e ↦ rw (e, created_file) (unfold trim_left trim_right in refl)
    | inr (b, e) ↦ rw (e, created_file) (ap (read_manifest json) e)
  ]

  pub opened-Agrees :
      (m : Manifest) (w : Registry)
      → Agrees json w m
      → Agrees json (record w { disk = created_file w.disk }) m
  opened-Agrees m w a = moved-Agrees m w (created_file w.disk) (created-reads w.disk) a

  apply_change-DoneOrUndone :
      (env : Env) (c : Change) (m : Manifest) (w : Registry)
      → Agrees json w m
      → DoneOrUndone json c m (apply_change json env m w c)
  apply_change-DoneOrUndone env (refused e) m w a = inr (e, refl, a)
  apply_change-DoneOrUndone env (changed repos) m w a =
      elim (commit-cases env m (record m { repos = repos }) w a) [
        | inl (ok, agrees) ↦ inl (repos, refl, ok, agrees)
        | inr undone ↦ inr undone
      ]

  locked-applies :
      (env : Env) (fn : List Repo → Change) (m : Manifest) (w : Registry)
      → Agrees json w m
      → env.opens ≡ true
      → env.locks ≡ true
      → env.reads ≡ true
      → with_file_lock json env fn w
        ≡ apply_change json env m (record w { disk = created_file w.disk }) (fn m.repos)
  unfolding with_file_lock commit write_manifest
  locked-applies env fn m w a o l r =
      rw (o, l, r, created-reads w.disk ∙ a.on_disk, with_file_lock) refl

  -- `withFileLock`, whatever goes wrong.
  pub with_file_lock-DoneOrUndone :
      (env : Env) (fn : List Repo → Change) (m : Manifest) (w : Registry)
      → Agrees json w m
      → DoneOrUndone json (fn m.repos) m (with_file_lock json env fn w)
  unfolding with_file_lock
  with_file_lock-DoneOrUndone env fn m w a = elim (Bool-cases env.opens) [
    | inr e ↦ rw (e, with_file_lock) (inr (open_failed, refl, a))
    | inl o ↦ elim (Bool-cases env.locks) [
      | inr e ↦ rw (o, e, with_file_lock) (inr (lock_failed, refl, opened-Agrees m w a))
      | inl l ↦ elim (Bool-cases env.reads) [
        | inr e ↦ rw (o, l, e, with_file_lock) (inr (read_failed, refl, opened-Agrees m w a))
        | inl r ↦
            rw (locked-applies env fn m w a o l r)
              (apply_change-DoneOrUndone env (fn m.repos) m _ (opened-Agrees m w a))
      ]
    ]
  ]
