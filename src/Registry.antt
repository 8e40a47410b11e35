-- ===== src/Registry.antt =====
-- The registry of documentation repos: apps/cli/internal/registry/registry.go.
pub mod Changes
pub mod Index
pub mod Locked
pub mod Changed
pub mod Agreement
pub mod Refined
mod Tests
use vedox.Base.{
  ℕ, Bool, true, false, if◌then◌else◌, Option, none, some, List, [], ◌∷◌, is_empty, bytes,
  bytes_discrete, map,
}
use vedox.Base.Dict.{Dict, lookup, insert, values}
use vedox.Base.Text.{Text, trim_space}
use vedox.AtomicFile.{Disk, Fault, WriteError, save_file}
use vedox.Registry.Changes.{
  Repo, Manifest, RegistryError, Change, refused, changed, empty_name, empty_id, not_found,
  open_failed, lock_failed, read_failed, write_failed, fill_in, add_to, remove_from, set_default_in,
  annotate, is_changed,
}

-- `encoding/json` on a manifest.
pub record Json : Type 0 where
  pub marshal : Manifest → Option Text
  pub unmarshal : Text → Option Manifest

-- The folder with the manifest, and the two maps of the cache.
pub record Registry : Type 0 where
  pub disk : Disk
  pub by_id : Dict Text Repo
  pub by_name : Dict Text Text

-- What a call meets: the clock, a new random id, which of its system calls fail, and which paths
-- are gone.
pub record Env : Type 0 where
  pub now : ℕ
  pub fresh : Text
  pub opens : Bool
  pub locks : Bool
  pub reads : Bool
  pub fault : Fault
  pub missing : Text → Bool

abbrev pub empty_manifest : Manifest
empty_manifest = record { version = 1; repos = [] }

-- `populateCache`: later entries overwrite earlier ones.
unfoldable pub index_ids : List Repo → Dict Text Repo → Dict Text Repo
index_ids [] m = m
index_ids (r ∷ rs) m = index_ids rs (insert bytes_discrete r.id r m)

unfoldable pub index_names : List Repo → Dict Text Text → Dict Text Text
index_names [] m = m
index_names (r ∷ rs) m = index_names rs (insert bytes_discrete r.name r.id m)

unfoldable pub populate : List Repo → Registry → Registry
unfolding index_ids index_names
populate repos w = record w { by_id = index_ids repos []; by_name = index_names repos [] }

-- `os.OpenFile` with O_CREATE.
abbrev pub created_file : Disk → Disk
created_file d = elim (d.file) [ none ↦ record d { file = some [] } | some b ↦ d ]

abbrev pub present : Option Text → Text
present none = []
present (some b) = b

module _ (json : Json) where
  -- `readManifest`, of the file or of no file.
  unfoldable pub read_manifest : Option Text → Option Manifest
  read_manifest none = some empty_manifest
  read_manifest (some b) = if is_empty (trim_space b) then some empty_manifest else json.unmarshal b

  -- `writeManifestLocked`; the mirror in the database is best effort and left out.
  unfoldable pub write_manifest : Env → Manifest → Disk → Disk × Option WriteError
  write_manifest env m d = save_file (json.marshal m) env.fault d

  abbrev pub read_in : Env → Disk → Option Manifest
  read_in env d = if env.reads then read_manifest d.file else none

  -- `withFileLock` once the manifest was read and changed.
  unfoldable pub commit : Env → Manifest → Registry → Registry × Option RegistryError
  commit env m w =
      let (d, e) = write_manifest env m w.disk in
      elim e [
        | some _ ↦ (record w { disk = d }, some write_failed)
        | none ↦ (populate m.repos (record w { disk = d }), none)
      ]

  -- `withFileLock` behind the call of `fn`.
  abbrev pub apply_change : Env → Manifest → Registry → Change → Registry × Option RegistryError
  apply_change env m w (refused e) = (w, some e)
  apply_change env m w (changed repos) = commit env (record m { repos = repos }) w

  -- `withFileLock`
  unfoldable pub with_file_lock :
      Env → (List Repo → Change) → Registry → Registry × Option RegistryError
  with_file_lock env fn w =
      if env.opens
      then (let opened : Registry = record w { disk = created_file w.disk } in
          if env.locks
          then (elim (read_in env opened.disk) [
            | none ↦ (opened, some read_failed)
            | some m ↦ apply_change env m opened (fn m.repos)
          ])
          else (opened, some lock_failed))
      else (w, some open_failed)

  -- `Add`
  unfoldable pub add : Env → Repo → Registry → Registry × Option RegistryError
  unfolding with_file_lock add_to fill_in
  add env r w =
      if is_empty r.name
      then (w, some empty_name)
      else with_file_lock env (add_to (fill_in env.now env.fresh r)) w

  -- `Remove`
  unfoldable pub remove : Env → Text → Registry → Registry × Option RegistryError
  unfolding with_file_lock remove_from
  remove env id w =
      if is_empty id then (w, some empty_id) else with_file_lock env (remove_from id) w

  -- `SetDefault`
  unfoldable pub set_default : Env → Text → Registry → Registry × Option RegistryError
  unfolding with_file_lock set_default_in
  set_default env id w =
      if is_empty id then (w, some empty_id) else with_file_lock env (set_default_in env.now id) w

  -- `Reload` once the manifest was read: the cache is refreshed also where the write fails.
  unfoldable pub refresh : Env → Manifest → Registry → Registry × Option RegistryError
  refresh env m w =
      let repos = map (annotate env.missing env.now) m.repos in
      let (d, e) = write_manifest env (record m { repos = repos }) w.disk in
      if is_changed env.missing m.repos
      then (
        populate repos (record w { disk = d }),
        elim e [ some _ ↦ some write_failed | none ↦ none ],
      )
      else (populate repos w, none)

  -- `Reload`
  unfoldable pub reload : Env → Registry → Registry × Option RegistryError
  reload env w =
      if env.opens
      then (let opened : Registry = record w { disk = created_file w.disk } in
          if env.locks
          then (elim (read_in env opened.disk) [
            | none ↦ (opened, some read_failed)
            | some m ↦ refresh env m opened
          ])
          else (opened, some lock_failed))
      else (w, some open_failed)

  -- `NewFileRegistry` writes a manifest where there is none.
  unfoldable pub bootstrap : Env → Option Text → Disk → Disk × Option WriteError
  bootstrap env none d = write_manifest env empty_manifest d
  bootstrap env (some b) d = (d, none)

  -- `NewFileRegistry`: then it loads the cache.
  unfoldable pub new_file_registry : Env → Disk → Option Registry
  unfolding bootstrap
  new_file_registry env d =
      let (d', e) = bootstrap env d.file d in
      elim e [
        | some _ ↦ none
        | none ↦ elim (read_in env d') [
          | none ↦ none
          | some m ↦ some (populate m.repos (record { disk = d'; by_id = []; by_name = [] }))
        ]
      ]

-- `Get`
unfoldable pub get : Registry → Text → Option Repo
get w id = lookup bytes_discrete id w.by_id

-- `Default`: the first one in the order in which the map is walked.
unfoldable pub first_default : List Repo → Option Repo
first_default [] = none
first_default (r ∷ rs) = let rest = first_default rs in if r.is_default then some r else rest

unfoldable pub default_repo : Registry → Option Repo
unfolding first_default
default_repo w = first_default (values w.by_id)
