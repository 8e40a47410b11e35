-- ===== src/Registry/Tests.antt =====
-- A registry with one repo, and the theorems at its calls.
use vedox.Base.{◌≡◌, refl, true, false, none, some, [], ◌∷◌, bytes, bytes_discrete, ite, ℕ_discrete}
use vedox.Base.Dict.{lookup, insert}
use vedox.Base.Text.{Text, is_space, trim_left, trim_right}
use vedox.AtomicFile.{Disk, perform, falter, clean_up, run_steps, save_file}
use vedox.Registry.Changes.{
  Repo, Manifest, RepoType, RepoStatus, RegistryError, fill_in, conflict, add_to, has_id, cut,
  remove_from, mark, set_default_in, new_status, annotate, is_changed,
}
use vedox.Registry.{
  Json, Registry, Env, index_ids, index_names, populate, read_manifest, write_manifest, commit,
  with_file_lock, add, remove, set_default, refresh, reload, bootstrap, new_file_registry, get,
}
use vedox.Registry.Agreement
use vedox.Registry.Agreement.{Call, adds, sets_default}

type_discrete : Discrete RepoType
type_discrete = hlevel bytes_discrete

status_discrete : Discrete RepoStatus
status_discrete = hlevel bytes_discrete

manifest_discrete : Discrete Manifest
manifest_discrete = hlevel (bytes_discrete, ℕ_discrete, type_discrete, status_discrete)

abbrev sample : Repo
sample = record {
  id = bytes "i";
  name = bytes "docs";
  type = RepoType.bare_local;
  root_path = bytes "/docs";
  remote_url = [];
  status = RepoStatus.active;
  is_default = false;
  created_at = 7;
  updated_at = 7;
}

abbrev no_repos : Manifest
no_repos = record { version = 1; repos = [] }

abbrev one_repo : Manifest
one_repo = record { version = 1; repos = sample ∷ [] }

-- A codec for two manifests; it refuses all others.
abbrev table : Json
table = record {
  marshal = λ m.
      ite (manifest_discrete m no_repos) (some (bytes "none"))
        (ite (manifest_discrete m one_repo) (some (bytes "one")) none);
  unmarshal = λ b.
      ite (bytes_discrete b (bytes "none")) (some no_repos)
        (ite (bytes_discrete b (bytes "one")) (some one_repo) none);
}

-- The computing definitions of the package.
code : Unit {0}
unfolding bytes_discrete lookup insert is_space trim_left trim_right perform falter clean_up
    run_steps save_file fill_in conflict add_to has_id cut remove_from mark set_default_in
    new_status annotate is_changed index_ids index_names populate read_manifest write_manifest
    commit with_file_lock add remove set_default refresh reload bootstrap new_file_registry get
    manifest_discrete type_discrete status_discrete ℕ_discrete
code = tt

abbrev calm : Env
calm = record {
  now = 7;
  fresh = bytes "i";
  opens = true;
  locks = true;
  reads = true;
  fault = record { at = none; written = 0; cleanup_fails = false };
  missing = λ path. false;
}

abbrev no_disk : Disk
no_disk = record { dir_made = false; temp = none; file = none }

abbrev request : Repo
request = record {
  id = [];
  name = bytes "docs";
  type = RepoType.no_type;
  root_path = bytes "/docs";
  remote_url = [];
  status = RepoStatus.no_status;
  is_default = false;
  created_at = 0;
  updated_at = 0;
}

abbrev started : Registry
started = record {
  disk = record { dir_made = true; temp = none; file = some (bytes "none") };
  by_id = [];
  by_name = [];
}

added_repo : get (Agreement.perform table calm (adds request) started).0 (bytes "i") ≡ some sample
unfolding code
added_repo = refl

-- A second repo of the same name is refused.
name_conflict_test :
    (Agreement.perform table
      (record calm { fresh = bytes "j" })
      (adds request)
      (Agreement.perform table calm (adds request) started).0).1
    ≡ some RegistryError.name_conflict
unfolding code
name_conflict_test = refl
