-- ===== src/Registry/Changes.antt =====
-- registry.go: the repos, the manifest and what each operation does to it.
use vedox.Base.{
  ℕ, Bool, true, false, ◌||◌, if◌then◌else◌, Option, none, some, List, [], ◌∷◌, ◌++◌, map, is_empty,
  bytes_discrete, ite, ◌==◌,
}
use vedox.Base.Text.{Text}

-- The three types, "" and any other text of a manifest.
pub data RepoType : Type 0 where
  no_type private project_public bare_local : RepoType
  other_type : Text → RepoType

pub data RepoStatus : Type 0 where
  no_status active paused orphan : RepoStatus
  other_status : Text → RepoStatus

-- The zero time is 0.
pub record Repo : Type 0 where
  pub id : Text
  pub name : Text
  pub type : RepoType
  pub root_path : Text
  pub remote_url : Text
  pub status : RepoStatus
  pub is_default : Bool
  pub created_at : ℕ
  pub updated_at : ℕ

pub record Manifest : Type 0 where
  pub version : ℕ
  pub repos : List Repo

pub data RegistryError : Type 0 where
  empty_name empty_id not_found name_conflict id_conflict : RegistryError
  open_failed lock_failed read_failed write_failed : RegistryError

pub data Change : Type 0 where
  refused : RegistryError → Change
  changed : List Repo → Change

abbrev default_type : RepoType → RepoType
default_type no_type = bare_local
default_type t = t

abbrev default_status : RepoStatus → RepoStatus
default_status no_status = active
default_status s = s

-- `Add` before it takes the lock: the defaults, at the time `now`, with the new random id.
unfoldable pub fill_in : ℕ → Text → Repo → Repo
fill_in now fresh r = record r {
  id = if is_empty r.id then fresh else r.id;
  type = default_type r.type;
  status = default_status r.status;
  created_at = if r.created_at == 0 then now else r.created_at;
  updated_at = now;
}

-- The first entry that has the name or the id.
unfoldable pub conflict : Repo → List Repo → Option RegistryError
conflict r [] = none
conflict r (e ∷ es) =
    let rest = conflict r es in
    ite (bytes_discrete e.name r.name) (some name_conflict)
      (ite (bytes_discrete e.id r.id) (some id_conflict) rest)

unfoldable pub add_to : Repo → List Repo → Change
unfolding conflict
add_to r repos = elim (conflict r repos) [ some e ↦ refused e | none ↦ changed (repos ++ r ∷ []) ]

unfoldable pub has_id : Text → List Repo → Bool
has_id id [] = false
has_id id (r ∷ rs) = let rest = has_id id rs in ite (bytes_discrete r.id id) true rest

-- The first entry with the id is cut out.
unfoldable pub cut : Text → List Repo → List Repo
cut id [] = []
cut id (r ∷ rs) = let rest = cut id rs in ite (bytes_discrete r.id id) rs (r ∷ rest)

unfoldable pub remove_from : Text → List Repo → Change
unfolding has_id cut
remove_from id repos = if has_id id repos then changed (cut id repos) else refused not_found

unfoldable pub mark : ℕ → Text → Repo → Repo
mark now id r =
    ite (bytes_discrete r.id id) (record r { is_default = true; updated_at = now })
      (if r.is_default then record r { is_default = false; updated_at = now } else r)

unfoldable pub set_default_in : ℕ → Text → List Repo → Change
unfolding has_id mark
set_default_in now id repos =
    if has_id id repos then changed (map (mark now id) repos) else refused not_found

-- The orphan test of `Reload`: the new status, where it is written. `gone` says that `os.Stat`
-- reports ErrNotExist.
unfoldable pub new_status : Bool → RepoStatus → Option RepoStatus
new_status gone paused = none
new_status true orphan = none
new_status false orphan = some active
new_status true s = some orphan
new_status false s = none

unfoldable pub annotate : (Text → Bool) → ℕ → Repo → Repo
unfolding new_status
annotate missing now r = elim (new_status (missing r.root_path) r.status) [
  | none ↦ r
  | some s ↦ record r { status = s; updated_at = now }
]

abbrev has_change : Option RepoStatus → Bool
has_change none = false
has_change (some s) = true

-- The variable `changed` of `Reload`.
unfoldable pub is_changed : (Text → Bool) → List Repo → Bool
unfolding new_status
is_changed missing [] = false
is_changed missing (r ∷ rs) =
    has_change (new_status (missing r.root_path) r.status) || is_changed missing rs
