-- ===== src/AgentAuth/Middleware/Scope.antt =====
-- middleware.go, step 6: the projects and paths that a key is good for.
use vedox.Base.{
  ◌≡◌, refl, ◌⊎◌, inl, inr, Bytes, Bool, true, ◌&&◌, not, [], ◌∷◌, ◌++◌, bytes_eq, bytes_eq_refl,
  is_empty, both_parts, starts_with, arith, if◌then◌else◌,
}
use vedox.AgentAuth.KeyStore.Order.{ApiKey}
use vedox.AgentAuth.Middleware.{Request, in_scope}

-- The key has no project or that of the URL, and its path prefix is one of the request's path.
pub record IsInScope (key : ApiKey) (r : Request) : Type 0 where
  pub of_project : (key.project ≡ []) ⊎ (r.url_project ≡ key.project)
  pub of_path : (rest : Bytes) × (r.path ≡ key.path_prefix ++ rest)

starts_with→rest :
    (s prefix : Bytes) → starts_with s prefix ≡ true → (rest : Bytes) × (s ≡ prefix ++ rest)
unfolding starts_with
starts_with→rest s [] h = (s, refl)
starts_with→rest [] (d ∷ prefix) h = cc
starts_with→rest (c ∷ s) (d ∷ prefix) h =
    let (rest, e) = starts_with→rest s prefix (ground (arith, h)) in (rest, ground (arith, e, h))

rest→starts_with : (prefix rest : Bytes) → starts_with (prefix ++ rest) prefix ≡ true
unfolding starts_with
rest→starts_with [] [] = refl
rest→starts_with [] (c ∷ rest) = refl
rest→starts_with (d ∷ prefix) rest = ground (arith, rest→starts_with prefix rest)

project_passes :
    (project url : Bytes)
    → (if is_empty project then true else not (is_empty url) && bytes_eq url project) ≡ true
    → (project ≡ []) ⊎ (url ≡ project)
project_passes [] url h = inl refl
project_passes (c ∷ project) url h =
    let (filled, same) = both_parts (not (is_empty url)) (bytes_eq url (c ∷ project)) h in
    inr (ground (arith, same))

project_of :
    (project url : Bytes)
    → (project ≡ []) ⊎ (url ≡ project)
    → (if is_empty project then true else not (is_empty url) && bytes_eq url project) ≡ true
project_of project url (inl e) = rw e refl
project_of [] url (inr e) = refl
project_of (c ∷ project) url (inr e) = rw e (bytes_eq_refl (c ∷ project))

path_passes :
    (prefix path : Bytes)
    → (if is_empty prefix then true else starts_with path prefix) ≡ true
    → (rest : Bytes) × (path ≡ prefix ++ rest)
path_passes [] path h = (path, refl)
path_passes (c ∷ prefix) path h = starts_with→rest path (c ∷ prefix) h

path_of :
    (prefix path rest : Bytes)
    → path ≡ prefix ++ rest
    → (if is_empty prefix then true else starts_with path prefix) ≡ true
path_of [] path rest e = refl
path_of (c ∷ prefix) path rest e = rw e (rest→starts_with (c ∷ prefix) rest)

both_hold : (a b : Bool) → a ≡ true → b ≡ true → (a && b) ≡ true
both_hold a b h k = rw (h, k) refl

pub in_scope→IsInScope : (key : ApiKey) (r : Request) → in_scope key r ≡ true → IsInScope key r
unfolding in_scope
in_scope→IsInScope key r h =
    let (p, q) =
      both_parts
        (if is_empty key.project
          then true
          else not (is_empty r.url_project) && bytes_eq r.url_project key.project)
        _ h in
    record {
      of_project = project_passes key.project r.url_project p;
      of_path = path_passes key.path_prefix r.path q;
    }

pub IsInScope→in_scope : (key : ApiKey) (r : Request) → IsInScope key r → in_scope key r ≡ true
unfolding in_scope
IsInScope→in_scope key r s =
    both_hold _ _ (project_of key.project r.url_project s.of_project)
      (path_of key.path_prefix r.path s.of_path.0 s.of_path.1)
