-- ===== src/Registry/Agreement.antt =====
-- The registry against its specification: a map from ids to repos.
use vedox.Base.{
  ℕ, ◌≡◌, ◌≢◌, refl, ap, ◌∙◌, Bool, Bool-cases, true, false, Option, Option-cases, none, some, inl,
  inr, List, [], ◌∷◌, map, arith, is_empty, bytes_discrete, ite,
}
use vedox.Base.Dict.{lookup}
use vedox.Base.Text.{Text}
use vedox.Registry.Changes.{
  Repo, Manifest, RegistryError, Change, changed, open_failed, lock_failed, read_failed,
  write_failed, empty_name, empty_id, fill_in, conflict, add_to, has_id, remove_from, mark,
  set_default_in, annotate, is_changed,
}
use vedox.Registry.Index.{last_with, lookup-index_ids, IsDistinct}
use vedox.Registry.Changed.{
  IsSound, map_option, last_with-append, last_with-cut, last_with-mark, last_with-annotate,
}
use vedox.Registry.Locked.{
  JsonLaws, Agrees, DoneOrUndone, with_file_lock-DoneOrUndone, write_manifest-cases,
  populate-Agrees, opened-Agrees, created-reads,
}
use vedox.Registry.{
  Json, Registry, Env, created_file, write_manifest, add, remove, set_default, refresh, reload, get,
}

pub data Call : Type 0 where
  adds : Repo → Call
  removes sets_default : Text → Call
  reloads : Call

-- What a call does to the map from ids to repos.
abbrev pub specified : Env → Call → (Text → Option Repo) → Text → Option Repo
specified env (adds r) view j =
    let filled = fill_in env.now env.fresh r in
    ite (bytes_discrete filled.id j) (some filled) (view j)
specified env (removes id) view j = ite (bytes_discrete id j) none (view j)
specified env (sets_default id) view j = map_option (mark env.now id) (view j)
specified env reloads view j = map_option (annotate env.missing env.now) (view j)

-- It looks at the answer for the id alone.
pub specified-local :
    (env : Env) (c : Call) (j : Text) (view view' : Text → Option Repo)
    → view j ≡ view' j
    → specified env c view j ≡ specified env c view' j
specified-local env (adds r) j view view' h = rw h refl
specified-local env (removes id) j view view' h = rw h refl
specified-local env (sets_default id) j view view' h = rw h refl
specified-local env reloads j view view' h = rw h refl

-- The new list of repos, where a call changes it.
abbrev pub edited : Env → Call → List Repo → Change
edited env (adds r) repos = add_to (fill_in env.now env.fresh r) repos
edited env (removes id) repos = remove_from id repos
edited env (sets_default id) repos = set_default_in env.now id repos
edited env reloads repos = changed (map (annotate env.missing env.now) repos)

-- `Add` does not test `IsDefault`: a call with a repo that is marked as the default makes a second
-- one. The program's own calls leave the field false.
abbrev pub IsPlain : Call → Type 0
IsPlain (adds r) = r.is_default ≡ false
IsPlain _ = Unit

pub edited-last_with :
    (env : Env) (c : Call) (rs rs' : List Repo) (j : Text)
    → edited env c rs ≡ changed rs'
    → IsDistinct rs
    → last_with j rs' ≡ specified env c (λ i. last_with i rs) j
unfolding add_to remove_from set_default_in
edited-last_with env (adds r) rs rs' j h d =
    let filled : Repo = fill_in env.now env.fresh r in
    elim (Option-cases (conflict filled rs)) [
      | inr (e, c) ↦ absurd (ground (arith, c))
      | inl c ↦ ground (arith, c, last_with-append j rs filled)
    ]
edited-last_with env (removes id) rs rs' j h d = elim (Bool-cases (has_id id rs)) [
  | inr c ↦ absurd (ground (arith, c))
  | inl c ↦ ground (arith, c, last_with-cut id j rs d)
]
edited-last_with env (sets_default id) rs rs' j h d = elim (Bool-cases (has_id id rs)) [
  | inr c ↦ absurd (ground (arith, c))
  | inl c ↦ ground (arith, c, last_with-mark env.now id j rs)
]
edited-last_with env reloads rs rs' j h d =
    ground (arith, h, last_with-annotate env.missing env.now j rs)

module _ (json : Json) where
  -- The four methods that change the registry.
  abbrev pub perform : Env → Call → Registry → Registry × Option RegistryError
  perform env (adds r) w = add json env r w
  perform env (removes id) w = remove json env id w
  perform env (sets_default id) w = set_default json env id w
  perform env reloads w = reload json env w

  -- `Reload` alone keeps what it read in the cache where it could not write it back.
  abbrev pub IsPersisted : Env → Call → Registry → Type 0
  IsPersisted env reloads w = (reload json env w).1 ≢ some write_failed
  IsPersisted env _ w = Unit

  -- The cache and the file hold the same repos, of which no two share an id or a name and at most
  -- one is the default.
  abbrev pub IsConsistent : Registry → Type 0
  IsConsistent w = (m : Manifest) × Agrees json w m × IsSound m.repos

  pub get-last_with :
      (w : Registry) (m : Manifest) (j : Text) → Agrees json w m → get w j ≡ last_with j m.repos
  unfolding get lookup
  get-last_with w m j a = rw (a.ids) (ground (arith, lookup-index_ids j m.repos []))

  module _ (laws : JsonLaws json) where
    unchanged-annotate :
        (missing : Text → Bool) (now : ℕ) (rs : List Repo)
        → is_changed missing rs ≡ false
        → map (annotate missing now) rs ≡ rs
    unfolding is_changed annotate
    unchanged-annotate missing now [] h = refl
    unchanged-annotate missing now (r ∷ rs) h = ground (arith, h, unchanged-annotate missing now rs)

    refresh-Agrees :
        (env : Env) (m : Manifest) (w : Registry)
        → Agrees json w m
        → (refresh json env m w).1 ≢ some write_failed
        → ((refresh json env m w).1 ≡ none)
          × Agrees json
              (refresh json env m w).0
              (record m { repos = map (annotate env.missing env.now) m.repos })
    unfolding refresh
    refresh-Agrees env m w a kept =
        let repos = map (annotate env.missing env.now) m.repos in
        elim (Bool-cases (is_changed env.missing m.repos)) [
          | inl c ↦ elim (write_manifest-cases json laws env (record m { repos = repos }) w.disk) [
            | inl (ok, read) ↦ rw (c, ok) (refl, populate-Agrees json laws _ _ read)
            | inr (e, failed, same) ↦ absurd (kept (rw (c, failed) refl))
          ]
          | inr c ↦
              rw (c, unchanged-annotate env.missing env.now m.repos c)
                (refl, populate-Agrees json laws m w a.on_disk)
        ]

    pub reload-refreshes :
        (env : Env) (m : Manifest) (w : Registry)
        → Agrees json w m
        → env.opens ≡ true
        → env.locks ≡ true
        → env.reads ≡ true
        → reload json env w ≡ refresh json env m (record w { disk = created_file w.disk })
    unfolding reload refresh write_manifest
    reload-refreshes env m w a o l r =
        rw (o, l, r, created-reads json laws w.disk ∙ a.on_disk, reload) refl

    reload-DoneOrUndone :
        (env : Env) (m : Manifest) (w : Registry)
        → Agrees json w m
        → (reload json env w).1 ≢ some write_failed
        → DoneOrUndone json (edited env reloads m.repos) m (reload json env w)
    unfolding reload
    reload-DoneOrUndone env m w a kept = elim (Bool-cases env.opens) [
      | inr e ↦ rw (e, reload) (inr (open_failed, refl, a))
      | inl o ↦ elim (Bool-cases env.locks) [
        | inr e ↦ rw (o, e, reload) (inr (lock_failed, refl, opened-Agrees json laws m w a))
        | inl l ↦ elim (Bool-cases env.reads) [
          | inr e ↦ rw (o, l, e, reload) (inr (read_failed, refl, opened-Agrees json laws m w a))
          | inl r ↦
              let opened : Registry = record w { disk = created_file w.disk } in
              let same = reload-refreshes env m w a o l r in
              let (ok, agrees) =
                refresh-Agrees env m opened (opened-Agrees json laws m w a)
                  (λ e. kept (ap (λ x. x.1) same ∙ e)) in
              rw same (inl (map (annotate env.missing env.now) m.repos, refl, ok, agrees))
        ]
      ]
    ]

    -- Each method makes its change in the cache and in the file, or in neither.
    pub perform-DoneOrUndone :
        (env : Env) (c : Call) (m : Manifest) (w : Registry)
        → Agrees json w m
        → IsPersisted env c w
        → DoneOrUndone json (edited env c m.repos) m (perform env c w)
    unfolding add remove set_default
    perform-DoneOrUndone env (adds r) m w a k = elim (Bool-cases (is_empty r.name)) [
      | inl e ↦ rw e (inr (empty_name, refl, a))
      | inr e ↦ rw e (with_file_lock-DoneOrUndone json laws env _ m w a)
    ]
    perform-DoneOrUndone env (removes id) m w a k = elim (Bool-cases (is_empty id)) [
      | inl e ↦ rw e (inr (empty_id, refl, a))
      | inr e ↦ rw e (with_file_lock-DoneOrUndone json laws env _ m w a)
    ]
    perform-DoneOrUndone env (sets_default id) m w a k = elim (Bool-cases (is_empty id)) [
      | inl e ↦ rw e (inr (empty_id, refl, a))
      | inr e ↦ rw e (with_file_lock-DoneOrUndone json laws env _ m w a)
    ]
    perform-DoneOrUndone env reloads m w a k = reload-DoneOrUndone env m w a k

-- The registry after its methods were called one after another, by whatever goroutines of the
-- process: `writeMu` makes each call one step.
pub data Run (json : Json) (w : Registry) : Registry → Type 0 where
  here : Run json w w
  next :
      {t : Registry} (env : Env) (c : Call)
      → Run json w t
      → IsPlain c
      → IsPersisted json env c t
      → Run json w (perform json env c t).0
