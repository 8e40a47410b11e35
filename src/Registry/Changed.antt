-- ===== src/Registry/Changed.antt =====
-- What each change of the manifest keeps, and what the cache answers after it.
use mathlib.Core.Path.{subst}
use vedox.Base.{
  ℕ, ◌≤◌, ◌≡◌, refl, ap, Bool, Bool-cases, true, false, Option, Option-cases, none, some, inl, inr,
  List, [], ◌∷◌, ◌++◌, map, bytes_discrete, ite, arith,
}
use vedox.Base.Text.{Text}
use vedox.Registry.Changes.{
  Repo, changed, conflict, add_to, has_id, cut, remove_from, mark, set_default_in, annotate,
}
use vedox.Registry.Index.{
  last_with, last_with-none, FreshId, IsDistinct, one_if, defaults, conflict-FreshId,
  conflict-FreshName, append-IsDistinct, cut-IsDistinct, map-IsDistinct,
}

-- Ids and names are unique, and at most one repo is the default.
pub record IsSound (rs : List Repo) : Type 0 where
  pub distinct : IsDistinct rs
  pub one_default : defaults rs ≤ 1

mark-id : (now : ℕ) (id : Text) (r : Repo) → (mark now id r).id ≡ r.id
unfolding mark
mark-id now id r = ground arith

mark-name : (now : ℕ) (id : Text) (r : Repo) → (mark now id r).name ≡ r.name
unfolding mark
mark-name now id r = ground arith

annotate-id : (missing : Text → Bool) (now : ℕ) (r : Repo) → (annotate missing now r).id ≡ r.id
unfolding annotate
annotate-id missing now r = ground arith

annotate-name :
    (missing : Text → Bool) (now : ℕ) (r : Repo) → (annotate missing now r).name ≡ r.name
unfolding annotate
annotate-name missing now r = ground arith

annotate-default :
    (missing : Text → Bool) (now : ℕ) (r : Repo)
    → (annotate missing now r).is_default ≡ r.is_default
unfolding annotate
annotate-default missing now r = ground arith

defaults-append :
    (rs : List Repo) (r : Repo) → r.is_default ≡ false → defaults (rs ++ r ∷ []) ≡ defaults rs
defaults-append [] r h = rw h refl
defaults-append (e ∷ es) r h = omega (arith, defaults-append es r h)

defaults-cut : (id : Text) (rs : List Repo) → defaults (cut id rs) ≤ defaults rs
unfolding cut
defaults-cut id [] = omega arith
defaults-cut id (r ∷ rs) = ground (arith, defaults-cut id rs)

defaults-annotate :
    (missing : Text → Bool) (now : ℕ) (rs : List Repo)
    → defaults (map (annotate missing now) rs) ≡ defaults rs
defaults-annotate missing now [] = refl
defaults-annotate missing now (r ∷ rs) =
    omega (arith, ap one_if (annotate-default missing now r), defaults-annotate missing now rs)

-- Where no repo has the id, none is the default afterwards; where one has it, that one is.
defaults-mark_absent :
    (now : ℕ) (id : Text) (rs : List Repo) → FreshId id rs → defaults (map (mark now id) rs) ≡ 0
unfolding mark
defaults-mark_absent now id [] h = refl
defaults-mark_absent now id (r ∷ rs) h = ground (arith, defaults-mark_absent now id rs h.1)

has_id-Fresh : (id : Text) (rs : List Repo) → has_id id rs ≡ false → FreshId id rs
unfolding has_id
has_id-Fresh id [] h = tt
has_id-Fresh id (r ∷ rs) h = (λ p. ground (arith, p), has_id-Fresh id rs (ground arith))

defaults-mark :
    (now : ℕ) (id : Text) (rs : List Repo)
    → IsDistinct rs
    → has_id id rs ≡ true
    → defaults (map (mark now id) rs) ≡ 1
unfolding mark has_id
defaults-mark now id [] d h = cc
defaults-mark now id (r ∷ rs) d h = elim (bytes_discrete r.id id) [
  | yes p ↦
      let absent = defaults-mark_absent now id rs (subst (λ x. FreshId x rs) p d.0) in
      ground (arith, p, absent)
  | no p ↦ ground (arith, p, defaults-mark now id rs d.2)
]

pub add_to-IsSound :
    (r : Repo) (rs rs' : List Repo)
    → r.is_default ≡ false
    → add_to r rs ≡ changed rs'
    → IsSound rs
    → IsSound rs'
unfolding add_to
add_to-IsSound r rs rs' plain h s = elim (Option-cases (conflict r rs)) [
  | inr (e, c) ↦ absurd (ground (arith, c))
  | inl c ↦
      let same : rs ++ r ∷ [] ≡ rs' = ground (arith, c) in
      rw (← same) (record {
        distinct =
            append-IsDistinct r rs (conflict-FreshId r rs c) (conflict-FreshName r rs c) s.distinct;
        one_default = omega (arith, defaults-append rs r plain, s.one_default);
      })
]

pub remove_from-IsSound :
    (id : Text) (rs rs' : List Repo) → remove_from id rs ≡ changed rs' → IsSound rs → IsSound rs'
unfolding remove_from
remove_from-IsSound id rs rs' h s = elim (Bool-cases (has_id id rs)) [
  | inr c ↦ absurd (ground (arith, c))
  | inl c ↦
      let same : cut id rs ≡ rs' = ground (arith, c) in
      rw (← same) (record {
        distinct = cut-IsDistinct id rs s.distinct;
        one_default = omega (arith, defaults-cut id rs, s.one_default);
      })
]

pub set_default_in-IsSound :
    (now : ℕ) (id : Text) (rs rs' : List Repo)
    → set_default_in now id rs ≡ changed rs'
    → IsSound rs
    → IsSound rs'
unfolding set_default_in
set_default_in-IsSound now id rs rs' h s = elim (Bool-cases (has_id id rs)) [
  | inr c ↦ absurd (ground (arith, c))
  | inl c ↦
      let same : map (mark now id) rs ≡ rs' = ground (arith, c) in
      rw (← same) (record {
        distinct = map-IsDistinct (mark now id) (mark-id now id) (mark-name now id) rs s.distinct;
        one_default = omega (arith, defaults-mark now id rs s.distinct c);
      })
]

pub annotate-IsSound :
    (missing : Text → Bool) (now : ℕ) (rs : List Repo)
    → IsSound rs
    → IsSound (map (annotate missing now) rs)
annotate-IsSound missing now rs s = record {
  distinct =
      map-IsDistinct (annotate missing now) (annotate-id missing now) (annotate-name missing now) rs
        s.distinct;
  one_default = omega (arith, defaults-annotate missing now rs, s.one_default);
}

-- What the map by id answers after each change.
pub last_with-append :
    (id : Text) (rs : List Repo) (r : Repo)
    → last_with id (rs ++ r ∷ []) ≡ ite (bytes_discrete r.id id) (some r) (last_with id rs)
unfolding last_with
last_with-append id [] r = refl
last_with-append id (e ∷ es) r = ground (arith, last_with-append id es r)

pub last_with-cut :
    (id j : Text) (rs : List Repo)
    → IsDistinct rs
    → last_with j (cut id rs) ≡ ite (bytes_discrete id j) none (last_with j rs)
unfolding last_with cut
last_with-cut id j [] d = ground arith
last_with-cut id j (r ∷ rs) d =
    ground (arith, last_with-cut id j rs d.2, last_with-none r.id rs d.0)

abbrev pub map_option : {A B : Type 0} → (A → B) → Option A → Option B
map_option f none = none
map_option f (some a) = some (f a)

last_with-map :
    (f : Repo → Repo) (id : Text) (rs : List Repo)
    → ((r : Repo) → (f r).id ≡ r.id)
    → last_with id (map f rs) ≡ map_option f (last_with id rs)
unfolding last_with
last_with-map f id [] h = refl
last_with-map f id (r ∷ rs) h = ground (arith, last_with-map f id rs h, h r)

pub last_with-mark :
    (now : ℕ) (id j : Text) (rs : List Repo)
    → last_with j (map (mark now id) rs) ≡ map_option (mark now id) (last_with j rs)
last_with-mark now id j rs = last_with-map (mark now id) j rs (mark-id now id)

pub last_with-annotate :
    (missing : Text → Bool) (now : ℕ) (j : Text) (rs : List Repo)
    → last_with j (map (annotate missing now) rs)
      ≡ map_option (annotate missing now) (last_with j rs)
last_with-annotate missing now j rs =
    last_with-map (annotate missing now) j rs (annotate-id missing now)
