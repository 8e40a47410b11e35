-- ===== src/Registry/Index.antt =====
-- What the cache's map by id answers, and the repos that agree on no id and no name.
use vedox.Base.{
  ℕ, ◌+◌, ◌≡◌, ◌≢◌, refl, sym, ◌∙◌, Bool, true, false, Option, none, some, List, [], ◌∷◌, ◌++◌, map,
  bytes_discrete, ite, if_pos, if_neg, arith, All,
}
use vedox.Base.Dict.{Dict, lookup, insert, lookup-insert}
use vedox.Base.Text.{Text}
use vedox.Registry.{index_ids}
use vedox.Registry.Changes.{Repo, conflict, cut}

-- The last repo with an id.
unfoldable pub last_with : Text → List Repo → Option Repo
last_with id [] = none
last_with id (r ∷ rs) =
    let rest = last_with id rs in
    elim rest [ some x ↦ some x | none ↦ ite (bytes_discrete r.id id) (some r) none ]

abbrev pub or_else : {A : Type 0} → Option A → Option A → Option A
or_else (some a) o = some a
or_else none o = o

pub lookup-index_ids :
    (id : Text) (rs : List Repo) (m : Dict Text Repo)
    → lookup bytes_discrete id (index_ids rs m)
      ≡ or_else (last_with id rs) (lookup bytes_discrete id m)
unfolding index_ids last_with
lookup-index_ids id [] m = refl
lookup-index_ids id (r ∷ rs) m = ground (
  arith,
  lookup-index_ids id rs (insert bytes_discrete r.id r m),
  lookup-insert bytes_discrete r.id id r m,
)

abbrev pub FreshId : Text → List Repo → Type 0
FreshId id rs = All (λ r. r.id ≢ id) rs

abbrev pub FreshName : Text → List Repo → Type 0
FreshName name rs = All (λ r. r.name ≢ name) rs

-- No two repos have an id or a name in common.
abbrev pub IsDistinct : List Repo → Type 0
IsDistinct [] = Unit
IsDistinct (r ∷ rs) = FreshId r.id rs × FreshName r.name rs × IsDistinct rs

abbrev pub one_if : Bool → ℕ
one_if true = 1
one_if false = 0

abbrev pub defaults : List Repo → ℕ
defaults [] = 0
defaults (r ∷ rs) = one_if r.is_default + defaults rs

pub last_with-none : (id : Text) (rs : List Repo) → FreshId id rs → last_with id rs ≡ none
unfolding last_with
last_with-none id [] h = refl
last_with-none id (r ∷ rs) h = ground (arith, last_with-none id rs h.1)

pub conflict-FreshName : (r : Repo) (rs : List Repo) → conflict r rs ≡ none → FreshName r.name rs
unfolding conflict
conflict-FreshName r [] h = tt
conflict-FreshName r (e ∷ es) h =
    (λ p. ground (arith, p), conflict-FreshName r es (ground (arith, h)))

pub conflict-FreshId : (r : Repo) (rs : List Repo) → conflict r rs ≡ none → FreshId r.id rs
unfolding conflict
conflict-FreshId r [] h = tt
conflict-FreshId r (e ∷ es) h = (λ p. ground (arith, p), conflict-FreshId r es (ground (arith, h)))

FreshId-append :
    (id : Text) (rs : List Repo) (r : Repo) → FreshId id rs → r.id ≢ id → FreshId id (rs ++ r ∷ [])
FreshId-append id [] r h k = (k, tt)
FreshId-append id (e ∷ es) r h k = (h.0, FreshId-append id es r h.1 k)

FreshName-append :
    (name : Text) (rs : List Repo) (r : Repo)
    → FreshName name rs
    → r.name ≢ name
    → FreshName name (rs ++ r ∷ [])
FreshName-append name [] r h k = (k, tt)
FreshName-append name (e ∷ es) r h k = (h.0, FreshName-append name es r h.1 k)

pub append-IsDistinct :
    (r : Repo) (rs : List Repo)
    → FreshId r.id rs
    → FreshName r.name rs
    → IsDistinct rs
    → IsDistinct (rs ++ r ∷ [])
append-IsDistinct r [] i n d = (tt, tt, tt)
append-IsDistinct r (e ∷ es) i n d = (
  FreshId-append e.id es r d.0 (λ p. i.0 (sym p)),
  FreshName-append e.name es r d.1 (λ p. n.0 (sym p)),
  append-IsDistinct r es i.1 n.1 d.2,
)

-- A property of every repo survives a cut.
cut-All : (P : Repo → Type 0) (id : Text) (rs : List Repo) → All P rs → All P (cut id rs)
unfolding cut
cut-All P id [] h = tt
cut-All P id (r ∷ rs) h = elim (bytes_discrete r.id id) [
  | yes p ↦ rw (if_pos _ p) (h.1)
  | no p ↦ rw (if_neg _ p) (h.0, cut-All P id rs h.1)
]

pub cut-IsDistinct : (id : Text) (rs : List Repo) → IsDistinct rs → IsDistinct (cut id rs)
unfolding cut
cut-IsDistinct id [] d = tt
cut-IsDistinct id (r ∷ rs) d = elim (bytes_discrete r.id id) [
  | yes p ↦ rw (if_pos _ p) (d.2)
  | no p ↦ rw (if_neg _ p) (cut-All _ id rs d.0, cut-All _ id rs d.1, cut-IsDistinct id rs d.2)
]

-- A change of the repos one by one that keeps ids and names.
module _ (f : Repo → Repo) (keeps_id : (r : Repo) → (f r).id ≡ r.id)
    (keeps_name : (r : Repo) → (f r).name ≡ r.name) where
  map-FreshId : (id : Text) (rs : List Repo) → FreshId id rs → FreshId id (map f rs)
  map-FreshId id [] h = tt
  map-FreshId id (r ∷ rs) h = (λ p. h.0 (sym (keeps_id r) ∙ p), map-FreshId id rs h.1)

  map-FreshName : (name : Text) (rs : List Repo) → FreshName name rs → FreshName name (map f rs)
  map-FreshName name [] h = tt
  map-FreshName name (r ∷ rs) h = (λ p. h.0 (sym (keeps_name r) ∙ p), map-FreshName name rs h.1)

  pub map-IsDistinct : (rs : List Repo) → IsDistinct rs → IsDistinct (map f rs)
  map-IsDistinct [] d = tt
  map-IsDistinct (r ∷ rs) d = (
    rw (keeps_id r) (map-FreshId r.id rs d.0),
    rw (keeps_name r) (map-FreshName r.name rs d.1),
    map-IsDistinct rs d.2,
  )
