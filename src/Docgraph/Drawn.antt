-- ===== src/Docgraph/Drawn.antt =====
-- What the drawn graph holds: its edges have their ends, and no reference of a document is lost.
use vedox.Base.{
  ℕ, ◌≡◌, ◌⊎◌, refl, sym, ap, ◌∙◌, Bool-cases, both_parts, true, false, ◌&&◌, ◌||◌, if◌then◌else◌,
  Option-cases, some, inl, inr, List, [], ◌∷◌, ◌++◌, map, arith, bytes, bytes_discrete, bytes_eq,
  is_empty, Among, All,
}
use vedox.Base.Dict.{Dict, lookup, insert, values, lookup-insert}
use vedox.Base.Text.{Text, trim_space}
use vedox.Base.Paths.{base, trim_suffix}
use vedox.Docgraph.Targets.{
  DocRef, is_bound, resolved_path, by_path, by_slug, slugify, resolve_target,
}
use vedox.Docgraph.{
  GraphNode, GraphEdge, Row, node_of, load_ids, name_row, load_slugs, bump, insert_node, sort_nodes,
  has_node, keep_edges, missing_node, node_less,
}

pub is_bound-insert :
    {V : Type 0} (k j : Text) (v : V) (m : Dict Text V)
    → is_bound k (insert bytes_discrete j v m) ≡ (if bytes_eq j k then true else is_bound k m)
is_bound-insert k j v m = ground (arith, lookup-insert bytes_discrete j k v m)

pub is_bound-bump :
    (f : GraphNode → GraphNode) (k id : Text) (m : Dict Text GraphNode)
    → is_bound k (bump f id m) ≡ is_bound k m
unfolding bump
is_bound-bump f k id m = elim (Option-cases (lookup bytes_discrete id m)) [
  | inl e ↦ ground (arith, e)
  | inr (n, e) ↦ ground (arith, e, is_bound-insert k id (f n) m)
]

-- The nodes stand under their ids.
abbrev pub IsKeyed : Dict Text GraphNode → Type 0
IsKeyed m = All (λ e. e.1.id ≡ e.0) m

insert-IsKeyed :
    (k : Text) (n : GraphNode) (m : Dict Text GraphNode)
    → n.id ≡ k
    → IsKeyed m
    → IsKeyed (insert bytes_discrete k n m)
unfolding insert
insert-IsKeyed k n [] h a = (h, tt)
insert-IsKeyed k n ((j, x) ∷ m) h (p, a) = ground (arith, insert-IsKeyed k n m h a)

lookup-IsKeyed :
    (k : Text) (n : GraphNode) (m : Dict Text GraphNode)
    → IsKeyed m
    → lookup bytes_discrete k m ≡ some n
    → n.id ≡ k
unfolding lookup
lookup-IsKeyed k n [] a h = cc
lookup-IsKeyed k n ((j, x) ∷ m) (p, a) h = ground (arith, lookup-IsKeyed k n m a)

pub bump-IsKeyed :
    (f : GraphNode → GraphNode) (id : Text) (m : Dict Text GraphNode)
    → ((n : GraphNode) → (f n).id ≡ n.id)
    → IsKeyed m
    → IsKeyed (bump f id m)
unfolding bump
bump-IsKeyed f id m same a = elim (Option-cases (lookup bytes_discrete id m)) [
  | inl e ↦ let left : bump f id m ≡ m = ground (arith, e) in rw left a
  | inr (n, e) ↦
      let done : bump f id m ≡ insert bytes_discrete id (f n) m = ground (arith, e) in
      rw done (insert-IsKeyed id (f n) m (same n ∙ lookup-IsKeyed id n m a e) a)
]

pub has_node-append :
    (id : Text) (xs ys : List GraphNode)
    → has_node id (xs ++ ys) ≡ (has_node id xs || has_node id ys)
unfolding has_node
has_node-append id [] ys = refl
has_node-append id (x ∷ xs) ys = ground (arith, has_node-append id xs ys)

has_node-insert_node :
    (id : Text) (n : GraphNode) (xs : List GraphNode)
    → has_node id (insert_node n xs) ≡ (if bytes_eq n.id id then true else has_node id xs)
unfolding has_node insert_node
has_node-insert_node id n [] = refl
has_node-insert_node id n (x ∷ xs) = elim (Bool-cases (node_less x n)) [
  | inl e ↦ rw (e, has_node-insert_node id n xs) (ground arith)
  | inr e ↦ rw e refl
]

pub has_node-sort_nodes :
    (id : Text) (xs : List GraphNode) → has_node id (sort_nodes xs) ≡ has_node id xs
unfolding has_node sort_nodes
has_node-sort_nodes id [] = refl
has_node-sort_nodes id (x ∷ xs) =
    has_node-insert_node id x (sort_nodes xs) ∙ rw (has_node-sort_nodes id xs) refl

pub has_node-values :
    (id : Text) (m : Dict Text GraphNode) → IsKeyed m → has_node id (values m) ≡ is_bound id m
unfolding has_node lookup
has_node-values id [] a = refl
has_node-values id ((k, n) ∷ m) (p, a) = rw p (ground (arith, has_node-values id m a))

pub has_node-missing :
    (project id : Text) (m : Dict Text (Unit {0}))
    → has_node id (map (λ (e : Text × Unit {0}). missing_node project e.0) m) ≡ is_bound id m
unfolding has_node lookup missing_node
has_node-missing project id [] = refl
has_node-missing project id ((k, u) ∷ m) = ground (arith, has_node-missing project id m)

-- An edge has both its ends among the nodes.
abbrev pub HasEnds : List GraphNode → GraphEdge → Type 0
HasEnds nodes e = (has_node e.source nodes ≡ true) × (has_node e.target nodes ≡ true)

pub keep_edges-HasEnds :
    (nodes : List GraphNode) (es : List GraphEdge) → All (HasEnds nodes) (keep_edges nodes es)
unfolding keep_edges
keep_edges-HasEnds nodes [] = tt
keep_edges-HasEnds nodes (e ∷ es) =
    elim (Bool-cases (has_node e.source nodes && has_node e.target nodes)) [
      | inl h ↦ rw h (both_parts _ _ h, keep_edges-HasEnds nodes es)
      | inr h ↦ rw h (keep_edges-HasEnds nodes es)
    ]

pub Among-keep_edges :
    (nodes : List GraphNode) (e : GraphEdge) (es : List GraphEdge)
    → HasEnds nodes e
    → Among e es
    → Among e (keep_edges nodes es)
unfolding keep_edges
Among-keep_edges nodes e [] h a = absurd a
Among-keep_edges nodes e (x ∷ es) (p, q) (inl same) = rw (← same) (rw (p, q) (inl refl))
Among-keep_edges nodes e (x ∷ es) h (inr a) =
    let rest = Among-keep_edges nodes e es h a in
    elim (Bool-cases (has_node x.source nodes && has_node x.target nodes)) [
      | inl g ↦ rw g (inr rest)
      | inr g ↦ rw g rest
    ]

-- The short names stand for documents.
abbrev pub NamesIn : Dict Text GraphNode → Dict Text Text → Type 0
NamesIn docs slugs =
    (name id : Text) → lookup bytes_discrete name slugs ≡ some id → is_bound id docs ≡ true

load_ids-bound :
    (project k : Text) (rows : List Row) (m : Dict Text GraphNode)
    → is_bound k m ≡ true
    → is_bound k (load_ids project rows m) ≡ true
unfolding load_ids
load_ids-bound project k [] m h = h
load_ids-bound project k (r ∷ rows) m h =
    load_ids-bound project k rows (insert bytes_discrete r.id (node_of project r) m)
      (is_bound-insert k r.id (node_of project r) m ∙ ground (arith, h))

pub load_ids-binds :
    (project : Text) (r : Row) (rows : List Row) (m : Dict Text GraphNode)
    → Among r rows
    → is_bound r.id (load_ids project rows m) ≡ true
unfolding load_ids
load_ids-binds project r [] m a = absurd a
load_ids-binds project r (x ∷ rows) m (inl e) =
    let n = node_of project x in
    load_ids-bound project r.id rows (insert bytes_discrete x.id n m)
      (is_bound-insert r.id x.id n m ∙ ground (arith, ap (λ (y : Row). y.id) e))
load_ids-binds project r (x ∷ rows) m (inr a) =
    load_ids-binds project r rows (insert bytes_discrete x.id (node_of project x) m) a

pub load_ids-IsKeyed :
    (project : Text) (rows : List Row) (m : Dict Text GraphNode)
    → IsKeyed m
    → IsKeyed (load_ids project rows m)
unfolding load_ids node_of
load_ids-IsKeyed project [] m a = a
load_ids-IsKeyed project (r ∷ rows) m a =
    load_ids-IsKeyed project rows (insert bytes_discrete r.id (node_of project r) m)
      (insert-IsKeyed r.id (node_of project r) m refl a)

name_row-cases :
    (r : Row) (m : Dict Text Text)
    → (name_row r m ≡ m) ⊎ ((k : Text) × (name_row r m ≡ insert bytes_discrete k r.id m))
unfolding name_row
name_row-cases r m =
    let k = base (trim_suffix r.id (bytes ".md")) in
    elim (Bool-cases (is_empty k || bytes_eq k (bytes "."))) [
      | inl e ↦ inl (ground (arith, e))
      | inr e ↦ elim (Option-cases (lookup bytes_discrete k m)) [
        | inl f ↦ inr (k, ground (arith, e, f))
        | inr (id, f) ↦ inl (ground (arith, e, f))
      ]
    ]

name_row-NamesIn :
    (docs : Dict Text GraphNode) (r : Row) (slugs : Dict Text Text)
    → is_bound r.id docs ≡ true
    → NamesIn docs slugs
    → NamesIn docs (name_row r slugs)
unfolding name_row
name_row-NamesIn docs r slugs b h name id e = elim (name_row-cases r slugs) [
  | inl same ↦ h name id (sym (ap (λ m. lookup bytes_discrete name m) same) ∙ e)
  | inr (k, same) ↦
      let put : lookup bytes_discrete name (insert bytes_discrete k r.id slugs) ≡ some id =
        sym (ap (λ m. lookup bytes_discrete name m) same) ∙ e in
      ground (arith, b, put, lookup-insert bytes_discrete k name r.id slugs, h name id)
]

pub load_slugs-NamesIn :
    (docs : Dict Text GraphNode) (rows : List Row) (slugs : Dict Text Text)
    → ((r : Row) → Among r rows → is_bound r.id docs ≡ true)
    → NamesIn docs slugs
    → NamesIn docs (load_slugs rows slugs)
unfolding load_slugs
load_slugs-NamesIn docs [] slugs b h = h
load_slugs-NamesIn docs (r ∷ rows) slugs b h =
    load_slugs-NamesIn docs rows (name_row r slugs) (λ x a. b x (inr a))
      (name_row-NamesIn docs r slugs (b r (inl refl)) h)

module _ (to_lower : ℕ → ℕ) where
  -- It looks at the keys of the documents alone.
  pub resolve_target-same_keys :
      (r : DocRef) (docs docs' : Dict Text GraphNode) (slugs : Dict Text Text)
      → ((k : Text) → is_bound k docs' ≡ is_bound k docs)
      → resolve_target to_lower r docs' slugs ≡ resolve_target to_lower r docs slugs
  unfolding resolve_target by_path
  resolve_target-same_keys r docs docs' slugs h =
      let p = resolved_path to_lower r (trim_space r.target_path) in
      ground (arith, h p, h (p ++ bytes ".md"))

  by_path-bound :
      (r : DocRef) (raw id : Text) (docs : Dict Text GraphNode)
      → by_path to_lower r raw docs ≡ some id
      → is_bound id docs ≡ true
  unfolding by_path
  by_path-bound r raw id docs h = ground (arith, h)

  by_slug-bound :
      (raw id : Text) (docs : Dict Text GraphNode) (slugs : Dict Text Text)
      → NamesIn docs slugs
      → by_slug to_lower raw slugs ≡ some id
      → is_bound id docs ≡ true
  unfolding by_slug
  by_slug-bound raw id docs slugs n h = ground (arith, h, n raw id, n (slugify to_lower raw) id)

  -- A target that is not broken is a document.
  pub resolve_target-bound :
      (r : DocRef) (docs : Dict Text GraphNode) (slugs : Dict Text Text)
      → NamesIn docs slugs
      → (resolve_target to_lower r docs slugs).1 ≡ false
      → is_bound (resolve_target to_lower r docs slugs).0 docs ≡ true
  unfolding resolve_target
  resolve_target-bound r docs slugs h e =
      let raw = trim_space r.target_path in
      elim (Bool-cases (is_empty raw)) [
        | inl c ↦ absurd (ground (arith, e, c))
        | inr c ↦ elim (Option-cases (by_path to_lower r raw docs)) [
          | inr (id, f) ↦ ground (arith, c, f, by_path-bound r raw id docs f)
          | inl f ↦ elim (Option-cases (by_slug to_lower raw slugs)) [
            | inr (id, g) ↦ ground (arith, c, f, g, by_slug-bound raw id docs slugs h g)
            | inl g ↦ absurd (ground (arith, e, c, f, g))
          ]
        ]
      ]
