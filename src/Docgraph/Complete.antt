-- ===== src/Docgraph/Complete.antt =====
-- The graph as a whole: every reference of a document is drawn, unless the cap cut nodes off.
use mathlib.Core.Path.{subst}
use vedox.Base.{
  ℕ, zero, suc, ◌+◌, ◌≤◌, ◌≡◌, ◌⊎◌, refl, sym, ap, ◌∙◌, Bool, Bool-cases, true, false, ◌||◌, inl,
  inr, List, [], ◌∷◌, ◌++◌, map, arith, bytes_discrete, length, take, Among, All, Among-append_left,
  Among-append_right, some,
}
use vedox.Base.Dict.{Dict, lookup, values}
use vedox.Base.Text.{Text}
use vedox.Docgraph.Targets.{DocRef, is_bound, resolve_target}
use vedox.Docgraph.{
  GraphNode, GraphEdge, Graph, Row, Building, load_ids, load_slugs, sort_nodes, has_node,
  missing_node, edge_of, add_ref, add_refs, draw_graph,
}
use vedox.Docgraph.Drawn.{
  is_bound-insert, is_bound-bump, IsKeyed, bump-IsKeyed, has_node-append, has_node-sort_nodes,
  has_node-values, has_node-missing, HasEnds, keep_edges-HasEnds, Among-keep_edges, NamesIn,
  load_ids-binds, load_ids-IsKeyed, load_slugs-NamesIn, resolve_target-same_keys,
  resolve_target-bound,
}

Among-append-cases :
    {A : Type 0} (a : A) (xs : List A) (x : A) → Among a (xs ++ x ∷ []) → Among a xs ⊎ (a ≡ x)
Among-append-cases a [] x (inl e) = inr e
Among-append-cases a [] x (inr h) = absurd h
Among-append-cases a (y ∷ xs) x (inl e) = inl (inl e)
Among-append-cases a (y ∷ xs) x (inr h) = elim (Among-append-cases a xs x h) [
  | inl i ↦ inl (inr i)
  | inr e ↦ inr e
]

take_all : {A : Type 0} (n : ℕ) (xs : List A) → length xs ≤ n → take n xs ≡ xs
take_all zero [] h = refl
take_all zero (x ∷ xs) h = absurd (omega arith)
take_all (suc n) [] h = refl
take_all (suc n) (x ∷ xs) h = ap (◌∷◌ x) (take_all n xs (omega arith))

length-take : {A : Type 0} (n : ℕ) (xs : List A) → length (take n xs) ≤ n
length-take zero xs = omega arith
length-take (suc n) [] = omega arith
length-take (suc n) (x ∷ xs) = omega (arith, length-take n xs)

module _ (decimal : ℕ → Text) (to_lower : ℕ → ℕ) (docs : Dict Text GraphNode)
    (slugs : Dict Text Text) where
  -- The edge goes from the reference's document to the target that `resolveTarget` finds.
  abbrev pub Draws : GraphEdge → DocRef → Type 0
  Draws e r =
      (e.source ≡ r.source_path) × ((e.target, e.broken) ≡ resolve_target to_lower r docs slugs)

  -- What the loop over the references keeps true.
  record IsBuilt (b : Building) : Type 0 where
    pub keyed : IsKeyed b.docs
    pub same_keys : (k : Text) → is_bound k b.docs ≡ is_bound k docs
    pub reaches :
        (e : GraphEdge)
        → Among e b.edges
        → (is_bound e.target docs ≡ true) ⊎ (is_bound e.target b.missing ≡ true)

  edge_of-Draws :
      (i : ℕ) (r : DocRef) (b : Building)
      → IsBuilt b
      → Draws (edge_of decimal to_lower b.docs slugs i r) r
  unfolding edge_of
  edge_of-Draws i r b h = (refl, resolve_target-same_keys to_lower r docs b.docs slugs h.same_keys)

  -- All nodes before the cap.
  abbrev all_nodes : Text → Building → List GraphNode
  all_nodes project b =
      sort_nodes
        (values b.docs ++ map (λ (e : Text × Unit {0}). missing_node project e.0) b.missing)

  has_node-all_nodes :
      (project id : Text) (b : Building)
      → IsBuilt b
      → has_node id (all_nodes project b) ≡ (is_bound id docs || is_bound id b.missing)
  has_node-all_nodes project id b h =
      let missing = map (λ (e : Text × Unit {0}). missing_node project e.0) b.missing in
      has_node-sort_nodes id (values b.docs ++ missing)
      ∙ has_node-append id (values b.docs) missing
      ∙ ap (λ x. x || has_node id missing) (has_node-values id b.docs h.keyed ∙ h.same_keys id)
      ∙ ap (λ x. is_bound id docs || x) (has_node-missing project id b.missing)

  all_nodes-HasEnds :
      (project : Text) (b : Building) (e : GraphEdge)
      → IsBuilt b
      → is_bound e.source docs ≡ true
      → Among e b.edges
      → HasEnds (all_nodes project b) e
  all_nodes-HasEnds project b e h s a = (
    has_node-all_nodes project e.source b h ∙ ground (arith, s),
    has_node-all_nodes project e.target b h
        ∙ elim (h.reaches e a) [ inl p ↦ ground (arith, p) | inr p ↦ ground (arith, p) ],
  )

  module _ (names : NamesIn docs slugs) where
    add_ref-IsBuilt :
        (i : ℕ) (r : DocRef) (b : Building)
        → IsBuilt b
        → IsBuilt (add_ref decimal to_lower slugs i r b)
    unfolding add_ref
    add_ref-IsBuilt i r b h =
        let e = edge_of decimal to_lower b.docs slugs i r in
        let missing' = (add_ref decimal to_lower slugs i r b).missing in
        let found : (e.target, e.broken) ≡ resolve_target to_lower r docs slugs =
          (edge_of-Draws i r b h).1 in
        let still : (k : Text) → is_bound k b.missing ≡ true → is_bound k missing' ≡ true =
          λ k m. ground (arith, m, is_bound-insert k e.target tt b.missing) in
        record {
          keyed =
              bump-IsKeyed _ e.target _ (λ n. refl)
                (bump-IsKeyed _ r.source_path b.docs (λ n. refl) h.keyed);
          same_keys = λ k.
              is_bound-bump _ k e.target _ ∙ is_bound-bump _ k r.source_path b.docs ∙ h.same_keys k;
          reaches = λ x a. elim (Among-append-cases x b.edges e a) [
            | inl before ↦ elim (h.reaches x before) [
              | inl p ↦ inl p
              | inr p ↦ inr (still x.target p)
            ]
            | inr same ↦ elim (Bool-cases e.broken) [
              | inl broken ↦
                  let m : is_bound e.target missing' ≡ true =
                    ground (arith, broken, is_bound-insert e.target e.target tt b.missing) in
                  rw same (inr m)
              | inr whole ↦
                  let known =
                    resolve_target-bound to_lower r docs slugs names
                      (ap (λ (p : Text × Bool). p.1) (sym found) ∙ whole) in
                  let m : is_bound e.target docs ≡ true =
                    ap (λ (p : Text × Bool). is_bound p.0 docs) found ∙ known in
                  rw same (inl m)
            ]
          ];
        }

    add_refs-IsBuilt :
        (i : ℕ) (refs : List DocRef) (b : Building)
        → IsBuilt b
        → IsBuilt (add_refs decimal to_lower slugs i refs b)
    unfolding add_refs
    add_refs-IsBuilt i [] b h = h
    add_refs-IsBuilt i (r ∷ refs) b h =
        add_refs-IsBuilt (i + 1) refs (add_ref decimal to_lower slugs i r b)
          (add_ref-IsBuilt i r b h)

    add_refs-keeps :
        (i : ℕ) (refs : List DocRef) (b : Building) (e : GraphEdge)
        → Among e b.edges
        → Among e (add_refs decimal to_lower slugs i refs b).edges
    unfolding add_refs add_ref
    add_refs-keeps i [] b e a = a
    add_refs-keeps i (r ∷ refs) b e a =
        add_refs-keeps (i + 1) refs (add_ref decimal to_lower slugs i r b) e
          (Among-append_left e b.edges (edge_of decimal to_lower b.docs slugs i r ∷ []) a)

    add_refs-Draws :
        (i : ℕ) (refs : List DocRef) (b : Building) (r : DocRef)
        → IsBuilt b
        → Among r refs
        → (e : GraphEdge) × Draws e r × Among e (add_refs decimal to_lower slugs i refs b).edges
    unfolding add_refs add_ref
    add_refs-Draws i [] b r h a = absurd a
    add_refs-Draws i (x ∷ refs) b r h (inl same) =
        let e = edge_of decimal to_lower b.docs slugs i x in
        (
          e,
          subst (λ y. Draws e y) (sym same) (edge_of-Draws i x b h),
          add_refs-keeps (i + 1) refs (add_ref decimal to_lower slugs i x b) e
              (Among-append_right e b.edges (e ∷ []) (inl refl)),
        )
    add_refs-Draws i (x ∷ refs) b r h (inr a) =
        add_refs-Draws (i + 1) refs (add_ref decimal to_lower slugs i x b) r
          (add_ref-IsBuilt i x b h) a

no_names :
    (docs : Dict Text GraphNode) (name id : Text)
    → lookup {V = Text} bytes_discrete name [] ≡ some id
    → is_bound id docs ≡ true
unfolding lookup
no_names docs name id e = cc

module _ (decimal : ℕ → Text) (to_lower : ℕ → ℕ) (cap : ℕ) (project : Text) (rows : List Row) where
  abbrev pub documents : Dict Text GraphNode
  documents = load_ids project rows []

  abbrev pub short_names : Dict Text Text
  short_names = load_slugs rows []

  -- What is promised of the graph of these documents and references.
  pub record IsComplete (refs : List DocRef) (g : Graph) : Type 0 where
    pub within_cap : length g.nodes ≤ cap
    pub has_ends : All (HasEnds g.nodes) g.edges
    pub drawn :
        g.truncated ≡ false
        → (row : Row) → Among row rows
        → (r : DocRef) → Among r refs
        → r.source_path ≡ row.id
        → (e : GraphEdge) × Draws decimal to_lower documents short_names e r × Among e g.edges

  -- The graph of a project has no more nodes than the cap; each of its edges has both ends among
  -- its nodes; and unless it is marked as truncated, every reference in a document of the project
  -- has an edge, from that document to the target that `resolveTarget` finds, broken or not.
  pub draw_graph-IsComplete :
      (refs : List DocRef) → IsComplete refs (draw_graph decimal to_lower cap project rows refs)
  unfolding draw_graph
  draw_graph-IsComplete refs =
      let names : NamesIn documents short_names =
        load_slugs-NamesIn documents rows [] (λ r a. load_ids-binds project r rows [] a)
          (no_names documents) in
      let start : Building = record { docs = documents; edges = []; missing = [] } in
      let fresh : IsBuilt decimal to_lower documents short_names start = record {
        keyed = load_ids-IsKeyed project rows [] tt;
        same_keys = λ k. refl;
        reaches = λ e a. absurd a;
      } in
      let b = add_refs decimal to_lower short_names 0 refs start in
      let built =
        add_refs-IsBuilt decimal to_lower documents short_names names 0 refs start fresh in
      let all = all_nodes decimal to_lower documents short_names project b in
      record {
        within_cap = length-take cap all;
        has_ends = keep_edges-HasEnds (take cap all) b.edges;
        drawn = λ whole row known r a source.
            let (e, d, i) =
              add_refs-Draws decimal to_lower documents short_names names 0 refs start r fresh a in
            let bound : is_bound e.source documents ≡ true =
              ap (λ k. is_bound k documents) (d.0 ∙ source)
              ∙ load_ids-binds project row rows [] known in
            let ends =
              all_nodes-HasEnds decimal to_lower documents short_names project b e built bound i in
            let uncut : take cap all ≡ all = take_all cap all (ground (arith, whole)) in
            (e, d, rw uncut (Among-keep_edges all e b.edges ends i));
      }
