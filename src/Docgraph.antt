-- ===== src/Docgraph.antt =====
-- The reference graph of a project's documents: apps/cli/internal/docgraph/graph_query.go.
pub mod Targets
pub mod Drawn
pub mod Complete
mod Tests
use vedox.Base.{
  ℕ, zero, suc, ◌+◌, Bool, true, false, not, ◌&&◌, ◌||◌, if◌then◌else◌, Option, none, some, List,
  [], ◌∷◌, ◌++◌, map, bytes, is_empty, ltb, ◌==◌, length, take, bytes_discrete, bytes_eq, ite,
}
use vedox.Base.Dict.{Dict, lookup, insert, values}
use vedox.Base.Text.{Text}
use vedox.Base.Paths.{slash, trim_suffix, trim_prefix, base}
use vedox.Docgraph.Targets.{LinkType, DocRef, resolve_target}

pub record GraphNode : Type 0 where
  pub id : Text
  pub project : Text
  pub slug : Text
  pub title : Text
  pub type : Text
  pub status : Text
  pub degree_in : ℕ
  pub degree_out : ℕ
  pub modified : Text

pub record GraphEdge : Type 0 where
  pub id : Text
  pub source : Text
  pub target : Text
  pub kind : Text
  pub broken : Bool

pub record Graph : Type 0 where
  pub nodes : List GraphNode
  pub edges : List GraphEdge
  pub truncated : Bool
  pub total_nodes : ℕ
  pub total_edges : ℕ

-- A row of the table `documents`.
pub record Row : Type 0 where
  pub id : Text
  pub title : Text
  pub type : Text
  pub status : Text
  pub mod_time : Text

-- `loadProjectDocs` for one row: the map by id.
unfoldable pub node_of : Text → Row → GraphNode
unfolding trim_prefix
node_of project r = record {
  id = r.id;
  project = project;
  slug = trim_prefix r.id (project ++ slash ∷ []);
  title = r.title;
  type = r.type;
  status = r.status;
  degree_in = 0;
  degree_out = 0;
  modified = r.mod_time;
}

unfoldable pub load_ids : Text → List Row → Dict Text GraphNode → Dict Text GraphNode
unfolding node_of
load_ids project [] m = m
load_ids project (r ∷ rows) m =
    load_ids project rows (insert bytes_discrete r.id (node_of project r) m)

-- The same for the map from short names, of whose nodes the query reads the id alone.
unfoldable pub name_row : Row → Dict Text Text → Dict Text Text
unfolding trim_suffix base
name_row r m =
    let name = base (trim_suffix r.id (bytes ".md")) in
    if is_empty name || bytes_eq name (bytes ".") then m else elim (lookup bytes_discrete name m) [
      | some id ↦ m
      | none ↦ insert bytes_discrete name r.id m
    ]

unfoldable pub load_slugs : List Row → Dict Text Text → Dict Text Text
unfolding name_row
load_slugs [] m = m
load_slugs (r ∷ rows) m = load_slugs rows (name_row r m)

-- `wireKind`
unfoldable pub wire_kind : LinkType → Text
wire_kind LinkType.md = bytes "mdlink"
wire_kind LinkType.wikilink = bytes "wikilink"
wire_kind LinkType.frontmatter = bytes "frontmatter"
wire_kind LinkType.vedox_scheme = bytes "vedox_ref"
wire_kind (LinkType.other_type t) = t

-- `n.DegreeOut++` and `n.DegreeIn++`
abbrev add_out : GraphNode → GraphNode
add_out n = record n { degree_out = n.degree_out + 1 }

abbrev add_in : GraphNode → GraphNode
add_in n = record n { degree_in = n.degree_in + 1 }

unfoldable pub bump : (GraphNode → GraphNode) → Text → Dict Text GraphNode → Dict Text GraphNode
bump f id m = elim (lookup bytes_discrete id m) [
  | none ↦ m
  | some n ↦ insert bytes_discrete id (f n) m
]

-- The variables of the loop over the references.
pub record Building : Type 0 where
  pub docs : Dict Text GraphNode
  pub edges : List GraphEdge
  pub missing : Dict Text (Unit {0})

-- The order of the nodes: the sum of degrees, the time and the id. Strings are compared by `less`.
unfoldable pub text_less : Text → Text → Bool
text_less [] [] = false
text_less [] (d ∷ t) = true
text_less (c ∷ s) [] = false
text_less (c ∷ s) (d ∷ t) = let rest = text_less s t in if c == d then rest else ltb c d

unfoldable pub node_less : GraphNode → GraphNode → Bool
unfolding text_less
node_less a b =
    let sa = a.degree_in + a.degree_out in
    let sb = b.degree_in + b.degree_out in
    if sa == sb
    then (if bytes_eq a.modified b.modified
        then text_less a.id b.id
        else text_less b.modified a.modified)
    else ltb sb sa

-- `sort.Slice`: every sort gives this result where no two nodes tie.
unfoldable pub insert_node : GraphNode → List GraphNode → List GraphNode
unfolding node_less
insert_node n [] = n ∷ []
insert_node n (x ∷ xs) =
    let rest = insert_node n xs in if node_less x n then x ∷ rest else n ∷ x ∷ xs

unfoldable pub sort_nodes : List GraphNode → List GraphNode
unfolding insert_node
sort_nodes [] = []
sort_nodes (n ∷ ns) = insert_node n (sort_nodes ns)

unfoldable pub has_node : Text → List GraphNode → Bool
has_node id [] = false
has_node id (n ∷ ns) = let rest = has_node id ns in if bytes_eq n.id id then true else rest

-- The edges whose ends are both retained.
unfoldable pub keep_edges : List GraphNode → List GraphEdge → List GraphEdge
unfolding has_node
keep_edges nodes [] = []
keep_edges nodes (e ∷ es) =
    let rest = keep_edges nodes es in
    if has_node e.source nodes && has_node e.target nodes then e ∷ rest else rest

-- A node for a target that is no document.
unfoldable pub missing_node : Text → Text → GraphNode
unfolding trim_suffix base
missing_node project id = record {
  id = id;
  project = project;
  slug = base (trim_suffix id (bytes ".md"));
  title = base (trim_suffix id (bytes ".md"));
  type = bytes "missing";
  status = bytes "broken";
  degree_in = 0;
  degree_out = 0;
  modified = [];
}

-- `decimal` is what `%d` prints, `to_lower` is `unicode.ToLower`, and `cap` is `graphNodeCap`.
module _ (decimal : ℕ → Text) (to_lower : ℕ → ℕ) where
  unfoldable pub edge_of : Dict Text GraphNode → Dict Text Text → ℕ → DocRef → GraphEdge
  unfolding resolve_target wire_kind
  edge_of docs slugs i r =
      let (target, broken) = resolve_target to_lower r docs slugs in
      record {
        id = bytes "e:" ++ r.source_path ++ bytes "->" ++ target ++ bytes "#" ++ decimal i;
        source = r.source_path;
        target = target;
        kind = wire_kind r.link_type;
        broken = broken;
      }

  -- One round of the loop over the references.
  unfoldable pub add_ref : Dict Text Text → ℕ → DocRef → Building → Building
  unfolding edge_of bump
  add_ref slugs i r b =
      let e = edge_of b.docs slugs i r in
      record {
        docs = bump add_in e.target (bump add_out r.source_path b.docs);
        edges = b.edges ++ e ∷ [];
        missing = if e.broken then insert bytes_discrete e.target tt b.missing else b.missing;
      }

  unfoldable pub add_refs : Dict Text Text → ℕ → List DocRef → Building → Building
  unfolding add_ref
  add_refs slugs i [] b = b
  add_refs slugs i (r ∷ refs) b = add_refs slugs (i + 1) refs (add_ref slugs i r b)

  -- `GetGraphForProject` behind the two queries.
  unfoldable pub draw_graph : ℕ → Text → List Row → List DocRef → Graph
  unfolding load_ids load_slugs add_refs missing_node sort_nodes keep_edges
  draw_graph cap project rows refs =
      let b =
        add_refs (load_slugs rows []) 0 refs
          (record { docs = load_ids project rows []; edges = []; missing = [] }) in
      let all =
        sort_nodes
          (values b.docs ++ map (λ (e : Text × Unit {0}). missing_node project e.0) b.missing) in
      let nodes = take cap all in
      record {
        nodes = nodes;
        edges = keep_edges nodes b.edges;
        truncated = ltb cap (length all);
        total_nodes = length all;
        total_edges = length b.edges;
      }

  -- `GetGraphForProject`: each query returns its rows or fails.
  unfoldable pub get_graph : ℕ → Text → Option (List Row) → Option (List DocRef) → Option Graph
  unfolding draw_graph
  get_graph cap project none refs = none
  get_graph cap project (some rows) none = none
  get_graph cap project (some rows) (some refs) =
      if is_empty project then none else some (draw_graph cap project rows refs)
