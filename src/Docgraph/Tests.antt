-- ===== src/Docgraph/Tests.antt =====
-- A project of two documents, and the theorem at it.
use vedox.Base.{
  ℕ, ◌≡◌, refl, Bool, true, false, List, [], ◌∷◌, map, bytes, bytes_discrete, starts_with, leb,
  if◌then◌else◌, ◌&&◌, ◌+◌,
}
use vedox.Base.Dict.{lookup, insert}
use vedox.Base.Text.{Text, is_space, trim_left, trim_right, pieces, join_with}
use vedox.Base.Paths.{
  ends_with, trim_suffix, trim_prefix, has_slash, push_element, push_elements, clean, join,
  drop_name, take_name, drop_slashes, dir, base,
}
use vedox.Docgraph.Targets.{
  LinkType, DocRef, hyphenate, looks_like_path, slugify, resolved_path, by_path, by_slug,
  resolve_target,
}
use vedox.Docgraph.{
  GraphEdge, Row, node_of, load_ids, name_row, load_slugs, wire_kind, bump, text_less, node_less,
  insert_node, sort_nodes, has_node, keep_edges, missing_node, edge_of, add_ref, add_refs,
  draw_graph, get_graph,
}
use vedox.Docgraph.Complete.{IsComplete, draw_graph-IsComplete}

-- The computing definitions of the package.
code : Unit {0}
unfolding bytes_discrete starts_with lookup insert is_space trim_left trim_right pieces join_with
    ends_with trim_suffix trim_prefix has_slash push_element push_elements clean join drop_name
    take_name drop_slashes dir base hyphenate looks_like_path slugify resolved_path by_path by_slug
    resolve_target node_of load_ids name_row load_slugs wire_kind bump text_less node_less
    insert_node sort_nodes has_node keep_edges missing_node edge_of add_ref add_refs draw_graph
    get_graph
code = tt

abbrev lower : ℕ → ℕ
lower c = if leb 65 c && leb c 90 then c + 32 else c

abbrev decimal : ℕ → Text
decimal n = (48 + n) ∷ []

abbrev row : Text → Row
row id = record { id = id; title = []; type = []; status = []; mod_time = [] }

abbrev two_rows : List Row
two_rows = row (bytes "p/a/one.md") ∷ row (bytes "p/two-b.md") ∷ []

abbrev reference : Text → DocRef
reference target = record {
  source_path = bytes "p/a/one.md";
  target_path = target;
  link_type = LinkType.md;
}

abbrev three_refs : List DocRef
three_refs =
    reference (bytes "../two-b.md") ∷ reference (bytes "Two B") ∷ reference (bytes "no.md") ∷ []

cleaned : clean (bytes "p/a/.././/x/../two") ≡ bytes "p/two"
unfolding code
cleaned = refl

above_root : clean (bytes "../a/../../b") ≡ bytes "../../b"
unfolding code
above_root = refl

base_test : base (bytes "p/a/one.md") ≡ bytes "one.md"
unfolding code
base_test = refl

targets :
    map {B = Text × Bool}
      (λ (e : GraphEdge). (e.target, e.broken))
      (draw_graph decimal lower 2000 (bytes "p") two_rows three_refs).edges
    ≡ (bytes "p/two-b.md", false) ∷ (bytes "p/two-b.md", false) ∷ (bytes "p/a/no.md", true) ∷ []
unfolding code
targets = refl

draw_graph_example :
    IsComplete decimal lower 2000
      (bytes "p")
      two_rows
      three_refs
      (draw_graph decimal lower 2000 (bytes "p") two_rows three_refs)
draw_graph_example = draw_graph-IsComplete decimal lower 2000 (bytes "p") two_rows three_refs
