-- ===== src/ImportGraph/Tests.antt =====
-- Three files, two of which import each other, and one itself.
use deeprun.Prelude.{◌≡◌, refl, List, [], ◌∷◌, none, some, Text, codes, text_eq, true, false}
use deeprun.ImportGraph.Model.{
  Collation, GraphNode, GraphEdge, member, add, delete, summarize_cycle, without_last,
  normalize_cycle_nodes, best_rotation, canonicalize_cycle, adjacent, slice_from, report, enter,
  leave, visit, visit_all, dfs, visit_nodes, ids_of, detect_cycles,
}
use deeprun.ImportGraph.Cycles.{is_edge, Exact, detect_cycles-Exact}

abbrev order : Collation
order = record { lt = λ s t. false; le = λ s t. true }

abbrev node : Text → GraphNode
node id = record {
  id = id;
  absolute_path = id;
  relative_path = id;
  module_name = none;
  layer = none;
}

abbrev imports : Text → Text → GraphEdge
imports from to = record { from = from; to = to; import_path = to }

abbrev the_nodes : List GraphNode
the_nodes = node (codes "a") ∷ node (codes "b") ∷ node (codes "c") ∷ []

abbrev the_edges : List GraphEdge
the_edges =
    imports (codes "a") (codes "b")
    ∷ imports (codes "b") (codes "a")
    ∷ imports (codes "b") (codes "c")
    ∷ imports (codes "c") (codes "c")
    ∷ imports (codes "c") (codes "d")
    ∷ []

two_cycles :
    detect_cycles order the_nodes the_edges
    ≡ some ((codes "a" ∷ codes "b" ∷ codes "a" ∷ []) ∷ (codes "c" ∷ codes "c" ∷ []) ∷ [])
unfolding detect_cycles visit_nodes dfs visit_all visit enter leave report slice_from adjacent
    canonicalize_cycle best_rotation normalize_cycle_nodes without_last summarize_cycle add delete
    member text_eq
two_cycles = refl

detect_cycles-Exact_example :
    (cycles : List (List Text)) × ((detect_cycles order the_nodes the_edges ≡ some cycles)
      × Exact (is_edge (ids_of the_nodes) the_edges) cycles)
detect_cycles-Exact_example = detect_cycles-Exact order the_nodes the_edges
