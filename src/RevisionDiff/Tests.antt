-- ===== src/RevisionDiff/Tests.antt =====
-- Two revisions, of which the second has one node and one edge more
-- (agent/graph-revision-diff.ts).
use deeprun.Prelude.{arith, ◌≡◌, refl, ◌↔◌, [], ◌∷◌, some, codes, text_eq}
use deeprun.GraphIdentity.Identity.{text_le, edge_le}
use deeprun.Correction.Metadata.{unique_of}
use deeprun.RevisionDiff.Model.{
  GraphRevisionDiff, Revision, new_nodes, new_edges, printed_hash, build_graph_revision_diff,
}
use deeprun.RevisionDiff.Changes.{Among, HasNode}
use deeprun.RevisionDiff.Exact.{Plain, NewEdge, build_graph_revision_diff-Exact}

abbrev first : Revision
first = record {
  revision = record {
    id = 1;
    graph_id = 5;
    revision_number = 1;
    graph_policy_descriptor = codes "p";
    graph_identity_hash = codes "x";
  };
  nodes = record { run_id = 1; execution_identity_hash = codes "a" } ∷ [];
  edges = [];
}

abbrev second : Revision
second = record {
  revision = record {
    id = 2;
    graph_id = 5;
    revision_number = 2;
    graph_policy_descriptor = codes "p";
    graph_identity_hash = codes "y";
  };
  nodes =
      record { run_id = 1; execution_identity_hash = codes "a" }
      ∷ record { run_id = 2; execution_identity_hash = codes "b" }
      ∷ [];
  edges = record { from_run_id = 1; to_run_id = 2 } ∷ [];
}

first-Plain : Plain first
first-Plain = ((omega arith, tt), tt)

second-Plain : Plain second
second-Plain = ((omega arith, tt), ((omega arith, tt), tt))

build_graph_revision_diff-Exact_example :
    (d : GraphRevisionDiff) × ((build_graph_revision_diff first second ≡ some d)
      × ((Among (codes "b") d.nodes_added
            ↔ (HasNode (codes "b") second.nodes × (¬ (HasNode (codes "b") first.nodes))))
          × ((Among (codes "b") d.nodes_removed
                ↔ (HasNode (codes "b") first.nodes × (¬ (HasNode (codes "b") second.nodes))))
              × ((Among (codes "a", codes "b") d.edges_added
                    ↔ NewEdge (codes "a") (codes "b") first second)
                  × (Among (codes "a", codes "b") d.edges_removed
                      ↔ NewEdge (codes "a") (codes "b") second first)))))
build_graph_revision_diff-Exact_example =
    build_graph_revision_diff-Exact first second (codes "b") (codes "a") (codes "b") refl
      first-Plain second-Plain

one_edge_more : new_edges first second ≡ (codes "a", codes "b") ∷ []
unfolding new_edges printed_hash unique_of text_eq edge_le text_le
one_edge_more = refl

one_node_more : new_nodes first.nodes second.nodes ≡ codes "b" ∷ []
unfolding new_nodes text_eq text_le
one_node_more = refl
