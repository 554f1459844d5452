-- ===== src/RevisionDiff/Model.antt =====
-- The difference of two revisions of a graph (agent/graph-revision-diff.ts).
use deeprun.Prelude.{
  ℕ, Bool, not, ◌==◌, List, [], ◌∷◌, ◌++◌, map, filter, any, Option, none, some, Text, codes,
  text_eq, if◌then◌else◌,
}
use deeprun.GraphIdentity.Model.{GraphNode, GraphEdge}
use deeprun.GraphIdentity.Identity.{text_le, edge_le, sorted}
use deeprun.Correction.Metadata.{unique_of}

-- GraphRevision, its policy as the text of JSON.stringify.
pub record GraphRevision : Type 0 where
  pub id : ℕ
  pub graph_id : ℕ
  pub revision_number : ℕ
  pub graph_policy_descriptor : Text
  pub graph_identity_hash : Text

pub record GraphRevisionDiff : Type 0 where
  pub from_revision_id : ℕ
  pub to_revision_id : ℕ
  pub from_revision_number : ℕ
  pub to_revision_number : ℕ
  pub nodes_added : List Text
  pub nodes_removed : List Text
  pub edges_added : List (Text × Text)
  pub edges_removed : List (Text × Text)
  pub policy_descriptor_changed : Bool
  pub identity_hash_changed : Bool

-- A revision with its nodes and edges.
pub record Revision : Type 0 where
  pub revision : GraphRevision
  pub nodes : List GraphNode
  pub edges : List GraphEdge

abbrev pub has_hash : List GraphNode → Text → Bool
has_hash nodes h = any (λ n. text_eq n.execution_identity_hash h) nodes

abbrev pub new_node : List GraphNode → GraphNode → Bool
new_node old n = not (has_hash old n.execution_identity_hash)

unfoldable pub new_nodes : List GraphNode → List GraphNode → List Text
new_nodes old nodes =
    sorted text_le (map (λ n. n.execution_identity_hash) (filter (new_node old) nodes))

-- The hash of the first node of the run, as a template string prints it.
unfoldable pub printed_hash : ℕ → List GraphNode → Text
printed_hash id [] = codes "undefined"
printed_hash id (n ∷ ns) = if n.run_id == id then n.execution_identity_hash else printed_hash id ns

abbrev pub edge_key : List GraphNode → GraphEdge → Text
edge_key nodes e = printed_hash e.from_run_id nodes ++ codes ":" ++ printed_hash e.to_run_id nodes

abbrev pub edge_keys : Revision → List Text
edge_keys r = unique_of (map (edge_key r.nodes) r.edges)

abbrev pub has_key : List Text → Text → Bool
has_key keys k = any (λ l. text_eq l k) keys

-- The first two parts of `split(":")`.
abbrev pub until_colon : Text → Text
until_colon [] = []
until_colon (c ∷ s) = let rest = until_colon s in if c == 58 then [] else c ∷ rest

abbrev pub after_colon : Text → Text
after_colon [] = []
after_colon (c ∷ s) = let rest = after_colon s in if c == 58 then s else rest

abbrev pub split_key : Text → Text × Text
split_key k = (until_colon k, until_colon (after_colon k))

unfoldable pub new_edges : Revision → Revision → List (Text × Text)
new_edges old r =
    sorted edge_le (map split_key (filter (λ k. not (has_key (edge_keys old) k)) (edge_keys r)))

abbrev pub diff_of : Revision → Revision → GraphRevisionDiff
diff_of from to = record {
  from_revision_id = from.revision.id;
  to_revision_id = to.revision.id;
  from_revision_number = from.revision.revision_number;
  to_revision_number = to.revision.revision_number;
  nodes_added = new_nodes from.nodes to.nodes;
  nodes_removed = new_nodes to.nodes from.nodes;
  edges_added = new_edges from to;
  edges_removed = new_edges to from;
  policy_descriptor_changed =
      not (text_eq from.revision.graph_policy_descriptor to.revision.graph_policy_descriptor);
  identity_hash_changed =
      not (text_eq from.revision.graph_identity_hash to.revision.graph_identity_hash);
}

-- `none` is the error for revisions of different graphs.
unfoldable pub build_graph_revision_diff : Revision → Revision → Option GraphRevisionDiff
build_graph_revision_diff from to =
    if from.revision.graph_id == to.revision.graph_id then some (diff_of from to) else none
