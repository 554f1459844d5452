-- ===== src/GraphIdentity/Tests.antt =====
-- Graphs of three runs, their identities, and graphs that the test for cycles misjudges
-- (agent/graph-identity.ts).
use mathlib.Core.List.{Permᴰ}
use deeprun.Prelude.{
  ◌≡◌, ◌⊎◌, ◌+◌, refl, ℕ, true, false, List, [], ◌∷◌, map, some, Text, codes, arith,
}
use deeprun.GraphIdentity.Model.{
  GraphNode, GraphEdge, has, targets, adjacent, get_degree, set_degree, zero_degrees, count_edges,
  roots, release, process, validate_graph_acyclic,
}
use deeprun.GraphIdentity.Repeats.{unique}
use deeprun.GraphIdentity.Walks.{linked, Cyclic, Acyclic}
use deeprun.GraphIdentity.Degrees.{distinct}
use deeprun.GraphIdentity.Acyclic.{validate_graph_acyclic-Exact}
use deeprun.GraphIdentity.Identity.{
  GraphPolicyDescriptor, ExecutionGraphIdentityMaterial, sequential, fail_fast,
  build_graph_identity_hash,
}
use deeprun.GraphIdentity.Unordered.{
  renamed, renamed_edge, build_graph_identity_hash-Permᴰ, build_graph_identity_hash-renamed,
}

abbrev node : ℕ → GraphNode
node n = record { run_id = n; execution_identity_hash = (96 + n) ∷ [] }

abbrev edge : ℕ → ℕ → GraphEdge
edge m n = record { from_run_id = m; to_run_id = n }

abbrev three : List GraphNode
three = node 1 ∷ node 2 ∷ node 3 ∷ []

abbrev fork : List GraphEdge
fork = edge 1 2 ∷ edge 1 3 ∷ edge 2 3 ∷ []

validate_graph_acyclic-Exact_example :
    ((validate_graph_acyclic three fork ≡ some true) × Acyclic fork)
    ⊎ ((validate_graph_acyclic three fork ≡ some false) × Cyclic fork)
unfolding unique distinct has linked
validate_graph_acyclic-Exact_example =
    validate_graph_acyclic-Exact three fork refl refl
      ((refl, refl), ((refl, refl), ((refl, refl), tt)))

abbrev policy : GraphPolicyDescriptor
policy = record {
  graph_policy_version = 1;
  parallelism_mode = sequential;
  max_concurrent_nodes = 1;
  failure_strategy = fail_fast;
}

abbrev policy_hash : GraphPolicyDescriptor → Text
policy_hash p = codes "p"

abbrev first_node : ExecutionGraphIdentityMaterial → Text
first_node m = m.policy_identity_hash

abbrev turned : List GraphNode
turned = node 2 ∷ node 1 ∷ node 3 ∷ []

abbrev turned_fork : List GraphEdge
turned_fork = edge 1 3 ∷ edge 1 2 ∷ edge 2 3 ∷ []

build_graph_identity_hash-Permᴰ_example :
    build_graph_identity_hash policy_hash first_node policy three fork
    ≡ build_graph_identity_hash policy_hash first_node policy turned turned_fork
unfolding unique has
build_graph_identity_hash-Permᴰ_example =
    build_graph_identity_hash-Permᴰ policy_hash first_node policy three turned fork turned_fork refl
      (Permᴰ.swap refl refl) (Permᴰ.swap refl refl)

abbrev ten_more : ℕ → ℕ
ten_more n = n + 10

build_graph_identity_hash-renamed_example :
    build_graph_identity_hash policy_hash first_node policy
      (map (renamed ten_more) three)
      (map (renamed_edge ten_more) fork)
    ≡ build_graph_identity_hash policy_hash first_node policy three fork
build_graph_identity_hash-renamed_example =
    build_graph_identity_hash-renamed policy_hash first_node policy three fork ten_more
      (λ i j h. omega (arith, h))

-- An edge that is given twice makes a graph without closed walks count as cyclic.
edge_twice : validate_graph_acyclic (node 1 ∷ node 2 ∷ []) (edge 1 2 ∷ edge 1 2 ∷ []) ≡ some false
unfolding validate_graph_acyclic zero_degrees count_edges roots process release adjacent targets
    get_degree set_degree has
edge_twice = refl

-- Edges to runs that are no nodes make a graph with a closed walk count as acyclic.
strangers :
    validate_graph_acyclic three (edge 2 3 ∷ edge 3 2 ∷ edge 1 8 ∷ edge 1 9 ∷ []) ≡ some true
unfolding validate_graph_acyclic zero_degrees count_edges roots process release adjacent targets
    get_degree set_degree has
strangers = refl
