-- ===== src/GraphIdentity/Model.antt =====
-- Nodes, edges and the test for cycles (agent/graph-identity.ts `validateGraphAcyclic`). Run ids
-- are numbers.
use deeprun.Prelude.{
  ℕ, zero, suc, ◌+◌, ◌-◌, Bool, true, false, ◌==◌, List, [], ◌∷◌, ◌++◌, map, length, Option, none,
  some, Text, if◌then◌else◌,
}

pub record GraphNode : Type 0 where
  pub run_id : ℕ
  pub execution_identity_hash : Text

pub record GraphEdge : Type 0 where
  pub from_run_id : ℕ
  pub to_run_id : ℕ

unfoldable pub has : ℕ → List ℕ → Bool
has x [] = false
has x (y ∷ ys) = if x == y then true else has x ys

-- `set.add(x)`, which keeps the order of insertion.
abbrev pub add_key : ℕ → List ℕ → List ℕ
add_key x xs = if has x xs then xs else xs ++ x ∷ []

abbrev pub ids_of : List GraphNode → List ℕ
ids_of nodes = map (λ n. n.run_id) nodes

-- `adjacency.get(x)`, empty where the map has no entry.
unfoldable pub targets : ℕ → List ℕ → List GraphEdge → List ℕ
targets x ts [] = ts
targets x ts (e ∷ es) = targets x (if e.from_run_id == x then add_key e.to_run_id ts else ts) es

unfoldable pub adjacent : List ℕ → List GraphEdge → ℕ → List ℕ
adjacent ids edges x = if has x ids then targets x [] edges else []

-- The map of degrees, in the order in which its keys were set. A degree below 0 would stay below
-- it, as one of 0 stays at 0 here.
pub record Degree : Type 0 where
  pub key : ℕ
  pub value : ℕ

unfoldable pub get_degree : ℕ → List Degree → ℕ
get_degree k [] = 0
get_degree k (d ∷ ds) = if d.key == k then d.value else get_degree k ds

unfoldable pub set_degree : ℕ → ℕ → List Degree → List Degree
set_degree k v [] = record { key = k; value = v } ∷ []
set_degree k v (d ∷ ds) =
    let rest = set_degree k v ds in if d.key == k then record d { value = v } ∷ ds else d ∷ rest

unfoldable pub zero_degrees : List GraphNode → List Degree → List Degree
zero_degrees [] ds = ds
zero_degrees (n ∷ ns) ds = zero_degrees ns (set_degree n.run_id 0 ds)

unfoldable pub count_edges : List GraphEdge → List Degree → List Degree
count_edges [] ds = ds
count_edges (e ∷ es) ds = count_edges es (set_degree e.to_run_id (get_degree e.to_run_id ds + 1) ds)

unfoldable pub roots : List Degree → List ℕ
roots [] = []
roots (d ∷ ds) = let rest = roots ds in if d.value == 0 then d.key ∷ rest else rest

-- The loop over the neighbors of the node that is processed.
unfoldable pub release : List ℕ → List Degree → List ℕ → List Degree × List ℕ
release [] ds queue = (ds, queue)
release (y ∷ ys) ds queue =
    let degree = get_degree y ds in
    release ys (set_degree y (degree - 1) ds) (if degree == 1 then queue ++ y ∷ [] else queue)

-- The loop on the queue, with the nodes processed so far; `none` when the fuel is used up.
unfoldable pub process : (ℕ → List ℕ) → ℕ → List Degree → List ℕ → ℕ → Option ℕ
process next fuel ds [] processed = some processed
process next zero ds (x ∷ queue) processed = none
process next (suc fuel) ds (x ∷ queue) processed =
    let (ds', queue') = release (next x) ds queue in process next fuel ds' queue' (processed + 1)

abbrev pub all_processed : List GraphNode → Option ℕ → Option Bool
all_processed nodes none = none
all_processed nodes (some n) = some (n == length nodes)

unfoldable pub validate_graph_acyclic : List GraphNode → List GraphEdge → Option Bool
validate_graph_acyclic nodes edges =
    let ds = count_edges edges (zero_degrees nodes []) in
    all_processed nodes (process (adjacent (ids_of nodes) edges) (length ds + 1) ds (roots ds) 0)
