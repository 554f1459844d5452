-- ===== src/GraphIdentity/Identity.antt =====
-- The identity of a graph (agent/graph-identity.ts `buildGraphIdentityHash`). The hashes of the
-- policy and of the material, SHA-256 of their JSON texts, are parameters.
use deeprun.Prelude.{
  ℕ, Bool, true, false, not, ◌&&◌, ◌||◌, ◌==◌, ltb, List, [], ◌∷◌, map, Option, none, some, Text,
  if◌then◌else◌,
}
use mathlib.Core.Option
use deeprun.GraphIdentity.Model.{GraphNode, GraphEdge}

-- `a <= b` on strings: by the first code unit that differs.
unfoldable pub text_le : Text → Text → Bool
text_le [] t = true
text_le (a ∷ s) [] = false
text_le (a ∷ s) (b ∷ t) = ltb a b || (a == b && text_le s t)

-- The comparison of edges, by the first hash and then by the second.
unfoldable pub edge_le : Text × Text → Text × Text → Bool
edge_le (a, b) (c, d) = not (text_le c a) || (text_le a c && text_le b d)

-- `sort()`, by a comparison that gives no more than 0 exactly where `le` holds.
module _ {ℓ} {A : Type ℓ} (le : A → A → Bool) where
  abbrev pub insert_sorted : A → List A → List A
  insert_sorted x [] = x ∷ []
  insert_sorted x (y ∷ ys) =
      let rest = insert_sorted x ys in if le x y then x ∷ y ∷ ys else y ∷ rest

  abbrev pub sorted : List A → List A
  sorted [] = []
  sorted (x ∷ xs) = insert_sorted x (sorted xs)

pub data Parallelism : Type 0 where
  sequential parallel : Parallelism

pub data FailureStrategy : Type 0 where
  fail_fast continue : FailureStrategy

pub record GraphPolicyDescriptor : Type 0 where
  pub graph_policy_version : ℕ
  pub parallelism_mode : Parallelism
  pub max_concurrent_nodes : ℕ
  pub failure_strategy : FailureStrategy

pub record ExecutionGraphIdentityMaterial : Type 0 where
  pub graph_schema_version : ℕ
  pub policy_identity_hash : Text
  pub nodes : List Text
  pub edges : List (Text × Text)

unfoldable pub canonicalize_nodes : List GraphNode → List Text
canonicalize_nodes nodes = sorted text_le (map (λ n. n.execution_identity_hash) nodes)

-- `hashMap.get(id)`, where the last node of an id counts.
abbrev pub or_this : Option Text → Bool → Text → Option Text
or_this (some h) b t = some h
or_this none true t = some t
or_this none false t = none

unfoldable pub hash_of : ℕ → List GraphNode → Option Text
hash_of id [] = none
hash_of id (n ∷ ns) = or_this (hash_of id ns) (n.run_id == id) n.execution_identity_hash

-- `!hash`: an absent or empty hash makes the conversion throw.
abbrev pub present : Option Text → Option Text
present none = none
present (some []) = none
present (some (c ∷ t)) = some (c ∷ t)

abbrev pub pair_of : Option Text → Option Text → Option (Text × Text)
pair_of (some a) (some b) = some (a, b)
pair_of _ _ = none

abbrev pub all_of : Option (Text × Text) → Option (List (Text × Text)) → Option (List (Text × Text))
all_of (some e) (some es) = some (e ∷ es)
all_of _ _ = none

unfoldable pub hashed_edges : List GraphNode → List GraphEdge → Option (List (Text × Text))
hashed_edges nodes [] = some []
hashed_edges nodes (e ∷ es) =
    all_of (pair_of (present (hash_of e.from_run_id nodes)) (present (hash_of e.to_run_id nodes)))
      (hashed_edges nodes es)

unfoldable pub canonicalize_edges : List GraphNode → List GraphEdge → Option (List (Text × Text))
canonicalize_edges nodes edges = Option.map (sorted edge_le) (hashed_edges nodes edges)

unfoldable pub build_graph_identity_material :
    (GraphPolicyDescriptor → Text)
    → GraphPolicyDescriptor
    → List GraphNode
    → List GraphEdge
    → Option ExecutionGraphIdentityMaterial
build_graph_identity_material hash_policy policy nodes edges =
    Option.map
      (λ es. record {
        graph_schema_version = 1;
        policy_identity_hash = hash_policy policy;
        nodes = canonicalize_nodes nodes;
        edges = es;
      })
      (canonicalize_edges nodes edges)

unfoldable pub build_graph_identity_hash :
    (GraphPolicyDescriptor → Text)
    → (ExecutionGraphIdentityMaterial → Text)
    → GraphPolicyDescriptor
    → List GraphNode
    → List GraphEdge
    → Option Text
build_graph_identity_hash hash_policy hash_material policy nodes edges =
    Option.map hash_material (build_graph_identity_material hash_policy policy nodes edges)
