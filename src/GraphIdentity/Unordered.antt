-- ===== src/GraphIdentity/Unordered.antt =====
-- What the identity of a graph forgets: the order of its nodes and edges, and the run ids
-- (agent/graph-identity.ts `buildGraphIdentityHash`).
use mathlib.Core.List.{Permᴰ}
use mathlib.Core.List.Permᴰ
use mathlib.Core.Option
use deeprun.Prelude.{
  ℕ, ◌≡◌, refl, sym, ap, ◌∙◌, Bool, true, false, ◌&&◌, ◌==◌, ==_iff, List, [], ◌∷◌, Text, arith,
  Bool-cases, inl, inr, map, Option, none, some,
}
use deeprun.GraphIdentity.Model.{GraphNode, GraphEdge, ids_of, has}
use deeprun.GraphIdentity.Repeats.{unique}
use deeprun.GraphIdentity.Identity.{
  text_le, edge_le, sorted, GraphPolicyDescriptor, ExecutionGraphIdentityMaterial,
  canonicalize_nodes, or_this, hash_of, present, pair_of, all_of, hashed_edges, canonicalize_edges,
  build_graph_identity_material, build_graph_identity_hash,
}
use deeprun.GraphIdentity.Order.{text_order, edge_order, sorted-Perm}

Permᴰ-hashes :
    {ns ms : List GraphNode}
    → Permᴰ ns ms
    → Permᴰ (map (λ n. n.execution_identity_hash) ns) (map (λ n. n.execution_identity_hash) ms)
Permᴰ-hashes Permᴰ.nil = Permᴰ.nil
Permᴰ-hashes (Permᴰ.cons e p) = Permᴰ.cons (ap (λ n. n.execution_identity_hash) e) (Permᴰ-hashes p)
Permᴰ-hashes (Permᴰ.swap e e') =
    Permᴰ.swap (ap (λ n. n.execution_identity_hash) e) (ap (λ n. n.execution_identity_hash) e')
Permᴰ-hashes (Permᴰ.trans p q) = Permᴰ.trans (Permᴰ-hashes p) (Permᴰ-hashes q)

has-Permᴰ : (v : ℕ) {ns ms : List GraphNode} → Permᴰ ns ms → has v (ids_of ns) ≡ has v (ids_of ms)
unfolding has
has-Permᴰ v Permᴰ.nil = refl
has-Permᴰ v (Permᴰ.cons e p) = rw (e, has-Permᴰ v p) refl
has-Permᴰ v (Permᴰ.swap {a} {b} {a'} {b'} e e') = rw (e, e') (ground arith)
has-Permᴰ v (Permᴰ.trans p q) = has-Permᴰ v p ∙ has-Permᴰ v q

unique_swap : (x y : ℕ) (l : List ℕ) → unique (x ∷ y ∷ l) ≡ unique (y ∷ x ∷ l)
unfolding unique has
unique_swap x y l = ground arith

unique-Permᴰ : {ns ms : List GraphNode} → Permᴰ ns ms → unique (ids_of ns) ≡ unique (ids_of ms)
unfolding unique has
unique-Permᴰ Permᴰ.nil = refl
unique-Permᴰ (Permᴰ.cons {b} e p) = rw (e, has-Permᴰ b.run_id p, unique-Permᴰ p) refl
unique-Permᴰ (Permᴰ.swap {a} {b} {a'} {b'} {l} e e') =
    unique_swap a.run_id b.run_id (ids_of l)
    ∙ (ap (λ n. unique (b.run_id ∷ n.run_id ∷ ids_of l)) e
        ∙ ap (λ n. unique (n.run_id ∷ b'.run_id ∷ ids_of l)) e')
unique-Permᴰ (Permᴰ.trans p q) = unique-Permᴰ p ∙ unique-Permᴰ q

or_swap :
    (r : Option Text) (p q : Bool) (s t : Text)
    → (p && q) ≡ false
    → or_this (or_this r q t) p s ≡ or_this (or_this r p s) q t
or_swap (some h) p q s t apart = refl
or_swap none true true s t apart = ground arith
or_swap none true false s t apart = refl
or_swap none false true s t apart = refl
or_swap none false false s t apart = refl

hash_of-Permᴰ :
    (i : ℕ) {ns ms : List GraphNode}
    → Permᴰ ns ms
    → unique (ids_of ns) ≡ true
    → hash_of i ns ≡ hash_of i ms
unfolding hash_of unique has
hash_of-Permᴰ i Permᴰ.nil u = refl
hash_of-Permᴰ i (Permᴰ.cons {b} e p) u = rw (e, hash_of-Permᴰ i p (ground arith)) refl
hash_of-Permᴰ i (Permᴰ.swap {a} {b} {a'} {b'} {l} e e') u =
    rw (← e, ← e')
      (or_swap (hash_of i l) (a.run_id == i) (b.run_id == i) a.execution_identity_hash
        b.execution_identity_hash (ground arith))
hash_of-Permᴰ i (Permᴰ.trans p q) u =
    hash_of-Permᴰ i p u ∙ hash_of-Permᴰ i q (sym (unique-Permᴰ p) ∙ u)

-- Both are absent, or they are permutations of each other.
abbrev Alike : Option (List (Text × Text)) → Option (List (Text × Text)) → Type 0
Alike none none = Unit
Alike (some es) (some fs) = Permᴰ es fs
Alike _ _ = ⊥

Alike-refl : (o : Option (List (Text × Text))) → Alike o o
Alike-refl none = tt
Alike-refl (some es) = Permᴰ.refl es

Alike-trans : (o p q : Option (List (Text × Text))) → Alike o p → Alike p q → Alike o q
Alike-trans none none q h k = k
Alike-trans none (some b) q h k = absurd h
Alike-trans (some a) none q h k = absurd h
Alike-trans (some a) (some b) none h k = absurd k
Alike-trans (some a) (some b) (some c) h k = Permᴰ.trans h k

all_of-Alike :
    (e : Option (Text × Text)) (o p : Option (List (Text × Text)))
    → Alike o p
    → Alike (all_of e o) (all_of e p)
all_of-Alike none o p h = tt
all_of-Alike (some e) none none h = tt
all_of-Alike (some e) none (some b) h = absurd h
all_of-Alike (some e) (some a) none h = absurd h
all_of-Alike (some e) (some a) (some b) h = Permᴰ.cons refl h

all_of_swap :
    (e f : Option (Text × Text)) (o : Option (List (Text × Text)))
    → Alike (all_of e (all_of f o)) (all_of f (all_of e o))
all_of_swap none none o = tt
all_of_swap none (some f) none = tt
all_of_swap none (some f) (some es) = tt
all_of_swap (some e) none o = tt
all_of_swap (some e) (some f) none = tt
all_of_swap (some e) (some f) (some es) = Permᴰ.swap refl refl

abbrev edge_of : List GraphNode → GraphEdge → Option (Text × Text)
edge_of nodes e =
    pair_of (present (hash_of e.from_run_id nodes)) (present (hash_of e.to_run_id nodes))

hashed_edges-Permᴰ :
    (nodes : List GraphNode) {es fs : List GraphEdge}
    → Permᴰ es fs
    → Alike (hashed_edges nodes es) (hashed_edges nodes fs)
unfolding hashed_edges
hashed_edges-Permᴰ nodes Permᴰ.nil = Permᴰ.nil
hashed_edges-Permᴰ nodes (Permᴰ.cons {b} e p) =
    rw e (all_of-Alike (edge_of nodes b) _ _ (hashed_edges-Permᴰ nodes p))
hashed_edges-Permᴰ nodes (Permᴰ.swap {a} {b} {a'} {b'} {l} e e') =
    rw (← e, ← e') (all_of_swap (edge_of nodes a) (edge_of nodes b) (hashed_edges nodes l))
hashed_edges-Permᴰ nodes (Permᴰ.trans {l₁} {l₂} {l₃} p q) =
    Alike-trans (hashed_edges nodes l₁) (hashed_edges nodes l₂) (hashed_edges nodes l₃)
      (hashed_edges-Permᴰ nodes p) (hashed_edges-Permᴰ nodes q)

hashed_edges-same :
    (nodes nodes' : List GraphNode) (es : List GraphEdge)
    → ((i : ℕ) → hash_of i nodes ≡ hash_of i nodes')
    → hashed_edges nodes es ≡ hashed_edges nodes' es
unfolding hashed_edges
hashed_edges-same nodes nodes' [] h = refl
hashed_edges-same nodes nodes' (e ∷ es) h =
    rw (h e.from_run_id, h e.to_run_id, hashed_edges-same nodes nodes' es h) refl

sorted-Alike :
    (o p : Option (List (Text × Text)))
    → Alike o p
    → Option.map (sorted edge_le) o ≡ Option.map (sorted edge_le) p
sorted-Alike none none h = refl
sorted-Alike none (some b) h = absurd h
sorted-Alike (some a) none h = absurd h
sorted-Alike (some a) (some b) h = ap some (sorted-Perm edge_le edge_order h)

-- The identity of a graph whose run ids are all different, and whether it has one, does not depend
-- on the order in which its nodes and its edges are given.
pub build_graph_identity_hash-Permᴰ :
    (hash_policy : GraphPolicyDescriptor → Text)
    (hash_material : ExecutionGraphIdentityMaterial → Text) (policy : GraphPolicyDescriptor)
    (nodes nodes' : List GraphNode) (edges edges' : List GraphEdge)
    → unique (ids_of nodes) ≡ true
    → Permᴰ nodes nodes'
    → Permᴰ edges edges'
    → build_graph_identity_hash hash_policy hash_material policy nodes edges
      ≡ build_graph_identity_hash hash_policy hash_material policy nodes' edges'
unfolding build_graph_identity_hash build_graph_identity_material canonicalize_nodes
    canonicalize_edges
build_graph_identity_hash-Permᴰ hash_policy hash_material policy nodes nodes' edges edges' u p q =
    let ns = sorted-Perm text_le text_order (Permᴰ-hashes p) in
    let es =
      sorted-Alike (hashed_edges nodes edges) (hashed_edges nodes edges')
        (hashed_edges-Permᴰ nodes q) in
    let es' =
      ap (λ o. Option.map (sorted edge_le) o)
        (hashed_edges-same nodes nodes' edges' (λ i. hash_of-Permᴰ i p u)) in
    rw (ns, es ∙ es') refl

abbrev pub renamed : (ℕ → ℕ) → GraphNode → GraphNode
renamed f n = record n { run_id = f n.run_id }

abbrev pub renamed_edge : (ℕ → ℕ) → GraphEdge → GraphEdge
renamed_edge f e = record { from_run_id = f e.from_run_id; to_run_id = f e.to_run_id }

-- A renaming that keeps run ids apart.
abbrev pub KeepsApart : (ℕ → ℕ) → Type 0
KeepsApart f = (i j : ℕ) → f i ≡ f j → i ≡ j

same_test : (f : ℕ → ℕ) → KeepsApart f → (i j : ℕ) → (f i == f j) ≡ (i == j)
same_test f keeps i j = elim (Bool-cases (i == j)) [
  | inl it ↦ (==_iff (f i) (f j)).1 (ap f ((==_iff i j).0 it)) ∙ sym it
  | inr other ↦ elim (Bool-cases (f i == f j)) [
    | inr other' ↦ other' ∙ sym other
    | inl it ↦ absurd (cc (sym other ∙ (==_iff i j).1 (keeps i j ((==_iff (f i) (f j)).0 it))))
  ]
]

module _ (f : ℕ → ℕ) (keeps : KeepsApart f) where
  hash_of-renamed :
      (i : ℕ) (nodes : List GraphNode) → hash_of (f i) (map (renamed f) nodes) ≡ hash_of i nodes
  unfolding hash_of
  hash_of-renamed i [] = refl
  hash_of-renamed i (n ∷ ns) = rw (hash_of-renamed i ns, same_test f keeps n.run_id i) refl

  hashed_edges-renamed :
      (nodes : List GraphNode) (es : List GraphEdge)
      → hashed_edges (map (renamed f) nodes) (map (renamed_edge f) es) ≡ hashed_edges nodes es
  unfolding hashed_edges
  hashed_edges-renamed nodes [] = refl
  hashed_edges-renamed nodes (e ∷ es) =
      rw
        (
          hash_of-renamed e.from_run_id nodes,
          hash_of-renamed e.to_run_id nodes,
          hashed_edges-renamed nodes es,
        )
        refl

  hashes-renamed :
      (nodes : List GraphNode)
      → map (λ n. n.execution_identity_hash) (map (renamed f) nodes)
        ≡ map (λ n. n.execution_identity_hash) nodes
  hashes-renamed [] = refl
  hashes-renamed (n ∷ ns) = rw (hashes-renamed ns) refl

-- The identity of a graph does not depend on its run ids: when each is replaced, different ids by
-- different ones, in the nodes and the edges, the hash stays the same.
pub build_graph_identity_hash-renamed :
    (hash_policy : GraphPolicyDescriptor → Text)
    (hash_material : ExecutionGraphIdentityMaterial → Text) (policy : GraphPolicyDescriptor)
    (nodes : List GraphNode) (edges : List GraphEdge) (f : ℕ → ℕ)
    → KeepsApart f
    → build_graph_identity_hash hash_policy hash_material policy
        (map (renamed f) nodes)
        (map (renamed_edge f) edges)
      ≡ build_graph_identity_hash hash_policy hash_material policy nodes edges
unfolding build_graph_identity_hash build_graph_identity_material canonicalize_nodes
    canonicalize_edges
build_graph_identity_hash-renamed hash_policy hash_material policy nodes edges f keeps =
    rw (hashes-renamed f keeps nodes, hashed_edges-renamed f keeps nodes edges) refl
