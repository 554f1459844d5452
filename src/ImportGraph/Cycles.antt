-- ===== src/ImportGraph/Cycles.antt =====
-- The whole detection: it ends, it reports closed walks only, and it reports none exactly where the
-- graph has none (agent/validation/graph-builder.ts `detectCycles`).
use deeprun.Prelude.{
  Chain, ℕ, suc, ◌≤◌, ◌<◌, ◌≡◌, refl, sym, ap, ◌∙◌, ◌↔◌, Bool, true, false, ◌&&◌, List, [], ◌∷◌,
  ◌++◌, map, filter, Option, some, Text, arith, All, Bool-cases, inl, inr, if◌then◌else◌, length,
  text_eq, text_eq_iff, text_eq→eq,
}
use mathlib.Core.Path.{subst, fun_ext}
use deeprun.ImportGraph.Model.{
  Collation, GraphNode, GraphEdge, member, Search, dfs, visit_nodes, start, ids_of, leaves,
  adjacent, sort_by, sorted_cycles, detect_cycles, summarize_cycle,
}
use deeprun.ImportGraph.Walks.{IsCycle, Linked}
use deeprun.ImportGraph.Sets.{
  member_head, member-cons, free-le-length, sort_by-All, sort_by-nil, member-sort_by,
}
use deeprun.ImportGraph.Search.{
  linking, Ordered, Inv, After, After-refl, After-trans, Enough, dfs-Enough,
}

-- An edge of the graph: between nodes of it.
unfoldable pub is_edge : List Text → List GraphEdge → Text → Text → Bool
is_edge ids [] x y = false
is_edge ids (e ∷ es) x y = if leaves ids x e && text_eq y e.to then true else is_edge ids es x y

is_edge-member :
    (ids : List Text) (edges : List GraphEdge) (x y : Text)
    → member y (map (λ e. e.to) (filter (leaves ids x) edges)) ≡ is_edge ids edges x y
unfolding is_edge member
is_edge-member ids [] x y = refl
is_edge-member ids (e ∷ es) x y = ground (arith, is_edge-member ids es x y)

-- How far from the end a node last stands.
unfoldable rank : Text → List Text → ℕ
rank y [] = 0
rank y (v ∷ vs) = if member y vs then rank y vs else if text_eq y v then suc (length vs) else 0

rank-le : (y : Text) (vs : List Text) → rank y vs ≤ length vs
unfolding rank
rank-le y [] = omega arith
rank-le y (v ∷ vs) = ground (arith, rank-le y vs)

All-member :
    (w : Text) (xs us : List Text)
    → All (λ y. member y us ≡ true) xs
    → member w xs ≡ true
    → member w us ≡ true
unfolding member
All-member w [] us h m = ground arith
All-member w (x ∷ xs) us h m = elim (Bool-cases (text_eq w x)) [
  | inl e ↦ rw (text_eq→eq w x e) h.0
  | inr e ↦ All-member w xs us h.1 (rw e at m)
]

module _ (order : Collation) (adjacency : Text → List Text) (ids : List Text) where
  -- An edge from a node of an ordered list leads further back in it.
  Ordered-rank :
      (vs : List Text)
      → Ordered order adjacency ids vs
      → (v w : Text) → member v vs ≡ true
      → linking order adjacency ids v w ≡ true
      → (member w vs ≡ true) × (rank w vs < rank v vs)
  unfolding rank member
  Ordered-rank [] h v w m edge = absurd (cc m)
  Ordered-rank (u ∷ us) h v w m edge = elim (Bool-cases (member v us)) [
    | inl inside ↦
        let (k, less) = Ordered-rank us h.1 v w inside edge in rw inside (ground (arith, k, less))
    | inr outside ↦ elim (Bool-cases (text_eq v u)) [
      | inr other ↦ absurd (cc (sym outside ∙ (rw other at m)))
      | inl same ↦
          let edge' : member w (adjacency u) ≡ true =
            subst (λ i. member w (adjacency i) ≡ true) (text_eq→eq v u same) edge in
          let k = All-member w (adjacency u) us h.0 edge' in
          rw (outside, same) (ground (arith, k, rank-le w us))
    ]
  ]

  Chain-rank :
      (vs : List Text)
      → Ordered order adjacency ids vs
      → (x : Text) (xs : List Text) (y : Text) → member x vs ≡ true
      → Chain (linking order adjacency ids) x (xs ++ y ∷ [])
      → (member y vs ≡ true) × (rank y vs < rank x vs)
  Chain-rank vs h x [] y m (edge, _) = Ordered-rank vs h x y m edge
  Chain-rank vs h x (z ∷ xs) y m (edge, rest) =
      let (k, less) = Ordered-rank vs h x z m edge in
      let (l, more) = Chain-rank vs h z xs y k rest in (l, omega (arith, less, more))

  -- The nodes visited from a fresh search.
  abbrev AllVisited : List Text → Search → Option Search → Type 0
  AllVisited xs s o =
      (s' : Search) × ((o ≡ some s')
        × (After order adjacency ids s s' × All (λ n. member n s'.visited ≡ true) xs))

  off_empty :
      (s : Search)
      → Inv order adjacency ids s
      → s.stack ≡ []
      → (x : Text) → member x s.visiting ≡ false
  unfolding member
  off_empty s h e x = ap (member x) (h.same ∙ e)

  visit_nodes_lem :
      (fuel : ℕ)
      → Enough order adjacency ids fuel
      → length ids < fuel
      → (xs : List Text) → (s : Search) → Inv order adjacency ids s
      → s.stack ≡ []
      → All (λ x. member x ids ≡ true) xs
      → AllVisited xs s (visit_nodes (dfs order adjacency fuel) xs s)
  unfolding visit_nodes
  visit_nodes_lem fuel enough room [] s h e known =
      (s, (refl, (After-refl order adjacency ids s h, tt)))
  visit_nodes_lem fuel enough room (x ∷ xs) s h e known = elim (Bool-cases (member x s.visited)) [
    | inl seen ↦
        let (s', (run, (a, all_seen))) = visit_nodes_lem fuel enough room xs s h e known.1 in
        rw (seen, visit_nodes) (s', (run, (a, (a.visited x seen, all_seen))))
    | inr unseen ↦
        let within = free-le-length s.visiting s.visited ids in
        let (s1, (run, (a, seen))) =
          enough x s h (subst (λ l. Linked (linking order adjacency ids) (x ∷ l)) (sym e) tt)
            (off_empty s h e x) unseen known.0 (omega (arith, within, room)) in
        let (s2, (run', (b, all_seen))) =
          visit_nodes_lem fuel enough room xs s1 a.inv (a.stack ∙ e) known.1 in
        rw (unseen, run, visit_nodes)
          (s2, (run', (After-trans order adjacency ids s s1 s2 a b, (b.visited x seen, all_seen))))
  ]

-- No walk along the edges comes back to where it began.
abbrev pub Acyclic : (Text → Text → Bool) → Type 0
Acyclic R = (x : Text) (xs : List Text) → Chain R x (xs ++ x ∷ []) → ⊥

-- The cycles are closed walks, and there are none exactly if the graph has no closed walk.
abbrev pub Exact : (Text → Text → Bool) → List (List Text) → Type 0
Exact R cycles = All (IsCycle R) cycles × ((cycles ≡ []) ↔ Acyclic R)

module _ (order : Collation) (ids : List Text) (edges : List GraphEdge) where
  abbrev targets : Text → List Text
  targets = adjacent order ids edges

  linking-is_edge : linking order targets ids ≡ is_edge ids edges
  unfolding adjacent
  linking-is_edge = fun_ext (λ x. fun_ext (λ y.
      member-sort_by order.le y (map (λ e. e.to) (filter (leaves ids x) edges))
      ∙ is_edge-member ids edges x y))

  is_edge-known :
      (es : List GraphEdge) (x y : Text)
      → is_edge ids es x y ≡ true
      → (member x ids ≡ true) × (member y ids ≡ true)
  unfolding is_edge
  is_edge-known [] x y h = ground arith
  is_edge-known (e ∷ es) x y h =
      ground (arith, is_edge-known es x y, text_eq_iff x e.from, text_eq_iff y e.to)

  linking-known :
      (x y : Text)
      → linking order targets ids x y ≡ true
      → (member x ids ≡ true) × (member y ids ≡ true)
  linking-known x y h = is_edge-known edges x y (subst (λ R. R x y ≡ true) linking-is_edge h)

  members :
      (xs : List Text)
      → ((y : Text) → member y xs ≡ true → member y ids ≡ true)
      → All (λ x. member x ids ≡ true) xs
  members [] h = tt
  members (x ∷ xs) h = (h x (member_head x xs), members xs (λ y m. h y (member-cons y x xs m)))

  Acyclic-of_none :
      (s : Search)
      → Inv order targets ids s
      → All (λ n. member n s.visited ≡ true) ids
      → s.cycles ≡ []
      → Acyclic (linking order targets ids)
  Acyclic-of_none s inv seen none_found x xs chain =
      let known = (first_known xs chain) in
      let m = All-member x ids s.visited seen known in
      let (_, less) =
        Chain-rank order targets ids s.visited (inv.ordered none_found) x xs x m chain in
      absurd (omega (arith, less))
    where
      first_known :
          (ys : List Text)
          → Chain (linking order targets ids) x (ys ++ x ∷ [])
          → member x ids ≡ true
      first_known [] h = (linking-known x x h.0).0
      first_known (y ∷ ys) h = (linking-known x y h.0).0

none_of_Acyclic :
    (R : Text → Text → Bool) (cycles : List (List Text))
    → All (IsCycle R) cycles
    → Acyclic R
    → cycles ≡ []
none_of_Acyclic R [] h acyclic = refl
none_of_Acyclic R (c ∷ cs) ((x, (xs, (e, chain))), rest) acyclic = absurd (acyclic x xs chain)

start-Inv :
    (order : Collation) (adjacency : Text → List Text) (ids : List Text)
    → Inv order adjacency ids start
start-Inv order adjacency ids = record {
  linked = tt;
  same = refl;
  sound = tt;
  keys = λ e. refl;
  ordered = λ e. tt;
}

-- The detection always ends; what it reports are closed walks along edges between nodes of the
-- graph, and it reports none exactly if the graph has no closed walk.
pub detect_cycles-Exact :
    (order : Collation) (nodes : List GraphNode) (edges : List GraphEdge)
    → (cycles : List (List Text)) × ((detect_cycles order nodes edges ≡ some cycles)
        × Exact (is_edge (ids_of nodes) edges) cycles)
unfolding detect_cycles
detect_cycles-Exact order nodes edges =
    let ids = ids_of nodes in
    let adjacency = adjacent order ids edges in
    let by_summary = λ (a b : List Text). order.le (summarize_cycle a) (summarize_cycle b) in
    let (s, (run, (a, seen))) =
      visit_nodes_lem order adjacency ids (suc (length ids))
        (dfs-Enough order adjacency ids (λ x y e. (linking-known order ids edges x y e).1)
          (suc (length ids)))
        (omega arith) ids start (start-Inv order adjacency ids) refl
        (members order ids edges ids (λ y m. m)) in
    let sound =
      sort_by-All by_summary (IsCycle (linking order adjacency ids)) s.cycles a.inv.sound in
    let exact : Exact (linking order adjacency ids) (sort_by by_summary s.cycles) = (
      sound,
      (
        (λ e. Acyclic-of_none order ids edges s a.inv seen (sort_by-nil by_summary s.cycles e)),
        none_of_Acyclic (linking order adjacency ids) (sort_by by_summary s.cycles) sound,
      ),
    ) in
    (
      sort_by by_summary s.cycles,
      (
        ap (sorted_cycles order) run,
        subst (λ R. Exact R (sort_by by_summary s.cycles)) (linking-is_edge order ids edges) exact,
      ),
    )
