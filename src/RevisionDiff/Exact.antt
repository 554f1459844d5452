-- ===== src/RevisionDiff/Exact.antt =====
-- A difference of revisions holds exactly what has changed (agent/graph-revision-diff.ts).
use mathlib.Core.Path.{subst}
use deeprun.Prelude.{
  ◌≡◌, refl, sym, ap, ◌∙◌, ◌↔◌, inl, inr, Bool, true, not, ==_iff, List, map, filter, All, some,
  Text, Bool-cases,
}
use deeprun.Correction.Prefixes.{In, filter-In, In-filter, unique_of-In, In-unique_of}
use deeprun.GraphIdentity.Identity.{text_le, edge_le}
use deeprun.RevisionDiff.Model.{
  GraphRevisionDiff, Revision, new_node, new_nodes, edge_key, edge_keys, has_key, split_key,
  new_edges, diff_of, build_graph_revision_diff,
}
use deeprun.RevisionDiff.Changes.{Among, HasNode, HasEdge, NoColon, sorted-Among, added_node}
use deeprun.RevisionDiff.Keys.{
  key, split_key-key, key-Keyed, HasEdge-key, known_key, Among-map, map-Among,
}

-- No hash of a node has a ":" in it.
abbrev pub Plain : Revision → Type 0
Plain r = All (λ n. NoColon n.execution_identity_hash) r.nodes

-- The edge is one of the revision and not of the old one, by the hashes of its ends.
abbrev pub NewEdge : Text → Text → Revision → Revision → Type 0
NewEdge a b old r = HasEdge a b r.nodes r.edges × (¬ (HasEdge a b old.nodes old.edges))

new_nodes-HasNode :
    (h : Text) (old r : Revision)
    → Among h (new_nodes old.nodes r.nodes) ↔ (HasNode h r.nodes × (¬ (HasNode h old.nodes)))
unfolding new_nodes
new_nodes-HasNode h old r =
    let (f, g) =
      sorted-Among text_le h
        (map (λ n. n.execution_identity_hash) (filter (new_node old.nodes) r.nodes)) in
    let (f', g') = added_node h old.nodes r.nodes in ((λ i. f' (f i)), (λ i. g (g' i)))

-- A key tells the ends of its edge.
same_ends :
    (a b a' b' : Text)
    → NoColon a × NoColon b
    → NoColon a' × NoColon b'
    → key a b ≡ key a' b'
    → (a ≡ a') × (b ≡ b')
same_ends a b a' b' (h, k) (h', k') e =
    let ends = sym (split_key-key a b h k) ∙ (ap split_key e ∙ split_key-key a' b' h' k') in
    (ap (λ p. p.0) ends, ap (λ p. p.1) ends)

HasEdge-subst :
    {a b a' b' : Text} (r : Revision)
    → (a ≡ a') × (b ≡ b')
    → HasEdge a b r.nodes r.edges
    → HasEdge a' b' r.nodes r.edges
HasEdge-subst r (e, e') i = rw (e, e') at i

-- The key is one of the revision exactly if the edge is.
edge_keys-HasEdge :
    (a b : Text) (r : Revision)
    → Plain r
    → NoColon a × NoColon b
    → In (key a b) (edge_keys r)
    → HasEdge a b r.nodes r.edges
edge_keys-HasEdge a b r plain free i =
    let (a', (b', (e, (free', edge)))) =
      key-Keyed r.nodes plain (key a b) r.edges
        (unique_of-In (key a b) (map (edge_key r.nodes) r.edges) i) in
    let (f, g) = same_ends a b a' b' free free' e in HasEdge-subst r (sym f, sym g) edge

HasEdge-edge_keys :
    (a b : Text) (r : Revision)
    → Plain r
    → HasEdge a b r.nodes r.edges
    → In (key a b) (edge_keys r) × (NoColon a × NoColon b)
HasEdge-edge_keys a b r plain edge =
    let (i, free) = HasEdge-key r.nodes plain a b r.edges edge in
    (In-unique_of (key a b) (map (edge_key r.nodes) r.edges) i, free)

unknown_key : (k : Text) (keys : List Text) → (not (has_key keys k) ≡ true) ↔ (¬ (In k keys))
unknown_key k keys =
    let (f, g) = known_key keys k in
    elim (Bool-cases (has_key keys k)) [
      | inl e ↦ rw e ((λ h. absurd (cc h)), (λ h. absurd (h (f e))))
      | inr e ↦ rw e ((λ h i. absurd (cc (sym e ∙ g i))), (λ h. refl))
    ]

module _ (a b : Text) (old r : Revision) (plain_old : Plain old) (plain : Plain r) where
  added_edge : Among (a, b) (new_edges old r) → NewEdge a b old r
  unfolding new_edges
  added_edge i =
      let p : Text → Bool = λ k. not (has_key (edge_keys old) k) in
      let (k, (j, at)) =
        Among-map (a, b) split_key (filter p (edge_keys r))
          ((sorted-Among edge_le (a, b) (map split_key (filter p (edge_keys r)))).0 i) in
      let (at_key, fresh) = filter-In p k (edge_keys r) j in
      let (a', (b', (e, (free, edge)))) =
        key-Keyed r.nodes plain k r.edges
          (unique_of-In k (map (edge_key r.nodes) r.edges) at_key) in
      let ends = at ∙ (ap split_key e ∙ split_key-key a' b' free.0 free.1) in
      let first : a ≡ a' = ap (λ q. q.0) ends in
      let second : b ≡ b' = ap (λ q. q.1) ends in
      (
        HasEdge-subst r (sym first, sym second) edge,
        (λ was. (unknown_key k (edge_keys old)).0 fresh (
            subst (λ t. In t (edge_keys old)) (sym e)
              (HasEdge-edge_keys a' b' old plain_old (HasEdge-subst old (first, second) was)).0)),
      )

  edge_added : NewEdge a b old r → Among (a, b) (new_edges old r)
  unfolding new_edges
  edge_added (edge, fresh) =
      let p : Text → Bool = λ k. not (has_key (edge_keys old) k) in
      let (i, free) = HasEdge-edge_keys a b r plain edge in
      (sorted-Among edge_le (a, b) (map split_key (filter p (edge_keys r)))).1 (
        map-Among (a, b) split_key (key a b) (filter p (edge_keys r))
          (In-filter p (key a b) (edge_keys r) i (
            (unknown_key (key a b) (edge_keys old)).1
              (λ j. fresh (edge_keys-HasEdge a b old plain_old free j))))
          (sym (split_key-key a b free.0 free.1)))

-- Two revisions of one graph, where no hash of a node has a ":" in it, have a difference. The nodes
-- added are exactly the hashes of the nodes after that no node before has, and the nodes removed are
-- those the other way round; the edges added are exactly the pairs of hashes that an edge after has
-- for its ends and no edge before, and the edges removed are those the other way round. The hash of
-- an end without a node is "undefined".
pub build_graph_revision_diff-Exact :
    (from to : Revision) (h a b : Text)
    → from.revision.graph_id ≡ to.revision.graph_id
    → Plain from
    → Plain to
    → (d : GraphRevisionDiff) × ((build_graph_revision_diff from to ≡ some d)
        × ((Among h d.nodes_added ↔ (HasNode h to.nodes × (¬ (HasNode h from.nodes))))
            × ((Among h d.nodes_removed ↔ (HasNode h from.nodes × (¬ (HasNode h to.nodes))))
                × ((Among (a, b) d.edges_added ↔ NewEdge a b from to)
                    × (Among (a, b) d.edges_removed ↔ NewEdge a b to from)))))
unfolding build_graph_revision_diff
build_graph_revision_diff-Exact from to h a b same plain plain' = (
  diff_of from to,
  (
    rw ((==_iff from.revision.graph_id to.revision.graph_id).1 same) refl,
    (
      new_nodes-HasNode h from to,
      (
        new_nodes-HasNode h to from,
        (
          (added_edge a b from to plain plain', edge_added a b from to plain plain'),
          (added_edge a b to from plain' plain, edge_added a b to from plain' plain),
        ),
      ),
    ),
  ),
)
