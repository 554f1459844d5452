-- ===== src/GraphIdentity/Acyclic.antt =====
-- The test for cycles as a whole (agent/graph-identity.ts `validateGraphAcyclic`).
use deeprun.Prelude.{
  ℕ, zero, suc, ◌+◌, ◌≤◌, ◌<◌, ◌≡◌, ◌⊎◌, refl, ap, ◌∙◌, true, false, ◌||◌, ◌==◌, ==_iff, ==_refl,
  List, [], ◌∷◌, All, arith, length, Bool-cases, inl, inr, some,
}
use deeprun.GraphIdentity.Model.{
  GraphNode, GraphEdge, has, adjacent, Degree, get_degree, process, zero_degrees, count_edges,
  roots, validate_graph_acyclic, ids_of,
}
use deeprun.GraphIdentity.Repeats.{unique, unique-length, has_head}
use deeprun.GraphIdentity.Walks.{
  remaining, Between, Waits, Cyclic, Acyclic, unique-cons, remaining-Waits, Ordered-Acyclic,
  walk_back,
}
use deeprun.GraphIdentity.Degrees.{
  distinct, keys, length-keys, get-zero_degrees, has-zero_degrees, unique-zero_degrees,
  get-count_edges, has-count_edges, count_edges-inside, unique-count_edges, unique-roots, has-roots,
}
use deeprun.GraphIdentity.Kahn.{Round, has_tail, next-Round, next_degrees, next_queue}

module _ (ids : List ℕ) (edges : List GraphEdge) (given : distinct edges ≡ true)
    (between : Between ids edges) where
  -- With fuel for the nodes that are left, the loop ends with an empty queue.
  abbrev Ends : ℕ → List Degree → List ℕ → List ℕ → Type 0
  Ends fuel ds queue done =
      (done' : List ℕ) × ((process (adjacent ids edges) fuel ds queue (length done)
          ≡ some (length done'))
        × ((ds' : List Degree) × Round ids edges ds' [] done'))

  process-Ends :
      (fuel : ℕ) (ds : List Degree) (queue done : List ℕ)
      → Round ids edges ds queue done
      → length ids < fuel + length done
      → Ends fuel ds queue done
  unfolding process
  process-Ends fuel ds [] done h enough = (done, (refl, (ds, h)))
  process-Ends zero ds (c ∷ queue) done h enough =
      let short = unique-length done ids h.done_unique h.done_inside in
      absurd (omega (arith, short, enough))
  process-Ends (suc fuel) ds (c ∷ queue) done h enough =
      let ds' = next_degrees ids edges given ds c queue done h in
      let queue' = next_queue ids edges given ds c queue done h in
      let h' = next-Round ids edges given ds c queue done h between in
      let (done', (e, rest)) = process-Ends fuel ds' queue' (c ∷ done) h' (omega (arith, enough)) in
      let count : length done + 1 ≡ length (c ∷ done) = omega arith in
      (done', (ap (process (adjacent ids edges) fuel ds' queue') count ∙ e, rest))

  -- At the end either every node is processed, or the others wait for each other.
  all_done :
      (ds : List Degree) (done : List ℕ)
      → Round ids edges ds [] done
      → length ids ≤ length done
      → Acyclic edges
  all_done ds done h full = Ordered-Acyclic edges ids done between h.order (λ v m.
      elim (Bool-cases (has v done)) [
        | inl there ↦ there
        | inr away ↦
            let short =
              unique-length (v ∷ done) ids (unique-cons v done away h.done_unique)
                (m, h.done_inside) in
            absurd (omega (arith, short, full))
      ])

  waiting :
      (ds : List Degree) (done : List ℕ)
      → Round ids edges ds [] done
      → (v : ℕ) → has v ids ≡ true
      → has v done ≡ false
      → Waits ids edges done v
  unfolding has
  waiting ds done h v m away =
      let was = h.ready v m in remaining-Waits ids done edges v between (ground (arith, was, away))

  one_waits :
      (ds : List Degree) (done : List ℕ)
      → Round ids edges ds [] done
      → (v : ℕ) → has v ids ≡ true
      → has v done ≡ false
      → Cyclic edges
  unfolding unique has
  one_waits ds done h v m away =
      walk_back (length ids) edges ids done v [] (waiting ds done h) refl (m, tt) away tt
        (omega arith)

All-or_one :
    (xs ys : List ℕ)
    → All (λ v. has v ys ≡ true) xs ⊎ ((v : ℕ) × ((has v xs ≡ true) × (has v ys ≡ false)))
unfolding has
All-or_one [] ys = inl tt
All-or_one (x ∷ xs) ys = elim (Bool-cases (has x ys)) [
  | inr away ↦ inr (x, (rw (==_refl x) refl, away))
  | inl there ↦ elim (All-or_one xs ys) [
    | inl rest ↦ inl (there, rest)
    | inr (v, (m, away)) ↦ inr (v, (ground (arith, m), away))
  ]
]

length-ids : (nodes : List GraphNode) → length (ids_of nodes) ≡ length nodes
length-ids [] = refl
length-ids (n ∷ ns) = omega (arith, length-ids ns)

All-to :
    (ids : List ℕ) (edges : List GraphEdge)
    → Between ids edges
    → All (λ e. has e.to_run_id ids ≡ true) edges
All-to ids [] h = tt
All-to ids (e ∷ es) (h, hs) = (h.1, All-to ids es hs)

All-node : {P : ℕ → Type 0} (xs : List ℕ) → ((v : ℕ) → has v xs ≡ true → P v) → All P xs
All-node [] h = tt
All-node (x ∷ xs) h = (h x (has_head x xs), All-node xs (λ v m. h v (has_tail v x xs m)))

module _ (nodes : List GraphNode) (edges : List GraphEdge)
    (ids_unique : unique (ids_of nodes) ≡ true) (given : distinct edges ≡ true)
    (between : Between (ids_of nodes) edges) where
  abbrev ids : List ℕ
  ids = ids_of nodes

  abbrev first : List Degree
  first = count_edges edges (zero_degrees nodes [])

  first_keys : unique (keys first) ≡ true
  unfolding unique
  first_keys = unique-count_edges edges (zero_degrees nodes []) (unique-zero_degrees nodes [] refl)

  key-node : (v : ℕ) → has v (keys first) ≡ true → has v ids ≡ true
  unfolding has
  key-node =
      count_edges-inside (λ v. has v ids ≡ true) edges (zero_degrees nodes [])
        (All-to ids edges between)
        (λ v m. let e = has-zero_degrees v nodes [] in ground (arith, e, m))

  node-key : (v : ℕ) → has v ids ≡ true → has v (keys first) ≡ true
  unfolding has
  node-key v m =
      has-count_edges v edges (zero_degrees nodes [])
        (let e = has-zero_degrees v nodes [] in ground (arith, e, m))

  first-degrees : (v : ℕ) → get_degree v first ≡ remaining edges [] v
  unfolding get_degree
  first-degrees v =
      let count = get-count_edges v edges (zero_degrees nodes []) in
      let start = get-zero_degrees v nodes [] refl in omega (arith, count, start)

  first-ready :
      (v : ℕ) → has v ids ≡ true → (has v (roots first) || has v []) ≡ (remaining edges [] v == 0)
  unfolding has
  first-ready v m =
      let e = has-roots v first first_keys in
      let key = node-key v m in let degree = first-degrees v in rw (e, key, degree) (ground arith)

  first_inside : (v : ℕ) → has v (roots first) ≡ true → has v ids ≡ true
  first_inside v m = let e = has-roots v first first_keys in key-node v (ground (arith, e, m))

  first-Round : Round ids edges first (roots first) []
  unfolding unique has
  first-Round = record {
    degrees = first-degrees;
    ready = first-ready;
    queue_inside = first_inside;
    done_inside = tt;
    queue_unique = unique-roots first first_keys;
    done_unique = refl;
    apart = λ v m. refl;
    order = tt;
  }

  abbrev no_ids : List ℕ
  no_ids = []

  enough_fuel : length ids < length first + 1 + length no_ids
  enough_fuel =
      let bound = unique-length ids (keys first) ids_unique (All-node ids (λ v m. node-key v m)) in
      let count = length-keys first in omega (arith, bound, count)

-- For a graph whose run ids and edges are without repetition and whose edges lead from node to
-- node, the test always answers: true where no walk along the edges is closed, and false where one
-- is.
pub validate_graph_acyclic-Exact :
    (nodes : List GraphNode) (edges : List GraphEdge)
    → unique (ids_of nodes) ≡ true
    → distinct edges ≡ true
    → Between (ids_of nodes) edges
    → ((validate_graph_acyclic nodes edges ≡ some true) × Acyclic edges)
      ⊎ ((validate_graph_acyclic nodes edges ≡ some false) × Cyclic edges)
unfolding validate_graph_acyclic
validate_graph_acyclic-Exact nodes edges ids_unique given between =
    let ids = ids_of nodes in
    let start = first-Round nodes edges ids_unique given between in
    let fuel = enough_fuel nodes edges ids_unique given between in
    let (done, (e, (ds, h))) = process-Ends ids edges given between _ _ _ [] start fuel in
    let size = length-ids nodes in
    elim (All-or_one ids done) [
      | inl every ↦
          let above = unique-length ids done ids_unique every in
          let below = unique-length done ids h.done_unique h.done_inside in
          let same : (length done == length nodes) ≡ true =
            (==_iff (length done) (length nodes)).1 (omega (arith, above, below, size)) in
          inl
            (rw e (ap some same), all_done ids edges given between ds done h (omega (arith, above)))
      | inr (v, (m, away)) ↦
          let short =
            unique-length (v ∷ done) ids (unique-cons v done away h.done_unique)
              (m, h.done_inside) in
          let other : (length done == length nodes) ≡ false = ground (arith, short, size) in
          inr (rw e (ap some other), one_waits ids edges given between ds done h v m away)
    ]
