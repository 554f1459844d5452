-- ===== src/GraphIdentity/Walks.antt =====
-- Walks along the edges of a graph, and how its nodes can be ordered (agent/graph-identity.ts).
use deeprun.Prelude.{
  ℕ, zero, suc, ◌+◌, ◌≤◌, ◌<◌, ◌≡◌, refl, sym, ap, Bool, true, false, not, ◌&&◌, ◌==◌, ==_iff,
  ==_refl, List, [], ◌∷◌, ◌++◌, All, any, arith, length, Bool-cases, inl, inr, if◌then◌else◌, Chain,
}
use mathlib.Core.Path.{subst}
use deeprun.GraphIdentity.Model.{GraphEdge, has}
use deeprun.GraphIdentity.Repeats.{unique, unique-length}

abbrev pub goes : ℕ → ℕ → GraphEdge → Bool
goes x y e = e.from_run_id == x && e.to_run_id == y

unfoldable pub linked : List GraphEdge → ℕ → ℕ → Bool
linked edges x y = any (goes x y) edges

-- A closed walk along the edges, and the absence of one.
abbrev pub Cyclic : List GraphEdge → Type 0
Cyclic edges = (x : ℕ) × ((xs : List ℕ) × Chain (linked edges) x (xs ++ x ∷ []))

abbrev pub Acyclic : List GraphEdge → Type 0
Acyclic edges = (x : ℕ) (xs : List ℕ) → Chain (linked edges) x (xs ++ x ∷ []) → ⊥

-- The edges lead from one of the nodes to another.
abbrev pub Between : List ℕ → List GraphEdge → Type 0
Between ids edges = All (λ e. (has e.from_run_id ids ≡ true) × (has e.to_run_id ids ≡ true)) edges

abbrev pub one_if : Bool → ℕ
one_if true = 1
one_if false = 0

-- The edges into a node that come from none of the nodes that are done.
unfoldable pub remaining : List GraphEdge → List ℕ → ℕ → ℕ
remaining [] done v = 0
remaining (e ∷ es) done v =
    one_if (e.to_run_id == v && not (has e.from_run_id done)) + remaining es done v

-- Such an edge, when there is one.
abbrev pub Waits : List ℕ → List GraphEdge → List ℕ → ℕ → Type 0
Waits ids edges done v =
    (u : ℕ) × ((linked edges u v ≡ true) × ((has u done ≡ false) × (has u ids ≡ true)))

pub remaining-Waits :
    (ids done : List ℕ) (edges : List GraphEdge) (v : ℕ)
    → Between ids edges
    → 1 ≤ remaining edges done v
    → Waits ids edges done v
unfolding remaining linked
remaining-Waits ids done [] v h some_left = ground arith
remaining-Waits ids done (e ∷ es) v (h, hs) some_left =
    elim (Bool-cases (e.to_run_id == v && not (has e.from_run_id done))) [
      | inl it ↦ (e.from_run_id, (ground (arith, ==_refl e.from_run_id), (ground arith, h.0)))
      | inr other ↦
          let (u, (link, rest)) =
            remaining-Waits ids done es v hs (omega (arith, rw other at some_left)) in
          (u, (ground (arith, link), rest))
    ]

pub remaining-zero :
    (done : List ℕ) (edges : List GraphEdge) (u v : ℕ)
    → remaining edges done v ≡ 0
    → linked edges u v ≡ true
    → has u done ≡ true
unfolding remaining linked
remaining-zero done [] u v h link = ground arith
remaining-zero done (e ∷ es) u v h link = elim (Bool-cases (goes u v e)) [
  | inl it ↦
      let from : e.from_run_id ≡ u = ground (arith, ==_iff e.from_run_id u) in
      ground (arith, ap (λ x. has x done) from)
  | inr other ↦ remaining-zero done es u v (ground arith) (rw other at link)
]

-- Each node of the list has all edges into it from the nodes behind it.
abbrev pub Ordered : List GraphEdge → List ℕ → Type 0
Ordered edges [] = Unit
Ordered edges (p ∷ done) = (remaining edges done p ≡ 0) × Ordered edges done

unfoldable rank : ℕ → List ℕ → ℕ
rank v [] = 0
rank v (p ∷ ps) = if has v ps then rank v ps else if v == p then suc (length ps) else 0

rank-le : (v : ℕ) (ps : List ℕ) → rank v ps ≤ length ps
unfolding rank
rank-le v [] = omega arith
rank-le v (p ∷ ps) = ground (arith, rank-le v ps)

abbrev Before : List ℕ → ℕ → ℕ → Type 0
Before done u v = (has u done ≡ true) × (rank u done < rank v done)

has-cons : (x y : ℕ) (ys : List ℕ) → has x ys ≡ true → has x (y ∷ ys) ≡ true
unfolding has
has-cons x y ys h = ground arith

has_nothing : (x : ℕ) → has x [] ≡ true → ⊥
unfolding has
has_nothing x h = ground arith

pub has_first : (x y : ℕ) (ys : List ℕ) → has x ys ≡ false → has x (y ∷ ys) ≡ true → (x == y) ≡ true
unfolding has
has_first x y ys away h = ground arith

has_behind : (x y : ℕ) (ys : List ℕ) → (x == y) ≡ false → has x (y ∷ ys) ≡ true → has x ys ≡ true
unfolding has
has_behind x y ys other h = ground arith

pub unique-cons :
    (x : ℕ) (xs : List ℕ) → has x xs ≡ false → unique xs ≡ true → unique (x ∷ xs) ≡ true
unfolding unique
unique-cons x xs h u = rw (h, u) refl

Ordered-Before :
    (edges : List GraphEdge) (done : List ℕ) (u v : ℕ)
    → Ordered edges done
    → has v done ≡ true
    → linked edges u v ≡ true
    → Before done u v
unfolding rank
Ordered-Before edges [] u v h m link = absurd (has_nothing v m)
Ordered-Before edges (p ∷ ps) u v (h, hs) m link = elim (Bool-cases (has v ps)) [
  | inl behind ↦
      let (there, less) = Ordered-Before edges ps u v hs behind link in
      (has-cons u p ps there, rw (behind, there) less)
  | inr first ↦
      let same = has_first v p ps first m in
      let link' : linked edges u p ≡ true =
        subst (λ w. linked edges u w ≡ true) ((==_iff v p).0 same) link in
      let there = remaining-zero ps edges u p h link' in
      let bound = rank-le u ps in
      (has-cons u p ps there, rw (there, first, same) (omega (arith, bound)))
]

Chain-Before :
    (edges : List GraphEdge) (done : List ℕ)
    → Ordered edges done
    → (x : ℕ) (xs : List ℕ) (y : ℕ) → has y done ≡ true
    → Chain (linked edges) x (xs ++ y ∷ [])
    → Before done x y
Chain-Before edges done h x [] y m (link, _) = Ordered-Before edges done x y h m link
Chain-Before edges done h x (z ∷ zs) y m (link, rest) =
    let (there, less) = Chain-Before edges done h z zs y m rest in
    let (there', less') = Ordered-Before edges done x z h there link in
    (there', omega (arith, less, less'))

-- A node on a closed walk is linked to a node, so that it is one.
Chain-first :
    (edges : List GraphEdge) (ids : List ℕ)
    → Between ids edges
    → (x y : ℕ) → linked edges x y ≡ true
    → has x ids ≡ true
unfolding linked
Chain-first [] ids h x y link = ground arith
Chain-first (e ∷ es) ids ((from, to), hs) x y link = elim (Bool-cases (goes x y e)) [
  | inl it ↦
      let same : e.from_run_id ≡ x = ground (arith, ==_iff e.from_run_id x) in
      subst (λ v. has v ids ≡ true) same from
  | inr other ↦ Chain-first es ids hs x y (rw other at link)
]

starts_at_node :
    (edges : List GraphEdge) (ids : List ℕ)
    → Between ids edges
    → (x : ℕ) (xs : List ℕ) → Chain (linked edges) x (xs ++ x ∷ [])
    → has x ids ≡ true
starts_at_node edges ids h x [] (link, _) = Chain-first edges ids h x x link
starts_at_node edges ids h x (y ∷ ys) (link, _) = Chain-first edges ids h x y link

-- A graph whose nodes are all in order has no closed walk.
pub Ordered-Acyclic :
    (edges : List GraphEdge) (ids done : List ℕ)
    → Between ids edges
    → Ordered edges done
    → ((x : ℕ) → has x ids ≡ true → has x done ≡ true)
    → Acyclic edges
Ordered-Acyclic edges ids done between h all x xs walk =
    let (_, less) =
      Chain-Before edges done h x xs x (all x (starts_at_node edges ids between x xs walk)) walk in
    omega (arith, less)

-- A walk that comes back to a node holds a closed one.
comes_back :
    (edges : List GraphEdge) (x u : ℕ) (ws : List ℕ)
    → Chain (linked edges) x ws
    → has u ws ≡ true
    → (xs : List ℕ) × Chain (linked edges) x (xs ++ u ∷ [])
comes_back edges x u [] h m = absurd (has_nothing u m)
comes_back edges x u (w ∷ ws) (link, rest) m = elim (Bool-cases (u == w)) [
  | inl e ↦ ([], (subst (λ v. linked edges x v ≡ true) (sym ((==_iff u w).0 e)) link, tt))
  | inr e ↦
      let (xs, walk) = comes_back edges w u ws rest (has_behind u w ws e m) in
      (w ∷ xs, (link, walk))
]

-- Where every node that is not done waits for another, walking back closes a walk.
pub walk_back :
    (k : ℕ) (edges : List GraphEdge) (ids done : List ℕ) (w : ℕ) (ws : List ℕ)
    → ((v : ℕ) → has v ids ≡ true → has v done ≡ false → Waits ids edges done v)
    → unique (w ∷ ws) ≡ true
    → All (λ z. has z ids ≡ true) (w ∷ ws)
    → has w done ≡ false
    → Chain (linked edges) w ws
    → length ids < k + length (w ∷ ws)
    → Cyclic edges
walk_back zero edges ids done w ws waits u inside away chain long =
    let short = unique-length (w ∷ ws) ids u inside in absurd (omega (arith, short, long))
walk_back (suc k) edges ids done w ws waits u inside away chain long =
    let (v, (link, (away', inside'))) = waits w inside.0 away in
    elim (Bool-cases (has v (w ∷ ws))) [
      | inl back ↦ (v, comes_back edges v v (w ∷ ws) (link, chain) back)
      | inr new ↦
          walk_back k edges ids done v (w ∷ ws) waits (unique-cons v (w ∷ ws) new u)
            (inside', inside) away' (link, chain) (omega (arith, long))
    ]
