-- ===== src/ImportGraph/Model.antt =====
-- The detection of import cycles (agent/validation/graph-builder.ts `detectCycles` and the functions
-- on cycles before it). The search recurs on fuel; `none` says that the fuel ran out.
use deeprun.Prelude.{
  ℕ, zero, suc, Bool, true, false, ◌&&◌, List, [], ◌∷◌, ◌++◌, map, Option, none, some, Text, codes,
  text_eq, length, filter, if◌then◌else◌,
}

pub record GraphNode : Type 0 where
  pub id : Text
  pub absolute_path : Text
  pub relative_path : Text
  pub module_name : Option Text
  pub layer : Option Text

pub record GraphEdge : Type 0 where
  pub from : Text
  pub to : Text
  pub import_path : Text

-- localeCompare: `a` stands before `b`, or before or beside it.
pub record Collation : Type 0 where
  pub lt : Text → Text → Bool
  pub le : Text → Text → Bool

unfoldable pub member : Text → List Text → Bool
member x [] = false
member x (y ∷ ys) = if text_eq x y then true else member x ys

-- `Set.add` and `Set.delete`.
unfoldable pub add : Text → List Text → List Text
add x ys = if member x ys then ys else x ∷ ys

unfoldable pub delete : Text → List Text → List Text
delete x [] = []
delete x (y ∷ ys) = let rest = delete x ys in if text_eq x y then rest else y ∷ rest

-- A stable sort by a key.
abbrev pub insert_by {ℓ} : {A : Type ℓ} → (A → A → Bool) → A → List A → List A
insert_by le x [] = x ∷ []
insert_by le x (y ∷ ys) = let rest = insert_by le x ys in if le x y then x ∷ y ∷ ys else y ∷ rest

abbrev pub sort_by {ℓ} : {A : Type ℓ} → (A → A → Bool) → List A → List A
sort_by le [] = []
sort_by le (x ∷ xs) = insert_by le x (sort_by le xs)

-- `cycle.join(" -> ")`
unfoldable pub summarize_cycle : List Text → Text
summarize_cycle [] = []
summarize_cycle (x ∷ []) = x
summarize_cycle (x ∷ y ∷ ys) = x ++ (codes " -> " ++ summarize_cycle (y ∷ ys))

-- Is the text the last of the list?
abbrev pub ends_in : Text → List Text → Bool
ends_in x [] = false
ends_in x (y ∷ []) = text_eq x y
ends_in x (y ∷ z ∷ zs) = ends_in x (z ∷ zs)

unfoldable pub without_last : List Text → List Text
without_last [] = []
without_last (x ∷ []) = []
without_last (x ∷ y ∷ ys) = x ∷ without_last (y ∷ ys)

unfoldable pub normalize_cycle_nodes : List Text → List Text
normalize_cycle_nodes [] = []
normalize_cycle_nodes (x ∷ []) = x ∷ []
normalize_cycle_nodes (x ∷ y ∷ ys) =
    if ends_in x (y ∷ ys) then without_last (x ∷ y ∷ ys) else x ∷ y ∷ ys

-- The rotations by 1, 2, …: `rotate done rest` is `base.slice(offset).concat(base.slice(0, offset))`
-- with `offset` texts in `done`.
unfoldable pub best_rotation : Collation → List Text → List Text → List Text → List Text
best_rotation order best done [] = best
best_rotation order best done (x ∷ rest) =
    let rotated = x ∷ rest ++ done in
    let better = order.lt (summarize_cycle rotated) (summarize_cycle best) in
    best_rotation order (if better then rotated else best) (done ++ x ∷ []) rest

abbrev pub close : List Text → List Text
close [] = []
close (x ∷ xs) = x ∷ xs ++ x ∷ []

abbrev pub rotations : Collation → List Text → List Text
rotations order [] = []
rotations order (x ∷ xs) = best_rotation order (x ∷ xs) (x ∷ []) xs

unfoldable pub canonicalize_cycle : Collation → List Text → List Text
canonicalize_cycle order cycle = close (rotations order (normalize_cycle_nodes cycle))

-- The targets of the edges from a node that stay within the graph, sorted.
abbrev pub leaves : List Text → Text → GraphEdge → Bool
leaves ids x e = text_eq x e.from && member e.from ids && member e.to ids

unfoldable pub adjacent : Collation → List Text → List GraphEdge → Text → List Text
adjacent order ids edges x = sort_by order.le (map (λ e. e.to) (filter (leaves ids x) edges))

-- The sets and lists of the search; the stack has its top first.
pub record Search : Type 0 where
  pub visiting : List Text
  pub visited : List Text
  pub stack : List Text
  pub cycles : List (List Text)
  pub dedupe : List Text

-- `stack.slice(startIndex)` from the topmost `next`, bottom first; `none` where it is not there.
unfoldable pub slice_from : Text → List Text → List Text → Option (List Text)
slice_from next done [] = none
slice_from next done (t ∷ stack) =
    if text_eq next t then some (t ∷ done) else slice_from next (t ∷ done) stack

abbrev pub add_cycle : List Text → Text → Search → Search
add_cycle canonical key s =
    if member key s.dedupe
    then s
    else record s { dedupe = key ∷ s.dedupe; cycles = s.cycles ++ canonical ∷ [] }

abbrev pub report_slice : Collation → Text → Option (List Text) → Search → Search
report_slice order next none s = s
report_slice order next (some slice) s =
    let canonical = canonicalize_cycle order (slice ++ next ∷ []) in
    add_cycle canonical (summarize_cycle canonical) s

unfoldable pub report : Collation → Text → Search → Search
report order next s = report_slice order next (slice_from next [] s.stack) s

unfoldable pub enter : Text → Search → Search
enter x s = record s { visiting = add x s.visiting; stack = x ∷ s.stack }

abbrev pub pop : List Text → List Text
pop [] = []
pop (t ∷ stack) = stack

unfoldable pub leave : Text → Search → Search
leave x s = record s {
  stack = pop s.stack;
  visiting = delete x s.visiting;
  visited = add x s.visited;
}

-- The body of the loop over the neighbours, with the recursive call `dfs`.
unfoldable pub visit : Collation → (Text → Search → Option Search) → Text → Search → Option Search
visit order dfs next s = elim (member next s.visiting) [
  | true ↦ some (report order next s)
  | false ↦ elim (member next s.visited) [ true ↦ some s | false ↦ dfs next s ]
]

abbrev pub then_visit : Option Search → (Search → Option Search) → Option Search
then_visit none f = none
then_visit (some s) f = f s

unfoldable pub visit_all :
    Collation → (Text → Search → Option Search) → List Text → Search → Option Search
visit_all order dfs [] s = some s
visit_all order dfs (n ∷ ns) s = then_visit (visit order dfs n s) (visit_all order dfs ns)

unfoldable pub dfs : Collation → (Text → List Text) → ℕ → Text → Search → Option Search
dfs order adjacency zero x s = none
dfs order adjacency (suc fuel) x s =
    then_visit (visit_all order (dfs order adjacency fuel) (adjacency x) (enter x s))
      (λ s'. some (leave x s'))

-- The loop over the nodes.
unfoldable pub visit_nodes : (Text → Search → Option Search) → List Text → Search → Option Search
visit_nodes search [] s = some s
visit_nodes search (x ∷ xs) s =
    then_visit (elim (member x s.visited) [ true ↦ some s | false ↦ search x s ])
      (visit_nodes search xs)

abbrev pub start : Search
start = record { visiting = []; visited = []; stack = []; cycles = []; dedupe = [] }

abbrev pub ids_of : List GraphNode → List Text
ids_of nodes = map (λ n. n.id) nodes

abbrev pub sorted_cycles : Collation → Option Search → Option (List (List Text))
sorted_cycles order none = none
sorted_cycles order (some s) =
    some (sort_by (λ a b. order.le (summarize_cycle a) (summarize_cycle b)) s.cycles)

-- As deep as there are nodes, and one level more.
unfoldable pub detect_cycles :
    Collation → List GraphNode → List GraphEdge → Option (List (List Text))
detect_cycles order nodes edges =
    let ids = ids_of nodes in
    sorted_cycles order
      (visit_nodes (dfs order (adjacent order ids edges) (suc (length ids))) ids start)
