-- ===== src/ImportGraph/Search.antt =====
-- The invariant of the depth-first search, and what one search from a node leaves
-- (agent/validation/graph-builder.ts `dfs`).
use deeprun.Prelude.{
  ℕ, zero, suc, ◌≤◌, ◌<◌, ◌≡◌, refl, sym, ap, ◌∙◌, Bool, true, false, List, [], ◌∷◌, ◌++◌, Option,
  some, Text, arith, All, Bool-cases, inl, inr,
}
use mathlib.Core.Path.{subst}
use deeprun.ImportGraph.Model.{
  Collation, member, add, Search, slice_from, add_cycle, report_slice, report, enter, leave, pop,
  visit, visit_all, dfs, canonicalize_cycle, summarize_cycle, delete,
}
use deeprun.ImportGraph.Walks.{IsCycle, Linked, canonicalize_cycle-IsCycle, slice_from-Chain}
use deeprun.ImportGraph.Sets.{
  member_head, member-cons, member-add, member-add_other, delete-cons, free, free_mono, free-add,
}

module _ (order : Collation) (adjacency : Text → List Text) (ids : List Text) where
  -- There is an edge.
  abbrev pub linking : Text → Text → Bool
  linking x y = member y (adjacency x)

  -- Every node of the list has its targets behind it.
  abbrev pub Ordered : List Text → Type 0
  Ordered [] = Unit
  Ordered (v ∷ vs) = All (λ w. member w vs ≡ true) (adjacency v) × Ordered vs

  pub record Inv (s : Search) : Type 0 where
    pub linked : Linked linking s.stack
    pub same : s.visiting ≡ s.stack
    pub sound : All (IsCycle linking) s.cycles
    pub keys : s.cycles ≡ [] → s.dedupe ≡ []
    pub ordered : s.cycles ≡ [] → Ordered s.visited

  -- The stack is as before; visited nodes and cycles stay.
  pub record After (s s' : Search) : Type 0 where
    pub inv : Inv s'
    pub stack : s'.stack ≡ s.stack
    pub visited : (y : Text) → member y s.visited ≡ true → member y s'.visited ≡ true
    pub cycles : s'.cycles ≡ [] → s.cycles ≡ []

  pub After-refl : (s : Search) → Inv s → After s s
  After-refl s h = record { inv = h; stack = refl; visited = λ y m. m; cycles = λ e. e }

  pub After-trans : (s t u : Search) → After s t → After t u → After s u
  After-trans s t u h k = record {
    inv = k.inv;
    stack = k.stack ∙ h.stack;
    visited = λ y m. k.visited y (h.visited y m);
    cycles = λ e. h.cycles (k.cycles e);
  }

  All-append :
      (P : List Text → Type 0) (xs : List (List Text)) (y : List Text)
      → All P xs
      → P y
      → All P (xs ++ y ∷ [])
  All-append P [] y h k = (k, tt)
  All-append P (x ∷ xs) y h k = (h.0, All-append P xs y h.1 k)

  append-ne-nil : (xs : List (List Text)) (y : List Text) → ¬ ((xs ++ y ∷ []) ≡ [])
  append-ne-nil [] y e = cc
  append-ne-nil (x ∷ xs) y e = cc

  add_cycle-After :
      (cycle : List Text) (key : Text) (s : Search)
      → Inv s
      → IsCycle linking cycle
      → After s (add_cycle cycle key s) × (¬ ((add_cycle cycle key s).cycles ≡ []))
  unfolding member
  add_cycle-After cycle key s h c = elim (Bool-cases (member key s.dedupe)) [
    | inl e ↦
        rw e (After-refl s h, λ none_yet. absurd (cc (sym e ∙ ap (member key) (h.keys none_yet))))
    | inr e ↦ rw e (
      record {
        inv = record {
          linked = h.linked;
          same = h.same;
          sound = All-append (IsCycle linking) s.cycles cycle h.sound c;
          keys = λ n. absurd (append-ne-nil s.cycles cycle n);
          ordered = λ n. absurd (append-ne-nil s.cycles cycle n);
        };
        stack = refl;
        visited = λ y m. m;
        cycles = λ n. absurd (append-ne-nil s.cycles cycle n);
      },
      append-ne-nil s.cycles cycle,
    )
  ]

  pub report-After :
      (next t : Text) (rest : List Text) (s : Search)
      → Inv s
      → s.stack ≡ t ∷ rest
      → member next s.visiting ≡ true
      → linking t next ≡ true
      → After s (report order next s) × (¬ ((report order next s).cycles ≡ []))
  unfolding report
  report-After next t rest s h e m edge =
      let on_stack : member next (t ∷ rest) ≡ true =
        ap (member next) (sym e) ∙ (ap (member next) (sym h.same) ∙ m) in
      let (zs, (found, walk)) =
        slice_from-Chain linking next t [] rest on_stack (subst (Linked linking) e h.linked)
          (edge, tt) in
      let found' : slice_from next [] s.stack ≡ some (next ∷ zs) =
        ap (slice_from next []) e ∙ found in
      let cycle = canonicalize_cycle order (next ∷ zs ++ next ∷ []) in
      subst
        (λ o.
          After s (report_slice order next o s) × (¬ ((report_slice order next o s).cycles ≡ [])))
        (sym found')
        (add_cycle-After cycle (summarize_cycle cycle) s h
          (canonicalize_cycle-IsCycle linking order next zs walk))

  enter-Inv :
      (x : Text) (s : Search)
      → Inv s
      → Linked linking (x ∷ s.stack)
      → member x s.visiting ≡ false
      → Inv (enter x s)
  unfolding enter add
  enter-Inv x s h linked away = record {
    linked = linked;
    same = rw away (ap (λ l. x ∷ l) h.same);
    sound = h.sound;
    keys = h.keys;
    ordered = h.ordered;
  }

  Ordered-add :
      (x : Text) (vs : List Text)
      → All (λ w. member w vs ≡ true) (adjacency x)
      → Ordered vs
      → Ordered (add x vs)
  unfolding add
  Ordered-add x vs h k = elim (Bool-cases (member x vs)) [ inl e ↦ rw e k | inr e ↦ rw e (h, k) ]

  -- The search left `x` behind it, and what it visits is visited if it found no cycle.
  abbrev pub Searched : Text → Search → Option Search → Type 0
  Searched x s o = (s' : Search) × ((o ≡ some s') × (After s s' × (member x s'.visited ≡ true)))

  -- Fuel for every free node is enough for a search from `x`.
  abbrev pub Enough : ℕ → Type 0
  Enough fuel =
      (x : Text) (s : Search)
      → Inv s
      → Linked linking (x ∷ s.stack)
      → member x s.visiting ≡ false
      → member x s.visited ≡ false
      → member x ids ≡ true
      → free s.visiting s.visited ids < fuel
      → Searched x s (dfs order adjacency fuel x s)

  -- What a visit of neighbours leaves.
  abbrev Visited : List Text → Search → Option Search → Type 0
  Visited ns s o =
      (s' : Search) × ((o ≡ some s')
        × (After s s' × (s'.cycles ≡ [] → All (λ n. member n s'.visited ≡ true) ns)))

  pub free-After :
      (s s' : Search)
      → Inv s
      → After s s'
      → free s'.visiting s'.visited ids ≤ free s.visiting s.visited ids
  free-After s s' h a =
      let same : s'.visiting ≡ s.visiting = a.inv.same ∙ (a.stack ∙ sym h.same) in
      subst (λ l. free l s'.visited ids ≤ free s.visiting s.visited ids) (sym same)
        (free_mono s.visiting s.visited s'.visited ids a.visited)

  visit_lem :
      (fuel : ℕ)
      → Enough fuel
      → (t : Text) (rest : List Text) (n : Text) (s : Search) → Inv s
      → s.stack ≡ t ∷ rest
      → linking t n ≡ true
      → member n ids ≡ true
      → free s.visiting s.visited ids < fuel
      → Visited (n ∷ []) s (visit order (dfs order adjacency fuel) n s)
  unfolding visit
  visit_lem fuel enough t rest n s h e edge known room = elim (Bool-cases (member n s.visiting)) [
    | inl on ↦
        rw (on, visit)
          (let (a, found) = report-After n t rest s h e on edge in
            (report order n s, (refl, (a, λ none_yet. absurd (found none_yet)))))
    | inr off ↦
        rw (off, visit)
          (elim (Bool-cases (member n s.visited)) [
            | inl seen ↦ rw seen (s, (refl, (After-refl s h, λ _. (seen, tt))))
            | inr unseen ↦ rw unseen (
                let linked =
                  subst (λ l. Linked linking (n ∷ l)) (sym e)
                    (edge, subst (Linked linking) e h.linked) in
                let (s', (run, (a, seen))) = enough n s h linked off unseen known room in
                (s', (run, (a, λ _. (seen, tt)))))
          ])
  ]

  pub All-visited :
      (s s' : Search)
      → After s s'
      → (ns : List Text) → All (λ n. member n s.visited ≡ true) ns
      → All (λ n. member n s'.visited ≡ true) ns
  All-visited s s' a [] h = tt
  All-visited s s' a (n ∷ ns) h = (a.visited n h.0, All-visited s s' a ns h.1)

  visit_all_lem :
      (fuel : ℕ)
      → Enough fuel
      → (t : Text) (rest ns : List Text) (s : Search) → Inv s
      → s.stack ≡ t ∷ rest
      → All (λ n. (linking t n ≡ true) × (member n ids ≡ true)) ns
      → free s.visiting s.visited ids < fuel
      → Visited ns s (visit_all order (dfs order adjacency fuel) ns s)
  unfolding visit_all
  visit_all_lem fuel enough t rest [] s h e edges room = (s, (refl, (After-refl s h, λ _. tt)))
  visit_all_lem fuel enough t rest (n ∷ ns) s h e edges room =
      let (s1, (run, (a, seen))) = visit_lem fuel enough t rest n s h e edges.0.0 edges.0.1 room in
      let less = free-After s s1 h a in
      let (s2, (run', (b, all_seen))) =
        visit_all_lem fuel enough t rest ns s1 a.inv (a.stack ∙ e) edges.1
          (omega (arith, less, room)) in
      (
        s2,
        (
          rw run run',
          (
            After-trans s s1 s2 a b,
            λ none_yet. (b.visited n (seen (b.cycles none_yet)).0, all_seen none_yet),
          ),
        ),
      )

  leave-After :
      (x : Text) (s s' : Search)
      → Inv s
      → member x s.visiting ≡ false
      → After (enter x s) s'
      → (s'.cycles ≡ [] → All (λ n. member n s'.visited ≡ true) (adjacency x))
      → Searched x s (some (leave x s'))
  unfolding leave enter add
  leave-After x s s' h away a seen =
      let stack : s'.stack ≡ x ∷ s.stack = a.stack in
      let visiting : delete x s'.visiting ≡ s.visiting =
        ap (delete x) (a.inv.same ∙ (stack ∙ ap (λ l. x ∷ l) (sym h.same)))
        ∙ delete-cons x s.visiting away in
      (
        leave x s',
        (
          refl,
          (
            record {
              inv = record {
                linked = subst (Linked linking) (sym (ap pop stack)) h.linked;
                same = visiting ∙ (h.same ∙ sym (ap pop stack));
                sound = a.inv.sound;
                keys = a.inv.keys;
                ordered = λ n. Ordered-add x s'.visited (seen n) (a.inv.ordered n);
              };
              stack = ap pop stack;
              visited = λ y m. member-add_other y x s'.visited (a.visited y m);
              cycles = a.cycles;
            },
            member-add x s'.visited,
          ),
        ),
      )

  neighbours :
      ((x y : Text) → linking x y ≡ true → member y ids ≡ true)
      → (x : Text) (ys : List Text) → ((y : Text) → member y ys ≡ true → linking x y ≡ true)
      → All (λ n. (linking x n ≡ true) × (member n ids ≡ true)) ys
  neighbours inside x [] h = tt
  neighbours inside x (y ∷ ys) h =
      let edge = h y (member_head y ys) in
      ((edge, inside x y edge), neighbours inside x ys (λ z m. h z (member-cons z y ys m)))

  -- With `inside`, a search from a node has enough fuel.
  pub dfs-Enough :
      ((x y : Text) → linking x y ≡ true → member y ids ≡ true) → (fuel : ℕ) → Enough fuel
  unfolding dfs enter add
  dfs-Enough inside zero x s h linked off unseen known room = absurd (omega arith)
  dfs-Enough inside (suc fuel) x s h linked off unseen known room =
      let inner = enter-Inv x s h linked off in
      let less : free (x ∷ s.visiting) s.visited ids < fuel =
        (let drop = free-add x s.visiting s.visited ids off unseen known in
          omega (arith, drop, room)) in
      let edges = neighbours inside x (adjacency x) (λ y m. m) in
      let (s', (run, (a, seen))) =
        visit_all_lem fuel (dfs-Enough inside fuel) x s.stack (adjacency x) (enter x s) inner refl
          edges (rw off less) in
      rw run (leave-After x s s' h off a seen)
