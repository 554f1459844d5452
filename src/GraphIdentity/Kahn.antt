-- ===== src/GraphIdentity/Kahn.antt =====
-- The loop on the queue (agent/graph-identity.ts `validateGraphAcyclic`): what holds between its
-- rounds, and when it ends.
use deeprun.Prelude.{
  ℕ, ◌+◌, ◌≡◌, refl, sym, ap, ◌∙◌, Bool, true, false, ◌&&◌, ◌||◌, ◌==◌, ==_iff, List, [], ◌∷◌, All,
  arith, Bool-cases, inl, inr,
}
use mathlib.Core.Path.{subst}
use deeprun.GraphIdentity.Model.{GraphEdge, has, adjacent, Degree, get_degree, release}
use deeprun.GraphIdentity.Repeats.{unique, has_head, All-has}
use deeprun.GraphIdentity.Walks.{linked, remaining, one_if, goes, Ordered, Between, unique-cons}
use deeprun.GraphIdentity.Degrees.{distinct}
use deeprun.GraphIdentity.Release.{
  has-adjacent, unique-adjacent, get-release, has-release, unique-release, remaining-cons,
}

pub has_tail : (v y : ℕ) (ys : List ℕ) → has v ys ≡ true → has v (y ∷ ys) ≡ true
unfolding has
has_tail v y ys m = ground arith

has_it : (v y : ℕ) (ys : List ℕ) → (v == y) ≡ true → has v (y ∷ ys) ≡ true
unfolding has
has_it v y ys it = rw it refl

has_other : (v y : ℕ) (ys : List ℕ) → (v == y) ≡ false → has v (y ∷ ys) ≡ has v ys
unfolding has
has_other v y ys other = rw other refl

differ : (v c : ℕ) (xs : List ℕ) → has v xs ≡ true → has c xs ≡ false → (v == c) ≡ false
differ v c xs m away = elim (Bool-cases (v == c)) [
  | inr other ↦ other
  | inl it ↦ let same = ap (λ w. has w xs) ((==_iff v c).0 it) in ground (arith, same)
]

zero_of : {a : Bool} {n : ℕ} → a ≡ (n == 0) → a ≡ true → n ≡ 0
zero_of {a} {n} e h = (==_iff n 0).0 (sym e ∙ h)

or_right : (a : Bool) {b : Bool} → b ≡ true → (a || b) ≡ true
or_right true h = refl
or_right false h = h

-- A node that waits for one edge fewer, `before` for `after`.
released_or :
    (q d link : Bool) (after before : ℕ)
    → (q || d) ≡ (before == 0)
    → after + one_if link ≡ before
    → ((q || (link && before == 1)) || d) ≡ (after == 0)
released_or q d true after before was less = ground arith
released_or q d false after before was less = ground arith

linked-inside :
    (ids : List ℕ) (edges : List GraphEdge)
    → Between ids edges
    → (x y : ℕ) → linked edges x y ≡ true
    → has y ids ≡ true
unfolding linked
linked-inside ids [] h x y link = ground arith
linked-inside ids (e ∷ es) ((from, to), hs) x y link = elim (Bool-cases (goes x y e)) [
  | inl it ↦
      let same : e.to_run_id ≡ y = ground (arith, ==_iff e.to_run_id y) in
      subst (λ v. has v ids ≡ true) same to
  | inr other ↦ linked-inside ids es hs x y (rw other at link)
]

module _ (ids : List ℕ) (edges : List GraphEdge) where
  -- Between two rounds, with the nodes processed so far, the latest first: the degree of a node
  -- counts the edges that it waits for, and a node that waits for none is queued or processed.
  pub record Round (ds : List Degree) (queue done : List ℕ) : Type 0 where
    pub degrees : (v : ℕ) → get_degree v ds ≡ remaining edges done v
    pub ready :
        (v : ℕ) → has v ids ≡ true → (has v queue || has v done) ≡ (remaining edges done v == 0)
    pub queue_inside : (v : ℕ) → has v queue ≡ true → has v ids ≡ true
    pub done_inside : All (λ v. has v ids ≡ true) done
    pub queue_unique : unique queue ≡ true
    pub done_unique : unique done ≡ true
    pub apart : (v : ℕ) → has v queue ≡ true → has v done ≡ false
    pub order : Ordered edges done

  module _ (given : distinct edges ≡ true) (ds : List Degree) (c : ℕ) (queue done : List ℕ)
      (h : Round ds (c ∷ queue) done) where
    abbrev pub next_degrees : List Degree
    next_degrees = (release (adjacent ids edges c) ds queue).0

    abbrev pub next_queue : List ℕ
    next_queue = (release (adjacent ids edges c) ds queue).1

    inside : has c ids ≡ true
    inside = h.queue_inside c (has_head c queue)

    not_done : has c done ≡ false
    not_done = h.apart c (has_head c queue)

    waits_for_none : remaining edges done c ≡ 0
    unfolding has
    waits_for_none =
        (==_iff (remaining edges done c) 0).0 (sym (h.ready c inside) ∙ rw (has_head c queue) refl)

    queue_behind : has c queue ≡ false
    unfolding unique
    queue_behind = let u = h.queue_unique in ground arith

    queue_rest : unique queue ≡ true
    unfolding unique
    queue_rest = let u = h.queue_unique in ground arith

    fewer :
        (v : ℕ) → remaining edges (c ∷ done) v + one_if (linked edges c v) ≡ remaining edges done v
    fewer v = remaining-cons edges c done v given not_done

    released :
        (v : ℕ)
        → has v next_queue ≡ (has v queue || (linked edges c v && remaining edges done v == 1))
    released v =
        has-release v (adjacent ids edges c) ds queue (unique-adjacent ids edges c inside)
        ∙ rw (has-adjacent ids edges c v inside, h.degrees v) refl

    next-degrees : (v : ℕ) → get_degree v next_degrees ≡ remaining edges (c ∷ done) v
    next-degrees v =
        let now =
          get-release v (adjacent ids edges c) ds queue (unique-adjacent ids edges c inside) in
        let e = has-adjacent ids edges c v inside in
        let was = h.degrees v in let less = fewer v in rw e at now ∙ omega (arith, was, less)

    queue_zero : (v : ℕ) → has v queue ≡ true → remaining edges done v ≡ 0
    queue_zero v m =
        let there = has_tail v c queue m in
        zero_of (h.ready v (h.queue_inside v there)) (rw there refl)

    done_zero : (v : ℕ) → has v done ≡ true → remaining edges done v ≡ 0
    done_zero v m =
        zero_of (h.ready v (All-has (λ w. has w ids ≡ true) v done h.done_inside m))
          (or_right (has v (c ∷ queue)) m)

    in_done : (v : ℕ) → has v (c ∷ done) ≡ true → remaining edges done v ≡ 0
    in_done v m = elim (Bool-cases (v == c)) [
      | inl it ↦ ap (λ w. remaining edges done w) ((==_iff v c).0 it) ∙ waits_for_none
      | inr other ↦ done_zero v (sym (has_other v c done other) ∙ m)
    ]

    next-ready :
        (v : ℕ)
        → has v ids ≡ true
        → (has v next_queue || has v (c ∷ done)) ≡ (remaining edges (c ∷ done) v == 0)
    next-ready v m =
        let less = fewer v in
        let now = released v in
        elim (Bool-cases (v == c)) [
          | inl it ↦
              let same = ap (λ w. remaining edges done w) ((==_iff v c).0 it) in
              let none_left = waits_for_none in
              rw (has_it v c done it) (ground (arith, less, same, none_left))
          | inr other ↦
              let was : (has v queue || has v done) ≡ (remaining edges done v == 0) =
                rw (has_other v c queue other) at (h.ready v m) in
              rw (now, has_other v c done other)
                (released_or (has v queue) (has v done) (linked edges c v) _ _ was less)
        ]

    next_queue-inside : Between ids edges → (v : ℕ) → has v next_queue ≡ true → has v ids ≡ true
    next_queue-inside between v m = elim (Bool-cases (has v queue)) [
      | inl there ↦ h.queue_inside v (has_tail v c queue there)
      | inr new ↦
          let now = released v in linked-inside ids edges between c v (ground (arith, now, new, m))
    ]

    next_apart : (v : ℕ) → has v next_queue ≡ true → has v (c ∷ done) ≡ false
    next_apart v m = elim (Bool-cases (has v queue)) [
      | inl there ↦
          has_other v c done (differ v c queue there queue_behind)
          ∙ h.apart v (has_tail v c queue there)
      | inr new ↦
          let now = released v in
          let one : remaining edges done v ≡ 1 = ground (arith, now, new, m) in
          elim (Bool-cases (has v (c ∷ done))) [
            | inr away ↦ away
            | inl there ↦ let zero_left = in_done v there in absurd (omega (arith, one, zero_left))
          ]
    ]

    next_unique : unique next_queue ≡ true
    next_unique =
        unique-release (adjacent ids edges c) ds queue (unique-adjacent ids edges c inside)
          queue_rest
          (λ v _ one. elim (Bool-cases (has v queue)) [
            | inr away ↦ away
            | inl there ↦
                let zero_left = queue_zero v there in
                let was = h.degrees v in absurd (omega (arith, one, zero_left, was))
          ])

    pub next-Round : Between ids edges → Round next_degrees next_queue (c ∷ done)
    next-Round between = record {
      degrees = next-degrees;
      ready = next-ready;
      queue_inside = next_queue-inside between;
      done_inside = (inside, h.done_inside);
      queue_unique = next_unique;
      done_unique = unique-cons c done not_done h.done_unique;
      apart = next_apart;
      order = (waits_for_none, h.order);
    }
