-- ===== src/GraphIdentity/Release.antt =====
-- The neighbors of a node, and what its processing does to their degrees and to the queue
-- (agent/graph-identity.ts `validateGraphAcyclic`).
use deeprun.Prelude.{
  ℕ, ◌+◌, ◌-◌, ◌≡◌, refl, ap, ◌∙◌, true, false, ◌&&◌, ◌||◌, ◌==◌, ==_iff, List, [], ◌∷◌, ◌++◌,
  arith, Bool-cases, inl, inr, if◌then◌else◌,
}
use deeprun.GraphIdentity.Model.{
  GraphEdge, has, add_key, targets, adjacent, Degree, get_degree, set_degree, release,
}
use deeprun.GraphIdentity.Repeats.{unique, has-append, has_head}
use deeprun.GraphIdentity.Walks.{linked, remaining, one_if, goes}
use deeprun.GraphIdentity.Degrees.{distinct, get-set}

unique-snoc :
    (x : ℕ) (xs : List ℕ) → unique xs ≡ true → has x xs ≡ false → unique (xs ++ x ∷ []) ≡ true
unfolding unique has
unique-snoc x [] u h = refl
unique-snoc x (y ∷ ys) u h = ground (arith, unique-snoc x ys, has-append y ys (x ∷ []))

has-snoc : (v x : ℕ) (xs : List ℕ) → has v (xs ++ x ∷ []) ≡ (has v xs || v == x)
unfolding has
has-snoc v x [] = ground arith
has-snoc v x (y ∷ ys) = ground (arith, has-snoc v x ys)

has-add_key : (v x : ℕ) (xs : List ℕ) → has v (add_key x xs) ≡ (has v xs || v == x)
has-add_key v x xs = elim (Bool-cases (has x xs)) [
  | inl there ↦ elim (Bool-cases (v == x)) [
    | inl it ↦
        let same = ap (λ w. has w xs) ((==_iff v x).0 it) in
        rw (there, it) (ground (arith, same, there))
    | inr other ↦ rw (there, other) (ground arith)
  ]
  | inr new ↦ rw new (has-snoc v x xs)
]

unique-add_key : (x : ℕ) (xs : List ℕ) → unique xs ≡ true → unique (add_key x xs) ≡ true
unique-add_key x xs u = elim (Bool-cases (has x xs)) [
  | inl there ↦ rw there u
  | inr new ↦ rw new (unique-snoc x xs u new)
]

has-targets :
    (v x : ℕ) (ts : List ℕ) (edges : List GraphEdge)
    → has v (targets x ts edges) ≡ (has v ts || linked edges x v)
unfolding targets linked
has-targets v x ts [] = ground arith
has-targets v x ts (e ∷ es) = elim (Bool-cases (e.from_run_id == x)) [
  | inl it ↦
      rw it
        (has-targets v x (add_key e.to_run_id ts) es ∙ ground (arith, has-add_key v e.to_run_id ts))
  | inr other ↦ rw other (has-targets v x ts es)
]

unique-targets :
    (x : ℕ) (ts : List ℕ) (edges : List GraphEdge)
    → unique ts ≡ true
    → unique (targets x ts edges) ≡ true
unfolding targets
unique-targets x ts [] u = u
unique-targets x ts (e ∷ es) u = elim (Bool-cases (e.from_run_id == x)) [
  | inl it ↦ rw it (unique-targets x (add_key e.to_run_id ts) es (unique-add_key e.to_run_id ts u))
  | inr other ↦ rw other (unique-targets x ts es u)
]

module _ (ids : List ℕ) (edges : List GraphEdge) (x : ℕ) where
  pub has-adjacent : (v : ℕ) → has x ids ≡ true → has v (adjacent ids edges x) ≡ linked edges x v
  unfolding adjacent has
  has-adjacent v h = rw h (has-targets v x [] edges)

  pub unique-adjacent : has x ids ≡ true → unique (adjacent ids edges x) ≡ true
  unfolding adjacent unique
  unique-adjacent h = rw h (unique-targets x [] edges refl)

-- Each neighbor has one edge fewer to wait for.
pub get-release :
    (v : ℕ) (ys : List ℕ) (ds : List Degree) (queue : List ℕ)
    → unique ys ≡ true
    → get_degree v (release ys ds queue).0 ≡ get_degree v ds - one_if (has v ys)
unfolding release unique has
get-release v [] ds queue u = omega arith
get-release v (y ∷ ys) ds queue u =
    let now = get-set v y (get_degree y ds - 1) ds in
    let queue' = if get_degree y ds == 1 then queue ++ y ∷ [] else queue in
    let rest = get-release v ys (set_degree y (get_degree y ds - 1) ds) queue' (ground arith) in
    elim (Bool-cases (v == y)) [
      | inl it ↦
          let same = (==_iff v y).0 it in
          let degree = ap (λ w. get_degree w ds) same in
          let once = ap (λ w. has w ys) same in
          rest ∙ rw it (ground (arith, now, same, degree, once))
      | inr other ↦ rest ∙ rw other (ground (arith, now))
    ]

-- The neighbors that wait for nothing else join the queue.
pub has-release :
    (v : ℕ) (ys : List ℕ) (ds : List Degree) (queue : List ℕ)
    → unique ys ≡ true
    → has v (release ys ds queue).1 ≡ (has v queue || (has v ys && get_degree v ds == 1))
unfolding release unique has
has-release v [] ds queue u = ground arith
has-release v (y ∷ ys) ds queue u =
    let now = get-set v y (get_degree y ds - 1) ds in
    let queue' = if get_degree y ds == 1 then queue ++ y ∷ [] else queue in
    let rest = has-release v ys (set_degree y (get_degree y ds - 1) ds) queue' (ground arith) in
    let pushed = has-snoc v y queue in
    elim (Bool-cases (v == y)) [
      | inl it ↦
          let same = (==_iff v y).0 it in
          let degree = ap (λ w. get_degree w ds) same in
          let once = ap (λ w. has w ys) same in
          rest ∙ rw it (ground (arith, now, same, degree, once, pushed))
      | inr other ↦ rest ∙ rw other (ground (arith, now, pushed))
    ]

has_tail : (v y : ℕ) (ys : List ℕ) → has v ys ≡ true → has v (y ∷ ys) ≡ true
unfolding has
has_tail v y ys m = ground arith

apart : (v y : ℕ) (ys : List ℕ) → unique (y ∷ ys) ≡ true → has v ys ≡ true → (v == y) ≡ false
unfolding unique
apart v y ys u m = elim (Bool-cases (v == y)) [
  | inr other ↦ other
  | inl it ↦ let same = ap (λ w. has w ys) ((==_iff v y).0 it) in ground (arith, same)
]

pushed_other :
    (v y : ℕ) (ys : List ℕ) (ds : List Degree) (queue : List ℕ)
    → unique (y ∷ ys) ≡ true
    → has v ys ≡ true
    → (get_degree v ds ≡ 1 → has v queue ≡ false)
    → get_degree v (set_degree y (get_degree y ds - 1) ds) ≡ 1
    → has v (if get_degree y ds == 1 then queue ++ y ∷ [] else queue) ≡ false
pushed_other v y ys ds queue u m h one =
    let other = apart v y ys u m in
    let now = get-set v y (get_degree y ds - 1) ds in
    let free = h (ground (arith, now, other, one)) in
    ground (arith, has-snoc v y queue, free, other)

pub unique-release :
    (ys : List ℕ) (ds : List Degree) (queue : List ℕ)
    → unique ys ≡ true
    → unique queue ≡ true
    → ((v : ℕ) → has v ys ≡ true → get_degree v ds ≡ 1 → has v queue ≡ false)
    → unique (release ys ds queue).1 ≡ true
unfolding release unique
unique-release [] ds queue u uq h = uq
unique-release (y ∷ ys) ds queue u uq h =
    let queue' = if get_degree y ds == 1 then queue ++ y ∷ [] else queue in
    let free : get_degree y ds ≡ 1 → has y queue ≡ false = h y (has_head y ys) in
    let u' : unique queue' ≡ true = elim (Bool-cases (get_degree y ds == 1)) [
      | inl one ↦ rw one (unique-snoc y queue uq (free ((==_iff (get_degree y ds) 1).0 one)))
      | inr more ↦ rw more uq
    ] in
    unique-release ys (set_degree y (get_degree y ds - 1) ds) queue' (ground arith) u'
      (λ v m one. pushed_other v y ys ds queue u m (h v (has_tail v y ys m)) one)

-- Of the edges into a node, the one from the processed node is no longer waited for.
remaining_same :
    (edges : List GraphEdge) (c : ℕ) (done : List ℕ) (v : ℕ)
    → linked edges c v ≡ false
    → remaining edges (c ∷ done) v ≡ remaining edges done v
unfolding remaining linked has
remaining_same [] c done v h = refl
remaining_same (e ∷ es) c done v h = ground (arith, remaining_same es c done v)

pub remaining-cons :
    (edges : List GraphEdge) (c : ℕ) (done : List ℕ) (v : ℕ)
    → distinct edges ≡ true
    → has c done ≡ false
    → remaining edges (c ∷ done) v + one_if (linked edges c v) ≡ remaining edges done v
unfolding remaining linked has distinct
remaining-cons [] c done v u h = omega arith
remaining-cons (e ∷ es) c done v u h = elim (Bool-cases (goes c v e)) [
  | inl it ↦
      let from : e.from_run_id ≡ c = ground (arith, ==_iff e.from_run_id c) in
      let to : e.to_run_id ≡ v = ground (arith, ==_iff e.to_run_id v) in
      let once : linked es c v ≡ false = rw (← from, ← to) (ground arith) in
      let same = remaining_same es c done v once in
      let away : has e.from_run_id done ≡ false = rw from h in ground (arith, same, away)
  | inr other ↦ ground (arith, remaining-cons es c done v, other)
]
