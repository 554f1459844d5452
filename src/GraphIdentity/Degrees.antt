-- ===== src/GraphIdentity/Degrees.antt =====
-- The map of degrees and the counts it holds (agent/graph-identity.ts `validateGraphAcyclic`).
use deeprun.Prelude.{
  ℕ, ◌+◌, ◌≡◌, refl, sym, ap, ◌∙◌, Bool, true, false, not, ◌&&◌, ◌||◌, ◌==◌, ==_iff, List, [], ◌∷◌,
  map, All, arith, length, Bool-cases, inl, inr, if◌then◌else◌,
}
use mathlib.Core.Path.{subst}
use deeprun.GraphIdentity.Model.{
  GraphNode, GraphEdge, has, Degree, get_degree, set_degree, zero_degrees, count_edges, roots,
  ids_of,
}
use deeprun.GraphIdentity.Repeats.{unique}
use deeprun.GraphIdentity.Walks.{linked, remaining}

abbrev pub keys : List Degree → List ℕ
keys ds = map (λ d. d.key) ds

-- No edge of the list stands in it twice.
unfoldable pub distinct : List GraphEdge → Bool
distinct [] = true
distinct (e ∷ es) = not (linked es e.from_run_id e.to_run_id) && distinct es

pub get-set :
    (v k n : ℕ) (ds : List Degree)
    → get_degree v (set_degree k n ds) ≡ (if k == v then n else get_degree v ds)
unfolding get_degree set_degree
get-set v k n [] = ground arith
get-set v k n (d ∷ ds) = ground (arith, get-set v k n ds)

has-keys-set :
    (v k n : ℕ) (ds : List Degree) → has v (keys (set_degree k n ds)) ≡ (v == k || has v (keys ds))
unfolding set_degree has
has-keys-set v k n [] = ground arith
has-keys-set v k n (d ∷ ds) = ground (arith, has-keys-set v k n ds)

unique-keys-set :
    (k n : ℕ) (ds : List Degree)
    → unique (keys ds) ≡ true
    → unique (keys (set_degree k n ds)) ≡ true
unfolding set_degree unique has
unique-keys-set k n [] u = refl
unique-keys-set k n (d ∷ ds) u = ground (arith, unique-keys-set k n ds, has-keys-set d.key k n ds)

pub length-keys : (ds : List Degree) → length (keys ds) ≡ length ds
length-keys [] = refl
length-keys (d ∷ ds) = omega (arith, length-keys ds)

-- The maps of the two loops that count.
pub get-zero_degrees :
    (v : ℕ) (nodes : List GraphNode) (ds : List Degree)
    → get_degree v ds ≡ 0
    → get_degree v (zero_degrees nodes ds) ≡ 0
unfolding zero_degrees
get-zero_degrees v [] ds h = h
get-zero_degrees v (n ∷ ns) ds h =
    get-zero_degrees v ns (set_degree n.run_id 0 ds) (ground (arith, get-set v n.run_id 0 ds))

pub has-zero_degrees :
    (v : ℕ) (nodes : List GraphNode) (ds : List Degree)
    → has v (keys (zero_degrees nodes ds)) ≡ (has v (ids_of nodes) || has v (keys ds))
unfolding zero_degrees has
has-zero_degrees v [] ds = refl
has-zero_degrees v (n ∷ ns) ds =
    has-zero_degrees v ns (set_degree n.run_id 0 ds) ∙ ground (arith, has-keys-set v n.run_id 0 ds)

pub unique-zero_degrees :
    (nodes : List GraphNode) (ds : List Degree)
    → unique (keys ds) ≡ true
    → unique (keys (zero_degrees nodes ds)) ≡ true
unfolding zero_degrees
unique-zero_degrees [] ds u = u
unique-zero_degrees (n ∷ ns) ds u =
    unique-zero_degrees ns (set_degree n.run_id 0 ds) (unique-keys-set n.run_id 0 ds u)

pub get-count_edges :
    (v : ℕ) (edges : List GraphEdge) (ds : List Degree)
    → get_degree v (count_edges edges ds) ≡ get_degree v ds + remaining edges [] v
unfolding count_edges remaining has
get-count_edges v [] ds = omega arith
get-count_edges v (e ∷ es) ds =
    let step = get-count_edges v es (set_degree e.to_run_id (get_degree e.to_run_id ds + 1) ds) in
    let now = get-set v e.to_run_id (get_degree e.to_run_id ds + 1) ds in
    elim (Bool-cases (e.to_run_id == v)) [
      | inl it ↦
          let same = ap (λ k. get_degree k ds) ((==_iff e.to_run_id v).0 it) in
          rw it (omega (arith, step, rw it at now, same))
      | inr other ↦ rw other (omega (arith, step, rw other at now))
    ]

pub has-count_edges :
    (v : ℕ) (edges : List GraphEdge) (ds : List Degree)
    → has v (keys ds) ≡ true
    → has v (keys (count_edges edges ds)) ≡ true
unfolding count_edges
has-count_edges v [] ds h = h
has-count_edges v (e ∷ es) ds h =
    let n = get_degree e.to_run_id ds + 1 in
    has-count_edges v es (set_degree e.to_run_id n ds)
      (ground (arith, has-keys-set v e.to_run_id n ds))

pub count_edges-inside :
    (P : ℕ → Type 0) (edges : List GraphEdge) (ds : List Degree)
    → All (λ e. P e.to_run_id) edges
    → ((v : ℕ) → has v (keys ds) ≡ true → P v)
    → (v : ℕ) → has v (keys (count_edges edges ds)) ≡ true
    → P v
unfolding count_edges
count_edges-inside P [] ds to h v m = h v m
count_edges-inside P (e ∷ es) ds (to, tos) h v m =
    let n = get_degree e.to_run_id ds + 1 in
    count_edges-inside P es (set_degree e.to_run_id n ds) tos
      (λ w mw. elim (Bool-cases (w == e.to_run_id)) [
        | inl it ↦ subst P (sym ((==_iff w e.to_run_id).0 it)) to
        | inr other ↦ h w (ground (arith, has-keys-set w e.to_run_id n ds, other, mw))
      ])
      v m

pub unique-count_edges :
    (edges : List GraphEdge) (ds : List Degree)
    → unique (keys ds) ≡ true
    → unique (keys (count_edges edges ds)) ≡ true
unfolding count_edges
unique-count_edges [] ds u = u
unique-count_edges (e ∷ es) ds u =
    let n = get_degree e.to_run_id ds + 1 in
    unique-count_edges es (set_degree e.to_run_id n ds) (unique-keys-set e.to_run_id n ds u)

-- The keys of degree 0.
roots-away : (v : ℕ) (ds : List Degree) → has v (keys ds) ≡ false → has v (roots ds) ≡ false
unfolding roots has
roots-away v [] h = refl
roots-away v (d ∷ ds) h = ground (arith, roots-away v ds)

pub unique-roots : (ds : List Degree) → unique (keys ds) ≡ true → unique (roots ds) ≡ true
unfolding roots unique
unique-roots [] u = refl
unique-roots (d ∷ ds) u = ground (arith, unique-roots ds, roots-away d.key ds)

pub has-roots :
    (v : ℕ) (ds : List Degree)
    → unique (keys ds) ≡ true
    → has v (roots ds) ≡ (has v (keys ds) && get_degree v ds == 0)
unfolding roots unique has get_degree
has-roots v [] u = refl
has-roots v (d ∷ ds) u = elim (Bool-cases (v == d.key)) [
  | inl it ↦
      let same = (==_iff v d.key).0 it in
      let away = roots-away v ds in
      subst (λ w. has w (roots (d ∷ ds)) ≡ (has w (keys (d ∷ ds)) && get_degree w (d ∷ ds) == 0))
        (sym same) (ground (arith, roots-away d.key ds))
  | inr other ↦ ground (arith, has-roots v ds)
]
