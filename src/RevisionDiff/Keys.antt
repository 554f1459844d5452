-- ===== src/RevisionDiff/Keys.antt =====
-- The keys of edges tell the hashes of their ends (agent/graph-revision-diff.ts).
use mathlib.Core.Path.{subst}
use deeprun.Prelude.{
  ℕ, ◌≡◌, refl, sym, ap, ◌∙◌, ◌↔◌, inl, inr, true, ◌==◌, ==_iff, List, [], ◌∷◌, ◌++◌, map, All,
  Text, codes, text_eq_iff, Bool-cases, either, arith,
}
use deeprun.Correction.Prefixes.{In}
use deeprun.GraphIdentity.Model.{GraphNode, GraphEdge}
use deeprun.RevisionDiff.Model.{
  printed_hash, edge_key, has_key, until_colon, after_colon, split_key,
}
use deeprun.RevisionDiff.Changes.{Among, HasEdge, NoColon, printed_hash-EndOf, EndOf-printed_hash}

abbrev pub key : Text → Text → Text
key a b = a ++ codes ":" ++ b

until_colon-key : (a b : Text) → NoColon a → until_colon (key a b) ≡ a
until_colon-key [] b h = refl
until_colon-key (c ∷ a) b (h, hs) = elim (Bool-cases (c == 58)) [
  | inl e ↦ absurd (h ((==_iff c 58).0 e))
  | inr e ↦ rw (e, until_colon-key a b hs) refl
]

after_colon-key : (a b : Text) → NoColon a → after_colon (key a b) ≡ b
after_colon-key [] b h = refl
after_colon-key (c ∷ a) b (h, hs) = elim (Bool-cases (c == 58)) [
  | inl e ↦ absurd (h ((==_iff c 58).0 e))
  | inr e ↦ rw (e, after_colon-key a b hs) refl
]

until_colon_whole : (b : Text) → NoColon b → until_colon b ≡ b
until_colon_whole [] h = refl
until_colon_whole (c ∷ b) (h, hs) = elim (Bool-cases (c == 58)) [
  | inl e ↦ absurd (h ((==_iff c 58).0 e))
  | inr e ↦ rw (e, until_colon_whole b hs) refl
]

pub split_key-key : (a b : Text) → NoColon a → NoColon b → split_key (key a b) ≡ (a, b)
split_key-key a b h k =
    rw (until_colon-key a b h, after_colon-key a b h, until_colon_whole b k) refl

printed_hash-NoColon :
    (id : ℕ) (ns : List GraphNode)
    → All (λ n. NoColon n.execution_identity_hash) ns
    → NoColon (printed_hash id ns)
unfolding printed_hash
printed_hash-NoColon id [] h = (
  omega arith,
  (
    omega arith,
    (
      omega arith,
      (omega arith, (omega arith, (omega arith, (omega arith, (omega arith, (omega arith, tt)))))),
    ),
  ),
)
printed_hash-NoColon id (n ∷ ns) (h, hs) = elim (Bool-cases (n.run_id == id)) [
  | inl e ↦ rw e h
  | inr e ↦ rw e (printed_hash-NoColon id ns hs)
]

-- What an edge of the list with this key tells.
abbrev pub Keyed : List GraphNode → List GraphEdge → Text → Type 0
Keyed nodes es k =
    (a : Text) × ((b : Text) × ((k ≡ key a b) × ((NoColon a × NoColon b) × HasEdge a b nodes es)))

module _ (nodes : List GraphNode) (plain : All (λ n. NoColon n.execution_identity_hash) nodes) where
  pub key-Keyed :
      (k : Text) (es : List GraphEdge) → In k (map (edge_key nodes) es) → Keyed nodes es k
  key-Keyed k [] i = absurd i
  key-Keyed k (e ∷ es) (inl same) = (
    printed_hash e.from_run_id nodes,
    (
      printed_hash e.to_run_id nodes,
      (
        same,
        (
          (
            printed_hash-NoColon e.from_run_id nodes plain,
            printed_hash-NoColon e.to_run_id nodes plain,
          ),
          inl (printed_hash-EndOf e.from_run_id nodes, printed_hash-EndOf e.to_run_id nodes),
        ),
      ),
    ),
  )
  key-Keyed k (e ∷ es) (inr i) =
      let (a, (b, (same, (free, edge)))) = key-Keyed k es i in (a, (b, (same, (free, inr edge))))

  pub HasEdge-key :
      (a b : Text) (es : List GraphEdge)
      → HasEdge a b nodes es
      → In (key a b) (map (edge_key nodes) es) × (NoColon a × NoColon b)
  HasEdge-key a b [] i = absurd i
  HasEdge-key a b (e ∷ es) (inl (f, t)) =
      let from_hash = EndOf-printed_hash e.from_run_id nodes a f in
      let to_hash = EndOf-printed_hash e.to_run_id nodes b t in
      (
        inl (rw (from_hash, to_hash) refl),
        (
          subst NoColon from_hash (printed_hash-NoColon e.from_run_id nodes plain),
          subst NoColon to_hash (printed_hash-NoColon e.to_run_id nodes plain),
        ),
      )
  HasEdge-key a b (e ∷ es) (inr i) = let (j, free) = HasEdge-key a b es i in (inr j, free)

pub known_key : (keys : List Text) (k : Text) → (has_key keys k ≡ true) ↔ In k keys
known_key [] k = ((λ h. absurd (cc h)), (λ i. absurd i))
known_key (l ∷ ls) k =
    let (f, g) = text_eq_iff l k in either _ _ ((λ h. sym (f h)), (λ e. g (sym e))) (known_key ls k)

pub Among-map :
    (y : Text × Text) (f : Text → Text × Text) (xs : List Text)
    → Among y (map f xs)
    → (x : Text) × (In x xs × (y ≡ f x))
Among-map y f [] i = absurd i
Among-map y f (x ∷ xs) (inl e) = (x, (inl refl, e))
Among-map y f (x ∷ xs) (inr i) = let (z, (j, e)) = Among-map y f xs i in (z, (inr j, e))

pub map-Among :
    (y : Text × Text) (f : Text → Text × Text) (x : Text) (xs : List Text)
    → In x xs
    → y ≡ f x
    → Among y (map f xs)
map-Among y f x [] i e = absurd i
map-Among y f x (z ∷ xs) (inl same) e = inl (e ∙ ap f same)
map-Among y f x (z ∷ xs) (inr i) e = inr (map-Among y f x xs i e)
