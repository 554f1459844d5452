-- ===== src/RevisionDiff/Changes.antt =====
-- What a difference of revisions holds (agent/graph-revision-diff.ts).
use mathlib.Core.Path.{subst}
use deeprun.Prelude.{
  ℕ, ◌≡◌, ◌≢◌, refl, sym, ◌∙◌, ◌↔◌, ◌⊎◌, inl, inr, Bool, true, ◌==◌, ==_iff, List, [], ◌∷◌, map,
  filter, All, Text, codes, text_eq_iff, Bool-cases, either,
}
use deeprun.GraphIdentity.Model.{GraphNode, GraphEdge}
use deeprun.GraphIdentity.Identity.{insert_sorted, sorted}
use deeprun.RevisionDiff.Model.{has_hash, new_node, printed_hash}

abbrev pub Among : {A : Type 0} → A → List A → Type 0
Among x [] = ⊥
Among x (y ∷ ys) = (x ≡ y) ⊎ Among x ys

-- Some node has the hash.
abbrev pub HasNode : Text → List GraphNode → Type 0
HasNode h [] = ⊥
HasNode h (n ∷ ns) = (n.execution_identity_hash ≡ h) ⊎ HasNode h ns

-- The hash of the first node of the run, or "undefined" where there is none.
abbrev pub EndOf : ℕ → List GraphNode → Text → Type 0
EndOf id [] h = h ≡ codes "undefined"
EndOf id (n ∷ ns) h =
    ((n.run_id ≡ id) × (h ≡ n.execution_identity_hash)) ⊎ ((n.run_id ≢ id) × EndOf id ns h)

-- Some edge goes between nodes with these hashes.
abbrev pub HasEdge : Text → Text → List GraphNode → List GraphEdge → Type 0
HasEdge a b nodes [] = ⊥
HasEdge a b nodes (e ∷ es) =
    (EndOf e.from_run_id nodes a × EndOf e.to_run_id nodes b) ⊎ HasEdge a b nodes es

-- No ":" in the hash.
abbrev pub NoColon : Text → Type 0
NoColon t = All (λ c. c ≢ 58) t

insert_sorted-Among :
    {A : Type 0} (le : A → A → Bool) (z x : A) (ys : List A)
    → Among z (insert_sorted le x ys) ↔ Among z (x ∷ ys)
insert_sorted-Among le z x [] = ((λ i. i), (λ i. i))
insert_sorted-Among le z x (y ∷ ys) =
    let (f, g) = insert_sorted-Among le z x ys in
    elim (Bool-cases (le x y)) [
      | inl e ↦ rw e ((λ i. i), (λ i. i))
      | inr e ↦ rw e (
        (λ i. elim i [
          | inl same ↦ inr (inl same)
          | inr j ↦ elim (f j) [ inl same ↦ inl same | inr k ↦ inr (inr k) ]
        ]),
        (λ i. elim i [
          | inl same ↦ inr (g (inl same))
          | inr (inl same) ↦ inl same
          | inr (inr j) ↦ inr (g (inr j))
        ]),
      )
    ]

pub sorted-Among :
    {A : Type 0} (le : A → A → Bool) (z : A) (xs : List A) → Among z (sorted le xs) ↔ Among z xs
sorted-Among le z [] = ((λ i. i), (λ i. i))
sorted-Among le z (x ∷ xs) =
    let (f, g) = insert_sorted-Among le z x (sorted le xs) in
    let (f', g') = sorted-Among le z xs in
    (
      (λ i. elim (f i) [ inl e ↦ inl e | inr j ↦ inr (f' j) ]),
      (λ i. g (elim i [ inl e ↦ inl e | inr j ↦ inr (g' j) ])),
    )

has_hash-HasNode : (h : Text) (ns : List GraphNode) → (has_hash ns h ≡ true) ↔ HasNode h ns
has_hash-HasNode h [] = ((λ e. absurd (cc e)), (λ i. absurd i))
has_hash-HasNode h (n ∷ ns) =
    either _ _ (text_eq_iff n.execution_identity_hash h) (has_hash-HasNode h ns)

pub added_node :
    (h : Text) (old ns : List GraphNode)
    → Among h (map (λ n. n.execution_identity_hash) (filter (new_node old) ns))
      ↔ (HasNode h ns × (¬ (HasNode h old)))
added_node h old [] = ((λ i. absurd i), (λ i. absurd i.0))
added_node h old (n ∷ ns) =
    let (f, g) = added_node h old ns in
    let (p, q) = has_hash-HasNode n.execution_identity_hash old in
    elim (Bool-cases (has_hash old n.execution_identity_hash)) [
      | inl e ↦ rw e (
        (λ i. let (j, fresh) = f i in (inr j, fresh)),
        (λ (i, fresh). elim i [
          | inl same ↦ absurd (fresh (subst (λ t. HasNode t old) same (p e)))
          | inr j ↦ g (j, fresh)
        ]),
      )
      | inr e ↦ rw e (
        (λ i. elim i [
          | inl same ↦
              (inl (sym same), (λ j. absurd (cc (sym e ∙ q (subst (λ t. HasNode t old) same j)))))
          | inr j ↦ let (k, fresh) = f j in (inr k, fresh)
        ]),
        (λ (i, fresh). elim i [ inl same ↦ inl (sym same) | inr j ↦ inr (g (j, fresh)) ]),
      )
    ]

pub printed_hash-EndOf : (id : ℕ) (ns : List GraphNode) → EndOf id ns (printed_hash id ns)
unfolding printed_hash
printed_hash-EndOf id [] = refl
printed_hash-EndOf id (n ∷ ns) = elim (Bool-cases (n.run_id == id)) [
  | inl e ↦ rw e (inl ((==_iff n.run_id id).0 e, refl))
  | inr e ↦
      rw e (inr ((λ s. absurd (cc (sym e ∙ (==_iff n.run_id id).1 s))), printed_hash-EndOf id ns))
]

-- No other text is the end.
pub EndOf-printed_hash :
    (id : ℕ) (ns : List GraphNode) (h : Text) → EndOf id ns h → printed_hash id ns ≡ h
unfolding printed_hash
EndOf-printed_hash id [] h e = sym e
EndOf-printed_hash id (n ∷ ns) h (inl (s, e)) = rw ((==_iff n.run_id id).1 s) (sym e)
EndOf-printed_hash id (n ∷ ns) h (inr (s, i)) = elim (Bool-cases (n.run_id == id)) [
  | inl e ↦ absurd (s ((==_iff n.run_id id).0 e))
  | inr e ↦ rw e (EndOf-printed_hash id ns h i)
]
