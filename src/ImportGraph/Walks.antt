-- ===== src/ImportGraph/Walks.antt =====
-- Closed walks, and what the functions on cycles keep of them
-- (agent/validation/graph-builder.ts `canonicalizeCycle`).
use mathlib.Core.List.{append_assoc}
use deeprun.Prelude.{
  ◌≡◌, refl, sym, ap, Bool, true, false, List, [], ◌∷◌, ◌++◌, Option, none, some, Text, text_eq,
  text_eq→eq, text_eq_refl, if◌then◌else◌, Bool-cases, inl, inr, Chain,
}
use mathlib.Core.Path.{subst}
use deeprun.ImportGraph.Model.{
  Collation, member, summarize_cycle, ends_in, without_last, normalize_cycle_nodes, best_rotation,
  close, canonicalize_cycle, slice_from,
}

-- The texts form a closed walk: the last is linked to the first.
abbrev pub Closed : (Text → Text → Bool) → List Text → Type 0
Closed R [] = ⊥
Closed R (x ∷ xs) = Chain R x (xs ++ x ∷ [])

-- A cycle as it is reported, its first text repeated at the end.
abbrev pub IsCycle : (Text → Text → Bool) → List Text → Type 0
IsCycle R cycle =
    (x : Text) × ((xs : List Text) × ((cycle ≡ x ∷ xs ++ x ∷ []) × Chain R x (xs ++ x ∷ [])))

-- The stack is linked from its bottom to its top.
abbrev pub Linked : (Text → Text → Bool) → List Text → Type 0
Linked R [] = Unit
Linked R (t ∷ []) = Unit
Linked R (t ∷ u ∷ stack) = (R u t ≡ true) × Linked R (u ∷ stack)

module _ (R : Text → Text → Bool) where
  pub Chain-split :
      (x : Text) (xs : List Text) (y : Text) (ys : List Text)
      → Chain R x (xs ++ y ∷ ys)
      → Chain R x (xs ++ y ∷ []) × Chain R y ys
  Chain-split x [] y ys (one, rest) = ((one, tt), rest)
  Chain-split x (z ∷ xs) y ys (one, rest) = let (h, k) = Chain-split z xs y ys rest in ((one, h), k)

  pub Chain-join :
      (x : Text) (xs : List Text) (y : Text) (ys : List Text)
      → Chain R x (xs ++ y ∷ [])
      → Chain R y ys
      → Chain R x (xs ++ y ∷ ys)
  Chain-join x [] y ys (one, _) rest = (one, rest)
  Chain-join x (z ∷ xs) y ys (one, h) rest = (one, Chain-join z xs y ys h rest)

  Closed-rotate :
      (d : Text) (ds : List Text) (x : Text) (xs : List Text)
      → Closed R (d ∷ ds ++ x ∷ xs)
      → Closed R (x ∷ xs ++ d ∷ ds)
  Closed-rotate d ds x xs h =
      let split =
        Chain-split d ds x (xs ++ d ∷ [])
          (subst (Chain R d) (append_assoc ds (x ∷ xs) (d ∷ [])) h) in
      subst (Chain R x) (sym (append_assoc xs (d ∷ ds) (x ∷ [])))
        (Chain-join x xs d (ds ++ x ∷ []) split.1 split.0)

  Closed-if :
      (b : Bool) (xs ys : List Text) → Closed R xs → Closed R ys → Closed R (if b then xs else ys)
  Closed-if true xs ys h k = h
  Closed-if false xs ys h k = k

  best_rotation-Closed :
      (order : Collation) (best : List Text) (d : Text) (ds rest : List Text)
      → Closed R best
      → Closed R (d ∷ ds ++ rest)
      → Closed R (best_rotation order best (d ∷ ds) rest)
  unfolding best_rotation
  best_rotation-Closed order best d ds [] h base = h
  best_rotation-Closed order best d ds (x ∷ rest) h base =
      let rotated = x ∷ rest ++ d ∷ ds in
      let better = order.lt (summarize_cycle rotated) (summarize_cycle best) in
      best_rotation-Closed order (if better then rotated else best) d (ds ++ x ∷ []) rest
        (Closed-if better rotated best (Closed-rotate d ds x rest base) h)
        (subst (λ l. Chain R d (l ++ d ∷ [])) (sym (append_assoc ds (x ∷ []) rest)) base)

  close-IsCycle : (base : List Text) → Closed R base → IsCycle R (close base)
  close-IsCycle [] h = elim h [ ]
  close-IsCycle (x ∷ xs) h = (x, (xs, (refl, h)))

ends_in_last : (x : Text) (xs : List Text) → ends_in x (xs ++ x ∷ []) ≡ true
ends_in_last x [] = text_eq_refl x
ends_in_last x (y ∷ []) = text_eq_refl x
ends_in_last x (y ∷ z ∷ xs) = ends_in_last x (z ∷ xs)

without_last-append : (x : Text) (xs : List Text) → without_last (xs ++ x ∷ []) ≡ xs
unfolding without_last
without_last-append x [] = refl
without_last-append x (y ∷ []) = refl
without_last-append x (y ∷ z ∷ xs) = ap (λ l. y ∷ l) (without_last-append x (z ∷ xs))

normalize_closed : (x : Text) (xs : List Text) → normalize_cycle_nodes (x ∷ xs ++ x ∷ []) ≡ x ∷ xs
unfolding normalize_cycle_nodes
normalize_closed x [] = rw (ends_in_last x []) (without_last-append x (x ∷ []))
normalize_closed x (y ∷ ys) = rw (ends_in_last x (y ∷ ys)) (without_last-append x (x ∷ y ∷ ys))

module _ (R : Text → Text → Bool) where
  pub canonicalize_cycle-IsCycle :
      (order : Collation) (x : Text) (xs : List Text)
      → Chain R x (xs ++ x ∷ [])
      → IsCycle R (canonicalize_cycle order (x ∷ xs ++ x ∷ []))
  unfolding canonicalize_cycle
  canonicalize_cycle-IsCycle order x xs h =
      rw (normalize_closed x xs)
        (close-IsCycle R _ (best_rotation-Closed R order (x ∷ xs) x [] xs h h))

  slice_found :
      (next t : Text) (done : List Text) (o : Option (List Text))
      → text_eq next t ≡ true
      → Chain R t (done ++ next ∷ [])
      → (zs : List Text) × (((if text_eq next t then some (t ∷ done) else o) ≡ some (next ∷ zs))
          × Chain R next (zs ++ next ∷ []))
  slice_found next t done o e h =
      let same = text_eq→eq next t e in
      (
        done,
        (
          rw e (ap (λ v. some (v ∷ done)) (sym same)),
          subst (λ v. Chain R v (done ++ next ∷ [])) (sym same) h,
        ),
      )

  -- From a stack that holds `next`, the slice is a walk from `next` to its top, and on to `next`.
  pub slice_from-Chain :
      (next t : Text) (done stack : List Text)
      → member next (t ∷ stack) ≡ true
      → Linked R (t ∷ stack)
      → Chain R t (done ++ next ∷ [])
      → (zs : List Text) × ((slice_from next done (t ∷ stack) ≡ some (next ∷ zs))
          × Chain R next (zs ++ next ∷ []))
  unfolding slice_from member
  slice_from-Chain next t done [] m linked h = elim (Bool-cases (text_eq next t)) [
    | inl e ↦ slice_found next t done none e h
    | inr e ↦ absurd (cc (rw e at m))
  ]
  slice_from-Chain next t done (u ∷ stack) m linked h = elim (Bool-cases (text_eq next t)) [
    | inl e ↦ slice_found next t done (slice_from next (t ∷ done) (u ∷ stack)) e h
    | inr e ↦ rw e (slice_from-Chain next u (t ∷ done) stack (rw e at m) linked.1 (linked.0, h))
  ]
