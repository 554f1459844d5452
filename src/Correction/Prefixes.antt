-- ===== src/Correction/Prefixes.antt =====
-- Sorting texts without repetition (agent/correction/policy-engine.ts `sortUniqueStrings`) keeps
-- exactly the set of the texts.
use mathlib.Core.Path.{subst}
use deeprun.Prelude.{
  ◌≡◌, refl, sym, ◌↔◌, ◌⊎◌, inl, inr, Bool, true, false, not, List, [], ◌∷◌, Text, All, filter,
  text_eq, text_eq→eq, text_eq_refl, Bool-cases,
}
use deeprun.Correction.Metadata.{unique_of}
use deeprun.Correction.Policy.{insert, sort, sort_unique_strings}

abbrev pub In : Text → List Text → Type 0
In t [] = ⊥
In t (u ∷ us) = (t ≡ u) ⊎ In t us

-- Each list has the texts of the other.
abbrev pub SameTexts : List Text → List Text → Type 0
SameTexts xs ys = All (λ t. In t ys) xs × All (λ t. In t xs) ys

abbrev Distinct : List Text → Type 0
Distinct [] = Unit
Distinct (t ∷ ts) = (¬ (In t ts)) × Distinct ts

All-In : (P : Text → Type 0) (t : Text) (xs : List Text) → All P xs → In t xs → P t
All-In P t [] h i = absurd i
All-In P t (x ∷ xs) (h, hs) (inl e) = subst P (sym e) h
All-In P t (x ∷ xs) (h, hs) (inr i) = All-In P t xs hs i

each : (P : Text → Type 0) (xs : List Text) → ((t : Text) → In t xs → P t) → All P xs
each P [] f = tt
each P (x ∷ xs) f = (f x (inl refl), each P xs (λ t i. f t (inr i)))

pub filter-In :
    (p : Text → Bool) (t : Text) (xs : List Text) → In t (filter p xs) → In t xs × (p t ≡ true)
filter-In p t [] i = absurd i
filter-In p t (x ∷ xs) i = elim (Bool-cases (p x)) [
  | inr e ↦ let (j, h) = filter-In p t xs (rw e at i) in (inr j, h)
  | inl e ↦ elim (rw e at i) [
    | inl same ↦ (inl same, rw same e)
    | inr j ↦ let (k, h) = filter-In p t xs j in (inr k, h)
  ]
]

pub In-filter :
    (p : Text → Bool) (t : Text) (xs : List Text) → In t xs → p t ≡ true → In t (filter p xs)
In-filter p t [] i h = absurd i
In-filter p t (x ∷ xs) i h = elim (Bool-cases (p x)) [
  | inl e ↦ rw e (elim i [ inl same ↦ inl same | inr j ↦ inr (In-filter p t xs j h) ])
  | inr e ↦ rw e (elim i [ inl same ↦ absurd (cc (rw same at h)) | inr j ↦ In-filter p t xs j h ])
]

filter-Distinct : (p : Text → Bool) (xs : List Text) → Distinct xs → Distinct (filter p xs)
filter-Distinct p [] d = tt
filter-Distinct p (x ∷ xs) (n, d) = elim (Bool-cases (p x)) [
  | inl e ↦ rw e ((λ i. n (filter-In p x xs i).0), filter-Distinct p xs d)
  | inr e ↦ rw e (filter-Distinct p xs d)
]

pub unique_of-In : (t : Text) (xs : List Text) → In t (unique_of xs) → In t xs
unfolding unique_of
unique_of-In t [] i = i
unique_of-In t (x ∷ xs) (inl e) = inl e
unique_of-In t (x ∷ xs) (inr i) =
    inr (unique_of-In t xs (filter-In (λ u. not (text_eq x u)) t (unique_of xs) i).0)

pub In-unique_of : (t : Text) (xs : List Text) → In t xs → In t (unique_of xs)
unfolding unique_of
In-unique_of t [] i = i
In-unique_of t (x ∷ xs) (inl e) = inl e
In-unique_of t (x ∷ xs) (inr i) = elim (Bool-cases (text_eq x t)) [
  | inl e ↦ inl (sym (text_eq→eq x t e))
  | inr e ↦
      inr (In-filter (λ u. not (text_eq x u)) t (unique_of xs) (In-unique_of t xs i) (rw e refl))
]

unique_of-Distinct : (xs : List Text) → Distinct (unique_of xs)
unfolding unique_of
unique_of-Distinct [] = tt
unique_of-Distinct (x ∷ xs) = (
  (λ i.
      let (j, h) = filter-In (λ u. not (text_eq x u)) x (unique_of xs) i in
      absurd (cc (rw (text_eq_refl x) at h))),
  filter-Distinct (λ u. not (text_eq x u)) (unique_of xs) (unique_of-Distinct xs),
)

module _ (le : Text → Text → Bool) where
  abbrev Ordered : List Text → Type 0
  Ordered [] = Unit
  Ordered (x ∷ xs) = All (λ y. le x y ≡ true) xs × Ordered xs

  insert-In : (t x : Text) (ys : List Text) → In t (insert le x ys) → In t (x ∷ ys)
  unfolding insert
  insert-In t x [] i = i
  insert-In t x (y ∷ ys) i = elim (Bool-cases (le x y)) [
    | inl e ↦ rw e at i
    | inr e ↦ elim (rw e at i) [
      | inl same ↦ inr (inl same)
      | inr j ↦ elim (insert-In t x ys j) [ inl same ↦ inl same | inr k ↦ inr (inr k) ]
    ]
  ]

  In-insert : (t x : Text) (ys : List Text) → In t (x ∷ ys) → In t (insert le x ys)
  unfolding insert
  In-insert t x [] i = i
  In-insert t x (y ∷ ys) i = elim (Bool-cases (le x y)) [
    | inl e ↦ rw e i
    | inr e ↦ rw e (elim i [
      | inl same ↦ inr (In-insert t x ys (inl same))
      | inr (inl same) ↦ inl same
      | inr (inr j) ↦ inr (In-insert t x ys (inr j))
    ])
  ]

  sort-In : (t : Text) (xs : List Text) → In t (sort le xs) → In t xs
  unfolding sort
  sort-In t [] i = i
  sort-In t (x ∷ xs) i = elim (insert-In t x (sort le xs) i) [
    | inl e ↦ inl e
    | inr j ↦ inr (sort-In t xs j)
  ]

  In-sort : (t : Text) (xs : List Text) → In t xs → In t (sort le xs)
  unfolding sort
  In-sort t [] i = i
  In-sort t (x ∷ xs) (inl e) = In-insert t x (sort le xs) (inl e)
  In-sort t (x ∷ xs) (inr i) = In-insert t x (sort le xs) (inr (In-sort t xs i))

  insert-Distinct :
      (x : Text) (ys : List Text) → ¬ (In x ys) → Distinct ys → Distinct (insert le x ys)
  unfolding insert
  insert-Distinct x [] n d = (n, tt)
  insert-Distinct x (y ∷ ys) n (m, d) = elim (Bool-cases (le x y)) [
    | inl e ↦ rw e (n, (m, d))
    | inr e ↦ rw e (
      (λ i. elim (insert-In y x ys i) [ inl same ↦ n (inl (sym same)) | inr j ↦ m j ]),
      insert-Distinct x ys (λ i. n (inr i)) d,
    )
  ]

  sort-Distinct : (xs : List Text) → Distinct xs → Distinct (sort le xs)
  unfolding sort
  sort-Distinct [] d = tt
  sort-Distinct (x ∷ xs) (n, d) =
      insert-Distinct x (sort le xs) (λ i. n (sort-In x xs i)) (sort-Distinct xs d)

  module _ (total : (x y : Text) → le x y ≡ false → le y x ≡ true)
      (trans : (x y z : Text) → le x y ≡ true → le y z ≡ true → le x z ≡ true) where
    insert-Ordered : (x : Text) (ys : List Text) → Ordered ys → Ordered (insert le x ys)
    unfolding insert
    insert-Ordered x [] o = (tt, tt)
    insert-Ordered x (y ∷ ys) (l, o) = elim (Bool-cases (le x y)) [
      | inl e ↦ rw e (
        (
          e,
          each (λ z. le x z ≡ true) ys
              (λ z i. trans x y z e (All-In (λ w. le y w ≡ true) z ys l i)),
        ),
        (l, o),
      )
      | inr e ↦ rw e (
        each (λ z. le y z ≡ true) (insert le x ys)
            (λ z i. elim (insert-In z x ys i) [
              | inl same ↦ rw same (total x y e)
              | inr j ↦ All-In (λ w. le y w ≡ true) z ys l j
            ]),
        insert-Ordered x ys o,
      )
    ]

    sort-Ordered : (xs : List Text) → Ordered (sort le xs)
    unfolding sort
    sort-Ordered [] = tt
    sort-Ordered (x ∷ xs) = insert-Ordered x (sort le xs) (sort-Ordered xs)

  drop_head :
      (y : Text) (zs ys : List Text)
      → ¬ (In y zs)
      → All (λ t. In t (y ∷ ys)) zs
      → All (λ t. In t ys) zs
  drop_head y [] ys n h = tt
  drop_head y (z ∷ zs) ys n (h, hs) = (
    elim h [ inl e ↦ absurd (n (inl (sym e))) | inr i ↦ i ],
    drop_head y zs ys (λ i. n (inr i)) hs,
  )

  same_head :
      (x y : Text) (xs ys : List Text)
      → All (λ z. le x z ≡ true) xs
      → All (λ z. le y z ≡ true) ys
      → In x (y ∷ ys)
      → In y (x ∷ xs)
      → (le x y ≡ true → le y x ≡ true → x ≡ y)
      → x ≡ y
  same_head x y xs ys lx ly (inl e) j anti = e
  same_head x y xs ys lx ly (inr i) (inl e) anti = sym e
  same_head x y xs ys lx ly (inr i) (inr j) anti =
      anti (All-In (λ z. le x z ≡ true) y xs lx j) (All-In (λ z. le y z ≡ true) x ys ly i)

  -- Two lists in order, without repetition and with the same texts, are equal.
  ordered_eq :
      (xs ys : List Text)
      → Ordered xs
      → Ordered ys
      → Distinct xs
      → Distinct ys
      → SameTexts xs ys
      → ((p q : Text) → In p xs → In q ys → le p q ≡ true → le q p ≡ true → p ≡ q)
      → xs ≡ ys
  ordered_eq [] [] ox oy dx dy h anti = refl
  ordered_eq [] (y ∷ ys) ox oy dx dy h anti = absurd h.1.0
  ordered_eq (x ∷ xs) [] ox oy dx dy h anti = absurd h.0.0
  ordered_eq (x ∷ xs) (y ∷ ys) (lx, ox) (ly, oy) (nx, dx) (ny, dy) ((ix, sx), (iy, sy)) anti =
      let e = same_head x y xs ys lx ly ix iy (anti x y (inl refl) (inl refl)) in
      let rest =
        ordered_eq xs ys ox oy dx dy
          (
            drop_head y xs ys (subst (λ t. ¬ (In t xs)) e nx) sx,
            drop_head x ys xs (subst (λ t. ¬ (In t ys)) (sym e) ny) sy,
          )
          (λ p q i j. anti p q (inr i) (inr j)) in
      rw (e, rest) refl

  kept : (t : Text) (xs : List Text) → In t (sort_unique_strings le xs) → In t xs
  unfolding sort_unique_strings
  kept t xs i = unique_of-In t xs (sort-In t (unique_of xs) i)

  found : (t : Text) (xs : List Text) → In t xs → In t (sort_unique_strings le xs)
  unfolding sort_unique_strings
  found t xs i = In-sort t (unique_of xs) (In-unique_of t xs i)

  one_way :
      (xs ys : List Text)
      → sort_unique_strings le xs ≡ sort_unique_strings le ys
      → All (λ t. In t ys) xs
  one_way xs ys e = each (λ t. In t ys) xs (λ t i. kept t ys (subst (In t) e (found t xs i)))

  -- Sorted without repetition, two lists are equal exactly if they have the same texts, where the
  -- order takes no two different texts of the lists for equal.
  pub sort_unique_strings-SameTexts :
      (xs ys : List Text)
      → ((x y : Text) → le x y ≡ false → le y x ≡ true)
      → ((x y z : Text) → le x y ≡ true → le y z ≡ true → le x z ≡ true)
      → ((p q : Text) → In p xs → In q ys → le p q ≡ true → le q p ≡ true → p ≡ q)
      → (sort_unique_strings le xs ≡ sort_unique_strings le ys) ↔ SameTexts xs ys
  sort_unique_strings-SameTexts xs ys total trans anti = (
    (λ e. (one_way xs ys e, one_way ys xs (sym e))),
    (λ (sx, sy).
        unfold sort_unique_strings in
        ordered_eq (sort_unique_strings le xs) (sort_unique_strings le ys)
          (sort-Ordered total trans (unique_of xs)) (sort-Ordered total trans (unique_of ys))
          (sort-Distinct (unique_of xs) (unique_of-Distinct xs))
          (sort-Distinct (unique_of ys) (unique_of-Distinct ys))
          (
            each (λ t. In t (sort_unique_strings le ys)) (sort_unique_strings le xs)
                (λ t i. found t ys (All-In (λ u. In u ys) t xs sx (kept t xs i))),
            each (λ t. In t (sort_unique_strings le xs)) (sort_unique_strings le ys)
                (λ t i. found t xs (All-In (λ u. In u xs) t ys sy (kept t ys i))),
          )
          (λ p q i j. anti p q (kept p xs i) (kept q ys j))),
  )
