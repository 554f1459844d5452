-- ===== src/ImportGraph/Sets.antt =====
-- The sets of the search as lists (agent/validation/graph-builder.ts).
use deeprun.Prelude.{
  ℕ, suc, ◌≤◌, ◌<◌, ◌≡◌, refl, sym, ◌∙◌, Bool, true, false, List, [], ◌∷◌, Text, arith, text_eq,
  text_eq→eq, text_eq_refl, text_eq_iff, if◌then◌else◌, Bool-cases, inl, inr, All, length,
}
use deeprun.ImportGraph.Model.{member, add, delete, insert_by, sort_by}

pub member_head : (x : Text) (xs : List Text) → member x (x ∷ xs) ≡ true
unfolding member
member_head x xs = rw (text_eq_refl x) refl

pub member-cons : (x y : Text) (xs : List Text) → member x xs ≡ true → member x (y ∷ xs) ≡ true
unfolding member
member-cons x y xs h = ground arith

pub member-add : (x : Text) (xs : List Text) → member x (add x xs) ≡ true
unfolding add
member-add x xs = elim (Bool-cases (member x xs)) [
  | inl e ↦ rw e e
  | inr e ↦ rw e (member_head x xs)
]

pub member-add_other :
    (y x : Text) (xs : List Text) → member y xs ≡ true → member y (add x xs) ≡ true
unfolding add
member-add_other y x xs h = elim (Bool-cases (member x xs)) [
  | inl e ↦ rw e h
  | inr e ↦ rw e (member-cons y x xs h)
]

pub delete_absent : (x : Text) (xs : List Text) → member x xs ≡ false → delete x xs ≡ xs
unfolding delete member
delete_absent x [] h = refl
delete_absent x (y ∷ ys) h = ground (arith, delete_absent x ys)

pub delete-cons : (x : Text) (xs : List Text) → member x xs ≡ false → delete x (x ∷ xs) ≡ xs
unfolding delete
delete-cons x xs h = rw (text_eq_refl x) (delete_absent x xs h)

-- The nodes that are in neither set.
unfoldable pub free : List Text → List Text → List Text → ℕ
free visiting visited [] = 0
free visiting visited (n ∷ ns) =
    if member n visiting
    then free visiting visited ns
    else if member n visited
    then free visiting visited ns
    else suc (free visiting visited ns)

pub free-le-length : (visiting visited ns : List Text) → free visiting visited ns ≤ length ns
unfolding free
free-le-length visiting visited [] = omega arith
free-le-length visiting visited (n ∷ ns) = ground (arith, free-le-length visiting visited ns)

pub free_mono :
    (visiting visited visited' ns : List Text)
    → ((y : Text) → member y visited ≡ true → member y visited' ≡ true)
    → free visiting visited' ns ≤ free visiting visited ns
unfolding free
free_mono visiting visited visited' [] h = omega arith
free_mono visiting visited visited' (n ∷ ns) h =
    ground (arith, h n, free_mono visiting visited visited' ns h)

free-add_le :
    (x : Text) (visiting visited ns : List Text)
    → free (x ∷ visiting) visited ns ≤ free visiting visited ns
unfolding free member
free-add_le x visiting visited [] = omega arith
free-add_le x visiting visited (n ∷ ns) = ground (arith, free-add_le x visiting visited ns)

-- One node fewer is free when it is entered.
pub free-add :
    (x : Text) (visiting visited ns : List Text)
    → member x visiting ≡ false
    → member x visited ≡ false
    → member x ns ≡ true
    → free (x ∷ visiting) visited ns < free visiting visited ns
unfolding free member
free-add x visiting visited [] h k m = ground arith
free-add x visiting visited (n ∷ ns) h k m = elim (Bool-cases (text_eq x n)) [
  | inl e ↦
      let same = text_eq→eq x n e in
      let h' : member n visiting ≡ false = rw (← same) h in
      let k' : member n visited ≡ false = rw (← same) k in
      ground (arith, text_eq_iff n x, sym same, h', k', free-add_le x visiting visited ns)
  | inr e ↦ ground (arith, free-add x visiting visited ns h k, e)
]

-- Sorting keeps the members.
module _ {ℓ} {A : Type ℓ} (le : A → A → Bool) (P : A → Type 0) where
  insert_by-All : (x : A) (ys : List A) → P x → All P ys → All P (insert_by le x ys)
  insert_by-All x [] h k = (h, tt)
  insert_by-All x (y ∷ ys) h k = elim (Bool-cases (le x y)) [
    | inl e ↦ rw e (h, k)
    | inr e ↦ rw e (k.0, insert_by-All x ys h k.1)
  ]

  pub sort_by-All : (xs : List A) → All P xs → All P (sort_by le xs)
  sort_by-All [] h = tt
  sort_by-All (x ∷ xs) h = insert_by-All x (sort_by le xs) h.0 (sort_by-All xs h.1)

insert_by-cons {ℓ} :
    {A : Type ℓ} (le : A → A → Bool) (x : A) (ys : List A)
    → (z : A) × ((zs : List A) × (insert_by le x ys ≡ z ∷ zs))
insert_by-cons le x [] = (x, ([], refl))
insert_by-cons le x (y ∷ ys) = elim (Bool-cases (le x y)) [
  | inl e ↦ (x, (y ∷ ys, rw e refl))
  | inr e ↦ (y, (insert_by le x ys, rw e refl))
]

-- Only the empty list is sorted to the empty list.
pub sort_by-nil {ℓ} : {A : Type ℓ} (le : A → A → Bool) (xs : List A) → sort_by le xs ≡ [] → xs ≡ []
sort_by-nil le [] h = refl
sort_by-nil le (x ∷ xs) h =
    let (z, (zs, e)) = insert_by-cons le x (sort_by le xs) in absurd (cc (sym e ∙ h))

member-insert_by :
    (le : Text → Text → Bool) (y x : Text) (ys : List Text)
    → member y (insert_by le x ys) ≡ member y (x ∷ ys)
unfolding member
member-insert_by le y x [] = refl
member-insert_by le y x (z ∷ zs) = ground (arith, member-insert_by le y x zs)

pub member-sort_by :
    (le : Text → Text → Bool) (y : Text) (xs : List Text) → member y (sort_by le xs) ≡ member y xs
unfolding member
member-sort_by le y [] = refl
member-sort_by le y (x ∷ xs) =
    member-insert_by le y x (sort_by le xs) ∙ rw (member-sort_by le y xs) refl
