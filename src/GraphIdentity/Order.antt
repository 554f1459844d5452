-- ===== src/GraphIdentity/Order.antt =====
-- The order of code units, and sorting by it, which forgets the order of a list
-- (agent/graph-identity.ts).
use mathlib.Core.List.{Permᴰ}
use deeprun.Prelude.{
  ◌≡◌, refl, sym, ap, ◌∙◌, Bool, true, false, List, [], ◌∷◌, Text, arith, Bool-cases, inl, inr,
  if◌then◌else◌,
}
use deeprun.GraphIdentity.Identity.{text_le, edge_le, insert_sorted, sorted}

pub text_le_refl : (s : Text) → text_le s s ≡ true
unfolding text_le
text_le_refl [] = refl
text_le_refl (a ∷ s) = ground (arith, text_le_refl s)

pub text_le_total : (s t : Text) → text_le s t ≡ false → text_le t s ≡ true
unfolding text_le
text_le_total [] t h = ground arith
text_le_total (a ∷ s) [] h = refl
text_le_total (a ∷ s) (b ∷ t) h = ground (arith, text_le_total s t)

pub text_le_antisym : (s t : Text) → text_le s t ≡ true → text_le t s ≡ true → s ≡ t
unfolding text_le
text_le_antisym [] [] h k = refl
text_le_antisym [] (b ∷ t) h k = ground arith
text_le_antisym (a ∷ s) [] h k = ground arith
text_le_antisym (a ∷ s) (b ∷ t) h k = ground (arith, text_le_antisym s t)

pub text_le_trans : (s t u : Text) → text_le s t ≡ true → text_le t u ≡ true → text_le s u ≡ true
unfolding text_le
text_le_trans [] t u h k = refl
text_le_trans (a ∷ s) [] u h k = ground arith
text_le_trans (a ∷ s) (b ∷ t) [] h k = ground arith
text_le_trans (a ∷ s) (b ∷ t) (c ∷ u) h k = ground (arith, text_le_trans s t u)

-- A total order, as the sort takes it.
pub record TotalOrder {ℓ} {A : Type ℓ} (le : A → A → Bool) : Type ℓ where
  pub total : (x y : A) → le x y ≡ false → le y x ≡ true
  pub antisym : (x y : A) → le x y ≡ true → le y x ≡ true → x ≡ y
  pub trans : (x y z : A) → le x y ≡ true → le y z ≡ true → le x z ≡ true

pub text_order : TotalOrder text_le
text_order = record { total = text_le_total; antisym = text_le_antisym; trans = text_le_trans }

pub edge_order : TotalOrder edge_le
unfolding edge_le
edge_order = record {
  total = λ (a, b) (c, d). ground (arith, text_le_total a c, text_le_total c a, text_le_total b d);
  antisym = λ (a, b) (c, d).
      ground
        (arith, text_le_total a c, text_le_total c a, text_le_antisym a c, text_le_antisym b d);
  trans = λ (a, b) (c, d) (e, f). ground (
    arith,
    text_le_total a c,
    text_le_total c a,
    text_le_total a e,
    text_le_total c e,
    text_le_trans a c e,
    text_le_trans e c a,
    text_le_trans e a c,
    text_le_trans c e a,
    text_le_trans b d f,
  );
}

module _ {ℓ} {A : Type ℓ} (le : A → A → Bool) (total : (x y : A) → le x y ≡ false → le y x ≡ true)
    (trans : (x y z : A) → le x y ≡ true → le y z ≡ true → le x z ≡ true) where
  -- Two elements before a list, in their order.
  two_first :
      (x y : A)
      → (le x y ≡ true → le y x ≡ true → x ≡ y)
      → (l : List A)
      → (if le x y then x ∷ y ∷ l else y ∷ x ∷ l) ≡ (if le y x then y ∷ x ∷ l else x ∷ y ∷ l)
  two_first x y same l = elim (Bool-cases (le x y)) [
    | inl h ↦ elim (Bool-cases (le y x)) [
      | inl k ↦ rw (h, k, same h k) refl
      | inr k ↦ rw (h, k) refl
    ]
    | inr h ↦ rw (h, total x y h) refl
  ]

  before : (x z : A) (zs : List A) → le x z ≡ true → insert_sorted le x (z ∷ zs) ≡ x ∷ z ∷ zs
  before x z zs h = rw h refl

  behind :
      (x z : A) (zs : List A)
      → le x z ≡ false
      → insert_sorted le x (z ∷ zs) ≡ z ∷ insert_sorted le x zs
  behind x z zs h = rw h refl

  beyond : (x y z : A) → le y z ≡ true → le x z ≡ false → le x y ≡ false
  beyond x y z h k = elim (Bool-cases (le x y)) [
    | inr e ↦ e
    | inl e ↦ absurd (cc (sym k ∙ trans x y z e h))
  ]

  -- Two elements that are equal where neither comes first can be inserted in either order.
  pub insert_swap :
      (x y : A)
      → (le x y ≡ true → le y x ≡ true → x ≡ y)
      → (l : List A)
      → insert_sorted le x (insert_sorted le y l) ≡ insert_sorted le y (insert_sorted le x l)
  insert_swap x y same [] = two_first x y same []
  insert_swap x y same (z ∷ zs) = elim (Bool-cases (le x z)) [
    | inl h ↦ elim (Bool-cases (le y z)) [
      | inl k ↦
          ap (insert_sorted le x) (before y z zs k)
          ∙ (ap (λ r. if le x y then x ∷ y ∷ z ∷ zs else y ∷ r) (before x z zs h)
              ∙ (two_first x y same (z ∷ zs)
                  ∙ (sym (ap (λ r. if le y x then y ∷ x ∷ z ∷ zs else x ∷ r) (before y z zs k))
                      ∙ sym (ap (insert_sorted le y) (before x z zs h)))))
      | inr k ↦
          ap (insert_sorted le x) (behind y z zs k)
          ∙ (before x z (insert_sorted le y zs) h
              ∙ (sym (ap (λ r. x ∷ r) (behind y z zs k))
                  ∙ (sym (behind y x (z ∷ zs) (beyond y x z h k))
                      ∙ sym (ap (insert_sorted le y) (before x z zs h)))))
    ]
    | inr h ↦ elim (Bool-cases (le y z)) [
      | inl k ↦
          ap (insert_sorted le x) (before y z zs k)
          ∙ (behind x y (z ∷ zs) (beyond x y z k h)
              ∙ (ap (λ r. y ∷ r) (behind x z zs h)
                  ∙ (sym (before y z (insert_sorted le x zs) k)
                      ∙ sym (ap (insert_sorted le y) (behind x z zs h)))))
      | inr k ↦
          ap (insert_sorted le x) (behind y z zs k)
          ∙ (behind x z (insert_sorted le y zs) h
              ∙ (ap (λ r. z ∷ r) (insert_swap x y same zs)
                  ∙ (sym (behind y z (insert_sorted le x zs) k)
                      ∙ sym (ap (insert_sorted le y) (behind x z zs h)))))
    ]
  ]

module _ {ℓ} {A : Type ℓ} (le : A → A → Bool) (order : TotalOrder le) where
  pub sorted-Perm : {xs ys : List A} → Permᴰ xs ys → sorted le xs ≡ sorted le ys
  sorted-Perm Permᴰ.nil = refl
  sorted-Perm (Permᴰ.cons e p) = rw (e, sorted-Perm p) refl
  sorted-Perm (Permᴰ.swap {a} {b} {a'} {b'} {l} e e') =
      rw (e, e') (insert_swap le order.total order.trans b' a' (order.antisym b' a') (sorted le l))
  sorted-Perm (Permᴰ.trans p q) = sorted-Perm p ∙ sorted-Perm q
