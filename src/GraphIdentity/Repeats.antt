-- ===== src/GraphIdentity/Repeats.antt =====
-- Lists of run ids without repetition (agent/graph-identity.ts).
use deeprun.Prelude.{
  ℕ, ◌+◌, ◌≤◌, ◌≡◌, refl, sym, Bool, true, false, not, ◌&&◌, ◌||◌, ◌==◌, ==_iff, ==_refl, List, [],
  ◌∷◌, ◌++◌, All, arith, length, Bool-cases, inl, inr, if◌then◌else◌,
}
use mathlib.Core.Path.{subst}
use deeprun.GraphIdentity.Model.{has}

unfoldable pub unique : List ℕ → Bool
unique [] = true
unique (x ∷ xs) = not (has x xs) && unique xs

unfoldable remove : ℕ → List ℕ → List ℕ
remove x [] = []
remove x (y ∷ ys) = let rest = remove x ys in if x == y then ys else y ∷ rest

remove-length : (x : ℕ) (ys : List ℕ) → has x ys ≡ true → length (remove x ys) + 1 ≡ length ys
unfolding remove has
remove-length x [] h = ground arith
remove-length x (y ∷ ys) h = ground (arith, remove-length x ys)

has-remove :
    (z x : ℕ) (ys : List ℕ) → (z == x) ≡ false → has z ys ≡ true → has z (remove x ys) ≡ true
unfolding remove has
has-remove z x [] other h = h
has-remove z x (y ∷ ys) other h = ground (arith, has-remove z x ys)

All-remove :
    (x : ℕ) (xs ys : List ℕ)
    → has x xs ≡ false
    → All (λ z. has z ys ≡ true) xs
    → All (λ z. has z (remove x ys) ≡ true) xs
unfolding has
All-remove x [] ys away h = tt
All-remove x (z ∷ zs) ys away (h, hs) =
    (has-remove z x ys (ground arith) h, All-remove x zs ys (ground arith) hs)

-- A list without repetition is no longer than one that has its elements.
pub unique-length :
    (xs ys : List ℕ) → unique xs ≡ true → All (λ z. has z ys ≡ true) xs → length xs ≤ length ys
unfolding unique
unique-length [] ys u h = omega arith
unique-length (x ∷ xs) ys u (h, hs) =
    let shorter =
      unique-length xs (remove x ys) (ground arith) (All-remove x xs ys (ground arith) hs) in
    let one = remove-length x ys h in omega (arith, shorter, one)

pub has_head : (x : ℕ) (xs : List ℕ) → has x (x ∷ xs) ≡ true
unfolding has
has_head x xs = rw (==_refl x) refl

pub has-append : (x : ℕ) (xs ys : List ℕ) → has x (xs ++ ys) ≡ (has x xs || has x ys)
unfolding has
has-append x [] ys = refl
has-append x (z ∷ zs) ys = ground (arith, has-append x zs ys)

pub All-has : (P : ℕ → Type 0) (x : ℕ) (xs : List ℕ) → All P xs → has x xs ≡ true → P x
unfolding has
All-has P x [] h m = ground arith
All-has P x (z ∷ zs) (h, hs) m = elim (Bool-cases (x == z)) [
  | inl e ↦ subst P (sym ((==_iff x z).0 e)) h
  | inr e ↦ All-has P x zs hs (rw e at m)
]
