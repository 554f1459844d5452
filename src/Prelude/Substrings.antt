-- ===== src/Prelude/Substrings.antt =====
-- What `startsWith`, `includes` and `endsWith` tell: that a text is cut into parts.
use Prim.Native.Nat.{ℕ}
use mathlib.Core.Path.{◌≡◌, refl, sym}
use mathlib.Core.Logic.{◌↔◌, ◌⊎◌, inl, inr}
use mathlib.Core.Bool.{Bool, true, false, ◌||◌}
use mathlib.Core.List.{[], ◌∷◌, ◌++◌}
use native.Mathlib.Omega.{arith}
use deeprun.Prelude.Tests.{◌==◌, ==_iff, Bool-cases}
use deeprun.Prelude.Texts.{Text, text_eq_iff, starts_with, includes, ends_with}

-- The text begins with `p`, has `p` in it, ends in `p`.
abbrev pub Begins : Text → Text → Type 0
Begins p s = (post : Text) × (s ≡ p ++ post)

abbrev pub Holds : Text → Text → Type 0
Holds p s = (pre : Text) × ((post : Text) × (s ≡ pre ++ (p ++ post)))

abbrev pub Ends : Text → Text → Type 0
Ends p s = (pre : Text) × (s ≡ pre ++ p)

-- A test that tells a property tells its negation, and two tests tell the one or the other.
pub denied : {P : Type 0} (b : Bool) → (b ≡ true) ↔ P → (b ≡ false) ↔ (¬ P)
denied true (f, g) = ((λ h. ground arith), (λ h. absurd (h (f refl))))
denied false (f, g) = ((λ h p. ground (arith, g p)), (λ h. refl))

pub either :
    {P Q : Type 0} (a b : Bool) → (a ≡ true) ↔ P → (b ≡ true) ↔ Q → ((a || b) ≡ true) ↔ (P ⊎ Q)
either true b (f, g) (f', g') = ((λ h. inl (f refl)), (λ h. refl))
either false b (f, g) (f', g') =
    ((λ h. inr (f' h)), (λ h. elim h [ inl p ↦ absurd (cc (g p)) | inr q ↦ g' q ]))

cons_eq : {a b : ℕ} {s t : Text} → a ≡ b → s ≡ t → a ∷ s ≡ b ∷ t
cons_eq e f = rw (e, f) refl

pub starts_with_iff : (p s : Text) → (starts_with p s ≡ true) ↔ Begins p s
unfolding starts_with
starts_with_iff [] s = ((λ h. (s, refl)), (λ h. refl))
starts_with_iff (a ∷ p) [] = ((λ h. absurd (cc h)), (λ h. absurd (cc h.1)))
starts_with_iff (a ∷ p) (b ∷ s) =
    let (f, g) = starts_with_iff p s in
    elim (Bool-cases (a == b)) [
      | inl e ↦ (
        (λ h. let (post, e') = f (rw e at h) in (post, cons_eq (sym ((==_iff a b).0 e)) e')),
        (λ h. rw e (g (h.0, ground (arith, h.1)))),
      )
      | inr e ↦ ((λ h. absurd (cc (rw e at h))), (λ h. ground (arith, e, h.1, (==_iff a b).1)))
    ]

later : (p : Text) {s : Text} (c : ℕ) → Holds p s → Holds p (c ∷ s)
later p c (pre, (post, e)) = (c ∷ pre, (post, cons_eq refl e))

first_part :
    (p : Text) {s : Text} {c : ℕ} (pre post : Text)
    → c ∷ s ≡ pre ++ (p ++ post)
    → Begins p (c ∷ s) ⊎ Holds p s
first_part p [] post e = inl (post, e)
first_part p (d ∷ pre) post e = inr (pre, (post, ground (arith, e)))

now_or_later : (p : Text) (c : ℕ) (s : Text) → Holds p (c ∷ s) ↔ (Begins p (c ∷ s) ⊎ Holds p s)
now_or_later p c s =
    ((λ h. first_part p h.0 h.1.0 h.1.1), (λ h. elim h [ inl b ↦ ([], b) | inr l ↦ later p c l ]))

cut_of_nothing : (p pre post : Text) → [] ≡ pre ++ (p ++ post) → Begins p []
cut_of_nothing p [] post e = (post, e)
cut_of_nothing p (d ∷ pre) post e = absurd (cc e)

empty_holds : (p : Text) → Holds p [] ↔ Begins p []
empty_holds p = ((λ h. cut_of_nothing p h.0 h.1.0 h.1.1), (λ h. ([], h)))

chain : {P Q R : Type 0} → P ↔ Q → R ↔ Q → P ↔ R
chain (f, f') (g, g') = ((λ p. g' (f p)), (λ r. f' (g r)))

pub includes_iff : (p s : Text) → (includes p s ≡ true) ↔ Holds p s
unfolding includes
includes_iff p [] = chain (starts_with_iff p []) (empty_holds p)
includes_iff p (c ∷ s) =
    chain (either _ _ (starts_with_iff p (c ∷ s)) (includes_iff p s)) (now_or_later p c s)

last_part : {p s : Text} {c : ℕ} (pre : Text) → c ∷ s ≡ pre ++ p → (p ≡ c ∷ s) ⊎ Ends p s
last_part [] e = inl (sym e)
last_part (d ∷ pre) e = inr (pre, ground (arith, e))

whole_or_later : (p : Text) (c : ℕ) (s : Text) → Ends p (c ∷ s) ↔ ((p ≡ c ∷ s) ⊎ Ends p s)
whole_or_later p c s = (
  (λ h. last_part h.0 h.1),
  (λ h. elim h [ inl e ↦ ([], sym e) | inr l ↦ (c ∷ l.0, cons_eq refl l.1) ]),
)

cut_at_nothing : {p : Text} (pre : Text) → [] ≡ pre ++ p → p ≡ []
cut_at_nothing [] e = sym e
cut_at_nothing (d ∷ pre) e = absurd (cc e)

end_of_nothing : (p : Text) → Ends p [] ↔ (p ≡ [])
end_of_nothing p = ((λ h. cut_at_nothing h.0 h.1), (λ e. ([], sym e)))

pub ends_with_iff : (p s : Text) → (ends_with p s ≡ true) ↔ Ends p s
unfolding ends_with
ends_with_iff p [] = chain (text_eq_iff p []) (end_of_nothing p)
ends_with_iff p (c ∷ s) =
    chain (either _ _ (text_eq_iff p (c ∷ s)) (ends_with_iff p s)) (whole_or_later p c s)
