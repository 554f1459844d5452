-- ===== src/Correction/Allowed.antt =====
-- The paths that a correction may change, stated by the parts of a text
-- (agent/correction/policy-engine.ts `isPathAllowed`).
use deeprun.Prelude.{
  ◌≡◌, refl, ◌↔◌, ◌⊎◌, inl, inr, Bool, true, false, List, [], ◌∷◌, ◌++◌, Text, if◌then◌else◌,
  is_empty, text_eq_iff, ◌≢◌, codes, Begins, Ends, either, starts_with_iff, ends_with_iff,
}
use deeprun.Correction.Metadata.{Js, normalize_path_prefix}
use deeprun.Correction.Paths.{within, is_path_allowed}

-- The path is the one of the prefix, or below it; a prefix that ends in "/" begins the path.
abbrev pub Within : Text → Text → Type 0
Within path prefix =
    (prefix ≢ [])
    × ((Ends (codes "/") prefix × Begins prefix path)
        ⊎ ((¬ (Ends (codes "/") prefix)) × ((path ≡ prefix) ⊎ Begins (prefix ++ codes "/") path)))

-- The path is within one of the prefixes, all in their normal form.
abbrev pub SomeWithin : Js → Text → List Text → Type 0
SomeWithin js path [] = ⊥
SomeWithin js path (p ∷ ps) =
    Within (normalize_path_prefix js path) (normalize_path_prefix js p) ⊎ SomeWithin js path ps

pub is_nil : (t : Text) → (is_empty t ≡ true) ↔ (t ≡ [])
is_nil [] = ((λ h. refl), (λ h. refl))
is_nil (c ∷ t) = ((λ h. absurd (cc h)), (λ h. absurd (cc h)))

-- The rule with its tests taken apart.
within_tests :
    {P Q R : Type 0} (e d b o : Bool)
    → (e ≡ true) ↔ P
    → (d ≡ true) ↔ Q
    → (b ≡ true) ↔ R
    → {S : Type 0} → (o ≡ true) ↔ S
    → ((if e then false else if d then b else o) ≡ true) ↔ ((¬ P) × ((Q × R) ⊎ ((¬ Q) × S)))
within_tests true d b o (p, p') q r s = ((λ h. absurd (cc h)), (λ h. absurd (h.0 (p refl))))
within_tests false true b o (p, p') (q, q') (r, r') s = (
  (λ h. ((λ x. absurd (cc (p' x))), inl (q refl, r h))),
  (λ h. elim h.1 [ inl i ↦ r' i.1 | inr i ↦ absurd (i.0 (q refl)) ]),
)
within_tests false false b o (p, p') (q, q') r (s, s') = (
  (λ h. ((λ x. absurd (cc (p' x))), inr ((λ x. absurd (cc (q' x))), s h))),
  (λ h. elim h.1 [ inl i ↦ absurd (cc (q' i.0)) | inr i ↦ s' i.1 ]),
)

within_iff : (path prefix : Text) → (within path prefix ≡ true) ↔ Within path prefix
within_iff path prefix =
    within_tests _ _ _ _ (is_nil prefix) (ends_with_iff (codes "/") prefix)
      (starts_with_iff prefix path)
      (either _ _ (text_eq_iff path prefix) (starts_with_iff (prefix ++ codes "/") path))

pub path_allowed :
    (js : Js) (path : Text) (ps : List Text)
    → (is_path_allowed js path ps ≡ true) ↔ SomeWithin js path ps
unfolding is_path_allowed
path_allowed js path [] = ((λ h. absurd (cc h)), (λ h. absurd h))
path_allowed js path (p ∷ ps) =
    either _ _ (within_iff (normalize_path_prefix js path) (normalize_path_prefix js p))
      (path_allowed js path ps)
