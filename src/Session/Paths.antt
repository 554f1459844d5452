-- ===== src/Session/Paths.antt =====
-- The paths and contents that the validator refuses (agent/fs/validator.ts), stated by the parts of
-- a text instead of the tests of the code.
use deeprun.Prelude.{
  ℕ, ◌+◌, ◌≤◌, ◌≡◌, ◌≢◌, ◌↔◌, ◌⊎◌, inl, inr, refl, sym, ap, ◌∙◌, Bool, true, false, not, ◌&&◌, List,
  [], ◌∷◌, ◌++◌, Text, codes, is_empty, text_eq_iff, forward_slashes, strip_trailing, any, All, leb,
  ◌==◌, arith, if◌then◌else◌, Bool-cases, Begins, Holds, Ends, denied, either, starts_with_iff,
  includes_iff, ends_with_iff,
}
use deeprun.Session.Model.{Platform}
use deeprun.Session.Validator.{
  lower, suspicious, under_prefix, has_binary_like_content, has_unsafe_relative_path,
  is_restricted_env_path, is_restricted_by_prefix, inside,
}

-- With "/" for "\", the path does not begin with "/" and has neither "../" nor "/.." in it.
abbrev pub SafePath : Text → Type 0
SafePath path = ¬ (
    (Begins (codes "/") (forward_slashes path) ⊎ Holds (codes "../") (forward_slashes path))
    ⊎ Holds (codes "/..") (forward_slashes path))

pub SafePath-iff : (path : Text) → (has_unsafe_relative_path path ≡ false) ↔ SafePath path
unfolding has_unsafe_relative_path
SafePath-iff path =
    let p = forward_slashes path in
    denied _ (
      either _ _ (either _ _ (starts_with_iff (codes "/") p) (includes_iff (codes "../") p))
        (includes_iff (codes "/..") p))

-- ".env", in letters of any case.
abbrev pub EnvName : Text → Type 0
EnvName (a ∷ b ∷ c ∷ d ∷ []) =
    (a ≡ b'.')
    × (((b ≡ b'e') ⊎ (b ≡ b'E')) × (((c ≡ b'n') ⊎ (c ≡ b'N')) × ((d ≡ b'v') ⊎ (d ≡ b'V'))))
EnvName _ = ⊥

-- The last part of the path is such a name.
abbrev pub EnvFile : Text → Type 0
EnvFile path =
    EnvName (forward_slashes path)
    ⊎ ((pre : Text) × ((name : Text) × (EnvName name
            × (forward_slashes path ≡ pre ++ b'/' ∷ name))))

abbrev low : ℕ → ℕ
low c = if leb 65 c && leb c 90 then c + 32 else c

low-e : (c : ℕ) → (low c ≡ 101) ↔ ((c ≡ 101) ⊎ (c ≡ 69))
low-e c = ground arith

low-n : (c : ℕ) → (low c ≡ 110) ↔ ((c ≡ 110) ⊎ (c ≡ 78))
low-n c = ground arith

low-v : (c : ℕ) → (low c ≡ 118) ↔ ((c ≡ 118) ⊎ (c ≡ 86))
low-v c = ground arith

low-dot : (c : ℕ) → (low c ≡ 46) ↔ (c ≡ 46)
low-dot c = ground arith

low-slash : (c : ℕ) → (low c ≡ 47) ↔ (c ≡ 47)
low-slash c = ground arith

named : (s : Text) → (lower s ≡ codes ".env") ↔ EnvName s
named [] = ((λ h. absurd (cc h)), (λ h. absurd h))
named (a ∷ []) = ((λ h. absurd (cc h)), (λ h. absurd h))
named (a ∷ b ∷ []) = ((λ h. absurd (cc h)), (λ h. absurd h))
named (a ∷ b ∷ c ∷ []) = ((λ h. absurd (cc h)), (λ h. absurd h))
named (a ∷ b ∷ c ∷ d ∷ []) = (
  (λ h. ((low-dot a).0 (cc h), ((low-e b).0 (cc h), ((low-n c).0 (cc h), (low-v d).0 (cc h))))),
  (λ h.
      let (dot, (e, (n, v))) = h in
      rw ((low-dot a).1 dot, (low-e b).1 e, (low-n c).1 n, (low-v d).1 v) refl),
)
named (a ∷ b ∷ c ∷ d ∷ e ∷ s) = ((λ h. absurd (cc h)), (λ h. absurd h))

lower-append : (s t : Text) → lower (s ++ t) ≡ lower s ++ lower t
lower-append [] t = refl
lower-append (c ∷ s) t = rw (lower-append s t) refl

-- The lower case of a text is cut where the text is cut.
lower_cut :
    (s pre q : Text)
    → lower s ≡ pre ++ q
    → (a : Text) × ((b : Text) × ((s ≡ a ++ b) × (lower b ≡ q)))
lower_cut s [] q h = ([], (s, (refl, h)))
lower_cut [] (d ∷ pre) q h = absurd (cc h)
lower_cut (c ∷ s) (d ∷ pre) q h =
    let (a, (b, (e, cut))) = lower_cut s pre q (cc h) in (c ∷ a, (b, (rw (← e) refl, cut)))

below_slash :
    (b : Text) → lower b ≡ codes "/.env" → (name : Text) × (EnvName name × (b ≡ b'/' ∷ name))
below_slash [] h = absurd (cc h)
below_slash (c ∷ s) h = (s, ((named s).0 (cc h), rw ((low-slash c).0 (cc h)) refl))

last_named :
    (n : Text)
    → Ends (codes "/.env") (lower n)
      ↔ ((pre : Text) × ((name : Text) × (EnvName name × (n ≡ pre ++ b'/' ∷ name))))
last_named n = (
  (λ h.
      let (a, (b, (e, cut))) = lower_cut n h.0 (codes "/.env") h.1 in
      let (name, (env, below)) = below_slash b cut in
      (a, (name, (env, e ∙ ap (λ t. a ++ t) below)))),
  (λ h.
      let (pre, (name, (env, e))) = h in
      (
        lower pre,
        ap lower e
            ∙ (lower-append pre (b'/' ∷ name)
                ∙ ap (λ t. lower pre ++ b'/' ∷ t) ((named name).1 env)),
      )),
)

trans_iff : {P Q R : Type 0} → P ↔ Q → Q ↔ R → P ↔ R
trans_iff (f, g) (h, k) = ((λ p. h (f p)), (λ r. g (k r)))

pub EnvFile-iff : (path : Text) → (is_restricted_env_path path ≡ false) ↔ (¬ (EnvFile path))
unfolding is_restricted_env_path
EnvFile-iff path =
    let n = forward_slashes path in
    denied _ (
      either _ _ (trans_iff (text_eq_iff (lower n) (codes ".env")) (named n))
        (trans_iff (ends_with_iff (codes "/.env") (lower n)) (last_named n)))

-- The path is the one of the prefix, or below it; a prefix without a name restricts nothing.
abbrev pub Under : Text → Text → Type 0
Under n prefix =
    (strip_trailing (forward_slashes prefix) ≢ [])
    × ((n ≡ strip_trailing (forward_slashes prefix))
        ⊎ Begins (strip_trailing (forward_slashes prefix) ++ codes "/") n)

not_empty : (s : Text) → (not (is_empty s) ≡ true) ↔ (s ≢ [])
not_empty [] = ((λ h. absurd (cc h)), (λ h. absurd (h refl)))
not_empty (c ∷ s) = ((λ h e. absurd (cc e)), (λ h. refl))

both : {P Q : Type 0} (a b : Bool) → (a ≡ true) ↔ P → (b ≡ true) ↔ Q → ((a && b) ≡ true) ↔ (P × Q)
both true b (f, g) (h, k) = ((λ e. (f refl, h e)), (λ r. k r.1))
both false b (f, g) (h, k) = ((λ e. absurd (cc e)), (λ r. absurd (cc (g r.0))))

Under-iff : (n prefix : Text) → (under_prefix n prefix ≡ true) ↔ Under n prefix
Under-iff n prefix =
    let p = strip_trailing (forward_slashes prefix) in
    both _ _ (not_empty p) (either _ _ (text_eq_iff n p) (starts_with_iff (p ++ codes "/") n))

-- The path is under none of the prefixes.
abbrev pub Unrestricted : Text → List Text → Type 0
Unrestricted path prefixes = All (λ p. ¬ (Under (forward_slashes path) p)) prefixes

none_of {ℓ} :
    {A : Type ℓ} {P : A → Type 0} (p : A → Bool)
    → ((x : A) → (p x ≡ true) ↔ P x)
    → (xs : List A) → (any p xs ≡ false) ↔ All (λ x. ¬ (P x)) xs
none_of p tells [] = ((λ h. tt), (λ h. refl))
none_of p tells (x ∷ xs) =
    let (f, g) = none_of p tells xs in
    let (h, k) = denied _ (tells x) in
    elim (Bool-cases (p x)) [
      | inl e ↦ rw e ((λ i. absurd (cc i)), (λ i. absurd (cc (rw e at k i.0))))
      | inr e ↦ rw e ((λ i. (h e, f i)), (λ i. g i.1))
    ]

pub Unrestricted-iff :
    (path : Text) (prefixes : List Text)
    → (is_restricted_by_prefix path prefixes ≡ false) ↔ Unrestricted path prefixes
unfolding is_restricted_by_prefix
Unrestricted-iff path prefixes =
    none_of (under_prefix (forward_slashes path)) (Under-iff (forward_slashes path)) prefixes

-- The path is the root of the project or below it.
abbrev pub Inside : Platform → Text → Text → Type 0
Inside platform root path =
    (path ≡ platform.resolve root []) ⊎ Begins (platform.resolve root [] ++ codes "/") path

pub Inside-iff :
    (platform : Platform) (root path : Text)
    → (inside platform root path ≡ true) ↔ Inside platform root path
Inside-iff platform root path =
    either _ _ (text_eq_iff path (platform.resolve root []))
      (starts_with_iff (platform.resolve root [] ++ codes "/") path)

-- A tab, a line feed, a carriage return, or no control character.
abbrev pub Printed : ℕ → Type 0
Printed c = (32 ≤ c) ⊎ ((c ≡ 9) ⊎ ((c ≡ 10) ⊎ (c ≡ 13)))

suspicious_iff : (c : ℕ) → (suspicious c ≡ false) ↔ Printed c
suspicious_iff c = ground arith

none_suspicious : (t : Text) → (any suspicious t ≡ false) ↔ All Printed t
none_suspicious [] = ((λ h. tt), (λ h. refl))
none_suspicious (c ∷ t) =
    let (f, g) = none_suspicious t in
    let (h, k) = suspicious_iff c in
    elim (Bool-cases (suspicious c)) [
      | inl e ↦ rw e ((λ i. absurd (cc i)), (λ i. absurd (cc (rw e at k i.0))))
      | inr e ↦ rw e ((λ i. (h e, f i)), (λ i. g i.1))
    ]

no_nul : (t : Text) → All Printed t → any (λ c. c == 0) t ≡ false
no_nul [] h = refl
no_nul (c ∷ t) (h, k) = ground (arith, no_nul t k)

pub Printed-iff : (t : Text) → (has_binary_like_content t ≡ false) ↔ All Printed t
unfolding has_binary_like_content
Printed-iff t = elim (Bool-cases (any (λ c. c == 0) t)) [
  | inl e ↦ rw e ((λ h. absurd (cc h)), (λ h. absurd (cc (sym (no_nul t h) ∙ e))))
  | inr e ↦ rw e (none_suspicious t)
]
