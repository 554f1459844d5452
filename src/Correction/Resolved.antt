-- ===== src/Correction/Resolved.antt =====
-- When the constraint of a correction is the planner's (agent/correction/policy-engine.ts).
use deeprun.Prelude.{
  ℕ, ◌≡◌, refl, sym, ap, ◌∙◌, ◌↔◌, Bool, true, false, not, ◌||◌, List, [], ◌∷◌, Option, none, some,
  Text, arith, ◌==◌, ==_iff, if◌then◌else◌, text_eq_iff, text_eq_refl, map,
}
use deeprun.Correction.Metadata.{
  Js, Intent, Constraint, normalize_path_prefix, runtime_boot, runtime_health, typescript_compile,
  test_failure, migration_failure, architecture_violation, security_baseline, unknown,
}
use deeprun.Correction.Prefixes.{In, SameTexts, sort_unique_strings-SameTexts}
use deeprun.Correction.Policy.{
  intent_index, same_intent, same_texts, prefixes_of, sort_unique_strings, constraint_differs,
}

-- The prefixes of a constraint, in their normal form.
abbrev pub normal_prefixes : Js → Constraint → List Text
normal_prefixes js c = map (normalize_path_prefix js) c.allowed_path_prefixes

abbrev pub prefixes_in : Js → Option Constraint → List Text
prefixes_in js none = []
prefixes_in js (some c) = normal_prefixes js c

-- The constraint of the metadata is the one the planner resolved, of the prefixes their set.
abbrev pub ResolvedFits : Js → Option Constraint → Option Constraint → Type 0
ResolvedFits js (some r) (some c) =
    (r.intent ≡ c.intent)
    × ((r.max_files ≡ c.max_files)
        × ((r.max_total_diff_bytes ≡ c.max_total_diff_bytes)
            × SameTexts (normal_prefixes js r) (normal_prefixes js c)))
ResolvedFits js _ _ = Unit

intent_at : ℕ → Intent
intent_at n =
    if n == 0
    then runtime_boot
    else if n == 1
    then runtime_health
    else if n == 2
    then typescript_compile
    else if n == 3
    then test_failure
    else if n == 4
    then migration_failure
    else if n == 5
    then architecture_violation
    else if n == 6
    then security_baseline
    else unknown

intent_at_index : (i : Intent) → intent_at (intent_index i) ≡ i
unfolding intent_at
intent_at_index runtime_boot = refl
intent_at_index runtime_health = refl
intent_at_index typescript_compile = refl
intent_at_index test_failure = refl
intent_at_index migration_failure = refl
intent_at_index architecture_violation = refl
intent_at_index security_baseline = refl
intent_at_index unknown = refl

pub same_intents : (i j : Intent) → (not (same_intent i j) ≡ false) ↔ (i ≡ j)
same_intents i j = (
  λ h.
      sym (intent_at_index i)
      ∙ (ap intent_at ((==_iff (intent_index i) (intent_index j)).0 (ground (arith, h)))
          ∙ intent_at_index j),
  λ e. rw e (ap not ((==_iff (intent_index j) (intent_index j)).1 refl)),
)

same_numbers : (a b : ℕ) → (not (a == b) ≡ false) ↔ (a ≡ b)
same_numbers a b = ground (arith, ==_iff a b)

same_texts→eq : (ts us : List Text) → same_texts ts us ≡ true → ts ≡ us
unfolding same_texts
same_texts→eq [] [] h = refl
same_texts→eq [] (u ∷ us) h = ground arith
same_texts→eq (t ∷ ts) [] h = ground arith
same_texts→eq (t ∷ ts) (u ∷ us) h = ground (arith, (text_eq_iff t u).0, same_texts→eq ts us)

same_texts_refl : (ts : List Text) → same_texts ts ts ≡ true
unfolding same_texts
same_texts_refl [] = refl
same_texts_refl (t ∷ ts) = ground (arith, text_eq_refl t, same_texts_refl ts)

equal_texts : (ts us : List Text) → (not (same_texts ts us) ≡ false) ↔ (ts ≡ us)
equal_texts ts us =
    (λ h. same_texts→eq ts us (ground (arith, h)), λ e. rw e (ap not (same_texts_refl us)))

neither :
    {P Q : Type 0} (a b : Bool) → (a ≡ false) ↔ P → (b ≡ false) ↔ Q → ((a || b) ≡ false) ↔ (P × Q)
neither true b (f, g) (f', g') = ((λ h. ground arith), (λ h. ground (arith, g h.0)))
neither false b (f, g) (f', g') = ((λ h. (f refl, f' h)), (λ h. g' h.1))

-- The order of the comparison takes no two different prefixes of the constraints for equal.
module _ (js : Js) (locale_le : Text → Text → Bool)
    (total : (x y : Text) → locale_le x y ≡ false → locale_le y x ≡ true)
    (trans : (x y z : Text)
      → locale_le x y ≡ true
      → locale_le y z ≡ true
      → locale_le x z ≡ true) where
  prefixes_fit :
      (r c : Constraint)
      → ((p q : Text)
          → In p (normal_prefixes js r)
          → In q (normal_prefixes js c)
          → locale_le p q ≡ true
          → locale_le q p ≡ true
          → p ≡ q)
      → (not (same_texts (prefixes_of js locale_le r) (prefixes_of js locale_le c)) ≡ false)
        ↔ SameTexts (normal_prefixes js r) (normal_prefixes js c)
  unfolding prefixes_of
  prefixes_fit r c anti =
      let (f, g) =
        equal_texts (sort_unique_strings locale_le (normal_prefixes js r))
          (sort_unique_strings locale_le (normal_prefixes js c)) in
      let (f', g') =
        sort_unique_strings-SameTexts locale_le (normal_prefixes js r) (normal_prefixes js c) total
          trans anti in
      ((λ h. f' (f h)), (λ h. g (g' h)))

  pub resolved_fits :
      (r c : Option Constraint)
      → ((p q : Text)
          → In p (prefixes_in js r)
          → In q (prefixes_in js c)
          → locale_le p q ≡ true
          → locale_le q p ≡ true
          → p ≡ q)
      → (constraint_differs js locale_le r c ≡ false) ↔ ResolvedFits js r c
  resolved_fits none c anti = ((λ h. tt), (λ h. refl))
  resolved_fits (some r) none anti = ((λ h. tt), (λ h. refl))
  resolved_fits (some r) (some c) anti = neither _ _ (same_intents r.intent c.intent) (
      neither _ _ (same_numbers r.max_files c.max_files) (
        neither _ _ (same_numbers r.max_total_diff_bytes c.max_total_diff_bytes)
          (prefixes_fit r c anti)))
