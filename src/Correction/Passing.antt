-- ===== src/Correction/Passing.antt =====
-- The corrections that the policy passes (agent/correction/policy-engine.ts), stated without it.
use deeprun.Prelude.{
  ℕ, ◌≤◌, ◌≡◌, refl, ◌↔◌, ◌⊎◌, inl, inr, Bool, true, false, not, List, [], ◌∷◌, ◌++◌, Option, none,
  some, Text, All, length, arith, ltb, ◌==◌, ==_iff, Bool-cases, if◌then◌else◌, is_empty, is_absent,
  ◌&&◌,
}
use deeprun.Json.{Members}
use deeprun.Correction.Metadata.{
  Js, Constraint, Metadata, parse_metadata, parse_correction_attempt_from_step_id,
}
use deeprun.Correction.Paths.{is_path_allowed}
use deeprun.Correction.Allowed.{SomeWithin, is_nil, path_allowed}
use deeprun.Correction.Resolved.{prefixes_in, ResolvedFits, same_intents, resolved_fits}
use deeprun.Correction.Prefixes.{In}
use deeprun.Correction.Policy.{
  Rule, error, Violation, Input, ExecutionStatus, completed, failed, add_if, blocking, is_blocking,
  suffix_differs, is_zero, constraint_violations, constraint_differs, staged_diffs,
  completed_violations, path_of, disallowed_paths, approximate_diff_bytes, staged_violations,
  failed_violations, metadata_violations, evaluate_correction_policy, summarize_violations,
}

-- The number in the step's id, if it has one, is the attempt of the metadata.
abbrev pub AttemptFits : Option ℕ → ℕ → Type 0
AttemptFits none attempt = Unit
AttemptFits (some n) attempt = (attempt ≡ 0) ⊎ (attempt ≡ n)

abbrev pub ConstraintFits : Input → Metadata → Option Constraint → Type 0
ConstraintFits input m none = ⊥
ConstraintFits input m (some c) =
    (1 ≤ c.max_files)
    × ((1 ≤ c.max_total_diff_bytes)
        × ((1 ≤ length c.allowed_path_prefixes)
            × ((c.max_files ≤ input.max_files_per_step)
                × ((c.max_total_diff_bytes ≤ input.max_total_diff_bytes)
                    × (m.classification_intent ≡ c.intent)))))

abbrev pub constraint_of : Option Metadata → Option Constraint
constraint_of none = none
constraint_of (some m) = m.constraint

abbrev pub CompletedFits : Input → ExecutionStatus → Type 0
CompletedFits input completed =
    (is_absent input.commit_hash ≡ false) × (1 ≤ length (staged_diffs input))
CompletedFits input failed = Unit

abbrev pub PathFits : Js → Constraint → Members → Type 0
PathFits js c entry = (path_of entry ≡ []) ⊎ SomeWithin js (path_of entry) c.allowed_path_prefixes

abbrev pub StagedFits : Js → Option Constraint → List Members → Type 0
StagedFits js none entries = Unit
StagedFits js (some c) entries =
    (length entries ≤ c.max_files)
    × (All (PathFits js c) entries × (approximate_diff_bytes entries ≤ c.max_total_diff_bytes))

abbrev pub MetadataFits : Js → Input → Option Metadata → Type 0
MetadataFits js input none = ⊥
MetadataFits js input (some m) =
    (is_empty m.phase ≡ false)
    × ((1 ≤ m.attempt)
        × (AttemptFits (parse_correction_attempt_from_step_id input.step.id) m.attempt
            × ((is_empty m.failed_step_id ≡ false)
                × (ConstraintFits input m m.constraint
                    × (ResolvedFits js input.resolved_constraint m.constraint
                        × (CompletedFits input input.status
                            × StagedFits js m.constraint (staged_diffs input)))))))

-- Nothing blocks exactly when neither part blocks.
clean-append :
    {P Q : Type 0} (xs ys : List Violation)
    → (blocking xs ≡ []) ↔ P
    → (blocking ys ≡ []) ↔ Q
    → (blocking (xs ++ ys) ≡ []) ↔ (P × Q)
unfolding blocking
clean-append [] ys (f, g) (f', g') = ((λ h. (f refl, f' h)), (λ h. g' h.1))
clean-append (v ∷ vs) ys (f, g) (f', g') = elim (Bool-cases (is_blocking v)) [
  | inl e ↦ rw e ((λ h. ground arith), (λ h. ground (arith, g h.0)))
  | inr e ↦ rw e (clean-append vs ys (λ h. f (rw e h), λ p. ground (arith, g p)) (f', g'))
]

nothing : (blocking [] ≡ []) ↔ Unit {0}
unfolding blocking
nothing = ((λ h. tt), (λ h. refl))

-- One rule: nothing blocks exactly when its test fails.
unless :
    {P : Type 0} (b : Bool) (r : Rule) → (b ≡ false) ↔ P → (blocking (add_if b error r) ≡ []) ↔ P
unfolding blocking
unless true r (f, g) = ((λ h. ground arith), (λ p. ground (arith, g p)))
unless false r (f, g) = ((λ h. f refl), (λ p. refl))

itself : (b : Bool) → (b ≡ false) ↔ (b ≡ false)
itself b = ((λ h. h), (λ h. h))

never : (true ≡ false) ↔ ⊥
never = ((λ h. ground arith), (λ h. ground arith))

not_zero : (n : ℕ) → (is_zero n ≡ false) ↔ (1 ≤ n)
not_zero n = ground arith

no_more : (a b : ℕ) → (ltb b a ≡ false) ↔ (a ≤ b)
no_more a b = ground arith

attempt_fits : (n : Option ℕ) (a : ℕ) → (suffix_differs n a ≡ false) ↔ AttemptFits n a
attempt_fits none a = ((λ h. tt), (λ h. refl))
attempt_fits (some n) a = ground (arith, ==_iff a n)

constraint_fits :
    (input : Input) (m : Metadata) (c : Option Constraint)
    → (blocking (constraint_violations input m c) ≡ []) ↔ ConstraintFits input m c
unfolding constraint_violations
constraint_fits input m none = unless _ _ never
constraint_fits input m (some c) = clean-append _ _ (unless _ _ (not_zero c.max_files)) (
    clean-append _ _ (unless _ _ (not_zero c.max_total_diff_bytes)) (
      clean-append _ _ (unless _ _ (not_zero (length c.allowed_path_prefixes))) (
        clean-append _ _ (unless _ _ (no_more c.max_files input.max_files_per_step)) (
          clean-append _ _ (unless _ _ (no_more c.max_total_diff_bytes input.max_total_diff_bytes))
            (unless _ _ (same_intents m.classification_intent c.intent))))))

completed_fits :
    (input : Input) (s : ExecutionStatus)
    → (blocking (completed_violations input s) ≡ []) ↔ CompletedFits input s
completed_fits input failed = nothing
completed_fits input completed =
    clean-append _ _ (unless _ _ (itself (is_absent input.commit_hash)))
      (unless _ _ (not_zero (length (staged_diffs input))))

not_disallowed :
    {P Q : Type 0} (e a : Bool) (x : Text) (xs : List Text)
    → (e ≡ true) ↔ P
    → (a ≡ true) ↔ Q
    → (ltb 0 (length (if not e && not a then x ∷ xs else xs)) ≡ false)
      ↔ ((P ⊎ Q) × (ltb 0 (length xs) ≡ false))
not_disallowed true a x xs (p, p') q = ((λ h. (inl (p refl), h)), (λ h. h.1))
not_disallowed false true x xs p (q, q') = ((λ h. (inr (q refl), h)), (λ h. h.1))
not_disallowed false false x xs (p, p') (q, q') = (
  (λ h. absurd (ground (arith, h))),
  (λ h. elim h.0 [ inl i ↦ absurd (cc (p' i)) | inr i ↦ absurd (cc (q' i)) ]),
)

paths_fit :
    (js : Js) (c : Constraint) (es : List Members)
    → (ltb 0 (length (disallowed_paths js c.allowed_path_prefixes es)) ≡ false)
      ↔ All (PathFits js c) es
unfolding disallowed_paths
paths_fit js c [] = ((λ h. tt), (λ h. refl))
paths_fit js c (e ∷ es) =
    let (f, g) = paths_fit js c es in
    let (h, k) =
      not_disallowed (is_empty (path_of e)) (is_path_allowed js (path_of e) c.allowed_path_prefixes)
        (path_of e) (disallowed_paths js c.allowed_path_prefixes es) (is_nil (path_of e))
        (path_allowed js (path_of e) c.allowed_path_prefixes) in
    ((λ i. let (one, rest) = h i in (one, f rest)), (λ i. k (i.0, g i.1)))

staged_fits :
    (js : Js) (c : Option Constraint) (es : List Members)
    → (blocking (staged_violations js c es) ≡ []) ↔ StagedFits js c es
unfolding staged_violations approximate_diff_bytes
staged_fits js none es = nothing
staged_fits js (some c) [] = ((λ h. (omega arith, (tt, omega arith))), (λ h. nothing.1 tt))
staged_fits js (some c) (e ∷ es) =
    clean-append _ _ (unless _ _ (no_more (length (e ∷ es)) c.max_files)) (
      clean-append _ _ (unless _ _ (paths_fit js c (e ∷ es)))
        (unless _ _ (no_more (approximate_diff_bytes (e ∷ es)) c.max_total_diff_bytes)))

failed_clean :
    (input : Input) (s : ExecutionStatus) → (blocking (failed_violations input s) ≡ []) ↔ Unit {0}
unfolding blocking
failed_clean input completed = nothing
failed_clean input failed = elim (Bool-cases (is_absent input.error_message)) [
  | inl e ↦ rw e ((λ h. tt), (λ h. refl))
  | inr e ↦ rw e ((λ h. tt), (λ h. refl))
]

and_nothing : {P : Type 0} {b : Type 0} → b ↔ (P × Unit {0}) → b ↔ P
and_nothing (f, g) = ((λ h. (f h).0), (λ p. g (p, tt)))

metadata_fits :
    (js : Js) (locale_le : Text → Text → Bool) (input : Input) (m : Option Metadata)
    → (constraint_differs js locale_le input.resolved_constraint (constraint_of m) ≡ false)
      ↔ ResolvedFits js input.resolved_constraint (constraint_of m)
    → (blocking (metadata_violations js locale_le input m) ≡ []) ↔ MetadataFits js input m
unfolding metadata_violations
metadata_fits js locale_le input none resolved = unless _ _ never
metadata_fits js locale_le input (some m) resolved =
    clean-append _ _ (unless _ _ (itself (is_empty m.phase))) (
      clean-append _ _ (unless _ _ (not_zero m.attempt)) (
        clean-append _ _
          (unless _ _
            (attempt_fits (parse_correction_attempt_from_step_id input.step.id) m.attempt))
          (clean-append _ _ (unless _ _ (itself (is_empty m.failed_step_id))) (
            clean-append _ _ (constraint_fits input m m.constraint) (
              clean-append _ _ (unless _ _ resolved) (
                clean-append _ _ (completed_fits input input.status) (
                  and_nothing (
                    clean-append _ _ (staged_fits js m.constraint (staged_diffs input))
                      (failed_clean input input.status)))))))))

none_left : (vs : List Violation) → ((length vs == 0) ≡ true) ↔ (vs ≡ [])
none_left [] = ((λ h. refl), (λ h. refl))
none_left (v ∷ vs) = ((λ h. ground arith), (λ h. ground arith))

-- Where localeCompare orders the texts and takes no two different prefixes of the two constraints,
-- in their normal form, for equal, the policy passes a correction step exactly if its metadata are
-- there with a phase, a failed step and an attempt of at least 1, which agrees with the number in the
-- step's id, if any; the constraint has positive limits within the global ones, at least one path
-- prefix, the intent of the classification, and the same intent, limits and set of prefixes in their
-- normal form as the planner's, if that is known; a completed step has a commit and staged diffs; and
-- the staged diffs keep to the constraint's files and bytes, each without a path or with one that is
-- a prefix in its normal form or is below it. A missing error message does not count.
pub evaluate_correction_policy-Fits :
    (js : Js) (locale_le : Text → Text → Bool) (input : Input)
    → ((x y : Text) → locale_le x y ≡ false → locale_le y x ≡ true)
    → ((x y z : Text) → locale_le x y ≡ true → locale_le y z ≡ true → locale_le x z ≡ true)
    → ((p q : Text)
        → In p (prefixes_in js input.resolved_constraint)
        → In q (prefixes_in js (constraint_of (parse_metadata js input.step)))
        → locale_le p q ≡ true
        → locale_le q p ≡ true
        → p ≡ q)
    → ((evaluate_correction_policy js locale_le input).ok ≡ true)
      ↔ MetadataFits js input (parse_metadata js input.step)
unfolding evaluate_correction_policy summarize_violations
evaluate_correction_policy-Fits js locale_le input total trans anti =
    let m = parse_metadata js input.step in
    let (f, g) = none_left (blocking (metadata_violations js locale_le input m)) in
    let (f', g') =
      metadata_fits js locale_le input m
        (resolved_fits js locale_le total trans input.resolved_constraint (constraint_of m) anti) in
    ((λ h. f' (f h)), (λ h. g (g' h)))
