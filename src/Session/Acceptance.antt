-- ===== src/Session/Acceptance.antt =====
-- The steps that the validator accepts (agent/fs/validator.ts), stated without it.
use deeprun.Prelude.{
  append-nil, ℕ, ◌≤◌, ◌≡◌, refl, ◌↔◌, ◌⊎◌, inl, inr, Bool, true, false, not, ◌&&◌, List, [], ◌∷◌,
  Option, none, some, Text, All, length, arith, ltb, ◌==◌,
}
use deeprun.Session.Model.{Platform, Options, StagedFileChange}
use deeprun.Session.Paths.{
  SafePath, SafePath-iff, EnvFile, EnvFile-iff, Unrestricted, Unrestricted-iff, Inside, Inside-iff,
  Printed, Printed-iff,
}
use deeprun.Session.Validator.{
  Issue, issue_if, has_binary_like_content, has_unsafe_relative_path, is_restricted_env_path,
  is_restricted_by_prefix, inside, content_issues, change_issues, changes_issues, total_diff_bytes,
  validate_staged_changes, empty_step, max_files_per_step, max_total_diff_bytes, unsafe_path,
  path_outside_project, restricted_env_file, restricted_path, max_file_bytes, binary_like_content,
}

-- The content is text and not too long.
abbrev pub ContentFits : Platform → Options → Option Text → Type 0
ContentFits platform config none = Unit
ContentFits platform config (some t) =
    (platform.byte_length t ≤ config.max_file_bytes) × All Printed t

abbrev pub ChangeFits : Platform → Text → Options → StagedFileChange → Type 0
ChangeFits platform root config c =
    SafePath c.path
    × (Inside platform root (platform.resolve c.absolute_path [])
        × (((config.allow_env_mutation ≡ true) ⊎ (¬ (EnvFile c.path)))
            × (Unrestricted c.path config.restricted_path_prefixes
                × ContentFits platform config c.new_content)))

abbrev pub StepFits : Platform → Text → Options → List StagedFileChange → Type 0
StepFits platform root config cs =
    (1 ≤ length cs)
    × ((length cs ≤ config.max_files_per_step)
        × ((total_diff_bytes cs ≤ config.max_total_diff_bytes)
            × All (ChangeFits platform root config) cs))

issue_if-nil : {P : Type 0} (b : Bool) (i : Issue) → (b ≡ false) ↔ P → (issue_if b i ≡ []) ↔ P
issue_if-nil true i (f, g) = ((λ h. absurd (cc h)), (λ p. absurd (cc (g p))))
issue_if-nil false i (f, g) = ((λ h. f refl), (λ p. refl))

under_limit : (a b : ℕ) (i : Issue) → (issue_if (ltb b a) i ≡ []) ↔ (a ≤ b)
under_limit a b i = ground arith

not_empty : (n : ℕ) (i : Issue) → (issue_if (n == 0) i ≡ []) ↔ (1 ≤ n)
not_empty n i = ground arith

is_inside : {P : Type 0} (b : Bool) (i : Issue) → (b ≡ true) ↔ P → (issue_if (not b) i ≡ []) ↔ P
is_inside true i (f, g) = ((λ h. f refl), (λ p. refl))
is_inside false i (f, g) = ((λ h. absurd (cc h)), (λ p. absurd (cc (g p))))

env_allowed :
    {P : Type 0} (a b : Bool) (i : Issue)
    → (b ≡ false) ↔ P
    → (issue_if (not a && b) i ≡ []) ↔ ((a ≡ true) ⊎ P)
env_allowed true b i (f, g) = ((λ h. inl refl), (λ h. refl))
env_allowed false true i (f, g) =
    ((λ h. absurd (cc h)), (λ h. elim h [ inl e ↦ absurd (cc e) | inr p ↦ absurd (cc (g p)) ]))
env_allowed false false i (f, g) = ((λ h. inr (f refl)), (λ h. refl))

content_issues-nil :
    (platform : Platform) (config : Options) (path : Text) (content : Option Text)
    → (content_issues platform config path content ≡ []) ↔ ContentFits platform config content
content_issues-nil platform config path none = ((λ h. tt), (λ h. refl))
content_issues-nil platform config path (some t) =
    append-nil _ _
      (under_limit (platform.byte_length t) config.max_file_bytes (max_file_bytes path))
      (issue_if-nil (has_binary_like_content t) (binary_like_content path) (Printed-iff t))

change_issues-nil :
    (platform : Platform) (root : Text) (config : Options) (c : StagedFileChange)
    → (change_issues platform root config c ≡ []) ↔ ChangeFits platform root config c
unfolding change_issues
change_issues-nil platform root config c =
    append-nil _ _
      (issue_if-nil (has_unsafe_relative_path c.path) (unsafe_path c.path) (SafePath-iff c.path))
      (append-nil _ _
        (is_inside (inside platform root (platform.resolve c.absolute_path []))
          (path_outside_project c.path)
          (Inside-iff platform root (platform.resolve c.absolute_path [])))
        (append-nil _ _
          (env_allowed config.allow_env_mutation (is_restricted_env_path c.path)
            (restricted_env_file c.path) (EnvFile-iff c.path))
          (append-nil _ _
            (issue_if-nil (is_restricted_by_prefix c.path config.restricted_path_prefixes)
              (restricted_path c.path) (Unrestricted-iff c.path config.restricted_path_prefixes))
            (content_issues-nil platform config c.path c.new_content))))

changes_issues-nil :
    (platform : Platform) (root : Text) (config : Options) (cs : List StagedFileChange)
    → (changes_issues platform root config cs ≡ []) ↔ All (ChangeFits platform root config) cs
unfolding changes_issues
changes_issues-nil platform root config [] = ((λ h. tt), (λ h. refl))
changes_issues-nil platform root config (c ∷ cs) =
    append-nil _ _ (change_issues-nil platform root config c)
      (changes_issues-nil platform root config cs)

-- The validator raises no issue exactly when the step has changes, keeps to the limits on files and
-- diff bytes, and each change has a path, "/" taken for "\", that begins with no "/" and has neither
-- "../" nor "/.." in it, and is not a restricted prefix nor below one; lies in the project; is not
-- named .env, in letters of any case, in any directory, unless that is allowed; and has as content,
-- if any, a text within the size limit and without control characters other than tab, line feed and
-- carriage return.
pub validate_staged_changes-StepFits :
    (platform : Platform) (root : Text) (config : Options) (cs : List StagedFileChange)
    → (validate_staged_changes platform root cs config ≡ []) ↔ StepFits platform root config cs
unfolding validate_staged_changes
validate_staged_changes-StepFits platform root config cs =
    append-nil _ _ (not_empty (length cs) empty_step) (
      append-nil _ _ (under_limit (length cs) config.max_files_per_step max_files_per_step) (
        append-nil _ _
          (under_limit (total_diff_bytes cs) config.max_total_diff_bytes max_total_diff_bytes)
          (changes_issues-nil platform root config cs)))
