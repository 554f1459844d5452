-- ===== src/Session/Validator.antt =====
-- packages/deeprun-backend/src/agent/fs/validator.ts.
use deeprun.Prelude.{
  ℕ, ◌+◌, Bool, true, false, not, ◌&&◌, ◌||◌, List, [], ◌∷◌, ◌++◌, Option, none, some, Text, codes,
  is_empty, text_eq, starts_with, includes, ends_with, forward_slashes, strip_trailing, any, length,
  leb, ltb, ◌==◌, if◌then◌else◌,
}
use deeprun.Session.Model.{Platform, Options, StagedFileChange}

-- The codes of the issues; their messages only repeat the data.
pub data Issue : Type 0 where
  empty_step max_files_per_step max_total_diff_bytes : Issue
  unsafe_path path_outside_project restricted_env_file restricted_path : Text → Issue
  max_file_bytes binary_like_content : Text → Issue

-- A NUL, or another control character than tab, line feed and carriage return.
abbrev pub suspicious : ℕ → Bool
suspicious c = if c == 9 || c == 10 || c == 13 then false else ltb c 32

unfoldable pub has_binary_like_content : Text → Bool
has_binary_like_content value = if any (λ c. c == 0) value then true else any suspicious value

unfoldable pub has_unsafe_relative_path : Text → Bool
has_unsafe_relative_path path =
    let normalized = forward_slashes path in
    starts_with (codes "/") normalized
    || includes (codes "../") normalized
    || includes (codes "/..") normalized

-- toLowerCase, on the letters that can become one of ".env".
abbrev pub lower : Text → Text
lower [] = []
lower (c ∷ s) = (if leb 65 c && leb c 90 then c + 32 else c) ∷ lower s

unfoldable pub is_restricted_env_path : Text → Bool
is_restricted_env_path path =
    let normalized = lower (forward_slashes path) in
    text_eq normalized (codes ".env") || ends_with (codes "/.env") normalized

abbrev pub under_prefix : Text → Text → Bool
under_prefix normalized prefix =
    let p = strip_trailing (forward_slashes prefix) in
    not (is_empty p) && (text_eq normalized p || starts_with (p ++ codes "/") normalized)

unfoldable pub is_restricted_by_prefix : Text → List Text → Bool
is_restricted_by_prefix path prefixes = any (under_prefix (forward_slashes path)) prefixes

abbrev pub issue_if : Bool → Issue → List Issue
issue_if true i = i ∷ []
issue_if false i = []

abbrev pub content_issues : Platform → Options → Text → Option Text → List Issue
content_issues platform config path none = []
content_issues platform config path (some content) =
    issue_if (ltb config.max_file_bytes (platform.byte_length content)) (max_file_bytes path)
    ++ issue_if (has_binary_like_content content) (binary_like_content path)

-- Is the path the root or below it? The separator is '/'.
abbrev pub inside : Platform → Text → Text → Bool
inside platform root path =
    text_eq path (platform.resolve root [])
    || starts_with (platform.resolve root [] ++ codes "/") path

unfoldable pub change_issues : Platform → Text → Options → StagedFileChange → List Issue
change_issues platform root config change =
    issue_if (has_unsafe_relative_path change.path) (unsafe_path change.path)
    ++ (issue_if (not (inside platform root (platform.resolve change.absolute_path [])))
          (path_outside_project change.path)
        ++ (issue_if (not config.allow_env_mutation && is_restricted_env_path change.path)
              (restricted_env_file change.path)
            ++ (issue_if (is_restricted_by_prefix change.path config.restricted_path_prefixes)
                  (restricted_path change.path)
                ++ content_issues platform config change.path change.new_content)))

abbrev pub total_diff_bytes : List StagedFileChange → ℕ
total_diff_bytes [] = 0
total_diff_bytes (c ∷ cs) = c.diff_bytes + total_diff_bytes cs

unfoldable pub changes_issues : Platform → Text → Options → List StagedFileChange → List Issue
changes_issues platform root config [] = []
changes_issues platform root config (c ∷ cs) =
    change_issues platform root config c ++ changes_issues platform root config cs

unfoldable pub validate_staged_changes :
    Platform → Text → List StagedFileChange → Options → List Issue
validate_staged_changes platform root staged config =
    issue_if (length staged == 0) empty_step
    ++ (issue_if (ltb config.max_files_per_step (length staged)) max_files_per_step
        ++ (issue_if (ltb config.max_total_diff_bytes (total_diff_bytes staged))
              max_total_diff_bytes
            ++ changes_issues platform root config staged))
