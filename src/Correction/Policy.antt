-- ===== src/Correction/Policy.antt =====
-- The rules of the correction policy (agent/correction/policy-engine.ts
-- `evaluateCorrectionPolicy`). The messages of violations only repeat the data.
use deeprun.Prelude.{
  ℕ, ◌+◌, ◌-◌, Bool, true, false, not, ◌&&◌, ◌||◌, ◌==◌, ltb, List, [], ◌∷◌, ◌++◌, map, filter,
  length, Option, none, some, Text, codes, is_empty, is_absent, text_eq, if◌then◌else◌,
}
use deeprun.Json.{Json, Members, get, to_record, to_entries, string_or_empty}
use deeprun.Correction.Metadata.{
  Js, Intent, Constraint, Metadata, Step, normalize_path_prefix, unique_of, parse_metadata,
  parse_correction_attempt_from_step_id, runtime_boot, runtime_health, typescript_compile,
  test_failure, migration_failure, architecture_violation, security_baseline, unknown,
}
use deeprun.Correction.Paths.{is_path_allowed}

-- The rule ids, without the prefix correction_.
pub data Rule : Type 0 where
  metadata_present phase_present attempt_present attempt_suffix_match : Rule
  failed_step_present constraint_present constraint_max_files : Rule
  constraint_max_diff_bytes constraint_allowed_prefixes : Rule
  constraint_max_files_exceeds_global constraint_max_diff_exceeds_global : Rule
  intent_constraint_match constraint_resolved_consistency : Rule
  commit_required staged_diffs_required staged_files_within_constraint : Rule
  staged_paths_within_constraint staged_diff_bytes_within_constraint : Rule
  failed_error_message_present : Rule

pub data Severity : Type 0 where
  error warning : Severity

pub record Violation : Type 0 where
  pub rule_id : Rule
  pub severity : Severity

pub record Result : Type 0 where
  pub ok : Bool
  pub blocking_count : ℕ
  pub warning_count : ℕ
  pub violations : List Violation

-- AgentStepExecutionStatus.
pub data ExecutionStatus : Type 0 where
  completed failed : ExecutionStatus

pub record Input : Type 0 where
  pub step : Step
  pub status : ExecutionStatus
  pub error_message : Option Text
  pub commit_hash : Option Text
  pub output_payload : Members
  pub resolved_constraint : Option Constraint
  pub max_files_per_step : ℕ
  pub max_total_diff_bytes : ℕ

abbrev pub is_error : Severity → Bool
is_error error = true
is_error warning = false

abbrev pub is_blocking : Violation → Bool
is_blocking v = is_error v.severity

abbrev pub add_if : Bool → Severity → Rule → List Violation
add_if true s r = record { rule_id = r; severity = s } ∷ []
add_if false s r = []

unfoldable pub blocking : List Violation → List Violation
blocking vs = filter is_blocking vs

unfoldable pub summarize_violations : List Violation → Result
summarize_violations vs = record {
  ok = length (blocking vs) == 0;
  blocking_count = length (blocking vs);
  warning_count = length vs - length (blocking vs);
  violations = vs;
}

abbrev pub intent_index : Intent → ℕ
intent_index runtime_boot = 0
intent_index runtime_health = 1
intent_index typescript_compile = 2
intent_index test_failure = 3
intent_index migration_failure = 4
intent_index architecture_violation = 5
intent_index security_baseline = 6
intent_index unknown = 7

-- `===` on intents.
abbrev pub same_intent : Intent → Intent → Bool
same_intent i j = intent_index i == intent_index j

abbrev pub suffix_differs : Option ℕ → ℕ → Bool
suffix_differs none attempt = false
suffix_differs (some expected) attempt = ltb 0 attempt && not (attempt == expected)

abbrev pub is_zero : ℕ → Bool
is_zero n = n == 0

unfoldable pub constraint_violations : Input → Metadata → Option Constraint → List Violation
constraint_violations input m none = add_if true error constraint_present
constraint_violations input m (some c) =
    add_if (is_zero c.max_files) error constraint_max_files
    ++ (add_if (is_zero c.max_total_diff_bytes) error constraint_max_diff_bytes
        ++ (add_if (is_zero (length c.allowed_path_prefixes)) error constraint_allowed_prefixes
            ++ (add_if (ltb input.max_files_per_step c.max_files) error
                  constraint_max_files_exceeds_global
                ++ (add_if (ltb input.max_total_diff_bytes c.max_total_diff_bytes) error
                      constraint_max_diff_exceeds_global
                    ++ add_if (not (same_intent m.classification_intent c.intent)) error
                        intent_constraint_match))))

-- Array.from(new Set(values)).sort((a, b) => a.localeCompare(b)), where `locale_le a b` tells that
-- the comparison gives no more than 0.
unfoldable pub insert : (Text → Text → Bool) → Text → List Text → List Text
insert locale_le t [] = t ∷ []
insert locale_le t (u ∷ us) =
    let rest = insert locale_le t us in if locale_le t u then t ∷ u ∷ us else u ∷ rest

unfoldable pub sort : (Text → Text → Bool) → List Text → List Text
sort locale_le [] = []
sort locale_le (t ∷ ts) = insert locale_le t (sort locale_le ts)

unfoldable pub sort_unique_strings : (Text → Text → Bool) → List Text → List Text
sort_unique_strings locale_le ts = sort locale_le (unique_of ts)

-- The same length, and the same entry at every index.
unfoldable pub same_texts : List Text → List Text → Bool
same_texts [] [] = true
same_texts (t ∷ ts) (u ∷ us) = text_eq t u && same_texts ts us
same_texts _ _ = false

unfoldable pub prefixes_of : Js → (Text → Text → Bool) → Constraint → List Text
prefixes_of js locale_le c =
    sort_unique_strings locale_le (map (normalize_path_prefix js) c.allowed_path_prefixes)

abbrev pub constraint_differs :
    Js → (Text → Text → Bool) → Option Constraint → Option Constraint → Bool
constraint_differs js locale_le (some r) (some c) =
    not (same_intent r.intent c.intent)
    || (not (r.max_files == c.max_files)
        || (not (r.max_total_diff_bytes == c.max_total_diff_bytes)
            || not (same_texts (prefixes_of js locale_le r) (prefixes_of js locale_le c))))
constraint_differs js locale_le _ _ = false

-- The entries that are records.
abbrev pub add_record : Option Members → List Members → List Members
add_record none entries = entries
add_record (some e) entries = e ∷ entries

unfoldable pub records_of : List Json → List Members
records_of [] = []
records_of (v ∷ vs) = add_record (to_record (some v)) (records_of vs)

unfoldable pub staged_diffs : Input → List Members
staged_diffs input = records_of (to_entries (get (codes "stagedDiffs") input.output_payload))

abbrev pub completed_violations : Input → ExecutionStatus → List Violation
completed_violations input completed =
    add_if (is_absent input.commit_hash) error commit_required
    ++ add_if (is_zero (length (staged_diffs input))) error staged_diffs_required
completed_violations input failed = []

abbrev pub path_of : Members → Text
path_of entry = string_or_empty (get (codes "path") entry)

unfoldable pub disallowed_paths : Js → List Text → List Members → List Text
disallowed_paths js prefixes entries =
    filter (λ p. not (is_empty p) && not (is_path_allowed js p prefixes)) (map path_of entries)

unfoldable pub approximate_diff_bytes : List Members → ℕ
approximate_diff_bytes [] = 0
approximate_diff_bytes (e ∷ es) =
    length (string_or_empty (get (codes "diffPreview") e)) + approximate_diff_bytes es

unfoldable pub staged_violations : Js → Option Constraint → List Members → List Violation
staged_violations js none entries = []
staged_violations js (some c) [] = []
staged_violations js (some c) (e ∷ es) =
    add_if (ltb c.max_files (length (e ∷ es))) error staged_files_within_constraint
    ++ (add_if (ltb 0 (length (disallowed_paths js c.allowed_path_prefixes (e ∷ es)))) error
          staged_paths_within_constraint
        ++ add_if (ltb c.max_total_diff_bytes (approximate_diff_bytes (e ∷ es))) error
            staged_diff_bytes_within_constraint)

abbrev pub failed_violations : Input → ExecutionStatus → List Violation
failed_violations input completed = []
failed_violations input failed =
    add_if (is_absent input.error_message) warning failed_error_message_present

unfoldable pub metadata_violations :
    Js → (Text → Text → Bool) → Input → Option Metadata → List Violation
metadata_violations js locale_le input none = add_if true error metadata_present
metadata_violations js locale_le input (some m) =
    add_if (is_empty m.phase) error phase_present
    ++ (add_if (is_zero m.attempt) error attempt_present
        ++ (add_if (suffix_differs (parse_correction_attempt_from_step_id input.step.id) m.attempt)
              error attempt_suffix_match
            ++ (add_if (is_empty m.failed_step_id) error failed_step_present
                ++ (constraint_violations input m m.constraint
                    ++ (add_if
                          (constraint_differs js locale_le input.resolved_constraint m.constraint)
                          error constraint_resolved_consistency
                        ++ (completed_violations input input.status
                            ++ (staged_violations js m.constraint (staged_diffs input)
                                ++ failed_violations input input.status)))))))

unfoldable pub evaluate_correction_policy : Js → (Text → Text → Bool) → Input → Result
evaluate_correction_policy js locale_le input =
    summarize_violations (metadata_violations js locale_le input (parse_metadata js input.step))
