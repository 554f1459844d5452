-- ===== src/Correction/Tests.antt =====
-- A correction step that the policy passes, and some that it does not
-- (agent/correction/policy-engine.ts).
use deeprun.Prelude.{
  ◌≡◌, refl, ◌↔◌, true, ◌∷◌, [], Option, none, some, Text, codes, text_eq, starts_with, ends_with,
  forward_slashes, strip_leading,
}
use deeprun.Json.{
  Json, number, string, array, object, no_element, element, Members, no_member, member, get,
}
use deeprun.Correction.Metadata.{
  Js, Constraint, test_failure, Number, not_finite, positive, Step, parse_metadata,
  parse_constraint, normalize_intent, normalize_path_prefix, to_string_array, unique_of,
  parse_correction_attempt_from_step_id,
}
use deeprun.Correction.Paths.{is_path_allowed}
use deeprun.Correction.Policy.{
  Input, completed, evaluate_correction_policy, summarize_violations, metadata_violations,
  constraint_violations, staged_violations, staged_diffs, records_of, blocking, disallowed_paths,
  approximate_diff_bytes, prefixes_of, sort_unique_strings, sort, insert, same_texts,
}
use deeprun.GraphIdentity.Identity.{text_le}
use deeprun.GraphIdentity.Order.{text_le_total, text_le_trans, text_le_antisym}
use deeprun.Correction.Passing.{MetadataFits, evaluate_correction_policy-Fits}

abbrev number_of : Option Json → Number
number_of (some (number n)) = positive n
number_of _ = not_finite

abbrev text_of : Option Json → Text
text_of (some (string t)) = t
text_of _ = []

abbrev js : Js
js = record { to_number = number_of; to_text = text_of; trim = λ t. t }

abbrev constraint_json : Json
constraint_json = object (
    member (codes "intent") (string (codes "test_failure")) (
      member (codes "maxFiles") (number 2) (
        member (codes "maxTotalDiffBytes") (number 50) (
          member (codes "allowedPathPrefixes")
            (array
              (element (string (codes "/src/")) (element (string (codes "README")) no_element)))
            no_member))))

abbrev deep : Json
deep = object (
    member (codes "phase") (string (codes "goal")) (
      member (codes "attempt") (number 2) (
        member (codes "failedStepId") (string (codes "s1")) (
          member (codes "classification")
            (object (member (codes "intent") (string (codes "test_failure")) no_member))
            (member (codes "constraint") constraint_json no_member)))))

abbrev step : Step
step = record {
  id = codes "runtime-correction-2";
  input = member (codes "_deepCorrection") deep no_member;
}

abbrev output : Text → Members
output path =
    member (codes "stagedDiffs")
      (array (
        element
          (object (
            member (codes "path") (string path)
              (member (codes "diffPreview") (string (codes "+a")) no_member)))
          no_element))
      no_member

-- The planner's constraint, its prefixes in another order.
abbrev planned : Constraint
planned = record {
  intent = test_failure;
  max_files = 2;
  max_total_diff_bytes = 50;
  allowed_path_prefixes = codes "README" ∷ codes "src/" ∷ [];
}

abbrev given : Text → Input
given path = record {
  step = step;
  status = completed;
  error_message = none;
  commit_hash = some (codes "c0ffee");
  output_payload = output path;
  resolved_constraint = some planned;
  max_files_per_step = 15;
  max_total_diff_bytes = 400;
}

evaluate_correction_policy-Fits_example :
    ((evaluate_correction_policy js text_le (given (codes "src/a.ts"))).ok ≡ true)
    ↔ MetadataFits js (given (codes "src/a.ts")) (parse_metadata js step)
evaluate_correction_policy-Fits_example =
    evaluate_correction_policy-Fits js text_le (given (codes "src/a.ts")) text_le_total
      text_le_trans (λ p q i j. text_le_antisym p q)

passes : (evaluate_correction_policy js text_le (given (codes "src/a.ts"))).ok ≡ true
unfolding evaluate_correction_policy summarize_violations metadata_violations constraint_violations
    staged_violations staged_diffs records_of blocking disallowed_paths approximate_diff_bytes
    is_path_allowed parse_metadata parse_constraint normalize_intent normalize_path_prefix
    to_string_array unique_of parse_correction_attempt_from_step_id get text_eq forward_slashes
    strip_leading starts_with ends_with text_le prefixes_of sort_unique_strings sort insert
    same_texts
passes = refl

outside : (evaluate_correction_policy js text_le (given (codes "srcs/a.ts"))).blocking_count ≡ 1
unfolding evaluate_correction_policy summarize_violations metadata_violations constraint_violations
    staged_violations staged_diffs records_of blocking disallowed_paths approximate_diff_bytes
    is_path_allowed parse_metadata parse_constraint normalize_intent normalize_path_prefix
    to_string_array unique_of parse_correction_attempt_from_step_id get text_eq forward_slashes
    strip_leading starts_with ends_with text_le prefixes_of sort_unique_strings sort insert
    same_texts
outside = refl

attempt_of_id : parse_correction_attempt_from_step_id (codes "validation-correction-12") ≡ some 12
unfolding parse_correction_attempt_from_step_id text_eq
attempt_of_id = refl
