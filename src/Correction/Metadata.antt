-- ===== src/Correction/Metadata.antt =====
-- What the correction policy reads from a step (agent/correction/policy-engine.ts,
-- agent/types.ts).
use deeprun.Prelude.{
  ℕ, ◌+◌, ◌-◌, ◌*◌, Bool, not, ◌&&◌, List, [], ◌∷◌, map, filter, every, Option, none, some, Text,
  codes, is_empty, text_eq, forward_slashes, strip_leading, leb, if◌then◌else◌,
}
use mathlib.Core.Option
use deeprun.Json.{Json, string, Members, get, get_in, to_record, to_entries, string_or_empty}

-- A number, as far as the tests on it tell: no finite one, one that is no more than 0, or a
-- positive one, by its floor.
pub data Number : Type 0 where
  not_finite at_most_zero : Number
  positive : ℕ → Number

-- `Number(x)`, `String(x || "")` and `trim` of JavaScript.
pub record Js : Type 0 where
  pub to_number : Option Json → Number
  pub to_text : Option Json → Text
  pub trim : Text → Text

-- PlannerCorrectionIntent.
pub data Intent : Type 0 where
  runtime_boot runtime_health typescript_compile test_failure migration_failure : Intent
  architecture_violation security_baseline unknown : Intent

-- PlannerCorrectionConstraint, of which the guidance is not read.
pub record Constraint : Type 0 where
  pub intent : Intent
  pub max_files : ℕ
  pub max_total_diff_bytes : ℕ
  pub allowed_path_prefixes : List Text

pub record Metadata : Type 0 where
  pub phase : Text
  pub attempt : ℕ
  pub failed_step_id : Text
  pub classification_intent : Intent
  pub constraint : Option Constraint

-- Array.from(new Set(values).values()), in the order of the first of each.
unfoldable pub unique_of : List Text → List Text
unique_of [] = []
unique_of (t ∷ ts) = t ∷ filter (λ u. not (text_eq t u)) (unique_of ts)

abbrev pub trimmed_strings : Js → List Json → List Text
trimmed_strings js [] = []
trimmed_strings js (string s ∷ vs) =
    let rest = trimmed_strings js vs in let t = js.trim s in if is_empty t then rest else t ∷ rest
trimmed_strings js (v ∷ vs) = trimmed_strings js vs

unfoldable pub to_string_array : Js → Option Json → List Text
to_string_array js value = unique_of (trimmed_strings js (to_entries value))

unfoldable pub normalize_path_prefix : Js → Text → Text
normalize_path_prefix js value = js.trim (strip_leading (forward_slashes value))

abbrev pub intent_of : Text → Intent
intent_of t =
    if text_eq t (codes "runtime_boot")
    then runtime_boot
    else if text_eq t (codes "runtime_health")
    then runtime_health
    else if text_eq t (codes "typescript_compile")
    then typescript_compile
    else if text_eq t (codes "test_failure")
    then test_failure
    else if text_eq t (codes "migration_failure")
    then migration_failure
    else if text_eq t (codes "architecture_violation")
    then architecture_violation
    else if text_eq t (codes "security_baseline")
    then security_baseline
    else unknown

unfoldable pub normalize_intent : Js → Option Json → Intent
normalize_intent js value = intent_of (js.trim (js.to_text value))

-- Number.isFinite(n) && n > 0 ? Math.floor(n) : 0.
abbrev pub floor_if_positive : Number → ℕ
floor_if_positive (positive n) = n
floor_if_positive _ = 0

abbrev pub constraint_of : Js → Members → Constraint
constraint_of js fields = record {
  intent = normalize_intent js (get (codes "intent") fields);
  max_files = floor_if_positive (js.to_number (get (codes "maxFiles") fields));
  max_total_diff_bytes = floor_if_positive (js.to_number (get (codes "maxTotalDiffBytes") fields));
  allowed_path_prefixes =
      filter (λ p. not (is_empty p))
        (map (normalize_path_prefix js)
          (to_string_array js (get (codes "allowedPathPrefixes") fields)));
}

unfoldable pub parse_constraint : Js → Option Json → Option Constraint
parse_constraint js value = Option.map (constraint_of js) (to_record value)

-- The rest of the text after a prefix.
abbrev pub after : Text → Text → Option Text
after [] s = some s
after (a ∷ p) [] = none
after (a ∷ p) (b ∷ s) = if text_eq (a ∷ []) (b ∷ []) then after p s else none

abbrev pub is_digit : ℕ → Bool
is_digit c = leb 48 c && leb c 57

abbrev pub digits_value : ℕ → Text → ℕ
digits_value n [] = n
digits_value n (c ∷ s) = digits_value (n * 10 + (c - 48)) s

-- (\d+)$, with Number.parseInt of it.
abbrev pub whole_number : Option Text → Option ℕ
whole_number none = none
whole_number (some s) =
    if not (is_empty s) && every is_digit s then some (digits_value 0 s) else none

abbrev pub or_number : Option ℕ → Option ℕ → Option ℕ
or_number (some n) o = some n
or_number none o = o

unfoldable pub parse_correction_attempt_from_step_id : Text → Option ℕ
parse_correction_attempt_from_step_id step_id =
    or_number (whole_number (after (codes "runtime-correction-") step_id))
      (whole_number (after (codes "validation-correction-") step_id))

-- AgentStep.
pub record Step : Type 0 where
  pub id : Text
  pub input : Members

abbrev pub metadata_of : Js → Members → Metadata
metadata_of js deep = record {
  phase = js.trim (string_or_empty (get (codes "phase") deep));
  attempt = floor_if_positive (js.to_number (get (codes "attempt") deep));
  failed_step_id = js.trim (string_or_empty (get (codes "failedStepId") deep));
  classification_intent =
      normalize_intent js (get_in (codes "intent") (to_record (get (codes "classification") deep)));
  constraint = parse_constraint js (get (codes "constraint") deep);
}

unfoldable pub parse_metadata : Js → Step → Option Metadata
parse_metadata js step =
    Option.map (metadata_of js) (to_record (get (codes "_deepCorrection") step.input))
