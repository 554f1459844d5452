-- ===== src/Correction/Paths.antt =====
-- The paths that a correction may change (agent/correction/policy-engine.ts `isPathAllowed`).
use deeprun.Prelude.{
  Bool, false, ◌||◌, List, ◌++◌, any, Text, codes, is_empty, text_eq, starts_with, ends_with,
  if◌then◌else◌,
}
use deeprun.Correction.Metadata.{Js, normalize_path_prefix}

abbrev pub within : Text → Text → Bool
within path prefix =
    if is_empty prefix
    then false
    else if ends_with (codes "/") prefix
    then starts_with prefix path
    else text_eq path prefix || starts_with (prefix ++ codes "/") path

unfoldable pub is_path_allowed : Js → Text → List Text → Bool
is_path_allowed js path prefixes =
    any (λ p. within (normalize_path_prefix js path) (normalize_path_prefix js p)) prefixes
