-- ===== src/Session/Tests.antt =====
-- A session at a root with one file, which stages a new file and a removal.
use deeprun.Prelude.{
  ◌≡◌, inr, refl, Bool, true, false, List, [], ◌∷◌, ◌++◌, Option, none, some, Text, codes, length,
  text_eq, starts_with, forward_slashes, strip_leading, strip_trailing, includes, ends_with, ◌↔◌,
}
use deeprun.Session.Validator.{
  validate_staged_changes, changes_issues, change_issues, has_unsafe_relative_path,
  has_binary_like_content, is_restricted_env_path, is_restricted_by_prefix, unsafe_path,
  path_outside_project,
}
use deeprun.Session.Acceptance.{StepFits, validate_staged_changes-StepFits}
use deeprun.Session.Model.{
  Platform, ProposedFileChange, StagedFileChange, ActiveStep, Session, Disk, ok, ChangeType,
  schema_accepts,
}
use deeprun.Session.Disk.{
  write, write_file, at_most_one_fault, calm, read_from_disk, safe_resolve_path,
}
use deeprun.Session.Staging.{
  normalize_relative_path, begin_step, new_step, require_active_step, get_staged, set_staged, read,
  check_change, staged_change, stage_change,
}
use deeprun.Session.Applying.{
  build_backups, get_backup, restore_one, restore_backups, insert_by_path, sort_by_path,
  get_staged_diffs, locks_hold, write_all, on_error, write_or_restore, apply_staged,
  apply_step_changes, commit_step, abort_step,
}
use deeprun.Session.Captures.{HoldsText}
use deeprun.Session.Transaction.{Staging, Applied}
use deeprun.Session.Whole.{Call, reading, staging, call, calls, step-AllOrNothing}
use deeprun.Session.Undo.{Aborted, apply-abort}
use deeprun.Session.Commit.{committed, CommitFailed, commit_step-CommitFailed, retried_commit}

abbrev joined : Text → Text → Text
joined root [] = root
joined root (c ∷ s) = root ++ codes "/" ++ c ∷ s

abbrev platform : Platform
platform = record {
  resolve = joined;
  content_hash = λ t. t;
  byte_length = length;
  digits = λ n. n ∷ [];
  locale_le = λ s t. true;
  read_text = λ path held. some held;
}

abbrev disk_at : List (Option (Option Text)) → Disk
disk_at faults = record {
  files = λ p. elim (text_eq p (codes "/p/b")) [ true ↦ some (codes "old") | false ↦ none ];
  faults = faults;
}

abbrev session_at : List (Option (Option Text)) → Session
session_at faults = record {
  project_root = codes "/p";
  options = record {
    max_files_per_step = 15;
    max_total_diff_bytes = 400000;
    max_file_bytes = 1500000;
    allow_env_mutation = false;
    restricted_path_prefixes = [];
  };
  applied_steps = [];
  snapshot = λ p. none;
  base_commit_hash = none;
  current_commit_hash = none;
  current_step = none;
  last_committed_diffs = [];
  disk = disk_at faults;
}

abbrev new_file : ProposedFileChange
new_file = record {
  path = codes "a";
  type = ChangeType.create;
  new_content = some (codes "new");
  old_content_hash = none;
}

abbrev removal : ProposedFileChange
removal = record {
  path = codes "b";
  type = ChangeType.delete;
  new_content = none;
  old_content_hash = none;
}

abbrev the_calls : List Call
the_calls = staging new_file ∷ reading (codes "a") ∷ staging removal ∷ []

all_text :
    (p : Text) (b : Bool)
    → HoldsText platform p (elim b [ true ↦ some (codes "old") | false ↦ none ])
all_text p true = inr refl
all_text p false = tt

step-AllOrNothing_example :
    let s = session_at (none ∷ some (some (codes "torn")) ∷ []) in
    let s' = calls platform the_calls (begin_step (codes "s") 1 s).1 in
    (s'.disk ≡ s.disk)
    × ((step : ActiveStep) × Applied platform step s' (apply_step_changes platform s'))
unfolding at_most_one_fault calm
step-AllOrNothing_example =
    step-AllOrNothing platform (codes "s") 1 the_calls
      (session_at (none ∷ some (some (codes "torn")) ∷ [])) refl refl
      (λ p. all_text p (text_eq p (codes "/p/b")))

abbrev active_of : Option ActiveStep → ActiveStep
active_of none = new_step [] 0
active_of (some step) = step

unfoldable staged_session : Session
staged_session = calls platform the_calls (begin_step (codes "s") 1 (session_at [])).1

unfoldable the_step : ActiveStep
the_step = active_of staged_session.current_step

unfoldable applied_session : Session
applied_session = (apply_step_changes platform staged_session).1

the_step-Staging : Staging platform the_step staged_session
unfolding the_step staged_session calls call begin_step stage_change read normalize_relative_path
    require_active_step schema_accepts get_staged set_staged check_change staged_change
    safe_resolve_path read_from_disk forward_slashes strip_leading text_eq starts_with
the_step-Staging = (refl, (refl, ((refl, refl), ((refl, refl), tt))))

the_apply : apply_step_changes platform staged_session ≡ (ok tt, applied_session)
unfolding applied_session staged_session calls call begin_step stage_change read
    normalize_relative_path require_active_step schema_accepts get_staged set_staged check_change
    staged_change safe_resolve_path read_from_disk forward_slashes strip_leading text_eq starts_with
    apply_step_changes apply_staged get_staged_diffs sort_by_path insert_by_path locks_hold
    write_or_restore on_error write_all write_file write
the_apply = refl

the_faults :
    (at_most_one_fault staged_session.disk.faults ≡ true)
    × (calm applied_session.disk.faults ≡ true)
unfolding applied_session staged_session calls call begin_step stage_change read
    normalize_relative_path require_active_step schema_accepts get_staged set_staged check_change
    staged_change safe_resolve_path read_from_disk forward_slashes strip_leading text_eq starts_with
    apply_step_changes apply_staged get_staged_diffs sort_by_path insert_by_path locks_hold
    write_or_restore on_error write_all write_file write at_most_one_fault calm
the_faults = (refl, refl)

apply-abort_example : Aborted staged_session.disk.files applied_session (abort_step applied_session)
apply-abort_example =
    apply-abort platform the_step staged_session applied_session the_step-Staging the_faults.0
      the_apply the_faults.1

commit_step-CommitFailed_example :
    CommitFailed platform the_step staged_session.disk.files applied_session
      (commit_step platform none the_step.step_id the_step.step_index applied_session)
commit_step-CommitFailed_example =
    commit_step-CommitFailed platform the_step staged_session applied_session the_step-Staging
      the_faults.0 the_apply the_faults.1

retried_commit_example :
    let failed =
      (commit_step platform none the_step.step_id the_step.step_index applied_session).1 in
    let retried =
      commit_step platform (some (some (codes "h"))) the_step.step_id the_step.step_index failed in
    (retried.0 ≡ ok (some (codes "h")))
    × (((p : Text) → retried.1.disk.files p ≡ staged_session.disk.files p)
        × (retried.1.applied_steps
            ≡ applied_session.applied_steps ++ committed platform the_step (some (codes "h")) ∷ []))
retried_commit_example =
    retried_commit platform the_step (some (codes "h")) staged_session applied_session
      the_step-Staging the_faults.0 the_apply the_faults.1

abbrev one_change : StagedFileChange
one_change = record {
  path = codes "src/a";
  type = ChangeType.create;
  new_content = some (codes "new");
  old_content_hash = none;
  absolute_path = codes "/p/src/a";
  previous_content = none;
  previous_content_hash = none;
  next_content_hash = some (codes "new");
  diff_preview = codes "+new";
  diff_bytes = 4;
}

validate_staged_changes-StepFits_example :
    (validate_staged_changes platform (codes "/p") (one_change ∷ []) (session_at []).options ≡ [])
    ↔ StepFits platform (codes "/p") (session_at []).options (one_change ∷ [])
validate_staged_changes-StepFits_example =
    validate_staged_changes-StepFits platform (codes "/p") (session_at []).options (one_change ∷ [])

-- The change is accepted, and refused at a path that leaves the project.
accepted :
    validate_staged_changes platform (codes "/p") (one_change ∷ []) (session_at []).options ≡ []
unfolding validate_staged_changes changes_issues change_issues has_unsafe_relative_path
    has_binary_like_content is_restricted_env_path is_restricted_by_prefix forward_slashes
    strip_trailing starts_with includes ends_with text_eq
accepted = refl

refused :
    validate_staged_changes platform
      (codes "/p")
      (record one_change { path = codes "../a"; absolute_path = codes "/a" } ∷ [])
      (session_at []).options
    ≡ unsafe_path (codes "../a") ∷ path_outside_project (codes "../a") ∷ []
unfolding validate_staged_changes changes_issues change_issues has_unsafe_relative_path
    has_binary_like_content is_restricted_env_path is_restricted_by_prefix forward_slashes
    strip_trailing starts_with includes ends_with text_eq
refused = refl

-- A file that is no UTF-8, whose removal throws, is left as the text that was read of it.
abbrev lossy : Platform
lossy = record platform { read_text = λ path held. some (codes "?") }

mangled :
    (apply_step_changes lossy (
        calls lossy the_calls
          (begin_step
            (codes "s")
            1
            (session_at (none ∷ some (some (codes "old")) ∷ []))).1)).1.disk.files
      (codes "/p/b")
    ≡ some (codes "?")
unfolding calls call begin_step stage_change read normalize_relative_path require_active_step
    schema_accepts get_staged set_staged check_change staged_change safe_resolve_path read_from_disk
    forward_slashes strip_leading text_eq starts_with apply_step_changes apply_staged
    get_staged_diffs sort_by_path insert_by_path locks_hold write_or_restore on_error write_all
    write_file write build_backups restore_backups restore_one get_backup
mangled = refl
