-- ===== src/Session/Applying.antt =====
-- Applying, committing and aborting: the methods of the class FileSession from `getStagedDiffs` on
-- (packages/deeprun-backend/src/agent/fs/file-session.ts).
use deeprun.Prelude.{
  ℕ, Bool, true, false, not, ◌&&◌, ◌==◌, List, [], ◌∷◌, ◌++◌, map, Option, none, some, Text,
  text_eq, if◌then◌else◌, is_some, length,
}
use deeprun.Session.Model.{
  ActiveStep, M, Platform, Result, Session, StagedFileChange, StepBackup, commit_failed, attempt,
  disk_changed, err, gets, guard, is_delete, meta_mismatch, modify, nothing_staged, ok, or_empty,
  pure, rollback_unavailable, throw, truthy, validation_failed, ◌>>=◌, ◌>>◌,
}
use deeprun.Session.Disk.{FileReadResult, write_file, read_from_disk}
use deeprun.Session.Staging.{set_snapshot, with_step, require_active_step, same_hash, same_hash}
use deeprun.Session.Validator.{Issue, validate_staged_changes}

-- `sort((a, b) => a.path.localeCompare(b.path))`, stable.
unfoldable pub insert_by_path :
    Platform → StagedFileChange → List StagedFileChange → List StagedFileChange
insert_by_path platform c [] = c ∷ []
insert_by_path platform c (d ∷ ds) =
    let rest = insert_by_path platform c ds in
    if platform.locale_le c.path d.path then c ∷ d ∷ ds else d ∷ rest

unfoldable pub sort_by_path : Platform → List StagedFileChange → List StagedFileChange
sort_by_path platform [] = []
sort_by_path platform (c ∷ cs) = insert_by_path platform c (sort_by_path platform cs)

unfoldable pub get_staged_diffs : Platform → M (List StagedFileChange)
get_staged_diffs platform = do
  step ← require_active_step
  pure (sort_by_path platform step.staged_changes)

abbrev no_issues : List Issue → Bool
no_issues [] = true
no_issues (i ∷ is) = false

unfoldable pub validate_step : Platform → M (Unit {0})
validate_step platform = do
  step ← require_active_step
  root ← gets (λ s. s.project_root)
  config ← gets (λ s. s.options)
  guard (no_issues (validate_staged_changes platform root step.staged_changes config))
      validation_failed

abbrev lock_of : Option Text → Result FileReadResult → Result Bool → Result Bool
lock_of hash (err e) rest = err e
lock_of hash (ok current_disk) rest =
    if same_hash current_disk.content_hash hash then rest else ok false

-- Has every file the content hash that was staged? A read may throw.
unfoldable pub locks_hold : Platform → List StagedFileChange → Session → Result Bool
locks_hold platform [] s = ok true
locks_hold platform (c ∷ cs) s =
    let rest = locks_hold platform cs s in
    lock_of c.previous_content_hash (read_from_disk platform c.absolute_path s) rest

-- The backups, by path, the latest first.
unfoldable pub build_backups : List StagedFileChange → List StepBackup → List StepBackup
build_backups [] backups = backups
build_backups (c ∷ cs) backups = build_backups cs (
    record {
      path = c.path;
      existed = is_some c.previous_content;
      content = c.previous_content;
      content_hash = c.previous_content_hash;
    }
    ∷ backups)

unfoldable pub get_backup : Text → List StepBackup → Option StepBackup
get_backup path [] = none
get_backup path (b ∷ bs) = if text_eq b.path path then some b else get_backup path bs

-- What is left at the path of a change that is applied.
unfoldable pub target_content : StagedFileChange → Option Text
target_content c = if is_delete c.type then none else some (or_empty c.new_content)

unfoldable pub write_all : List StagedFileChange → M (Unit {0})
write_all [] = pure tt
write_all (c ∷ cs) = do write_file c.absolute_path (target_content c); write_all cs

abbrev pub backup_target : StepBackup → Option Text
backup_target b = if b.existed then some (or_empty b.content) else none

unfoldable pub restore_one : Option StepBackup → StagedFileChange → M (Unit {0})
restore_one none c = pure tt
restore_one (some b) c = do
  write_file c.absolute_path (backup_target b)
  modify (set_snapshot c.path b.content_hash)

unfoldable pub restore_backups : List StepBackup → List StagedFileChange → M (Unit {0})
restore_backups backups [] = pure tt
restore_backups backups (c ∷ cs) = do
  restore_one (get_backup c.path backups) c
  restore_backups backups cs

-- `try { a } catch (error) { b; throw error }`
abbrev pub after_error : Result (Unit {0}) → M (Unit {0}) → M (Unit {0})
after_error (ok u) b s = (ok u, s)
after_error (err e) b s = (b >> throw e) s

unfoldable pub on_error : M (Unit {0}) → M (Unit {0}) → M (Unit {0})
on_error a b s = let (r, s') = a s in after_error r b s'

abbrev pub mark_applied : List StepBackup → ActiveStep → ActiveStep
mark_applied backups step = record step { applied = true; backups = some backups }

-- The changes written, or the files restored.
unfoldable pub write_or_restore : List StepBackup → List StagedFileChange → M (Unit {0})
write_or_restore backups staged = on_error (write_all staged) (restore_backups backups staged)

unfoldable pub apply_staged : Platform → ActiveStep → M (Unit {0})
apply_staged platform step = do
  staged ← get_staged_diffs platform
  guard (not (length staged == 0)) nothing_staged
  same ← attempt (locks_hold platform staged)
  guard same disk_changed
  let backups = build_backups staged []
  write_or_restore backups staged
  modify (with_step (some (mark_applied backups step)))

unfoldable pub apply_step_changes : Platform → M (Unit {0})
apply_step_changes platform = do
  step ← require_active_step
  if step.applied then pure tt else apply_staged platform step

abbrev pub ignored : M (Unit {0}) → M (Unit {0})
ignored m s = let (r, s') = m s in (ok tt, s')

abbrev pub restore_for : Option (List StepBackup) → List StagedFileChange → M (Unit {0})
restore_for none staged = pure tt
restore_for (some backups) staged = ignored (restore_backups backups staged)

abbrev later_commit : Option Text → Option Text → Option Text
later_commit commit current = if truthy commit then commit else current

unfoldable pub record_commit : ActiveStep → List StagedFileChange → Option Text → Session → Session
record_commit step staged commit s = record s {
  current_commit_hash = later_commit commit s.current_commit_hash;
  base_commit_hash = later_commit commit s.current_commit_hash;
  last_committed_diffs = staged;
  applied_steps =
      s.applied_steps
      ++ record {
        step_id = step.step_id;
        step_index = step.step_index;
        commit_hash = commit;
        file_paths = map (λ c. c.path) staged;
      }
        ∷ [];
  current_step = none;
}

-- The outcome of `createAutoCommit`: it throws, or it returns a hash or null.
abbrev pub finish_commit :
    Option (Option Text) → ActiveStep → List StagedFileChange → M (Option Text)
finish_commit none step staged = restore_for step.backups staged >> throw commit_failed
finish_commit (some commit) step staged = modify (record_commit step staged commit) >> pure commit

unfoldable pub commit_step : Platform → Option (Option Text) → Text → ℕ → M (Option Text)
commit_step platform outcome step_id step_index = do
  step ← require_active_step
  guard (text_eq step_id step.step_id && step_index == step.step_index) meta_mismatch
  if step.applied then pure tt else apply_step_changes platform
  -- `step` is the same object, which `applyStepChanges` has updated.
  applied ← require_active_step
  staged ← get_staged_diffs platform
  finish_commit outcome applied staged

abbrev pub reset_snapshots : List StagedFileChange → Session → Session
reset_snapshots [] s = s
reset_snapshots (c ∷ cs) s = reset_snapshots cs (set_snapshot c.path c.previous_content_hash s)

abbrev pub restore_applied : Bool → Option (List StepBackup) → List StagedFileChange → M (Unit {0})
restore_applied true (some backups) staged = restore_backups backups staged
restore_applied _ _ staged = pure tt

abbrev pub abort_active : Option ActiveStep → M (Unit {0})
abort_active none = pure tt
abort_active (some step) = do
  restore_applied step.applied step.backups step.staged_changes
  modify (reset_snapshots step.staged_changes)
  modify (with_step none)

unfoldable pub abort_step : M (Unit {0})
abort_step s = abort_active s.current_step s

unfoldable pub rollback_to_base : M (Unit {0})
rollback_to_base = do
  abort_step
  applied ← gets (λ s. s.applied_steps)
  guard (length applied == 0) rollback_unavailable

unfoldable pub clear : M (Unit {0})
clear = do abort_step; modify (λ s. record s { last_committed_diffs = [] })
