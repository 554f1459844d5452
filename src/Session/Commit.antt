-- ===== src/Session/Commit.antt =====
-- Committing an applied step, and what a commit that throws leaves
-- (agent/fs/file-session.ts `commitStep`).
use deeprun.Prelude.{
  ◌≡◌, refl, true, sym, ap, ◌∙◌, [], ◌∷◌, ◌++◌, map, Option, none, some, Text, All, text_eq_refl,
  ==_refl,
}
use mathlib.Core.Path.{subst}
use deeprun.Session.Model.{
  Platform, ActiveStep, AppliedStep, Session, Result, ok, err, commit_failed,
}
use deeprun.Session.Disk.{calm, at_most_one_fault}
use deeprun.Session.Applying.{
  build_backups, apply_step_changes, restore_backups, record_commit, commit_step, finish_commit,
}
use deeprun.Session.Restore.{Backed, Restored, restore_backups-Restored}
use deeprun.Session.Backups.{touches-sort}
use deeprun.Session.Transaction.{
  Staging, Applied, sorted, applied_step, require_active_step_lem, get_staged_diffs_lem,
  apply_step_changes-Applied,
}
use deeprun.Session.Undo.{Over, backups-Backed, Applied-Over}

commit_applied :
    (platform : Platform) (step : ActiveStep) (outcome : Option (Option Text)) (s : Session)
    → s.current_step ≡ some (applied_step platform step)
    → commit_step platform outcome step.step_id step.step_index s
      ≡ finish_commit outcome (applied_step platform step) (sorted platform step) s
unfolding commit_step
commit_applied platform step outcome s at =
    rw
      (
        require_active_step_lem (applied_step platform step) s at,
        text_eq_refl step.step_id,
        ==_refl step.step_index,
        require_active_step_lem (applied_step platform step) s at,
        get_staged_diffs_lem platform (applied_step platform step) s at,
      )
      refl

-- The record of the step that a commit leaves.
abbrev pub committed : Platform → ActiveStep → Option Text → AppliedStep
committed platform step commit = record {
  step_id = step.step_id;
  step_index = step.step_index;
  commit_hash = commit;
  file_paths = map (λ c. c.path) (sorted platform step);
}

-- The commit failed: every file is as in `base`, and the step is still active and applied.
abbrev pub CommitFailed :
    Platform → ActiveStep → (Text → Option Text) → Session → Result (Option Text) × Session → Type 0
CommitFailed platform step base s (r, s') =
    (r ≡ err commit_failed)
    × (((p : Text) → s'.disk.files p ≡ base p)
        × ((s'.current_step ≡ some (applied_step platform step))
            × (s'.applied_steps ≡ s.applied_steps)))

failed_finish :
    (platform : Platform) (step : ActiveStep) (base : Text → Option Text) (s : Session)
    → (w : Result (Unit {0}) × Session) → s.current_step ≡ some (applied_step platform step)
    → Restored base s w
    → CommitFailed platform step base s (err commit_failed, w.1)
failed_finish platform step base s (r, s') at (e, (files, (kept, steps))) =
    (refl, (files, (kept ∙ at, steps)))

Over-failed :
    (platform : Platform) (step : ActiveStep) (base : Text → Option Text) (s : Session)
    → Over platform step base s
    → All (Backed base (build_backups (sorted platform step) [])) (sorted platform step)
    → CommitFailed platform step base s (commit_step platform none step.step_id step.step_index s)
Over-failed platform step base s (at, (files, quiet)) backed =
    let staged = sorted platform step in
    let backups = build_backups staged [] in
    subst (CommitFailed platform step base s) (sym (commit_applied platform step none s at)) (
      failed_finish platform step base s (restore_backups backups staged s) at (
        restore_backups-Restored base backups staged s quiet backed
          (λ p away. files p (sym (touches-sort platform step.staged_changes p) ∙ away))))

-- When the commit of an applied step throws and no restoring write does, every file is as it was
-- before the step was applied; yet the step stays active and marked as applied.
pub commit_step-CommitFailed :
    (platform : Platform) (step : ActiveStep) (s s' : Session)
    → Staging platform step s
    → at_most_one_fault s.disk.faults ≡ true
    → apply_step_changes platform s ≡ (ok tt, s')
    → calm s'.disk.faults ≡ true
    → CommitFailed platform step s.disk.files s'
        (commit_step platform none step.step_id step.step_index s')
commit_step-CommitFailed platform step s s' staging faults run quiet =
    let applied : Applied platform step s (ok tt, s') =
      subst (Applied platform step s) run
        (apply_step_changes-Applied platform step s staging faults) in
    Over-failed platform step s.disk.files s' (Applied-Over platform step s s' applied quiet)
      (backups-Backed platform step s staging.1.1)

-- The session after a commit that returned.
abbrev pub Committed :
    Platform → ActiveStep → Option Text → Session → Result (Option Text) × Session → Type 0
Committed platform step commit s (r, s') =
    (r ≡ ok commit)
    × ((s'.disk ≡ s.disk)
        × ((s'.current_step ≡ none)
            × (s'.applied_steps ≡ s.applied_steps ++ committed platform step commit ∷ [])))

pub commit_applied-Committed :
    (platform : Platform) (step : ActiveStep) (commit : Option Text) (s : Session)
    → s.current_step ≡ some (applied_step platform step)
    → Committed platform step commit s
        (commit_step platform (some commit) step.step_id step.step_index s)
unfolding record_commit
commit_applied-Committed platform step commit s at =
    subst (Committed platform step commit s) (sym (commit_applied platform step (some commit) s at))
      (refl, (refl, (refl, refl)))

-- A commit that throws, and is tried again with success, records the staged files as applied in
-- the session, while every file is as it was before the step was applied.
pub retried_commit :
    (platform : Platform) (step : ActiveStep) (commit : Option Text) (s s' : Session)
    → Staging platform step s
    → at_most_one_fault s.disk.faults ≡ true
    → apply_step_changes platform s ≡ (ok tt, s')
    → calm s'.disk.faults ≡ true
    → let failed = (commit_step platform none step.step_id step.step_index s').1 in
      let retried = commit_step platform (some commit) step.step_id step.step_index failed in
      (retried.0 ≡ ok commit)
      × (((p : Text) → retried.1.disk.files p ≡ s.disk.files p)
          × (retried.1.applied_steps ≡ s'.applied_steps ++ committed platform step commit ∷ []))
retried_commit platform step commit s s' staging faults run quiet =
    let failed = (commit_step platform none step.step_id step.step_index s').1 in
    let (e, (files, (at, steps))) =
      commit_step-CommitFailed platform step s s' staging faults run quiet in
    let (e', (disk, (done, more))) = commit_applied-Committed platform step commit failed at in
    (
      e',
      (
        (λ p. ap (λ d. d.files p) disk ∙ files p),
        more ∙ ap (λ l. l ++ committed platform step commit ∷ []) steps,
      ),
    )
