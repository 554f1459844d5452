-- ===== src/Session/Undo.antt =====
-- Aborting an applied step, and a commit that fails (agent/fs/file-session.ts `abortStep` and
-- `commitStep`).
use deeprun.Prelude.{
  ◌≡◌, refl, sym, ap, ◌∙◌, true, false, List, [], ◌∷◌, Option, none, some, Text, All, inl, inr,
  arith, text_eq,
}
use mathlib.Core.Path.{subst}
use deeprun.Session.Model.{
  Platform, StagedFileChange, ActiveStep, Session, Result, ok, ◌>>◌, continue, modify,
}
use deeprun.Session.Disk.{put, calm, at_most_one_fault}
use deeprun.Session.Staging.{with_step, set_snapshot}
use deeprun.Session.Applying.{
  build_backups, apply_step_changes, restore_backups, reset_snapshots, abort_active, abort_step,
  target_content,
}
use deeprun.Session.Restore.{touches, Backed, Restored, restore_backups-Restored}
use deeprun.Session.Backups.{Captured, build_backups-Backed, sort-All, All-sort, touches-sort}
use deeprun.Session.Writing.{overwrite, or_false}
use deeprun.Session.Transaction.{Staging, Applied, sorted, applied_step, apply_step_changes-Applied}

overwrite-apart :
    (cs : List StagedFileChange) (files : Text → Option Text) (p : Text)
    → touches cs p ≡ false
    → overwrite cs files p ≡ files p
unfolding overwrite touches
overwrite-apart [] files p away = refl
overwrite-apart (c ∷ cs) files p away =
    let h = or_false (text_eq p c.absolute_path) (touches cs p) away in
    overwrite-apart cs (put c.absolute_path (target_content c) files) p h.1 ∙ rw h.0 refl

-- A session whose step is applied over the files `base`, and no write will throw.
abbrev pub Over : Platform → ActiveStep → (Text → Option Text) → Session → Type 0
Over platform step base s =
    (s.current_step ≡ some (applied_step platform step))
    × (((p : Text) → touches step.staged_changes p ≡ false → s.disk.files p ≡ base p)
        × (calm s.disk.faults ≡ true))

abbrev pub AllCaptured : Platform → ActiveStep → Session → Type 0
AllCaptured platform step s =
    All (Captured platform s.project_root s.disk.files) step.staged_changes

pub Applied-Over :
    (platform : Platform) (step : ActiveStep) (s s' : Session)
    → Applied platform step s (ok tt, s')
    → calm s'.disk.faults ≡ true
    → Over platform step s.disk.files s'
Applied-Over platform step s s' (inr (e, (no_error, rest)), steps) quiet = ground arith
Applied-Over platform step s s' (inl (e, (files, at)), steps) quiet = (
  at,
  (
    (λ p away.
        ap (λ f. f p) files
        ∙ overwrite-apart (sorted platform step) s.disk.files p
            (touches-sort platform step.staged_changes p ∙ away)),
    quiet,
  ),
)

pub backups-Backed :
    (platform : Platform) (step : ActiveStep) (s : Session)
    → AllCaptured platform step s
    → All (Backed s.disk.files (build_backups (sorted platform step) [])) (sorted platform step)
backups-Backed platform step s captured =
    build_backups-Backed platform s.project_root s.disk.files (sorted platform step) (
      sort-All platform (Captured platform s.project_root s.disk.files) step.staged_changes
        captured)

-- Every file is as in `base`, no step is active, and no step is recorded.
abbrev pub Aborted : (Text → Option Text) → Session → Result (Unit {0}) × Session → Type 0
Aborted base s (r, s') =
    (r ≡ ok tt)
    × (((p : Text) → s'.disk.files p ≡ base p)
        × ((s'.current_step ≡ none) × (s'.applied_steps ≡ s.applied_steps)))

reset_snapshots_lem :
    (cs : List StagedFileChange) (s : Session)
    → ((reset_snapshots cs s).disk ≡ s.disk)
      × ((reset_snapshots cs s).applied_steps ≡ s.applied_steps)
reset_snapshots_lem [] s = (refl, refl)
reset_snapshots_lem (c ∷ cs) s =
    reset_snapshots_lem cs (set_snapshot c.path c.previous_content_hash s)

abort_finish :
    (base : Text → Option Text) (cs : List StagedFileChange) (s : Session)
    → (w : Result (Unit {0}) × Session) → Restored base s w
    → Aborted base s
        (continue w.0 (λ _. modify (reset_snapshots cs) >> modify (with_step none)) w.1)
abort_finish base cs s (r, s') (e, (files, (step, steps))) =
    let h = reset_snapshots_lem cs s' in
    rw e (refl, ((λ p. ap (λ d. d.files p) h.0 ∙ files p), (refl, h.1 ∙ steps)))

abort_step_lem :
    (platform : Platform) (step : ActiveStep) (base : Text → Option Text) (s : Session)
    → Over platform step base s
    → All (Backed base (build_backups (sorted platform step) [])) step.staged_changes
    → Aborted base s (abort_step s)
unfolding abort_step
abort_step_lem platform step base s (at, (files, quiet)) backed =
    let backups = build_backups (sorted platform step) [] in
    subst (λ r. Aborted base s r) (sym (ap (λ o. abort_active o s) at))
      (abort_finish base step.staged_changes s (restore_backups backups step.staged_changes s)
        (restore_backups-Restored base backups step.staged_changes s quiet backed files))

-- A step that was applied and is aborted leaves every file as it was before it was applied, when no
-- write of the abort throws; no step is active then, and none was recorded as applied.
pub apply-abort :
    (platform : Platform) (step : ActiveStep) (s s' : Session)
    → Staging platform step s
    → at_most_one_fault s.disk.faults ≡ true
    → apply_step_changes platform s ≡ (ok tt, s')
    → calm s'.disk.faults ≡ true
    → Aborted s.disk.files s' (abort_step s')
apply-abort platform step s s' staging faults run quiet =
    let applied : Applied platform step s (ok tt, s') =
      subst (Applied platform step s) run
        (apply_step_changes-Applied platform step s staging faults) in
    abort_step_lem platform step s.disk.files s' (Applied-Over platform step s s' applied quiet)
      (All-sort platform _ step.staged_changes (backups-Backed platform step s staging.1.1))
