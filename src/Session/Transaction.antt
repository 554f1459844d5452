-- ===== src/Session/Transaction.antt =====
-- What a step of the session does to the files, from the staging to the apply and the abort
-- (agent/fs/file-session.ts `applyStepChanges` and `abortStep`).
use deeprun.Prelude.{
  ◌≡◌, refl, ap, ◌∙◌, Bool, true, false, List, [], some, Text, All, ◌⊎◌, inl, inr, length, ◌==◌,
  Bool-cases, arith, if◌then◌else◌,
}
use deeprun.Session.Model.{
  Platform, StagedFileChange, ActiveStep, Session, Result, ok, err, Error, nothing_staged,
  disk_changed, write_failed, M, continue, pure, modify,
}
use deeprun.Session.Disk.{at_most_one_fault}
use deeprun.Session.Staging.{require_active_step, with_step, active}
use deeprun.Session.Applying.{
  sort_by_path, get_staged_diffs, locks_hold, build_backups, mark_applied, write_or_restore,
  apply_staged, apply_step_changes,
}
use deeprun.Session.Backups.{Captured, build_backups-Backed, sort-All}
use deeprun.Session.Writing.{overwrite, AllOrNothing, write_or_restore-AllOrNothing}

-- The step is active and not applied, and each of its changes was read from the files as they are.
abbrev pub Staging : Platform → ActiveStep → Session → Type 0
Staging platform step s =
    (s.current_step ≡ some step)
    × ((step.applied ≡ false)
        × All (Captured platform s.project_root s.disk.files) step.staged_changes)

abbrev pub sorted : Platform → ActiveStep → List StagedFileChange
sorted platform step = sort_by_path platform step.staged_changes

abbrev pub applied_step : Platform → ActiveStep → ActiveStep
applied_step platform step = mark_applied (build_backups (sorted platform step) []) step

-- What applying a step may end in.
abbrev pub Applied : Platform → ActiveStep → Session → Result (Unit {0}) × Session → Type 0
Applied platform step s (r, s') =
    (((r ≡ ok tt)
        × ((s'.disk.files ≡ overwrite (sorted platform step) s.disk.files)
            × (s'.current_step ≡ some (applied_step platform step))))
      ⊎ ((e : Error) × ((r ≡ err e)
            × (((p : Text) → s'.disk.files p ≡ s.disk.files p) × (s'.current_step ≡ some step)))))
    × (s'.applied_steps ≡ s.applied_steps)

-- The session after the writes, and the mark on the step.
marked :
    (platform : Platform) (step : ActiveStep) (s : Session) (w : Result (Unit {0}) × Session)
    → s.current_step ≡ some step
    → AllOrNothing (sorted platform step) s w
    → Applied platform step s
        (continue w.0 (λ _. modify (with_step (some (applied_step platform step)))) w.1)
unfolding AllOrNothing
marked platform step s (r, s') at (inl (e, files), (kept, steps)) =
    rw e (inl (refl, (files, refl)), steps)
marked platform step s (r, s') at (inr (e, files), (kept, steps)) =
    rw e (inr (write_failed, (refl, (files, kept ∙ at))), steps)

unchanged :
    (platform : Platform) (step : ActiveStep) (s : Session) (e : Error)
    → s.current_step ≡ some step
    → Applied platform step s (err e, s)
unchanged platform step s e at = (inr (e, (refl, ((λ p. refl), at))), refl)

pub require_active_step_lem :
    (step : ActiveStep) (s : Session)
    → s.current_step ≡ some step
    → require_active_step s ≡ (ok step, s)
unfolding require_active_step
require_active_step_lem step s at = ap (λ o. active o s) at

pub get_staged_diffs_lem :
    (platform : Platform) (step : ActiveStep) (s : Session)
    → s.current_step ≡ some step
    → get_staged_diffs platform s ≡ (ok (sorted platform step), s)
unfolding get_staged_diffs
get_staged_diffs_lem platform step s at = rw (require_active_step_lem step s at) refl

pub else_lem :
    (b : Bool) (m n : M (Unit {0})) (s : Session) → b ≡ false → (if b then m else n) s ≡ n s
else_lem true m n s e = ground arith
else_lem false m n s e = refl

locks-cases : (r : Result Bool) → (r ≡ ok true) ⊎ (((e : Error) × (r ≡ err e)) ⊎ (r ≡ ok false))
locks-cases (ok true) = inl refl
locks-cases (ok false) = inr (inr refl)
locks-cases (err e) = inr (inl (e, refl))

apply_staged-Applied :
    (platform : Platform) (step : ActiveStep) (s : Session)
    → Staging platform step s
    → at_most_one_fault s.disk.faults ≡ true
    → Applied platform step s (apply_staged platform step s)
unfolding apply_staged
apply_staged-Applied platform step s (at, (fresh, captured)) faults =
    let staged = sorted platform step in
    let backups = build_backups staged [] in
    rw (get_staged_diffs_lem platform step s at) (elim (Bool-cases (length staged == 0)) [
      | inl none_staged ↦ rw none_staged (unchanged platform step s nothing_staged at)
      | inr some_staged ↦ rw some_staged (elim (locks-cases (locks_hold platform staged s)) [
        | inr (inl (e, thrown)) ↦ rw thrown (unchanged platform step s e at)
        | inr (inr locks) ↦ rw locks (unchanged platform step s disk_changed at)
        | inl locks ↦ rw locks (
            marked platform step s (write_or_restore backups staged s) at (
              write_or_restore-AllOrNothing backups staged s faults (
                build_backups-Backed platform s.project_root s.disk.files staged (
                  sort-All platform (Captured platform s.project_root s.disk.files)
                    step.staged_changes captured))))
      ])
    ])

pub apply_step_changes-Applied :
    (platform : Platform) (step : ActiveStep) (s : Session)
    → Staging platform step s
    → at_most_one_fault s.disk.faults ≡ true
    → Applied platform step s (apply_step_changes platform s)
unfolding apply_step_changes
apply_step_changes-Applied platform step s (at, (fresh, captured)) faults =
    rw
      (
        require_active_step_lem step s at,
        else_lem step.applied (pure tt) (apply_staged platform step) s fresh,
      )
      (apply_staged-Applied platform step s (at, (fresh, captured)) faults)
