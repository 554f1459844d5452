-- ===== src/Session/Writing.antt =====
-- The writes of applyStepChanges, and their undoing when one of them throws
-- (agent/fs/file-session.ts).
use deeprun.Prelude.{
  ◌≡◌, refl, ◌∙◌, Bool, true, false, ◌||◌, List, [], ◌∷◌, Option, none, some, Text, arith, text_eq,
  All, ◌⊎◌, inl, inr,
}
use deeprun.Session.Model.{
  StagedFileChange, StepBackup, Disk, Session, Result, ok, err, write_failed, continue, throw,
}
use deeprun.Session.Disk.{put, meet, write, write_file, calm, at_most_one_fault}
use deeprun.Session.Applying.{
  target_content, write_all, restore_backups, after_error, on_error, write_or_restore,
}
use deeprun.Session.Restore.{
  touches, rest_faults, written, Backed, Restored, restore_backups-Restored,
}

-- The files that the writes leave, when all are done.
unfoldable pub overwrite : List StagedFileChange → (Text → Option Text) → Text → Option Text
overwrite [] files = files
overwrite (c ∷ cs) files = overwrite cs (put c.absolute_path (target_content c) files)

-- A session whose disk alone is another.
abbrev with_disk : Session → Disk → Session
with_disk s d = record s { disk = d }

abbrev torn : Text → Option Text → Disk → Disk
torn path left d = record { files = put path left d.files; faults = rest_faults d.faults }

-- A write is done, or the one fault is spent.
Met : List (Option (Option Text)) → Text → Option Text → (Text → Option Text) → Type 0
Met faults path content files =
    ((meet faults path content files
        ≡ (true, record { files = put path content files; faults = rest_faults faults }))
      × (at_most_one_fault (rest_faults faults) ≡ true))
    ⊎ ((left : Option Text) × ((meet faults path content files
            ≡ (false, record { files = put path left files; faults = rest_faults faults }))
          × (calm (rest_faults faults) ≡ true)))

meet-Met :
    (faults : List (Option (Option Text)))
    → (path : Text) (content : Option Text) (files : Text → Option Text)
    → at_most_one_fault faults ≡ true
    → Met faults path content files
unfolding Met rest_faults at_most_one_fault
meet-Met [] path content files h = inl (refl, refl)
meet-Met (none ∷ rest) path content files h = inl (refl, h)
meet-Met (some left ∷ rest) path content files h = inr (left, (refl, h))

write_file-cases :
    (path : Text) (content : Option Text) (s : Session)
    → at_most_one_fault s.disk.faults ≡ true
    → ((write_file path content s ≡ (ok tt, with_disk s (written path content s.disk)))
        × (at_most_one_fault (rest_faults s.disk.faults) ≡ true))
      ⊎ ((left : Option Text) × ((write_file path content s
              ≡ (err write_failed, with_disk s (torn path left s.disk)))
            × (calm (rest_faults s.disk.faults) ≡ true)))
unfolding write_file write Met
write_file-cases path content s h = elim (meet-Met s.disk.faults path content s.disk.files h) [
  | inl (e, rest) ↦ inl (rw e refl, rest)
  | inr (left, (e, rest)) ↦ inr (left, (rw e refl, rest))
]

-- Only files of the changes differ, and the rest of the session is kept.
abbrev Keeps : List StagedFileChange → Session → Session → Type 0
Keeps cs s s' =
    ((p : Text) → touches cs p ≡ false → s'.disk.files p ≡ s.disk.files p)
    × ((s'.current_step ≡ s.current_step) × (s'.applied_steps ≡ s.applied_steps))

Wrote : List StagedFileChange → Session → Result (Unit {0}) × Session → Type 0
Wrote cs s (r, s') =
    (((r ≡ ok tt) × (s'.disk.files ≡ overwrite cs s.disk.files))
      ⊎ ((r ≡ err write_failed) × (calm s'.disk.faults ≡ true)))
    × Keeps cs s s'

pub or_false : (a b : Bool) → (a || b) ≡ false → (a ≡ false) × (b ≡ false)
or_false a b h = ground arith

Keeps-write :
    (c : StagedFileChange) (cs : List StagedFileChange) (s s' : Session) (content : Option Text)
    → (faults : List (Option (Option Text)))
    → Keeps cs
        (with_disk s (record { files = put c.absolute_path content s.disk.files; faults = faults }))
        s'
    → Keeps (c ∷ cs) s s'
unfolding touches
Keeps-write c cs s s' content faults (files, rest) = (
  (λ p away.
      let h = or_false (text_eq p c.absolute_path) (touches cs p) away in
      files p h.1 ∙ rw h.0 refl),
  rest,
)

Keeps-refl : (cs : List StagedFileChange) (s : Session) → Keeps cs s s
Keeps-refl cs s = ((λ p away. refl), (refl, refl))

Wrote-cons :
    (c : StagedFileChange) (cs : List StagedFileChange) (s : Session)
    → (w : Result (Unit {0}) × Session)
    → Wrote cs (with_disk s (written c.absolute_path (target_content c) s.disk)) w
    → Wrote (c ∷ cs) s w
unfolding Wrote overwrite
Wrote-cons c cs s (r, s') (outcome, keeps) =
    (outcome, Keeps-write c cs s s' (target_content c) (rest_faults s.disk.faults) keeps)

write_all-Wrote :
    (cs : List StagedFileChange) (s : Session)
    → at_most_one_fault s.disk.faults ≡ true
    → Wrote cs s (write_all cs s)
unfolding write_all Wrote overwrite
write_all-Wrote [] s h = (inl (refl, refl), Keeps-refl [] s)
write_all-Wrote (c ∷ cs) s h =
    let s1 = with_disk s (written c.absolute_path (target_content c) s.disk) in
    elim (write_file-cases c.absolute_path (target_content c) s h) [
      | inl (e, rest) ↦ rw e (Wrote-cons c cs s (write_all cs s1) (write_all-Wrote cs s1 rest))
      | inr (left, (e, rest)) ↦
          let s2 = with_disk s (torn c.absolute_path left s.disk) in
          rw e (
            inr (refl, rest),
            Keeps-write c cs s s2 left (rest_faults s.disk.faults) (Keeps-refl cs s2),
          )
    ]

-- All the writes are done, or every file is as before.
unfoldable pub AllOrNothing : List StagedFileChange → Session → Result (Unit {0}) × Session → Type 0
AllOrNothing cs s (r, s') =
    (((r ≡ ok tt) × (s'.disk.files ≡ overwrite cs s.disk.files))
      ⊎ ((r ≡ err write_failed) × ((p : Text) → s'.disk.files p ≡ s.disk.files p)))
    × ((s'.current_step ≡ s.current_step) × (s'.applied_steps ≡ s.applied_steps))

undone :
    (cs : List StagedFileChange) (s s' : Session) (w : Result (Unit {0}) × Session)
    → Keeps cs s s'
    → Restored s.disk.files s' w
    → AllOrNothing cs s (continue w.0 (λ _. throw write_failed) w.1)
unfolding AllOrNothing
undone cs s s' (r, s'') (files, (step, steps)) (e, (same, (step', steps'))) =
    rw e (inr (refl, same), (step' ∙ step, steps' ∙ steps))

restored :
    (backups : List StepBackup) (cs : List StagedFileChange) (s : Session)
    → (w : Result (Unit {0}) × Session) → All (Backed s.disk.files backups) cs
    → Wrote cs s w
    → AllOrNothing cs s (after_error w.0 (restore_backups backups cs) w.1)
unfolding Wrote AllOrNothing
restored backups cs s (r, s') backed (inl (e, files), keeps) = rw e (inl (refl, files), keeps.1)
restored backups cs s (r, s') backed (inr (e, quiet), keeps) = rw e (
    undone cs s s' (restore_backups backups cs s') keeps
      (restore_backups-Restored s.disk.files backups cs s' quiet backed keeps.0))

pub write_or_restore-AllOrNothing :
    (backups : List StepBackup) (cs : List StagedFileChange) (s : Session)
    → at_most_one_fault s.disk.faults ≡ true
    → All (Backed s.disk.files backups) cs
    → AllOrNothing cs s (write_or_restore backups cs s)
unfolding write_or_restore on_error
write_or_restore-AllOrNothing backups cs s h backed =
    restored backups cs s (write_all cs s) backed (write_all-Wrote cs s h)
