-- ===== src/Session/Restore.antt =====
-- Writing the staged changes and restoring the backups (agent/fs/file-session.ts).
use deeprun.Prelude.{
  ◌≡◌, refl, Bool, true, false, ◌||◌, List, [], ◌∷◌, Option, none, some, Text, arith, text_eq,
  text_eq→eq, All, inl, inr, Bool-cases,
}
use deeprun.Session.Model.{StagedFileChange, StepBackup, Disk, Session, Result, ok}
use deeprun.Session.Disk.{put, meet, write, write_file, calm}
use deeprun.Session.Staging.{set_snapshot}
use deeprun.Session.Applying.{get_backup, backup_target, restore_one, restore_backups}

-- Is a file at the path among those of the changes?
unfoldable pub touches : List StagedFileChange → Text → Bool
touches [] p = false
touches (c ∷ cs) p = text_eq p c.absolute_path || touches cs p

unfoldable pub rest_faults : List (Option (Option Text)) → List (Option (Option Text))
rest_faults [] = []
rest_faults (fault ∷ rest) = rest

abbrev pub written : Text → Option Text → Disk → Disk
written path content d = record { files = put path content d.files; faults = rest_faults d.faults }

meet-calm :
    (faults : List (Option (Option Text)))
    → (path : Text) (content : Option Text) (files : Text → Option Text) → calm faults ≡ true
    → (meet faults path content files
        ≡ (true, record { files = put path content files; faults = rest_faults faults }))
      × (calm (rest_faults faults) ≡ true)
unfolding calm rest_faults
meet-calm [] path content files h = (refl, refl)
meet-calm (none ∷ rest) path content files h = (refl, h)
meet-calm (some left ∷ rest) path content files h = ground arith

write-calm :
    (path : Text) (content : Option Text) (d : Disk)
    → calm d.faults ≡ true
    → (write path content d ≡ (true, written path content d)) × (calm (rest_faults d.faults) ≡ true)
unfolding write
write-calm path content d h = meet-calm d.faults path content d.files h

-- Backups that hold what `base` has at the path of the change.
abbrev pub Backed : (Text → Option Text) → List StepBackup → StagedFileChange → Type 0
Backed base backups c =
    (b : StepBackup) × ((get_backup c.path backups ≡ some b)
      × (backup_target b ≡ base c.absolute_path))

-- The session after a restoring write.
abbrev one_restored : StepBackup → StagedFileChange → Session → Session
one_restored b c s =
    set_snapshot c.path b.content_hash
      (record s { disk = written c.absolute_path (backup_target b) s.disk })

restore_one_lem :
    (backups : List StepBackup) (b : StepBackup) (c : StagedFileChange) (s : Session)
    → get_backup c.path backups ≡ some b
    → calm s.disk.faults ≡ true
    → restore_one (get_backup c.path backups) c s ≡ (ok tt, one_restored b c s)
unfolding restore_one write_file
restore_one_lem backups b c s found quiet =
    rw (found, (write-calm c.absolute_path (backup_target b) s.disk quiet).0) refl

-- Every file is as in `base`, and the rest of the session is kept.
abbrev pub Restored : (Text → Option Text) → Session → Result (Unit {0}) × Session → Type 0
Restored base s (r, s') =
    (r ≡ ok tt)
    × (((p : Text) → s'.disk.files p ≡ base p)
        × ((s'.current_step ≡ s.current_step) × (s'.applied_steps ≡ s.applied_steps)))

put-base :
    (base files : Text → Option Text) (path p : Text) (content : Option Text) (b : Bool)
    → content ≡ base path
    → ((text_eq p path || b) ≡ false → files p ≡ base p)
    → b ≡ false
    → put path content files p ≡ base p
put-base base files path p content b e h away = elim (Bool-cases (text_eq p path)) [
  | inl same ↦ rw (same, text_eq→eq p path same) e
  | inr other ↦ rw other (h (rw (other, away) refl))
]

pub restore_backups-Restored :
    (base : Text → Option Text) (backups : List StepBackup) (cs : List StagedFileChange)
    → (s : Session) → calm s.disk.faults ≡ true
    → All (Backed base backups) cs
    → ((p : Text) → touches cs p ≡ false → s.disk.files p ≡ base p)
    → Restored base s (restore_backups backups cs s)
unfolding restore_backups touches
restore_backups-Restored base backups [] s quiet backed h = (refl, (λ p. h p refl, (refl, refl)))
restore_backups-Restored base backups (c ∷ cs) s quiet ((b, (found, e)), backed) h =
    rw (restore_one_lem backups b c s found quiet) (
      restore_backups-Restored base backups cs (one_restored b c s)
        ((write-calm c.absolute_path (backup_target b) s.disk quiet).1) backed
        (λ p away.
          put-base base s.disk.files c.absolute_path p (backup_target b) (touches cs p) e (h p)
            away))
