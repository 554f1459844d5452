-- ===== src/Session/Whole.antt =====
-- A whole step of the session: it begins, files are read and changes staged in any order, each with
-- any outcome, and the step is applied (agent/fs/file-session.ts).
use deeprun.Prelude.{
  ℕ, ◌≡◌, refl, sym, ◌∙◌, true, List, [], ◌∷◌, Option, none, some, Text, inl, inr,
}
use mathlib.Core.Path.{subst}
use deeprun.Session.Model.{
  Disk, Platform, ProposedFileChange, StagedFileChange, ActiveStep, Session, ok,
}
use deeprun.Session.Disk.{
  at_most_one_fault, read_content, read_from_disk, resolved_path, FileReadResult,
}
use deeprun.Session.Staging.{
  begin_step, new_step, stage_change, read, read_staged, read_unstaged, staged_in,
  normalize_relative_path, with_step,
}
use deeprun.Session.Applying.{apply_step_changes}
use deeprun.Session.Transaction.{Applied, apply_step_changes-Applied}
use deeprun.Session.Captures.{
  HoldsText, Open, Result-cases, StaysOpen, stage_change-StaysOpen, safe_resolve_path-cases,
}

-- What a caller may do between the begin and the apply.
pub data Call : Type 0 where
  reading : Text → Call
  staging : ProposedFileChange → Call

unfoldable pub call : Platform → Call → Session → Session
call platform (reading path) s = (read platform path s).1
call platform (staging change) s = (stage_change platform change s).1

unfoldable pub calls : Platform → List Call → Session → Session
calls platform [] s = s
calls platform (c ∷ cs) s = calls platform cs (call platform c s)

read_unstaged-StaysOpen :
    (platform : Platform) (path : Text) (s : Session)
    → Open platform s
    → StaysOpen platform s (read_unstaged platform path s)
unfolding read_from_disk
read_unstaged-StaysOpen platform path s begun_step =
    let absolute = resolved_path platform s.project_root path in
    elim (safe_resolve_path-cases platform s.project_root path) [
      | inl e ↦ rw e (elim (Result-cases (read_content platform absolute (s.disk.files absolute))) [
        | inl (found, e') ↦ rw e' (begun_step, refl)
        | inr (error, e') ↦ rw e' (begun_step, refl)
      ])
      | inr e ↦ rw e (begun_step, refl)
    ]

read_found :
    (platform : Platform) (path : Text) (o : Option StagedFileChange) (s : Session)
    → Open platform s
    → StaysOpen {A = FileReadResult} platform s (elim o [
      | none ↦ read_unstaged platform path s
      | some staged ↦ (ok (read_staged platform staged), s)
    ])
read_found platform path none s begun_step = read_unstaged-StaysOpen platform path s begun_step
read_found platform path (some staged) s begun_step = (begun_step, refl)

call-StaysOpen :
    (platform : Platform) (c : Call) (s : Session)
    → ((p : Text) → HoldsText platform p (s.disk.files p))
    → Open platform s
    → Open platform (call platform c s) × ((call platform c s).disk ≡ s.disk)
unfolding call read
call-StaysOpen platform (reading path) s text begun_step =
    let p = normalize_relative_path path in
    read_found platform p (staged_in s.current_step p) s begun_step
call-StaysOpen platform (staging change) s text begun_step =
    stage_change-StaysOpen platform change s text begun_step

still_text :
    (platform : Platform) (d d' : Disk)
    → d' ≡ d
    → ((p : Text) → HoldsText platform p (d.files p))
    → (p : Text) → HoldsText platform p (d'.files p)
still_text platform d d' same text p =
    subst (λ d. HoldsText platform p (d.files p)) (sym same) (text p)

calls-StaysOpen :
    (platform : Platform) (cs : List Call) (s : Session)
    → ((p : Text) → HoldsText platform p (s.disk.files p))
    → Open platform s
    → Open platform (calls platform cs s) × ((calls platform cs s).disk ≡ s.disk)
unfolding calls
calls-StaysOpen platform [] s text begun_step = (begun_step, refl)
calls-StaysOpen platform (c ∷ cs) s text begun_step =
    let h = call-StaysOpen platform c s text begun_step in
    let k =
      calls-StaysOpen platform cs (call platform c s) (still_text platform s.disk _ h.1 text) h.0 in
    (k.0, k.1 ∙ h.1)

begun :
    (platform : Platform) (step_id : Text) (i : ℕ) (s : Session)
    → s.current_step ≡ none
    → begin_step step_id i s ≡ (ok tt, with_step (some (new_step step_id i)) s)
unfolding begin_step
begun platform step_id i s idle = rw idle refl

begin-Open :
    (platform : Platform) (step_id : Text) (i : ℕ) (s : Session)
    → s.current_step ≡ none
    → Open platform (begin_step step_id i s).1 × ((begin_step step_id i s).1.disk ≡ s.disk)
begin-Open platform step_id i s idle =
    subst (λ r. Open platform r.1 × (r.1.disk ≡ s.disk)) (sym (begun platform step_id i s idle))
      ((new_step step_id i, (refl, (refl, tt))), refl)

-- Where every file that can be read is text, when a session without an active step begins one, then
-- reads files and stages changes in any order, each with any outcome, no file has changed; and when
-- it then applies the step and at most one write throws, either every staged change is written, in
-- the order of the paths, and the step is marked as applied, or an error is thrown, every file is as
-- it was when the step began and the step is still open.
pub step-AllOrNothing :
    (platform : Platform) (step_id : Text) (i : ℕ) (cs : List Call) (s : Session)
    → s.current_step ≡ none
    → at_most_one_fault s.disk.faults ≡ true
    → ((p : Text) → HoldsText platform p (s.disk.files p))
    → let s' = calls platform cs (begin_step step_id i s).1 in
      (s'.disk ≡ s.disk)
      × ((step : ActiveStep) × Applied platform step s' (apply_step_changes platform s'))
step-AllOrNothing platform step_id i cs s idle faults text =
    let h = begin-Open platform step_id i s idle in
    let s' = calls platform cs (begin_step step_id i s).1 in
    let k =
      calls-StaysOpen platform cs (begin_step step_id i s).1 (still_text platform s.disk _ h.1 text)
        h.0 in
    let kept : s'.disk ≡ s.disk = k.1 ∙ h.1 in
    (
      kept,
      (
        k.0.0,
        apply_step_changes-Applied platform k.0.0 s' k.0.1
            (subst (λ d. at_most_one_fault d.faults ≡ true) (sym kept) faults),
      ),
    )
