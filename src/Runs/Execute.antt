-- ===== src/Runs/Execute.antt =====
-- executeNextStep against its reference: what a call answers and stores, and when it throws.
use deeprun.Prelude.{◌≡◌, refl, sym, true, some, inl, inr, ◌⊎◌, ==_refl}
use mathlib.Core.Path.{subst}
use deeprun.Runs.Db.{Error, Run, Db, ok, err}
use deeprun.Runs.Store.{lock_lifecycle_run_for_update}
use deeprun.Runs.Step.{
  ExecuteStepInput, step_started, step_found, execute_body, execute_next_step, start_queued,
}
use deeprun.Runs.Effects.{Writes}
use deeprun.Runs.Stages.{start_queued_lem}
use deeprun.Runs.Answer.{answer, Blocked}
use deeprun.Runs.Answered.{Answers, Answers-bind, started_Answers_at}

-- The run is stored under its id, is a lifecycle run and belongs to the caller's project.
pub record IsOwned (input : ExecuteStepInput) (r : Run) (db : Db) : Type 0 where
  pub stored : db.runs input.run_id ≡ some r
  pub keyed : r.id ≡ input.run_id
  pub lifecycle : r.state_machine ≡ true
  pub owned : r.project_id ≡ input.project_id

found_Answers :
    (input : ExecuteStepInput) (r : Run) (db : Db)
    → db.runs r.id ≡ some r
    → Answers
        (step_found input (some r))
        (answer input db.now db.steps r)
        r.id
        db
        (Blocked input r db.steps)
found_Answers input r db h =
    Answers-bind (start_queued r) (λ run. step_started input run) (answer input db.now db.steps r)
      db (start_queued_lem r db h)
      λ db' h' e n. rw (← e) (started_Answers_at input r db.now db' n h')

pub locked :
    (input : ExecuteStepInput) (r : Run) (db : Db)
    → IsOwned input r db
    → execute_body input db ≡ step_found input (some r) db
unfolding execute_body lock_lifecycle_run_for_update
locked input r db o = rw o.stored (rw o.lifecycle (rw o.owned (rw (==_refl input.project_id))))

-- A call on a stored run of the caller's project either answers what the reference answers,
-- stores the reference's run and steps and leaves the other runs as they were; or it throws, the
-- database is what it was, and the step's id or slot was taken or the run was correcting.
pub execute_next_step-answer :
    (input : ExecuteStepInput) (r : Run) (db : Db)
    → IsOwned input r db
    → let (result, db') = execute_next_step input db in
      let a = answer input db.now db.steps r in
      ((result ≡ ok a.output) × Writes input.run_id a.run a.steps db db')
      ⊎ ((e : Error) × (result ≡ err e) × (db' ≡ db) × Blocked input r db.steps)
unfolding execute_next_step
execute_next_step-answer input r db o =
    elim (subst
      (λ k.
        Answers (step_found input (some r)) (answer input db.now db.steps r) k db
          (Blocked input r db.steps))
      o.keyed (found_Answers input r db (subst (λ k. db.runs k ≡ some r) (sym o.keyed) o.stored))) [
        | inl (db', e, w) ↦ rw (locked input r db o) (rw e (inl (refl, w)))
        | inr (x, e, why) ↦ rw (locked input r db o) (rw e (inr (x, refl, refl, why)))
      ]
