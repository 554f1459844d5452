-- ===== src/Runs/Answer.antt =====
-- The reference for executeNextStep: the output, the run and the steps that one call leaves, as a
-- function of the stored run; and why a call may throw.
use deeprun.Prelude.{
  ℕ, ◌≡◌, Bool, true, false, not, List, [], ◌∷◌, ◌++◌, Option, none, some, any, if◌then◌else◌, ◌==◌,
}
use deeprun.Lifecycle.{Status, correcting, cancelled, is_active, same_status}
use deeprun.Runs.Db.{Message, run_is_cancelled, not_runnable, stale_payload, Run, Step}
use deeprun.Runs.Store.{has_id, same_slot}
use deeprun.Runs.Service.{
  InvariantResult, invariants_ok, next_failed, next_complete, validate_run_invariants,
}
use deeprun.Runs.Step.{ExecuteStepInput, Output, skip, is_runnable}
use deeprun.Runs.Stages.{started, finished}
use deeprun.Runs.Recorded.{recorded}
use deeprun.Runs.Processed.{after_step, processed_output}

-- What a call leaves: its output, the run, the steps.
pub record Answer : Type 0 where
  pub output : Output
  pub run : Run
  pub steps : List Step

abbrev pub finish_answer : Run → List Step → Message → Answer
finish_answer r steps reason = record { output = skip r false reason; run = r; steps = steps }

abbrev pub limit_answer : ExecuteStepInput → ℕ → List Step → Run → InvariantResult → Answer
limit_answer input now steps r invariants_ok =
    let r' = after_step input.configured now r in
    let s = recorded input.fresh now r in
    record { output = processed_output r' s; run = r'; steps = steps ++ s ∷ [] }
limit_answer input now steps r (next_complete reason) =
    finish_answer (finished Status.complete none now r) steps reason
limit_answer input now steps r (next_failed reason) =
    finish_answer (finished Status.failed (some reason) now r) steps reason

abbrev pub kept : Run → List Step → Bool → Message → Answer
kept r steps reenqueue reason = record { output = skip r reenqueue reason; run = r; steps = steps }

abbrev pub expected_answer : ExecuteStepInput → ℕ → List Step → Run → Option ℕ → Answer
expected_answer input now steps r none = limit_answer input now steps r (validate_run_invariants r)
expected_answer input now steps r (some expected) =
    if r.step_index == expected
    then limit_answer input now steps r (validate_run_invariants r)
    else kept r steps (is_active r.status) (stale_payload expected r.step_index)

unfoldable pub answer_started : ExecuteStepInput → ℕ → List Step → Run → Answer
answer_started input now steps r =
    if same_status r.status cancelled
    then kept r steps false run_is_cancelled
    else if not (is_runnable r.status)
    then kept r steps false (not_runnable r.status)
    else expected_answer input now steps r input.expected_step_index

unfoldable pub answer : ExecuteStepInput → ℕ → List Step → Run → Answer
answer input now steps r = answer_started input now steps (started now r)

-- Why a call may throw: the step's id or slot is taken, or the run is correcting.
pub data Blocked (input : ExecuteStepInput) (r : Run) (steps : List Step) : Type 0 where
  id_taken : any (has_id input.fresh) steps ≡ true → Blocked input r steps
  slot_taken : any (same_slot r.id r.step_index) steps ≡ true → Blocked input r steps
  is_correcting : same_status r.status correcting ≡ true → Blocked input r steps
