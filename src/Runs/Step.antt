-- ===== src/Runs/Step.antt =====
-- executeNextStep of packages/deeprun-backend/src/agent/run-service.ts, one function for each of
-- its stages, and the worker that calls it again as long as it asks to be enqueued.
use deeprun.Prelude.{
  ℕ, ◌+◌, Bool, true, false, not, ◌&&◌, ◌||◌, Option, none, some, ◌==◌, if◌then◌else◌, leb, or_else,
  Number,
}
use deeprun.Lifecycle.{
  Status, correcting, optimizing, cancelled, optimization, is_goal, is_optimization, same_status,
  is_active, StepType, goal_step, optimization_step, StepStatus,
}
use deeprun.Runs.Db.{
  Message, run_missing, run_is_cancelled, not_runnable, stale_payload, Run, fake_step,
  fake_step_complete, Step, Db, Result, ok, M, pure, ◌>>=◌, ◌>>◌, with_transaction,
}
use deeprun.Runs.Store.{
  no_patch, CreateStepInput, lock_lifecycle_run_for_update, update_lifecycle_run,
  create_lifecycle_step, update_lifecycle_step,
}
use deeprun.Runs.Service.{
  InvariantResult, invariants_ok, next_failed, next_complete, assert_transition,
  validate_run_invariants, owned_by, goal_conditions_satisfied,
}

-- `fresh` is what randomUUID() gives for the step, `configured` the goal steps of the environment.
pub record ExecuteStepInput : Type 0 where
  pub project_id : ℕ
  pub run_id : ℕ
  pub expected_step_index : Option ℕ
  pub fresh : ℕ
  pub configured : Number

pub data Outcome : Type 0 where
  processed skipped missing : Outcome

pub record Output : Type 0 where
  pub outcome : Outcome
  pub run : Option Run
  pub step : Option Step
  pub should_reenqueue : Bool
  pub reason : Option Message

abbrev pub skip : Run → Bool → Message → Output
skip run reenqueue reason = record {
  outcome = skipped;
  run = some run;
  step = none;
  should_reenqueue = reenqueue;
  reason = some reason;
}

abbrev pub missing_output : Output
missing_output = record {
  outcome = missing;
  run = none;
  step = none;
  should_reenqueue = false;
  reason = some run_missing;
}

-- A queued run is started first.
unfoldable pub start_queued : Run → M Run
start_queued run =
    if same_status run.status Status.queued
    then (do
      assert_transition run.status Status.running
      updated ← update_lifecycle_run run.id (record no_patch { status = some Status.running })
      pure (or_else updated run))
    else pure run

-- A run at one of its limits is finished instead of stepped.
unfoldable pub finish_at_limit : Run → Status → Option Message → Message → M Output
finish_at_limit run next error_message reason = do
  assert_transition run.status next
  updated ←
      update_lifecycle_run run.id
        (record no_patch { status = some next; error_message = some error_message })
  pure (skip (or_else updated run) false reason)

abbrev pub step_type_of : Run → StepType
step_type_of run = if is_optimization run.phase then optimization_step else goal_step

abbrev pub step_input : Run → CreateStepInput
step_input run = record {
  run_id = run.id;
  project_id = run.project_id;
  step_index = run.step_index;
  type = step_type_of run;
  status = StepStatus.running;
  summary = fake_step (step_type_of run) (run.step_index + 1);
}

-- new Date(), on the clock of the database.
abbrev pub current_time : M ℕ
current_time db = ok (db.now, db)

-- The step's record, inserted as running and completed at once.
unfoldable pub record_step : ℕ → Run → M Step
record_step fresh run = do
  step ← create_lifecycle_step fresh (step_input run)
  completed_at ← current_time
  updated ← update_lifecycle_step step.id (record {
    status = some StepStatus.complete;
    summary = some (fake_step_complete (step_type_of run) (run.step_index + 1));
    completed_at = some (some completed_at);
  })
  pure (or_else updated step)

abbrev is_optimization_step : StepType → Bool
is_optimization_step optimization_step = true
is_optimization_step _ = false

-- The counters of the run go up.
unfoldable pub count_step : StepType → Run → M Run
count_step type run = do
  updated ← update_lifecycle_run run.id (record no_patch { step_index = some (run.step_index + 1) })
  let counted = or_else updated run
  if is_optimization_step type
      then (do
        again ← update_lifecycle_run counted.id (record no_patch {
          optimization_steps_used = some (counted.optimization_steps_used + 1);
        })
        pure (or_else again counted))
      else pure counted

-- The goal is reached: on to the optimization phase.
unfoldable pub switch_phase : Number → Run → M Run
switch_phase configured run =
    if is_goal run.phase && goal_conditions_satisfied configured run
    then (do
      updated ←
          update_lifecycle_run run.id
            (record no_patch { phase = some optimization; status = some optimizing })
      pure (or_else updated run))
    else pure run

-- The last optimization step completes the run.
unfoldable pub complete_exhausted : Run → M Run
complete_exhausted run =
    if is_optimization run.phase && leb run.max_optimizations run.optimization_steps_used
    then (do
      assert_transition run.status Status.complete
      updated ←
          update_lifecycle_run run.id
            (record no_patch { status = some Status.complete; error_message = some none })
      pure (or_else updated run))
    else pure run

unfoldable pub process_step : ExecuteStepInput → Run → M Output
process_step input run = do
  step ← record_step input.fresh run
  counted ← count_step (step_type_of run) run
  switched ← switch_phase input.configured counted
  done ← complete_exhausted switched
  pure (record {
    outcome = processed;
    run = some done;
    step = some step;
    should_reenqueue = is_active done.status;
    reason = none;
  })

abbrev pub on_invariants : ExecuteStepInput → Run → InvariantResult → M Output
on_invariants input run invariants_ok = process_step input run
on_invariants input run (next_complete reason) = finish_at_limit run Status.complete none reason
on_invariants input run (next_failed reason) =
    finish_at_limit run Status.failed (some reason) reason

abbrev at_limits : ExecuteStepInput → Run → M Output
at_limits input run = on_invariants input run (validate_run_invariants run)

-- `expectedStepIndex`, where the payload has one, is the index that the run must have.
abbrev pub on_expected : ExecuteStepInput → Run → Option ℕ → M Output
on_expected input run none = at_limits input run
on_expected input run (some expected) =
    if run.step_index == expected
    then at_limits input run
    else pure (skip run (is_active run.status) (stale_payload expected run.step_index))

abbrev pub is_runnable : Status → Bool
is_runnable s = same_status s Status.running || same_status s correcting || same_status s optimizing

-- The guards after the start.
unfoldable pub step_started : ExecuteStepInput → Run → M Output
step_started input run =
    if same_status run.status cancelled
    then pure (skip run false run_is_cancelled)
    else if not (is_runnable run.status)
    then pure (skip run false (not_runnable run.status))
    else on_expected input run input.expected_step_index

abbrev pub step_found : ExecuteStepInput → Option Run → M Output
step_found input none = pure missing_output
step_found input (some run) = do started ← start_queued run; step_started input started

unfoldable pub execute_body : ExecuteStepInput → M Output
execute_body input = do
  run ← lock_lifecycle_run_for_update input.run_id
  step_found input (owned_by input.project_id run)

unfoldable pub execute_next_step : ExecuteStepInput → Db → Result Output × Db
unfolding execute_body
execute_next_step input = with_transaction (execute_body input)
