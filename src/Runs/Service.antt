-- ===== src/Runs/Service.antt =====
-- packages/deeprun-backend/src/agent/run-service.ts, all but executeNextStep: limits, transitions,
-- counters and resumption. The log lines (logInfo, logError) are output only and left out.
use deeprun.Prelude.{
  ℕ, ◌+◌, Bool, ◌&&◌, ◌||◌, List, Option, none, some, ◌==◌, if◌then◌else◌, leb, or_else, min, max,
  Text, Number, not_finite, nonneg, neg,
}
use deeprun.Lifecycle.{
  Status, correcting, optimizing, validating, cancelled, goal, optimization, is_goal,
  is_optimization, same_status,
}
use deeprun.Lifecycle.Graph.{run_edge}
use deeprun.Runs.Db.{
  Message, text, step_index_limit, corrections_limit, optimization_limit, run_not_found,
  not_resumable, invalid_transition, Run, Step, Db, Result, M, pure, throw, ◌>>=◌, ◌>>◌,
  with_transaction,
}
use deeprun.Runs.Store.{
  RunPatch, no_patch, CreateRunInput, get_lifecycle_run, get_lifecycle_run_by_id,
  lock_lifecycle_run_for_update, update_lifecycle_run, create_lifecycle_run,
  list_lifecycle_steps_by_run,
}

-- `min` and `max` here are the arguments of the source; the callers' minimum is 0 or 1, so a
-- negative floor becomes the minimum.
unfoldable pub normalize_limit : Number → ℕ → ℕ → ℕ → ℕ
normalize_limit not_finite fallback lo hi = fallback
normalize_limit (nonneg n) fallback lo hi = min hi (max lo n)
normalize_limit (neg n) fallback lo hi = min hi lo

-- `configured` is Number(process.env.AGENT_FAKE_GOAL_STEPS || 5).
unfoldable pub normalize_goal_steps_target : Number → ℕ → ℕ
normalize_goal_steps_target not_finite max_steps = min max_steps 5
normalize_goal_steps_target (nonneg n) max_steps = min max_steps (max 1 n)
normalize_goal_steps_target (neg n) max_steps = min max_steps 1

unfoldable pub assert_transition : Status → Status → M (Unit {0})
assert_transition current next =
    if run_edge current next then pure tt else throw (invalid_transition current next)

-- What `validateRunInvariants` returns; `complete` and `failed` carry the reason. The phase has
-- two values (a CHECK of the table), so its last test never fires.
pub data InvariantResult : Type 0 where
  invariants_ok : InvariantResult
  next_failed next_complete : Message → InvariantResult

unfoldable pub validate_run_invariants : Run → InvariantResult
validate_run_invariants run =
    if leb run.max_steps run.step_index
    then next_failed (step_index_limit run.step_index run.max_steps)
    else if leb run.max_corrections run.corrections_used
    then next_failed (corrections_limit run.corrections_used run.max_corrections)
    else if is_optimization run.phase && leb run.max_optimizations run.optimization_steps_used
    then next_complete (optimization_limit run.optimization_steps_used run.max_optimizations)
    else invariants_ok

-- `run` if it is there and belongs to the project.
abbrev pub owned_by : ℕ → Option Run → Option Run
owned_by project_id none = none
owned_by project_id (some run) = if run.project_id == project_id then some run else none

abbrev pub transition_found : Status → Option (Option Message) → Option Run → M Run
transition_found next message none = throw run_not_found
transition_found next message (some run) = do
  assert_transition run.status next
  updated ← update_lifecycle_run run.id (record no_patch {
    status = some next;
    error_message = some (or_else message run.error_message);
  })
  pure (or_else updated run)

unfoldable pub transition_body : ℕ → ℕ → Status → Option (Option Message) → M Run
transition_body project_id run_id next message = do
  run ← lock_lifecycle_run_for_update run_id
  transition_found next message (owned_by project_id run)

-- `message` is `fields.errorMessage`, `none` if it is undefined.
unfoldable pub transition_run_status :
    ℕ → ℕ → Status → Option (Option Message) → Db → Result Run × Db
unfolding transition_body
transition_run_status project_id run_id next message =
    with_transaction (transition_body project_id run_id next message)

pub record CreateStateRunInput : Type 0 where
  pub project_id : ℕ
  pub graph_id : ℕ
  pub goal : Text
  pub max_steps : Number
  pub max_corrections : Number
  pub max_optimizations : Number

unfoldable pub create_input : CreateStateRunInput → CreateRunInput
create_input input = record {
  project_id = input.project_id;
  graph_id = input.graph_id;
  goal = input.goal;
  phase = goal;
  status = Status.queued;
  step_index = 0;
  corrections_used = 0;
  optimization_steps_used = 0;
  max_steps = normalize_limit input.max_steps 20 1 1000;
  max_corrections = normalize_limit input.max_corrections 2 0 100;
  max_optimizations = normalize_limit input.max_optimizations 2 0 100;
  error_message = none;
}

unfoldable pub create_run : ℕ → CreateStateRunInput → M Run
create_run fresh input = create_lifecycle_run fresh (create_input input)

unfoldable pub mark_run_running : ℕ → ℕ → Db → Result Run × Db
mark_run_running project_id run_id = transition_run_status project_id run_id Status.running none

unfoldable pub mark_run_correcting : ℕ → ℕ → Db → Result Run × Db
mark_run_correcting project_id run_id = transition_run_status project_id run_id correcting none

unfoldable pub mark_run_optimizing : ℕ → ℕ → Db → Result Run × Db
mark_run_optimizing project_id run_id = transition_run_status project_id run_id optimizing none

unfoldable pub mark_run_validating : ℕ → ℕ → Db → Result Run × Db
mark_run_validating project_id run_id = transition_run_status project_id run_id validating none

unfoldable pub mark_run_cancelled : ℕ → ℕ → Db → Result Run × Db
mark_run_cancelled project_id run_id = transition_run_status project_id run_id cancelled none

unfoldable pub mark_run_failed : ℕ → ℕ → Text → Db → Result Run × Db
mark_run_failed project_id run_id reason =
    transition_run_status project_id run_id Status.failed (some (some (text reason)))

unfoldable pub mark_run_complete : ℕ → ℕ → Db → Result Run × Db
mark_run_complete project_id run_id =
    transition_run_status project_id run_id Status.complete (some none)

-- A counter's method reads the run and writes the patch that `bump` makes of it.
abbrev update_found : (Run → RunPatch) → Option Run → M Run
update_found bump none = throw run_not_found
update_found bump (some run) = do
  updated ← update_lifecycle_run run.id (bump run)
  pure (or_else updated run)

read_and_update : (Run → RunPatch) → ℕ → M Run
read_and_update bump run_id = do run ← get_lifecycle_run run_id; update_found bump run

unfoldable pub increment_step_index : ℕ → M Run
unfolding read_and_update
increment_step_index =
    read_and_update (λ run. record no_patch { step_index = some (run.step_index + 1) })

unfoldable pub enter_optimization_phase : ℕ → M Run
unfolding read_and_update
enter_optimization_phase = read_and_update (λ run. record no_patch { phase = some optimization })

unfoldable pub increment_correction_count : ℕ → M Run
unfolding read_and_update
increment_correction_count =
    read_and_update (λ run. record no_patch { corrections_used = some (run.corrections_used + 1) })

unfoldable pub increment_optimization_count : ℕ → M Run
unfolding read_and_update
increment_optimization_count =
    read_and_update
      (λ run. record no_patch { optimization_steps_used = some (run.optimization_steps_used + 1) })

-- Past its test, resumption makes the same three calls as a transition to `queued` that clears the
-- message.
abbrev pub resume_found : Option Run → M Run
resume_found none = throw run_not_found
resume_found (some run) =
    if same_status run.status cancelled || same_status run.status Status.failed
    then transition_found Status.queued (some none) (some run)
    else throw not_resumable

unfoldable pub resume_body : ℕ → ℕ → M Run
resume_body project_id run_id = do
  run ← lock_lifecycle_run_for_update run_id
  resume_found (owned_by project_id run)

unfoldable pub resume_run : ℕ → ℕ → Db → Result Run × Db
unfolding resume_body
resume_run project_id run_id = with_transaction (resume_body project_id run_id)

unfoldable pub goal_conditions_satisfied : Number → Run → Bool
unfolding normalize_goal_steps_target
goal_conditions_satisfied configured run =
    is_goal run.phase && leb (normalize_goal_steps_target configured run.max_steps) run.step_index

abbrev with_steps : Option Run → M (Option (Run × List Step))
with_steps none = pure none
with_steps (some run) = do steps ← list_lifecycle_steps_by_run run.id; pure (some (run, steps))

unfoldable pub get_run_with_steps : ℕ → ℕ → M (Option (Run × List Step))
get_run_with_steps project_id run_id = do
  run ← get_lifecycle_run_by_id project_id run_id
  with_steps run
