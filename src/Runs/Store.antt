-- ===== src/Runs/Store.antt =====
-- The lifecycle methods of packages/deeprun-backend/src/lib/project-store.ts. Each method is one
-- SQL statement over the tables of `Db`.
use deeprun.Prelude.{
  ℕ, Bool, true, ◌&&◌, ◌||◌, List, [], ◌∷◌, ◌++◌, map, Option, none, some, ◌==◌, if◌then◌else◌,
  or_else, is_some, any, filter, Text,
}
use deeprun.Lifecycle.{Status, Phase, StepType, StepStatus}
use deeprun.Runs.Db.{Message, unique_violation, Run, Summary, Step, Db, M, ok, err, set_at}

-- A patch: `none` is an absent key.
pub record RunPatch : Type 0 where
  pub phase : Option Phase
  pub status : Option Status
  pub step_index : Option ℕ
  pub corrections_used : Option ℕ
  pub optimization_steps_used : Option ℕ
  pub max_steps : Option ℕ
  pub max_corrections : Option ℕ
  pub max_optimizations : Option ℕ
  pub error_message : Option (Option Message)

abbrev pub no_patch : RunPatch
no_patch = record {
  phase = none;
  status = none;
  step_index = none;
  corrections_used = none;
  optimization_steps_used = none;
  max_steps = none;
  max_corrections = none;
  max_optimizations = none;
  error_message = none;
}

abbrev only_state_machine : Option Run → Option Run
only_state_machine none = none
only_state_machine (some r) = if r.state_machine then some r else none

-- SELECT ... WHERE id = $1 AND provider_id = 'state-machine'
unfoldable pub get_lifecycle_run : ℕ → M (Option Run)
get_lifecycle_run run_id db = ok (only_state_machine (db.runs run_id), db)

-- The same with FOR UPDATE: the row stays locked up to the end of the transaction, so the
-- transaction is one step of the model.
unfoldable pub lock_lifecycle_run_for_update : ℕ → M (Option Run)
lock_lifecycle_run_for_update run_id db = ok (only_state_machine (db.runs run_id), db)

abbrev in_project : ℕ → Option Run → Option Run
in_project project_id none = none
in_project project_id (some r) = if r.project_id == project_id then some r else none

unfoldable pub get_lifecycle_run_by_id : ℕ → ℕ → M (Option Run)
get_lifecycle_run_by_id project_id run_id db =
    ok (in_project project_id (only_state_machine (db.runs run_id)), db)

-- SET column = value for the keys given. The right sides of an UPDATE read the old row, so
-- `current_step_index = step_index` copies the index from before the update.
abbrev pub patched : RunPatch → ℕ → Run → Run
patched p now r = record r {
  phase = or_else p.phase r.phase;
  status = or_else p.status r.status;
  step_index = or_else p.step_index r.step_index;
  current_step_index = r.step_index;
  corrections_used = or_else p.corrections_used r.corrections_used;
  optimization_steps_used = or_else p.optimization_steps_used r.optimization_steps_used;
  max_steps = or_else p.max_steps r.max_steps;
  max_corrections = or_else p.max_corrections r.max_corrections;
  max_optimizations = or_else p.max_optimizations r.max_optimizations;
  error_message = or_else p.error_message r.error_message;
  updated_at = now;
}

abbrev pub has_assignments : RunPatch → Bool
has_assignments p =
    is_some p.phase
    || is_some p.status
    || is_some p.step_index
    || is_some p.corrections_used
    || is_some p.optimization_steps_used
    || is_some p.max_steps
    || is_some p.max_corrections
    || is_some p.max_optimizations
    || is_some p.error_message

abbrev update_row : ℕ → RunPatch → Db → Option Run → Option Run × Db
update_row run_id p db none = (none, db)
update_row run_id p db (some r) =
    let r' = patched p db.now r in (some r', record db { runs = set_at run_id r' db.runs })

-- UPDATE agent_runs SET ... WHERE id = $n RETURNING ...; with nothing to set it only reads.
unfoldable pub update_lifecycle_run : ℕ → RunPatch → M (Option Run)
update_lifecycle_run run_id p db =
    if has_assignments p
    then ok (update_row run_id p db (db.runs run_id))
    else get_lifecycle_run run_id db

pub record CreateRunInput : Type 0 where
  pub project_id : ℕ
  pub graph_id : ℕ
  pub goal : Text
  pub phase : Phase
  pub status : Status
  pub step_index : ℕ
  pub corrections_used : ℕ
  pub optimization_steps_used : ℕ
  pub max_steps : ℕ
  pub max_corrections : ℕ
  pub max_optimizations : ℕ
  pub error_message : Option Message

abbrev pub created_run : ℕ → CreateRunInput → ℕ → Run
created_run run_id input now = record {
  id = run_id;
  project_id = input.project_id;
  graph_id = input.graph_id;
  goal = input.goal;
  state_machine = true;
  phase = input.phase;
  status = input.status;
  step_index = input.step_index;
  current_step_index = input.step_index;
  corrections_used = input.corrections_used;
  optimization_steps_used = input.optimization_steps_used;
  max_steps = input.max_steps;
  max_corrections = input.max_corrections;
  max_optimizations = input.max_optimizations;
  error_message = input.error_message;
  created_at = now;
  updated_at = now;
}

-- INSERT INTO agent_runs; `run_id` is what randomUUID() gives, and the key is primary.
unfoldable pub create_lifecycle_run : ℕ → CreateRunInput → M Run
create_lifecycle_run run_id input db =
    if is_some (db.runs run_id)
    then err unique_violation
    else let r = created_run run_id input db.now in
      ok (r, record db { runs = set_at run_id r db.runs })

pub record CreateStepInput : Type 0 where
  pub run_id : ℕ
  pub project_id : ℕ
  pub step_index : ℕ
  pub type : StepType
  pub status : StepStatus
  pub summary : Summary

abbrev pub same_slot : ℕ → ℕ → Step → Bool
same_slot run_id index s = s.run_id == run_id && s.step_index == index

abbrev pub created_step : ℕ → CreateStepInput → ℕ → Step
created_step step_id input now = record {
  id = step_id;
  run_id = input.run_id;
  project_id = input.project_id;
  step_index = input.step_index;
  type = input.type;
  status = input.status;
  summary = input.summary;
  created_at = now;
  completed_at = none;
}

abbrev pub has_id : ℕ → Step → Bool
has_id step_id s = s.id == step_id

-- INSERT INTO agent_steps, under the primary key and the unique index on (run_id, step_index,
-- attempt); the attempt is 1 here.
unfoldable pub create_lifecycle_step : ℕ → CreateStepInput → M Step
create_lifecycle_step step_id input db =
    if any (has_id step_id) db.steps || any (same_slot input.run_id input.step_index) db.steps
    then err unique_violation
    else let s = created_step step_id input db.now in
      ok (s, record db { steps = db.steps ++ s ∷ [] })

pub record StepPatch : Type 0 where
  pub status : Option StepStatus
  pub summary : Option Summary
  pub completed_at : Option (Option ℕ)

abbrev pub patched_step : StepPatch → Step → Step
patched_step p s = record s {
  status = or_else p.status s.status;
  summary = or_else p.summary s.summary;
  completed_at = or_else p.completed_at s.completed_at;
}

abbrev pub patch_step_at : ℕ → StepPatch → Step → Step
patch_step_at step_id p s = if s.id == step_id then patched_step p s else s

abbrev pub first_step : ℕ → List Step → Option Step
first_step step_id [] = none
first_step step_id (s ∷ ss) = if s.id == step_id then some s else first_step step_id ss

-- UPDATE agent_steps SET ... WHERE id = $n RETURNING ..., for a patch that sets something.
unfoldable pub update_lifecycle_step : ℕ → StepPatch → M (Option Step)
update_lifecycle_step step_id p db =
    let steps = map (patch_step_at step_id p) db.steps in
    ok (first_step step_id steps, record db { steps = steps })

-- SELECT ... WHERE run_id = $1; a run's steps are inserted in the order of their indices.
unfoldable pub list_lifecycle_steps_by_run : ℕ → M (List Step)
list_lifecycle_steps_by_run run_id db = ok (filter (λ s. s.run_id == run_id) db.steps, db)
