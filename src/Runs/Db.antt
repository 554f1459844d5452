-- ===== src/Runs/Db.antt =====
-- The rows that the run service reads and writes (agent/run-state-types.ts, the tables agent_runs
-- and agent_steps of lib/project-store.ts), and the monad of a method that may throw.
use deeprun.Prelude.{ℕ, Bool, List, Option, some, ◌==◌, if◌then◌else◌, Text}
use deeprun.Lifecycle.{Status, Phase, StepType, StepStatus}

-- The texts that the service composes, by template and interpolated values.
pub data Message : Type 0 where
  text : Text → Message
  step_index_limit corrections_limit optimization_limit : ℕ → ℕ → Message
  run_missing run_is_cancelled : Message
  not_runnable : Status → Message
  stale_payload : ℕ → ℕ → Message

-- The errors that the methods throw.
pub data Error : Type 0 where
  run_not_found not_resumable unique_violation : Error
  invalid_transition : Status → Status → Error

-- A row of agent_runs. Identifiers and timestamps are only compared, so they are numbers.
-- `state_machine` says that provider_id is 'state-machine'; only `LifecycleRun`s are read.
pub record Run : Type 0 where
  pub id : ℕ
  pub project_id : ℕ
  pub graph_id : ℕ
  pub goal : Text
  pub state_machine : Bool
  pub phase : Phase
  pub status : Status
  pub step_index : ℕ
  pub current_step_index : ℕ
  pub corrections_used : ℕ
  pub optimization_steps_used : ℕ
  pub max_steps : ℕ
  pub max_corrections : ℕ
  pub max_optimizations : ℕ
  pub error_message : Option Message
  pub created_at : ℕ
  pub updated_at : ℕ

-- "Fake goal step 1" and "Fake goal step 1 complete".
pub data Summary : Type 0 where
  fake_step fake_step_complete : StepType → ℕ → Summary

pub record Step : Type 0 where
  pub id : ℕ
  pub run_id : ℕ
  pub project_id : ℕ
  pub step_index : ℕ
  pub type : StepType
  pub status : StepStatus
  pub summary : Summary
  pub created_at : ℕ
  pub completed_at : Option ℕ

-- agent_runs by its primary key, agent_steps in order of insertion, and NOW(), which is constant
-- within a transaction.
pub record Db : Type 0 where
  pub runs : ℕ → Option Run
  pub steps : List Step
  pub now : ℕ

pub data Result (A : Type 0) : Type 0 where
  ok : A → Result A
  err : Error → Result A

-- A method inside a transaction: an error drops the state with the client's writes.
abbrev pub M : Type 0 → Type 0
M A = Db → Result (A × Db)

infixl 5 ◌>>=◌ ◌>>◌
abbrev pub ◌>>=◌ : {A B : Type 0} → M A → (A → M B) → M B
◌>>=◌ m f db = elim (m db) [ ok (a, db') ↦ f a db' | err e ↦ err e ]

abbrev pub ◌>>◌ : {B : Type 0} → M (Unit {0}) → M B → M B
m >> k = m >>= λ _. k

abbrev pub pure : {A : Type 0} → A → M A
pure a db = ok (a, db)

abbrev pub throw : {A : Type 0} → Error → M A
throw e db = err e

abbrev finish : {A : Type 0} → Db → Result (A × Db) → Result A × Db
finish db (ok (a, db')) = (ok a, db')
finish db (err e) = (err e, db)

-- `withTransaction`: COMMIT on a value, ROLLBACK on an error.
abbrev pub with_transaction : {A : Type 0} → M A → Db → Result A × Db
with_transaction m db = finish db (m db)

-- A write at one key.
abbrev pub set_at : {A : Type 0} → ℕ → A → (ℕ → Option A) → ℕ → Option A
set_at k v f j = if j == k then some v else f j
