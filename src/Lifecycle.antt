-- ===== src/Lifecycle.antt =====
-- packages/deeprun-backend/src/agent/run-status.ts, run-state-types.ts and the job statuses of
-- agent/types.ts: the statuses of runs and of jobs, with the equality that `===` and `includes`
-- use.
pub mod Graph
use deeprun.Prelude.{
  ℕ, ◌≡◌, refl, ◌↔◌, Bool, true, false, ◌||◌, List, [], ◌∷◌, arith, ◌==◌, ==_iff, any,
}

pub data Status : Type 0 where
  queued running correcting optimizing validating complete failed cancelled : Status

pub data Phase : Type 0 where
  goal optimization : Phase

pub data StepType : Type 0 where
  goal_step correction_step optimization_step : StepType

pub data StepStatus : Type 0 where
  pending running complete failed : StepStatus

pub data JobStatus : Type 0 where
  queued claimed running complete failed : JobStatus

-- A number for each constructor, to compare by.
abbrev pub status_code : Status → ℕ
status_code Status.queued = 0
status_code Status.running = 1
status_code correcting = 2
status_code optimizing = 3
status_code validating = 4
status_code Status.complete = 5
status_code Status.failed = 6
status_code cancelled = 7

abbrev pub job_status_code : JobStatus → ℕ
job_status_code JobStatus.queued = 0
job_status_code claimed = 1
job_status_code JobStatus.running = 2
job_status_code JobStatus.complete = 3
job_status_code JobStatus.failed = 4

abbrev pub same_status : Status → Status → Bool
same_status a b = status_code a == status_code b

abbrev pub same_job_status : JobStatus → JobStatus → Bool
same_job_status a b = job_status_code a == job_status_code b

abbrev pub is_goal : Phase → Bool
is_goal goal = true
is_goal optimization = false

abbrev pub is_optimization : Phase → Bool
is_optimization goal = false
is_optimization optimization = true

abbrev pub active_statuses : List Status
active_statuses = Status.queued ∷ Status.running ∷ correcting ∷ optimizing ∷ validating ∷ []

abbrev pub is_active : Status → Bool
is_active s = any (same_status s) active_statuses

abbrev pub is_executing : Status → Bool
is_executing s =
    same_status s Status.running
    || same_status s correcting
    || same_status s optimizing
    || same_status s validating

pub same_status→eq : (a b : Status) → same_status a b ≡ true → a ≡ b
same_status→eq a b h = ground arith
