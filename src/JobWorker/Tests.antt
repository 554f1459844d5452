-- ===== src/JobWorker/Tests.antt =====
-- A worker with one job, in time and too late (governance/governance-worker.ts).
use deeprun.Prelude.{◌≡◌, ◌+◌, refl, ℕ, true, false, [], ◌∷◌, some, none, codes, arith}
use deeprun.Jobs.Model.{
  Job, Store, claimed, new_job, transition_job_to_running, claim_next_governance_job,
  get_governance_job, candidate, running,
}
use deeprun.JobWorker.Model.{
  AssessmentStatus, AttemptStatus, Board, infrastructure_error, threw, Evaluator,
  update_assessment_status, process_job,
}
use deeprun.JobWorker.Settling.{Settled, BothFailed, FailedFor, Row, process_job-Settled}
use deeprun.JobWorker.Losing.{Late, lost_job_untouched, over_claimed_job_ended, process_job-Late}

abbrev job : Job
job = record (new_job 1 10 20 none 5) {
  status = claimed;
  worker_id = some 7;
  lease_generation = 2;
  claim_count = 1;
  lease_expires_at = some 400;
}

abbrev board : Board
board = record {
  jobs = record { jobs = job ∷ []; now = 100 };
  assessments =
      record {
        assessment_id = 10;
        status = AssessmentStatus.queued;
        error_code = none;
        error_message = none;
        updated_at = 5;
      }
      ∷ [];
  attempts =
      record {
        attempt_id = 20;
        status = AttemptStatus.running;
        worker_id = some 7;
        started_at = some 90;
        completed_at = none;
        error_code = none;
        error_message = none;
        updated_at = 90;
      }
      ∷ [];
}

abbrev later : ℕ → Store → Store
later n s = record s { now = s.now + n }

abbrev in_time : Evaluator
in_time j b =
    (infrastructure_error (codes "DB") (codes "gone") true, record b { jobs = later 10 b.jobs })

-- The lease ends, and worker 8 takes the job.
abbrev too_late : Evaluator
too_late j b = (
  threw (codes "boom"),
  record b { jobs = (claim_next_governance_job 8 none (later 1000 b.jobs)).1 },
)

abbrev job_running : Job
job_running = record job { status = running; updated_at = 100 }

abbrev after_time : Board
after_time =
    (in_time job (
      update_assessment_status 10 AssessmentStatus.running
        (record board { jobs = (transition_job_to_running 1 7 (some 2) board.jobs).1 }))).1

abbrev after_theft : Board
after_theft =
    (too_late job (
      update_assessment_status 10 AssessmentStatus.running
        (record board { jobs = (transition_job_to_running 1 7 (some 2) board.jobs).1 }))).1

abbrev stolen : Job
stolen = record job_running {
  status = claimed;
  worker_id = some 8;
  lease_generation = 3;
  claim_count = 2;
  claimed_at = some 1100;
  heartbeat_at = some 1100;
  lease_expires_at = some 1400;
  updated_at = 1100;
}

process_job-Settled_example :
    Settled job job_running
      (infrastructure_error (codes "DB") (codes "gone") true)
      after_time
      (process_job in_time 7 false (codes "max") job board)
unfolding transition_job_to_running get_governance_job update_assessment_status
process_job-Settled_example =
    process_job-Settled in_time 7 (codes "max") job board after_time job_running job_running
      (infrastructure_error (codes "DB") (codes "gone") true) 400 (omega arith) refl refl refl
      (refl, (refl, (refl, (refl, refl)))) (omega arith)

process_job-Late_example :
    Late job stolen
      (threw (codes "boom"))
      after_theft
      (process_job too_late 7 false (codes "max") job board)
unfolding transition_job_to_running claim_next_governance_job candidate get_governance_job
    update_assessment_status
process_job-Late_example =
    process_job-Late too_late 7 (codes "max") job board after_theft job_running stolen
      (threw (codes "boom")) (omega arith) refl refl refl refl

lost_job_untouched_example : process_job in_time 9 false (codes "max") job board ≡ board
unfolding transition_job_to_running
lost_job_untouched_example =
    lost_job_untouched in_time 9 false (codes "max") job board (omega arith) refl

-- The job at its fourth claim.
abbrev worn_job : Job
worn_job = record job { claim_count = 4 }

abbrev worn_board : Board
worn_board = record board { jobs = record { jobs = worn_job ∷ []; now = 100 } }

over_claimed_job_ended_example :
    (process_job in_time 7 false (codes "max") worn_job worn_board
      ≡ process_job too_late 7 false (codes "max") worn_job worn_board)
    × Row 1
        (process_job in_time 7 false (codes "max") worn_job worn_board)
        (FailedFor (codes "MAX_CLAIMS_EXCEEDED") (codes "max") worn_job)
    × BothFailed worn_job (process_job in_time 7 false (codes "max") worn_job worn_board)
unfolding get_governance_job
over_claimed_job_ended_example =
    over_claimed_job_ended in_time too_late 7 false (codes "max") worn_job 400 worn_board worn_job
      (omega arith) refl (refl, (refl, (refl, (refl, refl)))) (omega arith)
