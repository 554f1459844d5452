-- ===== src/JobWorker/Model.antt =====
-- The worker on governance jobs (governance/governance-worker.ts), with the rows of assessments and
-- attempts that it writes (governance/governance-store.ts). Times are seconds, and the
-- clock of the worker is that of the database.
use deeprun.Prelude.{
  ℕ, ◌+◌, ◌*◌, Bool, true, false, ◌&&◌, ◌==◌, ltb, List, map, Option, none, some, Text, codes,
  if◌then◌else◌,
}
use deeprun.Jobs.Model.{Job, Store, claim_next_governance_job, transition_job_to_running, fail_job}

-- AssessmentStatus.
pub data AssessmentStatus : Type 0 where
  queued running deciding complete error cancelled : AssessmentStatus

-- AssessmentAttemptStatus.
pub data AttemptStatus : Type 0 where
  queued running complete error cancelled : AttemptStatus

pub record Assessment : Type 0 where
  pub assessment_id : ℕ
  pub status : AssessmentStatus
  pub error_code : Option Text
  pub error_message : Option Text
  pub updated_at : ℕ

pub record Attempt : Type 0 where
  pub attempt_id : ℕ
  pub status : AttemptStatus
  pub worker_id : Option ℕ
  pub started_at : Option ℕ
  pub completed_at : Option ℕ
  pub error_code : Option Text
  pub error_message : Option Text
  pub updated_at : ℕ

-- The three tables.
pub record Board : Type 0 where
  pub jobs : Store
  pub assessments : List Assessment
  pub attempts : List Attempt

-- COALESCE(given, kept).
abbrev pub coalesce {ℓ} : {A : Type ℓ} → Option A → Option A → Option A
coalesce none kept = kept
coalesce (some a) kept = some a

abbrev pub assessed : ℕ → AssessmentStatus → ℕ → Assessment → Assessment
assessed id status now a =
    if a.assessment_id == id then record a { status = status; updated_at = now } else a

-- updateAssessmentStatus without a patch, as the worker calls it.
unfoldable pub update_assessment_status : ℕ → AssessmentStatus → Board → Board
update_assessment_status id status b = record b {
  assessments = map (assessed id status b.jobs.now) b.assessments;
}

abbrev pub started : AttemptStatus → ℕ → Option ℕ
started running now = some now
started _ now = none

abbrev pub completed : AttemptStatus → ℕ → Option ℕ
completed complete now = some now
completed error now = some now
completed cancelled now = some now
completed _ now = none

abbrev pub attempted : ℕ → AttemptStatus → Option Text → Option Text → ℕ → Attempt → Attempt
attempted id status code message now a =
    if a.attempt_id == id
    then record a {
      status = status;
      started_at = coalesce (started status now) a.started_at;
      completed_at = coalesce (completed status now) a.completed_at;
      error_code = coalesce code a.error_code;
      error_message = coalesce message a.error_message;
      updated_at = now;
    }
    else a

-- updateAttemptStatus with a patch of the error only, as the worker calls it.
unfoldable pub update_attempt_status : ℕ → AttemptStatus → Option Text → Option Text → Board → Board
update_attempt_status id status code message b = record b {
  attempts = map (attempted id status code message b.jobs.now) b.attempts;
}

-- EvaluationOutcome, or an error that the evaluator throws.
pub data Evaluation : Type 0 where
  completed_evaluation cancelled_evaluation : Evaluation
  authority_error : Text → Text → Evaluation
  infrastructure_error : Text → Text → Bool → Evaluation
  threw : Text → Evaluation

-- The evaluator, with all that happens while it runs: time passes, and the heartbeats of this
-- worker and the calls of others change the tables.
abbrev pub Evaluator : Type 0
Evaluator = Job → Board → Evaluation × Board

abbrev pub max_claim_count : ℕ
max_claim_count = 3

abbrev pub fail_of : ℕ → Job → Text → Text → Option ℕ → Board → Board
fail_of worker_id job code message at b = record b {
  jobs = (fail_job job.job_id worker_id code message at (some job.lease_generation) b.jobs).1;
}

-- failJob, updateAttemptStatus and updateAssessmentStatus, as they follow each other; the answer of
-- failJob is not read.
unfoldable pub end_in_error : ℕ → Job → Text → Text → Board → Board
end_in_error worker_id job code message b = update_assessment_status job.assessment_id error (
    update_attempt_status job.attempt_id error (some code) (some message)
      (fail_of worker_id job code message none b))

unfoldable pub reschedule : ℕ → Job → Text → Text → Board → Board
reschedule worker_id job code message b =
    update_attempt_status job.attempt_id error (some code) (some message)
      (fail_of worker_id job code message (some (b.jobs.now + 5 * job.claim_count)) b)

unfoldable pub after_evaluation : ℕ → Job → Evaluation × Board → Board
after_evaluation worker_id job (completed_evaluation, b) = b
after_evaluation worker_id job (cancelled_evaluation, b) = b
after_evaluation worker_id job (authority_error code message, b) = b
after_evaluation worker_id job (infrastructure_error code message retryable, b) =
    if retryable && ltb job.claim_count max_claim_count
    then reschedule worker_id job code message b
    else end_in_error worker_id job code message b
after_evaluation worker_id job (threw message, b) =
    end_in_error worker_id job (codes "WORKER_ERROR") message b

-- The rest of processJob, on the answer of transitionJobToRunning; `aborted` is the signal.
unfoldable pub run_claimed : Evaluator → ℕ → Bool → Job → Option Job × Store → Board → Board
run_claimed evaluate worker_id aborted job (none, s) b = record b { jobs = s }
run_claimed evaluate worker_id aborted job (some j, s) b =
    let b' = update_assessment_status job.assessment_id running (record b { jobs = s }) in
    if aborted then b' else after_evaluation worker_id job (evaluate job b')

-- processJob. The text of the error names the job, and the calls of the store do not fail.
unfoldable pub process_job : Evaluator → ℕ → Bool → Text → Job → Board → Board
process_job evaluate worker_id aborted claims_message job b =
    if ltb max_claim_count job.claim_count
    then end_in_error worker_id job (codes "MAX_CLAIMS_EXCEEDED") claims_message b
    else run_claimed evaluate worker_id aborted job
        (transition_job_to_running job.job_id worker_id (some job.lease_generation) b.jobs) b

abbrev pub process_claimed : Evaluator → ℕ → Bool → Text → Option Job × Store → Board → Bool × Board
process_claimed evaluate worker_id aborted message (none, s) b = (false, record b { jobs = s })
process_claimed evaluate worker_id aborted message (some j, s) b =
    (true, process_job evaluate worker_id aborted message j (record b { jobs = s }))

unfoldable pub run_once : Evaluator → ℕ → ℕ → Bool → Text → Board → Bool × Board
run_once evaluate worker_id lease aborted message b =
    process_claimed evaluate worker_id aborted message
      (claim_next_governance_job worker_id (some lease) b.jobs) b
