-- ===== src/JobWorker/Settling.antt =====
-- How the worker leaves a job, its attempt and its assessment (governance/governance-worker.ts).
use deeprun.Prelude.{
  ℕ, ◌+◌, ◌*◌, ◌≤◌, ◌<◌, ◌≡◌, ◌⊎◌, inl, inr, refl, ap, ◌∙◌, Bool, true, false, ◌&&◌, ◌==◌, ==_refl,
  ltb, List, [], ◌∷◌, map, All, Option, none, some, Text, codes, arith, Bool-cases, if◌then◌else◌,
}
use deeprun.Jobs.Model.{
  available, failed, Job, Store, is_held, changed, held_by, after_failure,
  transition_job_to_running, fail_job, get_governance_job,
}
use deeprun.Jobs.Candidate.{get-update}
use deeprun.Jobs.Fence.{HeldBy}
use deeprun.JobWorker.Model.{
  AssessmentStatus, AttemptStatus, Assessment, Attempt, Board, assessed, attempted,
  update_assessment_status, update_attempt_status, Evaluation, completed_evaluation,
  cancelled_evaluation, authority_error, infrastructure_error, threw, Evaluator, max_claim_count,
  end_in_error, reschedule, after_evaluation, run_claimed, process_job,
}

-- The row is one of another attempt, or it is in error; likewise for assessments.
abbrev pub AttemptFailed : ℕ → Attempt → Type 0
AttemptFailed id a = ((a.attempt_id == id) ≡ false) ⊎ (a.status ≡ AttemptStatus.error)

abbrev pub AssessmentFailed : ℕ → Assessment → Type 0
AssessmentFailed id a = ((a.assessment_id == id) ≡ false) ⊎ (a.status ≡ AssessmentStatus.error)

pub attempts_failed :
    (id : ℕ) (code message : Option Text) (now : ℕ) (rows : List Attempt)
    → All (AttemptFailed id) (map (attempted id AttemptStatus.error code message now) rows)
attempts_failed id code message now [] = tt
attempts_failed id code message now (a ∷ rows) =
    let rest = attempts_failed id code message now rows in
    elim (Bool-cases (a.attempt_id == id)) [
      | inl it ↦ (rw it (inr refl), rest)
      | inr other ↦ (rw other (inl other), rest)
    ]

assessments_failed :
    (id now : ℕ) (rows : List Assessment)
    → All (AssessmentFailed id) (map (assessed id AssessmentStatus.error now) rows)
assessments_failed id now [] = tt
assessments_failed id now (a ∷ rows) =
    let rest = assessments_failed id now rows in
    elim (Bool-cases (a.assessment_id == id)) [
      | inl it ↦ (rw it (inr refl), rest)
      | inr other ↦ (rw other (inl other), rest)
    ]

-- The attempt and the assessment of a job are in error.
abbrev pub BothFailed : Job → Board → Type 0
BothFailed job b =
    All (AttemptFailed job.attempt_id) b.attempts
    × All (AssessmentFailed job.assessment_id) b.assessments

pub end_in_error-BothFailed :
    (w : ℕ) (job : Job) (code message : Text) (b : Board)
    → BothFailed job (end_in_error w job code message b)
unfolding end_in_error update_attempt_status update_assessment_status
end_in_error-BothFailed w job code message b = (
  attempts_failed job.attempt_id (some code) (some message) _ b.attempts,
  assessments_failed job.assessment_id _ b.assessments,
)

keeps_id :
    (code message : Text) (at : Option ℕ) (now : ℕ) (i : Job)
    → (after_failure code message at now i).job_id ≡ i.job_id
keeps_id code message none now i = refl
keeps_id code message (some at) now i = refl

-- The row of the job after a failure that the worker reports.
pub fail-row :
    (w : ℕ) (job : Job) (code message : Text) (at : Option ℕ) (s : Store) (j : Job)
    → get_governance_job job.job_id s.jobs ≡ some j
    → get_governance_job job.job_id
        (fail_job job.job_id w code message at (some job.lease_generation) s).1.jobs
      ≡ some (
          changed
            (held_by is_held job.job_id w (some job.lease_generation) s.now)
            (after_failure code message at s.now)
            j)
unfolding fail_job
fail-row w job code message at s j h =
    get-update job.job_id (held_by is_held job.job_id w (some job.lease_generation) s.now)
      (after_failure code message at s.now) s.jobs j (keeps_id code message at s.now) h

HeldBy-held_by :
    (k w g expires now : ℕ) (j : Job)
    → HeldBy k w g expires j
    → now < expires
    → held_by is_held k w (some g) now j ≡ true
HeldBy-held_by k w g expires now j (e, (e', (e'', (held, lease)))) time =
    rw (e, e', e'', held, lease) (ground (arith, ==_refl k, ==_refl w, ==_refl g))

-- The row is free again for a claim after a wait, or failed for good.
abbrev pub Rescheduled : ℕ → ℕ → Job → Job → Type 0
Rescheduled now claims j j' =
    (j'.status ≡ available)
    × ((j'.worker_id ≡ none)
        × ((j'.available_at ≡ now + 5 * claims) × (j'.claim_count ≡ j.claim_count)))

abbrev pub FailedFor : Text → Text → Job → Job → Type 0
FailedFor code message j j' =
    (j'.status ≡ failed)
    × ((j'.last_error_code ≡ some code)
        × ((j'.last_error_message ≡ some message) × (j'.lease_expires_at ≡ none)))

-- The row of the job in the result.
abbrev pub Row : ℕ → Board → (Job → Type 0) → Type 0
Row k r P = (j' : Job) × ((get_governance_job k r.jobs.jobs ≡ some j') × P j')

-- What the worker leaves after the evaluation, `b` the tables before and `r` after.
abbrev pub SettledIf : Bool → Text → Text → Job → Job → Board → Board → Type 0
SettledIf true code message job j b r =
    Row job.job_id r (Rescheduled b.jobs.now job.claim_count j)
    × (All (AttemptFailed job.attempt_id) r.attempts × (r.assessments ≡ b.assessments))
SettledIf false code message job j b r =
    Row job.job_id r (FailedFor code message j) × BothFailed job r

abbrev pub Settled : Job → Job → Evaluation → Board → Board → Type 0
Settled job j (infrastructure_error code message retryable) b r =
    SettledIf (retryable && ltb job.claim_count 3) code message job j b r
Settled job j (threw message) b r = SettledIf false (codes "WORKER_ERROR") message job j b r
Settled job j _ b r = r ≡ b

module _ (w : ℕ) (job : Job) (expires : ℕ) (b : Board) (j : Job)
    (h : get_governance_job job.job_id b.jobs.jobs ≡ some j)
    (held : HeldBy job.job_id w job.lease_generation expires j) (time : b.jobs.now < expires) where
  held_test : held_by is_held job.job_id w (some job.lease_generation) b.jobs.now j ≡ true
  held_test = HeldBy-held_by job.job_id w job.lease_generation expires b.jobs.now j held time

  changed_it :
      (code message : Text) (at : Option ℕ)
      → changed
          (held_by is_held job.job_id w (some job.lease_generation) b.jobs.now)
          (after_failure code message at b.jobs.now)
          j
        ≡ after_failure code message at b.jobs.now j
  changed_it code message at = rw held_test refl

  pub ended-Settled :
      (code message : Text)
      → SettledIf false code message job j b (end_in_error w job code message b)
  unfolding end_in_error update_attempt_status update_assessment_status
  ended-Settled code message = (
    (
      after_failure code message none b.jobs.now j,
      (
        fail-row w job code message none b.jobs j h ∙ ap some (changed_it code message none),
        (refl, (refl, (refl, refl))),
      ),
    ),
    end_in_error-BothFailed w job code message b,
  )

  rescheduled-Settled :
      (code message : Text) → SettledIf true code message job j b (reschedule w job code message b)
  unfolding reschedule update_attempt_status
  rescheduled-Settled code message =
      let at = some (b.jobs.now + 5 * job.claim_count) in
      (
        (
          after_failure code message at b.jobs.now j,
          (
            fail-row w job code message at b.jobs j h ∙ ap some (changed_it code message at),
            (refl, (refl, (refl, refl))),
          ),
        ),
        (attempts_failed job.attempt_id (some code) (some message) _ b.attempts, refl),
      )

  settled_if :
      (again : Bool) (code message : Text)
      → SettledIf again code message job j b
          (if again then reschedule w job code message b else end_in_error w job code message b)
  settled_if true code message = rescheduled-Settled code message
  settled_if false code message = ended-Settled code message

  after_evaluation-Settled : (e : Evaluation) → Settled job j e b (after_evaluation w job (e, b))
  unfolding after_evaluation
  after_evaluation-Settled completed_evaluation = refl
  after_evaluation-Settled cancelled_evaluation = refl
  after_evaluation-Settled (authority_error code message) = refl
  after_evaluation-Settled (infrastructure_error code message retryable) =
      settled_if (retryable && ltb job.claim_count max_claim_count) code message
  after_evaluation-Settled (threw message) = ended-Settled (codes "WORKER_ERROR") message

pub running_outcome :
    (evaluate : Evaluator) (w : ℕ) (job : Job) (moved : Option Job × Store) (b b' : Board)
    (started : Job) (e : Evaluation)
    → moved.0 ≡ some started
    → evaluate job (
        update_assessment_status job.assessment_id AssessmentStatus.running
          (record b { jobs = moved.1 }))
      ≡ (e, b')
    → run_claimed evaluate w false job moved b ≡ after_evaluation w job (e, b')
unfolding run_claimed
running_outcome evaluate w job (none, s) b b' started e h outcome = absurd (cc h)
running_outcome evaluate w job (some j, s) b b' started e h outcome =
    ap (after_evaluation w job) outcome

-- A worker that moves its job to running, which it claimed at most three times with others, and
-- that still holds the job when the evaluation ends, leaves it as the outcome says. After an
-- infrastructure error that can be retried, and before the third claim, the job is available again
-- after 5 seconds for each claim, with the attempt in error; after any other infrastructure error,
-- or one that was thrown, the job has failed for good, with the attempt and the assessment in
-- error; and else the tables are as the evaluator left them.
pub process_job-Settled :
    (evaluate : Evaluator) (w : ℕ) (message : Text) (job : Job) (b b' : Board) (started j : Job)
    (e : Evaluation) (expires : ℕ)
    → job.claim_count ≤ 3
    → (transition_job_to_running job.job_id w (some job.lease_generation) b.jobs).0 ≡ some started
    → evaluate job (
        update_assessment_status job.assessment_id AssessmentStatus.running (record b {
          jobs = (transition_job_to_running job.job_id w (some job.lease_generation) b.jobs).1;
        }))
      ≡ (e, b')
    → get_governance_job job.job_id b'.jobs.jobs ≡ some j
    → HeldBy job.job_id w job.lease_generation expires j
    → b'.jobs.now < expires
    → Settled job j e b' (process_job evaluate w false message job b)
unfolding process_job
process_job-Settled evaluate w message job b b' started j e expires few moved outcome h held time =
    let few' : ltb 3 job.claim_count ≡ false = ground arith in
    let run =
      running_outcome evaluate w job
        (transition_job_to_running job.job_id w (some job.lease_generation) b.jobs) b b' started e
        moved outcome in
    rw (few', run) (after_evaluation-Settled w job expires b' j h held time e)
