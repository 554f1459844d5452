-- ===== src/JobWorker/Losing.antt =====
-- What a worker does that has lost its job (governance/governance-worker.ts).
use deeprun.Prelude.{
  ℕ, ◌+◌, ◌*◌, ◌≤◌, ◌<◌, ◌≡◌, ◌⊎◌, inl, inr, refl, ap, ◌∙◌, Bool, true, false, ◌&&◌, ltb, List, [],
  ◌∷◌, map, filter, All, Option, none, some, Text, codes, arith, Bool-cases,
}
use deeprun.Jobs.Model.{
  running, Job, Store, is_held, is_claimed, changed, first_row, held_by, update_first,
  after_failure, transition_job_to_running, get_governance_job,
}
use deeprun.Jobs.Fence.{HeldBy}
use deeprun.JobWorker.Model.{
  AssessmentStatus, Board, update_assessment_status, update_attempt_status, Evaluation,
  completed_evaluation, cancelled_evaluation, authority_error, infrastructure_error, threw,
  Evaluator, max_claim_count, end_in_error, reschedule, after_evaluation, run_claimed, process_job,
}
use deeprun.JobWorker.Settling.{
  AttemptFailed, AssessmentFailed, BothFailed, FailedFor, Row, ended-Settled,
  end_in_error-BothFailed, fail-row, attempts_failed, running_outcome,
}

-- An update that returns no row changes none.
nothing_updated :
    (p : Job → Bool) (f : Job → Job) (js : List Job)
    → first_row (map f (filter p js)) ≡ none
    → map (changed p f) js ≡ js
nothing_updated p f [] h = refl
nothing_updated p f (j ∷ js) h = elim (Bool-cases (p j)) [
  | inl it ↦ absurd (cc (rw it at h))
  | inr other ↦ rw (other, nothing_updated p f js (rw other at h)) refl
]

not_moved :
    (evaluate : Evaluator) (w : ℕ) (aborted : Bool) (job : Job) (moved : Option Job × Store)
    (b : Board)
    → moved.0 ≡ none
    → run_claimed evaluate w aborted job moved b ≡ record b { jobs = moved.1 }
unfolding run_claimed
not_moved evaluate w aborted job (none, s) b h = refl
not_moved evaluate w aborted job (some j, s) b h = absurd (cc h)

-- A worker whose job, claimed at most three times, can no longer be moved to running changes
-- nothing.
pub lost_job_untouched :
    (evaluate : Evaluator) (w : ℕ) (aborted : Bool) (message : Text) (job : Job) (b : Board)
    → job.claim_count ≤ 3
    → (transition_job_to_running job.job_id w (some job.lease_generation) b.jobs).0 ≡ none
    → process_job evaluate w aborted message job b ≡ b
unfolding process_job transition_job_to_running
lost_job_untouched evaluate w aborted message job b few lost =
    let few' : ltb 3 job.claim_count ≡ false = ground arith in
    let set_running : Job → Job = λ j. record j { status = running; updated_at = b.jobs.now } in
    let same =
      nothing_updated (held_by is_claimed job.job_id w (some job.lease_generation) b.jobs.now)
        set_running b.jobs.jobs lost in
    rw few' (
      not_moved evaluate w aborted job
        (update_first (held_by is_claimed job.job_id w (some job.lease_generation) b.jobs.now)
          set_running b.jobs)
        b lost
      ∙ ap (λ js. record b { jobs = record { jobs = js; now = b.jobs.now } }) same)

-- A job that was claimed more than three times, and that the worker holds in its lease, is not
-- evaluated: whatever the evaluator, the row of the job is failed for good with the code
-- MAX_CLAIMS_EXCEEDED, the message and no lease, the attempt and the assessment are in error, and the
-- result does not depend on the evaluator.
pub over_claimed_job_ended :
    (evaluate evaluate' : Evaluator) (w : ℕ) (aborted : Bool) (message : Text) (job : Job)
    (expires : ℕ) (b : Board) (j : Job)
    → 3 < job.claim_count
    → get_governance_job job.job_id b.jobs.jobs ≡ some j
    → HeldBy job.job_id w job.lease_generation expires j
    → b.jobs.now < expires
    → (process_job evaluate w aborted message job b ≡ process_job evaluate' w aborted message job b)
      × Row job.job_id
          (process_job evaluate w aborted message job b)
          (FailedFor (codes "MAX_CLAIMS_EXCEEDED") message j)
      × BothFailed job (process_job evaluate w aborted message job b)
unfolding process_job
over_claimed_job_ended evaluate evaluate' w aborted message job expires b j many h held time =
    let many' : ltb 3 job.claim_count ≡ true = ground arith in
    let (row, both) =
      ended-Settled w job expires b j h held time (codes "MAX_CLAIMS_EXCEEDED") message in
    (rw many' refl, rw many' row, rw many' both)

-- What a worker writes after the evaluation of a job that it no longer holds.
abbrev pub Late : Job → Job → Evaluation → Board → Board → Type 0
Late job j (threw message) b r =
    (get_governance_job job.job_id r.jobs.jobs ≡ some j) × BothFailed job r
Late job j (infrastructure_error code message retryable) b r =
    (get_governance_job job.job_id r.jobs.jobs ≡ some j)
    × (All (AttemptFailed job.attempt_id) r.attempts
        × (All (AssessmentFailed job.assessment_id) r.assessments
            ⊎ (((retryable && ltb job.claim_count 3) ≡ true) × (r.assessments ≡ b.assessments))))
Late job j _ b r = r ≡ b

module _ (w : ℕ) (job : Job) (b : Board) (j : Job)
    (h : get_governance_job job.job_id b.jobs.jobs ≡ some j)
    (lost : held_by is_held job.job_id w (some job.lease_generation) b.jobs.now j ≡ false) where
  kept_row :
      (code message : Text) (at : Option ℕ)
      → some (
          changed
            (held_by is_held job.job_id w (some job.lease_generation) b.jobs.now)
            (after_failure code message at b.jobs.now)
            j)
        ≡ some j
  kept_row code message at = rw lost refl

  ended_late :
      (code message : Text)
      → (get_governance_job job.job_id (end_in_error w job code message b).jobs.jobs ≡ some j)
        × BothFailed job (end_in_error w job code message b)
  unfolding end_in_error update_attempt_status update_assessment_status
  ended_late code message = (
    fail-row w job code message none b.jobs j h ∙ kept_row code message none,
    end_in_error-BothFailed w job code message b,
  )

  rescheduled_late :
      (code message : Text)
      → (get_governance_job job.job_id (reschedule w job code message b).jobs.jobs ≡ some j)
        × (All (AttemptFailed job.attempt_id) (reschedule w job code message b).attempts
            × ((reschedule w job code message b).assessments ≡ b.assessments))
  unfolding reschedule update_attempt_status
  rescheduled_late code message =
      let at = some (b.jobs.now + 5 * job.claim_count) in
      (
        fail-row w job code message at b.jobs j h ∙ kept_row code message at,
        (attempts_failed job.attempt_id (some code) (some message) _ b.attempts, refl),
      )

  after_evaluation-Late : (e : Evaluation) → Late job j e b (after_evaluation w job (e, b))
  unfolding after_evaluation
  after_evaluation-Late completed_evaluation = refl
  after_evaluation-Late cancelled_evaluation = refl
  after_evaluation-Late (authority_error code message) = refl
  after_evaluation-Late (infrastructure_error code message retryable) =
      elim (Bool-cases (retryable && ltb job.claim_count max_claim_count)) [
        | inl again ↦
            let (row, (attempts, same)) = rescheduled_late code message in
            rw again (row, (attempts, inr (refl, same)))
        | inr last ↦
            let (row, (attempts, assessments)) = ended_late code message in
            rw last (row, (attempts, inl assessments))
      ]
  after_evaluation-Late (threw message) = ended_late (codes "WORKER_ERROR") message

-- A worker that moves its job to running, which it claimed at most three times with others, and
-- that no longer holds it when the evaluation ends, leaves the row of the job as it is; but after an
-- infrastructure error, or one that was thrown, it sets the attempt to error, whoever works on it,
-- and so it does with the assessment, unless the job would have been tried again.
pub process_job-Late :
    (evaluate : Evaluator) (w : ℕ) (message : Text) (job : Job) (b b' : Board) (started j : Job)
    (e : Evaluation)
    → job.claim_count ≤ 3
    → (transition_job_to_running job.job_id w (some job.lease_generation) b.jobs).0 ≡ some started
    → evaluate job (
        update_assessment_status job.assessment_id AssessmentStatus.running (record b {
          jobs = (transition_job_to_running job.job_id w (some job.lease_generation) b.jobs).1;
        }))
      ≡ (e, b')
    → get_governance_job job.job_id b'.jobs.jobs ≡ some j
    → held_by is_held job.job_id w (some job.lease_generation) b'.jobs.now j ≡ false
    → Late job j e b' (process_job evaluate w false message job b)
unfolding process_job
process_job-Late evaluate w message job b b' started j e few moved outcome h lost =
    let few' : ltb 3 job.claim_count ≡ false = ground arith in
    let run =
      running_outcome evaluate w job
        (transition_job_to_running job.job_id w (some job.lease_generation) b.jobs) b b' started e
        moved outcome in
    rw (few', run) (after_evaluation-Late w job b' j h lost e)
