-- ===== src/Jobs/Tests.antt =====
-- Two jobs, one of which a worker holds.
use deeprun.Prelude.{◌≡◌, refl, List, [], ◌∷◌, none, some, codes, arith}
use deeprun.Jobs.Model.{running, complete, Job, Store, get_governance_job, new_job}
use deeprun.Jobs.Calls.{Op, tick, create, claim_next, heartbeat, finish, fail, apply_op, apply_ops}
use deeprun.Jobs.Candidate.{unique_ids}
use deeprun.Jobs.Fence.{comes_from, held_job_fenced}
use deeprun.Jobs.Stale.{is_ended, with_generation, ended_job_kept, stale_calls_refused}

abbrev held_job : Job
held_job = record (new_job 1 10 20 none 5) {
  status = running;
  worker_id = some 7;
  lease_generation = 2;
  lease_expires_at = some 400;
}

abbrev ended_job : Job
ended_job = record (new_job 2 11 21 none 6) { status = complete }

abbrev store : Store
store = record { jobs = held_job ∷ ended_job ∷ new_job 3 12 22 none 7 ∷ []; now = 100 }

abbrev others : List Op
others =
    claim_next 8 none
    ∷ tick 50
    ∷ heartbeat 1 7 (some 1) none
    ∷ finish 1 8 none
    ∷ create 4 13 23 none
    ∷ fail 1 7 (codes "E") (codes "late") none (some 1)
    ∷ []

held_job_fenced_example : get_governance_job 1 (apply_ops others store).jobs ≡ some held_job
unfolding unique_ids get_governance_job comes_from
held_job_fenced_example =
    held_job_fenced others 1 7 2 400 store held_job refl refl (refl, (refl, (refl, (refl, refl))))
      (omega arith) refl

ended_job_kept_example : get_governance_job 2 (apply_ops others store).jobs ≡ some ended_job
unfolding unique_ids get_governance_job is_ended
ended_job_kept_example = ended_job_kept others 2 store ended_job refl refl refl

stale_calls_refused_example :
    get_governance_job 1 (apply_op (finish 1 7 (some 1)) (apply_ops others store)).jobs
    ≡ get_governance_job 1 (apply_ops others store).jobs
unfolding get_governance_job with_generation
stale_calls_refused_example =
    stale_calls_refused others (finish 1 7 (some 1)) 1 1 store held_job refl (omega arith) refl
