-- ===== src/RunJobs/Tests.antt =====
-- Two workers and two jobs of one run, one after the other.
use deeprun.Prelude.{ℕ, true, List, [], ◌∷◌, none, some, leb, refl}
use deeprun.Lifecycle.{JobStatus}
use deeprun.RunJobs.Model.{
  Db, CreateRunJobInput, ClaimInput, kernel, compute, WorkerNode, queued_job,
}
use deeprun.RunJobs.Unique.{Indexed, unique_ids, one_active}
use deeprun.RunJobs.Statuses.{Followed, calls-Followed}
use deeprun.RunJobs.Moves.{
  Op, tick, enqueue, claim_next, mark_running, renew, finish, fail, apply_ops, calls-Indexed,
}

abbrev node : ℕ → WorkerNode
node n = record { node_id = n; role = compute; online = true }

abbrev empty_db : Db
empty_db = record { jobs = []; nodes = node 1 ∷ node 2 ∷ []; now = 100 }

abbrev the_input : CreateRunJobInput
the_input = record {
  run_id = 9;
  job_type = kernel;
  target_role = compute;
  required_capabilities = some 3;
}

abbrev asking : ℕ → ClaimInput
asking n = record {
  node_id = n;
  target_role = compute;
  capabilities = 4;
  lease = none;
  run_ids = [];
}

abbrev the_calls : List Op
the_calls =
    enqueue 1 the_input
    ∷ enqueue 2 the_input
    ∷ claim_next (asking 1)
    ∷ mark_running 1 1 none
    ∷ tick 90
    ∷ claim_next (asking 2)
    ∷ finish 1 1
    ∷ renew 1 2 none
    ∷ fail 1 2
    ∷ enqueue 3 the_input
    ∷ []

calls-Indexed_example : Indexed (apply_ops leb the_calls empty_db).jobs
unfolding unique_ids one_active
calls-Indexed_example = calls-Indexed leb the_calls empty_db (refl, refl)

-- A job that node 1 runs, which node 2 claims when its lease is over.
abbrev held_db : Db
held_db = record empty_db {
  jobs =
      record (queued_job 7 the_input 5) {
        status = JobStatus.running;
        assigned_node = some 1;
        lease_expires_at = some 160;
      }
      ∷ [];
}

abbrev late_calls : List Op
late_calls = tick 90 ∷ claim_next (asking 2) ∷ finish 7 1 ∷ mark_running 7 2 none ∷ finish 7 2 ∷ []

calls-Followed_example : Followed held_db.jobs (apply_ops leb late_calls held_db).jobs
unfolding unique_ids one_active
calls-Followed_example = calls-Followed leb late_calls held_db (refl, refl)
