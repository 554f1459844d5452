-- ===== src/RunJobs/Model.antt =====
-- The tables run_jobs and worker_nodes and the operations on jobs
-- (packages/deeprun-backend/src/lib/project-store.ts). Times are seconds.
use deeprun.Prelude.{
  ℕ, ◌+◌, max, Bool, true, false, ◌&&◌, ◌||◌, ◌==◌, ltb, leb, List, [], ◌∷◌, ◌++◌, map, filter, any,
  Option, none, some, if◌then◌else◌,
}
use deeprun.Lifecycle.{JobStatus, claimed}

pub data JobType : Type 0 where
  kernel validation evaluation : JobType

pub data Role : Type 0 where
  compute eval : Role

abbrev same_role : Role → Role → Bool
same_role compute compute = true
same_role eval eval = true
same_role _ _ = false

-- AgentRunJob. A set of capabilities is named by a number.
pub record RunJob : Type 0 where
  pub id : ℕ
  pub run_id : ℕ
  pub job_type : JobType
  pub target_role : Role
  pub status : JobStatus
  pub required_capabilities : Option ℕ
  pub assigned_node : Option ℕ
  pub lease_expires_at : Option ℕ
  pub attempt_count : ℕ
  pub created_at : ℕ
  pub updated_at : ℕ

pub record WorkerNode : Type 0 where
  pub node_id : ℕ
  pub role : Role
  pub online : Bool

pub record Db : Type 0 where
  pub jobs : List RunJob
  pub nodes : List WorkerNode
  pub now : ℕ

-- status IN ('queued', 'claimed', 'running'), and ('claimed', 'running').
abbrev pub is_open : JobStatus → Bool
is_open JobStatus.complete = false
is_open JobStatus.failed = false
is_open _ = true

abbrev pub is_taken : JobStatus → Bool
is_taken claimed = true
is_taken JobStatus.running = true
is_taken _ = false

abbrev pub is_queued : JobStatus → Bool
is_queued JobStatus.queued = true
is_queued _ = false

abbrev pub active_for : ℕ → RunJob → Bool
active_for run_id j = j.run_id == run_id && is_open j.status

-- The latest of the rows, ORDER BY created_at DESC LIMIT 1.
abbrev later : RunJob → Option RunJob → Option RunJob
later j none = some j
later j (some k) = if leb k.created_at j.created_at then some j else some k

unfoldable pub get_active_run_job_by_run_id : ℕ → List RunJob → Option RunJob
get_active_run_job_by_run_id run_id [] = none
get_active_run_job_by_run_id run_id (j ∷ js) =
    let rest = get_active_run_job_by_run_id run_id js in
    if active_for run_id j then later j rest else rest

pub record CreateRunJobInput : Type 0 where
  pub run_id : ℕ
  pub job_type : JobType
  pub target_role : Role
  pub required_capabilities : Option ℕ

abbrev pub queued_job : ℕ → CreateRunJobInput → ℕ → RunJob
queued_job fresh input now = record {
  id = fresh;
  run_id = input.run_id;
  job_type = input.job_type;
  target_role = input.target_role;
  status = JobStatus.queued;
  required_capabilities = input.required_capabilities;
  assigned_node = none;
  lease_expires_at = none;
  attempt_count = 0;
  created_at = now;
  updated_at = now;
}

-- The two unique indexes: the primary key, and one active job for a run.
abbrev pub violates : ℕ → ℕ → List RunJob → Bool
violates fresh run_id jobs = any (λ j. j.id == fresh) jobs || any (active_for run_id) jobs

-- The answer, or `none` for the error that is thrown again.
abbrev pub enqueue_row : Bool → RunJob → Db → Option RunJob × Db
enqueue_row false j db = (some j, record db { jobs = db.jobs ++ j ∷ [] })
enqueue_row true j db = (get_active_run_job_by_run_id j.run_id db.jobs, db)

unfoldable pub enqueue_run_job : ℕ → CreateRunJobInput → Db → Option RunJob × Db
enqueue_run_job fresh input db =
    enqueue_row (violates fresh input.run_id db.jobs) (queued_job fresh input db.now) db

abbrev pub changed : (RunJob → Bool) → (RunJob → RunJob) → RunJob → RunJob
changed p f j = if p j then f j else j

abbrev first_row : List RunJob → Option RunJob
first_row [] = none
first_row (j ∷ js) = some j

abbrev pub update_where : (RunJob → Bool) → (RunJob → RunJob) → Db → Option RunJob × Db
update_where p f db =
    (first_row (map f (filter p db.jobs)), record db { jobs = map (changed p f) db.jobs })

-- Math.max(15, Math.floor(Number(x) || 60)), where x is absent or no less than 0.
abbrev pub lease_seconds : Option ℕ → ℕ
lease_seconds none = 60
lease_seconds (some n) = if n == 0 then 60 else max 15 n

abbrev capable : (ℕ → ℕ → Bool) → Option ℕ → ℕ → Bool
capable contained none offered = true
capable contained (some required) offered = contained required offered

abbrev run_wanted : List ℕ → ℕ → Bool
run_wanted [] run_id = true
run_wanted (r ∷ rs) run_id = any (λ i. i == run_id) (r ∷ rs)

abbrev is_online : ℕ → Role → WorkerNode → Bool
is_online node_id role n = n.node_id == node_id && same_role n.role role && n.online

abbrev past : ℕ → Option ℕ → Bool
past now none = false
past now (some expires) = ltb expires now

-- What a worker asks for.
pub record ClaimInput : Type 0 where
  pub node_id : ℕ
  pub target_role : Role
  pub capabilities : ℕ
  pub lease : Option ℕ
  pub run_ids : List ℕ

-- Containment of capabilities (`<@` of PostgreSQL) is the parameter `contained`.
unfoldable pub can_claim : (ℕ → ℕ → Bool) → ClaimInput → Db → RunJob → Bool
can_claim contained input db j =
    same_role j.target_role input.target_role
    && run_wanted input.run_ids j.run_id
    && capable contained j.required_capabilities input.capabilities
    && any (is_online input.node_id input.target_role) db.nodes
    && (is_queued j.status || (is_taken j.status && past db.now j.lease_expires_at))

-- ORDER BY created_at ASC LIMIT 1
abbrev pub earlier : RunJob → Option RunJob → Option RunJob
earlier j none = some j
earlier j (some k) = if leb j.created_at k.created_at then some j else some k

unfoldable pub candidate : (RunJob → Bool) → List RunJob → Option RunJob
candidate p [] = none
candidate p (j ∷ js) = let rest = candidate p js in if p j then earlier j rest else rest

abbrev pub claim : ClaimInput → ℕ → RunJob → RunJob
claim input now j = record j {
  status = claimed;
  assigned_node = some input.node_id;
  lease_expires_at = some (now + lease_seconds input.lease);
  attempt_count = j.attempt_count + 1;
  updated_at = now;
}

abbrev pub claim_candidate : ClaimInput → Option RunJob → Db → Option RunJob × Db
claim_candidate input none db = (none, db)
claim_candidate input (some c) db = update_where (λ j. j.id == c.id) (claim input db.now) db

unfoldable pub claim_next_run_job : (ℕ → ℕ → Bool) → ClaimInput → Db → Option RunJob × Db
claim_next_run_job contained input db =
    claim_candidate input (candidate (can_claim contained input db) db.jobs) db

abbrev pub of_node : ℕ → Option ℕ → Bool
of_node n none = false
of_node n (some m) = m == n

abbrev pub taken_by : ℕ → ℕ → RunJob → Bool
taken_by job_id node_id j = j.id == job_id && of_node node_id j.assigned_node && is_taken j.status

unfoldable pub mark_run_job_running : ℕ → ℕ → Option ℕ → Db → Option RunJob × Db
mark_run_job_running job_id node_id lease db =
    update_where (taken_by job_id node_id)
      (λ j. record j {
        status = JobStatus.running;
        lease_expires_at = some (db.now + lease_seconds lease);
        updated_at = db.now;
      })
      db

unfoldable pub renew_run_job_lease : ℕ → ℕ → Option ℕ → Db → Bool × Db
renew_run_job_lease job_id node_id lease db = (
  any (taken_by job_id node_id) db.jobs,
  (update_where (taken_by job_id node_id)
      (λ j. record j {
        lease_expires_at = some (db.now + lease_seconds lease);
        updated_at = db.now;
      })
      db).1,
)

abbrev pub ended : JobStatus → ℕ → RunJob → RunJob
ended status now j = record j { status = status; lease_expires_at = none; updated_at = now }

unfoldable pub complete_run_job : ℕ → ℕ → Db → Option RunJob × Db
complete_run_job job_id node_id db =
    update_where (taken_by job_id node_id) (ended JobStatus.complete db.now) db

unfoldable pub fail_run_job : ℕ → ℕ → Db → Option RunJob × Db
fail_run_job job_id node_id db =
    update_where (taken_by job_id node_id) (ended JobStatus.failed db.now) db
