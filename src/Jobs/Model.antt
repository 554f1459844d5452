-- ===== src/Jobs/Model.antt =====
-- The table governance_jobs and the operations of GovernanceStore on it
-- (packages/deeprun-backend/src/governance/governance-store.ts). Times are seconds.
use deeprun.Prelude.{
  ℕ, ◌+◌, max, Bool, true, false, ◌&&◌, ◌||◌, ◌==◌, ltb, leb, List, [], ◌∷◌, ◌++◌, map, filter, any,
  Option, none, some, or_else, Text, if◌then◌else◌,
}

-- GovernanceJobStatus.
pub data JobStatus : Type 0 where
  available claimed running complete failed cancelled : JobStatus

pub record Job : Type 0 where
  pub job_id : ℕ
  pub assessment_id : ℕ
  pub attempt_id : ℕ
  pub status : JobStatus
  pub worker_id : Option ℕ
  pub lease_generation : ℕ
  pub claim_count : ℕ
  pub available_at : ℕ
  pub claimed_at : Option ℕ
  pub heartbeat_at : Option ℕ
  pub lease_expires_at : Option ℕ
  pub last_error_code : Option Text
  pub last_error_message : Option Text
  pub created_at : ℕ
  pub updated_at : ℕ

-- The table, and the time that NOW() gives.
pub record Store : Type 0 where
  pub jobs : List Job
  pub now : ℕ

abbrev pub has_job_id : ℕ → Job → Bool
has_job_id k j = j.job_id == k

-- status IN ('CLAIMED','RUNNING')
abbrev pub is_held : JobStatus → Bool
is_held claimed = true
is_held running = true
is_held _ = false

abbrev pub is_claimed : JobStatus → Bool
is_claimed claimed = true
is_claimed _ = false

abbrev pub is_available : JobStatus → Bool
is_available available = true
is_available _ = false

-- lease_expires_at > NOW(), and lease_expires_at IS NOT NULL AND lease_expires_at <= NOW().
abbrev pub is_live : ℕ → Option ℕ → Bool
is_live now none = false
is_live now (some expires) = ltb now expires

abbrev pub is_expired : ℕ → Option ℕ → Bool
is_expired now none = false
is_expired now (some expires) = leb expires now

-- worker_id = $2
abbrev pub of_worker : ℕ → Option ℕ → Bool
of_worker w none = false
of_worker w (some v) = v == w

-- $3 IS NULL OR lease_generation = $3
abbrev pub of_generation : Option ℕ → ℕ → Bool
of_generation none g = true
of_generation (some expected) g = g == expected

-- The rows that the condition picks are changed, and returned.
abbrev pub changed : (Job → Bool) → (Job → Job) → Job → Job
changed p f j = if p j then f j else j

abbrev pub update_where : (Job → Bool) → (Job → Job) → Store → List Job × Store
update_where p f s =
    (map f (filter p s.jobs), record { jobs = map (changed p f) s.jobs; now = s.now })

abbrev pub first_row : List Job → Option Job
first_row [] = none
first_row (j ∷ js) = some j

abbrev pub update_first : (Job → Bool) → (Job → Job) → Store → Option Job × Store
update_first p f s = let (rows, s') = update_where p f s in (first_row rows, s')

abbrev pub lease_seconds : Option ℕ → ℕ
lease_seconds given = max 30 (or_else given 300)

abbrev pub new_job : ℕ → ℕ → ℕ → Option ℕ → ℕ → Job
new_job job_id assessment_id attempt_id available_at now = record {
  job_id = job_id;
  assessment_id = assessment_id;
  attempt_id = attempt_id;
  status = available;
  worker_id = none;
  lease_generation = 0;
  claim_count = 0;
  available_at = or_else available_at now;
  claimed_at = none;
  heartbeat_at = none;
  lease_expires_at = none;
  last_error_code = none;
  last_error_message = none;
  created_at = now;
  updated_at = now;
}

-- `none` is the violation of the primary key, which throws.
abbrev pub insert_row : Bool → Job → Store → Option Job × Store
insert_row true j s = (none, s)
insert_row false j s = (some j, record s { jobs = s.jobs ++ j ∷ [] })

unfoldable pub create_governance_job : ℕ → ℕ → ℕ → Option ℕ → Store → Option Job × Store
create_governance_job job_id assessment_id attempt_id available_at s =
    insert_row (any (has_job_id job_id) s.jobs)
      (new_job job_id assessment_id attempt_id available_at s.now) s

abbrev pub can_claim : ℕ → Job → Bool
can_claim now j =
    (is_available j.status && leb j.available_at now)
    || (is_held j.status && is_expired now j.lease_expires_at)

-- ORDER BY available_at ASC LIMIT 1
abbrev pub earlier : Job → Option Job → Option Job
earlier j none = some j
earlier j (some k) = if leb j.available_at k.available_at then some j else some k

unfoldable pub candidate : ℕ → List Job → Option Job
candidate now [] = none
candidate now (j ∷ js) =
    let rest = candidate now js in if can_claim now j then earlier j rest else rest

abbrev pub claim : ℕ → ℕ → ℕ → Job → Job
claim worker_id lease now j = record j {
  status = claimed;
  worker_id = some worker_id;
  claimed_at = some now;
  lease_expires_at = some (now + lease);
  heartbeat_at = some now;
  lease_generation = j.lease_generation + 1;
  claim_count = j.claim_count + 1;
  updated_at = now;
}

abbrev pub claim_candidate : ℕ → ℕ → Option Job → Store → Option Job × Store
claim_candidate worker_id lease none s = (none, s)
claim_candidate worker_id lease (some c) s =
    update_first (has_job_id c.job_id) (claim worker_id lease s.now) s

unfoldable pub claim_next_governance_job : ℕ → Option ℕ → Store → Option Job × Store
claim_next_governance_job worker_id lease s =
    claim_candidate worker_id (lease_seconds lease) (candidate s.now s.jobs) s

-- The condition of a worker's update, on the statuses `p`.
abbrev pub held_by : (JobStatus → Bool) → ℕ → ℕ → Option ℕ → ℕ → Job → Bool
held_by p job_id worker_id generation now j =
    j.job_id == job_id
    && of_worker worker_id j.worker_id
    && of_generation generation j.lease_generation
    && p j.status
    && is_live now j.lease_expires_at

unfoldable pub heartbeat_job : ℕ → ℕ → Option ℕ → Option ℕ → Store → Bool × Store
heartbeat_job job_id worker_id generation lease s =
    let (rows, s') =
      update_where (held_by is_held job_id worker_id generation s.now)
        (λ j. record j {
          heartbeat_at = some s.now;
          lease_expires_at = some (s.now + lease_seconds lease);
          updated_at = s.now;
        })
        s in
    (any (λ j. true) rows, s')

unfoldable pub transition_job_to_running : ℕ → ℕ → Option ℕ → Store → Option Job × Store
transition_job_to_running job_id worker_id generation s =
    update_first (held_by is_claimed job_id worker_id generation s.now)
      (λ j. record j { status = running; updated_at = s.now }) s

unfoldable pub complete_job : ℕ → ℕ → Option ℕ → Store → Option Job × Store
complete_job job_id worker_id generation s =
    update_first (held_by is_held job_id worker_id generation s.now)
      (λ j. record j { status = complete; lease_expires_at = none; updated_at = s.now }) s

abbrev pub rescheduled : Text → Text → ℕ → ℕ → Job → Job
rescheduled code message at now j = record j {
  status = available;
  worker_id = none;
  lease_expires_at = none;
  available_at = at;
  last_error_code = some code;
  last_error_message = some message;
  updated_at = now;
}

abbrev pub failed_with : Text → Text → ℕ → Job → Job
failed_with code message now j = record j {
  status = failed;
  lease_expires_at = none;
  last_error_code = some code;
  last_error_message = some message;
  updated_at = now;
}

abbrev pub after_failure : Text → Text → Option ℕ → ℕ → Job → Job
after_failure code message none now j = failed_with code message now j
after_failure code message (some at) now j = rescheduled code message at now j

unfoldable pub fail_job : ℕ → ℕ → Text → Text → Option ℕ → Option ℕ → Store → Option Job × Store
fail_job job_id worker_id code message reschedule_at generation s =
    update_first (held_by is_held job_id worker_id generation s.now)
      (after_failure code message reschedule_at s.now) s

abbrev pub can_cancel : ℕ → Option ℕ → Option ℕ → ℕ → Job → Bool
can_cancel job_id none generation now j =
    j.job_id == job_id
    && of_generation generation j.lease_generation
    && (is_available j.status || is_held j.status)
can_cancel job_id (some w) generation now j =
    j.job_id == job_id
    && of_worker w j.worker_id
    && of_generation generation j.lease_generation
    && (is_available j.status || is_held j.status)
    && is_live now j.lease_expires_at

unfoldable pub cancel_job : ℕ → Option ℕ → Option ℕ → Store → Option Job × Store
cancel_job job_id worker_id generation s =
    update_first (can_cancel job_id worker_id generation s.now)
      (λ j. record j { status = cancelled; lease_expires_at = none; updated_at = s.now }) s

unfoldable pub get_governance_job : ℕ → List Job → Option Job
get_governance_job job_id [] = none
get_governance_job job_id (j ∷ js) =
    if j.job_id == job_id then some j else get_governance_job job_id js
