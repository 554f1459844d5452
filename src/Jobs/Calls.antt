-- ===== src/Jobs/Calls.antt =====
-- Sequences of calls on governance_jobs and of the time between them
-- (governance/governance-store.ts).
use deeprun.Prelude.{ℕ, ◌+◌, List, [], ◌∷◌, Option, Text}
use deeprun.Jobs.Model.{
  Store, cancel_job, claim_next_governance_job, complete_job, create_governance_job, fail_job,
  heartbeat_job, transition_job_to_running,
}

-- The calls that workers and the service make, and the time that passes between them.
pub data Op : Type 0 where
  tick : ℕ → Op
  create : ℕ → ℕ → ℕ → Option ℕ → Op
  claim_next : ℕ → Option ℕ → Op
  heartbeat : ℕ → ℕ → Option ℕ → Option ℕ → Op
  to_running : ℕ → ℕ → Option ℕ → Op
  finish : ℕ → ℕ → Option ℕ → Op
  fail : ℕ → ℕ → Text → Text → Option ℕ → Option ℕ → Op
  cancel : ℕ → Option ℕ → Option ℕ → Op

abbrev pub apply_op : Op → Store → Store
apply_op (tick n) s = record s { now = s.now + n }
apply_op (create k a t at) s = (create_governance_job k a t at s).1
apply_op (claim_next w lease) s = (claim_next_governance_job w lease s).1
apply_op (heartbeat k w g lease) s = (heartbeat_job k w g lease s).1
apply_op (to_running k w g) s = (transition_job_to_running k w g s).1
apply_op (finish k w g) s = (complete_job k w g s).1
apply_op (fail k w code message at g) s = (fail_job k w code message at g s).1
apply_op (cancel k w g) s = (cancel_job k w g s).1

unfoldable pub apply_ops : List Op → Store → Store
apply_ops [] s = s
apply_ops (o ∷ os) s = apply_ops os (apply_op o s)
