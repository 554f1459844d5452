-- ===== src/Jobs/Claiming.antt =====
-- What a claim takes, and what it gives the worker (governance/governance-store.ts
-- `claimNextGovernanceJob`).
use deeprun.Prelude.{ℕ, ◌+◌, ◌≤◌, ◌≡◌, true, false, Option, none, some}
use deeprun.Jobs.Model.{Job, Store, can_claim, claim, get_governance_job}
use deeprun.Jobs.Fence.{HeldBy}

-- No job that can be claimed became available before `c`; without a candidate, none can be claimed.
abbrev pub NotBefore : ℕ → Option Job → Job → Type 0
NotBefore now none i = can_claim now i ≡ false
NotBefore now (some c) i = can_claim now i ≡ true → c.available_at ≤ i.available_at

-- What a claim ends in, given the row that it takes.
abbrev pub ClaimsIt : ℕ → ℕ → Store → Option Job → Option Job × Store → Type 0
ClaimsIt worker_id lease s none (answer, s') = (answer ≡ none) × (s' ≡ s)
ClaimsIt worker_id lease s (some c) (answer, s') =
    (answer ≡ some (claim worker_id lease s.now c))
    × (((get_governance_job c.job_id s.jobs ≡ some c) × (can_claim s.now c ≡ true))
        × ((get_governance_job c.job_id s'.jobs ≡ some (claim worker_id lease s.now c))
            × HeldBy c.job_id worker_id (c.lease_generation + 1) (s.now + lease)
                (claim worker_id lease s.now c)))
