-- ===== src/RunLocks/Model.antt =====
-- The columns of agent_runs that hold a run's execution lock, and the statements on them
-- (lib/project-store.ts `acquireAgentRunExecutionLock`, `releaseAgentRunExecutionLock`,
-- `refreshAgentRunExecutionLock`). Times are seconds.
use deeprun.Prelude.{
  ℕ, ◌+◌, max, Bool, true, false, not, ◌&&◌, ◌||◌, ◌==◌, ltb, List, [], ◌∷◌, Option, none, some,
  is_some, if◌then◌else◌,
}

pub record LockRow : Type 0 where
  pub state_machine : Bool
  pub run_lock_owner : Option ℕ
  pub run_lock_acquired_at : Option ℕ
  pub updated_at : ℕ

pub record LockTable : Type 0 where
  pub rows : ℕ → Option LockRow
  pub now : ℕ

-- Math.max(30, Math.floor(Number(x) || 1800)), where x is absent or no less than 0.
abbrev pub stale_seconds : Option ℕ → ℕ
stale_seconds none = 1800
stale_seconds (some n) = if n == 0 then 1800 else max 30 n

abbrev pub lock_owned_by : ℕ → Option ℕ → Bool
lock_owned_by owner none = false
lock_owned_by owner (some o) = o == owner

-- run_lock_acquired_at IS NULL OR run_lock_acquired_at < NOW() - make_interval(secs => $3::int)
abbrev pub is_stale : ℕ → ℕ → Option ℕ → Bool
is_stale now stale none = true
is_stale now stale (some at) = ltb (at + stale) now

abbrev pub can_acquire : ℕ → ℕ → ℕ → LockRow → Bool
can_acquire owner stale now r =
    not r.state_machine
    && (not (is_some r.run_lock_owner)
        || lock_owned_by owner r.run_lock_owner
        || is_stale now stale r.run_lock_acquired_at)

abbrev pub can_release : ℕ → LockRow → Bool
can_release owner r =
    not r.state_machine && (not (is_some r.run_lock_owner) || lock_owned_by owner r.run_lock_owner)

abbrev pub can_refresh : ℕ → LockRow → Bool
can_refresh owner r = not r.state_machine && lock_owned_by owner r.run_lock_owner

-- The row that the statement returns, and the rows after it.
abbrev pub put_row : ℕ → LockRow → (ℕ → Option LockRow) → ℕ → Option LockRow
put_row id r rows k = if k == id then some r else rows k

abbrev pub update_if : Bool → ℕ → LockRow → LockTable → Option LockRow × LockTable
update_if true id r t = (some r, record t { rows = put_row id r t.rows })
update_if false id r t = (none, t)

abbrev pub update_found :
    Option LockRow
    → ℕ
    → (LockRow → Bool)
    → (LockRow → LockRow)
    → LockTable
    → Option LockRow × LockTable
update_found none id p f t = (none, t)
update_found (some r) id p f t = update_if (p r) id (f r) t

abbrev pub acquired : ℕ → ℕ → LockRow → LockRow
acquired owner now r = record r {
  run_lock_owner = some owner;
  run_lock_acquired_at = some now;
  updated_at = now;
}

unfoldable pub acquire_agent_run_execution_lock :
    ℕ → ℕ → Option ℕ → LockTable → Option LockRow × LockTable
acquire_agent_run_execution_lock run_id owner stale t =
    update_found (t.rows run_id) run_id (can_acquire owner (stale_seconds stale) t.now)
      (acquired owner t.now) t

unfoldable pub release_agent_run_execution_lock : ℕ → ℕ → LockTable → Option LockRow × LockTable
release_agent_run_execution_lock run_id owner t =
    update_found (t.rows run_id) run_id (can_release owner)
      (λ r. record r { run_lock_owner = none; run_lock_acquired_at = none; updated_at = t.now }) t

unfoldable pub refresh_agent_run_execution_lock : ℕ → ℕ → LockTable → Bool × LockTable
refresh_agent_run_execution_lock run_id owner t =
    let (row, t') =
      update_found (t.rows run_id) run_id (can_refresh owner)
        (λ r. record r { run_lock_acquired_at = some t.now; updated_at = t.now }) t in
    (is_some row, t')

-- The calls, and the time that passes between them.
pub data LockCall : Type 0 where
  tick : ℕ → LockCall
  acquire : ℕ → ℕ → Option ℕ → LockCall
  release : ℕ → ℕ → LockCall
  refresh : ℕ → ℕ → LockCall

abbrev pub lock_call : LockCall → LockTable → LockTable
lock_call (tick n) t = record t { now = t.now + n }
lock_call (acquire run_id owner stale) t = (acquire_agent_run_execution_lock run_id owner stale t).1
lock_call (release run_id owner) t = (release_agent_run_execution_lock run_id owner t).1
lock_call (refresh run_id owner) t = (refresh_agent_run_execution_lock run_id owner t).1

unfoldable pub lock_calls : List LockCall → LockTable → LockTable
lock_calls [] t = t
lock_calls (c ∷ cs) t = lock_calls cs (lock_call c t)
