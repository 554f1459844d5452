-- ===== src/RunLocks/Tests.antt =====
-- Locks of a run with the calls on them (lib/project-store.ts).
use deeprun.Prelude.{
  ◌≡◌, refl, ◌==◌, true, false, List, [], ◌∷◌, none, some, if◌then◌else◌, arith, inl, inr, is_some,
}
use deeprun.RunLocks.Model.{
  LockRow, LockTable, LockCall, tick, acquire, release, refresh, lock_calls,
  acquire_agent_run_execution_lock, release_agent_run_execution_lock,
  refresh_agent_run_execution_lock,
}
use deeprun.RunLocks.Exclusion.{lock_excludes}

abbrev held : LockRow
held = record {
  state_machine = false;
  run_lock_owner = some 7;
  run_lock_acquired_at = some 100;
  updated_at = 100;
}

abbrev table : LockTable
table = record { rows = λ k. if k == 1 then some held else none; now = 200 }

abbrev others : List LockCall
others =
    acquire 1 8 none
    ∷ tick 500
    ∷ release 1 8
    ∷ acquire 2 7 (some 0)
    ∷ refresh 1 9
    ∷ acquire 1 9 (some 3600)
    ∷ []

lock_excludes_example : (lock_calls others table).rows 1 ≡ some held
lock_excludes_example =
    lock_excludes others 1 7 1800 100 table held refl (refl, refl)
      (
        inr (refl, omega arith),
        (tt, (inr refl, (inl refl, (inr refl, (inr (refl, omega arith), tt))))),
      )
      (omega arith)

-- A lock of 100 seconds is stale for a caller that waits for 30.
stolen : is_some (acquire_agent_run_execution_lock 1 8 (some 20) table).0 ≡ true
unfolding acquire_agent_run_execution_lock
stolen = refl

stale_refresh : (refresh_agent_run_execution_lock 1 8 table).0 ≡ false
unfolding refresh_agent_run_execution_lock
stale_refresh = refl

not_released : is_some (release_agent_run_execution_lock 1 8 table).0 ≡ false
unfolding release_agent_run_execution_lock
not_released = refl
