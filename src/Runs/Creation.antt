-- ===== src/Runs/Creation.antt =====
-- createRun: clamped limits, and a created run that the worker ends.
use deeprun.Prelude.{ℕ, ◌≤◌, ◌≡◌, refl, true, false, none, some, arith, any, Number, ==_refl}
use deeprun.Lifecycle.{Status}
use deeprun.Runs.Db.{Run, Db, ok, set_at}
use deeprun.Runs.Store.{has_id, same_slot, created_run, create_lifecycle_run}
use deeprun.Runs.Service.{CreateStateRunInput, create_input, create_run, normalize_limit}
use deeprun.Runs.Limits.{WithinLimits}
use deeprun.Runs.Worker.{calls, calls-ended, is_ended}

normalize_limit_bounds :
    (n : Number) (fallback lo hi : ℕ)
    → lo ≤ fallback
    → fallback ≤ hi
    → (lo ≤ normalize_limit n fallback lo hi) × (normalize_limit n fallback lo hi ≤ hi)
unfolding normalize_limit
normalize_limit_bounds Number.not_finite fallback lo hi a b = (a, b)
normalize_limit_bounds (Number.nonneg n) fallback lo hi a b = (omega arith, omega arith)
normalize_limit_bounds (Number.neg n) fallback lo hi a b = (omega arith, omega arith)

-- With an unused id the run is stored, queued, at step 0 and within its limits, whatever numbers
-- the caller gives: 1 to 1000 steps, at most 100 corrections and 100 optimizations.
pub create_run-bounds :
    (run_id : ℕ) (input : CreateStateRunInput) (db : Db)
    → db.runs run_id ≡ none
    → (r : Run) × (db' : Db) × (create_run run_id input db ≡ ok (r, db'))
      × (db'.runs run_id ≡ some r)
      × (db'.steps ≡ db.steps)
      × (r.id ≡ run_id)
      × (r.project_id ≡ input.project_id)
      × (r.state_machine ≡ true)
      × (r.status ≡ Status.queued)
      × (r.step_index ≡ 0)
      × ((1 ≤ r.max_steps) × (r.max_steps ≤ 1000))
      × (r.max_corrections ≤ 100)
      × (r.max_optimizations ≤ 100)
      × WithinLimits r
unfolding create_run create_input create_lifecycle_run
create_run-bounds run_id input db h =
    let s = normalize_limit_bounds input.max_steps 20 1 1000 (omega arith) (omega arith) in
    let c = normalize_limit_bounds input.max_corrections 2 0 100 (omega arith) (omega arith) in
    let o = normalize_limit_bounds input.max_optimizations 2 0 100 (omega arith) (omega arith) in
    let r = created_run run_id (create_input input) db.now in
    (
      r,
      record db { runs = set_at run_id r db.runs },
      rw h,
      rw (==_refl run_id),
      refl,
      refl,
      refl,
      refl,
      refl,
      refl,
      s,
      c.1,
      o.1,
      omega arith,
    )

-- From a database with no trace of the new run's id, and step ids that are fresh from `base` on, a
-- created run has ended after 1001 calls of executeNextStep, whatever limits the caller asked for.
pub create_run-ends :
    (run_id base : ℕ) (input : CreateStateRunInput) (configured : Number) (db : Db)
    → db.runs run_id ≡ none
    → ((k : ℕ) → any (same_slot run_id k) db.steps ≡ false)
    → ((k : ℕ) → base ≤ k → any (has_id k) db.steps ≡ false)
    → (r r' : Run) × (db' : Db) × (create_run run_id input db ≡ ok (r, db'))
      × ((calls 1001
              (record {
                project_id = input.project_id;
                run_id = run_id;
                expected_step_index = none;
                fresh = base;
                configured = configured;
              })
              db').runs
            run_id
          ≡ some r')
      × (is_ended r'.status ≡ true)
create_run-ends run_id base input configured db h slots ids =
    let (r, db', e, stored, steps, id, project, machine, status, index, (lo, hi), c, o, v) =
      create_run-bounds run_id input db h in
    let (r', s, ended) =
      calls-ended 1001
        (record {
          project_id = input.project_id;
          run_id = run_id;
          expected_step_index = none;
          fresh = base;
          configured = configured;
        })
        r db'
        (record {
          owned = record { stored = stored; keyed = id; lifecycle = machine; owned = project };
          unexpecting = refl;
          going = rw status;
          slots = λ k b. rw (steps, id) (slots k);
          ids = λ k b. rw steps (ids k b);
        })
        (omega arith) in
    (r, r', db', e, s, ended)
