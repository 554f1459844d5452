-- ===== src/Runs/Stages.antt =====
-- Each stage of executeNextStep as a function of the run alone, and the proof that the stage, run
-- on a database that stores the run, stores and returns just that.
use deeprun.Prelude.{
  ℕ, ◌+◌, ◌≡◌, refl, Bool, true, false, ◌&&◌, Option, none, some, arith, Bool-cases, inl, inr,
  if◌then◌else◌, leb, or_else, Number,
}
use deeprun.Lifecycle.{Status, optimizing, optimization, is_goal, is_optimization, same_status}
use deeprun.Lifecycle.Graph.{run_edge}
use deeprun.Runs.Db.{Run, Db, pure, ◌>>=◌, ◌>>◌, Message}
use deeprun.Runs.Store.{RunPatch, no_patch, has_assignments, patched, update_lifecycle_run}
use deeprun.Runs.Service.{assert_transition, goal_conditions_satisfied}
use deeprun.Runs.Step.{
  start_queued, step_type_of, count_step, switch_phase, complete_exhausted, skip, finish_at_limit,
}
use deeprun.Runs.Effects.{Does, Does-pure, Does-update, Does-bind, Does-write, Does-assert}

unfoldable pub started : ℕ → Run → Run
started now r =
    if same_status r.status Status.queued
    then patched (record no_patch { status = some Status.running }) now r
    else r

abbrev next_index : Run → RunPatch
next_index r = record no_patch { step_index = some (r.step_index + 1) }

abbrev next_optimization : Run → RunPatch
next_optimization r = record no_patch {
  optimization_steps_used = some (r.optimization_steps_used + 1);
}

abbrev finishing : Status → Option Message → RunPatch
finishing next message = record no_patch { status = some next; error_message = some message }

unfoldable pub counted : ℕ → Run → Run
counted now r =
    let next = patched (next_index r) now r in
    if is_optimization r.phase then patched (next_optimization next) now next else next

unfoldable pub switched : Number → ℕ → Run → Run
switched configured now r =
    if is_goal r.phase && goal_conditions_satisfied configured r
    then patched (record no_patch { phase = some optimization; status = some optimizing }) now r
    else r

abbrev pub is_exhausted : Run → Bool
is_exhausted r = is_optimization r.phase && leb r.max_optimizations r.optimization_steps_used

unfoldable pub completed : ℕ → Run → Run
completed now r = if is_exhausted r then patched (finishing Status.complete none) now r else r

unfoldable pub finished : Status → Option Message → ℕ → Run → Run
finished next message now r = patched (finishing next message) now r

-- Where the stored run is updated and the answer is the updated run.
Does-replace :
    (p : RunPatch) (id : ℕ) (r fallback : Run) (db : Db)
    → has_assignments p ≡ true
    → db.runs id ≡ some r
    → Does
        (do updated ← update_lifecycle_run id p; pure (or_else updated fallback))
        (patched p db.now r)
        id
        (patched p db.now r)
        db.steps
        db
Does-replace p id r fallback db a h =
    Does-bind (update_lifecycle_run id p) (λ updated. pure (or_else updated fallback)) db
      (Does-update id p r db a h)
      (λ db' s e n. rw (← e) (Does-pure (patched p db.now r) id (patched p db.now r) db' s))

-- The same after an assertion that holds.
Does-transition :
    (p : RunPatch) (a b : Status) (id : ℕ) (r fallback : Run) (db : Db)
    → run_edge a b ≡ true
    → has_assignments p ≡ true
    → db.runs id ≡ some r
    → Does
        (do
          assert_transition a b
          updated ← update_lifecycle_run id p
          pure (or_else updated fallback))
        (patched p db.now r)
        id
        (patched p db.now r)
        db.steps
        db
Does-transition p a b id r fallback db e has h =
    Does-assert a b _ db e (Does-replace p id r fallback db has h)

pub queued-running_edge :
    (s : Status) → same_status s Status.queued ≡ true → run_edge s Status.running ≡ true
queued-running_edge s h = ground arith

pub start_queued_lem :
    (r : Run) (db : Db)
    → db.runs r.id ≡ some r
    → Does (start_queued r) (started db.now r) r.id (started db.now r) db.steps db
unfolding start_queued started
start_queued_lem r db h = elim (Bool-cases (same_status r.status Status.queued)) [
  | inl q ↦ rw q (
      Does-transition _ r.status Status.running r.id r r db (queued-running_edge r.status q) refl h)
  | inr q ↦ rw q (Does-pure r r.id r db h)
]

pub count_step_lem :
    (r : Run) (db : Db)
    → db.runs r.id ≡ some r
    → Does (count_step (step_type_of r) r) (counted db.now r) r.id (counted db.now r) db.steps db
unfolding count_step counted
count_step_lem r db h = elim (Bool-cases (is_optimization r.phase)) [
  | inl o ↦ rw o (
      Does-write r.id (next_index r) r db _ refl h (λ db' s e n.
        rw (← e, ← n)
          (Does-replace (next_optimization r) r.id (patched (next_index r) db'.now r) _ db' refl
            (rw n s))))
  | inr g ↦ rw g (
      Does-write r.id (next_index r) r db _ refl h
        (λ db' s e n. rw (← e) (Does-pure _ r.id _ db' s)))
]

pub switch_phase_lem :
    (configured : Number) (r : Run) (db : Db)
    → db.runs r.id ≡ some r
    → Does
        (switch_phase configured r)
        (switched configured db.now r)
        r.id
        (switched configured db.now r)
        db.steps
        db
unfolding switch_phase switched
switch_phase_lem configured r db h =
    elim (Bool-cases (is_goal r.phase && goal_conditions_satisfied configured r)) [
      | inl q ↦ rw q (Does-replace _ r.id r r db refl h)
      | inr q ↦ rw q (Does-pure r r.id r db h)
    ]

pub complete_exhausted_lem :
    (r : Run) (db : Db)
    → db.runs r.id ≡ some r
    → (is_exhausted r ≡ true → run_edge r.status Status.complete ≡ true)
    → Does (complete_exhausted r) (completed db.now r) r.id (completed db.now r) db.steps db
unfolding complete_exhausted completed
complete_exhausted_lem r db h edge = elim (Bool-cases (is_exhausted r)) [
  | inl q ↦ rw q (Does-transition _ r.status Status.complete r.id r r db (edge q) refl h)
  | inr q ↦ rw q (Does-pure r r.id r db h)
]

pub finish_at_limit_lem :
    (r : Run) (next : Status) (message : Option Message) (reason : Message) (db : Db)
    → db.runs r.id ≡ some r
    → run_edge r.status next ≡ true
    → let r' = finished next message db.now r in
      Does (finish_at_limit r next message reason) (skip r' false reason) r.id r' db.steps db
unfolding finish_at_limit finished
finish_at_limit_lem r next message reason db h edge = Does-assert r.status next _ db edge (
    Does-write r.id (finishing next message) r db
      (λ updated. pure (skip (or_else updated r) false reason)) refl h
      (λ db' s e n. rw (← e) (Does-pure _ r.id _ db' s)))
