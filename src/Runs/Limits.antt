-- ===== src/Runs/Limits.antt =====
-- The limits of a run under executeNextStep, and the progress that each call makes.
use deeprun.Prelude.{
  ℕ, ◌+◌, ◌≤◌, ◌<◌, ◌≡◌, refl, true, List, Option, none, some, arith, Number, Bool-cases, inl, inr,
  ◌==◌, if◌then◌else◌,
}
use deeprun.Lifecycle.{Status, cancelled, same_status, is_optimization}
use deeprun.Runs.Db.{Message, Run, Step, Db}
use deeprun.Runs.Service.{
  InvariantResult, invariants_ok, next_failed, next_complete, validate_run_invariants,
}
use deeprun.Runs.Step.{ExecuteStepInput, is_runnable, execute_next_step}
use deeprun.Runs.Stages.{started, counted, switched, completed, finished}
use deeprun.Runs.Processed.{moved, after_step}
use deeprun.Runs.Answer.{limit_answer, expected_answer, answer_started, answer}
use deeprun.Runs.Execute.{IsOwned, execute_next_step-answer}

pub record WithinLimits (r : Run) : Type 0 where
  pub steps_within : r.step_index ≤ r.max_steps
  pub optimizations_within : r.optimization_steps_used ≤ r.max_optimizations

-- What a call never changes.
pub record SameRun (r r' : Run) : Type 0 where
  pub id_eq : r'.id ≡ r.id
  pub project_eq : r'.project_id ≡ r.project_id
  pub machine_eq : r'.state_machine ≡ r.state_machine
  pub max_steps_eq : r'.max_steps ≡ r.max_steps
  pub max_corrections_eq : r'.max_corrections ≡ r.max_corrections
  pub max_optimizations_eq : r'.max_optimizations ≡ r.max_optimizations
  pub corrections_eq : r'.corrections_used ≡ r.corrections_used

SameRun-refl : (r : Run) → SameRun r r
SameRun-refl r = ground arith

counted-SameRun : (now : ℕ) (r : Run) → SameRun r (counted now r)
unfolding counted
counted-SameRun now r = ground arith

switched-SameRun : (c : Number) (now : ℕ) (r : Run) → SameRun r (switched c now r)
unfolding switched
switched-SameRun c now r = ground arith

completed-SameRun : (now : ℕ) (r : Run) → SameRun r (completed now r)
unfolding completed
completed-SameRun now r = ground arith

SameRun-trans : {a b c : Run} → SameRun a b → SameRun b c → SameRun a c
SameRun-trans p q = ground arith

pub after_step-SameRun : (c : Number) (now : ℕ) (r : Run) → SameRun r (after_step c now r)
unfolding after_step moved
after_step-SameRun c now r = SameRun-trans (counted-SameRun now r) (
    SameRun-trans (switched-SameRun c now (counted now r))
      (completed-SameRun now (switched c now (counted now r))))

-- A processed step counts once.
pub after_step-step_index :
    (c : Number) (now : ℕ) (r : Run) → (after_step c now r).step_index ≡ r.step_index + 1
unfolding after_step moved completed switched counted
after_step-step_index c now r = ground arith

after_step-optimizations :
    (c : Number) (now : ℕ) (r : Run)
    → (after_step c now r).optimization_steps_used ≡ (
        if is_optimization r.phase
        then r.optimization_steps_used + 1
        else r.optimization_steps_used)
unfolding after_step moved completed switched counted
after_step-optimizations c now r = ground arith

pub invariants_ok-bounds :
    (r : Run)
    → validate_run_invariants r ≡ invariants_ok
    → (r.step_index < r.max_steps)
      × (is_optimization r.phase ≡ true → r.optimization_steps_used < r.max_optimizations)
unfolding validate_run_invariants
invariants_ok-bounds r h = ground arith

after_step-WithinLimits :
    (c : Number) (now : ℕ) (r : Run)
    → validate_run_invariants r ≡ invariants_ok
    → WithinLimits r
    → WithinLimits (after_step c now r)
after_step-WithinLimits c now r ok v =
    let same = after_step-SameRun c now r in
    let (s, o) = invariants_ok-bounds r ok in
    ground (arith, after_step-step_index c now r, after_step-optimizations c now r)

-- What one call does to the run: the run and its limits stay, and the limits are kept.
abbrev Keeps : Run → Run → Type 0
Keeps r r' = SameRun r r' × (WithinLimits r → WithinLimits r')

finished-SameRun :
    (next : Status) (m : Option Message) (now : ℕ) (r : Run) → SameRun r (finished next m now r)
unfolding finished
finished-SameRun next m now r = ground arith

finished-Keeps :
    (next : Status) (m : Option Message) (now : ℕ) (r : Run) → Keeps r (finished next m now r)
unfolding finished
finished-Keeps next m now r = (finished-SameRun next m now r, λ v. ground arith)

limit-Keeps :
    (input : ExecuteStepInput) (now : ℕ) (steps : List Step) (r : Run) (i : InvariantResult)
    → validate_run_invariants r ≡ i
    → Keeps r (limit_answer input now steps r i).run
limit-Keeps input now steps r invariants_ok e =
    (after_step-SameRun input.configured now r, after_step-WithinLimits input.configured now r e)
limit-Keeps input now steps r (next_complete m) e = finished-Keeps Status.complete none now r
limit-Keeps input now steps r (next_failed m) e = finished-Keeps Status.failed (some m) now r

expected-Keeps :
    (input : ExecuteStepInput) (now : ℕ) (steps : List Step) (r : Run) (o : Option ℕ)
    → Keeps r (expected_answer input now steps r o).run
expected-Keeps input now steps r none =
    limit-Keeps input now steps r (validate_run_invariants r) refl
expected-Keeps input now steps r (some k) = elim (Bool-cases (r.step_index == k)) [
  | inl e ↦ rw e (limit-Keeps input now steps r (validate_run_invariants r) refl)
  | inr e ↦ rw e (SameRun-refl r, λ v. v)
]

started-Keeps :
    (input : ExecuteStepInput) (now : ℕ) (steps : List Step) (r : Run)
    → Keeps r (answer_started input now steps r).run
unfolding answer_started
started-Keeps input now steps r = elim (Bool-cases (same_status r.status cancelled)) [
  | inl e ↦ rw e (SameRun-refl r, λ v. v)
  | inr e ↦ elim (Bool-cases (is_runnable r.status)) [
    | inl w ↦ rw (e, w) (expected-Keeps input now steps r input.expected_step_index)
    | inr w ↦ rw (e, w) (SameRun-refl r, λ v. v)
  ]
]

start-SameRun : (now : ℕ) (r : Run) → SameRun r (started now r)
unfolding started
start-SameRun now r = ground arith

start-WithinLimits : (now : ℕ) (r : Run) → WithinLimits r → WithinLimits (started now r)
unfolding started
start-WithinLimits now r v = ground arith

pub answer-Keeps :
    (input : ExecuteStepInput) (now : ℕ) (steps : List Step) (r : Run)
    → Keeps r (answer input now steps r).run
unfolding answer
answer-Keeps input now steps r =
    let (s, k) = started-Keeps input now steps (started now r) in
    (SameRun-trans (start-SameRun now r) s, λ v. k (start-WithinLimits now r v))

-- A call, whether it answers or throws, keeps the run's identity and limits and the counter of
-- corrections, and keeps the step index and the optimization steps within their limits.
pub execute_next_step-WithinLimits :
    (input : ExecuteStepInput) (r : Run) (db : Db)
    → IsOwned input r db
    → WithinLimits r
    → (r' : Run) × ((execute_next_step input db).1.runs input.run_id ≡ some r')
      × SameRun r r'
      × WithinLimits r'
execute_next_step-WithinLimits input r db o v = elim (execute_next_step-answer input r db o) [
  | inl (e, w) ↦
      let (s, k) = answer-Keeps input db.now db.steps r in
      ((answer input db.now db.steps r).run, w.stored, s, k v)
  | inr (x, e, unchanged, why) ↦ (r, rw unchanged o.stored, SameRun-refl r, v)
]
