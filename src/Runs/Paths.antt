-- ===== src/Runs/Paths.antt =====
-- The statuses that executeNextStep moves through, against the graph of agent/lifecycle-graph.ts.
use mathlib.Core.Path.{subst, sym}
use deeprun.Prelude.{
  ℕ, ◌≡◌, refl, true, false, List, Option, none, some, arith, Number, Bool-cases, inl, inr, ◌⊎◌,
  ◌∙◌, ◌==◌,
}
use deeprun.Lifecycle.{Status, correcting, optimizing, cancelled, same_status}
use deeprun.Lifecycle.Graph.{run_edge}
use deeprun.Runs.Db.{Run, Step, Db}
use deeprun.Runs.Service.{
  InvariantResult, invariants_ok, next_failed, next_complete, validate_run_invariants,
}
use deeprun.Runs.Step.{ExecuteStepInput, is_runnable, execute_next_step}
use deeprun.Runs.Stages.{started, finished}
use deeprun.Runs.Processed.{after_step}
use deeprun.Runs.Answer.{limit_answer, expected_answer, answer_started, answer}
use deeprun.Runs.Answered.{moved-status, after_step-status}
use deeprun.Runs.Execute.{IsOwned, execute_next_step-answer}

-- The statuses that a step of the run can set.
pub data Target : Status → Type 0 where
  to_optimizing : Target optimizing
  to_complete : Target Status.complete
  to_failed : Target Status.failed

-- What one call makes of a status: nothing; or one edge of the graph, from running or optimizing to
-- a status of `Target`; where a queued run is first set to running.
pub data StepsTo : Status → Status → Type 0 where
  stays : {s : Status} → StepsTo s s
  moves :
      {s t : Status}
      → (s ≡ Status.running) ⊎ (s ≡ optimizing)
      → run_edge s t ≡ true
      → Target t
      → StepsTo s t
  begins :
      {t : Status}
      → run_edge Status.queued Status.running ≡ true
      → StepsTo Status.running t
      → StepsTo Status.queued t

-- Where a stepped run can end.
data Ends (s : Status) : Status → Type 0 where
  same : Ends s s
  target : {t : Status} → Target t → Ends s t

runnable-StepsTo :
    {t : Status} (s : Status)
    → is_runnable s ≡ true
    → same_status s correcting ≡ false
    → Ends s t
    → StepsTo s t
runnable-StepsTo s w c same = stays
runnable-StepsTo Status.running w c (target to_optimizing) = moves (inl refl) refl to_optimizing
runnable-StepsTo Status.running w c (target to_complete) = moves (inl refl) refl to_complete
runnable-StepsTo Status.running w c (target to_failed) = moves (inl refl) refl to_failed
runnable-StepsTo optimizing w c (target to_optimizing) = stays
runnable-StepsTo optimizing w c (target to_complete) = moves (inr refl) refl to_complete
runnable-StepsTo optimizing w c (target to_failed) = moves (inr refl) refl to_failed
runnable-StepsTo _ w c _ = cc

after_step-Ends : (c : Number) (now : ℕ) (r : Run) → Ends r.status (after_step c now r).status
after_step-Ends c now r = elim (after_step-status c now r) [
  | inl e ↦ subst (Ends r.status) (sym e) (target to_complete)
  | inr e ↦ elim (moved-status c now r) [
    | inl m ↦ subst (Ends r.status) (sym (e ∙ m)) (target to_optimizing)
    | inr m ↦ subst (Ends r.status) (sym (e ∙ m)) same
  ]
]

limit-Ends :
    (input : ExecuteStepInput) (now : ℕ) (steps : List Step) (r : Run) (i : InvariantResult)
    → Ends r.status (limit_answer input now steps r i).run.status
unfolding finished
limit-Ends input now steps r invariants_ok = after_step-Ends input.configured now r
limit-Ends input now steps r (next_complete m) = target to_complete
limit-Ends input now steps r (next_failed m) = target to_failed

expected-Ends :
    (input : ExecuteStepInput) (now : ℕ) (steps : List Step) (r : Run) (o : Option ℕ)
    → Ends r.status (expected_answer input now steps r o).run.status
expected-Ends input now steps r none = limit-Ends input now steps r (validate_run_invariants r)
expected-Ends input now steps r (some k) = elim (Bool-cases (r.step_index == k)) [
  | inl e ↦ rw e (limit-Ends input now steps r (validate_run_invariants r))
  | inr e ↦ rw e same
]

started-StepsTo :
    (input : ExecuteStepInput) (now : ℕ) (steps : List Step) (r : Run)
    → same_status r.status correcting ≡ false
    → StepsTo r.status (answer_started input now steps r).run.status
unfolding answer_started
started-StepsTo input now steps r c = elim (Bool-cases (same_status r.status cancelled)) [
  | inl e ↦ rw e stays
  | inr e ↦ elim (Bool-cases (is_runnable r.status)) [
    | inl w ↦
        rw (e, w)
          (runnable-StepsTo r.status w c
            (expected-Ends input now steps r input.expected_step_index))
    | inr w ↦ rw (e, w) stays
  ]
]

begun :
    {t : Status} (s : Status)
    → same_status s Status.queued ≡ true
    → StepsTo Status.running t
    → StepsTo s t
begun Status.queued q p = begins refl p
begun _ q p = cc

start-StepsTo :
    (now : ℕ) (r : Run) {t : Status} → StepsTo (started now r).status t → StepsTo r.status t
unfolding started
start-StepsTo now r p = elim (Bool-cases (same_status r.status Status.queued)) [
  | inl q ↦ begun r.status q (rw q at p)
  | inr q ↦ rw q at p
]

started-correcting :
    (now : ℕ) (r : Run)
    → same_status r.status correcting ≡ false
    → same_status (started now r).status correcting ≡ false
unfolding started
started-correcting now r c = ground arith

-- A call on a run that is not correcting, whether it answers or throws, leaves the status as it is,
-- or moves it along one edge of the lifecycle graph, from running or optimizing to optimizing,
-- complete or failed; a queued run is set to running first, by the edge of the graph, and then stays
-- running or moves so.
pub execute_next_step-StepsTo :
    (input : ExecuteStepInput) (r : Run) (db : Db)
    → IsOwned input r db
    → same_status r.status correcting ≡ false
    → let db' = (execute_next_step input db).1 in
      (r' : Run) × (db'.runs input.run_id ≡ some r') × StepsTo r.status r'.status
execute_next_step-StepsTo input r db o c = elim (execute_next_step-answer input r db o) [
  | inl (e, w) ↦ (
    (answer input db.now db.steps r).run,
    w.stored,
    start-StepsTo db.now r (
        unfold answer in
        started-StepsTo input db.now db.steps (started db.now r) (started-correcting db.now r c)),
  )
  | inr (x, e, unchanged, why) ↦ (r, rw unchanged o.stored, stays)
]
