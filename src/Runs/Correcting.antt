-- ===== src/Runs/Correcting.antt =====
-- Runs that the service cannot step as the graph means it: a correcting run, and a run that may
-- use no correction.
use deeprun.Prelude.{
  ℕ, zero, suc, ◌+◌, ◌≤◌, ◌<◌, ◌≡◌, refl, true, false, List, none, some, arith, any, Number, inl,
  inr, ◌∙◌,
}
use deeprun.Lifecycle.{Status, correcting, optimizing, goal, optimization}
use deeprun.Lifecycle.Graph.{run_edge}
use deeprun.Runs.Db.{Run, Step, Db, err, invalid_transition}
use deeprun.Runs.Store.{has_id, same_slot}
use deeprun.Runs.Service.{assert_transition, validate_run_invariants, goal_conditions_satisfied}
use deeprun.Runs.Step.{
  ExecuteStepInput, start_queued, step_started, step_found, execute_next_step, finish_at_limit,
  process_step,
}
use deeprun.Runs.Effects.{Does-at}
use deeprun.Runs.Stages.{started, counted, switched, completed, finished, is_exhausted}
use deeprun.Runs.Processed.{moved, after_step, process_step_lem}
use deeprun.Runs.Answer.{answer, answer_started, Blocked}
use deeprun.Runs.Execute.{IsOwned, locked, execute_next_step-answer}
use deeprun.Runs.Worker.{calls, is_going}

-- A correcting run in the optimization phase whose optimization steps are used up.
pub record IsStuck (r : Run) : Type 0 where
  pub correcting_eq : r.status ≡ correcting
  pub phase_eq : r.phase ≡ optimization
  pub steps_left : r.step_index < r.max_steps
  pub corrections_left : r.corrections_used < r.max_corrections
  pub optimizations_spent : r.max_optimizations ≤ r.optimization_steps_used

stuck_found :
    (input : ExecuteStepInput) (r : Run) (db : Db)
    → input.expected_step_index ≡ none
    → IsStuck r
    → step_found input (some r) db ≡ err (invalid_transition correcting Status.complete)
unfolding start_queued step_started validate_run_invariants finish_at_limit assert_transition
stuck_found input r db n s = ground arith

stuck_calls :
    (n : ℕ) (input : ExecuteStepInput) (r : Run) (db : Db)
    → IsOwned input r db
    → input.expected_step_index ≡ none
    → IsStuck r
    → calls n input db ≡ db
unfolding calls execute_next_step
stuck_calls zero input r db o u s = refl
stuck_calls (suc n) input r db o u s = rw (locked input r db o) (
    rw (stuck_found input r db u s) (
      stuck_calls n (record input { fresh = input.fresh + 1 }) r db
        (record { stored = o.stored; keyed = o.keyed; lifecycle = o.lifecycle; owned = o.owned }) u
        s))

-- Every call on such a run throws, by the assertion that `correcting` has no edge to `complete`,
-- and is rolled back: after any number of calls the database is what it was.
pub calls-IsStuck :
    (n : ℕ) (input : ExecuteStepInput) (r : Run) (db : Db)
    → IsOwned input r db
    → input.expected_step_index ≡ none
    → IsStuck r
    → ((execute_next_step input db).0 ≡ err (invalid_transition correcting Status.complete))
      × (calls n input db ≡ db)
unfolding execute_next_step
calls-IsStuck n input r db o u s =
    (rw (locked input r db o) (rw (stuck_found input r db u s)), stuck_calls n input r db o u s)

steps_on :
    (input : ExecuteStepInput) (r : Run) (db : Db)
    → input.expected_step_index ≡ none
    → r.status ≡ correcting
    → r.phase ≡ goal
    → r.step_index < r.max_steps
    → r.corrections_used < r.max_corrections
    → step_found input (some r) db ≡ process_step input r db
unfolding start_queued step_started validate_run_invariants
steps_on input r db u c p s k = ground arith

skipped_status :
    (c : Number) (now : ℕ) (r : Run)
    → r.phase ≡ goal
    → r.optimization_steps_used < r.max_optimizations
    → goal_conditions_satisfied c (counted now r) ≡ true
    → (is_exhausted (moved c now r) ≡ false) × ((after_step c now r).status ≡ optimizing)
unfolding after_step completed moved switched counted
skipped_status c now r p m g = (ground arith, ground arith)

-- A call takes a correcting run whose goal is reached to `optimizing`, which is no edge of the
-- graph and passes no assertion.
pub correcting_skips_edge :
    (input : ExecuteStepInput) (r : Run) (db : Db)
    → IsOwned input r db
    → input.expected_step_index ≡ none
    → r.status ≡ correcting
    → r.phase ≡ goal
    → r.step_index < r.max_steps
    → r.corrections_used < r.max_corrections
    → r.optimization_steps_used < r.max_optimizations
    → goal_conditions_satisfied input.configured (counted db.now r) ≡ true
    → any (has_id input.fresh) db.steps ≡ false
    → any (same_slot r.id r.step_index) db.steps ≡ false
    → (run_edge correcting optimizing ≡ false)
      × ((r' : Run) × ((execute_next_step input db).1.runs input.run_id ≡ some r')
          × (r'.status ≡ optimizing))
correcting_skips_edge input r db o u c p s k m g ids slot =
    let t = skipped_status input.configured db.now r p m g in
    let (db', e, w) =
      Does-at (process_step input r) db o.keyed
        (λ h. process_step_lem input r db.now db refl h ids slot (λ x. cc)) o.stored in
    unfold execute_next_step in
    rw (locked input r db o) (
      rw (steps_on input r db u c p s k)
        (rw e (refl, (after_step input.configured db.now r, w.stored, t.1))))

spent_answer :
    (input : ExecuteStepInput) (now : ℕ) (steps : List Step) (r : Run)
    → input.expected_step_index ≡ none
    → is_going r.status ≡ true
    → r.step_index < r.max_steps
    → r.max_corrections ≤ r.corrections_used
    → let a = answer input now steps r in
      (a.run.status ≡ Status.failed) × (a.run.step_index ≡ r.step_index) × (a.steps ≡ steps)
unfolding answer answer_started started validate_run_invariants finished
spent_answer input now steps r u g s c = (ground arith, ground arith, ground arith)

-- A run that may use no correction, or has used all of them, is failed by its next call, before
-- any step, where nothing makes the call throw: this holds for a new run that was created with a
-- limit of 0 corrections.
pub no_corrections_fails :
    (input : ExecuteStepInput) (r : Run) (db : Db)
    → IsOwned input r db
    → input.expected_step_index ≡ none
    → is_going r.status ≡ true
    → r.step_index < r.max_steps
    → r.max_corrections ≤ r.corrections_used
    → ¬ Blocked input r db.steps
    → (r' : Run) × ((execute_next_step input db).1.runs input.run_id ≡ some r')
      × (r'.status ≡ Status.failed)
      × (r'.step_index ≡ r.step_index)
      × ((execute_next_step input db).1.steps ≡ db.steps)
no_corrections_fails input r db o u g s c free = elim (execute_next_step-answer input r db o) [
  | inr (x, e, same, why) ↦ absurd (free why)
  | inl (e, w) ↦
      let (f, i, t) = spent_answer input db.now db.steps r u g s c in
      ((answer input db.now db.steps r).run, w.stored, f, i, w.steps_eq ∙ t)
]
