-- ===== src/Runs/Tests.antt =====
-- The theorems on runs at a small database, and runs of the code on it.
use deeprun.Prelude.{
  ℕ, ◌≤◌, ◌≡◌, ◌≢◌, refl, true, false, [], Option, none, some, arith, nonneg, not_finite, ◌⊎◌,
}
use deeprun.Lifecycle.{Status, correcting, optimizing, cancelled, goal, optimization}
use deeprun.Lifecycle.Graph.{run_edge}
use deeprun.Runs.Db.{Error, Run, Db, ok, err, invalid_transition, set_at}
use deeprun.Runs.Store.{
  lock_lifecycle_run_for_update, update_lifecycle_run, create_lifecycle_step, update_lifecycle_step,
}
use deeprun.Runs.Service.{
  assert_transition, validate_run_invariants, CreateStateRunInput, create_run,
  transition_run_status, resume_run, goal_conditions_satisfied,
}
use deeprun.Runs.Step.{
  ExecuteStepInput, start_queued, step_started, process_step, record_step, count_step, switch_phase,
  complete_exhausted, execute_next_step,
}
use deeprun.Runs.Effects.{Writes}
use deeprun.Runs.Stages.{counted}
use deeprun.Runs.Answer.{answer, Blocked, id_taken, slot_taken, is_correcting}
use deeprun.Runs.Execute.{IsOwned, execute_next_step-answer}
use deeprun.Runs.Paths.{StepsTo, execute_next_step-StepsTo}
use deeprun.Runs.Limits.{WithinLimits, SameRun, execute_next_step-WithinLimits}
use deeprun.Runs.Worker.{calls, is_ended, calls-ended}
use deeprun.Runs.Transitions.{IsStored, moved_to, transition_run_status-cases, resume_run-cases}
use deeprun.Runs.Creation.{create_run-bounds, create_run-ends}
use deeprun.Runs.Correcting.{calls-IsStuck, correcting_skips_edge, no_corrections_fails}

abbrev sample : Run
sample = record {
  id = 7;
  project_id = 3;
  graph_id = 1;
  goal = [];
  state_machine = true;
  phase = goal;
  status = Status.queued;
  step_index = 0;
  current_step_index = 0;
  corrections_used = 0;
  optimization_steps_used = 0;
  max_steps = 4;
  max_corrections = 2;
  max_optimizations = 1;
  error_message = none;
  created_at = 50;
  updated_at = 50;
}

abbrev db_of : Run → Db
db_of r = record { runs = set_at 7 r (λ _. none); steps = []; now = 100 }

abbrev input : ExecuteStepInput
input = record {
  project_id = 3;
  run_id = 7;
  expected_step_index = none;
  fresh = 20;
  configured = nonneg 2;
}

sample-IsOwned : IsOwned input sample (db_of sample)
sample-IsOwned = record { stored = refl; keyed = refl; lifecycle = refl; owned = refl }

abbrev run_at : ℕ → Db → Option Status
run_at k db = elim (db.runs k) [ none ↦ none | some r ↦ some r.status ]

-- Two goal steps and one optimization step complete the run.
sample_completes : run_at 7 (calls 3 input (db_of sample)) ≡ some Status.complete
unfolding calls execute_next_step lock_lifecycle_run_for_update start_queued assert_transition
    update_lifecycle_run step_started validate_run_invariants process_step record_step
    create_lifecycle_step update_lifecycle_step count_step switch_phase goal_conditions_satisfied
    complete_exhausted
sample_completes = refl

execute_next_step-answer_example :
    let (result, db') = execute_next_step input (db_of sample) in
    let a = answer input 100 [] sample in
    ((result ≡ ok a.output) × Writes 7 a.run a.steps (db_of sample) db')
    ⊎ ((e : Error) × (result ≡ err e) × (db' ≡ db_of sample) × Blocked input sample [])
execute_next_step-answer_example =
    execute_next_step-answer input sample (db_of sample) sample-IsOwned

execute_next_step-StepsTo_example :
    (r' : Run) × ((execute_next_step input (db_of sample)).1.runs 7 ≡ some r')
    × StepsTo Status.queued r'.status
execute_next_step-StepsTo_example =
    execute_next_step-StepsTo input sample (db_of sample) sample-IsOwned refl

execute_next_step-WithinLimits_example :
    (r' : Run) × ((execute_next_step input (db_of sample)).1.runs 7 ≡ some r')
    × SameRun sample r'
    × WithinLimits r'
execute_next_step-WithinLimits_example =
    execute_next_step-WithinLimits input sample (db_of sample) sample-IsOwned (omega arith)

calls-ended_example :
    (r' : Run) × ((calls 5 input (db_of sample)).runs 7 ≡ some r') × (is_ended r'.status ≡ true)
calls-ended_example =
    calls-ended 5 input sample (db_of sample)
      (record {
        owned = sample-IsOwned;
        unexpecting = refl;
        going = refl;
        slots = λ k b. refl;
        ids = λ k b. refl;
      })
      (omega arith)

sample-IsStored : IsStored 7 sample (db_of sample)
sample-IsStored = record { stored = refl; keyed = refl; lifecycle = refl }

transition_run_status-cases_example :
    let (result, db') = transition_run_status 3 7 cancelled none (db_of sample) in
    let r' = moved_to cancelled none 100 sample in
    ((sample.project_id ≡ 3)
      × (run_edge Status.queued cancelled ≡ true)
      × (result ≡ ok r')
      × Writes 7 r' [] (db_of sample) db')
    ⊎ (((sample.project_id ≢ 3) ⊎ (run_edge Status.queued cancelled ≡ false))
        × ((e : Error) × (result ≡ err e))
        × (db' ≡ db_of sample))
transition_run_status-cases_example =
    transition_run_status-cases 3 7 cancelled none sample (db_of sample) sample-IsStored

resume_run-cases_example :
    let (result, db') = resume_run 3 7 (db_of sample) in
    let r' = moved_to Status.queued (some none) 100 sample in
    ((sample.project_id ≡ 3)
      × ((Status.queued ≡ cancelled) ⊎ (Status.queued ≡ Status.failed))
      × (result ≡ ok r')
      × Writes 7 r' [] (db_of sample) db')
    ⊎ (((sample.project_id ≢ 3) ⊎ ((Status.queued ≢ cancelled) × (Status.queued ≢ Status.failed)))
        × ((e : Error) × (result ≡ err e))
        × (db' ≡ db_of sample))
resume_run-cases_example = resume_run-cases 3 7 sample (db_of sample) sample-IsStored

abbrev request : CreateStateRunInput
request = record {
  project_id = 3;
  graph_id = 1;
  goal = [];
  max_steps = nonneg 5000;
  max_corrections = nonneg 2;
  max_optimizations = not_finite;
}

abbrev empty_db : Db
empty_db = record { runs = λ _. none; steps = []; now = 100 }

create_run-bounds_example :
    (r : Run) × (db' : Db) × (create_run 7 request empty_db ≡ ok (r, db'))
    × (db'.runs 7 ≡ some r)
    × (db'.steps ≡ [])
    × (r.id ≡ 7)
    × (r.project_id ≡ 3)
    × (r.state_machine ≡ true)
    × (r.status ≡ Status.queued)
    × (r.step_index ≡ 0)
    × ((1 ≤ r.max_steps) × (r.max_steps ≤ 1000))
    × (r.max_corrections ≤ 100)
    × (r.max_optimizations ≤ 100)
    × WithinLimits r
create_run-bounds_example = create_run-bounds 7 request empty_db refl

create_run-ends_example :
    (r r' : Run) × (db' : Db) × (create_run 7 request empty_db ≡ ok (r, db'))
    × ((calls 1001 input db').runs 7 ≡ some r')
    × (is_ended r'.status ≡ true)
create_run-ends_example =
    create_run-ends 7 20 request (nonneg 2) empty_db refl (λ k. refl) (λ k b. refl)

abbrev stuck : Run
stuck = record sample {
  status = correcting;
  phase = optimization;
  step_index = 3;
  optimization_steps_used = 1;
}

calls-IsStuck_example :
    ((execute_next_step input (db_of stuck)).0
      ≡ err (invalid_transition correcting Status.complete))
    × (calls 9 input (db_of stuck) ≡ db_of stuck)
calls-IsStuck_example =
    calls-IsStuck 9 input stuck (db_of stuck)
      (record { stored = refl; keyed = refl; lifecycle = refl; owned = refl }) refl
      (record {
        correcting_eq = refl;
        phase_eq = refl;
        steps_left = omega arith;
        corrections_left = omega arith;
        optimizations_spent = omega arith;
      })

abbrev corrected : Run
corrected = record sample { status = correcting; step_index = 1 }

correcting_skips_edge_example :
    (run_edge correcting optimizing ≡ false)
    × ((r' : Run) × ((execute_next_step input (db_of corrected)).1.runs 7 ≡ some r')
        × (r'.status ≡ optimizing))
correcting_skips_edge_example =
    correcting_skips_edge input corrected (db_of corrected)
      (record { stored = refl; keyed = refl; lifecycle = refl; owned = refl }) refl refl refl
      (omega arith) (omega arith) (omega arith) (unfold goal_conditions_satisfied counted in refl)
      refl refl

abbrev uncorrectable : Run
uncorrectable = record sample { max_corrections = 0 }

uncorrectable_free : ¬ Blocked input uncorrectable []
uncorrectable_free (id_taken h) = cc
uncorrectable_free (slot_taken h) = cc
uncorrectable_free (is_correcting h) = cc

no_corrections_fails_example :
    (r' : Run) × ((execute_next_step input (db_of uncorrectable)).1.runs 7 ≡ some r')
    × (r'.status ≡ Status.failed)
    × (r'.step_index ≡ 0)
    × ((execute_next_step input (db_of uncorrectable)).1.steps ≡ [])
no_corrections_fails_example =
    no_corrections_fails input uncorrectable (db_of uncorrectable)
      (record { stored = refl; keyed = refl; lifecycle = refl; owned = refl }) refl refl
      (omega arith) (omega arith) uncorrectable_free
