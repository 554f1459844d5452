-- ===== src/Runs/Processed.antt =====
-- A processed step as a whole: its record, its counters, the switch of phase and the completion.
use deeprun.Prelude.{
  ℕ, ◌≡◌, true, false, [], ◌∷◌, ◌++◌, none, some, arith, any, Number, Bool-cases, inl, inr, ◌∙◌,
  ◌⊎◌,
}
use deeprun.Lifecycle.{Status, is_active}
use deeprun.Lifecycle.Graph.{run_edge}
use deeprun.Runs.Db.{Run, Step, Db, M, err, unique_violation, invalid_transition, ◌>>=◌, pure}
use deeprun.Runs.Store.{has_id, same_slot, create_lifecycle_step}
use deeprun.Runs.Step.{
  ExecuteStepInput, Output, processed, step_type_of, record_step, count_step, switch_phase,
  complete_exhausted, process_step,
}
use deeprun.Runs.Effects.{Does, Does-at, Does-pure, Does-bind, Does-throws, assert_transition_err}
use deeprun.Runs.Stages.{
  counted, switched, completed, is_exhausted, count_step_lem, switch_phase_lem,
  complete_exhausted_lem,
}
use deeprun.Runs.Recorded.{recorded, record_step_lem}

pub counted-id : (now : ℕ) (r : Run) → (counted now r).id ≡ r.id
unfolding counted
counted-id now r = ground arith

pub switched-id : (c : Number) (now : ℕ) (r : Run) → (switched c now r).id ≡ r.id
unfolding switched
switched-id c now r = ground arith

-- The run before the test for completion, and after it.
unfoldable pub moved : Number → ℕ → Run → Run
moved c now r = switched c now (counted now r)

unfoldable pub after_step : Number → ℕ → Run → Run
after_step c now r = completed now (moved c now r)

pub moved-id : (c : Number) (now : ℕ) (r : Run) → (moved c now r).id ≡ r.id
unfolding moved
moved-id c now r = rw (switched-id, counted-id)

abbrev pub processed_output : Run → Step → Output
processed_output r s = record {
  outcome = processed;
  run = some r;
  step = some s;
  should_reenqueue = is_active r.status;
  reason = none;
}

-- The stages after the step's record, from a database whose clock shows `now`.
module _ (c : Number) (r : Run) (s : Step) (now : ℕ) where
  complete_stage : M Output
  complete_stage = do done ← complete_exhausted (moved c now r); pure (processed_output done s)

  -- An exhausted run may go on to `complete`.
  abbrev pub MayComplete : Type 0
  MayComplete =
      is_exhausted (moved c now r) ≡ true → run_edge (moved c now r).status Status.complete ≡ true

  finish_step :
      (db : Db)
      → db.now ≡ now
      → db.runs r.id ≡ some (moved c now r)
      → MayComplete
      → Does complete_stage
          (processed_output (after_step c now r) s)
          r.id
          (after_step c now r)
          db.steps
          db
  unfolding after_step complete_stage
  finish_step db n h edge =
      let m = moved c now r in
      rw (← n) (
        Does-bind (complete_exhausted (moved c db.now r)) (λ done. pure (processed_output done s))
          db
          (Does-at (complete_exhausted (moved c db.now r)) db (moved-id c db.now r)
            (λ stored. complete_exhausted_lem (moved c db.now r) db stored (rw n edge)) (rw n h))
          (λ db' h' e n'. rw (← e) (Does-pure _ r.id _ db' h')))

  switch_stage : M Output
  switch_stage = do
    changed ← switch_phase c (counted now r)
    done ← complete_exhausted changed
    pure (processed_output done s)

  switch_step :
      (db : Db)
      → db.now ≡ now
      → db.runs r.id ≡ some (counted now r)
      → MayComplete
      → Does switch_stage
          (processed_output (after_step c now r) s)
          r.id
          (after_step c now r)
          db.steps
          db
  unfolding switch_stage
  switch_step db n h edge =
      let at : db.runs (counted now r).id ≡ some (counted now r)
          → Does (switch_phase c (counted now r)) (moved c now r) (counted now r).id (moved c now r)
              db.steps db =
        λ stored.
          unfold moved in rw (← n) (switch_phase_lem c (counted db.now r) db (rw n stored)) in
      Does-bind (switch_phase c (counted now r)) _ db
        (Does-at (switch_phase c (counted now r)) db (counted-id now r) at h)
        (λ db' h' e n'. rw (← e) (unfold complete_stage in finish_step db' (n' ∙ n) h' edge))

  count_step_stage :
      (db : Db)
      → db.now ≡ now
      → db.runs r.id ≡ some r
      → MayComplete
      → Does
          (do
            next ← count_step (step_type_of r) r
            changed ← switch_phase c next
            done ← complete_exhausted changed
            pure (processed_output done s))
          (processed_output (after_step c now r) s)
          r.id
          (after_step c now r)
          db.steps
          db
  count_step_stage db n h edge =
      let step : Does (count_step (step_type_of r) r) (counted now r) r.id (counted now r) db.steps
          db =
        rw (← n) (count_step_lem r db h) in
      Does-bind (count_step (step_type_of r) r) _ db step
        (λ db' h' e n'. rw (← e) (unfold switch_stage in switch_step db' (n' ∙ n) h' edge))

-- A run below its limits, in a database where the step's id and slot are free, is processed:
-- the run becomes `after_step`, and one record is added.
pub process_step_lem :
    (input : ExecuteStepInput) (r : Run) (now : ℕ) (db : Db)
    → db.now ≡ now
    → db.runs r.id ≡ some r
    → any (has_id input.fresh) db.steps ≡ false
    → any (same_slot r.id r.step_index) db.steps ≡ false
    → (is_exhausted (moved input.configured now r) ≡ true
        → run_edge (moved input.configured now r).status Status.complete ≡ true)
    → Does
        (process_step input r)
        (processed_output (after_step input.configured now r) (recorded input.fresh now r))
        r.id
        (after_step input.configured now r)
        (db.steps ++ recorded input.fresh now r ∷ [])
        db
unfolding process_step
process_step_lem input r now db n h ids slot edge =
    let step : Does (record_step input.fresh r) (recorded input.fresh now r) r.id r
        (db.steps ++ recorded input.fresh now r ∷ []) db =
      rw (← n) (record_step_lem input.fresh r db h ids slot) in
    Does-bind (record_step input.fresh r) _ db step (λ db' h' e n'.
      rw (← e)
        (count_step_stage input.configured r (recorded input.fresh now r) now db' (n' ∙ n) h' edge))

-- With the step's id or slot taken, the insertion throws.
pub process_step_taken :
    (input : ExecuteStepInput) (r : Run) (db : Db)
    → (any (has_id input.fresh) db.steps ≡ true)
      ⊎ (any (same_slot r.id r.step_index) db.steps ≡ true)
    → process_step input r db ≡ err unique_violation
unfolding process_step record_step create_lifecycle_step
process_step_taken input r db (inl h) = rw (h, ◌>>=◌)
process_step_taken input r db (inr h) = elim (Bool-cases (any (has_id input.fresh) db.steps)) [
  | inl e ↦ rw (e, ◌>>=◌)
  | inr e ↦ rw (e, h, ◌>>=◌)
]

complete_stuck :
    (m : Run) (db : Db)
    → is_exhausted m ≡ true
    → run_edge m.status Status.complete ≡ false
    → complete_exhausted m db ≡ err (invalid_transition m.status Status.complete)
unfolding complete_exhausted
complete_stuck m db x e = rw x (rw (assert_transition_err m.status Status.complete db e, ◌>>=◌))

moved_lem :
    (c : Number) (r : Run) (now t u : ℕ)
    → t ≡ now
    → u ≡ now
    → switched c u (counted t r) ≡ moved c now r
unfolding moved
moved_lem c r now t u p q = rw (p, q)

-- An exhausted run with no edge to `complete` makes the last assertion throw.
pub process_step_stuck :
    (input : ExecuteStepInput) (r : Run) (now : ℕ) (db : Db)
    → db.now ≡ now
    → db.runs r.id ≡ some r
    → any (has_id input.fresh) db.steps ≡ false
    → any (same_slot r.id r.step_index) db.steps ≡ false
    → is_exhausted (moved input.configured now r) ≡ true
    → run_edge (moved input.configured now r).status Status.complete ≡ false
    → process_step input r db
      ≡ err (invalid_transition (moved input.configured now r).status Status.complete)
unfolding process_step
process_step_stuck input r now db n h ids slot x e =
    let c = input.configured in
    Does-throws (record_step input.fresh r) _ db (record_step_lem input.fresh r db h ids slot)
      λ db1 h1 n1.
        Does-throws (count_step (step_type_of r) r) _ db1 (count_step_lem r db1 h1) λ db2 h2 n2.
          Does-throws (switch_phase c (counted db1.now r)) _ db2
            (Does-at (switch_phase c (counted db1.now r)) db2 (counted-id db1.now r)
              (λ stored. switch_phase_lem c (counted db1.now r) db2 stored) h2)
            λ db3 h3 n3.
              rw (moved_lem c r now db1.now db2.now (n1 ∙ n) (n2 ∙ n1 ∙ n))
                (rw (complete_stuck (moved c now r) db3 x e, ◌>>=◌))
