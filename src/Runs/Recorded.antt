-- ===== src/Runs/Recorded.antt =====
-- The record of a step, inserted as running and completed in the same transaction.
use deeprun.Prelude.{
  ℕ, ◌+◌, ◌≡◌, refl, false, List, [], ◌∷◌, ◌++◌, none, some, arith, map, any, ==_refl,
}
use deeprun.Lifecycle.{StepStatus}
use deeprun.Runs.Db.{Run, Step, Db, ok, ◌>>=◌, fake_step, fake_step_complete}
use deeprun.Runs.Store.{
  CreateStepInput, created_step, StepPatch, patch_step_at, has_id, same_slot, first_step,
  create_lifecycle_step, update_lifecycle_step,
}
use deeprun.Runs.Step.{step_type_of, step_input, record_step}
use deeprun.Runs.Effects.{Does}

-- The row that a processed step leaves.
unfoldable pub recorded : ℕ → ℕ → Run → Step
recorded fresh now r = record {
  id = fresh;
  run_id = r.id;
  project_id = r.project_id;
  step_index = r.step_index;
  type = step_type_of r;
  status = StepStatus.complete;
  summary = fake_step_complete (step_type_of r) (r.step_index + 1);
  created_at = now;
  completed_at = some now;
}

patch_last :
    (k : ℕ) (p : StepPatch) (ss : List Step) (t : Step)
    → any (has_id k) ss ≡ false
    → t.id ≡ k
    → map (patch_step_at k p) (ss ++ t ∷ []) ≡ ss ++ patch_step_at k p t ∷ []
patch_last k p [] t h e = refl
patch_last k p (s ∷ ss) t h e = ground (arith, patch_last k p ss t)

first_last :
    (k : ℕ) (ss : List Step) (t : Step)
    → any (has_id k) ss ≡ false
    → t.id ≡ k
    → first_step k (ss ++ t ∷ []) ≡ some t
first_last k [] t h e = ground arith
first_last k (s ∷ ss) t h e = ground (arith, first_last k ss t)

-- The row as it is inserted.
inserted : ℕ → ℕ → Run → Step
inserted fresh now r = record {
  id = fresh;
  run_id = r.id;
  project_id = r.project_id;
  step_index = r.step_index;
  type = step_type_of r;
  status = StepStatus.running;
  summary = fake_step (step_type_of r) (r.step_index + 1);
  created_at = now;
  completed_at = none;
}

abbrev completing : ℕ → Run → StepPatch
completing now r = record {
  status = some StepStatus.complete;
  summary = some (fake_step_complete (step_type_of r) (r.step_index + 1));
  completed_at = some (some now);
}

create_step_lem :
    (fresh : ℕ) (input : CreateStepInput) (db : Db)
    → any (has_id fresh) db.steps ≡ false
    → any (same_slot input.run_id input.step_index) db.steps ≡ false
    → create_lifecycle_step fresh input db
      ≡ ok (
        created_step fresh input db.now,
        record db { steps = db.steps ++ created_step fresh input db.now ∷ [] },
      )
unfolding create_lifecycle_step
create_step_lem fresh input db ids slot = rw (ids, slot)

complete_step_lem :
    (k : ℕ) (p : StepPatch) (ss : List Step) (t : Step) (db : Db)
    → any (has_id k) ss ≡ false
    → t.id ≡ k
    → update_lifecycle_step k p (record db { steps = ss ++ t ∷ [] })
      ≡ ok (some (patch_step_at k p t), record db { steps = ss ++ patch_step_at k p t ∷ [] })
unfolding update_lifecycle_step
complete_step_lem k p ss t db ids e =
    rw (patch_last k p ss t ids e) (rw (first_last k ss (patch_step_at k p t) ids (ground arith)))

patched_insert :
    (fresh now : ℕ) (r : Run)
    → patch_step_at fresh (completing now r) (inserted fresh now r) ≡ recorded fresh now r
unfolding inserted recorded
patched_insert fresh now r = rw (==_refl fresh)

pub record_step_lem :
    (fresh : ℕ) (r : Run) (db : Db)
    → db.runs r.id ≡ some r
    → any (has_id fresh) db.steps ≡ false
    → any (same_slot r.id r.step_index) db.steps ≡ false
    → Does
        (record_step fresh r)
        (recorded fresh db.now r)
        r.id
        r
        (db.steps ++ recorded fresh db.now r ∷ [])
        db
unfolding record_step
record_step_lem fresh r db h ids slot = (
  record db { steps = db.steps ++ recorded fresh db.now r ∷ [] },
  unfold inserted in
      rw (create_step_lem fresh (step_input r) db ids slot, ◌>>=◌)
        (rw
          (
            complete_step_lem fresh (completing db.now r) db.steps (inserted fresh db.now r) db ids
                refl,
            ◌>>=◌,
          )
          (rw patched_insert)),
  record { stored = h; frame = λ j e. refl; steps_eq = refl; now_eq = refl },
)
