-- ===== src/Runs/Transitions.antt =====
-- transitionRunStatus and resumeRun: exactly the edges of the lifecycle graph, or no change.
use deeprun.Prelude.{
  ℕ, ◌≡◌, ◌≢◌, refl, Bool, true, false, ◌||◌, Option, none, some, arith, Bool-cases, inl, inr, ◌⊎◌,
  ◌==◌, ==_iff, or_else, if◌then◌else◌,
}
use deeprun.Lifecycle.{Status, cancelled, same_status}
use deeprun.Lifecycle.Graph.{run_edge}
use deeprun.Runs.Db.{
  Message, Error, run_not_found, not_resumable, invalid_transition, Run, Db, ok, err, ◌>>=◌, pure,
}
use deeprun.Runs.Store.{no_patch, lock_lifecycle_run_for_update}
use deeprun.Runs.Service.{
  transition_found, transition_body, transition_run_status, resume_found, resume_body, resume_run,
}
use deeprun.Runs.Effects.{
  Writes, Does, Does-assert, Does-write, Does-pure, Does-at, assert_transition_err,
}

-- The row is a lifecycle run under its own id.
pub record IsStored (run_id : ℕ) (r : Run) (db : Db) : Type 0 where
  pub stored : db.runs run_id ≡ some r
  pub keyed : r.id ≡ run_id
  pub lifecycle : r.state_machine ≡ true

-- The row with the status, the message (the old one where none is given), the index of the step as
-- the current one and the time of the update; every other field is as it was.
abbrev pub moved_to : Status → Option (Option Message) → ℕ → Run → Run
moved_to next message now r = record r {
  status = next;
  error_message = or_else message r.error_message;
  current_step_index = r.step_index;
  updated_at = now;
}

transition-Does :
    (next : Status) (message : Option (Option Message)) (r : Run) (db : Db)
    → db.runs r.id ≡ some r
    → run_edge r.status next ≡ true
    → Does
        (transition_found next message (some r))
        (moved_to next message db.now r)
        r.id
        (moved_to next message db.now r)
        db.steps
        db
transition-Does next message r db h e = Does-assert r.status next _ db e (
    Does-write r.id
      (record no_patch {
        status = some next;
        error_message = some (or_else message r.error_message);
      })
      r db (λ updated. pure (or_else updated r)) refl h
      (λ db' s t n. rw (← t) (Does-pure _ r.id _ db' s)))

found_owned :
    (project_id run_id : ℕ) (r : Run) (db : Db)
    → IsStored run_id r db
    → lock_lifecycle_run_for_update run_id db ≡ ok (some r, db)
unfolding lock_lifecycle_run_for_update
found_owned project_id run_id r db o = rw o.stored (rw o.lifecycle)

module _ (project_id run_id : ℕ) (r : Run) (db : Db) (o : IsStored run_id r db) where
  transition_locked :
      (next : Status) (message : Option (Option Message)) (b : Bool)
      → (r.project_id == project_id) ≡ b
      → transition_body project_id run_id next message db
        ≡ (if b then transition_found next message (some r) db else err run_not_found)
  unfolding transition_body
  transition_locked next message true p = rw (found_owned project_id run_id r db o, ◌>>=◌) (rw p)
  transition_locked next message false p = rw (found_owned project_id run_id r db o, ◌>>=◌) (rw p)

  resume_locked :
      (b : Bool)
      → (r.project_id == project_id) ≡ b
      → resume_body project_id run_id db
        ≡ (if b then resume_found (some r) db else err run_not_found)
  unfolding resume_body
  resume_locked true p = rw (found_owned project_id run_id r db o, ◌>>=◌) (rw p)
  resume_locked false p = rw (found_owned project_id run_id r db o, ◌>>=◌) (rw p)

-- A transition of a stored run succeeds exactly when the run belongs to the project and the graph
-- has the edge. It then stores the new status, the new message if one is given, the index of the
-- step as the current one and the time of the update, and every other field of the row, its counters
-- and limits among them, is as it was; otherwise the call throws and the database is what it was.
pub transition_run_status-cases :
    (project_id run_id : ℕ) (next : Status) (message : Option (Option Message)) (r : Run) (db : Db)
    → IsStored run_id r db
    → let (result, db') = transition_run_status project_id run_id next message db in
      let r' = moved_to next message db.now r in
      ((r.project_id ≡ project_id)
        × (run_edge r.status next ≡ true)
        × (result ≡ ok r')
        × Writes run_id r' db.steps db db')
      ⊎ (((r.project_id ≢ project_id) ⊎ (run_edge r.status next ≡ false))
          × ((e : Error) × (result ≡ err e))
          × (db' ≡ db))
unfolding transition_run_status
transition_run_status-cases project_id run_id next message r db o =
    elim (Bool-cases (r.project_id == project_id)) [
      | inr p ↦
          rw (transition_locked project_id run_id r db o next message false p)
            (inr (inl (λ e. ground arith), (run_not_found, refl), refl))
      | inl p ↦ elim (Bool-cases (run_edge r.status next)) [
        | inl e ↦
            let (db', f, w) =
              Does-at (transition_found next message (some r)) db o.keyed
                (λ s. transition-Does next message r db s e) o.stored in
            rw (transition_locked project_id run_id r db o next message true p)
              (rw f (inl ((==_iff r.project_id project_id).0 p, e, refl, w)))
        | inr e ↦ rw (transition_locked project_id run_id r db o next message true p) (
            rw (assert_transition_err r.status next db e, ◌>>=◌)
              (inr (inr e, (invalid_transition r.status next, refl), refl)))
      ]
    ]

resumable_edge :
    (s : Status)
    → (same_status s cancelled || same_status s Status.failed) ≡ true
    → (run_edge s Status.queued ≡ true) × ((s ≡ cancelled) ⊎ (s ≡ Status.failed))
resumable_edge s h = ground arith

not_resumable_status :
    (s : Status)
    → (same_status s cancelled || same_status s Status.failed) ≡ false
    → (s ≢ cancelled) × (s ≢ Status.failed)
not_resumable_status s h = (λ e. ground arith, λ e. ground arith)

-- Resumption succeeds exactly from `cancelled` and `failed`, for a run of the project: the run is
-- queued with no message, the index of the step as the current one and the time of the update, and
-- keeps every other field, its counters and limits among them; otherwise the call throws and nothing
-- changes.
pub resume_run-cases :
    (project_id run_id : ℕ) (r : Run) (db : Db)
    → IsStored run_id r db
    → let (result, db') = resume_run project_id run_id db in
      let r' = moved_to Status.queued (some none) db.now r in
      ((r.project_id ≡ project_id)
        × ((r.status ≡ cancelled) ⊎ (r.status ≡ Status.failed))
        × (result ≡ ok r')
        × Writes run_id r' db.steps db db')
      ⊎ (((r.project_id ≢ project_id) ⊎ ((r.status ≢ cancelled) × (r.status ≢ Status.failed)))
          × ((e : Error) × (result ≡ err e))
          × (db' ≡ db))
unfolding resume_run
resume_run-cases project_id run_id r db o = elim (Bool-cases (r.project_id == project_id)) [
  | inr p ↦
      rw (resume_locked project_id run_id r db o false p)
        (inr (inl (λ e. ground arith), (run_not_found, refl), refl))
  | inl p ↦
      elim (Bool-cases (same_status r.status cancelled || same_status r.status Status.failed)) [
        | inl q ↦
            let (db', f, w) =
              Does-at (transition_found Status.queued (some none) (some r)) db o.keyed
                (λ s.
                  transition-Does Status.queued (some none) r db s (resumable_edge r.status q).0)
                o.stored in
            rw (resume_locked project_id run_id r db o true p) (
              rw q (
                rw f (
                  inl (
                    (==_iff r.project_id project_id).0 p,
                    (resumable_edge r.status q).1,
                    refl,
                    w,
                  ))))
        | inr q ↦
            rw (resume_locked project_id run_id r db o true p)
              (rw q (inr (inr (not_resumable_status r.status q), (not_resumable, refl), refl)))
      ]
]
