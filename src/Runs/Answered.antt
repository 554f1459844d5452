-- ===== src/Runs/Answered.antt =====
-- executeNextStep agrees with its reference, or throws and changes nothing.
use deeprun.Prelude.{
  ℕ, ◌≡◌, refl, Bool, true, false, List, Option, none, some, arith, any, Number, Bool-cases, inl,
  inr, ap, ◌∙◌, ◌⊎◌, ◌==◌,
}
use mathlib.Core.Bool.{false≢true}
use mathlib.Core.Path.{subst, sym}
use deeprun.Lifecycle.{Status, correcting, optimizing, cancelled, is_active, same_status}
use deeprun.Lifecycle.Graph.{run_edge}
use deeprun.Runs.Db.{
  Message, Error, invalid_transition, unique_violation, run_is_cancelled, not_runnable,
  stale_payload, Run, Step, Db, M, err, ◌>>=◌, pure,
}
use deeprun.Runs.Store.{has_id, same_slot}
use deeprun.Runs.Service.{
  InvariantResult, invariants_ok, next_failed, next_complete, validate_run_invariants,
}
use deeprun.Runs.Step.{
  ExecuteStepInput, Output, skip, is_runnable, step_started, process_step, finish_at_limit,
  on_invariants, on_expected,
}
use deeprun.Runs.Effects.{Writes-trans, Does, Does-pure, assert_transition_err}
use deeprun.Runs.Stages.{
  started, counted, switched, completed, finished, is_exhausted, finish_at_limit_lem,
}
use deeprun.Runs.Processed.{
  moved, after_step, process_step_lem, process_step_taken, process_step_stuck,
}
use deeprun.Runs.Answer.{
  Answer, Blocked, answer, answer_started, expected_answer, finish_answer, id_taken, is_correcting,
  kept, limit_answer, slot_taken,
}

-- `m` leaves the answer `a`, or throws, and then `X`.
abbrev pub Answers : M Output → Answer → ℕ → Db → Type 0 → Type 0
Answers m a id db X = Does m a.output id a.run a.steps db ⊎ ((e : Error) × (m db ≡ err e) × X)

pub Answers-bind :
    {A : Type 0} (m : M A) (f : A → M Output) (ans : Answer) {a : A} {id : ℕ} {r : Run}
    {steps : List Step} {X : Type 0} (db : Db)
    → Does m a id r steps db
    → ((db' : Db)
        → db'.runs id ≡ some r
        → db'.steps ≡ steps
        → db'.now ≡ db.now
        → Answers (f a) ans id db' X)
    → Answers (m >>= f) ans id db X
Answers-bind m f ans {a = a} db (db', e, w) k = elim (k db' w.stored w.steps_eq w.now_eq) [
  | inl (db'', e', w') ↦ inl (db'', rw (e, ◌>>=◌) e', Writes-trans w w')
  | inr (x, t, why) ↦ inr (x, rw (e, ◌>>=◌) t, why)
]

finish_Answers :
    (r : Run) (next : Status) (message : Option Message) (reason : Message) (now : ℕ) {X : Type 0}
    (db : Db)
    → db.now ≡ now
    → db.runs r.id ≡ some r
    → (run_edge r.status next ≡ false → X)
    → Answers
        (finish_at_limit r next message reason)
        (finish_answer (finished next message now r) db.steps reason)
        r.id
        db
        X
unfolding finish_at_limit
finish_Answers r next message reason now db n h why = elim (Bool-cases (run_edge r.status next)) [
  | inl e ↦
      inl (rw (← n) (unfold finish_at_limit in finish_at_limit_lem r next message reason db h e))
  | inr e ↦ inr (
    invalid_transition r.status next,
    rw (assert_transition_err r.status next db e, ◌>>=◌),
    why e,
  )
]

-- Of the statuses that are stepped, only `correcting` has no edge to `complete`.
runnable-edges :
    (s : Status)
    → is_runnable s ≡ true
    → (run_edge s Status.failed ≡ true)
      × ((run_edge s Status.complete ≡ false → same_status s correcting ≡ true))
runnable-edges Status.running h = (refl, λ e. cc)
runnable-edges correcting h = (refl, λ e. refl)
runnable-edges optimizing h = (refl, λ e. cc)
runnable-edges _ h = cc

-- The switch of phase is the only change of status before the completion.
pub moved-status :
    (c : Number) (now : ℕ) (r : Run)
    → ((moved c now r).status ≡ optimizing) ⊎ ((moved c now r).status ≡ r.status)
unfolding moved switched counted
moved-status c now r = ground arith

pub after_step-status :
    (c : Number) (now : ℕ) (r : Run)
    → ((after_step c now r).status ≡ Status.complete)
      ⊎ ((after_step c now r).status ≡ (moved c now r).status)
unfolding after_step completed
after_step-status c now r = ground arith

stuck-correcting :
    (c : Number) (now : ℕ) (r : Run)
    → is_runnable r.status ≡ true
    → run_edge (moved c now r).status Status.complete ≡ false
    → same_status r.status correcting ≡ true
stuck-correcting c now r w e = elim (moved-status c now r) [
  | inl m ↦ absurd (false≢true (sym e ∙ ap (λ s. run_edge s Status.complete) m))
  | inr m ↦ (runnable-edges r.status w).1 (sym (ap (λ s. run_edge s Status.complete) m) ∙ e)
]

process_Answers :
    (input : ExecuteStepInput) (r : Run) (now : ℕ) (db : Db)
    → db.now ≡ now
    → db.runs r.id ≡ some r
    → is_runnable r.status ≡ true
    → Answers
        (process_step input r)
        (limit_answer input now db.steps r invariants_ok)
        r.id
        db
        (Blocked input r db.steps)
process_Answers input r now db n h w = elim (Bool-cases (any (has_id input.fresh) db.steps)) [
  | inl taken ↦ inr (unique_violation, process_step_taken input r db (inl taken), id_taken taken)
  | inr ids ↦ elim (Bool-cases (any (same_slot r.id r.step_index) db.steps)) [
    | inl taken ↦
        inr (unique_violation, process_step_taken input r db (inr taken), slot_taken taken)
    | inr slot ↦
        elim (Bool-cases (run_edge (moved input.configured now r).status Status.complete)) [
          | inl e ↦ inl (process_step_lem input r now db n h ids slot (λ x. e))
          | inr e ↦ elim (Bool-cases (is_exhausted (moved input.configured now r))) [
            | inl x ↦ inr (
              invalid_transition (moved input.configured now r).status Status.complete,
              process_step_stuck input r now db n h ids slot x e,
              is_correcting (stuck-correcting input.configured now r w e),
            )
            | inr x ↦ inl (process_step_lem input r now db n h ids slot (λ y. cc))
          ]
        ]
  ]
]

limit_Answers :
    (input : ExecuteStepInput) (r : Run) (now : ℕ) (db : Db) (i : InvariantResult)
    → db.now ≡ now
    → db.runs r.id ≡ some r
    → is_runnable r.status ≡ true
    → Answers
        (on_invariants input r i)
        (limit_answer input now db.steps r i)
        r.id
        db
        (Blocked input r db.steps)
limit_Answers input r now db invariants_ok n h w = process_Answers input r now db n h w
limit_Answers input r now db (next_complete reason) n h w =
    finish_Answers r Status.complete none reason now db n h
      (λ e. is_correcting ((runnable-edges r.status w).1 e))
limit_Answers input r now db (next_failed reason) n h w =
    finish_Answers r Status.failed (some reason) reason now db n h
      (λ e. let f = (runnable-edges r.status w).0 in cc)

pure_Answers :
    (r : Run) (db : Db) (reenqueue : Bool) (reason : Message) {X : Type 0}
    → db.runs r.id ≡ some r
    → Answers (pure (skip r reenqueue reason)) (kept r db.steps reenqueue reason) r.id db X
pure_Answers r db reenqueue reason h = inl (Does-pure (skip r reenqueue reason) r.id r db h)

expected_Answers :
    (input : ExecuteStepInput) (r : Run) (now : ℕ) (db : Db) (o : Option ℕ)
    → db.now ≡ now
    → db.runs r.id ≡ some r
    → is_runnable r.status ≡ true
    → Answers
        (on_expected input r o)
        (expected_answer input now db.steps r o)
        r.id
        db
        (Blocked input r db.steps)
expected_Answers input r now db none n h w =
    limit_Answers input r now db (validate_run_invariants r) n h w
expected_Answers input r now db (some k) n h w = elim (Bool-cases (r.step_index == k)) [
  | inl e ↦ rw e (limit_Answers input r now db (validate_run_invariants r) n h w)
  | inr e ↦ rw e (pure_Answers r db (is_active r.status) (stale_payload k r.step_index) h)
]

started_Answers :
    (input : ExecuteStepInput) (r : Run) (now : ℕ) (db : Db)
    → db.now ≡ now
    → db.runs r.id ≡ some r
    → Answers
        (step_started input r)
        (answer_started input now db.steps r)
        r.id
        db
        (Blocked input r db.steps)
unfolding step_started answer_started
started_Answers input r now db n h = elim (Bool-cases (same_status r.status cancelled)) [
  | inl c ↦ rw c (pure_Answers r db false run_is_cancelled h)
  | inr c ↦ elim (Bool-cases (is_runnable r.status)) [
    | inl w ↦ rw (c, w) (expected_Answers input r now db input.expected_step_index n h w)
    | inr w ↦ rw (c, w) (pure_Answers r db false (not_runnable r.status) h)
  ]
]

pub started-id : (now : ℕ) (r : Run) → (started now r).id ≡ r.id
unfolding started
started-id now r = ground arith

started-index : (now : ℕ) (r : Run) → (started now r).step_index ≡ r.step_index
unfolding started
started-index now r = ground arith

started-correcting :
    (now : ℕ) (r : Run)
    → same_status (started now r).status correcting ≡ true
    → same_status r.status correcting ≡ true
unfolding started
started-correcting now r h = ground arith

-- What blocks the started run blocks the run.
started-Blocked :
    (input : ExecuteStepInput) (now : ℕ) (r : Run) (steps : List Step)
    → Blocked input (started now r) steps
    → Blocked input r steps
started-Blocked input now r steps (id_taken h) = id_taken h
started-Blocked input now r steps (slot_taken h) =
    slot_taken (rw (started-id now r, started-index now r) at h)
started-Blocked input now r steps (is_correcting h) = is_correcting (started-correcting now r h)

-- `started_Answers` at the id that the run had before it was started.
pub started_Answers_at :
    (input : ExecuteStepInput) (r : Run) (now : ℕ) (db : Db)
    → db.now ≡ now
    → db.runs r.id ≡ some (started now r)
    → Answers
        (step_started input (started now r))
        (answer input now db.steps r)
        r.id
        db
        (Blocked input r db.steps)
unfolding answer
started_Answers_at input r now db n h =
    let at : Answers (step_started input (started now r))
        (answer_started input now db.steps (started now r)) r.id db
        (Blocked input (started now r) db.steps) =
      subst
        (λ k.
          Answers (step_started input (started now r))
            (answer_started input now db.steps (started now r)) k db
            (Blocked input (started now r) db.steps))
        (started-id now r)
        (started_Answers input (started now r) now db n
          (subst (λ k. db.runs k ≡ some (started now r)) (sym (started-id now r)) h)) in
    elim at [
      | inl d ↦ inl d
      | inr (x, e, why) ↦ inr (x, e, started-Blocked input now r db.steps why)
    ]
