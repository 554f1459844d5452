-- ===== src/Runs/Worker.antt =====
-- The worker that calls executeNextStep again and again: each call on a run under way finishes the
-- run or processes one more step, so the run ends.
use deeprun.Prelude.{
  ℕ, zero, suc, ◌+◌, ◌-◌, ◌≤◌, ◌<◌, ◌≡◌, refl, Bool, true, false, ◌||◌, List, [], ◌∷◌, ◌++◌, Option,
  none, some, arith, Number, inl, inr, ◌⊎◌, any, ap, ◌∙◌,
}
use deeprun.Lifecycle.{Status, optimizing, cancelled, same_status}
use deeprun.Runs.Db.{Run, Step, Db}
use deeprun.Runs.Store.{has_id, same_slot}
use deeprun.Runs.Service.{
  InvariantResult, invariants_ok, next_failed, next_complete, validate_run_invariants,
}
use deeprun.Runs.Step.{ExecuteStepInput, is_runnable, execute_next_step}
use deeprun.Runs.Stages.{started, finished}
use deeprun.Runs.Recorded.{recorded}
use deeprun.Runs.Processed.{after_step}
use deeprun.Runs.Answer.{
  Answer, limit_answer, expected_answer, answer_started, answer, id_taken, slot_taken,
  is_correcting, Blocked,
}
use deeprun.Runs.Answered.{moved-status, after_step-status}
use deeprun.Runs.Limits.{SameRun, after_step-step_index, invariants_ok-bounds, answer-Keeps}
use deeprun.Runs.Execute.{IsOwned, execute_next_step-answer}

-- Queued, running or optimizing: the statuses of a run that the service is stepping.
abbrev pub is_going : Status → Bool
is_going s = same_status s Status.queued || same_status s Status.running || same_status s optimizing

abbrev pub is_ended : Status → Bool
is_ended s = same_status s Status.complete || same_status s Status.failed

-- One call: the end, or one more recorded step and a run that still goes.
data Progress (input : ExecuteStepInput) (now : ℕ) (steps : List Step) (r : Run) (a : Answer)
    : Type 0 where
  ended : is_ended a.run.status ≡ true → Progress input now steps r a
  stepped :
      (t : Run)
      → is_going a.run.status ≡ true
      → a.run.step_index ≡ r.step_index + 1
      → r.step_index < r.max_steps
      → t.id ≡ r.id
      → t.step_index ≡ r.step_index
      → a.steps ≡ steps ++ recorded input.fresh now t ∷ []
      → Progress input now steps r a

-- A started run.
abbrev is_stepping : Status → Bool
is_stepping s = same_status s Status.running || same_status s optimizing

stepping-tests :
    (s : Status) → is_stepping s ≡ true → (same_status s cancelled ≡ false) × (is_runnable s ≡ true)
stepping-tests s h = ground arith

after_step-going :
    (c : Number) (now : ℕ) (r : Run)
    → is_stepping r.status ≡ true
    → (is_ended (after_step c now r).status ≡ true) ⊎ (is_going (after_step c now r).status ≡ true)
after_step-going c now r h =
    let a = after_step-status c now r in let m = moved-status c now r in ground arith

limit-Progress :
    (input : ExecuteStepInput) (now : ℕ) (steps : List Step) (r : Run) (i : InvariantResult)
    → validate_run_invariants r ≡ i
    → is_stepping r.status ≡ true
    → Progress input now steps r (limit_answer input now steps r i)
unfolding finished
limit-Progress input now steps r invariants_ok e h =
    elim (after_step-going input.configured now r h) [
      | inl x ↦ ended x
      | inr g ↦
          stepped r g (after_step-step_index input.configured now r) (invariants_ok-bounds r e).0
            refl refl refl
    ]
limit-Progress input now steps r (next_complete m) e h = ended refl
limit-Progress input now steps r (next_failed m) e h = ended refl

expected-Progress :
    (input : ExecuteStepInput) (now : ℕ) (steps : List Step) (r : Run) (o : Option ℕ)
    → o ≡ none
    → is_stepping r.status ≡ true
    → Progress input now steps r (expected_answer input now steps r o)
expected-Progress input now steps r none n h =
    limit-Progress input now steps r (validate_run_invariants r) refl h
expected-Progress input now steps r (some k) n h = cc

started-Progress :
    (input : ExecuteStepInput) (now : ℕ) (steps : List Step) (r : Run)
    → input.expected_step_index ≡ none
    → is_stepping r.status ≡ true
    → Progress input now steps r (answer_started input now steps r)
unfolding answer_started
started-Progress input now steps r n h = rw (stepping-tests r.status h).0 (
    rw (stepping-tests r.status h).1
      (expected-Progress input now steps r input.expected_step_index n h))

start-stepping :
    (now : ℕ) (r : Run) → is_going r.status ≡ true → is_stepping (started now r).status ≡ true
unfolding started
start-stepping now r h = ground arith

start-Same :
    (now : ℕ) (r : Run)
    → ((started now r).id ≡ r.id)
      × ((started now r).step_index ≡ r.step_index)
      × ((started now r).max_steps ≡ r.max_steps)
unfolding started
start-Same now r = ground arith

unstart :
    (input : ExecuteStepInput) (now : ℕ) (steps : List Step) (r : Run) (a : Answer)
    → Progress input now steps (started now r) a
    → Progress input now steps r a
unstart input now steps r a (ended e) = ended e
unstart input now steps r a (stepped t g i b x y z) =
    let (e, f, m) = start-Same now r in
    stepped t g (i ∙ ap (λ k. k + 1) f) (omega arith) (x ∙ e) (y ∙ f) z

answer-Progress :
    (input : ExecuteStepInput) (now : ℕ) (steps : List Step) (r : Run)
    → input.expected_step_index ≡ none
    → is_going r.status ≡ true
    → Progress input now steps r (answer input now steps r)
unfolding answer
answer-Progress input now steps r n g =
    unstart input now steps r _
      (started-Progress input now steps (started now r) n (start-stepping now r g))

-- A run under way whose steps are recorded under their indices, with fresh ids from `fresh` on.
pub record IsReady (input : ExecuteStepInput) (r : Run) (db : Db) : Type 0 where
  pub owned : IsOwned input r db
  pub unexpecting : input.expected_step_index ≡ none
  pub going : is_going r.status ≡ true
  pub slots : (k : ℕ) → r.step_index ≤ k → any (same_slot r.id k) db.steps ≡ false
  pub ids : (k : ℕ) → input.fresh ≤ k → any (has_id k) db.steps ≡ false

-- Calls in a row, each with the next id.
unfoldable pub calls : ℕ → ExecuteStepInput → Db → Db
calls zero input db = db
calls (suc n) input db =
    calls n (record input { fresh = input.fresh + 1 }) (execute_next_step input db).1

IsReady-free :
    (input : ExecuteStepInput) (r : Run) (db : Db) → IsReady input r db → ¬ Blocked input r db.steps
IsReady-free input r db h (id_taken e) = let f = h.ids input.fresh (omega arith) in cc
IsReady-free input r db h (slot_taken e) = let f = h.slots r.step_index (omega arith) in cc
IsReady-free input r db h (is_correcting e) = let g = h.going in ground arith

any-append :
    (p : Step → Bool) (ss : List Step) (s : Step)
    → any p ss ≡ false
    → p s ≡ false
    → any p (ss ++ s ∷ []) ≡ false
any-append p [] s h e = ground arith
any-append p (x ∷ xs) s h e = ground (arith, any-append p xs s)

IsReady-stepped :
    (input : ExecuteStepInput) (r r' t : Run) (steps : List Step) (now : ℕ) (db db' : Db)
    → IsReady input r db
    → IsOwned (record input { fresh = input.fresh + 1 }) r' db'
    → is_going r'.status ≡ true
    → r'.id ≡ r.id
    → r'.step_index ≡ r.step_index + 1
    → t.id ≡ r.id
    → t.step_index ≡ r.step_index
    → db'.steps ≡ db.steps ++ recorded input.fresh now t ∷ []
    → IsReady (record input { fresh = input.fresh + 1 }) r' db'
unfolding recorded
IsReady-stepped input r r' t steps now db db' h o g i x ti tx e = record {
  owned = o;
  unexpecting = h.unexpecting;
  going = g;
  slots = λ k b.
      rw (e, i) (any-append (same_slot r.id k) db.steps _ (h.slots k (omega arith)) (ground arith));
  ids = λ k b. rw e (any-append (has_id k) db.steps _ (h.ids k (omega arith)) (ground arith));
}

next_input-IsOwned :
    (input : ExecuteStepInput) (r r' : Run) (db db' : Db)
    → IsOwned input r db
    → SameRun r r'
    → db'.runs input.run_id ≡ some r'
    → IsOwned (record input { fresh = input.fresh + 1 }) r' db'
next_input-IsOwned input r r' db db' o s h = record {
  stored = h;
  keyed = s.id_eq ∙ o.keyed;
  lifecycle = s.machine_eq ∙ o.lifecycle;
  owned = s.project_eq ∙ o.owned;
}

ended-answer :
    (input : ExecuteStepInput) (now : ℕ) (steps : List Step) (r : Run)
    → is_ended r.status ≡ true
    → (answer input now steps r).run ≡ r
unfolding answer answer_started started
ended-answer input now steps r h = ground arith

-- An ended run stays as it is.
ended-calls :
    (n : ℕ) (input : ExecuteStepInput) (r : Run) (db : Db)
    → IsOwned input r db
    → is_ended r.status ≡ true
    → (calls n input db).runs input.run_id ≡ some r
unfolding calls
ended-calls zero input r db o h = o.stored
ended-calls (suc n) input r db o h =
    let db' = (execute_next_step input db).1 in
    let kept : db'.runs input.run_id ≡ some r = elim (execute_next_step-answer input r db o) [
      | inl (e, w) ↦ w.stored ∙ ap some (ended-answer input db.now db.steps r h)
      | inr (x, e, same, why) ↦ rw same o.stored
    ] in
    ended-calls n (record input { fresh = input.fresh + 1 }) r db'
      (record { stored = kept; keyed = o.keyed; lifecycle = o.lifecycle; owned = o.owned }) h

-- A run that is queued, running or optimizing has ended, complete or failed, after as many calls
-- as it has steps left and one more: no call throws, and the run cannot go on for ever.
pub calls-ended :
    (n : ℕ) (input : ExecuteStepInput) (r : Run) (db : Db)
    → IsReady input r db
    → r.max_steps - r.step_index < n
    → (r' : Run) × ((calls n input db).runs input.run_id ≡ some r') × (is_ended r'.status ≡ true)
unfolding calls
calls-ended zero input r db h b = absurd (omega arith)
calls-ended (suc n) input r db h b = elim (execute_next_step-answer input r db h.owned) [
  | inr (x, e, same, why) ↦ absurd (IsReady-free input r db h why)
  | inl (e, w) ↦
      let a = answer input db.now db.steps r in
      let db' = (execute_next_step input db).1 in
      let same = (answer-Keeps input db.now db.steps r).0 in
      let o = next_input-IsOwned input r a.run db db' h.owned same w.stored in
      let next = record input { fresh = input.fresh + 1 } in
      elim (answer-Progress input db.now db.steps r h.unexpecting h.going) [
        | ended x ↦ (a.run, ended-calls n next a.run db' o x, x)
        | stepped t g i below ti tx s ↦
            calls-ended n next a.run db'
              (IsReady-stepped input r a.run t db.steps db.now db db' h o g same.id_eq i ti tx
                (w.steps_eq ∙ s))
              (let m = same.max_steps_eq in omega arith)
      ]
]
