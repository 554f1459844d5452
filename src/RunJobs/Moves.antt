-- ===== src/RunJobs/Moves.antt =====
-- The calls on the queue of run jobs, and what they keep (lib/project-store.ts).
use deeprun.Prelude.{
  ℕ, ◌+◌, ◌≡◌, refl, ◌∙◌, Bool, true, false, ◌||◌, List, [], ◌∷◌, ◌++◌, map, any, All, Option, none,
  some, arith,
}
use deeprun.RunJobs.Model.{
  RunJob, Db, CreateRunJobInput, ClaimInput, active_for, queued_job, violates, enqueue_row,
  enqueue_run_job, changed, can_claim, candidate, claim, claim_candidate, claim_next_run_job,
  taken_by, mark_run_job_running, renew_run_job_lease, complete_run_job, fail_run_job,
}
use deeprun.RunJobs.Unique.{
  has_id, unique_ids, one_active, Indexed, Calm, unique_ids-update, one_active-update, taken-Calm,
  candidate-Only, claim-Calm,
}

pub data Op : Type 0 where
  tick : ℕ → Op
  enqueue : ℕ → CreateRunJobInput → Op
  claim_next : ClaimInput → Op
  mark_running : ℕ → ℕ → Option ℕ → Op
  renew : ℕ → ℕ → Option ℕ → Op
  finish : ℕ → ℕ → Op
  fail : ℕ → ℕ → Op

abbrev pub apply_op : (ℕ → ℕ → Bool) → Op → Db → Db
apply_op contained (tick n) db = record db { now = db.now + n }
apply_op contained (enqueue fresh input) db = (enqueue_run_job fresh input db).1
apply_op contained (claim_next input) db = (claim_next_run_job contained input db).1
apply_op contained (mark_running k n lease) db = (mark_run_job_running k n lease db).1
apply_op contained (renew k n lease) db = (renew_run_job_lease k n lease db).1
apply_op contained (finish k n) db = (complete_run_job k n db).1
apply_op contained (fail k n) db = (fail_run_job k n db).1

unfoldable pub apply_ops : (ℕ → ℕ → Bool) → List Op → Db → Db
apply_ops contained [] db = db
apply_ops contained (o ∷ os) db = apply_ops contained os (apply_op contained o db)

Indexed-update :
    (p : RunJob → Bool) (f : RunJob → RunJob) (js : List RunJob)
    → ((i : RunJob) → (f i).id ≡ i.id)
    → ((i : RunJob) → (f i).run_id ≡ i.run_id)
    → All (Calm p) js
    → Indexed js
    → Indexed (map (changed p f) js)
Indexed-update p f js keeps keeps' calm (ids, runs) =
    (unique_ids-update p f js keeps ∙ ids, one_active-update p f js keeps' calm runs)

Indexed-claim :
    (contained : ℕ → ℕ → Bool) (input : ClaimInput) (db : Db) (o : Option RunJob)
    → candidate (can_claim contained input db) db.jobs ≡ o
    → Indexed db.jobs
    → Indexed (claim_candidate input o db).1.jobs
Indexed-claim contained input db none e h = h
Indexed-claim contained input db (some c) e h =
    Indexed-update (has_id c.id) (claim input db.now) db.jobs (λ i. refl) (λ i. refl)
      (claim-Calm contained input db c.id db.jobs
        (candidate-Only (can_claim contained input db) db.jobs c h.0 e))
      h

any-append :
    (p : RunJob → Bool) (js : List RunJob) (i : RunJob) → any p (js ++ i ∷ []) ≡ (any p js || p i)
any-append p [] i = ground arith
any-append p (a ∷ js) i = ground (arith, any-append p js i)

unique_ids-append :
    (js : List RunJob) (i : RunJob)
    → unique_ids js ≡ true
    → any (has_id i.id) js ≡ false
    → unique_ids (js ++ i ∷ []) ≡ true
unfolding unique_ids
unique_ids-append [] i unique fresh = refl
unique_ids-append (a ∷ js) i unique fresh =
    ground (arith, any-append (has_id a.id) js i, unique_ids-append js i)

one_active-append :
    (js : List RunJob) (i : RunJob)
    → one_active js ≡ true
    → any (active_for i.run_id) js ≡ false
    → one_active (js ++ i ∷ []) ≡ true
unfolding one_active
one_active-append [] i unique fresh = ground arith
one_active-append (a ∷ js) i unique fresh =
    ground (arith, any-append (active_for a.run_id) js i, one_active-append js i)

Indexed-enqueue :
    (b : Bool) (j : RunJob) (db : Db)
    → violates j.id j.run_id db.jobs ≡ b
    → Indexed db.jobs
    → Indexed (enqueue_row b j db).1.jobs
Indexed-enqueue true j db e h = h
Indexed-enqueue false j db e (ids, runs) = (
  unique_ids-append db.jobs j ids (ground arith),
  one_active-append db.jobs j runs (ground arith),
)

pub Indexed-apply :
    (contained : ℕ → ℕ → Bool) (o : Op) (db : Db)
    → Indexed db.jobs
    → Indexed (apply_op contained o db).jobs
unfolding enqueue_run_job claim_next_run_job mark_run_job_running renew_run_job_lease
    complete_run_job fail_run_job
Indexed-apply contained (tick n) db h = h
Indexed-apply contained (enqueue fresh input) db h =
    Indexed-enqueue (violates fresh input.run_id db.jobs) (queued_job fresh input db.now) db refl h
Indexed-apply contained (claim_next input) db h =
    Indexed-claim contained input db (candidate (can_claim contained input db) db.jobs) refl h
Indexed-apply contained (mark_running k n lease) db h =
    Indexed-update (taken_by k n) _ db.jobs (λ i. refl) (λ i. refl) (taken-Calm k n db.jobs) h
Indexed-apply contained (renew k n lease) db h =
    Indexed-update (taken_by k n) _ db.jobs (λ i. refl) (λ i. refl) (taken-Calm k n db.jobs) h
Indexed-apply contained (finish k n) db h =
    Indexed-update (taken_by k n) _ db.jobs (λ i. refl) (λ i. refl) (taken-Calm k n db.jobs) h
Indexed-apply contained (fail k n) db h =
    Indexed-update (taken_by k n) _ db.jobs (λ i. refl) (λ i. refl) (taken-Calm k n db.jobs) h

-- Any calls on the queue keep the ids unique and at most one active job for each run, if it is so
-- before them.
pub calls-Indexed :
    (contained : ℕ → ℕ → Bool) (os : List Op) (db : Db)
    → Indexed db.jobs
    → Indexed (apply_ops contained os db).jobs
unfolding apply_ops
calls-Indexed contained [] db h = h
calls-Indexed contained (o ∷ os) db h =
    calls-Indexed contained os (apply_op contained o db) (Indexed-apply contained o db h)
