-- ===== src/RunJobs/Statuses.antt =====
-- The statuses that run jobs go through (lib/project-store.ts), against runJobGraph
-- (agent/lifecycle-graph.ts).
use deeprun.Prelude.{
  ℕ, ◌+◌, ◌≡◌, ◌⊎◌, inl, inr, refl, sym, ◌∙◌, Bool, true, false, List, [], ◌∷◌, ◌++◌, map, All,
  Option, none, some, arith, Bool-cases,
}
use deeprun.Lifecycle.{JobStatus, claimed}
use deeprun.Lifecycle.Graph.{job_edge}
use deeprun.RunJobs.Model.{
  RunJob, Db, ClaimInput, is_open, is_taken, ended, lease_seconds, queued_job, violates,
  enqueue_row, enqueue_run_job, changed, can_claim, candidate, claim, claim_candidate,
  claim_next_run_job, taken_by, mark_run_job_running, renew_run_job_lease, complete_run_job,
  fail_run_job,
}
use deeprun.RunJobs.Unique.{has_id, Indexed, Only, candidate-Only, can_claim-active}
use deeprun.RunJobs.Moves.{
  Op, tick, enqueue, claim_next, mark_running, renew, finish, fail, apply_op, apply_ops,
  Indexed-apply,
}

-- A walk along the edges of the graph of jobs.
pub data JobPath : JobStatus → JobStatus → Type 0 where
  here : {s : JobStatus} → JobPath s s
  edge : {s t u : JobStatus} → job_edge s t ≡ true → JobPath t u → JobPath s u

join : {s t u : JobStatus} → JobPath s t → JobPath t u → JobPath s u
join here q = q
join (edge e p) q = edge e (join p q)

-- Each row is still there, in its place, with its id and a status on a walk from the one it had;
-- and the rows after them are new ones, with a status on a walk from `queued`.
abbrev pub Followed : List RunJob → List RunJob → Type 0
Followed [] js' = All (λ j. JobPath JobStatus.queued j.status) js'
Followed (j ∷ js) [] = ⊥
Followed (j ∷ js) (j' ∷ js') = (j'.id ≡ j.id) × (JobPath j.status j'.status × Followed js js')

Followed-refl : (js : List RunJob) → Followed js js
Followed-refl [] = tt
Followed-refl (j ∷ js) = (refl, (here, Followed-refl js))

Followed-trans : (old bs cs : List RunJob) → Followed old bs → Followed bs cs → Followed old cs
Followed-trans [] [] cs h k = k
Followed-trans [] (b ∷ bs) [] h k = absurd k
Followed-trans [] (b ∷ bs) (c ∷ cs) (h, hs) (_, (p, k)) = (join h p, Followed-trans [] bs cs hs k)
Followed-trans (a ∷ old) [] cs h k = absurd h
Followed-trans (a ∷ old) (b ∷ bs) [] h k = absurd k
Followed-trans (a ∷ old) (b ∷ bs) (c ∷ cs) (e, (p, h)) (e', (p', k)) =
    (e' ∙ e, (join p p', Followed-trans old bs cs h k))

Followed-append :
    (js : List RunJob) (i : RunJob) → i.status ≡ JobStatus.queued → Followed js (js ++ i ∷ [])
Followed-append [] i e = (rw e here, tt)
Followed-append (j ∷ js) i e = (refl, (here, Followed-append js i e))

abbrev Allowed : (RunJob → Bool) → (RunJob → RunJob) → RunJob → Type 0
Allowed p f i = (p i ≡ false) ⊎ JobPath i.status (f i).status

Followed-update :
    (p : RunJob → Bool) (f : RunJob → RunJob) (js : List RunJob)
    → ((i : RunJob) → (f i).id ≡ i.id)
    → All (Allowed p f) js
    → Followed js (map (changed p f) js)
Followed-update p f [] keeps h = tt
Followed-update p f (j ∷ js) keeps (h, hs) =
    let rest = Followed-update p f js keeps hs in
    elim (Bool-cases (p j)) [
      | inr other ↦ rw other (refl, (here, rest))
      | inl it ↦ elim h [
        | inl away ↦ absurd (cc (sym it ∙ away))
        | inr path ↦ rw it (keeps j, (path, rest))
      ]
    ]

-- The updates of a node on a job that it has taken.
taken-Allowed :
    (k n : ℕ) (f : RunJob → RunJob) (js : List RunJob)
    → ((i : RunJob) → is_taken i.status ≡ true → JobPath i.status (f i).status)
    → All (Allowed (taken_by k n) f) js
taken-Allowed k n f [] h = tt
taken-Allowed k n f (j ∷ js) h =
    let rest = taken-Allowed k n f js h in
    elim (Bool-cases (taken_by k n j)) [
      | inr other ↦ (inl other, rest)
      | inl it ↦ (inr (h j (ground arith)), rest)
    ]

taken-Followed :
    (k n : ℕ) (f : RunJob → RunJob) (js : List RunJob)
    → ((i : RunJob) → (f i).id ≡ i.id)
    → ((i : RunJob) → is_taken i.status ≡ true → JobPath i.status (f i).status)
    → Followed js (map (changed (taken_by k n) f) js)
taken-Followed k n f js keeps h =
    Followed-update (taken_by k n) f js keeps (taken-Allowed k n f js h)

to_running : (s : JobStatus) → is_taken s ≡ true → JobPath s JobStatus.running
to_running claimed h = edge refl here
to_running JobStatus.running h = here
to_running JobStatus.queued h = absurd (cc h)
to_running JobStatus.complete h = absurd (cc h)
to_running JobStatus.failed h = absurd (cc h)

to_complete : (s : JobStatus) → is_taken s ≡ true → JobPath s JobStatus.complete
to_complete claimed h = edge refl here
to_complete JobStatus.running h = edge refl here
to_complete JobStatus.queued h = absurd (cc h)
to_complete JobStatus.complete h = absurd (cc h)
to_complete JobStatus.failed h = absurd (cc h)

to_failed : (s : JobStatus) → is_taken s ≡ true → JobPath s JobStatus.failed
to_failed claimed h = edge refl here
to_failed JobStatus.running h = edge refl here
to_failed JobStatus.queued h = absurd (cc h)
to_failed JobStatus.complete h = absurd (cc h)
to_failed JobStatus.failed h = absurd (cc h)

to_claimed : (s : JobStatus) → is_open s ≡ true → JobPath s claimed
to_claimed claimed h = here
to_claimed JobStatus.running h = edge refl here
to_claimed JobStatus.queued h = edge refl here
to_claimed JobStatus.complete h = absurd (cc h)
to_claimed JobStatus.failed h = absurd (cc h)

claim-Allowed :
    (contained : ℕ → ℕ → Bool) (input : ClaimInput) (db : Db) (k : ℕ) (js : List RunJob)
    → All (Only (can_claim contained input db) k) js
    → All (Allowed (has_id k) (claim input db.now)) js
unfolding Only
claim-Allowed contained input db k [] only = tt
claim-Allowed contained input db k (j ∷ js) (one, only) =
    let rest = claim-Allowed contained input db k js only in
    elim (Bool-cases (has_id k j)) [
      | inr other ↦ (inl other, rest)
      | inl it ↦ (inr (to_claimed j.status (can_claim-active contained input db j (one it))), rest)
    ]

Followed-claim :
    (contained : ℕ → ℕ → Bool) (input : ClaimInput) (db : Db) (o : Option RunJob)
    → candidate (can_claim contained input db) db.jobs ≡ o
    → Indexed db.jobs
    → Followed db.jobs (claim_candidate input o db).1.jobs
Followed-claim contained input db none e h = Followed-refl db.jobs
Followed-claim contained input db (some c) e h =
    Followed-update (has_id c.id) (claim input db.now) db.jobs (λ i. refl)
      (claim-Allowed contained input db c.id db.jobs
        (candidate-Only (can_claim contained input db) db.jobs c h.0 e))

Followed-enqueue :
    (b : Bool) (j : RunJob) (db : Db)
    → j.status ≡ JobStatus.queued
    → Followed db.jobs (enqueue_row b j db).1.jobs
Followed-enqueue true j db e = Followed-refl db.jobs
Followed-enqueue false j db e = Followed-append db.jobs j e

Followed-apply :
    (contained : ℕ → ℕ → Bool) (o : Op) (db : Db)
    → Indexed db.jobs
    → Followed db.jobs (apply_op contained o db).jobs
unfolding enqueue_run_job claim_next_run_job mark_run_job_running renew_run_job_lease
    complete_run_job fail_run_job
Followed-apply contained (tick n) db h = Followed-refl db.jobs
Followed-apply contained (enqueue fresh input) db h =
    Followed-enqueue (violates fresh input.run_id db.jobs) (queued_job fresh input db.now) db refl
Followed-apply contained (claim_next input) db h =
    Followed-claim contained input db (candidate (can_claim contained input db) db.jobs) refl h
Followed-apply contained (mark_running k n lease) db h =
    taken-Followed k n
      (λ i. record i {
        status = JobStatus.running;
        lease_expires_at = some (db.now + lease_seconds lease);
        updated_at = db.now;
      })
      db.jobs (λ i. refl) (λ i t. to_running i.status t)
Followed-apply contained (renew k n lease) db h =
    taken-Followed k n
      (λ i. record i {
        lease_expires_at = some (db.now + lease_seconds lease);
        updated_at = db.now;
      })
      db.jobs (λ i. refl) (λ i t. here)
Followed-apply contained (finish k n) db h =
    taken-Followed k n (ended JobStatus.complete db.now) db.jobs (λ i. refl)
      (λ i t. to_complete i.status t)
Followed-apply contained (fail k n) db h =
    taken-Followed k n (ended JobStatus.failed db.now) db.jobs (λ i. refl)
      (λ i t. to_failed i.status t)

-- When the ids of the run jobs are unique and each run has at most one active job, then after any
-- calls each job of the table is still in its place, with a status on a walk along runJobGraph from
-- the one it had, and the jobs after them are on a walk from the initial status.
pub calls-Followed :
    (contained : ℕ → ℕ → Bool) (os : List Op) (db : Db)
    → Indexed db.jobs
    → Followed db.jobs (apply_ops contained os db).jobs
unfolding apply_ops
calls-Followed contained [] db h = Followed-refl db.jobs
calls-Followed contained (o ∷ os) db h =
    let db' = apply_op contained o db in
    Followed-trans db.jobs db'.jobs (apply_ops contained os db').jobs
      (Followed-apply contained o db h)
      (calls-Followed contained os db' (Indexed-apply contained o db h))
