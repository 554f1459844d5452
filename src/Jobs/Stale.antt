-- ===== src/Jobs/Stale.antt =====
-- Ended jobs, and calls with a generation that has passed (governance/governance-store.ts).
use deeprun.Prelude.{
  ℕ, ◌≤◌, ◌<◌, ◌≡◌, refl, sym, ap, ◌∙◌, Bool, true, false, ◌&&◌, ◌==◌, List, [], ◌∷◌, Option, none,
  some, arith, if◌then◌else◌,
}
use deeprun.Jobs.Model.{
  JobStatus, available, claimed, running, complete, failed, cancelled, Job, Store, has_job_id,
  is_held, is_claimed, is_available, candidate, claim, held_by, after_failure, can_cancel,
  lease_seconds, get_governance_job,
}
use deeprun.Jobs.Calls.{
  Op, tick, create, claim_next, heartbeat, to_running, finish, fail, cancel, apply_op, apply_ops,
}
use deeprun.Jobs.Candidate.{unique_ids}
use deeprun.Jobs.Rows.{row_op, apply_op-row, unique_ids-apply}
use deeprun.Jobs.Fence.{claimed_row_other}

unfoldable pub is_ended : JobStatus → Bool
is_ended complete = true
is_ended failed = true
is_ended cancelled = true
is_ended _ = false

and_false : (a : Bool) → (a && false) ≡ false
and_false true = refl
and_false false = refl

ended_statuses :
    (st : JobStatus)
    → is_ended st ≡ true
    → (is_held st ≡ false) × ((is_claimed st ≡ false) × (is_available st ≡ false))
unfolding is_ended
ended_statuses available h = ground arith
ended_statuses claimed h = ground arith
ended_statuses running h = ground arith
ended_statuses complete h = (refl, (refl, refl))
ended_statuses failed h = (refl, (refl, refl))
ended_statuses cancelled h = (refl, (refl, refl))

ended_held :
    (p : JobStatus → Bool) (k w now : ℕ) (g : Option ℕ) (j : Job)
    → p j.status ≡ false
    → held_by p k w g now j ≡ false
ended_held p k w now g j h = rw h (ground arith)

ended_cancel :
    (k now : ℕ) (w g : Option ℕ) (j : Job)
    → is_held j.status ≡ false
    → is_available j.status ≡ false
    → can_cancel k w g now j ≡ false
ended_cancel k now none g j h h' = rw (h, h') (ground arith)
ended_cancel k now (some w) g j h h' = rw (h, h') (ground arith)

ended_row :
    (o : Op) (k : ℕ) (s : Store) (j : Job)
    → unique_ids s.jobs ≡ true
    → get_governance_job k s.jobs ≡ some j
    → is_ended j.status ≡ true
    → row_op o s.now (candidate s.now s.jobs) j ≡ j
unfolding row_op
ended_row (tick n) k s j unique h ended = refl
ended_row (create k' a t at) k s j unique h ended = refl
ended_row (claim_next w lease) k s j unique h ended =
    let (held, (_, free)) = ended_statuses j.status ended in
    claimed_row_other k w (lease_seconds lease) s.now s.jobs j unique h (rw (held, free) refl)
ended_row (heartbeat k' w g lease) k s j unique h ended =
    rw (ended_held is_held k' w s.now g j (ended_statuses j.status ended).0) refl
ended_row (to_running k' w g) k s j unique h ended =
    rw (ended_held is_claimed k' w s.now g j (ended_statuses j.status ended).1.0) refl
ended_row (finish k' w g) k s j unique h ended =
    rw (ended_held is_held k' w s.now g j (ended_statuses j.status ended).0) refl
ended_row (fail k' w code message at g) k s j unique h ended =
    rw (ended_held is_held k' w s.now g j (ended_statuses j.status ended).0) refl
ended_row (cancel k' w g) k s j unique h ended =
    rw
      (ended_cancel k' s.now w g j (ended_statuses j.status ended).0
        (ended_statuses j.status ended).1.1)
      refl

-- In a table with unique ids, a job that is complete, failed or cancelled keeps its row, whatever
-- is called.
pub ended_job_kept :
    (os : List Op) (k : ℕ) (s : Store) (j : Job)
    → unique_ids s.jobs ≡ true
    → get_governance_job k s.jobs ≡ some j
    → is_ended j.status ≡ true
    → get_governance_job k (apply_ops os s).jobs ≡ some j
unfolding apply_ops
ended_job_kept [] k s j unique h ended = h
ended_job_kept (o ∷ os) k s j unique h ended =
    ended_job_kept os k (apply_op o s) j (unique_ids-apply o s unique)
      (apply_op-row o k s j h ∙ ap some (ended_row o k s j unique h ended)) ended

-- Is it a call of a worker with the generation?
unfoldable pub with_generation : ℕ → Op → Bool
with_generation g (heartbeat k w (some g') lease) = g == g'
with_generation g (to_running k w (some g')) = g == g'
with_generation g (finish k w (some g')) = g == g'
with_generation g (fail k w code message at (some g')) = g == g'
with_generation g (cancel k w (some g')) = g == g'
with_generation g _ = false

-- The generation of a job never goes back.
generation-if :
    (b : Bool) (f : Job → Job) (j : Job)
    → j.lease_generation ≤ (f j).lease_generation
    → j.lease_generation ≤ (if b then f j else j).lease_generation
generation-if true f j h = h
generation-if false f j h = omega arith

generation-row :
    (o : Op) (now : ℕ) (c : Option Job) (j : Job)
    → j.lease_generation ≤ (row_op o now c j).lease_generation
unfolding row_op
generation-row (tick n) now c j = omega arith
generation-row (create k a t at) now c j = omega arith
generation-row (claim_next w lease) now none j = omega arith
generation-row (claim_next w lease) now (some c) j =
    generation-if (has_job_id c.job_id j) (claim w (lease_seconds lease) now) j (omega arith)
generation-row (heartbeat k w g lease) now c j = ground arith
generation-row (to_running k w g) now c j = ground arith
generation-row (finish k w g) now c j = ground arith
generation-row (fail k w code message none g) now c j =
    generation-if (held_by is_held k w g now j) (after_failure code message none now) j
      (omega arith)
generation-row (fail k w code message (some at) g) now c j =
    generation-if (held_by is_held k w g now j) (after_failure code message (some at) now) j
      (omega arith)
generation-row (cancel k w g) now c j = ground arith

generation-ops :
    (os : List Op) (k : ℕ) (s : Store) (j : Job)
    → get_governance_job k s.jobs ≡ some j
    → (i : Job) × ((get_governance_job k (apply_ops os s).jobs ≡ some i)
        × (j.lease_generation ≤ i.lease_generation))
unfolding apply_ops
generation-ops [] k s j h = (j, (h, omega arith))
generation-ops (o ∷ os) k s j h =
    let c = candidate s.now s.jobs in
    let next = row_op o s.now c j in
    let (i, (found, le)) = generation-ops os k (apply_op o s) next (apply_op-row o k s j h) in
    let step = generation-row o s.now c j in (i, (found, omega (arith, le, step)))

stale_held :
    (p : JobStatus → Bool) (k w now g : ℕ) (g' : ℕ) (j : Job)
    → (g == g') ≡ true
    → g < j.lease_generation
    → held_by p k w (some g') now j ≡ false
stale_held p k w now g g' j e h = ground arith

stale_cancel :
    (k now g g' : ℕ) (w : Option ℕ) (j : Job)
    → (g == g') ≡ true
    → g < j.lease_generation
    → can_cancel k w (some g') now j ≡ false
stale_cancel k now g g' none j e h = ground arith
stale_cancel k now g g' (some w) j e h = ground arith

stale_row :
    (o : Op) (g now : ℕ) (c : Option Job) (j : Job)
    → with_generation g o ≡ true
    → g < j.lease_generation
    → row_op o now c j ≡ j
unfolding row_op with_generation
stale_row (tick n) g now c j e h = refl
stale_row (create k a t at) g now c j e h = refl
stale_row (claim_next w lease) g now c j e h = ground arith
stale_row (heartbeat k w none lease) g now c j e h = ground arith
stale_row (heartbeat k w (some g') lease) g now c j e h =
    rw (stale_held is_held k w now g g' j e h) refl
stale_row (to_running k w none) g now c j e h = ground arith
stale_row (to_running k w (some g')) g now c j e h =
    rw (stale_held is_claimed k w now g g' j e h) refl
stale_row (finish k w none) g now c j e h = ground arith
stale_row (finish k w (some g')) g now c j e h = rw (stale_held is_held k w now g g' j e h) refl
stale_row (fail k w code message at none) g now c j e h = ground arith
stale_row (fail k w code message at (some g')) g now c j e h =
    rw (stale_held is_held k w now g g' j e h) refl
stale_row (cancel k w none) g now c j e h = ground arith
stale_row (cancel k w (some g')) g now c j e h = rw (stale_cancel k now g g' w j e h) refl

-- Once the generation of a job is past `g`, a call that presents `g` leaves its row as it is,
-- whatever was called in between.
pub stale_calls_refused :
    (os : List Op) (o : Op) (k g : ℕ) (s : Store) (j : Job)
    → get_governance_job k s.jobs ≡ some j
    → g < j.lease_generation
    → with_generation g o ≡ true
    → get_governance_job k (apply_op o (apply_ops os s)).jobs
      ≡ get_governance_job k (apply_ops os s).jobs
stale_calls_refused os o k g s j h past e =
    let s' = apply_ops os s in
    let (i, (found, le)) = generation-ops os k s j h in
    apply_op-row o k s' i found
    ∙ (ap some (stale_row o g s'.now (candidate s'.now s'.jobs) i e (omega (arith, past, le)))
        ∙ sym found)
