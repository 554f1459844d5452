-- ===== src/Jobs/Fence.antt =====
-- Leases fence the workers off from each other (governance/governance-store.ts).
use deeprun.Prelude.{
  ℕ, ◌+◌, ◌<◌, ◌≡◌, refl, sym, ap, ◌∙◌, Bool, true, false, ◌&&◌, ◌||◌, ◌==◌, any, List, [], ◌∷◌,
  Option, none, some, arith, Bool-cases, Option-cases, inl, inr, ==_iff, leb,
}
use mathlib.Core.Option.{some-injective}
use deeprun.Jobs.Model.{
  JobStatus, available, claimed, running, complete, failed, cancelled, Job, Store, has_job_id,
  is_held, is_claimed, is_available, of_generation, changed, can_claim, candidate, claim, held_by,
  can_cancel, lease_seconds, create_governance_job, claim_next_governance_job, heartbeat_job,
  transition_job_to_running, complete_job, fail_job, cancel_job, insert_row, new_job,
  claim_candidate, get_governance_job,
}
use deeprun.Jobs.Calls.{
  Op, tick, create, claim_next, heartbeat, to_running, finish, fail, cancel, apply_op, apply_ops,
}
use deeprun.Jobs.Candidate.{unique_ids, get-any, candidate-found}
use deeprun.Jobs.Rows.{claimed_row, row_op, apply_op-row, unique_ids-apply}

-- Does the call present the worker and the generation, for the job?
abbrev presents : ℕ → ℕ → ℕ → ℕ → ℕ → Option ℕ → Bool
presents k w g k' w' g' = k == k' && w == w' && of_generation g' g

abbrev presents_cancel : ℕ → ℕ → ℕ → ℕ → Option ℕ → Option ℕ → Bool
presents_cancel k w g k' none g' = k == k' && of_generation g' g
presents_cancel k w g k' (some w') g' = presents k w g k' w' g'

unfoldable pub comes_from : ℕ → ℕ → ℕ → Op → Bool
comes_from k w g (tick n) = false
comes_from k w g (create k' a t at) = false
comes_from k w g (claim_next w' lease) = false
comes_from k w g (heartbeat k' w' g' lease) = presents k w g k' w' g'
comes_from k w g (to_running k' w' g') = presents k w g k' w' g'
comes_from k w g (finish k' w' g') = presents k w g k' w' g'
comes_from k w g (fail k' w' code message at g') = presents k w g k' w' g'
comes_from k w g (cancel k' w' g') = presents_cancel k w g k' w' g'

or_false : (a b : Bool) → (a || b) ≡ false → (a ≡ false) × (b ≡ false)
or_false a b h = ground arith

-- The row of a job that the worker holds at the generation, by a lease to `expires`.
abbrev pub HeldBy : ℕ → ℕ → ℕ → ℕ → Job → Type 0
HeldBy k w g expires j =
    (j.job_id ≡ k)
    × ((j.worker_id ≡ some w)
        × ((j.lease_generation ≡ g)
            × ((is_held j.status ≡ true) × (j.lease_expires_at ≡ some expires))))

changed_not : (p : Job → Bool) (f : Job → Job) (j : Job) → p j ≡ false → changed p f j ≡ j
changed_not p f j h = rw h refl

status_not : (st : JobStatus) (a : Bool) → is_held st ≡ true → (is_available st && a) ≡ false
status_not available a h = ground arith
status_not claimed a h = refl
status_not running a h = refl
status_not complete a h = ground arith
status_not failed a h = ground arith
status_not cancelled a h = ground arith

not_expired : (b : Bool) (now expires : ℕ) → now < expires → (b && leb expires now) ≡ false
not_expired b now expires h = ground arith

not_claimable :
    (k w g expires now : ℕ) (j : Job)
    → HeldBy k w g expires j
    → now < expires
    → can_claim now j ≡ false
not_claimable k w g expires now j (e, (e', (e'', (held, lease)))) h =
    rw (status_not j.status (leb j.available_at now) held, lease)
      (not_expired (is_held j.status) now expires h)

-- A claim does not take a row that cannot be claimed.
pub claimed_row_other :
    (k worker lease now : ℕ) (js : List Job) (j : Job)
    → unique_ids js ≡ true
    → get_governance_job k js ≡ some j
    → can_claim now j ≡ false
    → claimed_row worker lease now (candidate now js) j ≡ j
claimed_row_other k worker lease now js j unique h not_able =
    elim (Option-cases (candidate now js)) [
      | inl e ↦ rw e refl
      | inr (c, e) ↦ elim (Bool-cases (j.job_id == c.job_id)) [
        | inr away ↦ rw e (changed_not (has_job_id c.job_id) (claim worker lease now) j away)
        | inl same ↦
            let (found, able) = candidate-found now js c unique e in
            let id : k ≡ c.job_id = sym (get-any k js j h).1 ∙ (==_iff j.job_id c.job_id).0 same in
            let one : j ≡ c =
              some-injective j c (sym h ∙ (ap (λ i. get_governance_job i js) id ∙ found)) in
            ground (arith, sym (ap (λ i. can_claim now i) one) ∙ not_able)
      ]
    ]

held_by_other :
    (p : JobStatus → Bool) (k w g expires now k' w' : ℕ) (g' : Option ℕ) (j : Job)
    → HeldBy k w g expires j
    → presents k w g k' w' g' ≡ false
    → held_by p k' w' g' now j ≡ false
held_by_other p k w g expires now k' w' g' j (e, (e', (e'', held))) h =
    rw (e, e', e'') (ground arith)

can_cancel_other :
    (k w g expires now k' : ℕ) (w' g' : Option ℕ) (j : Job)
    → HeldBy k w g expires j
    → presents_cancel k w g k' w' g' ≡ false
    → can_cancel k' w' g' now j ≡ false
can_cancel_other k w g expires now k' none g' j (e, (e', (e'', held))) h =
    rw (e, e'') (ground arith)
can_cancel_other k w g expires now k' (some v) g' j (e, (e', (e'', held))) h =
    rw (e, e', e'') (ground arith)

held_row :
    (o : Op) (k w g expires : ℕ) (s : Store) (j : Job)
    → unique_ids s.jobs ≡ true
    → get_governance_job k s.jobs ≡ some j
    → HeldBy k w g expires j
    → s.now < expires
    → comes_from k w g o ≡ false
    → row_op o s.now (candidate s.now s.jobs) j ≡ j
unfolding row_op comes_from
held_row (tick n) k w g expires s j unique h held time other = refl
held_row (create k' a t at) k w g expires s j unique h held time other = refl
held_row (claim_next w' lease) k w g expires s j unique h held time other =
    claimed_row_other k w' (lease_seconds lease) s.now s.jobs j unique h
      (not_claimable k w g expires s.now j held time)
held_row (heartbeat k' w' g' lease) k w g expires s j unique h held time other =
    rw (held_by_other is_held k w g expires s.now k' w' g' j held other) refl
held_row (to_running k' w' g') k w g expires s j unique h held time other =
    rw (held_by_other is_claimed k w g expires s.now k' w' g' j held other) refl
held_row (finish k' w' g') k w g expires s j unique h held time other =
    rw (held_by_other is_held k w g expires s.now k' w' g' j held other) refl
held_row (fail k' w' code message at g') k w g expires s j unique h held time other =
    rw (held_by_other is_held k w g expires s.now k' w' g' j held other) refl
held_row (cancel k' w' g') k w g expires s j unique h held time other =
    rw (can_cancel_other k w g expires s.now k' w' g' j held other) refl

-- The seconds that pass.
abbrev pub elapsed : List Op → ℕ
elapsed [] = 0
elapsed (tick n ∷ os) = n + elapsed os
elapsed (_ ∷ os) = elapsed os

insert_now : (b : Bool) (j : Job) (s : Store) → (insert_row b j s).1.now ≡ s.now + 0
insert_now true j s = omega arith
insert_now false j s = omega arith

claim_now :
    (o : Option Job) (w lease : ℕ) (s : Store) → (claim_candidate w lease o s).1.now ≡ s.now + 0
claim_now none w lease s = omega arith
claim_now (some c) w lease s = omega arith

now-apply : (o : Op) (s : Store) → (apply_op o s).now ≡ s.now + elapsed (o ∷ [])
unfolding create_governance_job claim_next_governance_job heartbeat_job transition_job_to_running
    complete_job fail_job cancel_job
now-apply (tick n) s = omega arith
now-apply (create k a t at) s = insert_now (any (has_job_id k) s.jobs) (new_job k a t at s.now) s
now-apply (claim_next w lease) s = claim_now (candidate s.now s.jobs) w (lease_seconds lease) s
now-apply (heartbeat k w g lease) s = omega arith
now-apply (to_running k w g) s = omega arith
now-apply (finish k w g) s = omega arith
now-apply (fail k w code message at g) s = omega arith
now-apply (cancel k w g) s = omega arith

elapsed-cons : (o : Op) (os : List Op) → elapsed (o ∷ os) ≡ elapsed (o ∷ []) + elapsed os
elapsed-cons (tick n) os = omega arith
elapsed-cons (create k a t at) os = omega arith
elapsed-cons (claim_next w lease) os = omega arith
elapsed-cons (heartbeat k w g lease) os = omega arith
elapsed-cons (to_running k w g) os = omega arith
elapsed-cons (finish k w g) os = omega arith
elapsed-cons (fail k w code message at g) os = omega arith
elapsed-cons (cancel k w g) os = omega arith

-- In a table with unique ids, while a worker holds a job and its lease lasts, no calls of others,
-- in any order and number, change the row: neither claims, nor calls with another worker or
-- another generation.
pub held_job_fenced :
    (os : List Op) (k w g expires : ℕ) (s : Store) (j : Job)
    → unique_ids s.jobs ≡ true
    → get_governance_job k s.jobs ≡ some j
    → HeldBy k w g expires j
    → s.now + elapsed os < expires
    → any (comes_from k w g) os ≡ false
    → get_governance_job k (apply_ops os s).jobs ≡ some j
unfolding apply_ops
held_job_fenced [] k w g expires s j unique h held time others = h
held_job_fenced (o ∷ os) k w g expires s j unique h held time others =
    let (other, others') = or_false (comes_from k w g o) (any (comes_from k w g) os) others in
    let split = elapsed-cons o os in
    let now = now-apply o s in
    let same = held_row o k w g expires s j unique h held (omega (arith, split, time)) other in
    held_job_fenced os k w g expires (apply_op o s) j (unique_ids-apply o s unique)
      (apply_op-row o k s j h ∙ ap some same) held (omega (arith, split, now, time)) others'
