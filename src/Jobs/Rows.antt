-- ===== src/Jobs/Rows.antt =====
-- What one operation on governance_jobs does to one row (governance/governance-store.ts).
use deeprun.Prelude.{
  ℕ, ◌+◌, ◌≡◌, refl, ◌∙◌, Bool, true, false, ◌||◌, List, [], ◌∷◌, ◌++◌, any, Option, none, some,
  arith, Bool-cases, inl, inr, Text,
}
use deeprun.Jobs.Model.{
  running, complete, cancelled, Job, Store, has_job_id, is_held, is_claimed, changed, lease_seconds,
  new_job, insert_row, create_governance_job, candidate, claim, claim_candidate,
  claim_next_governance_job, held_by, heartbeat_job, transition_job_to_running, complete_job,
  after_failure, fail_job, can_cancel, cancel_job, get_governance_job,
}
use deeprun.Jobs.Calls.{
  Op, tick, create, claim_next, heartbeat, to_running, finish, fail, cancel, apply_op,
}
use deeprun.Jobs.Candidate.{unique_ids, get-update, unique_ids-update}

-- What the operation does to a row, given the one that a claim would take.
abbrev pub claimed_row : ℕ → ℕ → ℕ → Option Job → Job → Job
claimed_row worker_id lease now none j = j
claimed_row worker_id lease now (some c) j =
    changed (has_job_id c.job_id) (claim worker_id lease now) j

unfoldable pub row_op : Op → ℕ → Option Job → Job → Job
row_op (tick n) now c j = j
row_op (create k a t at) now c j = j
row_op (claim_next w lease) now c j = claimed_row w (lease_seconds lease) now c j
row_op (heartbeat k w g lease) now c j =
    changed (held_by is_held k w g now)
      (λ i. record i {
        heartbeat_at = some now;
        lease_expires_at = some (now + lease_seconds lease);
        updated_at = now;
      })
      j
row_op (to_running k w g) now c j =
    changed (held_by is_claimed k w g now) (λ i. record i { status = running; updated_at = now }) j
row_op (finish k w g) now c j =
    changed (held_by is_held k w g now)
      (λ i. record i { status = complete; lease_expires_at = none; updated_at = now }) j
row_op (fail k w code message at g) now c j =
    changed (held_by is_held k w g now) (after_failure code message at now) j
row_op (cancel k w g) now c j =
    changed (can_cancel k w g now)
      (λ i. record i { status = cancelled; lease_expires_at = none; updated_at = now }) j

after_failure_id :
    (code message : Text) (at : Option ℕ) (now : ℕ) (i : Job)
    → (after_failure code message at now i).job_id ≡ i.job_id
after_failure_id code message none now i = refl
after_failure_id code message (some at) now i = refl

get-append :
    (k : ℕ) (js : List Job) (j i : Job)
    → get_governance_job k js ≡ some j
    → get_governance_job k (js ++ i ∷ []) ≡ some j
unfolding get_governance_job
get-append k [] j i h = ground arith
get-append k (a ∷ js) j i h = ground (arith, get-append k js j i)

get-create :
    (b : Bool) (k : ℕ) (s : Store) (j i : Job)
    → get_governance_job k s.jobs ≡ some j
    → get_governance_job k (insert_row b i s).1.jobs ≡ some j
get-create true k s j i h = h
get-create false k s j i h = get-append k s.jobs j i h

get-claim :
    (o : Option Job) (w lease k : ℕ) (s : Store) (j : Job)
    → get_governance_job k s.jobs ≡ some j
    → get_governance_job k (claim_candidate w lease o s).1.jobs
      ≡ some (claimed_row w lease s.now o j)
get-claim none w lease k s j h = h
get-claim (some c) w lease k s j h =
    get-update k (has_job_id c.job_id) (claim w lease s.now) s.jobs j (λ i. refl) h

pub apply_op-row :
    (o : Op) (k : ℕ) (s : Store) (j : Job)
    → get_governance_job k s.jobs ≡ some j
    → get_governance_job k (apply_op o s).jobs ≡ some (row_op o s.now (candidate s.now s.jobs) j)
unfolding row_op create_governance_job claim_next_governance_job heartbeat_job
    transition_job_to_running complete_job fail_job cancel_job
apply_op-row (tick n) k s j h = h
apply_op-row (create k' a t at) k s j h =
    get-create (any (has_job_id k') s.jobs) k s j (new_job k' a t at s.now) h
apply_op-row (claim_next w lease) k s j h =
    get-claim (candidate s.now s.jobs) w (lease_seconds lease) k s j h
apply_op-row (heartbeat k' w g lease) k s j h = get-update k _ _ s.jobs j (λ i. refl) h
apply_op-row (to_running k' w g) k s j h = get-update k _ _ s.jobs j (λ i. refl) h
apply_op-row (finish k' w g) k s j h = get-update k _ _ s.jobs j (λ i. refl) h
apply_op-row (fail k' w code message at g) k s j h =
    get-update k _ _ s.jobs j (after_failure_id code message at s.now) h
apply_op-row (cancel k' w g) k s j h = get-update k _ _ s.jobs j (λ i. refl) h

any-append :
    (k : ℕ) (js : List Job) (i : Job)
    → any (has_job_id k) (js ++ i ∷ []) ≡ (any (has_job_id k) js || has_job_id k i)
any-append k [] i = ground arith
any-append k (a ∷ js) i = ground (arith, any-append k js i)

unique_ids-append :
    (js : List Job) (i : Job)
    → unique_ids js ≡ true
    → any (has_job_id i.job_id) js ≡ false
    → unique_ids (js ++ i ∷ []) ≡ true
unfolding unique_ids
unique_ids-append [] i unique fresh = refl
unique_ids-append (a ∷ js) i unique fresh =
    ground (arith, any-append a.job_id js i, unique_ids-append js i)

unique_ids-create :
    (s : Store) (i : Job)
    → unique_ids s.jobs ≡ true
    → unique_ids (insert_row (any (has_job_id i.job_id) s.jobs) i s).1.jobs ≡ true
unique_ids-create s i unique = elim (Bool-cases (any (has_job_id i.job_id) s.jobs)) [
  | inl e ↦ rw e unique
  | inr e ↦ rw e (unique_ids-append s.jobs i unique e)
]

unique_ids-claim :
    (o : Option Job) (w lease : ℕ) (s : Store)
    → unique_ids s.jobs ≡ true
    → unique_ids (claim_candidate w lease o s).1.jobs ≡ true
unique_ids-claim none w lease s unique = unique
unique_ids-claim (some c) w lease s unique =
    unique_ids-update (has_job_id c.job_id) (claim w lease s.now) s.jobs (λ i. refl) ∙ unique

pub unique_ids-apply :
    (o : Op) (s : Store) → unique_ids s.jobs ≡ true → unique_ids (apply_op o s).jobs ≡ true
unfolding create_governance_job claim_next_governance_job heartbeat_job transition_job_to_running
    complete_job fail_job cancel_job
unique_ids-apply (tick n) s h = h
unique_ids-apply (create k a t at) s h = unique_ids-create s (new_job k a t at s.now) h
unique_ids-apply (claim_next w lease) s h =
    unique_ids-claim (candidate s.now s.jobs) w (lease_seconds lease) s h
unique_ids-apply (heartbeat k w g lease) s h = unique_ids-update _ _ s.jobs (λ i. refl) ∙ h
unique_ids-apply (to_running k w g) s h = unique_ids-update _ _ s.jobs (λ i. refl) ∙ h
unique_ids-apply (finish k w g) s h = unique_ids-update _ _ s.jobs (λ i. refl) ∙ h
unique_ids-apply (fail k w code message at g) s h =
    unique_ids-update _ _ s.jobs (after_failure_id code message at s.now) ∙ h
unique_ids-apply (cancel k w g) s h = unique_ids-update _ _ s.jobs (λ i. refl) ∙ h
