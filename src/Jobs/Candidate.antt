-- ===== src/Jobs/Candidate.antt =====
-- The rows of governance_jobs by id, and the row that a claim takes
-- (governance/governance-store.ts).
use deeprun.Prelude.{
  ℕ, ◌≡◌, refl, sym, ap, ◌∙◌, Bool, true, false, not, ◌&&◌, ◌==◌, List, [], ◌∷◌, map, any, Option,
  none, some, arith, if◌then◌else◌, Bool-cases, inl, inr, ==_refl, ==_iff, leb, ◌⊎◌,
}
use mathlib.Core.Path.{subst}
use mathlib.Core.Option.{some-injective}
use deeprun.Jobs.Model.{Job, has_job_id, changed, can_claim, earlier, candidate, get_governance_job}

unfoldable pub unique_ids : List Job → Bool
unique_ids [] = true
unique_ids (j ∷ js) = not (any (has_job_id j.job_id) js) && unique_ids js

-- The row is there under its id.
pub get-any :
    (k : ℕ) (js : List Job) (j : Job)
    → get_governance_job k js ≡ some j
    → (any (has_job_id k) js ≡ true) × (j.job_id ≡ k)
unfolding get_governance_job
get-any k [] j h = ground arith
get-any k (a ∷ js) j h = ground (arith, get-any k js j)

pub get-update :
    (k : ℕ) (p : Job → Bool) (f : Job → Job) (js : List Job) (j : Job)
    → ((i : Job) → (f i).job_id ≡ i.job_id)
    → get_governance_job k js ≡ some j
    → get_governance_job k (map (changed p f) js) ≡ some (changed p f j)
unfolding get_governance_job
get-update k p f [] j keeps h = ground arith
get-update k p f (a ∷ js) j keeps h = ground (arith, keeps a, get-update k p f js j keeps)

pub any-update :
    (k : ℕ) (p : Job → Bool) (f : Job → Job) (js : List Job)
    → ((i : Job) → (f i).job_id ≡ i.job_id)
    → any (has_job_id k) (map (changed p f) js) ≡ any (has_job_id k) js
any-update k p f [] keeps = refl
any-update k p f (a ∷ js) keeps = ground (arith, keeps a, any-update k p f js keeps)

pub unique_ids-update :
    (p : Job → Bool) (f : Job → Job) (js : List Job)
    → ((i : Job) → (f i).job_id ≡ i.job_id)
    → unique_ids (map (changed p f) js) ≡ unique_ids js
unfolding unique_ids
unique_ids-update p f [] keeps = refl
unique_ids-update p f (a ∷ js) keeps =
    ground (arith, keeps a, any-update a.job_id p f js keeps, unique_ids-update p f js keeps)

one_of :
    (b : Bool) (j k c : Job) → (if b then some j else some k) ≡ some c → (j ≡ c) ⊎ (some k ≡ some c)
one_of true j k c h = inl (some-injective j c h)
one_of false j k c h = inr h

picked :
    (b : Bool) (j : Job) (rest : Option Job) (c : Job)
    → (if b then earlier j rest else rest) ≡ some c
    → ((j ≡ c) × (b ≡ true)) ⊎ (rest ≡ some c)
picked true j none c h = inl (some-injective j c h, refl)
picked true j (some k) c h = elim (one_of (leb j.available_at k.available_at) j k c h) [
  | inl e ↦ inl (e, refl)
  | inr e ↦ inr e
]
picked false j rest c h = inr h

apart :
    (j c : Job) (js : List Job)
    → any (has_job_id j.job_id) js ≡ false
    → get_governance_job c.job_id js ≡ some c
    → (j.job_id == c.job_id) ≡ false
apart j c js none_such h = elim (Bool-cases (j.job_id == c.job_id)) [
  | inr e ↦ e
  | inl e ↦
      let same : j.job_id ≡ c.job_id = (==_iff j.job_id c.job_id).0 e in
      let found : any (has_job_id c.job_id) js ≡ true = (get-any c.job_id js c h).0 in
      ground (arith, sym (ap (λ k. any (has_job_id k) js) same) ∙ none_such)
]

unique-head :
    (j : Job) (js : List Job)
    → unique_ids (j ∷ js) ≡ true
    → (any (has_job_id j.job_id) js ≡ false) × (unique_ids js ≡ true)
unfolding unique_ids
unique-head j js h = ground arith

past_head :
    (j c : Job) (js : List Job)
    → (j.job_id == c.job_id) ≡ false
    → get_governance_job c.job_id js ≡ some c
    → get_governance_job c.job_id (j ∷ js) ≡ some c
unfolding get_governance_job
past_head j c js e h = rw e h

at_head : (j c : Job) (js : List Job) → j ≡ c → get_governance_job c.job_id (j ∷ js) ≡ some c
unfolding get_governance_job
at_head j c js e =
    subst (λ i. get_governance_job i.job_id (j ∷ js) ≡ some i) e (rw (==_refl j.job_id) refl)

-- The row that is claimed is one that can be, and it is the one under its id.
pub candidate-found :
    (now : ℕ) (js : List Job) (c : Job)
    → unique_ids js ≡ true
    → candidate now js ≡ some c
    → (get_governance_job c.job_id js ≡ some c) × (can_claim now c ≡ true)
unfolding candidate
candidate-found now [] c unique h = ground arith
candidate-found now (j ∷ js) c unique h =
    let (fresh, unique') = unique-head j js unique in
    elim (picked (can_claim now j) j (candidate now js) c h) [
      | inl (e, able) ↦ (at_head j c js e, subst (λ i. can_claim now i ≡ true) e able)
      | inr rest ↦
          let (found, able) = candidate-found now js c unique' rest in
          (past_head j c js (apart j c js fresh found) found, able)
    ]
