-- ===== src/RunJobs/Unique.antt =====
-- A run has at most one active job, whatever is called (lib/project-store.ts).
use deeprun.Prelude.{
  ℕ, ◌≡◌, refl, sym, ap, ◌∙◌, Bool, true, false, not, ◌&&◌, ◌||◌, ◌==◌, List, [], ◌∷◌, map, any,
  All, Option, none, some, arith, if◌then◌else◌, ◌⊎◌, inl, inr, ==_refl, ==_iff, leb,
}
use mathlib.Core.Path.{subst}
use mathlib.Core.Option.{some-injective}
use deeprun.RunJobs.Model.{
  RunJob, Db, ClaimInput, is_open, active_for, changed, can_claim, earlier, candidate, taken_by,
}

abbrev pub has_id : ℕ → RunJob → Bool
has_id k j = j.id == k

unfoldable pub unique_ids : List RunJob → Bool
unique_ids [] = true
unique_ids (j ∷ js) = not (any (has_id j.id) js) && unique_ids js

unfoldable pub one_active : List RunJob → Bool
one_active [] = true
one_active (j ∷ js) = not (is_open j.status && any (active_for j.run_id) js) && one_active js

-- Both unique indexes hold.
abbrev pub Indexed : List RunJob → Type 0
Indexed js = (unique_ids js ≡ true) × (one_active js ≡ true)

-- An update that activates no row.
abbrev pub Calm : (RunJob → Bool) → RunJob → Type 0
Calm p j = p j ≡ true → is_open j.status ≡ true

any-update :
    (k : ℕ) (p : RunJob → Bool) (f : RunJob → RunJob) (js : List RunJob)
    → ((i : RunJob) → (f i).id ≡ i.id)
    → any (has_id k) (map (changed p f) js) ≡ any (has_id k) js
any-update k p f [] keeps = refl
any-update k p f (a ∷ js) keeps = ground (arith, keeps a, any-update k p f js keeps)

pub unique_ids-update :
    (p : RunJob → Bool) (f : RunJob → RunJob) (js : List RunJob)
    → ((i : RunJob) → (f i).id ≡ i.id)
    → unique_ids (map (changed p f) js) ≡ unique_ids js
unfolding unique_ids
unique_ids-update p f [] keeps = refl
unique_ids-update p f (a ∷ js) keeps =
    ground (arith, keeps a, any-update a.id p f js keeps, unique_ids-update p f js keeps)

none_activated :
    (run : ℕ) (p : RunJob → Bool) (f : RunJob → RunJob) (js : List RunJob)
    → ((i : RunJob) → (f i).run_id ≡ i.run_id)
    → All (Calm p) js
    → any (active_for run) js ≡ false
    → any (active_for run) (map (changed p f) js) ≡ false
none_activated run p f [] keeps calm h = refl
none_activated run p f (a ∷ js) keeps (one, calm) h =
    ground (arith, keeps a, one, none_activated run p f js keeps calm)

pub one_active-update :
    (p : RunJob → Bool) (f : RunJob → RunJob) (js : List RunJob)
    → ((i : RunJob) → (f i).run_id ≡ i.run_id)
    → All (Calm p) js
    → one_active js ≡ true
    → one_active (map (changed p f) js) ≡ true
unfolding one_active
one_active-update p f [] keeps calm h = refl
one_active-update p f (a ∷ js) keeps (one, calm) h = ground (
  arith,
  keeps a,
  one,
  none_activated a.run_id p f js keeps calm,
  one_active-update p f js keeps calm,
)

pub taken-Calm : (k n : ℕ) (js : List RunJob) → All (Calm (taken_by k n)) js
taken-Calm k n [] = tt
taken-Calm k n (j ∷ js) = ((λ h. ground arith), taken-Calm k n js)

-- The row that a claim takes is the only one under its id.
unfoldable pub Only : (RunJob → Bool) → ℕ → RunJob → Type 0
Only p k j = (j.id == k) ≡ true → p j ≡ true

one_of :
    (b : Bool) (i l d : RunJob)
    → (if b then some i else some l) ≡ some d
    → ((i ≡ d) × (true ≡ true)) ⊎ (some l ≡ some d)
one_of true i l d e = inl (some-injective i d e, refl)
one_of false i l d e = inr e

picked :
    (b : Bool) (j : RunJob) (rest : Option RunJob) (c : RunJob)
    → (if b then earlier j rest else rest) ≡ some c
    → ((j ≡ c) × (b ≡ true)) ⊎ (rest ≡ some c)
picked false j rest c h = inr h
picked true j none c h = inl (some-injective j c h, refl)
picked true j (some k) c h = one_of (leb j.created_at k.created_at) j k c h

candidate-any :
    (p : RunJob → Bool) (js : List RunJob) (c : RunJob)
    → candidate p js ≡ some c
    → any (has_id c.id) js ≡ true
unfolding candidate
candidate-any p [] c h = ground arith
candidate-any p (j ∷ js) c h = elim (picked (p j) j (candidate p js) c h) [
  | inl (e, able) ↦
      subst (λ i. (has_id i.id j || any (has_id i.id) js) ≡ true) e (rw (==_refl j.id) refl)
  | inr e ↦ rw (candidate-any p js c e) (ground arith)
]

absent-Only :
    (p : RunJob → Bool) (k : ℕ) (js : List RunJob) → any (has_id k) js ≡ false → All (Only p k) js
unfolding Only
absent-Only p k [] h = tt
absent-Only p k (j ∷ js) h = ((λ e. ground arith), absent-Only p k js (ground arith))

unique-head :
    (j : RunJob) (js : List RunJob)
    → unique_ids (j ∷ js) ≡ true
    → (any (has_id j.id) js ≡ false) × (unique_ids js ≡ true)
unfolding unique_ids
unique-head j js h = ground arith

head-Only :
    (p : RunJob → Bool) (j c : RunJob) (js : List RunJob)
    → any (has_id j.id) js ≡ false
    → any (has_id c.id) js ≡ true
    → Only p c.id j
unfolding Only
head-Only p j c js fresh found = λ e.
    let same : j.id ≡ c.id = (==_iff j.id c.id).0 e in
    ground (arith, sym (ap (λ k. any (has_id k) js) same) ∙ fresh)

taken_head :
    (p : RunJob → Bool) (j c : RunJob) (js : List RunJob)
    → j ≡ c
    → p j ≡ true
    → any (has_id j.id) js ≡ false
    → All (Only p c.id) (j ∷ js)
unfolding Only
taken_head p j c js e able fresh =
    ((λ _. able), subst (λ i. All (Only p i.id) js) e (absent-Only p j.id js fresh))

pub candidate-Only :
    (p : RunJob → Bool) (js : List RunJob) (c : RunJob)
    → unique_ids js ≡ true
    → candidate p js ≡ some c
    → All (Only p c.id) js
unfolding candidate
candidate-Only p [] c unique h = tt
candidate-Only p (j ∷ js) c unique h =
    let (fresh, unique') = unique-head j js unique in
    elim (picked (p j) j (candidate p js) c h) [
      | inl (e, able) ↦ taken_head p j c js e able fresh
      | inr e ↦ (head-Only p j c js fresh (candidate-any p js c e), candidate-Only p js c unique' e)
    ]

pub can_claim-active :
    (contained : ℕ → ℕ → Bool) (input : ClaimInput) (db : Db) (j : RunJob)
    → can_claim contained input db j ≡ true
    → is_open j.status ≡ true
unfolding can_claim
can_claim-active contained input db j h = ground arith

pub claim-Calm :
    (contained : ℕ → ℕ → Bool) (input : ClaimInput) (db : Db) (k : ℕ) (js : List RunJob)
    → All (Only (can_claim contained input db) k) js
    → All (Calm (has_id k)) js
unfolding Only
claim-Calm contained input db k [] only = tt
claim-Calm contained input db k (j ∷ js) (one, only) =
    ((λ h. can_claim-active contained input db j (one h)), claim-Calm contained input db k js only)
