-- ===== src/Decision/Accepting.antt =====
-- When the payload of a decision keeps to its schema (governance/decision.ts
-- `finalizeGovernanceDecision`).
use deeprun.Prelude.{
  ℕ, ◌≡◌, ◌≢◌, refl, ◌↔◌, Bool, true, false, not, ◌&&◌, ◌==◌, List, [], ◌∷◌, ◌++◌, every, Option,
  none, some, Text, codes, arith, leb, length, is_empty, Bool-cases, inl, inr, if◌then◌else◌,
}
use deeprun.Json.{get_in, to_record}
use deeprun.GraphIdentity.Identity.{edge_le, insert_sorted, sorted}
use deeprun.Decision.Model.{
  Material, Contract, Detail, or_one, config_version, policy_versions, contract_summary,
  contract_accepts, ref_accepts, ref_if, string_of, artifact_refs_of, identity_of, payload_of,
  payload_accepts,
}

-- The contract, if there is one, has a seed.
abbrev pub Seeded : Option Contract → Type 0
Seeded none = Unit
Seeded (some c) = c.material.randomness_seed ≢ []

or_one_positive : (n : ℕ) → leb 1 (or_one n) ≡ true
or_one_positive n = ground arith

config_positive : (n : Option ℕ) → leb 1 (config_version n) ≡ true
config_positive none = refl
config_positive (some n) = or_one_positive n

schema_positive : (n : ℕ) (m : Option ℕ) → leb 1 (if n == 0 then config_version m else n) ≡ true
schema_positive n m = ground (arith, config_positive m)

or_missing : (t : Text) → is_empty (if is_empty t then codes "missing" else t) ≡ false
or_missing [] = refl
or_missing (c ∷ t) = refl

has_seed : (t : Text) → (not (is_empty t) ≡ true) ↔ (t ≢ [])
has_seed [] = ((λ h. absurd (cc h)), (λ h. absurd (h refl)))
has_seed (c ∷ t) = ((λ h e. absurd (cc e)), (λ h. refl))

contract_accepts_iff :
    (detail : Detail) (o : Option Contract)
    → (contract_accepts (contract_summary detail o) ≡ true) ↔ Seeded o
unfolding contract_summary policy_versions
contract_accepts_iff detail none =
    rw (config_positive detail.config_schema_version) ((λ h. tt), (λ h. refl))
contract_accepts_iff detail (some c) =
    let v = policy_versions c.material.policy in
    rw
      (
        schema_positive c.schema_version detail.config_schema_version,
        or_missing c.hash,
        or_one_positive v.determinism_policy_version,
        or_one_positive v.normalization_policy_version,
        or_one_positive v.planner_policy_version,
        or_one_positive v.correction_recipe_version,
        or_one_positive v.validation_policy_version,
        or_one_positive v.governance_policy_version,
      )
      (has_seed c.material.randomness_seed)

every-insert_sorted :
    (x : Text × Text) (ys : List (Text × Text))
    → ref_accepts x ≡ true
    → every ref_accepts ys ≡ true
    → every ref_accepts (insert_sorted edge_le x ys) ≡ true
every-insert_sorted x [] h k = rw h refl
every-insert_sorted x (y ∷ ys) h k = elim (Bool-cases (edge_le x y)) [
  | inl e ↦ rw (e, h) k
  | inr e ↦ rw e (ground (arith, k, every-insert_sorted x ys h))
]

every-sorted :
    (xs : List (Text × Text))
    → every ref_accepts xs ≡ true
    → every ref_accepts (sorted edge_le xs) ≡ true
every-sorted [] h = refl
every-sorted (x ∷ xs) h =
    every-insert_sorted x (sorted edge_le xs) (ground (arith, h))
      (every-sorted xs (ground (arith, h)))

every-append :
    (xs ys : List (Text × Text))
    → every ref_accepts xs ≡ true
    → every ref_accepts ys ≡ true
    → every ref_accepts (xs ++ ys) ≡ true
every-append [] ys h k = k
every-append (x ∷ xs) ys h k = ground (arith, h, every-append xs ys)

every-ref_if :
    (trim : Text → Text) (kind : Text) (o : Option Text)
    → is_empty kind ≡ false
    → every ref_accepts (ref_if trim kind o) ≡ true
every-ref_if trim kind none h = refl
every-ref_if trim kind (some path) h = elim (Bool-cases (is_empty (trim path))) [
  | inl e ↦ rw e refl
  | inr e ↦ rw e (rw (h, e) refl)
]

refs_accept :
    (trim : Text → Text) (detail : Detail) → every ref_accepts (artifact_refs_of trim detail) ≡ true
unfolding artifact_refs_of
refs_accept trim detail =
    let tree = ref_if trim (codes "run_worktree") detail.worktree_path in
    let target =
      ref_if trim (codes "validation_target")
        (string_of (get_in (codes "targetPath") (to_record detail.validation_result))) in
    every-sorted (tree ++ target) (
      every-append tree target (every-ref_if trim (codes "run_worktree") detail.worktree_path refl)
        (every-ref_if trim (codes "validation_target")
          (string_of (get_in (codes "targetPath") (to_record detail.validation_result))) refl))

identity-length :
    (identity_hash : Material → Text)
    → ((m : Material) → length (identity_hash m) ≡ 64)
    → (o : Option Contract) → (length (identity_of identity_hash o) == 64) ≡ true
identity-length identity_hash digits none = refl
identity-length identity_hash digits (some c) = rw (digits c.material) refl

both : {P Q : Type 0} (a b : Bool) → (a ≡ true) ↔ P → (b ≡ true) ↔ Q → ((a && b) ≡ true) ↔ (P × Q)
both true b (f, g) (h, k) = ((λ e. (f refl, h e)), (λ r. k r.1))
both false b (f, g) (h, k) = ((λ e. absurd (cc e)), (λ r. absurd (cc (g r.0))))

and_true : {P : Type 0} (a b : Bool) → (a ≡ true) ↔ P → b ≡ true → ((a && b) ≡ true) ↔ P
and_true true b (f, g) h = ((λ e. f refl), (λ p. h))
and_true false b (f, g) h = ((λ e. absurd (cc e)), (λ p. absurd (cc (g p))))

pub payload_accepts_iff :
    (trim : Text → Text) (is_uuid : Text → Bool) (identity_hash : Material → Text) (detail : Detail)
    → ((m : Material) → length (identity_hash m) ≡ 64)
    → (payload_accepts is_uuid (payload_of trim identity_hash detail) ≡ true)
      ↔ ((is_uuid detail.run_id ≡ true) × Seeded detail.contract)
payload_accepts_iff trim is_uuid identity_hash detail digits =
    both _ _ ((λ h. h), (λ h. h))
      (and_true _ _ (contract_accepts_iff detail detail.contract)
        (rw (identity-length identity_hash digits detail.contract, refs_accept trim detail) refl))
