-- ===== src/Decision/Passing.antt =====
-- The runs that pass (governance/decision.ts), stated without the list of reasons.
use mathlib.Core.Path.{subst}
use deeprun.Prelude.{
  ◌≡◌, ◌≢◌, refl, ◌↔◌, ◌⊎◌, inl, inr, Bool, true, false, not, List, [], ◌∷◌, Option, none, some,
  Text, codes, arith, append-nil, length, Bool-cases, is_absent, is_empty, Begins, starts_with_iff,
  denied, either,
}
use deeprun.Lifecycle.{Status, same_status, same_status→eq}
use deeprun.Json.{Json, null, boolean, number, string, array, object, get_in}
use deeprun.Decision.Accepting.{Seeded, payload_accepts_iff}
use deeprun.Decision.Model.{
  Reason, pass, ValidationStatus, passed, failed, Material, Contract, Detail, is_true, reason_if,
  contract_hash, refused, refused_by, says_unsupported, validation_reasons, result_record,
  v1_reasons, reasons_of, verdict_of, Decision, payload_of, payload_accepts,
  finalize_governance_decision, build_governance_decision,
}

-- The contract is there with its hash.
abbrev pub HasHash : Option Contract → Type 0
HasHash o = (c : Contract) × ((o ≡ some c) × (c.hash ≢ []))

-- Someone refused the contract: its support is denied, or the error message begins so.
abbrev pub Refused : Option Contract → Option Text → Type 0
Refused o message =
    ((c : Contract) × ((o ≡ some c) × (c.supported ≡ some false)))
    ⊎ ((t : Text) × ((message ≡ some t) × Begins (codes "UNSUPPORTED_CONTRACT:") t))

abbrev pub IsPinned : Option Text → Type 0
IsPinned o = (hash : Text) × ((o ≡ some hash) × (hash ≢ []))

-- A strict check for v1 passed, if one is asked for.
abbrev pub StrictPassed : Detail → Type 0
StrictPassed detail =
    (get_in (codes "strictV1Ready") (result_record detail (codes "governance"))
      ≢ some (boolean true))
    ⊎ (get_in (codes "ok") (result_record detail (codes "v1Ready")) ≡ some (boolean true))

abbrev pub Unobjected : Detail → Type 0
Unobjected detail =
    HasHash detail.contract
    × ((¬ (Refused detail.contract detail.error_message))
        × ((detail.status ≡ Status.complete)
            × ((detail.validation_status ≡ some passed)
                × (IsPinned detail.current_commit_hash × StrictPassed detail))))

-- There is no objection, and the payload keeps to its schema.
abbrev pub Passes : (Text → Bool) → Detail → Type 0
Passes is_uuid detail =
    Unobjected detail × ((is_uuid detail.run_id ≡ true) × Seeded detail.contract)

unless : {P : Type 0} (b : Bool) (r : Reason) → (b ≡ false) ↔ P → (reason_if b r ≡ []) ↔ P
unless true r (f, g) = ((λ h. ground arith), (λ p. ground (arith, g p)))
unless false r (f, g) = ((λ h. f refl), (λ p. refl))

filled : (t : Text) → (is_empty t ≡ false) ↔ (t ≢ [])
filled [] = ((λ h. absurd (cc h)), (λ h. absurd (h refl)))
filled (c ∷ t) = ((λ h e. absurd (cc e)), (λ h. refl))

present : (o : Option Text) → (is_absent o ≡ false) ↔ IsPinned o
present none = ((λ h. absurd (cc h)), (λ h. absurd (cc h.1.0)))
present (some t) =
    let (f, g) = filled t in
    ((λ h. (t, (refl, f h))), (λ h. g (λ e. h.1.1 (ground (arith, h.1.0)))))

has_hash : (o : Option Contract) → (is_absent (contract_hash o) ≡ false) ↔ HasHash o
has_hash none = ((λ h. absurd (cc h)), (λ h. absurd (cc h.1.0)))
has_hash (some c) =
    let (f, g) = filled c.hash in ((λ h. (c, (refl, f h))), (λ h. g (λ e. h.1.1 (cc (h.1.0, e)))))

denied_support : (o : Option Bool) → refused_by o ≡ true → o ≡ some false
denied_support none h = absurd (cc h)
denied_support (some true) h = absurd (cc h)
denied_support (some false) h = refl

refused_support :
    (o : Option Contract) (c : Contract) → o ≡ some c → c.supported ≡ some false → refused o ≡ true
refused_support o c e h = rw e (rw h refl)

refused_found :
    (o : Option Contract)
    → refused o ≡ true
    → (c : Contract) × ((o ≡ some c) × (c.supported ≡ some false))
refused_found none h = absurd (cc h)
refused_found (some c) h = (c, (refl, denied_support c.supported h))

refused_iff :
    (o : Option Contract)
    → (refused o ≡ true) ↔ ((c : Contract) × ((o ≡ some c) × (c.supported ≡ some false)))
refused_iff o = (refused_found o, (λ h. refused_support o h.0 h.1.0 h.1.1))

says_iff :
    (o : Option Text)
    → (says_unsupported o ≡ true)
      ↔ ((t : Text) × ((o ≡ some t) × Begins (codes "UNSUPPORTED_CONTRACT:") t))
says_iff none = ((λ h. absurd (cc h)), (λ h. absurd (cc h.1.0)))
says_iff (some t) =
    let (f, g) = starts_with_iff (codes "UNSUPPORTED_CONTRACT:") t in
    (
      (λ h. (t, (refl, f h))),
      (λ h. g (subst (Begins (codes "UNSUPPORTED_CONTRACT:")) (cc h.1.0) h.1.1)),
    )

is_complete : (s : Status) → (not (same_status s Status.complete) ≡ false) ↔ (s ≡ Status.complete)
is_complete s = ((λ h. same_status→eq s Status.complete (ground arith)), (λ e. rw e refl))

validated : (s : Option ValidationStatus) → (validation_reasons s ≡ []) ↔ (s ≡ some passed)
validated none = ((λ h. ground arith), (λ h. ground arith))
validated (some passed) = ((λ h. refl), (λ h. refl))
validated (some failed) = ((λ h. ground arith), (λ h. ground arith))

true_found : (o : Option Json) → is_true o ≡ true → o ≡ some (boolean true)
true_found none h = absurd (cc h)
true_found (some null) h = absurd (cc h)
true_found (some (boolean true)) h = refl
true_found (some (boolean false)) h = absurd (cc h)
true_found (some (number n)) h = absurd (cc h)
true_found (some (string t)) h = absurd (cc h)
true_found (some (array vs)) h = absurd (cc h)
true_found (some (object ms)) h = absurd (cc h)

is_true_iff : (o : Option Json) → (is_true o ≡ true) ↔ (o ≡ some (boolean true))
is_true_iff o = (true_found o, (λ e. rw e refl))

not_run : (ok : Option Json) → v1_reasons true ok ≡ [] → is_true ok ≡ true
not_run none h = absurd (cc h)
not_run (some null) h = absurd (cc h)
not_run (some (boolean true)) h = refl
not_run (some (boolean false)) h = absurd (cc h)
not_run (some (number n)) h = absurd (cc h)
not_run (some (string t)) h = absurd (cc h)
not_run (some (array vs)) h = absurd (cc h)
not_run (some (object ms)) h = absurd (cc h)

v1_ready :
    {P Q : Type 0} (b : Bool) (ok : Option Json)
    → (b ≡ false) ↔ P
    → (ok ≡ some (boolean true)) ↔ Q
    → (v1_reasons b ok ≡ []) ↔ (P ⊎ Q)
v1_ready false ok (f, g) (f', g') = ((λ h. inl (f refl)), (λ h. refl))
v1_ready true ok (f, g) (f', g') = (
  (λ h. inr (f' (true_found ok (not_run ok h)))),
  (λ h. elim h [ inl p ↦ absurd (cc (g p)) | inr q ↦ rw (g' q) refl ]),
)

reasons_of-nil : (detail : Detail) → (reasons_of detail ≡ []) ↔ Unobjected detail
unfolding reasons_of
reasons_of-nil detail =
    let strict = get_in (codes "strictV1Ready") (result_record detail (codes "governance")) in
    append-nil _ _ (unless _ _ (has_hash detail.contract)) (
      append-nil _ _
        (unless _ _
          (denied _ (either _ _ (refused_iff detail.contract) (says_iff detail.error_message))))
        (append-nil _ _ (unless _ _ (is_complete detail.status)) (
          append-nil _ _ (validated detail.validation_status) (
            append-nil _ _ (unless _ _ (present detail.current_commit_hash)) (
              v1_ready (is_true strict)
                (get_in (codes "ok") (result_record detail (codes "v1Ready")))
                (denied _ (is_true_iff strict)) ((λ h. h), (λ h. h)))))))

verdict_of-pass : (rs : List Reason) → (verdict_of rs ≡ pass) ↔ (rs ≡ [])
verdict_of-pass [] = ((λ h. refl), (λ h. refl))
verdict_of-pass (r ∷ rs) = ((λ h. ground arith), (λ h. ground arith))

-- The result is a decision that says pass; a parse that throws gives none.
abbrev pub SaysPass : Option (Decision × Text) → Type 0
SaysPass none = ⊥
SaysPass (some (payload, hash)) = payload.decision ≡ pass

finalized :
    (is_uuid : Text → Bool) (decision_hash : Decision → Text) (payload : Decision)
    → length (decision_hash payload) ≡ 64
    → SaysPass (finalize_governance_decision is_uuid decision_hash payload)
      ↔ ((payload.decision ≡ pass) × (payload_accepts is_uuid payload ≡ true))
unfolding finalize_governance_decision
finalized is_uuid decision_hash payload digits =
    elim (Bool-cases (payload_accepts is_uuid payload)) [
      | inl e ↦ rw (e, digits) ((λ h. (h, refl)), (λ h. h.0))
      | inr e ↦ rw e ((λ h. absurd h), (λ h. absurd (cc h.1)))
    ]

-- Where the hashes have 64 digits, buildGovernanceDecision returns a decision that says pass, and
-- does not throw, exactly if the run has an execution contract with a hash; the contract's support
-- is not denied and the run's error message does not begin with UNSUPPORTED_CONTRACT: ; the run is
-- complete, its validation passed and its commit is pinned; a check for v1, if it is strict, passed
-- too; the id of the run is a UUID, and the contract's seed is no empty text.
pub build_governance_decision-Passes :
    (trim : Text → Text) (is_uuid : Text → Bool) (identity_hash : Material → Text)
    (decision_hash : Decision → Text) (detail : Detail)
    → ((m : Material) → length (identity_hash m) ≡ 64)
    → ((d : Decision) → length (decision_hash d) ≡ 64)
    → SaysPass (build_governance_decision trim is_uuid identity_hash decision_hash detail)
      ↔ Passes is_uuid detail
unfolding build_governance_decision
build_governance_decision-Passes trim is_uuid identity_hash decision_hash detail short digits =
    let payload = payload_of trim identity_hash detail in
    let (f, g) = finalized is_uuid decision_hash payload (digits payload) in
    let (f', g') = payload_accepts_iff trim is_uuid identity_hash detail short in
    let (h, k) = verdict_of-pass (reasons_of detail) in
    let (h', k') = reasons_of-nil detail in
    (
      (λ p. let (decided, accepted) = f p in (h' (h decided), f' accepted)),
      (λ p. g (k (k' p.0), g' p.1)),
    )
