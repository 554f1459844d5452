-- ===== src/Decision/Model.antt =====
-- The decision on a run (governance/decision.ts `buildGovernanceDecision`,
-- `finalizeGovernanceDecision` and the schemas that it parses by).
use deeprun.Prelude.{
  ℕ, Bool, true, false, not, ◌||◌, ◌==◌, List, [], ◌∷◌, ◌++◌, filter, Option, none, some, Text,
  codes, is_empty, is_absent, starts_with, if◌then◌else◌, ◌&&◌, leb, length, every,
}
use deeprun.Lifecycle.{Status, same_status}
use deeprun.Json.{Json, boolean, string, Members, get_in, to_record}
use deeprun.GraphIdentity.Identity.{edge_le, sorted}

-- The codes of the reasons; their messages and details only repeat the data.
pub data Reason : Type 0 where
  execution_contract_missing unsupported_contract run_not_complete : Reason
  run_not_validated run_validation_failed run_commit_unpinned : Reason
  run_v1_ready_not_run run_v1_ready_failed : Reason

pub data Verdict : Type 0 where
  pass fail : Verdict

pub data ValidationStatus : Type 0 where
  failed passed : ValidationStatus

-- AgentRunExecutionPolicyVersions.
pub record PolicyVersions : Type 0 where
  pub determinism_policy_version : ℕ
  pub normalization_policy_version : ℕ
  pub planner_policy_version : ℕ
  pub correction_recipe_version : ℕ
  pub validation_policy_version : ℕ
  pub governance_policy_version : ℕ

-- The material of a contract: the old form has four of the versions.
pub data PolicyMaterial : Type 0 where
  versioned : PolicyVersions → PolicyMaterial
  unversioned : ℕ → ℕ → ℕ → ℕ → PolicyMaterial

pub record Material : Type 0 where
  pub policy : PolicyMaterial
  pub randomness_seed : Text

-- AgentRunExecutionContract, of the support its flag.
pub record Contract : Type 0 where
  pub schema_version : ℕ
  pub hash : Text
  pub material : Material
  pub supported : Option Bool

-- AgentRunDetail, with the run in it, as far as it is read.
pub record Detail : Type 0 where
  pub run_id : Text
  pub status : Status
  pub error_message : Option Text
  pub validation_status : Option ValidationStatus
  pub validation_result : Option Json
  pub current_commit_hash : Option Text
  pub worktree_path : Option Text
  pub contract : Option Contract
  pub config_schema_version : Option ℕ

pub record ContractSummary : Type 0 where
  pub schema_version : ℕ
  pub hash : Text
  pub versions : PolicyVersions
  pub randomness_seed : Text

pub record Decision : Type 0 where
  pub decision : Verdict
  pub reason_codes : List Reason
  pub reasons : List Reason
  pub run_id : Text
  pub contract : ContractSummary
  pub control_plane_identity_hash : Text
  pub artifact_refs : List (Text × Text)

abbrev pub is_true : Option Json → Bool
is_true (some (boolean true)) = true
is_true _ = false

abbrev pub is_boolean : Option Json → Bool
is_boolean (some (boolean b)) = true
is_boolean _ = false

abbrev pub reason_if : Bool → Reason → List Reason
reason_if true r = r ∷ []
reason_if false r = []

abbrev pub contract_hash : Option Contract → Option Text
contract_hash none = none
contract_hash (some c) = some c.hash

abbrev pub refused_by : Option Bool → Bool
refused_by none = false
refused_by (some supported) = not supported

-- `contractSupport && !contractSupport.supported`.
abbrev pub refused : Option Contract → Bool
refused none = false
refused (some c) = refused_by c.supported

abbrev pub says_unsupported : Option Text → Bool
says_unsupported none = false
says_unsupported (some t) = starts_with (codes "UNSUPPORTED_CONTRACT:") t

abbrev pub validation_reasons : Option ValidationStatus → List Reason
validation_reasons none = run_not_validated ∷ []
validation_reasons (some passed) = []
validation_reasons (some failed) = run_validation_failed ∷ []

abbrev pub result_record : Detail → Text → Option Members
result_record detail key = to_record (get_in key (to_record detail.validation_result))

abbrev pub v1_reasons : Bool → Option Json → List Reason
v1_reasons false ok = []
v1_reasons true ok =
    if not (is_boolean ok)
    then run_v1_ready_not_run ∷ []
    else reason_if (not (is_true ok)) run_v1_ready_failed

unfoldable pub reasons_of : Detail → List Reason
reasons_of detail =
    reason_if (is_absent (contract_hash detail.contract)) execution_contract_missing
    ++ (reason_if (refused detail.contract || says_unsupported detail.error_message)
          unsupported_contract
        ++ (reason_if (not (same_status detail.status Status.complete)) run_not_complete
            ++ (validation_reasons detail.validation_status
                ++ (reason_if (is_absent detail.current_commit_hash) run_commit_unpinned
                    ++ v1_reasons
                        (is_true (
                          get_in (codes "strictV1Ready")
                            (result_record detail (codes "governance"))))
                        (get_in (codes "ok") (result_record detail (codes "v1Ready")))))))

abbrev pub reason_index : Reason → ℕ
reason_index execution_contract_missing = 0
reason_index unsupported_contract = 1
reason_index run_not_complete = 2
reason_index run_not_validated = 3
reason_index run_validation_failed = 4
reason_index run_commit_unpinned = 5
reason_index run_v1_ready_not_run = 6
reason_index run_v1_ready_failed = 7

-- Array.from(new Set(codes)).
unfoldable pub unique_reasons : List Reason → List Reason
unique_reasons [] = []
unique_reasons (r ∷ rs) =
    r ∷ filter (λ s. not (reason_index r == reason_index s)) (unique_reasons rs)

abbrev pub verdict_of : List Reason → Verdict
verdict_of [] = pass
verdict_of (r ∷ rs) = fail

-- `trim` is the parameter.
abbrev pub ref_if : (Text → Text) → Text → Option Text → List (Text × Text)
ref_if trim kind none = []
ref_if trim kind (some path) = if is_empty (trim path) then [] else (kind, trim path) ∷ []

abbrev pub string_of : Option Json → Option Text
string_of (some (string t)) = some t
string_of _ = none

unfoldable pub artifact_refs_of : (Text → Text) → Detail → List (Text × Text)
artifact_refs_of trim detail = sorted edge_le (
    ref_if trim (codes "run_worktree") detail.worktree_path
    ++ ref_if trim (codes "validation_target")
        (string_of (get_in (codes "targetPath") (to_record detail.validation_result))))

-- `executionContractPolicyVersions`.
unfoldable pub policy_versions : PolicyMaterial → PolicyVersions
policy_versions (versioned v) = v
policy_versions (unversioned determinism planner correction validation) = record {
  determinism_policy_version = determinism;
  normalization_policy_version = 1;
  planner_policy_version = planner;
  correction_recipe_version = correction;
  validation_policy_version = validation;
  governance_policy_version = 1;
}

-- `n || 1`.
abbrev pub or_one : ℕ → ℕ
or_one n = if n == 0 then 1 else n

abbrev pub or_ones : PolicyVersions → PolicyVersions
or_ones v = record {
  determinism_policy_version = or_one v.determinism_policy_version;
  normalization_policy_version = or_one v.normalization_policy_version;
  planner_policy_version = or_one v.planner_policy_version;
  correction_recipe_version = or_one v.correction_recipe_version;
  validation_policy_version = or_one v.validation_policy_version;
  governance_policy_version = or_one v.governance_policy_version;
}

abbrev pub config_version : Option ℕ → ℕ
config_version none = 1
config_version (some n) = or_one n

unfoldable pub contract_summary : Detail → Option Contract → ContractSummary
contract_summary detail none = record {
  schema_version = config_version detail.config_schema_version;
  hash = codes "missing";
  versions = policy_versions (unversioned 1 1 1 1);
  randomness_seed = codes "missing";
}
contract_summary detail (some c) = record {
  schema_version =
      if c.schema_version == 0
      then config_version detail.config_schema_version
      else c.schema_version;
  hash = if is_empty c.hash then codes "missing" else c.hash;
  versions = or_ones (policy_versions c.material.policy);
  randomness_seed = c.material.randomness_seed;
}

-- The hash of the control plane is the parameter.
abbrev pub identity_of : (Material → Text) → Option Contract → Text
identity_of identity_hash none =
    codes "0000000000000000000000000000000000000000000000000000000000000000"
identity_of identity_hash (some c) = identity_hash c.material

abbrev versions_accept : PolicyVersions → Bool
versions_accept v =
    leb 1 v.determinism_policy_version
    && leb 1 v.normalization_policy_version
    && leb 1 v.planner_policy_version
    && leb 1 v.correction_recipe_version
    && leb 1 v.validation_policy_version
    && leb 1 v.governance_policy_version

abbrev pub contract_accepts : ContractSummary → Bool
contract_accepts c =
    leb 1 c.schema_version
    && not (is_empty c.hash)
    && versions_accept c.versions
    && not (is_empty c.randomness_seed)

-- governanceArtifactRefSchema, of the kind and the path.
abbrev pub ref_accepts : Text × Text → Bool
ref_accepts (kind, path) = not (is_empty kind) && not (is_empty path)

-- governanceDecisionPayloadWithoutHashSchema; the test for a UUID is the parameter. The codes of the
-- reasons are no empty texts.
abbrev pub payload_accepts : (Text → Bool) → Decision → Bool
payload_accepts is_uuid d =
    is_uuid d.run_id
    && (contract_accepts d.contract
        && (length d.control_plane_identity_hash == 64 && every ref_accepts d.artifact_refs))

-- `none` is a parse that throws; the hash of the payload is the parameter.
unfoldable pub finalize_governance_decision :
    (Text → Bool) → (Decision → Text) → Decision → Option (Decision × Text)
finalize_governance_decision is_uuid decision_hash payload =
    if payload_accepts is_uuid payload
    then if length (decision_hash payload) == 64
      then some (payload, decision_hash payload)
      else none
    else none

abbrev pub payload_of : (Text → Text) → (Material → Text) → Detail → Decision
payload_of trim identity_hash detail =
    let reasons = reasons_of detail in
    record {
      decision = verdict_of reasons;
      reason_codes = unique_reasons reasons;
      reasons = reasons;
      run_id = detail.run_id;
      contract = contract_summary detail detail.contract;
      control_plane_identity_hash = identity_of identity_hash detail.contract;
      artifact_refs = artifact_refs_of trim detail;
    }

unfoldable pub build_governance_decision :
    (Text → Text)
    → (Text → Bool)
    → (Material → Text)
    → (Decision → Text)
    → Detail
    → Option (Decision × Text)
build_governance_decision trim is_uuid identity_hash decision_hash detail =
    finalize_governance_decision is_uuid decision_hash (payload_of trim identity_hash detail)
