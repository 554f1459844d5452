-- ===== src/Decision/Tests.antt =====
-- A run that passes, and a graph with one run (governance/decision.ts, agent/graph-governance.ts).
use deeprun.Prelude.{
  Option, Text, ◌≡◌, ◌≤◌, refl, ◌↔◌, true, false, List, [], ◌∷◌, All, length, some, none, codes,
  text_eq, starts_with,
}
use deeprun.Lifecycle.{Status}
use deeprun.Json.{Members, string, Json, boolean, object, no_member, member, get}
use deeprun.Decision.Model.{
  pass, fail, passed, Contract, unversioned, Detail, Decision, Verdict, build_governance_decision,
  finalize_governance_decision, contract_summary, policy_versions, artifact_refs_of, reasons_of,
}
use deeprun.Decision.Passing.{Passes, SaysPass, build_governance_decision-Passes}
use deeprun.Decision.Canonical.{canonical_json, build_governance_decision_hash}
use deeprun.Decision.Reordered.{
  objects, next_member, swapped, end_of_members, build_governance_decision_hash-Reordered,
}
use deeprun.GraphIdentity.Identity.{text_le}
use deeprun.Decision.Graphs.{
  ExecutionGraph, GraphStatus, LifecycleRun, Sound, is_failed, build_graph_governance_decision,
  build_graph_governance_decision-Sound,
}

abbrev contract : Contract
contract = record {
  schema_version = 2;
  hash = codes "ab";
  material = record { policy = unversioned 1 2 3 4; randomness_seed = codes "s" };
  supported = none;
}

abbrev strict_result : Json
strict_result = object (
    member (codes "governance") (object (member (codes "strictV1Ready") (boolean true) no_member))
      (member (codes "v1Ready") (object (member (codes "ok") (boolean true) no_member)) no_member))

abbrev detail : Detail
detail = record {
  run_id = codes "r";
  status = Status.complete;
  error_message = none;
  validation_status = some passed;
  validation_result = some strict_result;
  current_commit_hash = some (codes "c");
  worktree_path = some (codes "/w");
  contract = some contract;
  config_schema_version = none;
}

-- A hash with 64 digits.
abbrev digits : Text
digits = codes "e3b0c44298fc1c149afbf4c8996fb92427ae41e4649b934ca495991b7852b855"

abbrev decided : Detail → Option (Decision × Text)
decided d =
    build_governance_decision (λ t. t) (λ t. text_eq t (codes "r")) (λ m. digits) (λ p. digits) d

build_governance_decision-Passes_example :
    SaysPass (decided detail) ↔ Passes (λ t. text_eq t (codes "r")) detail
build_governance_decision-Passes_example =
    build_governance_decision-Passes (λ t. t) (λ t. text_eq t (codes "r")) (λ m. digits)
      (λ p. digits) detail (λ m. refl) (λ d. refl)

passes : SaysPass (decided detail)
unfolding build_governance_decision finalize_governance_decision contract_summary policy_versions
    artifact_refs_of reasons_of get text_eq starts_with
passes = refl

verdict_in : Option (Decision × Text) → Option Verdict
verdict_in none = none
verdict_in (some (d, hash)) = some d.decision

not_pinned : verdict_in (decided (record detail { current_commit_hash = none })) ≡ some fail
unfolding build_governance_decision finalize_governance_decision contract_summary policy_versions
    artifact_refs_of reasons_of get text_eq starts_with verdict_in
not_pinned = refl

-- The parse throws where the contract has no seed.
abbrev seedless : Detail
seedless = record detail {
  contract = some (record contract {
    material = record { policy = unversioned 1 2 3 4; randomness_seed = [] };
  });
}

not_seeded : verdict_in (decided seedless) ≡ none
unfolding build_governance_decision finalize_governance_decision contract_summary policy_versions
    artifact_refs_of reasons_of get text_eq starts_with verdict_in
not_seeded = refl

abbrev graph : ExecutionGraph
graph = record { id = 1; status = GraphStatus.running }

abbrev runs : List LifecycleRun
runs = record { id = 5; status = Status.complete; error_message = none } ∷ []

build_graph_governance_decision-Sound_example :
    ((build_graph_governance_decision graph runs).verdict ≡ pass)
    ↔ (All Sound runs × ((1 ≤ length runs) × (is_failed graph.status ≡ false)))
build_graph_governance_decision-Sound_example = build_graph_governance_decision-Sound graph runs

-- The same record with its keys in the other order, below another key.
abbrev two_keys : Members
two_keys = member (codes "a") (boolean true) (member (codes "b") (boolean false) no_member)

abbrev two_keys_turned : Members
two_keys_turned = member (codes "b") (boolean false) (member (codes "a") (boolean true) no_member)

abbrev below : Members → Json
below ms = object (member (codes "c") (object ms) no_member)

abbrev letter : Json → Text
letter (string t) = t
letter (boolean true) = codes "t"
letter _ = codes "f"

build_governance_decision_hash-Reordered_example :
    build_governance_decision_hash (λ t. t) letter (below two_keys)
    ≡ build_governance_decision_hash (λ t. t) letter (below two_keys_turned)
unfolding text_eq
build_governance_decision_hash-Reordered_example =
    build_governance_decision_hash-Reordered (λ t. t) letter (below two_keys)
      (below two_keys_turned)
      (objects _ _ (
        next_member (codes "c") _ _ _ _
          (objects _ _
            (swapped (codes "a") (codes "b") (boolean true) (boolean false) no_member refl))
          end_of_members))

canonical_text :
    build_governance_decision_hash (λ t. t) letter (below two_keys_turned) ≡ codes "{c:{a:t,b:f}}"
unfolding build_governance_decision_hash canonical_json text_le
canonical_text = refl
