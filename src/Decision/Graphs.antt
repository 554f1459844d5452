-- ===== src/Decision/Graphs.antt =====
-- The decision on a graph of runs (agent/graph-governance.ts).
use deeprun.Prelude.{
  ℕ, ◌≤◌, ◌≡◌, refl, ◌↔◌, Bool, true, false, not, ◌&&◌, ltb, List, [], ◌∷◌, map, every, All, length,
  Option, none, some, Text, arith, if◌then◌else◌,
}
use deeprun.Lifecycle.{Status, same_status, same_status→eq}
use deeprun.Decision.Model.{Verdict, pass, fail}

pub data GraphStatus : Type 0 where
  created running complete failed : GraphStatus

pub record ExecutionGraph : Type 0 where
  pub id : ℕ
  pub status : GraphStatus

-- AgentLifecycleRun, as far as it is read.
pub record LifecycleRun : Type 0 where
  pub id : ℕ
  pub status : Status
  pub error_message : Option Text

pub record NodeValidation : Type 0 where
  pub run_id : ℕ
  pub valid : Bool

pub data Check : Type 0 where
  all_nodes_have_runs graph_not_empty : Check

pub record Invariant : Type 0 where
  pub check : Check
  pub passed : Bool

-- The texts of reasons, which repeat the data, and the time are left out.
pub record GraphGovernanceDecision : Type 0 where
  pub graph_id : ℕ
  pub governance_version : ℕ
  pub verdict : Verdict
  pub node_validations : List NodeValidation
  pub structural_invariants : List Invariant

abbrev pub is_null : Option Text → Bool
is_null none = true
is_null (some t) = false

abbrev pub validation_of : LifecycleRun → NodeValidation
validation_of run = record {
  run_id = run.id;
  valid = same_status run.status Status.complete && is_null run.error_message;
}

abbrev pub is_failed : GraphStatus → Bool
is_failed GraphStatus.failed = true
is_failed _ = false

abbrev pub invariants_of : ExecutionGraph → List LifecycleRun → List Invariant
invariants_of graph runs =
    record { check = all_nodes_have_runs; passed = ltb 0 (length runs) }
    ∷ record { check = graph_not_empty; passed = not (is_failed graph.status) }
    ∷ []

unfoldable pub build_graph_governance_decision :
    ExecutionGraph → List LifecycleRun → GraphGovernanceDecision
build_graph_governance_decision graph runs =
    let validations = map validation_of runs in
    let invariants = invariants_of graph runs in
    record {
      graph_id = graph.id;
      governance_version = 1;
      verdict =
          if every (λ v. v.valid) validations && every (λ i. i.passed) invariants
          then pass
          else fail;
      node_validations = validations;
      structural_invariants = invariants;
    }

-- The run is complete and has no error.
abbrev pub Sound : LifecycleRun → Type 0
Sound run = (run.status ≡ Status.complete) × (run.error_message ≡ none)

both_hold :
    {P Q : Type 0} (a b : Bool) → (a ≡ true) ↔ P → (b ≡ true) ↔ Q → ((a && b) ≡ true) ↔ (P × Q)
both_hold true b (f, g) (f', g') = ((λ h. (f refl, f' h)), (λ h. g' h.1))
both_hold false b (f, g) (f', g') = ((λ h. ground arith), (λ h. ground (arith, g h.0)))

is_complete : (s : Status) → (same_status s Status.complete ≡ true) ↔ (s ≡ Status.complete)
is_complete s = ((λ h. same_status→eq s Status.complete h), (λ e. rw e refl))

no_error : (o : Option Text) → (is_null o ≡ true) ↔ (o ≡ none)
no_error none = ((λ h. refl), (λ h. refl))
no_error (some t) = ((λ h. ground arith), (λ h. ground arith))

valid-Sound :
    (run : LifecycleRun)
    → ((same_status run.status Status.complete && is_null run.error_message) ≡ true) ↔ Sound run
valid-Sound run = both_hold _ _ (is_complete run.status) (no_error run.error_message)

every-Sound :
    (runs : List LifecycleRun)
    → (every (λ v. v.valid) (map validation_of runs) ≡ true) ↔ All Sound runs
every-Sound [] = ((λ h. tt), (λ h. refl))
every-Sound (r ∷ rs) = both_hold _ _ (valid-Sound r) (every-Sound rs)

invariants_hold :
    (graph : ExecutionGraph) (runs : List LifecycleRun)
    → (every (λ i. i.passed) (invariants_of graph runs) ≡ true)
      ↔ ((1 ≤ length runs) × (is_failed graph.status ≡ false))
invariants_hold graph runs = ground arith

passes_if : (b : Bool) → ((if b then pass else fail) ≡ pass) ↔ (b ≡ true)
passes_if true = ((λ h. refl), (λ h. refl))
passes_if false = ((λ h. ground arith), (λ h. ground arith))

-- A graph is decided to pass exactly if it has runs, all of them are complete without an error, and
-- the graph is not marked as failed.
pub build_graph_governance_decision-Sound :
    (graph : ExecutionGraph) (runs : List LifecycleRun)
    → ((build_graph_governance_decision graph runs).verdict ≡ pass)
      ↔ (All Sound runs × ((1 ≤ length runs) × (is_failed graph.status ≡ false)))
unfolding build_graph_governance_decision
build_graph_governance_decision-Sound graph runs =
    let (f, g) = passes_if (
      every (λ v. v.valid) (map validation_of runs)
      && every (λ i. i.passed) (invariants_of graph runs)) in
    let (f', g') = both_hold _ _ (every-Sound runs) (invariants_hold graph runs) in
    ((λ h. f' (f h)), (λ h. g (g' h)))
