-- ===== src/Lifecycle/Graph.antt =====
-- packages/deeprun-backend/src/agent/lifecycle-graph.ts: the two transition graphs as data.
use deeprun.Prelude.{Bool, List, [], ◌∷◌, any}
use deeprun.Lifecycle.{
  Status, correcting, optimizing, validating, cancelled, JobStatus, claimed, same_status,
  same_job_status,
}

pub record StateTransitionGraph (State : Type 0) : Type 0 where
  pub states : List State
  pub initial_state : State
  pub terminal_states : List State
  pub transitions : State → List State

abbrev run_transitions : Status → List Status
run_transitions Status.queued = Status.running ∷ cancelled ∷ Status.failed ∷ []
run_transitions Status.running =
    correcting ∷ optimizing ∷ validating ∷ Status.failed ∷ Status.complete ∷ cancelled ∷ []
run_transitions correcting = Status.running ∷ validating ∷ Status.failed ∷ cancelled ∷ []
run_transitions optimizing =
    Status.running ∷ validating ∷ Status.failed ∷ Status.complete ∷ cancelled ∷ []
run_transitions validating =
    Status.running ∷ optimizing ∷ Status.failed ∷ Status.complete ∷ cancelled ∷ []
run_transitions Status.complete = []
run_transitions Status.failed = Status.queued ∷ []
run_transitions cancelled = Status.queued ∷ []

abbrev pub lifecycle_run_graph : StateTransitionGraph Status
lifecycle_run_graph = record {
  states =
      Status.queued ∷ Status.running ∷ correcting ∷ optimizing ∷ validating ∷ Status.complete
      ∷ Status.failed ∷ cancelled ∷ [];
  initial_state = Status.queued;
  terminal_states = Status.complete ∷ Status.failed ∷ cancelled ∷ [];
  transitions = run_transitions;
}

abbrev job_transitions : JobStatus → List JobStatus
job_transitions JobStatus.queued = claimed ∷ []
job_transitions claimed = JobStatus.running ∷ JobStatus.complete ∷ JobStatus.failed ∷ []
job_transitions JobStatus.running = claimed ∷ JobStatus.complete ∷ JobStatus.failed ∷ []
job_transitions JobStatus.complete = []
job_transitions JobStatus.failed = []

abbrev pub run_job_graph : StateTransitionGraph JobStatus
run_job_graph = record {
  states =
      JobStatus.queued ∷ claimed ∷ JobStatus.running ∷ JobStatus.complete ∷ JobStatus.failed ∷ [];
  initial_state = JobStatus.queued;
  terminal_states = JobStatus.complete ∷ JobStatus.failed ∷ [];
  transitions = job_transitions;
}

-- `includes` compares by `===`, here the argument `same`.
abbrev pub is_allowed_state_transition :
    {State : Type 0} → (State → State → Bool) → StateTransitionGraph State → State → State → Bool
is_allowed_state_transition same graph current next = any (same next) (graph.transitions current)

-- The edges of the graph of runs, as `assertTransition` reads them.
abbrev pub run_edge : Status → Status → Bool
run_edge = is_allowed_state_transition same_status lifecycle_run_graph

abbrev pub job_edge : JobStatus → JobStatus → Bool
job_edge = is_allowed_state_transition same_job_status run_job_graph
