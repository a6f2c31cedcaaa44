-- ===== src/NightShifts/StateMachine.antt =====
-- night_shifts/state_machine.py: which status a job may take next.
use simple_ai_agent.Common.{Bool, List, [], ◌∷◌, any}
use simple_ai_agent.NightShifts.Models.{JobStatus, same_status}

unfoldable pub allowed_transitions : JobStatus → List JobStatus
allowed_transitions JobStatus.draft = JobStatus.queued ∷ JobStatus.cancelled ∷ []
allowed_transitions JobStatus.queued =
    JobStatus.provisioning ∷ JobStatus.cancelled ∷ JobStatus.failed ∷ []
allowed_transitions JobStatus.provisioning =
    JobStatus.running ∷ JobStatus.cancelled ∷ JobStatus.failed ∷ []
allowed_transitions JobStatus.running =
    JobStatus.waiting_for_input ∷ JobStatus.paused ∷ JobStatus.completed ∷ JobStatus.cancelled
    ∷ JobStatus.failed ∷ []
allowed_transitions JobStatus.waiting_for_input =
    JobStatus.running ∷ JobStatus.cancelled ∷ JobStatus.failed ∷ []
allowed_transitions JobStatus.paused =
    JobStatus.running ∷ JobStatus.cancelled ∷ JobStatus.failed ∷ []
allowed_transitions JobStatus.completed = JobStatus.awaiting_review ∷ []
allowed_transitions JobStatus.awaiting_review =
    JobStatus.revision_requested ∷ JobStatus.rejected ∷ JobStatus.approved ∷ []
allowed_transitions JobStatus.revision_requested = JobStatus.queued ∷ JobStatus.cancelled ∷ []
allowed_transitions JobStatus.approved = JobStatus.published ∷ []
allowed_transitions JobStatus.published = JobStatus.merged ∷ []
allowed_transitions JobStatus.failed = []
allowed_transitions JobStatus.cancelled = []
allowed_transitions JobStatus.rejected = []
allowed_transitions JobStatus.merged = []

-- The test of `validate_transition`, which raises where this is false.
unfoldable pub is_allowed : JobStatus → JobStatus → Bool
unfolding allowed_transitions same_status
is_allowed current target = any (same_status target) (allowed_transitions current)
