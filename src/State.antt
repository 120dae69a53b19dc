-- ===== src/State.antt =====
-- engine/state.py: the state that one run of the agent owns, and what a batch of tool calls hands back.
-- The provider's messages and the memory of the conversation are left out of the state.
use tricoder_agent.Base.{ℕ, String, List, Bool, Option, Text}
use tricoder_agent.Evidence.{VerificationEvidence, WorkspaceSnapshot}
use tricoder_agent.Checks.Tracker.{TaskValidationTracker}
use tricoder_agent.Progress.{ProgressGuard}
use tricoder_agent.Observation.{SessionContext}

pub record AgentRunState : Type 0 where
  pub current_task_id : Option String
  pub clarification_requests : ℕ
  pub modified_files : List Text
  pub modified_directories : List Text
  pub verification : String
  pub evidence : Option VerificationEvidence
  pub failed_snapshot : Option WorkspaceSnapshot
  pub verification_required : Bool
  pub verification_obligation : String
  pub pending_verification_paths : List Text
  pub task_modified_files : List Text
  pub task_modified_directories : List Text
  pub unknown_effects : Bool
  pub tool_calls : ℕ
  pub cleanup_failed : Bool
  pub file_effects_observed : Bool
  pub validation : TaskValidationTracker
  pub progress : ProgressGuard

unfoldable pub execution_context : AgentRunState → SessionContext
execution_context state = record {
  modified_files = state.modified_files;
  verification = state.verification;
  unknown_effects = state.unknown_effects;
  verification_evidence = state.evidence;
  verification_failure = state.failed_snapshot;
  verification_required = state.verification_required;
  modified_directories = state.modified_directories;
  verification_obligation = state.verification_obligation;
  pending_verification_paths = state.pending_verification_paths;
}

-- The facts of a context, written to the state: seven assignments.
unfoldable pub take_up : AgentRunState → SessionContext → AgentRunState
take_up state s = record state {
  modified_files = s.modified_files;
  modified_directories = s.modified_directories;
  verification = s.verification;
  unknown_effects = s.unknown_effects;
  evidence = s.verification_evidence;
  failed_snapshot = s.verification_failure;
  verification_required = s.verification_required;
}

pub data ToolBatchStop : Type 0 where
  continue replan finish cancelled fatal audit_failed unknown_effects clarified needs_input
        progress_stop :
      ToolBatchStop
