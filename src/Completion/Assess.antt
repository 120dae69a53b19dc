-- ===== src/Completion/Assess.antt =====
-- engine/completion.py: `assess_finish`, in the order of its steps.
use tricoder_agent.Base.{
  ℕ, String, ◌++◌, Bool, true, false, not, ◌&&◌, ◌||◌, Option, none, some, if◌then◌else◌, any,
  contains, is_nil, Text, List, [], ◌∷◌, codes, ◌==◌, string_eq, option_eq,
}
use tricoder_agent.Checks.{CommandCheckRecord, TaskValidationReport, is_information}
use tricoder_agent.Checks.Tracker.{report, current_records}
use tricoder_agent.Evidence.{WorkspaceSnapshot, VerificationScope}
use tricoder_agent.State.{AgentRunState}
use tricoder_agent.Completion.{
  TaskStopReason, completed, model_incomplete, verification_blocked, cancelled, cleanup_failed,
  unknown_effects, FinishAssessment, is_complete, is_none, has_unresolved, check_coverage,
  current_verification_satisfied, has_current_check_anchor, is_stale_evidence, drop_failed,
  withdraw, pending, failed,
}

-- The other arguments of `assess_finish`.
pub record FinishRequest : Type 0 where
  pub summary : Text
  pub finish_outcome : String
  pub cancellation_requested : Bool
  pub termination_started : Bool

-- The state with the two flags of the first step.
pub record Review : Type 0 where
  pub state : AgentRunState
  pub valid : Bool
  pub stale_evidence : Bool

abbrev anchored : CommandCheckRecord → Bool
anchored r = not (is_information r) && r.workspace_stable

abbrev has_stable_check : AgentRunState → Option WorkspaceSnapshot → Bool
has_stable_check state none = false
has_stable_check state (some current) =
    current.complete && any anchored (current_records state.validation current.digest)

unfoldable pub is_expired : AgentRunState → Option WorkspaceSnapshot → Bool
is_expired state current =
    (report state.validation).status == "stale"
    || not (is_nil (report state.validation).stale_check_ids)
      && not (has_stable_check state current)

-- The second step: a check that went stale renews the obligation.
unfoldable pub expire : Review → Option WorkspaceSnapshot → Review
expire r current =
    if is_expired r.state current
    then record r {
      state = record r.state {
        evidence = none;
        verification_required = true;
        verification = pending;
      };
      valid = false;
    }
    else r

unfoldable pub is_completed : FinishRequest → Review → Bool
is_completed request r =
    request.finish_outcome == "completed"
    && not request.cancellation_requested
    && not r.state.cleanup_failed
    && not r.state.unknown_effects
    && not ((report r.state.validation).status == "stale")
    && (not r.state.verification_required || r.valid && not (has_unresolved r.state))

unfoldable pub summary_with_verification_fact : Text → AgentRunState → TaskValidationReport → Text
summary_with_verification_fact summary state result =
    if state.verification_required && state.verification == pending
    then summary ++ codes "；文件修改后尚未运行验证命令，或尚无认可且覆盖修改范围的有效证据"
    else if state.verification_required && state.verification == failed
    then summary ++ codes "；文件修改后的验证失败"
    else if result.status == "stale"
    then summary ++ codes "；检查后工作区状态已变化，旧记录已过期"
    else if result.status == "failed"
    then summary ++ codes "；检查发现失败，见检查记录"
    else summary

abbrev in_scope : AgentRunState → Option VerificationScope → Bool
in_scope state none = false
in_scope state (some scope) =
    some scope.task_id == state.current_task_id && not scope.unknown_effects

unfoldable pub is_safe_correction :
    FinishRequest → Review → Option WorkspaceSnapshot → Option VerificationScope → Bool
is_safe_correction request r current scope =
    request.finish_outcome == "completed"
    && not (is_completed request r)
    && r.state.verification_required
    && is_complete current
    && in_scope r.state scope
    && not r.stale_evidence
    && not (r.state.verification_obligation == "legacy_unknown")
    && not r.state.unknown_effects
    && not request.cancellation_requested
    && not r.state.cleanup_failed
    && not request.termination_started

unfoldable pub misses_verification : Review → List Text → Bool
misses_verification r pending_paths =
    r.state.verification == pending
    && is_none r.state.evidence
    && is_none r.state.failed_snapshot
    && contains ("unverified" ∷ "observed" ∷ []) (report r.state.validation).status
    && not (has_unresolved r.state)
    && not (is_nil pending_paths)

unfoldable pub stop_reason : FinishRequest → Review → TaskStopReason
stop_reason request r =
    if request.cancellation_requested
    then cancelled
    else if r.state.cleanup_failed
    then cleanup_failed
    else if r.state.unknown_effects
    then unknown_effects
    else if request.finish_outcome == "incomplete"
    then model_incomplete
    else if is_completed request r
    then completed
    else verification_blocked

module _ (fold : ℕ → ℕ) where
  -- The branch for a required verification with a scope.
  unfoldable pub review_evidence :
      AgentRunState → Option WorkspaceSnapshot → VerificationScope → Review
  review_evidence state current scope =
      let kept = drop_failed state current in
      let valid = current_verification_satisfied fold kept current (some scope) in
      record {
        state = if valid then kept else withdraw kept;
        valid = valid;
        stale_evidence = is_stale_evidence state current scope;
      }

  unfoldable pub review :
      AgentRunState → Option WorkspaceSnapshot → Option VerificationScope → Review
  review state current none = record { state = state; valid = false; stale_evidence = false }
  review state current (some scope) =
      if state.verification_required
      then review_evidence state current scope
      else record { state = state; valid = false; stale_evidence = false }

  abbrev anchor_of : AgentRunState → Option WorkspaceSnapshot → Option VerificationScope → Bool
  anchor_of state (some current) (some scope) = has_current_check_anchor fold state current scope
  anchor_of state _ _ = false

  unfoldable pub recoverable_reason :
      FinishRequest
      → Review
      → Option WorkspaceSnapshot
      → Option VerificationScope
      → List Text
      → Option String
  recoverable_reason request r current scope pending_paths =
      let safe = is_safe_correction request r current scope in
      if safe && misses_verification r pending_paths
      then some "missing_relevant_verification"
      else if safe && has_unresolved r.state && anchor_of r.state current scope
      then some "unresolved_verification"
      else none

  unfoldable pub conclude :
      FinishRequest
      → Review
      → Option WorkspaceSnapshot
      → Option VerificationScope
      → FinishAssessment
  conclude request r current scope =
      let result = report r.state.validation in
      let pending_paths = (check_coverage fold r.state current).pending_paths in
      record {
        completed = is_completed request r;
        summary = summary_with_verification_fact request.summary r.state result;
        validation_report = result;
        recoverable_reason = recoverable_reason request r current scope pending_paths;
        pending_paths = pending_paths;
        scan_complete = is_complete current;
        stop_reason = stop_reason request r;
      }

  -- The state that the call leaves, and the assessment.
  unfoldable pub assess_finish :
      AgentRunState
      → FinishRequest
      → Option VerificationScope
      → Option WorkspaceSnapshot
      → AgentRunState × FinishAssessment
  assess_finish state request scope current =
      let r = expire (review state current scope) current in
      (r.state, conclude request r current scope)
