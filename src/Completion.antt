-- ===== src/Completion.antt =====
-- engine/completion.py: whether a `finish` request may complete the task. `fold` is as in Paths.
pub mod Assess
pub mod Decision
pub mod Soundness
pub mod Recovery
mod Tests
use mathlib.Core.List.{filter_map}
use tricoder_agent.Base.{
  ℕ, String, List, [], ◌∷◌, ◌++◌, Bool, true, false, not, ◌&&◌, ◌||◌, Option, none, some, ℤ,
  if◌then◌else◌, any, all, keep, distinct, contains, is_nil, Text, codes, ◌==◌, nat_eq, list_eq,
  string_eq, option_eq,
}
use tricoder_agent.Paths.{normalize_target, uncovered_paths, source_verification_paths}
use tricoder_agent.Checks.{
  CommandCheckRecord, TaskValidationReport, has_effective_success_result, is_information,
  returned_zero,
}
use tricoder_agent.Checks.Tracker.{TaskValidationTracker, report, current_records, is_code_check}
use tricoder_agent.State.{AgentRunState}
use tricoder_agent.Evidence.{
  WorkspaceSnapshot, VerificationEvidence, VerificationScope, is_valid_for, proves_new_file_version,
  owns, owns_check,
}

-- `TaskStopReason` of execution_state.py.
pub data TaskStopReason : Type 0 where
  completed model_incomplete round_budget_exhausted needs_input tool_stop : TaskStopReason
  verification_blocked cancelled cleanup_failed unknown_effects progress_stopped : TaskStopReason
  provider_failed runtime_rejected : TaskStopReason

pub record FinishAssessment : Type 0 where
  pub completed : Bool
  pub summary : Text
  pub validation_report : TaskValidationReport
  pub recoverable_reason : Option String
  pub pending_paths : List Text
  pub scan_complete : Bool
  pub stop_reason : TaskStopReason

pub record CheckCoverage : Type 0 where
  pub pending_paths : List Text
  pub has_valid_check : Bool

-- `type(current) is WorkspaceSnapshot and current.complete`.
abbrev pub is_complete : Option WorkspaceSnapshot → Bool
is_complete none = false
is_complete (some current) = current.complete

abbrev pub is_none : {A : Type 0} → Option A → Bool
is_none none = true
is_none (some a) = false

-- `bool(unresolved_check_ids)` of the report.
abbrev pub has_unresolved : AgentRunState → Bool
has_unresolved state = not (is_nil (report state.validation).unresolved_check_ids)

-- The test on a record in the loop of `check_coverage`.
unfoldable pub counts : WorkspaceSnapshot → CommandCheckRecord → Bool
counts current r =
    is_code_check r
    && has_effective_success_result r
    && r.workspace_stable
    && r.snapshot_id == some current.digest

abbrev pub evidence_valid : Option VerificationEvidence → WorkspaceSnapshot → Bool
evidence_valid none current = false
evidence_valid (some e) current = is_valid_for e current

module _ (fold : ℕ → ℕ) where
  -- The targets of a record that have a normal form.
  unfoldable pub normal_targets : CommandCheckRecord → List Text
  normal_targets r = filter_map (normalize_target fold r.cwd) r.targets

  -- The loop of `check_coverage`: the targets of the records that count and have targets.
  unfoldable pub successful_targets : WorkspaceSnapshot → List CommandCheckRecord → List Text
  unfolding counts normal_targets
  successful_targets current [] = []
  successful_targets current (r ∷ rest) =
      let others = successful_targets current rest in
      if counts current r then normal_targets r ++ others else others

  unfoldable pub coverage_of : List Text → AgentRunState → Option WorkspaceSnapshot → CheckCoverage
  coverage_of paths state none = record { pending_paths = paths; has_valid_check = false }
  coverage_of paths state (some current) =
      if current.complete
      then (let targets =
            successful_targets current (current_records state.validation current.digest) in
          record {
            pending_paths = uncovered_paths fold paths targets;
            has_valid_check =
                any (λ r. counts current r && not (is_nil (normal_targets r)))
                  (current_records state.validation current.digest);
          })
      else record { pending_paths = paths; has_valid_check = false }

  unfoldable pub check_coverage : AgentRunState → Option WorkspaceSnapshot → CheckCoverage
  check_coverage state current =
      coverage_of
        (source_verification_paths fold (distinct state.task_modified_files)
          state.task_modified_directories)
        state current

  unfoldable pub has_relevant_check : AgentRunState → WorkspaceSnapshot → Bool
  has_relevant_check state current =
      let coverage = check_coverage state (some current) in
      coverage.has_valid_check && is_nil coverage.pending_paths

  -- `state.evidence.is_valid_for(current)` stands behind `scope.owns`, so the evidence is there.
  unfoldable pub current_verification_satisfied :
      AgentRunState → Option WorkspaceSnapshot → Option VerificationScope → Bool
  current_verification_satisfied state none scope = false
  current_verification_satisfied state (some current) none = false
  current_verification_satisfied state (some current) (some scope) =
      current.complete
      && owns scope state.evidence
      && evidence_valid state.evidence current
      && is_none state.failed_snapshot
      && not (has_unresolved state)
      && all (owns_check scope) (current_records state.validation current.digest)
      && has_relevant_check state current

  -- The unresolved anchor test on one record in `_has_current_check_anchor`.
  unfoldable pub anchors : List String → CommandCheckRecord → Bool
  unfolding normal_targets
  anchors unresolved r =
      is_code_check r
      && r.workspace_stable
      && r.execution_complete
      && not (is_nil (normal_targets r))
      && (has_effective_success_result r
          || contains unresolved r.check_id
            && not (is_none r.returncode || returned_zero r.returncode))

  unfoldable pub has_current_check_anchor :
      AgentRunState → WorkspaceSnapshot → VerificationScope → Bool
  has_current_check_anchor state current scope =
      let records = current_records state.validation current.digest in
      all (owns_check scope) records
      && any (anchors (report state.validation).unresolved_check_ids) records

-- `scope is valid, and state.evidence is there but not of it, or not for the current version`.
unfoldable pub is_stale_evidence :
    AgentRunState → Option WorkspaceSnapshot → VerificationScope → Bool
is_stale_evidence state current scope =
    not (is_none state.evidence)
    && not (
        owns scope state.evidence
        && elim current [ none ↦ false | some c ↦ evidence_valid state.evidence c ])

abbrev is_new_version : Option WorkspaceSnapshot → Option WorkspaceSnapshot → Bool
is_new_version (some failed) (some current) = proves_new_file_version failed current
is_new_version _ _ = false

-- A failed snapshot is dropped once the current one proves a new version.
unfoldable pub drop_failed : AgentRunState → Option WorkspaceSnapshot → AgentRunState
drop_failed state current = record state {
  failed_snapshot =
      if is_new_version state.failed_snapshot current then none else state.failed_snapshot;
}

abbrev pub pending : String
pending = "待验证"

abbrev pub failed : String
failed = "失败"

unfoldable pub withdraw : AgentRunState → AgentRunState
withdraw state = record state {
  evidence = none;
  verification = if is_none state.failed_snapshot then pending else failed;
}
