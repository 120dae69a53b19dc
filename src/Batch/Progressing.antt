-- ===== src/Batch/Progressing.antt =====
-- engine/tool_batch.py: what a call tells the progress guard. Fingerprints are hashes, so they are among
-- the answers of the world; so is the snapshot of the workspace.
use tricoder_agent.Base.{
  ℕ, List, ◌++◌, Bool, true, false, not, ◌&&◌, ◌||◌, Option, none, some, is_some, Result, ok, err,
  if◌then◌else◌, ℤ, Text, codes, ◌==◌, nat_eq, list_eq, string_eq,
}
use tricoder_agent.Effects.{ErrorCode, RecoveryAction, replan, stop_task}
use tricoder_agent.Checks.{CommandCheckRecord, is_information}
use tricoder_agent.Evidence.{VerificationScope, owns_check}
use tricoder_agent.Progress.{
  ProgressReason, ProgressDecision, ProgressGuard, ProgressObservation, validate_observation, go_on,
  observe,
}
use tricoder_agent.Batch.{
  ToolAction, ToolResult, BatchError, progress_refused, constructed, ask_user, finish_tool,
}

abbrev owned : Option VerificationScope → Option CommandCheckRecord → Bool
owned (some scope) (some check) = owns_check scope check
owned _ _ = false

abbrev is_information_check : Option CommandCheckRecord → Bool
is_information_check none = false
is_information_check (some check) = is_information check

abbrev pub is_recoverable : ToolResult → Bool
is_recoverable r = not r.ok && elim r.error [
  | none ↦ false
  | some e ↦ elim e.recovery [ replan ↦ true | stop_task ↦ false ]
]

abbrev code_value : ErrorCode → Text
code_value ErrorCode.unknown_tool = codes "unknown_tool"
code_value ErrorCode.invalid_argument = codes "invalid_argument"
code_value ErrorCode.policy_denied = codes "policy_denied"
code_value ErrorCode.approval_denied = codes "approval_denied"
code_value ErrorCode.execution_failed = codes "execution_failed"
code_value ErrorCode.timeout = codes "timeout"
code_value ErrorCode.output_limit = codes "output_limit"
code_value ErrorCode.result_uncertain = codes "result_uncertain"
code_value ErrorCode.cancelled = codes "cancelled"
code_value ErrorCode.cleanup_failed = codes "cleanup_failed"
code_value ErrorCode.invalid_result = codes "invalid_result"
code_value ErrorCode.skipped = codes "skipped"
code_value ErrorCode.needs_input = codes "needs_input"

abbrev recovery_value : RecoveryAction → Text
recovery_value replan = codes "replan"
recovery_value stop_task = codes "stop_task"

-- `_failure_classification`; `show_int` is `str` of an integer.
unfoldable pub failure_classification : (ℤ → Text) → ToolResult → Option Text
failure_classification show_int r =
    let returncode : Option ℤ = elim r.command_check [
      | none ↦ none
      | some check ↦ check.returncode
    ] in
    let code : Text = elim returncode [ none ↦ codes "none" | some n ↦ show_int n ] in
    let text : Option Text = elim r.error [
      | none ↦ none
      | some e ↦
          some
            (code_value e.code ++ (codes ":" ++ (recovery_value e.recovery ++ (codes ":" ++ code))))
    ] in
    if r.ok then none else text

-- What the world answers while the progress is observed: whether the tool only reads, the cancellation
-- of the scan with `cleanup_failed`, the digest of a complete snapshot, whether the task is cancelled.
pub record Observed : Type 0 where
  pub reads_only : Bool
  pub broken_off : Option Bool
  pub workspace : Option Text
  pub cancelled : Bool
  pub arguments_fingerprint : Text
  pub result_fingerprint : Text
  pub check_fingerprint : Text

abbrev pub observes : Option VerificationScope → ToolAction → ToolResult → Observed → Bool
observes scope a r w =
    let information = r.ok && owned scope r.command_check && is_information_check r.command_check in
    not (a.tool == ask_user || a.tool == finish_tool)
    && (w.reads_only || information || is_recoverable r)

unfoldable pub observation_of :
    (ℤ → Text) → Option VerificationScope → ToolAction → ToolResult → Observed → ProgressObservation
unfolding failure_classification
observation_of show_int scope a r w =
    let information = r.ok && owned scope r.command_check && is_information_check r.command_check in
    record {
      tool_name = a.tool;
      arguments_fingerprint = w.arguments_fingerprint;
      result_fingerprint = w.result_fingerprint;
      failure_classification = failure_classification show_int r;
      workspace_fingerprint = w.workspace;
      workspace_complete = is_some w.workspace;
      read_only = (w.reads_only || information) && r.ok;
      check_fingerprint =
          if is_recoverable r
            && owned scope r.command_check
            && not (is_information_check r.command_check)
          then some w.check_fingerprint
          else none;
    }

-- The guard and its decision, or the scan was cancelled.
pub data Progressed : Type 0 where
  decided : ProgressGuard → ProgressDecision → Progressed
  scan_cancelled : Bool → Progressed

abbrev pub decided_by : ProgressGuard × ProgressDecision → Progressed
decided_by (g, d) = decided g d

-- `_observe_progress`.
unfoldable pub observe_progress :
    (ℕ → Text)
    → (ℤ → Text)
    → (List Text → Text)
    → ProgressGuard
    → Option VerificationScope
    → ToolAction
    → ToolResult
    → Observed
    → Result BatchError Progressed
unfolding observation_of
observe_progress show show_int digest g scope a r w =
    let o = observation_of show_int scope a r w in
    if not (observes scope a r w) then ok (decided g go_on) else (elim w.broken_off [
      | some cleanup_failed ↦ ok (scan_cancelled cleanup_failed)
      | none ↦
          if w.cancelled
          then ok (decided g go_on)
          else (elim (constructed progress_refused (validate_observation o)) [
            | err x ↦ err x
            | ok u ↦ ok (decided_by (observe digest show g o))
          ])
    ])

abbrev reason_text : Option ProgressReason → Text
reason_text (some ProgressReason.repeated_failure) = codes "相同工作区状态下的同一失败"
reason_text _ = codes "工作区无变化时的同一读取"

-- `_progress_feedback`.
unfoldable pub progress_feedback : (ℕ → Text) → ProgressDecision → Text
progress_feedback show d =
    codes "进展提醒："
    ++ (reason_text d.reason
        ++ (codes "已累计 "
            ++ (show d.count
                ++ (codes "/"
                    ++ (show d.limit
                        ++ codes " 次。请基于现有证据做最小诊断并改变做法；若无法继续，请调用 finish 如实说明限制，不要重复相同操作。")))))
