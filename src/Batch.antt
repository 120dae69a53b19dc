-- ===== src/Batch.antt =====
-- engine/tool_batch.py: the calls of one batch, one after another. What the world answers to a call is
-- in a record of answers: the tool's reply, the scope and the channel after it, whether the task is
-- cancelled, whether the audit log was written. The state is the agent's and the messages that were
-- appended; `message` is the protocol's `tool_result_message`. Of the arguments of a call there is the
-- `outcome` of `finish` only, and of a result what the executor reads.
pub mod Calls
pub mod Execute
pub mod Progressing
pub mod Rules
pub mod Answering
pub mod Performing
pub mod Filling
pub mod Turning
pub mod Pairing
mod Tests
use tricoder_agent.Base.{
  ℕ, zero, suc, ◌+◌, List, [], ◌∷◌, ◌++◌, Bool, true, false, not, ◌&&◌, ◌||◌, Option, none, some,
  is_some, Result, ok, err, raise_if, ◌>>◌, if◌then◌else◌, any, keep, contains, distinct, length,
  eqb, leb, Text, codes, ◌==◌, nat_eq, list_eq, is_nil, map,
}
use tricoder_agent.Effects.{
  EffectState, nothing, confirmed, unknown, FileEffects, ToolError, ErrorCode, RecoveryAction,
  replan, stop_task, make_file_effects, is_confirmed, is_unknown, has_repeats,
}
use tricoder_agent.Checks.{CommandCheckRecord}
use tricoder_agent.Checks.Tracker.{invalidate, observe}
use tricoder_agent.Evidence.{VerificationEvidence, VerificationScope, owns, owns_check}
use tricoder_agent.Progress.{ProgressDecision, note_workspace_change}
use tricoder_agent.Observation.{SessionContext, TaskObservation, apply_tool_transition, reconcile}
use tricoder_agent.State.{AgentRunState, execution_context, take_up, ToolBatchStop}

-- `ClarificationStatus` and `ClarificationResult` of core/clarification.py; the reason is read for
-- `question_limit` only.
pub data ClarificationStatus : Type 0 where
  answered withdrawn timed_out unavailable : ClarificationStatus

pub record ClarificationResult : Type 0 where
  pub status : ClarificationStatus
  pub reason : Option Text

pub record ToolAction : Type 0 where
  pub tool : Text
  pub outcome : Option Text
  pub reason : Text

pub record ToolResult : Type 0 where
  pub ok : Bool
  pub output : Text
  pub relative_path : Option Text
  pub modified_paths : List Text
  pub file_effects : Option FileEffects
  pub error : Option ToolError
  pub verification_evidence : Option VerificationEvidence
  pub command_check : Option CommandCheckRecord
  pub clarification : Option ClarificationResult

-- The exceptions that leave the executor: of a skip, of the events before and after a call, of the tool,
-- of the log of a decision on progress, and of the constructors that refuse a result's effects, check or
-- progress.
pub data BatchError : Type 0 where
  skip_invalid announcement_failed tool_failed delivery_failed : BatchError
  progress_log_failed effects_refused check_refused progress_refused : BatchError

abbrev pub ask_user : Text
ask_user = codes "ask_user"

abbrev pub run_command : Text
run_command = codes "run_command"

abbrev pub finish_tool : Text
finish_tool = codes "finish"

-- `recovery` where the caller of `tool_failure` gives none.
unfoldable pub recovery_of : ErrorCode → RecoveryAction
recovery_of ErrorCode.unknown_tool = replan
recovery_of ErrorCode.invalid_argument = replan
recovery_of ErrorCode.execution_failed = replan
recovery_of _ = stop_task

-- `tool_failure`.
unfoldable pub tool_failure :
    ErrorCode
    → Text
    → Option RecoveryAction
    → Option FileEffects
    → Option ClarificationResult
    → ToolResult
unfolding recovery_of
tool_failure code output recovery effects clarification = record {
  ok = false;
  output = output;
  relative_path = none;
  modified_paths = [];
  file_effects = effects;
  error = some (record {
    code = code;
    recovery = elim recovery [ none ↦ recovery_of code | some r ↦ r ];
    retryable = false;
    detail_code = none;
  });
  verification_evidence = none;
  command_check = none;
  clarification = clarification;
}

-- The position of the first occurrence.
unfoldable pub index_of : List Text → Text → ℕ
index_of [] x = 0
index_of (y ∷ ys) x = let rest = index_of ys x in if y == x then 0 else suc rest

-- `skipped_result`; `show` is `str` of a number.
unfoldable pub skipped_result : (ℕ → Text) → Text → List Text → Result BatchError ToolResult
unfolding tool_failure index_of
skipped_result show blocked_by known =
    if any is_nil known || has_repeats known || not (contains known blocked_by)
    then err skip_invalid
    else ok (
        tool_failure ErrorCode.skipped
          (codes "{\"status\": \"skipped\", \"blocked_by_call_index\": "
            ++ (show (index_of known blocked_by) ++ codes "}"))
          (some replan) none none)

-- The answer to `ask_user` once the task has asked twice.
unfoldable pub question_limit : ToolResult
unfolding tool_failure
question_limit =
    tool_failure ErrorCode.needs_input (codes "本任务已达到最多 2 次有效提问次数；任务仍需用户补充信息") none
      (some (record { state = nothing; paths = []; directory_paths = [] }))
      (some (record { status = unavailable; reason = some (codes "question_limit") }))

-- The result of a call that a cancellation interrupted.
unfoldable pub interrupted_result : Bool → ToolResult
unfolding tool_failure
interrupted_result cleanup_failed =
    if cleanup_failed
    then tool_failure ErrorCode.cleanup_failed (codes "任务已取消，资源清理未确认") none
        (some (record { state = unknown; paths = []; directory_paths = [] })) none
    else tool_failure ErrorCode.cancelled (codes "任务已取消，该动作未完成") none none none

-- What the executor writes to the state when a cancellation interrupts a call.
unfoldable pub interrupt : AgentRunState → Option TaskObservation → Bool → AgentRunState
unfolding take_up execution_context reconcile
interrupt state observation cleanup_failed =
    let told : AgentRunState = elim observation [
      | none ↦ state
      | some o ↦ take_up state (reconcile o (execution_context state)).0
    ] in
    record told { cleanup_failed = state.cleanup_failed || cleanup_failed }

-- `result.error is not None and result.error.code is code`, for two codes.
abbrev pub is_cancelled_error : ToolResult → Bool
is_cancelled_error r = elim r.error [
  | none ↦ false
  | some e ↦ elim e.code [ ErrorCode.cancelled ↦ true | _ ↦ false ]
]

abbrev pub is_cleanup_error : ToolResult → Bool
is_cleanup_error r = elim r.error [
  | none ↦ false
  | some e ↦ elim e.code [ ErrorCode.cleanup_failed ↦ true | _ ↦ false ]
]

abbrev pub one_path : Option Text → List Text
one_path none = []
one_path (some path) = path ∷ []

unfoldable pub changed_paths : ToolResult → List Text
changed_paths r = if r.ok then distinct (one_path r.relative_path ++ r.modified_paths) else []

abbrev pub scope_unknown : Option VerificationScope → Bool
scope_unknown none = false
scope_unknown (some scope) = scope.unknown_effects

abbrev pub observation_unknown : Option TaskObservation → Bool
observation_unknown none = false
observation_unknown (some o) = o.unknown

abbrev pub constructed : {E A : Type 0} → BatchError → Result E A → Result BatchError A
constructed x (ok a) = ok a
constructed x (err e) = err x

module _ (printable : ℕ → Bool) where
  -- The effects of a call: those of its result, or those of the paths that it reports.
  unfoldable pub reported_effects : ToolResult → Result BatchError FileEffects
  unfolding changed_paths
  reported_effects r = elim r.file_effects [
    | some effects ↦ ok effects
    | none ↦ constructed effects_refused (
        make_file_effects printable (if is_nil (changed_paths r) then nothing else confirmed)
          (changed_paths r) [])
  ]

-- Effects that the scope or the channel does not know of stay unknown.
unfoldable pub effects_with :
    Option VerificationScope → Option TaskObservation → FileEffects → FileEffects
effects_with scope observation effects =
    if scope_unknown scope || observation_unknown observation
    then record effects { state = unknown }
    else effects

-- The evidence of a call, if the scope issued it.
unfoldable pub owned_candidate :
    Option VerificationScope → ToolAction → ToolResult → Option VerificationEvidence
owned_candidate none a r = none
owned_candidate (some scope) a r =
    if a.tool == run_command && owns scope r.verification_evidence
    then r.verification_evidence
    else none

-- The check of a call, if the scope issued it.
unfoldable pub owned_check :
    Option VerificationScope → ToolAction → ToolResult → Option CommandCheckRecord
owned_check none a r = none
owned_check (some scope) a r = elim r.command_check [
  | none ↦ none
  | some check ↦ if a.tool == run_command && owns_check scope check then some check else none
]

-- `extend` by the paths that are not there: each is looked up after the ones before it were added.
unfoldable pub extend_new : List Text → List Text → List Text
extend_new known [] = known
extend_new known (path ∷ paths) =
    extend_new (if contains known path then known else known ++ path ∷ []) paths

-- The writes of `_apply_result` before the check is observed.
unfoldable pub record_effects :
    AgentRunState
    → Bool
    → ToolAction
    → ToolResult
    → Option VerificationScope
    → FileEffects
    → AgentRunState
unfolding take_up execution_context apply_tool_transition owned_candidate invalidate
record_effects state interrupted a r scope effects =
    let observed =
      take_up
        (record state {
          cleanup_failed = state.cleanup_failed || is_cleanup_error r;
          file_effects_observed = not interrupted;
        })
        (apply_tool_transition (execution_context state) effects (owned_candidate scope a r)) in
    record observed {
      validation =
          if is_unknown effects.state
            || not (is_nil effects.paths)
            || not (is_nil effects.directory_paths)
          then invalidate state.validation
          else state.validation;
      task_modified_files =
          if r.ok && is_confirmed effects.state
          then extend_new state.task_modified_files effects.paths
          else state.task_modified_files;
      task_modified_directories =
          if r.ok && is_confirmed effects.state
          then extend_new state.task_modified_directories effects.directory_paths
          else state.task_modified_directories;
    }

-- The check of the call, taken up by the tracker.
unfoldable pub record_check :
    AgentRunState → Option CommandCheckRecord → Result BatchError AgentRunState
unfolding observe
record_check state none = ok state
record_check state (some check) =
    elim (constructed check_refused (observe state.validation check)) [
      | err x ↦ err x
      | ok validation ↦ ok (record state { validation = validation })
    ]
