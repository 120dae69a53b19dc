-- ===== src/Effects.antt =====
-- execution_state.py: the contract of file effects and tool errors, and the execution state that
-- accumulates them. `printable` is the Unicode table behind `str.isprintable`.
pub mod Contract
pub mod Accumulation
mod Tests
use tricoder_agent.Base.{
  ℕ, String, List, [], ◌∷◌, ◌++◌, Bool, true, false, not, ◌&&◌, ◌||◌, Option, none, some, Result,
  ok, err, raise_if, ◌>>◌, ltb, eqb, if◌then◌else◌, length, any, all, contains, distinct, Text,
  starts_with, split, ◌==◌, nat_eq, list_eq, string_eq,
}
use tricoder_agent.Paths.{slash, backslash, dot, dot_dot, is_absolute, has_drive}

pub data ErrorCode : Type 0 where
  unknown_tool invalid_argument policy_denied approval_denied execution_failed timeout : ErrorCode
  output_limit result_uncertain cancelled cleanup_failed invalid_result skipped needs_input :
      ErrorCode

pub data RecoveryAction : Type 0 where
  replan stop_task : RecoveryAction

pub record ToolError : Type 0 where
  pub code : ErrorCode
  pub recovery : RecoveryAction
  pub retryable : Bool
  pub detail_code : Option String

abbrev pub tool_error_details : List String
tool_error_details =
    "patch_invalid_header" ∷ "patch_invalid_hunk" ∷ "patch_count_mismatch"
    ∷ "patch_unsupported_operation" ∷ "patch_context_mismatch" ∷ "patch_invalid_format"
    ∷ "git_workspace_unavailable" ∷ "file_already_exists" ∷ []

-- The `ValueError`s of the three constructors.
pub data ContractError : Type 0 where
  retry_unsupported unknown_detail none_with_paths confirmed_without_paths too_many_directories :
      ContractError
  repeated_path path_not_canonical : ContractError

-- `ToolError.__post_init__`.
unfoldable pub make_tool_error :
    ErrorCode → RecoveryAction → Bool → Option String → Result ContractError ToolError
make_tool_error code recovery retryable detail_code = do
  raise_if retryable retry_unsupported
  raise_if (elim detail_code [ none ↦ false | some d ↦ not (contains tool_error_details d) ])
      unknown_detail
  ok (record { code = code; recovery = recovery; retryable = retryable; detail_code = detail_code })

pub data EffectState : Type 0 where
  nothing confirmed unknown : EffectState

pub record FileEffects : Type 0 where
  pub state : EffectState
  pub paths : List Text
  pub directory_paths : List Text

abbrev pub is_nothing : EffectState → Bool
is_nothing nothing = true
is_nothing _ = false

abbrev pub is_confirmed : EffectState → Bool
is_confirmed confirmed = true
is_confirmed _ = false

abbrev pub is_unknown : EffectState → Bool
is_unknown unknown = true
is_unknown _ = false

-- The test on each path: a canonical relative path.
unfoldable pub is_canonical : (ℕ → Bool) → Text → Bool
unfolding is_absolute has_drive
is_canonical printable path = not (
    path == []
    || contains path backslash
    || not (all printable path)
    || is_absolute path
    || has_drive path
    || any (λ part. part == [] || part == dot || part == dot_dot) (split slash path))

-- `len(set(xs)) != len(xs)`.
unfoldable pub has_repeats : List Text → Bool
has_repeats xs = not (eqb (length (distinct xs)) (length xs))

-- `FileEffects.__post_init__`.
unfoldable pub make_file_effects :
    (ℕ → Bool) → EffectState → List Text → List Text → Result ContractError FileEffects
unfolding is_canonical has_repeats
make_file_effects printable state paths directory_paths = do
  raise_if (is_nothing state && not (paths == [] && directory_paths == [])) none_with_paths
  raise_if (is_confirmed state && (paths == [] && directory_paths == [])) confirmed_without_paths
  raise_if (ltb 128 (length directory_paths)) too_many_directories
  raise_if (has_repeats paths || has_repeats directory_paths) repeated_path
  raise_if (not (all (is_canonical printable) (paths ++ directory_paths))) path_not_canonical
  ok (record { state = state; paths = paths; directory_paths = directory_paths })

abbrev stops : Option ToolError → Bool
stops none = false
stops (some error) = elim error.recovery [ stop_task ↦ true | replan ↦ false ]

unfoldable pub should_stop_task : Option ToolError → FileEffects → Bool
should_stop_task error effects = is_unknown effects.state || stops error

pub record ExecutionState : Type 0 where
  pub modified_files : List Text
  pub verification : String
  pub unknown_effects : Bool
  pub modified_directories : List Text

abbrev pub pending : String
pending = "待验证"

abbrev pub is_passed : String → Bool
is_passed verification = verification == "通过" || verification == "passed"

unfoldable pub observe : ExecutionState → FileEffects → ExecutionState
observe s effects = record {
  modified_files = distinct (s.modified_files ++ effects.paths);
  verification =
      if is_unknown effects.state || not (effects.paths == [])
      then pending
      else if not (effects.directory_paths == []) && is_passed s.verification
      then pending
      else s.verification;
  unknown_effects = s.unknown_effects || is_unknown effects.state;
  modified_directories = distinct (s.modified_directories ++ effects.directory_paths);
}

-- The effects of a task's tool calls, one after another.
unfoldable pub observe_all : ExecutionState → List FileEffects → ExecutionState
unfolding observe
observe_all s [] = s
observe_all s (effects ∷ rest) = observe_all (observe s effects) rest
