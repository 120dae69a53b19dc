-- ===== src/Batch/Tests.antt =====
-- A batch of engine/tool_batch.py: a file is read, a command fails, and the last call is skipped.
use tricoder_agent.Progress.{
  validate_observation, append_bounded, decide, repeated_failure_decision, repeated_read_decision,
  oscillation_decision, same_failure, failure_signature, same_read, read_signature, states_of,
  add_state, alternates, tail_of,
}
use tricoder_agent.Observation.{apply_tool_transition, judge, drop_outdated}
use tricoder_agent.Effects
use tricoder_agent.Progress
use tricoder_agent.Base.{
  if◌then◌else◌, ◌+◌, List, [], ◌∷◌, ◌≡◌, refl, Bool, true, false, none, some, Text, codes, nat_eq,
  list_eq, contains, distinct, distinct_from, any, all,
}
use tricoder_agent.Effects.{
  ErrorCode, replan, has_repeats, make_file_effects, is_canonical, should_stop_task,
}
use tricoder_agent.State.{AgentRunState, take_up, execution_context}
use tricoder_agent.Batch.{
  ToolResult, tool_failure, reported_effects, changed_paths, effects_with, record_effects,
  owned_candidate, owned_check, record_check, skipped_result, recovery_of, index_of, extend_new,
}
use tricoder_agent.Batch.Progressing.{observe_progress, observation_of, failure_classification}
use tricoder_agent.Batch.Calls.{Host, replied, Call, BatchState, known_ids, log_skips}
use tricoder_agent.Batch.Execute.{
  execute, execute_from, turn, perform, ask_tool, apply_result, deliver, fill_if,
  fill_remaining_results, append_skips, skips, stop_of, watch, act_on, settle, settle_logged,
  warn_or_stop, end_batch, with_reason,
}
use tricoder_agent.Batch.Rules.{Ensures}
use tricoder_agent.Batch.Answering.{Answered, Fails}
use tricoder_agent.Batch.Pairing.{execute-Answered}

-- A message is the name of the tool and whether the result is a success.
abbrev host : Host (Text × Bool)
host = record {
  message = λ a r id. (a.tool, r.ok);
  describe = λ tool. none;
  show = λ n. (48 + n) ∷ [];
  show_int = λ n. [];
  digest = λ texts. [];
  printable = λ c. true;
}

abbrev result : Bool → ToolResult
result good = record {
  ok = good;
  output = [];
  relative_path = none;
  modified_paths = [];
  file_effects = none;
  error =
      if good
      then none
      else some (record {
        code = ErrorCode.execution_failed;
        recovery = replan;
        retryable = false;
        detail_code = none;
      });
  verification_evidence = none;
  command_check = none;
  clarification = none;
}

abbrev call : Text → Text → Bool → Call
call tool id good = record {
  action = record { tool = tool; outcome = none; reason = codes "r" };
  call_id = some id;
  cancelled_before = false;
  announced = true;
  reply = replied (result good);
  scope = none;
  observation = none;
  logged = some true;
  cancelled_after = false;
  observed = record {
    reads_only = false;
    broken_off = none;
    workspace = none;
    cancelled = false;
    arguments_fingerprint = codes "a";
    result_fingerprint = codes "b";
    check_fingerprint = codes "c";
  };
  cancelled_scanned = false;
  progress_logged = some true;
  cancelled_last = false;
  skip_logged = some true;
}

abbrev calls : List Call
calls =
    call (codes "read_file") (codes "c1") true
    ∷ call (codes "run_command") (codes "c2") false
    ∷ call (codes "finish") (codes "c3") true
    ∷ []

abbrev agent : AgentRunState
agent = record {
  current_task_id = some "t1";
  clarification_requests = 0;
  modified_files = [];
  modified_directories = [];
  verification = "未运行";
  evidence = none;
  failed_snapshot = none;
  verification_required = false;
  verification_obligation = "none";
  pending_verification_paths = [];
  task_modified_files = [];
  task_modified_directories = [];
  unknown_effects = false;
  tool_calls = 0;
  cleanup_failed = false;
  file_effects_observed = true;
  validation = record {
    task_id = "t1";
    max_records = 20;
    records = [];
    unresolved = [];
    latest = [];
    stale = [];
    recent_only = false;
  };
  progress = record { observations = []; capacity = 32; read_epoch = 0 };
}

abbrev start : BatchState (Text × Bool)
start = record { agent = agent; messages = [] }

-- The failed command is the last one that is performed.
messages :
    (execute host 1 calls start).1.messages
    ≡ (codes "read_file", true) ∷ (codes "run_command", false) ∷ (codes "finish", false) ∷ []
unfolding execute execute_from turn perform ask_tool apply_result deliver fill_if
    fill_remaining_results append_skips skips stop_of watch act_on settle settle_logged warn_or_stop
    end_batch with_reason reported_effects changed_paths effects_with record_effects owned_candidate
    owned_check record_check skipped_result tool_failure recovery_of index_of extend_new known_ids
    log_skips observe_progress observation_of failure_classification make_file_effects is_canonical
    has_repeats should_stop_task take_up execution_context apply_tool_transition judge drop_outdated
    validate_observation append_bounded decide repeated_failure_decision repeated_read_decision
    oscillation_decision same_failure failure_signature same_read read_signature states_of add_state
    alternates tail_of distinct distinct_from contains any all Effects.observe Progress.observe
messages = refl

performed : (execute host 1 calls start).1.agent.tool_calls ≡ 2
unfolding execute execute_from turn perform ask_tool apply_result deliver fill_if
    fill_remaining_results append_skips skips stop_of watch act_on settle settle_logged warn_or_stop
    end_batch with_reason reported_effects changed_paths effects_with record_effects owned_candidate
    owned_check record_check skipped_result tool_failure recovery_of index_of extend_new known_ids
    log_skips observe_progress observation_of failure_classification make_file_effects is_canonical
    has_repeats should_stop_task take_up execution_context apply_tool_transition judge drop_outdated
    validate_observation append_bounded decide repeated_failure_decision repeated_read_decision
    oscillation_decision same_failure failure_signature same_read read_signature states_of add_state
    alternates tail_of distinct distinct_from contains any all Effects.observe Progress.observe
performed = refl

execute-Answered_example :
    Ensures
      (λ o after. Answered host calls start after)
      (Fails host calls start)
      (execute host 1 calls start)
unfolding has_repeats distinct distinct_from known_ids contains
execute-Answered_example = execute-Answered host 1 calls start refl refl
