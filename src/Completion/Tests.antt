-- ===== src/Completion/Tests.antt =====
-- Runs of engine/completion.py at concrete states, on POSIX: no folding of case.
use mathlib.Core.List.{filter_map}
use tricoder_agent.Base.Dict.{get, put, pop, has_key}
use tricoder_agent.Base.{
  ℕ, List, [], ◌∷◌, ◌≡◌, ◌⊎◌, refl, true, false, none, some, codes, pos, All, Has, distinct, nat_eq,
  list_eq, any, all, keep, distinct_from, contains, starts_with, split, join, replace, rstrip,
}
use tricoder_agent.Paths.{
  target_covers_path, uncovered_paths, source_verification_paths, normalize_target,
}
use tricoder_agent.Checks.{CommandCheckRecord, has_effective_success_result}
use tricoder_agent.Checks.Tracker.{
  TaskValidationTracker, observe, store, refresh, resolve, conclusive_success, invalidate, mark,
  report, status, values, record_limitations, add_all, current_records, current_success,
}
use tricoder_agent.Checks.Tracker.Events.{Event, observed, invalidated, apply_all, apply}
use tricoder_agent.Evidence.{
  WorkspaceSnapshot, VerificationEvidence, VerificationScope, owns, owns_check, is_valid_for,
}
use tricoder_agent.State.{AgentRunState}
use tricoder_agent.Completion.{
  pending, counts, normal_targets, successful_targets, coverage_of, check_coverage,
  has_relevant_check, current_verification_satisfied, anchors, has_current_check_anchor,
  is_stale_evidence, drop_failed, withdraw,
}
use tricoder_agent.Completion.Assess.{
  FinishRequest, is_expired, assess_finish, review_evidence, review, expire, is_completed,
  is_safe_correction, misses_verification, recoverable_reason, conclude,
}
use tricoder_agent.Completion.Soundness.{
  Verified, Tested, assess_finish-Verified, assess_finish-covered,
}
use tricoder_agent.Completion.Recovery.{Correctable, assess_finish-Correctable}

abbrev posix : ℕ → ℕ
posix c = c

abbrev current : WorkspaceSnapshot
current = record {
  scope_id = "w";
  digest = "d1";
  complete = true;
  limitations = [];
  content_digest = none;
}

abbrev scope : VerificationScope
scope = record {
  token = "root";
  task_id = "t1";
  authority = 0;
  check_authority = 1;
  unknown_effects = false;
}

abbrev proof : VerificationEvidence
proof = record {
  task_id = "t1";
  command_id = "e1";
  before = current;
  after = current;
  passed = true;
  authority = some 0;
}

abbrev check : CommandCheckRecord
check = record {
  task_id = "t1";
  check_id = "c1";
  argv = "pytest" ∷ [];
  cwd = codes ".";
  kind = "tests";
  returncode = some (pos 0);
  output_summary = [];
  execution_complete = true;
  workspace_stable = true;
  targets = codes "src" ∷ [];
  snapshot_id = some "d1";
  limitations = [];
  diagnostics = [];
  output_truncated = false;
  spill_reference = none;
  authority = some 1;
}

abbrev empty : TaskValidationTracker
empty = record {
  task_id = "t1";
  max_records = 20;
  records = [];
  unresolved = [];
  latest = [];
  stale = [];
  recent_only = false;
}

abbrev after : List Event → AgentRunState
after events = record {
  current_task_id = some "t1";
  clarification_requests = 0;
  modified_files = codes "src/app.py" ∷ [];
  modified_directories = codes "src" ∷ [];
  pending_verification_paths = [];
  tool_calls = 3;
  file_effects_observed = true;
  progress = record { observations = []; capacity = 32; read_epoch = 0 };
  verification = "通过";
  evidence = some proof;
  failed_snapshot = none;
  verification_required = true;
  verification_obligation = "normal";
  task_modified_files = codes "src/app.py" ∷ [];
  task_modified_directories = codes "src" ∷ [];
  unknown_effects = false;
  cleanup_failed = false;
  validation = apply_all empty events;
}

-- The check ran after the last change; a later change made it stale; no check ran at all.
abbrev checked : AgentRunState
checked = after (observed check ∷ [])

abbrev changed : AgentRunState
changed = after (observed check ∷ invalidated ∷ [])

abbrev untested : AgentRunState
untested = record (after []) { evidence = none; verification = pending }

abbrev request : FinishRequest
request = record {
  summary = codes "done";
  finish_outcome = "completed";
  cancellation_requested = false;
  termination_started = false;
}

checked_completes :
    (assess_finish posix checked request (some scope) (some current)).1.completed ≡ true
unfolding any all keep distinct distinct_from contains starts_with split join replace rstrip get put
    pop has_key target_covers_path uncovered_paths source_verification_paths normalize_target
    has_effective_success_result observe store refresh resolve conclusive_success invalidate mark
    report status values record_limitations add_all current_records current_success apply_all apply
    owns owns_check is_valid_for counts normal_targets successful_targets coverage_of check_coverage
    has_relevant_check current_verification_satisfied anchors has_current_check_anchor
    is_stale_evidence drop_failed withdraw assess_finish review_evidence review is_expired expire
    is_completed is_safe_correction misses_verification recoverable_reason conclude filter_map
checked_completes = refl

checked_requires :
    (assess_finish posix checked request (some scope) (some current)).0.verification_required ≡ true
unfolding any all keep distinct distinct_from contains starts_with split join replace rstrip get put
    pop has_key target_covers_path uncovered_paths source_verification_paths normalize_target
    has_effective_success_result observe store refresh resolve conclusive_success invalidate mark
    report status values record_limitations add_all current_records current_success apply_all apply
    owns owns_check is_valid_for counts normal_targets successful_targets coverage_of check_coverage
    has_relevant_check current_verification_satisfied anchors has_current_check_anchor
    is_stale_evidence drop_failed withdraw assess_finish review_evidence review is_expired expire
    is_completed is_safe_correction misses_verification recoverable_reason conclude filter_map
checked_requires = refl

changed_expires : is_expired changed (some current) ≡ true
unfolding any all keep distinct distinct_from contains starts_with split join replace rstrip get put
    pop has_key target_covers_path uncovered_paths source_verification_paths normalize_target
    has_effective_success_result observe store refresh resolve conclusive_success invalidate mark
    report status values record_limitations add_all current_records current_success apply_all apply
    owns owns_check is_valid_for counts normal_targets successful_targets coverage_of check_coverage
    has_relevant_check current_verification_satisfied anchors has_current_check_anchor
    is_stale_evidence drop_failed withdraw assess_finish review_evidence review is_expired expire
    is_completed is_safe_correction misses_verification recoverable_reason conclude filter_map
changed_expires = refl

untested_recovers :
    (assess_finish posix untested request (some scope) (some current)).1.recoverable_reason
    ≡ some "missing_relevant_verification"
unfolding any all keep distinct distinct_from contains starts_with split join replace rstrip get put
    pop has_key target_covers_path uncovered_paths source_verification_paths normalize_target
    has_effective_success_result observe store refresh resolve conclusive_success invalidate mark
    report status values record_limitations add_all current_records current_success apply_all apply
    owns owns_check is_valid_for counts normal_targets successful_targets coverage_of check_coverage
    has_relevant_check current_verification_satisfied anchors has_current_check_anchor
    is_stale_evidence drop_failed withdraw assess_finish review_evidence review is_expired expire
    is_completed is_safe_correction misses_verification recoverable_reason conclude filter_map
untested_recovers = refl

assess_finish-Verified_example :
    (c : WorkspaceSnapshot) × (v : VerificationScope) × (some current ≡ some c)
    × (some scope ≡ some v)
    × Verified posix (assess_finish posix checked request (some scope) (some current)).0 c v
assess_finish-Verified_example =
    assess_finish-Verified posix checked request (some scope) (some current) checked_completes
      checked_requires

assess_finish-covered_example :
    let left = (assess_finish posix checked request (some scope) (some current)).0 in
    All (Tested posix left current) (distinct left.task_modified_files)
    × All
        (λ directory.
          Tested posix left current directory
          ⊎ Has
              (λ path. target_covers_path posix directory path ≡ true)
              (distinct left.task_modified_files))
        left.task_modified_directories
assess_finish-covered_example =
    assess_finish-covered posix checked request (some scope) current checked_completes
      checked_requires

assess_finish-Correctable_example :
    Correctable request
      (assess_finish posix untested request (some scope) (some current)).0
      (some current)
      (some scope)
    × ((assess_finish posix untested request (some scope) (some current)).1.completed ≡ false)
assess_finish-Correctable_example =
    assess_finish-Correctable posix untested request (some scope) (some current)
      "missing_relevant_verification" untested_recovers
