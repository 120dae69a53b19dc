-- ===== src/Evidence.antt =====
-- workspace/verification.py: snapshots of the workspace, verification evidence and the scope that
-- issues it. An `object()` that stands for an authority is a number; `fresh` is the number of a new
-- object and `token` a random text. How a snapshot is scanned is not modelled here.
pub mod Snapshots
pub mod Authority
mod Tests
use tricoder_agent.Base.{
  ℕ, String, List, [], ◌∷◌, Bool, true, false, ◌&&◌, not, Option, none, some, Result, ok, err,
  raise_if, ◌>>◌, all, Text, ◌==◌, nat_eq, string_eq, option_eq, if◌then◌else◌, ℤ,
}
use tricoder_agent.Checks.{CommandCheckRecord, CheckError, validate_record, is_some_empty}

pub record WorkspaceSnapshot : Type 0 where
  pub scope_id : String
  pub digest : String
  pub complete : Bool
  pub limitations : List String
  pub content_digest : Option String

pub record VerificationEvidence : Type 0 where
  pub task_id : String
  pub command_id : String
  pub before : WorkspaceSnapshot
  pub after : WorkspaceSnapshot
  pub passed : Bool
  pub authority : Option ℕ

-- `stable_snapshots`: complete, of one scope and one content.
unfoldable pub stable_snapshots : List WorkspaceSnapshot → Bool
stable_snapshots [] = false
stable_snapshots (first ∷ rest) =
    all (λ item. item.complete && item.scope_id == first.scope_id && item.digest == first.digest)
      (first ∷ rest)

unfoldable pub is_valid_for : VerificationEvidence → WorkspaceSnapshot → Bool
unfolding stable_snapshots
is_valid_for e current = e.passed && stable_snapshots (e.before ∷ e.after ∷ current ∷ [])

unfoldable pub proves_new_file_version : WorkspaceSnapshot → WorkspaceSnapshot → Bool
proves_new_file_version previous current =
    previous.complete
    && current.complete
    && previous.scope_id == current.scope_id
    && not (previous.digest == current.digest)

pub record VerificationScope : Type 0 where
  pub token : String
  pub task_id : String
  pub authority : ℕ
  pub check_authority : ℕ
  pub unknown_effects : Bool

pub data ScopeError : Type 0 where
  task_id_empty : ScopeError

-- The label of the new task: the caller's, or a random one.
abbrev label : Option String → String → String
label none token = token
label (some task_id) token = task_id

unfoldable pub begin_task :
    VerificationScope → Option String → String → ℕ → Result ScopeError VerificationScope
begin_task scope task_id token fresh = do
  raise_if (is_some_empty task_id) task_id_empty
  ok (record scope { task_id = label task_id token; check_authority = fresh })

unfoldable pub revoke : VerificationScope → ℕ → VerificationScope
revoke scope fresh = record scope { authority = fresh }

unfoldable pub issue :
    VerificationScope → String → WorkspaceSnapshot → WorkspaceSnapshot → Bool → VerificationEvidence
unfolding stable_snapshots
issue scope token before after passed = record {
  task_id = scope.task_id;
  command_id = token;
  before = before;
  after = after;
  passed = passed && stable_snapshots (before ∷ after ∷ []);
  authority = some scope.authority;
}

unfoldable pub owns : VerificationScope → Option VerificationEvidence → Bool
owns scope none = false
owns scope (some e) = e.authority == some scope.authority

-- The facts of a command that the host hands to `issue_command_check`.
pub record CommandFacts : Type 0 where
  pub argv : List String
  pub cwd : Text
  pub kind : String
  pub returncode : Option ℤ
  pub output_summary : Text
  pub execution_complete : Bool
  pub workspace_stable : Bool
  pub targets : List Text
  pub snapshot_id : Option String
  pub limitations : List Text
  pub diagnostics : List String
  pub output_truncated : Bool

abbrev check_record : VerificationScope → String → CommandFacts → CommandCheckRecord
check_record scope token facts = record {
  task_id = scope.task_id;
  check_id = token;
  argv = facts.argv;
  cwd = facts.cwd;
  kind = facts.kind;
  returncode = facts.returncode;
  output_summary = facts.output_summary;
  execution_complete = facts.execution_complete;
  workspace_stable = facts.workspace_stable;
  targets = facts.targets;
  snapshot_id = facts.snapshot_id;
  limitations = facts.limitations;
  diagnostics = facts.diagnostics;
  output_truncated = facts.output_truncated;
  spill_reference = none;
  authority = some scope.check_authority;
}

unfoldable pub issue_command_check :
    VerificationScope → String → CommandFacts → Result CheckError CommandCheckRecord
issue_command_check scope token facts = do
  validate_record (check_record scope token facts)
  ok (check_record scope token facts)

-- `owns_check`, of a record.
unfoldable pub owns_check : VerificationScope → CommandCheckRecord → Bool
owns_check scope r = r.authority == some scope.check_authority && r.task_id == scope.task_id
