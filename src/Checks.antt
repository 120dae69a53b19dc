-- ===== src/Checks.antt =====
-- core/validation.py: the host's record of one command check, and the report of a task's checks.
-- Texts that are only compared are `String`s; those that are measured, joined or read as paths are
-- lists of code points. The identity of a Python object is a number.
pub mod Tracker
mod Tests
use tricoder_agent.Base.{
  ℕ, String, List, [], ◌∷◌, Bool, true, false, not, ◌&&◌, ◌||◌, Option, none, some, Result, ok, err,
  raise_if, ◌>>◌, ltb, any, contains, length, Text, ◌==◌, Eq, list_eq, nat_eq, string_eq, pair_eq,
  option_eq, ℤ, pos, negsuc,
}

abbrev pub check_kinds : List String
check_kinds = "script" ∷ "tests" ∷ "syntax" ∷ "static" ∷ "information" ∷ "other" ∷ []

abbrev pub report_statuses : List String
report_statuses = "unverified" ∷ "observed" ∷ "failed" ∷ "stale" ∷ []

pub record CommandCheckRecord : Type 0 where
  pub task_id : String
  pub check_id : String
  pub argv : List String
  pub cwd : Text
  pub kind : String
  pub returncode : Option ℤ
  pub output_summary : Text
  pub execution_complete : Bool
  pub workspace_stable : Bool
  pub targets : List Text
  pub snapshot_id : Option String
  pub limitations : List Text
  pub diagnostics : List String
  pub output_truncated : Bool
  pub spill_reference : Option String
  pub authority : Option ℕ

-- The `ValueError` of each test.
pub data CheckError : Type 0 where
  task_id_empty check_id_empty argv_invalid cwd_empty kind_unsupported summary_too_long : CheckError
  targets_invalid limitations_invalid diagnostics_invalid stable_without_snapshot : CheckError
  snapshot_id_invalid spill_reference_invalid : CheckError
  status_unsupported too_many_records coverage_confirmed unresolved_invalid stale_invalid :
      CheckError

abbrev pub is_empty : String → Bool
is_empty s = s == ""

abbrev pub is_some_empty : Option String → Bool
is_some_empty s = s == some ""

-- `CommandCheckRecord.__post_init__`, the tests of types aside.
unfoldable pub validate_record : CommandCheckRecord → Result CheckError (Unit {0})
validate_record r = do
  raise_if (is_empty r.task_id) task_id_empty
  raise_if (is_empty r.check_id) check_id_empty
  raise_if (r.argv == [] || any is_empty r.argv) argv_invalid
  raise_if (r.cwd == []) cwd_empty
  raise_if (not (contains check_kinds r.kind)) kind_unsupported
  raise_if (ltb 2000 (length r.output_summary)) summary_too_long
  raise_if (any (λ t. t == []) r.targets) targets_invalid
  raise_if (any (λ t. t == []) r.limitations) limitations_invalid
  raise_if (any is_empty r.diagnostics) diagnostics_invalid
  raise_if (r.workspace_stable && r.snapshot_id == none) stable_without_snapshot
  raise_if (is_some_empty r.snapshot_id) snapshot_id_invalid
  raise_if (is_some_empty r.spill_reference) spill_reference_invalid

abbrev pub Signature : Type 0
Signature = List String × Text

abbrev pub signature : CommandCheckRecord → Signature
signature r = (r.argv, r.cwd)

pub record TaskValidationReport : Type 0 where
  pub records : List CommandCheckRecord
  pub status : String
  pub limitations : List Text
  pub unresolved_check_ids : List String
  pub recent_only : Bool
  pub requirements_coverage_confirmed : Bool
  pub stale_check_ids : List String

-- `TaskValidationReport.__post_init__`, the tests of types aside.
unfoldable pub validate_report : TaskValidationReport → Result CheckError (Unit {0})
validate_report r = do
  raise_if (not (contains report_statuses r.status)) status_unsupported
  raise_if (ltb 32 (length r.records)) too_many_records
  raise_if r.requirements_coverage_confirmed coverage_confirmed
  raise_if (any (λ t. t == []) r.limitations) limitations_invalid
  raise_if (any is_empty r.unresolved_check_ids) unresolved_invalid
  raise_if (any is_empty r.stale_check_ids) stale_invalid

abbrev pub returned_zero : Option ℤ → Bool
returned_zero (some (pos n)) = n == 0
returned_zero _ = false

abbrev pub is_information : CommandCheckRecord → Bool
is_information r = r.kind == "information"

-- `has_effective_success_result`.
unfoldable pub has_effective_success_result : CommandCheckRecord → Bool
has_effective_success_result r =
    r.execution_complete
    && returned_zero r.returncode
    && not (contains r.diagnostics "scope_filtered")
    && not (r.kind == "tests" && contains r.diagnostics "zero_tests_reported")
