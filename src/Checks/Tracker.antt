-- ===== src/Checks/Tracker.antt =====
-- engine/validation.py: the tracker of one task's checks. Its three ordered dictionaries are keyed
-- by a check's signature; each loop over `items()` is a recursion on the dictionary.
pub mod Events
pub mod Invariant
pub mod Staleness
pub mod Failures
pub mod Report
use Prim.Native.Nat.{◌/◌, ◌%◌}
use tricoder_agent.Base.{
  ℕ, ◌+◌, ◌-◌, String, List, [], ◌∷◌, ◌++◌, map, Bool, true, false, not, ◌&&◌, ◌||◌, Option, none,
  some, Result, ok, err, raise_if, ◌>>=◌, ◌>>◌, ltb, eqb, if◌then◌else◌, any, keep, contains,
  length, take, drop, is_nil, Text, codes, ◌==◌, list_eq, nat_eq, string_eq, pair_eq, option_eq,
}
use tricoder_agent.Base.Dict.{Dict, get, put, pop, has_key}
use tricoder_agent.Checks.{
  CommandCheckRecord, TaskValidationReport, Signature, signature, is_empty, is_information,
  returned_zero, has_effective_success_result,
}

pub record TaskValidationTracker : Type 0 where
  pub task_id : String
  pub max_records : ℕ
  pub records : List CommandCheckRecord
  pub unresolved : Dict Signature String
  pub latest : Dict Signature CommandCheckRecord
  pub stale : Dict Signature String
  pub recent_only : Bool

pub data TrackerError : Type 0 where
  task_id_empty limit_out_of_range other_task : TrackerError

-- The constructor with `__post_init__`.
unfoldable pub create : String → ℕ → Result TrackerError TaskValidationTracker
create task_id max_records = do
  raise_if (is_empty task_id) task_id_empty
  raise_if (eqb max_records 0 || ltb 32 max_records) limit_out_of_range
  ok (record {
    task_id = task_id;
    max_records = max_records;
    records = [];
    unresolved = [];
    latest = [];
    stale = [];
    recent_only = false;
  })

-- A loop that marks as stale the latest records that pass a test.
unfoldable pub mark :
    (CommandCheckRecord → Bool)
    → Dict Signature CommandCheckRecord
    → Dict Signature String
    → Dict Signature String
mark test [] stale = stale
mark test ((s, r) ∷ rest) stale = mark test rest (if test r then put stale s r.check_id else stale)

unfoldable pub invalidate : TaskValidationTracker → TaskValidationTracker
invalidate t = record t { stale = mark (λ r. not (is_information r)) t.latest t.stale }

unfoldable pub has_workspace_checks : TaskValidationTracker → Bool
has_workspace_checks t = any (λ (s, r). not (is_information r)) t.latest

unfoldable pub reconcile_snapshot : TaskValidationTracker → Option String → TaskValidationTracker
reconcile_snapshot t snapshot_id = record t {
  stale =
      mark
        (λ r.
          not (is_information r)
          && r.workspace_stable
          && (snapshot_id == none || not (r.snapshot_id == snapshot_id)))
        t.latest t.stale;
}

-- A latest record is forgotten with the last record of its check: one round of the loop.
unfoldable pub forget_one :
    CommandCheckRecord → Dict Signature CommandCheckRecord → Dict Signature CommandCheckRecord
forget_one evicted latest = elim (get latest (signature evicted)) [
  | none ↦ latest
  | some r ↦ if r.check_id == evicted.check_id then pop latest (signature evicted) else latest
]

unfoldable pub forget :
    List CommandCheckRecord → Dict Signature CommandCheckRecord → Dict Signature CommandCheckRecord
forget [] latest = latest
forget (evicted ∷ rest) latest = forget rest (forget_one evicted latest)

-- `_latest[...] = record`, `_records.append(record)` and the eviction.
unfoldable pub store : TaskValidationTracker → CommandCheckRecord → TaskValidationTracker
store t r =
    let records = t.records ++ r ∷ [] in
    let latest = put t.latest (signature r) r in
    let excess = length records - t.max_records in
    if ltb t.max_records (length records)
    then record t {
      records = drop excess records;
      latest = forget (take excess records) latest;
      recent_only = true;
    }
    else record t { records = records; latest = latest }

unfoldable pub conclusive_success : CommandCheckRecord → Bool
conclusive_success r = has_effective_success_result r && (is_information r || r.workspace_stable)

unfoldable pub refresh : TaskValidationTracker → CommandCheckRecord → TaskValidationTracker
refresh t r = record t {
  stale =
      if not (is_information r) && r.workspace_stable then pop t.stale (signature r) else t.stale;
}

-- A check failed to finish, or did not return 0.
abbrev pub fails : CommandCheckRecord → Bool
fails r = not r.execution_complete || not (returned_zero r.returncode)

unfoldable pub resolve : TaskValidationTracker → CommandCheckRecord → TaskValidationTracker
resolve t r = record t {
  unresolved =
      if conclusive_success r
      then pop t.unresolved (signature r)
      else if fails r
      then put t.unresolved (signature r) r.check_id
      else t.unresolved;
}

unfoldable pub observe :
    TaskValidationTracker → CommandCheckRecord → Result TrackerError TaskValidationTracker
observe t r = do
  raise_if (not (r.task_id == t.task_id)) other_task
  ok (resolve (refresh (store t r) r) r)

-- The decimal digits of a number below 100; `max_records` is at most 32.
abbrev pub decimal : ℕ → Text
decimal n = (if ltb n 10 then [] else (48 + n / 10) ∷ []) ++ (48 + n % 10) ∷ []

abbrev pub zero_tests : Text
zero_tests = codes "命令输出报告 0 个测试，仅作诊断提示"

abbrev pub add_new : List Text → Text → List Text
add_new limitations l = if contains limitations l then limitations else limitations ++ l ∷ []

unfoldable pub add_all : List Text → List Text → List Text
add_all limitations [] = limitations
add_all limitations (l ∷ rest) = add_all (add_new limitations l) rest

unfoldable pub record_limitations : List Text → List CommandCheckRecord → List Text
unfolding add_all
record_limitations limitations [] = limitations
record_limitations limitations (r ∷ rest) =
    let own = add_all limitations r.limitations in
    record_limitations
      (if contains r.diagnostics "zero_tests_reported" then add_new own zero_tests else own) rest

abbrev pub is_code_check : CommandCheckRecord → Bool
is_code_check r = contains ("tests" ∷ "syntax" ∷ "static" ∷ []) r.kind

unfoldable pub current_success : TaskValidationTracker → Bool
current_success t =
    any
      (λ (s, r).
        not (has_key t.stale s)
        && is_code_check r
        && r.workspace_stable
        && has_effective_success_result r)
      t.latest

unfoldable pub status : TaskValidationTracker → String
unfolding current_success
status t =
    if not (is_nil t.unresolved)
    then "failed"
    else if not (is_nil t.stale) && not (current_success t)
    then "stale"
    else if not (is_nil t.records)
    then "observed"
    else "unverified"

-- `list(d.values())`.
unfoldable pub values : {V : Type 0} → Dict Signature V → List V
values [] = []
values ((s, v) ∷ d) = v ∷ values d

abbrev pub limitations : TaskValidationTracker → List Text
limitations t =
    codes "需求覆盖未自动确认"
    ∷ ((if is_nil t.stale then [] else codes "检查后工作区状态已变化，旧记录已过期" ∷ [])
        ++ ((if is_nil t.unresolved then [] else codes "存在未解决的检查失败" ∷ [])
            ++ (if t.recent_only
                then (codes "仅显示最近 " ++ (decimal t.max_records ++ codes " 条检查记录")) ∷ []
                else [])))

unfoldable pub report : TaskValidationTracker → TaskValidationReport
report t = record {
  records = t.records;
  status = status t;
  limitations = record_limitations (limitations t) t.records;
  unresolved_check_ids = values t.unresolved;
  recent_only = t.recent_only;
  requirements_coverage_confirmed = false;
  stale_check_ids = values t.stale;
}

-- The comprehension of `current_records`.
unfoldable pub current_in :
    TaskValidationTracker → String → Dict Signature CommandCheckRecord → List CommandCheckRecord
current_in t snapshot_id [] = []
current_in t snapshot_id ((s, r) ∷ rest) =
    let others = current_in t snapshot_id rest in
    if not (has_key t.stale s) && r.task_id == t.task_id && r.snapshot_id == some snapshot_id
    then r ∷ others
    else others

unfoldable pub current_records : TaskValidationTracker → String → List CommandCheckRecord
unfolding current_in
current_records t snapshot_id = current_in t snapshot_id t.latest
