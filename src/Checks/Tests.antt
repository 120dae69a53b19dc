-- ===== src/Checks/Tests.antt =====
-- Runs of core/validation.py and engine/validation.py at concrete records.
use tricoder_agent.Base.{
  ℕ, String, List, [], ◌∷◌, ◌≡◌, ◌≢◌, inr, refl, true, false, none, some, ok, codes, All, pos,
  arith, ◌==◌, ==_iff, string_eq, list_eq, pair_eq, nat_eq, any, contains,
}
use tricoder_agent.Base.Dict.{has_key, pop, put}
use tricoder_agent.Checks.{
  CommandCheckRecord, signature, validate_record, validate_report, has_effective_success_result,
}
use tricoder_agent.Checks.Tracker.{
  TaskValidationTracker, create, invalidate, report, current_records, fails, conclusive_success,
  mark, observe, refresh, resolve, store,
}
use tricoder_agent.Checks.Tracker.Events.{
  Event, observed, invalidated, reconciled, apply, apply_all,
}
use tricoder_agent.Checks.Tracker.Failures.{failure_stays}
use tricoder_agent.Checks.Tracker.Invariant.{
  IsRecord, Brings, IsWellFormed, create-IsWellFormed, apply_all-IsWellFormed,
}
use tricoder_agent.Checks.Tracker.Report.{report_never_refused}
use tricoder_agent.Checks.Tracker.Staleness.{IsStale, stale_never_current}

abbrev check : String → List String → ℕ → CommandCheckRecord
check check_id argv code = record {
  task_id = "t1";
  check_id = check_id;
  argv = argv;
  cwd = codes ".";
  kind = "tests";
  returncode = some (pos code);
  output_summary = [];
  execution_complete = true;
  workspace_stable = true;
  targets = codes "src" ∷ [];
  snapshot_id = some "s1";
  limitations = [];
  diagnostics = [];
  output_truncated = false;
  spill_reference = none;
  authority = some 1;
}

abbrev broken : CommandCheckRecord
broken = check "c1" ("pytest" ∷ []) 1

abbrev passing : CommandCheckRecord
passing = check "c2" ("pytest" ∷ []) 0

abbrev lint : CommandCheckRecord
lint = check "c3" ("ruff" ∷ []) 0

abbrev empty : TaskValidationTracker
empty = record {
  task_id = "t1";
  max_records = 2;
  records = [];
  unresolved = [];
  latest = [];
  stale = [];
  recent_only = false;
}

created : create "t1" 2 ≡ ok empty
unfolding create
created = refl

broken-IsRecord : IsRecord broken
unfolding validate_record any contains
broken-IsRecord = refl

lint-IsRecord : IsRecord lint
unfolding validate_record any contains
lint-IsRecord = refl

broken-fails : fails broken ≡ true
broken-fails = refl

passing-success : conclusive_success passing ≡ true
unfolding conclusive_success has_effective_success_result contains
passing-success = refl

lint_differs : signature lint ≢ signature broken
lint_differs e = ground (arith, distinguished, ==_iff (signature lint) (signature broken))
  where
    distinguished : (signature lint == signature broken) ≡ false
    distinguished = refl

-- The failure and the evicted history of three records: a bound of two is kept.
abbrev events : List Event
events = observed broken ∷ observed lint ∷ invalidated ∷ observed lint ∷ reconciled (some "s2") ∷ []

events-Brings : All Brings events
events-Brings = (broken-IsRecord, (lint-IsRecord, (tt, (lint-IsRecord, (tt, tt)))))

failure_stays_example :
    (report (apply_all (apply empty (observed broken)) (observed lint ∷ invalidated ∷ []))).status
    ≡ "failed"
failure_stays_example =
    failure_stays empty broken (observed lint ∷ invalidated ∷ []) refl broken-fails
      (inr lint_differs, (tt, tt))

empty-IsWellFormed : IsWellFormed empty
empty-IsWellFormed = create-IsWellFormed "t1" 2 empty created

apply_all-IsWellFormed_example : IsWellFormed (apply_all empty events)
apply_all-IsWellFormed_example =
    apply_all-IsWellFormed events empty events-Brings empty-IsWellFormed

report_never_refused_example : validate_report (report (apply_all empty events)) ≡ ok tt
report_never_refused_example = report_never_refused "t1" 2 empty events created events-Brings

-- The failed check went stale with a file change.
abbrev stale_history : List Event
stale_history = observed broken ∷ invalidated ∷ []

abbrev stale_tracker : TaskValidationTracker
stale_tracker = apply_all empty stale_history

stale_tracker-IsStale : IsStale (signature broken) stale_tracker
unfolding has_key apply_all apply invalidate mark observe resolve refresh store put pop
stale_tracker-IsStale = refl

stale_tracker-IsWellFormed : IsWellFormed stale_tracker
stale_tracker-IsWellFormed =
    apply_all-IsWellFormed stale_history empty (broken-IsRecord, (tt, tt)) empty-IsWellFormed

stale_never_current_example :
    All
      (λ r. signature r ≢ signature broken)
      (current_records (apply_all stale_tracker (observed lint ∷ reconciled (some "s1") ∷ [])) "s1")
stale_never_current_example =
    stale_never_current (signature broken) stale_tracker
      (observed lint ∷ reconciled (some "s1") ∷ []) "s1" stale_tracker-IsWellFormed
      (lint-IsRecord, (tt, tt)) stale_tracker-IsStale (inr lint_differs, (tt, tt))
