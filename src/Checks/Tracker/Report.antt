-- ===== src/Checks/Tracker/Report.antt =====
-- The constructor of the report in core/validation.py never refuses what a tracker reports.
use tricoder_agent.Base.{
  ℕ, String, List, [], ◌∷◌, ◌≡◌, refl, Bool, true, false, not, ◌&&◌, arith, ok, Bool-cases, inl,
  inr, ltb, length, any, contains, ◌==◌, All, All-append, Text, is_nil, list_eq, nat_eq, string_eq,
  if◌then◌else◌,
}
use tricoder_agent.Base.Dict.{Dict}
use tricoder_agent.Checks.{
  CommandCheckRecord, Signature, validate_record, validate_report, is_empty, report_statuses,
}
use tricoder_agent.Checks.Tracker.{
  TaskValidationTracker, create, report, status, values, current_success, record_limitations,
  add_all, limitations, add_new, zero_tests,
}
use tricoder_agent.Checks.Tracker.Events.{Event, apply_all}
use tricoder_agent.Checks.Tracker.Invariant.{
  IsRecord, IsNamed, IsWellFormed, Brings, create-IsWellFormed, apply_all-IsWellFormed,
}

-- No limitation is the empty text.
abbrev Full : List Text → Type 0
Full = All (λ l. (l == []) ≡ false)

abbrev empty_text : Text → Bool
empty_text t = t == []

Full-any : (ls : List Text) → Full ls → any empty_text ls ≡ false
unfolding any
Full-any [] f = refl
Full-any (l ∷ ls) f = rw (f.0, Full-any ls f.1) refl

any-Full : (ls : List Text) → any empty_text ls ≡ false → Full ls
unfolding any
any-Full [] h = tt
any-Full (l ∷ ls) h = (ground arith, any-Full ls (ground arith))

Full-add_new : (ls : List Text) (l : Text) → (l == []) ≡ false → Full ls → Full (add_new ls l)
Full-add_new ls l e f = elim (Bool-cases (contains ls l)) [
  | inl old ↦ rw old f
  | inr new ↦ rw new (All-append _ ls (l ∷ []) f (e, tt))
]

Full-add_all : (ls more : List Text) → Full ls → Full more → Full (add_all ls more)
unfolding add_all
Full-add_all ls [] f m = f
Full-add_all ls (l ∷ more) f m = Full-add_all (add_new ls l) more (Full-add_new ls l m.0 f) m.1

record-Full : (r : CommandCheckRecord) → IsRecord r → Full r.limitations
unfolding validate_record
record-Full r h = any-Full r.limitations (ground arith)

Full-record_limitations :
    (ls : List Text) (rs : List CommandCheckRecord)
    → Full ls
    → All IsRecord rs
    → Full (record_limitations ls rs)
unfolding record_limitations
Full-record_limitations ls [] f a = f
Full-record_limitations ls (r ∷ rs) f a =
    let own = Full-add_all ls r.limitations f (record-Full r a.0) in
    elim (Bool-cases (contains r.diagnostics "zero_tests_reported")) [
      | inl e ↦ rw e (
          Full-record_limitations (add_new (add_all ls r.limitations) zero_tests) rs
            (Full-add_new (add_all ls r.limitations) zero_tests refl own) a.1)
      | inr e ↦ rw e (Full-record_limitations (add_all ls r.limitations) rs own a.1)
    ]

values_named : (d : Dict Signature String) → All IsNamed d → any is_empty (values d) ≡ false
unfolding values any
values_named [] n = refl
values_named ((s, id) ∷ d) n = rw (n.0, values_named d n.1) refl

Full-unless : (b : Bool) (l : Text) → (l == []) ≡ false → Full (if b then [] else l ∷ [])
Full-unless true l e = tt
Full-unless false l e = (e, tt)

Full-when : (b : Bool) (l : Text) → (l == []) ≡ false → Full (if b then l ∷ [] else [])
Full-when true l e = (e, tt)
Full-when false l e = tt

limitations-Full : (t : TaskValidationTracker) → Full (limitations t)
limitations-Full t = (
  refl,
  All-append _ _ _ (Full-unless (is_nil t.stale) _ refl) (
      All-append _ _ _ (Full-unless (is_nil t.unresolved) _ refl) (Full-when t.recent_only _ refl)),
)

status_known : (t : TaskValidationTracker) → contains report_statuses (status t) ≡ true
unfolding status contains
status_known t = elim (Bool-cases (is_nil t.unresolved)) [
  | inr e ↦ rw e refl
  | inl e ↦ elim (Bool-cases (not (is_nil t.stale) && not (current_success t))) [
    | inl f ↦ rw (e, f) refl
    | inr f ↦ elim (Bool-cases (is_nil t.records)) [
      | inl g ↦ rw (e, f, g) refl
      | inr g ↦ rw (e, f, g) refl
    ]
  ]
]

report-accepted : (t : TaskValidationTracker) → IsWellFormed t → validate_report (report t) ≡ ok tt
unfolding validate_report report
report-accepted t w =
    let few : ltb 32 (length t.records) ≡ false = ground arith in
    rw
      (
        status_known t,
        few,
        Full-any _
            (Full-record_limitations (limitations t) t.records (limitations-Full t) w.accepted),
        values_named t.unresolved w.unresolved_named,
        values_named t.stale w.stale_named,
      )
      refl

-- Whatever a task does to its tracker, the report is built without an error.
pub report_never_refused :
    (task_id : String) (max_records : ℕ) (t : TaskValidationTracker) (events : List Event)
    → create task_id max_records ≡ ok t
    → All Brings events
    → validate_report (report (apply_all t events)) ≡ ok tt
report_never_refused task_id max_records t events h b =
    report-accepted (apply_all t events)
      (apply_all-IsWellFormed events t b (create-IsWellFormed task_id max_records t h))
