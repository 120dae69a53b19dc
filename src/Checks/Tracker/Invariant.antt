-- ===== src/Checks/Tracker/Invariant.antt =====
-- The well-formedness of a tracker of engine/validation.py, and that its report is always accepted.
use tricoder_agent.Base.{
  ℕ, zero, suc, ◌-◌, ◌≤◌, ◌<◌, String, List, [], ◌∷◌, ◌++◌, ◌≡◌, refl, Bool, false, not, ◌&&◌,
  arith, ok, Bool-cases, Option-cases, inl, inr, ltb, length, drop, ◌==◌, ==_iff, All, All-append,
  list_eq, nat_eq, string_eq, pair_eq,
}
use tricoder_agent.Base.Dict.{Dict, get, All-put, All-pop}
use tricoder_agent.Checks.{
  CommandCheckRecord, Signature, signature, validate_record, is_empty, is_information,
}
use tricoder_agent.Checks.Tracker.{
  TaskValidationTracker, create, invalidate, reconcile_snapshot, store, refresh, resolve,
  conclusive_success, fails, mark, forget, forget_one,
}
use tricoder_agent.Checks.Tracker.Events.{
  Event, observed, invalidated, reconciled, apply, apply_all, own_record, other_record,
}

-- A record that its constructor accepts.
abbrev pub IsRecord : CommandCheckRecord → Type 0
IsRecord r = validate_record r ≡ ok tt

abbrev pub IsNamed : Signature × String → Type 0
IsNamed e = is_empty e.1 ≡ false

abbrev IsEntry : String → Signature × CommandCheckRecord → Type 0
IsEntry task_id e = (e.0 ≡ signature e.1) × (e.1.task_id ≡ task_id) × IsRecord e.1

pub record IsWellFormed (t : TaskValidationTracker) : Type 0 where
  pub limit_positive : 0 < t.max_records
  pub limit : t.max_records ≤ 32
  pub bounded : length t.records ≤ t.max_records
  pub accepted : All IsRecord t.records
  pub latest_entries : All (IsEntry t.task_id) t.latest
  pub unresolved_named : All IsNamed t.unresolved
  pub stale_named : All IsNamed t.stale

-- The records that an event brings were accepted.
abbrev pub Brings : Event → Type 0
Brings (observed r) = IsRecord r
Brings _ = Unit

record_named : (r : CommandCheckRecord) → IsRecord r → is_empty r.check_id ≡ false
unfolding validate_record
record_named r h = ground arith

mark-IsNamed :
    (task_id : String) (test : CommandCheckRecord → Bool) (d : Dict Signature CommandCheckRecord)
    (stale : Dict Signature String)
    → All (IsEntry task_id) d
    → All IsNamed stale
    → All IsNamed (mark test d stale)
unfolding mark
mark-IsNamed task_id test [] stale a n = n
mark-IsNamed task_id test ((s, r) ∷ d) stale a n = elim (Bool-cases (test r)) [
  | inl e ↦ rw e (
      mark-IsNamed task_id test d _ a.1
        (All-put IsNamed stale s r.check_id n (record_named r a.0.2)))
  | inr e ↦ rw e (mark-IsNamed task_id test d stale a.1 n)
]

All-forget_one :
    (P : Signature × CommandCheckRecord → Type 0) (evicted : CommandCheckRecord)
    (d : Dict Signature CommandCheckRecord)
    → All P d
    → All P (forget_one evicted d)
unfolding forget_one
All-forget_one P evicted d a = elim (Option-cases (get d (signature evicted))) [
  | inl e ↦ rw (e, forget_one) a
  | inr (r, e) ↦ elim (Bool-cases (r.check_id == evicted.check_id)) [
    | inl same ↦ rw (e, forget_one, same) (All-pop P d (signature evicted) a)
    | inr other ↦ rw (e, forget_one, other) a
  ]
]

pub All-forget :
    (P : Signature × CommandCheckRecord → Type 0) (evicted : List CommandCheckRecord)
    (d : Dict Signature CommandCheckRecord)
    → All P d
    → All P (forget evicted d)
unfolding forget
All-forget P [] d a = a
All-forget P (r ∷ evicted) d a = All-forget P evicted (forget_one r d) (All-forget_one P r d a)

All-drop : (n : ℕ) (rs : List CommandCheckRecord) → All IsRecord rs → All IsRecord (drop n rs)
All-drop zero rs a = a
All-drop (suc n) [] a = tt
All-drop (suc n) (r ∷ rs) a = All-drop n rs a.1

length-drop : (n : ℕ) (rs : List CommandCheckRecord) → length (drop n rs) ≡ length rs - n
length-drop zero rs = omega arith
length-drop (suc n) [] = omega arith
length-drop (suc n) (r ∷ rs) = omega (arith, length-drop n rs)

store-IsWellFormed :
    (t : TaskValidationTracker) (r : CommandCheckRecord)
    → r.task_id ≡ t.task_id
    → IsRecord r
    → IsWellFormed t
    → IsWellFormed (store t r)
unfolding store
store-IsWellFormed t r e v w =
    let entries =
      All-put (IsEntry t.task_id) t.latest (signature r) r w.latest_entries (refl, e, v) in
    let records = All-append IsRecord t.records (r ∷ []) w.accepted (v, tt) in
    elim (Bool-cases (ltb t.max_records (length (t.records ++ r ∷ [])))) [
      | inl over ↦ rw over (record {
        limit_positive = w.limit_positive;
        limit = w.limit;
        bounded = ground (
          arith,
          length-drop (length (t.records ++ r ∷ []) - t.max_records) (t.records ++ r ∷ []),
        );
        accepted = All-drop _ _ records;
        latest_entries = All-forget (IsEntry t.task_id) _ _ entries;
        unresolved_named = w.unresolved_named;
        stale_named = w.stale_named;
      })
      | inr fits ↦ rw fits (record {
        limit_positive = w.limit_positive;
        limit = w.limit;
        bounded = ground arith;
        accepted = records;
        latest_entries = entries;
        unresolved_named = w.unresolved_named;
        stale_named = w.stale_named;
      })
    ]

refresh-IsNamed :
    (t : TaskValidationTracker) (r : CommandCheckRecord)
    → All IsNamed t.stale
    → All IsNamed (refresh t r).stale
unfolding refresh
refresh-IsNamed t r n = elim (Bool-cases (not (is_information r) && r.workspace_stable)) [
  | inl e ↦ rw e (All-pop IsNamed t.stale (signature r) n)
  | inr e ↦ rw e n
]

resolve-IsNamed :
    (t : TaskValidationTracker) (r : CommandCheckRecord)
    → IsRecord r
    → All IsNamed t.unresolved
    → All IsNamed (resolve t r).unresolved
unfolding resolve
resolve-IsNamed t r v n = elim (Bool-cases (conclusive_success r)) [
  | inl e ↦ rw e (All-pop IsNamed t.unresolved (signature r) n)
  | inr e ↦ elim (Bool-cases (fails r)) [
    | inl f ↦ rw (e, f) (All-put IsNamed t.unresolved (signature r) r.check_id n (record_named r v))
    | inr f ↦ rw (e, f) n
  ]
]

settle-IsWellFormed :
    (t : TaskValidationTracker) (r : CommandCheckRecord)
    → IsRecord r
    → IsWellFormed t
    → IsWellFormed (resolve (refresh t r) r)
settle-IsWellFormed t r v w =
    let stale_named = refresh-IsNamed t r w.stale_named in
    let unresolved_named =
      resolve-IsNamed (refresh t r) r v (unfold refresh in w.unresolved_named) in
    record {
      limit_positive = unfold refresh resolve in w.limit_positive;
      limit = unfold refresh resolve in w.limit;
      bounded = unfold refresh resolve in w.bounded;
      accepted = unfold refresh resolve in w.accepted;
      latest_entries = unfold refresh resolve in w.latest_entries;
      unresolved_named = unresolved_named;
      stale_named = unfold resolve in stale_named;
    }

mark-IsWellFormed :
    (t : TaskValidationTracker) (test : CommandCheckRecord → Bool)
    → IsWellFormed t
    → IsWellFormed (record t { stale = mark test t.latest t.stale })
mark-IsWellFormed t test w = record {
  limit_positive = w.limit_positive;
  limit = w.limit;
  bounded = w.bounded;
  accepted = w.accepted;
  latest_entries = w.latest_entries;
  unresolved_named = w.unresolved_named;
  stale_named = mark-IsNamed t.task_id test t.latest t.stale w.latest_entries w.stale_named;
}

-- Every event keeps a tracker well-formed.
apply-IsWellFormed :
    (t : TaskValidationTracker) (e : Event) → Brings e → IsWellFormed t → IsWellFormed (apply t e)
apply-IsWellFormed t (observed r) v w = elim (Bool-cases (r.task_id == t.task_id)) [
  | inl own ↦
      let same = (==_iff r.task_id t.task_id).0 own in
      rw (own_record t r same)
        (settle-IsWellFormed (store t r) r v (store-IsWellFormed t r same v w))
  | inr other ↦ rw (other_record t r (λ e. ground (arith, ==_iff r.task_id t.task_id))) w
]
apply-IsWellFormed t invalidated v w = unfold apply invalidate in mark-IsWellFormed t _ w
apply-IsWellFormed t (reconciled s) v w = unfold apply reconcile_snapshot in mark-IsWellFormed t _ w

abbrev fresh : String → ℕ → TaskValidationTracker
fresh task_id max_records = record {
  task_id = task_id;
  max_records = max_records;
  records = [];
  unresolved = [];
  latest = [];
  stale = [];
  recent_only = false;
}

created :
    (task_id : String) (max_records : ℕ) (t : TaskValidationTracker)
    → create task_id max_records ≡ ok t
    → (t ≡ fresh task_id max_records) × (0 < max_records) × (max_records ≤ 32)
unfolding create
created task_id max_records t h = ground arith

pub create-IsWellFormed :
    (task_id : String) (max_records : ℕ) (t : TaskValidationTracker)
    → create task_id max_records ≡ ok t
    → IsWellFormed t
create-IsWellFormed task_id max_records t h =
    let (e, positive, limit) = created task_id max_records t h in
    rw e (record {
      limit_positive = positive;
      limit = limit;
      bounded = omega arith;
      accepted = tt;
      latest_entries = tt;
      unresolved_named = tt;
      stale_named = tt;
    })

-- A tracker keeps its form, and its record limit, over any events that bring accepted records.
pub apply_all-IsWellFormed :
    (events : List Event) (t : TaskValidationTracker)
    → All Brings events
    → IsWellFormed t
    → IsWellFormed (apply_all t events)
unfolding apply_all
apply_all-IsWellFormed [] t b w = w
apply_all-IsWellFormed (e ∷ events) t b w =
    apply_all-IsWellFormed events (apply t e) b.1 (apply-IsWellFormed t e b.0 w)
