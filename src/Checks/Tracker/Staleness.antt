-- ===== src/Checks/Tracker/Staleness.antt =====
-- A stale check of engine/validation.py counts as current only after it was run again.
use tricoder_agent.Base.{
  String, List, [], ◌∷◌, ◌≡◌, ◌≢◌, ◌⊎◌, refl, sym, subst, ◌∙◌, Bool, true, false, not, ◌&&◌, arith,
  some, Bool-cases, inl, inr, ◌==◌, ==_iff, ==_refl, All, All-map, list_eq, nat_eq, string_eq,
  pair_eq, option_eq,
}
use tricoder_agent.Base.Dict.{Dict, put, has_key, has_key-put, has_key-pop}
use tricoder_agent.Checks.{CommandCheckRecord, Signature, signature, is_information}
use tricoder_agent.Checks.Tracker.{
  TaskValidationTracker, invalidate, reconcile_snapshot, store, refresh, resolve, mark, current_in,
  current_records,
}
use tricoder_agent.Checks.Tracker.Events.{
  Event, observed, invalidated, reconciled, apply, apply_all, own_record, other_record,
}
use tricoder_agent.Checks.Tracker.Invariant.{IsWellFormed, Brings, apply_all-IsWellFormed}

abbrev pub IsStale : Signature → TaskValidationTracker → Type 0
IsStale s t = has_key t.stale s ≡ true

abbrev IsStaleIn : TaskValidationTracker → Signature → Type 0
IsStaleIn t s = IsStale s t

contradiction : (b : Bool) → b ≡ false → b ≡ true → ⊥
contradiction b f t = cc

-- Marking keeps what is marked, and marks every entry that passes the test.
mark_keeps :
    (test : CommandCheckRecord → Bool) (d : Dict Signature CommandCheckRecord)
    (stale : Dict Signature String) (s : Signature)
    → has_key stale s ≡ true
    → has_key (mark test d stale) s ≡ true
unfolding mark
mark_keeps test [] stale s h = h
mark_keeps test ((k, r) ∷ d) stale s h = elim (Bool-cases (test r)) [
  | inl e ↦ rw e (
      mark_keeps test d (put stale k r.check_id) s
        (ground (arith, has_key-put stale k r.check_id s)))
  | inr e ↦ rw e (mark_keeps test d stale s h)
]

mark_marks :
    (test : CommandCheckRecord → Bool) (d : Dict Signature CommandCheckRecord)
    (stale marked : Dict Signature String)
    → marked ≡ mark test d stale
    → All (λ e. (test e.1 ≡ false) ⊎ (has_key marked e.0 ≡ true)) d
unfolding mark
mark_marks test [] stale marked q = tt
mark_marks test ((k, r) ∷ d) stale marked q = elim (Bool-cases (test r)) [
  | inl e ↦
      let added = put stale k r.check_id in
      let q' : marked ≡ mark test d added = rw e at q in
      (
        inr (
            rw q' (
              mark_keeps test d added k
                (ground (arith, has_key-put stale k r.check_id k, ==_refl k)))),
        mark_marks test d added marked q',
      )
  | inr e ↦ (inl e, mark_marks test d stale marked (rw e at q))
]

-- What the comprehension keeps of entries that are stale or satisfy `P`.
current_in-All :
    (P : CommandCheckRecord → Type 0) (t : TaskValidationTracker) (snapshot_id : String)
    (d : Dict Signature CommandCheckRecord)
    → All (λ e. P e.1 ⊎ (has_key t.stale e.0 ≡ true)) d
    → All P (current_in t snapshot_id d)
unfolding current_in
current_in-All P t snapshot_id [] a = tt
current_in-All P t snapshot_id ((s, r) ∷ d) a =
    let rest = current_in-All P t snapshot_id d a.1 in
    elim (Bool-cases
      (not (has_key t.stale s) && r.task_id == t.task_id && r.snapshot_id == some snapshot_id)) [
        | inl e ↦ rw e (elim a.0 [ inl p ↦ (p, rest) | inr x ↦ absurd (ground arith) ])
        | inr e ↦ rw e rest
      ]

-- After a file change no check counts as current for any snapshot, but information records.
pub current_records-invalidate :
    (t : TaskValidationTracker) (snapshot_id : String)
    → All (λ r. is_information r ≡ true) (current_records (invalidate t) snapshot_id)
unfolding current_records invalidate
current_records-invalidate t snapshot_id =
    current_in-All (λ r. is_information r ≡ true) (invalidate t) snapshot_id t.latest
      (All-map (λ e h. elim h [ inl p ↦ inl (ground arith) | inr q ↦ inr q ]) t.latest
        (mark_marks (λ r. not (is_information r)) t.latest t.stale _ refl))

-- The event does not run the check `s` again on a stable workspace.
abbrev pub NotRerun : Signature → Event → Type 0
NotRerun s (observed r) =
    ((not (is_information r) && r.workspace_stable) ≡ false) ⊎ (signature r ≢ s)
NotRerun s _ = Unit

stale-store : (t : TaskValidationTracker) (r : CommandCheckRecord) → (store t r).stale ≡ t.stale
unfolding store
stale-store t r = ground arith

stale-resolve : (t : TaskValidationTracker) (r : CommandCheckRecord) → (resolve t r).stale ≡ t.stale
unfolding resolve
stale-resolve t r = refl

refresh-IsStale :
    (s : Signature) (t : TaskValidationTracker) (r : CommandCheckRecord)
    → NotRerun s (observed r)
    → IsStale s t
    → IsStale s (refresh t r)
unfolding refresh
refresh-IsStale s t r n h =
    ground (arith, has_key-pop t.stale (signature r) s, ==_iff (signature r) s)

IsStale-same :
    (s : Signature) (t t' : TaskValidationTracker) → t'.stale ≡ t.stale → IsStale s t → IsStale s t'
IsStale-same s t t' e h = rw e h

apply-IsStale :
    (s : Signature) (t : TaskValidationTracker) (e : Event)
    → NotRerun s e
    → IsStale s t
    → IsStale s (apply t e)
apply-IsStale s t (observed r) n h = elim (Bool-cases (r.task_id == t.task_id)) [
  | inl own ↦ rw (own_record t r ((==_iff r.task_id t.task_id).0 own)) (
      IsStale-same s (refresh (store t r) r) (resolve (refresh (store t r) r) r)
        (stale-resolve (refresh (store t r) r) r)
        (refresh-IsStale s (store t r) r n (IsStale-same s t (store t r) (stale-store t r) h)))
  | inr other ↦ rw (other_record t r (λ e. ground (arith, ==_iff r.task_id t.task_id))) h
]
apply-IsStale s t invalidated n h = unfold apply invalidate in mark_keeps _ t.latest t.stale s h
apply-IsStale s t (reconciled x) n h =
    unfold apply reconcile_snapshot in mark_keeps _ t.latest t.stale s h

apply_all-IsStale :
    (s : Signature) (events : List Event) (t : TaskValidationTracker)
    → All (NotRerun s) events
    → IsStale s t
    → IsStale s (apply_all t events)
unfolding apply_all
apply_all-IsStale s [] t n h = h
apply_all-IsStale s (e ∷ events) t n h =
    apply_all-IsStale s events (apply t e) n.1 (apply-IsStale s t e n.0 h)

-- A stale check is current for no snapshot, whatever other checks run, files change and snapshots
-- are taken, also when the workspace goes back to an earlier snapshot: only running the same
-- command in the same directory on a stable workspace makes it current again.
pub stale_never_current :
    (s : Signature) (t : TaskValidationTracker) (events : List Event) (snapshot_id : String)
    → IsWellFormed t
    → All Brings events
    → IsStale s t
    → All (NotRerun s) events
    → All (λ r. signature r ≢ s) (current_records (apply_all t events) snapshot_id)
unfolding current_records
stale_never_current s t events snapshot_id w b h n =
    let after = apply_all t events in
    let stale : IsStale s after = apply_all-IsStale s events t n h in
    current_in-All (λ r. signature r ≢ s) after snapshot_id after.latest
      (All-map (λ e k. other_or_stale after e k.0 stale) after.latest
        (apply_all-IsWellFormed events t b w).latest_entries)
  where
    other_or_stale :
        (t : TaskValidationTracker) (e : Signature × CommandCheckRecord)
        → e.0 ≡ signature e.1
        → IsStale s t
        → (signature e.1 ≢ s) ⊎ (has_key t.stale e.0 ≡ true)
    other_or_stale t (k, r) same stale = elim (Bool-cases (has_key t.stale k)) [
      | inl x ↦ inr x
      | inr x ↦
          inl
            (λ q. contradiction (has_key t.stale k) x (subst (IsStaleIn t) (sym (same ∙ q)) stale))
    ]
