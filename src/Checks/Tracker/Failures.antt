-- ===== src/Checks/Tracker/Failures.antt =====
-- An unresolved failure of engine/validation.py stays until a conclusive success of its check.
use tricoder_agent.Base.{
  String, List, [], ◌∷◌, ◌≡◌, ◌≢◌, ◌⊎◌, refl, true, false, arith, none, some, Bool-cases, inl, inr,
  ◌∙◌, if◌then◌else◌, ◌==◌, ==_iff, ==_refl, All, is_nil, list_eq, nat_eq, string_eq, pair_eq,
}
use tricoder_agent.Base.Dict.{Dict, get, get-put, get-pop}
use tricoder_agent.Checks.{CommandCheckRecord, Signature, signature, has_effective_success_result}
use tricoder_agent.Checks.Tracker.Events.{
  Event, observed, invalidated, reconciled, apply, apply_all, own_record, other_record,
}
use tricoder_agent.Checks.Tracker.{
  fails, TaskValidationTracker, invalidate, reconcile_snapshot, report, status, conclusive_success,
  store, refresh, resolve,
}

-- The event is no conclusive success of the check `s`.
abbrev pub Leaves : Signature → Event → Type 0
Leaves s (observed r) = (conclusive_success r ≡ false) ⊎ (signature r ≢ s)
Leaves s _ = Unit

abbrev pub Unresolved : Signature → TaskValidationTracker → Type 0
Unresolved s t = get t.unresolved s ≢ none

unresolved-store :
    (t : TaskValidationTracker) (r : CommandCheckRecord) → (store t r).unresolved ≡ t.unresolved
unfolding store
unresolved-store t r = ground arith

unresolved-refresh :
    (t : TaskValidationTracker) (r : CommandCheckRecord) → (refresh t r).unresolved ≡ t.unresolved
unfolding refresh
unresolved-refresh t r = ground arith

-- What `resolve` does to the entry of each check.
get-resolve :
    (t : TaskValidationTracker) (r : CommandCheckRecord) (s : Signature)
    → get (resolve t r).unresolved s ≡ (
        if conclusive_success r
        then (if signature r == s then none else get t.unresolved s)
        else if fails r
        then (if signature r == s then some r.check_id else get t.unresolved s)
        else get t.unresolved s)
unfolding resolve
get-resolve t r s =
    ground
      (arith, get-pop t.unresolved (signature r) s, get-put t.unresolved (signature r) r.check_id s)

resolve-Unresolved :
    (s : Signature) (t : TaskValidationTracker) (r : CommandCheckRecord)
    → Leaves s (observed r)
    → Unresolved s t
    → Unresolved s (resolve t r)
resolve-Unresolved s t r l u = rw get-resolve (ground (arith, ==_iff (signature r) s))

Unresolved-same :
    (s : Signature) (t t' : TaskValidationTracker)
    → t'.unresolved ≡ t.unresolved
    → Unresolved s t
    → Unresolved s t'
Unresolved-same s t t' e u = rw e u

apply-Unresolved :
    (s : Signature) (t : TaskValidationTracker) (e : Event)
    → Leaves s e
    → Unresolved s t
    → Unresolved s (apply t e)
apply-Unresolved s t (observed r) l u = elim (Bool-cases (r.task_id == t.task_id)) [
  | inl own ↦ rw (own_record t r ((==_iff r.task_id t.task_id).0 own)) (
      resolve-Unresolved s (refresh (store t r) r) r l (
        Unresolved-same s t (refresh (store t r) r)
          (unresolved-refresh (store t r) r ∙ unresolved-store t r) u))
  | inr other ↦ rw (other_record t r (λ e. ground (arith, ==_iff r.task_id t.task_id))) u
]
apply-Unresolved s t invalidated l u = unfold apply invalidate in u
apply-Unresolved s t (reconciled x) l u = unfold apply reconcile_snapshot in u

nonempty_of_get : (d : Dict Signature String) (s : Signature) → get d s ≢ none → is_nil d ≡ false
nonempty_of_get [] s u = absurd (u (unfold get in refl))
nonempty_of_get (entry ∷ d) s u = refl

Unresolved-status :
    (s : Signature) (t : TaskValidationTracker) → Unresolved s t → (report t).status ≡ "failed"
unfolding report status
Unresolved-status s t u = rw (nonempty_of_get t.unresolved s u) refl

stays-Unresolved :
    (s : Signature) (events : List Event) (t : TaskValidationTracker)
    → All (Leaves s) events
    → Unresolved s t
    → Unresolved s (apply_all t events)
unfolding apply_all
stays-Unresolved s [] t l u = u
stays-Unresolved s (e ∷ events) t l u =
    stays-Unresolved s events (apply t e) l.1 (apply-Unresolved s t e l.0 u)

fails-Unresolved :
    (t : TaskValidationTracker) (r : CommandCheckRecord)
    → r.task_id ≡ t.task_id
    → fails r ≡ true
    → Unresolved (signature r) (apply t (observed r))
fails-Unresolved t r e f =
    rw (own_record t r e, get-resolve)
      (unfold conclusive_success has_effective_success_result in
        ground (arith, ==_refl (signature r)))

-- After a check of this task failed, the report says "failed" whatever follows, as long as the
-- same command in the same directory does not succeed conclusively: neither other checks nor file
-- changes nor a final snapshot hide a failure.
pub failure_stays :
    (t : TaskValidationTracker) (r : CommandCheckRecord) (events : List Event)
    → r.task_id ≡ t.task_id
    → fails r ≡ true
    → All (Leaves (signature r)) events
    → (report (apply_all (apply t (observed r)) events)).status ≡ "failed"
failure_stays t r events e f l =
    Unresolved-status (signature r) (apply_all (apply t (observed r)) events)
      (stays-Unresolved (signature r) events (apply t (observed r)) l (fails-Unresolved t r e f))

-- A conclusive success removes the failure of its own check, and of no other.
pub success_resolves :
    (t : TaskValidationTracker) (r : CommandCheckRecord) (s : Signature)
    → r.task_id ≡ t.task_id
    → conclusive_success r ≡ true
    → get (apply t (observed r)).unresolved s
      ≡ (if signature r == s then none else get t.unresolved s)
success_resolves t r s e c =
    rw (own_record t r e, get-resolve, c, unresolved-refresh, unresolved-store) refl
