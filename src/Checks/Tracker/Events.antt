-- ===== src/Checks/Tracker/Events.antt =====
-- What the rest of the program does to a tracker of engine/validation.py.
use tricoder_agent.Base.{String, List, [], ◌∷◌, ◌≡◌, ◌≢◌, arith, Option, ok, err, ==_iff, string_eq}
use tricoder_agent.Checks.{CommandCheckRecord}
use tricoder_agent.Checks.Tracker.{
  TaskValidationTracker, observe, invalidate, reconcile_snapshot, store, refresh, resolve,
}

pub data Event : Type 0 where
  observed : CommandCheckRecord → Event
  invalidated : Event
  reconciled : Option String → Event

-- A record that is refused leaves the tracker as it was.
unfoldable pub apply : TaskValidationTracker → Event → TaskValidationTracker
apply t (observed r) = elim (observe t r) [ ok t' ↦ t' | err e ↦ t ]
apply t invalidated = invalidate t
apply t (reconciled snapshot_id) = reconcile_snapshot t snapshot_id

unfoldable pub apply_all : TaskValidationTracker → List Event → TaskValidationTracker
apply_all t [] = t
apply_all t (e ∷ events) = apply_all (apply t e) events

pub own_record :
    (t : TaskValidationTracker) (r : CommandCheckRecord)
    → r.task_id ≡ t.task_id
    → apply t (observed r) ≡ resolve (refresh (store t r) r) r
unfolding apply observe
own_record t r e = ground (arith, ==_iff r.task_id t.task_id)

pub other_record :
    (t : TaskValidationTracker) (r : CommandCheckRecord)
    → r.task_id ≢ t.task_id
    → apply t (observed r) ≡ t
unfolding apply observe
other_record t r n = ground (arith, ==_iff r.task_id t.task_id)
