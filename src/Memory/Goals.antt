-- ===== src/Memory/Goals.antt =====
-- A reviewed merge of context/memory.py: what happens to the constraints and to the goal.
use tricoder_agent.Base.{
  ℕ, List, [], ◌∷◌, Bool, Option, none, some, ok, ◌≡◌, refl, sym, ◌∙◌, subst, inl, inr,
  Has-append_left, Text, ◌==◌, ==_iff, nat_eq, list_eq, option_eq, Bool-cases, ok_injective,
  err-ne-ok, ◌||◌, not,
}
use tricoder_agent.Memory.{MemoryItem, ArchivedMemoryItem, present, superseded, active}
use tricoder_agent.Memory.Validation.{goal_section}
use tricoder_agent.Memory.Merging.{index_by_id, contains_equivalent, put_item, replace_or_append}
use tricoder_agent.Memory.Review.{
  archive, retired, ReviewedGoal, change_goal, end_goal, review_goal,
}
use tricoder_agent.Memory.Positions.{HasId, index_by_id-Placed, with_entry-HasId}
use tricoder_agent.Memory.Lossless.{
  InArchive, Stays, Longer, Longer-refl, Longer-archive, archived_last,
}

module _ (space : ℕ → Bool) (fold : Text → Text) where
  put_item-HasId :
      (current : List MemoryItem) (item : MemoryItem) (o : Option ℕ) (id : Text)
      → index_by_id current item.id ≡ o
      → HasId id current
      → HasId id (put_item space fold current item o)
  unfolding put_item
  put_item-HasId current item none id e h =
      elim (Bool-cases (contains_equivalent space fold current item)) [
        | inl old ↦ rw old h
        | inr new ↦ rw new (Has-append_left (λ i. i.id ≡ id) current (item ∷ []) h)
      ]
  put_item-HasId current item (some n) id e h =
      with_entry-HasId current n item id (index_by_id-Placed current item.id n e) h

  pub replace_or_append-HasId :
      (current proposed : List MemoryItem) (id : Text)
      → HasId id current
      → HasId id (replace_or_append space fold current proposed)
  unfolding replace_or_append
  replace_or_append-HasId current [] id h = h
  replace_or_append-HasId current (item ∷ proposed) id h =
      replace_or_append-HasId (put_item space fold current item (index_by_id current item.id))
        proposed id (put_item-HasId current item _ id refl h)

-- The old goal is the goal, or in the archive.
abbrev GoalLossless : Option MemoryItem → List ArchivedMemoryItem → ReviewedGoal → Type 0
GoalLossless goal archived r =
    Longer archived r.archived
    × ((id : Text) → HasId id (present goal) → Stays goal_section (present r.goal) r.archived id)

only_id : (goal : MemoryItem) (id : Text) → HasId id (goal ∷ []) → goal.id ≡ id
only_id goal id (inl e) = e
only_id goal id (inr h) = elim h [ ]

retire_goal :
    (old item : MemoryItem) (archived : List ArchivedMemoryItem) (goal : Option MemoryItem)
    → old.id ≡ item.id
    → GoalLossless
        (some old)
        archived
        (record { goal = goal; archived = archive archived goal_section item })
retire_goal old item archived goal e = (
  Longer-archive archived goal_section item,
  λ id h. inr (
      subst (λ i. InArchive goal_section i (archive archived goal_section item))
        (sym e ∙ only_id old id h) (archived_last archived goal_section item)),
)

change_goal-lem :
    (goal : Option MemoryItem) (archived : List ArchivedMemoryItem) (item : MemoryItem)
    (new : ReviewedGoal)
    → change_goal goal archived item ≡ ok new
    → GoalLossless goal archived new
unfolding change_goal
change_goal-lem none archived item new h =
    subst (GoalLossless none archived) (ok_injective h) (Longer-refl archived, λ id k. elim k [ ])
change_goal-lem (some old) archived item new h = elim (Bool-cases (old.id == item.id)) [
  | inl e ↦ subst (GoalLossless (some old) archived) (ok_injective (rw e at h)) (
    Longer-refl archived,
    λ id k. inl (inl (sym ((==_iff old.id item.id).0 e) ∙ only_id old id k)),
  )
  | inr e ↦
      elim (Bool-cases (item.replaces_id == some old.id || not (item.task_id == old.task_id))) [
        | inl p ↦
            subst (GoalLossless (some old) archived) (ok_injective (rw (e, p) at h))
              (retire_goal old (retired old) archived (some item) refl)
        | inr p ↦ absurd (err-ne-ok (rw (e, p) at h))
      ]
]

end_goal-lem :
    (goal : Option MemoryItem) (archived : List ArchivedMemoryItem) (item : MemoryItem)
    (new : ReviewedGoal)
    → end_goal goal archived item ≡ ok new
    → GoalLossless goal archived new
unfolding end_goal
end_goal-lem none archived item new h = absurd (err-ne-ok h)
end_goal-lem (some old) archived item new h = elim (Bool-cases (old.id == item.id)) [
  | inl e ↦
      subst (GoalLossless (some old) archived) (ok_injective (rw e at h))
        (retire_goal old item archived none ((==_iff old.id item.id).0 e))
  | inr e ↦ absurd (err-ne-ok (rw e at h))
]

pub review_goal-lem :
    (goal : Option MemoryItem) (archived : List ArchivedMemoryItem) (o : Option MemoryItem)
    (new : ReviewedGoal)
    → review_goal goal archived o ≡ ok new
    → GoalLossless goal archived new
unfolding review_goal
review_goal-lem goal archived none new h =
    subst (GoalLossless goal archived) (ok_injective h) (Longer-refl archived, λ id k. inl k)
review_goal-lem goal archived (some item) new h = elim (Bool-cases (item.state == superseded)) [
  | inl e ↦ end_goal-lem goal archived item new (rw e at h)
  | inr e ↦ elim (Bool-cases (item.state == active)) [
    | inl p ↦ change_goal-lem goal archived item new (rw (e, p) at h)
    | inr p ↦ absurd (err-ne-ok (rw (e, p) at h))
  ]
]
