-- ===== src/Memory/Review.antt =====
-- context/memory.py: `merge_review_candidate`, whose result a user confirms: updates of items, which it
-- may archive.
use tricoder_agent.Base.{
  ℕ, List, [], ◌∷◌, ◌++◌, Bool, true, false, not, ◌&&◌, ◌||◌, Option, none, some, Result, ok, err,
  raise_if, ◌>>=◌, ◌>>◌, if◌then◌else◌, is_nil, any, keep, pos, Text, codes, ◌==◌, nat_eq, list_eq,
  option_eq,
}
use tricoder_agent.Memory.{
  MemoryError, validation_error, MemoryItem, ArchivedMemoryItem, ConversationMemory, item_beq,
  active, pending, superseded, done, cancelled,
}
use tricoder_agent.Memory.Json.{Json}
use tricoder_agent.Memory.Validation.{refuse, goal_section, decisions_section, open_items_section}
use tricoder_agent.Memory.Merging.{
  index_by_id, entry_at, without, with_entry, contains_equivalent, replace_or_append,
  validate_merge_inputs, finish_merge,
}

-- A section and the archive, as a review changes them.
pub record Reviewed : Type 0 where
  pub entries : List MemoryItem
  pub archived : List ArchivedMemoryItem

abbrev pub Step : Type 0
Step = Result MemoryError Reviewed

abbrev pub archive : List ArchivedMemoryItem → Text → MemoryItem → List ArchivedMemoryItem
archive archived section item = archived ++ record { section = section; item = item } ∷ []

unfoldable pub is_archived_replay :
    List ArchivedMemoryItem → Text → MemoryItem → Result MemoryError Bool
is_archived_replay archived section proposed =
    let matches : List ArchivedMemoryItem =
      keep (λ entry. entry.section == section && entry.item.id == proposed.id) archived in
    if is_nil matches
    then ok false
    else if any
        (λ entry. item_beq (record entry.item { source_ids = proposed.source_ids }) proposed)
        matches
    then ok true
    else err (validation_error (codes "归档条目的重复更新与既有终结状态冲突"))

-- An item that ends: it leaves its section for the archive, or was archived before.
unfoldable pub end_item : Text → Text → MemoryItem → Reviewed → Option ℕ → Step
end_item section message proposed r none = do
  replayed ← is_archived_replay r.archived section proposed
  raise_if (not replayed) (validation_error message)
  ok r
end_item section message proposed r (some n) =
    ok (record { entries = without r.entries n; archived = archive r.archived section proposed })

abbrev pub is_ended : MemoryItem → Bool
is_ended item = item.state == done || item.state == cancelled

-- A decision in place of an old one, which is archived.
abbrev pub retired : MemoryItem → MemoryItem
retired item = record item { state = superseded; replaces_id = none }

module _ (space : ℕ → Bool) (fold : Text → Text) where
  -- An item that goes on: it takes its place by its id, or is added unless an equivalent one is there.
  unfoldable pub keep_item : MemoryItem → Reviewed → Option ℕ → Reviewed
  keep_item proposed r none =
      if contains_equivalent space fold r.entries proposed
      then r
      else record r { entries = r.entries ++ proposed ∷ [] }
  keep_item proposed r (some n) = record r { entries = with_entry r.entries n proposed }

  unfoldable pub review_open_item : Reviewed → MemoryItem → Step
  review_open_item r proposed =
      if is_ended proposed
      then end_item open_items_section (codes "待办状态更新引用了不存在的条目") proposed r
          (index_by_id r.entries proposed.id)
      else if proposed.state == pending
      then ok (keep_item proposed r (index_by_id r.entries proposed.id))
      else err (validation_error (codes "待办状态无效"))

  -- A new version of a decision that replaced the same one, at its place.
  unfoldable pub replace_again : Reviewed → MemoryItem → Text → ℕ → Option MemoryItem → Step
  replace_again r proposed old n none = err (validation_error (codes "同一决策 ID 的替代关系发生冲突"))
  replace_again r proposed old n (some current) =
      if current.replaces_id == some old
      then ok (record r { entries = with_entry r.entries n proposed })
      else err (validation_error (codes "同一决策 ID 的替代关系发生冲突"))

  -- The old decision goes to the archive.
  unfoldable pub replace_at : Reviewed → MemoryItem → ℕ → Option MemoryItem → Step
  replace_at r proposed n none = err (validation_error (codes "替代决策引用了不存在的旧条目"))
  replace_at r proposed n (some replaced) =
      let entries : List MemoryItem = without r.entries n in
      ok (
        keep_item proposed
          (record {
            entries = entries;
            archived = archive r.archived decisions_section (retired replaced);
          })
          (index_by_id entries proposed.id))

  unfoldable pub replace_old : Reviewed → MemoryItem → Option ℕ → Step
  replace_old r proposed none = err (validation_error (codes "替代决策引用了不存在的旧条目"))
  replace_old r proposed (some n) = replace_at r proposed n (entry_at r.entries n)

  -- A decision that replaces another one, `old`; the last argument is the place of its own id.
  unfoldable pub replace_decision : Reviewed → MemoryItem → Text → Option ℕ → Step
  replace_decision r proposed old (some n) = replace_again r proposed old n (entry_at r.entries n)
  replace_decision r proposed old none = replace_old r proposed (index_by_id r.entries old)

  unfoldable pub active_decision : Reviewed → MemoryItem → Option Text → Step
  active_decision r proposed none = ok (keep_item proposed r (index_by_id r.entries proposed.id))
  active_decision r proposed (some old) =
      replace_decision r proposed old (index_by_id r.entries proposed.id)

  unfoldable pub review_decision : Reviewed → MemoryItem → Step
  review_decision r proposed =
      if proposed.state == superseded
      then end_item decisions_section (codes "决策状态更新引用了不存在的条目") proposed r
          (index_by_id r.entries proposed.id)
      else if proposed.state == active
      then active_decision r proposed proposed.replaces_id
      else err (validation_error (codes "决策状态无效"))

-- A loop over the proposed items of a section.
unfoldable pub review_all : (Reviewed → MemoryItem → Step) → Reviewed → List MemoryItem → Step
review_all f r [] = ok r
review_all f r (proposed ∷ rest) = f r proposed >>= λ next. review_all f next rest

-- The goal and the archive after the review.
pub record ReviewedGoal : Type 0 where
  pub goal : Option MemoryItem
  pub archived : List ArchivedMemoryItem

abbrev pub is_goal : Option MemoryItem → Text → Bool
is_goal none id = false
is_goal (some goal) id = goal.id == id

-- An active goal, where there is one already, or is none.
unfoldable pub change_goal :
    Option MemoryItem → List ArchivedMemoryItem → MemoryItem → Result MemoryError ReviewedGoal
change_goal none archived proposed = ok (record { goal = some proposed; archived = archived })
change_goal (some old) archived proposed =
    if old.id == proposed.id
    then ok (record { goal = some proposed; archived = archived })
    else if proposed.replaces_id == some old.id || not (proposed.task_id == old.task_id)
    then ok
        (record { goal = some proposed; archived = archive archived goal_section (retired old) })
    else err (validation_error (codes "同一任务的新目标必须引用被替代目标"))

-- A goal that has ended.
unfoldable pub end_goal :
    Option MemoryItem → List ArchivedMemoryItem → MemoryItem → Result MemoryError ReviewedGoal
end_goal goal archived proposed =
    if is_goal goal proposed.id
    then ok (record { goal = none; archived = archive archived goal_section proposed })
    else err (validation_error (codes "目标状态更新引用了不存在的条目"))

unfoldable pub review_goal :
    Option MemoryItem
    → List ArchivedMemoryItem
    → Option MemoryItem
    → Result MemoryError ReviewedGoal
review_goal goal archived none = ok (record { goal = goal; archived = archived })
review_goal goal archived (some proposed) =
    if proposed.state == superseded
    then end_goal goal archived proposed
    else if proposed.state == active
    then change_goal goal archived proposed
    else err (validation_error (codes "目标状态无效"))

module _ (space : ℕ → Bool) (fold : Text → Text) where
  abbrev pub reviewed_memory :
      ConversationMemory
      → ConversationMemory
      → Reviewed
      → Reviewed
      → ReviewedGoal
      → ConversationMemory
  reviewed_memory previous candidate opened decided goal = record {
    schema_version = pos 2;
    revision = previous.revision;
    generation = previous.generation;
    covered_through = candidate.covered_through;
    goal = goal.goal;
    constraints = replace_or_append space fold previous.constraints candidate.constraints;
    decisions = decided.entries;
    open_items = opened.entries;
    archived = goal.archived;
  }

  -- What `merge_review_candidate` makes of the two memories.
  unfoldable pub review_provisional :
      ConversationMemory → ConversationMemory → Result MemoryError ConversationMemory
  review_provisional previous candidate = do
    opened ←
        review_all (review_open_item space fold)
          (record { entries = previous.open_items; archived = previous.archived })
          candidate.open_items
    decided ←
        review_all (review_decision space fold)
          (record { entries = previous.decisions; archived = opened.archived }) candidate.decisions
    goal ← review_goal previous.goal decided.archived candidate.goal
    ok (reviewed_memory previous candidate opened decided goal)

  unfoldable pub merge_review_candidate :
      (Json → Text)
      → ConversationMemory
      → ConversationMemory
      → List Text
      → ℕ
      → Result MemoryError ConversationMemory
  merge_review_candidate dumps previous candidate sources limit = do
    allowed ← validate_merge_inputs space fold dumps previous candidate sources limit
    refuse (not (is_nil candidate.archived)) (codes "模型候选不能直接写入归档")
    provisional ← review_provisional previous candidate
    finish_merge space fold dumps previous provisional allowed limit
