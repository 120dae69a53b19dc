-- ===== src/Memory/Merging.antt =====
-- context/memory.py: the merge of a candidate into a memory, at run time and under review. The set
-- `used_ids` that the calls of `append_new` share is passed on.
use tricoder_agent.Base.{
  ℕ, suc, List, [], ◌∷◌, ◌++◌, Bool, true, false, not, ◌&&◌, ◌||◌, Option, none, some, Result, ok,
  ◌>>=◌, ◌>>◌, if◌then◌else◌, is_nil, is_some, any, contains, ℤ, pos, negsuc, zero, Text, codes,
  map, ◌==◌, nat_eq, list_eq, option_eq, pair_eq,
}
use tricoder_agent.Memory.{
  MemoryError, MemoryItem, ArchivedMemoryItem, ConversationMemory, int_eq, int_ltb, item_beq,
  all_items, memory_source_ids, normalized_item_key, active, pending,
}
use tricoder_agent.Memory.Json.{Json}
use tricoder_agent.Memory.Validation.{refuse, id_of, validate_candidate, check_capacity}

-- `a + 1` on integers.
abbrev pub int_suc : ℤ → ℤ
int_suc (pos n) = pos (suc n)
int_suc (negsuc zero) = pos 0
int_suc (negsuc (suc n)) = negsuc n

abbrev archived_beq : ArchivedMemoryItem → ArchivedMemoryItem → Bool
archived_beq a b = a.section == b.section && item_beq a.item b.item

abbrev all2 : {A : Type 0} → (A → A → Bool) → List A → List A → Bool
all2 f [] [] = true
all2 f [] (y ∷ ys) = false
all2 f (x ∷ xs) [] = false
all2 f (x ∷ xs) (y ∷ ys) = f x y && all2 f xs ys

abbrev goal_beq : Option MemoryItem → Option MemoryItem → Bool
goal_beq none none = true
goal_beq (some a) (some b) = item_beq a b
goal_beq a b = false

-- `==` of two memories.
unfoldable pub memory_beq : ConversationMemory → ConversationMemory → Bool
memory_beq a b =
    a.schema_version == b.schema_version
    && (a.revision == b.revision)
    && (a.generation == b.generation)
    && (a.covered_through == b.covered_through)
    && goal_beq a.goal b.goal
    && all2 item_beq a.constraints b.constraints
    && all2 item_beq a.decisions b.decisions
    && all2 item_beq a.open_items b.open_items
    && all2 archived_beq a.archived b.archived

abbrev pub first_of : Bool → Option ℕ → Option ℕ
first_of true rest = some 0
first_of false none = none
first_of false (some n) = some (suc n)

unfoldable pub index_by_id : List MemoryItem → Text → Option ℕ
index_by_id [] id = none
index_by_id (entry ∷ entries) id = first_of (entry.id == id) (index_by_id entries id)

-- `entries[index]`.
unfoldable pub entry_at : List MemoryItem → ℕ → Option MemoryItem
entry_at [] n = none
entry_at (entry ∷ entries) zero = some entry
entry_at (entry ∷ entries) (suc n) = entry_at entries n

-- `entries.pop(index)`.
unfoldable pub without : List MemoryItem → ℕ → List MemoryItem
without [] n = []
without (entry ∷ entries) zero = entries
without (entry ∷ entries) (suc n) = entry ∷ without entries n

-- `entries[index] = entry`.
unfoldable pub with_entry : List MemoryItem → ℕ → MemoryItem → List MemoryItem
with_entry [] n new = []
with_entry (entry ∷ entries) zero new = new ∷ entries
with_entry (entry ∷ entries) (suc n) new = entry ∷ with_entry entries n new

-- The items of a section that a candidate adds, with the ids that are used then.
pub record Appended : Type 0 where
  pub items : List MemoryItem
  pub used_ids : List Text

-- The goal after the merge: the old one, or the candidate's if there is none.
abbrev pub merged_goal : List Text → Option MemoryItem → Option MemoryItem → Option MemoryItem
merged_goal used (some old) proposed = some old
merged_goal used none none = none
merged_goal used none (some proposed) =
    if proposed.state == active && not (contains used proposed.id) then some proposed else none

abbrev pub goal_ids : Option MemoryItem → Option MemoryItem → List Text → List Text
goal_ids none (some goal) used = goal.id ∷ used
goal_ids old goal used = used

module _ (space : ℕ → Bool) (fold : Text → Text) where
  unfoldable pub contains_equivalent : List MemoryItem → MemoryItem → Bool
  contains_equivalent entries proposed =
      any (λ entry. normalized_item_key space fold entry == normalized_item_key space fold proposed)
        entries

  -- The test of `append_new` on a proposed item.
  unfoldable pub is_skipped : Text → List Text → List MemoryItem → MemoryItem → Bool
  unfolding contains_equivalent
  is_skipped state used merged entry =
      contains used entry.id
      || not (entry.state == state)
      || is_some entry.replaces_id
      || contains_equivalent merged entry

  -- `append_new`: an item is compared with the merged ones, the old and those already added.
  unfoldable pub append_new : Text → List MemoryItem → List MemoryItem → List Text → Appended
  append_new state merged [] used = record { items = merged; used_ids = used }
  append_new state merged (entry ∷ proposed) used =
      let skipped = is_skipped state used merged entry in
      append_new state (if skipped then merged else merged ++ entry ∷ []) proposed
        (if skipped then used else entry.id ∷ used)

  unfoldable pub put_item : List MemoryItem → MemoryItem → Option ℕ → List MemoryItem
  put_item current entry none =
      if contains_equivalent current entry then current else current ++ entry ∷ []
  put_item current entry (some n) = with_entry current n entry

  unfoldable pub replace_or_append : List MemoryItem → List MemoryItem → List MemoryItem
  replace_or_append current [] = current
  replace_or_append current (entry ∷ proposed) =
      replace_or_append (put_item current entry (index_by_id current entry.id)) proposed

  -- What `merge_candidate` makes of the two memories.
  unfoldable pub merge_provisional : ConversationMemory → ConversationMemory → ConversationMemory
  merge_provisional previous candidate =
      let used : List Text = map id_of (all_items previous) in
      let goal : Option MemoryItem = merged_goal used previous.goal candidate.goal in
      let constraints : Appended =
        append_new active previous.constraints candidate.constraints
          (goal_ids previous.goal goal used) in
      let decisions : Appended =
        append_new active previous.decisions candidate.decisions constraints.used_ids in
      let open_items : Appended =
        append_new pending previous.open_items candidate.open_items decisions.used_ids in
      record {
        schema_version = pos 2;
        revision = previous.revision;
        generation = previous.generation;
        covered_through = candidate.covered_through;
        goal = goal;
        constraints = constraints.items;
        decisions = decisions.items;
        open_items = open_items.items;
        archived = previous.archived;
      }

  module _ (dumps : Json → Text) where
    unfoldable pub validate_merge_inputs :
        ConversationMemory → ConversationMemory → List Text → ℕ → Result MemoryError (List Text)
    validate_merge_inputs previous candidate sources limit = do
      validate_candidate space dumps (memory_source_ids previous) none limit previous
      validate_candidate space dumps (sources ++ memory_source_ids previous)
          (some previous.generation) limit candidate
      refuse (not (candidate.revision == previous.revision)) (codes "记忆候选基于过期 revision")
      refuse (int_ltb candidate.covered_through previous.covered_through) (codes "记忆覆盖位置不能回退")
      ok (sources ++ memory_source_ids previous)

    unfoldable pub finish_merge :
        ConversationMemory
        → ConversationMemory
        → List Text
        → ℕ
        → Result MemoryError ConversationMemory
    finish_merge previous provisional allowed limit = do
      check_capacity provisional
      if memory_beq provisional previous
          then ok previous
          else validate_candidate space dumps allowed none limit
              (record provisional { revision = int_suc previous.revision })

    unfoldable pub merge_candidate :
        ConversationMemory
        → ConversationMemory
        → List Text
        → ℕ
        → Result MemoryError ConversationMemory
    merge_candidate previous candidate sources limit = do
      allowed ← validate_merge_inputs previous candidate sources limit
      refuse (not (is_nil candidate.archived)) (codes "模型候选不能直接写入归档")
      finish_merge previous (merge_provisional previous candidate) allowed limit
