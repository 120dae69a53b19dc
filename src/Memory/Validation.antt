-- ===== src/Memory/Validation.antt =====
-- context/memory.py: the validation of a memory. `dumps` is `json.dumps` with the program's options; a
-- set of sources that is left out is `none`, and so is a limit on the characters.
use tricoder_agent.Base.{
  ℕ, List, [], ◌∷◌, ◌++◌, Bool, true, false, not, ◌&&◌, ◌||◌, Option, none, some, Result, ok,
  raise_if, ◌>>◌, if◌then◌else◌, ltb, leb, eqb, length, is_nil, all, contains, distinct, ℤ, pos,
  Text, codes, map, ◌==◌, nat_eq, list_eq,
}
use tricoder_agent.Messages.{is_blank}
use tricoder_agent.Memory.{
  MemoryError, validation_error, capacity_error, MemoryItem, ArchivedMemoryItem, ConversationMemory,
  int_eq, int_ltb, all_items, active, pending, superseded, done, cancelled,
}
use tricoder_agent.Memory.Json.{Json}
use tricoder_agent.Memory.Payload.{memory_payload}

abbrev pub Check : Type 0
Check = Result MemoryError (Unit {0})

-- `raise MemoryValidationError` under a condition.
abbrev pub refuse : Bool → Text → Check
refuse b message = raise_if b (validation_error message)

-- A loop that stops at the first error.
unfoldable pub each : {A : Type 0} → (A → Check) → List A → Check
each f [] = ok tt
each f (x ∷ xs) = f x >> each f xs

abbrev between : ℕ → ℕ → ℕ → Bool
between low high c = leb low c && leb c high

abbrev is_digit : ℕ → Bool
is_digit = between b'0' b'9'

abbrev is_alphanumeric : ℕ → Bool
is_alphanumeric c = between b'A' b'Z' c || between b'a' b'z' c || is_digit c

abbrev is_id_character : ℕ → Bool
is_id_character c = is_alphanumeric c || eqb c b'.' || eqb c b'_' || eqb c b'-'

-- `_ITEM_ID.fullmatch`.
unfoldable pub is_item_id : Text → Bool
is_item_id [] = false
is_item_id (c ∷ s) = is_alphanumeric c && all is_id_character s && leb (length s) 63

-- `_SOURCE_ID.fullmatch`.
unfoldable pub is_source_id : Text → Bool
is_source_id (m ∷ d ∷ s) = eqb m b'm' && between b'1' b'9' d && all is_digit s
is_source_id s = false

abbrev max_items_per_section : ℕ
max_items_per_section = 20

abbrev max_archived_items : ℕ
max_archived_items = 40

abbrev max_item_text_chars : ℕ
max_item_text_chars = 500

abbrev max_item_sources : ℕ
max_item_sources = 8

abbrev lacks : Option (List Text) → Text → Bool
lacks none source = false
lacks (some allowed) source = not (contains allowed source)

-- The tests on one source of an item.
unfoldable pub validate_source : Option (List Text) → Text → Check
validate_source allowed source = do
  refuse (not (is_source_id source)) (codes "记忆条目来源格式无效")
  refuse (lacks allowed source) (codes "记忆条目引用了不存在的来源")

-- The test on the task of an item.
unfoldable pub validate_scope : (ℕ → Bool) → Text → Option Text → Check
unfolding is_blank
validate_scope space scope none = refuse (scope == codes "task") (codes "task 范围记忆必须包含 task_id")
validate_scope space scope (some task) =
    if scope == codes "task"
    then refuse (is_blank space task) (codes "task 范围记忆必须包含 task_id")
    else refuse true (codes "session 范围记忆不能包含 task_id")

abbrev refuses_replaced : Text → Option Text → Bool
refuses_replaced id none = false
refuses_replaced id (some replaced) = not (is_item_id replaced) || replaced == id

abbrev all_states : List Text
all_states = active ∷ pending ∷ done ∷ cancelled ∷ superseded ∷ []

-- The sections by name.
abbrev pub goal_section : Text
goal_section = codes "goal"

abbrev pub constraints_section : Text
constraints_section = codes "constraints"

abbrev pub decisions_section : Text
decisions_section = codes "decisions"

abbrev pub open_items_section : Text
open_items_section = codes "open_items"

abbrev pub sections : List Text
sections = goal_section ∷ constraints_section ∷ decisions_section ∷ open_items_section ∷ []

-- The states that an item of a section may have.
abbrev pub allowed_states : Text → List Text
allowed_states section =
    if section == constraints_section
    then active ∷ []
    else if section == open_items_section
    then pending ∷ done ∷ cancelled ∷ []
    else active ∷ superseded ∷ []

abbrev pub archived_states : Text → List Text
archived_states section =
    if section == open_items_section then done ∷ cancelled ∷ [] else superseded ∷ []

abbrev is_replacing : MemoryItem → Bool
is_replacing item = elim item.replaces_id [ none ↦ false | some id ↦ true ]

abbrev pub no_repeats : List Text → Bool
no_repeats xs = eqb (length (distinct xs)) (length xs)

abbrev pub id_of : MemoryItem → Text
id_of item = item.id

abbrev too_many : ℕ → Text → Text → Check
too_many count label what =
    raise_if (ltb max_items_per_section count) (capacity_error (label ++ what))

module _ (space : ℕ → Bool) where
  -- The tests of `_validate_item` before the one on each source, and after it.
  unfoldable pub validate_text : MemoryItem → Check
  unfolding is_blank
  validate_text item = do
    refuse (not (is_item_id item.id)) (codes "记忆条目 ID 无效")
    refuse (is_blank space item.text || ltb max_item_text_chars (length item.text))
        (codes "记忆条目文本为空或超限")
    refuse
        (is_nil item.source_ids
          || ltb max_item_sources (length item.source_ids)
          || not (no_repeats item.source_ids))
        (codes "记忆条目来源数量无效")

  unfoldable pub validate_state : MemoryItem → Check
  validate_state item = do
    refuse (not (item.scope == codes "task" || item.scope == codes "session"))
        (codes "记忆条目 scope 无效")
    validate_scope space item.scope item.task_id
    refuse (not (contains all_states item.state)) (codes "记忆条目 state 无效")
    refuse (refuses_replaced item.id item.replaces_id) (codes "记忆条目 replaces_id 无效")

  -- `_validate_item`.
  unfoldable pub validate_item : Option (List Text) → MemoryItem → Check
  validate_item allowed item = do
    validate_text item
    each (validate_source allowed) item.source_ids
    validate_state item

  -- What a section says of its items' states.
  unfoldable pub validate_section : Text → MemoryItem → Check
  validate_section section item = do
    refuse (not (contains (allowed_states section) item.state)) (section ++ codes " 条目状态无效")
    refuse ((section == constraints_section || section == open_items_section) && is_replacing item)
        (section ++ codes " 条目不能声明 replaces_id")

  -- `_validate_section_item`.
  unfoldable pub validate_section_item : Text → Option (List Text) → MemoryItem → Check
  validate_section_item section allowed item =
      validate_item allowed item >> validate_section section item

  -- `_validate_archived_item`.
  unfoldable pub validate_archived_item : Option (List Text) → ArchivedMemoryItem → Check
  validate_archived_item allowed archived = do
    refuse (not (contains sections archived.section)) (codes "归档条目类别无效")
    validate_item allowed archived.item
    refuse (not (contains (archived_states archived.section) archived.item.state))
        (codes "归档条目状态无效")

  unfoldable pub validate_goal : Option (List Text) → Option MemoryItem → Check
  validate_goal allowed none = ok tt
  validate_goal allowed (some goal) = validate_section_item goal_section allowed goal

  -- The items of a memory, section by section.
  unfoldable pub validate_items : Option (List Text) → ConversationMemory → Check
  validate_items allowed m = do
    validate_goal allowed m.goal
    each (validate_section_item constraints_section allowed) m.constraints
    each (validate_section_item decisions_section allowed) m.decisions
    each (validate_section_item open_items_section allowed) m.open_items
    each (validate_archived_item allowed) m.archived

  -- The tests before the items.
  unfoldable pub validate_frame : ConversationMemory → Check
  validate_frame m = do
    refuse (not (m.schema_version == pos 2)) (codes "不支持的记忆 schema_version")
    refuse (int_ltb m.revision (pos 0)) (codes "revision 必须是非负整数")
    refuse (int_ltb m.generation (pos 0)) (codes "generation 必须是非负整数")
    refuse (int_ltb m.covered_through (pos 0)) (codes "covered_through 必须是非负整数")
    too_many (length m.constraints) constraints_section (codes " 超过")
    too_many (length m.decisions) decisions_section (codes " 超过")
    too_many (length m.open_items) open_items_section (codes " 超过")
    raise_if (ltb max_archived_items (length m.archived)) (capacity_error (codes "archived 超过"))

  module _ (dumps : Json → Text) where
    -- The test on the length of the JSON text.
    unfoldable pub validate_length : Option ℕ → ConversationMemory → Check
    validate_length none m = ok tt
    validate_length (some limit) m = do
      refuse (eqb limit 0) (codes "记忆长度上限必须是正整数")
      raise_if (ltb limit (length (dumps (memory_payload m)))) (capacity_error (codes "记忆候选超过字符容量"))

    -- `_validate_memory`.
    unfoldable pub validate_memory : Option (List Text) → Option ℕ → ConversationMemory → Check
    validate_memory allowed limit m = do
      validate_frame m
      validate_items allowed m
      refuse (not (no_repeats (map id_of (all_items m)))) (codes "记忆条目 ID 重复")
      validate_length limit m

    abbrev expired : Option ℤ → ConversationMemory → Bool
    expired none m = false
    expired (some generation) m = not (m.generation == generation)

    unfoldable pub validate_candidate :
        List Text → Option ℤ → ℕ → ConversationMemory → Result MemoryError ConversationMemory
    validate_candidate allowed generation limit m = do
      refuse (not (all is_source_id allowed)) (codes "允许的来源标识无效")
      validate_memory (some allowed) (some limit) m
      refuse (expired generation m) (codes "记忆 generation 已过期")
      ok m

-- `_check_capacity`.
unfoldable pub check_capacity : ConversationMemory → Check
check_capacity m = do
  too_many (length m.constraints) (codes "约束") (codes "超过")
  too_many (length m.decisions) (codes "决策") (codes "超过")
  too_many (length m.open_items) (codes "待办") (codes "超过")
  raise_if (ltb max_archived_items (length m.archived)) (capacity_error (codes "记忆归档超过"))
