-- ===== src/Memory/Payload.antt =====
-- context/memory.py: the JSON value of a memory, and the memory of a JSON value. The version of the
-- schema decides which fields an item has: `first` says that it is 1.
use tricoder_agent.Base.{
  List, [], ◌∷◌, ◌++◌, Bool, true, false, not, ◌||◌, Option, none, some, Result, ok, err, raise_if,
  ◌>>=◌, ◌>>◌, ℤ, pos, String, Text, codes, ◌==◌,
}
use tricoder_agent.Memory.{
  MemoryError, validation_error, MemoryItem, ArchivedMemoryItem, ConversationMemory, int_eq,
}
use tricoder_agent.Memory.Json.{
  Json, null, int, string, array, object, Items, nil, cons, Members, end, member, field, has_fields,
}

unfoldable pub texts_payload : List Text → Items
texts_payload [] = nil
texts_payload (t ∷ ts) = cons (string t) (texts_payload ts)

abbrev pub optional_text : Option Text → Json
optional_text none = null
optional_text (some t) = string t

-- `_item_payload`.
unfoldable pub item_payload : MemoryItem → Json
item_payload i = object (
    member "id" (string i.id) (
      member "text" (string i.text) (
        member "source_ids" (array (texts_payload i.source_ids)) (
          member "scope" (string i.scope) (
            member "task_id" (optional_text i.task_id) (
              member "state" (string i.state)
                (member "replaces_id" (optional_text i.replaces_id) end)))))))

abbrev pub goal_payload : Option MemoryItem → Json
goal_payload none = null
goal_payload (some item) = item_payload item

unfoldable pub items_payload : List MemoryItem → Items
items_payload [] = nil
items_payload (i ∷ rest) = cons (item_payload i) (items_payload rest)

abbrev pub archived_item_payload : ArchivedMemoryItem → Json
archived_item_payload a =
    object (member "section" (string a.section) (member "item" (item_payload a.item) end))

unfoldable pub archived_payload : List ArchivedMemoryItem → Items
archived_payload [] = nil
archived_payload (a ∷ rest) = cons (archived_item_payload a) (archived_payload rest)

-- `_memory_payload`.
unfoldable pub memory_payload : ConversationMemory → Json
memory_payload m = object (
    member "schema_version" (int m.schema_version) (
      member "revision" (int m.revision) (
        member "generation" (int m.generation) (
          member "covered_through" (int m.covered_through) (
            member "goal" (goal_payload m.goal) (
              member "constraints" (array (items_payload m.constraints)) (
                member "decisions" (array (items_payload m.decisions)) (
                  member "open_items" (array (items_payload m.open_items))
                    (member "archived" (array (archived_payload m.archived)) end)))))))))

abbrev item_fields_v1 : List String
item_fields_v1 = "id" ∷ "text" ∷ "source_ids" ∷ "scope" ∷ "task_id" ∷ []

abbrev item_fields : Bool → List String
item_fields true = item_fields_v1
item_fields false = "state" ∷ "replaces_id" ∷ item_fields_v1

abbrev pub members_of : Text → Json → Result MemoryError Members
members_of message (object value) = ok value
members_of message value = err (validation_error message)

abbrev pub items_of : Text → Json → Result MemoryError Items
items_of message (array value) = ok value
items_of message value = err (validation_error message)

abbrev text_of : Text → Json → Result MemoryError Text
text_of message (string t) = ok t
text_of message value = err (validation_error message)

abbrev pub optional_text_of : Text → Json → Result MemoryError (Option Text)
optional_text_of message null = ok none
optional_text_of message (string t) = ok (some t)
optional_text_of message value = err (validation_error message)

abbrev sources_message : Text
sources_message = codes "记忆条目来源必须是文本数组"

unfoldable pub texts_of : Items → Result MemoryError (List Text)
texts_of nil = ok []
texts_of (cons value rest) = do t ← text_of sources_message value; ts ← texts_of rest; ok (t ∷ ts)

abbrev state_of : Bool → Text → Members → Result MemoryError Text
state_of true default value = ok default
state_of false default value = field value "state" >>= text_of (codes "记忆条目 state 类型无效")

abbrev replaces_of : Bool → Members → Result MemoryError (Option Text)
replaces_of true value = ok none
replaces_of false value =
    field value "replaces_id" >>= optional_text_of (codes "记忆条目 replaces_id 类型无效")

abbrev fields_message : Text
fields_message = codes "记忆条目字段不完整或包含未知字段"

abbrev text_field : Members → String → Result MemoryError Text
text_field value name = field value name >>= text_of (codes "记忆条目文本字段类型无效")

-- `_item_from_payload`, without `allow_none`.
unfoldable pub item_from_payload : Bool → Text → Json → Result MemoryError MemoryItem
item_from_payload first default payload = do
  value ← members_of fields_message payload
  raise_if (not (has_fields value (item_fields first))) (validation_error fields_message)
  listed ← field value "source_ids"
  found ← items_of sources_message listed
  sources ← texts_of found
  given ← field value "task_id"
  task ← optional_text_of (codes "记忆条目 task_id 类型无效") given
  id ← text_field value "id"
  text ← text_field value "text"
  scope ← text_field value "scope"
  state ← state_of first default value
  replaces ← replaces_of first value
  ok (record {
    id = id;
    text = text;
    source_ids = sources;
    scope = scope;
    task_id = task;
    state = state;
    replaces_id = replaces;
  })

-- `_item_from_payload` with `allow_none`.
unfoldable pub goal_from_payload : Bool → Text → Json → Result MemoryError (Option MemoryItem)
goal_from_payload first default null = ok none
goal_from_payload first default payload =
    item_from_payload first default payload >>= λ item. ok (some item)

unfoldable pub item_list : Bool → Text → Items → Result MemoryError (List MemoryItem)
item_list first default nil = ok []
item_list first default (cons value rest) = do
  item ← item_from_payload first default value
  items ← item_list first default rest
  ok (item ∷ items)

-- `_items_from_payload`.
unfoldable pub items_from_payload :
    Bool → Text → String → Json → Result MemoryError (List MemoryItem)
items_from_payload first default name payload =
    items_of (codes name ++ codes " 必须是数组") payload >>= item_list first default

unfoldable pub archived_item_from_payload : Json → Result MemoryError ArchivedMemoryItem
archived_item_from_payload payload = do
  value ← members_of (codes "归档条目字段无效") payload
  raise_if (not (has_fields value ("section" ∷ "item" ∷ []))) (validation_error (codes "归档条目字段无效"))
  named ← field value "section"
  section ← text_of (codes "归档条目类别无效") named
  given ← field value "item"
  item ← item_from_payload false (codes "active") given
  ok (record { section = section; item = item })

unfoldable pub archived_list : Items → Result MemoryError (List ArchivedMemoryItem)
archived_list nil = ok []
archived_list (cons value rest) = do
  entry ← archived_item_from_payload value
  entries ← archived_list rest
  ok (entry ∷ entries)

-- `_archived_from_payload`.
unfoldable pub archived_from_payload : Json → Result MemoryError (List ArchivedMemoryItem)
archived_from_payload payload = items_of (codes "archived 必须是数组") payload >>= archived_list

-- `_require_int`.
unfoldable pub require_int : Members → String → Result MemoryError ℤ
require_int value name = elim (field value name) [
  | err missing ↦ err (validation_error (codes "缺少字段 " ++ codes name))
  | ok (int n) ↦ ok n
  | ok other ↦ err (validation_error (codes name ++ codes " 必须是整数"))
]

abbrev memory_fields_v1 : List String
memory_fields_v1 =
    "schema_version" ∷ "revision" ∷ "generation" ∷ "covered_through" ∷ "goal" ∷ "constraints"
    ∷ "decisions" ∷ "open_items" ∷ []

abbrev memory_fields : Bool → List String
memory_fields true = memory_fields_v1
memory_fields false = "archived" ∷ memory_fields_v1

abbrev archived_of : Bool → Members → Result MemoryError (List ArchivedMemoryItem)
archived_of true value = ok []
archived_of false value = field value "archived" >>= archived_from_payload

abbrev pub object_message : Text
object_message = codes "记忆 JSON 必须是对象"

-- The memory of the value in `memory_from_json`, before it is validated.
unfoldable pub memory_from_payload : Json → Result MemoryError ConversationMemory
memory_from_payload payload = do
  value ← members_of object_message payload
  version ← require_int value "schema_version"
  raise_if (not (version == pos 1 || version == pos 2))
      (validation_error (codes "不支持的记忆 schema_version"))
  raise_if (not (has_fields value (memory_fields (version == pos 1))))
      (validation_error (codes "记忆 JSON 字段不完整或包含未知字段"))
  archived ← archived_of (version == pos 1) value
  revision ← require_int value "revision"
  generation ← require_int value "generation"
  covered ← require_int value "covered_through"
  given ← field value "goal"
  goal ← goal_from_payload (version == pos 1) (codes "active") given
  listed ← field value "constraints"
  constraints ← items_from_payload (version == pos 1) (codes "active") "constraints" listed
  chosen ← field value "decisions"
  decisions ← items_from_payload (version == pos 1) (codes "active") "decisions" chosen
  opened ← field value "open_items"
  open_items ← items_from_payload (version == pos 1) (codes "pending") "open_items" opened
  ok (record {
    schema_version = pos 2;
    revision = revision;
    generation = generation;
    covered_through = covered;
    goal = goal;
    constraints = constraints;
    decisions = decisions;
    open_items = open_items;
    archived = archived;
  })
