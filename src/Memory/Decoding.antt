-- ===== src/Memory/Decoding.antt =====
-- The decoder of context/memory.py undoes its encoder.
use tricoder_agent.Base.{
  List, [], ◌∷◌, false, Option, none, some, ok, ◌≡◌, refl, pos, codes, Text, all, contains,
}
use tricoder_agent.Memory.{MemoryItem, ArchivedMemoryItem, ConversationMemory}
use tricoder_agent.Memory.Json.{field, names, has_fields}
use tricoder_agent.Memory.Payload.{
  texts_payload, item_payload, goal_payload, items_payload, archived_payload, memory_payload,
  texts_of, item_from_payload, goal_from_payload, item_list, items_from_payload,
  archived_item_from_payload, archived_list, archived_from_payload, require_int,
  memory_from_payload, archived_item_payload, optional_text, optional_text_of,
}

texts_of-texts_payload : (ts : List Text) → texts_of (texts_payload ts) ≡ ok ts
unfolding texts_of texts_payload
texts_of-texts_payload [] = refl
texts_of-texts_payload (t ∷ ts) = rw (texts_of-texts_payload ts) refl

optional_text_of-optional_text :
    (message : Text) (o : Option Text) → optional_text_of message (optional_text o) ≡ ok o
optional_text_of-optional_text message none = refl
optional_text_of-optional_text message (some t) = refl

item_from_payload-item_payload :
    (default : Text) (i : MemoryItem) → item_from_payload false default (item_payload i) ≡ ok i
unfolding item_from_payload item_payload has_fields names field all contains
item_from_payload-item_payload default i =
    rw
      (
        texts_of-texts_payload i.source_ids,
        optional_text_of-optional_text _ i.task_id,
        optional_text_of-optional_text _ i.replaces_id,
      )
      refl

goal_from_payload-goal_payload :
    (default : Text) (o : Option MemoryItem)
    → goal_from_payload false default (goal_payload o) ≡ ok o
unfolding goal_from_payload
goal_from_payload-goal_payload default none = refl
goal_from_payload-goal_payload default (some i) =
    unfold item_payload in rw (item_from_payload-item_payload default i) refl

item_list-items_payload :
    (default : Text) (items : List MemoryItem)
    → item_list false default (items_payload items) ≡ ok items
unfolding item_list items_payload
item_list-items_payload default [] = refl
item_list-items_payload default (i ∷ items) =
    rw (item_from_payload-item_payload default i, item_list-items_payload default items) refl

archived_item_from_payload-lem :
    (a : ArchivedMemoryItem) → archived_item_from_payload (archived_item_payload a) ≡ ok a
unfolding archived_item_from_payload has_fields names field all contains
archived_item_from_payload-lem a = rw (item_from_payload-item_payload (codes "active") a.item) refl

archived_list-archived_payload :
    (entries : List ArchivedMemoryItem) → archived_list (archived_payload entries) ≡ ok entries
unfolding archived_list archived_payload
archived_list-archived_payload [] = refl
archived_list-archived_payload (a ∷ entries) =
    rw (archived_item_from_payload-lem a, archived_list-archived_payload entries) refl

pub memory_from_payload-memory_payload :
    (m : ConversationMemory)
    → m.schema_version ≡ pos 2
    → memory_from_payload (memory_payload m) ≡ ok m
unfolding memory_from_payload memory_payload has_fields names field all contains require_int
    items_from_payload archived_from_payload
memory_from_payload-memory_payload m v =
    rw
      (
        v,
        archived_list-archived_payload m.archived,
        goal_from_payload-goal_payload (codes "active") m.goal,
        item_list-items_payload (codes "active") m.constraints,
        item_list-items_payload (codes "active") m.decisions,
        item_list-items_payload (codes "pending") m.open_items,
      )
      refl
