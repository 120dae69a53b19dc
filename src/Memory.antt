-- ===== src/Memory.antt =====
-- context/memory.py: the items of the conversation memory, its errors, and the functions that only read
-- it. A string is its code points; a set of strings is a list. `space` is `str.isspace` of one
-- character, `fold` is `str.casefold`.
pub mod Json
pub mod Payload
pub mod Validation
pub mod Reading
pub mod Decoding
pub mod Trusted
pub mod Tests
pub mod Counting
pub mod Numbered
pub mod Goals
pub mod Reviewing
pub mod Lossless
pub mod Positions
pub mod Appending
pub mod Conservation
pub mod RoundTrip
pub mod Sources
pub mod Accepted
pub mod Merging
pub mod Review
pub mod Numbering
pub mod Termination
pub mod Recording
use tricoder_agent.Base.{
  ℕ, List, [], ◌∷◌, ◌++◌, Bool, true, false, not, ◌&&◌, Option, none, some, map, ℤ, pos, negsuc,
  if◌then◌else◌, is_nil, keep, any, Text, codes, join, ◌==◌, ◌↔◌, ◌≡◌, Eq, arith, eqb, eqb_iff, ltb,
  nat_eq, list_eq, option_eq, pair_eq,
}

pub data MemoryError : Type 0 where
  validation_error : Text → MemoryError
  capacity_error : Text → MemoryError
  key_error : MemoryError

pub record MemoryItem : Type 0 where
  pub id : Text
  pub text : Text
  pub source_ids : List Text
  pub scope : Text
  pub task_id : Option Text
  pub state : Text
  pub replaces_id : Option Text

pub record ArchivedMemoryItem : Type 0 where
  pub section : Text
  pub item : MemoryItem

pub record ConversationMemory : Type 0 where
  pub schema_version : ℤ
  pub revision : ℤ
  pub generation : ℤ
  pub covered_through : ℤ
  pub goal : Option MemoryItem
  pub constraints : List MemoryItem
  pub decisions : List MemoryItem
  pub open_items : List MemoryItem
  pub archived : List ArchivedMemoryItem

abbrev pub int_beq : ℤ → ℤ → Bool
int_beq (pos a) (pos b) = eqb a b
int_beq (negsuc a) (negsuc b) = eqb a b
int_beq a b = false

pub int_beq_iff : (a b : ℤ) → (int_beq a b ≡ true) ↔ (a ≡ b)
int_beq_iff (pos a) (pos b) = ground (arith, eqb_iff a b)
int_beq_iff (pos a) (negsuc b) = ground arith
int_beq_iff (negsuc a) (pos b) = ground arith
int_beq_iff (negsuc a) (negsuc b) = ground (arith, eqb_iff a b)

instance abbrev pub int_eq : Eq ℤ
int_eq = record { beq = int_beq; beq_iff = int_beq_iff }

-- `a < b` on integers.
abbrev pub int_ltb : ℤ → ℤ → Bool
int_ltb (pos a) (pos b) = ltb a b
int_ltb (pos a) (negsuc b) = false
int_ltb (negsuc a) (pos b) = true
int_ltb (negsuc a) (negsuc b) = ltb b a

abbrev pub item_beq : MemoryItem → MemoryItem → Bool
item_beq a b =
    a.id == b.id
    && (a.text == b.text)
    && (a.source_ids == b.source_ids)
    && (a.scope == b.scope)
    && (a.task_id == b.task_id)
    && (a.state == b.state)
    && (a.replaces_id == b.replaces_id)

abbrev pub present : Option MemoryItem → List MemoryItem
present none = []
present (some item) = item ∷ []

abbrev pub archived_item : ArchivedMemoryItem → MemoryItem
archived_item entry = entry.item

unfoldable pub all_items : ConversationMemory → List MemoryItem
all_items m =
    present m.goal
    ++ (m.constraints ++ (m.decisions ++ (m.open_items ++ map archived_item m.archived)))

unfoldable pub sources_of : List MemoryItem → List Text
sources_of [] = []
sources_of (item ∷ items) = item.source_ids ++ sources_of items

-- `_memory_source_ids`.
unfoldable pub memory_source_ids : ConversationMemory → List Text
memory_source_ids m = sources_of (all_items m)

abbrev pub active : Text
active = codes "active"

abbrev pub pending : Text
pending = codes "pending"

abbrev pub superseded : Text
superseded = codes "superseded"

abbrev pub done : Text
done = codes "done"

abbrev pub cancelled : Text
cancelled = codes "cancelled"

abbrev if_active : Option MemoryItem → Option MemoryItem
if_active none = none
if_active (some item) = if item.state == active then some item else none

-- `_prompt_memory`.
unfoldable pub prompt_memory : ConversationMemory → ConversationMemory
prompt_memory m = record m {
  goal = if_active m.goal;
  decisions = keep (λ item. item.state == active) m.decisions;
  open_items = keep (λ item. item.state == pending) m.open_items;
  archived = [];
}

-- `text.split()`: the words between the spaces.
abbrev after_word : Text → List Text → List Text
after_word word words = if is_nil word then words else word ∷ words

unfoldable pub words_from : (ℕ → Bool) → Text → Text → List Text
words_from space word [] = after_word word []
words_from space word (c ∷ s) =
    let rest = words_from space (if space c then [] else word ++ c ∷ []) s in
    if space c then after_word word rest else rest

-- `_normalized_item_key`.
unfoldable pub normalized_item_key :
    (ℕ → Bool) → (Text → Text) → MemoryItem → Text × (Text × Option Text)
normalized_item_key space fold item =
    (fold (join 32 (words_from space [] item.text)), (item.scope, item.task_id))
