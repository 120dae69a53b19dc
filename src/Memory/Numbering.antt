-- ===== src/Memory/Numbering.antt =====
-- context/memory.py: the numbers of the messages of a history. `show` is `str` of a number.
use tricoder_agent.Base.{
  ℕ, zero, suc, List, [], ◌∷◌, ◌++◌, ◌||◌, Option, none, some, Result, ok, raise_if, ◌>>=◌, ◌>>◌,
  if◌then◌else◌, ltb, eqb, length, contains, Text, codes, ◌==◌, nat_eq, list_eq, is_nil,
}
use tricoder_agent.Messages.{Message, is_system}
use tricoder_agent.Memory.{MemoryError, validation_error}

unfoldable pub source_id_for_sequence : (ℕ → Text) → ℕ → Result MemoryError Text
source_id_for_sequence show n = do
  raise_if (eqb n 0) (validation_error (codes "消息序号必须是正整数"))
  ok (codes "m" ++ show n)

-- `while cursor in used: cursor += 1`.
unfoldable pub unused_from : ℕ → List ℕ → ℕ → ℕ
unused_from zero used cursor = cursor
unused_from (suc fuel) used cursor =
    let next = unused_from fuel used (suc cursor) in if contains used cursor then next else cursor

-- The local variables of the loop.
pub record Count : Type 0 where
  pub used : List ℕ
  pub cursor : ℕ
  pub task : Option Text

-- The number of a message: its own, or one that no message before it has.
unfoldable pub number_of : Count → Option ℕ → Result MemoryError ℕ
number_of c none = ok (unused_from (suc (length c.used)) c.used c.cursor)
number_of c (some n) = do
  raise_if (eqb n 0 || contains c.used n) (validation_error (codes "历史消息序号无效或重复"))
  ok n

-- `a or b` of texts that may be missing.
abbrev pub text_or : Option Text → Option Text → Option Text
text_or none b = b
text_or (some t) b = if is_nil t then b else some t

abbrev pub max_of : ℕ → ℕ → ℕ
max_of a b = if ltb a b then b else a

-- What the loop keeps after a message with that number: a message that had none takes the cursor, which
-- moves on.
unfoldable pub counted : (ℕ → Text) → Count → Message → ℕ → Count
counted show c m n = record {
  used = n ∷ c.used;
  cursor = max_of (elim m.message_seq [ none ↦ suc n | some own ↦ c.cursor ]) (suc n);
  task =
      if m.kind == codes "task" then text_or m.task_id (some (codes "task-" ++ show n)) else c.task;
}

-- The message with its number and the task it belongs to.
abbrev pub numbered : Count → Message → ℕ → Message
numbered c m n = record m { message_seq = some n; task_id = text_or m.task_id c.task }

unfoldable pub assign_from :
    (ℕ → Text) → Count → List Message → Result MemoryError (List Message × ℕ)
assign_from show c [] = ok ([], c.cursor)
assign_from show c (m ∷ ms) =
    if is_system m.role
    then (assign_from show c ms >>= λ (rest, next). ok (m ∷ rest, next))
    else (number_of c m.message_seq >>= λ n.
        assign_from show (counted show c m n) ms >>= λ (rest, next).
        ok (numbered (counted show c m n) m n ∷ rest, next))

unfoldable pub assign_message_sequences :
    (ℕ → Text) → List Message → ℕ → Result MemoryError (List Message × ℕ)
assign_message_sequences show messages next = do
  raise_if (eqb next 0) (validation_error (codes "下一消息序号必须是正整数"))
  assign_from show (record { used = []; cursor = next; task = none }) messages
