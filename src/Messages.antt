-- ===== src/Messages.antt =====
-- models.py: a message of a conversation, as the memory and the history read it. A call's arguments are
-- left out; `0` stands for a number that the constructor of a message refuses.
use tricoder_agent.Base.{
  ℕ, List, Bool, true, false, not, ◌&&◌, Option, none, some, Result, raise_if, ◌>>◌, eqb, is_some,
  is_nil, all, Text,
}

pub record ToolCall : Type 0 where
  pub id : Text
  pub name : Text

pub data Role : Type 0 where
  system : Role
  user : Role
  assistant : Role
  tool : Role

pub record Message : Type 0 where
  pub role : Role
  pub content : Option Text
  pub kind : Text
  pub tool_calls : List ToolCall
  pub tool_call_id : Option Text
  pub message_seq : Option ℕ
  pub task_id : Option Text

abbrev pub is_system : Role → Bool
is_system system = true
is_system role = false

abbrev pub is_user : Role → Bool
is_user user = true
is_user role = false

abbrev pub is_assistant : Role → Bool
is_assistant assistant = true
is_assistant role = false

abbrev pub is_tool : Role → Bool
is_tool tool = true
is_tool role = false

pub data MessageError : Type 0 where
  value_error : MessageError

-- `not text.strip()`.
unfoldable pub is_blank : (ℕ → Bool) → Text → Bool
is_blank space text = all space text

abbrev refuses : (Text → Bool) → Option Text → Bool
refuses p none = false
refuses p (some text) = p text

abbrev is_zero : Option ℕ → Bool
is_zero none = false
is_zero (some n) = eqb n 0

-- The tests of the constructor.
unfoldable pub check_message : (ℕ → Bool) → Message → Result MessageError (Unit {0})
unfolding is_blank
check_message space m = do
  raise_if (refuses is_nil m.tool_call_id) value_error
  raise_if (is_zero m.message_seq) value_error
  raise_if (refuses (is_blank space) m.task_id) value_error
  raise_if (is_tool m.role && not (is_some m.content)) value_error
  raise_if (is_tool m.role && not (is_nil m.tool_calls)) value_error
  raise_if (is_tool m.role && not (is_some m.tool_call_id)) value_error
  raise_if (not (is_tool m.role) && is_some m.tool_call_id) value_error
  raise_if (not (is_tool m.role) && not (is_nil m.tool_calls) && not (is_assistant m.role))
      value_error
  raise_if (not (is_tool m.role) && not (is_some m.content) && is_nil m.tool_calls) value_error
