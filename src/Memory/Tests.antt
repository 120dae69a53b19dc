-- ===== src/Memory/Tests.antt =====
-- Runs of context/memory.py on small memories and histories.
use tricoder_agent.Base.{join}
use tricoder_agent.Memory.Validation.{
  each, is_item_id, is_source_id, validate_source, validate_scope, validate_text, validate_state,
  validate_item, validate_section, validate_section_item, validate_archived_item, validate_goal,
  validate_items, validate_frame, validate_length, validate_memory, validate_candidate,
  check_capacity,
}
use tricoder_agent.Base.Dict.{get, has_key, put}
use tricoder_agent.Base.{
  ℕ, List, [], ◌∷◌, ◌++◌, Bool, true, Option, none, some, ok, ◌≡◌, refl, All, Distinct, ◌≤◌, ◌<◌,
  arith, eqb, Text, codes, ◌==◌, nat_eq, list_eq, if◌then◌else◌, pos, contains, any, all, keep,
  distinct, distinct_from,
}
use tricoder_agent.Messages.{Message, Role, is_blank}
use tricoder_agent.Memory.{
  MemoryItem, ConversationMemory, active, pending, done, all_items, memory_source_ids, sources_of,
  words_from, normalized_item_key,
}
use tricoder_agent.Memory.Json.{Json}
use tricoder_agent.Memory.Payload.{memory_payload}
use tricoder_agent.Memory.Reading.{memory_to_json, memory_from_json}
use tricoder_agent.Memory.RoundTrip.{memory_from_json-memory_to_json}
use tricoder_agent.Memory.Merging.{
  merge_candidate, memory_beq, index_by_id, entry_at, without, with_entry, contains_equivalent,
  is_skipped, append_new, put_item, replace_or_append, merge_provisional, validate_merge_inputs,
  finish_merge,
}
use tricoder_agent.Memory.Conservation.{Keeps, Succeeds, ids, merge_candidate-Keeps}
use tricoder_agent.Memory.Review.{
  merge_review_candidate, is_archived_replay, end_item, keep_item, review_open_item, replace_again,
  replace_at, replace_old, replace_decision, active_decision, review_decision, review_all,
  change_goal, end_goal, review_goal, review_provisional,
}
use tricoder_agent.Memory.Reviewing.{Preserves, merge_review_candidate-Preserves}
use tricoder_agent.Memory.Numbering.{
  assign_message_sequences, assign_from, counted, number_of, unused_from, source_id_for_sequence,
}
use tricoder_agent.Memory.Numbered.{
  AreNumbered, numbers, assign_message_sequences-AreNumbered, assign_message_sequences-again,
}
use tricoder_agent.Memory.Termination.{
  task_termination_kind, task_incomplete_notice, termination_item, task_termination_facts, index,
  record_fact, record_facts, with_task_termination_facts,
}
use tricoder_agent.Memory.Trusted.{is_ok}
use tricoder_agent.Memory.Recording.{
  More, Recorded, is_termination, with_task_termination_facts-Recorded,
}

abbrev space : ℕ → Bool
space c = eqb c 32

abbrev casefold : Text → Text
casefold t = t

abbrev dumps : Json → Text
dumps value = codes "{}"

abbrev item : Text → Text → Text → MemoryItem
item id text state = record {
  id = id;
  text = text;
  source_ids = codes "m1" ∷ [];
  scope = codes "session";
  task_id = none;
  state = state;
  replaces_id = none;
}

abbrev fix_tests : MemoryItem
fix_tests = item (codes "o1") (codes "fix the tests") pending

abbrev old : ConversationMemory
old = record {
  schema_version = pos 2;
  revision = pos 3;
  generation = pos 1;
  covered_through = pos 4;
  goal = some (item (codes "g") (codes "release") active);
  constraints = [];
  decisions = item (codes "d1") (codes "use sqlite") active ∷ [];
  open_items = fix_tests ∷ [];
  archived =
      record { section = codes "open_items"; item = item (codes "o0") (codes "read") done } ∷ [];
}

abbrev loads : Text → Option Json
unfolding memory_payload
loads text = if text == codes "{}" then some (memory_payload old) else none

written_once : memory_to_json space dumps old ≡ ok (codes "{}")
unfolding contains any all keep distinct distinct_from is_blank each is_item_id is_source_id
    validate_source validate_scope validate_text validate_state validate_item validate_section
    validate_section_item validate_archived_item validate_goal validate_items validate_frame
    validate_length validate_memory validate_candidate check_capacity memory_payload all_items
    memory_to_json
written_once = refl

read_back : loads (dumps (memory_payload old)) ≡ some (memory_payload old)
unfolding loads
read_back = refl

memory_from_json-memory_to_json_example :
    memory_from_json space dumps loads (codes "{}") none 6000 ≡ ok old
memory_from_json-memory_to_json_example =
    memory_from_json-memory_to_json space dumps loads old (codes "{}") 6000 written_once read_back
      (omega arith) (omega arith)

-- One decision is new, one is there by its text, and an item that has ended is not taken.
abbrev proposed : ConversationMemory
proposed = record old {
  goal = none;
  covered_through = pos 6;
  decisions =
      item (codes "d2") (codes "use  sqlite") active
      ∷ item (codes "d3") (codes "no network") active
      ∷ [];
  open_items = item (codes "o1") (codes "fix the tests") done ∷ [];
  archived = [];
}

abbrev merge_result : ConversationMemory
merge_result = record old {
  revision = pos 4;
  covered_through = pos 6;
  decisions =
      item (codes "d1") (codes "use sqlite") active
      ∷ item (codes "d3") (codes "no network") active
      ∷ [];
}

merge_once : merge_candidate space casefold dumps old proposed [] 6000 ≡ ok merge_result
unfolding contains any all keep distinct distinct_from is_blank each is_item_id is_source_id
    validate_source validate_scope validate_text validate_state validate_item validate_section
    validate_section_item validate_archived_item validate_goal validate_items validate_frame
    validate_length validate_memory validate_candidate check_capacity memory_payload all_items
    memory_source_ids sources_of words_from normalized_item_key join memory_beq index_by_id entry_at
    without with_entry contains_equivalent is_skipped append_new put_item replace_or_append
    merge_provisional validate_merge_inputs finish_merge merge_candidate
merge_once = refl

merge_candidate-Keeps_example :
    Keeps old merge_result × Succeeds old merge_result × Distinct (ids merge_result)
merge_candidate-Keeps_example =
    merge_candidate-Keeps space casefold dumps old proposed merge_result [] 6000 merge_once

abbrev update : ConversationMemory
update = record old {
  goal = none;
  covered_through = pos 6;
  decisions =
      record (item (codes "d2") (codes "use files") active) { replaces_id = some (codes "d1") }
      ∷ [];
  open_items = item (codes "o1") (codes "fix the tests") done ∷ [];
  archived = [];
}

abbrev review_result : ConversationMemory
review_result = record old {
  revision = pos 4;
  covered_through = pos 6;
  decisions =
      record (item (codes "d2") (codes "use files") active) { replaces_id = some (codes "d1") }
      ∷ [];
  open_items = [];
  archived =
      record { section = codes "open_items"; item = item (codes "o0") (codes "read") done }
      ∷ record {
        section = codes "open_items";
        item = item (codes "o1") (codes "fix the tests") done;
      }
      ∷ record {
        section = codes "decisions";
        item = item (codes "d1") (codes "use sqlite") (codes "superseded");
      }
      ∷ [];
}

review_once : merge_review_candidate space casefold dumps old update [] 6000 ≡ ok review_result
unfolding contains any all keep distinct distinct_from is_blank each is_item_id is_source_id
    validate_source validate_scope validate_text validate_state validate_item validate_section
    validate_section_item validate_archived_item validate_goal validate_items validate_frame
    validate_length validate_memory validate_candidate check_capacity memory_payload all_items
    memory_source_ids sources_of words_from normalized_item_key join memory_beq index_by_id entry_at
    without with_entry contains_equivalent is_skipped append_new put_item replace_or_append
    merge_provisional validate_merge_inputs finish_merge merge_candidate is_archived_replay end_item
    keep_item review_open_item replace_again replace_at replace_old replace_decision active_decision
    review_decision review_all change_goal end_goal review_goal review_provisional
    merge_review_candidate
review_once = refl

merge_review_candidate-Preserves_example :
    Preserves old review_result × Succeeds old review_result × Distinct (ids review_result)
merge_review_candidate-Preserves_example =
    merge_review_candidate-Preserves space casefold dumps old update review_result [] 6000
      review_once

abbrev message : Role → Text → Option ℕ → Option Text → Message
message role kind seq task = record {
  role = role;
  content = some (codes "text");
  kind = kind;
  tool_calls = [];
  tool_call_id = none;
  message_seq = seq;
  task_id = task;
}

abbrev show : ℕ → Text
show n = 48 ∷ []

abbrev history : List Message
history =
    message Role.system (codes "generic") none none
    ∷ message Role.user (codes "task") none none
    ∷ message Role.assistant (codes "generic") (some 9) none
    ∷ message Role.user (codes "generic") none none
    ∷ []

abbrev numbered_history : List Message
numbered_history =
    message Role.system (codes "generic") none none
    ∷ message Role.user (codes "task") (some 5) (some (codes "task-0"))
    ∷ message Role.assistant (codes "generic") (some 9) (some (codes "task-0"))
    ∷ message Role.user (codes "generic") (some 10) (some (codes "task-0"))
    ∷ []

assigned : assign_message_sequences show history 5 ≡ ok (numbered_history, 11)
unfolding contains any all keep distinct distinct_from unused_from number_of counted assign_from
    assign_message_sequences
assigned = refl

assign_message_sequences-AreNumbered_example :
    AreNumbered history numbered_history
    × Distinct (numbers numbered_history)
    × All (λ n. n < 11) (numbers numbered_history)
    × (5 ≤ 11)
assign_message_sequences-AreNumbered_example =
    assign_message_sequences-AreNumbered show history numbered_history 5 11 assigned

assign_message_sequences-again_example :
    assign_message_sequences show numbered_history 11 ≡ ok (numbered_history, 11)
assign_message_sequences-again_example =
    assign_message_sequences-again show history numbered_history 5 11 assigned

abbrev notice : Message
notice = record (message Role.user task_termination_kind (some 4) (some (codes "task-1"))) {
  content = some task_incomplete_notice;
}

recorded : is_ok (termination_item show notice) ≡ true
unfolding source_id_for_sequence termination_item task_termination_facts get has_key
recorded = refl

abbrev notices : List Message
notices = message Role.user (codes "user") (some 3) (some (codes "task-1")) ∷ notice ∷ []

abbrev noted : ConversationMemory
noted = record old {
  open_items =
      old.open_items
      ++ record {
        id = codes "task-termination-" ++ show 4;
        text = codes "任务未成功结束，真实检查结果和已提交修改仍需后续处理。";
        source_ids = (codes "m" ++ show 4) ∷ [];
        scope = codes "task";
        task_id = some (codes "task-1");
        state = codes "pending";
        replaces_id = none;
      }
        ∷ [];
}

noted_once : with_task_termination_facts show old notices ≡ ok noted
unfolding source_id_for_sequence termination_item task_termination_facts get has_key put index
    record_fact record_facts with_task_termination_facts
noted_once = refl

with_task_termination_facts-Recorded_example :
    (noted ≡ record old { open_items = noted.open_items })
    × More old.open_items noted.open_items
    × All (Recorded show noted.open_items) (keep is_termination notices)
with_task_termination_facts-Recorded_example =
    with_task_termination_facts-Recorded show old noted notices noted_once
