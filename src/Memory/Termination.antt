-- ===== src/Memory/Termination.antt =====
-- context/memory.py: the notices with which the runner ends a task, and the open items that a memory
-- gets for them. `show` is `str` of a number.
use tricoder_agent.Base.{
  ℕ, List, [], ◌∷◌, ◌++◌, Bool, false, not, ◌&&◌, ◌||◌, Option, none, some, Result, ok, err,
  raise_if, ◌>>=◌, ◌>>◌, if◌then◌else◌, is_nil, is_some, Text, codes, ◌==◌, nat_eq, list_eq,
}
use tricoder_agent.Base.Dict.{Dict, get, put, has_key}
use tricoder_agent.Messages.{Message, is_user}
use tricoder_agent.Memory.{
  MemoryError, validation_error, MemoryItem, ConversationMemory, pending, item_beq,
}
use tricoder_agent.Memory.Numbering.{source_id_for_sequence}

abbrev pub task_termination_kind : Text
task_termination_kind = codes "task_termination"

abbrev pub task_incomplete_notice : Text
task_incomplete_notice = codes "本轮已停止：宿主确认任务未成功结束；真实检查结果和已提交修改均已保留。"

-- `_TASK_TERMINATION_FACTS`: the notices, and what the memory says of them.
unfoldable pub task_termination_facts : Dict Text Text
task_termination_facts =
    (codes "本轮已停止：结束协议纠正失败；任务未完成，结果仍需确认。", codes "任务因结束协议纠正失败而停止，未完成结果仍需确认。")
    ∷ (codes "本轮已停止：等待用户回答超时；任务未完成，需要用户补充信息。", codes "任务等待用户回答超时，仍需补充信息。")
    ∷ (codes "本轮已停止：当前入口无法取得用户回答；任务未完成，需要用户补充信息。", codes "当前入口无法取得回答，任务仍需用户补充信息。")
    ∷ (codes "本轮已停止：已达到需求澄清提问次数上限；任务未完成，需要用户补充信息。", codes "需求澄清已达到提问上限，任务仍需用户补充信息。")
    ∷ (codes "本轮已停止：等待回答期间工作区发生变化；回答未采用，任务未完成。", codes "澄清等待期间工作区发生变化，回答未采用，任务仍未完成。")
    ∷ (codes "本轮已停止：澄清等待前后无法完整扫描工作区；任务未完成。", codes "澄清等待前后无法完整扫描工作区，任务仍未完成。")
    ∷ (codes "本轮已停止：用户取消了需求澄清等待；任务未完成。", codes "用户取消需求澄清等待，任务仍未完成。")
    ∷ (
      codes "本轮已停止：相同工作区状态下的同一失败已累计 3 次；任务未完成，真实失败证据与已提交修改均已保留。",
      codes "任务因相同状态下重复失败累计 3 次而停止，失败仍未解决。",
    )
    ∷ (codes "本轮已停止：工作区无变化时同一读取已累计 4 次；任务未完成，现有结果仍需确认。", codes "任务因工作区无变化时重复读取同一结果 4 次而停止，结果仍需确认。")
    ∷ (
      codes "本轮已停止：同一失败检查对应的代码状态出现 A→B→A→B→A 来回抵消；任务未完成，未自动撤销已提交修改。",
      codes "任务因失败检查期间代码状态来回抵消而停止，失败仍未解决。",
    )
    ∷ (task_incomplete_notice, codes "任务未成功结束，真实检查结果和已提交修改仍需后续处理。")
    ∷ []

abbrev pub fact_of : Option Text → Option Text
fact_of none = get task_termination_facts []
fact_of (some content) = get task_termination_facts content

abbrev pub is_notice : Option Text → Bool
is_notice none = false
is_notice (some content) = has_key task_termination_facts content

unfoldable pub is_trusted_task_termination : Message → Bool
is_trusted_task_termination m =
    is_user m.role
    && (m.kind == task_termination_kind)
    && is_notice m.content
    && is_nil m.tool_calls
    && not (is_some m.tool_call_id)

-- The open items of the candidate, and the same by their ids.
pub record Facts : Type 0 where
  pub open_items : List MemoryItem
  pub by_id : Dict Text MemoryItem

abbrev pub termination_id : (ℕ → Text) → ℕ → Text
termination_id show n = codes "task-termination-" ++ show n

abbrev pub marker_message : MemoryError
marker_message = validation_error (codes "任务终止标记无效")

abbrev pub required : {A : Type 0} → Option A → Result MemoryError A
required none = err marker_message
required (some a) = ok a

-- The item of a notice.
unfoldable pub termination_item : (ℕ → Text) → Message → Result MemoryError MemoryItem
unfolding source_id_for_sequence
termination_item show m = do
  raise_if (not (is_user m.role)) marker_message
  text ← required (fact_of m.content)
  sequence ← required m.message_seq
  task ← required m.task_id
  raise_if (not (is_nil m.tool_calls) || is_some m.tool_call_id) marker_message
  source ← source_id_for_sequence show sequence
  ok (record {
    id = termination_id show sequence;
    text = text;
    source_ids = source ∷ [];
    scope = codes "task";
    task_id = some task;
    state = pending;
    replaces_id = none;
  })

-- An item whose id is there already must be the same.
unfoldable pub record_fact : Facts → MemoryItem → Result MemoryError Facts
record_fact f item = elim (get f.by_id item.id) [
  | none ↦ ok (record { open_items = f.open_items ++ item ∷ []; by_id = put f.by_id item.id item })
  | some existing ↦
      if item_beq existing item then ok f else err (validation_error (codes "任务终止记忆与摘要候选冲突"))
]

unfoldable pub record_facts : (ℕ → Text) → Facts → List Message → Result MemoryError Facts
record_facts show f [] = ok f
record_facts show f (m ∷ ms) =
    if not (m.kind == task_termination_kind)
    then record_facts show f ms
    else (termination_item show m >>= λ item.
        record_fact f item >>= λ next. record_facts show next ms)

-- `{item.id: item for item in open_items}`.
unfoldable pub index : List MemoryItem → Dict Text MemoryItem → Dict Text MemoryItem
index [] d = d
index (item ∷ items) d = index items (put d item.id item)

unfoldable pub with_task_termination_facts :
    (ℕ → Text) → ConversationMemory → List Message → Result MemoryError ConversationMemory
with_task_termination_facts show candidate messages = do
  facts ←
      record_facts show
        (record { open_items = candidate.open_items; by_id = index candidate.open_items [] })
        messages
  ok (record candidate { open_items = facts.open_items })
