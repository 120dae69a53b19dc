-- ===== src/Batch/Answering.antt =====
-- engine/tool_batch.py: messages that answer the calls of a batch.
use mathlib.Core.List.{append_assoc, append-nil}
use tricoder_agent.Base.{List, [], ◌∷◌, ◌++◌, ◌≡◌, refl, sym, ap, ◌∙◌, false, nat_eq, list_eq}
use tricoder_agent.State.{AgentRunState}
use tricoder_agent.Batch.{ToolAction, ToolResult, BatchError, skip_invalid, delivery_failed}
use tricoder_agent.Batch.Calls.{Host, Call, BatchState}
use tricoder_agent.Batch.Execute.{skips, Turn, returns, goes_on}

module _ {Message : Type 0} (host : Host Message) where
  -- A message that answers the call: the protocol's, of some result.
  abbrev pub Answers : Call → Message → Type 0
  Answers c m =
      (a : ToolAction) × (r : ToolResult) × (a.tool ≡ c.action.tool)
      × (m ≡ host.message a r c.call_id)

  abbrev pub AnswersAll : List Call → List Message → Type 0
  AnswersAll [] [] = Unit
  AnswersAll (c ∷ calls) (m ∷ ms) = Answers c m × AnswersAll calls ms
  AnswersAll _ _ = ⊥

  -- The messages between two states answer the calls.
  abbrev pub Answered : List Call → BatchState Message → BatchState Message → Type 0
  Answered calls before after =
      (ms : List Message) × (after.messages ≡ before.messages ++ ms) × AnswersAll calls ms

  -- The same, with a predicate of the agent's state.
  abbrev pub Held :
      (AgentRunState → Type 0) → List Call → BatchState Message → BatchState Message → Type 0
  Held U calls before after = Answered calls before after × U after.agent

  -- No effect is unknown.
  abbrev pub Known : AgentRunState → Type 0
  Known agent = agent.unknown_effects ≡ false

  pub skips-AnswersAll :
      (skipped : ToolResult) (calls : List Call) → AnswersAll calls (skips host skipped calls)
  unfolding skips
  skips-AnswersAll skipped [] = tt
  skips-AnswersAll skipped (c ∷ calls) =
      ((c.action, skipped, refl, refl), skips-AnswersAll skipped calls)

  -- What holds after a turn: the batch is answered, or this call is and the loop goes on.
  abbrev pub TurnEnds :
      Call → List Call → BatchState Message → Turn host → BatchState Message → Type 0
  TurnEnds c rest before (returns o) after = Answered (c ∷ rest) before after
  TurnEnds c rest before (goes_on feedback) after = Held Known (c ∷ []) before after

  -- The messages between two states answer the first calls, one or more or none of them.
  abbrev pub Begun : List Call → BatchState Message → BatchState Message → Type 0
  Begun calls before after =
      (first left : List Call) × (calls ≡ first ++ left) × Answered first before after

  -- What holds when an exception leaves the executor.
  abbrev pub Fails : List Call → BatchState Message → BatchError → BatchState Message → Type 0
  Fails calls before delivery_failed after = Answered calls before after
  Fails calls before skip_invalid after = ⊥
  Fails calls before _ after = Begun calls before after

  -- No message is written yet.
  pub unanswered :
      (calls : List Call) (before after : BatchState Message)
      → after.messages ≡ before.messages
      → Begun calls before after
  unanswered calls before after e =
      ([], calls, refl, ([], e ∙ sym (append-nil before.messages), tt))

  pub Answered-append :
      (first rest : List Call) (before after : BatchState Message) (ms : List Message)
      → Answered first before after
      → AnswersAll rest ms
      → Answered (first ++ rest) before (record after { messages = after.messages ++ ms })
  Answered-append first rest before after ms (done, same, answers) more = (
    done ++ ms,
    ap (λ xs. xs ++ ms) same ∙ append_assoc before.messages done ms,
    both first done answers,
  )
    where
      both :
          (cs : List Call) (ns : List Message)
          → AnswersAll cs ns
          → AnswersAll (cs ++ rest) (ns ++ ms)
      both [] [] a = more
      both [] (n ∷ ns) a = absurd a
      both (c ∷ cs) [] a = absurd a
      both (c ∷ cs) (n ∷ ns) a = (a.0, both cs ns a.1)
