-- ===== src/Batch/Calls.antt =====
-- engine/tool_batch.py: a call of a batch with the world's answers to it, the executor's state and its
-- outcome, and the tests on a call's result.
use tricoder_agent.Base.{
  ℕ, suc, List, [], ◌∷◌, ◌++◌, Bool, true, false, not, ◌&&◌, Option, none, some, Result, ok, err,
  if◌then◌else◌, is_nil, ℤ, Text, codes, ◌==◌, nat_eq, list_eq, option_eq,
}
use tricoder_agent.Evidence.{VerificationScope}
use tricoder_agent.Progress.{ProgressAction, ProgressDecision}
use tricoder_agent.Observation.{TaskObservation}
use tricoder_agent.State.{AgentRunState, ToolBatchStop}
use tricoder_agent.Batch.{
  answered, timed_out, unavailable, ToolAction, ToolResult, BatchError, delivery_failed, ask_user,
}
use tricoder_agent.Batch.Progressing.{Observed}

-- What the program passes to the executor: the protocol's message, the tools' descriptions, and the
-- library's functions.
pub record Host (Message : Type 0) : Type 0 where
  pub message : ToolAction → ToolResult → Option Text → Message
  pub describe : Text → Option Text
  pub show : ℕ → Text
  pub show_int : ℤ → Text
  pub digest : List Text → Text
  pub printable : ℕ → Bool

-- The tool's reply, a cancellation with `cleanup_failed`, or any other exception of the tool.
pub data Reply : Type 0 where
  replied : ToolResult → Reply
  broken_off : Bool → Reply
  raised : Reply

-- A call with the world's answers to it, in the order in which they are asked for. A log's answer is
-- missing if the observer, the event sink or the log raised.
pub record Call : Type 0 where
  pub action : ToolAction
  pub call_id : Option Text
  pub cancelled_before : Bool
  pub announced : Bool
  pub reply : Reply
  pub scope : Option VerificationScope
  pub observation : Option TaskObservation
  pub logged : Option Bool
  pub cancelled_after : Bool
  pub observed : Observed
  pub cancelled_scanned : Bool
  pub progress_logged : Option Bool
  pub cancelled_last : Bool
  pub skip_logged : Option Bool

pub record BatchState (Message : Type 0) : Type 0 where
  pub agent : AgentRunState
  pub messages : List Message

pub record ToolBatchOutcome : Type 0 where
  pub stop : ToolBatchStop
  pub result : Option ToolResult
  pub feedback : List Text
  pub progress : Option ProgressDecision
  pub finish_outcome : Option Text

abbrev pub stopped : ToolBatchStop → Option ToolResult → ToolBatchOutcome
stopped stop result = record {
  stop = stop;
  result = result;
  feedback = [];
  progress = none;
  finish_outcome = none;
}

abbrev pub told : ToolBatchStop → Option ToolResult → List Text → ToolBatchOutcome
told stop result feedback = record {
  stop = stop;
  result = result;
  feedback = feedback;
  progress = none;
  finish_outcome = none;
}

abbrev pub is_stop : ProgressAction → Bool
is_stop ProgressAction.stop = true
is_stop _ = false

abbrev pub is_continue : ProgressAction → Bool
is_continue ProgressAction.continue = true
is_continue _ = false

abbrev pub is_clarified_stop : ToolBatchStop → Bool
is_clarified_stop ToolBatchStop.clarified = true
is_clarified_stop _ = false

-- `call_id or f"legacy-{round}-{index}"`.
abbrev pub id_of : (ℕ → Text) → ℕ → ℕ → Option Text → Text
id_of show round index none = codes "legacy-" ++ (show round ++ (codes "-" ++ show index))
id_of show round index (some call_id) =
    if is_nil call_id then codes "legacy-" ++ (show round ++ (codes "-" ++ show index)) else call_id

unfoldable pub known_ids : (ℕ → Text) → ℕ → ℕ → List Call → List Text
known_ids show round index [] = []
known_ids show round index (c ∷ calls) =
    id_of show round index c.call_id ∷ known_ids show round (suc index) calls

abbrev pub is_clarified : ToolAction → ToolResult → Bool
is_clarified a r = a.tool == ask_user && r.ok && elim r.clarification [
  | none ↦ false
  | some c ↦ elim c.status [ answered ↦ true | _ ↦ false ]
]

abbrev pub needs_input : ToolAction → ToolResult → Bool
needs_input a r = a.tool == ask_user && elim r.clarification [
  | none ↦ false
  | some c ↦ elim c.status [ timed_out ↦ true | unavailable ↦ true | _ ↦ false ]
]

-- A question that counts: any clarification but the refusal for the limit.
abbrev pub counts_question : ToolAction → ToolResult → Bool
counts_question a r = a.tool == ask_user && elim r.clarification [
  | none ↦ false
  | some c ↦ not (c.reason == some (codes "question_limit"))
]

abbrev pub finish_outcome_of : ToolAction → Text
finish_outcome_of a = elim a.outcome [ none ↦ codes "completed" | some outcome ↦ outcome ]

-- The emission of the remaining results and their logs: whether all were logged.
unfoldable pub log_skips : List Call → Result BatchError Bool
log_skips [] = ok true
log_skips (c ∷ calls) = elim c.skip_logged [
  | none ↦ err delivery_failed
  | some logged ↦ elim (log_skips calls) [ err x ↦ err x | ok rest ↦ ok (logged && rest) ]
]
