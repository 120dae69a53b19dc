-- ===== src/Batch/Execute.antt =====
-- engine/tool_batch.py: `ToolBatchExecutor.execute`, with `fill_remaining_results`.
use tricoder_agent.Base.{
  ℕ, suc, ◌+◌, List, [], ◌∷◌, ◌++◌, map, Bool, true, false, not, ◌&&◌, ◌||◌, Option, none, some, ok,
  if◌then◌else◌, leb, is_nil, Text, codes, ◌==◌, nat_eq, list_eq, option_eq,
}
use tricoder_agent.Base.Exec.{Exec, pure, raise, lift, read, modify, raise_when, ◌>>=◌, ◌>>◌}
use tricoder_agent.Effects.{FileEffects, is_confirmed, should_stop_task}
use tricoder_agent.Progress.{ProgressDecision, note_workspace_change, note_user_answer}
use tricoder_agent.State.{AgentRunState, ToolBatchStop}
use tricoder_agent.Batch.{
  ToolAction, ToolResult, BatchError, announcement_failed, tool_failed, delivery_failed,
  progress_log_failed, ask_user, finish_tool, skipped_result, question_limit, interrupted_result,
  interrupt, is_cancelled_error, reported_effects, effects_with, owned_check, record_effects,
  record_check,
}
use tricoder_agent.Batch.Progressing.{
  Progressed, decided, scan_cancelled, observe_progress, progress_feedback, is_recoverable,
}
use tricoder_agent.Batch.Calls.{
  Host, Reply, replied, broken_off, raised, Call, BatchState, ToolBatchOutcome, stopped, told,
  is_stop, is_continue, is_clarified_stop, id_of, known_ids, is_clarified, needs_input,
  counts_question, finish_outcome_of, log_skips,
}

module _ {Message : Type 0} (host : Host Message) where
  abbrev pub Step : Type 0 → Type 0
  Step = Exec (BatchState Message) BatchError

  abbrev pub with_agent : BatchState Message → AgentRunState → BatchState Message
  with_agent b agent = record b { agent = agent }

  -- `_with_reason`.
  unfoldable pub with_reason : ToolAction → ToolAction
  with_reason a =
      let reason : Text = elim (host.describe a.tool) [ none ↦ codes "请求执行未注册的工具。" | some d ↦ d ] in
      if is_nil a.reason then record a { reason = reason } else a

  -- The messages of the calls that are skipped.
  unfoldable pub skips : ToolResult → List Call → List Message
  skips skipped calls = map (λ (c : Call). host.message c.action skipped c.call_id) calls

  -- `fill_remaining_results` without the notifications, for the id of the call that blocks the others.
  unfoldable pub append_skips : List Text → Text → List Call → Step (Unit {0})
  unfolding skips
  append_skips known blocked_by calls = do
    skipped ← lift (skipped_result host.show blocked_by known)
    modify (λ b. record b { messages = b.messages ++ skips skipped calls })

  unfoldable pub fill_remaining_results : List Text → Text → List Call → Step Bool
  unfolding append_skips
  fill_remaining_results known blocked_by calls = do
    append_skips known blocked_by calls
    lift (log_skips calls)

  -- The reply of the tool, and what is written if a cancellation interrupts it.
  abbrev pub reply_of : Call → Reply → Step (ToolResult × Bool)
  reply_of c (replied r) = pure (r, false)
  reply_of c (broken_off cleanup_failed) =
      modify (λ b. with_agent b (interrupt b.agent c.observation cleanup_failed))
      >> pure (interrupted_result cleanup_failed, true)
  reply_of c raised = raise tool_failed

  unfoldable pub ask_tool : Call → Step (ToolResult × Bool)
  ask_tool c = do
    requests ← read (λ b. b.agent.clarification_requests)
    if c.action.tool == ask_user && leb 2 requests
        then pure (question_limit, false)
        else reply_of c c.reply

  -- `_apply_result`, with the effects.
  unfoldable pub apply_result : Call → ToolResult → Bool → Step FileEffects
  apply_result c r interrupted = do
    reported ← lift (reported_effects host.printable r)
    let effects = effects_with c.scope c.observation reported
    modify (λ b. with_agent b (record_effects b.agent interrupted c.action r c.scope effects))
    agent ← read (λ b. b.agent)
    checked ← lift (record_check agent (owned_check c.scope c.action r))
    modify (λ b. with_agent b checked)
    pure effects

  -- One call up to its message: the result, the effects, and whether it was interrupted.
  unfoldable pub perform : Call → Step (ToolResult × FileEffects × Bool)
  unfolding ask_tool apply_result with_reason
  perform c = do
    raise_when (not c.announced) announcement_failed
    modify (λ b.
        with_agent b
          (record b.agent { tool_calls = b.agent.tool_calls + 1; file_effects_observed = false }))
    (r, interrupted) ← ask_tool c
    modify (λ b. with_agent b (record b.agent {
      clarification_requests =
          if counts_question c.action r
          then b.agent.clarification_requests + 1
          else b.agent.clarification_requests;
    }))
    effects ← apply_result c r interrupted
    modify (λ b. with_agent b (record b.agent {
      progress =
          if r.ok
            && not interrupted
            && is_confirmed effects.state
            && (not (is_nil effects.paths) || not (is_nil effects.directory_paths))
          then note_workspace_change b.agent.progress
          else b.agent.progress;
    }))
    modify (λ b. record b {
      messages = b.messages ++ host.message (with_reason c.action) r c.call_id ∷ [];
    })
    pure (r, effects, interrupted)

  -- A step whose exception is dropped; what it wrote stays.
  abbrev pub quietly : Step (Unit {0}) → Step (Unit {0})
  quietly m b = (ok tt, (m b).1)

  -- The observer's, the event sink's and the log's answer to a result.
  unfoldable pub deliver : List Text → Text → List Call → Call → Step Bool
  unfolding append_skips
  deliver known blocked_by rest c = elim c.logged [
    | some logged ↦ pure logged
    | none ↦ quietly (append_skips known blocked_by rest) >> raise delivery_failed
  ]

  abbrev pub is_cancelled_call : Call → ToolResult → Bool → Bool
  is_cancelled_call c r interrupted = interrupted || c.cancelled_after || is_cancelled_error r

  -- The test before which the other calls are skipped.
  abbrev pub ends_batch : Call → ToolResult → FileEffects → Bool → Bool → Bool
  ends_batch c r effects interrupted logged =
      not r.ok
      || should_stop_task r.error effects
      || (c.action.tool == finish_tool && r.ok)
      || is_clarified c.action r
      || needs_input c.action r
      || is_cancelled_call c r interrupted
      || not logged

  -- Fills the other results if they are not filled, unless the test fails; `audit_ok` before and after.
  unfoldable pub fill_if : Bool → List Text → Text → List Call → Step Bool
  unfolding fill_remaining_results
  fill_if test known blocked_by rest =
      if test then fill_remaining_results known blocked_by rest else pure true

  -- The outcome after the results are delivered, if the batch ends there.
  unfoldable pub stop_of :
      AgentRunState → Call → ToolResult → FileEffects → Bool → Bool → Option ToolBatchOutcome
  stop_of agent c r effects interrupted audit_ok =
      if not audit_ok
      then some (stopped ToolBatchStop.audit_failed (some r))
      else if agent.unknown_effects
      then some (stopped ToolBatchStop.unknown_effects (some r))
      else if is_cancelled_call c r interrupted
      then some (stopped ToolBatchStop.cancelled (some r))
      else if is_clarified c.action r
      then some (stopped ToolBatchStop.clarified (some r))
      else if needs_input c.action r
      then some (stopped ToolBatchStop.needs_input (some r))
      else if should_stop_task r.error effects
      then some (stopped ToolBatchStop.fatal (some r))
      else if c.action.tool == finish_tool && r.ok
      then some (
          if finish_outcome_of c.action == codes "completed"
            || finish_outcome_of c.action == codes "incomplete"
          then record (stopped ToolBatchStop.finish (some r)) {
            finish_outcome = some (finish_outcome_of c.action);
          }
          else stopped ToolBatchStop.fatal (some r))
      else none

  -- The outcome of a call, or the feedback with which the batch goes on.
  pub data Turn : Type 0 where
    returns : ToolBatchOutcome → Turn
    goes_on : List Text → Turn

  -- The outcome of a failed call after its progress was observed.
  abbrev pub after_progress : ToolResult → List Text → Turn
  after_progress r feedback =
      if r.ok
      then goes_on feedback
      else returns (
          told (if is_recoverable r then ToolBatchStop.replan else ToolBatchStop.fatal) (some r)
            feedback)

  -- What follows the audit of a decision other than to continue: nothing catches an exception of the
  -- log.
  unfoldable pub settle_logged :
      List Text
      → Text
      → List Call
      → Call
      → ToolResult
      → Bool
      → List Text
      → ProgressDecision
      → Option Bool
      → Step Turn
  unfolding fill_if
  settle_logged known blocked_by rest c r filled feedback d none = raise progress_log_failed
  settle_logged known blocked_by rest c r filled feedback d (some logged) =
      if not logged
      then (fill_if (not filled && not (is_stop d.action)) known blocked_by rest
          >> pure (returns (stopped ToolBatchStop.audit_failed (some r))))
      else if c.cancelled_last
      then (fill_if (not filled && not (is_stop d.action)) known blocked_by rest
          >> pure (returns (stopped ToolBatchStop.cancelled (some r))))
      else if is_stop d.action
      then pure (
          returns (record {
            stop = ToolBatchStop.progress_stop;
            result = some r;
            feedback = feedback;
            progress = some d;
            finish_outcome = none;
          }))
      else pure (after_progress r (feedback ++ progress_feedback host.show d ∷ []))

  unfoldable pub settle :
      List Text
      → Text
      → List Call
      → Call
      → ToolResult
      → Bool
      → List Text
      → ProgressDecision
      → Step Turn
  unfolding settle_logged
  settle known blocked_by rest c r filled feedback d =
      settle_logged known blocked_by rest c r filled feedback d c.progress_logged

  -- What follows a decision other than to continue; a stop fills the other results first.
  unfoldable pub warn_or_stop :
      List Text
      → Text
      → List Call
      → Call
      → ToolResult
      → Bool
      → List Text
      → ProgressDecision
      → Step Turn
  unfolding fill_if settle
  warn_or_stop known blocked_by rest c r filled feedback d = do
    filled_ok ← fill_if (is_stop d.action && not filled) known blocked_by rest
    if not filled_ok
        then pure (returns (stopped ToolBatchStop.audit_failed (some r)))
        else settle known blocked_by rest c r filled feedback d

  -- What follows the observation of progress.
  unfoldable pub act_on :
      List Text → Text → List Call → Call → ToolResult → Bool → List Text → Progressed → Step Turn
  unfolding fill_if warn_or_stop
  act_on known blocked_by rest c r filled feedback (scan_cancelled cleanup_failed) = do
    modify (λ b.
        with_agent b (record b.agent { cleanup_failed = b.agent.cleanup_failed || cleanup_failed }))
    filled_ok ← fill_if (not filled) known blocked_by rest
    pure (
        returns (
          stopped (if filled_ok then ToolBatchStop.cancelled else ToolBatchStop.audit_failed)
            (some r)))
  act_on known blocked_by rest c r filled feedback (decided guard d) = do
    modify (λ b. with_agent b (record b.agent { progress = guard }))
    if c.cancelled_scanned
        then (fill_if (not filled) known blocked_by rest
            >> pure (returns (stopped ToolBatchStop.cancelled (some r))))
        else if is_continue d.action
        then pure (after_progress r feedback)
        else warn_or_stop known blocked_by rest c r filled feedback d

  -- The end of the loop's body, from the observation of progress on.
  unfoldable pub watch :
      List Text → Text → List Call → Call → ToolResult → Bool → List Text → Step Turn
  unfolding act_on observe_progress
  watch known blocked_by rest c r filled feedback = do
    guard ← read (λ b. b.agent.progress)
    progressed ← lift (
        observe_progress host.show host.show_int host.digest guard c.scope (with_reason c.action) r
          c.observed)
    act_on known blocked_by rest c r filled feedback progressed

  -- The end of a batch: an answer of the user is noted.
  unfoldable pub end_batch : ToolBatchOutcome → Step Turn
  end_batch o = do
    modify (λ b. with_agent b (
        if is_clarified_stop o.stop
        then record b.agent { progress = note_user_answer b.agent.progress }
        else b.agent))
    pure (returns o)

  -- One round of the loop in `execute`, where the task was not cancelled before.
  unfoldable pub turn : List Text → Text → List Call → Call → List Text → Step Turn
  unfolding perform deliver fill_if stop_of watch end_batch
  turn known blocked_by rest c feedback = do
    (r, effects, interrupted) ← perform c
    logged ← deliver known blocked_by rest c
    let ends = ends_batch c r effects interrupted logged
    filled_ok ← fill_if ends known blocked_by rest
    agent ← read (λ b. b.agent)
    (elim (stop_of agent c r effects interrupted (logged && filled_ok)) [
      | none ↦ watch known blocked_by rest c r ends feedback
      | some o ↦ end_batch o
    ])

  -- The loop, with the ids of all calls, the number of the round and the index of the next call.
  unfoldable pub execute_from : List Text → ℕ → ℕ → List Text → List Call → Step ToolBatchOutcome
  unfolding turn fill_remaining_results
  execute_from known round index feedback [] = pure (told ToolBatchStop.continue none feedback)
  execute_from known round index feedback (c ∷ calls) =
      let id = id_of host.show round index c.call_id in
      if c.cancelled_before
      then (fill_remaining_results known id (c ∷ calls)
          >> pure (stopped ToolBatchStop.cancelled none))
      else (turn known id calls c feedback >>= λ t. elim t [
        | returns o ↦ pure o
        | goes_on more ↦ execute_from known round (suc index) more calls
      ])

  -- `execute` of a batch's calls in a round.
  unfoldable pub execute : ℕ → List Call → Step ToolBatchOutcome
  unfolding execute_from known_ids
  execute round calls = execute_from (known_ids host.show round 0 calls) round 0 [] calls
