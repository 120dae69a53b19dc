-- ===== src/Batch/Performing.antt =====
-- engine/tool_batch.py: a call that is performed is answered.
use tricoder_agent.Base.{
  List, [], ◌∷◌, ◌++◌, ◌≡◌, ◌⊎◌, refl, sym, ap, subst, ◌∙◌, Bool, true, false, not, ◌&&◌, ◌||◌,
  Option, none, some, Result, ok_injective, err-ne-ok, err_injective, ok, err, if◌then◌else◌,
  is_nil, arith, Bool-cases, ◌==◌, nat_eq, list_eq, leb, inl, inr,
}
use tricoder_agent.Base.Exec.{pure}
use tricoder_agent.Checks.{CommandCheckRecord}
use tricoder_agent.Checks.Tracker.{TaskValidationTracker, TrackerError, observe}
use tricoder_agent.State.{AgentRunState, take_up, execution_context}
use tricoder_agent.Observation.{apply_tool_transition}
use tricoder_agent.Evidence.{VerificationScope}
use tricoder_agent.Effects
use tricoder_agent.Effects.{
  FileEffects, nothing, confirmed, make_file_effects, is_unknown, has_repeats,
}
use tricoder_agent.Batch.{
  ToolAction, ToolResult, BatchError, announcement_failed, effects_refused, check_refused,
  question_limit, ask_user, record_effects, effects_with, reported_effects, changed_paths,
  constructed, record_check, owned_check,
}
use tricoder_agent.Batch.Calls.{Host, Reply, replied, broken_off, raised, Call, BatchState}
use tricoder_agent.Batch.Execute.{
  with_reason, reply_of, with_agent, ask_tool, apply_result, perform,
}
use tricoder_agent.Batch.Rules.{Ensures, bind-Ensures, lift-Ensures, raise-Ensures, test-Ensures}
use tricoder_agent.Batch.Answering.{Held, Known, Fails, unanswered}

module _ {Message : Type 0} (host : Host Message) where
  with_reason-tool : (a : ToolAction) → (with_reason host a).tool ≡ a.tool
  unfolding with_reason
  with_reason-tool a = elim (Bool-cases (is_nil a.reason)) [ inl e ↦ rw e refl | inr e ↦ rw e refl ]

  constructed_err :
      {E A : Type 0} (y x : BatchError) (r : Result E A) → constructed y r ≡ err x → x ≡ y
  constructed_err y x (ok a) e = absurd cc
  constructed_err y x (err z) e = sym (err_injective e)

  reported_effects-err :
      (r : ToolResult) (x : BatchError)
      → reported_effects host.printable r ≡ err x
      → x ≡ effects_refused
  unfolding reported_effects
  reported_effects-err r x e = of_effects r.file_effects e
    where
      of_effects :
          (o : Option FileEffects)
          → elim o [
            | some effects ↦ ok effects
            | none ↦ constructed effects_refused (
                make_file_effects host.printable
                  (if is_nil (changed_paths r) then nothing else confirmed)
                  (changed_paths r)
                  [])
          ]
            ≡ err x
          → x ≡ effects_refused
      of_effects none f = constructed_err effects_refused x _ f
      of_effects (some effects) f = absurd cc

  record_check-err :
      (state : AgentRunState) (o : Option CommandCheckRecord) (x : BatchError)
      → record_check state o ≡ err x
      → x ≡ check_refused
  unfolding record_check
  record_check-err state none x e = absurd cc
  record_check-err state (some check) x e = of_result (observe state.validation check) e
    where
      of_result :
          (r : Result TrackerError TaskValidationTracker)
          → elim (constructed check_refused r) [
            | err y ↦ err y
            | ok validation ↦ ok (record state { validation = validation })
          ]
            ≡ err x
          → x ≡ check_refused
      of_result (ok t) f = absurd cc
      of_result (err z) f = sym (err_injective f)

  record_check-unknown :
      (state next : AgentRunState) (o : Option CommandCheckRecord)
      → record_check state o ≡ ok next
      → next.unknown_effects ≡ state.unknown_effects
  unfolding record_check
  record_check-unknown state next none e =
      sym (ap (λ (a : AgentRunState). a.unknown_effects) (ok_injective e))
  record_check-unknown state next (some check) e = of_result (observe state.validation check) e
    where
      of_result :
          (r : Result TrackerError TaskValidationTracker)
          → elim (constructed check_refused r) [
            | err y ↦ err y
            | ok validation ↦ ok (record state { validation = validation })
          ]
            ≡ ok next
          → next.unknown_effects ≡ state.unknown_effects
      of_result (ok t) f = sym (ap (λ (a : AgentRunState). a.unknown_effects) (ok_injective f))
      of_result (err z) f = absurd (err-ne-ok f)

  record_effects-unknown :
      (state : AgentRunState) (interrupted : Bool) (a : ToolAction) (r : ToolResult)
      (scope : Option VerificationScope) (effects : FileEffects)
      → (record_effects state interrupted a r scope effects).unknown_effects
        ≡ (state.unknown_effects || is_unknown effects.state)
  unfolding record_effects take_up apply_tool_transition execution_context Effects.observe
  record_effects-unknown state interrupted a r scope effects = refl

  -- No message is written, and no effect is unknown or the call was interrupted.
  abbrev Asked : BatchState Message → ToolResult × Bool → BatchState Message → Type 0
  Asked before p after =
      (after.messages ≡ before.messages) × (Known host after.agent ⊎ (p.1 ≡ true))

  ask_tool-Asked :
      (calls : List Call) (before s : BatchState Message) (c : Call)
      → s.messages ≡ before.messages
      → Known host s.agent
      → Ensures (Asked before) (Fails host calls before) (ask_tool host c s)
  unfolding ask_tool
  ask_tool-Asked calls before s c e k =
      test-Ensures (Fails host calls before) (Asked before)
        (c.action.tool == ask_user && leb 2 s.agent.clarification_requests)
        (pure (question_limit, false)) (reply_of host c c.reply) s (λ t. (e, inl k))
        (λ f. of_reply c.reply)
    where
      of_reply :
          (reply : Reply)
          → Ensures (Asked before) (Fails host calls before) (reply_of host c reply s)
      of_reply (replied r) = (e, inl k)
      of_reply (broken_off cleanup_failed) = (e, inr refl)
      of_reply raised = unanswered host calls before s e

  -- No message is written, and no effect is unknown but that of the call, or it was interrupted.
  abbrev Applied : BatchState Message → Bool → FileEffects → BatchState Message → Type 0
  Applied before interrupted effects after =
      (after.messages ≡ before.messages)
      × (Known host after.agent ⊎ ((interrupted || is_unknown effects.state) ≡ true))

  apply_result-Applied :
      (calls : List Call) (before s : BatchState Message) (c : Call) (r : ToolResult)
      (interrupted : Bool)
      → s.messages ≡ before.messages
      → (Known host s.agent ⊎ (interrupted ≡ true))
      → Ensures
          (Applied before interrupted)
          (Fails host calls before)
          (apply_result host c r interrupted s)
  unfolding apply_result
  apply_result-Applied calls before s c r interrupted e k =
      lift-Ensures (Fails host calls before) (Applied before interrupted)
        (reported_effects host.printable r) s _
        (λ x f.
          subst (λ y. Fails host calls before y s) (sym (reported_effects-err r x f))
            (unanswered host calls before s e))
        (λ reported f.
          let effects = effects_with c.scope c.observation reported in
          let t : BatchState Message =
            with_agent host s (record_effects s.agent interrupted c.action r c.scope effects) in
          lift-Ensures (Fails host calls before) (Applied before interrupted)
            (record_check t.agent (owned_check c.scope c.action r)) t _
            (λ x g.
              subst (λ y. Fails host calls before y t)
                (sym (record_check-err t.agent (owned_check c.scope c.action r) x g))
                (unanswered host calls before t e))
            (λ checked g. (
              e,
              still_known s.agent.unknown_effects (is_unknown effects.state) checked.unknown_effects
                  (record_check-unknown t.agent checked (owned_check c.scope c.action r) g
                    ∙ record_effects-unknown s.agent interrupted c.action r c.scope effects)
                  k,
            )))
    where
      still_known :
          (u v w : Bool)
          → w ≡ (u || v)
          → ((u ≡ false) ⊎ (interrupted ≡ true))
          → (w ≡ false) ⊎ ((interrupted || v) ≡ true)
      still_known u v w q h = ground arith

  -- The call is answered, and an effect that is unknown is the call's, or it was interrupted.
  abbrev pub Performed :
      Call → BatchState Message → ToolResult × FileEffects × Bool → BatchState Message → Type 0
  Performed c before (r, effects, interrupted) after =
      Held host (λ agent. Known host agent ⊎ ((interrupted || is_unknown effects.state) ≡ true))
        (c ∷ []) before after

  pub perform-Performed :
      (rest : List Call) (before : BatchState Message) (c : Call)
      → Known host before.agent
      → Ensures (Performed c before) (Fails host (c ∷ rest) before) (perform host c before)
  unfolding perform
  perform-Performed rest before c k =
      raise-Ensures (Fails host (c ∷ rest) before) (Performed c before) (not c.announced)
        announcement_failed before _ (unanswered host (c ∷ rest) before before refl)
        (bind-Ensures (Fails host (c ∷ rest) before) (Asked before) (Performed c before)
          (ask_tool host c _) _ (ask_tool-Asked (c ∷ rest) before _ c refl k)
          (λ p s e.
            bind-Ensures (Fails host (c ∷ rest) before) (Applied before p.1) (Performed c before)
              (apply_result host c p.0 p.1 _) _
              (apply_result-Applied (c ∷ rest) before _ c p.0 p.1 e.0 e.1)
              (λ effects t f. (
                (
                  host.message (with_reason host c.action) p.0 c.call_id ∷ [],
                  ap (λ ms. ms ++ host.message (with_reason host c.action) p.0 c.call_id ∷ []) f.0,
                  ((with_reason host c.action, p.0, with_reason-tool c.action, refl), tt),
                ),
                f.1,
              ))))
