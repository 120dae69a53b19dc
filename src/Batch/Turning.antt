-- ===== src/Batch/Turning.antt =====
-- engine/tool_batch.py: what follows a call's result in the executor's loop.
use mathlib.Core.List.{append-nil}
use tricoder_agent.Base.{
  List, [], ◌∷◌, ◌≡◌, ◌⊎◌, refl, sym, subst, Bool, true, false, not, ◌&&◌, ◌||◌, Option, none, some,
  Result, err-ne-ok, err_injective, ok, err, if◌then◌else◌, any, is_nil, contains, Text, arith,
  Bool-cases, ◌==◌, nat_eq, list_eq, inl, inr,
}
use tricoder_agent.Base.Exec.{pure}
use tricoder_agent.State.{AgentRunState, ToolBatchStop}
use tricoder_agent.Effects.{FileEffects, has_repeats}
use tricoder_agent.Batch.{ToolAction, ToolResult, BatchError, progress_refused, constructed}
use tricoder_agent.Progress.{ProgressDecision}
use tricoder_agent.Batch.Progressing.{Progressed, decided, scan_cancelled, observe_progress}
use tricoder_agent.Batch.Calls.{
  Host, Call, BatchState, ToolBatchOutcome, stopped, is_stop, is_continue, is_clarified,
  needs_input,
}
use tricoder_agent.Batch.Execute.{
  with_reason, is_cancelled_call, ends_batch, fill_if, stop_of, Turn, returns, after_progress,
  settle, settle_logged, warn_or_stop, act_on, watch,
}
use tricoder_agent.Batch.Rules.{Ensures, bind-Ensures, lift-Ensures, test-Ensures}
use tricoder_agent.Progress.{
  ProgressGuard, ProgressObservation, ProgressError, validate_observation, go_on, observe,
}
use tricoder_agent.Evidence.{VerificationScope}
use tricoder_agent.Batch.Progressing.{Observed, observes, observation_of, decided_by}
use tricoder_agent.Batch.{finish_tool, constructed, is_cancelled_error}
use tricoder_agent.Effects.{is_unknown, should_stop_task}
use tricoder_agent.Batch.Answering.{Answered, Begun, Held, Known, Fails, TurnEnds}
use tricoder_agent.Batch.Filling.{fill_if-Filled, Filled, returned, returned_after}

module _ {Message : Type 0} (host : Host Message) where
  observe_progress-err :
      (g : ProgressGuard) (scope : Option VerificationScope) (a : ToolAction) (r : ToolResult)
      (w : Observed) (x : BatchError)
      → observe_progress host.show host.show_int host.digest g scope a r w ≡ err x
      → x ≡ progress_refused
  unfolding observe_progress
  observe_progress-err g scope a r w x e = elim (Bool-cases (not (observes scope a r w))) [
    | inl quiet ↦ absurd (err-ne-ok (sym (rw quiet at e)))
    | inr seen ↦ of_scan w.broken_off (rw seen at e)
  ]
    where
      o : ProgressObservation
      o = observation_of host.show_int scope a r w

      of_valid :
          (v : Result ProgressError (Unit {0}))
          → elim (constructed progress_refused v) [
            | err y ↦ err y
            | ok u ↦ ok (decided_by (observe host.digest host.show g o))
          ]
            ≡ err x
          → x ≡ progress_refused
      of_valid (ok u) f = absurd (err-ne-ok (sym f))
      of_valid (err y) f = sym (err_injective f)

      of_scan :
          (q : Option Bool)
          → elim q [
            | some cleanup_failed ↦ ok (scan_cancelled cleanup_failed)
            | none ↦
                if w.cancelled
                then ok (decided g go_on)
                else (elim (constructed progress_refused (validate_observation o)) [
                  | err y ↦ err y
                  | ok u ↦ ok (decided_by (observe host.digest host.show g o))
                ])
          ]
            ≡ err x
          → x ≡ progress_refused
      of_scan (some cleanup_failed) f = absurd (err-ne-ok (sym f))
      of_scan none f = elim (Bool-cases w.cancelled) [
        | inl t ↦ absurd (err-ne-ok (sym (rw t at f)))
        | inr t ↦ of_valid (validate_observation o) (rw t at f)
      ]

  pub stop_of-none :
      (agent : AgentRunState) (c : Call) (r : ToolResult) (effects : FileEffects)
      (interrupted logged b : Bool)
      → stop_of host agent c r effects interrupted (logged && b) ≡ none
      → (agent.unknown_effects ≡ false)
        × (ends_batch host c r effects interrupted logged ≡ not r.ok)
  unfolding stop_of
  stop_of-none agent c r effects interrupted logged b e =
      flags (logged && b) logged b agent.unknown_effects (is_cancelled_call host c r interrupted)
        (is_clarified c.action r) (needs_input c.action r) (should_stop_task r.error effects)
        (c.action.tool == finish_tool && r.ok) r.ok _ _ _ _ _ _ _ refl e
    where
      flags :
          (audit logged b u k cl n st f good : Bool) (x1 x2 x3 x4 x5 x6 x7 : ToolBatchOutcome)
          → audit ≡ (logged && b)
          → (if not audit
              then some x1
              else if u
              then some x2
              else if k
              then some x3
              else if cl
              then some x4
              else if n
              then some x5
              else if st
              then some x6
              else if f
              then some x7
              else none)
            ≡ none
          → (u ≡ false) × ((not good || st || f || cl || n || k || not logged) ≡ not good)
      flags audit logged b u k cl n st f good x1 x2 x3 x4 x5 x6 x7 q e = ground arith

  pub stop_of-some :
      (agent : AgentRunState) (c : Call) (r : ToolResult) (effects : FileEffects)
      (interrupted logged b : Bool) (o : ToolBatchOutcome)
      → stop_of host agent c r effects interrupted (logged && b) ≡ some o
      → ((agent.unknown_effects ≡ false) ⊎ ((interrupted || is_unknown effects.state) ≡ true))
      → ((b ≡ true) ⊎ (ends_batch host c r effects interrupted logged ≡ true))
      → ends_batch host c r effects interrupted logged ≡ true
  unfolding stop_of should_stop_task
  stop_of-some agent c r effects interrupted logged b o e u l =
      flags (logged && b) logged b agent.unknown_effects interrupted
        (c.cancelled_after || is_cancelled_error r) (is_cancelled_call host c r interrupted)
        (is_clarified c.action r) (needs_input c.action r) (is_unknown effects.state)
        (should_stop_task r.error effects) (c.action.tool == finish_tool && r.ok) r.ok _ _ _ _ _ _ _
        refl (λ t. ground arith) (λ t. ground arith) e u l
    where
      flags :
          (audit logged b u i j k cl n v st f good : Bool) (x1 x2 x3 x4 x5 x6 x7 : ToolBatchOutcome)
          → audit ≡ (logged && b)
          → (i ≡ true → k ≡ true)
          → (v ≡ true → st ≡ true)
          → (if not audit
              then some x1
              else if u
              then some x2
              else if k
              then some x3
              else if cl
              then some x4
              else if n
              then some x5
              else if st
              then some x6
              else if f
              then some x7
              else none)
            ≡ some o
          → ((u ≡ false) ⊎ ((i || v) ≡ true))
          → ((b ≡ true) ⊎ ((not good || st || f || cl || n || k || not logged) ≡ true))
          → (not good || st || f || cl || n || k || not logged) ≡ true
      flags audit logged b u i j k cl n v st f good x1 x2 x3 x4 x5 x6 x7 q ik vs e h l =
          ground arith

  module _ (known : List Text) (named : any is_nil known ≡ false)
      (unique : has_repeats known ≡ false) (id : Text) (there : contains known id ≡ true) (c : Call)
      (rest : List Call) (before : BatchState Message) where
    abbrev part : Bool → List Call
    part filled = if filled then c ∷ rest else c ∷ []

    abbrev R : BatchError → BatchState Message → Type 0
    R = Fails host (c ∷ rest) before

    abbrev T : Turn host → BatchState Message → Type 0
    T = TurnEnds host c rest before

    after_progress-TurnEnds :
        (r : ToolResult) (feedback : List Text) (s : BatchState Message)
        → Held host (Known host) (part (not r.ok)) before s
        → T (after_progress host r feedback) s
    after_progress-TurnEnds r feedback s a = elim (Bool-cases r.ok) [
      | inl e ↦ rw e (rw e at a)
      | inr e ↦ rw e ((rw e at a).0)
    ]

    part-Begun :
        (filled : Bool) (s : BatchState Message)
        → Answered host (part filled) before s
        → Begun host (c ∷ rest) before s
    part-Begun true s a = (c ∷ rest, [], sym (append-nil (c ∷ rest)), a)
    part-Begun false s a = (c ∷ [], rest, refl, a)

    settle_logged-TurnEnds :
        (r : ToolResult) (feedback : List Text) (d : ProgressDecision) (s : BatchState Message)
        (o : Option Bool)
        → Held host (Known host) (part (not r.ok || is_stop d.action)) before s
        → Ensures T R (settle_logged host known id rest c r (not r.ok) feedback d o s)
    unfolding settle_logged
    settle_logged-TurnEnds r feedback d s none a = part-Begun (not r.ok || is_stop d.action) s a.0
    settle_logged-TurnEnds r feedback d s (some false) a =
        returned_after host known named unique (Known host) id there c rest before
          (is_stop d.action) (not r.ok) (λ b. stopped ToolBatchStop.audit_failed (some r)) s a
    settle_logged-TurnEnds r feedback d s (some true) a =
        test-Ensures R T c.cancelled_last _ _ s
          (λ f.
            returned_after host known named unique (Known host) id there c rest before
              (is_stop d.action) (not r.ok) (λ b. stopped ToolBatchStop.cancelled (some r)) s a)
          (λ f. elim (Bool-cases (is_stop d.action)) [
            | inl g ↦
                let full : (not r.ok || is_stop d.action) ≡ true = ground arith in
                rw g ((subst (λ x. Held host (Known host) (part x) before s) full a).0)
            | inr g ↦
                let same : (not r.ok || is_stop d.action) ≡ not r.ok = ground arith in
                rw g (
                  after_progress-TurnEnds r _ s
                    (subst (λ x. Held host (Known host) (part x) before s) same a))
          ])

    settle-TurnEnds :
        (r : ToolResult) (feedback : List Text) (d : ProgressDecision) (s : BatchState Message)
        → Held host (Known host) (part (not r.ok || is_stop d.action)) before s
        → Ensures T R (settle host known id rest c r (not r.ok) feedback d s)
    unfolding settle
    settle-TurnEnds r feedback d s a = settle_logged-TurnEnds r feedback d s c.progress_logged a

    warn_or_stop-TurnEnds :
        (r : ToolResult) (feedback : List Text) (d : ProgressDecision) (s : BatchState Message)
        → Held host (Known host) (part (not r.ok)) before s
        → Ensures T R (warn_or_stop host known id rest c r (not r.ok) feedback d s)
    unfolding warn_or_stop
    warn_or_stop-TurnEnds r feedback d s a =
        bind-Ensures R
          (Filled host known named unique (Known host) id there c rest before
            (not r.ok || is_stop d.action))
          T (fill_if host (is_stop d.action && not (not r.ok)) known id rest s) _
          (fill_if-Filled host known named unique (Known host) id there c rest before
            (is_stop d.action) (not r.ok) s a)
          (λ b t done. decided_branch b t done)
      where
        whole :
            (full : Bool) (t : BatchState Message)
            → full ≡ true
            → Held host (Known host) (part full) before t
            → Answered host (c ∷ rest) before t
        whole full t e x = (subst (λ f. Held host (Known host) (part f) before t) e x).0

        decided_branch :
            (b : Bool) (t : BatchState Message)
            → Filled host known named unique
                (Known host)
                id
                there
                c
                rest
                before
                (not r.ok || is_stop d.action)
                b
                t
            → Ensures T R (
                (if not b
                    then pure (returns (stopped ToolBatchStop.audit_failed (some r)))
                    else settle host known id rest c r (not r.ok) feedback d)
                  t)
        decided_branch false t (x, inl e) = absurd cc
        decided_branch false t (x, inr e) = whole (not r.ok || is_stop d.action) t e x
        decided_branch true t done = settle-TurnEnds r feedback d t done.0

    full_or : (filled : Bool) → (filled || true) ≡ true
    full_or filled = ground arith

    act_on-TurnEnds :
        (r : ToolResult) (feedback : List Text) (progressed : Progressed) (s : BatchState Message)
        → Held host (Known host) (part (not r.ok)) before s
        → Ensures T R (act_on host known id rest c r (not r.ok) feedback progressed s)
    unfolding act_on
    act_on-TurnEnds r feedback (scan_cancelled cleanup_failed) s a =
        returned host known named unique (Known host) id there c rest before true (not r.ok)
          (λ filled_ok.
            stopped (if filled_ok then ToolBatchStop.cancelled else ToolBatchStop.audit_failed)
              (some r))
          _ (full_or (not r.ok)) a
    act_on-TurnEnds r feedback (decided guard d) s a =
        test-Ensures R T c.cancelled_scanned _ _ _
          (λ e.
            returned host known named unique (Known host) id there c rest before true (not r.ok)
              (λ b. stopped ToolBatchStop.cancelled (some r)) _ (full_or (not r.ok)) a)
          (λ e. elim (Bool-cases (is_continue d.action)) [
            | inl f ↦ rw f (after_progress-TurnEnds r feedback _ a)
            | inr f ↦ rw f (warn_or_stop-TurnEnds r feedback d _ a)
          ])

    pub watch-TurnEnds :
        (r : ToolResult) (feedback : List Text) (s : BatchState Message)
        → Held host (Known host) (part (not r.ok)) before s
        → Ensures T R (watch host known id rest c r (not r.ok) feedback s)
    unfolding watch
    watch-TurnEnds r feedback s a =
        lift-Ensures R T
          (observe_progress host.show host.show_int host.digest s.agent.progress c.scope
            (with_reason host c.action) r c.observed)
          s _
          (λ x e.
            subst (λ y. R y s)
              (sym (
                observe_progress-err s.agent.progress c.scope (with_reason host c.action) r
                  c.observed x e))
              (part-Begun (not r.ok) s a.0))
          (λ progressed e. act_on-TurnEnds r feedback progressed s a)
