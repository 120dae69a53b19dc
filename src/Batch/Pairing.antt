-- ===== src/Batch/Pairing.antt =====
-- engine/tool_batch.py: each call of a batch is answered by one message, in order, whether it was
-- performed or skipped.
use mathlib.Core.List.{append_assoc, append-nil}
use tricoder_agent.Base.{
  ℕ, suc, List, [], ◌∷◌, ◌++◌, ◌≡◌, ◌⊎◌, refl, sym, ap, subst, ◌∙◌, Bool, true, false, not, ◌&&◌,
  ◌||◌, Option, none, some, Result, ok, err, if◌then◌else◌, any, is_nil, contains, Text, All,
  Bool-cases, nat_eq, list_eq, All-intro, contains_iff, inl, inr,
}
use tricoder_agent.Base.Exec.{pure, ◌>>◌}
use tricoder_agent.State.{AgentRunState, ToolBatchStop}
use tricoder_agent.Effects.{FileEffects, has_repeats}
use tricoder_agent.Batch.{
  ToolResult, BatchError, skip_invalid, announcement_failed, tool_failed, delivery_failed,
  progress_log_failed, effects_refused, check_refused, progress_refused,
}
use tricoder_agent.Batch.Calls.{
  Host, Call, BatchState, ToolBatchOutcome, stopped, id_of, known_ids, log_skips,
}
use tricoder_agent.Batch.Execute.{
  Step, append_skips, fill_remaining_results, perform, deliver, ends_batch, fill_if, stop_of, Turn,
  returns, goes_on, watch, end_batch, turn, execute_from, execute,
}
use tricoder_agent.Batch.Rules.{Ensures, bind-Ensures, test-Ensures}
use tricoder_agent.Effects.{is_unknown}
use tricoder_agent.Batch.Answering.{Answered, Begun, Held, Known, Fails, TurnEnds}
use tricoder_agent.Batch.Performing.{Performed, perform-Performed}
use tricoder_agent.Batch.Filling.{
  append_skips-Answered, fill_if-Filled, Filled, deliver-Answered, log_skips-Fails,
}
use tricoder_agent.Batch.Turning.{stop_of-none, stop_of-some, watch-TurnEnds}

module _ {Message : Type 0} (host : Host Message) where
  module _ (known : List Text) (named : any is_nil known ≡ false)
      (unique : has_repeats known ≡ false) (id : Text) (there : contains known id ≡ true) (c : Call)
      (rest : List Call) (before : BatchState Message) where
    abbrev part : Bool → List Call
    part filled = if filled then c ∷ rest else c ∷ []

    abbrev R : BatchError → BatchState Message → Type 0
    R = Fails host (c ∷ rest) before

    abbrev T : Turn host → BatchState Message → Type 0
    T = TurnEnds host c rest before

    module _ (r : ToolResult) (effects : FileEffects) (interrupted logged : Bool)
        (feedback : List Text) where
      abbrev ends : Bool
      ends = ends_batch host c r effects interrupted logged

      abbrev U : AgentRunState → Type 0
      U agent = Known host agent ⊎ ((interrupted || is_unknown effects.state) ≡ true)

      fill_first :
          (test : Bool) (s : BatchState Message)
          → Held host U (c ∷ []) before s
          → Ensures
              (Filled host known named unique U id there c rest before test)
              R
              (fill_if host test known id rest s)
      unfolding fill_if
      fill_first true s a =
          fill_if-Filled host known named unique U id there c rest before true false s a
      fill_first false s a = (a, inl refl)

      ended :
          (b : Bool) (s : BatchState Message) (o : Option ToolBatchOutcome)
          → stop_of host s.agent c r effects interrupted (logged && b) ≡ o
          → Filled host known named unique U id there c rest before ends b s
          → Ensures T R (
              (elim o as (λ x. Step host (Turn host)) [
                | none ↦ watch host known id rest c r ends feedback
                | some out ↦ end_batch host out
              ])
                s)
      unfolding end_batch
      ended b s none e f =
          let (clear, same) = stop_of-none host s.agent c r effects interrupted logged b e in
          let held : Held host (Known host) (part (not r.ok)) before s =
            subst (λ x. Held host (Known host) (part x) before s) same (f.0.0, clear) in
          subst (λ x. Ensures T R (watch host known id rest c r x feedback s)) (sym same)
            (watch-TurnEnds host known named unique id there c rest before r feedback s held)
      ended b s (some out) e f =
          let full = stop_of-some host s.agent c r effects interrupted logged b out e f.0.1 f.1 in
          (subst (λ x. Held host U (part x) before s) full f.0).0

    cancelled_first :
        Ensures
          (λ b after. Answered host (c ∷ rest) before after)
          R
          (fill_remaining_results host known id (c ∷ rest) before)
    unfolding fill_remaining_results
    cancelled_first =
        bind-Ensures R (λ u after. Held host (λ agent. Unit {0}) (c ∷ rest) before after)
          (λ b after. Answered host (c ∷ rest) before after)
          (append_skips host known id (c ∷ rest) before) _
          (append_skips-Answered host known named unique (λ agent. Unit {0}) R id [] (c ∷ rest)
            before before there (([], sym (append-nil before.messages), tt), tt))
          (λ u after done. of_logs (log_skips (c ∷ rest)) after done.0 (
            log_skips-Fails host known named unique (λ agent. Unit {0}) id there c rest before
              (c ∷ rest) after done.0))
      where
        of_logs :
            (l : Result BatchError Bool) (after : BatchState Message)
            → Answered host (c ∷ rest) before after
            → ((x : BatchError) → l ≡ err x → R x after)
            → Ensures (λ b end. Answered host (c ∷ rest) before end) R (l, after)
        of_logs (ok b) after done f = done
        of_logs (err x) after done f = f x refl

    turn-TurnEnds :
        (feedback : List Text)
        → before.agent.unknown_effects ≡ false
        → Ensures T R (turn host known id rest c feedback before)
    unfolding turn
    turn-TurnEnds feedback k =
        bind-Ensures R (Performed host c before) T (perform host c before) _
          (perform-Performed host rest before c k)
          (λ (r, effects, interrupted) s p.
            bind-Ensures R
              (λ b after. Held host (U r effects interrupted false feedback) (c ∷ []) before after)
              T (deliver host known id rest c s) _
              (deliver-Answered host known named unique (U r effects interrupted false feedback) id
                there c rest before s p)
              (λ logged t a.
                bind-Ensures R
                  (Filled host known named unique (U r effects interrupted false feedback) id there
                    c rest before (ends r effects interrupted logged feedback))
                  T (fill_if host (ends r effects interrupted logged feedback) known id rest t) _
                  (fill_first r effects interrupted logged feedback
                    (ends r effects interrupted logged feedback) t a)
                  (λ b v f. ended r effects interrupted logged feedback b v _ refl f)))

  Answered-trans :
      (c : Call) (calls : List Call) (before middle after : BatchState Message)
      → Answered host (c ∷ []) before middle
      → Answered host calls middle after
      → Answered host (c ∷ calls) before after
  Answered-trans c calls before middle after ([], same, a) more = absurd a
  Answered-trans c calls before middle after (m ∷ n ∷ ms, same, a) more = absurd (a.1)
  Answered-trans c calls before middle after (m ∷ [], same, a) (ms, same', answers) = (
    m ∷ ms,
    same' ∙ ap (λ xs. xs ++ ms) same ∙ append_assoc before.messages (m ∷ []) ms,
    (a.0, answers),
  )

  Begun-trans :
      (c : Call) (calls : List Call) (before middle after : BatchState Message)
      → Answered host (c ∷ []) before middle
      → Begun host calls middle after
      → Begun host (c ∷ calls) before after
  Begun-trans c calls before middle after a (first, left, e, more) =
      (c ∷ first, left, ap (λ cs. c ∷ cs) e, Answered-trans c first before middle after a more)

  Ensures-trans :
      (c : Call) (calls : List Call) (before middle : BatchState Message)
      (m : Result BatchError ToolBatchOutcome × BatchState Message)
      → Answered host (c ∷ []) before middle
      → Ensures (λ o after. Answered host calls middle after) (Fails host calls middle) m
      → Ensures
          (λ o after. Answered host (c ∷ calls) before after)
          (Fails host (c ∷ calls) before)
          m
  Ensures-trans c calls before middle (ok o, after) a more =
      Answered-trans c calls before middle after a more
  Ensures-trans c calls before middle (err delivery_failed, after) a more =
      Answered-trans c calls before middle after a more
  Ensures-trans c calls before middle (err skip_invalid, after) a more = more
  Ensures-trans c calls before middle (err announcement_failed, after) a more =
      Begun-trans c calls before middle after a more
  Ensures-trans c calls before middle (err tool_failed, after) a more =
      Begun-trans c calls before middle after a more
  Ensures-trans c calls before middle (err progress_log_failed, after) a more =
      Begun-trans c calls before middle after a more
  Ensures-trans c calls before middle (err effects_refused, after) a more =
      Begun-trans c calls before middle after a more
  Ensures-trans c calls before middle (err check_refused, after) a more =
      Begun-trans c calls before middle after a more
  Ensures-trans c calls before middle (err progress_refused, after) a more =
      Begun-trans c calls before middle after a more

  module _ (known : List Text) (named : any is_nil known ≡ false)
      (unique : has_repeats known ≡ false) (round : ℕ) where
    execute_from-Answered :
        (index : ℕ) (feedback : List Text) (calls : List Call) (before : BatchState Message)
        → All (λ id. contains known id ≡ true) (known_ids host.show round index calls)
        → before.agent.unknown_effects ≡ false
        → Ensures
            (λ o after. Answered host calls before after)
            (Fails host calls before)
            (execute_from host known round index feedback calls before)
    unfolding execute_from known_ids
    execute_from-Answered index feedback [] before there k =
        ([], sym (append-nil before.messages), tt)
    execute_from-Answered index feedback (c ∷ calls) before there k =
        let id = id_of host.show round index c.call_id in
        test-Ensures (Fails host (c ∷ calls) before)
          (λ o after. Answered host (c ∷ calls) before after) c.cancelled_before
          (fill_remaining_results host known id (c ∷ calls)
            >> pure (stopped ToolBatchStop.cancelled none))
          _ before
          (λ e.
            bind-Ensures (Fails host (c ∷ calls) before)
              (λ b after. Answered host (c ∷ calls) before after)
              (λ o after. Answered host (c ∷ calls) before after)
              (fill_remaining_results host known id (c ∷ calls) before) _
              (cancelled_first known named unique id there.0 c calls before) (λ b after done. done))
          (λ e.
            bind-Ensures (Fails host (c ∷ calls) before) (TurnEnds host c calls before)
              (λ o after. Answered host (c ∷ calls) before after)
              (turn host known id calls c feedback before) _
              (turn-TurnEnds known named unique id there.0 c calls before feedback k)
              (λ t after q.
                of_turn t after q
                  (λ more u. execute_from-Answered (suc index) more calls after there.1 u)))
      where
        of_turn :
            (t : Turn host) (after : BatchState Message)
            → TurnEnds host c calls before t after
            → ((more : List Text)
                → after.agent.unknown_effects ≡ false
                → Ensures
                    (λ o end. Answered host calls after end)
                    (Fails host calls after)
                    (execute_from host known round (suc index) more calls after))
            → Ensures
                (λ o end. Answered host (c ∷ calls) before end)
                (Fails host (c ∷ calls) before)
                ((elim t as (λ x. Step host ToolBatchOutcome) [
                  | returns o ↦ pure o
                  | goes_on more ↦ execute_from host known round (suc index) more calls
                ])
                  after)
        of_turn (returns o) after q again = q
        of_turn (goes_on more) after q again =
            Ensures-trans c calls before after _ q.0 (again more q.1)

  known_ids-named :
      (round index : ℕ) (calls : List Call)
      → any is_nil (known_ids host.show round index calls) ≡ false
  unfolding any known_ids
  known_ids-named round index [] = refl
  known_ids-named round index (c ∷ calls) =
      rw (id_of-named c.call_id) (known_ids-named round (suc index) calls)
    where
      id_of-named : (o : Option Text) → is_nil (id_of host.show round index o) ≡ false
      id_of-named none = refl
      id_of-named (some id) = elim (Bool-cases (is_nil id)) [ inl e ↦ rw e refl | inr e ↦ rw e e ]

  -- Every outcome of a batch, for a state without unknown effects and calls of different ids: the messages
  -- that were appended are one for each call, in order, each the protocol's message of a result for that
  -- call. It is the same if the observer, the event sink or the log raised on a result, of a call or of a
  -- skipped one. If any other exception leaves the executor, of the events before a call, of a tool, of
  -- the log of a decision on progress, or of a constructor that refuses a result, then the messages
  -- answer the first calls of the batch in this way, perhaps not all of them and perhaps none. An
  -- exception for calls that cannot be skipped does not occur.
  pub execute-Answered :
      (round : ℕ) (calls : List Call) (before : BatchState Message)
      → has_repeats (known_ids host.show round 0 calls) ≡ false
      → before.agent.unknown_effects ≡ false
      → Ensures
          (λ o after. Answered host calls before after)
          (Fails host calls before)
          (execute host round calls before)
  unfolding execute
  execute-Answered round calls before unique k =
      let known = known_ids host.show round 0 calls in
      execute_from-Answered known (known_ids-named round 0 calls) unique round 0 [] calls before
        (All-intro known (λ id m. (contains_iff known id).1 m)) k
