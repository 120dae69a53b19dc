-- ===== src/Batch/Filling.antt =====
-- engine/tool_batch.py: the messages of the calls that are skipped.
use tricoder_agent.Base.{
  List, [], ◌∷◌, ◌++◌, ◌≡◌, ◌⊎◌, refl, sym, subst, Bool, true, false, not, ◌&&◌, ◌||◌, Option, none,
  some, Result, Result-cases, err-ne-ok, err_injective, ok, err, if◌then◌else◌, any, is_nil,
  contains, Text, nat_eq, list_eq, inl, inr,
}
use tricoder_agent.Base.Exec.{proceed, pure, raise, ◌>>◌}
use tricoder_agent.State.{AgentRunState}
use tricoder_agent.Effects.{has_repeats}
use tricoder_agent.Batch.{ToolResult, BatchError, delivery_failed, skipped_result}
use tricoder_agent.Batch.Calls.{Host, Call, BatchState, ToolBatchOutcome, log_skips}
use tricoder_agent.Batch.Execute.{
  Step, quietly, skips, append_skips, fill_remaining_results, deliver, fill_if, returns,
}
use tricoder_agent.Batch.Rules.{Ensures, bind-Ensures, map-Ensures}
use tricoder_agent.Batch.Answering.{
  Answered, Held, Fails, TurnEnds, skips-AnswersAll, Answered-append,
}

module _ {Message : Type 0} (host : Host Message) where
  module _ (known : List Text) (named : any is_nil known ≡ false)
      (unique : has_repeats known ≡ false) where
    can_skip :
        (id : Text)
        → contains known id ≡ true
        → (skipped : ToolResult) × (skipped_result host.show id known ≡ ok skipped)
    unfolding skipped_result
    can_skip id there = elim (Result-cases (skipped_result host.show id known)) [
      | inl found ↦ found
      | inr (x, e) ↦ absurd (err-ne-ok (sym (rw (named, unique, there) at e)))
    ]

    pub append_skips-Answered :
        (U : AgentRunState → Type 0) (R : BatchError → BatchState Message → Type 0) (id : Text)
        (first rest : List Call) (before s : BatchState Message)
        → contains known id ≡ true
        → Held host U first before s
        → Ensures
            (λ u after. Held host U (first ++ rest) before after)
            R
            (append_skips host known id rest s)
    unfolding append_skips
    append_skips-Answered U R id first rest before s there a =
        let (skipped, e) = can_skip id there in
        rw e (
          Answered-append host first rest before s (skips host skipped rest) a.0
              (skips-AnswersAll host skipped rest),
          a.1,
        )

    module _ (U : AgentRunState → Type 0) (id : Text) (there : contains known id ≡ true) (c : Call)
        (rest : List Call) (before : BatchState Message) where
      -- The calls that are answered once the others are skipped, or not.
      abbrev part : Bool → List Call
      part filled = if filled then c ∷ rest else c ∷ []

      abbrev R : BatchError → BatchState Message → Type 0
      R = Fails host (c ∷ rest) before

      pub log_skips-Fails :
          (calls : List Call) (s : BatchState Message)
          → Answered host (c ∷ rest) before s
          → (x : BatchError) → log_skips calls ≡ err x
          → R x s
      unfolding log_skips
      log_skips-Fails [] s a x e = absurd cc
      log_skips-Fails (d ∷ calls) s a x e =
          of_answer d.skip_logged (log_skips calls) (log_skips-Fails calls s a x) e
        where
          of_answer :
              (o : Option Bool) (l : Result BatchError Bool)
              → (l ≡ err x → R x s)
              → elim o [
                | none ↦ err delivery_failed
                | some logged ↦ elim l [ err y ↦ err y | ok more ↦ ok (logged && more) ]
              ]
                ≡ err x
              → R x s
          of_answer none l q f = subst (λ y. R y s) (err_injective f) a
          of_answer (some logged) (err y) q f = q f
          of_answer (some logged) (ok more) q f = absurd cc

      pub fill-Answered :
          (s : BatchState Message)
          → Held host U (c ∷ []) before s
          → Ensures
              (λ b after. Held host U (c ∷ rest) before after)
              R
              (fill_remaining_results host known id rest s)
      unfolding fill_remaining_results
      fill-Answered s a =
          bind-Ensures R (λ u after. Held host U (c ∷ rest) before after)
            (λ b after. Held host U (c ∷ rest) before after) (append_skips host known id rest s) _
            (append_skips-Answered U R id (c ∷ []) rest before s there a)
            (λ u after done.
              lift_result (log_skips rest) after done (log_skips-Fails rest after done.0))
        where
          lift_result :
              (l : Result BatchError Bool) (after : BatchState Message)
              → Held host U (c ∷ rest) before after
              → ((x : BatchError) → l ≡ err x → R x after)
              → Ensures (λ b end. Held host U (c ∷ rest) before end) R (l, after)
          lift_result (ok b) after done f = done
          lift_result (err x) after done f = f x refl

      -- Filling unless it is done, and after a test; without filling the log has not failed.
      abbrev pub Filled : Bool → Bool → BatchState Message → Type 0
      Filled full b after = Held host U (part full) before after × ((b ≡ true) ⊎ (full ≡ true))

      pub fill_if-Filled :
          (test filled : Bool) (s : BatchState Message)
          → Held host U (part filled) before s
          → Ensures (Filled (filled || test)) R (fill_if host (test && not filled) known id rest s)
      unfolding fill_if
      fill_if-Filled false true s a = (a, inl refl)
      fill_if-Filled false false s a = (a, inl refl)
      fill_if-Filled true true s a = (a, inl refl)
      fill_if-Filled true false s a =
          map-Ensures R (λ b after. Held host U (c ∷ rest) before after) (Filled true)
            (fill_remaining_results host known id rest s) (λ b after done. (done, inr refl))
            (fill-Answered s a)

      pub deliver-Answered :
          (s : BatchState Message)
          → Held host U (c ∷ []) before s
          → Ensures
              (λ b after. Held host U (c ∷ []) before after)
              R
              (deliver host known id rest c s)
      unfolding deliver
      deliver-Answered s a = of_answer c.logged
        where
          appended :
              Ensures
                (λ u after. Held host U (c ∷ rest) before after)
                (λ x after. ⊥)
                (append_skips host known id rest s)
          appended = append_skips-Answered U (λ x after. ⊥) id (c ∷ []) rest before s there a

          after_all :
              (m : Result BatchError (Unit {0}) × BatchState Message)
              → Ensures (λ u after. Held host U (c ∷ rest) before after) (λ x after. ⊥) m
              → Answered host (c ∷ rest) before m.1
          after_all (ok u, after) done = done.0
          after_all (err x, after) none_such = absurd none_such

          of_answer :
              (o : Option Bool)
              → Ensures
                  (λ b after. Held host U (c ∷ []) before after)
                  R
                  ((elim o as (λ x. Step host Bool) [
                    | some logged ↦ pure logged
                    | none ↦ quietly host (append_skips host known id rest) >> raise delivery_failed
                  ])
                    s)
          of_answer (some logged) = a
          of_answer none = after_all (append_skips host known id rest s) appended

      pub returned :
          (test filled : Bool) (o : Bool → ToolBatchOutcome) (s : BatchState Message)
          → (filled || test) ≡ true
          → Held host U (part filled) before s
          → Ensures (TurnEnds host c rest before) R (
              proceed
                (fill_if host (test && not filled) known id rest s)
                (λ b. pure (returns (o b))))
      returned test filled o s full a =
          bind-Ensures R (Filled (filled || test)) (TurnEnds host c rest before)
            (fill_if host (test && not filled) known id rest s) _ (fill_if-Filled test filled s a)
            (λ b after done. (subst (λ f. Held host U (part f) before after) full done.0).0)

      -- The same once a stop has filled the results.
      pub returned_after :
          (stops filled : Bool) (o : Bool → ToolBatchOutcome) (s : BatchState Message)
          → Held host U (part (filled || stops)) before s
          → Ensures (TurnEnds host c rest before) R (
              proceed
                (fill_if host (not filled && not stops) known id rest s)
                (λ b. pure (returns (o b))))
      unfolding fill_if
      returned_after true true o s a = a.0
      returned_after true false o s a = a.0
      returned_after false true o s a = a.0
      returned_after false false o s a = returned true false o s refl a
