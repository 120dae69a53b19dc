-- ===== src/Observation/Channel.antt =====
-- `TaskObservation` of task_observation.py: the calls of the host, the tools and the agent on one
-- task's channel, in any order.
use tricoder_agent.Base.{
  ℕ, List, [], ◌∷◌, ◌≡◌, ◌⊎◌, refl, Bool, true, false, Option, none, some, is_some, if◌then◌else◌,
  arith,
}
use tricoder_agent.Effects.{FileEffects, is_unknown, pending, observe}
use tricoder_agent.Evidence.{VerificationEvidence}
use tricoder_agent.Observation.{
  SessionContext, TaskObservation, seed, begin_tool, observe_effects, observe_result, publish,
  published_facts, reconcile, close, apply_tool_transition,
}

pub data Call : Type 0 where
  seeded : SessionContext → ℕ → Call
  tool_begun : Call
  effects_observed : Option FileEffects → Call
  result_observed : FileEffects → Option VerificationEvidence → Call
  published : SessionContext → Bool → Option ℕ → Call
  closed : Call

abbrev pub step : TaskObservation → Call → TaskObservation
step o (seeded s r) = seed o s r
step o tool_begun = begin_tool o
step o (effects_observed effects) = observe_effects o effects
step o (result_observed effects candidate) = observe_result o effects candidate
step o (published s b r) = publish o s b r
step o closed = close o

unfoldable pub steps : TaskObservation → List Call → TaskObservation
steps o [] = o
steps o (call ∷ calls) = steps (step o call) calls

-- The call reports effects that nobody knows.
abbrev pub Reports : Call → Type 0
Reports (effects_observed (some effects)) = is_unknown effects.state ≡ true
Reports (result_observed effects candidate) = is_unknown effects.state ≡ true
Reports (published s b r) = s.unknown_effects ≡ true
Reports _ = ⊥

-- The facts that block a task's completion.
abbrev pub blocked : SessionContext → SessionContext
blocked s = record s {
  unknown_effects = true;
  verification = pending;
  verification_evidence = none;
  verification_required = true;
}

-- The channel knows of an unknown effect, and its baseline will not be set again.
abbrev Warned : TaskObservation → Type 0
Warned o = (o.unknown ≡ true) × ((is_some o.state ≡ true) ⊎ (o.closed ≡ true))

step-Warned : (o : TaskObservation) (call : Call) → Warned o → Warned (step o call)
unfolding seed begin_tool observe_effects observe_result publish close
step-Warned o (seeded s r) w = ground arith
step-Warned o tool_begun w = ground arith
step-Warned o (effects_observed effects) w = ground arith
step-Warned o (result_observed effects candidate) w = ground arith
step-Warned o (published s b r) w = ground arith
step-Warned o closed w = ground arith

steps-Warned : (o : TaskObservation) (calls : List Call) → Warned o → Warned (steps o calls)
unfolding steps
steps-Warned o [] w = w
steps-Warned o (call ∷ calls) w = steps-Warned (step o call) calls (step-Warned o call w)

report-Warned :
    (o : TaskObservation) (call : Call)
    → o.closed ≡ false
    → is_some o.state ≡ true
    → Reports call
    → Warned (step o call)
unfolding observe_effects observe_result publish apply_tool_transition observe
report-Warned o (seeded s r) running base h = absurd h
report-Warned o tool_begun running base h = absurd h
report-Warned o (effects_observed none) running base h = absurd h
report-Warned o (effects_observed (some effects)) running base h = ground arith
report-Warned o (result_observed effects candidate) running base h = ground arith
report-Warned o (published s b r) running base h = ground arith
report-Warned o closed running base h = absurd h

-- Once a call reported an unknown effect to an open channel with a baseline, then after any other calls
-- the facts for the end of the task have unknown effects, no evidence, a pending verification and the
-- duty to verify.
pub unknown_reported :
    (o : TaskObservation) (call : Call) (calls : List Call) (original : SessionContext)
    → o.closed ≡ false
    → is_some o.state ≡ true
    → Reports call
    → (let end = (reconcile (steps (step o call) calls) original).0 in end ≡ blocked end)
unfolding reconcile
unknown_reported o call calls original running base h =
    let w = steps-Warned (step o call) calls (report-Warned o call running base h) in rw (w.0) refl

step-close : (o : TaskObservation) (call : Call) → step (close o) call ≡ close o
unfolding seed begin_tool observe_effects observe_result publish close
step-close o (seeded s r) = refl
step-close o tool_begun = refl
step-close o (effects_observed effects) = refl
step-close o (result_observed effects candidate) = refl
step-close o (published s b r) = refl
step-close o closed = refl

steps-close : (o : TaskObservation) (calls : List Call) → steps (close o) calls ≡ close o
unfolding steps
steps-close o [] = refl
steps-close o (call ∷ calls) = rw (step-close o call) (steps-close o calls)

-- After the channel is closed no call changes it, and the facts for the end of the task are the original
-- ones, blocked if an unknown effect was reported before.
pub close-final :
    (o : TaskObservation) (calls : List Call) (original : SessionContext)
    → (steps (close o) calls ≡ close o)
      × (reconcile (close o) original ≡ (if o.unknown then blocked original else original, false))
unfolding reconcile published_facts close
close-final o calls original = (steps-close o calls, refl)
