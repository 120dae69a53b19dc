-- ===== src/Observation/Tests.antt =====
-- Runs of task_observation.py: a file is written, a verification passes, a directory appears.
use tricoder_agent.Base.{
  [], ◌∷◌, ◌≡◌, ◌⊎◌, refl, true, false, none, some, is_some, codes, nat_eq, list_eq, all,
}
use tricoder_agent.Effects.{FileEffects, nothing, confirmed, unknown}
use tricoder_agent.Evidence.{WorkspaceSnapshot, VerificationEvidence}
use tricoder_agent.Observation.{
  TaskObservation, no_context, apply_tool_transition, create, seed, reconcile, close,
}
use tricoder_agent.Observation.Transition.{Fact, run, Stands, Supported, run-Stands}
use tricoder_agent.Observation.Again.{apply_tool_transition_twice}
use tricoder_agent.Observation.Channel.{
  Call, effects_observed, result_observed, tool_begun, step, steps, blocked, unknown_reported,
  close-final,
}

abbrev snapshot : WorkspaceSnapshot
snapshot = record {
  scope_id = "w";
  digest = "d1";
  complete = true;
  limitations = [];
  content_digest = none;
}

abbrev proof : VerificationEvidence
proof = record {
  task_id = "t1";
  command_id = "e1";
  before = snapshot;
  after = snapshot;
  passed = true;
  authority = some 0;
}

abbrev written : Fact
written = record {
  effects = record { state = confirmed; paths = codes "a.py" ∷ []; directory_paths = [] };
  candidate = none;
}

abbrev no_effects : FileEffects
no_effects = record { state = nothing; paths = []; directory_paths = [] }

abbrev verified : Fact
verified = record { effects = no_effects; candidate = some proof }

abbrev made : Fact
made = record {
  effects = record { state = confirmed; paths = []; directory_paths = codes "out" ∷ [] };
  candidate = none;
}

passes : (run no_context (written ∷ verified ∷ [])).verification ≡ "通过"
unfolding run apply_tool_transition all
passes = refl

-- The new directory withdraws the evidence.
withdrawn : (run no_context (written ∷ verified ∷ made ∷ [])).verification_evidence ≡ none
unfolding run apply_tool_transition
withdrawn = refl

run-Stands_example :
    Supported (run no_context (written ∷ verified ∷ []))
    × (((run no_context (written ∷ verified ∷ [])).verification_evidence ≡ none)
        ⊎ ((e : VerificationEvidence) × ((run no_context
                (written ∷ verified ∷ [])).verification_evidence
              ≡ some e)
            × Stands (written ∷ verified ∷ []) e))
run-Stands_example = run-Stands no_context (written ∷ verified ∷ []) refl refl

apply_tool_transition_twice_example :
    apply_tool_transition
      (apply_tool_transition no_context no_effects (some proof))
      no_effects
      (some proof)
    ≡ apply_tool_transition no_context no_effects (some proof)
apply_tool_transition_twice_example = apply_tool_transition_twice no_context verified

abbrev channel : TaskObservation
channel = seed create no_context 0

abbrev lost : Call
lost = effects_observed (some (record { state = unknown; paths = []; directory_paths = [] }))

unknown_reported_example :
    (let end =
        (reconcile
          (steps (step channel lost) (tool_begun ∷ result_observed no_effects (some proof) ∷ []))
          no_context).0 in
      end ≡ blocked end)
unfolding seed create
unknown_reported_example =
    unknown_reported channel lost (tool_begun ∷ result_observed no_effects (some proof) ∷ [])
      no_context is_running has_base refl
  where
    is_running : channel.closed ≡ false
    is_running = refl

    has_base : is_some channel.state ≡ true
    has_base = refl

close-final_example :
    (steps (close channel) (lost ∷ []) ≡ close channel)
    × (reconcile (close channel) no_context ≡ (no_context, false))
unfolding seed create
close-final_example = close-final channel (lost ∷ []) no_context
