-- ===== src/Observation.antt =====
-- task_observation.py: what the host knows of a task's effects when the agent ends abnormally. Of a
-- `SessionContext` the fields are kept that these functions read or write. Each method holds the
-- object's lock, so the threads' calls are a list of calls.
pub mod Transition
pub mod Again
pub mod Channel
mod Tests
use tricoder_agent.Base.{
  ℕ, String, List, [], ◌∷◌, Bool, true, false, not, ◌&&◌, ◌||◌, Option, none, some, is_some, Text,
  ◌==◌, nat_eq, list_eq, if◌then◌else◌,
}
use tricoder_agent.Effects.{
  EffectState, FileEffects, ExecutionState, is_unknown, is_confirmed, is_nothing, pending, observe,
}
use tricoder_agent.Evidence.{
  WorkspaceSnapshot, VerificationEvidence, stable_snapshots, proves_new_file_version,
}

-- The part of `SessionContext` (models.py).
pub record SessionContext : Type 0 where
  pub modified_files : List Text
  pub verification : String
  pub unknown_effects : Bool
  pub verification_evidence : Option VerificationEvidence
  pub verification_failure : Option WorkspaceSnapshot
  pub verification_required : Bool
  pub modified_directories : List Text
  pub verification_obligation : String
  pub pending_verification_paths : List Text

abbrev pub failed : String
failed = "失败"

abbrev pub passed : String
passed = "通过"

-- `ExecutionState(...).observe(effects)`.
abbrev pub observed : SessionContext → FileEffects → ExecutionState
observed s effects =
    observe
      (record {
        modified_files = s.modified_files;
        verification = s.verification;
        unknown_effects = s.unknown_effects;
        modified_directories = s.modified_directories;
      })
      effects

-- The effects changed the workspace, or may have.
abbrev pub changes : FileEffects → Bool
changes effects =
    is_unknown effects.state || not (effects.paths == []) || not (effects.directory_paths == [])

-- The failed snapshot after the effects alone.
abbrev pub failure_after : Option WorkspaceSnapshot → FileEffects → Option WorkspaceSnapshot
failure_after failure effects =
    if not (is_unknown effects.state) && not (effects.paths == []) && is_confirmed effects.state
    then none
    else failure

-- A snapshot that the candidate proves to be of an earlier version is dropped.
unfoldable pub drop_outdated :
    Option WorkspaceSnapshot → VerificationEvidence → Option WorkspaceSnapshot
drop_outdated none candidate = none
drop_outdated (some failure) candidate =
    if proves_new_file_version failure candidate.before then none else some failure

pub record Verdict : Type 0 where
  pub verification : String
  pub evidence : Option VerificationEvidence
  pub failure : Option WorkspaceSnapshot

-- The branches on the candidate.
unfoldable pub judge : FileEffects → Verdict → Option VerificationEvidence → Verdict
unfolding drop_outdated stable_snapshots
judge effects v none = v
judge effects v (some candidate) =
    let failure = drop_outdated v.failure candidate in
    if stable_snapshots (candidate.before ∷ candidate.after ∷ []) && not candidate.passed
    then record { verification = failed; evidence = none; failure = some candidate.after }
    else if candidate.passed && is_nothing effects.state
    then record {
      verification = if is_some failure then failed else passed;
      evidence = some candidate;
      failure = failure;
    }
    else record { verification = pending; evidence = none; failure = failure }

-- The verdict of the effects alone.
abbrev pub unjudged : SessionContext → FileEffects → Verdict
unjudged s effects = record {
  verification = (observed s effects).verification;
  evidence = if changes effects then none else s.verification_evidence;
  failure = failure_after s.verification_failure effects;
}

unfoldable pub apply_tool_transition :
    SessionContext → FileEffects → Option VerificationEvidence → SessionContext
unfolding judge
apply_tool_transition s effects candidate =
    let v = judge effects (unjudged s effects) candidate in
    record s {
      modified_files = (observed s effects).modified_files;
      modified_directories = (observed s effects).modified_directories;
      verification = v.verification;
      unknown_effects = (observed s effects).unknown_effects;
      verification_evidence = v.evidence;
      verification_failure = v.failure;
      verification_required = changes effects || s.verification_required;
    }

-- `SessionContext()`.
abbrev pub no_context : SessionContext
no_context = record {
  modified_files = [];
  verification = "未运行";
  unknown_effects = false;
  verification_evidence = none;
  verification_failure = none;
  verification_required = false;
  modified_directories = [];
  verification_obligation = "none";
  pending_verification_paths = [];
}

pub record TaskObservation : Type 0 where
  pub state : Option SessionContext
  pub has_publication : Bool
  pub agent_published : Bool
  pub effects_observed : Bool
  pub consumed_revision : Option ℕ
  pub unknown : Bool
  pub closed : Bool

unfoldable pub create : TaskObservation
create = record {
  state = none;
  has_publication = false;
  agent_published = false;
  effects_observed = false;
  consumed_revision = none;
  unknown = false;
  closed = false;
}

unfoldable pub seed : TaskObservation → SessionContext → ℕ → TaskObservation
seed o s journal_revision =
    if not o.closed && not (is_some o.state)
    then record o {
      state = some s;
      consumed_revision = some journal_revision;
      unknown = s.unknown_effects;
    }
    else o

unfoldable pub begin_tool : TaskObservation → TaskObservation
begin_tool o = if not o.closed then record o { effects_observed = false } else o

abbrev is_unknown_effects : Option FileEffects → Bool
is_unknown_effects none = false
is_unknown_effects (some effects) = is_unknown effects.state

unfoldable pub observe_effects : TaskObservation → Option FileEffects → TaskObservation
observe_effects o effects =
    if not o.closed && is_unknown_effects effects then record o { unknown = true } else o

abbrev pub or_context : Option SessionContext → SessionContext
or_context none = no_context
or_context (some s) = s

unfoldable pub observe_result :
    TaskObservation → FileEffects → Option VerificationEvidence → TaskObservation
unfolding apply_tool_transition
observe_result o effects candidate =
    let s = apply_tool_transition (or_context o.state) effects candidate in
    if not o.closed
    then record o {
      state = some s;
      has_publication = true;
      unknown = o.unknown || s.unknown_effects;
    }
    else o

unfoldable pub publish : TaskObservation → SessionContext → Bool → Option ℕ → TaskObservation
publish o s effects_observed journal_revision =
    if not o.closed
    then record o {
      state = some s;
      has_publication = true;
      agent_published = true;
      effects_observed = effects_observed;
      consumed_revision =
          if effects_observed && is_some journal_revision
          then journal_revision
          else o.consumed_revision;
      unknown = o.unknown || s.unknown_effects;
    }
    else o

-- The facts of the state that was published, or the constraints of the baseline. The test whether the
-- latter differ is left out: without a difference they are written as they are.
unfoldable pub published_facts : TaskObservation → SessionContext → SessionContext
published_facts o original = elim o.state [
  | none ↦ original
  | some s ↦
      if o.has_publication
      then record original {
        modified_files = if o.agent_published then s.modified_files else original.modified_files;
        modified_directories =
            if o.agent_published then s.modified_directories else original.modified_directories;
        verification = s.verification;
        unknown_effects = s.unknown_effects;
        verification_evidence = s.verification_evidence;
        verification_failure = s.verification_failure;
        verification_required = s.verification_required;
      }
      else record original {
        verification_failure =
            if is_some s.verification_failure
            then s.verification_failure
            else original.verification_failure;
        verification_required = s.verification_required || original.verification_required;
      }
]

unfoldable pub reconcile : TaskObservation → SessionContext → SessionContext × Bool
unfolding published_facts
reconcile o original =
    let facts = published_facts o original in
    (
      if o.unknown
          then record facts {
            unknown_effects = true;
            verification = pending;
            verification_evidence = none;
            verification_required = true;
          }
          else facts,
      is_some o.state && o.effects_observed,
    )

unfoldable pub close : TaskObservation → TaskObservation
close o = record o {
  closed = true;
  state = none;
  has_publication = false;
  agent_published = false;
  consumed_revision = none;
}
