-- ===== src/Observation/Again.antt =====
-- `apply_tool_transition` of task_observation.py, called twice with the same observation.
use tricoder_agent.Base.{
  [], ◌∷◌, ◌≡◌, refl, inl, inr, Bool, true, false, not, ◌&&◌, ◌||◌, Option, none, some, ◌==◌,
  nat_eq, list_eq, if◌then◌else◌, arith, Bool-cases, distinct-append_again,
}
use tricoder_agent.Effects.{
  FileEffects, ExecutionState, is_unknown, is_confirmed, is_nothing, pending, observe, is_passed,
}
use tricoder_agent.Evidence.{
  WorkspaceSnapshot, VerificationEvidence, stable_snapshots, proves_new_file_version,
}
use tricoder_agent.Observation.{
  SessionContext, changes, judge, drop_outdated, failure_after, observed, unjudged,
  apply_tool_transition,
}
use tricoder_agent.Observation.Transition.{Fact}

drop_outdated-again :
    (failure : Option WorkspaceSnapshot) (c : VerificationEvidence)
    → drop_outdated (drop_outdated failure c) c ≡ drop_outdated failure c
unfolding drop_outdated
drop_outdated-again none c = refl
drop_outdated-again (some failure) c =
    elim (Bool-cases (proves_new_file_version failure c.before)) [
      | inl e ↦ rw e refl
      | inr e ↦ rw (e, e) refl
    ]

-- The failed snapshot of a call, taken up again.
failure-again :
    (s : SessionContext) (f : Fact) (c : VerificationEvidence)
    → drop_outdated
        (failure_after (drop_outdated (failure_after s.verification_failure f.effects) c) f.effects)
        c
      ≡ drop_outdated (failure_after s.verification_failure f.effects) c
failure-again s f c =
    elim (Bool-cases (
      not (is_unknown f.effects.state)
      && not (f.effects.paths == [])
      && is_confirmed f.effects.state)) [
        | inl e ↦ rw e refl
        | inr e ↦ rw e (drop_outdated-again s.verification_failure c)
      ]

judge-again :
    (s : SessionContext) (f : Fact) (c : VerificationEvidence)
    → judge f.effects (unjudged (apply_tool_transition s f.effects (some c)) f.effects) (some c)
      ≡ judge f.effects (unjudged s f.effects) (some c)
unfolding judge apply_tool_transition
judge-again s f c = elim (Bool-cases (stable_snapshots (c.before ∷ c.after ∷ []) && not c.passed)) [
  | inl b ↦ rw b refl
  | inr b ↦ elim (Bool-cases (c.passed && is_nothing f.effects.state)) [
    | inl d ↦ rw (b, d, failure-again s f c) refl
    | inr d ↦ rw (b, d, failure-again s f c) refl
  ]
]

if_again :
    {A : Type 0} (b : Bool) (x y : A) → (if b then x else if b then x else y) ≡ (if b then x else y)
if_again true x y = refl
if_again false x y = refl

or_again : (a b : Bool) → (a || (a || b)) ≡ (a || b)
or_again true b = refl
or_again false b = refl

or_twice : (a b : Bool) → (a || b || b) ≡ (a || b)
or_twice a b = ground arith

-- The verdict on the verification, taken up again.
verification-again :
    (s : ExecutionState) (effects : FileEffects)
    → (observe (observe s effects) effects).verification ≡ (observe s effects).verification
unfolding observe
verification-again s effects =
    tests (is_unknown effects.state || not (effects.paths == []))
      (not (effects.directory_paths == []))
  where
    tests :
        (p d : Bool)
        → (let v =
              if p
              then pending
              else if d && is_passed s.verification
              then pending
              else s.verification in
            (if p then pending else if d && is_passed v then pending else v) ≡ v)
    tests true d = refl
    tests false false = refl
    tests false true = elim (Bool-cases (is_passed s.verification)) [
      | inl e ↦ rw e refl
      | inr e ↦ rw (e, e) refl
    ]

unjudged-again :
    (s : SessionContext) (f : Fact)
    → judge f.effects (unjudged (apply_tool_transition s f.effects none) f.effects) none
      ≡ judge f.effects (unjudged s f.effects) none
unfolding judge apply_tool_transition
unjudged-again s f =
    let v : (observe (observed s f.effects) f.effects).verification
        ≡ (observed s f.effects).verification =
      verification-again _ f.effects in
    let n = if_again (changes f.effects) none s.verification_evidence in
    let t =
      not (is_unknown f.effects.state)
      && not (f.effects.paths == [])
      && is_confirmed f.effects.state in
    let w = if_again t none s.verification_failure in rw (v, n, w) refl

verdict-again :
    (s : SessionContext) (f : Fact)
    → judge f.effects
        (unjudged (apply_tool_transition s f.effects f.candidate) f.effects)
        f.candidate
      ≡ judge f.effects (unjudged s f.effects) f.candidate
verdict-again s f = of_candidate f.candidate
  where
    of_candidate :
        (c : Option VerificationEvidence)
        → judge f.effects (unjudged (apply_tool_transition s f.effects c) f.effects) c
          ≡ judge f.effects (unjudged s f.effects) c
    of_candidate none = unjudged-again s f
    of_candidate (some c) = judge-again s f c

-- To take up the same observation of a tool call a second time changes nothing.
pub apply_tool_transition_twice :
    (s : SessionContext) (f : Fact)
    → apply_tool_transition (apply_tool_transition s f.effects f.candidate) f.effects f.candidate
      ≡ apply_tool_transition s f.effects f.candidate
unfolding apply_tool_transition observe
apply_tool_transition_twice s f =
    let files = distinct-append_again s.modified_files f.effects.paths in
    let directories = distinct-append_again s.modified_directories f.effects.directory_paths in
    let unknown = or_twice s.unknown_effects (is_unknown f.effects.state) in
    let required = or_again (changes f.effects) s.verification_required in
    let verdict = verdict-again s f in rw (files, directories, unknown, required, verdict) refl
