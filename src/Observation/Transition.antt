-- ===== src/Observation/Transition.antt =====
-- Runs of `apply_tool_transition` of task_observation.py.
use tricoder_agent.Base.{
  String, List, [], ◌∷◌, ◌++◌, ◌≡◌, ◌⊎◌, refl, sym, subst, ap, ◌∙◌, inl, inr, Bool, true, false,
  not, ◌&&◌, ◌||◌, Option, none, some, is_some, ◌==◌, nat_eq, list_eq, if◌then◌else◌, arith,
  Bool-cases, Option-cases, All, some_injective, none-ne-some,
}
use tricoder_agent.Effects.{
  FileEffects, is_unknown, is_confirmed, is_nothing, pending, observe, is_passed,
}
use tricoder_agent.Evidence.{WorkspaceSnapshot, VerificationEvidence, stable_snapshots}
use tricoder_agent.Observation.{
  SessionContext, changes, judge, Verdict, drop_outdated, unjudged, apply_tool_transition,
}

-- What a tool call is observed to have done.
pub record Fact : Type 0 where
  pub effects : FileEffects
  pub candidate : Option VerificationEvidence

unfoldable pub run : SessionContext → List Fact → SessionContext
run s [] = s
run s (f ∷ facts) = run (apply_tool_transition s f.effects f.candidate) facts

-- A call that changed nothing and verified nothing.
abbrev pub Quiet : Fact → Type 0
Quiet f = (changes f.effects ≡ false) × (f.candidate ≡ none)

-- The evidence is that of one call, which passed and changed nothing, and the calls after it are quiet.
abbrev pub Stands : List Fact → VerificationEvidence → Type 0
Stands facts e =
    (before : List Fact) × (f : Fact) × (after : List Fact) × (facts ≡ before ++ f ∷ after)
    × (f.candidate ≡ some e)
    × (e.passed ≡ true)
    × (is_nothing f.effects.state ≡ true)
    × All Quiet after

judge-evidence :
    (effects : FileEffects) (v : Verdict) (c e : VerificationEvidence)
    → (judge effects v (some c)).evidence ≡ some e
    → (c ≡ e) × (e.passed ≡ true) × (is_nothing effects.state ≡ true)
unfolding judge
judge-evidence effects v c e h =
    elim (Bool-cases (stable_snapshots (c.before ∷ c.after ∷ []) && not c.passed)) [
      | inl b ↦ absurd (none-ne-some (rw b at h))
      | inr b ↦ elim (Bool-cases (c.passed && is_nothing effects.state)) [
        | inl d ↦
            let same : c ≡ e = some_injective (rw (b, d) at h) in
            (same, subst (λ k. k.passed ≡ true) same (ground arith), ground arith)
        | inr d ↦ absurd (none-ne-some (rw (b, d) at h))
      ]
    ]

-- One call: the evidence is new, or the call is quiet.
transition-evidence :
    (s : SessionContext) (f : Fact) (e : VerificationEvidence)
    → (apply_tool_transition s f.effects f.candidate).verification_evidence ≡ some e
    → ((f.candidate ≡ some e) × (e.passed ≡ true) × (is_nothing f.effects.state ≡ true))
      ⊎ (Quiet f × (s.verification_evidence ≡ some e))
unfolding apply_tool_transition judge
transition-evidence s f e h = of_candidate f.candidate refl
  where
    of_candidate :
        (c : Option VerificationEvidence)
        → f.candidate ≡ c
        → ((f.candidate ≡ some e) × (e.passed ≡ true) × (is_nothing f.effects.state ≡ true))
          ⊎ (Quiet f × (s.verification_evidence ≡ some e))
    of_candidate none q = ground arith
    of_candidate (some c) q =
        let g : (judge f.effects (unjudged s f.effects) (some c)).evidence ≡ some e =
          subst (λ k. (apply_tool_transition s f.effects k).verification_evidence ≡ some e) q h in
        let (same, p, n) = judge-evidence f.effects (unjudged s f.effects) c e g in
        inl (q ∙ ap some same, p, n)

-- Where the verdict is that the verification passed, there is evidence for it and no failed snapshot.
abbrev pub Backed : String → Option VerificationEvidence → Option WorkspaceSnapshot → Type 0
Backed verification evidence failure =
    (is_passed verification ≡ false) ⊎ ((is_some evidence ≡ true) × (is_some failure ≡ false))

abbrev pub Supported : SessionContext → Type 0
Supported s = Backed s.verification s.verification_evidence s.verification_failure

judge-Backed :
    (effects : FileEffects) (v : Verdict) (c : VerificationEvidence)
    → (let w = judge effects v (some c) in Backed w.verification w.evidence w.failure)
unfolding judge
judge-Backed effects v c =
    elim (Bool-cases (stable_snapshots (c.before ∷ c.after ∷ []) && not c.passed)) [
      | inl b ↦ rw b (inl refl)
      | inr b ↦ elim (Bool-cases (c.passed && is_nothing effects.state)) [
        | inr d ↦ rw (b, d) (inl refl)
        | inl d ↦ elim (Bool-cases (is_some (drop_outdated v.failure c))) [
          | inl f ↦ rw (b, d, f) (inl refl)
          | inr f ↦ rw (b, d, f) (inr (refl, refl))
        ]
      ]
    ]

-- The same on the truth values of the tests: an unknown effect, paths, directories, a confirmed effect.
tests-Backed :
    (u p d c : Bool) (verification : String) (evidence : Option VerificationEvidence)
    (failure : Option WorkspaceSnapshot)
    → Backed verification evidence failure
    → Backed
        (if u || p then pending else if d && is_passed verification then pending else verification)
        (if u || p || d then none else evidence)
        (if not u && p && c then none else failure)
tests-Backed true p d c verification evidence failure h = inl refl
tests-Backed false true d c verification evidence failure h = inl refl
tests-Backed false false false c verification evidence failure h = h
tests-Backed false false true c verification evidence failure h =
    elim (Bool-cases (is_passed verification)) [ inl e ↦ rw e (inl refl) | inr e ↦ rw e (inl e) ]

unjudged-Backed :
    (s : SessionContext) (effects : FileEffects)
    → Supported s
    → Backed
        (unjudged s effects).verification
        (unjudged s effects).evidence
        (unjudged s effects).failure
unfolding observe
unjudged-Backed s effects h =
    tests-Backed (is_unknown effects.state) (not (effects.paths == []))
      (not (effects.directory_paths == [])) (is_confirmed effects.state) s.verification
      s.verification_evidence s.verification_failure h

transition-Supported :
    (s : SessionContext) (f : Fact)
    → Supported s
    → Supported (apply_tool_transition s f.effects f.candidate)
unfolding apply_tool_transition
transition-Supported s f h = of_candidate f.candidate
  where
    of_candidate :
        (c : Option VerificationEvidence) → Supported (apply_tool_transition s f.effects c)
    of_candidate none = unjudged-Backed s f.effects h
    of_candidate (some c) = judge-Backed f.effects (unjudged s f.effects) c

run-evidence :
    (s : SessionContext) (facts : List Fact) (e : VerificationEvidence)
    → (run s facts).verification_evidence ≡ some e
    → Stands facts e ⊎ (All Quiet facts × (s.verification_evidence ≡ some e))
unfolding run
run-evidence s [] e h = inr (tt, h)
run-evidence s (f ∷ facts) e h =
    elim (run-evidence (apply_tool_transition s f.effects f.candidate) facts e h) [
      | inl (before, g, after, whole, c, p, n, quiet) ↦
          inl (f ∷ before, g, after, ap (λ rest. f ∷ rest) whole, c, p, n, quiet)
      | inr (quiet, had) ↦ elim (transition-evidence s f e had) [
        | inl (c, p, n) ↦ inl ([], f, facts, refl, c, p, n, quiet)
        | inr (q, had') ↦ inr ((q, quiet), had')
      ]
    ]

run-Supported : (s : SessionContext) (facts : List Fact) → Supported s → Supported (run s facts)
unfolding run
run-Supported s [] h = h
run-Supported s (f ∷ facts) h =
    run-Supported (apply_tool_transition s f.effects f.candidate) facts (transition-Supported s f h)

-- After the tool calls of a task that begins without evidence and with a verdict other than that the
-- verification passed: if there is evidence, then it is that of one call, which passed and had no effect
-- on files, and no later call had an effect or a verification; and where the verdict is that the
-- verification passed, there is evidence and no failed snapshot.
pub run-Stands :
    (s : SessionContext) (facts : List Fact)
    → s.verification_evidence ≡ none
    → is_passed s.verification ≡ false
    → Supported (run s facts)
      × (((run s facts).verification_evidence ≡ none)
          ⊎ ((e : VerificationEvidence) × ((run s facts).verification_evidence ≡ some e)
              × Stands facts e))
run-Stands s facts none_yet unpassed = (
  run-Supported s facts (inl unpassed),
  elim (Option-cases (run s facts).verification_evidence) [
    | inl e ↦ inl e
    | inr (e, h) ↦ elim (run-evidence s facts e h) [
      | inl stands ↦ inr (e, h, stands)
      | inr (quiet, had) ↦ absurd (none-ne-some (sym none_yet ∙ had))
    ]
  ],
)
