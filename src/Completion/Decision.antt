-- ===== src/Completion/Decision.antt =====
-- How the outcomes of `assess_finish` of engine/completion.py relate, and what the call may change.
use tricoder_agent.Base.{
  ℕ, ◌≡◌, ◌↔◌, refl, Bool, true, false, Option, none, some, arith, Bool-cases, inl, inr, ◌==◌,
  string_eq, ==_iff, if◌then◌else◌,
}
use tricoder_agent.Evidence.{WorkspaceSnapshot, VerificationScope}
use tricoder_agent.State.{AgentRunState}
use tricoder_agent.Completion.{completed, drop_failed, withdraw, current_verification_satisfied}
use tricoder_agent.Completion.Assess.{
  FinishRequest, Review, review, review_evidence, expire, is_expired, is_completed, assess_finish,
  conclude, stop_reason,
}

module _ (request : FinishRequest) (r : Review) where
  stop_of_completed : is_completed request r ≡ true → stop_reason request r ≡ completed
  unfolding is_completed stop_reason
  stop_of_completed h =
      let named = (==_iff request.finish_outcome "completed").0 (ground arith) in
      let other : (request.finish_outcome == "incomplete") ≡ false = rw named refl in ground arith

  completed_of_stop : stop_reason request r ≡ completed → is_completed request r ≡ true
  unfolding stop_reason
  completed_of_stop h = ground arith

-- What `assess_finish` never writes.
abbrev pub Frame : AgentRunState → AgentRunState → Type 0
Frame before after =
    (after.current_task_id ≡ before.current_task_id)
    × (after.validation ≡ before.validation)
    × (after.task_modified_files ≡ before.task_modified_files)
    × (after.task_modified_directories ≡ before.task_modified_directories)
    × (after.unknown_effects ≡ before.unknown_effects)
    × (after.cleanup_failed ≡ before.cleanup_failed)
    × (after.verification_obligation ≡ before.verification_obligation)

abbrev Keeps : AgentRunState → AgentRunState → Type 0
Keeps before after =
    Frame before after × (before.verification_required ≡ true → after.verification_required ≡ true)

Keeps-refl : (s : AgentRunState) → Keeps s s
Keeps-refl s = ((refl, refl, refl, refl, refl, refl, refl), λ e. e)

if_Keeps : (s a b : AgentRunState) (t : Bool) → Keeps s a → Keeps s b → Keeps s (if t then a else b)
if_Keeps s a b true p q = p
if_Keeps s a b false p q = q

module _ (fold : ℕ → ℕ) where
  review_evidence-Keeps :
      (state : AgentRunState) (current : Option WorkspaceSnapshot) (scope : VerificationScope)
      → Keeps state (review_evidence fold state current scope).state
  unfolding review_evidence drop_failed withdraw
  review_evidence-Keeps state current scope =
      if_Keeps state _ _
        (current_verification_satisfied fold (drop_failed state current) current (some scope))
        (Keeps-refl state) (Keeps-refl state)

  review-Keeps :
      (state : AgentRunState) (current : Option WorkspaceSnapshot)
      (scope : Option VerificationScope)
      → Keeps state (review fold state current scope).state
  unfolding review
  review-Keeps state current none = Keeps-refl state
  review-Keeps state current (some scope) =
      of_if state.verification_required _ _ (review_evidence-Keeps state current scope)
        (Keeps-refl state)
    where
      of_if :
          (t : Bool) (a b : Review)
          → Keeps state a.state
          → Keeps state b.state
          → Keeps state (if t then a else b).state
      of_if true a b p q = p
      of_if false a b p q = q

  expire-Keeps :
      (state : AgentRunState) (r : Review) (current : Option WorkspaceSnapshot)
      → Keeps state r.state
      → Keeps state (expire r current).state
  unfolding expire
  expire-Keeps state r current ((a, b, c, d, e, f, g), h) =
      elim (Bool-cases (is_expired r.state current)) [
        | inl t ↦ rw t ((a, b, c, d, e, f, g), λ _. refl)
        | inr t ↦ rw t ((a, b, c, d, e, f, g), h)
      ]

  assess_finish-Keeps :
      (state : AgentRunState) (request : FinishRequest) (scope : Option VerificationScope)
      (current : Option WorkspaceSnapshot)
      → Keeps state (assess_finish fold state request scope current).0
  unfolding assess_finish
  assess_finish-Keeps state request scope current =
      expire-Keeps state (review fold state current scope) current
        (review-Keeps state current scope)

  -- `assess_finish` writes neither the label, the tracked checks, the modified paths, the effect and
  -- cleanup flags nor the kind of obligation.
  pub assess_finish-Frame :
      (state : AgentRunState) (request : FinishRequest) (scope : Option VerificationScope)
      (current : Option WorkspaceSnapshot)
      → Frame state (assess_finish fold state request scope current).0
  assess_finish-Frame state request scope current =
      (assess_finish-Keeps state request scope current).0

  -- A verification that is required before `finish` is still required after it, whatever the outcome.
  pub assess_finish-required :
      (state : AgentRunState) (request : FinishRequest) (scope : Option VerificationScope)
      (current : Option WorkspaceSnapshot)
      → state.verification_required ≡ true
      → (assess_finish fold state request scope current).0.verification_required ≡ true
  assess_finish-required state request scope current =
      (assess_finish-Keeps state request scope current).1

  -- The stop reason is `completed` exactly when the assessment is completed.
  pub assess_finish-stop_reason :
      (state : AgentRunState) (request : FinishRequest) (scope : Option VerificationScope)
      (current : Option WorkspaceSnapshot)
      → ((assess_finish fold state request scope current).1.stop_reason ≡ completed)
        ↔ ((assess_finish fold state request scope current).1.completed ≡ true)
  unfolding assess_finish conclude
  assess_finish-stop_reason state request scope current =
      let r = expire (review fold state current scope) current in
      (completed_of_stop request r, stop_of_completed request r)
