-- ===== src/Completion/Recovery.antt =====
-- When `assess_finish` of engine/completion.py offers a correction.
use tricoder_agent.Base.{
  ℕ, String, List, ◌≡◌, true, false, Option, none, some, arith, none-ne-some, Bool-cases, inl, inr,
  Text, string_eq, option_eq, ==_iff,
}
use tricoder_agent.Evidence.{WorkspaceSnapshot, VerificationScope}
use tricoder_agent.State.{AgentRunState}
use tricoder_agent.Completion.{is_complete, check_coverage}
use tricoder_agent.Completion.Assess.{
  FinishRequest, Review, review, expire, is_completed, assess_finish, conclude, is_safe_correction,
  recoverable_reason,
}

-- A scope of the task in the state, whose effects are known.
abbrev pub InScope : AgentRunState → Option VerificationScope → Type 0
InScope state none = ⊥
InScope state (some scope) =
    (some scope.task_id ≡ state.current_task_id) × (scope.unknown_effects ≡ false)

-- What makes a correction safe to offer.
abbrev pub Correctable :
    FinishRequest → AgentRunState → Option WorkspaceSnapshot → Option VerificationScope → Type 0
Correctable request state current scope =
    (request.finish_outcome ≡ "completed")
    × (request.cancellation_requested ≡ false)
    × (request.termination_started ≡ false)
    × (state.verification_required ≡ true)
    × (state.unknown_effects ≡ false)
    × (state.cleanup_failed ≡ false)
    × (is_complete current ≡ true)
    × InScope state scope

safe_of_reason :
    (fold : ℕ → ℕ) (request : FinishRequest) (r : Review) (current : Option WorkspaceSnapshot)
    (scope : Option VerificationScope) (paths : List Text) (reason : String)
    → recoverable_reason fold request r current scope paths ≡ some reason
    → is_safe_correction request r current scope ≡ true
unfolding recoverable_reason
safe_of_reason fold request r current scope paths reason h =
    elim (Bool-cases (is_safe_correction request r current scope)) [
      | inl e ↦ e
      | inr e ↦ absurd (none-ne-some (rw e at h))
    ]

Correctable-of_safe :
    (request : FinishRequest) (r : Review) (current : Option WorkspaceSnapshot)
    (scope : Option VerificationScope)
    → is_safe_correction request r current scope ≡ true
    → Correctable request r.state current scope × (is_completed request r ≡ false)
unfolding is_safe_correction
Correctable-of_safe request r current none h = absurd (ground arith)
Correctable-of_safe request r current (some scope) h = (
  (
    (==_iff request.finish_outcome "completed").0 (ground arith),
    ground arith,
    ground arith,
    ground arith,
    ground arith,
    ground arith,
    ground arith,
    ((==_iff (some scope.task_id) r.state.current_task_id).0 (ground arith), ground arith),
  ),
  ground arith,
)

module _ (fold : ℕ → ℕ) where
  -- If the assessment offers a correction, it is not completed, the scan is complete, and the request
  -- and the state that is left make the correction safe: completion was asked for without
  -- cancellation or termination, a verification is required, effects and cleanup are known, and the
  -- scope is of the current task.
  pub assess_finish-Correctable :
      (state : AgentRunState) (request : FinishRequest) (scope : Option VerificationScope)
      (current : Option WorkspaceSnapshot) (reason : String)
      → (assess_finish fold state request scope current).1.recoverable_reason ≡ some reason
      → Correctable request (assess_finish fold state request scope current).0 current scope
        × ((assess_finish fold state request scope current).1.completed ≡ false)
  unfolding assess_finish conclude
  assess_finish-Correctable state request scope current reason h =
      let r = expire (review fold state current scope) current in
      Correctable-of_safe request r current scope (
        safe_of_reason fold request r current scope
          (check_coverage fold r.state current).pending_paths reason h)
