-- ===== src/Completion/Soundness.antt =====
-- What a completed `finish` of engine/completion.py guarantees.
use tricoder_agent.Base.{
  ℕ, List, [], ◌∷◌, ◌≡◌, refl, sym, ap, ◌∙◌, subst, some_injective, Bool, true, false, not, ◌&&◌,
  ◌||◌, Option, none, some, arith, Bool-cases, inl, inr, Text, All, Has, all→All, is_nil, distinct,
  ◌==◌, string_eq, nat_eq, option_eq, list_eq, ==_iff, ◌⊎◌, if◌then◌else◌,
}
use tricoder_agent.Paths.{source_verification_paths, uncovered_paths, target_covers_path}
use tricoder_agent.Paths.Uncovered.{Covered, source_verification_paths-Covered}
use tricoder_agent.Checks.Tracker.{report, current_records}
use tricoder_agent.Evidence.{WorkspaceSnapshot, VerificationScope, owns, owns_check}
use tricoder_agent.State.{AgentRunState}
use tricoder_agent.Completion.{
  CheckCoverage, coverage_of, check_coverage, has_relevant_check, current_verification_satisfied,
  successful_targets, has_unresolved, is_none, evidence_valid, drop_failed,
}
use tricoder_agent.Completion.Assess.{
  FinishRequest, Review, review, review_evidence, expire, is_completed, assess_finish, conclude,
}

-- What a request and the state it leaves have to satisfy in any case.
abbrev pub Settled : FinishRequest → AgentRunState → Type 0
Settled request state =
    (request.finish_outcome ≡ "completed")
    × (request.cancellation_requested ≡ false)
    × (state.cleanup_failed ≡ false)
    × (state.unknown_effects ≡ false)
    × ((report state.validation).status == "stale" ≡ false)

-- The verification that a state with modified paths needs.
abbrev pub Verified : (ℕ → ℕ) → AgentRunState → WorkspaceSnapshot → VerificationScope → Type 0
Verified fold state current scope =
    (current.complete ≡ true)
    × (owns scope state.evidence ≡ true)
    × (evidence_valid state.evidence current ≡ true)
    × (state.failed_snapshot ≡ none)
    × (has_unresolved state ≡ false)
    × All (λ r. owns_check scope r ≡ true) (current_records state.validation current.digest)
    × (has_relevant_check fold state current ≡ true)

and_true : (a b : Bool) → (a && b) ≡ true → (a ≡ true) × (b ≡ true)
and_true a b h = ground arith

not-true : (a : Bool) → not a ≡ true → a ≡ false
not-true a h = ground arith

false-true : false ≡ true → ⊥
false-true e = cc

if_true : {A : Type 0} {b : Bool} (x y : A) → b ≡ true → (if b then x else y) ≡ x
if_true x y e = rw e refl

if_false : {A : Type 0} {b : Bool} (x y : A) → b ≡ false → (if b then x else y) ≡ y
if_false x y e = rw e refl

is_none-true : {A : Type 0} (o : Option A) → is_none o ≡ true → o ≡ none
is_none-true none h = refl
is_none-true (some a) h = cc

is_nil-true : {A : Type 0} (xs : List A) → is_nil xs ≡ true → xs ≡ []
is_nil-true [] h = refl
is_nil-true (x ∷ xs) h = cc

module _ (fold : ℕ → ℕ) where
  pub current_verification_satisfied-Verified :
      (state : AgentRunState) (current : Option WorkspaceSnapshot) (scope : VerificationScope)
      → current_verification_satisfied fold state current (some scope) ≡ true
      → (c : WorkspaceSnapshot) × (current ≡ some c) × Verified fold state c scope
  unfolding current_verification_satisfied
  current_verification_satisfied-Verified state none scope h = cc
  current_verification_satisfied-Verified state (some c) scope h =
      let (h1, k) = and_true _ _ h in
      let (h2, g) = and_true _ _ h1 in
      let (h3, f) = and_true _ _ h2 in
      let (h4, e) = and_true _ _ h3 in
      let (h5, d) = and_true _ _ h4 in
      let (a, b) = and_true _ _ h5 in
      (c, refl, (a, b, d, is_none-true _ e, not-true _ f, all→All _ _ g, k))

is_completed-Settled :
    (request : FinishRequest) (r : Review)
    → is_completed request r ≡ true
    → Settled request r.state
      × ((not r.state.verification_required || r.valid && not (has_unresolved r.state)) ≡ true)
unfolding is_completed
is_completed-Settled request r h =
    let (h1, k) = and_true _ _ h in
    let (h2, e) = and_true _ _ h1 in
    let (h3, d) = and_true _ _ h2 in
    let (h4, c) = and_true _ _ h3 in
    let (a, b) = and_true _ _ h4 in
    (
      (
        (==_iff request.finish_outcome "completed").0 a,
        not-true _ b,
        not-true _ c,
        not-true _ d,
        not-true _ e,
      ),
      k,
    )

-- A review that is valid and not expired kept the state and its verification.
module _ (fold : ℕ → ℕ) where
  review-required :
      (state : AgentRunState) (current : Option WorkspaceSnapshot) (v : VerificationScope)
      → state.verification_required ≡ true
      → review fold state current (some v) ≡ review_evidence fold state current v
  unfolding review
  review-required state current v e = if_true _ _ e

  review-not_required :
      (state : AgentRunState) (current : Option WorkspaceSnapshot) (v : VerificationScope)
      → state.verification_required ≡ false
      → (review fold state current (some v)).valid ≡ false
  unfolding review
  review-not_required state current v e = ap (λ (r : Review). r.valid) (if_false _ _ e)

  review_evidence-valid :
      (state : AgentRunState) (current : Option WorkspaceSnapshot) (v : VerificationScope)
      → (review_evidence fold state current v).valid ≡ true
      → (c : WorkspaceSnapshot) × (current ≡ some c)
        × Verified fold (review_evidence fold state current v).state c v
  unfolding review_evidence
  review_evidence-valid state current v h =
      let (c, p, w) =
        current_verification_satisfied-Verified fold (drop_failed state current) current v h in
      (c, p, subst (λ x. Verified fold x c v) (sym (if_true _ _ h)) w)

  review-valid :
      (state : AgentRunState) (current : Option WorkspaceSnapshot)
      (scope : Option VerificationScope)
      → (review fold state current scope).valid ≡ true
      → (c : WorkspaceSnapshot) × (v : VerificationScope) × (current ≡ some c)
        × (scope ≡ some v)
        × Verified fold (review fold state current scope).state c v
  review-valid state current none h = absurd (unfold review in cc (h))
  review-valid state current (some v) h = elim (Bool-cases state.verification_required) [
    | inr e ↦ absurd (false-true (sym (review-not_required state current v e) ∙ h))
    | inl e ↦
        let same = review-required state current v e in
        let (c, p, w) =
          review_evidence-valid state current v (subst (λ (r : Review). r.valid ≡ true) same h) in
        (c, v, p, refl, subst (λ (r : Review). Verified fold r.state c v) (sym same) w)
  ]

  expire-valid :
      (r : Review) (current : Option WorkspaceSnapshot)
      → (expire r current).valid ≡ true
      → (expire r current ≡ r) × (r.valid ≡ true)
  unfolding expire
  expire-valid r current h = ground arith

  -- If `finish` is assessed as completed and the state that is left requires a verification, then
  -- there are a complete current snapshot and a scope for which that state is Verified: the scope
  -- owns evidence that is valid for the snapshot, no failed snapshot and no unresolved check is left,
  -- the scope owns every current check, and a check covers the modified paths.
  pub assess_finish-Verified :
      (state : AgentRunState) (request : FinishRequest) (scope : Option VerificationScope)
      (current : Option WorkspaceSnapshot)
      → (assess_finish fold state request scope current).1.completed ≡ true
      → (assess_finish fold state request scope current).0.verification_required ≡ true
      → (c : WorkspaceSnapshot) × (v : VerificationScope) × (current ≡ some c)
        × (scope ≡ some v)
        × Verified fold (assess_finish fold state request scope current).0 c v
  unfolding assess_finish conclude
  assess_finish-Verified state request scope current h required =
      let first = review fold state current scope in
      let r = expire first current in
      let (_, k) = is_completed-Settled request r h in
      let (same, valid) = expire-valid first current (valid_of _ _ _ required k) in
      let (c, v, p, q, w) = review-valid state current scope valid in
      (c, v, p, q, subst (λ (x : Review). Verified fold x.state c v) (sym same) w)
    where
      valid_of : (a b c : Bool) → a ≡ true → (not a || b && not c) ≡ true → b ≡ true
      valid_of a b c e h = ground arith

  has_relevant_check-nil :
      (state : AgentRunState) (current : WorkspaceSnapshot)
      → current.complete ≡ true
      → has_relevant_check fold state current ≡ true
      → uncovered_paths fold
          (source_verification_paths fold
            (distinct state.task_modified_files)
            state.task_modified_directories)
          (successful_targets fold current (current_records state.validation current.digest))
        ≡ []
  unfolding has_relevant_check check_coverage coverage_of
  has_relevant_check-nil state current e h =
      sym (ap (λ (x : CheckCoverage). x.pending_paths) (if_true _ _ e))
      ∙ is_nil-true _ (and_true _ _ h).1

  abbrev pub Tested : AgentRunState → WorkspaceSnapshot → Text → Type 0
  Tested state current =
      Covered fold
        (successful_targets fold current (current_records state.validation current.digest))

  -- If `finish` is assessed as completed and the state that is left requires a verification, then
  -- with the current snapshot each modified file is at or below a target of a check that counts for
  -- that snapshot, and each modified directory is too or is an ancestor of a modified file.
  pub assess_finish-covered :
      (state : AgentRunState) (request : FinishRequest) (scope : Option VerificationScope)
      (current : WorkspaceSnapshot)
      → (assess_finish fold state request scope (some current)).1.completed ≡ true
      → (assess_finish fold state request scope (some current)).0.verification_required ≡ true
      → let left = (assess_finish fold state request scope (some current)).0 in
        All (Tested left current) (distinct left.task_modified_files)
        × All
            (λ directory.
              Tested left current directory
              ⊎ Has
                  (λ path. target_covers_path fold directory path ≡ true)
                  (distinct left.task_modified_files))
            left.task_modified_directories
  assess_finish-covered state request scope current h required =
      let (c, v, p, q, w) = assess_finish-Verified state request scope (some current) h required in
      let left = (assess_finish fold state request scope (some current)).0 in
      let same : c ≡ current = sym (some_injective p) in
      let (complete, _, _, _, _, _, relevant) = subst (λ x. Verified fold left x v) same w in
      source_verification_paths-Covered fold _ (distinct left.task_modified_files)
        left.task_modified_directories (has_relevant_check-nil left current complete relevant)
