-- ===== src/Effects/Accumulation.antt =====
-- What `ExecutionState.observe` of execution_state.py accumulates over a task.
use tricoder_agent.Base.{
  List, [], ◌∷◌, ◌++◌, ◌≡◌, ◌↔◌, ◌⊎◌, ◌≢◌, inl, inr, refl, true, ◌||◌, arith, Text, In, Has,
  In-distinct, distinct, Has-append, Has-append_left, Has-append_right, nat_eq, list_eq, ==_iff,
  sym, subst, string_eq, Bool,
}
use tricoder_agent.Effects.{ExecutionState, FileEffects, unknown, observe, observe_all, pending}

or_true : (b : Bool) → (b || true) ≡ true
or_true b = ground arith

module _ (field : ExecutionState → List Text) (added : FileEffects → List Text)
    (step : (s : ExecutionState) (effects : FileEffects)
      → field (observe s effects) ≡ distinct (field s ++ added effects)) where
  step_iff :
      (s : ExecutionState) (effects : FileEffects) (path : Text)
      → In path (field (observe s effects)) ↔ (In path (field s) ⊎ In path (added effects))
  step_iff s effects path = (
    λ m.
        Has-append _ (field s) (added effects)
          ((In-distinct _ path).1 (subst (In path) (step s effects) m)),
    λ h. subst (In path) (sym (step s effects)) (
        (In-distinct (field s ++ added effects) path).0 (elim h [
          | inl m ↦ Has-append_left _ (field s) (added effects) m
          | inr m ↦ Has-append_right _ (field s) (added effects) m
        ])),
  )

  -- A path is recorded exactly when it was before or one of the effects names it.
  recorded_iff :
      (all_effects : List FileEffects) (s : ExecutionState) (path : Text)
      → In path (field (observe_all s all_effects))
        ↔ (In path (field s) ⊎ Has (λ effects. In path (added effects)) all_effects)
  unfolding observe_all
  recorded_iff [] s path = (inl, elim [ inl m ↦ m | inr h ↦ elim h [ ] ])
  recorded_iff (effects ∷ rest) s path = (
    λ m. elim ((recorded_iff rest (observe s effects) path).0 m) [
      | inl n ↦ elim ((step_iff s effects path).0 n) [ inl x ↦ inl x | inr y ↦ inr (inl y) ]
      | inr h ↦ inr (inr h)
    ],
    λ h. (recorded_iff rest (observe s effects) path).1 (elim h [
      | inl x ↦ inl ((step_iff s effects path).1 (inl x))
      | inr (inl y) ↦ inl ((step_iff s effects path).1 (inr y))
      | inr (inr z) ↦ inr z
    ]),
  )

-- After any effects, exactly the paths are recorded that were recorded before or that an effect
-- names: files as files, and directories as directories.
pub observe_all-recorded :
    (all_effects : List FileEffects) (s : ExecutionState) (path : Text)
    → (In path (observe_all s all_effects).modified_files
        ↔ (In path s.modified_files ⊎ Has (λ effects. In path effects.paths) all_effects))
      × (In path (observe_all s all_effects).modified_directories ↔ (
          In path s.modified_directories
          ⊎ Has (λ effects. In path effects.directory_paths) all_effects))
unfolding observe
observe_all-recorded all_effects s path = (
  recorded_iff (λ t. t.modified_files) (λ effects. effects.paths) (λ t effects. refl) all_effects s
      path,
  recorded_iff (λ t. t.modified_directories) (λ effects. effects.directory_paths)
      (λ t effects. refl) all_effects s path,
)

-- An effect after which a passed check counts no more.
abbrev pub Spoils : FileEffects → Type 0
Spoils effects = (effects.state ≡ unknown) ⊎ (effects.paths ≢ [])

pending_stays :
    (all_effects : List FileEffects) (s : ExecutionState)
    → s.verification ≡ pending
    → (observe_all s all_effects).verification ≡ pending
unfolding observe_all
pending_stays [] s h = h
pending_stays (effects ∷ rest) s h =
    pending_stays rest (observe s effects) (unfold observe in ground arith)

Spoils-pending :
    (s : ExecutionState) (effects : FileEffects)
    → Spoils effects
    → (observe s effects).verification ≡ pending
unfolding observe
Spoils-pending s effects (inl e) = rw e refl
Spoils-pending s effects (inr n) = ground (arith, ==_iff effects.paths [])

-- Once an effect wrote a file, or left the outcome open, no later effect makes the verification
-- anything but pending.
pub observe_all-pending :
    (all_effects : List FileEffects) (s : ExecutionState)
    → Has Spoils all_effects
    → (observe_all s all_effects).verification ≡ pending
unfolding observe_all
observe_all-pending [] s h = elim h [ ]
observe_all-pending (effects ∷ rest) s (inl h) =
    pending_stays rest (observe s effects) (Spoils-pending s effects h)
observe_all-pending (effects ∷ rest) s (inr h) = observe_all-pending rest (observe s effects) h

unknown_stays :
    (all_effects : List FileEffects) (s : ExecutionState)
    → s.unknown_effects ≡ true
    → (observe_all s all_effects).unknown_effects ≡ true
unfolding observe_all
unknown_stays [] s h = h
unknown_stays (effects ∷ rest) s h =
    unknown_stays rest (observe s effects) (unfold observe in ground arith)

unknown_step :
    (s : ExecutionState) (effects : FileEffects)
    → (observe s effects).unknown_effects ≡ true
    → (s.unknown_effects ≡ true) ⊎ (effects.state ≡ unknown)
unfolding observe
unknown_step s effects h = ground arith

-- The task has unknown effects exactly when it had them before or one of the effects is unknown.
pub observe_all-unknown :
    (all_effects : List FileEffects) (s : ExecutionState)
    → ((observe_all s all_effects).unknown_effects ≡ true)
      ↔ ((s.unknown_effects ≡ true) ⊎ Has (λ effects. effects.state ≡ unknown) all_effects)
unfolding observe_all
observe_all-unknown [] s = (inl, elim [ inl h ↦ h | inr h ↦ elim h [ ] ])
observe_all-unknown (effects ∷ rest) s = (
  λ h. elim ((observe_all-unknown rest (observe s effects)).0 h) [
    | inl e ↦ elim (unknown_step s effects e) [ inl x ↦ inl x | inr y ↦ inr (inl y) ]
    | inr m ↦ inr (inr m)
  ],
  λ h. elim h [
    | inl e ↦ unknown_stays (effects ∷ rest) s e
    | inr (inl e) ↦ unknown_stays rest (observe s effects) (unfold observe in rw e (or_true _))
    | inr (inr m) ↦ (observe_all-unknown rest (observe s effects)).1 (inr m)
  ],
)
