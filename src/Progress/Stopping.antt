-- ===== src/Progress/Stopping.antt =====
-- When the guard of engine/progress.py stops a task.
use mathlib.Core.List.{append_assoc, append-nil}
use tricoder_agent.Base.{
  is_some, ℕ, ◌+◌, ◌-◌, ◌≤◌, ◌<◌, List, [], ◌∷◌, ◌++◌, ◌≡◌, ◌↔◌, ◌⊎◌, refl, ap, sym, ◌∙◌, Bool,
  true, false, ok, arith, inl, inr, length, length-append, drop, count_if, Text, ==_refl, nat_eq,
  list_eq, codes, count_append, drop-append,
}
use tricoder_agent.Progress.{
  ProgressObservation, ProgressGuard, StoredObservation, stop, validate_decision, append_bounded,
  observe, decide, same_failure, same_read, failure_signature, repeated_failure_decision,
  repeated_read_decision, oscillation_decision, states_of, alternates, read_signature, or_empty,
  tail_of,
}

module _ (digest : List Text → Text) (show : ℕ → Text) where
  -- The checks of one fingerprint failed on workspaces that go back and forth.
  abbrev pub Oscillates : List StoredObservation → ProgressObservation → Type 0
  Oscillates window o =
      (is_some o.check_fingerprint ≡ true)
      × (alternates (states_of o.check_fingerprint [] window) ≡ true)

  abbrev pub RepeatsFailure : List StoredObservation → ProgressObservation → Type 0
  RepeatsFailure window o = 3 ≤ count_if (same_failure o) window

  abbrev pub RepeatsRead : List StoredObservation → StoredObservation → Type 0
  RepeatsRead window s = (s.observation.read_only ≡ true) × (4 ≤ count_if (same_read show s) window)

  -- The guard decides to stop exactly when the observed workspace is complete and either the tool
  -- failed and the window has an oscillation or three same failures, or it did not fail and the window
  -- has four same reads of the epoch.
  pub decide-stop_iff :
      (window : List StoredObservation) (s : StoredObservation)
      → ((decide digest show window s).action ≡ stop) ↔ (
          (s.observation.workspace_complete ≡ true)
          × (((is_some s.observation.failure_classification ≡ true)
                × (Oscillates window s.observation ⊎ RepeatsFailure window s.observation))
              ⊎ ((is_some s.observation.failure_classification ≡ false) × RepeatsRead window s)))
  unfolding decide repeated_failure_decision repeated_read_decision oscillation_decision
  decide-stop_iff window s = (λ h. ground arith, λ h. ground arith)

  -- The constructor of the decision refuses none of the guard's decisions, for summaries of 16
  -- characters.
  pub decide-accepted :
      (window : List StoredObservation) (s : StoredObservation)
      → ((signature : List Text) → length (digest signature) ≡ 16)
      → validate_decision (decide digest show window s) ≡ ok tt
  unfolding decide repeated_failure_decision repeated_read_decision oscillation_decision
      validate_decision
  decide-accepted window s sixteen =
      let o = s.observation in
      ground (
        arith,
        sixteen (failure_signature o),
        sixteen (read_signature show s),
        sixteen (
            codes "repair_oscillation"
            ∷ or_empty o.check_fingerprint
            ∷ tail_of (states_of o.check_fingerprint [] window)),
      )

-- The elements at the end of a window stay in it.
append_bounded-kept :
    (capacity : ℕ) (earlier last : List StoredObservation) (s : StoredObservation)
    → length last < capacity
    → (rest : List StoredObservation) × (append_bounded capacity (earlier ++ last) s
        ≡ rest ++ (last ++ s ∷ []))
unfolding append_bounded
append_bounded-kept capacity earlier last s few =
    let n : ℕ = length (earlier ++ last) + 1 - capacity in
    (
      drop n earlier,
      ap (drop n) (append_assoc earlier last (s ∷ []))
          ∙ drop-append n earlier (last ++ s ∷ []) (omega (arith, length-append earlier last)),
    )

same_failure-same :
    (s : StoredObservation)
    → s.observation.workspace_complete ≡ true
    → same_failure s.observation s ≡ true
unfolding same_failure
same_failure-same s complete = rw (complete, ==_refl (failure_signature s.observation)) refl

count_three :
    (p : StoredObservation → Bool) (rest : List StoredObservation) (s : StoredObservation)
    → p s ≡ true
    → 3 ≤ count_if p (rest ++ (s ∷ s ∷ s ∷ []))
unfolding count_if
count_three p rest s e = rw (count_append p rest (s ∷ s ∷ s ∷ []), e) (omega arith)

thrice :
    (capacity : ℕ) (window : List StoredObservation) (s : StoredObservation)
    → 3 ≤ capacity
    → (rest : List StoredObservation) × (append_bounded capacity
          (append_bounded capacity (append_bounded capacity window s) s)
          s
        ≡ rest ++ (s ∷ s ∷ s ∷ []))
thrice capacity window s room =
    let add : List StoredObservation → List StoredObservation = λ w. append_bounded capacity w s in
    let (r1, e1) = append_bounded-kept capacity window [] s (omega arith) in
    let (r2, e2) = append_bounded-kept capacity r1 (s ∷ []) s (omega arith) in
    let (r3, e3) = append_bounded-kept capacity r2 (s ∷ s ∷ []) s (omega arith) in
    (
      r3,
      ap (λ w. add (add (add w))) (sym (append-nil window))
          ∙ (ap (λ w. add (add w)) e1 ∙ (ap add e2 ∙ e3)),
    )

module _ (digest : List Text → Text) (show : ℕ → Text) where
  -- The third time in a row that a tool fails in the same way on the same complete workspace, the
  -- task is stopped, whatever was observed before, for a guard that has room for three observations.
  pub third_failure_stops :
      (g : ProgressGuard) (o : ProgressObservation)
      → 3 ≤ g.capacity
      → o.workspace_complete ≡ true
      → is_some o.failure_classification ≡ true
      → (observe digest show (observe digest show (observe digest show g o).0 o).0 o).1.action
        ≡ stop
  unfolding observe
  third_failure_stops g o room complete failed =
      let s : StoredObservation = record { observation = o; read_epoch = g.read_epoch } in
      let (rest, e) = thrice g.capacity g.observations s room in
      (decide-stop_iff digest show
          (append_bounded g.capacity
            (append_bounded g.capacity (append_bounded g.capacity g.observations s) s) s)
          s).1
        (
          complete,
          inl (
            failed,
            inr (rw e (count_three (same_failure o) rest s (same_failure-same s complete))),
          ),
        )
