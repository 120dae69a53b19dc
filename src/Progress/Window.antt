-- ===== src/Progress/Window.antt =====
-- The window of engine/progress.py over a task: how much it holds, and which reads count.
use tricoder_agent.Base.{
  ℕ, zero, suc, ◌+◌, ◌-◌, ◌≤◌, ◌<◌, List, [], ◌∷◌, ◌++◌, ◌≡◌, refl, sym, ap, ◌∙◌, Bool, false, none,
  ok, arith, length, length-append, drop, count_if, subst, count_append, All-drop, length-drop, All,
  All-append, All-map, Text, ==_iff, nat_eq, list_eq,
}
use tricoder_agent.Progress.{
  ProgressObservation, ProgressGuard, StoredObservation, continue, create, append_bounded,
  note_user_answer, note_workspace_change, observe, decide, same_read, read_signature,
  repeated_read_decision,
}

-- What a task does to its guard.
pub data Event : Type 0 where
  observed : ProgressObservation → Event
  answered changed : Event

module _ (digest : List Text → Text) (show : ℕ → Text) where
  unfoldable pub run : List Event → ProgressGuard → ProgressGuard
  unfolding observe note_user_answer note_workspace_change
  run [] g = g
  run (observed o ∷ events) g = run events (observe digest show g o).0
  run (answered ∷ events) g = run events (note_user_answer g)
  run (changed ∷ events) g = run events (note_workspace_change g)

-- The window is bounded, and nothing in it is of a later epoch.
record IsWindow (g : ProgressGuard) : Type 0 where
  few : length g.observations ≤ g.capacity
  epochs : All (λ s. s.read_epoch ≤ g.read_epoch) g.observations

append_bounded-length :
    (capacity : ℕ) (window : List StoredObservation) (s : StoredObservation)
    → length (append_bounded capacity window s) ≤ capacity
unfolding append_bounded
append_bounded-length capacity window s = omega (
  arith,
  length-drop (length window + 1 - capacity) (window ++ s ∷ []),
  length-append window (s ∷ []),
)

append_bounded-All :
    (P : StoredObservation → Type 0) (capacity : ℕ) (window : List StoredObservation)
    (s : StoredObservation)
    → All P window
    → P s
    → All P (append_bounded capacity window s)
unfolding append_bounded
append_bounded-All P capacity window s a p =
    All-drop P (length window + 1 - capacity) (window ++ s ∷ [])
      (All-append P window (s ∷ []) a (p, tt))

grown : (g : ProgressGuard) → IsWindow g → IsWindow (record g { read_epoch = g.read_epoch + 1 })
grown g w = record {
  few = w.few;
  epochs = All-map (λ s l. omega (arith, l)) g.observations w.epochs;
}

module _ (digest : List Text → Text) (show : ℕ → Text) where
  observe-IsWindow :
      (g : ProgressGuard) (o : ProgressObservation)
      → IsWindow g
      → IsWindow (observe digest show g o).0
  unfolding observe
  observe-IsWindow g o w = record {
    few = append_bounded-length g.capacity g.observations _;
    epochs =
        append_bounded-All (λ s. s.read_epoch ≤ g.read_epoch) g.capacity g.observations _ w.epochs
          (omega arith);
  }

  run-IsWindow :
      (events : List Event) (g : ProgressGuard) → IsWindow g → IsWindow (run digest show events g)
  unfolding run
  run-IsWindow [] g w = w
  run-IsWindow (observed o ∷ events) g w =
      run-IsWindow events (observe digest show g o).0 (observe-IsWindow g o w)
  run-IsWindow (answered ∷ events) g w =
      run-IsWindow events (note_user_answer g) (unfold note_user_answer in grown g w)
  run-IsWindow (changed ∷ events) g w =
      run-IsWindow events (note_workspace_change g) (unfold note_workspace_change in grown g w)

run-capacity :
    (digest : List Text → Text) (show : ℕ → Text) (events : List Event) (g : ProgressGuard)
    → (run digest show events g).capacity ≡ g.capacity
unfolding run observe note_user_answer note_workspace_change
run-capacity digest show [] g = refl
run-capacity digest show (observed o ∷ events) g =
    run-capacity digest show events (observe digest show g o).0
run-capacity digest show (answered ∷ events) g =
    run-capacity digest show events (note_user_answer g)
run-capacity digest show (changed ∷ events) g =
    run-capacity digest show events (note_workspace_change g)

created_empty :
    (capacity : ℕ) (g : ProgressGuard)
    → create capacity ≡ ok g
    → record { observations = []; capacity = 32; read_epoch = 0 } ≡ g
unfolding create
created_empty capacity g h = ground arith

create-IsWindow : (capacity : ℕ) (g : ProgressGuard) → create capacity ≡ ok g → IsWindow g
create-IsWindow capacity g h =
    subst IsWindow (created_empty capacity g h) (record { few = omega arith; epochs = tt })

-- No element passes the test.
count_none :
    {A : Type 0} (p : A → Bool) (xs : List A) → All (λ x. p x ≡ false) xs → count_if p xs ≡ 0
unfolding count_if
count_none p [] a = refl
count_none p (x ∷ xs) a = rw (a.0, count_none p xs a.1) refl

count_drop :
    {A : Type 0} (p : A → Bool) (n : ℕ) (xs : List A) → count_if p (drop n xs) ≤ count_if p xs
unfolding count_if
count_drop p zero xs = omega arith
count_drop p (suc n) [] = omega arith
count_drop p (suc n) (x ∷ xs) = ground (arith, count_drop p n xs)

module _ (digest : List Text → Text) (show : ℕ → Text) (events : List Event) where
  -- Whatever a task does to a guard that was created, it holds at most 32 observations.
  pub run-bounded :
      (capacity : ℕ) (g : ProgressGuard)
      → create capacity ≡ ok g
      → length (run digest show events g).observations ≤ 32
  run-bounded capacity g h =
      let few = (run-IsWindow digest show events g (create-IsWindow capacity g h)).few in
      let bound : (run digest show events g).capacity ≡ 32 =
        run-capacity digest show events g
        ∙ sym (ap (λ (k : ProgressGuard). k.capacity) (created_empty capacity g h)) in
      omega (arith, few, bound)

-- What the code relies on of `str` of a number: different numbers have different texts.
pub record IsShow (show : ℕ → Text) : Type 0 where
  pub injective : (m n : ℕ) → show m ≡ show n → m ≡ n

module _ (show : ℕ → Text) (shows : IsShow show) where
  other_epoch :
      (current stored : StoredObservation)
      → stored.read_epoch < current.read_epoch
      → same_read show current stored ≡ false
  unfolding same_read read_signature
  other_epoch current stored l = ground (
    arith,
    ==_iff (read_signature show stored) (read_signature show current),
    shows.injective stored.read_epoch current.read_epoch,
  )

  count_fresh :
      (capacity : ℕ) (window : List StoredObservation) (current : StoredObservation)
      → All (λ s. s.read_epoch < current.read_epoch) window
      → count_if (same_read show current) (append_bounded capacity window current) ≤ 1
  unfolding append_bounded count_if
  count_fresh capacity window current a = ground (
    arith,
    count_drop (same_read show current) (length window + 1 - capacity) (window ++ current ∷ []),
    count_append (same_read show current) window (current ∷ []),
    count_none (same_read show current) window (All-map (λ s l. other_epoch current s l) window a),
  )

module _ (digest : List Text → Text) (show : ℕ → Text) (shows : IsShow show) where
  -- On a guard that was created and used in any way, after the user answered, an observation that is
  -- no failure lets the task continue, however often the same was read before.
  pub answer_restarts_reads :
      (capacity : ℕ) (g : ProgressGuard) (events : List Event) (o : ProgressObservation)
      → create capacity ≡ ok g
      → o.failure_classification ≡ none
      → (observe digest show (note_user_answer (run digest show events g)) o).1.action ≡ continue
  unfolding observe note_user_answer decide repeated_read_decision
  answer_restarts_reads capacity g events o h f =
      let now = run digest show events g in
      let w = run-IsWindow digest show events g (create-IsWindow capacity g h) in
      let few =
        count_fresh show shows now.capacity now.observations
          (record { observation = o; read_epoch = now.read_epoch + 1 })
          (All-map (λ s l. omega (arith, l)) now.observations w.epochs) in
      rw f (ground (arith, few))
