-- ===== src/Progress/Tests.antt =====
-- Runs of engine/progress.py at concrete observations.
use tricoder_agent.Base.{
  ℕ, ◌≤◌, List, [], ◌∷◌, ◌≡◌, ◌↔◌, ◌⊎◌, refl, true, false, none, some, ok, Text, codes, length,
  arith,
}
use tricoder_agent.Progress.{
  ProgressObservation, ProgressGuard, StoredObservation, stop, create, observe, decide,
}
use tricoder_agent.Progress.Window.{Event, observed, answered, changed, run, run-bounded, IsShow}
use tricoder_agent.Progress.Stopping.{
  Oscillates, RepeatsFailure, RepeatsRead, decide-stop_iff, third_failure_stops,
}

abbrev digest : List Text → Text
digest signature = codes "0123456789abcdef"

abbrev show : ℕ → Text
show n = n ∷ []

show-IsShow : IsShow show
show-IsShow = record { injective = λ m n e. ground arith }

abbrev failing : ProgressObservation
failing = record {
  tool_name = codes "run";
  arguments_fingerprint = codes "a";
  result_fingerprint = codes "r";
  failure_classification = some (codes "exit");
  workspace_fingerprint = some (codes "w");
  workspace_complete = true;
  read_only = false;
  check_fingerprint = none;
}

abbrev reading : ProgressObservation
reading = record failing { failure_classification = none; read_only = true }

abbrev guard : ProgressGuard
guard = record { observations = []; capacity = 32; read_epoch = 0 }

abbrev stored : StoredObservation
stored = record { observation = failing; read_epoch = 0 }

abbrev events : List Event
events =
    observed reading
    ∷ observed reading
    ∷ changed
    ∷ observed failing
    ∷ answered
    ∷ observed reading
    ∷ []

created : create 32 ≡ ok guard
unfolding create
created = refl

run-bounded_example : length (run digest show events guard).observations ≤ 32
run-bounded_example = run-bounded digest show events 32 guard created

decide-stop_iff_example :
    ((decide digest show (stored ∷ stored ∷ stored ∷ []) stored).action ≡ stop) ↔ (
      (true ≡ true)
      × (((true ≡ true)
            × (Oscillates digest show (stored ∷ stored ∷ stored ∷ []) failing
                ⊎ RepeatsFailure digest show (stored ∷ stored ∷ stored ∷ []) failing))
          ⊎ ((true ≡ false) × RepeatsRead digest show (stored ∷ stored ∷ stored ∷ []) stored)))
decide-stop_iff_example = decide-stop_iff digest show (stored ∷ stored ∷ stored ∷ []) stored

third_failure_stops_example :
    (observe digest show
      (observe digest show (observe digest show guard failing).0 failing).0
      failing).1.action
    ≡ stop
third_failure_stops_example = third_failure_stops digest show guard failing (omega arith) refl refl
