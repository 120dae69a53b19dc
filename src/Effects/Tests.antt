-- ===== src/Effects/Tests.antt =====
-- Runs of execution_state.py at concrete effects.
use tricoder_agent.Base.{
  ℕ, [], ◌∷◌, ◌≡◌, refl, Bool, false, ok, err, Text, codes, leb, all, any, contains, distinct,
  distinct_from, split, starts_with,
}
use tricoder_agent.Effects.{
  ExecutionState, FileEffects, nothing, confirmed, unknown, make_file_effects, path_not_canonical,
}
use tricoder_agent.Effects.Contract.{IsValid, make_file_effects-IsValid}

abbrev file : Text
file = codes "src/app.py"

abbrev written : FileEffects
written = record { state = confirmed; paths = file ∷ []; directory_paths = [] }

abbrev lost : FileEffects
lost = record { state = unknown; paths = []; directory_paths = [] }

abbrev quiet : FileEffects
quiet = record { state = nothing; paths = []; directory_paths = [] }

abbrev passed : ExecutionState
passed = record {
  modified_files = [];
  verification = "passed";
  unknown_effects = false;
  modified_directories = [];
}

abbrev ascii : ℕ → Bool
ascii c = leb 32 c

made : make_file_effects ascii confirmed (file ∷ []) [] ≡ ok written
unfolding make_file_effects distinct distinct_from contains all starts_with any split
made = refl

climbing_refused :
    make_file_effects ascii confirmed (codes "../app.py" ∷ []) [] ≡ err path_not_canonical
unfolding make_file_effects distinct distinct_from contains all starts_with any split
climbing_refused = refl

make_file_effects-IsValid_example : IsValid written
make_file_effects-IsValid_example =
    make_file_effects-IsValid ascii confirmed (file ∷ []) [] written made
