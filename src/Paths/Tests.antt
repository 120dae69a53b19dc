-- ===== src/Paths/Tests.antt =====
-- Runs of workspace/check_coverage.py at concrete paths, on POSIX: no folding of case.
use tricoder_agent.Base.{
  ℕ, List, [], ◌∷◌, ◌≡◌, ◌↔◌, ◌⊎◌, refl, true, false, some, Text, codes, All, Has, any, contains,
  distinct, distinct_from, join, keep, replace, rstrip, split, starts_with,
}
use tricoder_agent.Paths.{
  normalized_parts, target_covers_path, uncovered_paths, source_verification_paths,
}
use tricoder_agent.Paths.Coverage.{IsFold, AtOrBelow, target_covers_path_iff}
use tricoder_agent.Paths.Uncovered.{Covered, source_verification_paths-Covered}

abbrev posix : ℕ → ℕ
posix c = c

posix-IsFold : IsFold posix
posix-IsFold = record { to_slash = λ c e. e; to_backslash = λ c e. e; to_dot = λ c e. e }

abbrev source : Text
source = codes "src"

abbrev file : Text
file = codes "src/app.py"

abbrev targets : List Text
targets = codes "src/" ∷ []

climbs :
    normalized_parts (codes "src/pkg") (codes "..\\app.py") ≡ some (source ∷ codes "app.py" ∷ [])
unfolding normalized_parts starts_with replace keep split
climbs = refl

-- A name that only begins the same is not covered.
no_prefix : target_covers_path posix (codes "src") (codes "src2/app.py") ≡ false
unfolding target_covers_path starts_with replace keep split join rstrip
no_prefix = refl

nothing_uncovered :
    uncovered_paths posix (source_verification_paths posix (file ∷ []) (source ∷ [])) targets ≡ []
unfolding uncovered_paths source_verification_paths keep distinct distinct_from contains any
    starts_with replace split join rstrip
nothing_uncovered = refl

target_covers_path_iff_example :
    (target_covers_path posix source file ≡ true) ↔ AtOrBelow posix posix-IsFold source file
target_covers_path_iff_example = target_covers_path_iff posix posix-IsFold source file

source_verification_paths-Covered_example :
    All (Covered posix targets) (file ∷ [])
    × All
        (λ directory.
          Covered posix targets directory
          ⊎ Has (λ path. target_covers_path posix directory path ≡ true) (file ∷ []))
        (source ∷ [])
source_verification_paths-Covered_example =
    source_verification_paths-Covered posix targets (file ∷ []) (source ∷ []) nothing_uncovered
