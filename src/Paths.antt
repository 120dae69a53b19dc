-- ===== src/Paths.antt =====
-- workspace/check_coverage.py: which paths a check's targets cover. Only texts are compared; who
-- produced them is the caller's business. `fold` is what `os.path.normcase` does to a character
-- other than a slash: nothing on POSIX, lower case on Windows.
pub mod Segments
pub mod Coverage
pub mod Uncovered
mod Tests
use mathlib.Core.Option
use mathlib.Core.List.{reverse}
use tricoder_agent.Base.{
  ℕ, List, [], ◌∷◌, ◌++◌, Bool, true, false, not, ◌&&◌, ◌||◌, Option, none, some, map, eqb,
  if◌then◌else◌, any, keep, distinct, Text, starts_with, split, join, replace, rstrip, ◌==◌, nat_eq,
  list_eq,
}

abbrev pub slash : ℕ
slash = b'/'

abbrev pub backslash : ℕ
backslash = 92

abbrev pub is_slash : ℕ → Bool
is_slash c = eqb c slash || eqb c backslash

-- `PurePosixPath(s).is_absolute()`.
unfoldable pub is_absolute : Text → Bool
is_absolute s = starts_with s (slash ∷ [])

-- `bool(PureWindowsPath(s).drive)`: a letter with a colon, or two slashes of either kind.
unfoldable pub has_drive : Text → Bool
has_drive (a ∷ b ∷ s) = eqb b b':' || is_slash a && is_slash b
has_drive _ = false

abbrev pub dot : Text
dot = b'.' ∷ []

abbrev pub dot_dot : Text
dot_dot = b'.' ∷ b'.' ∷ []

-- `PurePosixPath(s).parts` of a relative path.
unfoldable pub parts : Text → List Text
parts s = keep (λ p. not (p == []) && not (p == dot)) (split slash s)

-- The loop of `normalize_target`; `normalized` is held last part first.
unfoldable pub resolve : List Text → List Text → Option (List Text)
resolve normalized [] = some normalized
resolve normalized (part ∷ rest) =
    let popped : Option (List Text) = elim normalized [
      | [] ↦ none
      | last ∷ above ↦ resolve above rest
    ] in
    let pushed = resolve (part ∷ normalized) rest in if part == dot_dot then popped else pushed

unfoldable pub normcase : (ℕ → ℕ) → ℕ → ℕ
normcase fold c = if eqb c slash then slash else fold c

-- `os.path.normcase("/".join(normalized)).replace("\\", "/") or "."`.
unfoldable pub render : (ℕ → ℕ) → List Text → Text
unfolding normcase
render fold normalized =
    let text = replace backslash slash (map (normcase fold) (join slash normalized)) in
    if text == [] then dot else text

-- The test on each raw argument.
unfoldable pub is_relative : Text → Bool
unfolding is_absolute has_drive
is_relative raw = not (is_absolute (replace backslash slash raw) || has_drive raw)

-- The parts of `PurePosixPath(cwd) / target`, resolved.
unfoldable pub normalized_parts : Text → Text → Option (List Text)
unfolding is_relative parts resolve
normalized_parts cwd target =
    if is_relative cwd && is_relative target
    then Option.map reverse
        (resolve [] (parts (replace backslash slash cwd) ++ parts (replace backslash slash target)))
    else none

unfoldable pub normalize_target : (ℕ → ℕ) → Text → Text → Option Text
unfolding normalized_parts render
normalize_target fold cwd target = Option.map (render fold) (normalized_parts cwd target)

-- The comparison of `target_covers_path`, of two normalized texts.
unfoldable pub covers_text : Text → Text → Bool
covers_text target path =
    target == dot || target == path || starts_with path (rstrip slash target ++ slash ∷ [])

abbrev both : Option Text → Option Text → Bool
both (some target) (some path) = covers_text target path
both _ _ = false

unfoldable pub target_covers_path : (ℕ → ℕ) → Text → Text → Bool
unfolding normalize_target covers_text
target_covers_path fold target path =
    both (normalize_target fold dot target) (normalize_target fold dot path)

unfoldable pub uncovered_paths : (ℕ → ℕ) → List Text → List Text → List Text
unfolding target_covers_path
uncovered_paths fold paths targets =
    keep (λ path. not (any (λ target. target_covers_path fold target path) targets))
      (distinct paths)

unfoldable pub source_verification_paths : (ℕ → ℕ) → List Text → List Text → List Text
unfolding target_covers_path
source_verification_paths fold files directories = distinct (
    files
    ++ keep (λ directory. not (any (λ path. target_covers_path fold directory path) files))
        directories)

unfoldable pub covered_structural_directories :
    (ℕ → ℕ) → List Text → List Text → List Text → List Text
unfolding target_covers_path uncovered_paths
covered_structural_directories fold files directories targets =
    keep
      (λ directory.
        let children = keep (λ path. target_covers_path fold directory path) files in
        not (children == []) && uncovered_paths fold children targets == [])
      directories
