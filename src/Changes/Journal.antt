-- ===== src/Changes/Journal.antt =====
-- changes.py: `ChangeJournal`. Its seven `_active_...` fields are set and reset together, so they are
-- one optional record. A set is the list of its elements, first added first.
use tricoder_agent.Base.{
  ℕ, ◌+◌, String, List, [], ◌∷◌, ◌++◌, Bool, true, false, not, ◌||◌, Option, none, some, Result, ok,
  err, if◌then◌else◌, ltb, leb, length, is_nil, keep, contains, distinct, Text, ◌==◌, nat_eq,
  list_eq, sorted_by,
}
use tricoder_agent.Base.Dict.{Dict, get, put, has_key, keys, entries}
use tricoder_agent.Base.Exec.{Exec, pure, read, lift, modify, raise_when, ◌>>=◌, ◌>>◌}
use tricoder_agent.Effects.{nothing, confirmed, unknown, FileEffects, make_file_effects}
use tricoder_agent.Changes.{
  FileSnapshot, DirectorySnapshot, FileChange, DirectoryChange, TaskChangeSet, ChangeError,
  budget_exceeded, task_active, task_missing, latest_changed, effects_invalid, same_file,
  same_directory, apply, validate_change, file_path, directory_path, project, chars_of,
}

-- The active task.
pub record Active : Type 0 where
  pub changes : Dict Text FileChange
  pub after : Dict Text (Option FileSnapshot)
  pub tainted : List Text
  pub directory_changes : Dict Text DirectoryChange
  pub directory_after : Dict Text (Option DirectorySnapshot)
  pub tainted_directories : List Text
  pub reservations : List Text

pub record ChangeJournal : Type 0 where
  pub max_chars : ℕ
  pub max_directories : ℕ
  pub active : Option Active
  pub before_modified_files : List Text
  pub before_modified_directories : List Text
  pub before_verification : String
  pub latest : Option TaskChangeSet
  pub revision : ℕ

abbrev pub Method : Type 0 → Type 0
Method = Exec ChangeJournal ChangeError

unfoldable pub create : ℕ → ℕ → ChangeJournal
create max_chars max_directories = record {
  max_chars = max_chars;
  max_directories = max_directories;
  active = none;
  before_modified_files = [];
  before_modified_directories = [];
  before_verification = "";
  latest = none;
  revision = 0;
}

abbrev pub nothing_yet : Active
nothing_yet = record {
  changes = [];
  after = [];
  tainted = [];
  directory_changes = [];
  directory_after = [];
  tainted_directories = [];
  reservations = [];
}

abbrev pub is_active : Option Active → Bool
is_active none = false
is_active (some a) = true

unfoldable pub begin_task : List Text → String → List Text → Method (Unit {0})
begin_task modified_files verification modified_directories = do
  running ← read (λ j. is_active j.active)
  raise_when running task_active
  modify (λ j. record j {
    active = some nothing_yet;
    revision = 0;
    before_modified_files = modified_files;
    before_modified_directories = modified_directories;
    before_verification = verification;
  })

-- `_require_active_changes`.
unfoldable pub require_active : Method Active
require_active j = elim j.active [ none ↦ (err task_missing, j) | some a ↦ (ok a, j) ]

abbrev set_active : Active → Method (Unit {0})
set_active a = modify (λ j. record j { active = some a })

abbrev advance : Method (Unit {0})
advance = modify (λ j. record j { revision = j.revision + 1 })

unfoldable pub reserve : List FileChange → Method (Unit {0})
unfolding require_active
reserve proposed = do
  a ← require_active
  projected ← lift (project a.changes proposed)
  limit ← read (λ j. j.max_chars)
  raise_when (ltb limit (chars_of (entries projected))) budget_exceeded

unfoldable pub set_directory_baseline : List Text → Method (Unit {0})
unfolding require_active
set_directory_baseline paths = do
  require_active
  modify (λ j. record j { before_modified_directories = paths })

unfoldable pub record_committed :
    Text → Option FileSnapshot → Option FileSnapshot → Method (Unit {0})
unfolding require_active
record_committed path before after = do
  a ← require_active
  lift (validate_change file_path (record { path = path; before = before; after = after }))
  set_active (record a {
    changes = apply same_file a.changes (record { path = path; before = before; after = after });
    after = put a.after path after;
  })
  advance

-- `reservations | set(paths)`.
abbrev union : List Text → List Text → List Text
union xs ys = distinct (xs ++ ys)

unfoldable pub reserve_directories : List Text → Method (Unit {0})
unfolding require_active
reserve_directories paths = do
  a ← require_active
  limit ← read (λ j. j.max_directories)
  raise_when (ltb limit (length (union a.reservations paths))) budget_exceeded
  set_active (record a { reservations = union a.reservations paths })

-- The changes and the reservation are written before the budget is tested.
unfoldable pub record_directory_committed :
    Text → Option DirectorySnapshot → Option DirectorySnapshot → Method (Unit {0})
unfolding require_active
record_directory_committed path before after = do
  a ← require_active
  lift (validate_change directory_path (record { path = path; before = before; after = after }))
  set_active (record a {
    directory_changes =
        apply same_directory a.directory_changes
          (record { path = path; before = before; after = after });
    directory_after = put a.directory_after path after;
    reservations = union a.reservations (path ∷ []);
  })
  limit ← read (λ j. j.max_directories)
  raise_when (ltb limit (length (union a.reservations (path ∷ [])))) budget_exceeded
  advance

abbrev recorded : {S : Type 0} → Option (Option S) → Option S
recorded none = none
recorded (some state) = state

unfoldable pub active_after : Text → Method (Bool × Option FileSnapshot)
unfolding require_active
active_after path = do a ← require_active; pure (has_key a.after path, recorded (get a.after path))

unfoldable pub active_directory_after : Text → Method (Bool × Option DirectorySnapshot)
unfolding require_active
active_directory_after path = do
  a ← require_active
  pure (has_key a.directory_after path, recorded (get a.directory_after path))

unfoldable pub mark_tainted : Text → Method (Unit {0})
unfolding require_active
mark_tainted path = do
  a ← require_active
  if contains a.tainted path
      then pure tt
      else set_active (record a { tainted = a.tainted ++ path ∷ [] }) >> advance

unfoldable pub mark_directory_tainted : Text → Method (Unit {0})
unfolding require_active
mark_directory_tainted path = do
  a ← require_active
  if contains a.tainted_directories path
      then pure tt
      else set_active (record a { tainted_directories = a.tainted_directories ++ path ∷ [] })
        >> advance

unfoldable pub active_revision : Method ℕ
unfolding require_active
active_revision = do require_active; read (λ j. j.revision)

unfoldable pub is_tainted : Text → Method Bool
unfolding require_active
is_tainted path = do a ← require_active; pure (contains a.tainted path)

abbrev sorted : List Text → List Text
sorted = sorted_by (λ t. t)

-- The state and the paths that `active_effects` reports.
unfoldable pub effects_of : Active → FileEffects
effects_of a =
    let paths = distinct (keys a.changes ++ sorted a.tainted) in
    let directory_paths = distinct (keys a.directory_changes ++ sorted a.tainted_directories) in
    record {
      state =
          if not (is_nil a.tainted) || not (is_nil a.tainted_directories)
          then unknown
          else if not (is_nil paths) || not (is_nil directory_paths)
          then confirmed
          else nothing;
      paths = paths;
      directory_paths = directory_paths;
    }

-- The effects that `active_effects_since` reports once the revision moved on.
unfoldable pub effects_or_commits : Active → FileEffects
effects_or_commits a =
    let effects = effects_of a in
    elim effects.state [
      | nothing ↦ record {
        state = confirmed;
        paths = keys a.after;
        directory_paths = keys a.directory_after;
      }
      | _ ↦ effects
    ]

module _ (printable : ℕ → Bool) where
  -- The constructor of `FileEffects`.
  unfoldable pub construct : FileEffects → Result ChangeError FileEffects
  construct e = elim (make_file_effects printable e.state e.paths e.directory_paths) [
    | ok effects ↦ ok effects
    | err x ↦ err effects_invalid
  ]

  unfoldable pub active_effects : Method FileEffects
  unfolding require_active construct
  active_effects = do a ← require_active; lift (construct (effects_of a))

  unfoldable pub active_effects_since : ℕ → Method FileEffects
  unfolding require_active construct
  active_effects_since consumed_revision = do
    a ← require_active
    revision ← read (λ j. j.revision)
    if leb revision consumed_revision
        then lift (construct (record { state = nothing; paths = []; directory_paths = [] }))
        else lift (construct (effects_of a)) >> lift (construct (effects_or_commits a))

-- The loop over the directory changes in `seal_task`.
unfoldable pub directories_after : List Text → List DirectoryChange → List Text
directories_after directories [] = directories
directories_after directories (change ∷ changes) =
    directories_after
      (elim change.after [
        | none ↦ keep (λ path. not (path == change.path)) directories
        | some s ↦
            if contains directories change.path
            then directories
            else directories ++ change.path ∷ []
      ])
      changes

abbrev or_default : Option (List Text) → List Text → List Text
or_default none default = default
or_default (some given) default = given

-- The change set of a task that changed something.
unfoldable pub change_set :
    ChangeJournal → Active → List Text → String → Option (List Text) → Option TaskChangeSet
unfolding directories_after
change_set j a modified_files verification modified_directories =
    if not (is_nil a.changes)
      || not (is_nil a.tainted)
      || not (is_nil a.directory_changes)
      || not (is_nil a.tainted_directories)
    then some (record {
      changes = entries a.changes;
      before_modified_files = j.before_modified_files;
      before_verification = j.before_verification;
      after_modified_files = modified_files;
      after_verification = verification;
      tainted_paths = sorted a.tainted;
      directory_changes = entries a.directory_changes;
      before_modified_directories = j.before_modified_directories;
      after_modified_directories =
          or_default modified_directories
            (directories_after j.before_modified_directories (entries a.directory_changes));
      tainted_directory_paths = sorted a.tainted_directories;
    })
    else none

abbrev newer : Option TaskChangeSet → Option TaskChangeSet → Option TaskChangeSet
newer none latest = latest
newer (some result) latest = some result

unfoldable pub seal_task : List Text → String → Option (List Text) → Method (Option TaskChangeSet)
unfolding require_active
seal_task modified_files verification modified_directories = do
  a ← require_active
  result ← read (λ j. change_set j a modified_files verification modified_directories)
  modify (λ j. record j {
    active = none;
    before_modified_files = [];
    before_modified_directories = [];
    before_verification = "";
    latest = newer result j.latest;
  })
  pure result

unfoldable pub clear_latest : ChangeJournal → ChangeJournal
clear_latest j = record j { latest = none }

-- `expected == latest` is the test `same` of the caller: equality of the data of two change sets.
unfoldable pub replace_latest :
    (TaskChangeSet → TaskChangeSet → Bool) → TaskChangeSet → TaskChangeSet → Method (Unit {0})
replace_latest same expected replacement = do
  running ← read (λ j. is_active j.active)
  raise_when running task_active
  differs ← read (λ j. elim j.latest [ none ↦ true | some latest ↦ not (same latest expected) ])
  raise_when differs latest_changed
  modify (λ j. record j { latest = some replacement })
