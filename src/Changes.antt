-- ===== src/Changes.antt =====
-- changes.py: the changes of one task. `FileChange` and `DirectoryChange` have one shape, a `Change` of
-- what a snapshot is. Rendering a diff is not modelled.
pub mod Journal
pub mod Net
pub mod Reserving
mod Tests
use tricoder_agent.Base.{
  ℕ, ◌+◌, String, List, [], ◌∷◌, Bool, true, false, not, ◌&&◌, ◌||◌, Option, none, some, Result, ok,
  err, raise_if, ◌>>=◌, ◌>>◌, if◌then◌else◌, eqb, length, Text, ◌==◌, nat_eq, list_eq,
}
use tricoder_agent.Base.Dict.{Dict, get, put, pop, entries}

pub record FileIdentity : Type 0 where
  pub device : ℕ
  pub inode : ℕ

pub record FileSnapshot : Type 0 where
  pub path : Text
  pub content : Text
  pub mode : ℕ
  pub identity : FileIdentity

pub record DirectorySnapshot : Type 0 where
  pub path : Text
  pub mode : ℕ
  pub identity : FileIdentity

pub record Change (S : Type 0) : Type 0 where
  pub path : Text
  pub before : Option S
  pub after : Option S

abbrev pub FileChange : Type 0
FileChange = Change FileSnapshot

abbrev pub DirectoryChange : Type 0
DirectoryChange = Change DirectorySnapshot

pub record TaskChangeSet : Type 0 where
  pub changes : List FileChange
  pub before_modified_files : List Text
  pub before_verification : String
  pub after_modified_files : List Text
  pub after_verification : String
  pub tainted_paths : List Text
  pub directory_changes : List DirectoryChange
  pub before_modified_directories : List Text
  pub after_modified_directories : List Text
  pub tainted_directory_paths : List Text

pub data ChangeError : Type 0 where
  -- `ChangeBudgetError`
  budget_exceeded : ChangeError
  -- `ChangeJournalError`, for each of its reasons
  task_active task_missing path_differs latest_changed : ChangeError
  -- the `ValueError` of `FileEffects`
  effects_invalid : ChangeError

abbrev same_identity : FileIdentity → FileIdentity → Bool
same_identity a b = eqb a.device b.device && eqb a.inode b.inode

-- `_is_net_zero`, and the comparison of directory snapshots in `_is_directory_net_zero`.
abbrev pub same_file : FileSnapshot → FileSnapshot → Bool
same_file a b = a.content == b.content && eqb a.mode b.mode

abbrev pub same_directory : DirectorySnapshot → DirectorySnapshot → Bool
same_directory a b = a.path == b.path && eqb a.mode b.mode && same_identity a.identity b.identity

-- The change that `_apply` merges: the earliest state before with the latest state after.
unfoldable pub merged : {S : Type 0} → Option (Change S) → Change S → Change S
merged none change = change
merged (some existing) change = record change { before = existing.before }

module _ {S : Type 0} (same : S → S → Bool) where
  unfoldable pub same_state : Option S → Option S → Bool
  same_state none none = true
  same_state none (some b) = false
  same_state (some a) none = false
  same_state (some a) (some b) = same a b

  -- `_apply` and `_apply_directory`.
  unfoldable pub apply : Dict Text (Change S) → Change S → Dict Text (Change S)
  unfolding merged same_state
  apply changes change =
      let m = merged (get changes change.path) change in
      if same_state m.before m.after then pop changes change.path else put changes change.path m

abbrev names_other : {S : Type 0} → (S → Text) → Text → Option S → Bool
names_other path_of path none = false
names_other path_of path (some s) = not (path_of s == path)

-- `_validate_change` and `_validate_directory_change`.
unfoldable pub validate_change :
    {S : Type 0} → (S → Text) → Change S → Result ChangeError (Unit {0})
validate_change path_of change = do
  raise_if (names_other path_of change.path change.before) path_differs
  raise_if (names_other path_of change.path change.after) path_differs

abbrev pub file_path : FileSnapshot → Text
file_path s = s.path

abbrev pub directory_path : DirectorySnapshot → Text
directory_path s = s.path

-- `_project`: the loop over the proposed changes.
unfoldable pub project :
    Dict Text FileChange → List FileChange → Result ChangeError (Dict Text FileChange)
unfolding validate_change apply
project changes [] = ok changes
project changes (change ∷ proposed) = do
  validate_change file_path change
  project (apply same_file changes change) proposed

abbrev content_length : Option FileSnapshot → ℕ
content_length none = 0
content_length (some s) = length s.content

-- The sum in `reserve`.
unfoldable pub chars_of : List FileChange → ℕ
chars_of [] = 0
chars_of (change ∷ changes) =
    content_length change.before + content_length change.after + chars_of changes
