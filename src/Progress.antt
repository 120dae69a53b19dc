-- ===== src/Progress.antt =====
-- engine/progress.py: the guard that stops a task which repeats itself. Texts are lists of code
-- points. `digest` is the start of the SHA-256 of a signature's JSON form, and `show` is `str` of a
-- number; both are the standard library's.
pub mod Window
pub mod Stopping
mod Tests
use tricoder_agent.Base.{
  ℕ, ◌+◌, ◌-◌, List, [], ◌∷◌, ◌++◌, Bool, true, false, not, ◌&&◌, ◌||◌, Option, none, some, is_some,
  Result, ok, err, raise_if, ◌>>◌, if◌then◌else◌, ltb, leb, eqb, length, drop, is_nil, any,
  count_if, Text, codes, ◌==◌, nat_eq, list_eq, option_eq,
}

-- `MAX_PROGRESS_OBSERVATIONS`.
abbrev pub max_observations : ℕ
max_observations = 32

pub data ProgressAction : Type 0 where
  continue warn stop : ProgressAction

pub data ProgressReason : Type 0 where
  repeated_failure repeated_observation repair_oscillation : ProgressReason

pub record ProgressObservation : Type 0 where
  pub tool_name : Text
  pub arguments_fingerprint : Text
  pub result_fingerprint : Text
  pub failure_classification : Option Text
  pub workspace_fingerprint : Option Text
  pub workspace_complete : Bool
  pub read_only : Bool
  pub check_fingerprint : Option Text

pub data ProgressError : Type 0 where
  label_invalid optional_label_invalid fingerprint_missing : ProgressError
  continue_with_metadata metadata_invalid capacity_unsupported : ProgressError

abbrev invalid : Text → Bool
invalid value = is_nil value || ltb 128 (length value)

abbrev optional_invalid : Option Text → Bool
optional_invalid none = false
optional_invalid (some value) = invalid value

-- `ProgressObservation.__post_init__`, the tests of types aside.
unfoldable pub validate_observation : ProgressObservation → Result ProgressError (Unit {0})
validate_observation o = do
  raise_if (any invalid (o.tool_name ∷ o.arguments_fingerprint ∷ o.result_fingerprint ∷ []))
      label_invalid
  raise_if
      (any optional_invalid
        (o.failure_classification ∷ o.workspace_fingerprint ∷ o.check_fingerprint ∷ []))
      optional_label_invalid
  raise_if (o.workspace_complete && not (is_some o.workspace_fingerprint)) fingerprint_missing

pub record ProgressDecision : Type 0 where
  pub action : ProgressAction
  pub reason : Option ProgressReason
  pub count : ℕ
  pub limit : ℕ
  pub summary_id : Text

-- `ProgressDecision.__post_init__`, the tests of types aside.
unfoldable pub validate_decision : ProgressDecision → Result ProgressError (Unit {0})
validate_decision d = elim d.action [
  | continue ↦
      raise_if
        (is_some d.reason
          || not (eqb d.count 0)
          || not (eqb d.limit 0)
          || not (is_nil d.summary_id))
        continue_with_metadata
  | _ ↦
      raise_if
        (not (is_some d.reason)
          || not (leb 1 d.count && leb d.count d.limit)
          || not (eqb (length d.summary_id) 16))
        metadata_invalid
]

pub record StoredObservation : Type 0 where
  pub observation : ProgressObservation
  pub read_epoch : ℕ

pub record ProgressGuard : Type 0 where
  pub observations : List StoredObservation
  pub capacity : ℕ
  pub read_epoch : ℕ

-- `__init__`, which accepts one capacity, 32; `capacity` is the bound of the `deque`.
unfoldable pub create : ℕ → Result ProgressError ProgressGuard
create capacity = do
  raise_if (not (eqb capacity max_observations)) capacity_unsupported
  ok (record { observations = []; capacity = capacity; read_epoch = 0 })

-- `append` to a `deque` with a bound.
unfoldable pub append_bounded :
    ℕ → List StoredObservation → StoredObservation → List StoredObservation
append_bounded capacity window stored = drop (length window + 1 - capacity) (window ++ stored ∷ [])

unfoldable pub note_user_answer : ProgressGuard → ProgressGuard
note_user_answer g = record g { read_epoch = g.read_epoch + 1 }

unfoldable pub note_workspace_change : ProgressGuard → ProgressGuard
note_workspace_change g = record g { read_epoch = g.read_epoch + 1 }

-- `value or ""`.
abbrev pub or_empty : Option Text → Text
or_empty none = []
or_empty (some value) = value

unfoldable pub failure_signature : ProgressObservation → List Text
failure_signature o =
    o.tool_name
    ∷ o.arguments_fingerprint
    ∷ or_empty o.failure_classification
    ∷ o.result_fingerprint
    ∷ or_empty o.workspace_fingerprint
    ∷ []

-- The test in the count of `_repeated_failure_decision`.
unfoldable pub same_failure : ProgressObservation → StoredObservation → Bool
unfolding failure_signature
same_failure o stored =
    stored.observation.workspace_complete
    && failure_signature stored.observation == failure_signature o

-- One round of the loop in `_oscillation_decision`. A complete observation has a fingerprint, so the
-- assertion there holds.
unfoldable pub add_state : Option Text → List Text → StoredObservation → List Text
add_state check states stored =
    let item = stored.observation in
    let fingerprint = or_empty item.workspace_fingerprint in
    if not item.workspace_complete
      || not (is_some item.failure_classification)
      || not (item.check_fingerprint == check)
    then states
    else elim states [
      | [] ↦ fingerprint ∷ []
      | last ∷ earlier ↦
          if last == fingerprint then last ∷ earlier else fingerprint ∷ last ∷ earlier
    ]

-- The loop; the states are held last first.
unfoldable pub states_of : Option Text → List Text → List StoredObservation → List Text
unfolding add_state
states_of check states [] = states
states_of check states (stored ∷ rest) = states_of check (add_state check states stored) rest

-- The last five states go back and forth between two.
unfoldable pub alternates : List Text → Bool
alternates (e ∷ d ∷ c ∷ b ∷ a ∷ earlier) = a == c && c == e && b == d && not (a == b)
alternates _ = false

unfoldable pub tail_of : List Text → List Text
tail_of (e ∷ d ∷ c ∷ b ∷ a ∷ earlier) = a ∷ b ∷ c ∷ d ∷ e ∷ []
tail_of _ = []

-- `ProgressDecision()`.
abbrev pub go_on : ProgressDecision
go_on = record { action = continue; reason = none; count = 0; limit = 0; summary_id = [] }

abbrev pub or_else : Option ProgressDecision → ProgressDecision → ProgressDecision
or_else none d = d
or_else (some d) rest = d

module _ (show : ℕ → Text) where
  unfoldable pub read_signature : StoredObservation → List Text
  read_signature stored =
      stored.observation.tool_name
      ∷ stored.observation.arguments_fingerprint
      ∷ stored.observation.result_fingerprint
      ∷ or_empty stored.observation.workspace_fingerprint
      ∷ show stored.read_epoch
      ∷ []

  -- The test in the count of `_repeated_read_decision`.
  unfoldable pub same_read : StoredObservation → StoredObservation → Bool
  unfolding read_signature
  same_read current stored =
      stored.observation.workspace_complete
      && stored.observation.read_only
      && not (is_some stored.observation.failure_classification)
      && read_signature stored == read_signature current

module _ (digest : List Text → Text) where
  unfoldable pub decision : ProgressAction → ProgressReason → ℕ → ℕ → List Text → ProgressDecision
  decision action reason count limit signature = record {
    action = action;
    reason = some reason;
    count = count;
    limit = limit;
    summary_id = digest signature;
  }

  unfoldable pub repeated_failure_decision :
      List StoredObservation → ProgressObservation → Option ProgressDecision
  unfolding decision
  repeated_failure_decision window o =
      let count = count_if (same_failure o) window in
      if eqb count 2
      then some (decision warn repeated_failure count 3 (failure_signature o))
      else if leb 3 count
      then some (decision stop repeated_failure 3 3 (failure_signature o))
      else none

  unfoldable pub oscillation_decision :
      List StoredObservation → ProgressObservation → Option ProgressDecision
  unfolding decision
  oscillation_decision window o =
      let states = states_of o.check_fingerprint [] window in
      if is_some o.check_fingerprint && alternates states
      then some (
          decision stop repair_oscillation 5 5
            (codes "repair_oscillation" ∷ or_empty o.check_fingerprint ∷ tail_of states))
      else none

module _ (digest : List Text → Text) (show : ℕ → Text) where
  unfoldable pub repeated_read_decision :
      List StoredObservation → StoredObservation → Option ProgressDecision
  unfolding decision
  repeated_read_decision window current =
      let count = count_if (same_read show current) window in
      if eqb count 2
      then some (decision digest warn repeated_observation count 4 (read_signature show current))
      else if leb 4 count
      then some (decision digest stop repeated_observation 4 4 (read_signature show current))
      else none

  -- What `observe` decides on the window that already holds the observation.
  unfoldable pub decide : List StoredObservation → StoredObservation → ProgressDecision
  decide window stored =
      let o = stored.observation in
      if not o.workspace_complete
      then go_on
      else if is_some o.failure_classification
      then or_else (oscillation_decision digest window o)
          (or_else (repeated_failure_decision digest window o) go_on)
      else if o.read_only
      then or_else (repeated_read_decision window stored) go_on
      else go_on

  unfoldable pub observe : ProgressGuard → ProgressObservation → ProgressGuard × ProgressDecision
  unfolding append_bounded decide
  observe g o =
      let stored : StoredObservation = record { observation = o; read_epoch = g.read_epoch } in
      let window = append_bounded g.capacity g.observations stored in
      (record g { observations = window }, decide window stored)
