-- ===== src/Extensions.antt =====
-- extensions/host.py and extensions/models.py: the host starts extensions in their order, stops them in
-- the reverse order and resolves their tools. A provider is a number, its identity, with its descriptor;
-- what its methods do is an answer of the world. The lists of handlers are tuples of `ToolHandler`.
pub mod Stopping
pub mod Ownership
pub mod Resolving
pub mod Tests
use tricoder_agent.Base.{
  ℕ, List, [], ◌∷◌, ◌++◌, Bool, true, false, not, ◌&&◌, ◌||◌, Option, none, some, Result, ok, err,
  if◌then◌else◌, ltb, leb, eqb, length, is_nil, all, any, keep, count_if, map, Text, codes, ◌==◌,
  nat_eq, list_eq, option_eq,
}
use tricoder_agent.Base.Exec.{Exec, pure, raise, modify, raise_when, ◌>>=◌, ◌>>◌}

pub data ExtensionKind : Type 0 where
  mcp : ExtensionKind
  skill : ExtensionKind
  hook : ExtensionKind

pub data ExtensionTrust : Type 0 where
  builtin : ExtensionTrust
  user : ExtensionTrust
  project : ExtensionTrust

pub record ExtensionDescriptor : Type 0 where
  pub id : Text
  pub kind : ExtensionKind
  pub source : Text
  pub enabled : Bool
  pub trust : ExtensionTrust

pub record ExtensionFailure : Type 0 where
  pub extension_id : Text
  pub phase : Text
  pub safe_message : Text
  pub tool_name : Option Text

pub record ToolHandler : Type 0 where
  pub name : Text
  pub risk : Option Text

pub record ExtensionProvider : Type 0 where
  pub identity : ℕ
  pub descriptor : ExtensionDescriptor

pub record ExtensionHost : Type 0 where
  pub providers : List ExtensionProvider
  pub started : List ExtensionProvider
  pub stop_pending : List ExtensionProvider
  pub failures : List ExtensionFailure
  pub tool_cache : Option (List (ExtensionProvider × ToolHandler))

-- What leaves a method: a cancellation, or the refusal to start.
pub data HostError : Type 0 where
  cancelled : HostError
  runtime_error : HostError
  value_error : HostError

-- What a provider's `stop` does: `interrupted` is a native cancellation that leaves it.
pub data StopOutcome : Type 0 where
  stopped : StopOutcome
  failed : StopOutcome
  interrupted : StopOutcome

pub data StartOutcome : Type 0 where
  succeeded : StartOutcome
  start_failed : StartOutcome
  start_cancelled : StartOutcome

-- The world's answers for a provider: the token before and after its start, and the start.
pub record Turn : Type 0 where
  pub cancelled_before : Bool
  pub outcome : StartOutcome
  pub cancelled_after : Bool

-- `ExtensionHost.__init__`.
unfoldable pub create : List ExtensionProvider → Result HostError ExtensionHost
create providers =
    if ltb 64 (length providers)
    then err value_error
    else ok (record {
      providers = providers;
      started = [];
      stop_pending = [];
      failures = [];
      tool_cache = none;
    })

abbrev failure_beq : ExtensionFailure → ExtensionFailure → Bool
failure_beq a b =
    a.extension_id == b.extension_id
    && (a.phase == b.phase)
    && (a.safe_message == b.safe_message)
    && (a.tool_name == b.tool_name)

-- `_record_failure`.
unfoldable pub record_failure : ExtensionFailure → ExtensionHost → ExtensionHost
record_failure failure h = record h {
  failures =
      if any (failure_beq failure) h.failures then h.failures else h.failures ++ failure ∷ [];
}

abbrev pub failure_of : ExtensionProvider → Text → Text → Option Text → ExtensionFailure
failure_of p phase message tool = record {
  extension_id = p.descriptor.id;
  phase = phase;
  safe_message = message;
  tool_name = tool;
}

abbrev stop_failure : ExtensionProvider → ExtensionFailure
stop_failure p = failure_of p (codes "stop") (codes "扩展停止失败，已继续清理其他扩展") none

abbrev pub Method : Type 0
Method = Exec ExtensionHost HostError (Unit {0})

abbrev leave_pending : ExtensionProvider → ExtensionHost → ExtensionHost
leave_pending p h =
    record_failure (stop_failure p) (record h { stop_pending = h.stop_pending ++ p ∷ [] })

-- `_cleanup_failed_start`, whose body is that of the loop of `_stop_providers`.
unfoldable pub cleanup : ExtensionProvider → StopOutcome → Method
unfolding record_failure
cleanup p stopped = pure tt
cleanup p failed = modify (leave_pending p)
cleanup p interrupted = raise cancelled

unfoldable pub reversed : {A : Type 0} → List A → List A
reversed [] = []
reversed (x ∷ xs) = reversed xs ++ x ∷ []

abbrev pub has_duplicates : List ExtensionProvider → Text → Bool
has_duplicates providers id = ltb 1 (count_if (λ p. p.descriptor.id == id) providers)

unfoldable pub is_enabled : ExtensionProvider → Bool
is_enabled p = p.descriptor.enabled

module _ (stops : ExtensionProvider → StopOutcome) where
  unfoldable pub stop_providers : List ExtensionProvider → Method
  stop_providers [] = pure tt
  stop_providers (p ∷ ps) = cleanup p (stops p) >> stop_providers ps

  -- `_stop_started`.
  unfoldable pub stop_started : Method
  stop_started h =
      stop_providers (reversed h.started) (record h { started = []; tool_cache = none })

  unfoldable pub stop : Method
  stop h =
      stop_providers (reversed h.started ++ h.stop_pending)
        (record h { started = []; stop_pending = []; tool_cache = none })

  -- A provider that the host asks to start.
  unfoldable pub launch : ExtensionProvider → StartOutcome → Bool → Method
  unfolding record_failure
  launch p succeeded false = modify (λ h. record h { started = h.started ++ p ∷ [] })
  launch p succeeded true = cleanup p (stops p) >> raise cancelled
  launch p start_cancelled after = cleanup p (stops p) >> raise cancelled
  launch p start_failed after =
      modify (record_failure (failure_of p (codes "start") (codes "扩展启动失败，已隔离") none))
      >> cleanup p (stops p)

  module _ (turns : ExtensionProvider → Turn) (duplicated : Text → Bool) where
    -- The loop of `start`, over the providers that are left.
    unfoldable pub start_from : List ExtensionProvider → Method
    unfolding record_failure
    start_from [] = pure tt
    start_from (p ∷ ps) =
        raise_when (turns p).cancelled_before cancelled
        >> (if duplicated p.descriptor.id
            then modify
                (record_failure (failure_of p (codes "discover") (codes "扩展 id 冲突，已拒绝启动") none))
            else if is_enabled p
            then launch p (turns p).outcome (turns p).cancelled_after
            else pure tt)
        >> start_from ps

  -- A cancellation stops what was started.
  unfoldable pub roll_back :
      Result HostError (Unit {0}) × ExtensionHost → Result HostError (Unit {0}) × ExtensionHost
  roll_back (ok u, h) = (ok u, h)
  roll_back (err e, h) = (stop_started >> raise e) h

  unfoldable pub start : (ExtensionProvider → Turn) → Method
  start turns h =
      if not (is_nil h.started)
      then (ok tt, h)
      else if not (is_nil h.stop_pending)
      then (err runtime_error, h)
      else roll_back (
          start_from turns (has_duplicates h.providers) h.providers
            (record h { tool_cache = none }))

abbrev is_name_character : ℕ → Bool
is_name_character c = leb b'a' c && leb c b'z' || leb b'0' c && leb c b'9' || eqb c b'_'

-- `_TOOL_NAME_PATTERN.fullmatch`.
unfoldable pub is_tool_name : Text → Bool
is_tool_name [] = false
is_tool_name (c ∷ s) = leb b'a' c && leb c b'z' && all is_name_character s && leb (length s) 63

abbrev pub Tool : Type 0
Tool = ExtensionProvider × ToolHandler

abbrev pub name_of : Tool → Text
name_of t = t.1.name

-- The candidates of a provider, with the failures recorded so far. Its list is nothing if
-- `tool_handlers` raises or does not return a tuple of handlers.
unfoldable pub candidates_of :
    ExtensionProvider → Option (List ToolHandler) → ExtensionHost → List Tool × ExtensionHost
unfolding record_failure
candidates_of p none h =
    ([], record_failure (failure_of p (codes "tools") (codes "扩展工具列表无效，已隔离") none) h)
candidates_of p (some given) h =
    let valid : List ToolHandler = keep (λ t. is_tool_name t.name) given in
    (
      map (λ t. (p, t)) valid,
      if eqb (length valid) (length given)
          then h
          else record_failure (failure_of p (codes "tools") (codes "扩展工具名称无效，已隔离") none) h,
    )

unfoldable pub candidates_from :
    (ExtensionProvider → Option (List ToolHandler))
    → List ExtensionProvider
    → ExtensionHost
    → List Tool × ExtensionHost
candidates_from handlers [] h = ([], h)
candidates_from handlers (p ∷ ps) h =
    let found : List Tool × ExtensionHost = candidates_of p (handlers p) h in
    let rest : List Tool × ExtensionHost = candidates_from handlers ps found.1 in
    (found.0 ++ rest.0, rest.1)

-- The tools whose names no other candidate has; the others are recorded as failures.
unfoldable pub resolve_from : List Tool → List Tool → ExtensionHost → List Tool × ExtensionHost
unfolding record_failure
resolve_from candidates [] h = ([], h)
resolve_from candidates (t ∷ ts) h =
    let conflict : Bool = ltb 1 (count_if (λ other. name_of other == name_of t) candidates) in
    let rest : List Tool × ExtensionHost = resolve_from candidates ts (
      if conflict
      then record_failure
          (failure_of t.0 (codes "tool_conflict") (codes "扩展工具名称冲突，冲突方均未注册") (some (name_of t))) h
      else h) in
    (if conflict then rest.0 else t ∷ rest.0, rest.1)

-- `_resolved_tools`.
unfoldable pub resolved_tools :
    (ExtensionProvider → Option (List ToolHandler)) → ExtensionHost → List Tool × ExtensionHost
resolved_tools handlers h = resolved h.tool_cache
  where
    resolved : Option (List Tool) → List Tool × ExtensionHost
    resolved (some tools) = (tools, h)
    resolved none =
        let found : List Tool × ExtensionHost = candidates_from handlers h.started h in
        let tools : List Tool × ExtensionHost = resolve_from found.0 found.0 found.1 in
        (tools.0, record tools.1 { tool_cache = some tools.0 })

-- `bool(fragment.strip()) and len(fragment) <= 10_000`.
abbrev is_fragment : (ℕ → Bool) → Text → Bool
is_fragment space fragment = not (all space fragment) && leb (length fragment) 10000

-- The fragments of a provider: nothing if `prompt_fragments` raises or does not return a tuple of texts.
unfoldable pub fragments_of :
    (ℕ → Bool) → ExtensionProvider → Option (List Text) → ExtensionHost → List Text × ExtensionHost
unfolding record_failure
fragments_of space p given h =
    if is_provided given
    then (provided given, h)
    else ([], record_failure (failure_of p (codes "prompt") (codes "扩展 prompt 无效，已隔离") none) h)
  where
    is_provided : Option (List Text) → Bool
    is_provided none = false
    is_provided (some fragments) = all (is_fragment space) fragments

    provided : Option (List Text) → List Text
    provided none = []
    provided (some fragments) = fragments

unfoldable pub prompt_fragments :
    (ℕ → Bool)
    → (ExtensionProvider → Option (List Text))
    → List ExtensionProvider
    → ExtensionHost
    → List Text × ExtensionHost
prompt_fragments space given [] h = ([], h)
prompt_fragments space given (p ∷ ps) h =
    let found : List Text × ExtensionHost = fragments_of space p (given p) h in
    let rest : List Text × ExtensionHost = prompt_fragments space given ps found.1 in
    (found.0 ++ rest.0, rest.1)
