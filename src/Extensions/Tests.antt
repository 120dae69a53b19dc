-- ===== src/Extensions/Tests.antt =====
-- A host with five extensions: two share an id, one is off, one fails to start, and one has two tools.
use tricoder_agent.Base.{
  ℕ, List, [], ◌∷◌, ◌++◌, Bool, true, false, Option, none, some, ok, ◌≡◌, refl, keep, All, Distinct,
  map, Text, codes, eqb, if◌then◌else◌, nat_eq, list_eq, any, count_if, all,
}
use tricoder_agent.Extensions.{
  ExtensionKind, ExtensionTrust, ExtensionProvider, ToolHandler, ExtensionHost, StopOutcome,
  stopped, failed, succeeded, start_failed, Turn, reversed, has_duplicates, start, stop, create,
  resolved_tools, name_of, record_failure, cleanup, is_enabled, stop_providers, stop_started,
  launch, start_from, roll_back, is_tool_name, candidates_of, candidates_from, resolve_from,
}
use tricoder_agent.Extensions.Stopping.{is_interrupted, is_failed, stop-pending}
use tricoder_agent.Extensions.Ownership.{Leaves, asked, start-Leaves}
use tricoder_agent.Extensions.Resolving.{
  IsGiven, is_only, offered, unresolved, resolved_tools-Distinct,
}

abbrev provider : ℕ → Text → Bool → ExtensionProvider
provider n id enabled = record {
  identity = n;
  descriptor = record {
    id = id;
    kind = ExtensionKind.mcp;
    source = codes "config";
    enabled = enabled;
    trust = ExtensionTrust.user;
  };
}

abbrev files : ExtensionProvider
files = provider 1 (codes "files") true

abbrev web : ExtensionProvider
web = provider 5 (codes "web") true

abbrev providers : List ExtensionProvider
providers =
    files
    ∷ provider 2 (codes "same") true
    ∷ provider 3 (codes "same") true
    ∷ provider 4 (codes "off") false
    ∷ web
    ∷ []

abbrev host : ExtensionHost
host = record {
  providers = providers;
  started = [];
  stop_pending = [];
  failures = [];
  tool_cache = none;
}

-- The fifth extension fails to start, and to stop.
abbrev turns : ExtensionProvider → Turn
turns p = record {
  cancelled_before = false;
  outcome = if eqb p.identity 5 then start_failed else succeeded;
  cancelled_after = false;
}

abbrev stops : ExtensionProvider → StopOutcome
stops p = if eqb p.identity 5 then failed else stopped

calm : (p : ExtensionProvider) → is_interrupted (stops p) ≡ false
calm p = of (eqb p.identity 5)
  where
    of : (b : Bool) → is_interrupted (if b then failed else stopped) ≡ false
    of true = refl
    of false = refl

created : create providers ≡ ok host
unfolding any count_if all keep record_failure cleanup reversed is_enabled stop_providers
    stop_started stop launch start_from roll_back start is_tool_name candidates_of candidates_from
    resolve_from resolved_tools create
created = refl

only_one_starts : (start stops turns host).1.started ≡ files ∷ []
unfolding any count_if all keep record_failure cleanup reversed is_enabled stop_providers
    stop_started stop launch start_from roll_back start is_tool_name candidates_of candidates_from
    resolve_from resolved_tools create
only_one_starts = refl

one_waits : (start stops turns host).1.stop_pending ≡ web ∷ []
unfolding any count_if all keep record_failure cleanup reversed is_enabled stop_providers
    stop_started stop launch start_from roll_back start is_tool_name candidates_of candidates_from
    resolve_from resolved_tools create
one_waits = refl

start-Leaves_example :
    Leaves stops turns (asked turns (has_duplicates providers) providers) (start stops turns host)
start-Leaves_example = start-Leaves stops calm turns host

abbrev running : ExtensionHost
running = record host { started = files ∷ web ∷ [] }

stop-pending_example :
    ((stop stops running).0 ≡ ok tt)
    × ((stop stops running).1.started ≡ [])
    × ((stop stops running).1.tool_cache ≡ none)
    × ((stop stops running).1.stop_pending
        ≡ keep (λ p. is_failed (stops p)) (reversed (files ∷ web ∷ []) ++ []))
stop-pending_example = stop-pending stops calm running

abbrev tool : Text → ToolHandler
tool name = record { name = name; risk = some (codes "read") }

abbrev handlers : ExtensionProvider → Option (List ToolHandler)
handlers p =
    if eqb p.identity 5
    then some (tool (codes "fetch") ∷ tool (codes "search") ∷ [])
    else some (tool (codes "search") ∷ tool (codes "list_files") ∷ [])

no_conflict_wins :
    map name_of (resolved_tools handlers running).0 ≡ codes "list_files" ∷ codes "fetch" ∷ []
unfolding any count_if all keep record_failure cleanup reversed is_enabled stop_providers
    stop_started stop launch start_from roll_back start is_tool_name candidates_of candidates_from
    resolve_from resolved_tools create
no_conflict_wins = refl

resolved_tools-Distinct_example :
    ((resolved_tools handlers (unresolved running)).0
      ≡ keep (is_only (offered handlers running.started)) (offered handlers running.started))
    × Distinct (map name_of (resolved_tools handlers (unresolved running)).0)
    × All (IsGiven handlers running.started) (resolved_tools handlers (unresolved running)).0
    × ((resolved_tools (λ p. none) (resolved_tools handlers (unresolved running)).1).0
        ≡ (resolved_tools handlers (unresolved running)).0)
resolved_tools-Distinct_example = resolved_tools-Distinct handlers (λ p. none) running
