-- ===== src/Lib.antt =====
-- Verification library for Tricoder-Agent, a command-line coding agent in Python.
--
-- The agent runs a model's tool calls on a workspace. It may report a task as completed only if the
-- files that it changed were checked after the last change. The parts modelled here decide that, or
-- bound, apply and stop the work on the way.
--
--   Budget      src/tricoder/core/budgets.py. `ExecutionBudget` is a record of limits and counters;
--               `create` is `__post_init__`, `consume` the method. A method reads and writes the counters
--               under the object's lock, so the threads' calls are a list of calls (`run`).
--   Paths       src/tricoder/workspace/check_coverage.py. Paths are lists of code points; a path's parts
--               are computed as `PurePosixPath` does for relative paths.
--   Effects     src/tricoder/execution_state.py. The constructors' tests of `ToolError` and
--               `FileEffects`, and `ExecutionState.observe`.
--   Checks      src/tricoder/core/validation.py (records and reports of command checks) and
--               Checks/Tracker for src/tricoder/engine/validation.py (`TaskValidationTracker`).
--               Events lists what the rest of the program does to a tracker.
--   Evidence    src/tricoder/workspace/verification.py: snapshots, evidence and `VerificationScope`.
--               Authority has the host's calls as a step relation.
--   Completion  src/tricoder/engine/completion.py: `assess_finish`, which reads the tracker (Checks),
--               the scope (Evidence) and the coverage of paths (Paths), and may withdraw evidence from
--               the task's state. Assess has its steps in order.
--   Progress    src/tricoder/engine/progress.py: the guard that warns of and stops a task that repeats
--               itself. `decide` is `observe` after the observation was appended.
--   Patches     src/tricoder/patches.py. Patches has `apply_file_patch`, which applies a parsed patch to a
--               text in memory, and its helpers, with its loops as recursions on the hunks and on a
--               hunk's lines. Parsing has `parse_unified_diff` and its helpers: an index
--               into the lines is the list of the lines that are left, and the two loops over hunks
--               and files run on fuel, as many rounds as the source has lines.
--   Cancellation  src/tricoder/core/cancellation.py: the tokens that were made, newest first, each with
--               its parent, and the operations on them. `wait` is not modelled.
--   Changes     src/tricoder/changes.py: the journal of a task's net changes (`ChangeJournal`). A file's
--               change and a directory's are one type of change over the snapshot. Net has the journal
--               against the files, Reserving its budget. Rendering of diffs and undo previews is left
--               out.
--   Observation  src/tricoder/task_observation.py: the facts of each tool call as they are taken up in the
--               task's context, and the channel that keeps them for a task that ends abnormally.
--   State       src/tricoder/engine/state.py: the state of one run that the gate and the batches read and
--               write.
--   Batch       src/tricoder/engine/tool_batch.py: `ToolBatchExecutor.execute`, which performs the calls of
--               a batch, takes up their effects (Observation), their checks (Checks/Tracker) and their
--               progress (Progress), and decides how the batch ends. Each call comes with what the world
--               answers to it; Rules has the reasoning about exceptions.
--   Messages    src/tricoder/models.py: messages and their calls.
--   Memory      src/tricoder/context/memory.py: the conversation memory. Payload and Reading write and read
--               it as JSON, Validation decides what is accepted, Merging and Review merge a candidate at run
--               time and under review, Numbering numbers the messages of a history, and Termination knows
--               the runner's notices. Decoding, Sources, Accepted and RoundTrip, Appending and Conservation,
--               Positions, Lossless, Goals and Reviewing, Counting and Numbered, Trusted and Recording hold the
--               proofs.
--   Extensions  src/tricoder/extensions/host.py and models.py: the extension host. Stopping is about stops and
--               cleanups, Ownership about a start, Resolving about the tools.
--   Base        Names that the parts share: Python's `==` as an interface with its law (Equality),
--               errors (Raising), methods of mutable objects that may raise (Exec), ordered
--               dictionaries (Dict), lists and texts.
--
-- Time is a number of ticks of the injected clock, so a fraction, an infinity or a NaN as a timeout is
-- not modelled. The `object()`s that stand for an authority are numbers, counted as they are made, and
-- the random identifiers of `secrets` are arguments. Parameters stand for what the standard library
-- decides: `fold` for `os.path.normcase` on one character, `printable` for `str.isprintable`,
-- `digest` for a prefix of the SHA-256 of a JSON text, `show` for `str` of a number, `digit` for
-- the value of a decimal digit, `dumps` and `loads` for those of `json`, `space` for `str.isspace`, and in
-- Memory `fold` for `str.casefold`. No
-- loop runs on fuel but the parser's and, in Memory/Numbering, the search for a number that is not in
-- use, with a round more than there are numbers in use; it stops in its first round, as Counting shows.
-- Every other loop is a recursion on the list that it goes through.
-- Tests of an argument's type are left out where the model's type already says it.
--
-- Not modelled: the loop that drives the rounds, which calls the provider and the batches; and how a
-- snapshot is scanned from the disk, the tools, the model's provider, the terminal interfaces, sessions
-- and their files, processes, MCP and the evaluation harness, which are input and output.
pub mod Base
pub mod Batch
pub mod Budget
pub mod Cancellation
pub mod Changes
pub mod Checks
pub mod Completion
pub mod Effects
pub mod Evidence
pub mod Extensions
pub mod Memory
pub mod Messages
pub mod Observation
pub mod Patches
pub mod Paths
pub mod Progress
pub mod State
