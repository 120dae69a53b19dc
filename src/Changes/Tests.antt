-- ===== src/Changes/Tests.antt =====
-- Runs of changes.py on two files.
use tricoder_agent.Base.{
  ◌≤◌, List, [], ◌∷◌, ◌≡◌, refl, none, some, ok, err, Text, codes, ◌==◌, nat_eq, list_eq,
  if◌then◌else◌,
}
use tricoder_agent.Base.Dict.{get, entries, put}
use tricoder_agent.Changes.{
  FileSnapshot, FileChange, budget_exceeded, chars_of, project, validate_change,
}
use tricoder_agent.Changes.Journal.{
  Active, ChangeJournal, create, begin_task, reserve, record_committed,
}
use tricoder_agent.Changes.Net.{
  Files, Commit, commit_all, write_all, TracksAll, Same, undo, commit_all-TracksAll,
}
use tricoder_agent.Changes.Reserving.{record_each, reserve-records}

abbrev snapshot : Text → Text → FileSnapshot
snapshot path content = record {
  path = path;
  content = content;
  mode = 420;
  identity = record { device = 1; inode = 7 };
}

abbrev a_path : Text
a_path = codes "a"

abbrev b_path : Text
b_path = codes "b"

abbrev start : Files
start path = if path == a_path then some (snapshot a_path (codes "old")) else none

-- The first file is changed and changed back; the second one is new.
abbrev commits : List Commit
commits =
    record { path = a_path; after = some (snapshot a_path (codes "new")) }
    ∷ record { path = b_path; after = some (snapshot b_path (codes "more")) }
    ∷ record { path = a_path; after = some (snapshot a_path (codes "old")) }
    ∷ []

abbrev journal : ChangeJournal
journal = create 10 128

abbrev begun : ChangeJournal
begun = (begin_task [] "" [] journal).1

begins : begin_task [] "" [] journal ≡ (ok tt, begun)
unfolding begin_task create
begins = refl

commits_recorded : commit_all start commits begun ≡ (ok tt, (commit_all start commits begun).1)
unfolding commit_all record_committed begin_task create validate_change
commits_recorded = refl

commit_all-TracksAll_example :
    (a : Active) × ((commit_all start commits begun).1.active ≡ some a)
    × TracksAll start (write_all start commits) a.changes
    × ((path : Text) → Same (start path) (undo a.changes (write_all start commits) path))
commit_all-TracksAll_example =
    commit_all-TracksAll start commits [] "" [] journal begun (commit_all start commits begun).1
      begins commits_recorded

abbrev proposal : FileChange
proposal = record { path = b_path; before = none; after = some (snapshot b_path (codes "more")) }

abbrev large : FileChange
large = record {
  path = b_path;
  before = none;
  after = some (snapshot b_path (codes "too many letters"));
}

reservation : reserve (proposal ∷ []) begun ≡ (ok tt, begun)
unfolding reserve begin_task create project chars_of entries get put
reservation = refl

over_budget : (reserve (large ∷ []) begun).0 ≡ err budget_exceeded
unfolding reserve begin_task create project chars_of entries get put
over_budget = refl

reserve-records_example :
    (begun ≡ begun)
    × ((last : ChangeJournal) × (b : Active) × (record_each (proposal ∷ []) begun ≡ (ok tt, last))
        × (last.active ≡ some b)
        × (chars_of (entries b.changes) ≤ begun.max_chars))
reserve-records_example = reserve-records (proposal ∷ []) begun begun reservation
