-- ===== src/Changes/Net.antt =====
-- The net changes of changes.py against the files: what the journal holds is the difference between
-- the start of the task and now, and its states before undo it.
use tricoder_agent.Base.{
  List, [], ◌∷◌, ◌≡◌, ◌⊎◌, inl, inr, refl, sym, subst, ap, ok, err, Result, Result-cases, err-ne-ok,
  String, ◌∙◌, true, false, Option, none, some, arith, Bool-cases, Text, ◌==◌, ==_iff, ==_refl,
  eqb_iff, if◌then◌else◌, nat_eq, list_eq,
}
use tricoder_agent.Base.Dict.{Dict, get, put, get-put, get-pop}
use tricoder_agent.Base.Exec.{pure, ◌>>◌}
use tricoder_agent.Changes.Journal.{
  Active, ChangeJournal, Method, nothing_yet, require_active, record_committed, begin_task,
}
use tricoder_agent.Changes.{
  FileSnapshot, FileChange, same_file, same_state, merged, apply, ChangeError, validate_change,
  file_path,
}

-- The content of the workspace, as the tools see it.
abbrev pub Files : Type 0
Files = Text → Option FileSnapshot

-- A write that a tool committed.
pub record Commit : Type 0 where
  pub path : Text
  pub after : Option FileSnapshot

abbrev pub write : Files → Commit → Files
write files c path = if c.path == path then c.after else files path

abbrev pub change_of : Files → Commit → FileChange
change_of files c = record { path = c.path; before = files c.path; after = c.after }

-- The calls of `record_committed` for the writes, each with the state that the path had.
unfoldable pub commit_all : Files → List Commit → Method (Unit {0})
commit_all files [] = pure tt
commit_all files (c ∷ commits) = do
  record_committed c.path (files c.path) c.after
  commit_all (write files c) commits

unfoldable pub write_all : Files → List Commit → Files
write_all files [] = files
write_all files (c ∷ commits) = write_all (write files c) commits

-- Two states of a path that no diff tells apart: no file, or the same content and mode.
abbrev pub Same : Option FileSnapshot → Option FileSnapshot → Type 0
Same a b = same_state same_file a b ≡ true

-- The change that is recorded for a path, against its state at the start and now.
abbrev pub Tracks : Option FileSnapshot → Option FileSnapshot → Option FileChange → Type 0
Tracks start now none = Same start now
Tracks start now (some c) =
    Same start c.before × (now ≡ c.after) × (same_state same_file c.before c.after ≡ false)

Same-refl : (a : Option FileSnapshot) → Same a a
unfolding same_state
Same-refl none = refl
Same-refl (some a) = ground (arith, ==_refl a.content, eqb_iff a.mode a.mode)

Same-trans : (a b c : Option FileSnapshot) → Same a b → Same b c → Same a c
unfolding same_state
Same-trans none none c p q = q
Same-trans none (some b) c p q = ground arith
Same-trans (some a) none c p q = ground arith
Same-trans (some a) (some b) none p q = q
Same-trans (some a) (some b) (some c) p q = ground (
  arith,
  ==_iff a.content b.content,
  ==_iff b.content c.content,
  ==_iff a.content c.content,
  eqb_iff a.mode b.mode,
  eqb_iff b.mode c.mode,
  eqb_iff a.mode c.mode,
)

-- What `_apply` records for the path of the change, before the others are looked at.
entry : Option FileChange → FileChange → Option FileChange
entry existing change =
    let m = merged existing change in if same_state same_file m.before m.after then none else some m

get-apply :
    (changes : Dict Text FileChange) (change : FileChange) (path : Text)
    → get (apply same_file changes change) path
      ≡ (if change.path == path then entry (get changes change.path) change else get changes path)
unfolding apply entry
get-apply changes change path =
    let m = merged (get changes change.path) change in
    elim (Bool-cases (same_state same_file m.before m.after)) [
      | inl e ↦ rw (e, get-pop changes change.path path) refl
      | inr e ↦ rw (e, get-put changes change.path m path) refl
    ]

Tracks-entry :
    (start now after : Option FileSnapshot) (existing : Option FileChange) (path : Text)
    → Tracks start now existing
    → Tracks start after (entry existing (record { path = path; before = now; after = after }))
unfolding entry merged
Tracks-entry start now after none path h = elim (Bool-cases (same_state same_file now after)) [
  | inl e ↦ rw e (Same-trans start now after h e)
  | inr e ↦ rw e (h, refl, e)
]
Tracks-entry start now after (some c) path h =
    elim (Bool-cases (same_state same_file c.before after)) [
      | inl e ↦ rw e (Same-trans start c.before after h.0 e)
      | inr e ↦ rw e (h.0, refl, e)
    ]

-- Every path is tracked.
abbrev pub TracksAll : Files → Files → Dict Text FileChange → Type 0
TracksAll start now changes = (path : Text) → Tracks (start path) (now path) (get changes path)

apply-TracksAll :
    (start now : Files) (changes : Dict Text FileChange) (c : Commit)
    → TracksAll start now changes
    → TracksAll start (write now c) (apply same_file changes (change_of now c))
apply-TracksAll start now changes c h path = elim (Bool-cases (c.path == path)) [
  | inl e ↦
      let same : c.path ≡ path = (==_iff c.path path).0 e in
      rw (get-apply, e)
        (subst (λ p. Tracks (start p) c.after (entry (get changes c.path) (change_of now c))) same
          (Tracks-entry (start c.path) (now c.path) c.after (get changes c.path) c.path (h c.path)))
  | inr e ↦ rw (get-apply, e) (h path)
]

-- What a recorded write does to the journal.
committed :
    (j next : ChangeJournal) (a : Active) (path : Text) (before after : Option FileSnapshot)
    → j.active ≡ some a
    → record_committed path before after j ≡ (ok tt, next)
    → (b : Active) × (next.active ≡ some b)
      × (b.changes
          ≡ apply same_file a.changes (record { path = path; before = before; after = after }))
unfolding record_committed require_active
committed j next a path before after e h =
    let change : FileChange = record { path = path; before = before; after = after } in
    elim (Result-cases (validate_change file_path change)) [
      | inl (u, v) ↦ (
        record a { changes = apply same_file a.changes change; after = put a.after path after },
        sym (
            ap (λ (r : Result ChangeError (Unit {0}) × ChangeJournal). r.1.active)
              (rw (e, v) at h)),
        refl,
      )
      | inr (x, v) ↦ absurd (
          err-ne-ok
            (ap (λ (r : Result ChangeError (Unit {0}) × ChangeJournal). r.0) (rw (e, v) at h)))
    ]

record_cases :
    (j : ChangeJournal) (path : Text) (before after : Option FileSnapshot)
    → ((next : ChangeJournal) × (record_committed path before after j ≡ (ok tt, next)))
      ⊎ ((x : ChangeError) × (next : ChangeJournal) × (record_committed path before after j
            ≡ (err x, next)))
record_cases j path before after = of_pair _ refl
  where
    of_pair :
        (r : Result ChangeError (Unit {0}) × ChangeJournal)
        → record_committed path before after j ≡ r
        → ((next : ChangeJournal) × (record_committed path before after j ≡ (ok tt, next)))
          ⊎ ((x : ChangeError) × (next : ChangeJournal) × (record_committed path before after j
                ≡ (err x, next)))
    of_pair (ok u, next) e = inl (next, e)
    of_pair (err x, next) e = inr (x, next, e)

commits-TracksAll :
    (start now : Files) (commits : List Commit) (j last : ChangeJournal) (a : Active)
    → j.active ≡ some a
    → TracksAll start now a.changes
    → commit_all now commits j ≡ (ok tt, last)
    → (b : Active) × (last.active ≡ some b) × TracksAll start (write_all now commits) b.changes
unfolding commit_all write_all
commits-TracksAll start now [] j last a e t h =
    (a, ap (λ (r : Result ChangeError (Unit {0}) × ChangeJournal). r.1.active) (sym h) ∙ e, t)
commits-TracksAll start now (c ∷ commits) j last a e t h =
    elim (record_cases j c.path (now c.path) c.after) [
      | inl (next, r) ↦
          let (b, f, same) = committed j next a c.path (now c.path) c.after e r in
          commits-TracksAll start (write now c) commits next last b f
            (subst (TracksAll start (write now c)) (sym same)
              (apply-TracksAll start now a.changes c t))
            (rw r at h)
      | inr (x, next, r) ↦
          absurd (
            err-ne-ok (ap (λ (s : Result ChangeError (Unit {0}) × ChangeJournal). s.0) (rw r at h)))
    ]

-- What undoing the recorded changes makes of the files.
abbrev pub undo : Dict Text FileChange → Files → Files
undo changes now path = elim (get changes path) [ none ↦ now path | some c ↦ c.before ]

undo-Same :
    (start now : Files) (changes : Dict Text FileChange)
    → TracksAll start now changes
    → (path : Text) → Same (start path) (undo changes now path)
undo-Same start now changes t path = go (get changes path) (t path)
  where
    go :
        (c : Option FileChange)
        → Tracks (start path) (now path) c
        → Same (start path) (elim c [ none ↦ now path | some x ↦ x.before ])
    go none h = h
    go (some x) h = h.0

-- If a task is begun and every write of the tools is recorded with the state that its path had, then
-- the journal holds for each path the difference between the start of the task and now, nothing for a
-- path that is the same again, and putting back the states before undoes all writes of the task.
pub commit_all-TracksAll :
    (files : Files) (commits : List Commit) (modified : List Text) (verification : String)
    (directories : List Text) (j begun last : ChangeJournal)
    → begin_task modified verification directories j ≡ (ok tt, begun)
    → commit_all files commits begun ≡ (ok tt, last)
    → (a : Active) × (last.active ≡ some a)
      × TracksAll files (write_all files commits) a.changes
      × ((path : Text) → Same (files path) (undo a.changes (write_all files commits) path))
commit_all-TracksAll files commits modified verification directories j begun last h k =
    let (a, e, t) =
      commits-TracksAll files files commits begun last nothing_yet (begun_active begun h)
        (λ path. unfold get in Same-refl (files path)) k in
    (a, e, t, undo-Same files (write_all files commits) a.changes t)
  where
    begun_active :
        (next : ChangeJournal)
        → begin_task modified verification directories j ≡ (ok tt, next)
        → next.active ≡ some nothing_yet
    begun_active next g = unfold begin_task in ground arith
