-- ===== src/Changes/Reserving.antt =====
-- The character budget of changes.py: what was reserved can be recorded.
use tricoder_agent.Base.{
  ◌≤◌, List, [], ◌∷◌, ◌≡◌, refl, sym, subst, ap, ◌∙◌, some, Result, ok, err-ne-ok, Result-cases,
  Option-cases, inl, inr, arith, Bool-cases, Text, ltb, ok_injective, nat_eq, list_eq, ◌+◌,
}
use tricoder_agent.Base.Dict.{Dict, put, entries}
use tricoder_agent.Base.Exec.{pure, ◌>>◌}
use tricoder_agent.Changes.{
  FileChange, ChangeError, same_file, apply, validate_change, file_path, project, chars_of,
}
use tricoder_agent.Changes.Journal.{
  Active, ChangeJournal, Method, require_active, reserve, record_committed,
}

-- The changes are recorded one by one.
unfoldable pub record_each : List FileChange → Method (Unit {0})
record_each [] = pure tt
record_each (c ∷ changes) = do record_committed c.path c.before c.after; record_each changes

abbrev pub Outcome : Type 0
Outcome = Result ChangeError (Unit {0}) × ChangeJournal

-- A valid change is recorded: the journal moves on and keeps its limit.
recorded :
    (j : ChangeJournal) (a : Active) (c : FileChange)
    → j.active ≡ some a
    → validate_change file_path c ≡ ok tt
    → (next : ChangeJournal) × (b : Active) × (record_committed c.path c.before c.after j
        ≡ (ok tt, next))
      × (next.active ≡ some b)
      × (b.changes ≡ apply same_file a.changes c)
      × (next.max_chars ≡ j.max_chars)
unfolding record_committed require_active
recorded j a c e v =
    let b : Active = record a {
      changes = apply same_file a.changes c;
      after = put a.after c.path c.after;
    } in
    (record j { active = some b; revision = j.revision + 1 }, b, rw (e, v) refl, refl, refl, refl)

project_records :
    (proposed : List FileChange) (j : ChangeJournal) (a : Active) (p : Dict Text FileChange)
    → j.active ≡ some a
    → project a.changes proposed ≡ ok p
    → (last : ChangeJournal) × (b : Active) × (record_each proposed j ≡ (ok tt, last))
      × (last.active ≡ some b)
      × (b.changes ≡ p)
      × (last.max_chars ≡ j.max_chars)
unfolding project record_each
project_records [] j a p e h = (j, a, refl, e, ok_injective h, refl)
project_records (c ∷ proposed) j a p e h = elim (Result-cases (validate_change file_path c)) [
  | inr (x, v) ↦ absurd (err-ne-ok (rw v at h))
  | inl (u, v) ↦
      let (next, b, r, f, same, limit) = recorded j a c e v in
      let (last, d, s, g, whole, limit') =
        project_records proposed next b p f
          (subst (λ changes. project changes proposed ≡ ok p) (sym same) (rw v at h)) in
      (last, d, rw r s, g, whole, limit' ∙ limit)
]

reserve_keeps : (proposed : List FileChange) (j : ChangeJournal) → (reserve proposed j).1 ≡ j
unfolding reserve require_active
reserve_keeps proposed j = ground arith

reserved :
    (proposed : List FileChange) (j k : ChangeJournal)
    → reserve proposed j ≡ (ok tt, k)
    → (a : Active) × (p : Dict Text FileChange) × (j.active ≡ some a)
      × (project a.changes proposed ≡ ok p)
      × (chars_of (entries p) ≤ j.max_chars)
      × (k ≡ j)
unfolding reserve require_active
reserved proposed j k h = elim (Option-cases j.active) [
  | inl e ↦ absurd (err-ne-ok (ap (λ (r : Outcome). r.0) (rw e at h)))
  | inr (a, e) ↦ elim (Result-cases (project a.changes proposed)) [
    | inr (x, q) ↦ absurd (err-ne-ok (ap (λ (r : Outcome). r.0) (rw (e, q) at h)))
    | inl (p, q) ↦ elim (Bool-cases (ltb j.max_chars (chars_of (entries p)))) [
      | inl over ↦ absurd (err-ne-ok (ap (λ (r : Outcome). r.0) (rw (e, q, over) at h)))
      | inr fits ↦
          (a, p, e, q, ground arith, sym (ap (λ (r : Outcome). r.1) h) ∙ reserve_keeps proposed j)
    ]
  ]
]

-- If a batch of changes was reserved, which changes nothing, then the changes can be recorded one by
-- one without an error, and the characters of the net changes are within the limit.
pub reserve-records :
    (proposed : List FileChange) (j k : ChangeJournal)
    → reserve proposed j ≡ (ok tt, k)
    → (k ≡ j)
      × ((last : ChangeJournal) × (b : Active) × (record_each proposed j ≡ (ok tt, last))
          × (last.active ≡ some b)
          × (chars_of (entries b.changes) ≤ j.max_chars))
reserve-records proposed j k h =
    let (a, p, e, q, few, same) = reserved proposed j k h in
    let (last, b, r, f, whole, limit) = project_records proposed j a p e q in
    (
      same,
      (last, b, r, f, subst (λ changes. chars_of (entries changes) ≤ j.max_chars) (sym whole) few),
    )
