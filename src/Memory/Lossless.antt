-- ===== src/Memory/Lossless.antt =====
-- A reviewed merge of context/memory.py, item by item: what leaves a section goes to the archive.
use tricoder_agent.Base.{
  ℕ, List, [], ◌∷◌, ◌++◌, Bool, Option, none, some, ok, ◌≡◌, refl, sym, subst, ◌⊎◌, inl, inr, Has,
  Has-append_left, Has-append_right, Text, ◌==◌, nat_eq, list_eq, option_eq, Bool-cases, bind_ok,
  then_ok, ok_injective, err-ne-ok,
}
use mathlib.Core.List.{append-nil, append_assoc}
use tricoder_agent.Memory.{MemoryItem, ArchivedMemoryItem, superseded, active, pending}
use tricoder_agent.Memory.Validation.{open_items_section, decisions_section}
use tricoder_agent.Memory.Merging.{index_by_id, entry_at, without, with_entry, contains_equivalent}
use tricoder_agent.Memory.Review.{
  Reviewed, Step, archive, retired, is_ended, is_archived_replay, end_item, keep_item,
  review_open_item, replace_again, replace_at, replace_old, replace_decision, active_decision,
  review_decision, review_all,
}
use tricoder_agent.Memory.Positions.{
  HasId, Placed, index_by_id-Placed, without-HasId, with_entry-HasId,
}

-- An entry of the archive has that section, and its item that id.
abbrev pub InArchive : Text → Text → List ArchivedMemoryItem → Type 0
InArchive section id entries = Has (λ e. (e.section ≡ section) × (e.item.id ≡ id)) entries

-- The archive with more entries after those it had.
abbrev pub Longer : List ArchivedMemoryItem → List ArchivedMemoryItem → Type 0
Longer old new = (more : List ArchivedMemoryItem) × (new ≡ old ++ more)

pub Longer-refl : (old : List ArchivedMemoryItem) → Longer old old
Longer-refl old = ([], sym (append-nil old))

pub Longer-trans : (a b c : List ArchivedMemoryItem) → Longer a b → Longer b c → Longer a c
Longer-trans a b c (m, p) (n, q) = (m ++ n, rw (q, p) (append_assoc a m n))

pub Longer-archive :
    (old : List ArchivedMemoryItem) (section : Text) (item : MemoryItem)
    → Longer old (archive old section item)
Longer-archive old section item = (record { section = section; item = item } ∷ [], refl)

pub Longer-InArchive :
    (old new : List ArchivedMemoryItem) (section id : Text)
    → Longer old new
    → InArchive section id old
    → InArchive section id new
Longer-InArchive old new section id (more, e) h =
    subst (InArchive section id) (sym e)
      (Has-append_left (λ e. (e.section ≡ section) × (e.item.id ≡ id)) old more h)

pub archived_last :
    (old : List ArchivedMemoryItem) (section : Text) (item : MemoryItem)
    → InArchive section item.id (archive old section item)
archived_last old section item =
    Has-append_right (λ e. (e.section ≡ section) × (e.item.id ≡ item.id)) old _ (inl (refl, refl))

-- The id is in the section, or in the archive under the section's name.
abbrev pub Stays : Text → List MemoryItem → List ArchivedMemoryItem → Text → Type 0
Stays section items archived id = HasId id items ⊎ InArchive section id archived

-- No id is lost on the way from a section to a section with an archive.
abbrev pub Lossless : Text → Reviewed → Reviewed → Type 0
Lossless section r new =
    Longer r.archived new.archived
    × ((id : Text) → HasId id r.entries → Stays section new.entries new.archived id)

same : (section : Text) (r : Reviewed) → Lossless section r r
same section r = (Longer-refl r.archived, λ id h. inl h)

next_to :
    (section : Text) (a b c : Reviewed)
    → Lossless section a b
    → Lossless section b c
    → Lossless section a c
next_to section a b c (l, k) (m, n) = (
  Longer-trans a.archived b.archived c.archived l m,
  λ id h. elim (k id h) [
    | inl q ↦ n id q
    | inr q ↦ inr (Longer-InArchive b.archived c.archived section id m q)
  ],
)

-- An item whose id another one has goes to the archive, or an item takes its place.
archive_at :
    (r : Reviewed) (n : ℕ) (section : Text) (item : MemoryItem)
    → Placed r.entries n item.id
    → Lossless section r
        (record { entries = without r.entries n; archived = archive r.archived section item })
archive_at r n section item p = (
  Longer-archive r.archived section item,
  λ id h. elim (without-HasId r.entries n item.id id p h) [
    | inl e ↦ inr (
        subst (λ i. InArchive section i (archive r.archived section item)) (sym e)
          (archived_last r.archived section item))
    | inr q ↦ inl q
  ],
)

write_at :
    (section : Text) (r : Reviewed) (n : ℕ) (item : MemoryItem)
    → Placed r.entries n item.id
    → Lossless section r (record r { entries = with_entry r.entries n item })
write_at section r n item p =
    (Longer-refl r.archived, λ id h. inl (with_entry-HasId r.entries n item id p h))

end_item-Lossless :
    (section message : Text) (item : MemoryItem) (r new : Reviewed) (o : Option ℕ)
    → index_by_id r.entries item.id ≡ o
    → end_item section message item r o ≡ ok new
    → Lossless section r new
unfolding end_item
end_item-Lossless section message item r new none e h =
    let (replayed, q, rest) = bind_ok (is_archived_replay r.archived section item) _ new h in
    subst (Lossless section r) (ok_injective (then_ok _ _ new rest).1) (same section r)
end_item-Lossless section message item r new (some n) e h =
    subst (Lossless section r) (ok_injective h)
      (archive_at r n section item (index_by_id-Placed r.entries item.id n e))

module _ (space : ℕ → Bool) (fold : Text → Text) where
  keep_item-Lossless :
      (section : Text) (item : MemoryItem) (r : Reviewed) (o : Option ℕ)
      → index_by_id r.entries item.id ≡ o
      → Lossless section r (keep_item space fold item r o)
  unfolding keep_item
  keep_item-Lossless section item r none e =
      elim (Bool-cases (contains_equivalent space fold r.entries item)) [
        | inl old ↦ rw old (same section r)
        | inr new ↦ rw new (
          Longer-refl r.archived,
          λ id h. inl (Has-append_left (λ i. i.id ≡ id) r.entries (item ∷ []) h),
        )
      ]
  keep_item-Lossless section item r (some n) e =
      write_at section r n item (index_by_id-Placed r.entries item.id n e)

  pub review_open_item-Lossless :
      (r new : Reviewed) (item : MemoryItem)
      → review_open_item space fold r item ≡ ok new
      → Lossless open_items_section r new
  unfolding review_open_item
  review_open_item-Lossless r new item h = elim (Bool-cases (is_ended item)) [
    | inl e ↦ end_item-Lossless open_items_section _ item r new _ refl (rw e at h)
    | inr e ↦ elim (Bool-cases (item.state == pending)) [
      | inl p ↦
          subst (Lossless open_items_section r) (ok_injective (rw (e, p) at h))
            (keep_item-Lossless open_items_section item r _ refl)
      | inr p ↦ absurd (err-ne-ok (rw (e, p) at h))
    ]
  ]

  replace_again-Lossless :
      (r new : Reviewed) (item : MemoryItem) (old : Text) (n : ℕ) (o : Option MemoryItem)
      → Placed r.entries n item.id
      → replace_again space fold r item old n o ≡ ok new
      → Lossless decisions_section r new
  unfolding replace_again
  replace_again-Lossless r new item old n none p h = absurd (err-ne-ok h)
  replace_again-Lossless r new item old n (some current) p h =
      elim (Bool-cases (current.replaces_id == some old)) [
        | inl e ↦
            subst (Lossless decisions_section r) (ok_injective (rw e at h))
              (write_at decisions_section r n item p)
        | inr e ↦ absurd (err-ne-ok (rw e at h))
      ]

  replace_at-Lossless :
      (r new : Reviewed) (item : MemoryItem) (n : ℕ) (o : Option MemoryItem)
      → entry_at r.entries n ≡ o
      → replace_at space fold r item n o ≡ ok new
      → Lossless decisions_section r new
  unfolding replace_at
  replace_at-Lossless r new item n none e h = absurd (err-ne-ok h)
  replace_at-Lossless r new item n (some replaced) e h =
      let next : Reviewed = record {
        entries = without r.entries n;
        archived = archive r.archived decisions_section (retired replaced);
      } in
      let left : Lossless decisions_section r next =
        archive_at r n decisions_section (retired replaced) (replaced, e, refl) in
      subst (Lossless decisions_section r) (ok_injective h) (
        next_to decisions_section r next _ left
          (keep_item-Lossless decisions_section item next _ refl))

  replace_old-Lossless :
      (r new : Reviewed) (item : MemoryItem) (o : Option ℕ)
      → replace_old space fold r item o ≡ ok new
      → Lossless decisions_section r new
  unfolding replace_old
  replace_old-Lossless r new item none h = absurd (err-ne-ok h)
  replace_old-Lossless r new item (some n) h = replace_at-Lossless r new item n _ refl h

  replace_decision-Lossless :
      (r new : Reviewed) (item : MemoryItem) (old : Text) (o : Option ℕ)
      → index_by_id r.entries item.id ≡ o
      → replace_decision space fold r item old o ≡ ok new
      → Lossless decisions_section r new
  unfolding replace_decision
  replace_decision-Lossless r new item old none e h = replace_old-Lossless r new item _ h
  replace_decision-Lossless r new item old (some n) e h =
      replace_again-Lossless r new item old n _ (index_by_id-Placed r.entries item.id n e) h

  active_decision-Lossless :
      (r new : Reviewed) (item : MemoryItem) (o : Option Text)
      → active_decision space fold r item o ≡ ok new
      → Lossless decisions_section r new
  unfolding active_decision
  active_decision-Lossless r new item none h =
      subst (Lossless decisions_section r) (ok_injective h)
        (keep_item-Lossless decisions_section item r _ refl)
  active_decision-Lossless r new item (some old) h =
      replace_decision-Lossless r new item old _ refl h

  pub review_decision-Lossless :
      (r new : Reviewed) (item : MemoryItem)
      → review_decision space fold r item ≡ ok new
      → Lossless decisions_section r new
  unfolding review_decision
  review_decision-Lossless r new item h = elim (Bool-cases (item.state == superseded)) [
    | inl e ↦ end_item-Lossless decisions_section _ item r new _ refl (rw e at h)
    | inr e ↦ elim (Bool-cases (item.state == active)) [
      | inl p ↦ active_decision-Lossless r new item _ (rw (e, p) at h)
      | inr p ↦ absurd (err-ne-ok (rw (e, p) at h))
    ]
  ]

pub review_all-Lossless :
    (section : Text) (f : Reviewed → MemoryItem → Step)
    → ((r new : Reviewed) (item : MemoryItem) → f r item ≡ ok new → Lossless section r new)
    → (r new : Reviewed) (items : List MemoryItem) → review_all f r items ≡ ok new
    → Lossless section r new
unfolding review_all
review_all-Lossless section f step r new [] h =
    subst (Lossless section r) (ok_injective h) (same section r)
review_all-Lossless section f step r new (item ∷ items) h =
    let (next, e, rest) = bind_ok (f r item) _ new h in
    next_to section r next new (step r next item e)
      (review_all-Lossless section f step next new items rest)
