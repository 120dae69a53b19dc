-- ===== src/Memory/Reviewing.antt =====
-- `merge_review_candidate` of context/memory.py: no item of the memory is lost.
use tricoder_agent.Base.{
  ℕ, List, Bool, ok, ◌≡◌, refl, sym, ap, subst, inl, inr, Has-In, All, All-intro, Text, nat_eq,
  list_eq, option_eq, bind_ok, then_ok, ◌>>=◌, codes, is_nil, ℤ, ok_injective, not, Distinct,
}
use tricoder_agent.Memory.{
  MemoryItem, ArchivedMemoryItem, ConversationMemory, present, memory_source_ids,
}
use tricoder_agent.Memory.Json.{Json}
use tricoder_agent.Memory.Validation.{refuse, goal_section, decisions_section, open_items_section}
use tricoder_agent.Memory.Merging.{int_suc, validate_merge_inputs, finish_merge}
use tricoder_agent.Memory.Review.{
  review_open_item, review_decision, review_all, review_goal, reviewed_memory, review_provisional,
  merge_review_candidate,
}
use tricoder_agent.Memory.Positions.{HasId}
use tricoder_agent.Memory.Lossless.{
  Stays, Longer, Longer-refl, Longer-trans, Longer-InArchive, review_open_item-Lossless,
  review_decision-Lossless, review_all-Lossless,
}
use tricoder_agent.Memory.Conservation.{
  ids, Succeeds, finish_merge-cases, inputs_valid, Distinct-ids,
}
use tricoder_agent.Memory.Goals.{replace_or_append-HasId, review_goal-lem}

-- Every item of the old memory has one with its id in the new one, in the same section or, but for a
-- constraint, in the archive under the section's name; the archive has only grown.
abbrev pub Preserves : ConversationMemory → ConversationMemory → Type 0
Preserves old new =
    All (λ i. Stays goal_section (present new.goal) new.archived i.id) (present old.goal)
    × All (λ i. HasId i.id new.constraints) old.constraints
    × All (λ i. Stays decisions_section new.decisions new.archived i.id) old.decisions
    × All (λ i. Stays open_items_section new.open_items new.archived i.id) old.open_items
    × Longer old.archived new.archived

All-ids :
    (P : Text → Type 0) (items : List MemoryItem)
    → ((id : Text) → HasId id items → P id)
    → All (λ i. P i.id) items
All-ids P items f = All-intro items (λ i m. f i.id (Has-In (λ x. x.id ≡ i.id) items refl m))

later :
    (section id : Text) (items : List MemoryItem) (old new : List ArchivedMemoryItem)
    → Longer old new
    → Stays section items old id
    → Stays section items new id
later section id items old new l (inl h) = inl h
later section id items old new l (inr h) = inr (Longer-InArchive old new section id l h)

Preserves-refl : (m : ConversationMemory) → Preserves m m
Preserves-refl m = (
  All-ids (Stays goal_section (present m.goal) m.archived) (present m.goal) (λ id h. inl h),
  All-ids (λ id. HasId id m.constraints) m.constraints (λ id h. h),
  All-ids (Stays decisions_section m.decisions m.archived) m.decisions (λ id h. inl h),
  All-ids (Stays open_items_section m.open_items m.archived) m.open_items (λ id h. inl h),
  Longer-refl m.archived,
)

Preserves-next_revision :
    (old new : ConversationMemory) (revision : ℤ)
    → Preserves old new
    → Preserves old (record new { revision = revision })
Preserves-next_revision old new revision h = h

module _ (space : ℕ → Bool) (fold : Text → Text) where
  review_provisional-Preserves :
      (old candidate new : ConversationMemory)
      → review_provisional space fold old candidate ≡ ok new
      → Preserves old new
  unfolding review_provisional
  review_provisional-Preserves old candidate new h =
      let (opened, e1, h1) =
        bind_ok
          (review_all (review_open_item space fold)
            (record { entries = old.open_items; archived = old.archived }) candidate.open_items)
          _ new h in
      let (decided, e2, h2) =
        bind_ok
          (review_all (review_decision space fold)
            (record { entries = old.decisions; archived = opened.archived }) candidate.decisions)
          _ new h1 in
      let (goal, e3, h3) =
        bind_ok (review_goal old.goal decided.archived candidate.goal) _ new h2 in
      let (more1, kept1) =
        review_all-Lossless open_items_section (review_open_item space fold)
          (review_open_item-Lossless space fold) _ opened candidate.open_items e1 in
      let (more2, kept2) =
        review_all-Lossless decisions_section (review_decision space fold)
          (review_decision-Lossless space fold) _ decided candidate.decisions e2 in
      let (more3, kept3) = review_goal-lem old.goal decided.archived candidate.goal goal e3 in
      let late : Longer opened.archived goal.archived =
        Longer-trans opened.archived decided.archived goal.archived more2 more3 in
      let whole : Longer old.archived goal.archived =
        Longer-trans old.archived opened.archived goal.archived more1 late in
      let result : ConversationMemory =
        reviewed_memory space fold old candidate opened decided goal in
      subst (Preserves old) (ok_injective h3) (
        All-ids (Stays goal_section (present goal.goal) goal.archived) (present old.goal) kept3,
        All-ids (λ id. HasId id result.constraints) old.constraints
            (λ id k. replace_or_append-HasId space fold old.constraints candidate.constraints id k),
        All-ids (Stays decisions_section decided.entries goal.archived) old.decisions (λ id k.
            later decisions_section id decided.entries decided.archived goal.archived more3
              (kept2 id k)),
        All-ids (Stays open_items_section opened.entries goal.archived) old.open_items (λ id k.
            later open_items_section id opened.entries opened.archived goal.archived late
              (kept1 id k)),
        whole,
      )

  -- A reviewed merge loses no item: for each item of the old memory the result has an item with its id, of
  -- a constraint among the constraints, and of a goal, a decision or an open item in the same section or
  -- in the archive under the section's name; the archive has only grown. The result is the old memory, or one
  -- whose revision is the next, and no two of its items have the same id.
  pub merge_review_candidate-Preserves :
      (dumps : Json → Text) (old candidate new : ConversationMemory) (sources : List Text)
      (limit : ℕ)
      → merge_review_candidate space fold dumps old candidate sources limit ≡ ok new
      → Preserves old new × Succeeds old new × Distinct (ids new)
  unfolding merge_review_candidate
  merge_review_candidate-Preserves dumps old candidate new sources limit h =
      let (allowed, valid, h1) =
        bind_ok (validate_merge_inputs space fold dumps old candidate sources limit) _ new h in
      let left : (review_provisional space fold old candidate >>= λ p.
      finish_merge space fold dumps old p allowed limit)
          ≡ ok new =
        (then_ok (refuse (not (is_nil candidate.archived)) (codes "模型候选不能直接写入归档")) _ new h1).1 in
      let (provisional, made, h2) =
        bind_ok (review_provisional space fold old candidate) _ new left in
      elim (finish_merge-cases space fold dumps old provisional new allowed limit h2) [
        | inl e ↦
            subst (λ m. Preserves old m × Succeeds old m × Distinct (ids m)) (sym e)
              (
                Preserves-refl old,
                inl refl,
                Distinct-ids space fold dumps (memory_source_ids old) limit old
                    (inputs_valid space fold dumps old candidate sources allowed limit valid),
              )
        | inr (e, v) ↦ (
          subst (Preserves old) (sym e) (
              Preserves-next_revision old provisional (int_suc old.revision)
                (review_provisional-Preserves old candidate provisional made)),
          inr (ap (λ m. m.revision) e),
          Distinct-ids space fold dumps allowed limit new v,
        )
      ]
