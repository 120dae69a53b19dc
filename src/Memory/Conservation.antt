-- ===== src/Memory/Conservation.antt =====
-- What a merge at run time, `merge_candidate` of context/memory.py, leaves of the memory it merges into.
use tricoder_agent.Base.{
  ℕ, List, [], Bool, false, Option, none, some, ok, ◌≡◌, refl, sym, ap, ◌⊎◌, inl, inr, All-map,
  then_ok, bind_ok, ok_injective, contains, Text, nat_eq, list_eq, eqb_iff, ℤ, distinct-length,
  Distinct, map, Bool-cases, subst,
}
use mathlib.Core.List.{append-nil}
use tricoder_agent.Memory.{
  MemoryItem, ConversationMemory, all_items, active, pending, memory_source_ids,
}
use tricoder_agent.Memory.Json.{Json}
use tricoder_agent.Memory.Validation.{id_of, validate_memory, validate_candidate, check_capacity}
use tricoder_agent.Memory.Merging.{
  int_suc, memory_beq, Appended, append_new, merged_goal, goal_ids, merge_provisional,
  validate_merge_inputs, finish_merge, merge_candidate,
}
use tricoder_agent.Memory.RoundTrip.{parts}
use tricoder_agent.Memory.Appending.{Extends, unused, append_new-Extends, used_grows}

Extends-weaker :
    (state : Text) (used more : List Text) (old new : List MemoryItem)
    → ((id : Text) → contains more id ≡ false → contains used id ≡ false)
    → Extends state more old new
    → Extends state used old new
Extends-weaker state used more old new f (added, e, a) =
    (added, e, All-map (λ x (s, r, u). (s, r, f x.id u)) added a)

-- A goal that is there stays.
abbrev pub GoalKept : Option MemoryItem → Option MemoryItem → Type 0
GoalKept none new = Unit
GoalKept (some old) new = new ≡ some old

merged_goal-GoalKept :
    (used : List Text) (old proposed : Option MemoryItem)
    → GoalKept old (merged_goal used old proposed)
merged_goal-GoalKept used none proposed = tt
merged_goal-GoalKept used (some old) proposed = refl

goal_ids_grow :
    (old goal : Option MemoryItem) (used : List Text) (id : Text)
    → contains (goal_ids old goal used) id ≡ false
    → contains used id ≡ false
goal_ids_grow none none used id h = h
goal_ids_grow none (some goal) used id h = unused used goal.id id h
goal_ids_grow (some old) goal used id h = h

abbrev pub ids : ConversationMemory → List Text
ids m = map id_of (all_items m)

-- What a merge leaves: the goal, the items of every section in their order with new ones after them, the
-- archive and the generation.
abbrev pub Keeps : ConversationMemory → ConversationMemory → Type 0
Keeps old new =
    GoalKept old.goal new.goal
    × Extends active (ids old) old.constraints new.constraints
    × Extends active (ids old) old.decisions new.decisions
    × Extends pending (ids old) old.open_items new.open_items
    × (new.archived ≡ old.archived)
    × (new.generation ≡ old.generation)

Extends-refl :
    (state : Text) (used : List Text) (old : List MemoryItem) → Extends state used old old
Extends-refl state used old = ([], sym (append-nil old), tt)

GoalKept-refl : (goal : Option MemoryItem) → GoalKept goal goal
GoalKept-refl none = tt
GoalKept-refl (some goal) = refl

Keeps-refl : (m : ConversationMemory) → Keeps m m
Keeps-refl m = (
  GoalKept-refl m.goal,
  Extends-refl active (ids m) m.constraints,
  Extends-refl active (ids m) m.decisions,
  Extends-refl pending (ids m) m.open_items,
  refl,
  refl,
)

-- A version later, or the same memory.
abbrev pub Succeeds : ConversationMemory → ConversationMemory → Type 0
Succeeds old new = (new ≡ old) ⊎ (new.revision ≡ int_suc old.revision)

module _ (space : ℕ → Bool) (fold : Text → Text) where
  merge_provisional-Keeps :
      (old candidate : ConversationMemory) → Keeps old (merge_provisional space fold old candidate)
  unfolding merge_provisional
  merge_provisional-Keeps old candidate =
      let used : List Text = ids old in
      let goal : Option MemoryItem = merged_goal used old.goal candidate.goal in
      let started : List Text = goal_ids old.goal goal used in
      let first : Appended =
        append_new space fold active old.constraints candidate.constraints started in
      let second : Appended =
        append_new space fold active old.decisions candidate.decisions first.used_ids in
      let back : (id : Text) → contains started id ≡ false → contains used id ≡ false =
        goal_ids_grow old.goal goal used in
      let back1 : (id : Text) → contains first.used_ids id ≡ false → contains used id ≡ false =
        λ id h.
          back id
            (used_grows space fold active old.constraints candidate.constraints started id h) in
      let back2 : (id : Text) → contains second.used_ids id ≡ false → contains used id ≡ false =
        λ id h.
          back1 id
            (used_grows space fold active old.decisions candidate.decisions first.used_ids id h) in
      (
        merged_goal-GoalKept used old.goal candidate.goal,
        Extends-weaker active used started old.constraints _ back
            (append_new-Extends space fold active old.constraints candidate.constraints started),
        Extends-weaker active used first.used_ids old.decisions _ back1
            (append_new-Extends space fold active old.decisions candidate.decisions first.used_ids),
        Extends-weaker pending used second.used_ids old.open_items _ back2 (
            append_new-Extends space fold pending old.open_items candidate.open_items
              second.used_ids),
        refl,
        refl,
      )

  module _ (dumps : Json → Text) where
    validated :
        (allowed : List Text) (generation : Option ℤ) (limit : ℕ) (m new : ConversationMemory)
        → validate_candidate space dumps allowed generation limit m ≡ ok new
        → (new ≡ m) × (validate_memory space dumps (some allowed) (some limit) m ≡ ok tt)
    unfolding validate_candidate
    validated allowed generation limit m new h =
        let (sources, h1) = then_ok _ _ _ h in
        let (valid, h2) =
          then_ok (validate_memory space dumps (some allowed) (some limit) m) _ _ h1 in
        (sym (ok_injective (then_ok _ _ _ h2).1), valid)

    pub Distinct-ids :
        (allowed : List Text) (limit : ℕ) (m : ConversationMemory)
        → validate_memory space dumps (some allowed) (some limit) m ≡ ok tt
        → Distinct (ids m)
    Distinct-ids allowed limit m h =
        distinct-length (ids m)
          ((eqb_iff _ _).0 (parts space dumps (some allowed) (some limit) m h).2)

    -- A merge ends with the old memory, or with the new one a version later, which is valid.
    pub finish_merge-cases :
        (old provisional new : ConversationMemory) (allowed : List Text) (limit : ℕ)
        → finish_merge space fold dumps old provisional allowed limit ≡ ok new
        → (new ≡ old)
          ⊎ ((new ≡ record provisional { revision = int_suc old.revision })
              × (validate_memory space dumps (some allowed) (some limit) new ≡ ok tt))
    unfolding finish_merge
    finish_merge-cases old provisional new allowed limit h =
        let rest = (then_ok (check_capacity provisional) _ new h).1 in
        elim (Bool-cases (memory_beq provisional old)) [
          | inl same ↦ inl (sym (ok_injective (rw same at rest)))
          | inr other ↦
              let (e, v) =
                validated allowed none limit
                  (record provisional { revision = int_suc old.revision }) new (rw other at rest) in
              inr (e, (rw e v))
        ]

    -- What the inputs of a merge have been checked for.
    pub inputs_valid :
        (old candidate : ConversationMemory) (sources allowed : List Text) (limit : ℕ)
        → validate_merge_inputs space fold dumps old candidate sources limit ≡ ok allowed
        → validate_memory space dumps (some (memory_source_ids old)) (some limit) old ≡ ok tt
    unfolding validate_merge_inputs
    inputs_valid old candidate sources allowed limit h =
        let (m, v, rest) = bind_ok _ _ _ h in
        (validated (memory_source_ids old) none limit old m v).1

    -- A merge at run time rewrites nothing: it returns the memory as it was, or one whose revision is the
    -- next. The goal, if there is one, the generation and the archive stay, and so do the items of each
    -- section, in their order. New items stand after them: active ones, or pending ones for the open
    -- items, which replace none and whose ids no item of the old memory has. No two items of the result
    -- have the same id.
    pub merge_candidate-Keeps :
        (old candidate new : ConversationMemory) (sources : List Text) (limit : ℕ)
        → merge_candidate space fold dumps old candidate sources limit ≡ ok new
        → Keeps old new × Succeeds old new × Distinct (ids new)
    unfolding merge_candidate
    merge_candidate-Keeps old candidate new sources limit h =
        let (allowed, valid, h1) =
          bind_ok (validate_merge_inputs space fold dumps old candidate sources limit) _ new h in
        let h2 = (then_ok _ _ _ h1).1 in
        elim (finish_merge-cases old (merge_provisional space fold old candidate) new allowed limit
          h2) [
            | inl e ↦
                subst (λ m. Keeps old m × Succeeds old m × Distinct (ids m)) (sym e)
                  (
                    Keeps-refl old,
                    inl refl,
                    Distinct-ids (memory_source_ids old) limit old
                        (inputs_valid old candidate sources allowed limit valid),
                  )
            | inr (e, v) ↦ (
              subst (Keeps old) (sym e) (merge_provisional-Keeps old candidate),
              inr (ap (λ m. m.revision) e),
              Distinct-ids allowed limit new v,
            )
          ]
