-- ===== src/Memory/Appending.antt =====
-- What `append_new` of context/memory.py adds to a section.
use tricoder_agent.Base.{
  ℕ, List, [], ◌∷◌, ◌++◌, Bool, false, Option, none, some, ◌≡◌, refl, sym, inl, inr, All, All-map,
  contains, Text, arith, nat_eq, list_eq, is_some, ==_iff, Bool-cases, subst, if◌then◌else◌,
}
use mathlib.Core.List.{append-nil, append_assoc}
use tricoder_agent.Memory.{MemoryItem}
use tricoder_agent.Memory.Merging.{Appended, is_skipped, append_new}

-- An item that a merge may add: in that state, in place of no other, with an id that is not used.
abbrev pub IsNew : Text → List Text → MemoryItem → Type 0
IsNew state used item =
    (item.state ≡ state) × (item.replaces_id ≡ none) × (contains used item.id ≡ false)

-- The old items with new ones after them.
abbrev pub Extends : Text → List Text → List MemoryItem → List MemoryItem → Type 0
Extends state used old new =
    (added : List MemoryItem) × (new ≡ old ++ added) × All (IsNew state used) added

pub unused :
    (used : List Text) (a b : Text) → contains (a ∷ used) b ≡ false → contains used b ≡ false
unfolding contains
unused used a b h = ground arith

none_of : {A : Type 0} (o : Option A) → is_some o ≡ false → o ≡ none
none_of none h = refl
none_of (some a) h = cc

Extends-one_more :
    (state : Text) (used : List Text) (old new : List MemoryItem) (item : MemoryItem)
    → IsNew state used item
    → Extends state (item.id ∷ used) (old ++ item ∷ []) new
    → Extends state used old new
Extends-one_more state used old new item n (added, e, a) = (
  item ∷ added,
  (rw e (append_assoc old (item ∷ []) added)),
  (n, All-map (λ x (s, r, u). (s, r, unused used item.id x.id u)) added a),
)

module _ (space : ℕ → Bool) (fold : Text → Text) where
  not_skipped :
      (state : Text) (used : List Text) (merged : List MemoryItem) (item : MemoryItem)
      → is_skipped space fold state used merged item ≡ false
      → IsNew state used item
  unfolding is_skipped
  not_skipped state used merged item h = (
    (==_iff item.state state).0 (ground arith),
    none_of item.replaces_id (ground arith),
    ground arith,
  )

  -- The rest of a merge after an item that is skipped, or is not.
  abbrev after : Text → List MemoryItem → MemoryItem → List MemoryItem → List Text → Bool → Appended
  after state merged item proposed used skipped =
      append_new space fold state (if skipped then merged else merged ++ item ∷ []) proposed
        (if skipped then used else item.id ∷ used)

  pub append_new-Extends :
      (state : Text) (merged proposed : List MemoryItem) (used : List Text)
      → Extends state used merged (append_new space fold state merged proposed used).items
  unfolding append_new
  append_new-Extends state merged [] used = ([], sym (append-nil merged), tt)
  append_new-Extends state merged (item ∷ proposed) used =
      elim (Bool-cases (is_skipped space fold state used merged item)) [
        | inl old ↦
            subst (λ b. Extends state used merged (after state merged item proposed used b).items)
              (sym old) (append_new-Extends state merged proposed used)
        | inr new ↦
            subst (λ b. Extends state used merged (after state merged item proposed used b).items)
              (sym new)
              (Extends-one_more state used merged _ item (not_skipped state used merged item new)
                (append_new-Extends state (merged ++ item ∷ []) proposed (item.id ∷ used)))
      ]

  -- An id that is used stays so.
  pub used_grows :
      (state : Text) (merged proposed : List MemoryItem) (used : List Text) (id : Text)
      → contains (append_new space fold state merged proposed used).used_ids id ≡ false
      → contains used id ≡ false
  unfolding append_new
  used_grows state merged [] used id h = h
  used_grows state merged (item ∷ proposed) used id h =
      elim (Bool-cases (is_skipped space fold state used merged item)) [
        | inl old ↦ used_grows state merged proposed used id (
            subst (λ b. contains (after state merged item proposed used b).used_ids id ≡ false) old
              h)
        | inr new ↦ unused used item.id id (
            used_grows state (merged ++ item ∷ []) proposed (item.id ∷ used) id (
              subst (λ b. contains (after state merged item proposed used b).used_ids id ≡ false)
                new h))
      ]
