-- ===== src/Memory/Positions.antt =====
-- Positions in a section of the memory: what the writes of context/memory.py at a position do to the ids.
use tricoder_agent.Base.{
  ℕ, zero, suc, List, [], ◌∷◌, Bool, true, false, Option, none, some, ◌≡◌, refl, ap, ◌⊎◌, inl, inr,
  Has, Text, ◌==◌, ==_iff, nat_eq, list_eq, arith, some_injective, none-ne-some,
}
use tricoder_agent.Memory.{MemoryItem}
use tricoder_agent.Memory.Merging.{first_of, index_by_id, entry_at, without, with_entry}

abbrev pub HasId : Text → List MemoryItem → Type 0
HasId id items = Has (λ i. i.id ≡ id) items

-- The item at a position, which has that id.
abbrev pub Placed : List MemoryItem → ℕ → Text → Type 0
Placed entries n id = (entry : MemoryItem) × (entry_at entries n ≡ some entry) × (entry.id ≡ id)

first_of-Placed :
    (entry : MemoryItem) (entries : List MemoryItem) (id : Text) (b : Bool) (rest : Option ℕ)
    (n : ℕ)
    → (entry.id == id) ≡ b
    → ((m : ℕ) → rest ≡ some m → Placed entries m id)
    → first_of b rest ≡ some n
    → Placed (entry ∷ entries) n id
unfolding entry_at
first_of-Placed entry entries id true rest zero e next h = (entry, refl, (==_iff entry.id id).0 e)
first_of-Placed entry entries id true rest (suc n) e next h =
    absurd (omega (arith, some_injective h))
first_of-Placed entry entries id false none n e next h = absurd (none-ne-some h)
first_of-Placed entry entries id false (some m) zero e next h =
    absurd (omega (arith, some_injective h))
first_of-Placed entry entries id false (some m) (suc n) e next h =
    next n (ap some (suc_inj (some_injective h)))
  where
    suc_inj : {m n : ℕ} → suc m ≡ suc n → m ≡ n
    suc_inj e = omega arith

pub index_by_id-Placed :
    (entries : List MemoryItem) (id : Text) (n : ℕ)
    → index_by_id entries id ≡ some n
    → Placed entries n id
unfolding index_by_id
index_by_id-Placed [] id n h = absurd (none-ne-some h)
index_by_id-Placed (entry ∷ entries) id n h =
    first_of-Placed entry entries id (entry.id == id) (index_by_id entries id) n refl
      (λ m q. index_by_id-Placed entries id m q) h

pub without-HasId :
    (entries : List MemoryItem) (n : ℕ) (id other : Text)
    → Placed entries n id
    → HasId other entries
    → (other ≡ id) ⊎ HasId other (without entries n)
unfolding entry_at without
without-HasId [] n id other (entry, e, p) h = inr h
without-HasId (x ∷ entries) zero id other (entry, e, p) (inl h) = inl (cc (some_injective e))
without-HasId (x ∷ entries) zero id other (entry, e, p) (inr h) = inr h
without-HasId (x ∷ entries) (suc n) id other p (inl h) = inr (inl h)
without-HasId (x ∷ entries) (suc n) id other p (inr h) =
    elim (without-HasId entries n id other p h) [ inl q ↦ inl q | inr q ↦ inr (inr q) ]

pub with_entry-HasId :
    (entries : List MemoryItem) (n : ℕ) (new : MemoryItem) (other : Text)
    → Placed entries n new.id
    → HasId other entries
    → HasId other (with_entry entries n new)
unfolding entry_at with_entry
with_entry-HasId [] n new other p h = h
with_entry-HasId (x ∷ entries) zero new other (entry, e, p) (inl h) = inl (cc (some_injective e))
with_entry-HasId (x ∷ entries) zero new other p (inr h) = inr h
with_entry-HasId (x ∷ entries) (suc n) new other p (inl h) = inl h
with_entry-HasId (x ∷ entries) (suc n) new other p (inr h) =
    inr (with_entry-HasId entries n new other p h)

pub with_entry_new :
    (entries : List MemoryItem) (n : ℕ) (new : MemoryItem)
    → Placed entries n new.id
    → HasId new.id (with_entry entries n new)
unfolding entry_at with_entry
with_entry_new [] n new (entry, e, p) = absurd (none-ne-some e)
with_entry_new (x ∷ entries) zero new p = inl refl
with_entry_new (x ∷ entries) (suc n) new p = inr (with_entry_new entries n new p)
