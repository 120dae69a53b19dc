-- ===== src/Memory/Accepted.antt =====
-- What the validation of context/memory.py says of the items it lets through.
use tricoder_agent.Base.{
  of_not, ℕ, List, Bool, true, Option, none, some, ok, ◌≡◌, refl, All, All-map, All-append, then_ok,
  raise_if_ok, contains, Text, nat_eq, list_eq,
}
use tricoder_agent.Memory.{
  MemoryItem, ArchivedMemoryItem, ConversationMemory, archived_item, present, all_items,
}
use tricoder_agent.Memory.Validation.{
  sections, Check, each, validate_source, validate_text, validate_state, validate_item,
  validate_goal, validate_section, validate_section_item, validate_archived_item, validate_items,
  goal_section, constraints_section, decisions_section, open_items_section,
}
use tricoder_agent.Memory.Sources.{
  append-All, map-All, All-map_of, All-zip, each-All, All-each, Covered, Sourced,
  validate_source-is_source_id, validate_source_known, validate_source-contains,
}

module _ (space : ℕ → Bool) where
  pub validate_item-sources :
      (allowed : Option (List Text)) (item : MemoryItem)
      → validate_item space allowed item ≡ ok tt
      → each (validate_source allowed) item.source_ids ≡ ok tt
  unfolding validate_item
  validate_item-sources allowed item h =
      (then_ok (each (validate_source allowed) item.source_ids) (validate_state space item) tt
        (then_ok (validate_text space item) _ tt h).1).0

  pub validate_item-Sourced :
      (allowed : Option (List Text)) (item : MemoryItem)
      → validate_item space allowed item ≡ ok tt
      → Sourced item
  validate_item-Sourced allowed item h =
      All-map (validate_source-is_source_id allowed) item.source_ids
        (each-All (validate_source allowed) item.source_ids (validate_item-sources allowed item h))

  pub validate_item-Covered :
      (allowed : List Text) (item : MemoryItem)
      → validate_item space (some allowed) item ≡ ok tt
      → Covered allowed item
  validate_item-Covered allowed item h =
      All-map (validate_source-contains allowed) item.source_ids (
        each-All (validate_source (some allowed)) item.source_ids
          (validate_item-sources (some allowed) item h))

  validate_item_known :
      (allowed : List Text) (item : MemoryItem)
      → Covered allowed item
      → validate_item space none item ≡ ok tt
      → validate_item space (some allowed) item ≡ ok tt
  unfolding validate_item
  validate_item_known allowed item c h =
      let (text, rest) = then_ok (validate_text space item) _ tt h in
      let (sources, state) =
        then_ok (each (validate_source none) item.source_ids) (validate_state space item) tt rest in
      let known : each (validate_source (some allowed)) item.source_ids ≡ ok tt =
        All-each (validate_source (some allowed)) item.source_ids (
          All-map (λ s (k, v). validate_source_known allowed s k v) item.source_ids
            (All-zip (λ s. contains allowed s ≡ true) (λ s. validate_source none s ≡ ok tt)
              item.source_ids c (each-All (validate_source none) item.source_ids sources))) in
      rw (text, known) state

  section_known :
      (section : Text) (allowed : List Text) (item : MemoryItem)
      → Covered allowed item
      → validate_section_item space section none item ≡ ok tt
      → validate_section_item space section (some allowed) item ≡ ok tt
  unfolding validate_section_item
  section_known section allowed item c h =
      let (valid, state) =
        then_ok (validate_item space none item) (validate_section space section item) tt h in
      rw (validate_item_known allowed item c valid) state

  archived_known :
      (allowed : List Text) (entry : ArchivedMemoryItem)
      → Covered allowed entry.item
      → validate_archived_item space none entry ≡ ok tt
      → validate_archived_item space (some allowed) entry ≡ ok tt
  unfolding validate_archived_item
  archived_known allowed entry c h =
      let (section, rest) = then_ok _ _ _ h in
      let (valid, state) = then_ok (validate_item space none entry.item) _ tt rest in
      let known : contains sections entry.section ≡ true = of_not _ (raise_if_ok _ _ _ section) in
      rw (known, validate_item_known allowed entry.item c valid) state

  each_known :
      {A : Type 0} (item_of : A → MemoryItem) (f g : A → Check) (allowed : List Text)
      → ((x : A) → Covered allowed (item_of x) → f x ≡ ok tt → g x ≡ ok tt)
      → (xs : List A) → All (λ x. Covered allowed (item_of x)) xs
      → each f xs ≡ ok tt
      → each g xs ≡ ok tt
  each_known item_of f g allowed step xs c h = All-each g xs (
      All-map (λ x (k, v). step x k v) xs
        (All-zip (λ x. Covered allowed (item_of x)) (λ x. f x ≡ ok tt) xs c (each-All f xs h)))

  -- The items by section.
  abbrev pub BySection : (MemoryItem → Type 0) → ConversationMemory → Type 0
  BySection P m =
      All P (present m.goal)
      × All P m.constraints
      × All P m.decisions
      × All P m.open_items
      × All (λ entry. P entry.item) m.archived

  pub all_items-BySection :
      (P : MemoryItem → Type 0) (m : ConversationMemory) → All P (all_items m) → BySection P m
  unfolding all_items
  all_items-BySection P m a =
      let (goal, a1) = append-All P (present m.goal) _ a in
      let (constraints, a2) = append-All P m.constraints _ a1 in
      let (decisions, a3) = append-All P m.decisions _ a2 in
      let (open_items, a4) = append-All P m.open_items _ a3 in
      (goal, constraints, decisions, open_items, map-All P archived_item m.archived a4)

  pub BySection-all_items :
      (P : MemoryItem → Type 0) (m : ConversationMemory) → BySection P m → All P (all_items m)
  unfolding all_items
  BySection-all_items P m (goal, constraints, decisions, open_items, archived) =
      All-append P (present m.goal) _ goal (
        All-append P m.constraints _ constraints (
          All-append P m.decisions _ decisions (
            All-append P m.open_items _ open_items
              (All-map_of P archived_item m.archived archived))))

  goal_known :
      (allowed : List Text) (goal : Option MemoryItem)
      → All (Covered allowed) (present goal)
      → validate_goal space none goal ≡ ok tt
      → validate_goal space (some allowed) goal ≡ ok tt
  unfolding validate_goal
  goal_known allowed none c h = refl
  goal_known allowed (some goal) c h = section_known goal_section allowed goal c.0 h

  -- Items whose sources are all allowed stay valid.
  pub validate_items_known :
      (allowed : List Text) (m : ConversationMemory)
      → All (Covered allowed) (all_items m)
      → validate_items space none m ≡ ok tt
      → validate_items space (some allowed) m ≡ ok tt
  unfolding validate_items
  validate_items_known allowed m c h =
      let (g, cs, ds, os, ars) = all_items-BySection (Covered allowed) m c in
      let (goal, h1) = then_ok (validate_goal space none m.goal) _ tt h in
      let (constraints, h2) = then_ok (each _ m.constraints) _ tt h1 in
      let (decisions, h3) = then_ok (each _ m.decisions) _ tt h2 in
      let (open_items, archived) = then_ok (each _ m.open_items) _ tt h3 in
      rw
        (
          goal_known allowed m.goal g goal,
          each_known (λ i. i) _ (validate_section_item space constraints_section (some allowed))
              allowed (section_known constraints_section allowed) m.constraints cs constraints,
          each_known (λ i. i) _ (validate_section_item space decisions_section (some allowed))
              allowed (section_known decisions_section allowed) m.decisions ds decisions,
          each_known (λ i. i) _ (validate_section_item space open_items_section (some allowed))
              allowed (section_known open_items_section allowed) m.open_items os open_items,
        )
        (each_known archived_item _ (validate_archived_item space (some allowed)) allowed
          (archived_known allowed) m.archived ars archived)

  section_valid :
      (section : Text) (allowed : Option (List Text)) (item : MemoryItem)
      → validate_section_item space section allowed item ≡ ok tt
      → validate_item space allowed item ≡ ok tt
  unfolding validate_section_item
  section_valid section allowed item h =
      (then_ok (validate_item space allowed item) (validate_section space section item) tt h).0

  archived_valid :
      (allowed : Option (List Text)) (entry : ArchivedMemoryItem)
      → validate_archived_item space allowed entry ≡ ok tt
      → validate_item space allowed entry.item ≡ ok tt
  unfolding validate_archived_item
  archived_valid allowed entry h =
      (then_ok (validate_item space allowed entry.item) _ tt (then_ok _ _ _ h).1).0

  goal_valid :
      (allowed : Option (List Text)) (goal : Option MemoryItem)
      → validate_goal space allowed goal ≡ ok tt
      → All (λ i. validate_item space allowed i ≡ ok tt) (present goal)
  unfolding validate_goal
  goal_valid allowed none h = tt
  goal_valid allowed (some goal) h = (section_valid goal_section allowed goal h, tt)

  -- Every item of a memory that was let through is valid.
  pub validate_items-All :
      (allowed : Option (List Text)) (m : ConversationMemory)
      → validate_items space allowed m ≡ ok tt
      → All (λ i. validate_item space allowed i ≡ ok tt) (all_items m)
  unfolding validate_items
  validate_items-All allowed m h =
      let (goal, h1) = then_ok (validate_goal space allowed m.goal) _ tt h in
      let (constraints, h2) = then_ok (each _ m.constraints) _ tt h1 in
      let (decisions, h3) = then_ok (each _ m.decisions) _ tt h2 in
      let (open_items, archived) = then_ok (each _ m.open_items) _ tt h3 in
      BySection-all_items (λ i. validate_item space allowed i ≡ ok tt) m
        (
          goal_valid allowed m.goal goal,
          All-map (section_valid constraints_section allowed) m.constraints
              (each-All _ _ constraints),
          All-map (section_valid decisions_section allowed) m.decisions (each-All _ _ decisions),
          All-map (section_valid open_items_section allowed) m.open_items (each-All _ _ open_items),
          All-map (archived_valid allowed) m.archived (each-All _ _ archived),
        )
