-- ===== src/Memory/RoundTrip.antt =====
-- A memory of context/memory.py written as JSON and read again.
use tricoder_agent.Base.{
  of_not, ℕ, ◌≤◌, ◌<◌, List, [], ◌∷◌, Bool, true, false, Option, none, some, ok, ◌≡◌, refl, All,
  All-map, All-append, then_ok, ok_injective, raise_if_ok, contains_iff, Text, arith, nat_eq,
  list_eq, all, All→all, All-intro, Has-append_left, Has-append_right, In, length, ltb, pos, ==_iff,
  map, subst, sym,
}
use tricoder_agent.Memory.{
  MemoryItem, ConversationMemory, int_eq, all_items, sources_of, memory_source_ids,
}
use tricoder_agent.Memory.Json.{Json}
use tricoder_agent.Memory.Payload.{memory_payload}
use tricoder_agent.Memory.Validation.{
  is_source_id, no_repeats, id_of, validate_frame, validate_items, validate_length, validate_memory,
  validate_candidate,
}
use tricoder_agent.Memory.Sources.{Covered, Sourced}
use tricoder_agent.Memory.Accepted.{validate_item-Sourced, validate_items_known, validate_items-All}
use tricoder_agent.Memory.Decoding.{memory_from_payload-memory_payload}
use tricoder_agent.Memory.Reading.{memory_to_json, memory_from_json}

sources_of-Sourced :
    (items : List MemoryItem)
    → All Sourced items
    → All (λ s. is_source_id s ≡ true) (sources_of items)
unfolding sources_of
sources_of-Sourced [] a = tt
sources_of-Sourced (item ∷ items) a =
    All-append (λ s. is_source_id s ≡ true) item.source_ids (sources_of items) a.0
      (sources_of-Sourced items a.1)

Covered-In :
    (allowed : List Text) (item : MemoryItem)
    → ((s : Text) → In s item.source_ids → In s allowed)
    → Covered allowed item
Covered-In allowed item f = All-intro item.source_ids (λ s m. (contains_iff allowed s).1 (f s m))

-- An item's sources are among those of the items.
Covered-sources_of :
    (allowed : List Text) (items : List MemoryItem)
    → ((s : Text) → In s (sources_of items) → In s allowed)
    → All (Covered allowed) items
unfolding sources_of
Covered-sources_of allowed [] f = tt
Covered-sources_of allowed (item ∷ items) f = (
  Covered-In allowed item
      (λ s m. f s (Has-append_left (λ x. x ≡ s) item.source_ids (sources_of items) m)),
  Covered-sources_of allowed items
      (λ s m. f s (Has-append_right (λ x. x ≡ s) item.source_ids (sources_of items) m)),
)

module _ (space : ℕ → Bool) (dumps : Json → Text) where
  -- The parts of a validation.
  pub parts :
      (allowed : Option (List Text)) (limit : Option ℕ) (m : ConversationMemory)
      → validate_memory space dumps allowed limit m ≡ ok tt
      → (validate_frame space m ≡ ok tt)
        × (validate_items space allowed m ≡ ok tt)
        × (no_repeats (map id_of (all_items m)) ≡ true)
        × (validate_length space dumps limit m ≡ ok tt)
  unfolding validate_memory
  parts allowed limit m h =
      let (frame, h1) = then_ok (validate_frame space m) _ tt h in
      let (items, h2) = then_ok (validate_items space allowed m) _ tt h1 in
      let (ids, h3) = then_ok _ (validate_length space dumps limit m) tt h2 in
      (frame, items, of_not (no_repeats (map id_of (all_items m))) (raise_if_ok _ _ _ ids), h3)

  frame_version :
      (m : ConversationMemory) → validate_frame space m ≡ ok tt → m.schema_version ≡ pos 2
  unfolding validate_frame
  frame_version m h =
      (==_iff m.schema_version (pos 2)).0 (of_not _ (raise_if_ok _ _ _ (then_ok _ _ _ h).0))

  length_fits :
      (m : ConversationMemory) (limit : ℕ)
      → 0 < limit
      → length (dumps (memory_payload m)) ≤ limit
      → validate_length space dumps (some limit) m ≡ ok tt
  unfolding validate_length
  length_fits m limit positive fits = ground arith

  -- A memory that may be written is a candidate, with its own sources.
  candidate_of_valid :
      (m : ConversationMemory) (limit : ℕ)
      → validate_memory space dumps none none m ≡ ok tt
      → 0 < limit
      → length (dumps (memory_payload m)) ≤ limit
      → validate_candidate space dumps (memory_source_ids m) none limit m ≡ ok m
  unfolding validate_candidate validate_memory memory_source_ids
  candidate_of_valid m limit valid positive fits =
      let (frame, items, ids, rest) = parts none none m valid in
      let sourced : all is_source_id (sources_of (all_items m)) ≡ true =
        All→all is_source_id (sources_of (all_items m)) (
          sources_of-Sourced (all_items m) (
            All-map (validate_item-Sourced space none) (all_items m)
              (validate_items-All space none m items))) in
      let known : validate_items space (some (sources_of (all_items m))) m ≡ ok tt =
        validate_items_known space (sources_of (all_items m)) m
          (Covered-sources_of (sources_of (all_items m)) (all_items m) (λ s k. k)) items in
      rw (sourced, frame, known, ids, length_fits m limit positive fits) refl

  -- A memory that is written as JSON is read back as it was, if the limit is positive and admits the
  -- text, the reader is given no other sources, and `json.loads` gives back the value that was written.
  pub memory_from_json-memory_to_json :
      (loads : Text → Option Json) (m : ConversationMemory) (text : Text) (limit : ℕ)
      → memory_to_json space dumps m ≡ ok text
      → loads (dumps (memory_payload m)) ≡ some (memory_payload m)
      → 0 < limit
      → length text ≤ limit
      → memory_from_json space dumps loads text none limit ≡ ok m
  unfolding memory_from_json memory_to_json
  memory_from_json-memory_to_json loads m text limit written law positive fits =
      let (valid, same) = then_ok (validate_memory space dumps none none m) _ text written in
      let e : dumps (memory_payload m) ≡ text = ok_injective same in
      let version : m.schema_version ≡ pos 2 = frame_version m (parts none none m valid).0 in
      let short : ltb limit (length text) ≡ false = ground arith in
      let given : loads text ≡ some (memory_payload m) =
        subst (λ t. loads t ≡ some (memory_payload m)) e law in
      rw (short, given, memory_from_payload-memory_payload m version)
        (candidate_of_valid m limit valid positive (subst (λ t. length t ≤ limit) (sym e) fits))
