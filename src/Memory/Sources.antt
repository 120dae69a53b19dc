-- ===== src/Memory/Sources.antt =====
-- The tests of context/memory.py on the sources of an item, one after another.
use tricoder_agent.Base.{
  of_not, List, [], ◌∷◌, ◌++◌, true, Option, none, some, ok, ◌≡◌, refl, map, All, then_ok,
  raise_if_ok, contains, Text, nat_eq, list_eq,
}
use tricoder_agent.Memory.{MemoryItem}
use tricoder_agent.Memory.Validation.{Check, each, is_source_id, validate_source}

pub append-All :
    {A : Type 0} (P : A → Type 0) (xs ys : List A) → All P (xs ++ ys) → All P xs × All P ys
append-All P [] ys a = (tt, a)
append-All P (x ∷ xs) ys a = let (l, r) = append-All P xs ys a.1 in ((a.0, l), r)

pub map-All :
    {A B : Type 0} (P : B → Type 0) (f : A → B) (xs : List A)
    → All P (map f xs)
    → All (λ x. P (f x)) xs
map-All P f [] a = tt
map-All P f (x ∷ xs) a = (a.0, map-All P f xs a.1)

pub All-map_of :
    {A B : Type 0} (P : B → Type 0) (f : A → B) (xs : List A)
    → All (λ x. P (f x)) xs
    → All P (map f xs)
All-map_of P f [] a = tt
All-map_of P f (x ∷ xs) a = (a.0, All-map_of P f xs a.1)

pub All-zip :
    {A : Type 0} (P Q : A → Type 0) (xs : List A) → All P xs → All Q xs → All (λ x. P x × Q x) xs
All-zip P Q [] a b = tt
All-zip P Q (x ∷ xs) a b = ((a.0, b.0), All-zip P Q xs a.1 b.1)

pub each-All :
    {A : Type 0} (f : A → Check) (xs : List A) → each f xs ≡ ok tt → All (λ x. f x ≡ ok tt) xs
unfolding each
each-All f [] h = tt
each-All f (x ∷ xs) h = let (a, b) = then_ok (f x) (each f xs) tt h in (a, each-All f xs b)

pub All-each :
    {A : Type 0} (f : A → Check) (xs : List A) → All (λ x. f x ≡ ok tt) xs → each f xs ≡ ok tt
unfolding each
All-each f [] a = refl
All-each f (x ∷ xs) a = rw a.0 (All-each f xs a.1)

-- The sources of an item are among those.
abbrev pub Covered : List Text → MemoryItem → Type 0
Covered allowed item = All (λ s. contains allowed s ≡ true) item.source_ids

abbrev pub Sourced : MemoryItem → Type 0
Sourced item = All (λ s. is_source_id s ≡ true) item.source_ids

pub validate_source-is_source_id :
    (allowed : Option (List Text)) (s : Text)
    → validate_source allowed s ≡ ok tt
    → is_source_id s ≡ true
unfolding validate_source
validate_source-is_source_id allowed s h =
    of_not (is_source_id s) (raise_if_ok _ _ _ (then_ok _ _ _ h).0)

pub validate_source_known :
    (allowed : List Text) (s : Text)
    → contains allowed s ≡ true
    → validate_source none s ≡ ok tt
    → validate_source (some allowed) s ≡ ok tt
unfolding validate_source
validate_source_known allowed s c h =
    let format : is_source_id s ≡ true = validate_source-is_source_id none s h in
    rw (format, c) refl

pub validate_source-contains :
    (allowed : List Text) (s : Text)
    → validate_source (some allowed) s ≡ ok tt
    → contains allowed s ≡ true
unfolding validate_source
validate_source-contains allowed s h =
    of_not (contains allowed s) (raise_if_ok _ _ _ (then_ok _ _ _ h).1)
