-- ===== src/Memory/Numbered.antt =====
-- The numbers that context/memory.py gives to the messages of a history: each one is new, and a second
-- numbering changes nothing.
use tricoder_agent.Base.{
  if◌then◌else◌, All-unseen, ℕ, ◌≤◌, ◌<◌, List, [], ◌∷◌, true, false, Option, none, some, Result,
  ok, ◌≡◌, refl, subst, inl, inr, All, contains, Distinct, Text, nat_eq, list_eq, eqb, arith,
  Bool-cases, bind_ok, then_ok, ok_injective, raise_if_ok,
}
use tricoder_agent.Messages.{Message, is_system}
use tricoder_agent.Memory.{MemoryError}
use tricoder_agent.Memory.Numbering.{
  Count, number_of, counted, numbered, assign_from, assign_message_sequences,
}
use tricoder_agent.Memory.Counting.{
  Below, OwnKept, number_of-fresh, cursor_grows, counted-Below, counted_again, numbered_again,
}

abbrev add : Option ℕ → List ℕ → List ℕ
add none ns = ns
add (some n) ns = n ∷ ns

-- The numbers of the messages of a history.
unfoldable pub numbers : List Message → List ℕ
numbers [] = []
numbers (m ∷ ms) =
    let rest = numbers ms in if is_system m.role then rest else add m.message_seq rest

-- A message but for its number and its task.
abbrev pub content_of : Message → Message
content_of m = record m { message_seq = none; task_id = none }

-- The message with a number: its own, if it had one.
abbrev pub IsNumbered : Message → Message → Type 0
IsNumbered m new =
    (content_of new ≡ content_of m)
    × ((n : ℕ) × (new.message_seq ≡ some n) × (0 < n) × OwnKept m.message_seq n)

-- The messages in their order, the system's as they were and the others with a number.
abbrev pub AreNumbered : List Message → List Message → Type 0
AreNumbered [] [] = Unit
AreNumbered [] (new ∷ news) = ⊥
AreNumbered (m ∷ ms) [] = ⊥
AreNumbered (m ∷ ms) (new ∷ news) =
    (if is_system m.role then new ≡ m else IsNumbered m new) × AreNumbered ms news

-- What a numbering from a count onwards gives.
abbrev Gives : (ℕ → Text) → Count → List Message → List Message → ℕ → Type 0
Gives show c ms news next =
    (c.cursor ≤ next)
    × All (λ n. contains c.used n ≡ false) (numbers news)
    × All (λ n. n < next) (numbers news)
    × Distinct (numbers news)
    × AreNumbered ms news
    × (assign_from show (record c { cursor = next }) news ≡ ok (news, next))

-- A system message is passed over.
Gives-of_system :
    (show : ℕ → Text) (c : Count) (m : Message) (ms news : List Message) (next : ℕ)
    → is_system m.role ≡ true
    → Gives show c ms news next
    → Gives show c (m ∷ ms) (m ∷ news) next
unfolding numbers assign_from
Gives-of_system show c m ms news next s (grows, fresh, below, distinct, are, again) =
    rw s (grows, fresh, below, distinct, (refl, are), (rw again refl))

number_of-some :
    (c : Count) (n : ℕ) → 0 < n → contains c.used n ≡ false → number_of c (some n) ≡ ok n
unfolding number_of
number_of-some c n positive fresh =
    let nonzero : eqb n 0 ≡ false = ground arith in rw (nonzero, fresh) refl

-- The rest of a numbering after a message.
abbrev onto : Message → List Message × ℕ → Result MemoryError (List Message × ℕ)
onto m p = ok (m ∷ p.0, p.1)

Gives-of_number :
    (show : ℕ → Text) (c : Count) (m : Message) (n : ℕ) (ms news : List Message) (next : ℕ)
    → is_system m.role ≡ false
    → Below c
    → number_of c m.message_seq ≡ ok n
    → Gives show (counted show c m n) ms news next
    → Gives show c (m ∷ ms) (numbered (counted show c m n) m n ∷ news) next
unfolding numbers assign_from counted
Gives-of_number show c m n ms news next s b taken (grows, fresh, below, distinct, are, again) =
    let (new, positive, own) = number_of-fresh c m.message_seq n b taken in
    let (unseen, rest) = All-unseen n c.used (numbers news) fresh in
    let (after, longer) = counted-Below show c m n b taken in
    let under : n < next = omega (arith, (cursor_grows c m.message_seq n b taken).1, grows) in
    rw s (
      omega (arith, longer, grows),
      (new, rest),
      (under, below),
      (unseen, distinct),
      ((refl, (n, refl, positive, own)), are),
      (rw
          (
            number_of-some (record c { cursor = next }) n positive new,
            counted_again show c m n next under,
            again,
            numbered_again show c m n next under,
          )
          refl),
    )

assign_from-Gives :
    (show : ℕ → Text) (ms : List Message) (c : Count) (news : List Message) (next : ℕ)
    → Below c
    → assign_from show c ms ≡ ok (news, next)
    → Gives show c ms news next
unfolding assign_from numbers
assign_from-Gives show [] c news next b h =
    subst (λ p. Gives show c [] p.0 p.1) (ok_injective h) (omega arith, tt, tt, tt, tt, refl)
assign_from-Gives show (m ∷ ms) c news next b h = elim (Bool-cases (is_system m.role)) [
  | inl s ↦
      let (p, e, q) = bind_ok (assign_from show c ms) (onto m) (news, next) (rw s at h) in
      subst (λ p. Gives show c (m ∷ ms) p.0 p.1) (ok_injective q)
        (Gives-of_system show c m ms p.0 p.1 s (assign_from-Gives show ms c p.0 p.1 b e))
  | inr s ↦
      let (n, taken, h1) = bind_ok (number_of c m.message_seq) _ (news, next) (rw s at h) in
      let (p, e, q) =
        bind_ok (assign_from show (counted show c m n) ms)
          (onto (numbered (counted show c m n) m n)) (news, next) h1 in
      subst (λ p. Gives show c (m ∷ ms) p.0 p.1) (ok_injective q)
        (Gives-of_number show c m n ms p.0 p.1 s b taken (
          assign_from-Gives show ms (counted show c m n) p.0 p.1
            (counted-Below show c m n b taken).0 e))
]

abbrev start_count : ℕ → Count
start_count next = record { used = []; cursor = next; task = none }

started :
    (show : ℕ → Text) (messages news : List Message) (cursor next : ℕ)
    → assign_message_sequences show messages cursor ≡ ok (news, next)
    → (0 < cursor) × (assign_from show (start_count cursor) messages ≡ ok (news, next))
unfolding assign_message_sequences
started show messages news cursor next h =
    let (given, e) = then_ok _ _ _ h in (positive cursor (raise_if_ok _ _ _ given), e)
  where
    positive : (n : ℕ) → eqb n 0 ≡ false → 0 < n
    positive n e = ground arith

-- A numbering leaves the system's messages as they are and gives each other message a positive number:
-- its own, if it had one. It changes nothing else but the task. Among the messages other than the
-- system's, no two have the same number, and all numbers are below the next one to give. The next number
-- has not gone back.
pub assign_message_sequences-AreNumbered :
    (show : ℕ → Text) (messages news : List Message) (cursor next : ℕ)
    → assign_message_sequences show messages cursor ≡ ok (news, next)
    → AreNumbered messages news
      × Distinct (numbers news)
      × All (λ n. n < next) (numbers news)
      × (cursor ≤ next)
assign_message_sequences-AreNumbered show messages news cursor next h =
    let (positive, e) = started show messages news cursor next h in
    let (grows, fresh, below, distinct, are, again) =
      assign_from-Gives show messages (start_count cursor) news next (positive, tt) e in
    (are, distinct, below, grows)

-- Numbering a numbered history again, from the next number, changes nothing.
pub assign_message_sequences-again :
    (show : ℕ → Text) (messages news : List Message) (cursor next : ℕ)
    → assign_message_sequences show messages cursor ≡ ok (news, next)
    → assign_message_sequences show news next ≡ ok (news, next)
unfolding assign_message_sequences
assign_message_sequences-again show messages news cursor next h =
    let (positive, e) = started show messages news cursor next h in
    let (grows, fresh, below, distinct, are, again) =
      assign_from-Gives show messages (start_count cursor) news next (positive, tt) e in
    let nonzero : eqb next 0 ≡ false = ground (arith, positive, grows) in rw nonzero again
