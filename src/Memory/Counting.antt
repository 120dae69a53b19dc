-- ===== src/Memory/Counting.antt =====
-- context/memory.py: the number of one message, and the count that goes on from it.
use tricoder_agent.Base.{
  if◌then◌else◌, ℕ, suc, ◌≤◌, ◌<◌, List, [], ◌∷◌, ◌++◌, Bool, true, false, ◌||◌, Option, none, some,
  ok, ◌≡◌, refl, sym, ◌∙◌, ap, subst, inl, inr, All, All-map, contains, contains_iff, Text, codes,
  ◌==◌, nat_eq, list_eq, eqb, arith, Bool-cases, then_ok, ok_injective, raise_if_ok, All-In,
}
use tricoder_agent.Messages.{Message}
use tricoder_agent.Memory.Numbering.{
  unused_from, Count, number_of, text_or, max_of, counted, numbered,
}

-- The cursor is positive, and every number in use is below it.
abbrev pub Below : Count → Type 0
Below c = (0 < c.cursor) × All (λ n. n < c.cursor) c.used

-- The cursor after a message.
abbrev cursor_after : Count → Option ℕ → ℕ → ℕ
cursor_after c o n = max_of (elim o [ none ↦ suc n | some own ↦ c.cursor ]) (suc n)

unused : (used : List ℕ) (cursor : ℕ) → All (λ n. n < cursor) used → contains used cursor ≡ false
unused used cursor a = elim (Bool-cases (contains used cursor)) [
  | inl h ↦ absurd (omega (arith, All-In (λ n. n < cursor) used a ((contains_iff used cursor).0 h)))
  | inr h ↦ h
]

-- The loop that looks for an unused number stops at once.
number_of-none : (c : Count) → Below c → number_of c none ≡ ok c.cursor
unfolding number_of unused_from
number_of-none c b = rw (unused c.used c.cursor b.1) refl

-- A number that is taken is not in use, and its own if the message has one.
abbrev pub OwnKept : Option ℕ → ℕ → Type 0
OwnKept none n = Unit
OwnKept (some own) n = n ≡ own

own_number :
    (c : Count) (own n : ℕ)
    → number_of c (some own) ≡ ok n
    → ((eqb own 0 || contains c.used own) ≡ false) × (own ≡ n)
unfolding number_of
own_number c own n h = (raise_if_ok _ _ _ (then_ok _ _ _ h).0, ok_injective (then_ok _ _ _ h).1)

pub number_of-fresh :
    (c : Count) (o : Option ℕ) (n : ℕ)
    → Below c
    → number_of c o ≡ ok n
    → (contains c.used n ≡ false) × (0 < n) × OwnKept o n
number_of-fresh c none n b h =
    let e : c.cursor ≡ n = ok_injective (sym (number_of-none c b) ∙ h) in
    (
      subst (λ k. contains c.used k ≡ false) e (unused c.used c.cursor b.1),
      omega (arith, b.0, e),
      tt,
    )
number_of-fresh c (some own) n b h =
    let (new, same) = own_number c own n h in
    (subst (λ k. contains c.used k ≡ false) same (ground arith), ground arith, sym same)

pub cursor_grows :
    (c : Count) (o : Option ℕ) (n : ℕ)
    → Below c
    → number_of c o ≡ ok n
    → (c.cursor ≤ cursor_after c o n) × (n < cursor_after c o n)
cursor_grows c none n b h =
    let e : c.cursor ≡ n = ok_injective (sym (number_of-none c b) ∙ h) in
    (ground (arith, e), ground arith)
cursor_grows c (some own) n b h = (ground arith, ground arith)

pub counted-Below :
    (show : ℕ → Text) (c : Count) (m : Message) (n : ℕ)
    → Below c
    → number_of c m.message_seq ≡ ok n
    → Below (counted show c m n) × (c.cursor ≤ (counted show c m n).cursor)
unfolding counted
counted-Below show c m n b h =
    let (grows, above) = cursor_grows c m.message_seq n b h in
    (
      (omega (arith, grows, b.0), (above, All-map (λ k l. omega (arith, l, grows)) c.used b.1)),
      grows,
    )

-- The texts that are read twice.
text_or_again : (a b : Option Text) → text_or (text_or a b) b ≡ text_or a b
text_or_again none none = refl
text_or_again none (some []) = refl
text_or_again none (some (c ∷ t)) = refl
text_or_again (some []) none = refl
text_or_again (some []) (some []) = refl
text_or_again (some []) (some (c ∷ t)) = refl
text_or_again (some (c ∷ t)) b = refl

text_or_inner : (a b : Option Text) → text_or a (text_or a b) ≡ text_or a b
text_or_inner none b = refl
text_or_inner (some []) b = refl
text_or_inner (some (c ∷ t)) b = refl

abbrev task_after : Bool → Option Text → Option Text → Option Text → Option Text
task_after b a g t = if b then text_or a g else t

task_again :
    (b : Bool) (a g t : Option Text)
    → task_after b (text_or a (task_after b a g t)) g t ≡ task_after b a g t
task_again true a g t = rw (text_or_inner a g) (text_or_again a g)
task_again false a g t = refl

same_count :
    (used : List ℕ) (a b : ℕ) (s t : Option Text)
    → a ≡ b
    → s ≡ t
    → ◌≡◌ {A = Count}
        (record { used = used; cursor = a; task = s })
        (record { used = used; cursor = b; task = t })
same_count used a b s t p q = rw (p, q) refl

-- A message that has been numbered is counted as before, but for the cursor.
pub counted_again :
    (show : ℕ → Text) (c : Count) (m : Message) (n next : ℕ)
    → n < next
    → counted show (record c { cursor = next }) (numbered (counted show c m n) m n) n
      ≡ record (counted show c m n) { cursor = next }
unfolding counted
counted_again show c m n next l =
    same_count (n ∷ c.used) (max_of next (suc n)) next _ _ (ground arith)
      (task_again (m.kind == codes "task") m.task_id (some (codes "task-" ++ show n)) c.task)

-- It is numbered as before.
pub numbered_again :
    (show : ℕ → Text) (c : Count) (m : Message) (n next : ℕ)
    → n < next
    → numbered
        (counted show (record c { cursor = next }) (numbered (counted show c m n) m n) n)
        (numbered (counted show c m n) m n)
        n
      ≡ numbered (counted show c m n) m n
numbered_again show c m n next l =
    ap (λ k. numbered k (numbered (counted show c m n) m n) n) (counted_again show c m n next l)
    ∙ ap (λ t. record m { message_seq = some n; task_id = t })
        (text_or_again m.task_id (counted show c m n).task)
