-- ===== src/Memory/Recording.antt =====
-- `with_task_termination_facts` of context/memory.py: the open items that a memory gets for the notices of
-- the runner.
use tricoder_agent.Base.{
  ℕ, List, [], ◌∷◌, ◌++◌, Bool, true, false, not, ◌&&◌, ◌||◌, Option, none, some, ok, err, ◌≡◌,
  refl, sym, ap, subst, ◌∙◌, inl, inr, is_some, is_nil, Text, ◌==◌, ==_iff, Bool-cases, nat_eq,
  list_eq, option_eq, bind_ok, then_ok, raise_if_ok, ok_injective, err-ne-ok, All, All-map, In,
  All-intro, codes, if◌then◌else◌, Has-append_left, Has-append_right, keep, arith,
}
use mathlib.Core.List.{append-nil, append_assoc}
use tricoder_agent.Base.Dict.{Dict, get, put, All-put, All-get}
use tricoder_agent.Messages.{Message, is_user}
use tricoder_agent.Memory.{validation_error, MemoryItem, ConversationMemory, pending, item_beq}
use tricoder_agent.Memory.Numbering.{source_id_for_sequence}
use tricoder_agent.Memory.Termination.{
  Facts, task_termination_kind, fact_of, is_trusted_task_termination, termination_id,
  termination_item, required, record_fact, record_facts, index, with_task_termination_facts,
}
use tricoder_agent.Memory.Trusted.{fact_of_notice}

same_fields :
    {i j t u c d x y : Text} {s r : List Text} {k l m n : Option Text}
    → (i == j && (t == u) && (s == r) && (c == d) && (k == l) && (x == y) && (m == n)) ≡ true
    → ◌≡◌ {A = MemoryItem}
        (record {
          id = i;
          text = t;
          source_ids = s;
          scope = c;
          task_id = k;
          state = x;
          replaces_id = m;
        })
        (record {
          id = j;
          text = u;
          source_ids = r;
          scope = d;
          task_id = l;
          state = y;
          replaces_id = n;
        })
same_fields {i} {j} {t} {u} {c} {d} {x} {y} {s} {r} {k} {l} {m} {n} h =
    let e1 : i ≡ j = (==_iff i j).0 (ground arith) in
    let e2 : t ≡ u = (==_iff t u).0 (ground arith) in
    let e3 : s ≡ r = (==_iff s r).0 (ground arith) in
    let e4 : c ≡ d = (==_iff c d).0 (ground arith) in
    let e5 : k ≡ l = (==_iff k l).0 (ground arith) in
    let e6 : x ≡ y = (==_iff x y).0 (ground arith) in
    let e7 : m ≡ n = (==_iff m n).0 (ground arith) in rw (e1, e2, e3, e4, e5, e6, e7) refl

item_beq-same : (a b : MemoryItem) → item_beq a b ≡ true → a ≡ b
item_beq-same a b h = same_fields h

required-some : {A : Type 0} (o : Option A) (a : A) → required o ≡ ok a → o ≡ some a
required-some none a h = absurd (err-ne-ok h)
required-some (some b) a h = ap some (ok_injective h)

-- The item of a notice that the runner wrote: what the notice says, of the notice's number and task.
abbrev pub Records : (ℕ → Text) → Message → MemoryItem → Type 0
Records show m item =
    (is_trusted_task_termination m ≡ true)
    × (fact_of m.content ≡ some item.text)
    × (item.state ≡ pending)
    × ((task : Text) × (m.task_id ≡ some task) × (item.task_id ≡ some task))
    × ((n : ℕ) × (m.message_seq ≡ some n)
        × (item.id ≡ termination_id show n)
        × (item.source_ids ≡ (codes "m" ++ show n) ∷ []))

trusted :
    (m : Message) (text : Text)
    → m.kind ≡ task_termination_kind
    → is_user m.role ≡ true
    → fact_of m.content ≡ some text
    → (not (is_nil m.tool_calls) || is_some m.tool_call_id) ≡ false
    → is_trusted_task_termination m ≡ true
unfolding is_trusted_task_termination
trusted m text kind user fact plain =
    let k : (m.kind == task_termination_kind) ≡ true =
      (==_iff m.kind task_termination_kind).1 kind in
    rw (k, user, ← fact_of_notice m.content, fact) (ground arith)

termination_item-Records :
    (show : ℕ → Text) (m : Message) (item : MemoryItem)
    → (m.kind == task_termination_kind) ≡ true
    → termination_item show m ≡ ok item
    → Records show m item
unfolding termination_item source_id_for_sequence
termination_item-Records show m item kind h =
    let (user, h1) = then_ok _ _ item h in
    let (text, e1, h2) = bind_ok (required (fact_of m.content)) _ item h1 in
    let (n, e2, h3) = bind_ok (required m.message_seq) _ item h2 in
    let (task, e3, h4) = bind_ok (required m.task_id) _ item h3 in
    let (plain, h5) = then_ok _ _ item h4 in
    let (source, e5, h6) = bind_ok (source_id_for_sequence show n) _ item h5 in
    let named : codes "m" ++ show n ≡ source = ok_injective (then_ok _ _ source e5).1 in
    let fact = required-some (fact_of m.content) text e1 in
    subst (Records show m) (ok_injective h6) (
      trusted m text ((==_iff m.kind task_termination_kind).0 kind)
          (negated (is_user m.role) (raise_if_ok _ _ _ user)) fact (raise_if_ok _ _ _ plain),
      fact,
      refl,
      (task, required-some m.task_id task e3, refl),
      (n, required-some m.message_seq n e2, refl, ap (λ t. t ∷ []) (sym named)),
    )
  where
    negated : (b : Bool) → not b ≡ false → b ≡ true
    negated b e = ground arith

-- What the index by ids holds is among the open items.
abbrev IsIndex : Facts → Type 0
IsIndex f = All (λ e. In e.1 f.open_items) f.by_id

index-In :
    (all items : List MemoryItem) (d : Dict Text MemoryItem)
    → All (λ e. In e.1 all) d
    → All (λ i. In i all) items
    → All (λ e. In e.1 all) (index items d)
unfolding index
index-In all [] d a b = a
index-In all (item ∷ items) d a b =
    index-In all items (put d item.id item) (All-put (λ e. In e.1 all) d item.id item a b.0) b.1

-- The open items with more after those there were.
abbrev pub More : List MemoryItem → List MemoryItem → Type 0
More old new = (more : List MemoryItem) × (new ≡ old ++ more)

More-In : (item : MemoryItem) (old new : List MemoryItem) → More old new → In item old → In item new
More-In item old new (more, e) m =
    subst (In item) (sym e) (Has-append_left (λ i. i ≡ item) old more m)

record_fact-lem :
    (f next : Facts) (item : MemoryItem)
    → IsIndex f
    → record_fact f item ≡ ok next
    → IsIndex next × More f.open_items next.open_items × In item next.open_items
unfolding record_fact
record_fact-lem f next item w h = of_found (get f.by_id item.id) refl h
  where
    of_found :
        (o : Option MemoryItem)
        → get f.by_id item.id ≡ o
        → elim o [
          | none ↦
              ok (record {
                open_items = f.open_items ++ item ∷ [];
                by_id = put f.by_id item.id item;
              })
          | some existing ↦
              if item_beq existing item
              then ok f
              else err (validation_error (codes "任务终止记忆与摘要候选冲突"))
        ]
          ≡ ok next
        → IsIndex next × More f.open_items next.open_items × In item next.open_items
    of_found none e k =
        let longer = f.open_items ++ item ∷ [] in
        let last : In item longer =
          Has-append_right (λ i. i ≡ item) f.open_items (item ∷ []) (inl refl) in
        subst (λ (g : Facts). IsIndex g × More f.open_items g.open_items × In item g.open_items)
          (ok_injective k)
          (
            All-put (λ e. In e.1 longer) f.by_id item.id item
                (All-map (λ e m. Has-append_left (λ i. i ≡ e.1) f.open_items (item ∷ []) m) f.by_id
                  w)
                last,
            (item ∷ [], refl),
            last,
          )
    of_found (some existing) e k = elim (Bool-cases (item_beq existing item)) [
      | inl q ↦
          let there = All-get (λ e. In e.1 f.open_items) f.by_id item.id existing w e in
          subst (λ (g : Facts). IsIndex g × More f.open_items g.open_items × In item g.open_items)
            (ok_injective (rw q at k))
            (
              w,
              ([], sym (append-nil f.open_items)),
              subst (λ i. In i f.open_items) (item_beq-same existing item q) there.1,
            )
      | inr q ↦ absurd (err-ne-ok (rw q at k))
    ]

abbrev pub is_termination : Message → Bool
is_termination m = m.kind == task_termination_kind

-- The notice has an item among these.
abbrev pub Recorded : (ℕ → Text) → List MemoryItem → Message → Type 0
Recorded show items m = (item : MemoryItem) × In item items × Records show m item

record_facts-Recorded :
    (show : ℕ → Text) (f new : Facts) (messages : List Message)
    → IsIndex f
    → record_facts show f messages ≡ ok new
    → More f.open_items new.open_items
      × All (Recorded show new.open_items) (keep is_termination messages)
unfolding record_facts keep
record_facts-Recorded show f new [] w h =
    subst (λ (g : Facts). More f.open_items g.open_items × Unit) (ok_injective h)
      (([], sym (append-nil f.open_items)), tt)
record_facts-Recorded show f new (m ∷ ms) w h = elim (Bool-cases (is_termination m)) [
  | inr e ↦ rw e (record_facts-Recorded show f new ms w (rw e at h))
  | inl e ↦
      let (item, made, h1) = bind_ok (termination_item show m) _ new (rw e at h) in
      let (next, put, h2) = bind_ok (record_fact f item) _ new h1 in
      let (w', (one, p), there) = record_fact-lem f next item w put in
      let ((more, q), rest) = record_facts-Recorded show next new ms w' h2 in
      rw e (
        (one ++ more, q ∙ (ap (λ xs. xs ++ more) p ∙ append_assoc f.open_items one more)),
        (
          (
            item,
            More-In item next.open_items new.open_items (more, q) there,
            termination_item-Records show m item e made,
          ),
          rest,
        ),
      )
]

-- If a candidate is given the facts of a history of messages, then it is the same but for the open items,
-- and those are the candidate's with others after them. Every message there of the kind that ends a task
-- passes the test of a trusted notice and has a number and a task, and there is an open item for it,
-- pending, with the fact that the notice stands for, of its number and task and with it as the source.
pub with_task_termination_facts-Recorded :
    (show : ℕ → Text) (candidate new : ConversationMemory) (messages : List Message)
    → with_task_termination_facts show candidate messages ≡ ok new
    → (new ≡ record candidate { open_items = new.open_items })
      × More candidate.open_items new.open_items
      × All (Recorded show new.open_items) (keep is_termination messages)
unfolding with_task_termination_facts
with_task_termination_facts-Recorded show candidate new messages h =
    let start : Facts = record {
      open_items = candidate.open_items;
      by_id = index candidate.open_items [];
    } in
    let (facts, e, made) = bind_ok (record_facts show start messages) _ new h in
    let indexed : IsIndex start =
      index-In candidate.open_items candidate.open_items [] tt
        (All-intro candidate.open_items (λ i m. m)) in
    let (more, recorded) = record_facts-Recorded show start facts messages indexed e in
    subst
      (λ (g : ConversationMemory).
        (g ≡ record candidate { open_items = g.open_items })
        × More candidate.open_items g.open_items
        × All (Recorded show g.open_items) (keep is_termination messages))
      (ok_injective made) (refl, more, recorded)
