-- ===== src/Memory/Trusted.antt =====
-- Two readers of the runner's notices in context/memory.py, and how they agree.
use tricoder_agent.Base.{
  ℕ, Bool, true, false, not, ◌&&◌, ◌||◌, Option, none, some, Result, ok, err, ◌≡◌, refl, sym, inl,
  inr, is_some, is_nil, Text, ◌==◌, ==_iff, Bool-cases, Option-cases, nat_eq, list_eq, raise_if,
  ◌>>=◌, ◌>>◌, eqb, [], ◌∷◌, codes,
}
use tricoder_agent.Base.Dict.{get, has_key, has_key-get, get-has_key}
use tricoder_agent.Memory.{MemoryItem, pending}
use tricoder_agent.Memory.Numbering.{source_id_for_sequence}
use tricoder_agent.Messages.{Message, is_user}
use tricoder_agent.Memory.Termination.{
  task_termination_facts, task_termination_kind, fact_of, is_notice, is_trusted_task_termination,
  termination_item, termination_id, marker_message, required,
}

abbrev pub is_ok : {E A : Type 0} → Result E A → Bool
is_ok (ok a) = true
is_ok (err e) = false

abbrev pub is_positive : Option ℕ → Bool
is_positive none = false
is_positive (some n) = not (eqb n 0)

pub fact_of_notice : (o : Option Text) → is_some (fact_of o) ≡ is_notice o
fact_of_notice none = unfold task_termination_facts get in refl
fact_of_notice (some c) = elim (Bool-cases (has_key task_termination_facts c)) [
  | inl e ↦ elim (Option-cases (get task_termination_facts c)) [
    | inl n ↦ absurd (clash (has_key task_termination_facts c) e (get-has_key _ c n))
    | inr (t, p) ↦ rw (e, p) refl
  ]
  | inr e ↦ rw (e, has_key-get task_termination_facts c e) refl
]
  where
    clash : (b : Bool) → b ≡ true → b ≡ false → ⊥
    clash b t f = cc

both_fail : (b : Bool) → (b && false) ≡ false
both_fail true = refl
both_fail false = refl

-- The tests on a notice, in their order, and the same tests as one.
readings :
    (show : ℕ → Text) (f : Text → ℕ → Text → Text → MemoryItem) (u c i : Bool) (t : Option Text)
    (s : Option ℕ) (k : Option Text)
    → is_ok (
        raise_if (not u) marker_message
        >> (required t >>= λ text. required s >>= λ n. required k >>= λ task.
            raise_if (not c || i) marker_message
            >> (source_id_for_sequence show n >>= λ source. ok (f text n task source))))
      ≡ (u && true && is_some t && c && not i && is_positive s && is_some k)
unfolding source_id_for_sequence
readings show f false c i t s k = refl
readings show f true c i none s k = refl
readings show f true true true (some t) none k = refl
readings show f true true false (some t) none k = refl
readings show f true false i (some t) none k = refl
readings show f true c i (some t) (some n) none = sym (both_fail _)
readings show f true false i (some t) (some n) (some k) = refl
readings show f true true true (some t) (some n) (some k) = refl
readings show f true true false (some t) (some n) (some k) = elim (Bool-cases (eqb n 0)) [
  | inl e ↦ rw e refl
  | inr e ↦ rw e refl
]

-- A notice that ends a task becomes an open item if, and only if, it is one that the runner wrote, and it
-- has a number and a task.
pub is_ok-termination_item :
    (show : ℕ → Text) (m : Message)
    → m.kind ≡ task_termination_kind
    → is_ok (termination_item show m)
      ≡ (is_trusted_task_termination m && is_positive m.message_seq && is_some m.task_id)
unfolding termination_item is_trusted_task_termination
is_ok-termination_item show m kind =
    let k : (m.kind == task_termination_kind) ≡ true =
      (==_iff m.kind task_termination_kind).1 kind in
    rw (k, ← fact_of_notice m.content)
      (readings show
        (λ text n task source. record {
          id = termination_id show n;
          text = text;
          source_ids = source ∷ [];
          scope = codes "task";
          task_id = some task;
          state = pending;
          replaces_id = none;
        })
        (is_user m.role) (is_nil m.tool_calls) (is_some m.tool_call_id) (fact_of m.content)
        m.message_seq m.task_id)
