-- ===== src/Budget/Schedule.antt =====
-- What a budget of core/budgets.py grants over its life, however the threads' calls interleave.
use tricoder_agent.Base.{
  ℕ, ◌+◌, ◌≤◌, ◌≡◌, List, [], ◌∷◌, Result, ok, err, Value, int, pos, arith, inl, inr, Result-cases,
  ap,
}
use tricoder_agent.Budget.{ExecutionBudget, Request, BudgetError, consume, run, remaining_seconds}
use tricoder_agent.Budget.Start.{create}
use tricoder_agent.Budget.Atomic.{count_of, consume-err, consume-Granted}

abbrev pub Total : Type 0
Total = record { rounds : ℕ; tokens : ℕ; subtasks : ℕ }

abbrev paid : Result BudgetError (Unit {0}) → Request → Total → Total
paid (ok _) r t = record {
  rounds = count_of r.rounds + t.rounds;
  tokens = count_of r.tokens + t.tokens;
  subtasks = count_of r.subtasks + t.subtasks;
}
paid (err e) r t = t

-- The sum of the requests that were granted.
unfoldable pub granted : List (ℕ × Request) → ExecutionBudget → Total
granted [] b = record { rounds = 0; tokens = 0; subtasks = 0 }
granted ((now, r) ∷ calls) b = paid (consume now r b).0 r (granted calls (consume now r b).1)

abbrev pub Balanced : ExecutionBudget → ExecutionBudget → Total → Type 0
Balanced before after t =
    (after.remaining_rounds + t.rounds ≡ before.remaining_rounds)
    × (after.remaining_tokens + t.tokens ≡ before.remaining_tokens)
    × (after.remaining_subtasks + t.subtasks ≡ before.remaining_subtasks)

-- What is left and what was granted add up to what there was, for each resource.
run-Balanced :
    (calls : List (ℕ × Request)) (b : ExecutionBudget) → Balanced b (run calls b) (granted calls b)
unfolding run granted
run-Balanced [] b = (omega arith, omega arith, omega arith)
run-Balanced ((now, r) ∷ calls) b = elim (Result-cases (consume now r b).0) [
  | inl (tt, e) ↦
      rw e (omega (arith, run-Balanced calls (consume now r b).1, consume-Granted b now r e))
  | inr (x, e) ↦ rw e (
      omega (
        arith,
        run-Balanced calls (consume now r b).1,
        ap (λ (c : ExecutionBudget). c.remaining_rounds) (consume-err b now r x e),
        ap (λ (c : ExecutionBudget). c.remaining_tokens) (consume-err b now r x e),
        ap (λ (c : ExecutionBudget). c.remaining_subtasks) (consume-err b now r x e),
      ))
]

create-limits :
    (rounds tokens timeout subtasks : Value) (now : ℕ) (b : ExecutionBudget)
    → create rounds tokens timeout subtasks now ≡ ok b
    → (b.remaining_rounds ≡ b.max_rounds)
      × (b.remaining_tokens ≡ b.max_tokens)
      × (b.remaining_subtasks ≡ b.max_subtasks)
      × (rounds ≡ int (pos b.max_rounds))
      × (tokens ≡ int (pos b.max_tokens))
      × (subtasks ≡ int (pos b.max_subtasks))
unfolding create
create-limits rounds tokens timeout subtasks now b h = ground arith

-- A budget that the constructor made grants, over any sequence of calls at any times, exactly what
-- its counters lack of the limits that it was given: never more than a limit.
pub create-run-Balanced :
    (rounds tokens timeout subtasks : Value) (now : ℕ) (b : ExecutionBudget)
    (calls : List (ℕ × Request))
    → create rounds tokens timeout subtasks now ≡ ok b
    → ((run calls b).remaining_rounds + (granted calls b).rounds ≡ count_of rounds)
      × ((run calls b).remaining_tokens + (granted calls b).tokens ≡ count_of tokens)
      × ((run calls b).remaining_subtasks + (granted calls b).subtasks ≡ count_of subtasks)
create-run-Balanced rounds tokens timeout subtasks now b calls h =
    ground (arith, create-limits rounds tokens timeout subtasks now b h, run-Balanced calls b)

-- Once the time is up no later call is answered, whatever it asks, and nothing changes any more.
pub consume_after_deadline :
    (b : ExecutionBudget) (now : ℕ) (r : Request)
    → b.started_at + b.timeout_seconds ≤ now
    → ((e : BudgetError) × ((consume now r b).0 ≡ err e)) × ((consume now r b).1 ≡ b)
consume_after_deadline b now r late = elim (Result-cases (consume now r b).0) [
  | inl (tt, e) ↦ absurd (unfold remaining_seconds in omega (arith, consume-Granted b now r e))
  | inr (x, e) ↦ ((x, e), consume-err b now r x e)
]
