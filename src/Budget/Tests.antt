-- ===== src/Budget/Tests.antt =====
-- Runs of core/budgets.py at concrete values.
use tricoder_agent.Base.{ℕ, ◌+◌, ◌≡◌, ◌↔◌, refl, List, [], ◌∷◌, ok, err, int, pos, other}
use tricoder_agent.Budget.{ExecutionBudget, Request, budget_exceeded, value_error, consume, run}
use tricoder_agent.Budget.Start.{create}
use tricoder_agent.Budget.Atomic.{counts, Fits, consume-ok_iff, consume-err}
use tricoder_agent.Budget.Schedule.{granted, create-run-Balanced}

abbrev budget : ExecutionBudget
budget = record {
  max_rounds = 4;
  max_tokens = 100;
  timeout_seconds = 60;
  max_subtasks = 2;
  remaining_rounds = 4;
  remaining_tokens = 100;
  remaining_subtasks = 2;
  started_at = 10;
}

abbrev calls : List (ℕ × Request)
calls = (12, counts 1 40 0) ∷ (13, counts 1 80 0) ∷ (14, counts 1 60 1) ∷ []

granted_once : (consume 20 (counts 1 40 0) budget).0 ≡ ok tt
unfolding consume
granted_once = refl

too_many_tokens : (consume 20 (counts 1 500 0) budget).0 ≡ err (budget_exceeded "tokens" 500 100)
unfolding consume
too_many_tokens = refl

refused_value :
    (consume 20 (record { rounds = other; tokens = int (pos 1); subtasks = int (pos 0) }) budget).0
    ≡ err (value_error "rounds")
unfolding consume
refused_value = refl

created : create (int (pos 4)) (int (pos 100)) (int (pos 60)) (int (pos 2)) 10 ≡ ok budget
unfolding create
created = refl

-- The second call asks for more than is left, and the third one still gets the rest.
tokens_granted : (granted calls budget).tokens ≡ 100
unfolding granted consume
tokens_granted = refl

consume-ok_iff_example : ((consume 20 (counts 1 40 0) budget).0 ≡ ok tt) ↔ Fits budget 20 1 40 0
consume-ok_iff_example = consume-ok_iff budget 20 1 40 0

consume-err_example : (consume 20 (counts 1 500 0) budget).1 ≡ budget
consume-err_example =
    consume-err budget 20 (counts 1 500 0) (budget_exceeded "tokens" 500 100) too_many_tokens

create-run-Balanced_example :
    ((run calls budget).remaining_rounds + (granted calls budget).rounds ≡ 4)
    × ((run calls budget).remaining_tokens + (granted calls budget).tokens ≡ 100)
    × ((run calls budget).remaining_subtasks + (granted calls budget).subtasks ≡ 2)
create-run-Balanced_example =
    create-run-Balanced (int (pos 4)) (int (pos 100)) (int (pos 60)) (int (pos 2)) 10 budget calls
      created
