-- ===== src/Budget/Start.antt =====
-- The constructor of core/budgets.py.
use tricoder_agent.Base.{ℕ, Result, ok, ◌>>=◌, Value}
use tricoder_agent.Budget.{ExecutionBudget, BudgetError, validate_count, validate_timeout}

-- `__post_init__`; `now` is what the clock says.
unfoldable pub create : Value → Value → Value → Value → ℕ → Result BudgetError ExecutionBudget
unfolding validate_count validate_timeout
create rounds tokens timeout subtasks now = do
  max_rounds ← validate_count "max_rounds" rounds
  max_tokens ← validate_count "max_tokens" tokens
  max_subtasks ← validate_count "max_subtasks" subtasks
  timeout_seconds ← validate_timeout timeout
  ok (record {
    max_rounds = max_rounds;
    max_tokens = max_tokens;
    timeout_seconds = timeout_seconds;
    max_subtasks = max_subtasks;
    remaining_rounds = max_rounds;
    remaining_tokens = max_tokens;
    remaining_subtasks = max_subtasks;
    started_at = now;
  })
