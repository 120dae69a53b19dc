-- ===== src/Budget.antt =====
-- core/budgets.py: the execution budget that the agent, its tools and its subtasks share.
-- Every public method holds the object's lock from its first read to its last write, so a method is
-- one step, and threads interleave whole calls. Times are ticks of the injected monotonic clock.
pub mod Start
pub mod Atomic
pub mod Schedule
mod Tests
use tricoder_agent.Base.{
  ℕ, ◌+◌, ◌-◌, String, List, [], ◌∷◌, Result, ok, err, pos, Value, int, float, ltb, eqb,
}
use tricoder_agent.Base.Exec.{Exec, read, lift, modify, raise_when, ◌>>=◌, ◌>>◌}

pub data BudgetError : Type 0 where
  -- `ValueError`: a limit or a request is no count
  value_error : (name : String) → BudgetError
  -- `BudgetExceeded(resource, requested, remaining)`
  budget_exceeded : (resource : String) (requested remaining : ℕ) → BudgetError

pub record ExecutionBudget : Type 0 where
  pub max_rounds : ℕ
  pub max_tokens : ℕ
  pub timeout_seconds : ℕ
  pub max_subtasks : ℕ
  pub remaining_rounds : ℕ
  pub remaining_tokens : ℕ
  pub remaining_subtasks : ℕ
  pub started_at : ℕ

-- `_validate_count`, and the count that the value then is.
unfoldable pub validate_count : String → Value → Result BudgetError ℕ
validate_count name (int (pos n)) = ok n
validate_count name value = err (value_error name)

-- The test of `timeout_seconds`, an `int` or a `float` that is no `bool`.
unfoldable pub validate_timeout : Value → Result BudgetError ℕ
validate_timeout (int (pos n)) = ok n
validate_timeout (float (pos n)) = ok n
validate_timeout value = err (value_error "timeout_seconds")

-- `max(0.0, timeout - (now - started))`.
unfoldable pub remaining_seconds : ExecutionBudget → ℕ → ℕ
remaining_seconds b now = b.timeout_seconds + b.started_at - now

unfoldable pub raise_if_exceeded : ℕ → Exec ExecutionBudget BudgetError (Unit {0})
unfolding remaining_seconds
raise_if_exceeded now = do
  seconds ← read (λ b. remaining_seconds b now)
  raise_when (eqb seconds 0) (budget_exceeded "time" 0 0)

-- One round of the loop over the requests.
unfoldable pub check_resource :
    String → ℕ → (ExecutionBudget → ℕ) → Exec ExecutionBudget BudgetError (Unit {0})
check_resource resource requested remaining = do
  left ← read remaining
  raise_when (ltb left requested) (budget_exceeded resource requested left)

-- The keyword arguments of one call of `consume`.
pub record Request : Type 0 where
  pub rounds : Value
  pub tokens : Value
  pub subtasks : Value

unfoldable pub consume : ℕ → Request → Exec ExecutionBudget BudgetError (Unit {0})
unfolding validate_count raise_if_exceeded check_resource
consume now request = do
  rounds ← lift (validate_count "rounds" request.rounds)
  tokens ← lift (validate_count "tokens" request.tokens)
  subtasks ← lift (validate_count "subtasks" request.subtasks)
  raise_if_exceeded now
  check_resource "rounds" rounds (λ b. b.remaining_rounds)
  check_resource "tokens" tokens (λ b. b.remaining_tokens)
  check_resource "subtasks" subtasks (λ b. b.remaining_subtasks)
  modify (λ b. record b { remaining_rounds = b.remaining_rounds - rounds })
  modify (λ b. record b { remaining_tokens = b.remaining_tokens - tokens })
  modify (λ b. record b { remaining_subtasks = b.remaining_subtasks - subtasks })

-- The calls that all threads make, in the order in which they take the lock.
unfoldable pub run : List (ℕ × Request) → ExecutionBudget → ExecutionBudget
run [] b = b
run ((now, request) ∷ calls) b = run calls (consume now request b).1
