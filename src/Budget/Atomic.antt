-- ===== src/Budget/Atomic.antt =====
-- `consume` of core/budgets.py is all or nothing.
use tricoder_agent.Base.{ℕ, ◌+◌, ◌≤◌, ◌<◌, ◌≡◌, ◌↔◌, sym, subst, ok, err, int, pos, Value, arith}
use tricoder_agent.Budget.{ExecutionBudget, Request, BudgetError, consume, remaining_seconds}

abbrev pub counts : ℕ → ℕ → ℕ → Request
counts rounds tokens subtasks = record {
  rounds = int (pos rounds);
  tokens = int (pos tokens);
  subtasks = int (pos subtasks);
}

-- The request fits in what is left, and the time is not up.
abbrev pub Fits : ExecutionBudget → ℕ → ℕ → ℕ → ℕ → Type 0
Fits b now rounds tokens subtasks =
    (0 < remaining_seconds b now)
    × (rounds ≤ b.remaining_rounds)
    × (tokens ≤ b.remaining_tokens)
    × (subtasks ≤ b.remaining_subtasks)

-- `after` is `before` with the request taken off each counter, and equal to it in every other field.
pub record Deducted (before after : ExecutionBudget) (rounds tokens subtasks : ℕ) : Type 0 where
  pub rounds_left : after.remaining_rounds + rounds ≡ before.remaining_rounds
  pub tokens_left : after.remaining_tokens + tokens ≡ before.remaining_tokens
  pub subtasks_left : after.remaining_subtasks + subtasks ≡ before.remaining_subtasks
  pub same_max_rounds : after.max_rounds ≡ before.max_rounds
  pub same_max_tokens : after.max_tokens ≡ before.max_tokens
  pub same_max_subtasks : after.max_subtasks ≡ before.max_subtasks
  pub same_timeout : after.timeout_seconds ≡ before.timeout_seconds
  pub same_start : after.started_at ≡ before.started_at

-- The count that an accepted argument is.
abbrev pub count_of : Value → ℕ
count_of (int (pos n)) = n
count_of _ = 0

abbrev pub Granted : ExecutionBudget → ℕ → Request → ExecutionBudget → Type 0
Granted b now r after =
    let rounds : ℕ = count_of r.rounds in
    let tokens : ℕ = count_of r.tokens in
    let subtasks : ℕ = count_of r.subtasks in
    (r ≡ counts rounds tokens subtasks)
    × Fits b now rounds tokens subtasks
    × Deducted b after rounds tokens subtasks

-- A call with three counts returns exactly when they fit.
pub consume-ok_iff :
    (b : ExecutionBudget) (now rounds tokens subtasks : ℕ)
    → ((consume now (counts rounds tokens subtasks) b).0 ≡ ok tt)
      ↔ Fits b now rounds tokens subtasks
unfolding consume
consume-ok_iff b now rounds tokens subtasks = (λ h. ground arith, λ h. ground arith)

-- A call that raises, for whatever arguments, leaves the budget as it was.
pub consume-err :
    (b : ExecutionBudget) (now : ℕ) (r : Request) (e : BudgetError)
    → (consume now r b).0 ≡ err e
    → (consume now r b).1 ≡ b
unfolding consume
consume-err b now r e h = ground arith

consume-Deducted :
    (b : ExecutionBudget) (now rounds tokens subtasks : ℕ)
    → Fits b now rounds tokens subtasks
    → Deducted b (consume now (counts rounds tokens subtasks) b).1 rounds tokens subtasks
unfolding consume
consume-Deducted b now rounds tokens subtasks h = ground arith

counts_of_ok :
    (b : ExecutionBudget) (now : ℕ) (r : Request)
    → (consume now r b).0 ≡ ok tt
    → r ≡ counts (count_of r.rounds) (count_of r.tokens) (count_of r.subtasks)
unfolding consume
counts_of_ok b now r h = ground arith

-- A call that returns asked for three counts that fit, and took exactly those off.
pub consume-Granted :
    (b : ExecutionBudget) (now : ℕ) (r : Request)
    → (consume now r b).0 ≡ ok tt
    → Granted b now r (consume now r b).1
consume-Granted b now r h =
    let e = counts_of_ok b now r h in
    let fits = (consume-ok_iff b now _ _ _).0 (subst (λ q. (consume now q b).0 ≡ ok tt) e h) in
    (
      e,
      fits,
      subst
          (λ q.
            Deducted b (consume now q b).1 (count_of r.rounds) (count_of r.tokens)
              (count_of r.subtasks))
          (sym e) (consume-Deducted b now _ _ _ fits),
    )
