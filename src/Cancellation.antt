-- ===== src/Cancellation.antt =====
-- core/cancellation.py: the tree of cancellation tokens. The tokens that were made are a list, newest
-- first, and a token is its number in the order of creation; a parent is older than its children.
-- Waiting on a token, which sleeps, is not modelled.
pub mod Reach
mod Tests
use tricoder_agent.Base.{
  ℕ, List, [], ◌∷◌, Bool, true, false, not, ◌||◌, Option, none, some, Result, ok, err, raise_if,
  if◌then◌else◌, length, eqb,
}

pub record CancellationToken : Type 0 where
  pub parent : Option ℕ
  pub event : Bool

-- Whether the token's own event is set.
unfoldable pub is_set : List CancellationToken → ℕ → Bool
is_set [] token = false
is_set (t ∷ older) token =
    let rest = is_set older token in if eqb token (length older) then t.event else rest

-- The token is cancelled or an ancestor is.
unfoldable pub is_cancelled : List CancellationToken → ℕ → Bool
is_cancelled [] token = false
is_cancelled (t ∷ older) token =
    let above : Bool = elim t.parent [ none ↦ false | some parent ↦ is_cancelled older parent ] in
    let rest = is_cancelled older token in
    if eqb token (length older) then t.event || above else rest

unfoldable pub set_event : List CancellationToken → ℕ → List CancellationToken
set_event [] token = []
set_event (t ∷ older) token =
    let rest = set_event older token in
    if eqb token (length older) then record t { event = true } ∷ older else t ∷ rest

-- `cancel`: whether this call was the one that set the event, and the tokens after it.
unfoldable pub cancel : List CancellationToken → ℕ → Bool × List CancellationToken
unfolding is_set set_event
cancel tokens token =
    if is_set tokens token then (false, tokens) else (true, set_event tokens token)

-- The constructor, and `create_child`: the new token and the tokens with it.
unfoldable pub create_token : List CancellationToken → Option ℕ → ℕ × List CancellationToken
create_token tokens parent = (length tokens, record { parent = parent; event = false } ∷ tokens)

unfoldable pub create_child : List CancellationToken → ℕ → ℕ × List CancellationToken
unfolding create_token
create_child tokens token = create_token tokens (some token)

pub data CancellationError : Type 0 where
  cancelled : CancellationError

unfoldable pub raise_if_cancelled : List CancellationToken → ℕ → Result CancellationError (Unit {0})
unfolding is_cancelled
raise_if_cancelled tokens token = raise_if (is_cancelled tokens token) cancelled
