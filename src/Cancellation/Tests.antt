-- ===== src/Cancellation/Tests.antt =====
-- Runs of core/cancellation.py on a task's token with two subtasks.
use tricoder_agent.Base.{List, [], ◌∷◌, ◌≡◌, refl, false, ◌||◌, none, some, err}
use tricoder_agent.Cancellation.{
  CancellationToken, cancelled, is_cancelled, cancel, create_token, create_child,
  raise_if_cancelled,
}
use tricoder_agent.Cancellation.Reach.{descends, cancel-reaches}

-- Token 0 is the task's; 1 and 2 are its children.
abbrev tree : List CancellationToken
tree =
    record { parent = some 0; event = false }
    ∷ record { parent = some 0; event = false }
    ∷ record { parent = none; event = false }
    ∷ []

made : (create_child (create_child (create_token [] none).1 0).1 0).1 ≡ tree
unfolding create_child
made = refl

child_hears_parent : raise_if_cancelled (cancel tree 0).1 2 ≡ err cancelled
unfolding raise_if_cancelled cancel
child_hears_parent = refl

sibling_goes_on : is_cancelled (cancel tree 1).1 2 ≡ false
unfolding is_cancelled cancel
sibling_goes_on = refl

cancel-reaches_example :
    is_cancelled (cancel tree 0).1 2 ≡ (is_cancelled tree 2 || descends tree 0 2)
cancel-reaches_example = cancel-reaches tree 0 2
