-- ===== src/Base/Sorting.antt =====
-- Python's order on texts and `sorted`, as an insertion sort.
use mathlib.Core.Bool.{Bool, true, false}
use mathlib.Core.List.{List, [], ◌∷◌}
use tricoder_agent.Base.Tests.{if◌then◌else◌, ltb, eqb}
use tricoder_agent.Base.Texts.{Text}

-- `s <= t` on texts: the order of the first code points that differ.
unfoldable pub text_leb : Text → Text → Bool
text_leb [] t = true
text_leb (x ∷ s) [] = false
text_leb (x ∷ s) (y ∷ t) =
    let rest = text_leb s t in if ltb x y then true else if eqb x y then rest else false

module _ {A : Type 0} (key : A → Text) where
  unfoldable pub insert_sorted : A → List A → List A
  insert_sorted x [] = x ∷ []
  insert_sorted x (y ∷ ys) =
      let rest = insert_sorted x ys in if text_leb (key x) (key y) then x ∷ y ∷ ys else y ∷ rest

  -- `sorted(xs, key=key)`.
  unfoldable pub sorted_by : List A → List A
  sorted_by [] = []
  sorted_by (x ∷ xs) = insert_sorted x (sorted_by xs)
