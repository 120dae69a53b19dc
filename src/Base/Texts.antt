-- ===== src/Base/Texts.antt =====
-- Python's `str` as the list of its code points, where the program walks it.
use Prim.Native.Nat.{ℕ}
use Prim.Native.Char.{code}
use Prim.Native.String.{String}
use mathlib.Core.Logic.{◌≢◌, inl, inr}
use mathlib.Core.Bool.{Bool, true, false, ◌&&◌}
use mathlib.Core.List.{List, [], ◌∷◌, ◌++◌}
use native.Mathlib.Omega.{arith}
use tricoder_agent.Base.Tests.{if◌then◌else◌, eqb, eqb_iff, Bool-cases}
use tricoder_agent.Base.Lists.{All}

abbrev pub Text : Type 0
Text = List ℕ

-- The code points of a literal.
abbrev pub codes : String → Text
codes String.[] = []
codes (String.◌∷◌ c s) = code c ∷ codes s

-- `s.startswith(prefix)`.
unfoldable pub starts_with : Text → Text → Bool
starts_with s [] = true
starts_with [] (p ∷ ps) = false
starts_with (c ∷ s) (p ∷ ps) = eqb c p && starts_with s ps

abbrev pub push_head : ℕ → List Text → List Text
push_head c [] = (c ∷ []) ∷ []
push_head c (part ∷ parts) = (c ∷ part) ∷ parts

-- `s.split(c)`.
unfoldable pub split : ℕ → Text → List Text
split c [] = [] ∷ []
split c (x ∷ s) = let rest = split c s in if eqb x c then [] ∷ rest else push_head x rest

-- `c.join(parts)`.
unfoldable pub join : ℕ → List Text → Text
join c [] = []
join c (part ∷ []) = part
join c (part ∷ next ∷ parts) = part ++ c ∷ join c (next ∷ parts)

-- `s.replace(a, b)` for two characters.
unfoldable pub replace : ℕ → ℕ → Text → Text
replace a b [] = []
replace a b (x ∷ s) = (if eqb x a then b else x) ∷ replace a b s

-- No character of the text is `c`.
abbrev pub Lacks : ℕ → Text → Type 0
Lacks c = All (λ x. x ≢ c)

Lacks-push_head :
    (c x : ℕ) (parts : List Text) → x ≢ c → All (Lacks c) parts → All (Lacks c) (push_head x parts)
Lacks-push_head c x [] n a = ((n, tt), tt)
Lacks-push_head c x (p ∷ parts) n a = ((n, a.0), a.1)

-- The parts of a split do not hold the separator.
pub split-Lacks : (c : ℕ) (s : Text) → All (Lacks c) (split c s)
unfolding split
split-Lacks c [] = (tt, tt)
split-Lacks c (x ∷ s) = elim (Bool-cases (eqb x c)) [
  | inl e ↦ rw e (tt, split-Lacks c s)
  | inr e ↦
      rw e
        (Lacks-push_head c x (split c s) (λ p. ground (arith, (eqb_iff x c).1 p)) (split-Lacks c s))
]

-- `s.rstrip(c)`.
unfoldable pub rstrip : ℕ → Text → Text
rstrip c [] = []
rstrip c (x ∷ s) = elim (rstrip c s) [
  | [] ↦ if eqb x c then [] else x ∷ []
  | y ∷ rest ↦ x ∷ y ∷ rest
]
