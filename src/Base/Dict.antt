-- ===== src/Base/Dict.antt =====
-- A Python dictionary in insertion order: an association list whose keys are distinct.
use mathlib.Core.Path.{◌≡◌, refl, subst}
use mathlib.Core.Logic.{inl, inr}
use mathlib.Core.Bool.{Bool, true, false}
use mathlib.Core.Option.{Option, none, some}
use mathlib.Core.List.{List, [], ◌∷◌}
use native.Mathlib.Omega.{arith}
use tricoder_agent.Base.Tests.{if◌then◌else◌, Bool-cases, some_injective, none-ne-some}
use tricoder_agent.Base.Equality.{Eq, ◌==◌}
use tricoder_agent.Base.Lists.{All}

abbrev pub Dict : Type 0 → Type 0 → Type 0
Dict K V = List (K × V)

module _ {K V : Type 0} ⦃e : Eq K⦄ where
  unfoldable pub get : Dict K V → K → Option V
  get [] k = none
  get ((j, v) ∷ d) k = if j == k then some v else get d k

  -- `d[k] = v`: a key that is there keeps its place.
  unfoldable pub put : Dict K V → K → V → Dict K V
  put [] k v = (k, v) ∷ []
  put ((j, w) ∷ d) k v = if j == k then (k, v) ∷ d else (j, w) ∷ put d k v

  -- `d.pop(k, None)`.
  unfoldable pub pop : Dict K V → K → Dict K V
  pop [] k = []
  pop ((j, w) ∷ d) k = let rest = pop d k in if j == k then rest else (j, w) ∷ rest

  unfoldable pub has_key : Dict K V → K → Bool
  has_key [] k = false
  has_key ((j, w) ∷ d) k = if j == k then true else has_key d k

  pub get-put :
      (d : Dict K V) (k : K) (v : V) (j : K)
      → get (put d k v) j ≡ (if k == j then some v else get d j)
  unfolding get put
  get-put [] k v j = refl
  get-put ((i, w) ∷ d) k v j =
      ground (arith, e.beq_iff i k, e.beq_iff i j, e.beq_iff k j, get-put d k v j)

  pub get-pop : (d : Dict K V) (k j : K) → get (pop d k) j ≡ (if k == j then none else get d j)
  unfolding get pop
  get-pop [] k j = ground arith
  get-pop ((i, w) ∷ d) k j =
      ground (arith, e.beq_iff i k, e.beq_iff i j, e.beq_iff k j, get-pop d k j)

  pub has_key-get : (d : Dict K V) (k : K) → has_key d k ≡ false → get d k ≡ none
  unfolding get has_key
  has_key-get [] k h = refl
  has_key-get ((i, w) ∷ d) k h = ground (arith, has_key-get d k)

  pub get-has_key : (d : Dict K V) (k : K) → get d k ≡ none → has_key d k ≡ false
  unfolding get has_key
  get-has_key [] k h = refl
  get-has_key ((i, w) ∷ d) k h = ground (arith, get-has_key d k)

  -- What a put or a pop does to a property of every entry.
  module _ (P : K × V → Type 0) where
    pub All-put : (d : Dict K V) (k : K) (v : V) → All P d → P (k, v) → All P (put d k v)
    unfolding put
    All-put [] k v a p = (p, tt)
    All-put ((i, w) ∷ d) k v a p = elim (Bool-cases (i == k)) [
      | inl q ↦ rw q (p, a.1)
      | inr q ↦ rw q (a.0, All-put d k v a.1 p)
    ]

    pub All-get : (d : Dict K V) (k : K) (v : V) → All P d → get d k ≡ some v → (j : K) × P (j, v)
    unfolding get
    All-get [] k v a h = absurd (none-ne-some h)
    All-get ((i, w) ∷ d) k v a h = elim (Bool-cases (i == k)) [
      | inl q ↦ (i, subst (λ x. P (i, x)) (some_injective (rw q at h)) a.0)
      | inr q ↦ All-get d k v a.1 (rw q at h)
    ]

    pub All-pop : (d : Dict K V) (k : K) → All P d → All P (pop d k)
    unfolding pop
    All-pop [] k a = tt
    All-pop ((i, w) ∷ d) k a = elim (Bool-cases (i == k)) [
      | inl q ↦ rw q (All-pop d k a.1)
      | inr q ↦ rw q (a.0, All-pop d k a.1)
    ]

  -- The keys of a dictionary are distinct, and stay so.
  abbrev pub Unique : Dict K V → Type 0
  Unique [] = Unit
  Unique ((k, v) ∷ d) = (has_key d k ≡ false) × Unique d

  pub has_key-put :
      (d : Dict K V) (k : K) (v : V) (j : K)
      → has_key (put d k v) j ≡ (if k == j then true else has_key d j)
  unfolding has_key put
  has_key-put [] k v j = refl
  has_key-put ((i, w) ∷ d) k v j =
      ground (arith, e.beq_iff i k, e.beq_iff i j, e.beq_iff k j, has_key-put d k v j)

  pub has_key-pop :
      (d : Dict K V) (k j : K) → has_key (pop d k) j ≡ (if k == j then false else has_key d j)
  unfolding has_key pop
  has_key-pop [] k j = ground arith
  has_key-pop ((i, w) ∷ d) k j =
      ground (arith, e.beq_iff i k, e.beq_iff i j, e.beq_iff k j, has_key-pop d k j)

  pub Unique-put : (d : Dict K V) (k : K) (v : V) → Unique d → Unique (put d k v)
  unfolding put has_key
  Unique-put [] k v u = (refl, tt)
  Unique-put ((i, w) ∷ d) k v u = elim (Bool-cases (i == k)) [
    | inl q ↦ rw q (ground (arith, e.beq_iff i k), u.1)
    | inr q ↦
        rw q
          (ground (arith, has_key-put d k v i, e.beq_iff i k, e.beq_iff k i), Unique-put d k v u.1)
  ]

  pub Unique-pop : (d : Dict K V) (k : K) → Unique d → Unique (pop d k)
  unfolding pop
  Unique-pop [] k u = tt
  Unique-pop ((i, w) ∷ d) k u = elim (Bool-cases (i == k)) [
    | inl q ↦ rw q (Unique-pop d k u.1)
    | inr q ↦ rw q (ground (arith, has_key-pop d k i), Unique-pop d k u.1)
  ]

  -- `list(d)`.
  unfoldable pub keys : Dict K V → List K
  keys [] = []
  keys ((k, v) ∷ d) = k ∷ keys d

  -- `list(d.values())`.
  unfoldable pub entries : Dict K V → List V
  entries [] = []
  entries ((k, v) ∷ d) = v ∷ entries d
