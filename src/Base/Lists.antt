-- ===== src/Base/Lists.antt =====
-- Lists with native lengths, Boolean quantifiers and predicates by recursion.
use Prim.Native.Nat.{ℕ, zero, suc, ◌+◌, ◌-◌, ◌≤◌}
use mathlib.Core.Path.{◌≡◌, refl}
use mathlib.Core.Logic.{◌↔◌, ◌⊎◌, inl, inr}
use mathlib.Core.Bool.{Bool, true, false, ◌&&◌, ◌||◌}
use mathlib.Core.List.{List, [], ◌∷◌, ◌++◌}
use native.Mathlib.Omega.{arith}
use tricoder_agent.Base.Tests.{if◌then◌else◌, Bool-cases}
use tricoder_agent.Base.Equality.{Eq, ◌==◌}

module _ {ℓ} {A : Type ℓ} where
  abbrev pub length : List A → ℕ
  length [] = 0
  length (x ∷ xs) = suc (length xs)

  pub length-append : (xs ys : List A) → length (xs ++ ys) ≡ length xs + length ys
  length-append [] ys = omega arith
  length-append (x ∷ xs) ys = omega (arith, length-append xs ys)

  -- `not xs`.
  abbrev pub is_nil : List A → Bool
  is_nil [] = true
  is_nil (x ∷ xs) = false

  abbrev pub drop : ℕ → List A → List A
  drop zero xs = xs
  drop (suc n) [] = []
  drop (suc n) (x ∷ xs) = drop n xs

  abbrev pub take : ℕ → List A → List A
  take zero xs = []
  take (suc n) [] = []
  take (suc n) (x ∷ xs) = x ∷ take n xs

  -- Python's `any` and `all`, and a comprehension's `if`.
  unfoldable pub any : (A → Bool) → List A → Bool
  any p [] = false
  any p (x ∷ xs) = p x || any p xs

  unfoldable pub all : (A → Bool) → List A → Bool
  all p [] = true
  all p (x ∷ xs) = p x && all p xs

  unfoldable pub keep : (A → Bool) → List A → List A
  keep p [] = []
  keep p (x ∷ xs) = if p x then x ∷ keep p xs else keep p xs

  -- How many elements pass a test, `sum(1 for x in xs if p(x))`.
  unfoldable pub count_if : (A → Bool) → List A → ℕ
  count_if p [] = 0
  count_if p (x ∷ xs) = if p x then suc (count_if p xs) else count_if p xs

  -- Every element satisfies `P`; some element does.
  abbrev pub All : (A → Type 0) → List A → Type 0
  All P [] = Unit
  All P (x ∷ xs) = P x × All P xs

  abbrev pub Has : (A → Type 0) → List A → Type 0
  Has P [] = ⊥
  Has P (x ∷ xs) = P x ⊎ Has P xs

  pub any→Has : (p : A → Bool) (xs : List A) → any p xs ≡ true → Has (λ x. p x ≡ true) xs
  unfolding any
  any→Has p [] h = cc
  any→Has p (x ∷ xs) h = elim (Bool-cases (p x)) [
    | inl e ↦ inl e
    | inr e ↦ inr (any→Has p xs (ground arith))
  ]

  pub Has→any : (p : A → Bool) (xs : List A) → Has (λ x. p x ≡ true) xs → any p xs ≡ true
  unfolding any
  Has→any p [] h = elim h [ ]
  Has→any p (x ∷ xs) (inl e) = ground arith
  Has→any p (x ∷ xs) (inr h) = ground (arith, Has→any p xs h)

  pub all→All : (p : A → Bool) (xs : List A) → all p xs ≡ true → All (λ x. p x ≡ true) xs
  unfolding all
  all→All p [] h = tt
  all→All p (x ∷ xs) h = (ground arith, all→All p xs (ground arith))

  pub All→all : (p : A → Bool) (xs : List A) → All (λ x. p x ≡ true) xs → all p xs ≡ true
  unfolding all
  All→all p [] h = refl
  All→all p (x ∷ xs) h = ground (arith, All→all p xs h.1)

module _ {ℓ} {A : Type ℓ} {P Q : A → Type 0} where
  pub All-map : ((x : A) → P x → Q x) → (xs : List A) → All P xs → All Q xs
  All-map f [] h = tt
  All-map f (x ∷ xs) h = (f x h.0, All-map f xs h.1)

  pub Has-map : ((x : A) → P x → Q x) → (xs : List A) → Has P xs → Has Q xs
  Has-map f [] h = h
  Has-map f (x ∷ xs) (inl h) = inl (f x h)
  Has-map f (x ∷ xs) (inr h) = inr (Has-map f xs h)

module _ {ℓ} {A : Type ℓ} (P : A → Type 0) where
  pub All-append : (xs ys : List A) → All P xs → All P ys → All P (xs ++ ys)
  All-append [] ys hx hy = hy
  All-append (x ∷ xs) ys hx hy = (hx.0, All-append xs ys hx.1 hy)

  pub Has-append_left : (xs ys : List A) → Has P xs → Has P (xs ++ ys)
  Has-append_left [] ys h = elim h [ ]
  Has-append_left (x ∷ xs) ys (inl h) = inl h
  Has-append_left (x ∷ xs) ys (inr h) = inr (Has-append_left xs ys h)

  pub Has-append_right : (xs ys : List A) → Has P ys → Has P (xs ++ ys)
  Has-append_right [] ys h = h
  Has-append_right (x ∷ xs) ys h = inr (Has-append_right xs ys h)

  pub Has-append : (xs ys : List A) → Has P (xs ++ ys) → Has P xs ⊎ Has P ys
  Has-append [] ys h = inr h
  Has-append (x ∷ xs) ys (inl h) = inl (inl h)
  Has-append (x ∷ xs) ys (inr h) = elim (Has-append xs ys h) [ inl l ↦ inl (inr l) | inr r ↦ inr r ]

  -- An element at which one holds of what all satisfy.
  pub All-Has : (Q : A → Type 0) (xs : List A) → All Q xs → Has P xs → Has (λ x. P x × Q x) xs
  All-Has Q [] a h = h
  All-Has Q (x ∷ xs) a (inl h) = inl (h, a.0)
  All-Has Q (x ∷ xs) a (inr h) = inr (All-Has Q xs a.1 h)

  pub All-keep : (p : A → Bool) (xs : List A) → All P xs → All P (keep p xs)
  unfolding keep
  All-keep p [] a = tt
  All-keep p (x ∷ xs) a = elim (Bool-cases (p x)) [
    | inl e ↦ rw e (a.0, All-keep p xs a.1)
    | inr e ↦ rw e (All-keep p xs a.1)
  ]

module _ {ℓ} {A : Type ℓ} where
  pub All-keep_test : (p : A → Bool) (xs : List A) → All (λ x. p x ≡ true) (keep p xs)
  unfolding keep
  All-keep_test p [] = tt
  All-keep_test p (x ∷ xs) = elim (Bool-cases (p x)) [
    | inl e ↦ rw e (e, All-keep_test p xs)
    | inr e ↦ rw e (All-keep_test p xs)
  ]

  pub length-keep_le : (p : A → Bool) (xs : List A) → length (keep p xs) ≤ length xs
  unfolding keep
  length-keep_le p [] = omega arith
  length-keep_le p (x ∷ xs) = ground (arith, length-keep_le p xs)

module _ {A : Type 0} where
  abbrev pub In : A → List A → Type 0
  In a xs = Has (λ x. x ≡ a) xs

  pub All-In : (P : A → Type 0) {a : A} (xs : List A) → All P xs → In a xs → P a
  All-In P [] h m = elim m [ ]
  All-In P (x ∷ xs) h (inl e) = rw (← e) h.0
  All-In P (x ∷ xs) h (inr m) = All-In P xs h.1 m

  pub Has-In : (P : A → Type 0) {a : A} (xs : List A) → P a → In a xs → Has P xs
  Has-In P [] h m = m
  Has-In P (x ∷ xs) h (inl e) = inl (rw e h)
  Has-In P (x ∷ xs) h (inr m) = inr (Has-In P xs h m)

  pub All-intro : {P : A → Type 0} (xs : List A) → ((a : A) → In a xs → P a) → All P xs
  All-intro [] f = tt
  All-intro (x ∷ xs) f = (f x (inl refl), All-intro xs (λ a m. f a (inr m)))

  pub Has-elim : {P : A → Type 0} (xs : List A) → Has P xs → (a : A) × In a xs × P a
  Has-elim [] h = elim h [ ]
  Has-elim (x ∷ xs) (inl h) = (x, inl refl, h)
  Has-elim (x ∷ xs) (inr h) = let (a, m, p) = Has-elim xs h in (a, inr m, p)

  pub In-cons_map :
      {a : A} (x : A) (xs ys : List A) → (In a xs → In a ys) → In a (x ∷ xs) → In a (x ∷ ys)
  In-cons_map x xs ys f (inl p) = inl p
  In-cons_map x xs ys f (inr m) = inr (f m)

module _ {A : Type 0} ⦃e : Eq A⦄ where
  -- Python's `a in xs`.
  unfoldable pub contains : List A → A → Bool
  contains [] a = false
  contains (x ∷ xs) a = x == a || contains xs a

  pub contains_iff : (xs : List A) (a : A) → (contains xs a ≡ true) ↔ In a xs
  unfolding contains
  contains_iff [] a = (λ h. cc, λ h. elim h [ ])
  contains_iff (x ∷ xs) a = (
    λ h. elim (Bool-cases (x == a)) [
      | inl p ↦ inl ((e.beq_iff x a).0 p)
      | inr p ↦ inr ((contains_iff xs a).0 (ground arith))
    ],
    elim [
      | inl p ↦ ground (arith, (e.beq_iff x a).1 p)
      | inr m ↦ ground (arith, (contains_iff xs a).1 m)
    ],
  )

  -- `tuple(dict.fromkeys(xs))`: the first occurrence of each element, in order.
  unfoldable pub distinct_from : List A → List A → List A
  distinct_from seen [] = []
  distinct_from seen (x ∷ xs) =
      let rest = distinct_from seen xs in
      let added = x ∷ distinct_from (x ∷ seen) xs in if contains seen x then rest else added

  unfoldable pub distinct : List A → List A
  distinct xs = distinct_from [] xs

  In-distinct_from : (seen xs : List A) (a : A) → In a xs → In a seen ⊎ In a (distinct_from seen xs)
  unfolding distinct_from
  In-distinct_from seen [] a m = elim m [ ]
  In-distinct_from seen (x ∷ xs) a m = elim (Bool-cases (contains seen x)) [
    | inl old ↦ rw old (elim m [
      | inl p ↦ inl (rw (← p) ((contains_iff seen x).0 old))
      | inr m' ↦ In-distinct_from seen xs a m'
    ])
    | inr new ↦ rw new (elim m [
      | inl p ↦ inr (inl p)
      | inr m' ↦ elim (In-distinct_from (x ∷ seen) xs a m') [
        | inl (inl q) ↦ inr (inl q)
        | inl (inr q) ↦ inl q
        | inr q ↦ inr (inr q)
      ]
    ])
  ]

  In-distinct_from_back : (seen xs : List A) (a : A) → In a (distinct_from seen xs) → In a xs
  unfolding distinct_from
  In-distinct_from_back seen [] a m = m
  In-distinct_from_back seen (x ∷ xs) a m = elim (Bool-cases (contains seen x)) [
    | inl old ↦ inr (In-distinct_from_back seen xs a (rw old at m))
    | inr new ↦ In-cons_map x _ xs (In-distinct_from_back (x ∷ seen) xs a) (rw new at m)
  ]

  pub In-distinct : (xs : List A) (a : A) → In a xs ↔ In a (distinct xs)
  unfolding distinct
  In-distinct xs a = (
    λ m. elim (In-distinct_from [] xs a m) [ inl n ↦ elim n [ ] | inr n ↦ n ],
    In-distinct_from_back [] xs a,
  )

  -- No element twice.
  abbrev pub Distinct : List A → Type 0
  Distinct [] = Unit
  Distinct (x ∷ xs) = (contains xs x ≡ false) × Distinct xs

module _ {A : Type 0} where
  pub In-keep : (p : A → Bool) (xs : List A) (a : A) → In a (keep p xs) ↔ (In a xs × (p a ≡ true))
  unfolding keep
  In-keep p [] a = (λ h. elim h [ ], λ h. elim h.0 [ ])
  In-keep p (x ∷ xs) a = elim (Bool-cases (p x)) [
    | inl e ↦ rw e (
      elim [
        | inl q ↦ (inl q, rw (← q) e)
        | inr m ↦ let (n, t) = (In-keep p xs a).0 m in (inr n, t)
      ],
      λ (m, t). In-cons_map x xs _ (λ n. (In-keep p xs a).1 (n, t)) m,
    )
    | inr e ↦ rw e (
      (λ m. let (n, t) = (In-keep p xs a).0 m in (inr n, t)),
      (λ (m, t). elim m [
        | inl q ↦ absurd (contradicts (p x) e (rw q t))
        | inr n ↦ (In-keep p xs a).1 (n, t)
      ]),
    )
  ]
    where
      contradicts : (b : Bool) → b ≡ false → b ≡ true → ⊥
      contradicts b f t = cc

  pub keep-nil : (p : A → Bool) (xs : List A) → keep p xs ≡ [] → All (λ a. p a ≡ false) xs
  unfolding keep
  keep-nil p [] h = tt
  keep-nil p (x ∷ xs) h = elim (Bool-cases (p x)) [
    | inl e ↦ absurd (not_nil (rw e at h))
    | inr e ↦ (e, keep-nil p xs (rw e at h))
  ]
    where
      not_nil : {x : A} {xs : List A} → x ∷ xs ≡ [] → ⊥
      not_nil e = cc

module _ {ℓ} {A : Type ℓ} where
  pub keep-All : (p : A → Bool) (xs : List A) → All (λ x. p x ≡ true) xs → keep p xs ≡ xs
  unfolding keep
  keep-All p [] a = refl
  keep-All p (x ∷ xs) a = rw (a.0, keep-All p xs a.1) refl

module _ {A : Type 0} ⦃e : Eq A⦄ where
  length-distinct_from : (seen xs : List A) → length (distinct_from seen xs) ≤ length xs
  unfolding distinct_from
  length-distinct_from seen [] = omega arith
  length-distinct_from seen (x ∷ xs) =
      ground (arith, length-distinct_from seen xs, length-distinct_from (x ∷ seen) xs)

  pub All-unseen :
      (x : A) (seen xs : List A)
      → All (λ y. contains (x ∷ seen) y ≡ false) xs
      → (contains xs x ≡ false) × All (λ y. contains seen y ≡ false) xs
  unfolding contains
  All-unseen x seen [] a = (refl, tt)
  All-unseen x seen (y ∷ xs) a =
      let (fresh, rest) = All-unseen x seen xs a.1 in
      (ground (arith, e.beq_iff x y, e.beq_iff y x), (ground arith, rest))

  Distinct-of_length :
      (seen xs : List A)
      → length (distinct_from seen xs) ≡ length xs
      → Distinct xs × All (λ y. contains seen y ≡ false) xs
  unfolding distinct_from
  Distinct-of_length seen [] h = (tt, tt)
  Distinct-of_length seen (x ∷ xs) h = elim (Bool-cases (contains seen x)) [
    | inl old ↦ absurd (omega (arith, length-distinct_from seen xs, (rw old at h)))
    | inr new ↦
        let (d, a) = Distinct-of_length (x ∷ seen) xs (suc_inj (rw new at h)) in
        let (fresh, rest) = All-unseen x seen xs a in ((fresh, d), (new, rest))
  ]
    where
      suc_inj : {m n : ℕ} → suc m ≡ suc n → m ≡ n
      suc_inj e = omega arith

  -- As many different elements as elements: no repeats.
  pub distinct-length : (xs : List A) → length (distinct xs) ≡ length xs → Distinct xs
  unfolding distinct
  distinct-length xs h = (Distinct-of_length [] xs h).0

pub drop-append :
    {A : Type 0} (n : ℕ) (xs ys : List A) → n ≤ length xs → drop n (xs ++ ys) ≡ drop n xs ++ ys
drop-append zero xs ys l = refl
drop-append (suc n) [] ys l = absurd (omega (arith, l))
drop-append (suc n) (x ∷ xs) ys l = drop-append n xs ys (omega arith)

pub count_append :
    {A : Type 0} (p : A → Bool) (xs ys : List A)
    → count_if p (xs ++ ys) ≡ count_if p xs + count_if p ys
unfolding count_if
count_append p [] ys = omega arith
count_append p (x ∷ xs) ys = ground (arith, count_append p xs ys)

pub All-drop : {A : Type 0} (P : A → Type 0) (n : ℕ) (xs : List A) → All P xs → All P (drop n xs)
All-drop P zero xs a = a
All-drop P (suc n) [] a = tt
All-drop P (suc n) (x ∷ xs) a = All-drop P n xs a.1

pub length-drop : {A : Type 0} (n : ℕ) (xs : List A) → length (drop n xs) ≡ length xs - n
length-drop zero xs = omega arith
length-drop (suc n) [] = omega arith
length-drop (suc n) (x ∷ xs) = omega (arith, length-drop n xs)
