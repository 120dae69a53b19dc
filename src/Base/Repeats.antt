-- ===== src/Base/Repeats.antt =====
-- Lists without repeats, made again: what was taken up once is not taken up a second time.
use tricoder_agent.Base.Tests.{Bool-cases}
use tricoder_agent.Base.Equality.{Eq}
use tricoder_agent.Base.Lists.{
  All, All-intro, All-map, contains, contains_iff, distinct_from, distinct,
}
use mathlib.Core.Path.{◌≡◌, refl, ap, subst}
use mathlib.Core.Logic.{inl, inr}
use mathlib.Core.Bool.{true, ◌||◌}
use mathlib.Core.List.{List, [], ◌∷◌, ◌++◌}
use native.Mathlib.Omega.{arith}

module _ {A : Type 0} ⦃e : Eq A⦄ where
  distinct_from_nothing :
      (seen ys : List A) → All (λ a. contains seen a ≡ true) ys → distinct_from seen ys ≡ []
  unfolding distinct_from
  distinct_from_nothing seen [] h = refl
  distinct_from_nothing seen (y ∷ ys) h = rw h.0 (distinct_from_nothing seen ys h.1)

  seen_already :
      (seen ys : List A) (y a : A)
      → contains seen y ≡ true
      → (contains seen a || contains (y ∷ ys) a) ≡ true
      → (contains seen a || contains ys a) ≡ true
  unfolding contains
  seen_already seen ys y a old h = elim (Bool-cases (e.beq y a)) [
    | inl same ↦
        let s : contains seen a ≡ true =
          subst (λ b. contains seen b ≡ true) ((e.beq_iff y a).0 same) old in
        ground arith
    | inr other ↦ ground arith
  ]

  distinct_from_again :
      (seen ys zs : List A)
      → All (λ a. (contains seen a || contains ys a) ≡ true) zs
      → distinct_from seen (distinct_from seen ys ++ zs) ≡ distinct_from seen ys
  unfolding distinct_from contains
  distinct_from_again seen [] zs h =
      distinct_from_nothing seen zs (All-map (λ a p. ground arith) zs h)
  distinct_from_again seen (y ∷ ys) zs h = elim (Bool-cases (contains seen y)) [
    | inl old ↦
        rw old
          (distinct_from_again seen ys zs (All-map (λ a p. seen_already seen ys y a old p) zs h))
    | inr new ↦
        rw (new, new)
          (ap (λ rest. y ∷ rest)
            (distinct_from_again (y ∷ seen) ys zs (All-map (λ a p. ground arith) zs h)))
  ]

  contains_append : (xs ys : List A) (a : A) → contains ys a ≡ true → contains (xs ++ ys) a ≡ true
  unfolding contains
  contains_append [] ys a h = h
  contains_append (x ∷ xs) ys a h = ground (arith, contains_append xs ys a h)

  pub distinct-append_again :
      (xs ys : List A) → distinct (distinct (xs ++ ys) ++ ys) ≡ distinct (xs ++ ys)
  unfolding distinct contains
  distinct-append_again xs ys =
      distinct_from_again [] (xs ++ ys) ys
        (All-intro ys (λ a m. contains_append xs ys a ((contains_iff ys a).1 m)))
