-- ===== src/Base/Splitting.antt =====
-- Laws of splitting, joining, prefixes and stripping on texts.
use Prim.Native.Nat.{ℕ}
use mathlib.Core.Path.{◌≡◌, refl, sym}
use mathlib.Core.Logic.{inl, inr}
use mathlib.Core.Bool.{true}
use mathlib.Core.List.{List, [], ◌∷◌, ◌++◌, append_assoc}
use native.Mathlib.Omega.{arith}
use tricoder_agent.Base.Tests.{eqb, eqb_iff, Bool-cases}
use tricoder_agent.Base.Lists.{All}
use tricoder_agent.Base.Texts.{Text, starts_with, push_head, split, join, Lacks}

module _ (c : ℕ) where
  split_cons : (s : Text) → (h : Text) × (t : List Text) × (split c s ≡ h ∷ t)
  unfolding split
  split_cons [] = ([], [], refl)
  split_cons (x ∷ s) = elim (Bool-cases (eqb x c)) [
    | inl e ↦ ([], split c s, rw e refl)
    | inr e ↦ let (h, t, p) = split_cons s in (x ∷ h, t, rw (e, p) refl)
  ]

  push_head-append :
      (x : ℕ) (h : Text) (t parts more : List Text)
      → parts ≡ h ∷ t
      → push_head x (parts ++ more) ≡ push_head x parts ++ more
  push_head-append x h t parts more e = rw e refl

  -- A split at a separator splits each side.
  pub split-append : (a b : Text) → split c (a ++ c ∷ b) ≡ split c a ++ split c b
  unfolding split
  split-append [] b = rw ((eqb_iff c c).1 refl) refl
  split-append (x ∷ a) b = elim (Bool-cases (eqb x c)) [
    | inl e ↦ rw (e, split-append a b) refl
    | inr e ↦
        let (h, t, p) = split_cons a in
        rw (e, split-append a b) (push_head-append x h t (split c a) (split c b) p)
  ]

  pub split_of_Lacks : (a : Text) → Lacks c a → split c a ≡ a ∷ []
  unfolding split
  split_of_Lacks [] l = refl
  split_of_Lacks (x ∷ a) l = elim (Bool-cases (eqb x c)) [
    | inl e ↦ absurd (l.0 ((eqb_iff x c).0 e))
    | inr e ↦ rw (e, split_of_Lacks a l.1) refl
  ]

  pub split-join :
      (p : Text) (ps : List Text) → All (Lacks c) (p ∷ ps) → split c (join c (p ∷ ps)) ≡ p ∷ ps
  unfolding join
  split-join p [] l = split_of_Lacks p l.0
  split-join p (q ∷ ps) l = rw (split-append, split_of_Lacks p l.0, split-join q ps l.1) refl

  pub join-append :
      (p : Text) (ps : List Text) (q : Text) (qs : List Text)
      → join c ((p ∷ ps) ++ q ∷ qs) ≡ join c (p ∷ ps) ++ c ∷ join c (q ∷ qs)
  unfolding join
  join-append p [] q qs = refl
  join-append p (p' ∷ ps) q qs = rw (join-append p' ps q qs) (sym (append_assoc p _ _))

pub starts_with-append : (a b : Text) → starts_with (a ++ b) a ≡ true
unfolding starts_with
starts_with-append [] [] = refl
starts_with-append [] (x ∷ b) = refl
starts_with-append (x ∷ a) b = rw ((eqb_iff x x).1 refl) (starts_with-append a b)

-- A text that starts with another is that one with a rest.
pub starts_with_rest : (s p : Text) → starts_with s p ≡ true → (rest : Text) × (s ≡ p ++ rest)
unfolding starts_with
starts_with_rest s [] h = (s, refl)
starts_with_rest [] (x ∷ p) h = cc
starts_with_rest (y ∷ s) (x ∷ p) h = elim (Bool-cases (eqb y x)) [
  | inl e ↦ let (rest, q) = starts_with_rest s p (ground arith) in (rest, cc (q, (eqb_iff y x).0 e))
  | inr e ↦ absurd (ground arith)
]

module _ (c : ℕ) where
  join_push : (x : ℕ) (h : Text) (t : List Text) → join c (push_head x (h ∷ t)) ≡ x ∷ join c (h ∷ t)
  unfolding join
  join_push x h [] = refl
  join_push x h (p ∷ t) = refl

  join_nil : (h : Text) (t : List Text) → join c ([] ∷ h ∷ t) ≡ c ∷ join c (h ∷ t)
  unfolding join
  join_nil h t = refl

  -- Joining undoes a split.
  pub join-split : (s : Text) → join c (split c s) ≡ s
  unfolding split
  join-split [] = unfold join in refl
  join-split (x ∷ s) =
      let (h, t, p) = split_cons c s in
      let whole : join c (h ∷ t) ≡ s = rw p at (join-split s) in
      elim (Bool-cases (eqb x c)) [
        | inl e ↦ rw (e, p, join_nil h t, whole, (eqb_iff x c).0 e) refl
        | inr e ↦ rw (e, p, join_push x h t, whole) refl
      ]
