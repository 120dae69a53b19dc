-- ===== src/Cancellation/Reach.antt =====
-- Which tokens a cancellation of core/cancellation.py reaches.
use tricoder_agent.Base.{
  ℕ, ◌≤◌, ◌<◌, List, [], ◌∷◌, ◌≡◌, refl, sym, Bool, true, false, ◌||◌, none, some, arith,
  Bool-cases, Option-cases, inl, inr, if◌then◌else◌, length, eqb, eqb_iff,
}
use tricoder_agent.Cancellation.{CancellationToken, is_set, is_cancelled, set_event, cancel}

-- The token is `target`, or its parent descends from `target`.
unfoldable pub descends : List CancellationToken → ℕ → ℕ → Bool
descends [] target token = false
descends (t ∷ older) target token =
    let above : Bool = elim t.parent [
      | none ↦ false
      | some parent ↦ descends older target parent
    ] in
    let rest = descends older target token in
    if eqb token (length older) then eqb token target || above else rest

-- Nothing descends from a token that is not there.
descends_none :
    (tokens : List CancellationToken) (target token : ℕ)
    → length tokens ≤ target
    → descends tokens target token ≡ false
unfolding descends
descends_none [] target token l = refl
descends_none (t ∷ older) target token l = elim (Option-cases t.parent) [
  | inl e ↦ rw e (ground (arith, l, descends_none older target token))
  | inr (parent, e) ↦
      rw e (ground (arith, l, descends_none older target token, descends_none older target parent))
]

length-set_event :
    (tokens : List CancellationToken) (target : ℕ)
    → length (set_event tokens target) ≡ length tokens
unfolding set_event
length-set_event [] target = refl
length-set_event (t ∷ older) target = ground (arith, length-set_event older target)

set_event-cancelled :
    (tokens : List CancellationToken) (target token : ℕ)
    → is_cancelled (set_event tokens target) token
      ≡ (is_cancelled tokens token || descends tokens target token)
unfolding set_event is_cancelled descends
set_event-cancelled [] target token = refl
set_event-cancelled (t ∷ older) target token = elim (Bool-cases (eqb target (length older))) [
  | inl here ↦ elim (Option-cases t.parent) [
    | inl e ↦
        rw (here, e)
          (ground (arith, eqb_iff target (length older), descends_none older target token))
    | inr (parent, e) ↦
        rw (here, e)
          (ground (
            arith,
            eqb_iff target (length older),
            descends_none older target token,
            descends_none older target parent,
          ))
  ]
  | inr below ↦ elim (Option-cases t.parent) [
    | inl e ↦
        rw (below, e, length-set_event older target)
          (ground (arith, below, set_event-cancelled older target token))
    | inr (parent, e) ↦
        rw (below, e, length-set_event older target)
          (ground (
            arith,
            below,
            set_event-cancelled older target token,
            set_event-cancelled older target parent,
          ))
  ]
]

set_already :
    (tokens : List CancellationToken) (target token : ℕ)
    → is_set tokens target ≡ true
    → (is_cancelled tokens token || descends tokens target token) ≡ is_cancelled tokens token
unfolding is_set is_cancelled descends
set_already [] target token h = refl
set_already (t ∷ older) target token h = elim (Bool-cases (eqb target (length older))) [
  | inl here ↦
      let set = (rw here at h) in
      elim (Option-cases t.parent) [
        | inl e ↦
            rw e
              (ground (arith, set, eqb_iff target (length older), descends_none older target token))
        | inr (parent, e) ↦ rw e (
            ground (
              arith,
              set,
              eqb_iff target (length older),
              descends_none older target token,
              descends_none older target parent,
            ))
      ]
  | inr below ↦
      let set = (rw below at h) in
      elim (Option-cases t.parent) [
        | inl e ↦ rw e (ground (arith, below, set_already older target token set))
        | inr (parent, e) ↦ rw e (
            ground (
              arith,
              below,
              set_already older target token set,
              set_already older target parent set,
            ))
      ]
]

-- After a cancellation a token is cancelled exactly when it was before or descends from the cancelled
-- one: the call reaches every descendant, and no other token, parents included.
pub cancel-reaches :
    (tokens : List CancellationToken) (target token : ℕ)
    → is_cancelled (cancel tokens target).1 token
      ≡ (is_cancelled tokens token || descends tokens target token)
unfolding cancel
cancel-reaches tokens target token = elim (Bool-cases (is_set tokens target)) [
  | inl e ↦ rw e (sym (set_already tokens target token e))
  | inr e ↦ rw e (set_event-cancelled tokens target token)
]

set_event-is_set :
    (tokens : List CancellationToken) (target : ℕ)
    → target < length tokens
    → is_set (set_event tokens target) target ≡ true
unfolding is_set set_event
set_event-is_set [] target l = absurd (omega (arith, l))
set_event-is_set (t ∷ older) target l = elim (Bool-cases (eqb target (length older))) [
  | inl here ↦ rw (here, here) refl
  | inr below ↦
      rw (below, length-set_event older target, below)
        (set_event-is_set older target (ground (arith, l, eqb_iff target (length older))))
]

-- Of two cancellations of a token that was made, the second does not report that it cancelled it, and
-- changes nothing.
pub cancel_once :
    (tokens : List CancellationToken) (target : ℕ)
    → target < length tokens
    → cancel (cancel tokens target).1 target ≡ (false, (cancel tokens target).1)
unfolding cancel
cancel_once tokens target l = elim (Bool-cases (is_set tokens target)) [
  | inl e ↦ rw (e, e) refl
  | inr e ↦ rw (e, set_event-is_set tokens target l) refl
]
