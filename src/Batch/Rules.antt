-- ===== src/Batch/Rules.antt =====
-- Rules for steps that may raise: what holds of the value and of the exception, with the state after it.
use tricoder_agent.Base.{◌≡◌, refl, Bool, true, false, Result, ok, err, if◌then◌else◌}
use tricoder_agent.Base.Exec.{Exec, proceed, raise_when}

-- The first predicate holds of a value and the second one of an exception.
abbrev pub Ensures :
    {S E A : Type 0} → (A → S → Type 0) → (E → S → Type 0) → Result E A × S → Type 0
Ensures Q R (ok a, s) = Q a s
Ensures Q R (err x, s) = R x s

module _ {S E : Type 0} (R : E → S → Type 0) where
  pub bind-Ensures :
      {A B : Type 0} (P : A → S → Type 0) (Q : B → S → Type 0) (m : Result E A × S)
      (f : A → Exec S E B)
      → Ensures P R m
      → ((a : A) (s : S) → P a s → Ensures Q R (f a s))
      → Ensures Q R (proceed m f)
  bind-Ensures P Q (ok a, s) f p next = next a s p
  bind-Ensures P Q (err x, s) f p next = p

  pub lift-Ensures :
      {A B : Type 0} (Q : B → S → Type 0) (r : Result E A) (s : S) (f : A → Exec S E B)
      → ((x : E) → r ≡ err x → R x s)
      → ((a : A) → r ≡ ok a → Ensures Q R (f a s))
      → Ensures Q R (proceed (r, s) f)
  lift-Ensures Q (ok a) s f fails next = next a refl
  lift-Ensures Q (err x) s f fails next = fails x refl

  pub raise-Ensures :
      {B : Type 0} (Q : B → S → Type 0) (b : Bool) (x : E) (s : S) (f : Unit {0} → Exec S E B)
      → R x s
      → Ensures Q R (f tt s)
      → Ensures Q R (proceed (raise_when b x s) f)
  raise-Ensures Q true x s f fails next = fails
  raise-Ensures Q false x s f fails next = next

  pub test-Ensures :
      {B : Type 0} (Q : B → S → Type 0) (b : Bool) (left right : Exec S E B) (s : S)
      → (b ≡ true → Ensures Q R (left s))
      → (b ≡ false → Ensures Q R (right s))
      → Ensures Q R ((if b then left else right) s)
  test-Ensures Q true left right s l r = l refl
  test-Ensures Q false left right s l r = r refl

  pub map-Ensures :
      {A : Type 0} (P Q : A → S → Type 0) (m : Result E A × S)
      → ((a : A) (s : S) → P a s → Q a s)
      → Ensures P R m
      → Ensures Q R m
  map-Ensures P Q (ok a, s) f p = f a s p
  map-Ensures P Q (err x, s) f p = p
