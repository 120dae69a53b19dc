-- ===== src/Base/Raising.antt =====
-- Functions that may raise: a result, and a method whose object keeps what was written before.
use mathlib.Core.Path.{◌≡◌, refl}
use mathlib.Core.Logic.{◌⊎◌, inl, inr}
use mathlib.Core.Bool.{Bool, true, false}

pub data Result (E : Type 0) (A : Type 0) : Type 0 where
  ok : A → Result E A
  err : E → Result E A

infixl 5 ◌>>=◌ ◌>>◌
abbrev pub ◌>>=◌ : {E A B : Type 0} → Result E A → (A → Result E B) → Result E B
ok a >>= f = f a
err e >>= f = err e

abbrev pub ◌>>◌ : {E A B : Type 0} → Result E A → Result E B → Result E B
m >> next = m >>= (λ done. next)

-- `if test: raise e`.
abbrev pub raise_if : {E : Type 0} → Bool → E → Result E (Unit {0})
raise_if true e = err e
raise_if false e = ok tt

pub Result-cases :
    {E A : Type 0} (r : Result E A) → ((a : A) × (r ≡ ok a)) ⊎ ((e : E) × (r ≡ err e))
Result-cases (ok a) = inl (a, refl)
Result-cases (err e) = inr (e, refl)

pub ok_injective : {E A : Type 0} {x y : A} → ◌≡◌ {A = Result E A} (ok x) (ok y) → x ≡ y
ok_injective e = cc

pub err-ne-ok : {E A : Type 0} {x : A} {e : E} → ◌≡◌ {A = Result E A} (err e) (ok x) → ⊥
err-ne-ok h = cc

pub err_injective : {E A : Type 0} {x y : E} → ◌≡◌ {A = Result E A} (err x) (err y) → x ≡ y
err_injective e = cc

-- What came before a value did not raise.
pub bind_ok :
    {E A B : Type 0} (r : Result E A) (f : A → Result E B) (b : B)
    → (r >>= f) ≡ ok b
    → (a : A) × (r ≡ ok a) × (f a ≡ ok b)
bind_ok (ok a) f b h = (a, refl, h)
bind_ok (err e) f b h = absurd (err-ne-ok h)

pub then_ok :
    {E B : Type 0} (r : Result E (Unit {0})) (next : Result E B) (b : B)
    → (r >> next) ≡ ok b
    → (r ≡ ok tt) × (next ≡ ok b)
then_ok (ok u) next b h = (refl, h)
then_ok (err e) next b h = absurd (err-ne-ok h)

pub raise_if_ok : {E : Type 0} (b : Bool) (e : E) (u : Unit {0}) → raise_if b e ≡ ok u → b ≡ false
raise_if_ok true e u h = absurd (err-ne-ok h)
raise_if_ok false e u h = refl
