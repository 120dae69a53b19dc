-- ===== src/Base/Exec.antt =====
-- A method of a mutable object that may raise: what it wrote before it raised stays written.
use mathlib.Core.Bool.{Bool, true, false}
use tricoder_agent.Base.Raising.{Result, ok, err}

abbrev pub Exec : Type 0 → Type 0 → Type 0 → Type 0
Exec S E A = S → Result E A × S

abbrev pub pure : {S E A : Type 0} → A → Exec S E A
pure a s = (ok a, s)

abbrev pub raise : {S E A : Type 0} → E → Exec S E A
raise e s = (err e, s)

abbrev pub lift : {S E A : Type 0} → Result E A → Exec S E A
lift r s = (r, s)

abbrev pub read : {S E A : Type 0} → (S → A) → Exec S E A
read f s = (ok (f s), s)

abbrev pub modify : {S E : Type 0} → (S → S) → Exec S E (Unit {0})
modify f s = (ok tt, f s)

-- `if test: raise e`.
abbrev pub raise_when : {S E : Type 0} → Bool → E → Exec S E (Unit {0})
raise_when true e s = (err e, s)
raise_when false e s = (ok tt, s)

abbrev pub proceed : {S E A B : Type 0} → Result E A × S → (A → Exec S E B) → Result E B × S
proceed (ok a, s) f = f a s
proceed (err e, s) f = (err e, s)

infixl 5 ◌>>=◌ ◌>>◌
abbrev pub ◌>>=◌ : {S E A B : Type 0} → Exec S E A → (A → Exec S E B) → Exec S E B
◌>>=◌ m f s = proceed (m s) f

abbrev pub ◌>>◌ : {S E A B : Type 0} → Exec S E A → Exec S E B → Exec S E B
◌>>◌ m k s = proceed (m s) (λ _. k)
