-- ===== src/Patches/Parsing/Results.antt =====
-- What the functions of the parser in patches.py return: never the end of the fuel, and a predicate holds
-- of the value, if there is one.
use tricoder_agent.Base.{
  ◌≡◌, refl, Bool, true, false, Option, none, some, Result, ok, err, raise_if, ◌>>=◌, ◌>>◌, nat_eq,
  list_eq, if◌then◌else◌,
}
use tricoder_agent.Patches.{PatchError, out_of_fuel}
use tricoder_agent.Patches.Parsing.{matched}

abbrev pub is_fuel : PatchError → Bool
is_fuel out_of_fuel = true
is_fuel x = false

-- The result is not the end of the fuel, and satisfies the predicate if it is a value.
abbrev pub Ends : {A : Type 0} → (A → Type 0) → Result PatchError A → Type 0
Ends Q (ok a) = Q a
Ends Q (err x) = is_fuel x ≡ false

pub bind-Ends :
    {A B : Type 0} (Q : A → Type 0) (R : B → Type 0) (r : Result PatchError A)
    (f : A → Result PatchError B)
    → Ends Q r
    → ((a : A) → Q a → Ends R (f a))
    → Ends R (r >>= f)
bind-Ends Q R (ok a) f q next = next a q
bind-Ends Q R (err x) f q next = q

pub map-Ends :
    {A : Type 0} (Q R : A → Type 0) (r : Result PatchError A)
    → ((a : A) → Q a → R a)
    → Ends Q r
    → Ends R r
map-Ends Q R (ok a) f q = f a q
map-Ends Q R (err x) f q = q

pub raise-Ends :
    (b : Bool) (x : PatchError) → is_fuel x ≡ false → Ends (λ u. b ≡ false) (raise_if b x)
raise-Ends true x e = e
raise-Ends false x e = refl

-- A test that raises, and what follows it.
pub guard-Ends :
    {B : Type 0} (R : B → Type 0) (b : Bool) (x : PatchError) (next : Result PatchError B)
    → is_fuel x ≡ false
    → (b ≡ false → Ends R next)
    → Ends R (raise_if b x >> next)
guard-Ends R true x next e f = e
guard-Ends R false x next e f = f refl

pub matched-Ends :
    {A B : Type 0} (R : B → Type 0) (o : Option A) (f : A → Result PatchError B)
    → ((a : A) → Ends R (f a))
    → Ends R (matched o >>= f)
matched-Ends R none f q = refl
matched-Ends R (some a) f q = q a

-- A value that may be missing, with the error if it is.
pub found-Ends :
    {A B : Type 0} (R : B → Type 0) (o : Option A) (x : PatchError) (f : A → Result PatchError B)
    → is_fuel x ≡ false
    → ((a : A) → Ends R (f a))
    → Ends R (elim o [ none ↦ err x | some a ↦ f a ])
found-Ends R none x f e q = e
found-Ends R (some a) x f e q = q a

pub test-Ends :
    {B : Type 0} (R : B → Type 0) (b : Bool) (left right : Result PatchError B)
    → Ends R left
    → Ends R right
    → Ends R (if b then left else right)
test-Ends R true left right l r = l
test-Ends R false left right l r = r
