-- ===== src/Base/Results.antt =====
-- Go's (value, error) where the error ends the function: a sum with a name for each error, and the
-- chain of such steps.
use mathlib.Core.Path.{ap, ◌≡◌, refl}
use mathlib.Core.Bool.{Bool, true, false}
use mathlib.Core.Option.{Option, none, some}

pub data Result {ℓ} (E A : Type ℓ) : Type ℓ where
  ok : A → Result E A
  err : E → Result E A

infixl 5 ◌>>=◌ ◌>>◌
unfoldable pub ◌>>=◌ {ℓ} : {E A B : Type ℓ} → Result E A → (A → Result E B) → Result E B
ok a >>= f = f a
err e >>= f = err e

-- if bad { return err }
unfoldable pub reject : {E : Type 0} → Bool → E → Result E (Unit {0})
reject true e = err e
reject false e = ok tt

unfoldable pub ◌>>◌ : {E B : Type 0} → Result E (Unit {0}) → Result E B → Result E B
ok u >> k = k
err e >> k = err e

-- x, err := f(); if err != nil { return err }
unfoldable pub or_err : {E A : Type 0} → Option A → E → Result E A
or_err none e = err e
or_err (some a) e = ok a

step_ok :
    {E A B : Type 0} (m : Result E A) (f : A → Result E B) {b : B}
    → m >>= f ≡ ok b
    → (a : A) × (m ≡ ok a) × (f a ≡ ok b)
unfolding ◌>>=◌
step_ok (ok a) f h = (a, refl, h)
step_ok (err e) f h = cc

guard_ok :
    {E B : Type 0} (bad : Bool) (e : E) (k : Result E B) {x : B}
    → reject bad e >> k ≡ ok x
    → (bad ≡ false) × (k ≡ ok x)
unfolding ◌>>◌ reject
guard_ok true e k h = cc
guard_ok false e k h = (refl, h)

value_ok :
    {E A B : Type 0} (o : Option A) (e : E) (k : A → Result E B) {x : B}
    → or_err o e >>= k ≡ ok x
    → (a : A) × (o ≡ some a) × (k a ≡ ok x)
unfolding ◌>>=◌ or_err
value_ok none e k h = cc
value_ok (some a) e k h = (a, refl, h)

-- What a successful step was made of.
pub >>=-eq-ok :
    {E A B : Type 0} {m : Result E A} {f : A → Result E B} {b : B}
    → m >>= f ≡ ok b
    → (a : A) × (m ≡ ok a) × (f a ≡ ok b)
>>=-eq-ok {m} {f} h = step_ok m f h

pub reject->>-eq-ok :
    {E B : Type 0} {bad : Bool} (e : E) {k : Result E B} {x : B}
    → reject bad e >> k ≡ ok x
    → (bad ≡ false) × (k ≡ ok x)
reject->>-eq-ok {bad} e {k} h = guard_ok bad e k h

pub or_err->>=-eq-ok :
    {E A B : Type 0} {o : Option A} (e : E) {k : A → Result E B} {x : B}
    → or_err o e >>= k ≡ ok x
    → (a : A) × (o ≡ some a) × (k a ≡ ok x)
or_err->>=-eq-ok {o} e {k} h = value_ok o e k h

pub >>-eq-ok :
    {E B : Type 0} (m : Result E (Unit {0})) {k : Result E B} {x : B} → m >> k ≡ ok x → k ≡ ok x
unfolding ◌>>◌
>>-eq-ok (ok u) h = h
>>-eq-ok (err e) h = cc

pub ok_eq : {E A : Type 0} {a b : A} → ◌≡◌ {A = Result E A} (ok a) (ok b) → a ≡ b
ok_eq e = cc

pub or_err-eq-ok : {E A : Type 0} (o : Option A) (e : E) {a : A} → or_err o e ≡ ok a → o ≡ some a
unfolding or_err
or_err-eq-ok none e h = cc
or_err-eq-ok (some b) e h = ap some (ok_eq h)

-- The chain of steps that give a value or nothing.
unfoldable pub and_then : {A B : Type 0} → Option A → (A → Option B) → Option B
and_then none f = none
and_then (some a) f = f a

pub and_then-eq-some :
    {A B : Type 0} (o : Option A) (f : A → Option B) {b : B}
    → and_then o f ≡ some b
    → (a : A) × (o ≡ some a) × (f a ≡ some b)
unfolding and_then
and_then-eq-some none f h = cc
and_then-eq-some (some a) f h = (a, refl, h)
