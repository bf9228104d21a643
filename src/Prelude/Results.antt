-- ===== src/Prelude/Results.antt =====
-- Code that throws returns a result, over the model's own type of errors.
use mathlib.Core.Bool.{Bool, true, false}
use mathlib.Core.Option.{Option, none, some}
use mathlib.Core.Path.{◌≡◌, refl}
use mathlib.Core.Logic.{◌⊎◌, inl, inr}

pub data Result {ℓ κ} (E : Type ℓ) (A : Type κ) : Type (ℓ ⊔ κ) where
  ok : A → Result E A
  err : E → Result E A

infixl 5 ◌>>=◌ ◌>>◌
abbrev pub ◌>>=◌ {ℓ κ μ} :
    {E : Type ℓ} {A : Type κ} {B : Type μ} → Result E A → (A → Result E B) → Result E B
ok a >>= f = f a
err e >>= f = err e

abbrev pub ◌>>◌ {ℓ κ} : {E : Type ℓ} {B : Type κ} → Result E (Unit {0}) → Result E B → Result E B
m >> k = m >>= λ _. k

-- `if (!test) throw new Error(e)`
abbrev pub require {ℓ} : {E : Type ℓ} → Bool → E → Result E (Unit {0})
require true e = ok tt
require false e = err e

-- `a ?? throw`
abbrev pub present {ℓ κ} : {E : Type ℓ} {A : Type κ} → Option A → E → Result E A
present none e = err e
present (some a) e = ok a

-- `a ?? d`
abbrev pub otherwise {ℓ} : {A : Type ℓ} → Option A → A → A
otherwise none d = d
otherwise (some a) d = a

pub Result-cases {ℓ κ} :
    {E : Type ℓ} {A : Type κ} (r : Result E A) → ((a : A) × (r ≡ ok a)) ⊎ ((e : E) × (r ≡ err e))
Result-cases (ok a) = inl (a, refl)
Result-cases (err e) = inr (e, refl)

-- A chain that succeeds has succeeded at each step.
pub >>=-ok {ℓ κ μ} :
    {E : Type ℓ} {A : Type κ} {B : Type μ} (m : Result E A) (f : A → Result E B) (b : B)
    → (m >>= f) ≡ ok b
    → (a : A) × (m ≡ ok a) × (f a ≡ ok b)
>>=-ok (ok a) f b h = (a, refl, h)
>>=-ok (err e) f b h = absurd cc

pub require-ok {ℓ κ} :
    {E : Type ℓ} {B : Type κ} (c : Bool) (e : E) (k : Result E B) (b : B)
    → (require c e >> k) ≡ ok b
    → (c ≡ true) × (k ≡ ok b)
require-ok true e k b h = (refl, h)
require-ok false e k b h = absurd cc

pub present-ok {ℓ κ} :
    {E : Type ℓ} {A : Type κ} (o : Option A) (e : E) (a : A) → present o e ≡ ok a → o ≡ some a
present-ok none e a h = absurd cc
present-ok (some x) e a h = cc

pub require_last-ok {ℓ} :
    {E : Type ℓ} (c : Bool) (e : E) (u : Unit {0}) → require c e ≡ ok u → c ≡ true
require_last-ok true e u h = refl
require_last-ok false e u h = absurd cc

pub ok-injective {ℓ κ} :
    {E : Type ℓ} {A : Type κ} {a b : A} → ◌≡◌ {A = Result E A} (ok a) (ok b) → a ≡ b
ok-injective h = cc
