-- ===== src/Prelude/Fault.antt =====
-- Code that may read or write outside an array: `none` is the fault, where the model stops.
use mathlib.Core.Path.{◌≡◌, refl}
use mathlib.Core.Option.{Option, none, some}

infixl 5 ◌>>=◌
abbrev pub ◌>>=◌ {ℓ κ} : {A : Type ℓ} {B : Type κ} → Option A → (A → Option B) → Option B
none >>= f = none
some a >>= f = f a

-- No value: what a run that faults has to prove.
pub data Fault {ℓ} : Type ℓ where

-- The code ends without a fault, in a result of which `P` holds.
abbrev pub Ends {ℓ κ} : {A : Type ℓ} → Option A → (A → Type κ) → Type κ
Ends none P = Fault
Ends (some a) P = P a

pub Ends-some {ℓ κ} :
    {A : Type ℓ} (o : Option A) (P : A → Type κ) → Ends o P → (a : A) × (o ≡ some a) × P a
Ends-some none P h = elim h [ ]
Ends-some (some a) P h = (a, refl, h)

pub Ends-map {ℓ κ μ} :
    {A : Type ℓ} (P : A → Type κ) (Q : A → Type μ) (o : Option A)
    → ((a : A) → P a → Q a)
    → Ends o P
    → Ends o Q
Ends-map P Q none f h = elim h [ ]
Ends-map P Q (some a) f h = f a h

-- A run in two parts: what the first one promises is what the second one needs.
pub Ends-bind {ℓ κ μ ν} :
    {A : Type ℓ} {B : Type κ} (P : A → Type μ) (Q : B → Type ν) (o : Option A) (f : A → Option B)
    → Ends o P
    → ((a : A) → P a → Ends (f a) Q)
    → Ends (o >>= f) Q
Ends-bind P Q none f h k = elim h [ ]
Ends-bind P Q (some a) f h k = k a h
