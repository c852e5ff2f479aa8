-- ===== src/Common/Outcome.antt =====
-- What a call of code that reads memory and loops can end in.
use mathlib.Core.Option.{Option, none, some}
use mathlib.Core.Bool.{Bool, true, false}
use mathlib.Core.Path.{◌≡◌, refl}
use pppcpd.Common.Tests.{if◌then◌else◌}

-- `fault` is a read past the end of a vector of bytes; `stuck` says that a loop used up its fuel.
pub data Outcome {ℓ} (A : Type ℓ) : Type ℓ where
  ok : A → Outcome A
  fault : Outcome A
  stuck : Outcome A

infixl 5 ◌>>=◌
abbrev pub ◌>>=◌ {ℓ ℓ'} :
    {X : Type ℓ} {Y : Type ℓ'} (run : Outcome X) (rest : X → Outcome Y) → Outcome Y
stuck >>= rest = stuck
fault >>= rest = fault
ok x >>= rest = rest x

-- A read that finds nothing is out of bounds.
abbrev pub from_option {ℓ} : {A : Type ℓ} → Option A → Outcome A
from_option none = fault
from_option (some a) = ok a

-- What holds of the value, where there is one.
abbrev pub Holds {ℓ κ} : {A : Type ℓ} → (A → Type κ) → Outcome A → Type κ
Holds P (ok a) = P a
Holds P fault = Unit
Holds P stuck = Unit

pub Holds-bind {ℓ ℓ' κ κ'} :
    {A : Type ℓ} {B : Type ℓ'} {P : A → Type κ} (Q : B → Type κ') (m : Outcome A)
    (f : A → Outcome B)
    → Holds P m
    → ((a : A) → P a → Holds Q (f a))
    → Holds Q (m >>= f)
Holds-bind Q (ok a) f p g = g a p
Holds-bind Q fault f p g = tt
Holds-bind Q stuck f p g = tt

pub Holds-any {ℓ ℓ' κ'} :
    {A : Type ℓ} {B : Type ℓ'} (Q : B → Type κ') (m : Outcome A) (f : A → Outcome B)
    → ((a : A) → Holds Q (f a))
    → Holds Q (m >>= f)
Holds-any Q (ok a) f g = g a
Holds-any Q fault f g = tt
Holds-any Q stuck f g = tt

pub Holds-map {ℓ κ κ'} :
    {A : Type ℓ} (P : A → Type κ) (Q : A → Type κ') (m : Outcome A)
    → ((a : A) → P a → Q a)
    → Holds P m
    → Holds Q m
Holds-map P Q (ok a) f p = f a p
Holds-map P Q fault f p = tt
Holds-map P Q stuck f p = tt

pub Holds-if {ℓ κ} :
    {A : Type ℓ} (Q : A → Type κ) (b : Bool) (m n : Outcome A)
    → Holds Q m
    → Holds Q n
    → Holds Q (if b then m else n)
Holds-if Q true m n p q = p
Holds-if Q false m n p q = q

pub Holds-both {ℓ κ κ'} :
    {A : Type ℓ} (P : A → Type κ) (Q : A → Type κ') (m : Outcome A)
    → Holds P m
    → Holds Q m
    → Holds (λ a. P a × Q a) m
Holds-both P Q (ok a) p q = (p, q)
Holds-both P Q fault p q = tt
Holds-both P Q stuck p q = tt

-- The rest of a chain, with what its first call gave.
pub Holds-known {ℓ ℓ' κ'} :
    {A : Type ℓ} {B : Type ℓ'} (Q : B → Type κ') (m : Outcome A) (f : A → Outcome B)
    → ((a : A) → m ≡ ok a → Holds Q (f a))
    → Holds Q (m >>= f)
Holds-known Q (ok a) f g = g a refl
Holds-known Q fault f g = tt
Holds-known Q stuck f g = tt

-- That a call gives a value.
abbrev pub Ends {ℓ} : {A : Type ℓ} → Outcome A → Type ℓ
Ends {A} o = (a : A) × (o ≡ ok a)

pub Ends-bind {ℓ ℓ'} :
    {A : Type ℓ} {B : Type ℓ'} (m : Outcome A) (f : A → Outcome B)
    → Ends m
    → ((a : A) → Ends (f a))
    → Ends (m >>= f)
Ends-bind m f (a, e) g = rw e (g a)

pub Ends-if {ℓ} :
    {A : Type ℓ} (b : Bool) (m n : Outcome A) → Ends m → Ends n → Ends (if b then m else n)
Ends-if true m n p q = p
Ends-if false m n p q = q

pub Holds-Ends {ℓ κ} :
    {A : Type ℓ} (Q : A → Type κ) (m : Outcome A) → Ends m → Holds Q m → (a : A) × (m ≡ ok a) × Q a
Holds-Ends Q m (a, e) h = (a, e, rw e at h)
