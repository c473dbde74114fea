-- ===== src/Prelude/Running.antt =====
-- What running a piece of the program gives: a value, undefined behaviour (an access outside an
-- object or through a null pointer), an exception that nothing catches, or a loop that has used up
-- the rounds it was given.
use mathlib.Core.Path.{◌≡◌, refl}
use mathlib.Core.Option.{Option, none, some}
use mathlib.Core.Bool.{Bool, true, false}
use liburing_server.Prelude.Tests.{if◌then◌else◌}

pub data Outcome {ℓ} (A : Type ℓ) : Type ℓ where
  ok : A → Outcome A
  undefined : Outcome A
  thrown : Outcome A
  stuck : Outcome A

infixl 5 ◌>>=◌
abbrev pub ◌>>=◌ {ℓ κ} : {A : Type ℓ} {B : Type κ} → Outcome A → (A → Outcome B) → Outcome B
ok a >>= f = f a
undefined >>= f = undefined
thrown >>= f = thrown
stuck >>= f = stuck

-- An access through an index or a pointer: outside the object it is undefined.
abbrev pub access {ℓ} : {A : Type ℓ} → Option A → Outcome A
access none = undefined
access (some a) = ok a

-- A chain that returns has returned at its first step, and after it.
pub ran_first {ℓ κ} :
    {A : Type ℓ} {B : Type κ} {b : B} (first : Outcome A) (next : A → Outcome B)
    → ok b ≡ (first >>= next)
    → (a : A) × (ok b ≡ next a) × (first ≡ ok a)
ran_first (ok a) next e = (a, e, refl)
ran_first undefined next e = cc
ran_first thrown next e = cc
ran_first stuck next e = cc

pub ok-injective {ℓ} : {A : Type ℓ} {a b : A} → ok a ≡ ok b → a ≡ b
ok-injective e = cc

pub undefined_ne_ok {ℓ} : {A : Type ℓ} {a : A} → undefined ≡ ok a → ⊥
undefined_ne_ok e = cc

-- The code returns, and what it returns satisfies `P`.
abbrev pub Returns {ℓ} : {A : Type ℓ} → (A → Type 0) → Outcome A → Type 0
Returns P (ok a) = P a
Returns P undefined = ⊥
Returns P thrown = ⊥
Returns P stuck = ⊥

pub Returns-bind {ℓ κ} :
    {A : Type ℓ} {B : Type κ} (P : A → Type 0) (Q : B → Type 0) (m : Outcome A) (f : A → Outcome B)
    → Returns P m
    → ((a : A) → P a → Returns Q (f a))
    → Returns Q (m >>= f)
Returns-bind P Q (ok a) f h k = k a h
Returns-bind P Q undefined f h k = absurd h
Returns-bind P Q thrown f h k = absurd h
Returns-bind P Q stuck f h k = absurd h

pub Returns-mono {ℓ} :
    {A : Type ℓ} (P Q : A → Type 0) (m : Outcome A)
    → ((a : A) → P a → Q a)
    → Returns P m
    → Returns Q m
Returns-mono P Q (ok a) k h = k a h
Returns-mono P Q undefined k h = absurd h
Returns-mono P Q thrown k h = absurd h
Returns-mono P Q stuck k h = absurd h

-- The code comes to an end: if it returns, what it returns satisfies `P`, and no loop of it uses up
-- the rounds that it was given.
abbrev pub Finishes {ℓ} : {A : Type ℓ} → (A → Type 0) → Outcome A → Type 0
Finishes P (ok a) = P a
Finishes P undefined = Unit
Finishes P thrown = Unit
Finishes P stuck = ⊥

pub Finishes-bind {ℓ κ} :
    {A : Type ℓ} {B : Type κ} (P : A → Type 0) (Q : B → Type 0) (m : Outcome A) (f : A → Outcome B)
    → Finishes P m
    → ((a : A) → P a → Finishes Q (f a))
    → Finishes Q (m >>= f)
Finishes-bind P Q (ok a) f h k = k a h
Finishes-bind P Q undefined f h k = h
Finishes-bind P Q thrown f h k = h
Finishes-bind P Q stuck f h k = absurd h

pub Finishes-access :
    {A B : Type 0} (Q : B → Type 0) (o : Option A) (f : A → Outcome B)
    → ((a : A) → o ≡ some a → Finishes Q (f a))
    → Finishes Q (access o >>= f)
Finishes-access Q none f k = tt
Finishes-access Q (some a) f k = k a refl

-- If the code returns, what it returns satisfies `P`.
abbrev pub IfOk {ℓ} : {A : Type ℓ} → (A → Type 0) → Outcome A → Type 0
IfOk P (ok a) = P a
IfOk P undefined = Unit
IfOk P thrown = Unit
IfOk P stuck = Unit

pub IfOk-bind {ℓ κ} :
    {A : Type ℓ} {B : Type κ} (P : A → Type 0) (Q : B → Type 0) (m : Outcome A) (f : A → Outcome B)
    → IfOk P m
    → ((a : A) → P a → IfOk Q (f a))
    → IfOk Q (m >>= f)
IfOk-bind P Q (ok a) f h k = k a h
IfOk-bind P Q undefined f h k = tt
IfOk-bind P Q thrown f h k = tt
IfOk-bind P Q stuck f h k = tt

pub IfOk-access :
    {A B : Type 0} (Q : B → Type 0) (o : Option A) (f : A → Outcome B)
    → ((a : A) → o ≡ some a → IfOk Q (f a))
    → IfOk Q (access o >>= f)
IfOk-access Q none f k = tt
IfOk-access Q (some a) f k = k a refl

pub Finishes-IfOk {ℓ} : {A : Type ℓ} (P : A → Type 0) (m : Outcome A) → Finishes P m → IfOk P m
Finishes-IfOk P (ok a) h = h
Finishes-IfOk P undefined h = tt
Finishes-IfOk P thrown h = tt
Finishes-IfOk P stuck h = tt

pub Finishes-both {ℓ} :
    {A : Type ℓ} (P Q : A → Type 0) (m : Outcome A) → IfOk P m → Finishes Q m → Finishes P m
Finishes-both P Q (ok a) h g = h
Finishes-both P Q undefined h g = tt
Finishes-both P Q thrown h g = tt
Finishes-both P Q stuck h g = g

-- The same with a choice: where `b` is true the code comes to an end.
abbrev pub Ends {ℓ} : {A : Type ℓ} → Bool → (A → Type 0) → Outcome A → Type 0
Ends b P (ok a) = P a
Ends b P undefined = Unit
Ends b P thrown = Unit
Ends b P stuck = if b then ⊥ else Unit

pub Ends-bind {ℓ κ} :
    {A : Type ℓ} {B : Type κ} (b : Bool) (P : A → Type 0) (Q : B → Type 0) (m : Outcome A)
    (f : A → Outcome B)
    → Ends b P m
    → ((a : A) → P a → Ends b Q (f a))
    → Ends b Q (m >>= f)
Ends-bind b P Q (ok a) f h k = k a h
Ends-bind b P Q undefined f h k = h
Ends-bind b P Q thrown f h k = h
Ends-bind b P Q stuck f h k = h

pub Ends-access :
    {A B : Type 0} (b : Bool) (Q : B → Type 0) (o : Option A) (f : A → Outcome B)
    → ((a : A) → o ≡ some a → Ends b Q (f a))
    → Ends b Q (access o >>= f)
Ends-access b Q none f k = tt
Ends-access b Q (some a) f k = k a refl

pub Returns-Ends {ℓ} :
    {A : Type ℓ} (b : Bool) (P : A → Type 0) (m : Outcome A) → Returns P m → Ends b P m
Returns-Ends b P (ok a) h = h
Returns-Ends b P undefined h = absurd h
Returns-Ends b P thrown h = absurd h
Returns-Ends b P stuck h = absurd h

pub Ends-Finishes {ℓ} : {A : Type ℓ} (P : A → Type 0) (m : Outcome A) → Ends true P m → Finishes P m
Ends-Finishes P (ok a) h = h
Ends-Finishes P undefined h = tt
Ends-Finishes P thrown h = tt
Ends-Finishes P stuck h = h

pub Ends-IfOk {ℓ} : {A : Type ℓ} (P : A → Type 0) (m : Outcome A) → Ends false P m → IfOk P m
Ends-IfOk P (ok a) h = h
Ends-IfOk P undefined h = tt
Ends-IfOk P thrown h = tt
Ends-IfOk P stuck h = tt

-- A step whose value does not matter.
pub Ends-any {ℓ κ} :
    {A : Type ℓ} {B : Type κ} (Q : B → Type 0) (m : Outcome A) (f : A → Outcome B)
    → ((a : A) → Ends false Q (f a))
    → Ends false Q (m >>= f)
Ends-any Q (ok a) f k = k a
Ends-any Q undefined f k = tt
Ends-any Q thrown f k = tt
Ends-any Q stuck f k = tt
