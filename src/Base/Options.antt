-- ===== src/Base/Options.antt =====
-- Operations that can fail: an assertion or a panic of the source is `none`.
use mathlib.Core.Bool.{Bool, true, false}
use mathlib.Core.Option.{Option, none, some}

infixl 5 ◌>>=◌ ◌>>◌
abbrev pub ◌>>=◌ {ℓ κ} : {A : Type ℓ} {B : Type κ} → Option A → (A → Option B) → Option B
none >>= f = none
some a >>= f = f a

abbrev pub ◌>>◌ {κ} : {B : Type κ} → Option (Unit {0}) → Option B → Option B
m >> k = m >>= λ _. k

abbrev pub assert : Bool → Option (Unit {0})
assert true = some tt
assert false = none

-- The operation succeeds, and its result has the property.
abbrev pub Returns {ℓ} : {A : Type ℓ} → Option A → (A → Type 0) → Type 0
Returns none P = ⊥
Returns (some a) P = P a

abbrev pub map_some {ℓ κ} : {A : Type ℓ} {B : Type κ} → (A → B) → Option A → Option B
map_some f none = none
map_some f (some a) = some (f a)

pub Returns-weaken {ℓ} :
    {A : Type ℓ} (o : Option A) (P Q : A → Type 0)
    → Returns o P
    → ((a : A) → P a → Q a)
    → Returns o Q
Returns-weaken none P Q r k = absurd r
Returns-weaken (some a) P Q r k = k a r

-- If the operation succeeds, its result has the property.
abbrev pub IfSome {ℓ} : {A : Type ℓ} → Option A → (A → Type 0) → Type 0
IfSome none P = Unit
IfSome (some a) P = P a

pub IfSome-map {ℓ κ} :
    {A : Type ℓ} {B : Type κ} (f : A → B) (m : Option A) (P : A → Type 0) (Q : B → Type 0)
    → IfSome m P
    → ((a : A) → P a → Q (f a))
    → IfSome (map_some f m) Q
IfSome-map f none P Q h k = tt
IfSome-map f (some a) P Q h k = k a h
