-- ===== src/Base/Outcome.antt =====
-- What a parser over a byte slice can do: return, give `None` up with `?`, or panic at an index
-- out of range. A loop that runs out of fuel is a fault too.
use Prim.Native.Nat.{ℕ, ◌<◌}
use mathlib.Core.Path.{◌≡◌, refl}
use mathlib.Core.Bool.{Bool, true, false}
use mathlib.Core.Option.{Option, none, some}
use mathlib.Core.List.{List}
use big_net_screen.Base.Lists.{length, get_elem?, get_or, get_elem?-eq-get_or}
use big_net_screen.Base.Tests.{if◌then◌else◌}

pub data Outcome {ℓ} (A : Type ℓ) : Type ℓ where
  ok : A → Outcome A
  invalid : Outcome A
  fault : Outcome A

infixl 5 ◌>>=◌ ◌>>◌
abbrev pub ◌>>=◌ {ℓ κ} : {A : Type ℓ} {B : Type κ} → Outcome A → (A → Outcome B) → Outcome B
ok a >>= f = f a
invalid >>= f = invalid
fault >>= f = fault

abbrev pub ◌>>◌ {ℓ} : {B : Type ℓ} → Outcome (Unit {0}) → Outcome B → Outcome B
m >> k = m >>= λ _. k

-- `if test { return None; }`
abbrev pub reject_if : Bool → Outcome (Unit {0})
reject_if true = invalid
reject_if false = ok tt

-- `option?`
abbrev pub try {ℓ} : {A : Type ℓ} → Option A → Outcome A
try none = invalid
try (some a) = ok a

-- An index or a slice that panics out of range.
abbrev pub must {ℓ} : {A : Type ℓ} → Option A → Outcome A
must none = fault
must (some a) = ok a

-- The outcome is no fault, and what it returns has the property.
abbrev pub Safe {ℓ} : {A : Type ℓ} → (A → Type 0) → Outcome A → Type 0
Safe P (ok a) = P a
Safe P invalid = Unit
Safe P fault = ⊥

-- The outcome is a returned value that has the property.
abbrev pub Returns {ℓ} : {A : Type ℓ} → (A → Type 0) → Outcome A → Type 0
Returns P (ok a) = P a
Returns P invalid = ⊥
Returns P fault = ⊥

pub bind-Safe {ℓ κ} :
    {A : Type ℓ} {B : Type κ} (P : A → Type 0) (Q : B → Type 0) (m : Outcome A) (f : A → Outcome B)
    → Safe P m
    → ((a : A) → P a → Safe Q (f a))
    → Safe Q (m >>= f)
bind-Safe P Q (ok a) f h k = k a h
bind-Safe P Q invalid f h k = tt
bind-Safe P Q fault f h k = h

pub bind-Returns {ℓ κ} :
    {A : Type ℓ} {B : Type κ} (P : A → Type 0) (Q : B → Type 0) (m : Outcome A) (f : A → Outcome B)
    → Returns P m
    → ((a : A) → P a → Returns Q (f a))
    → Returns Q (m >>= f)
bind-Returns P Q (ok a) f h k = k a h
bind-Returns P Q invalid f h k = absurd h
bind-Returns P Q fault f h k = absurd h

pub Returns-ok {ℓ} :
    {A : Type ℓ} (P : A → Type 0) (m : Outcome A) → Returns P m → (a : A) × (m ≡ ok a) × P a
Returns-ok P (ok a) h = (a, refl, h)
Returns-ok P invalid h = absurd h
Returns-ok P fault h = absurd h

pub elim-Safe {ℓ} :
    {A : Type ℓ} (P : A → Type 0) (b : Bool) (m n : Outcome A)
    → (b ≡ true → Safe P m)
    → (b ≡ false → Safe P n)
    → Safe P (elim b [ false ↦ n | true ↦ m ])
elim-Safe P true m n h k = h refl
elim-Safe P false m n h k = k refl

pub if-Safe {ℓ} :
    {A : Type ℓ} (P : A → Type 0) (b : Bool) (m n : Outcome A)
    → (b ≡ true → Safe P m)
    → (b ≡ false → Safe P n)
    → Safe P (if b then m else n)
if-Safe P true m n h k = h refl
if-Safe P false m n h k = k refl

pub reject_if-Safe : (b : Bool) → Safe (λ _. b ≡ false) (reject_if b)
reject_if-Safe true = tt
reject_if-Safe false = refl

-- An element in range is there.
pub must_element :
    (xs : List ℕ) (i : ℕ) → i < length xs → Safe (λ x. x ≡ get_or xs i 0) (must (get_elem? xs i))
must_element xs i h = rw (get_elem?-eq-get_or xs i 0 h)

pub map-Safe {ℓ} :
    {A : Type ℓ} (P Q : A → Type 0) (m : Outcome A) → ((a : A) → P a → Q a) → Safe P m → Safe Q m
map-Safe P Q (ok a) f h = f a h
map-Safe P Q invalid f h = tt
map-Safe P Q fault f h = h

pub if-Returns {ℓ} :
    {A : Type ℓ} (P : A → Type 0) (b : Bool) (m n : Outcome A)
    → (b ≡ true → Returns P m)
    → (b ≡ false → Returns P n)
    → Returns P (if b then m else n)
if-Returns P true m n h k = h refl
if-Returns P false m n h k = k refl

pub elim-Returns {ℓ} :
    {A : Type ℓ} (P : A → Type 0) (b : Bool) (m n : Outcome A)
    → (b ≡ true → Returns P m)
    → (b ≡ false → Returns P n)
    → Returns P (elim b [ false ↦ n | true ↦ m ])
elim-Returns P true m n h k = h refl
elim-Returns P false m n h k = k refl

pub map-Returns {ℓ} :
    {A : Type ℓ} (P Q : A → Type 0) (m : Outcome A)
    → ((a : A) → P a → Q a)
    → Returns P m
    → Returns Q m
map-Returns P Q (ok a) f h = f a h
map-Returns P Q invalid f h = absurd h
map-Returns P Q fault f h = absurd h

pub must_byte :
    (xs : List ℕ) (i : ℕ) → i < length xs → Returns (λ x. x ≡ get_or xs i 0) (must (get_elem? xs i))
must_byte xs i h = rw (get_elem?-eq-get_or xs i 0 h)
