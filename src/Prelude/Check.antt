-- ===== src/Prelude/Check.antt =====
-- The CHECK macros: `none` stands for the exception that a failed one throws.
use mathlib.Core.Path.{◌≡◌, refl, ap, ◌∙◌}
use mathlib.Core.Bool.{Bool, true, false}
use mathlib.Core.Option.{Option, none, some}
use xgboost.Prelude.Tests.{if◌then◌else◌}

infixl 5 ◌>>=◌ ◌>>◌
abbrev pub ◌>>=◌ {ℓ κ} : {A : Type ℓ} {B : Type κ} → Option A → (A → Option B) → Option B
none >>= f = none
some a >>= f = f a

abbrev pub ◌>>◌ {ℓ} : {B : Type ℓ} → Option (Unit {0}) → Option B → Option B
m >> k = m >>= λ _. k

abbrev pub check : Bool → Option (Unit {0})
check true = some tt
check false = none

-- What holds of a result, where there is one.
abbrev pub Holds {ℓ} : {A : Type ℓ} → (A → Type 0) → Option A → Type 0
Holds P none = Unit
Holds P (some a) = P a

pub Holds->>= {ℓ κ} :
    {A : Type ℓ} {B : Type κ} (P : A → Type 0) (Q : B → Type 0) (o : Option A) (f : A → Option B)
    → Holds P o
    → ((a : A) → P a → Holds Q (f a))
    → Holds Q (o >>= f)
Holds->>= P Q none f h k = tt
Holds->>= P Q (some a) f h k = k a h

pub Holds-elim {ℓ} :
    {A : Type ℓ} (P : A → Type 0) (b : Bool) (x y : Option A)
    → (b ≡ true → Holds P x)
    → (b ≡ false → Holds P y)
    → Holds P (elim b [ true ↦ x | false ↦ y ])
Holds-elim P true x y hx hy = hx refl
Holds-elim P false x y hx hy = hy refl

pub Holds-if {ℓ} :
    {A : Type ℓ} (P : A → Type 0) (b : Bool) (x y : Option A)
    → (b ≡ true → Holds P x)
    → (b ≡ false → Holds P y)
    → Holds P (if b then x else y)
Holds-if P true x y hx hy = hx refl
Holds-if P false x y hx hy = hy refl

pub weaken-Holds {ℓ} :
    {A : Type ℓ} (P Q : A → Type 0) (o : Option A) → ((a : A) → P a → Q a) → Holds P o → Holds Q o
weaken-Holds P Q none k h = tt
weaken-Holds P Q (some a) k h = k a h

-- Two computations agree where their parts do.
pub bind_congr {ℓ κ} :
    {A : Type ℓ} {B : Type κ} (P : A → Type 0) (o o' : Option A) (f g : A → Option B)
    → o ≡ o'
    → Holds P o
    → ((a : A) → P a → f a ≡ g a)
    → (o >>= f) ≡ (o' >>= g)
bind_congr P none o' f g e h k = ap (λ m. m >>= g) e
bind_congr P (some a) o' f g e h k = k a h ∙ ap (λ m. m >>= g) e

pub elim_congr {ℓ} :
    {A : Type ℓ} (b : Bool) (x y x' y' : A)
    → (b ≡ true → x ≡ x')
    → (b ≡ false → y ≡ y')
    → (elim b [ true ↦ x | false ↦ y ]) ≡ (elim b [ true ↦ x' | false ↦ y' ])
elim_congr true x y x' y' hx hy = hx refl
elim_congr false x y x' y' hx hy = hy refl

pub if_congr {ℓ} :
    {A : Type ℓ} (b : Bool) (x y x' y' : A)
    → (b ≡ true → x ≡ x')
    → (b ≡ false → y ≡ y')
    → (if b then x else y) ≡ (if b then x' else y')
if_congr true x y x' y' hx hy = hx refl
if_congr false x y x' y' hx hy = hy refl
