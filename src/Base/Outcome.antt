-- ===== src/Base/Outcome.antt =====
-- Results of code that can stop the process: a null pointer followed, a failed assert, a read past a
-- buffer; and of a loop on fuel, which may run out of it.
use mathlib.Core.Path.{◌≡◌, refl}
use mathlib.Core.Logic.{◌⊎◌, inl, inr}
use mathlib.Core.Bool.{Bool, true, false}
use mathlib.Core.Option.{Option, none, some}
use ospf_lite.Base.Tests.{if◌then◌else◌}

pub data Fault : Type 0 where
  null_pointer out_of_bounds failed_assert out_of_fuel : Fault

pub data Outcome {ℓ} (A : Type ℓ) : Type ℓ where
  done : A → Outcome A
  crash : Fault → Outcome A

infixl 5 ◌>>=◌
abbrev pub ◌>>=◌ {ℓ κ} : {A : Type ℓ} {B : Type κ} → Outcome A → (A → Outcome B) → Outcome B
done a >>= f = f a
crash e >>= f = crash e

pub Outcome-cases {ℓ} :
    {A : Type ℓ} (o : Outcome A) → ((a : A) × (o ≡ done a)) ⊎ ((e : Fault) × (o ≡ crash e))
Outcome-cases (done a) = inl (a, refl)
Outcome-cases (crash e) = inr (e, refl)

-- `P` holds of the value, if there is one.
abbrev pub Ensures {ℓ κ} : {A : Type ℓ} → (A → Type κ) → Outcome A → Type κ
Ensures P (done a) = P a
Ensures P (crash e) = Unit

pub Ensures-bind {ℓ κ ι ν} :
    {A : Type ℓ} {B : Type κ} (P : A → Type ι) (Q : B → Type ν) (o : Outcome A) (f : A → Outcome B)
    → Ensures P o
    → ((a : A) → P a → Ensures Q (f a))
    → Ensures Q (o >>= f)
Ensures-bind P Q (done a) f h k = k a h
Ensures-bind P Q (crash e) f h k = tt

pub Ensures-any {ℓ} : {A : Type ℓ} (o : Outcome A) → Ensures {ℓ, 0} (λ a. Unit) o
Ensures-any (done a) = tt
Ensures-any (crash e) = tt

pub Ensures-imp {ℓ κ ι} :
    {A : Type ℓ} (P : A → Type κ) (Q : A → Type ι) (o : Outcome A)
    → ((a : A) → P a → Q a)
    → Ensures P o
    → Ensures Q o
Ensures-imp P Q (done a) h p = h a p
Ensures-imp P Q (crash e) h p = tt

pub Ensures-eq-done {ℓ κ} :
    {A : Type ℓ} (P : A → Type κ) (o : Outcome A) {a : A} → Ensures P o → o ≡ done a → P a
Ensures-eq-done P o h e = rw e at h

-- To show what an outcome ensures, take its value for granted.
pub Ensures-intro {ℓ κ} :
    {A : Type ℓ} (P : A → Type κ) (o : Outcome A) → ((a : A) → o ≡ done a → P a) → Ensures P o
Ensures-intro P (done a) h = h a refl
Ensures-intro P (crash e) h = tt

pub if-holds {ℓ κ} :
    {A : Type ℓ} (P : A → Type κ) (b : Bool) {x y : A} → P x → P y → P (if b then x else y)
if-holds P true p q = p
if-holds P false p q = q

-- A hypothesis on the branch that is taken.
pub Ensures-if {ℓ κ} :
    {A : Type ℓ} (P : A → Type κ) (b : Bool) (x y : Outcome A)
    → (b ≡ true → Ensures P x)
    → (b ≡ false → Ensures P y)
    → Ensures P (if b then x else y)
Ensures-if P true x y p q = p refl
Ensures-if P false x y p q = q refl

-- What is read must lie within the buffer.
abbrev pub demand {ℓ κ} : {A : Type ℓ} {B : Type κ} → Option A → (A → Outcome B) → Outcome B
demand none f = crash out_of_bounds
demand (some a) f = f a

pub Ensures-demand {ℓ κ ι} :
    {A : Type ℓ} {B : Type κ} (P : B → Type ι) (o : Option A) (f : A → Outcome B)
    → ((a : A) → o ≡ some a → Ensures P (f a))
    → Ensures P (demand o f)
Ensures-demand P none f h = tt
Ensures-demand P (some a) f h = h a refl
