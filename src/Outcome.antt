-- ===== src/Outcome.antt =====
-- exception.hpp, and how a call can end: by a return, by an exception, by waiting for a lock, by
-- `abort`, or by undefined behaviour.
use Prim.Native.String.{String}
use neo_sycl.Prelude.{◌≡◌, refl, Option, none, some, Bool, true, false}

-- The exception classes that the modelled code throws, each with its message. (`unimplemented`
-- has a message of its own; `out_of_range` is that of the standard library.)
pub data Exception : Type 0 where
  exception runtime_error invalid_object_error feature_not_supported : String → Exception
  unimplemented out_of_range : Exception

pub data Outcome {ℓ} (A : Type ℓ) : Type ℓ where
  done : A → Outcome A
  throws : Exception → Outcome A
  blocks aborts undefined : Outcome A

infixl 5 ◌>>=◌ ◌>>◌
abbrev pub ◌>>=◌ {ℓ κ} : {A : Type ℓ} {B : Type κ} → Outcome A → (A → Outcome B) → Outcome B
done a >>= f = f a
throws e >>= f = throws e
blocks >>= f = blocks
aborts >>= f = aborts
undefined >>= f = undefined

abbrev pub ◌>>◌ {ℓ} : {B : Type ℓ} → Outcome (Unit {0}) → Outcome B → Outcome B
m >> k = m >>= λ _. k

abbrev pub or_undefined {ℓ} : {A : Type ℓ} → Option A → Outcome A
or_undefined none = undefined
or_undefined (some a) = done a

abbrev pub guard : Bool → Outcome (Unit {0})
guard true = done tt
guard false = undefined

pub >>=_assoc {ℓ κ μ} :
    {A : Type ℓ} {B : Type κ} {C : Type μ} (m : Outcome A) (f : A → Outcome B) (g : B → Outcome C)
    → ((m >>= f) >>= g) ≡ (m >>= λ a. f a >>= g)
>>=_assoc (done a) f g = refl
>>=_assoc (throws e) f g = refl
>>=_assoc blocks f g = refl
>>=_assoc aborts f g = refl
>>=_assoc undefined f g = refl

pub >>=_congr {ℓ κ} :
    {A : Type ℓ} {B : Type κ} (m : Outcome A) (f g : A → Outcome B)
    → ((a : A) → f a ≡ g a)
    → (m >>= f) ≡ (m >>= g)
>>=_congr (done a) f g h = h a
>>=_congr (throws e) f g h = refl
>>=_congr blocks f g h = refl
>>=_congr aborts f g h = refl
>>=_congr undefined f g h = refl

-- Inversion of a completed chain.
pub >>=-eq-done {ℓ κ} :
    {A : Type ℓ} {B : Type κ} (m : Outcome A) (f : A → Outcome B) {b : B}
    → (m >>= f) ≡ done b
    → (a : A) × (m ≡ done a) × (f a ≡ done b)
>>=-eq-done (done a) f h = (a, refl, h)
>>=-eq-done (throws e) f h = cc
>>=-eq-done blocks f h = cc
>>=-eq-done aborts f h = cc
>>=-eq-done undefined f h = cc

pub done-injective {ℓ} : {A : Type ℓ} {a b : A} → done a ≡ done b → a ≡ b
done-injective e = cc

pub or_undefined-eq-done {ℓ} :
    {A : Type ℓ} (o : Option A) {a : A} → or_undefined o ≡ done a → o ≡ some a
or_undefined-eq-done none e = cc
or_undefined-eq-done (some b) e = cc
