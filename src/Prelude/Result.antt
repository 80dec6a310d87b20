-- ===== src/Prelude/Result.antt =====
-- What a C++ operation gives: a value, or the fault that ends or undefines the program.
use mathlib.Core.Path.{◌≡◌, refl}
use mathlib.Core.Bool.{Bool, true, false}
use mathlib.Core.Logic.{◌⊎◌, inl, inr}
use mathlib.Core.Option.{Option, none, some}

-- A failed `assert`, an access outside a vector, a call through an empty pointer.
pub data Fault : Type 0 where
  assertion_failed out_of_range null_pointer : Fault

pub data Result {ℓ} (A : Type ℓ) : Type ℓ where
  fault : Fault → Result A
  ok : A → Result A

infixl 5 ◌>>◌
abbrev pub ◌>>◌ {κ} : {B : Type κ} → Result (Unit {0}) → Result B → Result B
fault e >> rest = fault e
ok done >> rest = rest

infixl 5 ◌>>=◌
abbrev pub ◌>>=◌ {κ ℓ} : {B : Type κ} {A : Type ℓ} → Result A → (A → Result B) → Result B
fault e >>= next = fault e
ok a >>= next = next a

-- `assert(b)`
abbrev pub check : Bool → Result (Unit {0})
check true = ok tt
check false = fault assertion_failed

abbrev pub or_fault {ℓ} : {A : Type ℓ} → Fault → Option A → Result A
or_fault e none = fault e
or_fault e (some a) = ok a

-- A bind that gives a value has run both of its parts.
pub >>=-eq-ok {κ ℓ} :
    {B : Type κ} {A : Type ℓ} (first : Result A) (next : A → Result B) {b : B}
    → (first >>= next) ≡ ok b
    → (a : A) × (first ≡ ok a) × (next a ≡ ok b)
>>=-eq-ok (fault e) next h = cc
>>=-eq-ok (ok a) next h = (a, refl, h)

abbrev pub IsOk {ℓ} : {A : Type ℓ} → Result A → Type 0
IsOk (ok a) = Unit
IsOk (fault e) = ⊥

pub IsOk-value {ℓ} : {A : Type ℓ} (r : Result A) → IsOk r → (a : A) × (r ≡ ok a)
IsOk-value (ok a) h = (a, refl)
IsOk-value (fault e) h = elim h [ ]

pub Result-cases {ℓ} :
    {A : Type ℓ} (r : Result A) → ((e : Fault) × (r ≡ fault e)) ⊎ ((a : A) × (r ≡ ok a))
Result-cases (fault e) = inl (e, refl)
Result-cases (ok a) = inr (a, refl)
