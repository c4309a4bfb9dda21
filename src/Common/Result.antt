-- ===== src/Common/Result.antt =====
-- What a call ends in: a value, an exception, `exit`, or behaviour that C++ leaves undefined.
use Prim.Native.Nat.{ℕ}
use mathlib.Core.Path.{◌≡◌, refl}
use mathlib.Core.Bool.{Bool, true, false}
use mathlib.Core.Logic.{◌⊎◌, inl, inr}

-- The messages of the exceptions that the program throws.
pub data Error : Type 0 where
  invalid_sector_reader : Error
  sector_reader_not_initialized : Error
  invalid_bytes_per_sector : Error
  failed_to_read_boot_sector : Error
  not_a_valid_volume : Error
  maximum_depth_exceeded : Error
  file_size_overflow : Error
  failed_to_create_output : Error
  unknown_drive_type : Error
  physical_not_implemented : Error
  unsupported_filesystem : Error
  drive_argument_missing : Error
  unknown_argument : Error
  stoi_out_of_range : Error
  failed_to_initialize_reader : Error
  administrator_required : Error
  failed_to_create_output_directory : Error
  failed_to_read_partition_table : Error
  failed_to_read_gpt_header : Error

-- `out_of_fuel` is a recursion of the model that did not end within its fuel.
pub data Failure : Type 0 where
  thrown : Error → Failure
  exited : ℕ → Failure
  out_of_bounds : Failure
  division_by_zero : Failure
  undefined_shift : Failure
  out_of_fuel : Failure

pub data Outcome {ℓ} (A : Type ℓ) : Type ℓ where
  ok : A → Outcome A
  err : Failure → Outcome A

-- `do` blocks: a call that does not return ends the sequence with its failure.
module _ {ℓ} {B : Type ℓ} where
  infixl 5 ◌>>=◌ ◌>>◌
  abbrev pub ◌>>=◌ {κ} : {A : Type κ} → Outcome A → (A → Outcome B) → Outcome B
  err failure >>= next = err failure
  ok value >>= next = next value

  abbrev pub ◌>>◌ : Outcome (Unit {0}) → Outcome B → Outcome B
  first >> second = first >>= λ nothing. second

-- A test of the code, and how the call ends where it fails.
abbrev pub require : Bool → Failure → Outcome (Unit {0})
require passed failure = elim passed [ false ↦ err failure | true ↦ ok tt ]

-- A predicate on what a call ends in: on its value, or on its failure.
abbrev pub Ends {ℓ κ} : {A : Type ℓ} → (A → Type κ) → (Failure → Type κ) → Outcome A → Type κ
Ends P F (ok a) = P a
Ends P F (err e) = F e

pub Ends-bind {ℓ κ μ} :
    {A : Type ℓ} {B : Type κ} (P : A → Type μ) (Q : B → Type μ) (F : Failure → Type μ)
    (m : Outcome A) (f : A → Outcome B)
    → Ends P F m
    → ((a : A) → P a → Ends Q F (f a))
    → Ends Q F (m >>= f)
Ends-bind P Q F (ok a) f h k = k a h
Ends-bind P Q F (err e) f h k = h

pub Ends-anyhow {ℓ} : {A : Type ℓ} (m : Outcome A) → Ends (λ _. Unit {0}) (λ _. Unit {0}) m
Ends-anyhow (ok a) = tt
Ends-anyhow (err e) = tt

-- What holds of the value of every call that returns.
pub Ends-ok {ℓ κ} :
    {A : Type ℓ} (P : A → Type κ) (m : Outcome A) {a : A} → Ends P (λ _. Unit) m → m ≡ ok a → P a
Ends-ok P m h e = rw (e, Ends) at h

-- The equation of a call that returns, for what stands behind it.
pub Ends-self :
    {A : Type 0} (F : Failure → Type 0) (m : Outcome A)
    → Ends (λ _. Unit {0}) F m
    → Ends (λ a. m ≡ ok a) F m
Ends-self F (ok a) h = refl
Ends-self F (err e) h = h

pub require-Ends :
    (F : Failure → Type 0) (b : Bool) (e : Failure) → F e → Ends (λ _. Unit {0}) F (require b e)
require-Ends F true e h = tt
require-Ends F false e h = h

-- A split on what a call ends in, with the equation.
pub Outcome-cases {ℓ} :
    {A : Type ℓ} (m : Outcome A) → ((e : Failure) × (m ≡ err e)) ⊎ ((a : A) × (m ≡ ok a))
Outcome-cases (ok a) = inr (a, refl)
Outcome-cases (err e) = inl (e, refl)
