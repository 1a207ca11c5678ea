-- ===== src/Prelude/Exec.antt =====
-- Results and state: `result<T>` of the source, C++ exceptions, and methods that change an object.
use mathlib.Core.Bool.{Bool, true, false}

-- src/libisa/components/storage/storage_error.hpp, components/machine/processor_error.hpp and
-- components/machine/machine_error.hpp, without their `Success`.
pub data StorageErrc : Type 0 where
  no_mm_input resize_error unwritable no_available_delta delta_disabled oob_read oob_write
        illegal_write illegal_insert resize_too_small no_such_device :
      StorageErrc

pub data ProcessorErrc : Type 0 where
  illegal_unary_instruction illegal_nonunary_instruction illegal_addressing_mode : ProcessorErrc

pub data MachineErrc : Type 0 where
  no_such_device : MachineErrc

pub data Errc : Type 0 where
  storage : StorageErrc → Errc
  processor : ProcessorErrc → Errc
  machine : MachineErrc → Errc

-- `crash` is a C++ exception, which no code here catches, or undefined behaviour.
pub data Outcome {ℓ} (A : Type ℓ) : Type ℓ where
  ok : A → Outcome A
  err : Errc → Outcome A
  crash : Outcome A

-- `.value()` on a result throws if it holds an error.
abbrev pub value {ℓ} : {A : Type ℓ} → Outcome A → Outcome A
value (ok a) = ok a
value (err e) = crash
value crash = crash

-- A method changes its object and may fail. What was written before a failure stays written.
abbrev pub Exec {ℓ κ} : Type ℓ → Type κ → Type (ℓ ⊔ κ)
Exec S A = S → Outcome A × S

module _ {ℓ κ} {S : Type ℓ} {A : Type κ} where
  abbrev pub pure : A → Exec S A
  pure a s = (ok a, s)

  abbrev pub raise : Errc → Exec S A
  raise e s = (err e, s)

  abbrev pub abort : Exec S A
  abort s = (crash, s)

  abbrev pub lift : Outcome A → Exec S A
  lift r s = (r, s)

  abbrev pub gets : (S → A) → Exec S A
  gets f s = (ok (f s), s)

  -- A method that changes nothing.
  abbrev pub observe : (S → Outcome A) → Exec S A
  observe f s = (f s, s)

  -- `m().value()`
  abbrev pub must : Exec S A → Exec S A
  must m s = let (r, s') = m s in (value r, s')

module _ {ℓ κ μ} {S : Type ℓ} {A : Type κ} {B : Type μ} where
  abbrev pub continue : Outcome A → (A → Exec S B) → Exec S B
  continue (ok a) f s = f a s
  continue (err e) f s = (err e, s)
  continue crash f s = (crash, s)

  infixl 5 ◌>>=◌ ◌>>◌
  abbrev pub ◌>>=◌ : Exec S A → (A → Exec S B) → Exec S B
  ◌>>=◌ m f s = let (r, s') = m s in continue r f s'

  abbrev pub ◌>>◌ : Exec S A → Exec S B → Exec S B
  m >> n = m >>= λ _. n

  -- `if(r.has_failure()) return handler(r);`, before the code goes on with the value.
  abbrev pub branch : Outcome A → (Errc → Exec S B) → (A → Exec S B) → Exec S B
  branch (ok a) g f s = f a s
  branch (err e) g f s = g e s
  branch crash g f s = (crash, s)

  abbrev pub on_failure : Exec S A → (Errc → Exec S B) → (A → Exec S B) → Exec S B
  on_failure m g f s = let (r, s') = m s in branch r g f s'

abbrev pub modify {ℓ} : {S : Type ℓ} → (S → S) → Exec S (Unit {0})
modify f s = (ok tt, f s)

abbrev pub when {ℓ} : {S : Type ℓ} → Bool → Exec S (Unit {0}) → Exec S (Unit {0})
when true m = m
when false m = pure tt

-- A method of a part, as a method of the whole.
abbrev pub zoom {ℓ κ μ} :
    {S : Type ℓ} {T : Type κ} {A : Type μ} (get : S → T) (put : T → S → S) → Exec T A → Exec S A
zoom get put m s = let (r, t) = m (get s) in (r, put t s)
