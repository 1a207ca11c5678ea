-- ===== src/Prelude/Keeps.antt =====
-- Invariants of methods: a rule for each way in which a method is put together.
use mathlib.Core.Bool.{Bool, true, false}
use libsim.Prelude.Tests.{if◌then◌else◌}
use libsim.Prelude.Exec.{
  Errc, Outcome, ok, err, crash, Exec, pure, raise, abort, lift, gets, observe, must, ◌>>=◌,
  on_failure, branch, modify, when,
}

-- `m` keeps `P`, whether it returns, fails or throws.
pub record Keeps {ℓ κ μ} {S : Type ℓ} {A : Type κ} (P : S → Type μ) (m : Exec S A)
    : Type (ℓ ⊔ μ) where
  pub at : (s : S) → P s → P (m s).1

module _ {ℓ κ μ} {S : Type ℓ} {A : Type κ} {P : S → Type μ} where
  pub Keeps-pure : (a : A) → Keeps P (pure a)
  Keeps-pure a = record { at = λ state p. p }

  pub Keeps-raise : (code : Errc) → Keeps P (raise {A = A} code)
  Keeps-raise code = record { at = λ state p. p }

  pub Keeps-abort : Keeps P (abort {A = A})
  Keeps-abort = record { at = λ state p. p }

  pub Keeps-lift : (r : Outcome A) → Keeps P (lift r)
  Keeps-lift r = record { at = λ state p. p }

  pub Keeps-gets : (f : S → A) → Keeps P (gets f)
  Keeps-gets f = record { at = λ state p. p }

  pub Keeps-observe : (f : S → Outcome A) → Keeps P (observe f)
  Keeps-observe f = record { at = λ state p. p }

  pub Keeps-must : (m : Exec S A) → Keeps P m → Keeps P (must m)
  Keeps-must m k = record { at = λ s h. k.at s h }

  pub Keeps-if : (b : Bool) (m n : Exec S A) → Keeps P m → Keeps P n → Keeps P (if b then m else n)
  Keeps-if true m n km kn = km
  Keeps-if false m n km kn = kn

module _ {ℓ κ μ ν} {S : Type ℓ} {A : Type κ} {B : Type ν} {P : S → Type μ} where
  continue_keeps :
      (r : Outcome A) (f : A → Exec S B) (s : S)
      → ((a : A) → Keeps P (f a))
      → P s
      → P ((lift r >>= f) s).1
  continue_keeps (ok a) f s k h = (k a).at s h
  continue_keeps (err e) f s k h = h
  continue_keeps crash f s k h = h

  pub Keeps-bind :
      (m : Exec S A) (f : A → Exec S B) → Keeps P m → ((a : A) → Keeps P (f a)) → Keeps P (m >>= f)
  Keeps-bind m f km kf = record { at = λ s h. continue_keeps (m s).0 f (m s).1 kf (km.at s h) }

  branch_keeps :
      (r : Outcome A) (g : Errc → Exec S B) (f : A → Exec S B) (s : S)
      → ((e : Errc) → Keeps P (g e))
      → ((a : A) → Keeps P (f a))
      → P s
      → P (branch r g f s).1
  branch_keeps (ok a) g f s kg kf h = (kf a).at s h
  branch_keeps (err e) g f s kg kf h = (kg e).at s h
  branch_keeps crash g f s kg kf h = h

  pub Keeps-on_failure :
      (m : Exec S A) (g : Errc → Exec S B) (f : A → Exec S B)
      → Keeps P m
      → ((e : Errc) → Keeps P (g e))
      → ((a : A) → Keeps P (f a))
      → Keeps P (on_failure m g f)
  Keeps-on_failure m g f km kg kf = record {
    at = λ s h. branch_keeps (m s).0 g f (m s).1 kg kf (km.at s h);
  }

module _ {ℓ μ} {S : Type ℓ} {P : S → Type μ} where
  pub Keeps-modify : (f : S → S) → ((s : S) → P s → P (f s)) → Keeps P (modify f)
  Keeps-modify f k = record { at = k }

  pub Keeps-when : (b : Bool) (m : Exec S (Unit {0})) → Keeps P m → Keeps P (when b m)
  Keeps-when true m k = k
  Keeps-when false m k = record { at = λ state p. p }

pub ruleset keeps_rules = (
  Keeps-pure, Keeps-raise, Keeps-abort, Keeps-lift, Keeps-gets, Keeps-observe, Keeps-must, Keeps-if,
  Keeps-bind, Keeps-on_failure, Keeps-when,
)
