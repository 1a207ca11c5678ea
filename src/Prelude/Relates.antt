-- ===== src/Prelude/Relates.antt =====
-- Simulations of methods: a rule for each way in which a method is put together. The methods of two
-- classes run in step on related objects.
use mathlib.Core.Path.{◌≡◌, refl, ap}
use libsim.Prelude.Exec.{Outcome, ok, err, crash, Exec, pure, lift, must, value, ◌>>=◌}

-- From related objects `m` and `n` give one result, and leave related objects.
pub record Relates {ℓ} {S T A : Type ℓ} (R : S → T → Type ℓ) (m : Exec S A) (n : Exec T A)
    : Type ℓ where
  pub at : (s : S) (t : T) → R s t → ((m s).0 ≡ (n t).0) × R (m s).1 (n t).1

module _ {ℓ} {S T A : Type ℓ} {R : S → T → Type ℓ} where
  pub Relates-lift : (r : Outcome A) → Relates R (lift r) (lift r)
  Relates-lift r = record { at = λ s t h. (refl, h) }

  pub Relates-pure : (a : A) → Relates R (pure a) (pure a)
  Relates-pure a = record { at = λ s t h. (refl, h) }

  pub Relates-must : (m : Exec S A) (n : Exec T A) → Relates R m n → Relates R (must m) (must n)
  Relates-must m n k = record { at = λ s t h. let (e, r) = k.at s t h in (ap value e, r) }

module _ {ℓ} {S T A B : Type ℓ} {R : S → T → Type ℓ} where
  continue-Relates :
      (r q : Outcome A) (f : A → Exec S B) (g : A → Exec T B) (s : S) (t : T)
      → ((a : A) → Relates R (f a) (g a))
      → r ≡ q
      → R s t
      → (((lift r >>= f) s).0 ≡ ((lift q >>= g) t).0) × R ((lift r >>= f) s).1 ((lift q >>= g) t).1
  continue-Relates (ok a) q f g s t k e h = rw (← e) ((k a).at s t h)
  continue-Relates (err c) q f g s t k e h = rw (← e) (refl, h)
  continue-Relates crash q f g s t k e h = rw (← e) (refl, h)

  pub Relates-bind :
      (m : Exec S A) (n : Exec T A) (f : A → Exec S B) (g : A → Exec T B)
      → Relates R m n
      → ((a : A) → Relates R (f a) (g a))
      → Relates R (m >>= f) (n >>= g)
  Relates-bind m n f g km kf = record {
    at = λ s t h.
        let (e, r) = km.at s t h in continue-Relates (m s).0 (n t).0 f g (m s).1 (n t).1 kf e r;
  }
