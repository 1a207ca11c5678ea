-- ===== src/Storage/Delta.antt =====
-- src/libisa/components/delta/vector.tpp: the history of one device, a list of changes in the order in which
-- they were made.
use libsim.Prelude.{ℕ, List, [], ◌∷◌, ◌++◌}
use libsim.Prelude.Exec.{Exec, ◌>>◌, pure, must}

pub record Change {ℓ} (V : Type ℓ) : Type ℓ where
  pub offset : ℕ
  pub old_value : V
  pub new_value : V

abbrev pub Vector {ℓ} : Type ℓ → Type ℓ
Vector V = List (Change V)

unfoldable pub add_delta {ℓ} : {V : Type ℓ} → ℕ → V → V → Vector V → Vector V
add_delta offset old_value new_value deltas =
    deltas ++ record { offset = offset; old_value = old_value; new_value = new_value } ∷ []

-- Both loops go through the changes from the first to the last. `store` is the device's `set`,
-- which makes no history of its own.
module _ {ℓ} {D V : Type ℓ} (store : ℕ → V → Exec D (Unit {0})) where
  unfoldable pub apply_forward : Vector V → Exec D (Unit {0})
  apply_forward [] = pure tt
  apply_forward (c ∷ deltas) = do must (store c.offset c.new_value); apply_forward deltas

  unfoldable pub apply_backward : Vector V → Exec D (Unit {0})
  apply_backward [] = pure tt
  apply_backward (c ∷ deltas) = do must (store c.offset c.old_value); apply_backward deltas
