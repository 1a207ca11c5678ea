-- ===== src/Pep10/Invariant.antt =====
-- src/libisa/isa/pep10/local_processor.tpp: what a property of machines must allow for instructions to
-- keep it: each access to registers, status bits and memory, and each change of the call depth.
pub mod Unary
pub mod Nonunary
use libsim.Prelude.{ℕ, Bool}
use libsim.Prelude.Keeps.{Keeps, keeps_rules}
use libsim.Storage.Device.{Device}
use libsim.Pep10.Types.{Register, Csr}
use libsim.Pep10.State.{Machine}
use libsim.Pep10.Access.{
  read_register, write_register, read_nzvc, write_nzvc, read_byte, read_word, write_byte,
  write_word,
}
use libsim.Pep10.Unary.{leave_call, enter_call}

-- `P` is such a property.
pub record Accesses {M H : Type 0} ⦃dev : Device M H ℕ⦄ (P : Machine M H → Type 0) : Type 0 where
  pub on_read_register : (r : Register) → Keeps P (read_register r)
  pub on_write_register : (r : Register) (v : ℕ) → Keeps P (write_register r v)
  pub on_read_nzvc : (bit : Csr) → Keeps P (read_nzvc bit)
  pub on_write_nzvc : (bit : Csr) (v : Bool) → Keeps P (write_nzvc bit v)
  pub on_read_byte : (address : ℕ) → Keeps P (read_byte address)
  pub on_write_byte : (address v : ℕ) → Keeps P (write_byte address v)
  pub on_read_word : (address : ℕ) → Keeps P (read_word address)
  pub on_write_word : (address v : ℕ) → Keeps P (write_word address v)
  pub on_leave_call : Keeps P leave_call
  pub on_enter_call : Keeps P enter_call

module _ {M H : Type 0} ⦃dev : Device M H ℕ⦄ {P : Machine M H → Type 0} (kept : Accesses P) where
  pub read_register-Keeps : (r : Register) → Keeps P (read_register r)
  read_register-Keeps = kept.on_read_register

  pub write_register-Keeps : (r : Register) (v : ℕ) → Keeps P (write_register r v)
  write_register-Keeps = kept.on_write_register

  pub read_nzvc-Keeps : (bit : Csr) → Keeps P (read_nzvc bit)
  read_nzvc-Keeps = kept.on_read_nzvc

  pub write_nzvc-Keeps : (bit : Csr) (v : Bool) → Keeps P (write_nzvc bit v)
  write_nzvc-Keeps = kept.on_write_nzvc

  pub read_byte-Keeps : (address : ℕ) → Keeps P (read_byte address)
  read_byte-Keeps = kept.on_read_byte

  pub write_byte-Keeps : (address v : ℕ) → Keeps P (write_byte address v)
  write_byte-Keeps = kept.on_write_byte

  pub read_word-Keeps : (address : ℕ) → Keeps P (read_word address)
  read_word-Keeps = kept.on_read_word

  pub write_word-Keeps : (address v : ℕ) → Keeps P (write_word address v)
  write_word-Keeps = kept.on_write_word

  pub leave_call-Keeps : Keeps P leave_call
  leave_call-Keeps = kept.on_leave_call

  pub enter_call-Keeps : Keeps P enter_call
  enter_call-Keeps = kept.on_enter_call

pub ruleset access_rules = (
  keeps_rules, read_register-Keeps, write_register-Keeps, read_nzvc-Keeps, write_nzvc-Keeps,
  read_byte-Keeps, write_byte-Keeps, read_word-Keeps, write_word-Keeps, leave_call-Keeps,
  enter_call-Keeps,
)
