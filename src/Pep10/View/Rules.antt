-- ===== src/Pep10/View/Rules.antt =====
-- src/libisa/isa/pep10/local_processor.tpp: a method that begins with an access runs if the rest runs from the
-- view that the access leaves.
use libsim.Prelude.{ℕ, Bool, u16}
use libsim.Prelude.Exec.{Exec, ◌>>=◌}
use libsim.Storage.Device.{Device}
use libsim.Storage.Ram.{Ram}
use libsim.Pep10.Types.{Register, Csr}
use libsim.Pep10.State.{Machine}
use libsim.Pep10.Access.{
  read_register, write_register, read_nzvc, write_nzvc, read_byte, read_word, write_byte,
  write_word,
}
use libsim.Pep10.View.{View, set_register, set_flag, set_byte, set_word, word_at, Runs}
pub use libsim.Pep10.View.Access.{
  Runs-pure, Runs-bind, read_register-Runs, write_register-Runs, read_nzvc-Runs, write_nzvc-Runs,
}
pub use libsim.Pep10.View.Memory.{read_byte-Runs, write_byte-Runs, read_word-Runs, write_word-Runs}

module _ {M H B : Type 0} ⦃dev : Device M H ℕ⦄ (ram : Ram dev) {w w' : View} {b : B} where
  pub after_read_register :
      (r : Register) (f : ℕ → Exec (Machine M H) B)
      → Runs ram (f (w.register r)) w b w'
      → Runs ram (read_register r >>= f) w b w'
  after_read_register r f = Runs-bind ram _ f (read_register-Runs ram r w)

  pub after_write_register :
      (r : Register) (v : ℕ) (f : Unit {0} → Exec (Machine M H) B)
      → Runs ram (f tt) (set_register r v w) b w'
      → Runs ram (write_register r v >>= f) w b w'
  after_write_register r v f = Runs-bind ram _ f (write_register-Runs ram r v w)

  pub after_read_nzvc :
      (bit : Csr) (f : Bool → Exec (Machine M H) B)
      → Runs ram (f (w.flag bit)) w b w'
      → Runs ram (read_nzvc bit >>= f) w b w'
  after_read_nzvc bit f = Runs-bind ram _ f (read_nzvc-Runs ram bit w)

  pub after_write_nzvc :
      (bit : Csr) (v : Bool) (f : Unit {0} → Exec (Machine M H) B)
      → Runs ram (f tt) (set_flag bit v w) b w'
      → Runs ram (write_nzvc bit v >>= f) w b w'
  after_write_nzvc bit v f = Runs-bind ram _ f (write_nzvc-Runs ram bit v w)

  pub after_read_byte :
      (p : ℕ) (f : ℕ → Exec (Machine M H) B)
      → Runs ram (f (w.byte (u16 p))) w b w'
      → Runs ram (read_byte p >>= f) w b w'
  after_read_byte p f = Runs-bind ram _ f (read_byte-Runs ram p w)

  pub after_read_word :
      (p : ℕ) (f : ℕ → Exec (Machine M H) B)
      → Runs ram (f (word_at w p)) w b w'
      → Runs ram (read_word p >>= f) w b w'
  after_read_word p f = Runs-bind ram _ f (read_word-Runs ram p w)

  pub after_write_byte :
      (p v : ℕ) (f : Unit {0} → Exec (Machine M H) B)
      → Runs ram (f tt) (set_byte p v w) b w'
      → Runs ram (write_byte p v >>= f) w b w'
  after_write_byte p v f = Runs-bind ram _ f (write_byte-Runs ram p v w)

  pub after_write_word :
      (p v : ℕ) (f : Unit {0} → Exec (Machine M H) B)
      → Runs ram (f tt) (set_word p v w) b w'
      → Runs ram (write_word p v >>= f) w b w'
  after_write_word p v f = Runs-bind ram _ f (write_word-Runs ram p v w)

pub ruleset run_rules = (
  Runs-pure, after_read_register, after_write_register, after_read_nzvc, after_write_nzvc,
  after_read_byte, after_read_word, after_write_byte, after_write_word, write_register-Runs,
  write_nzvc-Runs, write_word-Runs, write_byte-Runs,
)
