-- ===== src/Pep10/View.antt =====
-- src/libisa/isa/pep10/local_processor.tpp: the machine as its program sees it. A view holds the registers, the
-- status bits and the bytes of a memory of 2 ^ 16 bytes, and `Runs` says that a method does to every
-- machine what it does to the machine's view.
pub mod Access
pub mod Memory
pub mod Rules
pub mod Arith
pub mod Fresh
pub mod Calls
pub mod Traps
use libsim.Prelude.{
  ℕ, ◌+◌, ◌*◌, ◌/◌, ◌%◌, ◌^◌, ◌<◌, ◌≤◌, ◌≡◌, refl, Bool, true, false, Option, none, some, get_elem?,
  ◌==◌, if◌then◌else◌, u16, u8,
}
use libsim.Prelude.Exec.{Outcome, ok, Exec}
use libsim.Storage.Device.{Device}
use libsim.Storage.Ram.{Ram}
use libsim.Pep10.Types.{Register, Csr, register_number, csr_number}
use libsim.Pep10.State.{Machine}
use libsim.Pep10.Wellformed.{IsWf}

pub record View : Type 0 where
  pub register : Register → ℕ
  pub flag : Csr → Bool
  pub byte : ℕ → ℕ
  pub depth : ℕ

-- The view's operations. Numbers are cast as the machine casts them.
abbrev pub set_register : Register → ℕ → View → View
set_register r v w = record w {
  register = λ q. if register_number r == register_number q then u16 v else w.register q;
}

abbrev pub set_flag : Csr → Bool → View → View
set_flag bit b w = record w { flag = λ d. if csr_number bit == csr_number d then b else w.flag d }

abbrev pub set_byte : ℕ → ℕ → View → View
set_byte a v w = record w { byte = λ p. if u16 a == p then u8 v else w.byte p }

-- A word lies at two addresses, the high byte first; the address wraps around.
abbrev pub set_word : ℕ → ℕ → View → View
set_word a v w = set_byte (a + 1) v (set_byte a (v / 256) w)

abbrev pub word_at : View → ℕ → ℕ
word_at w a = w.byte (u16 a) * 256 + w.byte (u16 (a + 1))

module _ {M H : Type 0} ⦃dev : Device M H ℕ⦄ (ram : Ram dev) where
  pub record Shows (m : Machine M H) (w : View) : Type 0 where
    pub wf : IsWf m
    pub good : ram.IsGood m.memory
    pub full : dev.max_offset m.memory ≡ 65535
    pub registers :
        (r : Register)
        → get_elem? m.processor.registers.cells (register_number r) ≡ some (w.register r)
    pub flags : (c : Csr) → get_elem? m.processor.csrs.cells (csr_number c) ≡ some (w.flag c)
    pub bytes : (p : ℕ) → p < 65536 → (dev.read p m.memory).0 ≡ ok (w.byte p)
    pub small : (p : ℕ) → w.byte p < 256
    pub calls : m.processor.call_depth ≡ w.depth

  -- From every machine that shows `w`, the method returns `a` and the machine shows `w'` then.
  pub record Runs {A : Type 0} (x : Exec (Machine M H) A) (w : View) (a : A) (w' : View)
      : Type 0 where
    pub from : (m : Machine M H) → Shows m w → (m' : Machine M H) × (x m ≡ (ok a, m')) × Shows m' w'
