-- ===== src/Pep10/Access.antt =====
-- src/libisa/isa/pep10/local_processor.tpp: registers, status bits and memory as the instructions see them.
use libsim.Prelude.{ℕ, ◌+◌, Bool, bit_and, bit_or, u8, u16, ◌<<<◌, ◌>>>◌, nonzero, if◌then◌else◌}
use libsim.Prelude.Exec.{Outcome, Exec, ◌>>=◌, ◌>>◌, pure, must, zoom}
use libsim.Storage.Device.{Device}
use libsim.Storage.Block
use libsim.Storage.Block.{Block}
use libsim.Pep10.Types.{Register, Csr, register_number, csr_number}
use libsim.Pep10.State.{Machine}

-- A `bool` in an `int`.
abbrev pub bit : Bool → ℕ
bit b = if b then 1 else 0

unfoldable pub pack_nzvc : Bool → Bool → Bool → Bool → ℕ
pack_nzvc n z v c = u8 (
    bit_or (u8 (bit_or (u8 (bit_or (u8 (bit_or 0 (bit n <<< 3))) (bit z <<< 2))) (bit v <<< 1)))
      (bit c <<< 0))

module _ {M H A : Type 0} where
  abbrev pub in_memory : Exec M A → Exec (Machine M H) A
  in_memory = zoom (λ m. m.memory) (λ d m. record m { memory = d })

  abbrev pub in_registers : Exec (Block ℕ) A → Exec (Machine M H) A
  in_registers =
      zoom (λ m. m.processor.registers)
        λ b m. record m { processor = record m.processor { registers = b } }

  abbrev pub in_csrs : Exec (Block Bool) A → Exec (Machine M H) A
  in_csrs =
      zoom (λ m. m.processor.csrs) λ b m. record m { processor = record m.processor { csrs = b } }

module _ {M H : Type 0} ⦃dev : Device M H ℕ⦄ where
  -- The processor's methods take the number of a register or of a status bit.
  unfoldable pub read_register_at : ℕ → Exec (Machine M H) ℕ
  unfolding Block.read
  read_register_at reg_number = must (in_registers (Block.read reg_number))

  unfoldable pub write_register_at : ℕ → ℕ → Exec (Machine M H) (Unit {0})
  unfolding Block.write
  write_register_at reg_number value =
      must (in_registers (Block.write dev.enable_history reg_number (u16 value)))

  unfoldable pub read_csr : ℕ → Exec (Machine M H) Bool
  unfolding Block.read
  read_csr csr_number = must (in_csrs (Block.read csr_number))

  unfoldable pub write_csr : ℕ → Bool → Exec (Machine M H) (Unit {0})
  unfolding Block.write
  write_csr csr_number value = must (in_csrs (Block.write dev.enable_history csr_number value))

  -- The functions of the namespace take the enumerators.
  unfoldable pub read_register : Register → Exec (Machine M H) ℕ
  unfolding read_register_at register_number
  read_register reg = read_register_at (register_number reg)

  unfoldable pub write_register : Register → ℕ → Exec (Machine M H) (Unit {0})
  unfolding write_register_at register_number
  write_register reg value = write_register_at (register_number reg) value

  unfoldable pub read_nzvc : Csr → Exec (Machine M H) Bool
  unfolding read_csr csr_number
  read_nzvc reg = read_csr (csr_number reg)

  unfoldable pub write_nzvc : Csr → Bool → Exec (Machine M H) (Unit {0})
  unfolding write_csr csr_number
  write_nzvc reg value = write_csr (csr_number reg) value

  unfoldable pub read_packed_nzvc : Exec (Machine M H) ℕ
  unfolding read_nzvc pack_nzvc
  read_packed_nzvc = do
    n ← read_nzvc Csr.n
    z ← read_nzvc Csr.z
    v ← read_nzvc Csr.v
    c ← read_nzvc Csr.c
    pure (pack_nzvc n z v c)

  unfoldable pub write_packed_nzvc : ℕ → Exec (Machine M H) (Unit {0})
  unfolding write_nzvc
  write_packed_nzvc packed = do
    write_nzvc Csr.n (nonzero (bit_and (u8 packed) 0b1000))
    write_nzvc Csr.z (nonzero (bit_and (u8 packed) 0b0100))
    write_nzvc Csr.v (nonzero (bit_and (u8 packed) 0b0010))
    write_nzvc Csr.c (nonzero (bit_and (u8 packed) 0b0001))

  -- Memory. Each parameter is cast to its type as the method is called.
  unfoldable pub get_memory : ℕ → Machine M H → Outcome ℕ
  get_memory address m = dev.get m.memory address

  unfoldable pub get_byte : ℕ → Exec (Machine M H) ℕ
  unfolding get_memory
  get_byte address m = (get_memory (u16 address) m, m)

  unfoldable pub read_byte : ℕ → Exec (Machine M H) ℕ
  read_byte address = in_memory (dev.read (u16 address))

  unfoldable pub read_word : ℕ → Exec (Machine M H) ℕ
  read_word address = do
    msb ← in_memory (dev.read (u16 address))
    lsb ← in_memory (dev.read (u16 (u16 address + 1)))
    pure (u16 (bit_or (msb <<< 8) lsb))

  unfoldable pub write_byte : ℕ → ℕ → Exec (Machine M H) (Unit {0})
  write_byte address value = in_memory (dev.write (u16 address) (u8 value))

  unfoldable pub write_word : ℕ → ℕ → Exec (Machine M H) (Unit {0})
  write_word address value = do
    in_memory (dev.write (u16 address) (u8 (bit_and (u16 value) 0xff00 >>> 8)))
    in_memory (dev.write (u16 (u16 address + 1)) (bit_and (u16 value) 0xff))
