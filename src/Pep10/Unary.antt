-- ===== src/Pep10/Unary.antt =====
-- src/libisa/isa/pep10/local_processor.tpp: `unary_dispatch`. The cases for the accumulator and for the index
-- register differ in the register alone, so one definition serves both.
use libsim.Prelude.{
  ℕ, ◌+◌, ◌-◌, ◌^◌, bit_and, bit_or, bit_xor, u16, u64, sub16, ◌<<<◌, ◌>>>◌, nonzero, min, ◌==◌,
  if◌then◌else◌,
}
use libsim.Prelude.Exec.{
  Exec, ◌>>=◌, ◌>>◌, pure, raise, lift, modify, processor, illegal_unary_instruction,
}
use libsim.Storage.Device.{Device}
use libsim.Pep10.Types.{Mnemonic, MemoryVector, Csr, Register}
use libsim.Pep10.Types.{
  ret, sret, movspa, movasp, movflga, movaflg, movta, uscall, nop, nota, notx, nega, negx, asla,
  aslx, asra, asrx, rola, rolx, rora, rorx, scall,
}
use libsim.Pep10.Isa.{riproll}
use libsim.Pep10.State.{Machine}
use libsim.Pep10.Access.{
  read_register, write_register, read_nzvc, write_nzvc, read_packed_nzvc, write_packed_nzvc,
  read_byte, read_word, write_byte, write_word,
}

-- `~v` of a `uint16_t`, as far as it is kept.
unfoldable pub complement : ℕ → ℕ
complement v = 2 ^ 16 - 1 - u16 v

module _ {M H : Type 0} ⦃dev : Device M H ℕ⦄ where
  unfoldable pub address_from_vector : MemoryVector → Machine M H → ℕ
  address_from_vector MemoryVector.user_stack m = sub16 (dev.max_offset m.memory) 11
  address_from_vector MemoryVector.system_stack m = sub16 (dev.max_offset m.memory) 9
  address_from_vector MemoryVector.power_off_port m = sub16 (dev.max_offset m.memory) 7
  address_from_vector MemoryVector.dispatcher m = sub16 (dev.max_offset m.memory) 5
  address_from_vector MemoryVector.loader m = sub16 (dev.max_offset m.memory) 3
  address_from_vector MemoryVector.trap_handler m = sub16 (dev.max_offset m.memory) 1

  unfoldable pub read_vector : MemoryVector → Exec (Machine M H) ℕ
  unfolding address_from_vector read_word
  read_vector vector m = read_word (address_from_vector vector m) m

  -- `_call_depth = std::min(0, _call_depth + 1)`, where `_call_depth` is unsigned.
  unfoldable pub leave_call : Exec (Machine M H) (Unit {0})
  leave_call = modify λ m. record m {
    processor = record m.processor { call_depth = min 0 (u64 (m.processor.call_depth + 1)) };
  }

  unfoldable pub enter_call : Exec (Machine M H) (Unit {0})
  enter_call = modify λ m. record m {
    processor = record m.processor { call_depth = u64 (m.processor.call_depth + 1) };
  }

  -- The sign and zero bits of a result.
  unfoldable pub write_nz : ℕ → Exec (Machine M H) (Unit {0})
  unfolding write_nzvc
  write_nz word = do write_nzvc Csr.n (nonzero (bit_and word 0x8000)); write_nzvc Csr.z (word == 0)

  unfoldable pub exec_ret : ℕ → Exec (Machine M H) (Unit {0})
  unfolding read_word write_register leave_call
  exec_ret sp = do
    target ← read_word sp
    write_register Register.pc target
    write_register Register.sp (sp + 2)
    leave_call

  unfoldable pub exec_sret : ℕ → Exec (Machine M H) (Unit {0})
  unfolding read_byte read_word write_packed_nzvc write_register leave_call
  exec_sret sp = do
    flags ← read_byte sp
    write_packed_nzvc flags
    acc ← read_word (sp + 1)
    write_register Register.a acc
    idx ← read_word (sp + 3)
    write_register Register.x idx
    pc ← read_word (sp + 5)
    write_register Register.pc pc
    old_sp ← read_word (sp + 7)
    write_register Register.sp old_sp
    leave_call

  unfoldable pub exec_not : Register → ℕ → Exec (Machine M H) (Unit {0})
  unfolding write_register write_nz complement
  exec_not reg word = do write_register reg (complement word); write_nz (complement word)

  unfoldable pub exec_neg : Register → ℕ → Exec (Machine M H) (Unit {0})
  unfolding write_register write_nz write_nzvc complement
  exec_neg reg word = do
    let result = u16 (complement word + 1)
    write_register reg result
    write_nz result
    write_nzvc Csr.v (result == 0x8000)

  unfoldable pub exec_asl : Register → ℕ → Exec (Machine M H) (Unit {0})
  unfolding write_register write_nz write_nzvc
  exec_asl reg word = do
    let result = u16 (word <<< 1)
    write_register reg result
    write_nz result
    write_nzvc Csr.v (nonzero (bit_xor word result >>> 15))
    write_nzvc Csr.c (nonzero (bit_and word 0x8000))

  unfoldable pub exec_asr : Register → ℕ → Exec (Machine M H) (Unit {0})
  unfolding write_register write_nz write_nzvc
  exec_asr reg word = do
    let result = u16 (bit_or (word >>> 1) (if nonzero (bit_and word 0x8000) then 1 <<< 15 else 0))
    write_register reg result
    write_nz result
    write_nzvc Csr.c (nonzero (bit_and word 0x1))

  unfoldable pub exec_rol : Register → ℕ → Exec (Machine M H) (Unit {0})
  unfolding write_register read_nzvc write_nzvc
  exec_rol reg word = do
    carry ← read_nzvc Csr.c
    write_register reg (u16 (bit_or (word <<< 1) (if carry then 1 else 0)))
    write_nzvc Csr.c (nonzero (bit_and word 0x8000))

  unfoldable pub exec_ror : Register → ℕ → Exec (Machine M H) (Unit {0})
  unfolding write_register read_nzvc write_nzvc
  exec_ror reg word = do
    carry ← read_nzvc Csr.c
    write_register reg (u16 (bit_or (word >>> 1) (if carry then 1 <<< 15 else 0)))
    write_nzvc Csr.c (nonzero (bit_and word 0x1))

  -- SCALL and USCALL: the state is pushed onto the system stack.
  unfoldable pub exec_scall : ℕ → ℕ → ℕ → ℕ → Exec (Machine M H) (Unit {0})
  unfolding read_vector write_byte write_word read_register write_register read_packed_nzvc
      enter_call
  exec_scall is sp acc idx = do
    stack ← read_vector MemoryVector.system_stack
    write_byte (sub16 stack 1) is
    write_word (sub16 stack 3) sp
    pc ← read_register Register.pc
    write_word (sub16 stack 5) pc
    write_word (sub16 stack 7) idx
    write_word (sub16 stack 9) acc
    flags ← read_packed_nzvc
    write_byte (sub16 stack 10) flags
    write_register Register.sp (sub16 stack 10)
    handler ← read_vector MemoryVector.trap_handler
    write_register Register.pc handler
    enter_call

  -- The `switch`, on the mnemonic, the byte, and the registers SP, A and X.
  unfoldable pub exec_unary : Mnemonic → ℕ → ℕ → ℕ → ℕ → Exec (Machine M H) (Unit {0})
  unfolding exec_ret exec_sret exec_not exec_neg exec_asl exec_asr exec_rol exec_ror exec_scall
      write_packed_nzvc
  exec_unary ret is sp acc idx = exec_ret sp
  exec_unary sret is sp acc idx = exec_sret sp
  exec_unary movspa is sp acc idx = write_register Register.a sp
  exec_unary movasp is sp acc idx = write_register Register.sp acc
  exec_unary movflga is sp acc idx = do flags ← read_packed_nzvc; write_register Register.a flags
  exec_unary movaflg is sp acc idx = write_packed_nzvc acc
  exec_unary movta is sp acc idx = do
    word ← read_register Register.tr
    write_register Register.a word
  exec_unary nop is sp acc idx = pure tt
  exec_unary nota is sp acc idx = exec_not Register.a acc
  exec_unary notx is sp acc idx = exec_not Register.x idx
  exec_unary nega is sp acc idx = exec_neg Register.a acc
  exec_unary negx is sp acc idx = exec_neg Register.x idx
  exec_unary asla is sp acc idx = exec_asl Register.a acc
  exec_unary aslx is sp acc idx = exec_asl Register.x idx
  exec_unary asra is sp acc idx = exec_asr Register.a acc
  exec_unary asrx is sp acc idx = exec_asr Register.x idx
  exec_unary rola is sp acc idx = exec_rol Register.a acc
  exec_unary rolx is sp acc idx = exec_rol Register.x idx
  exec_unary rora is sp acc idx = exec_ror Register.a acc
  exec_unary rorx is sp acc idx = exec_ror Register.x idx
  exec_unary scall is sp acc idx = exec_scall is sp acc idx
  exec_unary uscall is sp acc idx = exec_scall is sp acc idx
  exec_unary _ is sp acc idx = raise (processor illegal_unary_instruction)

  unfoldable pub unary_dispatch : ℕ → Exec (Machine M H) (Unit {0})
  unfolding exec_unary
  unary_dispatch is = do
    m ← lift (riproll is)
    sp ← read_register Register.sp
    acc ← read_register Register.a
    idx ← read_register Register.x
    exec_unary m.inst.mnemonic is sp acc idx
