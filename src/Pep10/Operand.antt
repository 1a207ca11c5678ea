-- ===== src/Pep10/Operand.antt =====
-- src/libisa/isa/pep10/local_processor.tpp: `decode_load_operand` and `decode_store_operand`.
use libsim.Prelude.{ℕ, ◌+◌, Bool, true, false, bit_and, u16, if◌then◌else◌}
use libsim.Prelude.Exec.{Exec, ◌>>=◌, pure, raise, abort, processor, illegal_addressing_mode}
use libsim.Storage.Device.{Device}
use libsim.Pep10.Types.{Mnemonic, cpba, cpbx, ldba, ldbx, AddressingMode, Register}
use libsim.Pep10.State.{Machine}
use libsim.Pep10.Access.{read_register, read_byte, read_word}

-- The instructions whose operand is one byte.
unfoldable pub is_byte_load : Mnemonic → Bool
is_byte_load cpba = true
is_byte_load cpbx = true
is_byte_load ldba = true
is_byte_load ldbx = true
is_byte_load _ = false

module _ {M H : Type 0} ⦃dev : Device M H ℕ⦄ where
  -- `load` is `read_byte` or `read_word`: both branches find the operand in the same way, and an
  -- indirect address is a word in both. A mode without a case is an exception.
  unfoldable pub load_at : (ℕ → Exec (Machine M H) ℕ) → AddressingMode → ℕ → Exec (Machine M H) ℕ
  load_at load AddressingMode.d addr = load addr
  load_at load AddressingMode.n addr = do pointer ← read_word addr; load pointer
  load_at load AddressingMode.s addr = do sp ← read_register Register.sp; load (addr + sp)
  load_at load AddressingMode.x addr = do idx ← read_register Register.x; load (addr + idx)
  load_at load AddressingMode.sx addr = do
    sp ← read_register Register.sp
    idx ← read_register Register.x
    load (u16 (addr + (sp + idx)))
  load_at load AddressingMode.sf addr = do
    sp ← read_register Register.sp
    pointer ← read_word (addr + sp)
    load pointer
  load_at load AddressingMode.sfx addr = do
    sp ← read_register Register.sp
    pointer ← read_word (addr + sp)
    idx ← read_register Register.x
    load (pointer + idx)
  load_at load AddressingMode.i addr = pure addr
  load_at load AddressingMode.none addr = abort
  load_at load AddressingMode.invalid addr = abort

  unfoldable pub decode_load_operand : Mnemonic → AddressingMode → ℕ → Exec (Machine M H) ℕ
  unfolding is_byte_load load_at
  decode_load_operand name AddressingMode.i addr =
      pure (if is_byte_load name then bit_and addr 0xff else addr)
  decode_load_operand name mode addr =
      if is_byte_load name then load_at read_byte mode addr else load_at read_word mode addr

  unfoldable pub decode_store_operand : AddressingMode → ℕ → Exec (Machine M H) ℕ
  decode_store_operand AddressingMode.i addr = raise (processor illegal_addressing_mode)
  decode_store_operand AddressingMode.d addr = pure addr
  decode_store_operand AddressingMode.n addr = read_word addr
  decode_store_operand AddressingMode.s addr = do
    sp ← read_register Register.sp
    pure (u16 (addr + sp))
  decode_store_operand AddressingMode.x addr = do
    idx ← read_register Register.x
    pure (u16 (addr + idx))
  decode_store_operand AddressingMode.sx addr = do
    sp ← read_register Register.sp
    idx ← read_register Register.x
    pure (u16 (addr + (sp + idx)))
  decode_store_operand AddressingMode.sf addr = do
    sp ← read_register Register.sp
    read_word (addr + sp)
  decode_store_operand AddressingMode.sfx addr = do
    sp ← read_register Register.sp
    pointer ← read_word (addr + sp)
    idx ← read_register Register.x
    pure (u16 (pointer + idx))
  decode_store_operand AddressingMode.none addr = abort
  decode_store_operand AddressingMode.invalid addr = abort
