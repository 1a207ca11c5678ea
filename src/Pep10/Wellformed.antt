-- ===== src/Pep10/Wellformed.antt =====
-- src/libisa/isa/pep10/local_processor.tpp: well-formed machines, and that the accesses keep them so.
pub mod Steps
use native.Mathlib.Decide.{dec_le}
use libsim.Prelude.{
  ℕ, suc, ◌+◌, ◌%◌, ◌^◌, ◌≤◌, ◌<◌, ◌≡◌, refl, ◌∙◌, Bool, true, false, Option, none, some, List, [],
  ◌∷◌, ◌++◌, arith, All, All-set, All-get_elem?, u8, u16,
}
use libsim.Prelude.Exec.{Outcome, ok, err, crash, Exec, must, lift, ◌>>◌, ◌>>=◌}
use libsim.Prelude.Keeps.{Keeps, Keeps-bind, Keeps-must, keeps_rules}
use libsim.Storage.Device.{Device}
use libsim.Storage.Delta.{Change, Vector, apply_backward}
use libsim.Storage.Block
use libsim.Storage.Block.{Block}
use libsim.Storage.Block.Laws.{
  IsValid, write-IsValid, All-append, take_delta-IsValid, set_cell-IsValid, get-in_range,
  set_cell-in_range, set_cell-out_of_range, write-in_range, write-out_of_range,
}
use libsim.Pep10.Unary.{leave_call, enter_call}
use libsim.Pep10.Invariant.{Accesses}
use libsim.Pep10.Types.{Register, Csr, register_number, csr_number}
use libsim.Pep10.State.{Cpu, Machine}
use libsim.Pep10.Access.{
  in_memory, in_registers, in_csrs, read_register, write_register, read_nzvc, write_nzvc, read_byte,
  read_word, write_byte, write_word, read_packed_nzvc, write_packed_nzvc,
}

abbrev pub IsWord : ℕ → Type 0
IsWord v = v < 65536

-- The register bank: eight words, with a history of words.
pub record IsBank (b : Block ℕ) : Type 0 where
  pub valid : IsValid b
  pub size : b.max_offset ≡ 7
  pub words : All IsWord b.cells
  pub old_words : All (λ c. IsWord c.old_value) b.deltas

-- The status bits: five cells.
pub record IsStatus (b : Block Bool) : Type 0 where
  pub valid : IsValid b
  pub size : b.max_offset ≡ 4

pub record IsWf {M H : Type 0} (m : Machine M H) : Type 0 where
  pub registers : IsBank m.processor.registers
  pub csrs : IsStatus m.processor.csrs

set_cell-IsBank : (o v : ℕ) (b : Block ℕ) → IsWord v → IsBank b → IsBank (Block.set_cell o v b).1
set_cell-IsBank o v b w h = elim (dec_le o b.max_offset) [
  | yes p ↦
      let stored = set_cell-in_range b o v p in
      record {
        valid = set_cell-IsValid b o v h.valid;
        size = rw stored h.size;
        words = rw stored (All-set IsWord b.cells o v h.words w);
        old_words = rw stored h.old_words;
      }
  | no p ↦ rw (set_cell-out_of_range b o v (omega arith)) h
]

write-IsBank :
    (history : Bool) (o v : ℕ)
    → IsWord v
    → (b : Block ℕ) → IsBank b
    → IsBank (Block.write history o v b).1
write-IsBank false o v w b h = unfold Block.write in set_cell-IsBank o v b w h
write-IsBank true o v w b h = elim (dec_le o b.max_offset) [
  | yes p ↦
      let (old, _, e) = get-in_range b o h.valid p in
      let stored = write-in_range b o v old p e in
      record {
        valid = write-IsValid true b o v h.valid;
        size = rw stored h.size;
        words = rw stored (All-set IsWord b.cells o v h.words w);
        old_words = rw stored (
            All-append (λ c. IsWord c.old_value) b.deltas _ h.old_words
              (All-get_elem? IsWord b.cells o old h.words e, tt));
      }
  | no p ↦ rw (write-out_of_range true b o v (omega arith)) h
]

pub take_delta-IsBank :
    (history : Bool) (b : Block ℕ) → IsBank b → IsBank (Block.take_delta history b).1
unfolding Block.take_delta
take_delta-IsBank true b h = record {
  valid = take_delta-IsValid true b h.valid;
  size = h.size;
  words = h.words;
  old_words = tt;
}
take_delta-IsBank false b h = h

-- Playing a history backward keeps what each of its stores keeps.
pub apply_backward-Keeps :
    {D V : Type 0} {P : D → Type 0} (store : ℕ → V → Exec D (Unit {0})) (ds : Vector V)
    → All (λ c. Keeps P (store c.offset c.old_value)) ds
    → Keeps P (apply_backward store ds)
unfolding apply_backward
apply_backward-Keeps store [] k = record { at = λ s h. h }
apply_backward-Keeps store (c ∷ ds) k =
    Keeps-bind (must (store c.offset c.old_value)) (λ _. apply_backward store ds)
      (Keeps-must (store c.offset c.old_value) k.0) (λ _. apply_backward-Keeps store ds k.1)

pub stores_of_words :
    (ds : Vector ℕ)
    → All (λ c. IsWord c.old_value) ds
    → All (λ c. Keeps IsBank (Block.set_cell c.offset c.old_value)) ds
stores_of_words [] w = tt
stores_of_words (c ∷ ds) w =
    (record { at = λ b h. set_cell-IsBank c.offset c.old_value b w.0 h }, stores_of_words ds w.1)

set_cell-IsStatus :
    (o : ℕ) (v : Bool) (b : Block Bool) → IsStatus b → IsStatus (Block.set_cell o v b).1
set_cell-IsStatus o v b h = record {
  valid = set_cell-IsValid b o v h.valid;
  size = elim (dec_le o b.max_offset) [
    | yes p ↦ rw (set_cell-in_range b o v p) h.size
    | no p ↦ rw (set_cell-out_of_range b o v (omega arith)) h.size
  ];
}

write-IsStatus :
    (history : Bool) (o : ℕ) (v : Bool) (b : Block Bool)
    → IsStatus b
    → IsStatus (Block.write history o v b).1
write-IsStatus false o v b h = unfold Block.write in set_cell-IsStatus o v b h
write-IsStatus true o v b h = record {
  valid = write-IsValid true b o v h.valid;
  size = elim (dec_le o b.max_offset) [
    | yes p ↦
        let (old, _, e) = get-in_range b o h.valid p in rw (write-in_range b o v old p e) h.size
    | no p ↦ rw (write-out_of_range true b o v (omega arith)) h.size
  ];
}

pub stores_of_bits :
    (ds : Vector Bool) → All (λ c. Keeps IsStatus (Block.set_cell c.offset c.old_value)) ds
stores_of_bits [] = tt
stores_of_bits (c ∷ ds) =
    (record { at = λ b h. set_cell-IsStatus c.offset c.old_value b h }, stores_of_bits ds)

module _ {M H A : Type 0} where
  pub in_memory-Keeps : (m : Exec M A) → Keeps (IsWf {M = M} {H = H}) (in_memory m)
  in_memory-Keeps m = record { at = λ s h. record { registers = h.registers; csrs = h.csrs } }

  pub in_registers-Keeps :
      (m : Exec (Block ℕ) A) → Keeps IsBank m → Keeps (IsWf {M = M} {H = H}) (in_registers m)
  in_registers-Keeps m k = record {
    at = λ s h. record { registers = k.at s.processor.registers h.registers; csrs = h.csrs };
  }

  pub in_csrs-Keeps :
      (m : Exec (Block Bool) A) → Keeps IsStatus m → Keeps (IsWf {M = M} {H = H}) (in_csrs m)
  in_csrs-Keeps m k = record {
    at = λ s h. record { registers = h.registers; csrs = k.at s.processor.csrs h.csrs };
  }

module _ {M H : Type 0} ⦃dev : Device M H ℕ⦄ where
  abbrev Preserves : {A : Type 0} → Exec (Machine M H) A → Type 0
  Preserves m = Keeps IsWf m

  pub read_register-IsWf : (r : Register) → Preserves (read_register r)
  unfolding read_register
  read_register-IsWf r = Keeps-must (in_registers (Block.read (register_number r))) (
      in_registers-Keeps (Block.read (register_number r))
        (record { at = λ b h. unfold Block.read in h }))

  pub write_register-IsWf : (r : Register) (v : ℕ) → Preserves (write_register r v)
  unfolding write_register
  write_register-IsWf r v =
      let write = Block.write dev.enable_history (register_number r) (u16 v) in
      Keeps-must (in_registers write) (
        in_registers-Keeps write (record {
          at = write-IsBank dev.enable_history (register_number r) (u16 v) (omega arith);
        }))

  pub read_nzvc-IsWf : (flag : Csr) → Preserves (read_nzvc flag)
  unfolding read_nzvc
  read_nzvc-IsWf flag =
      Keeps-must (in_csrs (Block.read (csr_number flag))) (
        in_csrs-Keeps (Block.read (csr_number flag))
          (record { at = λ b h. unfold Block.read in h }))

  pub write_nzvc-IsWf : (flag : Csr) (v : Bool) → Preserves (write_nzvc flag v)
  unfolding write_nzvc
  write_nzvc-IsWf flag v =
      let write = Block.write dev.enable_history (csr_number flag) v in
      Keeps-must (in_csrs write) (
        in_csrs-Keeps write (record { at = write-IsStatus dev.enable_history (csr_number flag) v }))

  pub read_byte-IsWf : (address : ℕ) → Preserves (read_byte address)
  unfolding read_byte
  read_byte-IsWf address = in_memory-Keeps (dev.read (u16 address))

  pub write_byte-IsWf : (address v : ℕ) → Preserves (write_byte address v)
  unfolding write_byte
  write_byte-IsWf address v = in_memory-Keeps (dev.write (u16 address) (u8 v))

  pub read_word-IsWf : (address : ℕ) → Preserves (read_word address)
  unfolding read_word
  read_word-IsWf address = search (keeps_rules, in_memory-Keeps)

  pub write_word-IsWf : (address v : ℕ) → Preserves (write_word address v)
  unfolding write_word
  write_word-IsWf address v = search (keeps_rules, in_memory-Keeps)

module _ {M H : Type 0} ⦃dev : Device M H ℕ⦄ where
  pub IsWf-Accesses : Accesses (IsWf {M = M} {H = H})
  unfolding leave_call enter_call
  IsWf-Accesses = record {
    on_read_register = read_register-IsWf;
    on_write_register = write_register-IsWf;
    on_read_nzvc = read_nzvc-IsWf;
    on_write_nzvc = write_nzvc-IsWf;
    on_read_byte = read_byte-IsWf;
    on_write_byte = write_byte-IsWf;
    on_read_word = read_word-IsWf;
    on_write_word = write_word-IsWf;
    on_leave_call = record { at = λ s h. record { registers = h.registers; csrs = h.csrs } };
    on_enter_call = record { at = λ s h. record { registers = h.registers; csrs = h.csrs } };
  }
