-- ===== src/Pep10/View/Traps.antt =====
-- src/libisa/isa/pep10/local_processor.tpp: SCALL, USCALL and SRET as the program sees them.
use libsim.Prelude.{
  ℕ, ◌+◌, ◌%◌, ◌<◌, ◌≡◌, refl, ap, sym, subst, ◌∙◌, Bool, true, false, u16, u8, u64, arith, sub16,
  bit_and, nonzero,
}
use libsim.Prelude.Exec.{Exec, ok, ◌>>=◌, ◌>>◌}
use libsim.Storage.Device.{Device}
use libsim.Storage.Ram.{Ram}
use libsim.Pep10.Types.{Register, Csr, register_number, csr_number, MemoryVector}
use libsim.Pep10.State.{Machine}
use libsim.Pep10.Access.{pack_nzvc, read_packed_nzvc, write_packed_nzvc, read_register, read_word}
use libsim.Pep10.Unary.{exec_scall, exec_sret, read_vector, address_from_vector}
use libsim.Pep10.View.{View, set_register, set_flag, set_byte, set_word, word_at, Shows, Runs}
use libsim.Pep10.View.Rules.{run_rules, Runs-bind, read_word-Runs}
use libsim.Pep10.View.Calls.{set_depth, enter_call-Runs, leave_call-Runs}

-- The four status bits as a byte, and back.
pub unpack-pack_nzvc :
    (n z v c : Bool)
    → (nonzero (bit_and (u8 (pack_nzvc n z v c)) 0b1000) ≡ n)
      × (nonzero (bit_and (u8 (pack_nzvc n z v c)) 0b0100) ≡ z)
      × (nonzero (bit_and (u8 (pack_nzvc n z v c)) 0b0010) ≡ v)
      × (nonzero (bit_and (u8 (pack_nzvc n z v c)) 0b0001) ≡ c)
unfolding pack_nzvc
unpack-pack_nzvc true true true true = (refl, refl, refl, refl)
unpack-pack_nzvc true true true false = (refl, refl, refl, refl)
unpack-pack_nzvc true true false true = (refl, refl, refl, refl)
unpack-pack_nzvc true true false false = (refl, refl, refl, refl)
unpack-pack_nzvc true false true true = (refl, refl, refl, refl)
unpack-pack_nzvc true false true false = (refl, refl, refl, refl)
unpack-pack_nzvc true false false true = (refl, refl, refl, refl)
unpack-pack_nzvc true false false false = (refl, refl, refl, refl)
unpack-pack_nzvc false true true true = (refl, refl, refl, refl)
unpack-pack_nzvc false true true false = (refl, refl, refl, refl)
unpack-pack_nzvc false true false true = (refl, refl, refl, refl)
unpack-pack_nzvc false true false false = (refl, refl, refl, refl)
unpack-pack_nzvc false false true true = (refl, refl, refl, refl)
unpack-pack_nzvc false false true false = (refl, refl, refl, refl)
unpack-pack_nzvc false false false true = (refl, refl, refl, refl)
unpack-pack_nzvc false false false false = (refl, refl, refl, refl)

abbrev packed_at : View → ℕ
packed_at w = pack_nzvc (w.flag Csr.n) (w.flag Csr.z) (w.flag Csr.v) (w.flag Csr.c)

abbrev set_packed : ℕ → View → View
set_packed packed w = set_flag Csr.c (nonzero (bit_and (u8 packed) 0b0001)) (
    set_flag Csr.v (nonzero (bit_and (u8 packed) 0b0010)) (
      set_flag Csr.z (nonzero (bit_and (u8 packed) 0b0100))
        (set_flag Csr.n (nonzero (bit_and (u8 packed) 0b1000)) w)))

abbrev vector_address : MemoryVector → ℕ
vector_address MemoryVector.user_stack = 65524
vector_address MemoryVector.system_stack = 65526
vector_address MemoryVector.power_off_port = 65528
vector_address MemoryVector.dispatcher = 65530
vector_address MemoryVector.loader = 65532
vector_address MemoryVector.trap_handler = 65534

-- SCALL's pushes, from the top of the system stack, and SRET's pops.
abbrev pushed : (stack is sp acc idx : ℕ) → View → View
pushed stack is sp acc idx w = set_byte (sub16 stack 10) (packed_at w) (
    set_word (sub16 stack 9) acc (
      set_word (sub16 stack 7) idx (
        set_word (sub16 stack 5) (w.register Register.pc)
          (set_word (sub16 stack 3) sp (set_byte (sub16 stack 1) is w)))))

abbrev trapped : (is sp acc idx : ℕ) → View → View
trapped is sp acc idx w =
    let stack = word_at w (vector_address MemoryVector.system_stack) in
    let w₁ = set_register Register.sp (sub16 stack 10) (pushed stack is sp acc idx w) in
    set_depth (u64 (w.depth + 1))
      (set_register Register.pc (word_at w₁ (vector_address MemoryVector.trap_handler)) w₁)

abbrev popped : ℕ → View → View
popped sp w = set_depth 0 (
    set_register Register.sp (word_at w (sp + 7)) (
      set_register Register.pc (word_at w (sp + 5)) (
        set_register Register.x (word_at w (sp + 3))
          (set_register Register.a (word_at w (sp + 1)) (set_packed (w.byte (u16 sp)) w)))))

abbrev top_of : View → ℕ
top_of w = word_at w (vector_address MemoryVector.system_stack)

abbrev pub restored : ℕ → View → View
restored is w =
    let w₁ =
      trapped is (w.register Register.sp) (w.register Register.a) (w.register Register.x) w in
    popped (w₁.register Register.sp) w₁

-- What SRET finds where SCALL pushed it.
module _ (stack is sp acc idx : ℕ) (w : View) where
  abbrev base : ℕ
  base = u16 (sub16 stack 10)

  saved_flags : (pushed stack is sp acc idx w).byte (u16 base) ≡ packed_at w
  unfolding pack_nzvc
  saved_flags = ground arith

  saved_acc : word_at (pushed stack is sp acc idx w) (base + 1) ≡ acc % 65536
  saved_acc = ground arith

  saved_idx : word_at (pushed stack is sp acc idx w) (base + 3) ≡ idx % 65536
  saved_idx = ground arith

  saved_pc : word_at (pushed stack is sp acc idx w) (base + 5) ≡ w.register Register.pc % 65536
  saved_pc = ground arith

  saved_sp : word_at (pushed stack is sp acc idx w) (base + 7) ≡ sp % 65536
  saved_sp = ground arith

restored_register :
    (is : ℕ) (w : View)
    → w.register Register.pc < 65536
    → w.register Register.sp < 65536
    → w.register Register.a < 65536
    → w.register Register.x < 65536
    → (r : Register) → (restored is w).register r ≡ w.register r
unfolding register_number
restored_register is w pc_word sp_word a_word x_word Register.a = omega (
  arith,
  saved_acc (top_of w) is (w.register Register.sp) (w.register Register.a) (w.register Register.x)
      w,
)
restored_register is w pc_word sp_word a_word x_word Register.x = omega (
  arith,
  saved_idx (top_of w) is (w.register Register.sp) (w.register Register.a) (w.register Register.x)
      w,
)
restored_register is w pc_word sp_word a_word x_word Register.sp = omega (
  arith,
  saved_sp (top_of w) is (w.register Register.sp) (w.register Register.a) (w.register Register.x) w,
)
restored_register is w pc_word sp_word a_word x_word Register.pc = omega (
  arith,
  saved_pc (top_of w) is (w.register Register.sp) (w.register Register.a) (w.register Register.x) w,
)
restored_register is w _ _ _ _ Register.is = refl
restored_register is w _ _ _ _ Register.os = refl
restored_register is w _ _ _ _ Register.tr = refl

restored_flag : (is : ℕ) (w : View) (bit : Csr) → (restored is w).flag bit ≡ w.flag bit
unfolding csr_number register_number
restored_flag is w Csr.n =
    ap (λ t. nonzero (bit_and (u8 t) 0b1000))
      (saved_flags (top_of w) is (w.register Register.sp) (w.register Register.a)
        (w.register Register.x) w)
    ∙ (unpack-pack_nzvc (w.flag Csr.n) (w.flag Csr.z) (w.flag Csr.v) (w.flag Csr.c)).0
restored_flag is w Csr.z =
    ap (λ t. nonzero (bit_and (u8 t) 0b0100))
      (saved_flags (top_of w) is (w.register Register.sp) (w.register Register.a)
        (w.register Register.x) w)
    ∙ (unpack-pack_nzvc (w.flag Csr.n) (w.flag Csr.z) (w.flag Csr.v) (w.flag Csr.c)).1
restored_flag is w Csr.v =
    ap (λ t. nonzero (bit_and (u8 t) 0b0010))
      (saved_flags (top_of w) is (w.register Register.sp) (w.register Register.a)
        (w.register Register.x) w)
    ∙ (unpack-pack_nzvc (w.flag Csr.n) (w.flag Csr.z) (w.flag Csr.v) (w.flag Csr.c)).2
restored_flag is w Csr.c =
    ap (λ t. nonzero (bit_and (u8 t) 0b0001))
      (saved_flags (top_of w) is (w.register Register.sp) (w.register Register.a)
        (w.register Register.x) w)
    ∙ (unpack-pack_nzvc (w.flag Csr.n) (w.flag Csr.z) (w.flag Csr.v) (w.flag Csr.c)).3

module _ {M H : Type 0} ⦃dev : Device M H ℕ⦄ (ram : Ram dev) where
  read_vector-Runs :
      (vector : MemoryVector) (w : View)
      → Runs ram (read_vector vector) w (word_at w (vector_address vector)) w
  unfolding read_vector address_from_vector
  read_vector-Runs vector w = record {
    from = λ m h.
        subst
          (λ p.
            (m' : Machine M H) × (read_word p m ≡ (ok (word_at w (vector_address vector)), m'))
            × Shows ram m' w)
          (sym (located vector m h.full)) ((read_word-Runs ram (vector_address vector) w).from m h);
  }
    where
      located :
          (vector : MemoryVector) (m : Machine M H)
          → dev.max_offset m.memory ≡ 65535
          → address_from_vector vector m ≡ vector_address vector
      located MemoryVector.user_stack m top = omega (arith, top)
      located MemoryVector.system_stack m top = omega (arith, top)
      located MemoryVector.power_off_port m top = omega (arith, top)
      located MemoryVector.dispatcher m top = omega (arith, top)
      located MemoryVector.loader m top = omega (arith, top)
      located MemoryVector.trap_handler m top = omega (arith, top)

  read_packed_nzvc-Runs : (w : View) → Runs ram read_packed_nzvc w (packed_at w) w
  unfolding read_packed_nzvc
  read_packed_nzvc-Runs w = search run_rules

  write_packed_nzvc-Runs :
      (packed : ℕ) (w : View) → Runs ram (write_packed_nzvc packed) w tt (set_packed packed w)
  unfolding write_packed_nzvc
  write_packed_nzvc-Runs packed w = search run_rules

  after_read_vector :
      {B : Type 0} {b : B} {w w' : View} (vector : MemoryVector) (f : ℕ → Exec (Machine M H) B)
      → Runs ram (f (word_at w (vector_address vector))) w b w'
      → Runs ram (read_vector vector >>= f) w b w'
  after_read_vector {w = w} vector f = Runs-bind ram _ f (read_vector-Runs vector w)

  after_read_packed_nzvc :
      {B : Type 0} {b : B} {w w' : View} (f : ℕ → Exec (Machine M H) B)
      → Runs ram (f (packed_at w)) w b w'
      → Runs ram (read_packed_nzvc >>= f) w b w'
  after_read_packed_nzvc {w = w} f = Runs-bind ram _ f (read_packed_nzvc-Runs w)

  after_write_packed_nzvc :
      {B : Type 0} {b : B} {w w' : View} (packed : ℕ) (f : Unit {0} → Exec (Machine M H) B)
      → Runs ram (f tt) (set_packed packed w) b w'
      → Runs ram (write_packed_nzvc packed >>= f) w b w'
  after_write_packed_nzvc {w = w} packed f = Runs-bind ram _ f (write_packed_nzvc-Runs packed w)

  exec_scall-Runs :
      (is sp acc idx : ℕ) (w : View)
      → Runs ram (exec_scall is sp acc idx) w tt (trapped is sp acc idx w)
  unfolding exec_scall
  exec_scall-Runs is sp acc idx w =
      search (run_rules, after_read_vector, after_read_packed_nzvc, enter_call-Runs) depth 16

  exec_sret-Runs : (sp : ℕ) (w : View) → Runs ram (exec_sret sp) w tt (popped sp w)
  unfolding exec_sret
  exec_sret-Runs sp w = search (run_rules, after_write_packed_nzvc, leave_call-Runs) depth 16

  -- SCALL or USCALL and then SRET, from a machine whose view is w and whose program counter, stack
  -- pointer, A and X are 16-bit words: both succeed and leave the view `restored is w`, in which
  -- every register and every status bit is what it was in w, and the call depth is 0.
  pub exec_scall-exec_sret :
      (is : ℕ) (w : View)
      → w.register Register.pc < 65536
      → w.register Register.sp < 65536
      → w.register Register.a < 65536
      → w.register Register.x < 65536
      → Runs ram
          (exec_scall is (w.register Register.sp) (w.register Register.a) (w.register Register.x)
            >> (read_register Register.sp >>= exec_sret))
          w
          tt
          (restored is w)
        × ((r : Register) → (restored is w).register r ≡ w.register r)
        × ((bit : Csr) → (restored is w).flag bit ≡ w.flag bit)
        × ((restored is w).depth ≡ 0)
  exec_scall-exec_sret is w pc_word sp_word a_word x_word = (
    Runs-bind ram _ _ (exec_scall-Runs is _ _ _ w) (search (run_rules, exec_sret-Runs)),
    restored_register is w pc_word sp_word a_word x_word,
    restored_flag is w,
    refl,
  )
