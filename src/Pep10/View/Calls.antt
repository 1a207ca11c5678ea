-- ===== src/Pep10/View/Calls.antt =====
-- src/libisa/isa/pep10/local_processor.tpp: CALL and RET as the program sees them.
use libsim.Prelude.{ℕ, ◌+◌, ◌%◌, ◌<◌, ◌≡◌, ◌≢◌, refl, ap, subst, u64, min, arith, sub16}
use libsim.Prelude.Exec.{◌>>=◌, ◌>>◌, modify}
use libsim.Storage.Device.{Device}
use libsim.Storage.Ram.{Ram}
use libsim.Pep10.Types.{Register, Csr, register_number}
use libsim.Pep10.Access.{read_register}
use libsim.Pep10.Unary.{enter_call, leave_call, exec_ret}
use libsim.Pep10.Nonunary.{exec_call}
use libsim.Pep10.View.{View, set_register, set_word, word_at, Runs}
use libsim.Pep10.View.Rules.{run_rules, Runs-bind}
use libsim.Pep10.View.Memory.{word_at-set_word_same, byte-set_word_other}

abbrev pub set_depth : ℕ → View → View
set_depth k w = record w { depth = k }

-- What CALL leaves: the return address below the old top of the stack.
abbrev pub called : ℕ → ℕ → View → View
called sp target w = set_depth (u64 (w.depth + 1)) (
    set_register Register.sp (sub16 sp 2)
      (set_register Register.pc target (set_word (sub16 sp 2) (w.register Register.pc) w)))

abbrev pub returned : ℕ → View → View
returned sp w =
    set_depth 0 (set_register Register.sp (sp + 2) (set_register Register.pc (word_at w sp) w))

-- What CALL and then RET leave.
abbrev pub called_back : ℕ → View → View
called_back target w =
    let w₁ = called (w.register Register.sp) target w in returned (w₁.register Register.sp) w₁

module _ {M H : Type 0} ⦃dev : Device M H ℕ⦄ (ram : Ram dev) where
  set_calls :
      (f : ℕ → ℕ) (w : View)
      → Runs ram
          (modify λ m. record m {
            processor = record m.processor { call_depth = f m.processor.call_depth };
          })
          w
          tt
          (set_depth (f w.depth) w)
  set_calls f w = record {
    from = λ m h. (
      record m { processor = record m.processor { call_depth = f m.processor.call_depth } },
      refl,
      record {
        wf = record { registers = h.wf.registers; csrs = h.wf.csrs };
        good = h.good;
        full = h.full;
        registers = h.registers;
        flags = h.flags;
        bytes = h.bytes;
        small = h.small;
        calls = ap f h.calls;
      },
    );
  }

  pub enter_call-Runs : (w : View) → Runs ram enter_call w tt (set_depth (u64 (w.depth + 1)) w)
  unfolding enter_call
  enter_call-Runs w = set_calls (λ k. u64 (k + 1)) w

  pub leave_call-Runs : (w : View) → Runs ram leave_call w tt (set_depth 0 w)
  unfolding leave_call
  leave_call-Runs w =
      let least : min 0 (u64 (w.depth + 1)) ≡ 0 = omega arith in
      subst (λ k. Runs ram leave_call w tt (set_depth k w)) least
        (set_calls (λ k. min 0 (u64 (k + 1))) w)

  pub exec_call-Runs :
      (sp target : ℕ) (w : View) → Runs ram (exec_call sp target) w tt (called sp target w)
  unfolding exec_call
  exec_call-Runs sp target w = search (run_rules, enter_call-Runs)

  pub exec_ret-Runs : (sp : ℕ) (w : View) → Runs ram (exec_ret sp) w tt (returned sp w)
  unfolding exec_ret
  exec_ret-Runs sp w = search (run_rules, leave_call-Runs)

  -- CALL and then RET, from a machine whose view is w and whose program counter and stack pointer are
  -- 16-bit words: both succeed and leave the view `called_back target w`, in which every register and
  -- every status bit is what it was in w, memory too but for the two bytes below the stack's old top,
  -- and the call depth is 0, whatever it was.
  pub exec_call-exec_ret :
      (target : ℕ) (w : View)
      → w.register Register.pc < 65536
      → w.register Register.sp < 65536
      → Runs ram
          (exec_call (w.register Register.sp) target >> (read_register Register.sp >>= exec_ret))
          w
          tt
          (called_back target w)
        × ((r : Register) → (called_back target w).register r ≡ w.register r)
        × ((bit : Csr) → (called_back target w).flag bit ≡ w.flag bit)
        × ((p : ℕ)
            → p ≢ sub16 (w.register Register.sp) 2
            → p ≢ sub16 (w.register Register.sp) 1
            → (called_back target w).byte p ≡ w.byte p)
        × ((called_back target w).depth ≡ 0)
  unfolding register_number
  exec_call-exec_ret target w pc_word sp_word = (
    Runs-bind ram _ _ (exec_call-Runs (w.register Register.sp) target w)
        (search (run_rules, exec_ret-Runs)),
    same_register,
    λ c. refl,
    λ p far near.
        byte-set_word_other (sub16 (w.register Register.sp) 2) (w.register Register.pc) w p
          (omega (arith, far)) (omega (arith, near)),
    refl,
  )
    where
      same_register : (r : Register) → (called_back target w).register r ≡ w.register r
      same_register Register.a = refl
      same_register Register.x = refl
      same_register Register.sp = omega arith
      same_register Register.pc = omega (
        arith,
        word_at-set_word_same (sub16 (w.register Register.sp) 2 % 65536)
            (sub16 (w.register Register.sp) 2) (w.register Register.pc) w (omega arith),
      )
      same_register Register.is = refl
      same_register Register.os = refl
      same_register Register.tr = refl
