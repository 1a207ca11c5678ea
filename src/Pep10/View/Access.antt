-- ===== src/Pep10/View/Access.antt =====
-- src/libisa/isa/pep10/local_processor.tpp: accesses to registers and status bits, on views.
use libsim.Prelude.{
  ℕ, ◌<◌, ◌≤◌, ◌≡◌, refl, List, ap, ◌∙◌, subst, Bool, true, false, some, get_elem?, set, ◌==◌,
  if◌then◌else◌, u16, arith, get_elem?-set_self, get_elem?-set_ne, length, Bool-cases, inl, inr,
  ==_iff,
}
use libsim.Prelude.Exec.{ok, Exec, pure, ◌>>=◌, value}
use libsim.Storage.Device.{Device}
use libsim.Storage.Ram.{Ram}
use libsim.Storage.Block
use libsim.Storage.Block.{Block}
use libsim.Storage.Block.Laws.{IsValid, get-in_range, write-in_range, set_cell-in_range}
use libsim.Pep10.Types.{Register, Csr, register_number, csr_number}
use libsim.Pep10.State.{Machine}
use libsim.Pep10.Access.{read_register, write_register, read_nzvc, write_nzvc}
use libsim.Pep10.Wellformed.{IsWf, write_register-IsWf, write_nzvc-IsWf}
use libsim.Pep10.View.{View, set_register, set_flag, Runs}

module _ {M H : Type 0} ⦃dev : Device M H ℕ⦄ (ram : Ram dev) where
  pub Runs-pure : {A : Type 0} (a : A) (w : View) → Runs ram (pure a) w a w
  Runs-pure a w = record { from = λ m h. (m, refl, h) }

  pub Runs-bind :
      {A B : Type 0} (x : Exec (Machine M H) A) (f : A → Exec (Machine M H) B) {w : View} {a : A}
      {w' : View} {b : B} {w'' : View}
      → Runs ram x w a w'
      → Runs ram (f a) w' b w''
      → Runs ram (x >>= f) w b w''
  Runs-bind x f {a = a} r s = record {
    from = λ m h.
        let (m', e, h') = r.from m h in let (m'', e', h'') = s.from m' h' in (m'', rw e e', h'');
  }

pub register_number-le : (r : Register) → register_number r < 7
unfolding register_number
register_number-le Register.a = omega arith
register_number-le _ = omega arith

pub csr_number-le : (c : Csr) → csr_number c < 4
unfolding csr_number
csr_number-le Csr.n = omega arith
csr_number-le _ = omega arith

-- What a write to a block in range does, with a history or without.
stored :
    {V : Type 0} (history : Bool) (b : Block V) (o : ℕ) (v : V)
    → IsValid b
    → o ≤ b.max_offset
    → (b' : Block V) × (Block.write history o v b ≡ (ok tt, b')) × (b'.cells ≡ set b.cells o v)
unfolding Block.write
stored true b o v h p =
    let (old, _, e) = get-in_range b o h p in (_, write-in_range b o v old p e, refl)
stored false b o v h p = (_, set_cell-in_range b o v p, refl)

got :
    {V : Type 0} (b : Block V) (o : ℕ) (v : V)
    → o ≤ b.max_offset
    → get_elem? b.cells o ≡ some v
    → Block.read o b ≡ (ok v, b)
unfolding Block.read
got b o v p e = ground arith

-- What cells hold after a write to one of them.
looked_up :
    {V : Type 0} (cells : List V) (o p : ℕ) (v w : V)
    → o < length cells
    → get_elem? cells p ≡ some w
    → get_elem? (set cells o v) p ≡ some (if o == p then v else w)
looked_up cells o p v w lt e = elim (Bool-cases (o == p)) [
  | inl same ↦ rw same (
      subst (λ q. get_elem? (set cells o v) q ≡ some v) ((==_iff o p).0 same)
        (get_elem?-set_self cells o v lt))
  | inr other ↦ rw other (get_elem?-set_ne cells o p v (ground arith) ∙ e)
]

module _ {M H : Type 0} ⦃dev : Device M H ℕ⦄ (ram : Ram dev) where
  pub read_register-Runs : (r : Register) (w : View) → Runs ram (read_register r) w (w.register r) w
  unfolding read_register
  read_register-Runs r w = record {
    from = λ m h.
        let e =
          got m.processor.registers (register_number r) (w.register r)
            (omega (arith, h.wf.registers.size, register_number-le r)) (h.registers r) in
        (
          m,
          ap (λ p. (value p.0, record m { processor = record m.processor { registers = p.1 } })) e,
          h,
        );
  }

  pub read_nzvc-Runs : (bit : Csr) (w : View) → Runs ram (read_nzvc bit) w (w.flag bit) w
  unfolding read_nzvc
  read_nzvc-Runs bit w = record {
    from = λ m h.
        let e =
          got m.processor.csrs (csr_number bit) (w.flag bit)
            (omega (arith, h.wf.csrs.size, csr_number-le bit)) (h.flags bit) in
        (m, ap (λ p. (value p.0, record m { processor = record m.processor { csrs = p.1 } })) e, h);
  }

  pub write_register-Runs :
      (r : Register) (v : ℕ) (w : View) → Runs ram (write_register r v) w tt (set_register r v w)
  write_register-Runs r v w = record {
    from = λ m h.
        let bank = m.processor.registers in
        let below = register_number-le r in
        let (b', e, cells) =
          stored dev.enable_history bank (register_number r) (u16 v) h.wf.registers.valid
            (omega (arith, h.wf.registers.size)) in
        let m' : Machine M H = record m { processor = record m.processor { registers = b' } } in
        let ran : write_register r v m ≡ (ok tt, m') =
          unfold write_register in
          ap (λ p. (value p.0, record m { processor = record m.processor { registers = p.1 } }))
            e in
        (
          m',
          ran,
          record {
            wf = subst (λ p. IsWf p.1) ran ((write_register-IsWf r v).at m h.wf);
            good = h.good;
            full = h.full;
            registers = λ q. rw cells (
                looked_up bank.cells (register_number r) (register_number q) (u16 v) (w.register q)
                  (omega (arith, h.wf.registers.valid.full, h.wf.registers.size)) (h.registers q));
            flags = h.flags;
            bytes = h.bytes;
            small = h.small;
            calls = h.calls;
          },
        );
  }

  pub write_nzvc-Runs :
      (bit : Csr) (v : Bool) (w : View) → Runs ram (write_nzvc bit v) w tt (set_flag bit v w)
  write_nzvc-Runs bit v w = record {
    from = λ m h.
        let bank = m.processor.csrs in
        let below = csr_number-le bit in
        let (b', e, cells) =
          stored dev.enable_history bank (csr_number bit) v h.wf.csrs.valid
            (omega (arith, h.wf.csrs.size)) in
        let m' : Machine M H = record m { processor = record m.processor { csrs = b' } } in
        let ran : write_nzvc bit v m ≡ (ok tt, m') =
          unfold write_nzvc in
          ap (λ p. (value p.0, record m { processor = record m.processor { csrs = p.1 } })) e in
        (
          m',
          ran,
          record {
            wf = subst (λ p. IsWf p.1) ran ((write_nzvc-IsWf bit v).at m h.wf);
            good = h.good;
            full = h.full;
            registers = h.registers;
            flags = λ q. rw cells (
                looked_up bank.cells (csr_number bit) (csr_number q) v (w.flag q)
                  (omega (arith, h.wf.csrs.valid.full, h.wf.csrs.size)) (h.flags q));
            bytes = h.bytes;
            small = h.small;
            calls = h.calls;
          },
        );
  }
