-- ===== src/Pep10/Wellformed/Steps.antt =====
-- src/libisa/isa/pep10/local_processor.tpp and local_machine.tpp: steps, on well-formed machines.
use libsim.Prelude.{ℕ, Bool, true, false, ◌≡◌, refl, ◌∙◌, ◌+◌, [], u64}
use libsim.Prelude.Exec.{Errc, Exec, ◌>>=◌, modify}
use libsim.Prelude.Keeps.{Keeps, Keeps-bind, Keeps-if}
use libsim.Storage.Device.{Device}
use libsim.Storage.Delta.{apply_backward}
use libsim.Storage.Block
use libsim.Storage.Block.{Block}
use libsim.Storage.Block.Laws.{IsValid, take_delta-IsValid}
use libsim.Pep10.State.{Machine}
use libsim.Pep10.Access.{in_memory, in_registers, in_csrs}
use libsim.Pep10.Machine.{unwind_registers, unwind_csrs, unwind_active_instruction, save_deltas}
use libsim.Pep10.Step.{ret_helper, finish_step, lost_operand, step_unary, step_nonunary, step}
use libsim.Pep10.Wellformed.{
  IsWf, IsBank, IsStatus, IsWf-Accesses, in_memory-Keeps, in_registers-Keeps, in_csrs-Keeps,
  take_delta-IsBank, apply_backward-Keeps, stores_of_words, stores_of_bits,
}
use libsim.Pep10.Invariant.{access_rules}
use libsim.Pep10.Invariant.Unary.{unary_dispatch-Keeps}
use libsim.Pep10.Invariant.Nonunary.{nonunary_dispatch-Keeps}

-- A history is taken and played backward, if there is one.
undo-IsBank :
    (history : Bool) (b : Block ℕ)
    → IsBank b
    → IsBank (((Block.take_delta history) >>= apply_backward Block.set_cell) b).1
unfolding Block.take_delta
undo-IsBank false b h = h
undo-IsBank true b h =
    let fresh : Block ℕ = record b { deltas = [] } in
    let valid : IsValid fresh = record { full = h.valid.full; in_range = tt } in
    (apply_backward-Keeps Block.set_cell b.deltas (stores_of_words b.deltas h.old_words)).at fresh
      (record { valid = valid; size = h.size; words = h.words; old_words = tt })

undo-IsStatus :
    (history : Bool) (b : Block Bool)
    → IsStatus b
    → IsStatus (((Block.take_delta history) >>= apply_backward Block.set_cell) b).1
unfolding Block.take_delta
undo-IsStatus false b h = h
undo-IsStatus true b h =
    let fresh : Block Bool = record b { deltas = [] } in
    let valid : IsValid fresh = record { full = h.valid.full; in_range = tt } in
    (apply_backward-Keeps Block.set_cell b.deltas (stores_of_bits b.deltas)).at fresh
      (record { valid = valid; size = h.size })

module _ {M H : Type 0} where
  unwind_bank :
      (history : Bool) (s : Machine M H)
      → IsWf s
      → IsWf
          ((in_registers (Block.take_delta history) >>= λ ds.
              in_registers (apply_backward Block.set_cell ds))
            s).1
  unfolding Block.take_delta
  unwind_bank false s h = record { registers = h.registers; csrs = h.csrs }
  unwind_bank true s h = record {
    registers = undo-IsBank true s.processor.registers h.registers;
    csrs = h.csrs;
  }

  unwind_status :
      (history : Bool) (s : Machine M H)
      → IsWf s
      → IsWf
          ((in_csrs (Block.take_delta history) >>= λ ds. in_csrs (apply_backward Block.set_cell ds))
            s).1
  unfolding Block.take_delta
  unwind_status false s h = record { registers = h.registers; csrs = h.csrs }
  unwind_status true s h = record {
    registers = h.registers;
    csrs = undo-IsStatus true s.processor.csrs h.csrs;
  }

  take_bank :
      (history : Bool) → Keeps (IsWf {M = M} {H = H}) (in_registers (Block.take_delta history))
  take_bank history =
      in_registers-Keeps (Block.take_delta history) (record { at = take_delta-IsBank history })

  take_status : (history : Bool) → Keeps (IsWf {M = M} {H = H}) (in_csrs (Block.take_delta history))
  take_status history = in_csrs-Keeps (Block.take_delta history) (record {
    at = λ b h. record {
      valid = take_delta-IsValid history b h.valid;
      size = take_size history b ∙ h.size;
    };
  })
    where
      take_size :
          (history : Bool) (b : Block Bool)
          → (Block.take_delta history b).1.max_offset ≡ b.max_offset
      take_size true b = unfold Block.take_delta in refl
      take_size false b = unfold Block.take_delta in refl

module _ {M H : Type 0} ⦃dev : Device M H ℕ⦄ where
  abbrev Preserves : {A : Type 0} → Exec (Machine M H) A → Type 0
  Preserves m = Keeps IsWf m

  unwind_registers-IsWf : Preserves unwind_registers
  unfolding unwind_registers
  unwind_registers-IsWf = record { at = unwind_bank dev.enable_history }

  unwind_csrs-IsWf : Preserves unwind_csrs
  unfolding unwind_csrs
  unwind_csrs-IsWf = record { at = unwind_status dev.enable_history }

  unwind_active_instruction-IsWf : Preserves unwind_active_instruction
  unfolding unwind_active_instruction
  unwind_active_instruction-IsWf =
      search
        (
          access_rules, in_memory-Keeps, in_registers-Keeps, in_csrs-Keeps, take_delta-IsBank,
          unwind_registers-IsWf, unwind_csrs-IsWf,
        )
        depth 8

  save_deltas-IsWf : Preserves save_deltas
  unfolding save_deltas
  save_deltas-IsWf =
      Keeps-if dev.enable_history _ _
        (Keeps-bind (in_memory dev.take_delta) _ (in_memory-Keeps dev.take_delta) λ d.
          Keeps-bind (in_registers (Block.take_delta dev.enable_history)) _
            (take_bank dev.enable_history)
            λ r.
              Keeps-bind (in_csrs (Block.take_delta dev.enable_history)) _
                (take_status dev.enable_history)
                λ c. record { at = λ s h. record { registers = h.registers; csrs = h.csrs } })
        (record { at = λ s h. h })

ruleset step_rules = (
  access_rules, IsWf-Accesses, unary_dispatch-Keeps, nonunary_dispatch-Keeps,
  unwind_active_instruction-IsWf, save_deltas-IsWf,
)

module _ {M H : Type 0} ⦃dev : Device M H ℕ⦄ where
  ret_helper-IsWf : (e : Errc) → Keeps (IsWf {M = M} {H = H}) (ret_helper e)
  unfolding ret_helper
  ret_helper-IsWf e = search step_rules depth 8

  lost_operand-IsWf : Keeps (IsWf {M = M} {H = H}) lost_operand
  unfolding lost_operand
  lost_operand-IsWf = search step_rules depth 8

  count_cycle-IsWf : Keeps (IsWf {M = M} {H = H}) (
      modify λ m. record m {
        processor = record m.processor { cycle_count = u64 (m.processor.cycle_count + 1) };
      })
  count_cycle-IsWf = record { at = λ s h. record { registers = h.registers; csrs = h.csrs } }

  finish_step-IsWf : Keeps (IsWf {M = M} {H = H}) finish_step
  unfolding finish_step
  finish_step-IsWf = search (step_rules, count_cycle-IsWf) depth 10

  step_unary-IsWf : (is : ℕ) → Keeps (IsWf {M = M} {H = H}) (step_unary is)
  unfolding step_unary
  step_unary-IsWf is = search (step_rules, ret_helper-IsWf, finish_step-IsWf)

  step_nonunary-IsWf : (is pc : ℕ) → Keeps (IsWf {M = M} {H = H}) (step_nonunary is pc)
  unfolding step_nonunary
  step_nonunary-IsWf is pc =
      search (step_rules, ret_helper-IsWf, finish_step-IsWf, lost_operand-IsWf) depth 10

  -- A step keeps a well-formed machine well formed: on success, on failure and on an exception,
  -- with a history or without, and whatever the memory device does.
  pub step-IsWf : (m : Machine M H) → IsWf m → IsWf (step m).1
  unfolding step
  step-IsWf m h =
      let keeps : Keeps (IsWf {M = M} {H = H}) step =
        search (step_rules, ret_helper-IsWf, step_unary-IsWf, step_nonunary-IsWf) depth 12 in
      keeps.at m h
