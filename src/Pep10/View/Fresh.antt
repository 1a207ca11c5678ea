-- ===== src/Pep10/View/Fresh.antt =====
-- src/libisa/isa/pep10/local_machine.tpp: a machine as its constructor leaves it.
use libsim.Prelude.{
  ℕ, suc, ◌≤◌, ◌≡◌, refl, Bool, false, some, get_elem?, get_elem?-replicate, arith, All-replicate,
}
use libsim.Prelude.Exec.{ok}
use libsim.Storage.Block
use libsim.Storage.Block.{Block, block, block_device}
use libsim.Storage.Block.Laws.{block-IsValid}
use libsim.Storage.Block.AsRam.{block-Ram, block-Ram-IsGood}
use libsim.Pep10.Types.{register_number, csr_number}
use libsim.Pep10.State.{new_machine}
use libsim.Pep10.Wellformed.{IsWf, IsWord}
use libsim.Pep10.View.{View, Shows}
use libsim.Pep10.View.Access.{register_number-le, csr_number-le}

abbrev pub zero_view : View
zero_view = record { register = λ r. 0; flag = λ c. false; byte = λ p. 0; depth = 0 }

cell : {V : Type 0} (n : ℕ) (v : V) (p : ℕ) → p ≤ n → get_elem? (block n v).cells p ≡ some v
unfolding block
cell n v p h = get_elem?-replicate (suc n) v p (omega arith)

stored : {V : Type 0} (n : ℕ) (v : V) (p : ℕ) → p ≤ n → (Block.read p (block n v)).0 ≡ ok v
unfolding Block.read
stored n v p h = ground (arith, cell n v p h, top n v)
  where
    top : {V : Type 0} (n : ℕ) (v : V) → (block n v).max_offset ≡ n
    top n v = unfold block in refl

largest : {V : Type 0} (n : ℕ) (v : V) → (block n v).max_offset ≡ n
largest n v = unfold block in refl

module _ {M H : Type 0} where
  -- A new machine is well formed, whatever its memory.
  pub new_machine-IsWf : (memory : M) → IsWf (new_machine {H = H} memory)
  new_machine-IsWf memory = record {
    registers =
        unfold new_machine in
        record {
          valid = block-IsValid 7 0;
          size = largest {V = ℕ} 7 0;
          words = unfold block in All-replicate IsWord 8 0 (omega arith);
          old_words = unfold block in tt;
        };
    csrs =
        unfold new_machine in
        record { valid = block-IsValid 4 false; size = largest {V = Bool} 4 false };
  }

-- A new machine with 64 kB of memory, with histories or without, shows registers, bytes and a call
-- depth that are 0 and status bits that are false.
new_machine-Shows :
    (history : Bool)
    → Shows ⦃dev = block_device history⦄ (block-Ram history) (new_machine (block 65535 0)) zero_view
unfolding new_machine
new_machine-Shows history = record {
  wf = new_machine-IsWf (block 65535 0);
  good = block-Ram-IsGood history (block 65535 0) (block-IsValid 65535 0);
  full = largest {V = ℕ} 65535 0;
  registers = λ r. cell 7 0 (register_number r) (omega (arith, register_number-le r));
  flags = λ c. cell 4 false (csr_number c) (omega (arith, csr_number-le c));
  bytes = λ p lt. stored {V = ℕ} 65535 0 p (omega arith);
  small = λ p. omega arith;
  calls = refl;
}
