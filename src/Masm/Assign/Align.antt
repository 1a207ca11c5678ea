-- ===== src/Masm/Assign/Align.antt =====
-- src/libisa/masm/ir/directives.tpp and asmb/pep10/parser.cpp: what `.ALIGN` does to the address of the next line,
-- and which arguments the parser lets through.
use libsim.Prelude.{
  ℕ, suc, ◌+◌, ◌-◌, ◌%◌, ◌<◌, ◌≡◌, ◌⊎◌, ◌↔◌, inl, inr, refl, Bool, false, not, ◌&&◌, ◌==◌, List,
  arith,
}
use libsim.Prelude.Exec.{Outcome, ok, crash}
use libsim.Pep10.Isa.{then_ok}
use libsim.Symbol.{Entry}
use libsim.Masm.Args.{value, dec}
use libsim.Masm.Ir.{
  Common, Kind, dot_align, AlignDirection, set_begin_address, object_code_bytes, align_from,
  num_bytes_generated,
}

-- `parse_ALIGN` returns an error if this holds of the argument's value.
unfoldable pub rejects_align : ℕ → Bool
rejects_align v = not (v % 2 == 0) && not (v % 4 == 0) && not (v % 8 == 0)

-- The size that a line has once its begin is set.
abbrev pub placed_bytes : List Entry → Kind → ℕ → Common → Outcome ℕ
placed_bytes es kind address c =
    then_ok (set_begin_address es c kind address) λ c'. object_code_bytes es c' kind

placed :
    (es : List Entry) (c : Common) (v address n : ℕ) (direction : AlignDirection)
    → ((address + (suc v - address % suc v) % suc v) % 65536 + 65536 - address) % 65536 ≡ n
    → placed_bytes es (dot_align (dec (suc v)) direction) address c ≡ ok n
unfolding set_begin_address object_code_bytes align_from num_bytes_generated value
placed es c v address n direction h = rw h refl

-- `.ALIGN 2`, `.ALIGN 4` and `.ALIGN 8`, assigned forwards from an address that is at least 8 below 2 ^ 16, take
-- fewer bytes than their argument, and the line after them has an address that it divides.
pub align-next :
    (es : List Entry) (c : Common) (v address : ℕ) (direction : AlignDirection)
    → (v ≡ 2) ⊎ ((v ≡ 4) ⊎ (v ≡ 8))
    → address < 65528
    → (n : ℕ) × (placed_bytes es (dot_align (dec v) direction) address c ≡ ok n)
      × (n < v)
      × ((address + n) % v ≡ 0)
align-next es c v address direction (inl two) low = rw two (
  (2 - address % 2) % 2,
  placed es c 1 address _ direction (omega arith),
  omega arith,
  omega arith,
)
align-next es c v address direction (inr (inl four)) low = rw four (
  (4 - address % 4) % 4,
  placed es c 3 address _ direction (omega arith),
  omega arith,
  omega arith,
)
align-next es c v address direction (inr (inr eight)) low = rw eight (
  (8 - address % 8) % 8,
  placed es c 7 address _ direction (omega arith),
  omega arith,
  omega arith,
)

-- The parser lets exactly the even arguments through, 0 among them, for which the address of the line is
-- undefined: the remainder by 0 is taken.
pub rejects_align_iff :
    (es : List Entry) (c : Common) (address : ℕ) (direction : AlignDirection)
    → ((v : ℕ) → (rejects_align v ≡ false) ↔ (v % 2 ≡ 0))
      × (rejects_align 0 ≡ false)
      × (set_begin_address es c (dot_align (dec 0) direction) address ≡ crash)
unfolding rejects_align set_begin_address align_from value
rejects_align_iff es c address direction = (λ v. ground arith, refl, refl)
