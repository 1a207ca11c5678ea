-- ===== src/Tests/Assembler.antt =====
-- The results on the assembler and on Pep/9 at concrete inputs.
use libsim.Prelude.{
  ℕ, ◌+◌, ◌%◌, ◌<◌, ◌≡◌, zero, suc, ◌⊎◌, ◌↔◌, inl, inr, refl, true, false, some, List, [], ◌∷◌,
  ◌++◌, length, All, arith, u8, u16, ltb, leb, ◌||◌, ◌&&◌,
}
use libsim.Prelude.Exec.{Outcome, ok, err, crash}
use libsim.Pep10.Types.{nop, ldwa, AddressingMode}
use libsim.Pep9.Isa.{is_store_byte, is_opcode_unary_byte, is_mnemonic_unary_byte}
use libsim.Pep9.Isa.Tables.{stores_a, is_store-is_unary}
use libsim.Symbol.{Entry, single, Binding, Value}
use libsim.Masm.Conversion.{byte_vector}
use libsim.Masm.Conversion.Escape.{escape, byte_vector-escape}
use libsim.Masm.Args.{dec, hex, symbol_ref, fits_in}
use libsim.Masm.Args.Fits.{sign_extend, fits_in-dec_iff}
use libsim.Masm.Ir.{
  Common, Kind, Lines, simple, macro_invocation, end_of_lines, line, new_common, dot_block,
  dot_word, dot_end, dot_align, unary_instruction, nonunary_instruction, to_bytes, AlignDirection,
  object_code_bytes, macro_bytes, set_begin_address, set_end_address, bytes_type,
}
use libsim.Masm.Ir.Emit.{flatten}
use libsim.Masm.Assign.{
  Pass, Assigned, assign_section_forward, assign_section_backward, visit_line, visit_macro, move_to,
  before, point_next,
}
use libsim.Masm.Assign.Bytes.{LiesAt, forward-to_bytes}
use libsim.Masm.Assign.Burned.{IsOff}
use libsim.Masm.Assign.Backward.{Around}
use libsim.Masm.Assign.BackwardBytes.{LiesAround, backward-to_bytes}
use libsim.Masm.Assign.Labelled.{Labelled}
use libsim.Masm.Assign.Values.{forward-Labelled}
use libsim.Masm.Assign.Align.{placed_bytes, align-next, rejects_align, rejects_align_iff}
use libsim.Masm.Regions.{Region, addr_line_mapping}
use libsim.Masm.Sanity.{user_program, check_section, count_lines, is_end, is_burn, suppress}
use libsim.Masm.Sanity.Laws.{burns_of, check_section_iff, from_line, to_bytes-suppress}

abbrev value_or {ℓ} : {A : Type ℓ} → A → Outcome A → A
value_or other (ok v) = v
value_or other (err e) = other
value_or other crash = other

-- Two bytes under a label, a macro with a word and an instruction, and an instruction that names the label.
abbrev sample : Lines
sample = line (simple (record (new_common true) { symbol_entry = some 0 }) (dot_block (dec 2))) (
    line
      (macro_invocation (new_common true) (
        line (simple (new_common true) (dot_word (hex 4660)))
          (line (simple (new_common true) (unary_instruction nop)) end_of_lines)))
      (line (simple (new_common true) (nonunary_instruction ldwa AddressingMode.d (symbol_ref 0)))
        (line (simple (new_common false) dot_end) end_of_lines)))

abbrev label : Entry
label = record {
  parent = 0;
  name = 5;
  state = single;
  binding = Binding.local;
  value = Value.empty;
}

abbrev start : ℕ → Pass
start address = record { base_address = address; entries = label ∷ []; messages = [] }

abbrev nothing : Assigned
nothing = record { success = false; stopped = false; lines = end_of_lines; pass = start 0 }

abbrev placed : Assigned
placed = value_or nothing (assign_section_forward sample (start 16))

abbrev placed_code : List ℕ
placed_code = value_or [] (to_bytes placed.pass.entries placed.lines)

-- The first line that holds no others, and those after it.
abbrev head_of : List (Common × Kind) → Common × Kind
head_of [] = (new_common false, dot_end)
head_of (item ∷ items) = item

abbrev tail_of : List (Common × Kind) → List (Common × Kind)
tail_of [] = []
tail_of (item ∷ items) = items

-- The sample behind a block of two bytes that is turned off.
abbrev burned_sample : Lines
burned_sample = line (simple (new_common false) (dot_block (dec 2))) sample

abbrev backed : Assigned
backed = value_or nothing (assign_section_backward burned_sample (start 65535))

abbrev backed_code : List ℕ
backed_code = value_or [] (to_bytes backed.pass.entries backed.lines)

forward-to_bytes_example :
    (16 + length placed_code ≡ placed.pass.base_address)
    × ((front back : List (Common × Kind)) (c : Common) (kind : Kind)
        → flatten placed.lines ≡ front ++ (c, kind) ∷ back
        → LiesAt placed.pass.entries 16 placed_code c kind)
unfolding assign_section_forward new_common visit_line visit_macro object_code_bytes macro_bytes
    set_begin_address to_bytes bytes_type move_to before point_next
forward-to_bytes_example =
    forward-to_bytes placed.pass.entries sample (start 16) placed placed_code
      (tt, ((tt, (tt, tt)), (tt, (tt, tt))))
      (inr refl, (refl, (inr refl, (inr refl, tt)), (inr refl, (inl refl, tt)))) (omega arith) refl
      refl refl

backward-to_bytes_example :
    (off on : List (Common × Kind)) × (first : ℕ) × (flatten backed.lines ≡ off ++ on)
    × All IsOff off
    × Around backed.pass.entries (u16 (backed.pass.base_address + 1)) off first
    × (u16 (first + length backed_code) ≡ u16 (65535 + 1))
    × ((front back : List (Common × Kind)) (c : Common) (kind : Kind)
        → on ≡ front ++ (c, kind) ∷ back
        → LiesAround backed.pass.entries first backed_code c kind)
unfolding assign_section_backward new_common visit_line visit_macro object_code_bytes macro_bytes
    set_end_address to_bytes bytes_type move_to before
backward-to_bytes_example =
    backward-to_bytes backed.pass.entries burned_sample (start 65535) backed backed_code
      (tt, (tt, ((tt, (tt, tt)), (tt, (tt, tt))))) (tt, (tt, ((tt, (tt, tt)), (tt, (tt, tt)))))
      (inr (refl, inl (inr refl, (refl, (inr refl, (inr refl, tt)), (inr refl, (inl refl, tt))))))
      refl refl refl

forward-Labelled_example : Labelled placed.pass.entries placed.lines
unfolding assign_section_forward new_common visit_line visit_macro object_code_bytes macro_bytes
    set_begin_address move_to before
forward-Labelled_example =
    forward-Labelled sample (start 16) placed
      ((tt, (tt, (tt, (tt, (tt, tt))))), (tt, (tt, (tt, (tt, (tt, tt)))))) refl refl

-- An `.ALIGN` between two instructions, from address 17: it has the bytes 18 and 19, and its region ends at 20.
abbrev aligned_sample : Lines
aligned_sample = line (simple (new_common true) (unary_instruction nop)) (
    line (simple (new_common true) (dot_align (dec 4) AlignDirection.next))
      (line (simple (new_common true) (unary_instruction nop)) end_of_lines))

abbrev aligned : Assigned
aligned = value_or nothing (assign_section_forward aligned_sample (start 17))

abbrev aligned_regions : List Region
aligned_regions = value_or [] (addr_line_mapping aligned.pass.entries aligned.lines)

abbrev items_of : ℕ → List (Common × Kind)
items_of zero = flatten aligned.lines
items_of (suc n) = tail_of (items_of n)

byte_vector-escape_example : byte_vector (escape (0 ∷ 65 ∷ 255 ∷ [])) ≡ ok (0 ∷ 65 ∷ 255 ∷ [])
byte_vector-escape_example =
    byte_vector-escape (0 ∷ 65 ∷ 255 ∷ []) (omega arith, (omega arith, (omega arith, tt)))

abbrev lowest_byte : ℕ
lowest_byte = 65408

fits_in-dec_iff_example :
    (fits_in 1 (dec lowest_byte) ≡ ok true)
    ↔ ((sign_extend (u8 lowest_byte) ≡ lowest_byte) ⊎ (lowest_byte ≡ 65407))
fits_in-dec_iff_example = fits_in-dec_iff lowest_byte (omega arith)

align-next_example :
    (n : ℕ) × (placed_bytes [] (dot_align (dec 4) AlignDirection.next) 13 (new_common true) ≡ ok n)
    × (n < 4)
    × ((13 + n) % 4 ≡ 0)
align-next_example =
    align-next [] (new_common true) 4 13 AlignDirection.next (inr (inl refl)) (omega arith)

rejects_align_iff_example :
    ((v : ℕ) → (rejects_align v ≡ false) ↔ (v % 2 ≡ 0))
    × (rejects_align 0 ≡ false)
    × (set_begin_address [] (new_common true) (dot_align (dec 0) AlignDirection.next) 13 ≡ crash)
rejects_align_iff_example = rejects_align_iff [] (new_common true) 13 AlignDirection.next

check_section_iff_example :
    ((check_section user_program 3 sample).0 ≡ true)
    ↔ ((count_lines is_end sample ≡ 1) × (count_lines is_burn sample ≡ burns_of user_program))
check_section_iff_example = check_section_iff user_program 3 sample

to_bytes-suppress_example : to_bytes [] (suppress 1 sample) ≡ to_bytes [] (from_line 1 sample)
to_bytes-suppress_example = to_bytes-suppress [] 1 sample

is_store-is_unary_example :
    (is_store_byte 0xe8 ≡ ok (stores_a 0xe8))
    × (is_opcode_unary_byte 0xe8 ≡ ok (ltb 0xe8 0x12 || leb 0x26 0xe8 && leb 0xe8 0x4f))
    × (is_mnemonic_unary_byte 0xe8 ≡ ok (ltb 0xe8 0x12 || leb 0x26 0xe8 && leb 0xe8 0x27))
is_store-is_unary_example = is_store-is_unary 0xe8 (omega arith)
