-- ===== src/Lib.antt =====
-- libsim simulates the Pep/10 computer. Paths are from the repository's root.
--
-- Parts and files
--
-- * Storage devices, src/libisa/components/storage. `Base` is an abstract class of memory devices.
--   Storage/Device holds its methods as a record of functions on the device's state, and `load_bytes`.
--   Storage/Block models `Block` (block.tpp), an array that may record its changes: Block/Laws says what
--   a valid block is, Block/History what its history does, Block/AsRam that it is plain storage in the
--   sense of Storage/Ram, the interface over which the processor's memory accesses are described.
--   Storage/Session has the calls of a client that holds any device, and shows that two devices which
--   simulate each other answer alike. Storage/Map models `Map` (map.tpp), which keeps the values that
--   were written, Storage/Range `Range` (range.tpp), which keeps them in spans, Storage/ReadOnly the
--   adaptor `ReadOnly` (read_only.tpp), and Storage/Layered `Layered` (layered.tpp), several devices at
--   offsets of one space, with their grouped history (components/delta/grouped.tpp).
-- * Memory-mapped devices. Storage/Channel models the channel of pubsub.tpp, a doubly linked list of
--   events, as a store in which places stand for pointers: Channel/Chain says what the events from the
--   head to the tail are, Channel/Append, Channel/Walk, Channel/Revert and Channel/Ends what the methods
--   and the endpoints do on them. Storage/Mmio models `Input` and `Output` (mmio.tpp) with their histories
--   (components/delta/delta_mmio.tpp): Input/Queue, Input/Tape and Output/Log hold the abstract views.
-- * Histories, src/libisa/components/delta/vector.tpp: Storage/Delta, a list of changes, oldest first.
-- * The instruction set, src/libisa/isa/pep10/pep10.hpp and pep10.cpp. Pep10/Types holds the
--   enumerations, Pep10/InstrList the rows of the table, Pep10/Isa the map that `init_isa` builds, the
--   array of 256 entries that `init_mmap` builds, as the function `riproll`, and the queries. Isa/Tables
--   proves facts about all bytes.
-- * The processor, src/libisa/isa/pep10/local_processor.tpp. Pep10/State is the state of the processor
--   and of the machine that owns it. Pep10/Access has the register, status bit and memory accesses,
--   Pep10/Operand the addressing modes, Pep10/Unary and Pep10/Nonunary the two dispatches, Pep10/Alu
--   their arithmetic, Pep10/Step the instruction cycle and the loop `run`.
-- * The machine, src/libisa/isa/pep10/local_machine.tpp: Pep10/Machine, with histories, breakpoints,
--   names of devices, clearing and loading. Pep10/StepDelta plays the histories of a step
--   (components/machine/delta.tpp).
-- * Pep/9, src/libisa/isa/pep9: Pep9/InstrList and Pep9/Isa, built like those of Pep/10.
-- * Symbol tables, src/libisa/symbol/table.tpp and visit.tpp: Symbol, with the maps of all leaves of a
--   tree in one list and the symbols in a store, since tables share them by pointer. Symbol/Loops,
--   Symbol/Defined and Symbol/Exported are about the loops over the symbols of one name, and Symbol/Values
--   has the values and their relocation.
--
-- * The macro assembler, src/libisa/masm, with asmb/pep10. Masm/Conversion reads quoted text
--   (conversion.hpp and .cpp), Masm/Args models the arguments (ir/args.tpp), Masm/Ir the lines of a section
--   with their sizes, addresses and bytes (ir/directives.tpp, ir/macro.tpp, asmb/pep10/ir.cpp,
--   project/section.tpp), Masm/Sanity the check of a program and the .BURN of an operating system
--   (backend/sanity.tpp), Masm/Assign the two passes that assign addresses (backend/assign_addr.tpp), with
--   Assign/Image for the sections of an image and their line numbers, and Masm/Regions the table of
--   addresses and lines (elf/addr_line_mapping.hpp and pack.tpp). Ir/Emit says what the sizes and the bytes
--   have to do with each other, Assign/Forward and Assign/Backward say
--   what a pass leaves, and Assign/Burned is about sections whose first lines are turned off.
--
-- The assembler checks a section, assigns addresses to its lines, forwards from 0 or backwards from the
-- address of .BURN, gives symbols their values on the way, and then takes the bytes of the lines.
--
-- A step of the processor reads and writes its two banks, which are blocks of words and of bits, and the
-- machine's memory, any device. If it succeeds, the machine stores the three histories under the cycle
-- count; if it fails, it plays them backward.
--
-- How the code is represented
--
-- A method is a function from a state to an outcome and a state (Prelude/Exec). An outcome is a value, an
-- error of `result<T>`, or `crash`, which stands for a C++ exception or undefined behaviour: nothing here
-- catches one. What was written before a failure stays written. A parameter is cast where the callee's
-- type is narrower: `u8`, `u16` and `u64` are the remainders modulo 2^8, 2^16 and 2^64, and `sub16` adds
-- 2^16 before it subtracts. The cases of a dispatch for the accumulator and the index register differ in
-- the register alone and share a definition.
--
-- Pep10/View describes the machine as a program sees it: registers, status bits, bytes and the call
-- depth. `Runs ram x w a w'` says that from every machine that shows w, the method x succeeds with a and
-- the machine shows w' then; this holds of every memory that keeps the promises of Storage/Ram and has
-- 2^16 bytes. View/Fresh shows that such a machine exists. Pep10/Wellformed is the invariant of the two
-- banks, which needs no promise of the memory. Pep10/Invariant shows that a property of machines which
-- the accesses keep is kept by every instruction; the invariant is one such property, and the cycle
-- count (Pep10/Cycles) another. The proofs use rules for `search`: one for each way in which methods are
-- put together, and one for each access.
--
-- The loop `run` takes fuel: each turn is one step, and `none` is the answer where fuel is used up. As
-- many units as there are cycles up to the bound are enough (Pep10/Cycles/Run). The facts about the instruction
-- tables are tests evaluated at all 256 bytes.
--
-- A loop over the events of a channel has as much fuel as there are events in the store, and crashes
-- without. From the head to the tail there are no more (the field `room` in Channel/Chain), and a loop
-- over them visits each event once.
--
-- The loops over the characters of a text take its length as fuel: each turn takes at least one character,
-- so that the text is used up first. A line of a section is a record of the fields that all lines have and a
-- kind, or a macro invocation with the lines of its macro; the passes go down into the macros as the code
-- does. A symbol is its place in the list of all symbols, which the passes change. The address type is the
-- 16 bits of Pep/10.
--
-- The devices of a layered storage are of one kind and distinct, and nothing else holds them; the same
-- is true of the device behind read-only storage. The counters of memory-mapped histories are bytes, the
-- type of the stored values.
--
-- Not modelled: the sibling policy of symbol tables and the insertion of tables; the frontend of the
-- assembler (its lexer, preprocessor and parser, but for one test of the parser), the registry of macros,
-- listings and the writing of images; the ELF tools and the JavaScript bindings; text output, and the locks
-- that a machine hands to its processor, which do nothing here. `device_at`, `input_device` and
-- `output_device` look up devices in a tree of devices, of which a block has none.
-- `run` without a bound stores a `result<step::Result>` in a `result<bool>` and is left out.
pub mod Prelude
pub mod Storage
pub mod Pep10
pub mod Symbol
pub mod Pep9
pub mod Masm
pub mod Tests
