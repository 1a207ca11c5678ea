-- ===== src/Masm.antt =====
-- src/libisa/masm and asmb/pep10: the macro assembler.
pub mod Conversion
pub mod Args
pub mod Ir
pub mod Sanity
pub mod Assign
pub mod Regions
