-- ===== src/Pep9.antt =====
-- src/libisa/isa/pep9: the Pep/9 instruction set.
pub mod InstrList
pub mod Isa
