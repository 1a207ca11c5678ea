-- ===== src/Pep10.antt =====
-- src/libisa/isa/pep10: the Pep/10 instruction set, processor and machine.
pub mod Types
pub mod InstrList
pub mod Isa
pub mod State
pub mod Access
pub mod Operand
pub mod Unary
pub mod Alu
pub mod Nonunary
pub mod Machine
pub mod StepDelta
pub mod Step
pub mod Invariant
pub mod Cycles
pub mod Wellformed
pub mod View
