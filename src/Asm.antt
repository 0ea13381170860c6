-- ===== src/Asm.antt =====
-- codegen/asm: operands, instructions, and the live ranges that are recorded as instructions are
-- added to a function.
pub mod Operand
pub mod LiveRanges
