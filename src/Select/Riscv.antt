-- ===== src/Select/Riscv.antt =====
-- codegen/asm/RISCV/RISCVAsmBuilder.cpp.
pub mod Create
pub mod Arith
pub mod Memory
pub mod Control
pub mod Isa
pub mod Operations
pub mod Arithmetic
pub mod Addresses
pub mod Elements
