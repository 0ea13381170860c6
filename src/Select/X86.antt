-- ===== src/Select/X86.antt =====
-- codegen/asm/X86/X86AsmBuilder.cpp.
pub mod Create
pub mod Arith
pub mod Memory
pub mod Control
pub mod Isa
pub mod Sums
pub mod Quotients
pub mod Addresses
pub mod Transfers
pub mod Passing
