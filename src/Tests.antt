-- ===== src/Tests.antt =====
-- Runs of the modelled code, and each theorem at an input that meets its hypotheses.
mod Allocation
mod Asm
mod RegAlloc
mod Cells
mod RiscvMachine
mod Riscv
mod X86Machine
mod X86
mod Rewrite
mod ShieldSystem
mod Shield
mod RiscvRewrite
