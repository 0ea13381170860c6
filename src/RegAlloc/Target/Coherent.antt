-- ===== src/RegAlloc/Target/Coherent.antt =====
-- Both targets keep what the allocator relies on.
use remniw.RegAlloc.Target.{IsCoherent}
use remniw.RegAlloc.Target.X86.{x86_target_info, x86-IsCoherent}
use remniw.RegAlloc.Target.Riscv.{riscv_target_info, riscv-IsCoherent}

-- On x86-64 and on RISC-V the register tests, lists and counts agree with one another, and the free
-- registers are physical, saved by one side, and not SP or FP.
pub target_infos-IsCoherent : IsCoherent x86_target_info × IsCoherent riscv_target_info
target_infos-IsCoherent = (x86-IsCoherent, riscv-IsCoherent)
