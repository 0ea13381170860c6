-- ===== src/RegAlloc.antt =====
-- codegen/asm: register numbers, the register sets of the targets, and linear scan register
-- allocation.
pub mod Register
pub mod Target
pub mod DenseMap
pub mod Interval
pub mod LinearScan
