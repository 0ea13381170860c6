-- ===== src/Select/Riscv/Arithmetic.antt =====
-- The four handlers of arithmetic on RISC-V together.
use remniw.Select.Machine.{Machine}
