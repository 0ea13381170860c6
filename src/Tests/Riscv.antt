-- ===== src/Tests/Riscv.antt =====
-- Selected RISC-V code on a processor whose register r holds 100 * r at first.
use remniw.Prelude.{◌+◌, ◌*◌, refl, arith}
use remniw.Asm.Operand.{reg, mem}
use remniw.Select.{Counters, base_mem}
use remniw.Select.Effects.{Addresses}
use remniw.Select.Riscv.Elements.{handle_getelementptr-Addresses_riscv}
use remniw.Select.Riscv.Memory.{handle_getelementptr}
use remniw.Tests.Cells.{Cells}
use remniw.Tests.RiscvMachine.{processor, processor-IsRiscv}

abbrev start : Counters
start = record { next_index = 4; call_arg_offset = 16 }

abbrev cells : Cells
cells = record { regs = λ r. 100 * r; words = λ a. a + 1 }

handle_getelementptr-Addresses_riscv_example :
    Addresses processor start
      (handle_getelementptr 8 (mem (base_mem 5000 12)) (reg 13))
      cells
      (6200 + 8 * 1300)
handle_getelementptr-Addresses_riscv_example =
    handle_getelementptr-Addresses_riscv processor processor-IsRiscv 8 (omega arith) start cells
      (omega arith) (mem (base_mem 5000 12)) (reg 13)
      ((refl, refl, omega arith, omega arith, omega arith, omega arith), omega arith)
