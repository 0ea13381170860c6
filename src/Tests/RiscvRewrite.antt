-- ===== src/Tests/RiscvRewrite.antt =====
-- Rewriting for RISC-V, of a function with no local objects.
use remniw.Prelude.{◌≡◌, refl, true, [], ◌∷◌, some}
use remniw.RegAlloc.Target.Riscv.{reg_no, ra, sp, a0}
use remniw.Rewrite.{AsmFunction, neg}
use remniw.Rewrite.Riscv.{memory_inst}
use remniw.Rewrite.Riscv.Frame.{
  near_insts, near_operands, near_operand, near_immediate, li_inst, three_registers,
}
use remniw.Select.Riscv.Create.{ld, add}

abbrev no_locals : AsmFunction
no_locals = record {
  is_main = true;
  local_frame_size = 0;
  max_call_frame_size = 0;
  stack_objects = [];
  inst_list = [];
}

-- A load from 5000 bytes below the register goes through the return address register.
far_load :
    near_insts (memory_inst ld (reg_no a0) (neg 5000) (reg_no sp) ∷ [])
    ≡ some (
        li_inst (reg_no ra) (neg 5000)
        ∷ three_registers add (reg_no ra) (reg_no ra) (reg_no sp)
        ∷ memory_inst ld (reg_no a0) 0 (reg_no ra)
        ∷ [])
unfolding near_insts near_operands near_operand near_immediate
far_load = refl
