-- ===== src/Select/X86/Arith.antt =====
-- The handlers of arithmetic. Each gives the register that holds the result.
use remniw.Prelude.{ℕ}
use remniw.Asm.Operand.{AsmOperand, reg, imm}
use remniw.RegAlloc.Target.X86.{reg_no, rax}
use remniw.Select.{Select, pure, fail, ◌>>=◌, ◌>>◌, new_virt_reg}
use remniw.Select.X86.Create.{
  create_mov_inst, create_add_inst, create_sub_inst, create_imul_inst, create_idiv_inst,
  create_cqto_inst,
}

unfoldable pub handle_add : AsmOperand → AsmOperand → Select ℕ
unfolding create_add_inst
handle_add (reg reg1) (reg reg2) = do create_add_inst (reg reg1) (reg reg2); pure reg2
handle_add (reg r) (imm i) = do create_add_inst (imm i) (reg r); pure r
handle_add (imm i) (reg r) = do create_add_inst (imm i) (reg r); pure r
handle_add _ _ = fail

unfoldable pub handle_sub : AsmOperand → AsmOperand → Select ℕ
unfolding create_mov_inst create_sub_inst
handle_sub (reg reg1) (reg reg2) = do create_sub_inst (reg reg2) (reg reg1); pure reg1
handle_sub (reg r) (imm i) = do create_sub_inst (imm i) (reg r); pure r
handle_sub (imm i) (reg r) = do
  virt_reg ← new_virt_reg
  create_mov_inst (imm i) (reg virt_reg)
  create_sub_inst (reg r) (reg virt_reg)
  pure virt_reg
handle_sub _ _ = fail

unfoldable pub handle_mul : AsmOperand → AsmOperand → Select ℕ
unfolding create_imul_inst
handle_mul (reg reg1) (reg reg2) = do create_imul_inst (reg reg1) (reg reg2); pure reg2
handle_mul (reg r) (imm i) = do create_imul_inst (imm i) (reg r); pure r
handle_mul (imm i) (reg r) = do create_imul_inst (imm i) (reg r); pure r
handle_mul _ _ = fail

unfoldable pub handle_sdiv : AsmOperand → AsmOperand → Select ℕ
unfolding create_mov_inst create_cqto_inst create_idiv_inst
handle_sdiv (reg reg1) (reg reg2) = do
  create_mov_inst (reg reg1) (reg (reg_no rax))
  create_cqto_inst
  create_idiv_inst (reg reg2)
  pure (reg_no rax)
handle_sdiv (reg r) (imm i) = do
  virt_reg ← new_virt_reg
  create_mov_inst (reg r) (reg (reg_no rax))
  create_cqto_inst
  create_mov_inst (imm i) (reg virt_reg)
  create_idiv_inst (reg virt_reg)
  pure (reg_no rax)
handle_sdiv (imm i) (reg r) = do
  create_mov_inst (imm i) (reg (reg_no rax))
  create_cqto_inst
  create_idiv_inst (reg r)
  pure (reg_no rax)
handle_sdiv _ _ = fail
