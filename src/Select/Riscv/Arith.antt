-- ===== src/Select/Riscv/Arith.antt =====
-- The handlers of arithmetic. Each leaves its result in a new virtual register.
use remniw.Prelude.{ℕ}
use remniw.Asm.Operand.{AsmOperand, reg, imm}
use remniw.Select.{Select, pure, fail, ◌>>=◌, ◌>>◌, new_virt_reg}
use remniw.Select.Riscv.Create.{
  create_li_inst, create_add_inst, create_sub_inst, create_mul_inst, create_div_inst,
}

unfoldable pub handle_add : AsmOperand → AsmOperand → Select ℕ
unfolding create_li_inst create_add_inst
handle_add (reg reg1) (reg reg2) = do
  virt_reg ← new_virt_reg
  create_add_inst (reg virt_reg) (reg reg1) (reg reg2)
  pure virt_reg
handle_add (reg r) (imm i) = do
  virt_reg ← new_virt_reg
  create_li_inst (reg virt_reg) (imm i)
  create_add_inst (reg virt_reg) (reg r) (reg virt_reg)
  pure virt_reg
handle_add (imm i) (reg r) = do
  virt_reg ← new_virt_reg
  create_li_inst (reg virt_reg) (imm i)
  create_add_inst (reg virt_reg) (reg r) (reg virt_reg)
  pure virt_reg
handle_add _ _ = fail

unfoldable pub handle_sub : AsmOperand → AsmOperand → Select ℕ
unfolding create_li_inst create_sub_inst
handle_sub (reg reg1) (reg reg2) = do
  virt_reg ← new_virt_reg
  create_sub_inst (reg virt_reg) (reg reg1) (reg reg2)
  pure virt_reg
handle_sub (reg r) (imm i) = do
  virt_reg ← new_virt_reg
  create_li_inst (reg virt_reg) (imm i)
  create_sub_inst (reg virt_reg) (reg r) (reg virt_reg)
  pure virt_reg
handle_sub (imm i) (reg r) = do
  li_dst_reg ← new_virt_reg
  create_li_inst (reg li_dst_reg) (imm i)
  create_sub_inst (reg li_dst_reg) (reg li_dst_reg) (reg r)
  pure li_dst_reg
handle_sub _ _ = fail

unfoldable pub handle_mul : AsmOperand → AsmOperand → Select ℕ
unfolding create_li_inst create_mul_inst
handle_mul (reg reg1) (reg reg2) = do
  virt_reg ← new_virt_reg
  create_mul_inst (reg virt_reg) (reg reg1) (reg reg2)
  pure virt_reg
handle_mul (reg r) (imm i) = do
  virt_reg ← new_virt_reg
  create_li_inst (reg virt_reg) (imm i)
  create_mul_inst (reg virt_reg) (reg r) (reg virt_reg)
  pure virt_reg
handle_mul (imm i) (reg r) = do
  virt_reg ← new_virt_reg
  create_li_inst (reg virt_reg) (imm i)
  create_mul_inst (reg virt_reg) (reg virt_reg) (reg r)
  pure virt_reg
handle_mul _ _ = fail

unfoldable pub handle_sdiv : AsmOperand → AsmOperand → Select ℕ
unfolding create_li_inst create_div_inst
handle_sdiv (reg reg1) (reg reg2) = do
  virt_reg ← new_virt_reg
  create_div_inst (reg virt_reg) (reg reg1) (reg reg2)
  pure virt_reg
handle_sdiv (reg r) (imm i) = do
  virt_reg ← new_virt_reg
  create_li_inst (reg virt_reg) (imm i)
  create_div_inst (reg virt_reg) (reg r) (reg virt_reg)
  pure virt_reg
handle_sdiv (imm i) (reg r) = do
  virt_reg ← new_virt_reg
  create_li_inst (reg virt_reg) (imm i)
  create_div_inst (reg virt_reg) (reg virt_reg) (reg r)
  pure virt_reg
handle_sdiv _ _ = fail
