-- ===== src/Select/Riscv/Memory.antt =====
-- The handlers of allocas, loads, stores and addresses.
use remniw.Prelude.{ℕ, ◌-◌, ◌*◌, ltb, if◌then◌else◌, get_or, length}
use remniw.Asm.Operand.{AsmOperand, MemOp, reg, mem, imm, lbl}
use remniw.RegAlloc.Register.{no_register}
use remniw.RegAlloc.Target.Riscv.{arg_regs}
use remniw.Select.{
  Select, pure, fail, ◌>>=◌, ◌>>◌, new_virt_reg, base_mem, create_stack_object, u64,
}
use remniw.Select.Riscv.Create.{
  create_ld_inst, create_sd_inst, create_li_inst, create_la_inst, create_mul_inst, create_add_inst,
  store_memory_address_to_reg,
}

unfoldable pub handle_alloca : ℕ → Select MemOp
handle_alloca stack_object_index = pure (create_stack_object stack_object_index)

unfoldable pub handle_load : AsmOperand → Select ℕ
unfolding create_ld_inst
handle_load (mem m) = do
  virt_reg ← new_virt_reg
  create_ld_inst (reg virt_reg) (mem m)
  pure virt_reg
handle_load (reg r) = do
  virt_reg ← new_virt_reg
  create_ld_inst (reg virt_reg) (mem (base_mem 0 r))
  pure virt_reg
handle_load _ = fail

unfoldable pub handle_store : AsmOperand → AsmOperand → Select (Unit {0})
unfolding create_sd_inst create_li_inst create_la_inst
handle_store (reg r) (mem m) = create_sd_inst (reg r) (mem m)
handle_store (reg reg1) (reg reg2) = create_sd_inst (reg reg1) (mem (base_mem 0 reg2))
handle_store (imm i) (reg r) = do
  virt_reg ← new_virt_reg
  create_li_inst (reg virt_reg) (imm i)
  create_sd_inst (reg virt_reg) (mem (base_mem 0 r))
handle_store (imm i) (mem m) = do
  virt_reg ← new_virt_reg
  create_li_inst (reg virt_reg) (imm i)
  create_sd_inst (reg virt_reg) (mem m)
handle_store (mem mem1) (mem mem2) = do
  virt_reg ← new_virt_reg
  store_memory_address_to_reg mem1 virt_reg
  create_sd_inst (reg virt_reg) (mem mem2)
handle_store (lbl l) (mem m) = do
  virt_reg ← new_virt_reg
  create_la_inst (reg virt_reg) (lbl l)
  create_sd_inst (reg virt_reg) (mem m)
handle_store _ _ = fail

-- The overload for an argument of the function. A virtual register is made on both branches.
unfoldable pub handle_store_arg : ℕ → MemOp → Select (Unit {0})
unfolding create_sd_inst create_ld_inst
handle_store_arg arg_no m = do
  virt_reg ← new_virt_reg
  if ltb arg_no (length arg_regs)
      then create_sd_inst (reg (get_or arg_regs arg_no no_register)) (mem m)
      else (do
        create_ld_inst (reg virt_reg) (mem (create_stack_object (arg_no - length arg_regs)))
        create_sd_inst (reg virt_reg) (mem m))

-- There are no scaled operands: the product is computed.
unfoldable pub handle_getelementptr : ℕ → AsmOperand → AsmOperand → Select MemOp
unfolding create_li_inst create_mul_inst create_add_inst
handle_getelementptr size (mem m) (imm i) = do
  virt_reg ← new_virt_reg
  store_memory_address_to_reg m virt_reg
  pure (base_mem (u64 (size * i)) virt_reg)
handle_getelementptr size (mem m) (reg r) = do
  virt_reg1 ← new_virt_reg
  store_memory_address_to_reg m virt_reg1
  virt_reg2 ← new_virt_reg
  create_li_inst (reg virt_reg2) (imm size)
  create_mul_inst (reg virt_reg2) (reg virt_reg2) (reg r)
  create_add_inst (reg virt_reg2) (reg virt_reg2) (reg virt_reg1)
  pure (base_mem 0 virt_reg2)
handle_getelementptr size (reg r) (imm i) = pure (base_mem (u64 (size * i)) r)
handle_getelementptr size (reg reg1) (reg reg2) = do
  virt_reg ← new_virt_reg
  create_li_inst (reg virt_reg) (imm size)
  create_mul_inst (reg virt_reg) (reg virt_reg) (reg reg2)
  create_add_inst (reg virt_reg) (reg virt_reg) (reg reg1)
  pure (base_mem 0 virt_reg)
handle_getelementptr _ _ _ = fail
