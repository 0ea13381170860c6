-- ===== src/Select/X86/Memory.antt =====
-- The handlers of allocas, loads, stores and addresses. The size of an element is what LLVM's data
-- layout says, and an argument here.
use remniw.Prelude.{ℕ, ◌+◌, ◌-◌, ◌*◌, Bool, not, ltb, ◌==◌, ◌||◌, if◌then◌else◌, get_or, length}
use remniw.Asm.Operand.{AsmOperand, MemOp, reg, mem, imm, lbl}
use remniw.RegAlloc.Register.{no_register}
use remniw.RegAlloc.Target.X86.{arg_regs}
use remniw.Select.{
  Select, pure, fail, ◌>>=◌, ◌>>◌, new_virt_reg, create_mem, base_mem, create_stack_object,
  no_stack_object, u64,
}
use remniw.Select.X86.Create.{create_mov_inst, create_lea_inst}

abbrev pub is_stack_object : MemOp → Bool
is_stack_object m = not (m.stack_object_index == no_stack_object)

unfoldable pub handle_alloca : ℕ → Select MemOp
handle_alloca stack_object_index = pure (create_stack_object stack_object_index)

unfoldable pub handle_load : AsmOperand → Select ℕ
unfolding create_mov_inst
handle_load (mem m) = do
  virt_reg ← new_virt_reg
  create_mov_inst (mem m) (reg virt_reg)
  pure virt_reg
handle_load (reg r) = do
  virt_reg ← new_virt_reg
  create_mov_inst (mem (base_mem 0 r)) (reg virt_reg)
  pure virt_reg
handle_load _ = fail

unfoldable pub handle_store : AsmOperand → AsmOperand → Select (Unit {0})
unfolding create_mov_inst create_lea_inst
handle_store (reg r) (mem m) = create_mov_inst (reg r) (mem m)
handle_store (reg reg1) (reg reg2) = create_mov_inst (reg reg1) (mem (base_mem 0 reg2))
handle_store (imm i) (reg r) = create_mov_inst (imm i) (mem (base_mem 0 r))
handle_store (imm i) (mem m) = create_mov_inst (imm i) (mem m)
handle_store (mem mem1) (mem mem2) = do
  virt_reg ← new_virt_reg
  create_lea_inst (mem mem1) (reg virt_reg)
  create_mov_inst (reg virt_reg) (mem mem2)
handle_store (lbl l) (mem m) = do
  virt_reg ← new_virt_reg
  create_lea_inst (lbl l) (reg virt_reg)
  create_mov_inst (reg virt_reg) (mem m)
handle_store _ _ = fail

-- The overload for an argument of the function. A virtual register is made on both branches.
unfoldable pub handle_store_arg : ℕ → MemOp → Select (Unit {0})
unfolding create_mov_inst
handle_store_arg arg_no m = do
  virt_reg ← new_virt_reg
  if ltb arg_no (length arg_regs)
      then create_mov_inst (reg (get_or arg_regs arg_no no_register)) (mem m)
      else (do
        create_mov_inst (mem (create_stack_object (arg_no - length arg_regs))) (reg virt_reg)
        create_mov_inst (reg virt_reg) (mem m))

abbrev pub is_scale : ℕ → Bool
is_scale size = size == 1 || size == 2 || size == 4 || size == 8

unfoldable pub handle_getelementptr : ℕ → AsmOperand → AsmOperand → Select MemOp
unfolding create_lea_inst
handle_getelementptr size (mem m) (imm i) =
    if is_stack_object m
    then (do
      virt_reg ← new_virt_reg
      create_lea_inst (mem m) (reg virt_reg)
      pure (base_mem (u64 (size * i)) virt_reg))
    else pure (create_mem (u64 (m.disp + size * i)) m.base_reg m.index_reg m.scale)
handle_getelementptr size (mem m) (reg r) =
    if not (is_scale size)
    then fail
    else if is_stack_object m
    then (do
      virt_reg ← new_virt_reg
      create_lea_inst (mem m) (reg virt_reg)
      pure (create_mem 0 virt_reg r size))
    else if m.index_reg == no_register
    then pure (create_mem m.disp m.base_reg r size)
    else (do
      virt_reg ← new_virt_reg
      create_lea_inst (mem m) (reg virt_reg)
      pure (create_mem 0 virt_reg r size))
handle_getelementptr size (reg r) (imm i) = pure (base_mem (u64 (size * i)) r)
handle_getelementptr size (reg reg1) (reg reg2) =
    if not (is_scale size) then fail else pure (create_mem 0 reg1 reg2 size)
handle_getelementptr _ _ _ = fail
