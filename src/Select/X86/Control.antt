-- ===== src/Select/X86/Control.antt =====
-- The handlers of comparisons, branches, calls, arguments and results. What LLVM says of the
-- instruction is an argument: its predicate, which successor is the block after it, the number of
-- arguments and the size of one. So is whether a symbol is `printf` or `scanf`.
use remniw.Prelude.{ℕ, Bool, true, false, ltb, if◌then◌else◌, get_or, length}
use remniw.Asm.Operand.{AsmOperand, reg, mem, imm, lbl}
use remniw.RegAlloc.Register.{no_register}
use remniw.RegAlloc.Target.X86.{arg_regs, reg_no, rax, rsp}
use remniw.Select.{
  Predicate, icmp_eq, icmp_ne, icmp_sgt, icmp_other, Select, pure, fail, ◌>>=◌, ◌>>◌, new_virt_reg,
  base_mem, call_arg_offset, advance_call_arg_offset, reset_call_arg_offset,
}
use remniw.Select.X86.Create.{
  X86Opcode, jmp, je, jne, jg, jle, create_mov_inst, create_lea_inst, create_cmp_inst,
  create_jmp_inst, create_call_inst, create_xor_inst, create_label_inst,
}

unfoldable pub handle_ret : AsmOperand → Select (Unit {0})
unfolding create_mov_inst
handle_ret (reg r) = create_mov_inst (reg r) (reg (reg_no rax))
handle_ret (imm i) = create_mov_inst (imm i) (reg (reg_no rax))
handle_ret _ = fail

unfoldable pub handle_icmp : AsmOperand → AsmOperand → Select (Unit {0})
unfolding create_mov_inst create_cmp_inst
handle_icmp (reg reg1) (reg reg2) = create_cmp_inst (reg reg2) (reg reg1)
handle_icmp (reg r) (imm i) = create_cmp_inst (imm i) (reg r)
handle_icmp (imm i) (reg r) = do
  virt_reg ← new_virt_reg
  create_mov_inst (imm i) (reg virt_reg)
  create_cmp_inst (reg r) (reg virt_reg)
handle_icmp _ _ = fail

-- Which successor the next block is.
pub data NextBlock : Type 0 where
  successor0 successor1 neither : NextBlock

unfoldable pub create_branches :
    X86Opcode → X86Opcode → NextBlock → AsmOperand → AsmOperand → Select (Unit {0})
unfolding create_jmp_inst
create_branches jmp_true jmp_false successor0 label1 label2 = create_jmp_inst jmp_false label2
create_branches jmp_true jmp_false successor1 label1 label2 = create_jmp_inst jmp_true label1
create_branches jmp_true jmp_false neither label1 label2 = do
  create_jmp_inst jmp_true label1
  create_jmp_inst jmp_false label2

unfoldable pub handle_br : Predicate → NextBlock → AsmOperand → AsmOperand → Select (Unit {0})
unfolding create_branches
handle_br icmp_eq next label1 label2 = create_branches je jne next label1 label2
handle_br icmp_ne next label1 label2 = create_branches jne je next label1 label2
handle_br icmp_sgt next label1 label2 = create_branches jg jle next label1 label2
handle_br icmp_other next label1 label2 = fail

unfoldable pub handle_goto : Bool → AsmOperand → Select (Unit {0})
unfolding create_jmp_inst
handle_goto next_is_successor l = if next_is_successor then pure tt else create_jmp_inst jmp l

unfoldable pub handle_call : (ℕ → Bool) → ℕ → AsmOperand → Select ℕ
unfolding create_xor_inst create_call_inst create_mov_inst
handle_call is_variadic num_args (lbl symbol) = do
  reset_call_arg_offset
  if is_variadic symbol then create_xor_inst (reg (reg_no rax)) (reg (reg_no rax)) else pure tt
  virt_reg ← new_virt_reg
  create_call_inst (lbl symbol) true num_args
  create_mov_inst (reg (reg_no rax)) (reg virt_reg)
  pure virt_reg
handle_call is_variadic num_args (reg r) = do
  reset_call_arg_offset
  create_call_inst (reg r) false num_args
  virt_reg ← new_virt_reg
  create_mov_inst (reg (reg_no rax)) (reg virt_reg)
  pure virt_reg
handle_call is_variadic num_args (mem m) = do
  reset_call_arg_offset
  create_call_inst (mem m) false num_args
  virt_reg ← new_virt_reg
  create_mov_inst (reg (reg_no rax)) (reg virt_reg)
  pure virt_reg
handle_call is_variadic num_args (imm i) = fail

abbrev pub arg_reg : ℕ → AsmOperand
arg_reg arg_no = reg (get_or arg_regs arg_no no_register)

-- Arguments after the sixth go to the stack, at the offset that is reached.
unfoldable pub handle_arg : ℕ → ℕ → AsmOperand → Select (Unit {0})
unfolding create_mov_inst create_lea_inst
handle_arg arg_no size (reg r) =
    if ltb arg_no (length arg_regs) then create_mov_inst (reg r) (arg_reg arg_no) else (do
      offset ← call_arg_offset
      create_mov_inst (reg r) (mem (base_mem offset (reg_no rsp)))
      advance_call_arg_offset size)
handle_arg arg_no size (imm i) =
    if ltb arg_no (length arg_regs) then create_mov_inst (imm i) (arg_reg arg_no) else (do
      offset ← call_arg_offset
      create_mov_inst (imm i) (mem (base_mem offset (reg_no rsp)))
      advance_call_arg_offset size)
handle_arg arg_no size (mem m) =
    if ltb arg_no (length arg_regs) then create_lea_inst (mem m) (arg_reg arg_no) else (do
      virt_reg ← new_virt_reg
      create_mov_inst (mem m) (reg virt_reg)
      offset ← call_arg_offset
      create_mov_inst (reg virt_reg) (mem (base_mem offset (reg_no rsp)))
      advance_call_arg_offset size)
handle_arg arg_no size (lbl l) =
    if ltb arg_no (length arg_regs) then create_lea_inst (lbl l) (arg_reg arg_no) else (do
      offset ← call_arg_offset
      create_lea_inst (lbl l) (mem (base_mem offset (reg_no rsp)))
      advance_call_arg_offset size)

unfoldable pub handle_label : AsmOperand → Select (Unit {0})
unfolding create_label_inst
handle_label l = create_label_inst l
