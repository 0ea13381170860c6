-- ===== src/Select/Riscv/Control.antt =====
-- The handlers of comparisons, branches, calls, arguments and results. A comparison makes no code for
-- its own: its registers are kept for the branch in `CondRegsMap`, whose keys are the comparisons.
use mathlib.Core.Option
use remniw.Prelude.{
  ℕ, true, false, List, [], ◌∷◌, Option, none, some, ltb, ◌==◌, if◌then◌else◌, get_or, length,
}
use remniw.Asm.Operand.{AsmOperand, reg, mem, imm, lbl}
use remniw.RegAlloc.Register.{no_register}
use remniw.RegAlloc.Target.Riscv.{arg_regs, reg_no, a0, sp}
use remniw.Select.{
  Predicate, icmp_eq, icmp_ne, icmp_sgt, icmp_other, Select, pure, fail, ◌>>=◌, ◌>>◌, new_virt_reg,
  base_mem, call_arg_offset, advance_call_arg_offset, reset_call_arg_offset,
}
use remniw.Select.Riscv.Create.{
  create_sd_inst, create_mv_inst, create_li_inst, create_la_inst, create_beq_inst, create_bne_inst,
  create_bgt_inst, create_ble_inst, create_call_inst, create_label_inst, create_j_inst,
  store_memory_address_to_reg,
}

unfoldable pub handle_ret : AsmOperand → Select (Unit {0})
unfolding create_mv_inst create_li_inst
handle_ret (reg r) = create_mv_inst (reg (reg_no a0)) (reg r)
handle_ret (imm i) = create_li_inst (reg (reg_no a0)) (imm i)
handle_ret _ = fail

abbrev pub CondRegsMap : Type 0
CondRegsMap = List (ℕ × ℕ × ℕ)

unfoldable pub find_cond_regs : ℕ → CondRegsMap → Option (ℕ × ℕ)
find_cond_regs ci [] = none
find_cond_regs ci ((key, reg1, reg2) ∷ rest) =
    if key == ci then some (reg1, reg2) else find_cond_regs ci rest

-- `insert`, which leaves an entry that is there.
unfoldable pub insert_cond_regs : ℕ → ℕ → ℕ → CondRegsMap → CondRegsMap
unfolding find_cond_regs
insert_cond_regs ci reg1 reg2 m = elim (find_cond_regs ci m) [
  | some old ↦ m
  | none ↦ (ci, reg1, reg2) ∷ m
]

-- `CondRegsMap[CI]`
unfoldable pub cond_regs : ℕ → CondRegsMap → ℕ × ℕ
unfolding find_cond_regs
cond_regs ci m = Option.get_or (find_cond_regs ci m) (0, 0)

unfoldable pub handle_icmp : ℕ → AsmOperand → AsmOperand → CondRegsMap → Select CondRegsMap
unfolding create_li_inst insert_cond_regs
handle_icmp ci (reg reg1) (reg reg2) m = pure (insert_cond_regs ci reg1 reg2 m)
handle_icmp ci (reg r) (imm i) m = do
  li_dst_reg ← new_virt_reg
  create_li_inst (reg li_dst_reg) (imm i)
  pure (insert_cond_regs ci r li_dst_reg m)
handle_icmp ci (imm i) (reg r) m = do
  li_dst_reg ← new_virt_reg
  create_li_inst (reg li_dst_reg) (imm i)
  pure (insert_cond_regs ci li_dst_reg r m)
handle_icmp ci _ _ m = fail

-- Both successors are jumped to.
unfoldable pub handle_br : Predicate → ℕ → AsmOperand → AsmOperand → CondRegsMap → Select (Unit {0})
unfolding cond_regs create_beq_inst create_bne_inst create_bgt_inst create_ble_inst
handle_br icmp_eq ci label1 label2 m = do
  create_beq_inst (reg (cond_regs ci m).0) (reg (cond_regs ci m).1) label1
  create_bne_inst (reg (cond_regs ci m).0) (reg (cond_regs ci m).1) label2
handle_br icmp_ne ci label1 label2 m = do
  create_bne_inst (reg (cond_regs ci m).0) (reg (cond_regs ci m).1) label1
  create_beq_inst (reg (cond_regs ci m).0) (reg (cond_regs ci m).1) label2
handle_br icmp_sgt ci label1 label2 m = do
  create_bgt_inst (reg (cond_regs ci m).0) (reg (cond_regs ci m).1) label1
  create_ble_inst (reg (cond_regs ci m).0) (reg (cond_regs ci m).1) label2
handle_br icmp_other ci label1 label2 m = fail

unfoldable pub handle_goto : AsmOperand → Select (Unit {0})
unfolding create_j_inst
handle_goto l = create_j_inst l

-- The overloads differ in whether the call is direct.
unfoldable pub handle_call : ℕ → AsmOperand → Select ℕ
unfolding create_call_inst create_mv_inst
handle_call num_args (lbl symbol) = do
  reset_call_arg_offset
  create_call_inst (lbl symbol) true num_args
  virt_reg ← new_virt_reg
  create_mv_inst (reg virt_reg) (reg (reg_no a0))
  pure virt_reg
handle_call num_args (reg r) = do
  reset_call_arg_offset
  create_call_inst (reg r) false num_args
  virt_reg ← new_virt_reg
  create_mv_inst (reg virt_reg) (reg (reg_no a0))
  pure virt_reg
handle_call num_args (mem m) = do
  reset_call_arg_offset
  create_call_inst (mem m) false num_args
  virt_reg ← new_virt_reg
  create_mv_inst (reg virt_reg) (reg (reg_no a0))
  pure virt_reg
handle_call num_args (imm i) = fail

abbrev pub arg_reg : ℕ → AsmOperand
arg_reg arg_no = reg (get_or arg_regs arg_no no_register)

-- A register is stored at the offset that is reached, which moves on by the size.
unfoldable pub store_stack_arg : ℕ → ℕ → Select (Unit {0})
unfolding create_sd_inst
store_stack_arg size r = do
  offset ← call_arg_offset
  create_sd_inst (reg r) (mem (base_mem offset (reg_no sp)))
  advance_call_arg_offset size

unfoldable pub handle_arg : ℕ → ℕ → AsmOperand → Select (Unit {0})
unfolding store_stack_arg create_mv_inst create_li_inst create_la_inst
handle_arg arg_no size (reg r) =
    if ltb arg_no (length arg_regs)
    then create_mv_inst (arg_reg arg_no) (reg r)
    else store_stack_arg size r
handle_arg arg_no size (imm i) =
    if ltb arg_no (length arg_regs) then create_li_inst (arg_reg arg_no) (imm i) else (do
      virt_reg ← new_virt_reg
      create_li_inst (reg virt_reg) (imm i)
      store_stack_arg size virt_reg)
handle_arg arg_no size (mem m) = do
  virt_reg ← new_virt_reg
  store_memory_address_to_reg m virt_reg
  if ltb arg_no (length arg_regs)
      then create_mv_inst (arg_reg arg_no) (reg virt_reg)
      else store_stack_arg size virt_reg
handle_arg arg_no size (lbl l) = do
  la_dst_reg ← new_virt_reg
  create_la_inst (reg la_dst_reg) (lbl l)
  if ltb arg_no (length arg_regs)
      then create_mv_inst (arg_reg arg_no) (reg la_dst_reg)
      else store_stack_arg size la_dst_reg

unfoldable pub handle_label : AsmOperand → Select (Unit {0})
unfolding create_label_inst
handle_label l = create_label_inst l
