-- ===== src/Rewrite/Riscv.antt =====
-- codegen/asm/RISCV/RISCVAsmRewriter.h: the rewriting of instructions. Child modules hold the frame, and
-- what is proved.
pub mod Frame
pub mod Spilled
use remniw.Prelude.{
  ℕ, ◌+◌, zero, suc, Bool, List, [], ◌∷◌, ◌++◌, Option, none, some, ◌>>=◌, ◌==◌, if◌then◌else◌,
}
use remniw.Asm.Operand.{AsmOperand, AsmInstruction, reg, mem, imm, lbl}
use remniw.RegAlloc.DenseMap.{DenseMap}
use remniw.RegAlloc.Register.{no_register, is_virtual_register}
use remniw.RegAlloc.Target.{contains}
use remniw.RegAlloc.Target.Riscv.{reg_no, a0, fp, arg_regs, free_regs}
use remniw.Rewrite.{
  allocated, rewrite_operand, get_stack_slot_offset, get_reserved_stack_slot_offset,
}
use remniw.Rewrite.X86.{Spilling, all_registers, first_args}
use remniw.Select.{base_mem}
use remniw.Select.Riscv.Create.{RiscvOpcode, opcode_no, ld, sd, call}

unfoldable pub rewrite_operands : DenseMap ℕ → List AsmOperand → Option (List AsmOperand)
rewrite_operands m [] = some []
rewrite_operands m (x ∷ xs) = do
  x' ← rewrite_operand m x
  xs' ← rewrite_operands m xs
  some (x' ∷ xs')

-- `rewriteAsmInstVirtRegToPhysReg`
unfoldable pub rewrite_inst_virt_reg_to_phys_reg :
    DenseMap ℕ → AsmInstruction → Option AsmInstruction
unfolding rewrite_operands
rewrite_inst_virt_reg_to_phys_reg m i = do
  ops ← rewrite_operands m i.operands
  some (record i { operands = ops })

unfoldable pub call_registers : List AsmOperand → Option (List ℕ)
call_registers (callee ∷ imm num_args ∷ []) = some (reg_no a0 ∷ first_args num_args arg_regs)
call_registers _ = none

-- `getUsedRegisters`
unfoldable pub get_used_registers : AsmInstruction → Option (List ℕ)
unfolding call_registers
get_used_registers i =
    if i.opcode == opcode_no call
    then (call_registers i.operands >>= λ rs. some (rs ++ all_registers i.operands))
    else some (all_registers i.operands)

unfoldable pub first_available : List ℕ → List ℕ → ℕ
first_available used_regs [] = no_register
first_available used_regs (r ∷ rs) =
    if contains used_regs r then first_available used_regs rs else r

unfoldable pub get_available_register : List ℕ → ℕ
unfolding first_available
get_available_register used_regs = first_available used_regs free_regs

abbrev pub memory_inst : RiscvOpcode → ℕ → ℕ → ℕ → AsmInstruction
memory_inst op r offset base = record {
  opcode = opcode_no op;
  operands = reg r ∷ mem (base_mem offset base) ∷ [];
}

-- As on x86-64, what is stored back for a later operand comes earlier.
abbrev pub put_around : ℕ → ℕ → ℕ → Spilling → Spilling
put_around avail_reg slot reserved st = record {
  used_regs = st.used_regs ++ avail_reg ∷ [];
  num_reserved = st.num_reserved + 1;
  before =
      st.before
      ++ memory_inst sd avail_reg reserved (reg_no fp)
        ∷ memory_inst ld avail_reg slot (reg_no fp)
        ∷ [];
  after =
      memory_inst sd avail_reg slot (reg_no fp)
      ∷ memory_inst ld avail_reg reserved (reg_no fp)
      ∷ st.after;
}

module _ (m : DenseMap ℕ) (local_frame_size num_spilled : ℕ) where
  -- `rewriteAsmOperandSpilledRegToStackSlot`
  unfoldable pub spill_reg : ℕ → Spilling → Option (ℕ × Spilling)
  unfolding get_available_register
  spill_reg spilled_reg st = do
    allocated_reg ← allocated m spilled_reg
    let avail_reg = get_available_register st.used_regs
    let reserved =
        get_reserved_stack_slot_offset 8 local_frame_size num_spilled (st.num_reserved + 1)
    slot ← get_stack_slot_offset 8 local_frame_size allocated_reg
    if avail_reg == no_register
        then none
        else some (avail_reg, put_around avail_reg slot reserved st)

  unfoldable pub spill_if_virtual : ℕ → Spilling → Option (ℕ × Spilling)
  unfolding spill_reg
  spill_if_virtual r st = if is_virtual_register r then spill_reg r st else some (r, st)

  unfoldable pub spill_operand : AsmOperand → Spilling → Option (AsmOperand × Spilling)
  unfolding spill_if_virtual
  spill_operand (reg r) st = do (r', st') ← spill_if_virtual r st; some (reg r', st')
  spill_operand (mem a) st = do
    (b, st') ← spill_if_virtual a.base_reg st
    (i, st'') ← spill_if_virtual a.index_reg st'
    some (mem (record a { base_reg = b; index_reg = i }), st'')
  spill_operand (imm i) st = some (imm i, st)
  spill_operand (lbl l) st = some (lbl l, st)

  unfoldable pub spill_operands : List AsmOperand → Spilling → Option (List AsmOperand × Spilling)
  unfolding spill_operand
  spill_operands [] st = some ([], st)
  spill_operands (x ∷ xs) st = do
    (x', st') ← spill_operand x st
    (xs', st'') ← spill_operands xs st'
    some (x' ∷ xs', st'')

  -- `rewriteAsmInstSpilledRegToStackSlot`: the instruction with those around it, and the number of
  -- slots that it needs.
  unfoldable pub spill_inst : AsmInstruction → Option (List AsmInstruction × ℕ)
  unfolding get_used_registers spill_operands
  spill_inst i = do
    used ← get_used_registers i
    (ops, st) ←
        spill_operands i.operands
          (record { used_regs = used; num_reserved = 0; before = []; after = [] })
    some (st.before ++ record i { operands = ops } ∷ st.after, st.num_reserved)
