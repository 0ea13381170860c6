-- ===== src/Rewrite/X86.antt =====
-- codegen/asm/X86/X86AsmRewriter.h: the rewriting of instructions. Child modules hold the frame, and
-- what is proved.
pub mod Frame
pub mod Function
pub mod Registers
pub mod Spills
pub mod Offsets
pub mod Slots
pub mod Allocated
pub mod Instructions
use remniw.Prelude.{
  ℕ, ◌+◌, ◌-◌, ◌^◌, zero, suc, Bool, true, false, List, [], ◌∷◌, ◌++◌, Option, none, some, ◌>>=◌,
  ◌||◌, ◌==◌, ltb, leb, if◌then◌else◌, length,
}
use remniw.Asm.Operand.{AsmOperand, MemOp, AsmInstruction, reg, mem, imm, lbl}
use remniw.RegAlloc.DenseMap.{DenseMap}
use remniw.RegAlloc.Register.{no_register, is_physical_register, is_virtual_register}
use remniw.RegAlloc.Target.{contains}
use remniw.RegAlloc.Target.X86.{reg_no, rax, rdx, rbp, arg_regs}
use remniw.Rewrite.{
  allocated, rewrite_operand, get_stack_slot_offset, get_reserved_stack_slot_offset,
}
use remniw.Select.{base_mem}
use remniw.Select.X86.Create.{
  X86Opcode, opcode_no, mov, lea, cmp, jmp, je, jne, jg, jle, add, sub, imul, idiv, cqto, call, xor,
  label,
}

-- Which operands `rewriteAsmInstVirtRegToPhysReg` rewrites; `none` is the opcode that cannot be met.
pub data Rewritten : Type 0 where
  both first neither : Rewritten

abbrev pub is_opcode : List X86Opcode → ℕ → Bool
is_opcode [] op = false
is_opcode (o ∷ os) op = op == opcode_no o || is_opcode os op

unfoldable pub rewritten_operands : ℕ → Option Rewritten
rewritten_operands op =
    if is_opcode (mov ∷ lea ∷ cmp ∷ add ∷ sub ∷ imul ∷ xor ∷ []) op
    then some both
    else if is_opcode (idiv ∷ call ∷ []) op
    then some first
    else if is_opcode (jmp ∷ je ∷ jne ∷ jg ∷ jle ∷ cqto ∷ label ∷ []) op
    then some neither
    else none

-- An operand that is not there is not rewritten but read out of bounds.
unfoldable pub rewrite_operands :
    DenseMap ℕ → Rewritten → List AsmOperand → Option (List AsmOperand)
rewrite_operands m both (x ∷ y ∷ rest) = do
  x' ← rewrite_operand m x
  y' ← rewrite_operand m y
  some (x' ∷ y' ∷ rest)
rewrite_operands m both _ = none
rewrite_operands m first (x ∷ rest) = do x' ← rewrite_operand m x; some (x' ∷ rest)
rewrite_operands m first [] = none
rewrite_operands m neither ops = some ops

-- `rewriteAsmInstVirtRegToPhysReg`
unfoldable pub rewrite_inst_virt_reg_to_phys_reg :
    DenseMap ℕ → AsmInstruction → Option AsmInstruction
unfolding rewritten_operands rewrite_operands
rewrite_inst_virt_reg_to_phys_reg m i = do
  which ← rewritten_operands i.opcode
  ops ← rewrite_operands m which i.operands
  some (record i { operands = ops })

-- The physical registers of an operand.
unfoldable pub operand_registers : AsmOperand → List ℕ
operand_registers (reg r) = if is_physical_register r then r ∷ [] else []
operand_registers (mem a) =
    (if is_physical_register a.base_reg then a.base_reg ∷ [] else [])
    ++ (if is_physical_register a.index_reg then a.index_reg ∷ [] else [])
operand_registers _ = []

unfoldable pub all_registers : List AsmOperand → List ℕ
unfolding operand_registers
all_registers [] = []
all_registers (x ∷ xs) = operand_registers x ++ all_registers xs

-- The registers of the first arguments, of which the second operand of a call gives the number.
unfoldable pub first_args : ℕ → List ℕ → List ℕ
first_args n [] = []
first_args zero (r ∷ rs) = []
first_args (suc n) (r ∷ rs) = r ∷ first_args n rs

unfoldable pub call_registers : List AsmOperand → Option (List ℕ)
unfolding first_args
call_registers (callee ∷ imm num_args ∷ []) = some (reg_no rax ∷ first_args num_args arg_regs)
call_registers _ = none

-- `getUsedRegisters`
unfoldable pub get_used_registers : AsmInstruction → Option (List ℕ)
unfolding call_registers all_registers
get_used_registers i =
    if is_opcode (idiv ∷ cqto ∷ []) i.opcode
    then some ((reg_no rax ∷ reg_no rdx ∷ []) ++ all_registers i.operands)
    else if i.opcode == opcode_no call
    then (call_registers i.operands >>= λ rs. some (rs ++ all_registers i.operands))
    else some (all_registers i.operands)

-- The loop of `getAvailableRegister`, with the number of registers that are left.
unfoldable pub available_from : ℕ → ℕ → List ℕ → ℕ
available_from zero r used_regs = no_register
available_from (suc n) r used_regs =
    let rest = available_from n (r + 1) used_regs in if contains used_regs r then rest else r

unfoldable pub get_available_register : List ℕ → ℕ
unfolding available_from
get_available_register used_regs = available_from 16 (reg_no rax) used_regs

-- What is passed between the operands of one instruction: the registers in use, the reserved slots,
-- and the instructions that were put before and after it.
pub record Spilling : Type 0 where
  pub used_regs : List ℕ
  pub num_reserved : ℕ
  pub before : List AsmInstruction
  pub after : List AsmInstruction

abbrev pub mov_inst : AsmOperand → AsmOperand → AsmInstruction
mov_inst src dst = record { opcode = opcode_no mov; operands = src ∷ dst ∷ [] }

abbrev pub frame_slot : ℕ → AsmOperand
frame_slot offset = mem (base_mem offset (reg_no rbp))

-- Saving the content of a register, with what was spilled moved in, and both moved back. The next
-- instruction is the one that was put first after this one, so what is stored back for a later
-- operand comes earlier.
abbrev pub put_around : ℕ → ℕ → ℕ → Spilling → Spilling
put_around avail_reg slot reserved st = record {
  used_regs = st.used_regs ++ avail_reg ∷ [];
  num_reserved = st.num_reserved + 1;
  before =
      st.before
      ++ mov_inst (reg avail_reg) (frame_slot reserved)
        ∷ mov_inst (frame_slot slot) (reg avail_reg)
        ∷ [];
  after =
      mov_inst (reg avail_reg) (frame_slot slot)
      ∷ mov_inst (frame_slot reserved) (reg avail_reg)
      ∷ st.after;
}

module _ (m : DenseMap ℕ) (local_frame_size num_spilled : ℕ) where
  -- `rewriteAsmOperandSpilledRegToStackSlot`
  unfoldable pub spill_reg : ℕ → Spilling → Option (ℕ × Spilling)
  unfolding get_available_register get_reserved_stack_slot_offset get_stack_slot_offset allocated
  spill_reg spilled_reg st = do
    allocated_reg ← allocated m spilled_reg
    let avail_reg = get_available_register st.used_regs
    let reserved =
        get_reserved_stack_slot_offset 8 local_frame_size num_spilled (st.num_reserved + 1)
    slot ← get_stack_slot_offset 8 local_frame_size allocated_reg
    if avail_reg == no_register
        then none
        else some (avail_reg, put_around avail_reg slot reserved st)

  -- Only a virtual register is spilled.
  unfoldable pub spill_if_virtual : ℕ → Spilling → Option (ℕ × Spilling)
  unfolding spill_reg
  spill_if_virtual r st = if is_virtual_register r then spill_reg r st else some (r, st)

  unfoldable pub spill_operand : AsmOperand → Spilling → Option (AsmOperand × Spilling)
  unfolding spill_if_virtual
  spill_operand (reg r) st = do (r', st') ← spill_if_virtual r st; some (reg r', st')
  spill_operand (mem a) st = do
    (b, st') ← spill_if_virtual a.base_reg st
    (i, st'') ← spill_if_virtual a.index_reg st'
    some (mem (record a { base_reg = b; index_reg = i }), st'')
  spill_operand (imm i) st = some (imm i, st)
  spill_operand (lbl l) st = some (lbl l, st)

  unfoldable pub spill_operands : List AsmOperand → Spilling → Option (List AsmOperand × Spilling)
  unfolding spill_operand
  spill_operands [] st = some ([], st)
  spill_operands (x ∷ xs) st = do
    (x', st') ← spill_operand x st
    (xs', st'') ← spill_operands xs st'
    some (x' ∷ xs', st'')

  -- `rewriteAsmInstSpilledRegToStackSlot`: the instruction with those around it, and the number of
  -- slots that it needs.
  unfoldable pub spill_inst : AsmInstruction → Option (List AsmInstruction × ℕ)
  unfolding get_used_registers spill_operands
  spill_inst i = do
    used ← get_used_registers i
    (ops, st) ←
        spill_operands i.operands
          (record { used_regs = used; num_reserved = 0; before = []; after = [] })
    if leb (length i.operands) 2
        then some (st.before ++ record i { operands = ops } ∷ st.after, st.num_reserved)
        else none
