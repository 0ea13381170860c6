-- ===== src/Rewrite.antt =====
-- codegen/asm/AsmRewriter.h: putting allocated registers into operands, and the places of spilled
-- registers in the frame. An offset is the 64-bit word of an `int64_t`; `none` is an assertion that
-- fails.
pub mod X86
pub mod Riscv
use remniw.Prelude.{
  ℕ, ◌+◌, ◌-◌, ◌*◌, ◌^◌, Bool, List, [], ◌∷◌, Option, none, some, ◌>>=◌, if◌then◌else◌,
}
use remniw.Asm.Operand.{AsmOperand, MemOp, AsmInstruction, reg, mem, imm, lbl}
use remniw.RegAlloc.DenseMap.{DenseMap}
use remniw.RegAlloc.Register.{u32, is_physical_register, is_virtual_register, stack_slot2_index}
use remniw.RegAlloc.Target.{contains}
use remniw.Select.{u64}

-- What a stack object stands for.
pub data ObjectValue : Type 0 where
  incoming_arg : ℕ → ObjectValue
  alloca other : ObjectValue

pub record StackObject : Type 0 where
  pub size : ℕ
  pub offset : ℕ
  pub v : ObjectValue

pub record AsmFunction : Type 0 where
  pub is_main : Bool
  pub local_frame_size : ℕ
  pub max_call_frame_size : ℕ
  pub stack_objects : List StackObject
  pub inst_list : List AsmInstruction

-- `-n`
abbrev pub neg : ℕ → ℕ
neg n = u64 (2 ^ 64 - u64 n)

-- `lookup` after `assert(count)`
unfoldable pub allocated : DenseMap ℕ → ℕ → Option ℕ
allocated m r = if contains m.keys r then some (m.at r) else none

-- What is done for a register operand, a base and an index alike.
unfoldable pub rewrite_reg : DenseMap ℕ → ℕ → Option ℕ
unfolding allocated
rewrite_reg m r =
    if is_virtual_register r
    then (allocated m r >>= λ a. some (if is_physical_register a then a else r))
    else some r

unfoldable pub rewrite_operand : DenseMap ℕ → AsmOperand → Option AsmOperand
unfolding rewrite_reg
rewrite_operand m (reg r) = do r' ← rewrite_reg m r; some (reg r')
rewrite_operand m (mem a) = do
  b ← rewrite_reg m a.base_reg
  i ← rewrite_reg m a.index_reg
  some (mem (record a { base_reg = b; index_reg = i }))
rewrite_operand m (imm i) = some (imm i)
rewrite_operand m (lbl l) = some (lbl l)

-- `getStackSlotOffsetForSpilledReg`
unfoldable pub get_stack_slot_offset : ℕ → ℕ → ℕ → Option ℕ
get_stack_slot_offset register_size local_frame_size reg_no = do
  stack_slot_index ← stack_slot2_index reg_no
  some (neg (local_frame_size + u32 (register_size * u32 (stack_slot_index + 1))))

-- `getReservedStackSlotOffsetForReg`, with the counter after it has been moved on.
unfoldable pub get_reserved_stack_slot_offset : ℕ → ℕ → ℕ → ℕ → ℕ
get_reserved_stack_slot_offset register_size local_frame_size num_spilled num_reserved =
    neg (local_frame_size + u32 (register_size * num_spilled) + u32 (register_size * num_reserved))
