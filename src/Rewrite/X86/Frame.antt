-- ===== src/Rewrite/X86/Frame.antt =====
-- X86AsmRewriter.h: prologue, epilogue, and the offsets of stack objects. Sizes are not negative.
use remniw.Prelude.{
  ℕ, ◌+◌, ◌-◌, ◌*◌, ◌%◌, Bool, List, [], ◌∷◌, ◌++◌, Option, none, some, ◌>>=◌, leb, ◌==◌,
  if◌then◌else◌, length, get_elem?,
}
use mathlib.Core.List.{map, reverse}
use remniw.Asm.Operand.{AsmOperand, AsmInstruction, reg, mem, imm}
use remniw.RegAlloc.Register.{u32}
use remniw.RegAlloc.Target.X86.{reg_no, rsp, rbp, arg_regs}
use remniw.Rewrite.{AsmFunction, StackObject, incoming_arg, alloca, other, neg}
use remniw.Select.{u64, no_stack_object}
use remniw.Select.X86.Create.{X86Opcode, opcode_no, mov, add, sub, push, pop, ret}

abbrev pub one_operand : X86Opcode → ℕ → AsmInstruction
one_operand op r = record { opcode = opcode_no op; operands = reg r ∷ [] }

abbrev pub two_operands : X86Opcode → AsmOperand → ℕ → AsmInstruction
two_operands op src r = record { opcode = opcode_no op; operands = src ∷ reg r ∷ [] }

-- The registers that are pushed: none in `main`.
unfoldable pub saved_regs : Bool → List ℕ → List ℕ
saved_regs is_main used_callee_saved_regs = if is_main then [] else used_callee_saved_regs

-- `StackSizeForCalleeSavedRegs`
unfoldable pub stack_size_for_callee_saved_regs : Bool → List ℕ → ℕ
stack_size_for_callee_saved_regs is_main used_callee_saved_regs =
    if is_main then 0 else length used_callee_saved_regs * 8

-- `NeededStackSizeInBytes`, of a function with so many spilled registers and reserved slots.
unfoldable pub needed_stack_size : AsmFunction → ℕ → ℕ → List ℕ → ℕ
unfolding stack_size_for_callee_saved_regs
needed_stack_size f num_spilled max_num_reserved used_callee_saved_regs =
    let needed =
      f.max_call_frame_size
      + f.local_frame_size
      + u32 (u32 (8 * num_spilled) + u32 (8 * max_num_reserved)) in
    let total =
      needed + 8 + 8 + stack_size_for_callee_saved_regs f.is_main used_callee_saved_regs in
    if total % 16 == 0 then needed else needed + (16 - total % 16)

-- `insertPrologue`
unfoldable pub insert_prologue : AsmFunction → ℕ → List ℕ → AsmFunction
unfolding saved_regs
insert_prologue f needed used_callee_saved_regs = record f {
  inst_list =
      one_operand push (reg_no rbp)
        ∷ two_operands mov (reg (reg_no rsp)) (reg_no rbp)
        ∷ map (one_operand push) (saved_regs f.is_main used_callee_saved_regs)
      ++ two_operands sub (imm needed) (reg_no rsp) ∷ f.inst_list;
}

-- `insertEpilogue`
unfoldable pub insert_epilogue : AsmFunction → ℕ → List ℕ → AsmFunction
unfolding saved_regs
insert_epilogue f needed used_callee_saved_regs = record f {
  inst_list =
      f.inst_list
      ++ two_operands add (imm needed) (reg_no rsp)
        ∷ map (one_operand pop) (reverse (saved_regs f.is_main used_callee_saved_regs))
      ++ one_operand pop (reg_no rbp) ∷ record { opcode = opcode_no ret; operands = [] } ∷ [];
}

-- The loop of `adjustStackFrame` over the objects. `incoming` is the offset of the next argument, and
-- `depth` how far below the frame pointer the last local object begins.
unfoldable pub place_objects : ℕ → ℕ → List StackObject → Option (List StackObject)
place_objects incoming depth [] = some []
place_objects incoming depth (o ∷ os) = elim o.v [
  | incoming_arg arg_no ↦ (do
    rest ← place_objects (incoming + o.size) depth os
    if leb (length arg_regs) arg_no then some (record o { offset = u64 incoming } ∷ rest) else none)
  | alloca ↦ (do
    rest ← place_objects incoming (depth + o.size) os
    some (record o { offset = neg (depth + o.size) } ∷ rest))
  | other ↦ (do rest ← place_objects incoming depth os; some (o ∷ rest))
]

-- Adjusting a memory operand of a stack object. Other operands are left.
unfoldable pub lower_operand : List StackObject → AsmOperand → Option AsmOperand
lower_operand objects (mem a) =
    if a.stack_object_index == no_stack_object then some (mem a) else (do
      o ← get_elem? objects a.stack_object_index
      some (
          mem (record a {
            base_reg = reg_no rbp;
            disp = o.offset;
            stack_object_index = no_stack_object;
          })))
lower_operand objects op = some op

unfoldable pub lower_operands : List StackObject → List AsmOperand → Option (List AsmOperand)
unfolding lower_operand
lower_operands objects [] = some []
lower_operands objects (x ∷ xs) = do
  x' ← lower_operand objects x
  xs' ← lower_operands objects xs
  some (x' ∷ xs')

unfoldable pub lower_insts : List StackObject → List AsmInstruction → Option (List AsmInstruction)
unfolding lower_operands
lower_insts objects [] = some []
lower_insts objects (i ∷ is) = do
  ops ← lower_operands objects i.operands
  is' ← lower_insts objects is
  some (record i { operands = ops } ∷ is')

-- `adjustStackFrame`, where the registers that are saved take `saved_size`.
unfoldable pub adjust_stack_frame : ℕ → AsmFunction → Option AsmFunction
unfolding place_objects lower_insts
adjust_stack_frame saved_size f = do
  objects ← place_objects 16 saved_size f.stack_objects
  insts ← lower_insts objects f.inst_list
  some (record f { stack_objects = objects; inst_list = insts })
