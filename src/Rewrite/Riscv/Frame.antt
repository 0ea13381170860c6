-- ===== src/Rewrite/Riscv/Frame.antt =====
-- RISCVAsmRewriter.h: prologue, epilogue, the offsets of stack objects, and the offsets that do not fit an
-- instruction. Sizes are not negative.
use remniw.Prelude.{
  ℕ, zero, suc, ◌+◌, ◌-◌, ◌*◌, ◌%◌, ◌^◌, Bool, ◌&&◌, List, [], ◌∷◌, ◌++◌, Option, none, some, ◌>>=◌,
  ltb, leb, ◌==◌, if◌then◌else◌, length, get_elem?, set,
}
use remniw.Asm.Operand.{AsmOperand, AsmInstruction, reg, mem, imm, lbl}
use remniw.RegAlloc.Register.{u32}
use remniw.RegAlloc.Target.Riscv.{reg_no, sp, fp, ra, t0, arg_regs}
use remniw.Rewrite.{AsmFunction, StackObject, incoming_arg, alloca, other, neg}
use remniw.Rewrite.Riscv.{memory_inst}
use remniw.Select.{u64, no_stack_object}
use remniw.Select.Riscv.Create.{
  RiscvOpcode, opcode_no, ld, sd, li, add, addi, sub, ret, get_stackobject_address_user_inst,
}

abbrev pub addi_inst : ℕ → ℕ → ℕ → AsmInstruction
addi_inst d s i = record { opcode = opcode_no addi; operands = reg d ∷ reg s ∷ imm i ∷ [] }

abbrev pub li_inst : ℕ → ℕ → AsmInstruction
li_inst d i = record { opcode = opcode_no li; operands = reg d ∷ imm i ∷ [] }

abbrev pub three_registers : RiscvOpcode → ℕ → ℕ → ℕ → AsmInstruction
three_registers op d a b = record { opcode = opcode_no op; operands = reg d ∷ reg a ∷ reg b ∷ [] }

-- The registers that are saved: none in `main`.
abbrev pub saved_regs : Bool → List ℕ → List ℕ
saved_regs is_main used_callee_saved_regs = if is_main then [] else used_callee_saved_regs

-- `StackSizeForCalleeSavedRegs`
abbrev pub stack_size_for_callee_saved_regs : Bool → List ℕ → ℕ
stack_size_for_callee_saved_regs is_main used_callee_saved_regs =
    if is_main then 0 else length used_callee_saved_regs * 8

-- `TotalStackFrameSizeInBytes`
unfoldable pub total_stack_frame_size : AsmFunction → ℕ → ℕ → List ℕ → ℕ
total_stack_frame_size f num_spilled max_num_reserved used_callee_saved_regs =
    let total =
      f.max_call_frame_size
      + u32 (u32 (8 * num_spilled) + u32 (8 * max_num_reserved))
      + f.local_frame_size
      + stack_size_for_callee_saved_regs f.is_main used_callee_saved_regs
      + 8
      + 8 in
    if total % 16 == 0 then total else total + (16 - total % 16)

-- `SPAdjustAmount` and `TmpStackFrameSizeInBytes`
abbrev pub sp_adjust_amount : ℕ → ℕ
sp_adjust_amount total = if ltb 2047 total then 2048 - 16 else 0

abbrev pub first_adjustment : ℕ → ℕ
first_adjustment total = if ltb 2047 total then 2048 - 16 else total

-- The registers are saved, or restored, one below the other.
abbrev pub save_from : RiscvOpcode → ℕ → List ℕ → List AsmInstruction
save_from op depth [] = []
save_from op depth (r ∷ rs) =
    memory_inst op r (u64 (depth + 2 ^ 64 - 8)) (reg_no sp) ∷ save_from op (depth - 8) rs

-- The second adjustment of the stack pointer.
abbrev pub adjust_sp : RiscvOpcode → ℕ → List AsmInstruction
adjust_sp op total =
    if sp_adjust_amount total == 0
    then []
    else li_inst (reg_no t0) (total - sp_adjust_amount total)
      ∷ three_registers op (reg_no sp) (reg_no sp) (reg_no t0)
      ∷ []

abbrev pub saved_with_return : Bool → List ℕ → List ℕ
saved_with_return is_main used_callee_saved_regs =
    reg_no ra ∷ reg_no fp ∷ saved_regs is_main used_callee_saved_regs

-- `insertPrologue`
unfoldable pub insert_prologue : AsmFunction → ℕ → List ℕ → AsmFunction
insert_prologue f total used_callee_saved_regs =
    let first = first_adjustment total in
    record f {
      inst_list =
          addi_inst (reg_no sp) (reg_no sp) (neg first)
            ∷ save_from sd first (saved_with_return f.is_main used_callee_saved_regs)
          ++ (addi_inst (reg_no fp) (reg_no sp) first ∷ (adjust_sp sub total ++ f.inst_list));
    }

-- `insertEpilogue`
unfoldable pub insert_epilogue : AsmFunction → ℕ → List ℕ → AsmFunction
insert_epilogue f total used_callee_saved_regs =
    let first = first_adjustment total in
    record f {
      inst_list =
          f.inst_list
          ++ adjust_sp add total
          ++ save_from ld first (saved_with_return f.is_main used_callee_saved_regs)
          ++ addi_inst (reg_no sp) (reg_no sp) first
            ∷ record { opcode = opcode_no ret; operands = [] }
            ∷ [];
    }

-- The loop of `adjustStackFrame` over the objects. `incoming` is the offset of the next argument, and
-- `depth` how far below the frame pointer the last local object begins.
unfoldable pub place_objects : ℕ → ℕ → List StackObject → Option (List StackObject)
place_objects incoming depth [] = some []
place_objects incoming depth (o ∷ os) = elim o.v [
  | incoming_arg arg_no ↦ (do
    rest ← place_objects (incoming + o.size) depth os
    if leb (length arg_regs) arg_no then some (record o { offset = u64 incoming } ∷ rest) else none)
  | alloca ↦ (do
    rest ← place_objects incoming (depth + o.size) os
    some (record o { offset = neg (depth + o.size) } ∷ rest))
  | other ↦ (do rest ← place_objects incoming depth os; some (o ∷ rest))
]

-- The pseudo-instruction becomes an addition to the frame pointer.
unfoldable pub lower_address : List StackObject → AsmInstruction → Option AsmInstruction
lower_address objects i =
    if i.opcode == opcode_no get_stackobject_address_user_inst then lowered i.operands else some i
  where
    lowered : List AsmOperand → Option AsmInstruction
    lowered (d ∷ mem a ∷ []) =
        if a.stack_object_index == no_stack_object
        then none
        else (get_elem? objects a.stack_object_index >>= λ o. some (record {
          opcode = opcode_no addi;
          operands = d ∷ reg (reg_no fp) ∷ imm o.offset ∷ [];
        }))
    lowered _ = none

unfoldable pub lower_operand : List StackObject → AsmOperand → Option AsmOperand
lower_operand objects (mem a) =
    if a.stack_object_index == no_stack_object then some (mem a) else (do
      o ← get_elem? objects a.stack_object_index
      some (
          mem (record a {
            base_reg = reg_no fp;
            disp = o.offset;
            stack_object_index = no_stack_object;
          })))
lower_operand objects op = some op

unfoldable pub lower_operands : List StackObject → List AsmOperand → Option (List AsmOperand)
unfolding lower_operand
lower_operands objects [] = some []
lower_operands objects (x ∷ xs) = do
  x' ← lower_operand objects x
  xs' ← lower_operands objects xs
  some (x' ∷ xs')

unfoldable pub lower_insts : List StackObject → List AsmInstruction → Option (List AsmInstruction)
unfolding lower_address lower_operands
lower_insts objects [] = some []
lower_insts objects (i ∷ is) = do
  i' ← lower_address objects i
  ops ← lower_operands objects i'.operands
  is' ← lower_insts objects is
  some (record i' { operands = ops } ∷ is')

-- Whether a word, as an `int64_t`, is not in the range from -2048 to 2047.
abbrev pub is_far : ℕ → Bool
is_far d = leb 2048 d && ltb d (2 ^ 64 - 2048)

-- An operand in memory too far from its base is reached by the return address register.
unfoldable pub near_operand : AsmOperand → AsmOperand × List AsmInstruction
near_operand (mem a) =
    if is_far a.disp
    then (
      mem (record a { disp = 0; base_reg = reg_no ra }),
      li_inst (reg_no ra) a.disp ∷ three_registers add (reg_no ra) (reg_no ra) a.base_reg ∷ [],
    )
    else (mem a, [])
near_operand op = (op, [])

-- An immediate that is too great for an addition is loaded into the return address register.
unfoldable pub near_immediate : AsmInstruction → Option (AsmInstruction × List AsmInstruction)
near_immediate i =
    if i.opcode == opcode_no addi
    then (get_elem? i.operands 2 >>= λ op. elim op [
      | reg r ↦ none
      | mem a ↦ none
      | imm v ↦ some (
          if is_far v
          then (
            record { opcode = opcode_no add; operands = set i.operands 2 (reg (reg_no ra)) },
            li_inst (reg_no ra) v ∷ [],
          )
          else (i, []))
      | lbl l ↦ none
    ])
    else some (i, [])

-- The operands from `k` on, of which there are `n`; what is put before the instruction comes along.
unfoldable pub near_operands :
    ℕ → ℕ → AsmInstruction → Option (AsmInstruction × List AsmInstruction)
unfolding near_operand near_immediate
near_operands zero k i = some (i, [])
near_operands (suc n) k i = do
  op ← get_elem? i.operands k
  let (op', before) = near_operand op
  (i', loaded) ← near_immediate (record i { operands = set i.operands k op' })
  (i'', rest) ← near_operands n (k + 1) i'
  some (i'', before ++ loaded ++ rest)

unfoldable pub near_insts : List AsmInstruction → Option (List AsmInstruction)
unfolding near_operands
near_insts [] = some []
near_insts (i ∷ is) = do
  (i', before) ← near_operands (length i.operands) 0 i
  is' ← near_insts is
  some (before ++ i' ∷ is')

-- `adjustStackFrame`, where the registers that are saved take `saved_size`.
unfoldable pub adjust_stack_frame : ℕ → AsmFunction → Option AsmFunction
unfolding place_objects lower_insts near_insts
adjust_stack_frame saved_size f = do
  objects ← place_objects 0 (8 * 2 + saved_size) f.stack_objects
  lowered ← lower_insts objects f.inst_list
  insts ← near_insts lowered
  some (record f { stack_objects = objects; inst_list = insts })
