-- ===== src/Tests/Rewrite.antt =====
-- Rewriting for x86-64: instructions over the registers of the tests on allocation, of which the
-- second is spilled, and a frame with an argument and two local objects.
use remniw.Prelude.{
  ◌++◌, ℕ, ◌+◌, ◌%◌, ◌≤◌, ◌<◌, ◌≡◌, ◌^◌, refl, inl, inr, true, false, List, [], ◌∷◌, some, arith,
  ◌-◌,
}
use remniw.Asm.Operand.{AsmInstruction, reg, imm}
use remniw.RegAlloc.DenseMap.{DenseMap}
use remniw.RegAlloc.LinearScan.{Allocator, back, new_allocator, do_reg_alloc, get_spilled_reg_count}
use remniw.RegAlloc.LinearScan.Sets.{Lifetime}
use remniw.RegAlloc.Register.{
  is_virtual_register, is_physical_register, is_stack_slot, stack_slot2_index, first_stack_slot,
}
use remniw.RegAlloc.Target.X86.{x86_target_info}
use remniw.Rewrite.{
  AsmFunction, StackObject, incoming_arg, alloca, neg, get_stack_slot_offset,
  get_reserved_stack_slot_offset, allocated,
}
use remniw.Rewrite.X86.{
  rewritten_operands, get_available_register, available_from, spill_inst, spill_operands,
  spill_operand, spill_if_virtual, spill_reg, get_used_registers, all_registers, operand_registers,
  mov_inst, frame_slot,
}
use remniw.Rewrite.X86.Allocated.{HasLifetime, do_reg_alloc-passes}
use remniw.Rewrite.X86.Frame.{stack_size_for_callee_saved_regs, needed_stack_size, place_objects}
use remniw.Rewrite.X86.Instructions.{AllSelected, BothPasses, of_two}
use remniw.Rewrite.X86.Offsets.{LaidOut, AllObjects, place_objects-LaidOut, needed_stack_size-fits}
use remniw.Rewrite.X86.Slots.{spilled_at_last_local}
use remniw.Rewrite.X86.Registers.{IsAvailable, get_available_register_lem}
use remniw.Rewrite.X86.Spills.{OfInsts}
use remniw.Select.X86.Create.{opcode_no, add, mov}
use remniw.Tests.RegAlloc.{
  virt, range, small, ranges, ranges-IsRangesMap, small-HandsOutPhysical, first-Lifetime,
}

-- An addition of a spilled register: it goes through RAX, which is saved and restored.
abbrev slot : DenseMap ℕ
slot = record { keys = virt 0 ∷ []; at = λ r. first_stack_slot }

abbrev add_seven : AsmInstruction
add_seven = record { opcode = opcode_no add; operands = imm 7 ∷ reg (virt 0) ∷ [] }

spilled_add :
    spill_inst slot 16 1 add_seven
    ≡ some (
      mov_inst (reg 1) (frame_slot (neg 32))
          ∷ mov_inst (frame_slot (neg 24)) (reg 1)
          ∷ record { opcode = opcode_no add; operands = imm 7 ∷ reg 1 ∷ [] }
          ∷ mov_inst (reg 1) (frame_slot (neg 24))
          ∷ mov_inst (frame_slot (neg 32)) (reg 1)
          ∷ [],
      1,
    )
unfolding spill_inst spill_operands spill_operand spill_if_virtual spill_reg get_used_registers
    all_registers operand_registers get_available_register available_from allocated
    get_stack_slot_offset get_reserved_stack_slot_offset stack_slot2_index is_virtual_register
    is_physical_register is_stack_slot
spilled_add = refl

get_available_register_lem_example :
    IsAvailable 1 (1 ∷ 3 ∷ []) (get_available_register (1 ∷ 3 ∷ []))
get_available_register_lem_example = get_available_register_lem (1 ∷ 3 ∷ []) (omega arith)

abbrev code : List AsmInstruction
code =
    record { opcode = opcode_no mov; operands = imm 7 ∷ reg (virt 0) ∷ [] }
    ∷ record { opcode = opcode_no add; operands = reg (virt 0) ∷ reg (virt 1) ∷ [] }
    ∷ []

second-Lifetime : Lifetime ranges (virt 1) (range 1 9 true)
unfolding back is_virtual_register is_stack_slot
second-Lifetime = record {
  live_ranges = record { ranges = range 1 9 true ∷ [] };
  is_entry = inr (inr (inl refl));
  is_virtual = refl;
  is_back = refl;
}

code-AllSelected : AllSelected code
unfolding rewritten_operands
code-AllSelected =
    (of_two (imm 7) (reg (virt 0)) refl refl, (of_two (reg (virt 0)) (reg (virt 1)) refl refl, tt))

code-HasLifetime : OfInsts (HasLifetime ranges) code
code-HasLifetime =
    let zeroth : HasLifetime ranges (virt 0) = λ _. (range 0 5 true, first-Lifetime) in
    let first : HasLifetime ranges (virt 1) = λ _. (range 1 9 true, second-Lifetime) in
    ((tt, (zeroth, tt)), ((zeroth, (first, tt)), tt))

do_reg_alloc-passes_example :
    (st' : Allocator) × (do_reg_alloc x86_target_info ranges (new_allocator small) ≡ some st')
    × BothPasses st'.virt_reg_to_allocated_reg_map 24 (get_spilled_reg_count st') 0 code
do_reg_alloc-passes_example =
    do_reg_alloc-passes ranges (new_allocator small) ranges-IsRangesMap small-HandsOutPhysical 24
      code code-AllSelected code-HasLifetime

abbrev argument : StackObject
argument = record { size = 8; offset = 0; v = incoming_arg 6 }

abbrev local : ℕ → StackObject
local size = record { size = size; offset = 0; v = alloca }

abbrev objects : List StackObject
objects = argument ∷ local 16 ∷ local 8 ∷ []

objects-AllObjects : AllObjects objects
objects-AllObjects = (omega arith, (omega arith, (omega arith, tt)))

abbrev function : AsmFunction
function = record {
  is_main = false;
  local_frame_size = 24;
  max_call_frame_size = 0;
  stack_objects = objects;
  inst_list = code;
}

place_objects-LaidOut_example : LaidOut 16 8 objects
place_objects-LaidOut_example = place_objects-LaidOut 16 8 objects objects-AllObjects (omega arith)

needed_stack_size-fits_example :
    let needed = needed_stack_size function 1 2 (12 ∷ []) in
    (48 ≤ needed)
    × (needed < 64)
    × ((needed + 16 + stack_size_for_callee_saved_regs false (12 ∷ [])) % 16 ≡ 0)
needed_stack_size-fits_example =
    needed_stack_size-fits function 1 2 (12 ∷ []) (omega arith) (omega arith)

abbrev placed : List StackObject
placed =
    record { size = 8; offset = 16; v = incoming_arg 6 }
    ∷ record { size = 16; offset = 2 ^ 64 - 16; v = alloca }
    ∷ record { size = 8; offset = 2 ^ 64 - 24; v = alloca }
    ∷ []

spilled_at_last_local_example :
    (front : List StackObject) × (o : StackObject) × (place_objects 16
        (stack_size_for_callee_saved_regs false (12 ∷ []))
        objects
      ≡ some (front ++ o ∷ []))
    × (o.v ≡ alloca)
    × (get_stack_slot_offset 8 24 (first_stack_slot + 0) ≡ some o.offset)
spilled_at_last_local_example =
    spilled_at_last_local (argument ∷ local 16 ∷ []) 8 0 0 (12 ∷ [])
      (omega arith, (omega arith, tt)) (omega arith) (omega arith) (omega arith)
