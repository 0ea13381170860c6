-- ===== src/Tests/Asm.antt =====
-- Live ranges of a function that moves a number to a virtual register, calls a function, and reads
-- the register.
use mathlib.Core.Option
use remniw.Prelude.{
  ℕ, ◌≤◌, ◌<◌, length, ◌^◌, ◌≡◌, refl, inl, true, List, [], ◌∷◌, some, arith, In, ◌↔◌,
}
use remniw.Asm.LiveRanges.{
  Building, new_function, find, put, change_back, crosses_call, mark_call, virtual_live_ranges,
  physical_live_ranges, update_reg_live_ranges, update_unless_none, update_asm_operand_live_ranges,
  add_inst, add_call, Emission, use_operand, inst, call, emit, emit_all,
}
use remniw.Asm.LiveRanges.Code.{calls_in}
use remniw.Asm.LiveRanges.Result.{emit_all-IsRangesMap, emit_all-flag}
use remniw.Asm.LiveRanges.Uses.{emit_all-covers}
use remniw.Asm.Operand.{AsmOperand, AsmInstruction, reg, imm, lbl}
use remniw.RegAlloc.Interval.{LiveRange}
use remniw.RegAlloc.LinearScan.{back}
use remniw.RegAlloc.LinearScan.Calls.{CallsNest}
use remniw.RegAlloc.LinearScan.Result.{IsRangesMap}
use remniw.RegAlloc.LinearScan.Sets.{Lifetime}
use remniw.RegAlloc.Register.{is_virtual_register, is_physical_register, is_stack_slot}

recording : Unit {0}
unfolding find put change_back crosses_call mark_call virtual_live_ranges physical_live_ranges
    update_reg_live_ranges update_unless_none update_asm_operand_live_ranges add_inst add_call emit
    emit_all back is_virtual_register is_physical_register is_stack_slot
recording = tt

abbrev virt : ℕ
virt = 2 ^ 31

abbrev rax : ℕ
rax = 1

abbrev instruction : ℕ → List AsmOperand → AsmInstruction
instruction op ops = record { opcode = op; operands = ops }

abbrev emissions : List Emission
emissions =
    use_operand (imm 7)
    ∷ use_operand (reg virt)
    ∷ inst (instruction 1 (imm 7 ∷ reg virt ∷ []))
    ∷ use_operand (lbl 0)
    ∷ call (instruction 2 (lbl 0 ∷ []))
    ∷ use_operand (reg virt)
    ∷ use_operand (reg rax)
    ∷ inst (instruction 1 (reg virt ∷ reg rax ∷ []))
    ∷ []

built : Building
unfolding recording
built = Option.get_or (emit_all emissions new_function) new_function

built_returns : emit_all emissions new_function ≡ some built
unfolding built
built_returns = refl

abbrev virt_range : LiveRange
virt_range = record { start_point = 0; end_point = 3; used_across_call = true }

virt-Lifetime : Lifetime built.reg_live_ranges_map virt virt_range
unfolding built
virt-Lifetime = record {
  live_ranges = record { ranges = virt_range ∷ [] };
  is_entry = inl refl;
  is_virtual = refl;
  is_back = refl;
}

emit_all-IsRangesMap_example :
    (b : Building) × (emit_all emissions new_function ≡ some b)
    × IsRangesMap b.reg_live_ranges_map
    × CallsNest b.reg_live_ranges_map
emit_all-IsRangesMap_example = emit_all-IsRangesMap emissions (omega arith)

emit_all-flag_example :
    (true ≡ true) ↔ ((index : ℕ) × In index (calls_in 0 emissions) × (0 ≤ index) × (index < 3))
emit_all-flag_example =
    emit_all-flag emissions built (omega arith) built_returns virt virt_range virt-Lifetime

-- The function before the instruction that reads the register.
abbrev before_read : List Emission
before_read =
    use_operand (imm 7)
    ∷ use_operand (reg virt)
    ∷ inst (instruction 1 (imm 7 ∷ reg virt ∷ []))
    ∷ use_operand (lbl 0)
    ∷ call (instruction 2 (lbl 0 ∷ []))
    ∷ []

abbrev after_read : List Emission
after_read = use_operand (reg rax) ∷ inst (instruction 1 (reg virt ∷ reg rax ∷ [])) ∷ []

at_read : Building
unfolding recording
at_read = Option.get_or (emit_all before_read new_function) new_function

at_read_returns : emit_all before_read new_function ≡ some at_read
unfolding at_read
at_read_returns = refl

emit_all-covers_example :
    (range : LiveRange) × Lifetime built.reg_live_ranges_map virt range
    × (range.start_point ≤ length at_read.inst_list)
    × (length at_read.inst_list < range.end_point)
unfolding is_virtual_register is_stack_slot
emit_all-covers_example =
    emit_all-covers before_read after_read (reg virt) virt at_read built refl (omega arith) refl
      at_read_returns built_returns
