-- ===== src/Tests/Allocation.antt =====
-- Recording and allocation of a function in which one register is read where another is written,
-- after a call.
use mathlib.Core.Option
use remniw.Prelude.{ℕ, ◌+◌, ◌^◌, ◌≡◌, ◌≢◌, refl, inl, inr, true, List, [], ◌∷◌, some, arith}
use remniw.Asm.LiveRanges.{
  Building, new_function, find, put, change_back, crosses_call, mark_call, virtual_live_ranges,
  physical_live_ranges, update_reg_live_ranges, update_unless_none, update_asm_operand_live_ranges,
  add_inst, add_call, Emission, use_operand, inst, call, emit, emit_all,
}
use remniw.Asm.LiveRanges.Allocation.{
  emit_all-do_reg_alloc-apart, emit_all-do_reg_alloc-callee-saved,
}
use remniw.Asm.Operand.{reg, imm, lbl}
use remniw.RegAlloc.Interval.{
  LiveRange, push, sort_by_end, insert_by_end, start_point_increasing_order_compare,
  end_point_increasing_order_compare,
}
use remniw.RegAlloc.LinearScan.{
  Allocator, allocated, new_allocator, back, do_reg_alloc, add_intervals, init_interval_sets,
  release, expire_loop, expire_old_intervals, conflict_with_fixed, split_back, spill_interval,
  spill_last, spill_at_interval, take_register, suits, first_suitable, get_free_phys_reg, allocate,
  handle, scan,
}
use remniw.RegAlloc.LinearScan.Result.{HandsOutPhysical}
use remniw.RegAlloc.LinearScan.Sets.{Lifetime}
use remniw.RegAlloc.Register.{
  is_virtual_register, is_physical_register, is_stack_slot, index2_stack_slot,
}
use remniw.RegAlloc.Target.X86.{x86_target_info, reg_no, rbx}

running : Unit {0}
unfolding find put change_back crosses_call mark_call virtual_live_ranges physical_live_ranges
    update_reg_live_ranges update_unless_none update_asm_operand_live_ranges add_inst add_call emit
    emit_all back is_virtual_register is_physical_register is_stack_slot index2_stack_slot
    do_reg_alloc add_intervals init_interval_sets release expire_loop expire_old_intervals
    conflict_with_fixed split_back spill_interval spill_last spill_at_interval take_register suits
    first_suitable get_free_phys_reg allocate handle scan push sort_by_end insert_by_end
    start_point_increasing_order_compare end_point_increasing_order_compare new_allocator
running = tt

abbrev virt : ℕ → ℕ
virt i = 2 ^ 31 + i

abbrev emissions : List Emission
emissions =
    use_operand (reg (virt 0))
    ∷ inst (record { opcode = 1; operands = imm 7 ∷ reg (virt 0) ∷ [] })
    ∷ call (record { opcode = 2; operands = lbl 0 ∷ [] })
    ∷ use_operand (reg (virt 0))
    ∷ use_operand (reg (virt 1))
    ∷ inst (record { opcode = 1; operands = reg (virt 0) ∷ reg (virt 1) ∷ [] })
    ∷ []

built : Building
unfolding running
built = Option.get_or (emit_all emissions new_function) new_function

recorded : emit_all emissions new_function ≡ some built
unfolding built
recorded = refl

abbrev free_regs : List ℕ
free_regs = reg_no rbx ∷ 10 ∷ []

free_regs-HandsOutPhysical : HandsOutPhysical (new_allocator free_regs)
unfolding new_allocator is_physical_register
free_regs-HandsOutPhysical = λ reg_no h. ground arith

allocation : Allocator
unfolding built
allocation =
    Option.get_or (do_reg_alloc x86_target_info built.reg_live_ranges_map (new_allocator free_regs))
      (new_allocator [])

returns :
    do_reg_alloc x86_target_info built.reg_live_ranges_map (new_allocator free_regs)
    ≡ some allocation
unfolding allocation
returns = refl

abbrev first_range : LiveRange
first_range = record { start_point = 0; end_point = 3; used_across_call = true }

abbrev second_range : LiveRange
second_range = record { start_point = 2; end_point = 3; used_across_call = true }

first-Lifetime : Lifetime built.reg_live_ranges_map (virt 0) first_range
unfolding built
first-Lifetime = record {
  live_ranges = record { ranges = first_range ∷ [] };
  is_entry = inl refl;
  is_virtual = refl;
  is_back = refl;
}

second-Lifetime : Lifetime built.reg_live_ranges_map (virt 1) second_range
unfolding built
second-Lifetime = record {
  live_ranges = record { ranges = second_range ∷ [] };
  is_entry = inr (inl refl);
  is_virtual = refl;
  is_back = refl;
}

emit_all-do_reg_alloc-apart_example : allocated allocation (virt 0) ≢ allocated allocation (virt 1)
emit_all-do_reg_alloc-apart_example =
    emit_all-do_reg_alloc-apart x86_target_info emissions built (new_allocator free_regs) allocation
      (omega arith) free_regs-HandsOutPhysical recorded returns (virt 0) (virt 1) first_range
      second_range 2 first-Lifetime second-Lifetime (omega arith) (omega arith) (omega arith)
      (omega arith) (omega arith)

emit_all-do_reg_alloc-callee-saved_example :
    x86_target_info.is_callee_saved_register (allocated allocation (virt 0)) ≡ true
unfolding allocation
emit_all-do_reg_alloc-callee-saved_example =
    emit_all-do_reg_alloc-callee-saved x86_target_info emissions built (new_allocator free_regs)
      allocation (omega arith) free_regs-HandsOutPhysical recorded returns (virt 0) first_range
      first-Lifetime refl refl
