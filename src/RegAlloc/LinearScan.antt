-- ===== src/RegAlloc/LinearScan.antt =====
-- codegen/asm/RegisterAllocator.h, `LinearScanRegisterAllocator`. The members `FreeRegisters`,
-- `Fixed`, `Active`, `Spilled`, `VirtRegToAllocatedRegMap` and `StackSlotIndex` are the fields of the
-- state; `Unhandled`, empty between calls, is the argument of the loop over it.
pub mod Choice
pub mod Invariant
pub mod Place
pub mod Park
pub mod Rounds
pub mod Sets
pub mod Scan
pub mod Result
pub mod Expiry
pub mod Leak
pub mod Keys
pub mod Calls
use mathlib.Core.List.{map}
use mathlib.Core.Option
use remniw.Prelude.{
  ℕ, ◌+◌, Bool, true, false, not, List, [], ◌∷◌, ◌++◌, Option, none, some, ◌==◌, ◌&&◌, ◌||◌, ltb,
  if◌then◌else◌, length, ◌>>=◌,
}
use remniw.RegAlloc.DenseMap.{DenseMap, assign, touch, empty}
use remniw.RegAlloc.Interval.{LiveRange, LiveRanges, LiveInterval, push, sort_by_end}
use remniw.RegAlloc.Register.{
  u32, no_register, is_physical_register, is_virtual_register, index2_stack_slot,
}
use remniw.RegAlloc.Target.{TargetInfo}

pub record Allocator : Type 0 where
  pub fixed : List LiveInterval
  pub active : List LiveInterval
  pub spilled : List LiveInterval
  pub free_registers : DenseMap Bool
  pub virt_reg_to_allocated_reg_map : DenseMap ℕ
  pub stack_slot_index : ℕ

-- Where a register has been put.
abbrev pub allocated : Allocator → ℕ → ℕ
allocated st reg = st.virt_reg_to_allocated_reg_map.at reg

abbrev pub is_free : Allocator → ℕ → Bool
is_free st reg = st.free_registers.at reg

-- The constructor. A loop over the hash table `FreeRegisters` meets the free registers of the target
-- in an order that the table chooses: that order is the argument.
unfoldable pub new_allocator : List ℕ → Allocator
new_allocator free_regs = record {
  fixed = [];
  active = [];
  spilled = [];
  free_registers = record { keys = free_regs; at = λ _. true };
  virt_reg_to_allocated_reg_map = empty no_register;
  stack_slot_index = 0;
}

abbrev pub to_interval : ℕ → LiveRange → LiveInterval
to_interval reg range = record {
  start_point = range.start_point;
  end_point = range.end_point;
  reg = reg;
  used_across_call = range.used_across_call;
}

-- `Ranges.back()`; `none` is the call on an empty vector, which C++ leaves undefined.
unfoldable pub back : List LiveRange → Option LiveRange
back [] = none
back (r ∷ []) = some r
back (r ∷ s ∷ rs) = back (s ∷ rs)

-- The two sets that `initIntervalSets` fills.
pub record IntervalSets : Type 0 where
  pub unhandled : List LiveInterval
  pub fixed : List LiveInterval

-- The body of its loop: a virtual register is to be handled over its last range, and a physical one
-- is fixed over all of its ranges.
unfoldable pub add_intervals : ℕ → LiveRanges → IntervalSets → Option IntervalSets
add_intervals reg lr sets = do
  unhandled ←
      if is_virtual_register reg
      then Option.map (λ range. push (to_interval reg range) sets.unhandled) (back lr.ranges)
      else some sets.unhandled
  let fixed =
      if is_physical_register reg then sets.fixed ++ map (to_interval reg) lr.ranges else sets.fixed
  some (record { unhandled = unhandled; fixed = fixed })

unfoldable pub init_interval_sets : List (ℕ × LiveRanges) → IntervalSets → Option IntervalSets
init_interval_sets [] sets = some sets
init_interval_sets ((reg, lr) ∷ ps) sets = add_intervals reg lr sets >>= init_interval_sets ps

-- The register of an expired interval is free again.
unfoldable pub release : LiveInterval → Allocator → Allocator
release a st =
    let allocated_reg = allocated st a.reg in
    record st {
      free_registers =
          if is_physical_register allocated_reg
          then assign allocated_reg true st.free_registers
          else st.free_registers;
      virt_reg_to_allocated_reg_map = touch a.reg st.virt_reg_to_allocated_reg_map;
    }

-- The loop of `expireOldIntervals` over `Active`, which is its first argument.
unfoldable pub expire_loop : List LiveInterval → LiveInterval → Allocator → Allocator
expire_loop [] li st = record st { active = [] }
expire_loop (a ∷ rest) li st =
    if ltb li.start_point a.end_point
    then record st { active = a ∷ rest }
    else expire_loop rest li (release a st)

unfoldable pub expire_old_intervals : LiveInterval → Allocator → Allocator
expire_old_intervals li st = expire_loop st.active li st

unfoldable pub conflict_with_fixed : List LiveInterval → ℕ → LiveInterval → Bool
conflict_with_fixed [] reg li = false
conflict_with_fixed (f ∷ fs) reg li =
    if not (f.reg == reg)
    then conflict_with_fixed fs reg li
    else if ltb li.start_point f.end_point || ltb f.start_point li.end_point
    then true
    else conflict_with_fixed fs reg li

-- `spillAtInterval` looks at `Active.back()`: the rest of `Active`, and the last one.
unfoldable pub split_back : List LiveInterval → Option (List LiveInterval × LiveInterval)
split_back [] = none
split_back (a ∷ rest) = elim (split_back rest) [
  | none ↦ some ([], a)
  | some (front, last) ↦ some (a ∷ front, last)
]

unfoldable pub spill_interval : LiveInterval → Allocator → Allocator
spill_interval li st = record st {
  virt_reg_to_allocated_reg_map =
      assign li.reg (index2_stack_slot st.stack_slot_index) st.virt_reg_to_allocated_reg_map;
  stack_slot_index = u32 (st.stack_slot_index + 1);
  spilled = st.spilled ++ li ∷ [];
}

-- The interval `last` gives its register to `li` and is spilled itself.
unfoldable pub spill_last : List LiveInterval → LiveInterval → LiveInterval → Allocator → Allocator
spill_last front last li st = record st {
  virt_reg_to_allocated_reg_map =
      assign last.reg (index2_stack_slot st.stack_slot_index)
        (assign li.reg (allocated st last.reg) st.virt_reg_to_allocated_reg_map);
  stack_slot_index = u32 (st.stack_slot_index + 1);
  spilled = st.spilled ++ last ∷ [];
  active = front ++ li ∷ [];
}

unfoldable pub spill_at_interval : LiveInterval → Allocator → Allocator
spill_at_interval li st = elim (split_back st.active) [
  | none ↦ spill_interval li st
  | some (front, last) ↦
      if ltb li.end_point last.end_point then spill_last front last li st else spill_interval li st
]

unfoldable pub take_register : ℕ → LiveInterval → Allocator → Allocator
take_register phys_reg li st = record st {
  free_registers = assign phys_reg false st.free_registers;
  virt_reg_to_allocated_reg_map = assign li.reg phys_reg st.virt_reg_to_allocated_reg_map;
  active = st.active ++ li ∷ [];
}

module _ (ti : TargetInfo) where
  -- The tests in the body of the loop of `getFreePhysReg`, on a register of the map.
  unfoldable pub suits : LiveInterval → Allocator → ℕ → Bool
  suits li st reg =
      is_free st reg
      && not (conflict_with_fixed st.fixed reg li)
      && not (li.used_across_call && not (ti.is_callee_saved_register reg))
      && not (not li.used_across_call && not (ti.is_caller_saved_register reg))

  unfoldable pub first_suitable : List ℕ → LiveInterval → Allocator → ℕ
  first_suitable [] li st = no_register
  first_suitable (reg ∷ regs) li st = if suits li st reg then reg else first_suitable regs li st

  unfoldable pub get_free_phys_reg : LiveInterval → Allocator → ℕ
  get_free_phys_reg li st = first_suitable st.free_registers.keys li st

  -- The body of the loop of `doRegAlloc` after `expireOldIntervals`.
  unfoldable pub allocate : LiveInterval → Allocator → Allocator
  allocate li st =
      let phys_reg = get_free_phys_reg li st in
      if not (phys_reg == no_register)
      then take_register phys_reg li st
      else spill_at_interval li st

  unfoldable pub handle : LiveInterval → Allocator → Allocator
  handle li st =
      allocate li (expire_old_intervals li (record st { active = sort_by_end st.active }))

  unfoldable pub scan : List LiveInterval → Allocator → Allocator
  scan [] st = st
  scan (li ∷ unhandled) st = scan unhandled (handle li st)

  -- `FreeRegisters` is not among the members that are reset.
  unfoldable pub do_reg_alloc : List (ℕ × LiveRanges) → Allocator → Option Allocator
  do_reg_alloc reg_live_ranges_map st = do
    sets ← init_interval_sets reg_live_ranges_map (record { unhandled = []; fixed = [] })
    let reset = record st {
      fixed = sets.fixed;
      active = [];
      spilled = [];
      virt_reg_to_allocated_reg_map = empty no_register;
      stack_slot_index = 0;
    }
    some (scan sets.unhandled reset)

unfoldable pub get_spilled_reg_count : Allocator → ℕ
get_spilled_reg_count st = length st.spilled
