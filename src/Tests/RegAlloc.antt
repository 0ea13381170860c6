-- ===== src/Tests/RegAlloc.antt =====
-- Register numbers and linear scan allocation, on a function with three virtual registers whose
-- lifetimes overlap and one fixed range of RAX.
use mathlib.Core.Option
use remniw.Prelude.{
  ℕ, ◌+◌, ◌≤◌, ◌<◌, ◌≡◌, ◌≢◌, ◌^◌, refl, ◌⊎◌, inl, inr, Bool, true, false, List, [], ◌∷◌, some,
  arith, ◌==◌, ◌↔◌, In,
}
use remniw.RegAlloc.Interval.{
  LiveRange, LiveRanges, LiveInterval, push, sort_by_end, insert_by_end,
  start_point_increasing_order_compare, end_point_increasing_order_compare,
}
use remniw.RegAlloc.LinearScan.{
  Allocator, allocated, is_free, to_interval, new_allocator, back, do_reg_alloc,
  get_spilled_reg_count, add_intervals, init_interval_sets, release, expire_loop,
  expire_old_intervals, conflict_with_fixed, split_back, spill_interval, spill_last,
  spill_at_interval, take_register, suits, first_suitable, get_free_phys_reg, allocate, handle,
  scan,
}
use remniw.RegAlloc.LinearScan.Calls.{CallsNest, do_reg_alloc-callee-saved}
use remniw.RegAlloc.LinearScan.Choice.{IsSuitable, get_free_phys_reg_lem}
use remniw.RegAlloc.LinearScan.Expiry.{expire-active_iff}
use remniw.RegAlloc.LinearScan.Leak.{do_reg_alloc-active_lost}
use remniw.RegAlloc.LinearScan.Result.{
  IsRangesMap, HandsOutPhysical, do_reg_alloc-IsPlaced, do_reg_alloc-Disjoint,
  do_reg_alloc-ne-fixed,
}
use remniw.RegAlloc.LinearScan.Sets.{RangesMap, Lifetime, FixedRange}
use remniw.RegAlloc.Register.{
  is_stack_slot, is_physical_register, is_virtual_register, index2_stack_slot, index2_virt_reg,
  virt_reg2_index, stack_slot2_index, first_stack_slot, register_roundtrips, count, no_register,
}
use remniw.RegAlloc.Target.{contains}
use remniw.RegAlloc.Target.X86.{x86_target_info, reg_no, rax, rbx}

program : Unit {0}
unfolding back do_reg_alloc get_spilled_reg_count add_intervals init_interval_sets release
    expire_loop expire_old_intervals conflict_with_fixed split_back spill_interval spill_last
    spill_at_interval take_register suits first_suitable get_free_phys_reg allocate handle scan push
    sort_by_end insert_by_end start_point_increasing_order_compare
    end_point_increasing_order_compare new_allocator is_stack_slot is_physical_register
    is_virtual_register index2_stack_slot
program = tt

abbrev pub virt : ℕ → ℕ
virt i = 2 ^ 31 + i

abbrev pub range : ℕ → ℕ → Bool → LiveRange
range s e c = record { start_point = s; end_point = e; used_across_call = c }

abbrev entry : ℕ → LiveRange → ℕ × LiveRanges
entry reg r = (reg, record { ranges = r ∷ [] })

-- Two free registers only, so that the third register spills the second.
abbrev pub small : List ℕ
small = reg_no rbx ∷ 13 ∷ []

abbrev pub ranges : RangesMap
ranges =
    entry (virt 0) (range 0 5 true)
    ∷ entry (reg_no rax) (range 3 4 false)
    ∷ entry (virt 1) (range 1 9 true)
    ∷ entry (virt 2) (range 2 7 true)
    ∷ entry (virt 3) (range 6 8 true)
    ∷ []

places : Allocator → ℕ × ℕ × ℕ × ℕ
places st =
    (allocated st (virt 0), allocated st (virt 1), allocated st (virt 2), get_spilled_reg_count st)

run_small :
    Option.map places (do_reg_alloc x86_target_info ranges (new_allocator small))
    ≡ some (12, first_stack_slot, 13, 1)
unfolding program places
run_small = refl

pub ranges-IsRangesMap : IsRangesMap ranges
unfolding back is_virtual_register
ranges-IsRangesMap = record {
  distinct = (
    λ reg lr i. ground arith,
    (
      λ reg lr i. ground arith,
      (λ reg lr i. ground arith, (λ reg lr i. ground arith, (λ reg lr i. absurd i, tt))),
    ),
  );
  has_ranges = (
    λ _. (range 0 5 true, refl),
    (
      λ _. (range 3 4 false, refl),
      (
        λ _. (range 1 9 true, refl),
        (λ _. (range 2 7 true, refl), (λ _. (range 6 8 true, refl), tt)),
      ),
    ),
  );
  forward = λ reg r l. ground (arith, l.is_entry, l.is_back);
  size = omega arith;
}

pub small-HandsOutPhysical : HandsOutPhysical (new_allocator small)
unfolding new_allocator is_physical_register
small-HandsOutPhysical = λ reg h. ground arith

pub first-Lifetime : Lifetime ranges (virt 0) (range 0 5 true)
unfolding back is_virtual_register is_stack_slot
first-Lifetime = record {
  live_ranges = record { ranges = range 0 5 true ∷ [] };
  is_entry = inl refl;
  is_virtual = refl;
  is_back = refl;
}

rax-FixedRange : FixedRange ranges (reg_no rax) (range 3 4 false)
unfolding is_physical_register
rax-FixedRange = record {
  live_ranges = record { ranges = range 3 4 false ∷ [] };
  is_entry = inr (inl refl);
  is_physical = refl;
  is_range = inl refl;
}

last-Lifetime : Lifetime ranges (virt 3) (range 6 8 true)
unfolding back is_virtual_register is_stack_slot
last-Lifetime = record {
  live_ranges = record { ranges = range 6 8 true ∷ [] };
  is_entry = inr (inr (inr (inr (inl refl))));
  is_virtual = refl;
  is_back = refl;
}

result : Allocator
unfolding program
result =
    Option.get_or (do_reg_alloc x86_target_info ranges (new_allocator small)) (new_allocator [])

returns : do_reg_alloc x86_target_info ranges (new_allocator small) ≡ some result
unfolding result
returns = refl

do_reg_alloc-IsPlaced_example :
    (st' : Allocator) × (do_reg_alloc x86_target_info ranges (new_allocator small) ≡ some st')
    × ((reg : ℕ) (r : LiveRange)
        → Lifetime ranges reg r
        → (is_physical_register (allocated st' reg) ≡ true)
          ⊎ ((i : ℕ) × (i < get_spilled_reg_count st')
              × (allocated st' reg ≡ first_stack_slot + i)))
do_reg_alloc-IsPlaced_example =
    do_reg_alloc-IsPlaced x86_target_info ranges (new_allocator small) ranges-IsRangesMap
      small-HandsOutPhysical

do_reg_alloc-Disjoint_example : (5 ≤ 6) ⊎ (8 ≤ 0)
unfolding result
do_reg_alloc-Disjoint_example =
    do_reg_alloc-Disjoint x86_target_info ranges (new_allocator small) ranges-IsRangesMap
      small-HandsOutPhysical result returns (virt 0) (virt 3) (range 0 5 true) (range 6 8 true)
      first-Lifetime last-Lifetime (omega arith) refl

do_reg_alloc-ne-fixed_example : allocated result (virt 0) ≢ reg_no rax
do_reg_alloc-ne-fixed_example =
    do_reg_alloc-ne-fixed x86_target_info ranges (new_allocator small) ranges-IsRangesMap
      small-HandsOutPhysical result returns (virt 0) (range 0 5 true) (reg_no rax) (range 3 4 false)
      first-Lifetime rax-FixedRange (omega arith)

ranges-CallsNest : CallsNest ranges
unfolding back
ranges-CallsNest =
    λ g h r s k l used starts ends. ground (arith, k.is_entry, k.is_back, k.is_virtual)

do_reg_alloc-callee-saved_example :
    x86_target_info.is_callee_saved_register (allocated result (virt 3)) ≡ true
unfolding result is_physical_register
do_reg_alloc-callee-saved_example =
    do_reg_alloc-callee-saved x86_target_info ranges (new_allocator small) result ranges-IsRangesMap
      ranges-CallsNest small-HandsOutPhysical returns (virt 3) (range 6 8 true) last-Lifetime refl
      refl

-- The same function once more, with the registers that the first run leaves.
again : Allocator
unfolding result
again = Option.get_or (do_reg_alloc x86_target_info ranges result) (new_allocator [])

again_returns : do_reg_alloc x86_target_info ranges result ≡ some again
unfolding again
again_returns = refl

last_interval : LiveInterval
last_interval = to_interval (virt 3) (range 6 8 true)

last_is_active : In last_interval result.active
unfolding result last_interval
last_is_active = inr (inl refl)

do_reg_alloc-active_lost_example :
    ((reg : ℕ) → allocated again reg ≢ allocated result (virt 3))
    × (is_free again (allocated result (virt 3)) ≡ false)
unfolding last_interval
do_reg_alloc-active_lost_example =
    do_reg_alloc-active_lost x86_target_info ranges ranges (new_allocator small) result again
      ranges-IsRangesMap ranges-IsRangesMap small-HandsOutPhysical returns again_returns
      last_interval last_is_active

two_active : Allocator
two_active = record (new_allocator small) {
  active = to_interval (virt 1) (range 1 9 true) ∷ to_interval (virt 0) (range 0 5 true) ∷ [];
}

expire-active_iff_example :
    In
      (to_interval (virt 1) (range 1 9 true))
      (expire_old_intervals last_interval
        (record two_active { active = sort_by_end two_active.active })).active
    ↔ (In (to_interval (virt 1) (range 1 9 true)) two_active.active × (6 < 9))
unfolding last_interval
expire-active_iff_example =
    expire-active_iff last_interval (to_interval (virt 1) (range 1 9 true)) two_active

get_free_phys_reg_lem_example :
    ((contains small (get_free_phys_reg x86_target_info last_interval (new_allocator small)) ≡ true)
      × IsSuitable x86_target_info last_interval
          (new_allocator small)
          (get_free_phys_reg x86_target_info last_interval (new_allocator small)))
    ⊎ ((get_free_phys_reg x86_target_info last_interval (new_allocator small) ≡ no_register)
        × ((reg : ℕ)
            → contains small reg ≡ true
            → ¬ (IsSuitable x86_target_info last_interval (new_allocator small) reg)))
unfolding new_allocator
get_free_phys_reg_lem_example =
    get_free_phys_reg_lem x86_target_info last_interval (new_allocator small)
      (λ reg h. ground arith)

register_roundtrips_example :
    (count (3 == no_register)
        + count (is_physical_register 3)
        + count (is_stack_slot 3)
        + count (is_virtual_register 3)
      ≡ 1)
    × ((r : ℕ) × (index2_virt_reg 7 ≡ some r)
        × (is_virtual_register r ≡ true)
        × (virt_reg2_index r ≡ some 7))
    × ((i : ℕ) × (virt_reg2_index (virt 7) ≡ some i) × (index2_virt_reg i ≡ some (virt 7)))
    × (is_stack_slot (index2_stack_slot 7) ≡ true)
    × (stack_slot2_index (index2_stack_slot 7) ≡ some 7)
unfolding is_virtual_register is_stack_slot
register_roundtrips_example =
    register_roundtrips 3 7 (virt 7) 7 (omega arith) (omega arith) (omega arith) refl (omega arith)
