-- ===== src/Asm/LiveRanges/Allocation.antt =====
-- Recording and allocation together: `doRegAlloc` on the map that the builder fills.
use remniw.Prelude.{ℕ, ◌+◌, ◌*◌, ◌≤◌, ◌<◌, ◌^◌, ◌≡◌, ◌≢◌, inl, inr, true, List, length, some, arith}
use remniw.Asm.LiveRanges.{Building, new_function, Emission, emit_all}
use remniw.Asm.LiveRanges.Result.{emitted-Kept, Kept-IsRangesMap, Kept-CallsNest}
use remniw.RegAlloc.Interval.{LiveRange}
use remniw.RegAlloc.LinearScan.{Allocator, allocated, do_reg_alloc}
use remniw.RegAlloc.LinearScan.Calls.{do_reg_alloc-callee-saved}
use remniw.RegAlloc.LinearScan.Result.{IsRangesMap, HandsOutPhysical, do_reg_alloc-Disjoint}
use remniw.RegAlloc.LinearScan.Sets.{Lifetime}
use remniw.RegAlloc.Register.{is_physical_register}
use remniw.RegAlloc.Target.{TargetInfo}

module _ (ti : TargetInfo) (es : List Emission) (b : Building) (st st' : Allocator)
    (small : length es ≤ 2 ^ 29) (physical : HandsOutPhysical st)
    (recorded : emit_all es new_function ≡ some b)
    (returns : do_reg_alloc ti b.reg_live_ranges_map st ≡ some st') where
  emitted-IsRangesMap : IsRangesMap b.reg_live_ranges_map
  emitted-IsRangesMap =
      Kept-IsRangesMap (0 + 2 * length es) b (emitted-Kept es b small recorded) (omega arith)

  -- After at most 2 ^ 29 steps of recording from an empty function, and allocation on the map that
  -- they fill: two virtual registers whose lifetimes both hold the index of one instruction are in
  -- different places.
  pub emit_all-do_reg_alloc-apart :
      (g h : ℕ) (g_range h_range : LiveRange) (index : ℕ)
      → Lifetime b.reg_live_ranges_map g g_range
      → Lifetime b.reg_live_ranges_map h h_range
      → g ≢ h
      → g_range.start_point ≤ index
      → index < g_range.end_point
      → h_range.start_point ≤ index
      → index < h_range.end_point
      → allocated st' g ≢ allocated st' h
  emit_all-do_reg_alloc-apart g h g_range h_range index i j n gs ge hs he e =
      elim (do_reg_alloc-Disjoint ti b.reg_live_ranges_map st emitted-IsRangesMap physical st'
        returns g h g_range h_range i j n e) [
          | inl p ↦ absurd (omega arith)
          | inr p ↦ absurd (omega arith)
        ]

  -- After at most 2 ^ 29 steps of recording from an empty function, and allocation on the map that
  -- they fill: a virtual register whose lifetime is marked as used across a call is in no physical
  -- register that the call may overwrite.
  pub emit_all-do_reg_alloc-callee-saved :
      (reg_no : ℕ) (range : LiveRange)
      → Lifetime b.reg_live_ranges_map reg_no range
      → range.used_across_call ≡ true
      → is_physical_register (allocated st' reg_no) ≡ true
      → ti.is_callee_saved_register (allocated st' reg_no) ≡ true
  emit_all-do_reg_alloc-callee-saved =
      do_reg_alloc-callee-saved ti b.reg_live_ranges_map st st' emitted-IsRangesMap
        (Kept-CallsNest (0 + 2 * length es) b (emitted-Kept es b small recorded)) physical returns
