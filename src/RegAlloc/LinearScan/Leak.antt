-- ===== src/RegAlloc/LinearScan/Leak.antt =====
-- `doRegAlloc` does not reset `FreeRegisters`: a register that is busy when it starts stays busy.
use mathlib.Core.Path.{subst}
use remniw.Prelude.{
  ℕ, ◌+◌, ◌≤◌, ◌<◌, ◌^◌, ◌≡◌, ◌≢◌, inl, inr, true, false, List, [], ◌∷◌, In, length, arith,
  Bool-cases, ltb, some,
}
use remniw.RegAlloc.Interval.{LiveInterval, sort_by_end}
use remniw.RegAlloc.LinearScan.{
  Allocator, allocated, is_free, release, expire_loop, expire_old_intervals, take_register,
  spill_interval, spill_last, get_free_phys_reg, suits, allocate, handle, scan, do_reg_alloc,
}
use remniw.RegAlloc.LinearScan.Choice.{get_free_phys_reg-suits, allocate_cases}
use remniw.RegAlloc.LinearScan.Rounds.{expire_loop-slots}
use remniw.RegAlloc.LinearScan.Sets.{RangesMap, Gathers, init_interval_sets-Gathers}
use remniw.RegAlloc.LinearScan.Result.{IsRangesMap, HandsOutPhysical, reset, do_reg_alloc-Run}
use remniw.RegAlloc.Register.{is_physical_register, index2_stack_slot, no_register}
use remniw.RegAlloc.Target.{TargetInfo}

-- The register is busy, and nothing is in it.
record IsLost (reg : ℕ) (st : Allocator) : Type 0 where
  busy : is_free st reg ≡ false
  unused : (j : ℕ) → allocated st j ≢ reg

module _ (ti : TargetInfo) (reg : ℕ) (physical : is_physical_register reg ≡ true) where
  release-IsLost : (a : LiveInterval) (st : Allocator) → IsLost reg st → IsLost reg (release a st)
  unfolding release
  release-IsLost a st v = record { busy = ground (arith, v.unused a.reg); unused = v.unused }

  expire-IsLost :
      (l : List LiveInterval) (li : LiveInterval) (st : Allocator)
      → IsLost reg st
      → IsLost reg (expire_loop l li st)
  unfolding expire_loop
  expire-IsLost [] li st v = record { busy = v.busy; unused = v.unused }
  expire-IsLost (a ∷ l) li st v = elim (Bool-cases (ltb li.start_point a.end_point)) [
    | inl e ↦ rw e (record { busy = v.busy; unused = v.unused })
    | inr e ↦ rw e (expire-IsLost l li (release a st) (release-IsLost a st v))
  ]

  slot_is_other : (i : ℕ) → i < 2 ^ 30 → index2_stack_slot i ≢ reg
  unfolding index2_stack_slot is_physical_register
  slot_is_other i h e = ground arith

  module _ (li : LiveInterval) (st : Allocator) (v : IsLost reg st)
      (room : st.stack_slot_index < 2 ^ 30) where
    take-IsLost :
        get_free_phys_reg ti li st ≢ no_register
        → IsLost reg (take_register (get_free_phys_reg ti li st) li st)
    unfolding take_register suits
    take-IsLost n =
        let found = get_free_phys_reg-suits ti li st n in
        let other : get_free_phys_reg ti li st ≢ reg = λ e. ground arith in
        record { busy = ground arith; unused = λ j e. ground (arith, v.unused j) }

    spill-IsLost : IsLost reg (spill_interval li st)
    unfolding spill_interval
    spill-IsLost = record {
      busy = v.busy;
      unused = λ j e. ground (arith, v.unused j, slot_is_other st.stack_slot_index);
    }

    spill_last-IsLost :
        (front : List LiveInterval) (last : LiveInterval) → IsLost reg (spill_last front last li st)
    unfolding spill_last
    spill_last-IsLost front last = record {
      busy = v.busy;
      unused =
          λ j e. ground (arith, v.unused j, v.unused last.reg, slot_is_other st.stack_slot_index);
    }

    allocate-IsLost : IsLost reg (allocate ti li st)
    allocate-IsLost =
        allocate_cases (IsLost reg) ti li st take-IsLost spill-IsLost
          (λ front last _ _. spill_last-IsLost front last)

    allocate-slots : (allocate ti li st).stack_slot_index ≤ st.stack_slot_index + 1
    unfolding take_register spill_interval spill_last
    allocate-slots =
        allocate_cases (λ st'. st'.stack_slot_index ≤ st.stack_slot_index + 1) ti li st
          (λ _. omega arith) (omega arith) (λ _ _ _ _. omega arith)

  scan-IsLost :
      (queue : List LiveInterval) (st : Allocator)
      → st.stack_slot_index + length queue ≤ 2 ^ 30
      → IsLost reg st
      → IsLost reg (scan ti queue st)
  unfolding scan handle expire_old_intervals
  scan-IsLost [] st room v = v
  scan-IsLost (li ∷ queue) st room v =
      let sorted : Allocator = record st { active = sort_by_end st.active } in
      let old = expire_loop (sort_by_end st.active) li sorted in
      let slots = expire_loop-slots (sort_by_end st.active) li sorted in
      let v' =
        expire-IsLost (sort_by_end st.active) li sorted
          (record { busy = v.busy; unused = v.unused }) in
      let enough : old.stack_slot_index < 2 ^ 30 = omega (arith, slots) in
      scan-IsLost queue (allocate ti li old) (omega (arith, slots, allocate-slots li old v' enough))
        (allocate-IsLost li old v' enough)

  -- A register that is busy before a run is given to no register in it.
  do_reg_alloc-IsLost :
      (m : RangesMap) (st st' : Allocator)
      → IsRangesMap m
      → is_free st reg ≡ false
      → do_reg_alloc ti m st ≡ some st'
      → IsLost reg st'
  unfolding do_reg_alloc is_physical_register
  do_reg_alloc-IsLost m st st' valid busy e =
      let init =
        init_interval_sets-Gathers m (record { unhandled = []; fixed = [] }) valid.has_ranges
          valid.distinct tt tt (λ x reg lr i j. absurd i) in
      let res = init.0 in
      let g : Gathers m (record { unhandled = []; fixed = [] }) res = init.2 in
      let same : scan ti res.unhandled (reset st res.fixed) ≡ st' = cc (rw init.1 at e) in
      subst (IsLost reg) same (
        scan-IsLost res.unhandled (reset st res.fixed) (omega (arith, g.no_more, valid.size))
          (record { busy = busy; unused = λ j p. ground (arith, physical) }))

module _ (ti : TargetInfo) (m next : RangesMap) (st st' st'' : Allocator) (valid : IsRangesMap m)
    (next_valid : IsRangesMap next) (physical : HandsOutPhysical st)
    (returns : do_reg_alloc ti m st ≡ some st')
    (next_returns : do_reg_alloc ti next st' ≡ some st'') where
  -- On a map of live ranges that meets `IsRangesMap`, with an allocator that hands out physical
  -- registers, and on a next map that meets it too: the register of an interval that is still active
  -- when one run ends is given to no register by the next run, and is still busy after it.
  pub do_reg_alloc-active_lost :
      (a : LiveInterval)
      → In a st'.active
      → ((reg : ℕ) → allocated st'' reg ≢ allocated st' a.reg)
        × (is_free st'' (allocated st' a.reg) ≡ false)
  do_reg_alloc-active_lost a i =
      let v = (do_reg_alloc-Run ti m st valid physical st' returns).1.scanned.holds in
      let lost =
        do_reg_alloc-IsLost ti (allocated st' a.reg) (v.active_is_physical a i) next st' st''
          next_valid (v.active_is_busy a i) next_returns in
      (lost.unused, lost.busy)
