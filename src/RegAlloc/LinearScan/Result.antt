-- ===== src/RegAlloc/LinearScan/Result.antt =====
-- What the clients of `doRegAlloc` rely on.
use mathlib.Core.Path.{subst}
use remniw.Prelude.{
  In, ℕ, ◌+◌, ◌≤◌, ◌<◌, ◌≡◌, ◌≢◌, ◌^◌, refl, sym, ap, ◌∙◌, ◌⊎◌, inl, inr, true, List, [], length,
  arith, some,
}
use remniw.RegAlloc.DenseMap.{empty}
use remniw.RegAlloc.Interval.{LiveRange, LiveInterval}
use remniw.RegAlloc.LinearScan.{
  Allocator, IntervalSets, allocated, to_interval, scan, do_reg_alloc, get_spilled_reg_count,
}
use remniw.RegAlloc.LinearScan.Rounds.{Holds}
use remniw.RegAlloc.LinearScan.Scan.{Scanned, scan-Scanned}
use remniw.RegAlloc.LinearScan.Sets.{
  RangesMap, DistinctKeys, HasRanges, Lifetime, FixedRange, Gathers, init_interval_sets-Gathers,
  unhandled-Lifetime,
}
use remniw.RegAlloc.Register.{no_register, is_physical_register, first_stack_slot}
use remniw.RegAlloc.Target.{TargetInfo, contains}

-- The registers that the allocator can hand out are physical ones.
abbrev pub HandsOutPhysical : Allocator → Type 0
HandsOutPhysical st =
    (reg : ℕ) → contains st.free_registers.keys reg ≡ true → is_physical_register reg ≡ true

-- A map of live ranges as the builders make it: a key stands once, a virtual register has a range, no
-- lifetime ends before it starts, and there are at most 2 ^ 30 entries.
pub record IsRangesMap (m : RangesMap) : Type 0 where
  pub distinct : DistinctKeys m
  pub has_ranges : HasRanges m
  pub forward :
      (reg : ℕ) (range : LiveRange) → Lifetime m reg range → range.start_point ≤ range.end_point
  pub size : length m ≤ 2 ^ 30

pub unhandled-forward :
    (m : RangesMap) (res : IntervalSets)
    → IsRangesMap m
    → Gathers m (record { unhandled = []; fixed = [] }) res
    → (x : LiveInterval) → In x res.unhandled
    → x.start_point ≤ x.end_point
unhandled-forward m res valid g x i =
    let (range, l, e) = unhandled-Lifetime m res g x i in
    omega (
      arith,
      valid.forward x.reg range l,
      ap (λ (w : LiveInterval). w.start_point) e,
      ap (λ (w : LiveInterval). w.end_point) e,
    )

-- The state in which the loop starts.
abbrev pub reset : Allocator → List LiveInterval → Allocator
reset st fixed = record st {
  fixed = fixed;
  active = [];
  spilled = [];
  virt_reg_to_allocated_reg_map = empty no_register;
  stack_slot_index = 0;
}

pub record Run (m : RangesMap) (res : IntervalSets) (st st' : Allocator) : Type 0 where
  pub gathers : Gathers m (record { unhandled = []; fixed = [] }) res
  pub scanned : Scanned [] res.unhandled (reset st res.fixed) st'

pub reset-Holds :
    (st : Allocator) (fixed : List LiveInterval) → HandsOutPhysical st → Holds [] 0 (reset st fixed)
reset-Holds st fixed k = record {
  active_is_handled = λ a i. i;
  active_is_physical = λ a i. absurd i;
  active_is_busy = λ a i. absurd i;
  active_is_unique = λ a b i j p. absurd i;
  active_is_distinct = tt;
  done = λ h i p. absurd i;
  apart = λ g h i j n p. absurd i;
  placed = λ h i. absurd i;
  unfixed = λ h i p. absurd i;
  keys_are_physical = k;
  slots_are_spilled = refl;
}

module _ (ti : TargetInfo) (m : RangesMap) (st : Allocator) (valid : IsRangesMap m)
    (physical : HandsOutPhysical st) where
  runs :
      (res : IntervalSets) × (st' : Allocator) × (do_reg_alloc ti m st ≡ some st')
      × Run m res st st'
  unfolding do_reg_alloc
  runs =
      let init =
        init_interval_sets-Gathers m (record { unhandled = []; fixed = [] }) valid.has_ranges
          valid.distinct tt tt (λ x reg lr i j. absurd i) in
      let res = init.0 in
      let g : Gathers m (record { unhandled = []; fixed = [] }) res = init.2 in
      (
        res,
        scan ti res.unhandled (reset st res.fixed),
        rw init.1 refl,
        record {
          gathers = g;
          scanned =
              scan-Scanned ti [] res.unhandled 0 (reset st res.fixed)
                (reset-Holds st res.fixed physical) g.distinct g.starts
                (unhandled-forward m res valid g) (λ h x i j. absurd i)
                (omega (arith, g.no_more, valid.size));
        },
      )

  pub do_reg_alloc-Run :
      (st' : Allocator) → do_reg_alloc ti m st ≡ some st' → (res : IntervalSets) × Run m res st st'
  do_reg_alloc-Run st' e =
      let found = runs in
      let same : found.1 ≡ st' = cc (sym found.2 ∙ e) in
      (found.0, subst (Run m found.0 st) same found.3)

  -- On a map of live ranges that meets `IsRangesMap`, with an allocator that hands out physical
  -- registers, allocation returns, and then every virtual register with a lifetime is in a physical
  -- register or in a stack slot, whose index is below the number of spilled registers.
  pub do_reg_alloc-IsPlaced :
      (st' : Allocator) × (do_reg_alloc ti m st ≡ some st')
      × ((reg : ℕ) (range : LiveRange)
          → Lifetime m reg range
          → (is_physical_register (allocated st' reg) ≡ true)
            ⊎ ((i : ℕ) × (i < get_spilled_reg_count st')
                × (allocated st' reg ≡ first_stack_slot + i)))
  unfolding get_spilled_reg_count
  do_reg_alloc-IsPlaced =
      let found = runs in
      let st' = found.1 in
      let run : Run m found.0 st st' = found.3 in
      let v = run.scanned.holds in
      (
        st',
        found.2,
        λ reg range l.
            elim (v.placed (to_interval reg range)
              (run.scanned.adds _ (run.gathers.lifetime reg range l))) [
                | inl p ↦ inl p
                | inr (i, lt, e) ↦ inr (i, omega (arith, v.slots_are_spilled), e)
              ],
      )

  -- There is a stack slot for each.
  pub do_reg_alloc-few_slots :
      (st' : Allocator) → do_reg_alloc ti m st ≡ some st' → get_spilled_reg_count st' ≤ 2 ^ 30
  unfolding get_spilled_reg_count
  do_reg_alloc-few_slots st' e =
      let run = (do_reg_alloc-Run st' e).1 in
      omega (
        arith, run.scanned.few_slots, run.scanned.holds.slots_are_spilled, run.gathers.no_more,
        valid.size,
      )

  module _ (st' : Allocator) (returns : do_reg_alloc ti m st ≡ some st') where
    -- On a map of live ranges that meets `IsRangesMap`, with an allocator that hands out physical
    -- registers: two virtual registers that are put in one place, be it a physical register or a stack
    -- slot, are never live at the same time.
    pub do_reg_alloc-Disjoint :
        (g h : ℕ) (g_range h_range : LiveRange)
        → Lifetime m g g_range
        → Lifetime m h h_range
        → g ≢ h
        → allocated st' g ≡ allocated st' h
        → (g_range.end_point ≤ h_range.start_point) ⊎ (h_range.end_point ≤ g_range.start_point)
    do_reg_alloc-Disjoint g h g_range h_range i j n e =
        let run = (do_reg_alloc-Run st' returns).1 in
        run.scanned.holds.apart (to_interval g g_range) (to_interval h h_range)
          (run.scanned.adds _ (run.gathers.lifetime g g_range i))
          (run.scanned.adds _ (run.gathers.lifetime h h_range j)) n e

    -- On a map of live ranges that meets `IsRangesMap`, with an allocator that hands out physical
    -- registers: no virtual register is put in a physical register that the code uses by name over a
    -- range that is not empty.
    pub do_reg_alloc-ne-fixed :
        (reg : ℕ) (range : LiveRange) (fixed : ℕ) (fixed_range : LiveRange)
        → Lifetime m reg range
        → FixedRange m fixed fixed_range
        → fixed_range.start_point < fixed_range.end_point
        → allocated st' reg ≢ fixed
    do_reg_alloc-ne-fixed reg range fixed fixed_range i f lt e =
        let run = (do_reg_alloc-Run st' returns).1 in
        run.scanned.holds.unfixed (to_interval reg range)
          (run.scanned.adds _ (run.gathers.lifetime reg range i)) (rw e f.is_physical)
          (to_interval fixed fixed_range)
          (rw run.scanned.same_fixed (run.gathers.fixed fixed fixed_range f)) lt (sym e)
