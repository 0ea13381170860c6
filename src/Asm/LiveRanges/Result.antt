-- ===== src/Asm/LiveRanges/Result.antt =====
-- What the allocator relies on: the map that is recorded for a function is one that `doRegAlloc`
-- takes, and each use of a virtual register lies in its lifetime.
use remniw.Prelude.{
  ℕ, ◌+◌, ◌*◌, ◌≤◌, ◌<◌, ◌^◌, ◌≡◌, refl, sym, ◌∙◌, inl, inr, true, List, [], ◌∷◌, In, some, length,
  ◌↔◌, arith,
}
use remniw.Asm.LiveRanges.{Building, new_function, find, Emission, emit, emit_all}
use remniw.Asm.LiveRanges.Code.{calls_in, crosses_call_iff, emit_all-calls}
use remniw.Asm.LiveRanges.Entries.{In-find, find-In, crosses_call_wider}
use remniw.Asm.LiveRanges.Kept.{Fits, Kept, Covers, Step}
use remniw.Asm.LiveRanges.Steps.{same-Step, bind-Step, Step-le, emit-Step}
use remniw.RegAlloc.Interval.{LiveRange, LiveRanges}
use remniw.RegAlloc.LinearScan.{back}
use remniw.RegAlloc.LinearScan.Calls.{CallsNest}
use remniw.RegAlloc.LinearScan.Result.{IsRangesMap}
use remniw.RegAlloc.LinearScan.Sets.{RangesMap, HasRanges, Lifetime}
use remniw.RegAlloc.Register.{is_virtual_register}

pub emit_all-Step :
    (es : List Emission) (k : ℕ) (b : Building)
    → Kept k b
    → k + 2 * length es + 2 < 2 ^ 31
    → Step k (k + 2 * length es) b (emit_all es b)
unfolding emit_all
emit_all-Step [] k b v small = same-Step k b v (k + 0) (omega arith)
emit_all-Step (e ∷ es) k b v small =
    bind-Step k (k + 2) (k + 2 * length (e ∷ es)) b (emit e b) (emit_all es)
      (emit-Step k b v (omega arith) e)
      (λ b' v'.
        Step-le (k + 2) (k + 2 + 2 * length es) (k + 2 * length (e ∷ es)) b' _ (omega arith)
          (emit_all-Step es (k + 2) b' v' (omega arith)))

pub new_function-Kept : Kept 0 new_function
unfolding find
new_function-Kept = record {
  distinct = tt;
  single = λ reg_no lr virtual f. ground arith;
  entries = omega arith;
  insts = omega arith;
}

module _ (k : ℕ) (b : Building) (v : Kept k b) where
  abbrev map : RangesMap
  map = b.reg_live_ranges_map

  Lifetime-Fits : (reg_no : ℕ) (range : LiveRange) → Lifetime map reg_no range → Fits b range
  unfolding back
  Lifetime-Fits reg_no range l =
      let found = In-find map reg_no l.live_ranges v.distinct l.is_entry in
      let (r, single, fits) = v.single reg_no l.live_ranges l.is_virtual found in
      let same : r ≡ range = ground (arith, l.is_back) in rw (← same) fits

  Kept-HasRanges :
      (m : RangesMap)
      → ((reg_no : ℕ) (lr : LiveRanges) → In (reg_no, lr) m → In (reg_no, lr) map)
      → HasRanges m
  unfolding back
  Kept-HasRanges [] sub = tt
  Kept-HasRanges ((reg_no, lr) ∷ m) sub = (
    λ virtual.
        let found = In-find map reg_no lr v.distinct (sub reg_no lr (inl refl)) in
        let (r, single, fits) = v.single reg_no lr virtual found in (r, rw single refl),
    Kept-HasRanges m (λ reg' lr' i. sub reg' lr' (inr i)),
  )

  pub Kept-IsRangesMap : k ≤ 2 ^ 30 → IsRangesMap map
  Kept-IsRangesMap h = record {
    distinct = v.distinct;
    has_ranges = Kept-HasRanges map (λ _ _ i. i);
    forward = λ reg_no range l. omega (arith, (Lifetime-Fits reg_no range l).forward);
    size = omega (arith, v.entries);
  }

  pub Kept-CallsNest : CallsNest map
  Kept-CallsNest g h g_range h_range i j used starts ends =
      (Lifetime-Fits g g_range i).flag
      ∙ crosses_call_wider b.call_inst_indexes h_range.start_point h_range.end_point
          g_range.start_point g_range.end_point starts (omega arith)
          (sym (Lifetime-Fits h h_range j).flag ∙ used)

  pub Covers-Lifetime :
      (reg_no s e : ℕ)
      → is_virtual_register reg_no ≡ true
      → Covers reg_no s e b
      → (range : LiveRange) × Lifetime map reg_no range
        × (range.start_point ≤ s)
        × (e ≤ range.end_point)
  unfolding back
  Covers-Lifetime reg_no s e virtual c = (
    c.range,
    record {
      live_ranges = record { ranges = c.range ∷ [] };
      is_entry = find-In map reg_no _ c.is_found;
      is_virtual = virtual;
      is_back = refl;
    },
    c.from,
    c.to,
  )

-- Adding up to 2 ^ 29 instructions and uses of operands never reads the last range of an empty
-- vector, and gives a map of live ranges that the allocator takes: the keys are distinct, each
-- virtual register has a range that ends after it starts, and one that lies around a range used
-- across a call is marked as used across it too.
pub emit_all-IsRangesMap :
    (es : List Emission)
    → length es ≤ 2 ^ 29
    → (b : Building) × (emit_all es new_function ≡ some b)
      × IsRangesMap b.reg_live_ranges_map
      × CallsNest b.reg_live_ranges_map
emit_all-IsRangesMap es h =
    let step = emit_all-Step es 0 new_function new_function-Kept (omega arith) in
    (
      step.after,
      step.returns,
      Kept-IsRangesMap (0 + 2 * length es) step.after step.kept (omega arith),
      Kept-CallsNest (0 + 2 * length es) step.after step.kept,
    )

module _ (es : List Emission) (b : Building) (small : length es ≤ 2 ^ 29)
    (returns : emit_all es new_function ≡ some b) where
  pub emitted-Kept : Kept (0 + 2 * length es) b
  emitted-Kept =
      let step = emit_all-Step es 0 new_function new_function-Kept (omega arith) in
      let same : step.after ≡ b = cc (sym step.returns ∙ returns) in rw (← same) step.kept

  -- For up to 2 ^ 29 steps that return: the lifetime that a virtual register has in the end is marked as
  -- used across a call exactly if, for some call among the steps, the number of instructions up to that
  -- call, itself included, is at least its start and less than its end.
  pub emit_all-flag :
      (reg_no : ℕ) (range : LiveRange)
      → Lifetime b.reg_live_ranges_map reg_no range
      → (range.used_across_call ≡ true) ↔ (
          (index : ℕ) × In index (calls_in 0 es)
          × (range.start_point ≤ index)
          × (index < range.end_point))
  emit_all-flag reg_no range l =
      let fits = Lifetime-Fits (0 + 2 * length es) b emitted-Kept reg_no range l in
      let counted = emit_all-calls es new_function b (omega (arith, small)) returns in
      let found = crosses_call_iff (calls_in 0 es) range.start_point range.end_point in
      rw (fits.flag, counted) found
