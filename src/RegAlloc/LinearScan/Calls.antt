-- ===== src/RegAlloc/LinearScan/Calls.antt =====
-- Registers that hold a value across a call.
use remniw.Prelude.{
  ℕ, ◌+◌, ◌≤◌, ◌<◌, ◌^◌, ◌≡◌, ◌≢◌, refl, sym, ap, ◌∙◌, ◌⊎◌, inl, inr, true, false, List, [], ◌∷◌,
  ◌++◌, In, In-append_right, length, arith, some,
}
use remniw.RegAlloc.Interval.{LiveRange, LiveInterval, sort_by_end}
use remniw.RegAlloc.Interval.Sorting.{Distinct, StartsFrom}
use remniw.RegAlloc.LinearScan.{
  Allocator, allocated, release, expire_loop, expire_old_intervals, take_register, spill_interval,
  spill_last, get_free_phys_reg, suits, allocate, handle, scan, do_reg_alloc, to_interval,
  IntervalSets,
}
use remniw.RegAlloc.LinearScan.Choice.{get_free_phys_reg-suits, allocate_cases}
use remniw.RegAlloc.LinearScan.Result.{
  IsRangesMap, HandsOutPhysical, reset, reset-Holds, unhandled-forward,
}
use remniw.RegAlloc.LinearScan.Rounds.{
  Holds, expire-Inv, expire_loop-slots, allocate-Inv, allocate-slots,
}
use remniw.RegAlloc.LinearScan.Sets.{
  RangesMap, Lifetime, Gathers, init_interval_sets-Gathers, unhandled-Lifetime,
}
use remniw.RegAlloc.Register.{is_physical_register, index2_stack_slot}
use remniw.RegAlloc.Target.{TargetInfo}

-- A lifetime around one that is used across a call is used across that call too.
abbrev Nests : LiveInterval → LiveInterval → Type 0
Nests g h =
    h.used_across_call ≡ true
    → g.start_point ≤ h.start_point
    → h.end_point < g.end_point
    → g.used_across_call ≡ true

record Saved (ti : TargetInfo) (handled : List LiveInterval) (t : ℕ) (st : Allocator) : Type 0 where
  saved :
      (h : LiveInterval)
      → In h handled
      → h.used_across_call ≡ true
      → is_physical_register (allocated st h.reg) ≡ true
      → ti.is_callee_saved_register (allocated st h.reg) ≡ true
  started : (h : LiveInterval) → In h handled → h.start_point ≤ t

module _ (ti : TargetInfo) where
  expire-allocated :
      (l : List LiveInterval) (li : LiveInterval) (st : Allocator) (j : ℕ)
      → allocated (expire_loop l li st) j ≡ allocated st j
  unfolding expire_loop release
  expire-allocated [] li st j = refl
  expire-allocated (a ∷ l) li st j = ground (arith, expire-allocated l li (release a st) j)

  slot_is_not_physical : (i : ℕ) → i < 2 ^ 30 → is_physical_register (index2_stack_slot i) ≡ false
  unfolding is_physical_register index2_stack_slot
  slot_is_not_physical i h = ground arith

  module _ (handled : List LiveInterval) (li : LiveInterval) (st : Allocator)
      (v : Holds handled li.start_point st) (w : Saved ti handled li.start_point st)
      (fresh : (h : LiveInterval) → In h handled → h.reg ≢ li.reg)
      (nests : (h : LiveInterval) → In h handled → Nests h li)
      (room : st.stack_slot_index < 2 ^ 30) where
    started : (h : LiveInterval) → In h (li ∷ handled) → h.start_point ≤ li.start_point
    started h (inl e) = omega (arith, ap (λ (x : LiveInterval). x.start_point) e)
    started h (inr i) = w.started h i

    take-Saved :
        get_free_phys_reg ti li st ≢ 0
        → Saved ti (li ∷ handled) li.start_point (take_register (get_free_phys_reg ti li st) li st)
    unfolding take_register suits
    take-Saved n =
        let found = get_free_phys_reg-suits ti li st n in
        record {
          saved = λ h i u p. elim i [
            | inl e ↦ ground (
              arith,
              ap (λ (x : LiveInterval). x.reg) e,
              ap (λ (x : LiveInterval). x.used_across_call) e,
            )
            | inr j ↦ ground (arith, fresh h j, w.saved h j u)
          ];
          started = started;
        }

    spill-Saved : Saved ti (li ∷ handled) li.start_point (spill_interval li st)
    unfolding spill_interval
    spill-Saved = record {
      saved = λ h i u p. elim i [
        | inl e ↦ ground (
          arith,
          ap (λ (x : LiveInterval). x.reg) e,
          slot_is_not_physical st.stack_slot_index room,
        )
        | inr j ↦ ground (arith, fresh h j, w.saved h j u)
      ];
      started = started;
    }

    steal-Saved :
        (front : List LiveInterval) (last : LiveInterval)
        → st.active ≡ front ++ last ∷ []
        → li.end_point < last.end_point
        → Saved ti (li ∷ handled) li.start_point (spill_last front last li st)
    unfolding spill_last
    steal-Saved front last splits lt =
        let active : In last st.active =
          rw splits (In-append_right last front (last ∷ []) (inl refl)) in
        let older : In last handled = v.active_is_handled last active in
        let physical = v.active_is_physical last active in
        let slot = slot_is_not_physical st.stack_slot_index room in
        record {
          saved = λ h i u p. elim i [
            | inl e ↦
                let used : li.used_across_call ≡ true =
                  sym (ap (λ (x : LiveInterval). x.used_across_call) e) ∙ u in
                let last_used = nests last older used (w.started last older) lt in
                ground (
                  arith,
                  ap (λ (x : LiveInterval). x.reg) e,
                  slot,
                  w.saved last older last_used physical,
                )
            | inr j ↦ ground (arith, fresh h j, slot, w.saved h j u)
          ];
          started = started;
        }

    allocate-Saved : Saved ti (li ∷ handled) li.start_point (allocate ti li st)
    allocate-Saved =
        allocate_cases (Saved ti (li ∷ handled) li.start_point) ti li st take-Saved spill-Saved
          steal-Saved

  -- The intervals that the loop has handled when it ends, none of them lost.
  record ScanSaved (handled queue : List LiveInterval) (st : Allocator) : Type 0 where
    all : List LiveInterval
    time : ℕ
    holds : Saved ti all time st
    keeps : (x : LiveInterval) → In x handled → In x all
    adds : (x : LiveInterval) → In x queue → In x all

  scan-Saved :
      (handled queue : List LiveInterval) (t : ℕ) (st : Allocator)
      → Holds handled t st
      → Saved ti handled t st
      → Distinct queue
      → StartsFrom t queue
      → ((x : LiveInterval) → In x queue → x.start_point ≤ x.end_point)
      → ((h x : LiveInterval) → In h handled → In x queue → h.reg ≢ x.reg)
      → ((h x : LiveInterval) → In h handled ⊎ In h queue → In x queue → Nests h x)
      → st.stack_slot_index + length queue ≤ 2 ^ 30
      → ScanSaved handled queue (scan ti queue st)
  unfolding scan handle expire_old_intervals
  scan-Saved handled [] t st v w d s forward fresh nests room = record {
    all = handled;
    time = t;
    holds = w;
    keeps = λ x i. i;
    adds = λ x i. absurd i;
  }
  scan-Saved handled (li ∷ queue) t st v w d s forward fresh nests room =
      let sorted : Allocator = record st { active = sort_by_end st.active } in
      let old = expire_loop (sort_by_end st.active) li sorted in
      let slots = expire_loop-slots (sort_by_end st.active) li sorted in
      let v' = expire-Inv handled t li st s.0 v in
      let w' : Saved ti handled li.start_point old = record {
        saved = λ h i u p.
            let same = expire-allocated (sort_by_end st.active) li sorted h.reg in
            rw same (w.saved h i u (rw same at p));
        started = λ h i. omega (arith, w.started h i, s.0);
      } in
      let before : (h : LiveInterval) → In h handled → h.reg ≢ li.reg =
        λ h i. fresh h li i (inl refl) in
      let nested : (h : LiveInterval) → In h handled → Nests h li =
        λ h i. nests h li (inl i) (inl refl) in
      let first = forward li (inl refl) in
      let enough : old.stack_slot_index < 2 ^ 30 = omega (arith, slots) in
      let rest =
        scan-Saved (li ∷ handled) queue li.start_point (allocate ti li old)
          (allocate-Inv ti handled li old v' before first enough)
          (allocate-Saved handled li old v' w' before nested enough) d.1 s.1
          (λ x i. forward x (inr i))
          (λ h x i j. elim i [
            | inl e ↦ λ r. d.0 x j (sym r ∙ ap (λ (y : LiveInterval). y.reg) e)
            | inr k ↦ fresh h x k (inr j)
          ])
          (λ h x i j.
            nests h x
              (elim i [ inl (inl e) ↦ inr (inl e) | inl (inr k) ↦ inl k | inr k ↦ inr (inr k) ])
              (inr j))
          (omega (arith, slots, allocate-slots ti handled li old v' before first enough)) in
      record {
        all = rest.all;
        time = rest.time;
        holds = rest.holds;
        keeps = λ x i. rest.keeps x (inr i);
        adds = λ x i. elim i [ inl e ↦ rest.keeps x (inl e) | inr j ↦ rest.adds x j ];
      }

-- A lifetime that encloses one that is used across a call is used across a call itself, as it is
-- where the flag says whether a call stands in the lifetime.
abbrev pub CallsNest : RangesMap → Type 0
CallsNest m =
    (g h : ℕ) (g_range h_range : LiveRange)
    → Lifetime m g g_range
    → Lifetime m h h_range
    → h_range.used_across_call ≡ true
    → g_range.start_point ≤ h_range.start_point
    → h_range.end_point < g_range.end_point
    → g_range.used_across_call ≡ true

module _ (ti : TargetInfo) (m : RangesMap) (st st' : Allocator) (valid : IsRangesMap m)
    (calls : CallsNest m) (physical : HandsOutPhysical st)
    (returns : do_reg_alloc ti m st ≡ some st') where
  nests :
      (res : IntervalSets)
      → Gathers m (record { unhandled = []; fixed = [] }) res
      → (h x : LiveInterval) → In h [] ⊎ In h res.unhandled
      → In x res.unhandled
      → Nests h x
  nests res g h x (inl n) j used starts ends = absurd n
  nests res g h x (inr i) j used starts ends =
      let (r, k, e) = unhandled-Lifetime m res g h i in
      let (s, l, f) = unhandled-Lifetime m res g x j in ground (arith, calls h.reg x.reg r s k l)

  -- On a map of live ranges that meets `IsRangesMap`, with an allocator that hands out physical
  -- registers, and where a lifetime around one that is used across a call is marked so too: a virtual
  -- register that is used across a call is in no physical register but a callee-saved one, although
  -- `spillAtInterval` passes registers on without looking at the flag.
  pub do_reg_alloc-callee-saved :
      (reg : ℕ) (range : LiveRange)
      → Lifetime m reg range
      → range.used_across_call ≡ true
      → is_physical_register (allocated st' reg) ≡ true
      → ti.is_callee_saved_register (allocated st' reg) ≡ true
  unfolding do_reg_alloc
  do_reg_alloc-callee-saved reg range l used =
      let init =
        init_interval_sets-Gathers m (record { unhandled = []; fixed = [] }) valid.has_ranges
          valid.distinct tt tt (λ x reg lr i j. absurd i) in
      let res = init.0 in
      let g : Gathers m (record { unhandled = []; fixed = [] }) res = init.2 in
      let same : scan ti res.unhandled (reset st res.fixed) ≡ st' = cc (rw init.1 at returns) in
      let run =
        scan-Saved ti [] res.unhandled 0 (reset st res.fixed) (reset-Holds st res.fixed physical)
          (record { saved = λ h i u p. absurd i; started = λ h i. absurd i }) g.distinct g.starts
          (unhandled-forward m res valid g) (λ h x i j. absurd i) (nests res g)
          (omega (arith, g.no_more, valid.size)) in
      rw (← same)
        (run.holds.saved (to_interval reg range) (run.adds _ (g.lifetime reg range l)) used)
