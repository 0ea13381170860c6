-- ===== src/RegAlloc/LinearScan/Scan.antt =====
-- The loop of `doRegAlloc` over the whole queue.
use remniw.Prelude.{
  ℕ, ◌+◌, ◌≤◌, ◌<◌, ◌≡◌, ◌≢◌, ◌^◌, refl, sym, ap, ◌∙◌, inl, inr, List, [], ◌∷◌, In, length, arith,
}
use remniw.RegAlloc.Interval.{LiveInterval, sort_by_end}
use remniw.RegAlloc.Interval.Sorting.{Distinct, StartsFrom}
use remniw.RegAlloc.LinearScan.{Allocator, expire_old_intervals, allocate, handle, scan}
use remniw.RegAlloc.LinearScan.Rounds.{
  Holds, expire-Inv, expire_loop-slots, expire_loop-fixed, allocate-Inv, allocate-slots,
  allocate-fixed,
}
use remniw.RegAlloc.Target.{TargetInfo}

abbrev expired : LiveInterval → Allocator → Allocator
expired li st = expire_old_intervals li (record st { active = sort_by_end st.active })

expired-slots :
    (li : LiveInterval) (st : Allocator) → (expired li st).stack_slot_index ≡ st.stack_slot_index
unfolding expire_old_intervals
expired-slots li st = expire_loop-slots (sort_by_end st.active) li _

expired-fixed : (li : LiveInterval) (st : Allocator) → (expired li st).fixed ≡ st.fixed
unfolding expire_old_intervals
expired-fixed li st = expire_loop-fixed (sort_by_end st.active) li _

-- The intervals that the loop has handled when it ends, and what holds of them.
pub record Scanned (handled queue : List LiveInterval) (old st : Allocator) : Type 0 where
  pub all : List LiveInterval
  pub time : ℕ
  pub holds : Holds all time st
  pub keeps : (x : LiveInterval) → In x handled → In x all
  pub adds : (x : LiveInterval) → In x queue → In x all
  pub same_fixed : st.fixed ≡ old.fixed
  pub few_slots : st.stack_slot_index ≤ old.stack_slot_index + length queue

module _ (ti : TargetInfo) where
  pub scan-Scanned :
      (handled queue : List LiveInterval) (t : ℕ) (st : Allocator)
      → Holds handled t st
      → Distinct queue
      → StartsFrom t queue
      → ((x : LiveInterval) → In x queue → x.start_point ≤ x.end_point)
      → ((h x : LiveInterval) → In h handled → In x queue → h.reg ≢ x.reg)
      → st.stack_slot_index + length queue ≤ 2 ^ 30
      → Scanned handled queue st (scan ti queue st)
  unfolding scan handle
  scan-Scanned handled [] t st v d s forward fresh room = record {
    all = handled;
    time = t;
    holds = v;
    keeps = λ x i. i;
    adds = λ x i. absurd i;
    same_fixed = refl;
    few_slots = omega arith;
  }
  scan-Scanned handled (li ∷ queue) t st v d s forward fresh room =
      let old = expired li st in
      let slots = expired-slots li st in
      let v' = expire-Inv handled t li st s.0 v in
      let before : (h : LiveInterval) → In h handled → h.reg ≢ li.reg =
        λ h i. fresh h li i (inl refl) in
      let first = forward li (inl refl) in
      let enough : old.stack_slot_index < 2 ^ 30 = omega (arith, slots) in
      let w = allocate-Inv ti handled li old v' before first enough in
      let more = allocate-slots ti handled li old v' before first enough in
      let same = allocate-fixed ti handled li old v' before first enough in
      let rest =
        scan-Scanned (li ∷ handled) queue li.start_point (allocate ti li old) w d.1 s.1
          (λ x i. forward x (inr i))
          (λ h x i j. elim i [
            | inl e ↦ λ r. d.0 x j (sym r ∙ ap (λ (w : LiveInterval). w.reg) e)
            | inr k ↦ fresh h x k (inr j)
          ])
          (omega (arith, more, slots)) in
      record {
        all = rest.all;
        time = rest.time;
        holds = rest.holds;
        keeps = λ x i. rest.keeps x (inr i);
        adds = λ x i. elim i [ inl e ↦ rest.keeps x (inl e) | inr j ↦ rest.adds x j ];
        same_fixed = rest.same_fixed ∙ same ∙ expired-fixed li st;
        few_slots = omega (arith, rest.few_slots, more, slots);
      }
