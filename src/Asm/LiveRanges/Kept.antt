-- ===== src/Asm/LiveRanges/Kept.antt =====
-- What holds of the recorded ranges after each step.
use remniw.Prelude.{
  ℕ, ◌+◌, ◌≤◌, ◌<◌, ◌≡◌, refl, ap, inl, inr, true, List, [], ◌∷◌, Option, some, length, ◌||◌, arith,
  Option-cases,
}
use remniw.Asm.LiveRanges.{
  Building, find, crosses_call, change_back, virtual_live_ranges, new_range, extend,
}
use remniw.Asm.LiveRanges.Entries.{crosses_call_grows, mark_call-single}
use remniw.RegAlloc.Interval.{LiveRange, LiveRanges}
use remniw.RegAlloc.LinearScan.{back}
use remniw.RegAlloc.LinearScan.Sets.{DistinctKeys}
use remniw.RegAlloc.Register.{is_virtual_register}

-- A range that does not end after the next instruction, with the flag that says whether a call
-- stands in it.
pub record Fits (b : Building) (r : LiveRange) : Type 0 where
  pub forward : r.start_point < r.end_point
  pub ended : r.end_point ≤ length b.inst_list + 1
  pub flag : r.used_across_call ≡ crosses_call b.call_inst_indexes r.start_point r.end_point

-- `k` bounds the instructions and the entries of the map.
pub record Kept (k : ℕ) (b : Building) : Type 0 where
  pub distinct : DistinctKeys b.reg_live_ranges_map
  pub single :
      (reg_no : ℕ) (lr : LiveRanges)
      → is_virtual_register reg_no ≡ true
      → find reg_no b.reg_live_ranges_map ≡ some lr
      → (r : LiveRange) × (lr.ranges ≡ r ∷ []) × Fits b r
  pub entries : length b.reg_live_ranges_map ≤ k
  pub insts : length b.inst_list ≤ k

pub Kept-le : (k n : ℕ) (b : Building) → k ≤ n → Kept k b → Kept n b
Kept-le k n b h v = record {
  distinct = v.distinct;
  single = v.single;
  entries = omega (arith, v.entries);
  insts = omega (arith, v.insts);
}

-- The recorded lifetime of the register lies around the two points.
pub record Covers (reg_no s e : ℕ) (b : Building) : Type 0 where
  pub range : LiveRange
  pub is_found : find reg_no b.reg_live_ranges_map ≡ some (record { ranges = range ∷ [] })
  pub from : range.start_point ≤ s
  pub to : e ≤ range.end_point

-- A step returns, keeps the above, and shortens no lifetime.
pub record Step (k n : ℕ) (b : Building) (result : Option Building) : Type 0 where
  pub after : Building
  pub returns : result ≡ some after
  pub kept : Kept n after
  pub longer :
      (reg_no s e : ℕ)
      → is_virtual_register reg_no ≡ true
      → Covers reg_no s e b
      → Covers reg_no s e after
  pub not_fewer : length b.inst_list ≤ length after.inst_list

-- The range of a virtual register after a use of it.
pub record Extended (b : Building) (old : Option LiveRanges) : Type 0 where
  pub range : LiveRange
  pub is_new :
      virtual_live_ranges b.call_inst_indexes (length b.inst_list) (length b.inst_list + 1) old
      ≡ some (record { ranges = range ∷ [] })
  pub fits : Fits b range
  pub from : range.start_point ≤ length b.inst_list
  pub to : range.end_point ≡ length b.inst_list + 1
  pub around :
      (r : LiveRange) → old ≡ some (record { ranges = r ∷ [] }) → range.start_point ≤ r.start_point

LiveRanges-eq : (lr : LiveRanges) (l : List LiveRange) → lr.ranges ≡ l → lr ≡ record { ranges = l }
LiveRanges-eq lr l e = ap (λ (x : List LiveRange). record { ranges = x }) e

module _ (k : ℕ) (b : Building) (v : Kept k b) (reg_no : ℕ)
    (virtual : is_virtual_register reg_no ≡ true) where
  pub extended : Extended b (find reg_no b.reg_live_ranges_map)
  unfolding virtual_live_ranges back change_back
  extended =
      let size = length b.inst_list in
      elim (Option-cases (find reg_no b.reg_live_ranges_map)) [
        | inl n ↦ rw n (record {
          range = record (new_range size (size + 1)) {
            used_across_call = crosses_call b.call_inst_indexes size (size + 1);
          };
          is_new = ap some (
              LiveRanges-eq _ _
                (mark_call-single b.call_inst_indexes size (size + 1) (new_range size (size + 1))));
          fits = record { forward = omega arith; ended = omega arith; flag = refl };
          from = omega arith;
          to = refl;
          around = λ r e. ground arith;
        })
        | inr (lr, f) ↦
            let (r, single, fits) = v.single reg_no lr virtual f in
            let same = LiveRanges-eq lr (r ∷ []) single in
            rw (f, same)
              (record {
                range = record r {
                  end_point = size + 1;
                  used_across_call =
                      r.used_across_call
                      || crosses_call b.call_inst_indexes r.start_point (size + 1);
                };
                is_new = ap some (
                    LiveRanges-eq _ _ (
                      mark_call-single b.call_inst_indexes r.start_point (size + 1)
                        (extend (size + 1) r)));
                fits = record {
                  forward = omega (arith, fits.forward, fits.ended);
                  ended = omega arith;
                  flag = rw fits.flag (
                      crosses_call_grows b.call_inst_indexes r.start_point r.end_point (size + 1)
                        fits.ended);
                };
                from = omega (arith, fits.forward, fits.ended);
                to = refl;
                around = λ r' e. ground arith;
              })
      ]
