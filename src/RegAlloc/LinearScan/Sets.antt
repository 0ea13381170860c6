-- ===== src/RegAlloc/LinearScan/Sets.antt =====
-- `initIntervalSets`: which intervals are to be handled, and which are fixed.
use mathlib.Core.List.{map}
use mathlib.Core.Path.{subst}
use remniw.Prelude.{
  ℕ, ◌+◌, ◌≤◌, ◌≡◌, ◌≢◌, refl, sym, ap, ◌∙◌, ◌⊎◌, inl, inr, true, false, List, [], ◌∷◌, ◌++◌, In,
  In-append_left, In-append_right, length, arith, Bool-cases, some, if◌then◌else◌,
}
use remniw.RegAlloc.Interval.{LiveRange, LiveRanges, LiveInterval, push}
use remniw.RegAlloc.Interval.Sorting.{
  Distinct, StartsFrom, In-push, In-push_back, push-Distinct, push-StartsFrom,
}
use remniw.RegAlloc.LinearScan.{IntervalSets, to_interval, back, add_intervals, init_interval_sets}
use remniw.RegAlloc.Register.{is_physical_register, is_virtual_register}

-- The map of live ranges, in the order in which a loop meets its entries.
abbrev pub RangesMap : Type 0
RangesMap = List (ℕ × LiveRanges)

abbrev pub DistinctKeys : RangesMap → Type 0
DistinctKeys [] = Unit {0}
DistinctKeys ((reg, lr) ∷ m) =
    ((reg' : ℕ) (lr' : LiveRanges) → In (reg', lr') m → reg' ≢ reg) × DistinctKeys m

-- `range` is the lifetime of the virtual register `reg`.
pub record Lifetime (m : RangesMap) (reg : ℕ) (range : LiveRange) : Type 0 where
  pub live_ranges : LiveRanges
  pub is_entry : In (reg, live_ranges) m
  pub is_virtual : is_virtual_register reg ≡ true
  pub is_back : back live_ranges.ranges ≡ some range

-- `range` is one of the ranges of the physical register `reg`.
pub record FixedRange (m : RangesMap) (reg : ℕ) (range : LiveRange) : Type 0 where
  pub live_ranges : LiveRanges
  pub is_entry : In (reg, live_ranges) m
  pub is_physical : is_physical_register reg ≡ true
  pub is_range : In range live_ranges.ranges

-- Every virtual register has a range.
abbrev pub HasRanges : RangesMap → Type 0
HasRanges [] = Unit {0}
HasRanges ((reg, lr) ∷ m) =
    (is_virtual_register reg ≡ true → (range : LiveRange) × (back lr.ranges ≡ some range))
    × HasRanges m

In-map :
    (reg : ℕ) (range : LiveRange) (l : List LiveRange)
    → In range l
    → In (to_interval reg range) (map (to_interval reg) l)
In-map reg range (r ∷ l) (inl e) = inl (ap (to_interval reg) e)
In-map reg range (r ∷ l) (inr i) = inr (In-map reg range l i)
In-map reg range [] i = absurd i

-- What one more entry adds to the sets.
record Adds (reg : ℕ) (lr : LiveRanges) (sets res : IntervalSets) : Type 0 where
  keeps : (x : LiveInterval) → In x sets.unhandled → In x res.unhandled
  lifetime :
      (range : LiveRange)
      → is_virtual_register reg ≡ true
      → back lr.ranges ≡ some range
      → In (to_interval reg range) res.unhandled
  only :
      (x : LiveInterval)
      → In x res.unhandled
      → In x sets.unhandled
        ⊎ ((range : LiveRange) × (is_virtual_register reg ≡ true)
            × (back lr.ranges ≡ some range)
            × (x ≡ to_interval reg range))
  distinct :
      ((x : LiveInterval) → In x sets.unhandled → x.reg ≢ reg)
      → Distinct sets.unhandled
      → Distinct res.unhandled
  starts : StartsFrom 0 sets.unhandled → StartsFrom 0 res.unhandled
  one_more : length res.unhandled ≤ length sets.unhandled + 1
  keeps_fixed : (x : LiveInterval) → In x sets.fixed → In x res.fixed
  fixed :
      (range : LiveRange)
      → is_physical_register reg ≡ true
      → In range lr.ranges
      → In (to_interval reg range) res.fixed

length-push : (li : LiveInterval) (qs : List LiveInterval) → length (push li qs) ≡ length qs + 1
unfolding push
length-push li [] = omega arith
length-push li (q ∷ qs) = ground (arith, length-push li qs)

abbrev with_fixed : ℕ → LiveRanges → List LiveInterval → List LiveInterval
with_fixed reg lr fixed =
    if is_physical_register reg then fixed ++ map (to_interval reg) lr.ranges else fixed

module _ (reg : ℕ) (lr : LiveRanges) (fixed : List LiveInterval) where
  with_fixed_keeps : (x : LiveInterval) → In x fixed → In x (with_fixed reg lr fixed)
  with_fixed_keeps x i = elim (Bool-cases (is_physical_register reg)) [
    | inl e ↦ rw e (In-append_left x fixed _ i)
    | inr e ↦ rw e i
  ]

  with_fixed_adds :
      (range : LiveRange)
      → is_physical_register reg ≡ true
      → In range lr.ranges
      → In (to_interval reg range) (with_fixed reg lr fixed)
  with_fixed_adds range p i = rw p (In-append_right _ fixed _ (In-map reg range lr.ranges i))

module _ (reg : ℕ) (lr : LiveRanges) (sets : IntervalSets) where
  open sets use {unhandled, fixed}

  virtual-Adds :
      (range : LiveRange)
      → is_virtual_register reg ≡ true
      → back lr.ranges ≡ some range
      → Adds reg lr sets (record {
        unhandled = push (to_interval reg range) unhandled;
        fixed = with_fixed reg lr fixed;
      })
  virtual-Adds range virtual e = record {
    keeps = λ x i. In-push_back (to_interval reg range) x unhandled (inr i);
    lifetime = λ r p f. In-push_back (to_interval reg range) _ unhandled (inl (ground arith));
    only = λ x i. elim (In-push (to_interval reg range) x unhandled i) [
      | inl p ↦ inr (range, virtual, e, p)
      | inr j ↦ inl j
    ];
    distinct = λ h d. push-Distinct (to_interval reg range) unhandled d h;
    starts = λ s. push-StartsFrom 0 (to_interval reg range) unhandled (omega arith) s;
    one_more = omega (arith, length-push (to_interval reg range) unhandled);
    keeps_fixed = with_fixed_keeps reg lr fixed;
    fixed = with_fixed_adds reg lr fixed;
  }

  other-Adds :
      is_virtual_register reg ≡ false
      → Adds reg lr sets (record { unhandled = unhandled; fixed = with_fixed reg lr fixed })
  other-Adds other = record {
    keeps = λ x i. i;
    lifetime = λ r p f. cc;
    only = λ x i. inl i;
    distinct = λ h d. d;
    starts = λ s. s;
    one_more = omega arith;
    keeps_fixed = with_fixed_keeps reg lr fixed;
    fixed = with_fixed_adds reg lr fixed;
  }

  add_intervals-Adds :
      (is_virtual_register reg ≡ true → (range : LiveRange) × (back lr.ranges ≡ some range))
      → (res : IntervalSets) × (add_intervals reg lr sets ≡ some res) × Adds reg lr sets res
  unfolding add_intervals
  add_intervals-Adds has = elim (Bool-cases (is_virtual_register reg)) [
    | inl e ↦ let found = has e in (_, rw (e, found.1) refl, virtual-Adds found.0 e found.1)
    | inr e ↦ (_, rw e refl, other-Adds e)
  ]

-- What the whole loop gives.
pub record Gathers (m : RangesMap) (sets res : IntervalSets) : Type 0 where
  pub keeps : (x : LiveInterval) → In x sets.unhandled → In x res.unhandled
  pub lifetime :
      (reg : ℕ) (range : LiveRange)
      → Lifetime m reg range
      → In (to_interval reg range) res.unhandled
  pub only :
      (x : LiveInterval)
      → In x res.unhandled
      → In x sets.unhandled
        ⊎ ((range : LiveRange) × Lifetime m x.reg range × (x ≡ to_interval x.reg range))
  pub distinct : Distinct res.unhandled
  pub starts : StartsFrom 0 res.unhandled
  pub no_more : length res.unhandled ≤ length sets.unhandled + length m
  pub keeps_fixed : (x : LiveInterval) → In x sets.fixed → In x res.fixed
  pub fixed :
      (reg : ℕ) (range : LiveRange) → FixedRange m reg range → In (to_interval reg range) res.fixed

later-Lifetime :
    (p : ℕ × LiveRanges) (m : RangesMap) (reg : ℕ) (range : LiveRange)
    → Lifetime m reg range
    → Lifetime (p ∷ m) reg range
later-Lifetime p m reg range l = record {
  live_ranges = l.live_ranges;
  is_entry = inr l.is_entry;
  is_virtual = l.is_virtual;
  is_back = l.is_back;
}

pub init_interval_sets-Gathers :
    (m : RangesMap) (sets : IntervalSets)
    → HasRanges m
    → DistinctKeys m
    → Distinct sets.unhandled
    → StartsFrom 0 sets.unhandled
    → ((x : LiveInterval) (reg : ℕ) (lr : LiveRanges)
        → In x sets.unhandled
        → In (reg, lr) m
        → x.reg ≢ reg)
    → (res : IntervalSets) × (init_interval_sets m sets ≡ some res) × Gathers m sets res
unfolding init_interval_sets
init_interval_sets-Gathers [] sets has keys d s new = (
  sets,
  refl,
  record {
    keeps = λ x i. i;
    lifetime = λ reg range l. absurd l.is_entry;
    only = λ x i. inl i;
    distinct = d;
    starts = s;
    no_more = omega arith;
    keeps_fixed = λ x i. i;
    fixed = λ reg range f. absurd f.is_entry;
  },
)
init_interval_sets-Gathers ((reg, lr) ∷ m) sets has keys d s new =
    let first = add_intervals-Adds reg lr sets has.0 in
    let mid = first.0 in
    let adds : Adds reg lr sets mid = first.2 in
    let new_entry : (x : LiveInterval) (r : ℕ) (l : LiveRanges)
        → In x mid.unhandled
        → In (r, l) m
        → x.reg ≢ r =
      λ x r l i j. elim (adds.only x i) [
        | inl k ↦ new x r l k (inr j)
        | inr (_, _, _, e) ↦ λ p. keys.0 r l j (sym p ∙ ap (λ (w : LiveInterval). w.reg) e)
      ] in
    let rest =
      init_interval_sets-Gathers m mid has.1 keys.1
        (adds.distinct (λ x i. new x reg lr i (inl refl)) d) (adds.starts s) new_entry in
    let g : Gathers m mid rest.0 = rest.2 in (rest.0, rw first.1 rest.1, extend mid rest.0 adds g)
  where
    extend :
        (mid res : IntervalSets)
        → Adds reg lr sets mid
        → Gathers m mid res
        → Gathers ((reg, lr) ∷ m) sets res
    extend mid res adds g = record {
      keeps = λ x i. g.keeps x (adds.keeps x i);
      lifetime = λ r range l. elim l.is_entry [
        | inl p ↦ rw (ap (λ (w : ℕ × LiveRanges). w.0) p) (
            g.keeps _
              (adds.lifetime range (ground (arith, l.is_virtual)) (ground (arith, l.is_back))))
        | inr i ↦ g.lifetime r range (record {
          live_ranges = l.live_ranges;
          is_entry = i;
          is_virtual = l.is_virtual;
          is_back = l.is_back;
        })
      ];
      only = λ x i. elim (g.only x i) [
        | inl j ↦ elim (adds.only x j) [
          | inl k ↦ inl k
          | inr (range, virtual, b, e) ↦
              let same : x.reg ≡ reg = ap (λ (w : LiveInterval). w.reg) e in
              inr (
                range,
                record {
                  live_ranges = lr;
                  is_entry = inl (ap (λ (w : ℕ). (w, lr)) same);
                  is_virtual = ap is_virtual_register same ∙ virtual;
                  is_back = b;
                },
                e ∙ ap (λ (w : ℕ). to_interval w range) (sym same),
              )
        ]
        | inr (range, l, e) ↦ inr (range, later-Lifetime (reg, lr) m x.reg range l, e)
      ];
      distinct = g.distinct;
      starts = g.starts;
      no_more = omega (arith, g.no_more, adds.one_more);
      keeps_fixed = λ x i. g.keeps_fixed x (adds.keeps_fixed x i);
      fixed = λ r range f. elim f.is_entry [
        | inl p ↦ rw (ap (λ (w : ℕ × LiveRanges). w.0) p) (
            g.keeps_fixed _ (
              adds.fixed range (ground (arith, f.is_physical))
                (subst (λ (w : ℕ × LiveRanges). In range w.1.ranges) p f.is_range)))
        | inr i ↦ g.fixed r range (record {
          live_ranges = f.live_ranges;
          is_entry = i;
          is_physical = f.is_physical;
          is_range = f.is_range;
        })
      ];
    }

-- What is to be handled, when the loop starts from nothing, is a lifetime.
pub unhandled-Lifetime :
    (m : RangesMap) (res : IntervalSets)
    → Gathers m (record { unhandled = []; fixed = [] }) res
    → (x : LiveInterval) → In x res.unhandled
    → (range : LiveRange) × Lifetime m x.reg range × (x ≡ to_interval x.reg range)
unhandled-Lifetime m res g x i = elim (g.only x i) [ inl n ↦ absurd n | inr found ↦ found ]
