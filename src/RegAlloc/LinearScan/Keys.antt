-- ===== src/RegAlloc/LinearScan/Keys.antt =====
-- Each register that has been put somewhere is a key of the map that allocation returns.
use mathlib.Core.Path.{subst}
use remniw.Prelude.{
  ℕ, ◌≡◌, ◌≢◌, refl, inl, inr, true, List, [], ◌∷◌, ◌++◌, none, some, ◌==◌, ltb, not, arith,
  Bool-cases, Option-cases,
}
use remniw.RegAlloc.DenseMap.{DenseMap, assign, touch, empty}
use remniw.RegAlloc.Interval.{LiveRanges, LiveInterval, sort_by_end}
use remniw.RegAlloc.LinearScan.{
  Allocator, release, expire_loop, expire_old_intervals, split_back, spill_interval, spill_last,
  spill_at_interval, take_register, get_free_phys_reg, allocate, handle, scan, do_reg_alloc,
  init_interval_sets,
}
use remniw.RegAlloc.Register.{no_register}
use remniw.RegAlloc.Target.{TargetInfo, contains}

-- A register that is not under its default value has an entry.
abbrev pub HasKeys : DenseMap ℕ → Type 0
HasKeys m = (k : ℕ) → m.at k ≢ no_register → contains m.keys k ≡ true

contains-snoc_old :
    (ks : List ℕ) (k j : ℕ) → contains ks j ≡ true → contains (ks ++ k ∷ []) j ≡ true
contains-snoc_old [] k j h = ground arith
contains-snoc_old (x ∷ ks) k j h = ground (arith, contains-snoc_old ks k j)

contains-snoc_new : (ks : List ℕ) (k : ℕ) → contains (ks ++ k ∷ []) k ≡ true
contains-snoc_new [] k = ground arith
contains-snoc_new (x ∷ ks) k = ground (arith, contains-snoc_new ks k)

touch-HasKeys : (k : ℕ) (m : DenseMap ℕ) → HasKeys m → HasKeys (touch k m)
touch-HasKeys k m h j n = elim (Bool-cases (contains m.keys k)) [
  | inl e ↦ rw e (h j n)
  | inr e ↦ rw e (contains-snoc_old m.keys k j (h j n))
]

assign-HasKeys : (k v : ℕ) (m : DenseMap ℕ) → HasKeys m → HasKeys (assign k v m)
assign-HasKeys k v m h j n = elim (Bool-cases (contains m.keys k)) [
  | inl e ↦ rw e (elim (Bool-cases (j == k)) [
    | inl same ↦ ground (arith, e, same)
    | inr other ↦ h j (rw other at n)
  ])
  | inr e ↦ rw e (elim (Bool-cases (j == k)) [
    | inl same ↦ ground (arith, contains-snoc_new m.keys k, same)
    | inr other ↦ contains-snoc_old m.keys k j (h j (rw other at n))
  ])
]

abbrev pub Keyed : Allocator → Type 0
Keyed st = HasKeys st.virt_reg_to_allocated_reg_map

expire_loop-Keyed :
    (active : List LiveInterval) (li : LiveInterval) (st : Allocator)
    → Keyed st
    → Keyed (expire_loop active li st)
unfolding expire_loop release
expire_loop-Keyed [] li st h = h
expire_loop-Keyed (a ∷ rest) li st h = elim (Bool-cases (ltb li.start_point a.end_point)) [
  | inl e ↦ rw e h
  | inr e ↦ rw e (
      expire_loop-Keyed rest li (release a st)
        (touch-HasKeys a.reg st.virt_reg_to_allocated_reg_map h))
]

spill_interval-Keyed :
    (li : LiveInterval) (st : Allocator) → Keyed st → Keyed (spill_interval li st)
unfolding spill_interval
spill_interval-Keyed li st h = assign-HasKeys li.reg _ st.virt_reg_to_allocated_reg_map h

spill_last-Keyed :
    (front : List LiveInterval) (last li : LiveInterval) (st : Allocator)
    → Keyed st
    → Keyed (spill_last front last li st)
unfolding spill_last
spill_last-Keyed front last li st h =
    assign-HasKeys last.reg _ (assign li.reg _ st.virt_reg_to_allocated_reg_map)
      (assign-HasKeys li.reg _ st.virt_reg_to_allocated_reg_map h)

spill_at_interval-Keyed :
    (li : LiveInterval) (st : Allocator) → Keyed st → Keyed (spill_at_interval li st)
unfolding spill_at_interval
spill_at_interval-Keyed li st h = elim (Option-cases (split_back st.active)) [
  | inl e ↦ rw (spill_at_interval, e) (spill_interval-Keyed li st h)
  | inr ((front, last), e) ↦ elim (Bool-cases (ltb li.end_point last.end_point)) [
    | inl lt ↦ rw (spill_at_interval, e, lt) (spill_last-Keyed front last li st h)
    | inr ge ↦ rw (spill_at_interval, e, ge) (spill_interval-Keyed li st h)
  ]
]

module _ (ti : TargetInfo) where
  allocate-Keyed : (li : LiveInterval) (st : Allocator) → Keyed st → Keyed (allocate ti li st)
  unfolding allocate take_register
  allocate-Keyed li st h = elim (Bool-cases (not (get_free_phys_reg ti li st == no_register))) [
    | inl e ↦ rw e (assign-HasKeys li.reg _ st.virt_reg_to_allocated_reg_map h)
    | inr e ↦ rw e (spill_at_interval-Keyed li st h)
  ]

  scan-Keyed : (queue : List LiveInterval) (st : Allocator) → Keyed st → Keyed (scan ti queue st)
  unfolding scan handle expire_old_intervals
  scan-Keyed [] st h = h
  scan-Keyed (li ∷ queue) st h =
      scan-Keyed queue (handle ti li st)
        (allocate-Keyed li _ (expire_loop-Keyed (sort_by_end st.active) li _ h))

  -- Where allocation returns, each register with a place is a key of the map.
  pub do_reg_alloc-Keyed :
      (m : List (ℕ × LiveRanges)) (st st' : Allocator) → do_reg_alloc ti m st ≡ some st' → Keyed st'
  unfolding do_reg_alloc
  do_reg_alloc-Keyed m st st' e =
      elim (Option-cases (init_interval_sets m (record { unhandled = []; fixed = [] }))) [
        | inl n ↦ absurd (none_ne (rw n at e))
        | inr (sets, found) ↦
            let reset : Allocator = record st {
              fixed = sets.fixed;
              active = [];
              spilled = [];
              virt_reg_to_allocated_reg_map = empty no_register;
              stack_slot_index = 0;
            } in
            let same : scan ti sets.unhandled reset ≡ st' = cc (rw found at e) in
            subst Keyed same (scan-Keyed sets.unhandled reset (λ k n. absurd (n refl)))
      ]
    where
      none_ne : {A : Type 0} {a : A} → none ≢ some a
      none_ne h = cc h
