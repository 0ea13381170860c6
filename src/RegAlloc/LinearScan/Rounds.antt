-- ===== src/RegAlloc/LinearScan/Rounds.antt =====
-- Each round of the loop of `doRegAlloc` keeps the invariant, on each of its branches.
use remniw.Prelude.{
  ℕ, ◌+◌, ◌≤◌, ◌<◌, ◌≡◌, ◌≢◌, refl, sym, ap, inl, inr, false, List, [], ◌∷◌, ◌++◌, ◌^◌, In,
  In-append, In-append_left, In-append_right, length-append, arith, Bool-cases, ltb,
}
use remniw.RegAlloc.DenseMap.{contains-assign}
use remniw.RegAlloc.Interval.{LiveInterval, sort_by_end}
use remniw.RegAlloc.Interval.Sorting.{Distinct, In-sort, In-sort_back, sort-Distinct}
use remniw.RegAlloc.LinearScan.{
  Allocator, allocated, release, expire_loop, expire_old_intervals, take_register, spill_interval,
  spill_last, spill_at_interval, get_free_phys_reg, suits, allocate,
}
use remniw.RegAlloc.LinearScan.Choice.{
  conflict_with_fixed-false, get_free_phys_reg-suits, allocate_cases,
}
use remniw.RegAlloc.LinearScan.Invariant.{Inv, release-Inv}
use remniw.RegAlloc.LinearScan.Place.{place-Inv, front-Distinct}
use remniw.RegAlloc.LinearScan.Park.{park-Inv}
use remniw.RegAlloc.Register.{index2_stack_slot, no_register}
use remniw.RegAlloc.Target.{TargetInfo}

-- The round keeps its active list in the state.
abbrev pub Holds : List LiveInterval → ℕ → Allocator → Type 0
Holds handled t st = Inv handled t st.active st

-- Later times and other orders of the active list.
reorder-Inv :
    (handled : List LiveInterval) (t s : ℕ) (l l' : List LiveInterval) (st : Allocator)
    → t ≤ s
    → ((a : LiveInterval) → In a l' → In a l)
    → ((a : LiveInterval) → In a l → In a l')
    → Distinct l'
    → Inv handled t l st
    → Inv handled s l' st
reorder-Inv handled t s l l' st late from to d v = record {
  active_is_handled = λ a i. v.active_is_handled a (from a i);
  active_is_physical = λ a i. v.active_is_physical a (from a i);
  active_is_busy = λ a i. v.active_is_busy a (from a i);
  active_is_unique = λ a b i j. v.active_is_unique a b (from a i) (from b j);
  active_is_distinct = d;
  done = λ h i p. elim (v.done h i p) [ inl a ↦ inl (to h a) | inr e ↦ inr (omega arith) ];
  apart = v.apart;
  placed = v.placed;
  unfixed = v.unfixed;
  keys_are_physical = v.keys_are_physical;
  slots_are_spilled = v.slots_are_spilled;
}

-- A change of the member `Active` alone.
store-Inv :
    (handled : List LiveInterval) (t : ℕ) (l : List LiveInterval) (st : Allocator)
    → Inv handled t l st
    → Holds handled t (record st { active = l })
store-Inv handled t l st v = record {
  active_is_handled = v.active_is_handled;
  active_is_physical = v.active_is_physical;
  active_is_busy = v.active_is_busy;
  active_is_unique = v.active_is_unique;
  active_is_distinct = v.active_is_distinct;
  done = v.done;
  apart = v.apart;
  placed = v.placed;
  unfixed = v.unfixed;
  keys_are_physical = v.keys_are_physical;
  slots_are_spilled = v.slots_are_spilled;
}

expire_loop-Inv :
    (handled l : List LiveInterval) (li : LiveInterval) (st : Allocator)
    → Inv handled li.start_point l st
    → Holds handled li.start_point (expire_loop l li st)
unfolding expire_loop
expire_loop-Inv handled [] li st v = store-Inv handled li.start_point [] st v
expire_loop-Inv handled (a ∷ l) li st v = elim (Bool-cases (ltb li.start_point a.end_point)) [
  | inl e ↦ rw e (store-Inv handled li.start_point (a ∷ l) st v)
  | inr e ↦ rw e (
      expire_loop-Inv handled l li (release a st)
        (release-Inv handled li.start_point st a l (ground arith) v))
]

-- Sorting the active intervals and expiring the old ones.
pub expire-Inv :
    (handled : List LiveInterval) (t : ℕ) (li : LiveInterval) (st : Allocator)
    → t ≤ li.start_point
    → Holds handled t st
    → Holds handled li.start_point
        (expire_old_intervals li (record st { active = sort_by_end st.active }))
unfolding expire_old_intervals
expire-Inv handled t li st late v =
    expire_loop-Inv handled (sort_by_end st.active) li
      (record st { active = sort_by_end st.active })
      (store-Inv handled li.start_point (sort_by_end st.active) st (
        reorder-Inv handled t li.start_point st.active (sort_by_end st.active) st late
          (λ a. In-sort a st.active) (λ a. In-sort_back a st.active)
          (sort-Distinct st.active v.active_is_distinct) v))

-- Expiring gives out no slots.
pub expire_loop-slots :
    (l : List LiveInterval) (li : LiveInterval) (st : Allocator)
    → (expire_loop l li st).stack_slot_index ≡ st.stack_slot_index
unfolding expire_loop release
expire_loop-slots [] li st = refl
expire_loop-slots (a ∷ l) li st = ground (arith, expire_loop-slots l li (release a st))

pub expire_loop-fixed :
    (l : List LiveInterval) (li : LiveInterval) (st : Allocator)
    → (expire_loop l li st).fixed ≡ st.fixed
unfolding expire_loop release
expire_loop-fixed [] li st = refl
expire_loop-fixed (a ∷ l) li st = ground (arith, expire_loop-fixed l li (release a st))

module _ (ti : TargetInfo) (handled : List LiveInterval) (li : LiveInterval) (st : Allocator)
    (v : Holds handled li.start_point st)
    (fresh : (h : LiveInterval) → In h handled → h.reg ≢ li.reg)
    (forward : li.start_point ≤ li.end_point) (room : st.stack_slot_index < 2 ^ 30) where
  take-Inv :
      get_free_phys_reg ti li st ≢ no_register
      → Holds (li ∷ handled) li.start_point (take_register (get_free_phys_reg ti li st) li st)
  unfolding take_register suits
  take-Inv n =
      let phys = get_free_phys_reg ti li st in
      let found = get_free_phys_reg-suits ti li st n in
      place-Inv handled st.active li.start_point li phys st _ v
        (record {
          at_phys = λ j. refl;
          phys_is_busy = ground arith;
          busy_stays = λ j b. ground arith;
          keys_stay = λ j k. contains-assign phys false st.free_registers j k;
          same_fixed = refl;
          same_spilled = refl;
          same_index = refl;
        })
        fresh (omega arith) (v.keys_are_physical phys found.0)
        (λ a i e. ground (arith, v.active_is_busy a i))
        (λ f i p e. ground (arith, conflict_with_fixed-false st.fixed phys li f (ground arith) i e))

  spill-Inv : Holds (li ∷ handled) li.start_point (spill_interval li st)
  unfolding spill_interval index2_stack_slot
  spill-Inv =
      park-Inv handled st.active (li ∷ handled) st.active li.start_point li.reg st _ v
        (record {
          at_slot = λ j. ground arith;
          same_free = refl;
          same_fixed = refl;
          one_spilled = omega (arith, length-append st.spilled (li ∷ []));
          next_index = omega arith;
        })
        (λ h i. inr i)
        (λ h i. elim i [ inl e ↦ inr (ap (λ (w : LiveInterval). w.reg) e) | inr j ↦ inl j ])
        (λ a i. (i, fresh a (v.active_is_handled a i))) (λ a i _. i) v.active_is_distinct

  module _ (front : List LiveInterval) (last : LiveInterval)
      (splits : st.active ≡ front ++ last ∷ []) where
    evicted : Allocator
    evicted = record (spill_interval last st) { active = front }

    last_is_active : In last st.active
    last_is_active = rw splits (In-append_right last front (last ∷ []) (inl refl))

    li_is_not_last : li.reg ≢ last.reg
    li_is_not_last e = fresh last (v.active_is_handled last last_is_active) (sym e)

    front_facts : Distinct front × ((x : LiveInterval) → In x front → x.reg ≢ last.reg)
    front_facts = front-Distinct front last (rw splits at v.active_is_distinct)

    evicted-Inv : Inv handled li.start_point front evicted
    unfolding evicted spill_interval index2_stack_slot
    evicted-Inv =
        park-Inv handled st.active handled front li.start_point last.reg st evicted v
          (record {
            at_slot = λ j. ground arith;
            same_free = refl;
            same_fixed = refl;
            one_spilled = omega (arith, length-append st.spilled (last ∷ []));
            next_index = omega arith;
          })
          (λ h i. i) (λ h i. inl i)
          (λ a i. (rw splits (In-append_left a front (last ∷ []) i), front_facts.1 a i))
          (λ a i n. elim (In-append a front (last ∷ []) (rw splits at i)) [
            | inl j ↦ j
            | inr (inl e) ↦ absurd (n (ap (λ (w : LiveInterval). w.reg) e))
            | inr (inr b) ↦ absurd b
          ])
          front_facts.0

    spill_last-Inv : Holds (li ∷ handled) li.start_point (spill_last front last li st)
    unfolding evicted spill_interval spill_last
    spill_last-Inv =
        let phys = allocated st last.reg in
        place-Inv handled front li.start_point li phys evicted (spill_last front last li st)
          evicted-Inv
          (record {
            at_phys = λ j. ground (arith, li_is_not_last);
            phys_is_busy = v.active_is_busy last last_is_active;
            busy_stays = λ j b. b;
            keys_stay = λ j k. inl k;
            same_fixed = refl;
            same_spilled = refl;
            same_index = refl;
          })
          fresh (omega arith) (v.active_is_physical last last_is_active)
          (λ a i. λ e. front_facts.1 a i (
            v.active_is_unique a last (rw splits (In-append_left a front (last ∷ []) i))
              last_is_active (ground (arith, front_facts.1 a i))))
          (v.unfixed last (v.active_is_handled last last_is_active)
            (v.active_is_physical last last_is_active))

  pub allocate-Inv : Holds (li ∷ handled) li.start_point (allocate ti li st)
  allocate-Inv =
      allocate_cases (Holds (li ∷ handled) li.start_point) ti li st take-Inv spill-Inv
        (λ front last splits _. spill_last-Inv front last splits)

  -- A round gives out one slot at most.
  pub allocate-slots : (allocate ti li st).stack_slot_index ≤ st.stack_slot_index + 1
  unfolding allocate take_register spill_at_interval spill_interval spill_last
  allocate-slots = ground arith

  pub allocate-fixed : (allocate ti li st).fixed ≡ st.fixed
  unfolding allocate take_register spill_at_interval spill_interval spill_last
  allocate-fixed = ground arith
