-- ===== src/RegAlloc/LinearScan/Park.antt =====
-- A round of `doRegAlloc` gives a register a fresh stack slot: that of the interval at hand, or that
-- of an active one, which is then active no more.
use remniw.Prelude.{
  ℕ, ◌+◌, ◌≡◌, ◌≢◌, sym, ◌∙◌, ◌⊎◌, inl, inr, true, false, List, ◌==◌, In, length, arith,
  if◌then◌else◌,
}
use remniw.RegAlloc.Interval.{LiveInterval}
use remniw.RegAlloc.Interval.Sorting.{Distinct}
use remniw.RegAlloc.LinearScan.{Allocator, allocated}
use remniw.RegAlloc.LinearScan.Invariant.{Inv, IsPlaced, Disjoint}
use remniw.RegAlloc.Register.{is_physical_register, first_stack_slot}
use native.Mathlib.Decide.{ℕ_discrete}

-- What the state after has: `reg` is in the next stack slot, and all else is as it was.
pub record Parks (reg : ℕ) (st st' : Allocator) : Type 0 where
  pub at_slot :
      (j : ℕ)
      → allocated st' j
        ≡ (if j == reg then first_stack_slot + st.stack_slot_index else allocated st j)
  pub same_free : st'.free_registers ≡ st.free_registers
  pub same_fixed : st'.fixed ≡ st.fixed
  pub one_spilled : length st'.spilled ≡ length st.spilled + 1
  pub next_index : st'.stack_slot_index ≡ st.stack_slot_index + 1

slot_is_not_physical : (i : ℕ) → is_physical_register (first_stack_slot + i) ≡ false
unfolding is_physical_register
slot_is_not_physical i = ground arith

-- A register that has a place is not in a slot that is yet to be given out.
slot_is_fresh :
    (st : Allocator) (reg : ℕ)
    → IsPlaced st reg
    → allocated st reg ≢ first_stack_slot + st.stack_slot_index
slot_is_fresh st reg (inl p) e = ground (arith, slot_is_not_physical st.stack_slot_index)
slot_is_fresh st reg (inr (i, lt, e)) f = omega arith

module _ (handled active handled' active' : List LiveInterval) (t : ℕ) (reg : ℕ)
    (st st' : Allocator) (v : Inv handled t active st) (q : Parks reg st st')
    (keeps : (h : LiveInterval) → In h handled → In h handled')
    (adds : (h : LiveInterval) → In h handled' → In h handled ⊎ (h.reg ≡ reg))
    (still : (a : LiveInterval) → In a active' → In a active × (a.reg ≢ reg))
    (stays_active : (a : LiveInterval) → In a active → a.reg ≢ reg → In a active')
    (distinct : Distinct active') where
  other : (j : ℕ) → j ≢ reg → allocated st' j ≡ allocated st j
  other j n = ground (arith, q.at_slot j)

  parked : (j : ℕ) → j ≡ reg → allocated st' j ≡ first_stack_slot + st.stack_slot_index
  parked j e = ground (arith, q.at_slot j)

  parked_is_not_physical : (j : ℕ) → is_physical_register (allocated st' j) ≡ true → j ≢ reg
  parked_is_not_physical j p e =
      ground (arith, parked j e, slot_is_not_physical st.stack_slot_index)

  older : (h : LiveInterval) → In h handled' → h.reg ≢ reg → In h handled
  older h i n = elim (adds h i) [ inl j ↦ j | inr e ↦ absurd (n e) ]

  fresh_slot :
      (h : LiveInterval)
      → In h handled'
      → h.reg ≢ reg
      → allocated st' h.reg ≢ first_stack_slot + st.stack_slot_index
  fresh_slot h i n e = slot_is_fresh st h.reg (v.placed h (older h i n)) (sym (other h.reg n) ∙ e)

  apart_after :
      (g h : LiveInterval)
      → In g handled'
      → In h handled'
      → g.reg ≢ h.reg
      → allocated st' g.reg ≡ allocated st' h.reg
      → Disjoint g h
  apart_after g h i j n p = elim (ℕ_discrete g.reg reg) [
    | yes e ↦ elim (ℕ_discrete h.reg reg) [
      | yes f ↦ absurd (n (e ∙ sym f))
      | no f ↦ absurd (fresh_slot h j f (sym p ∙ parked g.reg e))
    ]
    | no e ↦ elim (ℕ_discrete h.reg reg) [
      | yes f ↦ absurd (fresh_slot g i e (p ∙ parked h.reg f))
      | no f ↦ v.apart g h (older g i e) (older h j f) n (sym (other g.reg e) ∙ p ∙ other h.reg f)
    ]
  ]

  pub park-Inv : Inv handled' t active' st'
  park-Inv = record {
    active_is_handled = λ a i. keeps a (v.active_is_handled a (still a i).0);
    active_is_physical =
        λ a i. rw (other a.reg (still a i).1) (v.active_is_physical a (still a i).0);
    active_is_busy =
        λ a i. rw (other a.reg (still a i).1, q.same_free) (v.active_is_busy a (still a i).0);
    active_is_unique = λ a b i j p.
        v.active_is_unique a b (still a i).0 (still b j).0
          (sym (other a.reg (still a i).1) ∙ p ∙ other b.reg (still b j).1);
    active_is_distinct = distinct;
    done = λ h i p.
        let n = parked_is_not_physical h.reg p in
        elim (v.done h (older h i n) (rw (other h.reg n) at p)) [
          | inl a ↦ inl (stays_active h a n)
          | inr d ↦ inr d
        ];
    apart = apart_after;
    placed = λ h i. elim (ℕ_discrete h.reg reg) [
      | yes e ↦ inr (st.stack_slot_index, omega (arith, q.next_index), parked h.reg e)
      | no n ↦ elim (v.placed h (older h i n)) [
        | inl p ↦ inl (rw (other h.reg n) p)
        | inr (k, lt, e) ↦ inr (k, omega (arith, q.next_index), other h.reg n ∙ e)
      ]
    ];
    unfixed = λ h i p.
        let n = parked_is_not_physical h.reg p in
        rw (other h.reg n, q.same_fixed) (v.unfixed h (older h i n) (rw (other h.reg n) at p));
    keys_are_physical = λ j k. v.keys_are_physical j (rw q.same_free at k);
    slots_are_spilled = omega (arith, q.next_index, q.one_spilled, v.slots_are_spilled);
  }
