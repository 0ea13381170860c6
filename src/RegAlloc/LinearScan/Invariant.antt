-- ===== src/RegAlloc/LinearScan/Invariant.antt =====
-- What holds between two rounds of the loop of `doRegAlloc`.
use remniw.Prelude.{
  ℕ, ◌+◌, ◌≤◌, ◌<◌, ◌≡◌, ◌≢◌, refl, ◌⊎◌, inl, inr, true, false, List, ◌∷◌, In, length, arith,
  Bool-cases,
}
use remniw.RegAlloc.Interval.{LiveInterval}
use remniw.RegAlloc.Interval.Sorting.{Distinct}
use remniw.RegAlloc.LinearScan.{Allocator, allocated, is_free, release}
use remniw.RegAlloc.Register.{is_physical_register, first_stack_slot}
use remniw.RegAlloc.DenseMap.{contains-assign}
use remniw.RegAlloc.Target.{contains}

-- One interval ends before the other starts.
abbrev pub Disjoint : LiveInterval → LiveInterval → Type 0
Disjoint g h = (g.end_point ≤ h.start_point) ⊎ (h.end_point ≤ g.start_point)

-- A register has a place: a physical register, or one of the stack slots given out so far.
abbrev pub IsPlaced : Allocator → ℕ → Type 0
IsPlaced st reg =
    (is_physical_register (allocated st reg) ≡ true)
    ⊎ ((i : ℕ) × (i < st.stack_slot_index) × (allocated st reg ≡ first_stack_slot + i))

-- No fixed interval of the register covers a program point.
abbrev pub Unfixed : Allocator → ℕ → Type 0
Unfixed st reg = (f : LiveInterval) → In f st.fixed → f.start_point < f.end_point → f.reg ≢ reg

-- `handled` are the intervals handled so far, `t` is a time that no interval to come starts before,
-- and `active` is the list of active ones, which a loop over it has not yet stored.
pub record Inv (handled : List LiveInterval) (t : ℕ) (active : List LiveInterval) (st : Allocator)
    : Type 0 where
  pub active_is_handled : (a : LiveInterval) → In a active → In a handled
  pub active_is_physical :
      (a : LiveInterval) → In a active → is_physical_register (allocated st a.reg) ≡ true
  pub active_is_busy : (a : LiveInterval) → In a active → is_free st (allocated st a.reg) ≡ false
  pub active_is_unique :
      (a b : LiveInterval)
      → In a active
      → In b active
      → allocated st a.reg ≡ allocated st b.reg
      → a.reg ≡ b.reg
  pub active_is_distinct : Distinct active
  pub done :
      (h : LiveInterval)
      → In h handled
      → is_physical_register (allocated st h.reg) ≡ true
      → In h active ⊎ (h.end_point ≤ t)
  pub apart :
      (g h : LiveInterval)
      → In g handled
      → In h handled
      → g.reg ≢ h.reg
      → allocated st g.reg ≡ allocated st h.reg
      → Disjoint g h
  pub placed : (h : LiveInterval) → In h handled → IsPlaced st h.reg
  pub unfixed :
      (h : LiveInterval)
      → In h handled
      → is_physical_register (allocated st h.reg) ≡ true
      → Unfixed st (allocated st h.reg)
  pub keys_are_physical :
      (reg : ℕ) → contains st.free_registers.keys reg ≡ true → is_physical_register reg ≡ true
  pub slots_are_spilled : st.stack_slot_index ≡ length st.spilled

module _ (handled : List LiveInterval) (t : ℕ) (st : Allocator) where
  -- Releasing the first active interval, which has ended.
  pub release-Inv :
      (a : LiveInterval) (active : List LiveInterval)
      → a.end_point ≤ t
      → Inv handled t (a ∷ active) st
      → Inv handled t active (release a st)
  unfolding release
  release-Inv a active ended v = record {
    active_is_handled = λ b i. v.active_is_handled b (inr i);
    active_is_physical = λ b i. v.active_is_physical b (inr i);
    active_is_busy = λ b i. ground (
      arith,
      v.active_is_physical a (inl refl),
      v.active_is_busy b (inr i),
      v.active_is_unique b a (inr i) (inl refl),
      v.active_is_distinct.0 b i,
    );
    active_is_unique = λ b c i j. v.active_is_unique b c (inr i) (inr j);
    active_is_distinct = v.active_is_distinct.1;
    done = λ h i p. elim (v.done h i p) [
      | inl (inl e) ↦ inr (rw e ended)
      | inl (inr r) ↦ inl r
      | inr q ↦ inr q
    ];
    apart = v.apart;
    placed = v.placed;
    unfixed = v.unfixed;
    keys_are_physical = λ reg h. elim (Bool-cases (is_physical_register (allocated st a.reg))) [
      | inl e ↦ elim (contains-assign _ true st.free_registers reg (rw e at h)) [
        | inl k ↦ v.keys_are_physical reg k
        | inr k ↦ rw (← k) e
      ]
      | inr e ↦ v.keys_are_physical reg (rw e at h)
    ];
    slots_are_spilled = v.slots_are_spilled;
  }
