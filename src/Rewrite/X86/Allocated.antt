-- ===== src/Rewrite/X86/Allocated.antt =====
-- Allocation and the two passes together.
use remniw.Prelude.{ℕ, ◌+◌, ◌<◌, ◌^◌, ◌≡◌, ◌≢◌, inl, inr, true, List, [], ◌∷◌, some, arith}
use remniw.Asm.Operand.{AsmInstruction, AsmOperand, reg, mem, imm, lbl}
use remniw.RegAlloc.Interval.{LiveRange}
use remniw.RegAlloc.LinearScan.{Allocator, do_reg_alloc, get_spilled_reg_count}
use remniw.RegAlloc.LinearScan.Keys.{do_reg_alloc-Keyed}
use remniw.RegAlloc.LinearScan.Result.{
  IsRangesMap, HandsOutPhysical, do_reg_alloc-IsPlaced, do_reg_alloc-few_slots,
}
use remniw.RegAlloc.LinearScan.Sets.{RangesMap, Lifetime}
use remniw.RegAlloc.Register.{
  is_virtual_register, is_physical_register, is_stack_slot, first_stack_slot,
}
use remniw.RegAlloc.Target.X86.{x86_target_info}
use remniw.Rewrite.X86.Instructions.{AllSelected, BothPasses, passes-NotVirtual}
use remniw.Rewrite.X86.Spills.{OfOperand, OfOperands, OfInsts, IsAllocated}

-- A register has live ranges if it is virtual.
abbrev pub HasLifetime : RangesMap → ℕ → Type 0
HasLifetime m r = is_virtual_register r ≡ true → (range : LiveRange) × Lifetime m r range

-- What holds for each register of the instructions follows from what does.
OfOperand-map :
    (P Q : ℕ → Type 0) (x : AsmOperand) → ((r : ℕ) → P r → Q r) → OfOperand P x → OfOperand Q x
OfOperand-map P Q (reg r) f p = f r p
OfOperand-map P Q (mem a) f (p, q) = (f a.base_reg p, f a.index_reg q)
OfOperand-map P Q (imm i) f p = tt
OfOperand-map P Q (lbl l) f p = tt

OfOperands-map :
    (P Q : ℕ → Type 0) (xs : List AsmOperand)
    → ((r : ℕ) → P r → Q r)
    → OfOperands P xs
    → OfOperands Q xs
OfOperands-map P Q [] f p = tt
OfOperands-map P Q (x ∷ xs) f (p, ps) = (OfOperand-map P Q x f p, OfOperands-map P Q xs f ps)

OfInsts-map :
    (P Q : ℕ → Type 0) (is : List AsmInstruction)
    → ((r : ℕ) → P r → Q r)
    → OfInsts P is
    → OfInsts Q is
OfInsts-map P Q [] f p = tt
OfInsts-map P Q (i ∷ is) f (p, ps) = (OfOperands-map P Q i.operands f p, OfInsts-map P Q is f ps)

module _ (m : RangesMap) (st : Allocator) (valid : IsRangesMap m)
    (physical : HandsOutPhysical st) where
  slot_lem : (r i : ℕ) → i < 2 ^ 30 → r ≡ first_stack_slot + i → is_stack_slot r ≡ true
  unfolding is_stack_slot
  slot_lem r i small e = ground arith

  slot_ne : (r i : ℕ) → r ≡ first_stack_slot + i → r ≢ 0
  slot_ne r i e n = omega arith

  physical_ne : (r : ℕ) → is_physical_register r ≡ true → r ≢ 0
  unfolding is_physical_register
  physical_ne r p n = ground arith

  -- Allocation returns, and each virtual register with live ranges is allocated.
  do_reg_alloc-IsAllocated :
      (st' : Allocator) × (do_reg_alloc x86_target_info m st ≡ some st')
      × ((r : ℕ) → HasLifetime m r → IsAllocated st'.virt_reg_to_allocated_reg_map r)
  do_reg_alloc-IsAllocated =
      let (st', returns, placed) = do_reg_alloc-IsPlaced x86_target_info m st valid physical in
      let keyed = do_reg_alloc-Keyed x86_target_info m st st' returns in
      let slots = do_reg_alloc-few_slots x86_target_info m st valid physical st' returns in
      (
        st',
        returns,
        λ r has v.
            let (range, l) = has v in
            elim (placed r range l) [
              | inl p ↦ (keyed r (physical_ne _ p), inl p)
              | inr (i, lt, e) ↦
                  (keyed r (slot_ne _ i e), inr (slot_lem _ i (omega (arith, lt, slots)) e))
            ],
      )

  -- For a map of live ranges that meets `IsRangesMap`, an allocator that hands out physical registers,
  -- and selected instructions of which each virtual register has live ranges: allocation returns, both
  -- passes return, and what is left has no virtual register.
  pub do_reg_alloc-passes :
      (local_frame_size : ℕ) (is : List AsmInstruction)
      → AllSelected is
      → OfInsts (HasLifetime m) is
      → (st' : Allocator) × (do_reg_alloc x86_target_info m st ≡ some st')
        × BothPasses st'.virt_reg_to_allocated_reg_map local_frame_size
            (get_spilled_reg_count st')
            0
            is
  do_reg_alloc-passes local_frame_size is sel given =
      let (st', returns, all) = do_reg_alloc-IsAllocated in
      let map = st'.virt_reg_to_allocated_reg_map in
      (
        st',
        returns,
        passes-NotVirtual map local_frame_size (get_spilled_reg_count st') 0 is sel
            (OfInsts-map (HasLifetime m) (IsAllocated map) is all given),
      )
