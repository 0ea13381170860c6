-- ===== src/Rewrite/X86/Spills.antt =====
-- Rewriting an instruction leaves no virtual register in it, nor in what is put around it.
use remniw.Prelude.{
  ℕ, suc, ◌+◌, ◌-◌, ◌*◌, ◌^◌, ◌≤◌, ◌<◌, ◌≡◌, refl, ◌∙◌, ◌⊎◌, inl, inr, true, false, List, [], ◌∷◌,
  ◌++◌, ◌==◌, Option, some, length, length-append, arith, Bool-cases,
}
use remniw.Asm.Operand.{AsmOperand, AsmInstruction, reg, mem, imm, lbl}
use remniw.RegAlloc.DenseMap.{DenseMap}
use remniw.RegAlloc.Register.{
  u32, first_stack_slot, is_physical_register, is_virtual_register, is_virtual_register_lem,
  is_stack_slot, stack_slot2_index,
}
use remniw.RegAlloc.Target.{contains}
use remniw.Rewrite.{
  neg, get_reserved_stack_slot_offset, allocated, rewrite_reg, rewrite_operand,
  get_stack_slot_offset,
}
use remniw.Rewrite.X86.{
  Spilling, put_around, spill_reg, spill_if_virtual, spill_operand, spill_operands,
  get_available_register,
}
use remniw.Rewrite.X86.Registers.{get_available_register_lem}

-- `P` holds for each register of an operand, of a list of operands, of the instructions of a list.
abbrev pub OfOperand : (ℕ → Type 0) → AsmOperand → Type 0
OfOperand P (reg r) = P r
OfOperand P (mem a) = P a.base_reg × P a.index_reg
OfOperand P _ = Unit {0}

abbrev pub OfOperands : (ℕ → Type 0) → List AsmOperand → Type 0
OfOperands P [] = Unit {0}
OfOperands P (x ∷ xs) = OfOperand P x × OfOperands P xs

abbrev pub OfInsts : (ℕ → Type 0) → List AsmInstruction → Type 0
OfInsts P [] = Unit {0}
OfInsts P (i ∷ is) = OfOperands P i.operands × OfInsts P is

pub OfInsts-append :
    (P : ℕ → Type 0) (xs ys : List AsmInstruction)
    → OfInsts P xs
    → OfInsts P ys
    → OfInsts P (xs ++ ys)
OfInsts-append P [] ys p q = q
OfInsts-append P (x ∷ xs) ys (p, ps) q = (p, OfInsts-append P xs ys ps q)

abbrev pub NotVirtual : ℕ → Type 0
NotVirtual r = is_virtual_register r ≡ false

-- What the allocator gives a register that is virtual: something in a physical register or a slot,
-- or after the first pass only in a slot.
abbrev pub IsAllocated : DenseMap ℕ → ℕ → Type 0
IsAllocated m r =
    is_virtual_register r ≡ true
    → (contains m.keys r ≡ true)
      × ((is_physical_register (m.at r) ≡ true) ⊎ (is_stack_slot (m.at r) ≡ true))

abbrev pub IsSpilled : DenseMap ℕ → ℕ → Type 0
IsSpilled m r =
    is_virtual_register r ≡ true → (contains m.keys r ≡ true) × (is_stack_slot (m.at r) ≡ true)

physical-NotVirtual : (r : ℕ) → is_physical_register r ≡ true → NotVirtual r
unfolding is_physical_register
physical-NotVirtual r p = ground (arith, is_virtual_register_lem r (ground arith))

-- The registers of a place in the frame: RBP, and no index.
slot_regs : NotVirtual 11 × NotVirtual 0
unfolding is_virtual_register is_stack_slot
slot_regs = (refl, refl)

module _ (m : DenseMap ℕ) where
  -- The first pass on one register.
  rewrite_reg_lem :
      (r : ℕ) → IsAllocated m r → (r' : ℕ) × (rewrite_reg m r ≡ some r') × IsSpilled m r'
  unfolding rewrite_reg allocated
  rewrite_reg_lem r given = elim (Bool-cases (is_virtual_register r)) [
    | inr n ↦ (r, rw n refl, λ v. absurd (ground (arith, n, v)))
    | inl v ↦
        let (here, place) = given v in
        elim place [
          | inl p ↦ (
            m.at r,
            rw (v, here, p) refl,
            λ w. absurd (ground (arith, physical-NotVirtual (m.at r) p, w)),
          )
          | inr s ↦ elim (Bool-cases (is_physical_register (m.at r))) [
            | inl p ↦ (
              m.at r,
              rw (v, here, p) refl,
              λ w. absurd (ground (arith, physical-NotVirtual (m.at r) p, w)),
            )
            | inr n ↦ (r, rw (v, here, n) refl, λ w. (here, s))
          ]
        ]
  ]

  pub rewrite_operand_lem :
      (x : AsmOperand)
      → OfOperand (IsAllocated m) x
      → (x' : AsmOperand) × (rewrite_operand m x ≡ some x') × OfOperand (IsSpilled m) x'
  unfolding rewrite_operand
  rewrite_operand_lem (reg r) given =
      let (r', e, s) = rewrite_reg_lem r given in (reg r', rw e refl, s)
  rewrite_operand_lem (mem a) (base, index) =
      let (b, e, s) = rewrite_reg_lem a.base_reg base in
      let (i, e', s') = rewrite_reg_lem a.index_reg index in
      (mem (record a { base_reg = b; index_reg = i }), rw (e, e') refl, (s, s'))
  rewrite_operand_lem (imm i) given = (imm i, refl, tt)
  rewrite_operand_lem (lbl l) given = (lbl l, refl, tt)

  module _ (local_frame_size num_spilled : ℕ) where
    -- What holds between operands, with at most `n` registers in use.
    pub record IsSpilling (n : ℕ) (st : Spilling) : Type 0 where
      pub few : length st.used_regs ≤ n
      pub before : OfInsts NotVirtual st.before
      pub after : OfInsts NotVirtual st.after

    -- A step that returns a value with `P`, and uses at most `k` registers more.
    pub record Spills {A : Type 0} (P : A → Type 0) (k n : ℕ) (got : Option (A × Spilling))
        : Type 0 where
      pub value : A
      pub state : Spilling
      pub returns : got ≡ some (value, state)
      pub good : P value
      pub holds : IsSpilling (n + k) state

    slot_returns :
        (r : ℕ)
        → is_stack_slot r ≡ true
        → (o : ℕ) × (get_stack_slot_offset 8 local_frame_size r ≡ some o)
    unfolding get_stack_slot_offset stack_slot2_index
    slot_returns r s =
        let index = u32 (r + 2 ^ 32 - first_stack_slot) in
        (neg (local_frame_size + u32 (8 * u32 (index + 1))), rw s refl)

    spill_if_virtual-Spills :
        (n r : ℕ) (st : Spilling)
        → n < 16
        → IsSpilled m r
        → IsSpilling n st
        → Spills NotVirtual 1 n (spill_if_virtual m local_frame_size num_spilled r st)
    unfolding spill_if_virtual spill_reg allocated
    spill_if_virtual-Spills n r st room given st_ok = elim (Bool-cases (is_virtual_register r)) [
      | inr n_v ↦ record {
        value = r;
        state = st;
        returns = rw n_v refl;
        good = n_v;
        holds = record {
          few = omega (arith, st_ok.few);
          before = st_ok.before;
          after = st_ok.after;
        };
      }
      | inl v ↦
          let (here, slot) = given v in
          let (o, e) = slot_returns (m.at r) slot in
          let avail = get_available_register st.used_regs in
          let found = get_available_register_lem st.used_regs (omega (arith, st_ok.few)) in
          let real : (avail == 0) ≡ false = ground (arith, found.from) in
          let good : NotVirtual avail =
            is_virtual_register_lem avail (omega (arith, found.to, st_ok.few))
            ∙ ground (arith, found.to, st_ok.few) in
          record {
            value = avail;
            state =
                put_around avail o
                  (get_reserved_stack_slot_offset 8 local_frame_size num_spilled
                    (st.num_reserved + 1))
                  st;
            returns = rw (v, here, e, real) refl;
            good = good;
            holds = record {
              few = omega (arith, length-append st.used_regs (avail ∷ []), st_ok.few);
              before =
                  OfInsts-append NotVirtual st.before _ st_ok.before
                    ((good, (slot_regs, tt)), ((slot_regs, (good, tt)), tt));
              after = ((good, (slot_regs, tt)), ((slot_regs, (good, tt)), st_ok.after));
            };
          }
    ]

    IsSpilling-more : (n k : ℕ) (st : Spilling) → n ≤ k → IsSpilling n st → IsSpilling k st
    IsSpilling-more n k st le ok = record {
      few = omega (arith, ok.few, le);
      before = ok.before;
      after = ok.after;
    }

    spill_operand-Spills :
        (n : ℕ) (x : AsmOperand) (st : Spilling)
        → n < 15
        → OfOperand (IsSpilled m) x
        → IsSpilling n st
        → Spills (OfOperand NotVirtual) 2 n (spill_operand m local_frame_size num_spilled x st)
    unfolding spill_operand
    spill_operand-Spills n (reg r) st room given ok =
        let one = spill_if_virtual-Spills n r st (omega arith) given ok in
        record {
          value = reg one.value;
          state = one.state;
          returns = rw one.returns refl;
          good = one.good;
          holds = IsSpilling-more (n + 1) (n + 2) one.state (omega arith) one.holds;
        }
    spill_operand-Spills n (mem a) st room (base, index) ok =
        let one = spill_if_virtual-Spills n a.base_reg st (omega arith) base ok in
        let two =
          spill_if_virtual-Spills (n + 1) a.index_reg one.state (omega arith) index one.holds in
        record {
          value = mem (record a { base_reg = one.value; index_reg = two.value });
          state = two.state;
          returns = rw (one.returns, two.returns) refl;
          good = (one.good, two.good);
          holds = IsSpilling-more (n + 1 + 1) (n + 2) two.state (omega arith) two.holds;
        }
    spill_operand-Spills n (imm i) st room given ok = record {
      value = imm i;
      state = st;
      returns = refl;
      good = tt;
      holds = IsSpilling-more n (n + 2) st (omega arith) ok;
    }
    spill_operand-Spills n (lbl l) st room given ok = record {
      value = lbl l;
      state = st;
      returns = refl;
      good = tt;
      holds = IsSpilling-more n (n + 2) st (omega arith) ok;
    }

    pub spill_operands-Spills :
        (n : ℕ) (xs : List AsmOperand) (st : Spilling)
        → n + 2 * length xs < 17
        → OfOperands (IsSpilled m) xs
        → IsSpilling n st
        → Spills
            (OfOperands NotVirtual)
            (2 * length xs)
            n
            (spill_operands m local_frame_size num_spilled xs st)
    unfolding spill_operands
    spill_operands-Spills n [] st room given ok = record {
      value = [];
      state = st;
      returns = refl;
      good = tt;
      holds = IsSpilling-more n (n + 0) st (omega arith) ok;
    }
    spill_operands-Spills n (x ∷ xs) st room (given, rest) ok =
        let one = spill_operand-Spills n x st (omega arith) given ok in
        let more = spill_operands-Spills (n + 2) xs one.state (omega arith) rest one.holds in
        record {
          value = one.value ∷ more.value;
          state = more.state;
          returns = rw (one.returns, more.returns) refl;
          good = (one.good, more.good);
          holds =
              IsSpilling-more (n + 2 + 2 * length xs) (n + 2 * suc (length xs)) more.state
                (omega arith) more.holds;
        }
