-- ===== src/Rewrite/X86/Instructions.antt =====
-- The two passes over the instructions of a function.
use remniw.Prelude.{
  ℕ, zero, suc, ◌*◌, ◌≤◌, ◌≡◌, refl, inl, inr, false, List, [], ◌∷◌, ◌++◌, ◌==◌, some,
  if◌then◌else◌, length, length-append, arith, Bool-cases, le→leb, ltb,
}
use remniw.Asm.Operand.{AsmOperand, AsmInstruction, reg, mem, imm, lbl}
use remniw.RegAlloc.DenseMap.{DenseMap}
use remniw.RegAlloc.Target.X86.{arg_regs}
use remniw.Rewrite.X86.{
  both, first, neither, rewritten_operands, rewrite_operands, rewrite_inst_virt_reg_to_phys_reg,
  get_used_registers, call_registers, first_args, operand_registers, all_registers, is_opcode,
  Spilling, spill_inst,
}
use remniw.Rewrite.X86.Function.{rewrite_insts, spill_insts}
use remniw.Rewrite.X86.Spills.{
  OfOperands, OfInsts, OfInsts-append, NotVirtual, IsAllocated, IsSpilled, rewrite_operand_lem,
  spill_operands-Spills,
}
use remniw.Select.X86.Create.{opcode_no, call, idiv, cqto}

-- No register at all.
abbrev pub NoRegs : ℕ → Type 0
NoRegs r = ⊥

-- The instructions of the selection: two operands that are both rewritten, or one, a call having the
-- number of arguments as its second; and no register where none is rewritten.
pub data IsSelected (o : ℕ) : List AsmOperand → Type 0 where
  of_two :
      (x y : AsmOperand)
      → rewritten_operands o ≡ some both
      → (o == opcode_no call) ≡ false
      → IsSelected o (x ∷ y ∷ [])
  of_one :
      (x : AsmOperand)
      → rewritten_operands o ≡ some first
      → (o == opcode_no call) ≡ false
      → IsSelected o (x ∷ [])
  of_call : (x : AsmOperand) (n : ℕ) → o ≡ opcode_no call → IsSelected o (x ∷ imm n ∷ [])
  of_label :
      (l : ℕ)
      → rewritten_operands o ≡ some neither
      → (o == opcode_no call) ≡ false
      → IsSelected o (lbl l ∷ [])
  of_none : rewritten_operands o ≡ some neither → (o == opcode_no call) ≡ false → IsSelected o []

length-operand_registers : (x : AsmOperand) → length (operand_registers x) ≤ 2
unfolding operand_registers
length-operand_registers (reg r) = ground arith
length-operand_registers (mem a) = ground arith
length-operand_registers (imm i) = omega arith
length-operand_registers (lbl l) = omega arith

length-all_registers : (xs : List AsmOperand) → length (all_registers xs) ≤ 2 * length xs
unfolding all_registers
length-all_registers [] = omega arith
length-all_registers (x ∷ xs) = omega (
  arith,
  length-append (operand_registers x) (all_registers xs),
  length-operand_registers x,
  length-all_registers xs,
)

length-first_args : (n : ℕ) (rs : List ℕ) → length (first_args n rs) ≤ length rs
unfolding first_args
length-first_args n [] = omega arith
length-first_args zero (r ∷ rs) = omega arith
length-first_args (suc n) (r ∷ rs) = omega (arith, length-first_args n rs)

abbrev inst : ℕ → List AsmOperand → AsmInstruction
inst o ops = record { opcode = o; operands = ops }

-- `getUsedRegisters` finds at most 11 registers.
used_plain :
    (o : ℕ) (ops : List AsmOperand)
    → (o == opcode_no call) ≡ false
    → length ops ≤ 2
    → (used : List ℕ) × (get_used_registers (inst o ops) ≡ some used) × (length used ≤ 11)
unfolding get_used_registers
used_plain o ops n few = elim (Bool-cases (is_opcode (idiv ∷ cqto ∷ []) o)) [
  | inl e ↦
      ((1 ∷ 4 ∷ []) ++ all_registers ops, rw e refl, omega (arith, few, length-all_registers ops))
  | inr e ↦ (all_registers ops, rw (e, n) refl, omega (arith, few, length-all_registers ops))
]

used_call :
    (x : AsmOperand) (n : ℕ)
    → (used : List ℕ) × (get_used_registers (inst (opcode_no call) (x ∷ imm n ∷ [])) ≡ some used)
      × (length used ≤ 11)
unfolding get_used_registers call_registers
used_call x n =
    let args = first_args n arg_regs in
    let regs = all_registers (x ∷ imm n ∷ []) in
    (
      (1 ∷ args) ++ regs,
      refl,
      omega (
        arith,
        length-append args regs,
        length-first_args n arg_regs,
        length-all_registers (x ∷ imm n ∷ []),
      ),
    )

used_lem :
    (o : ℕ) (ops : List AsmOperand)
    → IsSelected o ops
    → (used : List ℕ) × (get_used_registers (inst o ops) ≡ some used) × (length used ≤ 11)
used_lem o _ (of_two x y k n) = used_plain o _ n (omega arith)
used_lem o _ (of_one x k n) = used_plain o _ n (omega arith)
used_lem o _ (of_call x n e) = rw e (used_call x n)
used_lem o _ (of_label l k n) = used_plain o _ n (omega arith)
used_lem o _ (of_none k n) = used_plain o _ n (omega arith)

selected_length : (o : ℕ) (ops : List AsmOperand) → IsSelected o ops → length ops ≤ 2
selected_length o _ (of_two x y k n) = omega arith
selected_length o _ (of_one x k n) = omega arith
selected_length o _ (of_call x n e) = omega arith
selected_length o _ (of_label l k n) = omega arith
selected_length o _ (of_none k n) = omega arith

abbrev pub AllSelected : List AsmInstruction → Type 0
AllSelected [] = Unit {0}
AllSelected (i ∷ is) = IsSelected i.opcode i.operands × AllSelected is

module _ (m : DenseMap ℕ) where
  -- The first pass returns, and leaves virtual registers only where they are spilled.
  pub record FirstPass (o : ℕ) (ops : List AsmOperand) : Type 0 where
    pub ops' : List AsmOperand
    pub returns : rewrite_inst_virt_reg_to_phys_reg m (inst o ops) ≡ some (inst o ops')
    pub spilled : OfOperands (IsSpilled m) ops'
    pub selected : IsSelected o ops'

  first_pass :
      (o : ℕ) (ops : List AsmOperand)
      → IsSelected o ops
      → OfOperands (IsAllocated m) ops
      → FirstPass o ops
  unfolding rewrite_inst_virt_reg_to_phys_reg rewrite_operands rewritten_operands
  first_pass o _ (of_two x y k n) (a, (b, u)) =
      let (x', e, s) = rewrite_operand_lem m x a in
      let (y', e', s') = rewrite_operand_lem m y b in
      record {
        ops' = x' ∷ y' ∷ [];
        returns = rw (k, e, e') refl;
        spilled = (s, (s', tt));
        selected = of_two x' y' k n;
      }
  first_pass o _ (of_one x k n) (a, u) =
      let (x', e, s) = rewrite_operand_lem m x a in
      record {
        ops' = x' ∷ [];
        returns = rw (k, e) refl;
        spilled = (s, tt);
        selected = of_one x' k n;
      }
  first_pass o _ (of_call x n is) (a, (b, u)) =
      let (x', e, s) = rewrite_operand_lem m x a in
      record {
        ops' = x' ∷ imm n ∷ [];
        returns = rw (is, e) refl;
        spilled = (s, (tt, tt));
        selected = of_call x' n is;
      }
  first_pass o _ (of_label l k n) given = record {
    ops' = lbl l ∷ [];
    returns = rw k refl;
    spilled = (tt, tt);
    selected = of_label l k n;
  }
  first_pass o _ (of_none k n) given = record {
    ops' = [];
    returns = rw k refl;
    spilled = tt;
    selected = of_none k n;
  }

  module _ (local_frame_size num_spilled : ℕ) where
    -- The second pass on one instruction returns, and leaves no virtual register.
    second_pass :
        (o : ℕ) (ops : List AsmOperand)
        → IsSelected o ops
        → OfOperands (IsSpilled m) ops
        → (out : List AsmInstruction × ℕ) × (spill_inst m local_frame_size num_spilled (inst o ops)
            ≡ some out)
          × OfInsts NotVirtual out.0
    unfolding spill_inst
    second_pass o ops sel given =
        let (used, e, few) = used_lem o ops sel in
        let st : Spilling = record {
          used_regs = used;
          num_reserved = 0;
          before = [];
          after = [];
        } in
        let length_ok = selected_length o ops sel in
        let done =
          spill_operands-Spills m local_frame_size num_spilled 11 ops st (omega (arith, length_ok))
            given (record { few = few; before = tt; after = tt }) in
        (
          (done.state.before ++ inst o done.value ∷ done.state.after, done.state.num_reserved),
          rw (e, done.returns, le→leb (length ops) 2 length_ok) refl,
          OfInsts-append NotVirtual done.state.before _ done.holds.before
              (done.good, done.holds.after),
        )

  -- Both passes over a list.
  pub record BothPasses (local_frame_size num_spilled max : ℕ) (is : List AsmInstruction)
      : Type 0 where
    pub rewritten : List AsmInstruction
    pub result : List AsmInstruction × ℕ
    pub first_returns : rewrite_insts m is ≡ some rewritten
    pub second_returns : spill_insts m local_frame_size num_spilled max rewritten ≡ some result
    pub no_virtual : OfInsts NotVirtual result.0

  -- Where the instructions are selected ones, and each of their virtual registers is allocated a
  -- physical register or a stack slot, both passes return, and what is left has no virtual register.
  pub passes-NotVirtual :
      (local_frame_size num_spilled max : ℕ) (is : List AsmInstruction)
      → AllSelected is
      → OfInsts (IsAllocated m) is
      → BothPasses local_frame_size num_spilled max is
  unfolding rewrite_insts spill_insts
  passes-NotVirtual local_frame_size num_spilled max [] sel given = record {
    rewritten = [];
    result = ([], max);
    first_returns = refl;
    second_returns = refl;
    no_virtual = tt;
  }
  passes-NotVirtual local_frame_size num_spilled max (i ∷ is) (sel, sels) (given, rest) =
      let one = first_pass i.opcode i.operands sel given in
      let (out, e, clean) =
        second_pass local_frame_size num_spilled i.opcode one.ops' one.selected one.spilled in
      let more =
        passes-NotVirtual local_frame_size num_spilled (if ltb max out.1 then out.1 else max) is
          sels rest in
      record {
        rewritten = inst i.opcode one.ops' ∷ more.rewritten;
        result = (out.0 ++ more.result.0, more.result.1);
        first_returns = rw (one.returns, more.first_returns) refl;
        second_returns = rw (e, more.second_returns) refl;
        no_virtual = OfInsts-append NotVirtual out.0 more.result.0 clean more.no_virtual;
      }
