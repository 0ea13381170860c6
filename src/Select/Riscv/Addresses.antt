-- ===== src/Select/Riscv/Addresses.antt =====
-- Addresses that are computed into registers.
use remniw.Prelude.{
  ℕ, ◌+◌, ◌≤◌, ◌<◌, ◌^◌, ◌≡◌, ◌≢◌, refl, ◌∙◌, inl, inr, false, List, [], ◌∷◌, some, arith,
  Bool-cases,
}
use remniw.Asm.LiveRanges.{Emission, use_operand, inst}
use remniw.Asm.Operand.{MemOp, reg, mem, imm}
use remniw.RegAlloc.Register.{no_register}
use remniw.Select.{Select, Counters, u64, new_virt_reg, update_operand, ◌>>=◌, ◌>>◌}
use remniw.Select.Fresh.{with_new_virt_reg, step_before, pure_before}
use remniw.Select.Machine.{Machine, address, run, Writes}
use remniw.Select.Riscv.Create.{
  RiscvOpcode, is_stack_object, is_imm12, create_li_inst, create_add_inst, create_addi_inst,
  store_memory_address_to_reg,
}
use remniw.Select.Riscv.Isa.{IsRiscv, op2, op3, zero_no}

-- The handler returns, and what it has selected leaves `v` in the register `d`; of the other registers
-- that were made before, and of memory, nothing changes.
pub record Sets (m : Machine) (c : Counters) (h : Select (Unit {0})) (s : m.State) (d v : ℕ)
    : Type 0 where
  pub counters : Counters
  pub emissions : List Emission
  pub returns : h c ≡ some (tt, counters, emissions)
  pub is : m.read (run m emissions s) d ≡ v
  pub others :
      (r : ℕ) → r < c.next_index + 2 ^ 31 → r ≢ d → m.read (run m emissions s) r ≡ m.read s r
  pub memory : (a : ℕ) → m.load (run m emissions s) a ≡ m.load s a
  pub made : counters.next_index ≤ c.next_index + 1
  pub keeps : c.next_index ≤ counters.next_index
  pub offset : counters.call_arg_offset ≡ c.call_arg_offset

-- A memory operand of this target that is not a stack object: a register that was made before and is not
-- `d`, with an offset. The address of a stack object is left to the rewriter.
abbrev pub IsPlain : Counters → ℕ → MemOp → Type 0
IsPlain c d a =
    (is_stack_object (mem a) ≡ false)
    × (a.index_reg ≡ no_register)
    × (a.base_reg ≢ no_register)
    × (a.base_reg < c.next_index + 2 ^ 31)
    × (a.base_reg ≢ d)
    × (a.disp < 2 ^ 64)

module _ (m : Machine) (isa : IsRiscv m) (c : Counters) (room : c.next_index < 2 ^ 31) where
  -- One instruction.
  by_one :
      (h : Select (Unit {0})) (s : m.State) (d v : ℕ) (es : List Emission)
      → h c ≡ some (tt, c, es)
      → Writes m s (run m es s) d v
      → Sets m c h s d v
  by_one h s d v es e w = record {
    counters = c;
    emissions = es;
    returns = e;
    is = w.is;
    others = λ r old n. w.others r n;
    memory = w.memory;
    made = omega arith;
    keeps = omega arith;
    offset = refl;
  }

  plain_address :
      (s : m.State) (a : MemOp)
      → is_stack_object (mem a) ≡ false
      → a.index_reg ≡ no_register
      → a.base_reg ≢ no_register
      → address m s a ≡ u64 (m.read s a.base_reg + a.disp)
  plain_address s a k i b = ground arith

  -- Where the immediate has no 12 bits.
  long : ℕ → ℕ → ℕ → Select (Unit {0})
  long d b i = do
    r ← new_virt_reg
    create_li_inst (reg r) (imm i)
    create_add_inst (reg d) (reg b) (reg r)

  -- `createADDIInst` adds an immediate of any length.
  addi-Sets :
      (s : m.State) (d b i : ℕ)
      → d < c.next_index + 2 ^ 31
      → b < c.next_index + 2 ^ 31
      → d ≢ zero_no
      → i < 2 ^ 64
      → Sets m c (create_addi_inst (reg d) (reg b) i) s d (u64 (m.read s b + i))
  unfolding create_addi_inst run long
  addi-Sets s d b i old_d old_b nz word = elim (Bool-cases (is_imm12 i)) [
    | inl k ↦
        by_one (create_addi_inst (reg d) (reg b) i) s d _
          (use_operand (reg d)
            ∷ use_operand (reg b)
            ∷ inst (op3 RiscvOpcode.addi (reg d) (reg b) (imm i))
            ∷ [])
          (rw k refl) (isa.addi_imm s d b i nz k)
    | inr k ↦
        let first = update_operand (reg d) in
        let second = update_operand (reg b) in
        let v = c.next_index + 2 ^ 31 in
        let t = m.exec (op2 RiscvOpcode.li (reg v) (imm i)) s in
        let loaded = isa.li_imm s v i (λ e. omega arith) word in
        let added = isa.add_op t d b v nz in
        let same = loaded.others b (λ e. omega arith) in
        record {
          counters = record c { next_index = c.next_index + 1 };
          emissions =
              use_operand (reg d)
              ∷ use_operand (reg b)
              ∷ use_operand (reg v)
              ∷ inst (op2 RiscvOpcode.li (reg v) (imm i))
              ∷ use_operand (reg d)
              ∷ use_operand (reg b)
              ∷ use_operand (reg v)
              ∷ inst (op3 RiscvOpcode.add (reg d) (reg b) (reg v))
              ∷ [];
          returns = rw k (
              pure_before (first >> (second >> long d b i)) c _ _ _ (
                step_before (use_operand (reg d)) (second >> long d b i) c _ _ _ (
                  step_before (use_operand (reg b)) (long d b i) c _ _ _ (
                    with_new_virt_reg c
                      (λ r. do
                        create_li_inst (reg r) (imm i)
                        create_add_inst (reg d) (reg b) (reg r))
                      room))));
          is = added.is ∙ (rw (same, loaded.is) refl);
          others = λ r old n. added.others r n ∙ loaded.others r (λ e. omega arith);
          memory = λ a. added.memory a ∙ loaded.memory a;
          made = omega arith;
          keeps = omega arith;
          offset = refl;
        }
  ]

  -- `storeMemoryAddressToReg` leaves the address of an operand that is not a stack object in the register.
  pub store_memory-Sets :
      (s : m.State) (a : MemOp) (d : ℕ)
      → IsPlain c d a
      → d < c.next_index + 2 ^ 31
      → d ≢ zero_no
      → Sets m c (store_memory_address_to_reg a d) s d (address m s a)
  unfolding store_memory_address_to_reg run
  store_memory-Sets s a d (k, i, b, old_b, n, word) old_d nz =
      rw (k, plain_address s a k i b) (addi-Sets s d a.base_reg a.disp old_d old_b nz word)
