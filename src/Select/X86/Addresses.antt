-- ===== src/Select/X86/Addresses.antt =====
-- The handlers of `getelementptr` give a memory operand with the address of the element.
use native.Mathlib.Nat.{mul_comm}
use remniw.Prelude.{
  ℕ, ◌+◌, ◌*◌, ◌<◌, ◌^◌, ◌≡◌, ◌≢◌, refl, ap, ◌∙◌, inl, inr, true, false, [], ◌∷◌, some, arith, ◌==◌,
  Bool-cases,
}
use remniw.Asm.LiveRanges.{use_operand, inst}
use remniw.Asm.Operand.{AsmOperand, MemOp, reg, mem, imm}
use remniw.RegAlloc.Register.{no_register}
use remniw.Select.{Select, Counters, new_virt_reg, u64, base_mem, create_mem, pure, ◌>>=◌, ◌>>◌}
use remniw.Select.Effects.{Addresses, base_of, index_of, IsGep}
use remniw.Select.Fresh.{with_new_virt_reg}
use remniw.Select.Machine.{Machine, address, run}
use remniw.Select.X86.Create.{X86Opcode, create_lea_inst}
use remniw.Select.X86.Isa.{IsX86, op2}
use remniw.Select.X86.Memory.{handle_getelementptr, is_stack_object, is_scale}

module _ (m : Machine) (isa : IsX86 m) (c : Counters) (s : m.State) (size : ℕ) where
  -- With no instruction.
  at_once :
      (h : Select MemOp) (a : MemOp) (v : ℕ)
      → h c ≡ some (a, c, [])
      → address m s a ≡ v
      → Addresses m c h s v
  unfolding run
  at_once h a v returns e = record {
    result = a;
    counters = c;
    emissions = [];
    returns = returns;
    is = e;
    others = λ r old. refl;
    memory = λ x. refl;
  }

  abbrev new_reg : ℕ
  new_reg = c.next_index + 2 ^ 31

  abbrev lea_state : MemOp → m.State
  lea_state a = m.exec (op2 X86Opcode.lea (mem a) (reg new_reg)) s

  -- With the address of the base in a new register, which `f` makes an operand of.
  by_lea :
      (h : Select MemOp) (a : MemOp) (f : ℕ → MemOp) (v : ℕ)
      → c.next_index < 2 ^ 31
      → h c ≡ (new_virt_reg >>= λ r. do create_lea_inst (mem a) (reg r); pure (f r)) c
      → address m (lea_state a) (f new_reg) ≡ v
      → Addresses m c h s v
  unfolding run create_lea_inst
  by_lea h a f v room same e =
      let w = isa.lea_mem s a new_reg in
      record {
        result = f new_reg;
        counters = record c { next_index = c.next_index + 1 };
        emissions =
            use_operand (mem a)
            ∷ use_operand (reg new_reg)
            ∷ inst (op2 X86Opcode.lea (mem a) (reg new_reg))
            ∷ [];
        returns =
            same ∙ with_new_virt_reg c (λ r. do create_lea_inst (mem a) (reg r); pure (f r)) room;
        is = e;
        others = λ r old. w.others r (λ p. omega arith);
        memory = w.memory;
      }

  -- The new register plus an offset, and plus a scaled register.
  offset_address :
      (a : MemOp) (i : ℕ)
      → address m (lea_state a) (base_mem (u64 (size * i)) new_reg) ≡ u64 (address m s a + size * i)
  offset_address a i = let w = isa.lea_mem s a new_reg in ground (arith, w.is)

  scaled_address :
      (a : MemOp) (r : ℕ)
      → r ≢ no_register
      → r < c.next_index + 2 ^ 31
      → address m (lea_state a) (create_mem 0 new_reg r size)
        ≡ u64 (address m s a + size * m.read s r)
  scaled_address a r n old =
      let w = isa.lea_mem s a new_reg in
      let same = w.others r (λ e. omega arith) in
      ground (arith, w.is, mul_comm size (m.read s r), ap (λ (t : ℕ). t * size) same)

  -- A register is added as the index of an operand that has none.
  indexed_address :
      (a : MemOp) (r : ℕ)
      → is_stack_object a ≡ false
      → (a.index_reg == no_register) ≡ true
      → r ≢ no_register
      → address m s (create_mem a.disp a.base_reg r size) ≡ u64 (address m s a + size * m.read s r)
  indexed_address a r k e n = ground (arith, mul_comm size (m.read s r))

  -- Where the base is a memory operand or a register other than `NoRegister`, the index is an immediate or
  -- a register other than `NoRegister`, an index register beside a memory operand was made before, the
  -- size is 1, 2, 4 or 8 and a virtual register is left: on each of these overloads
  -- `handleGETELEMENTPTR` gives an operand with the address of the base plus the size times the index, in
  -- words of 64 bits, and changes no register made before and no memory.
  pub handle_getelementptr-Addresses :
      (x y : AsmOperand)
      → IsGep c x y
      → is_scale size ≡ true
      → c.next_index < 2 ^ 31
      → Addresses m c
          (handle_getelementptr size x y)
          s
          (u64 (base_of m s x + size * index_of m s y))
  unfolding handle_getelementptr
  handle_getelementptr-Addresses (mem a) (imm i) g scale room =
      elim (Bool-cases (is_stack_object a)) [
        | inl k ↦
            by_lea (handle_getelementptr size (mem a) (imm i)) a (λ r. base_mem (u64 (size * i)) r)
              _ room (rw k refl) (offset_address a i)
        | inr k ↦
            at_once (handle_getelementptr size (mem a) (imm i))
              (create_mem (u64 (a.disp + size * i)) a.base_reg a.index_reg a.scale) _ (rw k refl)
              (ground arith)
      ]
  handle_getelementptr-Addresses (mem a) (reg r) (n, old) scale room =
      elim (Bool-cases (is_stack_object a)) [
        | inl k ↦
            by_lea (handle_getelementptr size (mem a) (reg r)) a (λ v. create_mem 0 v r size) _ room
              (rw (scale, k) refl) (scaled_address a r n old)
        | inr k ↦ elim (Bool-cases (a.index_reg == no_register)) [
          | inl e ↦
              at_once (handle_getelementptr size (mem a) (reg r))
                (create_mem a.disp a.base_reg r size) _ (rw (scale, k, e) refl)
                (indexed_address a r k e n)
          | inr e ↦
              by_lea (handle_getelementptr size (mem a) (reg r)) a (λ v. create_mem 0 v r size) _
                room (rw (scale, k, e) refl) (scaled_address a r n old)
        ]
      ]
  handle_getelementptr-Addresses (reg r) (imm i) n scale room =
      at_once (handle_getelementptr size (reg r) (imm i)) (base_mem (u64 (size * i)) r) _ refl
        (ground arith)
  handle_getelementptr-Addresses (reg r) (reg q) (n, k) scale room =
      at_once (handle_getelementptr size (reg r) (reg q)) (create_mem 0 r q size) _ (rw scale refl)
        (ground (arith, mul_comm size (m.read s q)))
  handle_getelementptr-Addresses _ _ g scale room = absurd g
