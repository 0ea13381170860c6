-- ===== src/Select/X86/Sums.antt =====
-- The handlers of addition, subtraction and multiplication compute them.
use native.Mathlib.Nat.{mul_comm}
use remniw.Prelude.{ℕ, ◌+◌, ◌*◌, ◌<◌, ◌^◌, ◌≡◌, refl, ap, inl, inr, [], ◌∷◌, arith}
use remniw.Asm.LiveRanges.{use_operand, inst}
use remniw.Asm.Operand.{AsmOperand, reg, imm}
use remniw.Select.{Counters, pure, ◌>>◌, u64}
use remniw.Select.Fresh.{with_new_virt_reg}
use remniw.Select.Machine.{
  Machine, value, Writes, Writes-Writes, run, Computes, IsImm32, OneReg, IsOld, minus,
}
use remniw.Select.X86.Arith.{handle_add, handle_sub, handle_mul}
use remniw.Select.X86.Create.{X86Opcode, create_mov_inst, create_sub_inst}
use remniw.Select.X86.Isa.{IsX86, op2}

module _ (m : Machine) (isa : IsX86 m) where
  Writes-eq : (s s' : m.State) (d v w : ℕ) → v ≡ w → Writes m s s' d v → Writes m s s' d w
  Writes-eq s s' d v w e p = rw (← e) p

  word_of : (i : ℕ) → IsImm32 (imm i) → i < 2 ^ 64
  word_of i (inl low) = omega (arith, low)
  word_of i (inr high) = high.1

  module _ (c : Counters) where
    -- Where one operand at least is a register and immediates are of 32 bits, `handleADD` leaves the
    -- sum of both operands in the register that it gives, and changes nothing else.
    handle_add-Computes :
        (x y : AsmOperand)
        → OneReg x y
        → IsImm32 x
        → IsImm32 y
        → Computes m (handle_add x y) c (λ s. u64 (value m s x + value m s y))
    unfolding handle_add run
    handle_add-Computes (reg a) (reg b) o p q = record {
      result = b;
      counters = c;
      emissions = _;
      returns = refl;
      writes = λ s. Writes-eq s _ b _ _ (ap u64 (omega arith)) (isa.add_reg s (reg a) b tt);
    }
    handle_add-Computes (reg a) (imm i) o p q = record {
      result = a;
      counters = c;
      emissions = _;
      returns = refl;
      writes = λ s. isa.add_reg s (imm i) a q;
    }
    handle_add-Computes (imm i) (reg a) o p q = record {
      result = a;
      counters = c;
      emissions = _;
      returns = refl;
      writes = λ s. Writes-eq s _ a _ _ (ap u64 (omega arith)) (isa.add_reg s (imm i) a p);
    }
    handle_add-Computes _ _ o p q = absurd o

    -- Where one operand at least is a register, immediates are of 32 bits, a register subtracted was
    -- made before and a virtual register is left, `handleSUB` returns a register, and what it has
    -- selected leaves the first operand minus the second there and changes nothing else.
    handle_sub-Computes :
        (x y : AsmOperand)
        → OneReg x y
        → IsImm32 x
        → IsImm32 y
        → IsOld c y
        → c.next_index < 2 ^ 31
        → Computes m (handle_sub x y) c (λ s. minus (value m s x) (value m s y))
    unfolding handle_sub run
    handle_sub-Computes (reg a) (reg b) o p q old room = record {
      result = a;
      counters = c;
      emissions = _;
      returns = refl;
      writes = λ s. isa.sub_reg s (reg b) a tt;
    }
    handle_sub-Computes (reg a) (imm i) o p q old room = record {
      result = a;
      counters = c;
      emissions = _;
      returns = refl;
      writes = λ s. isa.sub_reg s (imm i) a q;
    }
    handle_sub-Computes (imm i) (reg b) o p q old room =
        let v = c.next_index + 2 ^ 31 in
        record {
          result = v;
          counters = record c { next_index = c.next_index + 1 };
          emissions =
              use_operand (imm i)
              ∷ use_operand (reg v)
              ∷ inst (op2 X86Opcode.mov (imm i) (reg v))
              ∷ use_operand (reg b)
              ∷ use_operand (reg v)
              ∷ inst (op2 X86Opcode.sub (reg b) (reg v))
              ∷ [];
          returns =
              with_new_virt_reg c
                (λ v. do create_mov_inst (imm i) (reg v); create_sub_inst (reg b) (reg v); pure v)
                room;
          writes = λ s.
              let moved = isa.mov_reg s (imm i) v (word_of i p) in
              let left = m.exec (op2 X86Opcode.mov (imm i) (reg v)) s in
              let difference = isa.sub_reg left (reg b) v tt in
              let same = moved.others b (λ e. omega arith) in
              Writes-Writes m s left _ v i _ moved
                (Writes-eq left _ v _ _ (rw (moved.is, same) refl) difference);
        }
    handle_sub-Computes _ _ o p q old room = absurd o

    -- Where one operand at least is a register and immediates are of 32 bits, `handleMUL` returns a
    -- register, and what it has selected leaves the product there and changes nothing else.
    handle_mul-Computes :
        (x y : AsmOperand)
        → OneReg x y
        → IsImm32 x
        → IsImm32 y
        → Computes m (handle_mul x y) c (λ s. u64 (value m s x * value m s y))
    unfolding handle_mul run
    handle_mul-Computes (reg a) (reg b) o p q = record {
      result = b;
      counters = c;
      emissions = _;
      returns = refl;
      writes = λ s.
          Writes-eq s _ b _ _ (ap u64 (mul_comm (m.read s b) (m.read s a)))
            (isa.imul_reg s (reg a) b tt);
    }
    handle_mul-Computes (reg a) (imm i) o p q = record {
      result = a;
      counters = c;
      emissions = _;
      returns = refl;
      writes = λ s. isa.imul_reg s (imm i) a q;
    }
    handle_mul-Computes (imm i) (reg a) o p q = record {
      result = a;
      counters = c;
      emissions = _;
      returns = refl;
      writes =
          λ s. Writes-eq s _ a _ _ (ap u64 (mul_comm (m.read s a) i)) (isa.imul_reg s (imm i) a p);
    }
    handle_mul-Computes _ _ o p q = absurd o

    -- Where one operand at least is a register, immediates are of 32 bits, a register as second operand
    -- was made before and a virtual register is left: each of `handleADD`, `handleSUB` and `handleMUL`
    -- returns a register, and what it has selected leaves the sum, the first operand minus the second,
    -- and the product there, as words, and changes nothing else.
    pub handle_arithmetic-Computes :
        (x y : AsmOperand)
        → OneReg x y
        → IsImm32 x
        → IsImm32 y
        → IsOld c y
        → c.next_index < 2 ^ 31
        → Computes m (handle_add x y) c (λ s. u64 (value m s x + value m s y))
          × Computes m (handle_sub x y) c (λ s. minus (value m s x) (value m s y))
          × Computes m (handle_mul x y) c (λ s. u64 (value m s x * value m s y))
    handle_arithmetic-Computes x y o p q old room = (
      handle_add-Computes x y o p q,
      handle_sub-Computes x y o p q old room,
      handle_mul-Computes x y o p q,
    )
