-- ===== src/Select/Riscv/Operations.antt =====
-- The handlers of arithmetic compute what they are named for, in a new register.
use remniw.Prelude.{ℕ, ◌+◌, ◌*◌, ◌<◌, ◌^◌, ◌≡◌, refl, ap, ◌∙◌, List, [], ◌∷◌, arith}
use remniw.Asm.LiveRanges.{Emission, use_operand, inst}
use remniw.Asm.Operand.{AsmOperand, reg, imm}
use remniw.Select.{Select, Counters, u64, new_virt_reg, pure, ◌>>=◌, ◌>>◌}
use remniw.Select.Effects.{next_counters}
use remniw.Select.Fresh.{with_new_virt_reg}
use remniw.Select.Machine.{
  Machine, value, Writes, Writes-Writes, run, Computes, OneReg, IsOld, minus,
}
use remniw.Select.Riscv.Arith.{handle_add, handle_sub, handle_mul, handle_sdiv}
use remniw.Select.Riscv.Create.{RiscvOpcode, create_li_inst, create_three}
use remniw.Select.Riscv.Isa.{IsRiscv, IsOperation, op2, op3, riscv_quotient}

-- An immediate operand is a word.
abbrev pub IsWord : AsmOperand → Type 0
IsWord (imm i) = i < 2 ^ 64
IsWord _ = Unit {0}

module _ (m : Machine) (isa : IsRiscv m) (c : Counters) (room : c.next_index < 2 ^ 31) where
  abbrev new : ℕ
  new = c.next_index + 2 ^ 31

  abbrev three_steps : RiscvOpcode → ℕ → ℕ → List Emission
  three_steps o a b =
      use_operand (reg new)
      ∷ use_operand (reg a)
      ∷ use_operand (reg b)
      ∷ inst (op3 o (reg new) (reg a) (reg b))
      ∷ []

  -- The operation `o` of two registers, and of a register that was loaded with an immediate first.
  module _ (o : RiscvOpcode) (f : ℕ → ℕ → ℕ) (law : IsOperation m o f) (h : Select ℕ) where
    of_registers :
        (a b : ℕ)
        → h c ≡ (new_virt_reg >>= λ v. do create_three o (reg v) (reg a) (reg b); pure v) c
        → Computes m h c (λ s. f (m.read s a) (m.read s b))
    unfolding run
    of_registers a b e = record {
      result = new;
      counters = next_counters m c;
      emissions = three_steps o a b;
      returns =
          e ∙ with_new_virt_reg c (λ v. do create_three o (reg v) (reg a) (reg b); pure v) room;
      writes = λ s. law s new a b (λ p. omega arith);
    }

    -- `a` and `b` give the operands, of which the new register is one.
    of_loaded :
        (i : ℕ) (a b : ℕ → ℕ) (v : m.State → ℕ)
        → i < 2 ^ 64
        → h c
          ≡ (new_virt_reg >>= λ r. do
            create_li_inst (reg r) (imm i)
            create_three o (reg r) (reg (a r)) (reg (b r))
            pure r)
              c
        → ((s t : m.State) → Writes m s t new i → f (m.read t (a new)) (m.read t (b new)) ≡ v s)
        → Computes m h c v
    unfolding run create_li_inst
    of_loaded i a b v word e same = record {
      result = new;
      counters = next_counters m c;
      emissions =
          use_operand (reg new)
          ∷ inst (op2 RiscvOpcode.li (reg new) (imm i))
          ∷ three_steps o (a new) (b new);
      returns =
          e
          ∙ with_new_virt_reg c
              (λ r. do
                create_li_inst (reg r) (imm i)
                create_three o (reg r) (reg (a r)) (reg (b r))
                pure r)
              room;
      writes = λ s.
          let t = m.exec (op2 RiscvOpcode.li (reg new) (imm i)) s in
          let loaded = isa.li_imm s new i (λ p. omega arith) word in
          Writes-Writes m s t _ new i (v s) loaded
            (rw (← same s t loaded) (law t new (a new) (b new) (λ p. omega arith)));
    }

    -- The immediate is the second operand, or the first.
    loaded_second :
        (s t : m.State) (a i : ℕ)
        → a < c.next_index + 2 ^ 31
        → Writes m s t new i
        → f (m.read t a) (m.read t new) ≡ f (m.read s a) i
    loaded_second s t a i old w = rw (w.is, w.others a (λ p. omega arith)) refl

    loaded_first :
        (s t : m.State) (b i : ℕ)
        → b < c.next_index + 2 ^ 31
        → Writes m s t new i
        → f (m.read t new) (m.read t b) ≡ f i (m.read s b)
    loaded_first s t b i old w = rw (w.is, w.others b (λ p. omega arith)) refl

  -- Where one operand at least is a register, immediates are words and registers were made before,
  -- `handleADD` returns a new register, and what it has selected leaves the sum there and changes
  -- nothing else.
  pub handle_add-Computes_riscv :
      (x y : AsmOperand)
      → OneReg x y
      → IsWord x
      → IsWord y
      → IsOld c x
      → IsOld c y
      → Computes m (handle_add x y) c (λ s. u64 (value m s x + value m s y))
  unfolding handle_add
  handle_add-Computes_riscv (reg a) (reg b) o p q old_a old_b =
      of_registers RiscvOpcode.add (λ a b. u64 (a + b)) isa.add_op (handle_add (reg a) (reg b)) a b
        refl
  handle_add-Computes_riscv (reg a) (imm i) o p q old_a old_b =
      of_loaded RiscvOpcode.add (λ a b. u64 (a + b)) isa.add_op (handle_add (reg a) (imm i)) i
        (λ r. a) (λ r. r) _ q refl
        (λ s t w.
          loaded_second RiscvOpcode.add (λ a b. u64 (a + b)) isa.add_op (handle_add (reg a) (imm i))
            s t a i old_a w)
  handle_add-Computes_riscv (imm i) (reg b) o p q old_a old_b =
      of_loaded RiscvOpcode.add (λ a b. u64 (a + b)) isa.add_op (handle_add (imm i) (reg b)) i
        (λ r. b) (λ r. r) _ p refl
        (λ s t w.
          loaded_second RiscvOpcode.add (λ a b. u64 (a + b)) isa.add_op (handle_add (imm i) (reg b))
            s t b i old_b w
          ∙ ap u64 (omega arith))
  handle_add-Computes_riscv _ _ o p q old_a old_b = absurd o

  -- Where one operand at least is a register, immediates are words and registers were made before,
  -- `handleSUB` returns a new register, and what it has selected leaves the first operand minus the
  -- second there and changes nothing else.
  pub handle_sub-Computes_riscv :
      (x y : AsmOperand)
      → OneReg x y
      → IsWord x
      → IsWord y
      → IsOld c x
      → IsOld c y
      → Computes m (handle_sub x y) c (λ s. minus (value m s x) (value m s y))
  unfolding handle_sub
  handle_sub-Computes_riscv (reg a) (reg b) o p q old_a old_b =
      of_registers RiscvOpcode.sub minus isa.sub_op (handle_sub (reg a) (reg b)) a b refl
  handle_sub-Computes_riscv (reg a) (imm i) o p q old_a old_b =
      of_loaded RiscvOpcode.sub minus isa.sub_op (handle_sub (reg a) (imm i)) i (λ r. a) (λ r. r) _
        q refl
        (λ s t w.
          loaded_second RiscvOpcode.sub minus isa.sub_op (handle_sub (reg a) (imm i)) s t a i old_a
            w)
  handle_sub-Computes_riscv (imm i) (reg b) o p q old_a old_b =
      of_loaded RiscvOpcode.sub minus isa.sub_op (handle_sub (imm i) (reg b)) i (λ r. r) (λ r. b) _
        p refl
        (λ s t w.
          loaded_first RiscvOpcode.sub minus isa.sub_op (handle_sub (imm i) (reg b)) s t b i old_b
            w)
  handle_sub-Computes_riscv _ _ o p q old_a old_b = absurd o

  -- Where one operand at least is a register, immediates are words and registers were made before,
  -- `handleMUL` returns a new register, and what it has selected leaves the product there and changes
  -- nothing else.
  pub handle_mul-Computes_riscv :
      (x y : AsmOperand)
      → OneReg x y
      → IsWord x
      → IsWord y
      → IsOld c x
      → IsOld c y
      → Computes m (handle_mul x y) c (λ s. u64 (value m s x * value m s y))
  unfolding handle_mul
  handle_mul-Computes_riscv (reg a) (reg b) o p q old_a old_b =
      of_registers RiscvOpcode.mul (λ a b. u64 (a * b)) isa.mul_op (handle_mul (reg a) (reg b)) a b
        refl
  handle_mul-Computes_riscv (reg a) (imm i) o p q old_a old_b =
      of_loaded RiscvOpcode.mul (λ a b. u64 (a * b)) isa.mul_op (handle_mul (reg a) (imm i)) i
        (λ r. a) (λ r. r) _ q refl
        (λ s t w.
          loaded_second RiscvOpcode.mul (λ a b. u64 (a * b)) isa.mul_op (handle_mul (reg a) (imm i))
            s t a i old_a w)
  handle_mul-Computes_riscv (imm i) (reg b) o p q old_a old_b =
      of_loaded RiscvOpcode.mul (λ a b. u64 (a * b)) isa.mul_op (handle_mul (imm i) (reg b)) i
        (λ r. r) (λ r. b) _ p refl
        (λ s t w.
          loaded_first RiscvOpcode.mul (λ a b. u64 (a * b)) isa.mul_op (handle_mul (imm i) (reg b))
            s t b i old_b w)
  handle_mul-Computes_riscv _ _ o p q old_a old_b = absurd o

  -- Where one operand at least is a register, immediates are words and registers were made before,
  -- `handleSDIV` returns a new register, and what it has selected leaves the signed quotient there, a
  -- word of ones for a divisor of zero, and changes nothing else.
  pub handle_sdiv-Computes_riscv :
      (x y : AsmOperand)
      → OneReg x y
      → IsWord x
      → IsWord y
      → IsOld c x
      → IsOld c y
      → Computes m (handle_sdiv x y) c (λ s. riscv_quotient (value m s x) (value m s y))
  unfolding handle_sdiv
  handle_sdiv-Computes_riscv (reg a) (reg b) o p q old_a old_b =
      of_registers RiscvOpcode.div riscv_quotient isa.div_op (handle_sdiv (reg a) (reg b)) a b refl
  handle_sdiv-Computes_riscv (reg a) (imm i) o p q old_a old_b =
      of_loaded RiscvOpcode.div riscv_quotient isa.div_op (handle_sdiv (reg a) (imm i)) i (λ r. a)
        (λ r. r) _ q refl
        (λ s t w.
          loaded_second RiscvOpcode.div riscv_quotient isa.div_op (handle_sdiv (reg a) (imm i)) s t
            a i old_a w)
  handle_sdiv-Computes_riscv (imm i) (reg b) o p q old_a old_b =
      of_loaded RiscvOpcode.div riscv_quotient isa.div_op (handle_sdiv (imm i) (reg b)) i (λ r. r)
        (λ r. b) _ p refl
        (λ s t w.
          loaded_first RiscvOpcode.div riscv_quotient isa.div_op (handle_sdiv (imm i) (reg b)) s t b
            i old_b w)
  handle_sdiv-Computes_riscv _ _ o p q old_a old_b = absurd o
