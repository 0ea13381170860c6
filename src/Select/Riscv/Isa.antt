-- ===== src/Select/Riscv/Isa.antt =====
-- The instructions of RISC-V that the selection uses, as their manual describes them. The destination
-- comes first; what is written to the register `zero` is lost.
use remniw.Prelude.{ℕ, ◌+◌, ◌-◌, ◌*◌, ◌<◌, ◌^◌, ◌≡◌, ◌≢◌, true, [], ◌∷◌, if◌then◌else◌, ◌==◌}
use remniw.Asm.Operand.{AsmOperand, AsmInstruction, reg, imm}
use remniw.RegAlloc.Target.Riscv.{reg_no, RiscvRegister}
use remniw.Select.{u64}
use remniw.Select.Machine.{Machine, Writes, minus, signed_quotient}
use remniw.Select.Riscv.Create.{RiscvOpcode, opcode_no, is_imm12}

abbrev pub zero_no : ℕ
zero_no = reg_no RiscvRegister.zero

-- Division by zero gives a word of ones, and there are no traps.
abbrev pub riscv_quotient : ℕ → ℕ → ℕ
riscv_quotient a b = if b == 0 then 2 ^ 64 - 1 else signed_quotient a b

abbrev pub op2 : RiscvOpcode → AsmOperand → AsmOperand → AsmInstruction
op2 o a b = record { opcode = opcode_no o; operands = a ∷ b ∷ [] }

abbrev pub op3 : RiscvOpcode → AsmOperand → AsmOperand → AsmOperand → AsmInstruction
op3 o a b d = record { opcode = opcode_no o; operands = a ∷ b ∷ d ∷ [] }

-- The operation `f` of two registers.
abbrev pub IsOperation : (m : Machine) → RiscvOpcode → (ℕ → ℕ → ℕ) → Type 0
IsOperation m o f =
    (s : m.State) (d a b : ℕ)
    → d ≢ zero_no
    → Writes m s (m.exec (op3 o (reg d) (reg a) (reg b)) s) d (f (m.read s a) (m.read s b))

pub record IsRiscv (m : Machine) : Type 0 where
  pub add_op : IsOperation m RiscvOpcode.add (λ a b. u64 (a + b))
  pub sub_op : IsOperation m RiscvOpcode.sub minus
  pub mul_op : IsOperation m RiscvOpcode.mul (λ a b. u64 (a * b))
  pub div_op : IsOperation m RiscvOpcode.div riscv_quotient
  pub li_imm :
      (s : m.State) (d i : ℕ)
      → d ≢ zero_no
      → i < 2 ^ 64
      → Writes m s (m.exec (op2 RiscvOpcode.li (reg d) (imm i)) s) d i
  pub addi_imm :
      (s : m.State) (d r i : ℕ)
      → d ≢ zero_no
      → is_imm12 i ≡ true
      → Writes m s
          (m.exec (op3 RiscvOpcode.addi (reg d) (reg r) (imm i)) s)
          d
          (u64 (m.read s r + i))
