-- ===== src/Tests/RiscvMachine.antt =====
-- A processor that meets the laws of `IsRiscv`.
use remniw.Prelude.{
  ℕ, ◌+◌, ◌*◌, ◌<◌, ◌^◌, List, [], ◌∷◌, ◌==◌, if◌then◌else◌, inl, inr, arith, Bool-cases,
}
use remniw.Tests.Cells.{Cells, idle, read, load, write, store, write-Writes, signed_quotient_word}
use remniw.Asm.Operand.{AsmOperand, reg, mem, imm, lbl}
use remniw.Select.{u64}
use remniw.Select.Machine.{Machine, address, minus}
use remniw.Select.Riscv.Create.{RiscvOpcode, opcode_no}
use remniw.Select.Riscv.Isa.{IsRiscv, riscv_quotient}

-- An operation of two registers.
abbrev result : ℕ → ℕ → ℕ → ℕ
result op a b =
    if op == opcode_no RiscvOpcode.add
    then u64 (a + b)
    else if op == opcode_no RiscvOpcode.sub
    then minus a b
    else if op == opcode_no RiscvOpcode.mul
    then u64 (a * b)
    else riscv_quotient a b

-- What goes to a register from one operand.
abbrev source : ℕ → AsmOperand → Cells → ℕ
source op (reg r) s = read s r
source op (imm i) s = i
source op (lbl l) s = idle.symbol l
source op (mem a) s =
    if op == opcode_no RiscvOpcode.ld then load s (address idle s a) else address idle s a

abbrev exec_two : ℕ → AsmOperand → AsmOperand → Cells → Cells
exec_two op (reg d) src s =
    if op == opcode_no RiscvOpcode.sd then sd src s else write d (source op src s) s
  where
    sd : AsmOperand → Cells → Cells
    sd (mem a) t = store (address idle t a) (read t d) t
    sd _ t = t
exec_two op _ src s = s

abbrev exec_three : ℕ → AsmOperand → AsmOperand → AsmOperand → Cells → Cells
exec_three op (reg d) (reg a) (reg b) s = write d (result op (read s a) (read s b)) s
exec_three op (reg d) (reg a) (imm i) s = write d (u64 (read s a + i)) s
exec_three op _ _ _ s = s

abbrev exec_ops : ℕ → List AsmOperand → Cells → Cells
exec_ops op (a ∷ b ∷ []) s = exec_two op a b s
exec_ops op (a ∷ b ∷ d ∷ []) s = exec_three op a b d s
exec_ops op _ s = s

abbrev pub processor : Machine
processor = record idle { exec = λ i. exec_ops i.opcode i.operands }

quotient_word : (a b : ℕ) → a < 2 ^ 64 → riscv_quotient a b < 2 ^ 64
quotient_word a b word = elim (Bool-cases (b == 0)) [
  | inl e ↦ rw e (omega arith)
  | inr e ↦ rw e (signed_quotient_word a b word)
]

pub processor-IsRiscv : IsRiscv processor
processor-IsRiscv = record {
  add_op = λ s d a b n. write-Writes _ s d _ (omega arith);
  sub_op = λ s d a b n. write-Writes _ s d _ (omega arith);
  mul_op = λ s d a b n. write-Writes _ s d _ (omega arith);
  div_op = λ s d a b n.
      write-Writes _ s d _ (quotient_word (u64 (s.regs a)) (u64 (s.regs b)) (omega arith));
  li_imm = λ s d i n word. write-Writes _ s d _ word;
  addi_imm = λ s d r i n small. write-Writes _ s d _ (omega arith);
}
