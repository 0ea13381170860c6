-- ===== src/Tests/X86Machine.antt =====
-- A processor with registers and memory of 64-bit words that meets the laws of `IsX86`.
use remniw.Prelude.{
  inl, inr, ◌<◌, ◌^◌, ℕ, ◌+◌, ◌*◌, ◌≡◌, refl, List, [], ◌∷◌, arith, ◌==◌, if◌then◌else◌, false,
}
use remniw.Tests.Cells.{
  Cells, idle, read, load, write, store, write-Writes, store-Stores, signed_quotient_word,
}
use remniw.Asm.Operand.{AsmOperand, MemOp, reg, mem, imm, lbl}
use remniw.RegAlloc.Target.X86.{reg_no, rax, rdx}
use remniw.Select.{u64}
use remniw.Select.Machine.{Machine, address, value, minus, signed_quotient, IsImm32}
use remniw.Select.X86.Create.{X86Opcode, opcode_no}
use remniw.Select.X86.Isa.{IsX86, IsSource64, sign_word}

-- The value that an instruction with two operands leaves in its destination, which held `d`.
abbrev result : ℕ → ℕ → ℕ → ℕ
result op d v =
    if op == opcode_no X86Opcode.add
    then u64 (d + v)
    else if op == opcode_no X86Opcode.sub
    then minus d v
    else if op == opcode_no X86Opcode.imul
    then u64 (d * v)
    else v

abbrev source : ℕ → AsmOperand → Cells → ℕ
source op (mem a) s =
    if op == opcode_no X86Opcode.lea then address idle s a else load s (address idle s a)
source op (reg r) s = read s r
source op (imm i) s = i
source op (lbl l) s = idle.symbol l

abbrev exec_two : ℕ → AsmOperand → AsmOperand → Cells → Cells
exec_two op src (reg d) s = write d (result op (read s d) (source op src s)) s
exec_two op src (mem a) s = store (address idle s a) (source op src s) s
exec_two op src _ s = s

abbrev divide : AsmOperand → Cells → Cells
divide (reg r) s =
    write (reg_no rax) (signed_quotient (read s (reg_no rax)) (read s r)) (write (reg_no rdx) 0 s)
divide _ s = s

abbrev exec_ops : ℕ → List AsmOperand → Cells → Cells
exec_ops op [] s = write (reg_no rdx) (sign_word (read s (reg_no rax))) s
exec_ops op (src ∷ []) s = divide src s
exec_ops op (src ∷ dst ∷ []) s = exec_two op src dst s
exec_ops op (src ∷ dst ∷ third ∷ rest) s = s

abbrev pub processor : Machine
processor = record idle { exec = λ i. exec_ops i.opcode i.operands }

same_source :
    (src : AsmOperand) (op : ℕ) (s : Cells)
    → (op == opcode_no X86Opcode.lea) ≡ false
    → source op src s ≡ value processor s src
same_source (reg r) op s e = refl
same_source (mem a) op s e = rw e refl
same_source (imm i) op s e = refl
same_source (lbl l) op s e = refl

source_word : (src : AsmOperand) (s : Cells) → IsSource64 src → value processor s src < 2 ^ 64
source_word (reg r) s is = omega arith
source_word (mem a) s is = omega arith
source_word (imm i) s is = is
source_word (lbl l) s is = absurd is

address_word : (a : MemOp) (s : Cells) → address processor s a < 2 ^ 64
address_word a s = ground arith

pub processor-IsX86 : IsX86 processor
processor-IsX86 = record {
  mov_reg = λ s src d is. rw (← same_source src 1 s refl) (write-Writes _ s d _ (moved src s is));
  mov_reg_mem = λ s r a. store-Stores _ s _ _ (omega arith);
  mov_imm_mem = λ s i a small. store-Stores _ s _ _ (imm_word i small);
  lea_mem = λ s a d. write-Writes _ s d _ (address_word a s);
  lea_lbl = λ s l d. write-Writes _ s d _ (omega arith);
  add_reg = λ s src d small. rw (← same_source src 9 s refl) (write-Writes _ s d _ (omega arith));
  sub_reg = λ s src d small. rw (← same_source src 10 s refl) (write-Writes _ s d _ (omega arith));
  imul_reg = λ s src d small. rw (← same_source src 11 s refl) (write-Writes _ s d _ (omega arith));
  cqto_rax = λ s. write-Writes _ s _ _ (ground arith);
  idiv_reg = λ s r wide d. record {
    is = quotient_read (read s (reg_no rax)) (read s r) (omega arith);
    others = λ q n k. ground arith;
    memory = λ a. refl;
  };
}
  where
    moved : (src : AsmOperand) (s : Cells) → IsSource64 src → source 1 src s < 2 ^ 64
    moved src s is = rw (same_source src 1 s refl) (source_word src s is)

    imm_word : (i : ℕ) → IsImm32 (imm i) → i < 2 ^ 64
    imm_word i (inl low) = omega (arith, low)
    imm_word i (inr high) = high.1

    quotient_read : (a b : ℕ) → a < 2 ^ 64 → u64 (signed_quotient a b) ≡ signed_quotient a b
    quotient_read a b word = omega (arith, signed_quotient_word a b word)
