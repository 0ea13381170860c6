-- ===== src/Asm/Operand.antt =====
-- codegen/asm/AsmOperand.h and the data of AsmInstruction.h. An `int64_t` is held as its 64-bit word,
-- and a symbol, which the source interns and compares by its pointer, as a number.
use remniw.Prelude.{ℕ, List}

pub record MemOp : Type 0 where
  pub disp : ℕ
  pub base_reg : ℕ
  pub index_reg : ℕ
  pub scale : ℕ
  pub stack_object_index : ℕ

pub data AsmOperand : Type 0 where
  reg : ℕ → AsmOperand
  mem : MemOp → AsmOperand
  imm : ℕ → AsmOperand
  lbl : ℕ → AsmOperand

pub record AsmInstruction : Type 0 where
  pub opcode : ℕ
  pub operands : List AsmOperand
