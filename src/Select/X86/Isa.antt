-- ===== src/Select/X86/Isa.antt =====
-- The instructions of x86-64 that the selection uses, as their manual describes them, in the operand
-- order of the source: the destination comes last.
use remniw.Prelude.{ℕ, ◌+◌, ◌-◌, ◌*◌, ◌^◌, ◌<◌, ◌≡◌, ◌≢◌, List, [], ◌∷◌, if◌then◌else◌, ◌⊎◌}
use remniw.Asm.LiveRanges.{Emission, use_operand, inst}
use remniw.Asm.Operand.{AsmOperand, AsmInstruction, MemOp, reg, mem, imm, lbl}
use remniw.RegAlloc.Target.X86.{reg_no, rax, rdx}
use remniw.Select.{u64}
use remniw.Select.Machine.{
  Machine, address, value, Writes, Stores, IsImm32, is_negative, minus, signed_quotient,
}
use remniw.Select.X86.Create.{X86Opcode, opcode_no, mov, lea, add, sub, imul, idiv, cqto}

-- The sign of a word, in all bits of another.
abbrev pub sign_word : ℕ → ℕ
sign_word a = if is_negative a then 2 ^ 64 - 1 else 0

-- Division by zero and the one quotient that is not a word trap.
abbrev pub Divisible : ℕ → ℕ → Type 0
Divisible a b = (b ≢ 0) × ((a ≢ 2 ^ 63) ⊎ (b ≢ 2 ^ 64 - 1))

abbrev pub op2 : X86Opcode → AsmOperand → AsmOperand → AsmInstruction
op2 o src dst = record { opcode = opcode_no o; operands = src ∷ dst ∷ [] }

-- RAX and RDX change.
pub record Divides (m : Machine) (s s' : m.State) (q : ℕ) : Type 0 where
  pub is : m.read s' (reg_no rax) ≡ q
  pub others : (r : ℕ) → r ≢ reg_no rax → r ≢ reg_no rdx → m.read s' r ≡ m.read s r
  pub memory : (a : ℕ) → m.load s' a ≡ m.load s a

-- What a processor with registers of 64 bits can move to one: a register, a word of memory, or an
-- immediate that is a word. A label as source is left out: the assembler reads it as memory.
abbrev pub IsSource64 : AsmOperand → Type 0
IsSource64 (reg r) = Unit {0}
IsSource64 (mem a) = Unit {0}
IsSource64 (imm i) = i < 2 ^ 64
IsSource64 (lbl l) = ⊥

-- What it can add, subtract or multiply by.
abbrev pub IsSource32 : AsmOperand → Type 0
IsSource32 (reg r) = Unit {0}
IsSource32 (mem a) = Unit {0}
IsSource32 (imm i) = IsImm32 (imm i)
IsSource32 (lbl l) = ⊥

pub record IsX86 (m : Machine) : Type 0 where
  pub mov_reg :
      (s : m.State) (src : AsmOperand) (d : ℕ)
      → IsSource64 src
      → Writes m s (m.exec (op2 mov src (reg d)) s) d (value m s src)
  pub mov_reg_mem :
      (s : m.State) (r : ℕ) (a : MemOp)
      → Stores m s (m.exec (op2 mov (reg r) (mem a)) s) (address m s a) (m.read s r)
  pub mov_imm_mem :
      (s : m.State) (i : ℕ) (a : MemOp)
      → IsImm32 (imm i)
      → Stores m s (m.exec (op2 mov (imm i) (mem a)) s) (address m s a) i
  pub lea_mem :
      (s : m.State) (a : MemOp) (d : ℕ)
      → Writes m s (m.exec (op2 lea (mem a) (reg d)) s) d (address m s a)
  pub lea_lbl :
      (s : m.State) (l d : ℕ) → Writes m s (m.exec (op2 lea (lbl l) (reg d)) s) d (m.symbol l)
  pub add_reg :
      (s : m.State) (src : AsmOperand) (d : ℕ)
      → IsSource32 src
      → Writes m s (m.exec (op2 add src (reg d)) s) d (u64 (m.read s d + value m s src))
  pub sub_reg :
      (s : m.State) (src : AsmOperand) (d : ℕ)
      → IsSource32 src
      → Writes m s (m.exec (op2 sub src (reg d)) s) d (minus (m.read s d) (value m s src))
  pub imul_reg :
      (s : m.State) (src : AsmOperand) (d : ℕ)
      → IsSource32 src
      → Writes m s (m.exec (op2 imul src (reg d)) s) d (u64 (m.read s d * value m s src))
  pub cqto_rax :
      (s : m.State)
      → Writes m s
          (m.exec (record { opcode = opcode_no cqto; operands = [] }) s)
          (reg_no rdx)
          (sign_word (m.read s (reg_no rax)))
  pub idiv_reg :
      (s : m.State) (r : ℕ)
      → m.read s (reg_no rdx) ≡ sign_word (m.read s (reg_no rax))
      → Divisible (m.read s (reg_no rax)) (m.read s r)
      → Divides m s
          (m.exec (record { opcode = opcode_no idiv; operands = reg r ∷ [] }) s)
          (signed_quotient (m.read s (reg_no rax)) (m.read s r))

-- The steps of `create_two`.
abbrev pub two_steps : X86Opcode → AsmOperand → AsmOperand → List Emission
two_steps o x y = use_operand x ∷ use_operand y ∷ inst (op2 o x y) ∷ []
