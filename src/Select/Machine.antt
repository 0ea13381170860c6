-- ===== src/Select/Machine.antt =====
-- What the selected instructions run on. A processor is not part of the program: `Machine` names
-- what is observed of its states, and each target lists the laws of its instruction set.
use remniw.Prelude.{
  ℕ, ◌+◌, ◌-◌, ◌*◌, ◌/◌, ◌≤◌, ◌<◌, ◌^◌, ◌≡◌, ◌≢◌, ◌∙◌, ◌⊎◌, Bool, List, [], ◌∷◌, ◌++◌, some, refl,
  if◌then◌else◌, ◌==◌, ltb,
}
use remniw.Asm.LiveRanges.{Emission, use_operand, inst, call}
use remniw.Asm.Operand.{AsmOperand, AsmInstruction, MemOp, reg, mem, imm, lbl}
use remniw.RegAlloc.Register.{no_register}
use remniw.Select.{Select, Counters, u64, no_stack_object}

-- Registers, virtual ones included, and memory, read as words of 64 bits; the addresses of stack
-- objects and symbols.
pub record Machine : Type 1 where
  pub State : Type 0
  pub read : State → ℕ → ℕ
  pub load : State → ℕ → ℕ
  pub object : ℕ → ℕ
  pub symbol : ℕ → ℕ
  pub exec : AsmInstruction → State → State

-- Words read as signed numbers.
abbrev pub magnitude : ℕ → ℕ
magnitude a = if ltb a (2 ^ 63) then a else 2 ^ 64 - a

abbrev pub is_negative : ℕ → Bool
is_negative a = if ltb a (2 ^ 63) then Bool.false else Bool.true

abbrev pub minus : ℕ → ℕ → ℕ
minus a b = u64 (a + 2 ^ 64 - b)

-- The quotient of signed words, rounded towards zero.
abbrev pub signed_quotient : ℕ → ℕ → ℕ
signed_quotient a b =
    let q = magnitude a / magnitude b in
    if is_negative a
    then (if is_negative b then q else u64 (2 ^ 64 - q))
    else (if is_negative b then u64 (2 ^ 64 - q) else q)

module _ (m : Machine) where
  abbrev pub read_or_zero : m.State → ℕ → ℕ
  read_or_zero s r = if r == no_register then 0 else m.read s r

  abbrev pub address : m.State → MemOp → ℕ
  address s a =
      if a.stack_object_index == no_stack_object
      then u64 (a.disp + read_or_zero s a.base_reg + read_or_zero s a.index_reg * a.scale)
      else m.object a.stack_object_index

  abbrev pub value : m.State → AsmOperand → ℕ
  value s (reg r) = m.read s r
  value s (mem a) = m.load s (address s a)
  value s (imm i) = i
  value s (lbl l) = m.symbol l

  -- One register changes.
  pub record Writes (s s' : m.State) (d v : ℕ) : Type 0 where
    pub is : m.read s' d ≡ v
    pub others : (r : ℕ) → r ≢ d → m.read s' r ≡ m.read s r
    pub memory : (a : ℕ) → m.load s' a ≡ m.load s a

  -- One word of memory changes.
  pub record Stores (s s' : m.State) (a v : ℕ) : Type 0 where
    pub is : m.load s' a ≡ v
    pub others : (b : ℕ) → (a + 8 ≤ b) ⊎ (b + 8 ≤ a) → m.load s' b ≡ m.load s b
    pub registers : (r : ℕ) → m.read s' r ≡ m.read s r

  unfoldable pub run : List Emission → m.State → m.State
  run [] s = s
  run (use_operand op ∷ es) s = run es s
  run (inst i ∷ es) s = run es (m.exec i s)
  run (call i ∷ es) s = run es (m.exec i s)

  pub Writes-Writes :
      (s s' s'' : m.State) (d v w : ℕ) → Writes s s' d v → Writes s' s'' d w → Writes s s'' d w
  Writes-Writes s s' s'' d v w p q = record {
    is = q.is;
    others = λ r n. q.others r n ∙ p.others r n;
    memory = λ a. q.memory a ∙ p.memory a;
  }

  -- The handler returns, and running what it has selected puts `v` in the register that it gives.
  pub record Computes (h : Select ℕ) (c : Counters) (v : m.State → ℕ) : Type 0 where
    pub result : ℕ
    pub counters : Counters
    pub emissions : List Emission
    pub returns : h c ≡ some (result, counters, emissions)
    pub writes : (s : m.State) → Writes s (run emissions s) result (v s)

-- An immediate operand is a word, and one of 32 bits with its sign extended where the instruction
-- set asks for it.
abbrev pub IsImm32 : AsmOperand → Type 0
IsImm32 (imm i) = (i < 2 ^ 31) ⊎ ((2 ^ 64 - 2 ^ 31 ≤ i) × (i < 2 ^ 64))
IsImm32 (reg r) = Unit {0}
IsImm32 (mem a) = Unit {0}
IsImm32 (lbl l) = Unit {0}

-- An immediate operand is a word.
abbrev pub IsImm64 : AsmOperand → Type 0
IsImm64 (imm i) = i < 2 ^ 64
IsImm64 (reg r) = Unit {0}
IsImm64 (mem a) = Unit {0}
IsImm64 (lbl l) = Unit {0}

-- Two registers, or a register and an immediate.
abbrev pub OneReg : AsmOperand → AsmOperand → Type 0
OneReg (reg r) (reg q) = Unit {0}
OneReg (reg r) (imm i) = Unit {0}
OneReg (imm i) (reg r) = Unit {0}
OneReg _ _ = ⊥

-- A register operand is physical, or a virtual register made before.
abbrev pub IsOld : Counters → AsmOperand → Type 0
IsOld c (reg r) = r < c.next_index + 2 ^ 31
IsOld c (mem a) = Unit {0}
IsOld c (imm i) = Unit {0}
IsOld c (lbl l) = Unit {0}

pub run-append :
    (m : Machine) (es fs : List Emission) (s : m.State) → run m (es ++ fs) s ≡ run m fs (run m es s)
unfolding run
run-append m [] fs s = refl
run-append m (use_operand op ∷ es) fs s = run-append m es fs s
run-append m (inst i ∷ es) fs s = run-append m es fs (m.exec i s)
run-append m (call i ∷ es) fs s = run-append m es fs (m.exec i s)
