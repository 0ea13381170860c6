-- ===== src/Tests/Cells.antt =====
-- Registers and memory of 64-bit words, for the processors of the tests.
use native.Mathlib.Nat.{div-le_self}
use remniw.Prelude.{ℕ, ◌+◌, ◌*◌, ◌/◌, ◌≤◌, ◌<◌, ◌^◌, refl, arith, ◌==◌, if◌then◌else◌}
use remniw.Select.{u64}
use remniw.Asm.Operand.{AsmInstruction}
use remniw.Select.Machine.{Machine, Writes, Stores, magnitude, signed_quotient}

pub record Cells : Type 0 where
  pub regs : ℕ → ℕ
  pub words : ℕ → ℕ

-- What a cell holds is read as a word.
abbrev pub read : Cells → ℕ → ℕ
read s r = u64 (s.regs r)

abbrev pub load : Cells → ℕ → ℕ
load s a = u64 (s.words a)

-- What is observed, with no instructions.
abbrev pub idle : Machine
idle = record {
  State = Cells;
  read = read;
  load = load;
  object = λ i. u64 (4096 + 8 * i);
  symbol = λ l. u64 (65536 + l);
  exec = λ i s. s;
}

abbrev pub write : ℕ → ℕ → Cells → Cells
write d v s = record s { regs = λ r. if r == d then v else s.regs r }

abbrev pub store : ℕ → ℕ → Cells → Cells
store a v s = record s { words = λ b. if b == a then v else s.words b }

-- A quotient of words is a word.
pub signed_quotient_word : (a b : ℕ) → a < 2 ^ 64 → signed_quotient a b < 2 ^ 64
signed_quotient_word a b word =
    let q : magnitude a / magnitude b ≤ magnitude a = div-le_self (magnitude a) (magnitude b) in
    ground (arith, q)

module _ (exec : AsmInstruction → Cells → Cells) where
  abbrev running : Machine
  running = record idle { exec = exec }

  pub write-Writes : (s : Cells) (d v : ℕ) → v < 2 ^ 64 → Writes running s (write d v s) d v
  write-Writes s d v word = record {
    is = ground arith;
    others = λ r n. ground arith;
    memory = λ a. refl;
  }

  pub store-Stores : (s : Cells) (a v : ℕ) → v < 2 ^ 64 → Stores running s (store a v s) a v
  store-Stores s a v word = record {
    is = ground arith;
    others = λ b apart. ground arith;
    registers = λ r. refl;
  }
