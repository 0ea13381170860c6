-- ===== src/Select/Effects.antt =====
-- What a handler's code does to a processor, and the conditions on operands that the theorems on both
-- targets share.
use remniw.Prelude.{ℕ, ◌+◌, ◌≤◌, ◌<◌, ◌^◌, ◌≡◌, ◌≢◌, refl, ◌⊎◌, some, arith, List}
use remniw.Asm.LiveRanges.{Emission}
use remniw.Asm.Operand.{AsmOperand, MemOp, reg, mem, imm, lbl}
use remniw.RegAlloc.Register.{no_register}
use remniw.Select.{Select, Counters, u64}
use remniw.Select.Machine.{Machine, address, run, Writes}

-- The handler returns a memory operand, and after what it has selected that operand has the address
-- `v`; registers made before keep what they hold.
pub record Addresses (m : Machine) (c : Counters) (h : Select MemOp) (s : m.State) (v : ℕ)
    : Type 0 where
  pub result : MemOp
  pub counters : Counters
  pub emissions : List Emission
  pub returns : h c ≡ some (result, counters, emissions)
  pub is : address m (run m emissions s) result ≡ v
  pub others : (r : ℕ) → r < c.next_index + 2 ^ 31 → m.read (run m emissions s) r ≡ m.read s r
  pub memory : (a : ℕ) → m.load (run m emissions s) a ≡ m.load s a

-- What `getelementptr` starts from, and what it counts by.
abbrev pub base_of : (m : Machine) → m.State → AsmOperand → ℕ
base_of m s (reg r) = m.read s r
base_of m s (mem a) = address m s a
base_of m s _ = 0

abbrev pub index_of : (m : Machine) → m.State → AsmOperand → ℕ
index_of m s (reg r) = m.read s r
index_of m s (imm i) = i
index_of m s _ = 0

-- The overloads, with registers that are registers and were made before.
abbrev pub IsGep : Counters → AsmOperand → AsmOperand → Type 0
IsGep c (mem a) (imm i) = Unit {0}
IsGep c (mem a) (reg r) = (r ≢ no_register) × (r < c.next_index + 2 ^ 31)
IsGep c (reg r) (imm i) = r ≢ no_register
IsGep c (reg r) (reg q) = (r ≢ no_register) × (q ≢ no_register)
IsGep c _ _ = ⊥

-- The handler returns, and what it has selected puts `v` at the address `a` and changes no other
-- memory, and of the registers none that was made before.
pub record Puts (m : Machine) (c c' : Counters) (h : Select (Unit {0})) (s : m.State) (a v : ℕ)
    : Type 0 where
  pub emissions : List Emission
  pub returns : h c ≡ some (tt, c', emissions)
  pub is : m.load (run m emissions s) a ≡ v
  pub others : (b : ℕ) → (a + 8 ≤ b) ⊎ (b + 8 ≤ a) → m.load (run m emissions s) b ≡ m.load s b
  pub registers : (r : ℕ) → r < c.next_index + 2 ^ 31 → m.read (run m emissions s) r ≡ m.read s r

-- An operand that a load or a store goes through, and the registers in it.
abbrev pub IsPlace : AsmOperand → Type 0
IsPlace (mem a) = Unit {0}
IsPlace (reg r) = r ≢ no_register
IsPlace _ = ⊥

abbrev pub place : (m : Machine) → m.State → AsmOperand → ℕ
place m s (mem a) = address m s a
place m s (reg r) = u64 (m.read s r)
place m s _ = 0

-- A memory operand stands for its address, where it is what is stored or passed.
abbrev pub meant : (m : Machine) → m.State → AsmOperand → ℕ
meant m s (mem a) = address m s a
meant m s (reg r) = m.read s r
meant m s (imm i) = i
meant m s (lbl l) = m.symbol l

-- The registers of a memory operand were made before.
abbrev pub IsOldMem : Counters → MemOp → Type 0
IsOldMem c a = (a.base_reg < c.next_index + 2 ^ 31) × (a.index_reg < c.next_index + 2 ^ 31)

abbrev pub IsOldPlace : Counters → AsmOperand → Type 0
IsOldPlace c (mem a) = IsOldMem c a
IsOldPlace c _ = Unit {0}

-- The handler returns, and what it has selected puts `v` in the register `d` and changes nothing
-- else.
pub record Passes (m : Machine) (c : Counters) (h : Select (Unit {0})) (s : m.State) (d v : ℕ)
    : Type 0 where
  pub emissions : List Emission
  pub returns : h c ≡ some (tt, c, emissions)
  pub writes : Writes m s (run m emissions s) d v

abbrev pub advanced : Counters → ℕ → Counters
advanced c size = record c { call_arg_offset = u64 (c.call_arg_offset + size) }

abbrev pub IsRegOrImm : AsmOperand → Type 0
IsRegOrImm (reg r) = Unit {0}
IsRegOrImm (imm i) = Unit {0}
IsRegOrImm _ = ⊥

module _ (m : Machine) (c : Counters) where
  abbrev pub next_counters : Counters
  next_counters = record c { next_index = c.next_index + 1 }

  abbrev pub new_reg : ℕ
  new_reg = c.next_index + 2 ^ 31

  -- A new register changes no address.
  pub old_address :
      (s t : m.State) (a : MemOp) (v : ℕ)
      → Writes m s t new_reg v
      → IsOldMem c a
      → address m t a ≡ address m s a
  old_address s t a v w (ob, oi) =
      let base = w.others a.base_reg (λ e. omega arith) in
      let index = w.others a.index_reg (λ e. omega arith) in rw (base, index) refl
