-- ===== src/Select/X86/Quotients.antt =====
-- The handler of division, which gives RAX as the register of its result.
use remniw.Prelude.{ℕ, ◌+◌, ◌<◌, ◌^◌, ◌≡◌, ◌≢◌, refl, sym, ap, ◌∙◌, List, [], ◌∷◌, some, arith}
use remniw.Asm.Operand.{AsmOperand, AsmInstruction, reg, imm}
use remniw.Asm.LiveRanges.{Emission, use_operand, inst}
use remniw.RegAlloc.Target.X86.{reg_no, rax, rdx}
use remniw.Select.{Counters, pure, ◌>>◌, Select}
use remniw.Select.Fresh.{with_new_virt_reg}
use remniw.Select.Machine.{Machine, value, run, OneReg, IsImm64, signed_quotient}
use remniw.Select.X86.Arith.{handle_sdiv}
use remniw.Select.X86.Create.{
  X86Opcode, opcode_no, create_mov_inst, create_cqto_inst, create_idiv_inst,
}
use remniw.Select.X86.Isa.{IsX86, IsSource64, op2, Divides, Divisible, sign_word}

-- The divisor is not held in a register that the sequence overwrites before it divides.
abbrev pub IsSafeDivisor : AsmOperand → Type 0
IsSafeDivisor (reg r) = (r ≢ reg_no rax) × (r ≢ reg_no rdx)
IsSafeDivisor _ = Unit {0}

abbrev pub rax_no : ℕ
rax_no = reg_no rax

abbrev pub rdx_no : ℕ
rdx_no = reg_no rdx

-- The handler gives RAX, and what it has selected leaves `q` there; of the registers made before only
-- RAX and RDX change.
pub record Divided (m : Machine) (c : Counters) (h : Select ℕ) (s : m.State) (q : ℕ) : Type 0 where
  pub counters : Counters
  pub emissions : List Emission
  pub returns : h c ≡ some (rax_no, counters, emissions)
  pub is : m.read (run m emissions s) rax_no ≡ q
  pub others :
      (r : ℕ)
      → r < c.next_index + 2 ^ 31
      → r ≢ rax_no
      → r ≢ rdx_no
      → m.read (run m emissions s) r ≡ m.read s r
  pub memory : (a : ℕ) → m.load (run m emissions s) a ≡ m.load s a

module _ (m : Machine) (isa : IsX86 m) where
  abbrev cqto_inst : AsmInstruction
  cqto_inst = record { opcode = opcode_no X86Opcode.cqto; operands = [] }

  abbrev idiv_inst : ℕ → AsmInstruction
  idiv_inst r = record { opcode = opcode_no X86Opcode.idiv; operands = reg r ∷ [] }

  -- The dividend goes to RAX, and its sign to RDX.
  record Widened (s t : m.State) (a : ℕ) : Type 0 where
    low : m.read t rax_no ≡ a
    high : m.read t rdx_no ≡ sign_word a
    others : (r : ℕ) → r ≢ rax_no → r ≢ rdx_no → m.read t r ≡ m.read s r
    memory : (x : ℕ) → m.load t x ≡ m.load s x

  widen : AsmOperand → m.State → m.State
  widen x s = m.exec cqto_inst (m.exec (op2 X86Opcode.mov x (reg rax_no)) s)

  widen-Widened :
      (x : AsmOperand) (s : m.State) → IsSource64 x → Widened s (widen x s) (value m s x)
  unfolding widen
  widen-Widened x s word =
      let moved = isa.mov_reg s x rax_no word in
      let wide = isa.cqto_rax (m.exec (op2 X86Opcode.mov x (reg rax_no)) s) in
      record {
        low = wide.others rax_no (λ e. omega (arith, e)) ∙ moved.is;
        high = wide.is ∙ ap sign_word moved.is;
        others = λ r n k. wide.others r k ∙ moved.others r n;
        memory = λ a. wide.memory a ∙ moved.memory a;
      }

  -- IDIV by a register, in such a state.
  divide :
      (s t : m.State) (r a b : ℕ)
      → Widened s t a
      → m.read t r ≡ b
      → Divisible a b
      → Divides m s (m.exec (idiv_inst r) t) (signed_quotient a b)
  divide s t r a b w e d =
      let q = isa.idiv_reg t r (w.high ∙ ap sign_word (sym w.low)) (rw (w.low, e) d) in
      record {
        is = q.is ∙ (rw (w.low, e) refl);
        others = λ x n k. q.others x n k ∙ w.others x n k;
        memory = λ x. q.memory x ∙ w.memory x;
      }

  module _ (c : Counters) (s : m.State) where
    -- Divides, where no new register is needed.
    by_register :
        (h : Select ℕ) (x : AsmOperand) (r b : ℕ) (es : List Emission)
        → h c ≡ some (rax_no, c, es)
        → run m es s ≡ m.exec (idiv_inst r) (widen x s)
        → IsSource64 x
        → m.read (widen x s) r ≡ b
        → Divisible (value m s x) b
        → Divided m c h s (signed_quotient (value m s x) b)
    by_register h x r b es returns runs word e d =
        let q = divide s (widen x s) r (value m s x) b (widen-Widened x s word) e d in
        record {
          counters = c;
          emissions = es;
          returns = returns;
          is = rw runs q.is;
          others = λ y old n k. rw runs (q.others y n k);
          memory = λ y. rw runs (q.memory y);
        }

    unmoved :
        (x : AsmOperand) (r : ℕ)
        → IsSource64 x
        → IsSafeDivisor (reg r)
        → m.read (widen x s) r ≡ m.read s r
    unmoved x r word safe = (widen-Widened x s word).others r safe.0 safe.1

    -- Where one operand at least is a register, immediates are words, the divisor is in neither RAX nor
    -- RDX, a virtual register is left, the divisor is not zero and the quotient is a word: `handleSDIV`
    -- gives RAX, and what it has selected leaves the quotient there and changes, of the registers made
    -- before, only RAX and RDX, and no memory.
    pub handle_sdiv-Divided :
        (x y : AsmOperand)
        → OneReg x y
        → IsImm64 x
        → IsImm64 y
        → IsSafeDivisor y
        → c.next_index < 2 ^ 31
        → Divisible (value m s x) (value m s y)
        → Divided m c (handle_sdiv x y) s (signed_quotient (value m s x) (value m s y))
    unfolding handle_sdiv run widen
    handle_sdiv-Divided (reg a) (reg b) o p q safe room d =
        by_register (handle_sdiv (reg a) (reg b)) (reg a) b (m.read s b) _ refl refl tt
          (unmoved (reg a) b tt safe) d
    handle_sdiv-Divided (imm i) (reg b) o p q safe room d =
        by_register (handle_sdiv (imm i) (reg b)) (imm i) b (m.read s b) _ refl refl p
          (unmoved (imm i) b p safe) d
    handle_sdiv-Divided (reg a) (imm i) o p word safe room d =
        let v = c.next_index + 2 ^ 31 in
        let t = widen (reg a) s in
        let w = widen-Widened (reg a) s tt in
        let moved = isa.mov_reg t (imm i) v word in
        let t' = m.exec (op2 X86Opcode.mov (imm i) (reg v)) t in
        let low = moved.others rax_no (λ e. omega (arith, e)) ∙ w.low in
        let high = moved.others rdx_no (λ e. omega (arith, e)) ∙ w.high in
        let q = isa.idiv_reg t' v (high ∙ ap sign_word (sym low)) (rw (low, moved.is) d) in
        record {
          counters = record c { next_index = c.next_index + 1 };
          emissions =
              use_operand (reg a)
              ∷ use_operand (reg rax_no)
              ∷ inst (op2 X86Opcode.mov (reg a) (reg rax_no))
              ∷ use_operand (reg rax_no)
              ∷ use_operand (reg rdx_no)
              ∷ inst cqto_inst
              ∷ use_operand (imm i)
              ∷ use_operand (reg v)
              ∷ inst (op2 X86Opcode.mov (imm i) (reg v))
              ∷ use_operand (reg v)
              ∷ use_operand (reg rax_no)
              ∷ use_operand (reg rdx_no)
              ∷ inst (idiv_inst v)
              ∷ [];
          returns =
              with_new_virt_reg c
                (λ v. do
                  create_mov_inst (reg a) (reg rax_no)
                  create_cqto_inst
                  create_mov_inst (imm i) (reg v)
                  create_idiv_inst (reg v)
                  pure rax_no)
                room;
          is = q.is ∙ (rw (low, moved.is) refl);
          others = λ r old n k. q.others r n k ∙ moved.others r (λ e. omega arith) ∙ w.others r n k;
          memory = λ x. q.memory x ∙ moved.memory x ∙ w.memory x;
        }
    handle_sdiv-Divided _ _ o p q safe room d = absurd o

    -- A divisor in RAX, which is where `handleSDIV` itself leaves a quotient, is overwritten by the
    -- dividend before the division: where the dividend is a register, or an immediate that is a word, and
    -- is not zero, the result is the dividend divided by itself.
    pub handle_sdiv-rax :
        (x : AsmOperand)
        → OneReg x (reg rax_no)
        → IsImm64 x
        → Divisible (value m s x) (value m s x)
        → Divided m c (handle_sdiv x (reg rax_no)) s (signed_quotient (value m s x) (value m s x))
    unfolding handle_sdiv run widen
    handle_sdiv-rax (reg a) o word d =
        by_register (handle_sdiv (reg a) (reg rax_no)) (reg a) rax_no (m.read s a) _ refl refl tt
          (widen-Widened (reg a) s tt).low d
    handle_sdiv-rax (imm i) o word d =
        by_register (handle_sdiv (imm i) (reg rax_no)) (imm i) rax_no i _ refl refl word
          (widen-Widened (imm i) s word).low d
    handle_sdiv-rax _ o word d = absurd o
