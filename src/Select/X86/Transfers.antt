-- ===== src/Select/X86/Transfers.antt =====
-- The handlers of loads, stores and arguments move what they should.
use remniw.Prelude.{ℕ, ◌+◌, ◌<◌, ◌^◌, ◌≡◌, ◌≢◌, refl, ◌∙◌, [], ◌∷◌, arith}
use remniw.Asm.LiveRanges.{use_operand, inst}
use remniw.Asm.Operand.{AsmOperand, MemOp, reg, mem, imm, lbl}
use remniw.RegAlloc.Register.{no_register}
use remniw.Select.{Select, Counters, new_virt_reg, u64, base_mem, pure, ◌>>=◌, ◌>>◌}
use remniw.Select.Effects.{Puts, IsPlace, place, meant, IsOldMem, IsOldPlace, old_address}
use remniw.Select.Fresh.{with_new_virt_reg}
use remniw.Select.Machine.{Machine, address, run, Writes, Stores, Computes, IsImm32}
use remniw.Select.X86.Create.{X86Opcode, create_two, create_lea_inst, create_mov_inst}
use remniw.Select.X86.Isa.{IsX86, op2}
use remniw.Select.X86.Memory.{handle_load, handle_store}

-- The overloads of `handleSTORE`.
abbrev pub IsStore : AsmOperand → AsmOperand → Type 0
IsStore (reg r) (mem a) = Unit {0}
IsStore (reg r) (reg q) = q ≢ no_register
IsStore (imm i) (mem a) = IsImm32 (imm i)
IsStore (imm i) (reg q) = (q ≢ no_register) × IsImm32 (imm i)
IsStore (mem b) (mem a) = Unit {0}
IsStore (lbl l) (mem a) = Unit {0}
IsStore _ _ = ⊥

module _ (m : Machine) (isa : IsX86 m) (c : Counters) where
  abbrev next_counters : Counters
  next_counters = record c { next_index = c.next_index + 1 }

  abbrev new_reg : ℕ
  new_reg = c.next_index + 2 ^ 31

  base_address :
      (s : m.State) (r : ℕ) → r ≢ no_register → address m s (base_mem 0 r) ≡ u64 (m.read s r)
  base_address s r n = ground arith

  -- `handleLOAD` leaves the word at the place in a new register.
  pub handle_load-Computes :
      (x : AsmOperand)
      → IsPlace x
      → c.next_index < 2 ^ 31
      → Computes m (handle_load x) c (λ s. m.load s (place m s x))
  unfolding handle_load run
  handle_load-Computes (mem a) p room = record {
    result = new_reg;
    counters = next_counters;
    emissions =
        use_operand (mem a)
        ∷ use_operand (reg new_reg)
        ∷ inst (op2 X86Opcode.mov (mem a) (reg new_reg))
        ∷ [];
    returns = with_new_virt_reg c (λ v. do create_mov_inst (mem a) (reg v); pure v) room;
    writes = λ s. isa.mov_reg s (mem a) new_reg tt;
  }
  handle_load-Computes (reg r) n room = record {
    result = new_reg;
    counters = next_counters;
    emissions =
        use_operand (mem (base_mem 0 r))
        ∷ use_operand (reg new_reg)
        ∷ inst (op2 X86Opcode.mov (mem (base_mem 0 r)) (reg new_reg))
        ∷ [];
    returns =
        with_new_virt_reg c (λ v. do create_mov_inst (mem (base_mem 0 r)) (reg v); pure v) room;
    writes = λ s. rw (← base_address s r n) (isa.mov_reg s (mem (base_mem 0 r)) new_reg tt);
  }
  handle_load-Computes _ p room = absurd p

  -- One store, and no new register.
  by_store :
      (h : Select (Unit {0})) (s : m.State) (x y : AsmOperand) (a v : ℕ)
      → h c ≡ create_mov_inst x y c
      → Stores m s (m.exec (op2 X86Opcode.mov x y) s) a v
      → Puts m c c h s a v
  unfolding create_mov_inst run
  by_store h s x y a v e w = record {
    emissions = use_operand x ∷ use_operand y ∷ inst (op2 X86Opcode.mov x y) ∷ [];
    returns = e;
    is = w.is;
    others = w.others;
    registers = λ r old. w.registers r;
  }

  -- A value goes to a new register by the first instruction, and from there to memory.
  by_new_register :
      (h : Select (Unit {0})) (s : m.State) (o : X86Opcode) (x : AsmOperand) (a : MemOp) (v : ℕ)
      → h c ≡ (new_virt_reg >>= λ r. do create_two o x (reg r); create_mov_inst (reg r) (mem a)) c
      → c.next_index < 2 ^ 31
      → Writes m s (m.exec (op2 o x (reg new_reg)) s) new_reg v
      → IsOldMem c a
      → Puts m c next_counters h s (address m s a) v
  unfolding create_mov_inst run
  by_new_register h s o x a v e room w old =
      let t = m.exec (op2 o x (reg new_reg)) s in
      let stored = isa.mov_reg_mem t new_reg a in
      let same = old_address m c s t a v w old in
      record {
        emissions =
            use_operand x
            ∷ use_operand (reg new_reg)
            ∷ inst (op2 o x (reg new_reg))
            ∷ use_operand (reg new_reg)
            ∷ use_operand (mem a)
            ∷ inst (op2 X86Opcode.mov (reg new_reg) (mem a))
            ∷ [];
        returns =
            e
            ∙ with_new_virt_reg c (λ r. do create_two o x (reg r); create_mov_inst (reg r) (mem a))
                room;
        is = rw (← same) stored.is ∙ w.is;
        others = λ b apart. stored.others b (rw same apart) ∙ w.memory b;
        registers = λ r o'. stored.registers r ∙ w.others r (λ p. omega arith);
      }

  -- Whether a store needs a new register.
  abbrev pub counters_after : AsmOperand → Counters
  counters_after (mem b) = next_counters
  counters_after (lbl l) = next_counters
  counters_after _ = c

  -- Where immediates are of 32 bits, the place is a memory operand whose registers were made before or,
  -- for a register or an immediate, a register other than `NoRegister`, and a virtual register is left:
  -- `handleSTORE` puts the value of a register or an immediate, or the address of a memory operand or a
  -- label, at that place, and changes no other word of memory and no register made before.
  pub handle_store-Puts :
      (x y : AsmOperand) (s : m.State)
      → IsStore x y
      → IsOldPlace c y
      → c.next_index < 2 ^ 31
      → Puts m c (counters_after x) (handle_store x y) s (place m s y) (meant m s x)
  unfolding handle_store create_mov_inst create_lea_inst
  handle_store-Puts (reg r) (mem a) s o old room =
      by_store (handle_store (reg r) (mem a)) s (reg r) (mem a) _ _ refl (isa.mov_reg_mem s r a)
  handle_store-Puts (reg r) (reg q) s n old room =
      by_store (handle_store (reg r) (reg q)) s (reg r) (mem (base_mem 0 q)) _ _ refl
        (rw (← base_address s q n) (isa.mov_reg_mem s r (base_mem 0 q)))
  handle_store-Puts (imm i) (mem a) s o old room =
      by_store (handle_store (imm i) (mem a)) s (imm i) (mem a) _ _ refl (isa.mov_imm_mem s i a o)
  handle_store-Puts (imm i) (reg q) s (n, o) old room =
      by_store (handle_store (imm i) (reg q)) s (imm i) (mem (base_mem 0 q)) _ _ refl
        (rw (← base_address s q n) (isa.mov_imm_mem s i (base_mem 0 q) o))
  handle_store-Puts (mem b) (mem a) s o old room =
      by_new_register (handle_store (mem b) (mem a)) s X86Opcode.lea (mem b) a _ refl room
        (isa.lea_mem s b new_reg) old
  handle_store-Puts (lbl l) (mem a) s o old room =
      by_new_register (handle_store (lbl l) (mem a)) s X86Opcode.lea (lbl l) a _ refl room
        (isa.lea_lbl s l new_reg) old
  handle_store-Puts _ _ s o old room = absurd o
