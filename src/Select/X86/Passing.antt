-- ===== src/Select/X86/Passing.antt =====
-- Arguments of calls: the first six in registers, the others on the stack.
use remniw.Prelude.{ℕ, ◌+◌, ◌≤◌, ◌<◌, ◌^◌, refl, ◌∙◌, arith, lt→ltb, le→ltb, ◌++◌, get_or}
use remniw.Asm.Operand.{AsmOperand, MemOp, reg, mem, imm, lbl}
use remniw.RegAlloc.Register.{no_register}
use remniw.RegAlloc.Target.X86.{reg_no, rsp, arg_regs}
use remniw.Select.{Counters, base_mem, ◌>>=◌, ◌>>◌, call_arg_offset, advance_call_arg_offset}
use remniw.Select.Effects.{Puts, Passes, advanced, IsRegOrImm, meant, old_address}
use remniw.Select.Fresh.{with_new_virt_reg}
use remniw.Select.Machine.{Machine, address, value, run, IsImm32, IsImm64}
use remniw.Select.X86.Control.{handle_arg, arg_reg}
use remniw.Select.X86.Create.{X86Opcode, create_mov_inst}
use remniw.Select.X86.Isa.{IsX86, op2, two_steps}

-- The place on the stack that comes next.
abbrev pub next_slot : Counters → MemOp
next_slot c = base_mem c.call_arg_offset (reg_no rsp)

module _ (m : Machine) (isa : IsX86 m) (c : Counters) (arg_no size : ℕ) where
  -- One of the first six arguments is put in its register, and nothing else changes: the value of a
  -- register or of an immediate that is a word, the address of a memory operand or a label.
  pub handle_arg-register :
      (x : AsmOperand) (s : m.State)
      → IsImm64 x
      → arg_no < 6
      → Passes m c (handle_arg arg_no size x) s (get_or arg_regs arg_no no_register) (meant m s x)
  unfolding handle_arg run
  handle_arg-register (reg r) s word h = record {
    emissions = two_steps X86Opcode.mov (reg r) (arg_reg arg_no);
    returns = rw (lt→ltb arg_no 6 h) refl;
    writes = isa.mov_reg s (reg r) _ tt;
  }
  handle_arg-register (imm i) s word h = record {
    emissions = two_steps X86Opcode.mov (imm i) (arg_reg arg_no);
    returns = rw (lt→ltb arg_no 6 h) refl;
    writes = isa.mov_reg s (imm i) _ word;
  }
  handle_arg-register (mem a) s word h = record {
    emissions = two_steps X86Opcode.lea (mem a) (arg_reg arg_no);
    returns = rw (lt→ltb arg_no 6 h) refl;
    writes = isa.lea_mem s a _;
  }
  handle_arg-register (lbl l) s word h = record {
    emissions = two_steps X86Opcode.lea (lbl l) (arg_reg arg_no);
    returns = rw (lt→ltb arg_no 6 h) refl;
    writes = isa.lea_lbl s l _;
  }

  handle_arg-stack_register :
      (r : ℕ) (s : m.State)
      → 6 ≤ arg_no
      → Puts m c
          (advanced c size)
          (handle_arg arg_no size (reg r))
          s
          (address m s (next_slot c))
          (m.read s r)
  unfolding handle_arg run
  handle_arg-stack_register r s h =
      let stored = isa.mov_reg_mem s r (next_slot c) in
      record {
        emissions = two_steps X86Opcode.mov (reg r) (mem (next_slot c));
        returns = rw (le→ltb arg_no 6 h) refl;
        is = stored.is;
        others = stored.others;
        registers = λ q old. stored.registers q;
      }

  handle_arg-stack_immediate :
      (i : ℕ) (s : m.State)
      → 6 ≤ arg_no
      → IsImm32 (imm i)
      → Puts m c (advanced c size) (handle_arg arg_no size (imm i)) s (address m s (next_slot c)) i
  unfolding handle_arg run
  handle_arg-stack_immediate i s h small =
      let stored = isa.mov_imm_mem s i (next_slot c) small in
      record {
        emissions = two_steps X86Opcode.mov (imm i) (mem (next_slot c));
        returns = rw (le→ltb arg_no 6 h) refl;
        is = stored.is;
        others = stored.others;
        registers = λ q old. stored.registers q;
      }

  -- Any other argument that is a register or an immediate of 32 bits is put at the next place on the
  -- stack, no other word of memory and no register made before changes, and the offset moves on by its
  -- size.
  pub handle_arg-stack :
      (x : AsmOperand) (s : m.State)
      → IsRegOrImm x
      → IsImm32 x
      → 6 ≤ arg_no
      → Puts m c
          (advanced c size)
          (handle_arg arg_no size x)
          s
          (address m s (next_slot c))
          (value m s x)
  handle_arg-stack (reg r) s k small h = handle_arg-stack_register r s h
  handle_arg-stack (imm i) s k small h = handle_arg-stack_immediate i s h small
  handle_arg-stack (mem a) s k small h = absurd k
  handle_arg-stack (lbl l) s k small h = absurd k

  -- Of a memory operand that is not among the first six arguments the contents are put on the stack,
  -- where a virtual register is left, and the offset moves on by its size; no other word of memory and no
  -- register made before changes.
  pub handle_arg-stack_memory :
      (a : MemOp) (s : m.State)
      → 6 ≤ arg_no
      → c.next_index < 2 ^ 31
      → Puts m c
          (record (advanced c size) { next_index = c.next_index + 1 })
          (handle_arg arg_no size (mem a))
          s
          (address m s (next_slot c))
          (m.load s (address m s a))
  unfolding handle_arg run
  handle_arg-stack_memory a s h room =
      let v = c.next_index + 2 ^ 31 in
      let loaded = isa.mov_reg s (mem a) v tt in
      let t = m.exec (op2 X86Opcode.mov (mem a) (reg v)) s in
      let stored = isa.mov_reg_mem t v (next_slot c) in
      let same = old_address m c s t (next_slot c) _ loaded (omega arith, omega arith) in
      record {
        emissions =
            two_steps X86Opcode.mov (mem a) (reg v)
            ++ two_steps X86Opcode.mov (reg v) (mem (next_slot c));
        returns = rw (le→ltb arg_no 6 h) (
            with_new_virt_reg c
              (λ r. do
                create_mov_inst (mem a) (reg r)
                offset ← call_arg_offset
                create_mov_inst (reg r) (mem (base_mem offset (reg_no rsp)))
                advance_call_arg_offset size)
              room);
        is = rw (← same) stored.is ∙ loaded.is;
        others = λ b apart. stored.others b (rw same apart) ∙ loaded.memory b;
        registers = λ r old. stored.registers r ∙ loaded.others r (λ p. omega arith);
      }
