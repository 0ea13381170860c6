-- ===== src/Select/Riscv/Elements.antt =====
-- The handlers of `getelementptr` give a memory operand with the address of the element.
use remniw.Prelude.{ℕ, ◌+◌, ◌*◌, ◌<◌, ◌^◌, ◌≡◌, ◌≢◌, refl, ◌∙◌, List, [], ◌∷◌, ◌++◌, some, arith}
use remniw.Asm.LiveRanges.{Emission, use_operand, inst}
use remniw.Asm.Operand.{AsmOperand, MemOp, reg, mem, imm}
use remniw.RegAlloc.Register.{no_register}
use remniw.Select.{Select, Counters, u64, base_mem, new_virt_reg, pure, ◌>>=◌, ◌>>◌}
use remniw.Select.Effects.{Addresses, base_of, index_of, next_counters}
use remniw.Select.Fresh.{new_virt_reg_lem, then_some}
use remniw.Select.Machine.{Machine, address, run, run-append, Writes}
use remniw.Select.Riscv.Addresses.{Sets, IsPlain, store_memory-Sets}
use remniw.Select.Riscv.Create.{
  RiscvOpcode, create_li_inst, create_mul_inst, create_add_inst, store_memory_address_to_reg,
}
use remniw.Select.Riscv.Isa.{IsRiscv, op2, op3, zero_no}
use remniw.Select.Riscv.Memory.{handle_getelementptr}

module _ (m : Machine) (isa : IsRiscv m) (size : ℕ) (small : size < 2 ^ 32) where
  -- The size times the register `r`, plus the register `b`, into the register `v`.
  scaled : ℕ → ℕ → ℕ → Select MemOp
  scaled v r b = do
    create_li_inst (reg v) (imm size)
    create_mul_inst (reg v) (reg v) (reg r)
    create_add_inst (reg v) (reg v) (reg b)
    pure (base_mem 0 v)

  abbrev scaled_steps : ℕ → ℕ → ℕ → List Emission
  scaled_steps v r b =
      use_operand (reg v)
      ∷ inst (op2 RiscvOpcode.li (reg v) (imm size))
      ∷ use_operand (reg v)
      ∷ use_operand (reg v)
      ∷ use_operand (reg r)
      ∷ inst (op3 RiscvOpcode.mul (reg v) (reg v) (reg r))
      ∷ use_operand (reg v)
      ∷ use_operand (reg v)
      ∷ use_operand (reg b)
      ∷ inst (op3 RiscvOpcode.add (reg v) (reg v) (reg b))
      ∷ []

  scaled-returns :
      (v r b : ℕ) (c : Counters) → scaled v r b c ≡ some (base_mem 0 v, c, scaled_steps v r b)
  unfolding scaled create_li_inst create_mul_inst create_add_inst
  scaled-returns v r b c = refl

  scaled-Writes :
      (s : m.State) (v r b : ℕ)
      → v ≢ zero_no
      → r ≢ v
      → b ≢ v
      → Writes m s (run m (scaled_steps v r b) s) v (u64 (m.read s b + size * m.read s r))
  unfolding run
  scaled-Writes s v r b nz nr nb =
      let t = m.exec (op2 RiscvOpcode.li (reg v) (imm size)) s in
      let u = m.exec (op3 RiscvOpcode.mul (reg v) (reg v) (reg r)) t in
      let loaded = isa.li_imm s v size nz (omega arith) in
      let scaled_by = isa.mul_op t v v r nz in
      let added = isa.add_op u v v b nz in
      let product : m.read u v ≡ u64 (size * m.read s r) =
        scaled_by.is ∙ (rw (loaded.is, loaded.others r nr) refl) in
      let base : m.read u b ≡ m.read s b = scaled_by.others b nb ∙ loaded.others b nb in
      record {
        is = added.is ∙ (rw (product, base) (omega arith));
        others = λ q n. added.others q n ∙ scaled_by.others q n ∙ loaded.others q n;
        memory = λ a. added.memory a ∙ scaled_by.memory a ∙ loaded.memory a;
      }

  base_address :
      (s : m.State) (v : ℕ) (d w : ℕ)
      → v ≢ no_register
      → m.read s v ≡ w
      → address m s (base_mem d v) ≡ u64 (d + w)
  base_address s v d w n e = ground (arith, e)

  -- The overloads, with operands that can be used while new registers are made.
  abbrev pub IsRiscvGep : Counters → AsmOperand → AsmOperand → Type 0
  IsRiscvGep c (mem a) (imm i) = IsPlain c (c.next_index + 2 ^ 31) a
  IsRiscvGep c (mem a) (reg r) = IsPlain c (c.next_index + 2 ^ 31) a × (r < c.next_index + 2 ^ 31)
  IsRiscvGep c (reg r) (imm i) = r ≢ no_register
  IsRiscvGep c (reg r) (reg q) = (r < c.next_index + 2 ^ 31) × (q < c.next_index + 2 ^ 31)
  IsRiscvGep c _ _ = ⊥

  module _ (c : Counters) (s : m.State) (room : c.next_index + 2 < 2 ^ 31) where
    abbrev c1 : Counters
    c1 = next_counters m c

    abbrev v1 : ℕ
    v1 = c.next_index + 2 ^ 31

    later : (a : MemOp) → IsPlain c v1 a → IsPlain c1 v1 a
    later a (k, i, b, old, n, word) = (k, i, b, omega arith, n, word)

    -- The address of the base in a new register.
    base_set :
        (a : MemOp)
        → IsPlain c v1 a
        → Sets m c1 (store_memory_address_to_reg a v1) s v1 (address m s a)
    base_set a plain =
        store_memory-Sets m isa c1 (omega arith) s a v1 (later a plain) (omega arith)
          (λ e. omega (arith, e))

    mem_imm :
        (a : MemOp) (i : ℕ)
        → IsPlain c v1 a
        → Addresses m c
            (handle_getelementptr size (mem a) (imm i))
            s
            (u64 (address m s a + size * i))
    unfolding handle_getelementptr run
    mem_imm a i plain =
        let set = base_set a plain in
        record {
          result = base_mem (u64 (size * i)) v1;
          counters = set.counters;
          emissions = [] ++ (set.emissions ++ []);
          returns =
              then_some new_virt_reg
                (λ v. do store_memory_address_to_reg a v; pure (base_mem (u64 (size * i)) v)) c c1 _
                v1 _ [] _ (new_virt_reg_lem c (omega arith))
                (then_some (store_memory_address_to_reg a v1)
                  (λ _. pure (base_mem (u64 (size * i)) v1)) c1 _ _ tt _ set.emissions []
                  set.returns refl);
          is = rw (run-append m set.emissions [] s) (
              base_address (run m set.emissions s) v1 (u64 (size * i)) (address m s a)
                (λ e. omega (arith, e)) set.is
              ∙ omega arith);
          others = λ r old.
              rw (run-append m set.emissions [] s) (set.others r (omega arith) (λ e. omega arith));
          memory = λ x. rw (run-append m set.emissions [] s) (set.memory x);
        }

    mem_reg :
        (a : MemOp) (r : ℕ)
        → IsPlain c v1 a
        → r < c.next_index + 2 ^ 31
        → Addresses m c
            (handle_getelementptr size (mem a) (reg r))
            s
            (u64 (address m s a + size * m.read s r))
    unfolding handle_getelementptr scaled
    mem_reg a r plain old =
        let set = base_set a plain in
        let c2 = set.counters in
        let v2 = c2.next_index + 2 ^ 31 in
        let t = run m set.emissions s in
        let index = set.others r (omega arith) (λ e. omega arith) in
        let w =
          scaled-Writes t v2 r v1 (λ e. omega (arith, e)) (λ e. omega (arith, set.keeps))
            (λ e. omega (arith, set.keeps)) in
        let split = run-append m set.emissions (scaled_steps v2 r v1) s in
        record {
          result = base_mem 0 v2;
          counters = next_counters m c2;
          emissions = [] ++ (set.emissions ++ ([] ++ scaled_steps v2 r v1));
          returns =
              then_some new_virt_reg
                (λ v. do store_memory_address_to_reg a v; v' ← new_virt_reg; scaled v' r v) c c1 _
                v1 _ [] _ (new_virt_reg_lem c (omega arith))
                (then_some (store_memory_address_to_reg a v1)
                  (λ _. new_virt_reg >>= λ v'. scaled v' r v1) c1 c2 _ tt _ set.emissions _
                  set.returns
                  (then_some new_virt_reg (λ v'. scaled v' r v1) c2 _ _ v2 _ [] _
                    (new_virt_reg_lem c2 (omega (arith, set.made)))
                    (scaled-returns v2 r v1 (next_counters m c2))));
          is = rw split (
              base_address (run m (scaled_steps v2 r v1) t) v2 0
                (u64 (address m s a + size * m.read s r)) (λ e. omega (arith, e))
                (w.is ∙ (rw (set.is, index) refl))
              ∙ omega arith);
          others = λ q old_q. rw split (
              w.others q (λ e. omega (arith, set.keeps))
              ∙ set.others q (omega arith) (λ e. omega arith));
          memory = λ x. rw split (w.memory x ∙ set.memory x);
        }

    reg_reg :
        (r q : ℕ)
        → r < c.next_index + 2 ^ 31
        → q < c.next_index + 2 ^ 31
        → Addresses m c
            (handle_getelementptr size (reg r) (reg q))
            s
            (u64 (m.read s r + size * m.read s q))
    unfolding handle_getelementptr scaled
    reg_reg r q old_r old_q =
        let w =
          scaled-Writes s v1 q r (λ e. omega (arith, e)) (λ e. omega arith) (λ e. omega arith) in
        record {
          result = base_mem 0 v1;
          counters = c1;
          emissions = [] ++ scaled_steps v1 q r;
          returns =
              then_some new_virt_reg (λ v. scaled v q r) c c1 _ v1 _ [] _
                (new_virt_reg_lem c (omega arith)) (scaled-returns v1 q r c1);
          is =
              base_address (run m (scaled_steps v1 q r) s) v1 0
                (u64 (m.read s r + size * m.read s q)) (λ e. omega (arith, e)) w.is
              ∙ omega arith;
          others = λ x old. w.others x (λ e. omega arith);
          memory = w.memory;
        }

    reg_imm :
        (r i : ℕ)
        → r ≢ no_register
        → Addresses m c (handle_getelementptr size (reg r) (imm i)) s (u64 (m.read s r + size * i))
    unfolding handle_getelementptr run
    reg_imm r i n = record {
      result = base_mem (u64 (size * i)) r;
      counters = c;
      emissions = [];
      returns = refl;
      is = base_address s r (u64 (size * i)) (m.read s r) n refl ∙ omega arith;
      others = λ x old. refl;
      memory = λ x. refl;
    }

    -- Where a size is of 32 bits, three more virtual registers can be made, and a base is a register or
    -- an operand that is not a stack object but a register made before with an offset that is a word: on every such
    -- overload `handleGETELEMENTPTR` gives an operand with the address of the base plus the size times
    -- the index, in words of 64 bits, and changes no register made before and no memory. A base or index
    -- register was made before where it is read after a new one is written, and a base that becomes part
    -- of the operand is not `NoRegister`.
    pub handle_getelementptr-Addresses_riscv :
        (x y : AsmOperand)
        → IsRiscvGep c x y
        → Addresses m c
            (handle_getelementptr size x y)
            s
            (u64 (base_of m s x + size * index_of m s y))
    handle_getelementptr-Addresses_riscv (mem a) (imm i) plain = mem_imm a i plain
    handle_getelementptr-Addresses_riscv (mem a) (reg r) (plain, old) = mem_reg a r plain old
    handle_getelementptr-Addresses_riscv (reg r) (imm i) n = reg_imm r i n
    handle_getelementptr-Addresses_riscv (reg r) (reg q) (old_r, old_q) = reg_reg r q old_r old_q
    handle_getelementptr-Addresses_riscv _ _ g = absurd g
