-- ===== src/Select.antt =====
-- Instruction selection, codegen/asm/X86/X86AsmBuilder.cpp and RISCV/RISCVAsmBuilder.cpp: what each
-- handler does to the function that is built is a sequence of the steps of `Asm.LiveRanges`.
-- A handler that the source overloads by the kinds of its operands is one function by clauses on
-- them; `none` is an assertion that fails, `llvm_unreachable`, or kinds with no overload.
pub mod Machine
pub mod Fresh
pub mod Effects
pub mod X86
pub mod Riscv
use remniw.Prelude.{ℕ, ◌+◌, ◌-◌, ◌%◌, ◌^◌, List, [], ◌∷◌, ◌++◌, Option, none, some}
use remniw.Asm.LiveRanges.{Emission, use_operand, inst, call}
use remniw.Asm.Operand.{AsmOperand, AsmInstruction, MemOp}
pub use remniw.Prelude.Bits.{u64}
use remniw.RegAlloc.Register.{no_register, create_virt_reg}

-- The counter of `Register::createVirtReg`, and `CallArgOffsetFromStackPointer`.
pub record Counters : Type 0 where
  pub next_index : ℕ
  pub call_arg_offset : ℕ

-- A handler gives its result, the counters, and the steps that it takes.
abbrev pub Select : Type 0 → Type 0
Select A = Counters → Option (A × Counters × List Emission)

abbrev pub pure : {A : Type 0} → A → Select A
pure a c = some (a, c, [])

-- What follows a handler that has returned.
abbrev pub after :
    {A B : Type 0}
    → (A → Select B)
    → A × Counters × List Emission
    → Option (B × Counters × List Emission)
after f (a, c, es) = elim (f a c) [ none ↦ none | some (b, c', fs) ↦ some (b, c', es ++ fs) ]

infixl 5 ◌>>=◌ ◌>>◌
abbrev pub ◌>>=◌ : {A B : Type 0} → Select A → (A → Select B) → Select B
◌>>=◌ m f c = elim (m c) [ none ↦ none | some r ↦ after f r ]

abbrev pub ◌>>◌ : {A B : Type 0} → Select A → Select B → Select B
m >> k = m >>= λ _. k

abbrev pub fail : {A : Type 0} → Select A
fail c = none

abbrev pub step : Emission → Select (Unit {0})
step e c = some (tt, c, e ∷ [])

abbrev pub update_operand : AsmOperand → Select (Unit {0})
update_operand op = step (use_operand op)

-- `AsmInstruction::create` at the end of the function, with the operands that are added to it.
abbrev pub create : ℕ → List AsmOperand → Select (Unit {0})
create op ops = step (inst (record { opcode = op; operands = ops }))

-- The same for a call, whose index is recorded.
abbrev pub create_call : ℕ → List AsmOperand → Select (Unit {0})
create_call op ops = step (call (record { opcode = op; operands = ops }))

-- `Register::createVirtReg`
unfoldable pub new_virt_reg : Select ℕ
new_virt_reg c =
    let (made, next) = create_virt_reg c.next_index in
    elim made [ none ↦ none | some reg_no ↦ some (reg_no, record c { next_index = next }, []) ]

-- `CallArgOffsetFromStackPointer` is read, and moved on.
abbrev pub call_arg_offset : Select ℕ
call_arg_offset c = some (c.call_arg_offset, c, [])

abbrev pub advance_call_arg_offset : ℕ → Select (Unit {0})
advance_call_arg_offset size c =
    some (tt, record c { call_arg_offset = u64 (c.call_arg_offset + size) }, [])

abbrev pub reset_call_arg_offset : Select (Unit {0})
reset_call_arg_offset c = some (tt, record c { call_arg_offset = 0 }, [])

abbrev pub no_stack_object : ℕ
no_stack_object = 2 ^ 32 - 1

-- `createMem`
abbrev pub create_mem : ℕ → ℕ → ℕ → ℕ → MemOp
create_mem d b i s = record {
  disp = d;
  base_reg = b;
  index_reg = i;
  scale = s;
  stack_object_index = no_stack_object;
}

-- `createMem` with its default index and scale.
abbrev pub base_mem : ℕ → ℕ → MemOp
base_mem d b = create_mem d b no_register 1

abbrev pub create_stack_object : ℕ → MemOp
create_stack_object i = record (base_mem 0 no_register) { stack_object_index = i }

-- `CmpInst::Predicate`, as far as it is handled.
pub data Predicate : Type 0 where
  icmp_eq icmp_ne icmp_sgt icmp_other : Predicate
