-- ===== src/RegAlloc/Target/Riscv.antt =====
-- codegen/asm/RISCV/RISCVTargetInfo.h: the registers of the target, their numbers, and its answers.
use remniw.Prelude.{ℕ, Bool, List, [], ◌∷◌, length, arith, refl}
use remniw.RegAlloc.Target.{TargetInfo, IsCoherent, contains}
use remniw.RegAlloc.Register.{is_physical_register}
use mathlib.Core.List.{map}

pub data RiscvRegister : Type 0 where
  no_register zero ra sp gp tp t0 t1 t2 fp s1 a0 a1 a2 a3 a4 a5 a6 a7 s2 s3 s4 s5 s6 s7 s8 :
      RiscvRegister
  s9 s10 s11 t3 t4 t5 t6 num_target_regs : RiscvRegister

abbrev pub reg_no : RiscvRegister → ℕ
reg_no no_register = 0
reg_no zero = 1
reg_no ra = 2
reg_no sp = 3
reg_no gp = 4
reg_no tp = 5
reg_no t0 = 6
reg_no t1 = 7
reg_no t2 = 8
reg_no fp = 9
reg_no s1 = 10
reg_no a0 = 11
reg_no a1 = 12
reg_no a2 = 13
reg_no a3 = 14
reg_no a4 = 15
reg_no a5 = 16
reg_no a6 = 17
reg_no a7 = 18
reg_no s2 = 19
reg_no s3 = 20
reg_no s4 = 21
reg_no s5 = 22
reg_no s6 = 23
reg_no s7 = 24
reg_no s8 = 25
reg_no s9 = 26
reg_no s10 = 27
reg_no s11 = 28
reg_no t3 = 29
reg_no t4 = 30
reg_no t5 = 31
reg_no t6 = 32
reg_no num_target_regs = 33

abbrev pub caller_saved_regs : List ℕ
caller_saved_regs =
    map reg_no (ra ∷ t0 ∷ t1 ∷ t2 ∷ a0 ∷ a1 ∷ a2 ∷ a3 ∷ a4 ∷ a5 ∷ a6 ∷ a7 ∷ t3 ∷ t4 ∷ t5 ∷ t6 ∷ [])

abbrev pub callee_saved_regs : List ℕ
callee_saved_regs =
    map reg_no (sp ∷ fp ∷ s1 ∷ s2 ∷ s3 ∷ s4 ∷ s5 ∷ s6 ∷ s7 ∷ s8 ∷ s9 ∷ s10 ∷ s11 ∷ [])

abbrev pub arg_regs : List ℕ
arg_regs = map reg_no (a0 ∷ a1 ∷ a2 ∷ a3 ∷ a4 ∷ a5 ∷ a6 ∷ a7 ∷ [])

abbrev pub free_regs : List ℕ
free_regs = map reg_no (
    t0 ∷ t1 ∷ t2 ∷ s1 ∷ a0 ∷ a1 ∷ a2 ∷ a3 ∷ a4 ∷ a5 ∷ a6 ∷ a7 ∷ s2 ∷ s3 ∷ s4 ∷ s5 ∷ s6 ∷ s7 ∷ s8
    ∷ s9 ∷ s10 ∷ s11 ∷ t3 ∷ t4 ∷ t5 ∷ t6 ∷ [])

abbrev pub is_caller_saved_register : ℕ → Bool
is_caller_saved_register reg = contains caller_saved_regs reg

abbrev pub is_callee_saved_register : ℕ → Bool
is_callee_saved_register reg = contains callee_saved_regs reg

abbrev pub is_arg_register : ℕ → Bool
is_arg_register reg = contains arg_regs reg

abbrev pub riscv_target_info : TargetInfo
riscv_target_info = record {
  get_register_size = 8;
  is_caller_saved_register = is_caller_saved_register;
  is_callee_saved_register = is_callee_saved_register;
  is_arg_register = is_arg_register;
  get_num_caller_saved_registers = length caller_saved_regs;
  get_num_callee_saved_registers = length callee_saved_regs;
  get_num_arg_registers = length arg_regs;
  get_caller_saved_registers = caller_saved_regs;
  get_callee_saved_registers = callee_saved_regs;
  get_arg_registers = arg_regs;
  get_stack_pointer_register = reg_no sp;
  get_frame_pointer_register = reg_no fp;
  get_free_registers_for_register_allocator = free_regs;
}

pub riscv-IsCoherent : IsCoherent riscv_target_info
unfolding is_physical_register
riscv-IsCoherent = record {
  caller_saved = λ reg. ground arith;
  callee_saved = λ reg. ground arith;
  arg = λ reg. ground arith;
  num_caller_saved = refl;
  num_callee_saved = refl;
  num_arg = refl;
  one_side = λ reg. ground arith;
  args_are_caller_saved = λ reg h. ground arith;
  free_is_physical = λ reg h. ground arith;
  free_is_saved = λ reg h. ground arith;
  stack_pointer_is_not_free = refl;
  frame_pointer_is_not_free = refl;
}
