-- ===== src/RegAlloc/Target/X86.antt =====
-- codegen/asm/X86/X86TargetInfo.h: the registers of the target, their numbers, and its answers.
use remniw.Prelude.{ℕ, Bool, List, [], ◌∷◌, ◌&&◌, leb, length, arith, refl}
use remniw.RegAlloc.Target.{TargetInfo, IsCoherent}
use remniw.RegAlloc.Register.{is_physical_register}
use mathlib.Core.List.{map}

pub data X86Register : Type 0 where
  no_register rax rdi rsi rdx rcx r8 r9 r10 r11 rsp rbp rbx r12 r13 r14 r15 : X86Register
  num_target_regs : X86Register

abbrev pub reg_no : X86Register → ℕ
reg_no no_register = 0
reg_no rax = 1
reg_no rdi = 2
reg_no rsi = 3
reg_no rdx = 4
reg_no rcx = 5
reg_no r8 = 6
reg_no r9 = 7
reg_no r10 = 8
reg_no r11 = 9
reg_no rsp = 10
reg_no rbp = 11
reg_no rbx = 12
reg_no r12 = 13
reg_no r13 = 14
reg_no r14 = 15
reg_no r15 = 16
reg_no num_target_regs = 17

abbrev pub caller_saved_regs : List ℕ
caller_saved_regs = map reg_no (rax ∷ rdi ∷ rsi ∷ rdx ∷ rcx ∷ r8 ∷ r9 ∷ r10 ∷ r11 ∷ [])

abbrev pub callee_saved_regs : List ℕ
callee_saved_regs = map reg_no (rsp ∷ rbp ∷ rbx ∷ r12 ∷ r13 ∷ r14 ∷ r15 ∷ [])

abbrev pub arg_regs : List ℕ
arg_regs = map reg_no (rdi ∷ rsi ∷ rdx ∷ rcx ∷ r8 ∷ r9 ∷ [])

abbrev pub free_regs : List ℕ
free_regs =
    map reg_no
      (rax ∷ rdi ∷ rsi ∷ rdx ∷ rcx ∷ r8 ∷ r9 ∷ r10 ∷ r11 ∷ rbx ∷ r12 ∷ r13 ∷ r14 ∷ r15 ∷ [])

abbrev pub is_caller_saved_register : ℕ → Bool
is_caller_saved_register reg = leb (reg_no rax) reg && leb reg (reg_no r11)

abbrev pub is_callee_saved_register : ℕ → Bool
is_callee_saved_register reg = leb (reg_no rsp) reg && leb reg (reg_no r15)

abbrev pub is_arg_register : ℕ → Bool
is_arg_register reg = leb (reg_no rdi) reg && leb reg (reg_no r9)

abbrev pub x86_target_info : TargetInfo
x86_target_info = record {
  get_register_size = 8;
  is_caller_saved_register = is_caller_saved_register;
  is_callee_saved_register = is_callee_saved_register;
  is_arg_register = is_arg_register;
  get_num_caller_saved_registers = length caller_saved_regs;
  get_num_callee_saved_registers = length callee_saved_regs;
  get_num_arg_registers = length arg_regs;
  get_caller_saved_registers = caller_saved_regs;
  get_callee_saved_registers = callee_saved_regs;
  get_arg_registers = arg_regs;
  get_stack_pointer_register = reg_no rsp;
  get_frame_pointer_register = reg_no rbp;
  get_free_registers_for_register_allocator = free_regs;
}

pub x86-IsCoherent : IsCoherent x86_target_info
unfolding is_physical_register
x86-IsCoherent = record {
  caller_saved = λ reg. ground arith;
  callee_saved = λ reg. ground arith;
  arg = λ reg. ground arith;
  num_caller_saved = refl;
  num_callee_saved = refl;
  num_arg = refl;
  one_side = λ reg. ground arith;
  args_are_caller_saved = λ reg h. ground arith;
  free_is_physical = λ reg h. ground arith;
  free_is_saved = λ reg h. ground arith;
  stack_pointer_is_not_free = refl;
  frame_pointer_is_not_free = refl;
}
