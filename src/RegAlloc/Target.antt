-- ===== src/RegAlloc/Target.antt =====
-- codegen/asm/TargetInfo.h: what the register allocator and the rewriters ask of a target. The
-- abstract class is a record of its methods.
pub mod X86
pub mod Riscv
pub mod Coherent
use remniw.Prelude.{
  ℕ, Bool, true, false, List, [], ◌∷◌, ◌==◌, ◌||◌, ◌&&◌, ◌≡◌, ◌≢◌, In, length, ◌<◌,
}
use remniw.RegAlloc.Register.{is_physical_register}

pub record TargetInfo : Type 0 where
  pub get_register_size : ℕ
  pub is_caller_saved_register : ℕ → Bool
  pub is_callee_saved_register : ℕ → Bool
  pub is_arg_register : ℕ → Bool
  pub get_num_caller_saved_registers : ℕ
  pub get_num_callee_saved_registers : ℕ
  pub get_num_arg_registers : ℕ
  pub get_caller_saved_registers : List ℕ
  pub get_callee_saved_registers : List ℕ
  pub get_arg_registers : List ℕ
  pub get_stack_pointer_register : ℕ
  pub get_frame_pointer_register : ℕ
  pub get_free_registers_for_register_allocator : List ℕ

-- `std::any_of` for equality with one number.
abbrev pub contains : List ℕ → ℕ → Bool
contains [] reg = false
contains (r ∷ rs) reg = r == reg || contains rs reg

-- The answers of a target fit together: each test accepts the registers of its list and no other,
-- the counts are the lengths, no register is saved by both sides of a call, arguments are passed in
-- caller-saved registers, and the allocator is given physical registers, each saved by one side,
-- among them neither the stack nor the frame pointer.
pub record IsCoherent (t : TargetInfo) : Type 0 where
  pub caller_saved :
      (reg : ℕ) → t.is_caller_saved_register reg ≡ contains t.get_caller_saved_registers reg
  pub callee_saved :
      (reg : ℕ) → t.is_callee_saved_register reg ≡ contains t.get_callee_saved_registers reg
  pub arg : (reg : ℕ) → t.is_arg_register reg ≡ contains t.get_arg_registers reg
  pub num_caller_saved : t.get_num_caller_saved_registers ≡ length t.get_caller_saved_registers
  pub num_callee_saved : t.get_num_callee_saved_registers ≡ length t.get_callee_saved_registers
  pub num_arg : t.get_num_arg_registers ≡ length t.get_arg_registers
  pub one_side :
      (reg : ℕ) → (t.is_caller_saved_register reg && t.is_callee_saved_register reg) ≡ false
  pub args_are_caller_saved :
      (reg : ℕ) → t.is_arg_register reg ≡ true → t.is_caller_saved_register reg ≡ true
  pub free_is_physical :
      (reg : ℕ)
      → contains t.get_free_registers_for_register_allocator reg ≡ true
      → is_physical_register reg ≡ true
  pub free_is_saved :
      (reg : ℕ)
      → contains t.get_free_registers_for_register_allocator reg ≡ true
      → (t.is_caller_saved_register reg || t.is_callee_saved_register reg) ≡ true
  pub stack_pointer_is_not_free :
      contains t.get_free_registers_for_register_allocator t.get_stack_pointer_register ≡ false
  pub frame_pointer_is_not_free :
      contains t.get_free_registers_for_register_allocator t.get_frame_pointer_register ≡ false
