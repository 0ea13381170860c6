-- ===== src/Select/X86/Create.antt =====
-- The opcodes of X86TargetInfo.h, and the functions of X86AsmBuilder.cpp that create one instruction:
-- the live ranges of the operands are updated first, in the order in which they are given.
use remniw.Prelude.{ℕ, [], ◌∷◌, Bool}
use remniw.Asm.Operand.{AsmOperand, reg, imm}
use remniw.RegAlloc.Target.X86.{reg_no, rax, rdx}
use remniw.Select.{Select, ◌>>◌, update_operand, create, create_call}

pub data X86Opcode : Type 0 where
  mov lea cmp jmp je jne jg jle add sub imul idiv cqto call xor push pop ret label : X86Opcode

abbrev pub opcode_no : X86Opcode → ℕ
opcode_no mov = 1
opcode_no lea = 2
opcode_no cmp = 3
opcode_no jmp = 4
opcode_no je = 5
opcode_no jne = 6
opcode_no jg = 7
opcode_no jle = 8
opcode_no add = 9
opcode_no sub = 10
opcode_no imul = 11
opcode_no idiv = 12
opcode_no cqto = 13
opcode_no call = 14
opcode_no xor = 15
opcode_no push = 16
opcode_no pop = 17
opcode_no ret = 18
opcode_no label = 19

-- What `createMOVInst` and its like have in common.
abbrev pub create_two : X86Opcode → AsmOperand → AsmOperand → Select (Unit {0})
create_two op src dst = do
  update_operand src
  update_operand dst
  create (opcode_no op) (src ∷ dst ∷ [])

unfoldable pub create_mov_inst : AsmOperand → AsmOperand → Select (Unit {0})
create_mov_inst src dst = create_two mov src dst

unfoldable pub create_lea_inst : AsmOperand → AsmOperand → Select (Unit {0})
create_lea_inst src dst = create_two lea src dst

unfoldable pub create_cmp_inst : AsmOperand → AsmOperand → Select (Unit {0})
create_cmp_inst src dst = create_two cmp src dst

unfoldable pub create_jmp_inst : X86Opcode → AsmOperand → Select (Unit {0})
create_jmp_inst jmp_opcode op = do update_operand op; create (opcode_no jmp_opcode) (op ∷ [])

unfoldable pub create_add_inst : AsmOperand → AsmOperand → Select (Unit {0})
create_add_inst src dst = create_two add src dst

unfoldable pub create_sub_inst : AsmOperand → AsmOperand → Select (Unit {0})
create_sub_inst src dst = create_two sub src dst

unfoldable pub create_imul_inst : AsmOperand → AsmOperand → Select (Unit {0})
create_imul_inst src dst = create_two imul src dst

unfoldable pub create_idiv_inst : AsmOperand → Select (Unit {0})
create_idiv_inst op = do
  update_operand op
  update_operand (reg (reg_no rax))
  update_operand (reg (reg_no rdx))
  create (opcode_no idiv) (op ∷ [])

unfoldable pub create_cqto_inst : Select (Unit {0})
create_cqto_inst = do
  update_operand (reg (reg_no rax))
  update_operand (reg (reg_no rdx))
  create (opcode_no cqto) []

-- `DirectCall` makes no difference.
unfoldable pub create_call_inst : AsmOperand → Bool → ℕ → Select (Unit {0})
create_call_inst callee direct_call num_args = do
  update_operand callee
  create_call (opcode_no call) (callee ∷ imm num_args ∷ [])

unfoldable pub create_xor_inst : AsmOperand → AsmOperand → Select (Unit {0})
create_xor_inst src dst = create_two xor src dst

-- A label updates nothing.
unfoldable pub create_label_inst : AsmOperand → Select (Unit {0})
create_label_inst label_op = create (opcode_no label) (label_op ∷ [])
