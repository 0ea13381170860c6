-- ===== src/Select/Riscv/Create.antt =====
-- The opcodes of RISCVTargetInfo.h, and the functions of RISCVAsmBuilder.cpp that create one
-- instruction, after the assertions on its operands and the updates of their live ranges.
use remniw.Prelude.{
  ℕ, ◌-◌, ◌^◌, [], ◌∷◌, Bool, true, false, not, ◌&&◌, ◌||◌, ltb, leb, ◌==◌, if◌then◌else◌,
}
use remniw.Asm.Operand.{AsmOperand, MemOp, reg, mem, imm, lbl}
use remniw.Select.{
  Select, pure, fail, ◌>>=◌, ◌>>◌, update_operand, create, create_call, new_virt_reg,
  no_stack_object,
}

pub data RiscvOpcode : Type 0 where
  ld sd mv li la beq bne bgt ble j add addi sub mul div call jalr ret label : RiscvOpcode
  get_stackobject_address_user_inst : RiscvOpcode

abbrev pub opcode_no : RiscvOpcode → ℕ
opcode_no ld = 1
opcode_no sd = 2
opcode_no mv = 3
opcode_no li = 4
opcode_no la = 5
opcode_no beq = 6
opcode_no bne = 7
opcode_no bgt = 8
opcode_no ble = 9
opcode_no j = 10
opcode_no add = 11
opcode_no addi = 12
opcode_no sub = 13
opcode_no mul = 14
opcode_no div = 15
opcode_no call = 16
opcode_no jalr = 17
opcode_no ret = 18
opcode_no label = 19
opcode_no get_stackobject_address_user_inst = 20

abbrev pub is_reg : AsmOperand → Bool
is_reg (reg r) = true
is_reg _ = false

abbrev pub is_mem : AsmOperand → Bool
is_mem (mem m) = true
is_mem _ = false

abbrev pub is_imm : AsmOperand → Bool
is_imm (imm i) = true
is_imm _ = false

abbrev pub is_label : AsmOperand → Bool
is_label (lbl l) = true
is_label _ = false

abbrev pub is_stack_object : AsmOperand → Bool
is_stack_object (mem m) = not (m.stack_object_index == no_stack_object)
is_stack_object _ = false

-- `assert`
abbrev pub require : Bool → Select (Unit {0})
require true = pure tt
require false = fail

unfoldable pub create_ld_inst : AsmOperand → AsmOperand → Select (Unit {0})
create_ld_inst dst_reg src_mem = do
  require (is_reg dst_reg && is_mem src_mem)
  update_operand dst_reg
  update_operand src_mem
  create (opcode_no ld) (dst_reg ∷ src_mem ∷ [])

unfoldable pub create_sd_inst : AsmOperand → AsmOperand → Select (Unit {0})
create_sd_inst src_reg dst_mem = do
  require (is_reg src_reg && is_mem dst_mem)
  update_operand src_reg
  update_operand dst_mem
  create (opcode_no sd) (src_reg ∷ dst_mem ∷ [])

unfoldable pub create_mv_inst : AsmOperand → AsmOperand → Select (Unit {0})
create_mv_inst dst_reg src_reg = do
  require (is_reg dst_reg && is_reg src_reg)
  update_operand dst_reg
  update_operand src_reg
  create (opcode_no mv) (dst_reg ∷ src_reg ∷ [])

unfoldable pub create_li_inst : AsmOperand → AsmOperand → Select (Unit {0})
create_li_inst dst_reg i = do
  require (is_reg dst_reg && is_imm i)
  update_operand dst_reg
  create (opcode_no li) (dst_reg ∷ i ∷ [])

unfoldable pub create_la_inst : AsmOperand → AsmOperand → Select (Unit {0})
create_la_inst dst_reg l = do
  require (is_reg dst_reg && is_label l)
  update_operand dst_reg
  create (opcode_no la) (dst_reg ∷ l ∷ [])

-- What the four branches of two registers to a label have in common.
abbrev pub create_branch : RiscvOpcode → AsmOperand → AsmOperand → AsmOperand → Select (Unit {0})
create_branch op reg1 reg2 l = do
  require (is_reg reg1 && is_reg reg2 && is_label l)
  update_operand reg1
  update_operand reg2
  create (opcode_no op) (reg1 ∷ reg2 ∷ l ∷ [])

unfoldable pub create_beq_inst : AsmOperand → AsmOperand → AsmOperand → Select (Unit {0})
create_beq_inst reg1 reg2 l = create_branch beq reg1 reg2 l

unfoldable pub create_bne_inst : AsmOperand → AsmOperand → AsmOperand → Select (Unit {0})
create_bne_inst reg1 reg2 l = create_branch bne reg1 reg2 l

unfoldable pub create_bgt_inst : AsmOperand → AsmOperand → AsmOperand → Select (Unit {0})
create_bgt_inst reg1 reg2 l = create_branch bgt reg1 reg2 l

unfoldable pub create_ble_inst : AsmOperand → AsmOperand → AsmOperand → Select (Unit {0})
create_ble_inst reg1 reg2 l = create_branch ble reg1 reg2 l

-- What the operations on two registers have in common.
abbrev pub create_three : RiscvOpcode → AsmOperand → AsmOperand → AsmOperand → Select (Unit {0})
create_three op dst_reg src_reg1 src_reg2 = do
  require (is_reg dst_reg && is_reg src_reg1 && is_reg src_reg2)
  update_operand dst_reg
  update_operand src_reg1
  update_operand src_reg2
  create (opcode_no op) (dst_reg ∷ src_reg1 ∷ src_reg2 ∷ [])

unfoldable pub create_add_inst : AsmOperand → AsmOperand → AsmOperand → Select (Unit {0})
create_add_inst dst_reg src_reg1 src_reg2 = create_three add dst_reg src_reg1 src_reg2

unfoldable pub create_sub_inst : AsmOperand → AsmOperand → AsmOperand → Select (Unit {0})
create_sub_inst dst_reg src_reg1 src_reg2 = create_three sub dst_reg src_reg1 src_reg2

unfoldable pub create_mul_inst : AsmOperand → AsmOperand → AsmOperand → Select (Unit {0})
create_mul_inst dst_reg src_reg1 src_reg2 = create_three mul dst_reg src_reg1 src_reg2

unfoldable pub create_div_inst : AsmOperand → AsmOperand → AsmOperand → Select (Unit {0})
create_div_inst dst_reg src_reg1 src_reg2 = create_three div dst_reg src_reg1 src_reg2

-- An immediate of 12 bits with its sign, as a word.
abbrev pub is_imm12 : ℕ → Bool
is_imm12 val = ltb val 2048 || leb (2 ^ 64 - 2048) val

-- A longer immediate goes through a register of its own.
unfoldable pub create_addi_inst : AsmOperand → AsmOperand → ℕ → Select (Unit {0})
unfolding create_li_inst create_add_inst
create_addi_inst dst_reg src_reg val = do
  require (is_reg dst_reg && is_reg src_reg)
  update_operand dst_reg
  update_operand src_reg
  if is_imm12 val then create (opcode_no addi) (dst_reg ∷ src_reg ∷ imm val ∷ []) else (do
    virt_reg ← new_virt_reg
    create_li_inst (reg virt_reg) (imm val)
    create_add_inst dst_reg src_reg (reg virt_reg))

unfoldable pub create_call_inst : AsmOperand → Bool → ℕ → Select (Unit {0})
create_call_inst callee direct_call num_args = do
  update_operand callee
  create_call (if direct_call then opcode_no call else opcode_no jalr) (callee ∷ imm num_args ∷ [])

unfoldable pub create_label_inst : AsmOperand → Select (Unit {0})
create_label_inst label_op = do
  require (is_label label_op)
  create (opcode_no label) (label_op ∷ [])

unfoldable pub create_j_inst : AsmOperand → Select (Unit {0})
create_j_inst label_op = do require (is_label label_op); create (opcode_no j) (label_op ∷ [])

unfoldable pub create_get_stack_object_address_user_inst :
    AsmOperand → AsmOperand → Select (Unit {0})
create_get_stack_object_address_user_inst dst_reg src_mem = do
  require (is_reg dst_reg && is_stack_object src_mem)
  update_operand dst_reg
  update_operand src_mem
  create (opcode_no get_stackobject_address_user_inst) (dst_reg ∷ src_mem ∷ [])

-- `storeMemoryAddressToReg`. Of an operand that is no stack object the index is not looked at: no
-- handler of this target makes one.
unfoldable pub store_memory_address_to_reg : MemOp → ℕ → Select (Unit {0})
unfolding create_get_stack_object_address_user_inst create_addi_inst
store_memory_address_to_reg src_mem dst_reg =
    if is_stack_object (mem src_mem)
    then create_get_stack_object_address_user_inst (reg dst_reg) (mem src_mem)
    else create_addi_inst (reg dst_reg) (reg src_mem.base_reg) src_mem.disp
