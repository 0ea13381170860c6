-- ===== src/RegAlloc/Register.antt =====
-- codegen/asm/Register.h: one 32-bit number names a physical register, a stack slot or a virtual
-- register. An argument that an `assert` of the source bounds gives `none` where the assertion
-- fails.
use Prim.Native.Nat.{bit_and, bit_or}
use remniw.Prelude.{
  ℕ, ◌+◌, ◌-◌, ◌%◌, ◌^◌, ◌<◌, ◌≡◌, Bool, true, not, ◌&&◌, Option, none, some, arith, ltb, leb, ◌==◌,
  if◌then◌else◌,
}
use remniw.Prelude.Bits.{bit_and_mask, bit_and_flag, bit_or_flag}

-- A value of type `uint32_t`.
abbrev pub u32 : ℕ → ℕ
u32 n = n % 2 ^ 32

abbrev pub no_register : ℕ
no_register = 0

abbrev pub first_physical_reg : ℕ
first_physical_reg = 1

abbrev pub first_stack_slot : ℕ
first_stack_slot = 2 ^ 30

abbrev pub virtual_reg_flag : ℕ
virtual_reg_flag = 2 ^ 31

unfoldable pub is_stack_slot : ℕ → Bool
is_stack_slot reg = leb first_stack_slot reg && ltb reg virtual_reg_flag

unfoldable pub is_physical_register : ℕ → Bool
is_physical_register reg = leb first_physical_reg reg && ltb reg first_stack_slot

-- The flag is tested as C tests a number: it is true when it is not 0.
unfoldable pub is_virtual_register : ℕ → Bool
is_virtual_register reg = not (bit_and reg virtual_reg_flag == 0) && not (is_stack_slot reg)

unfoldable pub stack_slot2_index : ℕ → Option ℕ
unfolding is_stack_slot
stack_slot2_index reg =
    if is_stack_slot reg then some (u32 (reg + 2 ^ 32 - first_stack_slot)) else none

-- The index is not negative, which is what the source asserts.
unfoldable pub index2_stack_slot : ℕ → ℕ
index2_stack_slot fi = u32 (fi + first_stack_slot)

-- `~flag` in 32 bits is `2 ^ 32 - 1 - flag`.
unfoldable pub virt_reg2_index : ℕ → Option ℕ
virt_reg2_index reg =
    if is_virtual_register reg then some (bit_and reg (2 ^ 32 - 1 - virtual_reg_flag)) else none

unfoldable pub index2_virt_reg : ℕ → Option ℕ
index2_virt_reg index = if ltb index (2 ^ 31) then some (bit_or index virtual_reg_flag) else none

-- `createVirtReg` keeps its static counter as an argument, and gives the new one back.
unfoldable pub create_virt_reg : ℕ → Option ℕ × ℕ
unfolding index2_virt_reg
create_virt_reg index = (index2_virt_reg index, u32 (index + 1))

-- The flag is set from 2 ^ 31 on.
flag_test : (reg : ℕ) → reg < 2 ^ 32 → (bit_and reg virtual_reg_flag == 0) ≡ ltb reg (2 ^ 31)
flag_test reg h = ground (arith, bit_and_flag 31 reg)

pub is_virtual_register_lem :
    (reg : ℕ) → reg < 2 ^ 32 → is_virtual_register reg ≡ leb virtual_reg_flag reg
unfolding is_virtual_register is_stack_slot
is_virtual_register_lem reg h = ground (arith, flag_test reg h)

abbrev pub count : Bool → ℕ
count b = if b then 1 else 0

-- Every 32-bit number is exactly one of: the sentinel `NoRegister`, a physical register, a stack
-- slot, a virtual register.
register_kinds :
    (reg : ℕ)
    → reg < 2 ^ 32
    → count (reg == no_register)
        + count (is_physical_register reg)
        + count (is_stack_slot reg)
        + count (is_virtual_register reg)
      ≡ 1
unfolding is_physical_register is_stack_slot
register_kinds reg h = ground (arith, is_virtual_register_lem reg h)

-- An index below 2 ^ 31 becomes a virtual register, and is had back from it.
virt_reg_roundtrip :
    (index : ℕ)
    → index < 2 ^ 31
    → (reg : ℕ) × (index2_virt_reg index ≡ some reg)
      × (is_virtual_register reg ≡ true)
      × (virt_reg2_index reg ≡ some index)
unfolding index2_virt_reg virt_reg2_index
virt_reg_roundtrip index h =
    let virtual = is_virtual_register_lem (index + 2 ^ 31) (omega arith) in
    let mask = bit_and_mask 31 (index + 2 ^ 31) in
    (
      index + 2 ^ 31,
      ground (arith, bit_or_flag 31 index h),
      ground (arith, virtual),
      ground (arith, virtual, mask),
    )

-- A virtual register gives an index, which gives the register back; so no two share an index.
virt_index_roundtrip :
    (reg : ℕ)
    → reg < 2 ^ 32
    → is_virtual_register reg ≡ true
    → (index : ℕ) × (virt_reg2_index reg ≡ some index) × (index2_virt_reg index ≡ some reg)
unfolding index2_virt_reg virt_reg2_index
virt_index_roundtrip reg h v =
    let virtual = is_virtual_register_lem reg h in
    (
      reg % 2 ^ 31,
      ground (arith, bit_and_mask 31 reg),
      ground (arith, virtual, bit_or_flag 31 (reg % 2 ^ 31)),
    )

-- The first 2 ^ 30 frame indices become stack slots, and are had back from them.
pub stack_slot_roundtrip :
    (fi : ℕ)
    → fi < 2 ^ 30
    → (is_stack_slot (index2_stack_slot fi) ≡ true)
      × (stack_slot2_index (index2_stack_slot fi) ≡ some fi)
unfolding index2_stack_slot stack_slot2_index
stack_slot_roundtrip fi h = (ground arith, ground arith)

-- Every 32-bit number is exactly one of sentinel, physical register, stack slot, virtual register. An
-- index below 2 ^ 31 becomes a virtual register and is had back from it; a 32-bit virtual register gives
-- an index, which gives the register back; and a frame index below 2 ^ 30 becomes a stack slot and is had
-- back from it.
pub register_roundtrips :
    (any index reg fi : ℕ)
    → any < 2 ^ 32
    → index < 2 ^ 31
    → reg < 2 ^ 32
    → is_virtual_register reg ≡ true
    → fi < 2 ^ 30
    → (count (any == no_register)
          + count (is_physical_register any)
          + count (is_stack_slot any)
          + count (is_virtual_register any)
        ≡ 1)
      × ((r : ℕ) × (index2_virt_reg index ≡ some r)
          × (is_virtual_register r ≡ true)
          × (virt_reg2_index r ≡ some index))
      × ((i : ℕ) × (virt_reg2_index reg ≡ some i) × (index2_virt_reg i ≡ some reg))
      × (is_stack_slot (index2_stack_slot fi) ≡ true)
      × (stack_slot2_index (index2_stack_slot fi) ≡ some fi)
register_roundtrips any index reg fi w h g v f =
    let (slot, back) = stack_slot_roundtrip fi f in
    (register_kinds any w, virt_reg_roundtrip index h, virt_index_roundtrip reg g v, slot, back)
