-- ===== src/Shield/Pool.antt =====
-- `GuardedPoolAllocator` of guarded_pool_allocator.cpp. A method is a function of the state into an
-- outcome; the two arrays are functions of the index.
pub mod Slots
pub mod Place
pub mod Valid
pub mod Install
pub mod Init
pub mod Tables
pub mod Start
pub mod Allocate
pub mod Retire
pub mod Deallocate
use Prim.Native.Nat.{bit_xor}
use remniw.Prelude.{
  ℕ, ◌+◌, ◌-◌, ◌*◌, ◌/◌, ◌%◌, ◌^◌, Bool, true, false, not, ◌&&◌, ◌||◌, Option, none, some, ltb, leb,
  ◌==◌, if◌then◌else◌,
}
use remniw.Prelude.Bits.{u64}
use remniw.RegAlloc.Register.{u32}
use remniw.Shield.Layout.{
  AllocatorState, Error, unknown, invalid_free, double_free, slot_to_addr, get_nearest_slot,
  pointer_is_mine, maximum_allocation_size,
}
use remniw.Shield.System.{System}
use remniw.Shield.Words.{round_up_to, get_page_addr, is_power_of_two, align_up, align_down, dec}

pub record AllocationMetadata : Type 0 where
  pub addr : ℕ
  pub size : ℕ
  pub is_deallocated : Bool

abbrev pub record_allocation : ℕ → ℕ → AllocationMetadata → AllocationMetadata
record_allocation alloc_addr alloc_size m = record {
  addr = alloc_addr;
  size = alloc_size;
  is_deallocated = false;
}

abbrev pub record_deallocation : AllocationMetadata → AllocationMetadata
record_deallocation m = record m { is_deallocated = true }

pub record Pool (P : Type 0) : Type 0 where
  pub state : AllocatorState
  pub num_allocations : ℕ
  pub metadata : ℕ → AllocationMetadata
  pub free_slots : ℕ → ℕ
  pub free_slots_length : ℕ
  pub random_state : ℕ
  pub pages : P

-- A write to an array.
abbrev pub put_at {ℓ} : {A : Type ℓ} → (ℕ → A) → ℕ → A → ℕ → A
put_at f i a j = if i == j then a else f j

-- A call returns, or raises SIGSEGV on purpose, or dies by a failed `Check`, or by an assertion.
pub data Outcome (S A : Type 0) : Type 0 where
  done : A → S → Outcome S A
  trapped : S → Outcome S A
  died : Outcome S A
  asserted : Outcome S A

-- The size and the alignment that are used for those asked for.
abbrev pub real_size : ℕ → ℕ
real_size size = if size == 0 then 1 else size

abbrev pub real_alignment : ℕ → ℕ
real_alignment alignment = if alignment == 0 then 16 else alignment

unfoldable pub xorshift : ℕ → ℕ
xorshift r =
    let x = bit_xor r (u32 (r * 2 ^ 13)) in
    let y = bit_xor x (x / 2 ^ 17) in bit_xor y (u32 (y * 2 ^ 5))

module _ (os : System) where
  abbrev pub M : Type 0 → Type 0
  M A = Pool os.Pages → Outcome (Pool os.Pages) A

  abbrev pub pure : {A : Type 0} → A → M A
  pure a st = done a st

  infixl 5 ◌>>=◌ ◌>>◌
  abbrev pub ◌>>=◌ : {A B : Type 0} → M A → (A → M B) → M B
  ◌>>=◌ m f st = elim (m st) [
    | done a st' ↦ f a st'
    | trapped st' ↦ trapped st'
    | died ↦ died
    | asserted ↦ asserted
  ]

  abbrev pub ◌>>◌ : {B : Type 0} → M (Unit {0}) → M B → M B
  m >> k = m >>= λ _. k

  abbrev pub assert : Bool → M (Unit {0})
  assert b st = if b then done tt st else asserted

  abbrev pub or_assert : {A : Type 0} → Option A → M A
  or_assert none st = asserted
  or_assert (some a) st = done a st

  -- `Check` of a call of the system that changes the pages.
  abbrev pub check_pages : (os.Pages → Option os.Pages) → M (Unit {0})
  check_pages call st = elim (call st.pages) [
    | none ↦ died
    | some pages ↦ done tt (record st { pages = pages })
  ]

  unfoldable pub get_random_unsigned32 : M ℕ
  get_random_unsigned32 st =
      let z = xorshift st.random_state in done z (record st { random_state = z })

  -- A free slot leaves the list, whose last element takes its place.
  unfoldable pub take_free : ℕ → M (Option ℕ)
  take_free reserved_index st =
      let last = st.free_slots_length - 1 in
      done (some (st.free_slots reserved_index)) (record st {
        free_slots = put_at st.free_slots reserved_index (st.free_slots last);
        free_slots_length = last;
      })

  -- `none` stands for `kInvalidSlotID`.
  unfoldable pub reserve_slot : M (Option ℕ)
  unfolding take_free
  reserve_slot st =
      if ltb st.num_allocations st.state.max_simultaneous_allocations
      then done (some st.num_allocations)
          (record st { num_allocations = u64 (st.num_allocations + 1) })
      else if st.free_slots_length == 0
      then done none st
      else (get_random_unsigned32 >>= λ random. take_free (random % st.free_slots_length)) st

  unfoldable pub free_slot : ℕ → M (Unit {0})
  free_slot slot_index st =
      if ltb st.free_slots_length st.state.max_simultaneous_allocations
      then done tt (record st {
        free_slots = put_at st.free_slots st.free_slots_length slot_index;
        free_slots_length = st.free_slots_length + 1;
      })
      else asserted

  unfoldable pub trap_on_address : {A : Type 0} → ℕ → Error → M A
  trap_on_address address e st =
      trapped
        (record st { state = record st.state { failure_type = e; failure_address = address } })

  unfoldable pub allocate_in_guarded_pool : ℕ → ℕ → M (Unit {0})
  allocate_in_guarded_pool ptr size st =
      (do
        assert (ptr % st.state.page_size == 0)
        assert (size % st.state.page_size == 0)
        check_pages (os.mprotect_read_write ptr size))
        st

  unfoldable pub deallocate_in_guarded_pool : ℕ → ℕ → M (Unit {0})
  deallocate_in_guarded_pool ptr size st =
      (do
        assert (ptr % st.state.page_size == 0)
        assert (size % st.state.page_size == 0)
        check_pages (os.mmap_fixed_none ptr size))
        st

  -- The entry of a slot, found by an address in it, is changed.
  abbrev pub change_metadata : ℕ → (AllocationMetadata → AllocationMetadata) → M (Unit {0})
  change_metadata slot f st =
      done tt (record st { metadata = put_at st.metadata slot (f (st.metadata slot)) })

  -- The pointer that is handed out: at the start of the slot, or as near to its end as it goes.
  unfoldable pub choose_pointer : ℕ → ℕ → ℕ → ℕ → ℕ → Option ℕ
  choose_pointer random slot_start slot_end size alignment =
      if random % 2 == 0
      then align_up slot_start alignment
      else align_down (u64 (slot_end + 2 ^ 64 - size)) alignment

  -- `allocate` after a slot has been reserved.
  unfoldable pub allocate_in_slot : ℕ → ℕ → ℕ → M ℕ
  unfolding choose_pointer allocate_in_guarded_pool get_random_unsigned32
  allocate_in_slot index size alignment st =
      (do
        let slot_start = slot_to_addr st.state index
        let slot_end = u64 (slot_to_addr st.state index + st.state.page_size)
        meta ← or_assert (get_nearest_slot st.state slot_start)
        random ← get_random_unsigned32
        user_ptr ← or_assert (choose_pointer random slot_start slot_end size alignment)
        assert (leb slot_start user_ptr)
        assert (leb (u64 (user_ptr + size)) slot_end)
        allocate_in_guarded_pool (get_page_addr user_ptr st.state.page_size)
            (round_up_to size st.state.page_size)
        change_metadata meta (record_allocation user_ptr size)
        pure user_ptr)
        st

  -- What `allocate` asks of a request, before it reserves a slot.
  unfoldable pub is_supported : AllocatorState → ℕ → ℕ → Bool
  is_supported s size alignment =
      is_power_of_two alignment && leb alignment s.page_size && leb size (maximum_allocation_size s)

  -- `none` is the null pointer.
  unfoldable pub allocate : ℕ → ℕ → M (Option ℕ)
  unfolding reserve_slot allocate_in_slot is_supported
  allocate size alignment st =
      if st.state.guarded_page_pool_end == 0
      then done none st
      else if not (is_supported st.state (real_size size) (real_alignment alignment))
      then done none st
      else (reserve_slot >>= λ index. elim index [
        | none ↦ pure none
        | some n ↦
            (allocate_in_slot n (real_size size) (real_alignment alignment) >>= λ p. pure (some p))
      ])
          st

  -- The tests of `deallocate`, and the record that is made while the lock is held.
  unfoldable pub record_freed : ℕ → ℕ → M (Unit {0})
  unfolding trap_on_address
  record_freed slot ptr st =
      if not ((st.metadata slot).addr == ptr)
      then trap_on_address ptr invalid_free st
      else if (st.metadata slot).is_deallocated
      then trap_on_address ptr double_free st
      else change_metadata slot record_deallocation st

  unfoldable pub deallocate : ℕ → M (Unit {0})
  unfolding record_freed deallocate_in_guarded_pool free_slot
  deallocate ptr st =
      (do
        assert (pointer_is_mine st.state ptr)
        slot ← or_assert (get_nearest_slot st.state ptr)
        record_freed slot ptr
        deallocate_in_guarded_pool (slot_to_addr st.state slot) (maximum_allocation_size st.state)
        free_slot slot)
        st
