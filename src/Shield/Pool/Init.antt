-- ===== src/Shield/Pool/Init.antt =====
-- `GuardedPoolAllocator::init` of guarded_pool_allocator.cpp.
use remniw.Prelude.{
  ℕ, ◌+◌, ◌*◌, ◌%◌, Bool, false, not, ◌||◌, Option, none, some, ◌==◌, if◌then◌else◌,
}
use remniw.Prelude.Bits.{u64}
use remniw.Shield.Layout.{AllocatorState, unknown, maximum_allocation_size}
use remniw.Shield.System.{System}
use remniw.Shield.Options.{Options, is_negative}
use remniw.Shield.Words.{round_up_to, is_power_of_two}
use remniw.Shield.Pool.{Pool, AllocationMetadata, done, died, M, assert, ◌>>=◌ as bind}

abbrev pub no_metadata : AllocationMetadata
no_metadata = record { addr = 0; size = 0; is_deallocated = false }

abbrev pub no_state : AllocatorState
no_state = record {
  max_simultaneous_allocations = 0;
  guarded_page_pool = 0;
  guarded_page_pool_end = 0;
  page_size = 0;
  failure_type = unknown;
  failure_address = 0;
}

-- The allocator before `init`.
abbrev pub new_pool : {P : Type 0} → P → Pool P
new_pool pages = record {
  state = no_state;
  num_allocations = 0;
  metadata = λ _. no_metadata;
  free_slots = λ _. 0;
  free_slots_length = 0;
  random_state = 0xacd979ce;
  pages = pages;
}

module _ (os : System) where
  infixl 5 ◌>>=◌ ◌>>◌
  abbrev pub ◌>>=◌ : {A B : Type 0} → M os A → (A → M os B) → M os B
  m >>= f = bind os m f

  abbrev pub ◌>>◌ : {B : Type 0} → M os (Unit {0}) → M os B → M os B
  m >> k = m >>= λ _. k

  -- `Check`
  abbrev pub check : Bool → M os (Unit {0})
  check b st = if b then done tt st else died

  -- An address that the system gives, where it gives one.
  abbrev pub check_mapped : (os.Pages → Option (ℕ × os.Pages)) → M os ℕ
  check_mapped call st = elim (call st.pages) [
    | none ↦ died
    | some r ↦ done r.0 (record st { pages = r.1 })
  ]

  unfoldable pub reserve_guarded_pool : ℕ → M os ℕ
  reserve_guarded_pool size st =
      (do assert os (size % st.state.page_size == 0); check_mapped (os.mmap_none size)) st

  unfoldable pub map : ℕ → M os ℕ
  map size st =
      (do assert os (size % st.state.page_size == 0); check_mapped (os.mmap_read_write size)) st

  -- The sizes of the pool, of the metadata and of the list of free slots.
  abbrev pub pool_bytes_required : AllocatorState → ℕ
  pool_bytes_required s = u64 (
      s.page_size * (1 + s.max_simultaneous_allocations)
      + maximum_allocation_size s * s.max_simultaneous_allocations)

  abbrev pub metadata_bytes_required : AllocatorState → ℕ
  metadata_bytes_required s = round_up_to (u64 (s.max_simultaneous_allocations * 24)) s.page_size

  abbrev pub free_slots_bytes_required : AllocatorState → ℕ
  free_slots_bytes_required s = round_up_to (u64 (s.max_simultaneous_allocations * 8)) s.page_size

  abbrev pub set_state : AllocatorState → M os (Unit {0})
  set_state s st = done tt (record st { state = s })

  abbrev pub set_metadata : M os (Unit {0})
  set_metadata st = done tt (record st { metadata = λ _. no_metadata })

  abbrev pub set_free_slots : M os (Unit {0})
  set_free_slots st = done tt (record st { free_slots = λ _. 0 })

  -- Fresh memory is zero.
  unfoldable pub map_tables : M os (Unit {0})
  unfolding map
  map_tables st =
      (do
        _ ← map (metadata_bytes_required st.state)
        set_metadata
        _ ← map (free_slots_bytes_required st.state)
        set_free_slots)
        st

  unfoldable pub init : Options → M os (Unit {0})
  unfolding reserve_guarded_pool map_tables
  init opts st =
      if not opts.enabled || opts.max_simultaneous_allocations == 0
      then done tt st
      else (do
        check (not (is_negative opts.max_simultaneous_allocations))
        let s = record st.state { max_simultaneous_allocations = opts.max_simultaneous_allocations }
        assert os (is_power_of_two os.page_size)
        let t = record s { page_size = os.page_size }
        set_state t
        pool ← reserve_guarded_pool (pool_bytes_required t)
        set_state (record t {
          guarded_page_pool = pool;
          guarded_page_pool_end = u64 (pool + pool_bytes_required t);
        })
        map_tables)
          st
