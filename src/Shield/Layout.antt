-- ===== src/Shield/Layout.antt =====
-- `AllocatorState` of guarded_pool_allocator.h: the pool is a row of pages, of which every second one
-- is a slot, each between two guard pages. Sums and products are words of 64 bits.
pub mod Nearest
pub mod Distance
use native.Mathlib.Nat.{mul-le-mul_left, mul_comm, mul-suc, div_self, mod_self}
use remniw.Prelude.{
  ℕ, zero, suc, ◌+◌, ◌-◌, ◌*◌, ◌/◌, ◌%◌, ◌^◌, ◌≤◌, ◌<◌, ◌≡◌, ◌≢◌, refl, sym, ap, ◌∙◌, Bool, true,
  false, not, ◌&&◌, Option, none, some, ltb, leb, ◌==◌, if◌then◌else◌, arith, ◌>>=◌,
}
use remniw.Prelude.Bits.{u64, mod_unique, div_unique}

pub data Error : Type 0 where
  unknown use_after_free double_free invalid_free buffer_overflow buffer_underflow : Error

pub record AllocatorState : Type 0 where
  pub max_simultaneous_allocations : ℕ
  pub guarded_page_pool : ℕ
  pub guarded_page_pool_end : ℕ
  pub page_size : ℕ
  pub failure_type : Error
  pub failure_address : ℕ

abbrev pub maximum_allocation_size : AllocatorState → ℕ
maximum_allocation_size s = s.page_size

unfoldable pub pointer_is_mine : AllocatorState → ℕ → Bool
pointer_is_mine s p = ltb p s.guarded_page_pool_end && leb s.guarded_page_pool p

unfoldable pub slot_to_addr : AllocatorState → ℕ → ℕ
slot_to_addr s n = u64 (s.guarded_page_pool + s.page_size * (1 + n) + maximum_allocation_size s * n)

unfoldable pub addr_to_slot : AllocatorState → ℕ → ℕ
addr_to_slot s ptr =
    u64 (ptr + 2 ^ 64 - s.guarded_page_pool) / (maximum_allocation_size s + s.page_size)

-- `none` where the assertion fails.
unfoldable pub is_guard_page : AllocatorState → ℕ → Option Bool
unfolding pointer_is_mine
is_guard_page s ptr =
    let page_offset = u64 (ptr + 2 ^ 64 - s.guarded_page_pool) / s.page_size in
    let pages_per_slot = maximum_allocation_size s / s.page_size in
    if pointer_is_mine s ptr then some (page_offset % (pages_per_slot + 1) == 0) else none

unfoldable pub get_nearest_slot : AllocatorState → ℕ → Option ℕ
unfolding is_guard_page addr_to_slot
get_nearest_slot s ptr =
    if leb ptr (u64 (s.guarded_page_pool + s.page_size))
    then some 0
    else if ltb (u64 (s.guarded_page_pool_end + 2 ^ 64 - s.page_size)) ptr
    then some (u64 (s.max_simultaneous_allocations + 2 ^ 64 - 1))
    else (do
      guard ← is_guard_page s ptr
      some (
          if not guard
          then addr_to_slot s ptr
          else if leb (ptr % s.page_size) (s.page_size / 2)
          then addr_to_slot s (u64 (ptr + 2 ^ 64 - s.page_size))
          else addr_to_slot s (u64 (ptr + s.page_size))))

-- What `init` establishes: the pool stands at a page, and holds the slots and the guard pages.
pub record IsLayout (s : AllocatorState) : Type 0 where
  pub has_slots : 0 < s.max_simultaneous_allocations
  pub has_pages : 0 < s.page_size
  pub is_mapped : 0 < s.guarded_page_pool
  pub at_page : s.guarded_page_pool % s.page_size ≡ 0
  pub end_is :
      s.guarded_page_pool_end
      ≡ s.guarded_page_pool + s.page_size + 2 * (s.page_size * s.max_simultaneous_allocations)
  pub is_word : s.guarded_page_pool_end < 2 ^ 64

module _ (s : AllocatorState) (v : IsLayout s) where
  abbrev pool : ℕ
  pool = s.guarded_page_pool

  abbrev page : ℕ
  page = s.page_size

  -- The slots below `n` end where slot `n` has its guard page.
  pub slots_below :
      (n : ℕ)
      → n < s.max_simultaneous_allocations
      → page * n + page ≤ page * s.max_simultaneous_allocations
  slots_below n lt = omega (arith, mul-le-mul_left page lt, mul-suc page n)

  pub slots_up_to :
      (n : ℕ)
      → n ≤ s.max_simultaneous_allocations
      → page * n ≤ page * s.max_simultaneous_allocations
  slots_up_to n le = mul-le-mul_left page le

  pub slot_to_addr_lem :
      (n : ℕ) → n < s.max_simultaneous_allocations → slot_to_addr s n ≡ pool + page + 2 * (page * n)
  unfolding slot_to_addr
  slot_to_addr_lem n lt =
      let split : page * (1 + n) ≡ page + page * n = grind arith in
      rw split (omega (arith, slots_below n lt, v.end_is, v.is_word))

  -- An address at a distance of `d` in the page `q` of the pool.
  page_of : (a q d : ℕ) → a ≡ q * page + d → d < page → a / page ≡ q
  page_of a q d e lt = div_unique a page q d e lt

  one_page : page / page ≡ 1
  one_page = div_unique page page 1 0 (omega arith) v.has_pages

  -- Every second page is a guard page, the first one being one.
  guard_at :
      (a q d : ℕ)
      → a ≡ pool + (q * page + d)
      → d < page
      → a < s.guarded_page_pool_end
      → is_guard_page s a ≡ some (q % 2 == 0)
  unfolding is_guard_page pointer_is_mine
  guard_at a q d e inside below =
      let offset : u64 (a + 2 ^ 64 - pool) ≡ q * page + d = omega (arith, v.is_word) in
      let mine : (ltb a s.guarded_page_pool_end && leb pool a) ≡ true = ground arith in
      rw (mine, offset, page_of (q * page + d) q d refl inside, one_page) refl

  pub is_guard_page_slot :
      (n d : ℕ)
      → n < s.max_simultaneous_allocations
      → d < page
      → is_guard_page s (pool + page + 2 * (page * n) + d) ≡ some false
  is_guard_page_slot n d lt inside =
      let odd : (2 * n + 1) * page ≡ page + 2 * (page * n) = grind arith in
      guard_at (pool + page + 2 * (page * n) + d) (2 * n + 1) d (omega (arith, odd)) inside
        (omega (arith, slots_below n lt, v.end_is))
      ∙ ap some (ground arith)

  pub is_guard_page_guard :
      (n d : ℕ)
      → n ≤ s.max_simultaneous_allocations
      → d < page
      → is_guard_page s (pool + 2 * (page * n) + d) ≡ some true
  is_guard_page_guard n d le inside =
      let even : 2 * n * page ≡ 2 * (page * n) = grind arith in
      guard_at (pool + 2 * (page * n) + d) (2 * n) d (omega (arith, even)) inside
        (omega (arith, slots_up_to n le, v.end_is))
      ∙ ap some (ground arith)

  -- The index of a slot is had back from the addresses in it.
  pub addr_to_slot_lem :
      (n d : ℕ)
      → n < s.max_simultaneous_allocations
      → d < page
      → addr_to_slot s (pool + page + 2 * (page * n) + d) ≡ n
  unfolding addr_to_slot
  addr_to_slot_lem n d lt inside =
      let offset : u64 (pool + page + 2 * (page * n) + d + 2 ^ 64 - pool)
          ≡ n * (page + page) + (page + d) =
        omega (arith, slots_below n lt, v.end_is, v.is_word, twice n) in
      rw offset
        (div_unique (n * (page + page) + (page + d)) (page + page) n (page + d) refl (omega arith))
    where
      twice : (k : ℕ) → k * (page + page) ≡ 2 * (page * k)
      twice k = grind arith
