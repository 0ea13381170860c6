-- ===== src/Shield/Pool/Allocate.antt =====
-- `allocate` as a whole, from a state that the pool is in between two calls.
use native.Mathlib.Nat.{mod-lt, pow-le-pow_right, pow-suc, one-le-pow}
use native.Mathlib.Decide.{dec_lt}
use remniw.Prelude.{
  ℕ, suc, ◌+◌, ◌-◌, ◌%◌, ◌^◌, ◌≤◌, ◌<◌, ◌≡◌, ◌≢◌, refl, ◌∙◌, ◌⊎◌, inl, inr, true, false, Option,
  none, some, ltb, ◌==◌, if◌then◌else◌, arith, Bool-cases, ltb→lt,
}
use remniw.Prelude.Bits.{u64}
use remniw.Shield.Layout.{AllocatorState}
use remniw.Shield.Layout.Nearest.{slot_start, few_slots}
use remniw.Shield.System.{System, IsSystem, in_range}
use remniw.Shield.Words.{is_power_of_two, is_power_of_two-IsPowerOfTwo}
use remniw.Shield.Pool.{
  Pool, AllocationMetadata, Outcome, done, died, put_at, record_allocation, reserve_slot, take_free,
  get_random_unsigned32, xorshift, ◌>>=◌, pure, allocate, allocate_in_slot, is_supported, real_size,
  real_alignment,
}
use remniw.Shield.Pool.Slots.{IsSlots, live_count, extend-IsSlots, take-IsSlots}
use remniw.Shield.Pool.Place.{refused, placed, allocate_in_slot-Placed}
use remniw.Shield.Pool.Valid.{IsPool, IsPlaced, is_live, block_at}
use remniw.Shield.Pool.Install.{
  install-apart, install-blocks, install-IsShielded, install-placed, install-unused,
}

module _ (os : System) (st : Pool os.Pages) where
  abbrev s : AllocatorState
  s = st.state

  abbrev slots : ℕ
  slots = s.max_simultaneous_allocations

  -- The state, with another bookkeeping.
  abbrev with_slots : ℕ → (ℕ → ℕ) → ℕ → ℕ → Pool os.Pages
  with_slots num free len random = record st {
    num_allocations = num;
    free_slots = free;
    free_slots_length = len;
    random_state = random;
  }

  -- A slot is reserved: what the state is then, and what it is when the slot has been recorded as live.
  data Reserved (out : Outcome (Pool os.Pages) (Option ℕ)) : Type 0 where
    exhausted : out ≡ done none st → live_count st.metadata slots ≡ slots → Reserved out
    reserved :
        (n num : ℕ) (free : ℕ → ℕ) (len random : ℕ)
        → out ≡ done (some n) (with_slots num free len random)
        → n < num
        → num ≤ slots
        → ((i : ℕ) → i ≢ n → ltb i num ≡ ltb i st.num_allocations)
        → is_live st.num_allocations st.metadata n ≡ false
        → ((m : AllocationMetadata)
            → m.is_deallocated ≡ false
            → IsSlots num (put_at st.metadata n m) free len)
        → Reserved out

  reserve_slot-Reserved : IsPool os st → Reserved (reserve_slot os st)
  unfolding reserve_slot take_free get_random_unsigned32
  reserve_slot-Reserved v =
      let next = st.num_allocations in
      elim (Bool-cases (ltb next slots)) [
        | inl more ↦
            let lt : next < slots = ltb→lt next slots more in
            let word : u64 (next + 1) ≡ suc next = omega (arith, few_slots s v.layout) in
            rw (more, word)
              (reserved next (suc next) st.free_slots st.free_slots_length st.random_state refl
                (omega arith) (omega arith) (λ i ne. ground arith) (ground arith)
                (λ m l.
                  extend-IsSlots next st.metadata st.free_slots st.free_slots_length v.slots m l))
        | inr all ↦ elim (Bool-cases (st.free_slots_length == 0)) [
          | inl empty ↦
              let full : slots ≡ next = ground (arith, v.few_allocations) in
              rw (all, empty) (exhausted refl (rw full (ground (arith, v.slots.counted))))
          | inr some_free ↦
              let r = xorshift st.random_state % st.free_slots_length in
              let at : r < st.free_slots_length =
                mod-lt (xorshift st.random_state) (ground arith) in
              let n = st.free_slots r in
              rw (all, some_free)
                (reserved n next (put_at st.free_slots r (st.free_slots (st.free_slots_length - 1)))
                  (st.free_slots_length - 1) (xorshift st.random_state) refl
                  (v.slots.free_below r at) v.few_allocations (λ i ne. refl)
                  (ground (arith, v.slots.free_dead r at))
                  (λ m l.
                    take-IsSlots next st.metadata st.free_slots st.free_slots_length v.slots r at m
                      l))
        ]
      ]

  -- What a call of `allocate` comes to: the null pointer, where the request is not supported or each slot
  -- is live; the end, where the system does not open the page; or a new block of the heap.
  pub data Allocated (size alignment : ℕ) (out : Outcome (Pool os.Pages) (Option ℕ)) : Type 0 where
    declines :
        out ≡ done none st
        → (is_supported os s size alignment ≡ false) ⊎ (live_count st.metadata slots ≡ slots)
        → Allocated size alignment out
    dies :
        (n : ℕ)
        → n < slots
        → is_live st.num_allocations st.metadata n ≡ false
        → is_supported os s size alignment ≡ true
        → os.mprotect_read_write (slot_start s n) s.page_size st.pages ≡ none
        → out ≡ died
        → Allocated size alignment out
    gives :
        (p : ℕ) (st' : Pool os.Pages)
        → out ≡ done (some p) st'
        → IsPool os st'
        → st'.state ≡ s
        → p % alignment ≡ 0
        → ((q t : ℕ) → block_at st q ≡ some t → (p + size ≤ q) ⊎ (q + t ≤ p))
        → ((q : ℕ) → block_at st' q ≡ (if q == p then some size else block_at st q))
        → ((b : ℕ) → in_range p size b ≡ true → os.accessible st'.pages b ≡ true)
        → Allocated size alignment out

  module _ (laws : IsSystem os) (v : IsPool os st) where
    exponent-le : (j k : ℕ) → 2 ^ j ≤ 2 ^ k → j ≤ k
    exponent-le j k h = elim (dec_lt k j) [
      | yes p ↦
          let more : 2 ^ suc k ≤ 2 ^ j = pow-le-pow_right (omega arith) p in
          absurd (omega (arith, more, pow-suc 2 k, one-le-pow k 2 (omega arith)))
      | no p ↦ omega arith
    ]

    -- A page that can be had: its exponent, and that of a supported alignment.
    page_exponent : (k : ℕ) × (s.page_size ≡ 2 ^ k) × (k ≤ 30)
    page_exponent = let (k, e, low, high) = laws.page_is_power in (k, v.same_page ∙ e, high)

    alignment_exponent :
        (k al : ℕ)
        → s.page_size ≡ 2 ^ k
        → 0 < al
        → al < 2 ^ 64
        → (al ≤ s.page_size)
        → is_power_of_two al ≡ true
        → (j : ℕ) × (al ≡ 2 ^ j) × (j ≤ k)
    alignment_exponent k al is pos word le power =
        let (j, e) = is_power_of_two-IsPowerOfTwo al pos word power in
        (j, e, exponent-le j k (rw (← e, ← is) le))

    supported :
        (size al : ℕ)
        → is_supported os s size al ≡ true
        → (is_power_of_two al ≡ true) × (al ≤ s.page_size) × (size ≤ s.page_size)
    unfolding is_supported
    supported size al h = ground arith

    -- The block is put in the slot that was reserved.
    put_block :
        (size al n num : ℕ) (free : ℕ → ℕ) (len random : ℕ)
        → 0 < size
        → 0 < al
        → al < 2 ^ 64
        → is_supported os s size al ≡ true
        → n < num
        → num ≤ slots
        → ((i : ℕ) → i ≢ n → ltb i num ≡ ltb i st.num_allocations)
        → is_live st.num_allocations st.metadata n ≡ false
        → ((m : AllocationMetadata)
            → m.is_deallocated ≡ false
            → IsSlots num (put_at st.metadata n m) free len)
        → Allocated size al (
            (◌>>=◌ os (allocate_in_slot os n size al) (λ p. pure os (some p)))
              (with_slots num free len random))
    put_block size al n num free len random pos al_pos al_word fit used few grows vacant booked =
        let (k, is, low) = page_exponent in
        let (power, al_fits, size_fits) = supported size al fit in
        let (j, e, le) = alignment_exponent k al is al_pos al_word al_fits power in
        let st1 = with_slots num free len random in
        let below : n < s.max_simultaneous_allocations = omega (arith, used, few) in
        rw e
          (elim (allocate_in_slot-Placed os st1 v.layout k is low n size j below pos size_fits le) [
            | refused why gone ↦ rw (◌>>=◌, gone) (dies n below vacant (rw (← e) fit) why refl)
            | placed p r pages given opened f ↦
                let m = record_allocation p size (st.metadata n) in
                let fits : IsPlaced s n m = record {
                  has_size = pos;
                  after_start = f.from_start;
                  before_end = f.to_end;
                } in
                let opens = laws.mprotect_lem (slot_start s n) s.page_size st.pages pages opened in
                rw (◌>>=◌, given)
                  (gives p
                    (record st1 {
                      random_state = r;
                      pages = pages;
                      metadata = put_at st.metadata n m;
                    })
                    refl
                    (record {
                      layout = v.layout;
                      same_page = v.same_page;
                      few_allocations = few;
                      slots = booked m refl;
                      placed =
                          install-placed os laws st v n m below refl fits vacant num used few grows;
                      unused =
                          install-unused os laws st v n m below refl fits vacant num used few grows;
                      shielded =
                          install-IsShielded os laws st v n m below refl fits vacant num used few
                            grows (os.accessible st.pages) (os.accessible pages) v.shielded opens;
                    })
                    refl f.is_aligned
                    (install-apart os laws st v n m below refl fits vacant num used few grows)
                    (install-blocks os laws st v n m below refl fits vacant num used few grows)
                    (λ b inside.
                      opens b ∙ (ground (arith, fits.after_start, fits.before_end, inside))))
          ])

    -- From a state between two calls, `allocate` fails no assertion. It returns the null pointer only
    -- for a request that it does not support or where each slot is live. It ends the program only for a
    -- supported request, where `mprotect` of the page of a slot that is not live is refused in the state
    -- of the call. Else it returns an aligned pointer to bytes that are open and apart from each block, and the
    -- heap has that block more.
    pub allocate-Allocated :
        (size alignment : ℕ)
        → size < 2 ^ 64
        → alignment < 2 ^ 64
        → Allocated (real_size size) (real_alignment alignment) (allocate os size alignment st)
    unfolding allocate
    allocate-Allocated size alignment sz al =
        let enabled : (s.guarded_page_pool_end == 0) ≡ false =
          ground (arith, v.layout.end_is, v.layout.is_mapped) in
        elim (Bool-cases (is_supported os s (real_size size) (real_alignment alignment))) [
          | inr unfit ↦ rw (enabled, unfit) (declines refl (inl unfit))
          | inl fit ↦
              rw (enabled, fit)
                (elim (reserve_slot-Reserved v) [
                  | exhausted e full ↦ rw (◌>>=◌, e) (declines refl (inr full))
                  | reserved n num free len random e used few grows vacant booked ↦
                      rw (◌>>=◌, e)
                        (put_block (real_size size) (real_alignment alignment) n num free len random
                          (ground arith) (ground arith) (ground (arith, al)) fit used few grows
                          vacant booked)
                ])
        ]
