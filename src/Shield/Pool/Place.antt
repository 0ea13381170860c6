-- ===== src/Shield/Pool/Place.antt =====
-- Where `allocate` puts a block in the slot that it has reserved.
use native.Mathlib.Nat.{div-add-mod', one-le-pow}
use remniw.Prelude.{
  ℕ, ◌+◌, ◌-◌, ◌*◌, ◌/◌, ◌%◌, ◌^◌, ◌≤◌, ◌<◌, ◌≡◌, refl, ap, ◌∙◌, inl, inr, true, none, some, leb,
  ◌==◌, arith, Bool-cases, Option-cases, le→leb,
}
use remniw.Prelude.Bits.{u64, mod_unique}
use remniw.Shield.Layout.{AllocatorState, IsLayout, slot_to_addr_lem, slots_below, get_nearest_slot}
use remniw.Shield.Layout.Nearest.{slot_start, get_nearest_slot-slot}
use remniw.Shield.System.{System}
use remniw.Shield.Words.{
  align_up_self, align_down_lem, get_page_addr, get_page_addr_lem, round_up_to, round_up_to_one,
  IsMultiple, IsMultiple-trans, pow-IsMultiple, below_multiple,
}
use remniw.Shield.Pool.{
  Pool, Outcome, done, died, put_at, choose_pointer, allocate_in_slot, allocate_in_guarded_pool,
  xorshift, get_random_unsigned32, record_allocation, ◌>>=◌,
}

pub multiple-mod : (a s : ℕ) → 0 < a → IsMultiple a s → s % a ≡ 0
multiple-mod a s pos (q, e) = mod_unique s a q 0 (omega (arith, e)) pos

pub rounded-mod : (a x : ℕ) → 0 < a → (x - x % a) % a ≡ 0
rounded-mod a x pos = multiple-mod a (x - x % a) pos (x / a, omega (arith, div-add-mod' x a))

-- A pointer of the slot, for a block in it.
pub record Fits (s : AllocatorState) (n size alignment p : ℕ) : Type 0 where
  pub from_start : slot_start s n ≤ p
  pub to_end : p + size ≤ slot_start s n + s.page_size
  pub is_aligned : p % alignment ≡ 0

module _ (os : System) (s : AllocatorState) (v : IsLayout s) where
  abbrev page : ℕ
  page = s.page_size

  pub start-IsMultiple : (n : ℕ) → IsMultiple page (slot_start s n)
  start-IsMultiple n =
      let q = s.guarded_page_pool / page in
      let shift : (q + 1 + 2 * n) * page ≡ q * page + page + 2 * (page * n) = grind arith in
      (q + 1 + 2 * n, omega (arith, shift, div-add-mod' s.guarded_page_pool page, v.at_page))

  pub page_whole : page % page ≡ 0
  page_whole = mod_unique page page 1 0 (omega arith) v.has_pages

  pub start-word : (n : ℕ) → n < s.max_simultaneous_allocations → slot_start s n + page < 2 ^ 64
  start-word n lt = omega (arith, slots_below s v n lt, v.end_is, v.is_word)

  module _ (k : ℕ) (is_page : page ≡ 2 ^ k) (few : k ≤ 30) where
    start-pow : (n j : ℕ) → j ≤ k → IsMultiple (2 ^ j) (slot_start s n)
    start-pow n j le =
        IsMultiple-trans (2 ^ j) page (slot_start s n) (rw is_page (pow-IsMultiple j k le))
          (start-IsMultiple n)

    choose_pointer-Fits :
        (random n size j : ℕ)
        → n < s.max_simultaneous_allocations
        → 0 < size
        → size ≤ page
        → j ≤ k
        → (p : ℕ) × (choose_pointer os random (slot_start s n) (slot_start s n + page) size (2 ^ j)
            ≡ some p)
          × Fits s n size (2 ^ j) p
    unfolding choose_pointer
    choose_pointer-Fits random n size j lt pos fits le =
        let base = slot_start s n in
        let x = base + page - size in
        let power : 0 < 2 ^ j = one-le-pow j 2 (omega arith) in
        let many = start-pow n j le in
        let aligned : base % 2 ^ j ≡ 0 = multiple-mod (2 ^ j) base power many in
        let low : base ≤ x - x % 2 ^ j = below_multiple (2 ^ j) base x power many (omega arith) in
        let word : u64 (base + page + 2 ^ 64 - size) ≡ x = omega (arith, start-word n lt) in
        elim (Bool-cases (random % 2 == 0)) [
          | inl even ↦ rw even (
            base,
            align_up_self j (omega arith) base aligned,
            record { from_start = omega arith; to_end = omega arith; is_aligned = aligned },
          )
          | inr odd ↦
              rw (odd, word)
                (
                  x - x % 2 ^ j,
                  align_down_lem j (omega arith) x,
                  record {
                    from_start = low;
                    to_end = omega arith;
                    is_aligned = rounded-mod (2 ^ j) x power;
                  },
                )
        ]

-- What `allocate` does in a slot: the system does not open its page, or the block is recorded and it does.
module _ (os : System) (st : Pool os.Pages) where
  pub data Placed (n size alignment : ℕ) (out : Outcome (Pool os.Pages) ℕ) : Type 0 where
    refused :
        os.mprotect_read_write (slot_start st.state n) st.state.page_size st.pages ≡ none
        → out ≡ died
        → Placed n size alignment out
    placed :
        (p random : ℕ) (pages : os.Pages)
        → out
          ≡ done p (record st {
            random_state = random;
            pages = pages;
            metadata = put_at st.metadata n (record_allocation p size (st.metadata n));
          })
        → os.mprotect_read_write (slot_start st.state n) st.state.page_size st.pages ≡ some pages
        → Fits st.state n size alignment p
        → Placed n size alignment out

  module _ (v : IsLayout st.state) (k : ℕ) (is_page : st.state.page_size ≡ 2 ^ k)
      (few : k ≤ 30) where
    page_of_block :
        (n size j p : ℕ)
        → n < st.state.max_simultaneous_allocations
        → 0 < size
        → Fits st.state n size (2 ^ j) p
        → get_page_addr p st.state.page_size ≡ slot_start st.state n
    page_of_block n size j p lt pos fits =
        let base = slot_start st.state n in
        let word = start-word os st.state v n lt in
        let (q, start) = start-IsMultiple os st.state v n in
        let inside : p % st.state.page_size ≡ p - base =
          mod_unique p st.state.page_size q (p - base) (omega (arith, start, fits.from_start))
            (omega (arith, fits.to_end, fits.from_start)) in
        let addr : get_page_addr p st.state.page_size ≡ p - p % st.state.page_size =
          rw is_page (get_page_addr_lem k (omega arith) p (omega (arith, fits.to_end, word))) in
        addr ∙ omega (arith, inside, fits.from_start)

    pub allocate_in_slot-Placed :
        (n size j : ℕ)
        → n < st.state.max_simultaneous_allocations
        → 0 < size
        → size ≤ st.state.page_size
        → j ≤ k
        → Placed n size (2 ^ j) (allocate_in_slot os n size (2 ^ j) st)
    unfolding allocate_in_slot get_random_unsigned32 allocate_in_guarded_pool
    allocate_in_slot-Placed n size j lt pos fits le =
        let (p, e, f) =
          choose_pointer-Fits os st.state v k is_page few (xorshift st.random_state) n size j lt pos
            fits le in
        let base = slot_start st.state n in
        let word = start-word os st.state v n lt in
        let near : get_nearest_slot st.state base ≡ some n =
          ap (get_nearest_slot st.state) (omega arith)
          ∙ get_nearest_slot-slot st.state v n 0 lt v.has_pages in
        let slot_end : u64 (base + st.state.page_size) ≡ base + st.state.page_size =
          omega (arith, word) in
        let block_end : u64 (p + size) ≡ p + size = omega (arith, word, f.to_end) in
        let low : leb base p ≡ true = le→leb base p f.from_start in
        let high : leb (p + size) (base + st.state.page_size) ≡ true =
          le→leb (p + size) (base + st.state.page_size) f.to_end in
        let at_start : base % st.state.page_size ≡ 0 =
          multiple-mod st.state.page_size base v.has_pages (start-IsMultiple os st.state v n) in
        let addr = page_of_block n size j p lt pos f in
        let rounded : round_up_to size st.state.page_size ≡ st.state.page_size =
          rw is_page
            (round_up_to_one k (omega arith) size pos (rw (← is_page) fits) (omega arith)) in
        rw
          (slot_to_addr_lem st.state v n lt, slot_end, near, e, low, block_end, high, addr, rounded)
          (rw (◌>>=◌, allocate_in_guarded_pool, at_start, page_whole os st.state v)
            (elim (Option-cases (os.mprotect_read_write base st.state.page_size st.pages)) [
              | inl gone ↦ rw gone (refused gone refl)
              | inr (pages, given) ↦
                  rw given (placed p (xorshift st.random_state) pages refl given f)
            ]))
