-- ===== src/Shield/Pool/Deallocate.antt =====
-- `deallocate` as a whole, from a state that the pool is in between two calls.
use native.Mathlib.Decide.{dec_lt}
use remniw.Prelude.{
  ℕ, ◌+◌, ◌%◌, ◌<◌, ◌≡◌, ◌≢◌, refl, sym, ap, ◌∙◌, inl, inr, true, false, none, some, ltb, ◌==◌,
  if◌then◌else◌, arith, Bool-cases, ==→eq, Option-cases,
}
use remniw.Shield.Layout.{
  AllocatorState, double_free, invalid_free, pointer_is_mine, slot_to_addr_lem,
}
use remniw.Shield.Layout.Nearest.{slot_start}
use remniw.Shield.Layout.Distance.{get_nearest_slot-least}
use remniw.Shield.System.{System, IsSystem, in_range}
use remniw.Shield.Pool.{
  Pool, Outcome, done, trapped, died, put_at, record_deallocation, record_freed, trap_on_address,
  deallocate_in_guarded_pool, free_slot, deallocate, ◌>>=◌,
}
use remniw.Shield.Pool.Slots.{release-room, release-IsSlots}
use remniw.Shield.Pool.Place.{multiple-mod, start-IsMultiple, page_whole}
use remniw.Shield.Pool.Valid.{IsPool, block_at}
use remniw.Shield.Pool.Retire.{
  nearest_of_block, only_nearest, no_block, is_block, retire-blocks, retire-placed, retire-unused,
  retire-IsShielded,
}

module _ (os : System) (laws : IsSystem os) (st : Pool os.Pages) (v : IsPool os st) where
  abbrev s : AllocatorState
  s = st.state

  abbrev slots : ℕ
  slots = s.max_simultaneous_allocations

  -- What a call of `deallocate` comes to: the block is gone, and its bytes are shut; or the system does
  -- not shut the page; or there is no block at the pointer, which is told apart from a second time.
  pub data Deallocated (p : ℕ) (out : Outcome (Pool os.Pages) (Unit {0})) : Type 0 where
    frees :
        (t : ℕ) (st' : Pool os.Pages)
        → block_at st p ≡ some t
        → out ≡ done tt st'
        → IsPool os st'
        → st'.state ≡ s
        → ((q : ℕ) → block_at st' q ≡ (if q == p then none else block_at st q))
        → ((b : ℕ) → in_range p t b ≡ true → os.accessible st'.pages b ≡ false)
        → Deallocated p out
    dies :
        (n t : ℕ)
        → n < st.num_allocations
        → (st.metadata n).addr ≡ p
        → block_at st p ≡ some t
        → os.mmap_fixed_none (slot_start s n) s.page_size st.pages ≡ none
        → out ≡ died
        → Deallocated p out
    freed_before :
        (n : ℕ)
        → block_at st p ≡ none
        → n < st.num_allocations
        → (st.metadata n).is_deallocated ≡ true
        → (st.metadata n).addr ≡ p
        → out
          ≡ trapped
              (record st { state = record s { failure_type = double_free; failure_address = p } })
        → Deallocated p out
    never_given :
        block_at st p ≡ none
        → ((n : ℕ) → n < st.num_allocations → (st.metadata n).addr ≢ p)
        → out
          ≡ trapped
              (record st { state = record s { failure_type = invalid_free; failure_address = p } })
        → Deallocated p out

  -- A slot with an address of the pool on record was handed out.
  recorded :
      (n p : ℕ) → (st.metadata n).addr ≡ p → pointer_is_mine s p ≡ true → n < st.num_allocations
  unfolding pointer_is_mine
  recorded n p at mine = elim (dec_lt n st.num_allocations) [
    | yes lt ↦ lt
    | no ge ↦ absurd (ground (arith, at, mine, v.unused n (omega arith), v.layout.is_mapped))
  ]

  free_live :
      (n p : ℕ)
      → n < st.num_allocations
      → (st.metadata n).is_deallocated ≡ false
      → (st.metadata n).addr ≡ p
      → pointer_is_mine s p ≡ true
      → Deallocated p (deallocate os p st)
  unfolding deallocate record_freed deallocate_in_guarded_pool free_slot
  free_live n p below live at mine =
      let near = nearest_of_block os laws st v p n below at in
      let has : ((st.metadata n).addr == p) ≡ true = ground arith in
      let lt : n < slots = omega (arith, below, v.few_allocations) in
      let base = slot_start s n in
      let at_start : base % s.page_size ≡ 0 =
        multiple-mod s.page_size base v.layout.has_pages (start-IsMultiple os s v.layout n) in
      let block : block_at st p ≡ some (st.metadata n).size =
        ap (block_at st) (sym at) ∙ is_block os laws st v n below live in
      let room : ltb st.free_slots_length slots ≡ true = ground (
        arith,
        v.few_allocations,
        release-room st.num_allocations st.metadata st.free_slots st.free_slots_length v.slots n
            below live,
      ) in
      rw (mine, near, ◌>>=◌, has, live)
        (rw
          (
            slot_to_addr_lem s v.layout n lt,
            ◌>>=◌,
            deallocate_in_guarded_pool,
            at_start,
            page_whole os s v.layout,
            slot_to_addr_lem s v.layout n lt,
          )
          (elim (Option-cases (os.mmap_fixed_none base s.page_size st.pages)) [
            | inl gone ↦ rw gone (dies n (st.metadata n).size below at block gone refl)
            | inr (pages, shut) ↦
                let w = v.placed n below in
                let shuts = laws.mmap_fixed_lem base s.page_size st.pages pages shut in
                rw (shut, room)
                  (frees (st.metadata n).size
                    (record st {
                      metadata = put_at st.metadata n (record_deallocation (st.metadata n));
                      pages = pages;
                      free_slots = put_at st.free_slots st.free_slots_length n;
                      free_slots_length = st.free_slots_length + 1;
                    })
                    block refl
                    (record {
                      layout = v.layout;
                      same_page = v.same_page;
                      few_allocations = v.few_allocations;
                      slots =
                          release-IsSlots st.num_allocations st.metadata st.free_slots
                            st.free_slots_length v.slots n below live
                            (record_deallocation (st.metadata n)) refl;
                      placed = retire-placed os laws st v n below live;
                      unused = retire-unused os laws st v n below live;
                      shielded =
                          retire-IsShielded os laws st v n below live (os.accessible pages) shuts;
                    })
                    refl (rw (← at) (retire-blocks os laws st v n below live))
                    (λ b inside.
                      shuts b ∙ (ground (arith, at, w.after_start, w.before_end, inside))))
          ]))

  -- From a state between two calls, `deallocate` of an address of the pool fails no assertion. Of a block
  -- it takes the block from the heap and shuts its bytes; or it ends the program, where `mmap` over the
  -- page of the slot that has the block is refused in the state of the call; of another address it traps, with a double free recorded where a block at that address was freed and its slot not used since,
  -- and an invalid free where no slot has that address on record.
  pub deallocate-Deallocated :
      (p : ℕ) → pointer_is_mine s p ≡ true → Deallocated p (deallocate os p st)
  unfolding deallocate record_freed trap_on_address
  deallocate-Deallocated p mine =
      let (n, near, lt, least) = get_nearest_slot-least s v.layout p mine in
      elim (Bool-cases ((st.metadata n).addr == p)) [
        | inr other ↦
            rw (mine, near, ◌>>=◌, other)
              (never_given (no_block os laws st v p n near (λ at. ground arith))
                (λ i below at. ground (arith, at, only_nearest os laws st v p i n below at near))
                refl)
        | inl at ↦ elim (Bool-cases (st.metadata n).is_deallocated) [
          | inl again ↦
              rw (mine, near, ◌>>=◌, at, again)
                (freed_before n (no_block os laws st v p n near (λ _. ground arith))
                  (recorded n p (==→eq (st.metadata n).addr p at) mine) again
                  (==→eq (st.metadata n).addr p at) refl)
          | inr live ↦
              free_live n p (recorded n p (==→eq (st.metadata n).addr p at) mine) live
                (==→eq (st.metadata n).addr p at) mine
        ]
      ]
