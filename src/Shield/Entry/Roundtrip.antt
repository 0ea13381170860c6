-- ===== src/Shield/Entry/Roundtrip.antt =====
-- A block that is allocated and at once deallocated.
use remniw.Prelude.{
  ℕ, ◌+◌, ◌^◌, ◌≤◌, ◌<◌, ◌≡◌, refl, ◌∙◌, ◌⊎◌, inl, inr, true, false, Option, none, some, ◌==◌,
  if◌then◌else◌, arith, Bool-cases, Option-cases, ==→eq,
}
use remniw.Shield.Layout.{pointer_is_mine, slots_below}
use remniw.Shield.System.{System, IsSystem}
use remniw.Shield.Layout.Nearest.{slot_start}
use remniw.Shield.Pool.{
  Pool, Outcome, done, trapped, died, asserted, real_size, real_alignment, is_supported,
}
use remniw.Shield.Pool.Valid.{IsPool, is_live, block_at}
use remniw.Shield.Pool.Slots.{live_count}
use remniw.Shield.Pool.Install.{block_at-some}
use remniw.Shield.Pool.Allocate.{declines, dies, gives, allocate-Allocated}
use remniw.Shield.Pool.Deallocate.{
  frees, freed_before, never_given, deallocate-Deallocated, dies as dies_shutting,
}
use remniw.Shield.Entry.{
  Library, Program, as_alloc, as_dealloc, aphotic_shield_allocate, aphotic_shield_deallocate,
}

module _ (os : System) (lib : Library) (laws : IsSystem os) where
  -- A block is in the pool, and has bytes.
  block-mine :
      (st : Pool os.Pages)
      → IsPool os st
      → (p t : ℕ) → block_at st p ≡ some t
      → (pointer_is_mine st.state p ≡ true) × (0 < t)
  unfolding pointer_is_mine
  block-mine st v p t h =
      let (n, lt, live, w, at, size) = block_at-some os laws st v p t h in
      (
        ground (
          arith,
          at,
          w.after_start,
          w.before_end,
          w.has_size,
          slots_below st.state v.layout n lt,
          v.layout.end_is,
        ),
        omega (arith, size, w.has_size),
      )

  -- An allocation and a deallocation of the same pointer.
  abbrev pub alloc_dealloc : ℕ → Program os lib → Outcome (Program os lib) (Unit {0})
  alloc_dealloc size program = elim (as_alloc os lib size program) [
    | done p program' ↦ as_dealloc os lib p program'
    | trapped program' ↦ trapped program'
    | died ↦ died
    | asserted ↦ asserted
  ]

  pub data Restored (size : ℕ) (st : Pool os.Pages) (c : lib.State)
      (out : Outcome (Program os lib) (Unit {0})) : Type 0 where
    by_pool :
        (st' : Pool os.Pages)
        → out ≡ done tt (st', c)
        → IsPool os st'
        → ((q : ℕ) → block_at st' q ≡ block_at st q)
        → Restored size st c out
    by_library :
        (is_supported os st.state (real_size size) (real_alignment 0) ≡ false)
          ⊎ (live_count st.metadata st.state.max_simultaneous_allocations
              ≡ st.state.max_simultaneous_allocations)
        → out ≡ done tt (st, lib.free (lib.malloc size c).0 (lib.malloc size c).1)
        → Restored size st c out
    refused_opening :
        (n : ℕ)
        → n < st.state.max_simultaneous_allocations
        → is_live st.num_allocations st.metadata n ≡ false
        → is_supported os st.state (real_size size) (real_alignment 0) ≡ true
        → os.mprotect_read_write (slot_start st.state n) st.state.page_size st.pages ≡ none
        → out ≡ died
        → Restored size st c out
    refused_shutting :
        (n p : ℕ) (st' : Pool os.Pages)
        → as_alloc os lib size (st, c) ≡ done p (st', c)
        → (st'.metadata n).addr ≡ p
        → block_at st' p ≡ some (real_size size)
        → os.mmap_fixed_none (slot_start st'.state n) st'.state.page_size st'.pages ≡ none
        → out ≡ died
        → Restored size st c out

  -- From a state between two calls, for a size that is a word, where `malloc` gives no pointers into the pool: a block that `as_alloc`
  -- gives goes back with `as_dealloc` to where it came from. The heap of the pool is what it was, and the
  -- library was not called. Where the pool does not support the size or has no free slot, the library's `free` has the pointer of its `malloc`, and the pool is what
  -- it was. The program ends only where the system refuses, in the state of the first call, to open the page
  -- of a free slot, for a supported size; or, in the state after `as_alloc` has given the block, to shut the
  -- page of the slot that has it.
  pub as_dealloc-as_alloc :
      (size : ℕ) (st : Pool os.Pages) (c : lib.State)
      → IsPool os st
      → size < 2 ^ 64
      → pointer_is_mine st.state (lib.malloc size c).0 ≡ false
      → Restored size st c (alloc_dealloc size (st, c))
  unfolding as_alloc as_dealloc aphotic_shield_allocate aphotic_shield_deallocate
  as_dealloc-as_alloc size st c v word apart_from_pool =
      elim (allocate-Allocated os st laws v size 0 word (omega arith)) [
        | declines e why ↦
            rw
              (
                alloc_dealloc, as_alloc, aphotic_shield_allocate, e, as_dealloc,
                aphotic_shield_deallocate, apart_from_pool,
              )
              (by_library why refl)
        | dies n lt vacant fit why e ↦
            rw (alloc_dealloc, as_alloc, aphotic_shield_allocate, e)
              (refused_opening n lt vacant fit why refl)
        | gives p st1 e w same aligned apart blocks opens ↦
            let block : block_at st1 p ≡ some (real_size size) = blocks p ∙ ground arith in
            let (mine, pos) = block-mine st1 w p (real_size size) block in
            elim (deallocate-Deallocated os laws st1 w p mine) [
              | frees t st2 was f w2 same2 blocks2 shut ↦
                  rw
                    (
                      alloc_dealloc, as_alloc, aphotic_shield_allocate, e, as_dealloc,
                      aphotic_shield_deallocate, mine, f,
                    )
                    (by_pool st2 refl w2 (λ q.
                      blocks2 q
                      ∙ back p size st1 (λ q t h. (block-mine st v q t h).1) apart blocks pos q))
              | dies_shutting n t lt at was why f ↦
                  rw
                    (
                      alloc_dealloc, as_alloc, aphotic_shield_allocate, e, as_dealloc,
                      aphotic_shield_deallocate, mine, f,
                    )
                    (refused_shutting n p st1 (rw (as_alloc, aphotic_shield_allocate, e) refl) at
                      block why refl)
              | freed_before n gone lt dead at f ↦ absurd (not_both gone block)
              | never_given gone none_at f ↦ absurd (not_both gone block)
            ]
      ]
    where
      not_both : {o : Option ℕ} {t : ℕ} → o ≡ none → o ≡ some t → ⊥
      not_both a b = grind arith

      back :
          (p size : ℕ) (st1 : Pool os.Pages)
          → ((q t : ℕ) → block_at st q ≡ some t → 0 < t)
          → ((q t : ℕ) → block_at st q ≡ some t → (p + real_size size ≤ q) ⊎ (q + t ≤ p))
          → ((q : ℕ) → block_at st1 q ≡ (if q == p then some (real_size size) else block_at st q))
          → 0 < real_size size
          → (q : ℕ) → (if q == p then none else block_at st1 q) ≡ block_at st q
      back p size st1 sized apart blocks pos q = elim (Bool-cases (q == p)) [
        | inr other ↦ rw (other, blocks q, other) refl
        | inl at ↦ elim (Option-cases (block_at st q)) [
          | inl gone ↦ rw (at, gone) refl
          | inr (t, is) ↦
              let same = ==→eq q p at in
              elim (apart q t is) [
                | inl low ↦ absurd (omega (arith, low, same, pos))
                | inr high ↦ absurd (omega (arith, high, same, sized q t is))
              ]
        ]
      ]
