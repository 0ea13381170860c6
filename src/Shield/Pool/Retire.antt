-- ===== src/Shield/Pool/Retire.antt =====
-- A live slot that is freed: what becomes of the pool and of its heap.
use native.Mathlib.Decide.{ℕ_discrete}
use remniw.Prelude.{
  ℕ, ◌-◌, ◌≤◌, ◌<◌, ◌≡◌, ◌≢◌, refl, sym, ap, ◌∙◌, inl, inr, Bool, true, false, none, some, ◌==◌,
  if◌then◌else◌, arith, Bool-cases, ==→eq, Option-cases,
}
use remniw.Shield.Layout.{AllocatorState, get_nearest_slot}
use remniw.Shield.Layout.Nearest.{slot_start, get_nearest_slot-slot}
use remniw.Shield.System.{System, IsSystem, in_range}
use remniw.Shield.Pool.{Pool, AllocationMetadata, put_at, record_deallocation}
use remniw.Shield.Pool.Slots.{put_at-same, put_at-other}
use remniw.Shield.Pool.Valid.{
  IsPool, IsPlaced, IsShielded, is_live, block_at, blocks, entry, first_some-ext, first_some-none,
  first_some-at, slots_apart, guard_apart,
}
use remniw.Shield.Pool.Install.{entry-some, entry-none}

module _ (os : System) (laws : IsSystem os) (st : Pool os.Pages) (v : IsPool os st) where
  abbrev s : AllocatorState
  s = st.state

  abbrev slots : ℕ
  slots = s.max_simultaneous_allocations

  -- The slot of a pointer that was handed out is had from the pointer.
  pub nearest_of_block :
      (ptr i : ℕ)
      → i < st.num_allocations
      → (st.metadata i).addr ≡ ptr
      → get_nearest_slot s ptr ≡ some i
  nearest_of_block ptr i lt at =
      let w = v.placed i lt in
      let d = ptr - slot_start s i in
      ap (get_nearest_slot s) (omega (arith, w.after_start, at))
      ∙ get_nearest_slot-slot s v.layout i d (omega (arith, lt, v.few_allocations))
          (omega (arith, at, w.has_size, w.after_start, w.before_end))

  pub only_nearest :
      (ptr i n : ℕ)
      → i < st.num_allocations
      → (st.metadata i).addr ≡ ptr
      → get_nearest_slot s ptr ≡ some n
      → i ≡ n
  only_nearest ptr i n lt at near =
      let same : some i ≡ some n = sym (nearest_of_block ptr i lt at) ∙ near in grind arith

  -- No block is found at a pointer, of which the slot has no live block there.
  pub no_block :
      (ptr n : ℕ)
      → get_nearest_slot s ptr ≡ some n
      → ((st.metadata n).addr ≡ ptr → is_live st.num_allocations st.metadata n ≡ false)
      → block_at st ptr ≡ none
  no_block ptr n near dead =
      first_some-none (entry st.num_allocations st.metadata ptr) slots (λ i lt.
        elim (Option-cases (entry st.num_allocations st.metadata ptr i)) [
          | inl gone ↦ gone
          | inr (t, e) ↦
              let (live, below, alive, at, size) =
                entry-some st.num_allocations st.metadata ptr i t e in
              let same = only_nearest ptr i n below at near in
              absurd (not_both (dead (rw (← same) at)) (rw (← same) live))
        ])
    where
      not_both : {b : Bool} → b ≡ false → b ≡ true → ⊥
      not_both p q = ground arith

  -- A live slot is freed.
  module _ (n : ℕ) (below : n < st.num_allocations)
      (live : (st.metadata n).is_deallocated ≡ false) where
    abbrev dead : AllocationMetadata
    dead = record_deallocation (st.metadata n)

    abbrev md : ℕ → AllocationMetadata
    md = put_at st.metadata n dead

    abbrev ptr : ℕ
    ptr = (st.metadata n).addr

    others : (i : ℕ) → i ≢ n → entry st.num_allocations st.metadata ptr i ≡ none
    others i ne =
        entry-none st.num_allocations st.metadata ptr i
          (λ lt at. ne (only_nearest ptr i n lt at (nearest_of_block ptr n below refl)))

    pub is_block : block_at st ptr ≡ some (st.metadata n).size
    is_block =
        first_some-at (entry st.num_allocations st.metadata ptr) slots n
          (omega (arith, below, v.few_allocations)) (λ i lt ne. others i ne)
        ∙ ground arith

    -- The entry of the slot is gone, and the others are what they were.
    entry_after :
        (q i : ℕ)
        → entry st.num_allocations md q i
          ≡ (if i == n then none else entry st.num_allocations st.metadata q i)
    entry_after q i = elim (ℕ_discrete i n) [
      | yes e ↦ rw (e, put_at-same st.metadata n dead) (ground arith)
      | no other ↦
          let apart : (i == n) ≡ false = ground arith in
          rw (put_at-other st.metadata n i dead (λ e. other (sym e)), apart) refl
    ]

    pub retire-blocks :
        (q : ℕ) → blocks slots st.num_allocations md q ≡ (if q == ptr then none else block_at st q)
    retire-blocks q = elim (Bool-cases (q == ptr)) [
      | inl same ↦
          rw (same, ==→eq q ptr same)
            (first_some-none (entry st.num_allocations md ptr) slots
              (λ i lt. entry_after ptr i ∙ gone i))
      | inr other ↦ rw other (
          first_some-ext (entry st.num_allocations md q) (entry st.num_allocations st.metadata q)
            slots (λ i lt. entry_after q i ∙ kept q (ground arith) i))
    ]
      where
        gone :
            (i : ℕ) → (if i == n then none else entry st.num_allocations st.metadata ptr i) ≡ none
        gone i = elim (Bool-cases (i == n)) [
          | inl e ↦ rw e refl
          | inr e ↦ rw e (others i (ground arith))
        ]

        kept :
            (q : ℕ)
            → q ≢ ptr
            → (i : ℕ)
            → (if i == n then none else entry st.num_allocations st.metadata q i)
              ≡ entry st.num_allocations st.metadata q i
        kept q ne i = elim (Bool-cases (i == n)) [
          | inl e ↦
              rw (e, ==→eq i n e)
                (sym (entry-none st.num_allocations st.metadata q n (λ lt at. ne (sym at))))
          | inr e ↦ rw e refl
        ]

    pub retire-placed : (i : ℕ) → i < st.num_allocations → IsPlaced s i (md i)
    retire-placed i lt = elim (ℕ_discrete i n) [
      | yes e ↦
          let w = v.placed n below in
          rw (e, put_at-same st.metadata n dead)
            (record {
              has_size = w.has_size;
              after_start = w.after_start;
              before_end = w.before_end;
            })
      | no other ↦ rw (put_at-other st.metadata n i dead (λ e. other (sym e))) (v.placed i lt)
    ]

    pub retire-unused : (i : ℕ) → st.num_allocations ≤ i → (md i).addr ≡ 0
    retire-unused i le =
        rw (put_at-other st.metadata n i dead (omega (arith, below))) (v.unused i le)

    pub retire-IsShielded :
        (is_open' : ℕ → Bool)
        → ((b : ℕ)
            → is_open' b ≡ (
                if in_range (slot_start s n) s.page_size b
                then false
                else os.accessible st.pages b))
        → IsShielded s st.num_allocations md is_open'
    retire-IsShielded o' h = record {
      slot_pages = λ i b lt inside. slot_page i b lt inside;
      guard_pages = λ i b le inside.
          h b ∙ (rw (guard_apart s v.layout n i b inside) (v.shielded.guard_pages i b le inside));
    }
      where
        slot_page :
            (i b : ℕ)
            → i < slots
            → in_range (slot_start s i) s.page_size b ≡ true
            → o' b ≡ is_live st.num_allocations md i
        slot_page i b lt inside = elim (ℕ_discrete i n) [
          | yes e ↦
              let here : in_range (slot_start s n) s.page_size b ≡ true = rw (← e) inside in
              h b ∙ (rw (here, e, put_at-same st.metadata n dead) (ground arith))
          | no other ↦
              h b
              ∙ (rw
                  (
                    slots_apart s v.layout n i b other inside,
                    put_at-other st.metadata n i dead (λ e. other (sym e)),
                  )
                  (v.shielded.slot_pages i b lt inside))
        ]
