-- ===== src/Shield/Pool/Install.antt =====
-- A block that is recorded in a slot that is not live: what becomes of the pool and of its heap.
use native.Mathlib.Decide.{ℕ_discrete, dec_lt}
use remniw.Prelude.{
  ℕ, ◌+◌, ◌≤◌, ◌<◌, ◌≡◌, ◌≢◌, refl, sym, ◌∙◌, ◌⊎◌, inl, inr, Bool, true, false, none, some, ltb,
  ◌==◌, if◌then◌else◌, arith, Bool-cases, ==→eq,
}
use remniw.Shield.Layout.{AllocatorState}
use remniw.Shield.Layout.Nearest.{slot_start, further}
use remniw.Shield.System.{System, IsSystem, in_range}
use remniw.Shield.Pool.{Pool, AllocationMetadata, put_at}
use remniw.Shield.Pool.Slots.{put_at-same, put_at-other}
use remniw.Shield.Pool.Valid.{
  IsPool, IsPlaced, IsShielded, is_live, entry, blocks, block_at, first_some-ext, first_some-at,
  first_some-some, slots_apart, guard_apart,
}

-- An entry is found only where its block is.
pub entry-some :
    (num : ℕ) (md : ℕ → AllocationMetadata) (q n t : ℕ)
    → entry num md q n ≡ some t
    → (is_live num md n ≡ true)
      × (n < num)
      × ((md n).is_deallocated ≡ false)
      × ((md n).addr ≡ q)
      × ((md n).size ≡ t)
entry-some num md q n t h = ground arith

pub entry-none :
    (num : ℕ) (md : ℕ → AllocationMetadata) (q n : ℕ)
    → (n < num → (md n).addr ≢ q)
    → entry num md q n ≡ none
entry-none num md q n h = ground arith

module _ (os : System) (laws : IsSystem os) (st : Pool os.Pages) (v : IsPool os st) where
  abbrev s : AllocatorState
  s = st.state

  -- A block found at an address is in a slot that is live.
  pub block_at-some :
      (q t : ℕ)
      → block_at st q ≡ some t
      → (n : ℕ) × (n < s.max_simultaneous_allocations)
        × (is_live st.num_allocations st.metadata n ≡ true)
        × IsPlaced s n (st.metadata n)
        × ((st.metadata n).addr ≡ q)
        × ((st.metadata n).size ≡ t)
  block_at-some q t h =
      let (n, lt, e) =
        first_some-some (entry st.num_allocations st.metadata q) s.max_simultaneous_allocations t
          h in
      let (live, below, dead, at, is) = entry-some st.num_allocations st.metadata q n t e in
      (n, lt, live, v.placed n below, at, is)

  -- Blocks of two slots are apart.
  pub placed_apart :
      (n i : ℕ) (a b : AllocationMetadata)
      → i ≢ n
      → IsPlaced s n a
      → IsPlaced s i b
      → (a.addr + a.size ≤ b.addr) ⊎ (b.addr + b.size ≤ a.addr)
  placed_apart n i a b ne p q = elim (dec_lt n i) [
    | yes lt ↦ inl (omega (arith, p.before_end, q.after_start, further s v.layout n i lt))
    | no ge ↦ inr (omega (arith, q.before_end, p.after_start, further s v.layout i n (omega arith)))
  ]

  module _ (n : ℕ) (m : AllocationMetadata) (below : n < s.max_simultaneous_allocations)
      (live : m.is_deallocated ≡ false) (fits : IsPlaced s n m)
      (vacant : is_live st.num_allocations st.metadata n ≡ false) (num : ℕ) (used : n < num)
      (few : num ≤ s.max_simultaneous_allocations)
      (grows : (i : ℕ) → i ≢ n → ltb i num ≡ ltb i st.num_allocations) where
    abbrev md : ℕ → AllocationMetadata
    md = put_at st.metadata n m

    -- Each block of the heap is apart from the new one.
    pub install-apart :
        (q t : ℕ) → block_at st q ≡ some t → (m.addr + m.size ≤ q) ⊎ (q + t ≤ m.addr)
    install-apart q t h =
        let (i, lt, is, placed, at, size) = block_at-some q t h in
        rw (← at, ← size)
          (placed_apart n i m (st.metadata i) (λ e. ground (arith, e, vacant, is)) fits placed)

    others : (i : ℕ) → i ≢ n → entry num md m.addr i ≡ none
    others i ne = rw (put_at-other st.metadata n i m (λ e. ne (sym e))) (
        entry-none num st.metadata m.addr i (λ lt e.
          let old : i < st.num_allocations = ground (arith, grows i ne) in
          elim (placed_apart n i m (st.metadata i) ne fits (v.placed i old)) [
            | inl p ↦ absurd (omega (arith, p, e, fits.has_size))
            | inr p ↦ absurd (omega (arith, p, e, (v.placed i old).has_size))
          ]))

    here : entry num md m.addr n ≡ some m.size
    here = rw (put_at-same st.metadata n m) (ground arith)

    unchanged :
        (q : ℕ) → q ≢ m.addr → (i : ℕ) → entry num md q i ≡ entry st.num_allocations st.metadata q i
    unchanged q ne i = elim (ℕ_discrete i n) [
      | yes e ↦ rw (e, vacant, put_at-same st.metadata n m) (ground arith)
      | no other ↦ rw (put_at-other st.metadata n i m (λ e. other (sym e)), grows i other) refl
    ]

    pub install-blocks :
        (q : ℕ)
        → blocks s.max_simultaneous_allocations num md q
          ≡ (if q == m.addr then some m.size else block_at st q)
    install-blocks q = elim (Bool-cases (q == m.addr)) [
      | inl same ↦
          rw (same, ==→eq q m.addr same)
            (first_some-at (entry num md m.addr) s.max_simultaneous_allocations n below
                (λ i lt ne. others i ne)
              ∙ here)
      | inr other ↦ rw other (
          first_some-ext (entry num md q) (entry st.num_allocations st.metadata q)
            s.max_simultaneous_allocations (λ i lt. unchanged q (ground arith) i))
    ]

    pub install-IsShielded :
        (is_open is_open' : ℕ → Bool)
        → IsShielded s st.num_allocations st.metadata is_open
        → ((b : ℕ)
            → is_open' b ≡ (if in_range (slot_start s n) s.page_size b then true else is_open b))
        → IsShielded s num md is_open'
    install-IsShielded o o' w h = record {
      slot_pages = λ i b lt inside. slot_page i b lt inside;
      guard_pages = λ i b le inside.
          h b ∙ (rw (guard_apart s v.layout n i b inside) (w.guard_pages i b le inside));
    }
      where
        slot_page :
            (i b : ℕ)
            → i < s.max_simultaneous_allocations
            → in_range (slot_start s i) s.page_size b ≡ true
            → o' b ≡ is_live num md i
        slot_page i b lt inside = elim (ℕ_discrete i n) [
          | yes e ↦
              let here : in_range (slot_start s n) s.page_size b ≡ true = rw (← e) inside in
              h b ∙ (rw (here, e, put_at-same st.metadata n m) (ground arith))
          | no other ↦
              h b
              ∙ (rw
                  (
                    slots_apart s v.layout n i b other inside,
                    put_at-other st.metadata n i m (λ e. other (sym e)),
                    grows i other,
                  )
                  (w.slot_pages i b lt inside))
        ]

    pub install-placed : (i : ℕ) → i < num → IsPlaced s i (md i)
    install-placed i lt = elim (ℕ_discrete i n) [
      | yes e ↦ rw (e, put_at-same st.metadata n m) fits
      | no other ↦
          rw (put_at-other st.metadata n i m (λ e. other (sym e)))
            (v.placed i (ground (arith, grows i other)))
    ]

    pub install-unused : (i : ℕ) → num ≤ i → (md i).addr ≡ 0
    install-unused i le =
        rw (put_at-other st.metadata n i m (omega (arith, used)))
          (v.unused i (ground (arith, grows i (omega (arith, used)))))
