-- ===== src/Shield/Pool/Start.antt =====
-- `init` leaves the pool empty and shielded.
use native.Mathlib.Nat.{pow-le-pow_right, mul-le-mul, one-le-pow}
use remniw.Prelude.{
  ℕ, ◌+◌, ◌*◌, ◌%◌, ◌^◌, ◌≤◌, ◌<◌, ◌≡◌, refl, ◌∙◌, ◌⊎◌, inl, inr, true, false, not, ◌||◌, none,
  some, ◌≢◌, ◌==◌, arith, Bool-cases, Option-cases,
}
use remniw.Prelude.Bits.{u64}
use remniw.Shield.Layout.{AllocatorState, IsLayout, unknown, slots_up_to, slots_below}
use remniw.Shield.Options.{Options, is_negative}
use remniw.Shield.System.{System, IsSystem, in_range}
use remniw.Shield.Words.{is_power_of_two, pow-is_power_of_two}
use remniw.Shield.Pool.{Pool, Outcome, done, died, ◌>>=◌ as bind}
use remniw.Shield.Pool.Place.{multiple-mod}
use remniw.Shield.Pool.Valid.{IsPool, block_at, first_some-none, entry}
use remniw.Shield.Pool.Tables.{NoTables, no_memory, tables, map_tables-Mapped}
use remniw.Shield.Pool.Init.{
  no_metadata, no_state, new_pool, init, reserve_guarded_pool, check_mapped, ◌>>=◌,
}

module _ (os : System) (laws : IsSystem os) where
  -- The system refuses the bytes of the pool of so many slots; or it gives them, and refuses the tables.
  pub data NoMemory (max : ℕ) (pages : os.Pages) : Type 0 where
    no_pool :
        os.mmap_none (os.page_size + 2 * (os.page_size * max)) pages ≡ none → NoMemory max pages
    no_tables :
        (a : ℕ) (p : os.Pages)
        → os.mmap_none (os.page_size + 2 * (os.page_size * max)) pages ≡ some (a, p)
        → NoTables os max p
        → NoMemory max pages

  -- What `init` comes to: nothing, where the allocator is not enabled or has no slots; the end, where it
  -- is enabled and the number of slots is negative or the system refuses the memory for them; or an empty
  -- pool.
  pub data Initialized (opts : Options) (pages : os.Pages)
      (out : Outcome (Pool os.Pages) (Unit {0})) : Type 0 where
    is_disabled :
        out ≡ done tt (new_pool pages)
        → (opts.enabled ≡ false) ⊎ (opts.max_simultaneous_allocations ≡ 0)
        → Initialized opts pages out
    fails :
        opts.enabled ≡ true
        → opts.max_simultaneous_allocations ≢ 0
        → (is_negative opts.max_simultaneous_allocations ≡ true)
          ⊎ NoMemory opts.max_simultaneous_allocations pages
        → out ≡ died
        → Initialized opts pages out
    is_ready :
        (st : Pool os.Pages)
        → out ≡ done tt st
        → IsPool os st
        → st.state.max_simultaneous_allocations ≡ opts.max_simultaneous_allocations
        → st.state.failure_type ≡ unknown
        → ((q : ℕ) → block_at st q ≡ none)
        → Initialized opts pages out

  abbrev state_at : ℕ → ℕ → AllocatorState
  state_at max pool =
      let s = record no_state { max_simultaneous_allocations = max; page_size = os.page_size } in
      record s {
        guarded_page_pool = pool;
        guarded_page_pool_end = u64 (pool + (s.page_size + 2 * (s.page_size * max)));
      }

  required_lem :
      (max : ℕ)
      → max < 2 ^ 31
      → (os.page_size * (1 + max) + os.page_size * max ≡ os.page_size + 2 * (os.page_size * max))
        × (os.page_size + 2 * (os.page_size * max) < 2 ^ 63)
  required_lem max lt =
      let (k, is, low, high) = laws.page_is_power in
      let page : os.page_size ≤ 2 ^ 30 = rw is (pow-le-pow_right (omega arith) {j = 30} high) in
      let few : max ≤ 2 ^ 31 = omega arith in
      let all : os.page_size * max ≤ 2 ^ 30 * 2 ^ 31 = mul-le-mul page few in
      (grind arith, omega (arith, page, all))

  state_at-IsLayout :
      (max pool : ℕ)
      → 0 < max
      → max < 2 ^ 31
      → 0 < pool
      → pool % os.page_size ≡ 0
      → pool + (os.page_size + 2 * (os.page_size * max)) < 2 ^ 64
      → IsLayout (state_at max pool)
  state_at-IsLayout max pool pos lt mapped whole fits =
      let (k, is, low, high) = laws.page_is_power in
      let (sum, small) = required_lem max lt in
      record {
        has_slots = pos;
        has_pages = rw is (one-le-pow k 2 (omega arith));
        is_mapped = mapped;
        at_page = whole;
        end_is = omega (arith, sum, small, fits);
        is_word = omega arith;
      }

  empty_pool : AllocatorState → os.Pages → Pool os.Pages
  empty_pool s pages = record (new_pool pages) { state = s }

  -- An empty pool, of which no byte is open.
  empty-IsPool :
      (s : AllocatorState) (pages : os.Pages)
      → IsLayout s
      → s.page_size ≡ os.page_size
      → ((b : ℕ)
          → in_range s.guarded_page_pool
              (s.page_size + 2 * (s.page_size * s.max_simultaneous_allocations))
              b
            ≡ true
          → os.accessible pages b ≡ false)
      → IsPool os (empty_pool s pages)
  unfolding empty_pool
  empty-IsPool s pages v same shut = record {
    layout = v;
    same_page = same;
    few_allocations = omega arith;
    slots = record {
      counted = refl;
      free_below = λ i lt. absurd (omega arith);
      free_dead = λ i lt. absurd (omega arith);
      free_distinct = λ i j lt l e. absurd (omega arith);
    };
    placed = λ n lt. absurd (omega arith);
    unused = λ n le. refl;
    shielded = record {
      slot_pages = λ n b lt inside. shut b (ground (arith, slots_below s v n lt)) ∙ ground arith;
      guard_pages = λ n b le inside. shut b (ground (arith, slots_up_to s v n le));
    };
  }

  empty-blocks :
      (s : AllocatorState) (pages : os.Pages) (q : ℕ) → block_at (empty_pool s pages) q ≡ none
  unfolding empty_pool
  empty-blocks s pages q =
      first_some-none (entry 0 (λ _. no_metadata) q) s.max_simultaneous_allocations
        (λ i lt. ground arith)

  -- `init` fails no assertion. Where the allocator is enabled and has slots, it ends the program, only for
  -- a negative number of them or where the system refuses the memory, or leaves a pool that is empty, with the slots that were asked for, and no byte of it open.
  pub init-Initialized :
      (opts : Options) (pages : os.Pages)
      → opts.max_simultaneous_allocations < 2 ^ 32
      → Initialized opts pages (init os opts (new_pool pages))
  unfolding init reserve_guarded_pool empty_pool
  init-Initialized opts pages word =
      let max = opts.max_simultaneous_allocations in
      elim (Bool-cases (not opts.enabled || max == 0)) [
        | inl off ↦ rw off (is_disabled refl (ground arith))
        | inr on ↦ elim (Bool-cases (is_negative max)) [
          | inl negative ↦
              rw (on, bind, negative) (fails (ground arith) (ground arith) (inl negative) refl)
          | inr fine ↦
              let (k, is, low, high) = laws.page_is_power in
              let power : is_power_of_two os.page_size ≡ true =
                rw is (pow-is_power_of_two k (omega arith)) in
              let (sum, small) = required_lem max (ground arith) in
              let size : u64 (os.page_size * (1 + max) + os.page_size * max)
                  ≡ os.page_size + 2 * (os.page_size * max) =
                omega (arith, sum, small) in
              let whole : (os.page_size + 2 * (os.page_size * max)) % os.page_size ≡ 0 =
                multiple-mod os.page_size (os.page_size + 2 * (os.page_size * max))
                  (rw is (one-le-pow k 2 (omega arith))) (1 + 2 * max, grind arith) in
              let bytes = os.page_size + 2 * (os.page_size * max) in
              rw (on, bind, fine, power, size)
                (rw (◌>>=◌, bind, reserve_guarded_pool, whole, check_mapped, size)
                  (elim (Option-cases (os.mmap_none bytes pages)) [
                    | inl gone ↦
                        rw gone (fails (ground arith) (ground arith) (inr (no_pool gone)) refl)
                    | inr ((a, p), e) ↦
                        let (pos, at_page, fits, fresh) = laws.mmap_none_lem bytes a pages p e in
                        let layout =
                          state_at-IsLayout max a (ground arith) (ground arith) pos at_page fits in
                        rw (e, size)
                          (elim (map_tables-Mapped os laws (empty_pool (state_at max a) p) k is refl
                            high) [
                              | no_memory why gone ↦ rw gone (
                                  fails (ground arith) (ground arith) (inr (no_tables a p e why))
                                    refl)
                              | tables q f kept ↦ rw f (
                                  is_ready (empty_pool (state_at max a) q) refl
                                    (empty-IsPool (state_at max a) q layout refl (λ b inside.
                                      let (has, shut) = fresh b inside in kept b has ∙ shut))
                                    refl refl (empty-blocks (state_at max a) q))
                            ])
                  ]))
        ]
      ]
