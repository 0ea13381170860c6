-- ===== src/Shield/Layout/Nearest.antt =====
-- `getNearestSlot` finds the slot that an address is in, and the nearest one for an address in a
-- guard page.
use native.Mathlib.Nat.{mul-le-mul_left, mul-suc, div-add-mod'}
use native.Mathlib.Decide.{dec_lt, ℕ_discrete}
use remniw.Prelude.{
  ℕ, zero, suc, ◌+◌, ◌-◌, ◌*◌, ◌/◌, ◌%◌, ◌^◌, ◌≤◌, ◌<◌, ◌≡◌, refl, ap, inl, inr, true, false, some,
  ltb, leb, ◌==◌, if◌then◌else◌, arith, Bool-cases, leb→le, ltb→lt,
}
use remniw.Prelude.Bits.{u64, mod_unique}
use remniw.Shield.Layout.{
  AllocatorState, IsLayout, get_nearest_slot, addr_to_slot, slots_below, slots_up_to,
  is_guard_page_slot, is_guard_page_guard, addr_to_slot_lem,
}

-- How far an address is from a slot: from its first byte, or from the end of its last.
abbrev pub slot_start : AllocatorState → ℕ → ℕ
slot_start s n = s.guarded_page_pool + s.page_size + 2 * (s.page_size * n)

abbrev pub distance : AllocatorState → ℕ → ℕ → ℕ
distance s a n =
    if ltb a (slot_start s n) then slot_start s n - a else a - (slot_start s n + s.page_size)

module _ (s : AllocatorState) (v : IsLayout s) where
  abbrev pool : ℕ
  pool = s.guarded_page_pool

  abbrev page : ℕ
  page = s.page_size

  abbrev slots : ℕ
  slots = s.max_simultaneous_allocations

  -- One more slot is one more page.
  pub further : (k n : ℕ) → k < n → page * k + page ≤ page * n
  further k n lt = omega (arith, mul-le-mul_left page lt, mul-suc page k)

  first_bound : u64 (pool + page) ≡ pool + page
  first_bound = omega (arith, v.end_is, v.is_word)

  last_bound : u64 (s.guarded_page_pool_end + 2 ^ 64 - page) ≡ pool + 2 * (page * slots)
  last_bound = omega (arith, v.end_is, v.is_word)

  last_slot : slots < 2 ^ 64 → u64 (slots + 2 ^ 64 - 1) ≡ slots - 1
  last_slot h = omega (arith, v.has_slots)

  pub few_slots : slots < 2 ^ 64
  few_slots = grind (arith, v.end_is, v.is_word, v.has_pages)

  first : (n d : ℕ) → slot_start s n + d ≤ pool + page → 0 ≡ n
  first n d low = elim (dec_lt 0 n) [
    | yes p ↦ absurd (omega (arith, further 0 n p, v.has_pages))
    | no p ↦ omega arith
  ]

  last :
      (n d : ℕ)
      → n < slots
      → d < page
      → pool + 2 * (page * slots) < slot_start s n + d
      → slots - 1 ≡ n
  last n d lt inside top = elim (dec_lt (n + 1) slots) [
    | yes p ↦ absurd (omega (arith, further n (n + 1) (omega arith), further (n + 1) slots p))
    | no p ↦ omega arith
  ]

  -- The address of a byte of a slot finds the slot.
  pub get_nearest_slot-slot :
      (n d : ℕ) → n < slots → d < page → get_nearest_slot s (slot_start s n + d) ≡ some n
  unfolding get_nearest_slot
  get_nearest_slot-slot n d lt inside =
      let a = slot_start s n + d in
      elim (Bool-cases (leb a (pool + page))) [
        | inl low ↦ rw (first_bound, low) (ap some (first n d (leb→le a (pool + page) low)))
        | inr high ↦ elim (Bool-cases (ltb (pool + 2 * (page * slots)) a)) [
          | inl top ↦
              rw (first_bound, high, last_bound, top, last_slot few_slots)
                (ap some (last n d lt inside (ltb→lt (pool + 2 * (page * slots)) a top)))
          | inr mid ↦
              rw (first_bound, high, last_bound, mid, is_guard_page_slot s v n d lt inside)
                (ap some (addr_to_slot_lem s v n d lt inside))
        ]
      ]

  -- In the guard page before slot `n`, or after the last slot.
  abbrev pub guard_start : ℕ → ℕ
  guard_start n = pool + 2 * (page * n)

  at_page : (n d : ℕ) → d < page → (guard_start n + d) % page ≡ d
  at_page n d inside =
      let base = div-add-mod' pool page in
      let q = pool / page in
      let shift : (q + 2 * n) * page ≡ q * page + 2 * (page * n) = grind arith in
      mod_unique (guard_start n + d) page (q + 2 * n) d (omega (arith, base, v.at_page, shift))
        inside

  abbrev pub guard_choice : ℕ → ℕ → ℕ
  guard_choice zero d = 0
  guard_choice (suc m) d = if suc m == slots then m else if leb d (page / 2) then m else suc m

  top_is_last :
      (m d : ℕ)
      → suc m ≤ slots
      → d < page
      → pool + 2 * (page * slots) < guard_start (suc m) + d
      → suc m ≡ slots
  top_is_last m d le inside top = elim (dec_lt (suc m) slots) [
    | yes p ↦ absurd (omega (arith, further (suc m) slots p))
    | no p ↦ omega arith
  ]

  mid_is_inner :
      (m d : ℕ)
      → suc m ≤ slots
      → ltb (pool + 2 * (page * slots)) (guard_start (suc m) + d) ≡ false
      → leb d (page / 2) ≡ false
      → suc m < slots
  mid_is_inner m d le mid up = elim (ℕ_discrete (suc m) slots) [
    | yes p ↦ absurd (ground (arith, ap (λ (k : ℕ). page * k) p))
    | no p ↦ omega arith
  ]

  round_down :
      (m d : ℕ)
      → suc m ≤ slots
      → d < page
      → addr_to_slot s (u64 (guard_start (suc m) + d + 2 ^ 64 - page)) ≡ m
  round_down m d le inside =
      let same : u64 (guard_start (suc m) + d + 2 ^ 64 - page) ≡ slot_start s m + d =
        omega (arith, mul-suc page m, slots_up_to s v (suc m) le, v.end_is, v.is_word) in
      rw same (addr_to_slot_lem s v m d le inside)

  round_up :
      (m d : ℕ)
      → suc m < slots
      → d < page
      → addr_to_slot s (u64 (guard_start (suc m) + d + page)) ≡ suc m
  round_up m d lt inside =
      let same : u64 (guard_start (suc m) + d + page) ≡ slot_start s (suc m) + d =
        omega (arith, slots_below s v (suc m) lt, v.end_is, v.is_word) in
      rw same (addr_to_slot_lem s v (suc m) d lt inside)

  pub get_nearest_slot-guard :
      (n d : ℕ)
      → n ≤ slots
      → d < page
      → get_nearest_slot s (guard_start n + d) ≡ some (guard_choice n d)
  unfolding get_nearest_slot
  get_nearest_slot-guard zero d le inside =
      let low : leb (guard_start 0 + d) (pool + page) ≡ true = ground arith in
      rw (first_bound, low) refl
  get_nearest_slot-guard (suc m) d le inside =
      let next = further m (suc m) (omega arith) in
      let a = guard_start (suc m) + d in
      let high : leb a (pool + page) ≡ false = ground (arith, next, v.has_pages) in
      let guard = is_guard_page_guard s v (suc m) d le inside in
      elim (Bool-cases (ltb (pool + 2 * (page * slots)) a)) [
        | inl top ↦
            let is_last : suc m ≡ slots =
              top_is_last m d le inside (ltb→lt (pool + 2 * (page * slots)) a top) in
            rw (first_bound, high, last_bound, top, last_slot few_slots)
              (ap some (ground (arith, is_last)))
        | inr mid ↦ elim (Bool-cases (leb d (page / 2))) [
          | inl down ↦
              rw
                (
                  first_bound,
                  high,
                  last_bound,
                  mid,
                  guard,
                  at_page (suc m) d inside,
                  down,
                  round_down m d le inside,
                )
                (ap some (ground arith))
          | inr up ↦
              let inner : suc m < slots = mid_is_inner m d le mid up in
              rw
                (
                  first_bound,
                  high,
                  last_bound,
                  mid,
                  guard,
                  at_page (suc m) d inside,
                  up,
                  round_up m d inner inside,
                )
                (ap some (ground (arith, inner)))
        ]
      ]
