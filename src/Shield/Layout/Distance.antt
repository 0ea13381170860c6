-- ===== src/Shield/Layout/Distance.antt =====
-- No slot is nearer than the one that `getNearestSlot` finds.
use native.Mathlib.Nat.{
  mul-le-mul_left, mul-suc, lt_of_mul-lt-mul_left, div-add-mod', mod-lt, mul_comm,
}
use native.Mathlib.Decide.{dec_lt, ℕ_discrete}
use remniw.Prelude.{
  ℕ, zero, suc, ◌+◌, ◌-◌, ◌*◌, ◌/◌, ◌%◌, ◌≤◌, ◌<◌, ◌≡◌, ◌≢◌, ap, ◌∙◌, true, some, arith,
}
use remniw.Shield.Layout.{AllocatorState, IsLayout, pointer_is_mine, get_nearest_slot}
use remniw.Shield.Layout.Nearest.{
  slot_start, distance, guard_start, guard_choice, get_nearest_slot-slot, get_nearest_slot-guard,
}

module _ (s : AllocatorState) (v : IsLayout s) where
  abbrev pool : ℕ
  pool = s.guarded_page_pool

  abbrev page : ℕ
  page = s.page_size

  abbrev slots : ℕ
  slots = s.max_simultaneous_allocations

  -- An address of the pool is in a guard page or in a slot.
  pub data Place (a : ℕ) : Type 0 where
    in_guard : (n d : ℕ) → n ≤ slots → d < page → a ≡ guard_start s v n + d → Place a
    in_slot : (n d : ℕ) → n < slots → d < page → a ≡ slot_start s n + d → Place a

  pages_below : (q : ℕ) → q * page < page + 2 * (page * slots) → q < 2 * slots + 1
  pages_below q h =
      let all : page * (2 * slots + 1) ≡ page + 2 * (page * slots) = grind arith in
      lt_of_mul-lt-mul_left page (omega (arith, mul_comm q page, all))

  pub place : (a : ℕ) → pointer_is_mine s a ≡ true → Place a
  unfolding pointer_is_mine
  place a mine =
      let bounds : (pool ≤ a) × (a < s.guarded_page_pool_end) = ground arith in
      let q = (a - pool) / page in
      let n = q / 2 in
      let d = (a - pool) % page in
      let inside : d < page = mod-lt (a - pool) v.has_pages in
      let split = div-add-mod' (a - pool) page in
      let few = pages_below q (omega (arith, split, bounds, v.end_is)) in
      elim (ℕ_discrete (q % 2) 0) [
        | yes even ↦
            let twice : q * page ≡ 2 * (page * n) = even_pages q even in
            in_guard n d (omega (arith, few, even)) inside (omega (arith, split, twice, bounds))
        | no odd ↦
            let twice : q * page ≡ page + 2 * (page * n) = odd_pages q odd in
            in_slot n d (omega (arith, few, odd)) inside (omega (arith, split, twice, bounds))
      ]
    where
      even_pages : (q : ℕ) → q % 2 ≡ 0 → q * page ≡ 2 * (page * (q / 2))
      even_pages q e =
          let half : q ≡ 2 * (q / 2) = omega arith in ap (λ (k : ℕ). k * page) half ∙ (grind arith)

      odd_pages : (q : ℕ) → q % 2 ≢ 0 → q * page ≡ page + 2 * (page * (q / 2))
      odd_pages q e =
          let half : q ≡ 2 * (q / 2) + 1 = omega arith in
          ap (λ (k : ℕ). k * page) half ∙ (grind arith)

  -- From a guard page it is `d` to the slot before it, and the rest of the page to the one after it.
  guard_distance :
      (n d k : ℕ)
      → n ≤ slots
      → d < page
      → k < slots
      → distance s (guard_start s v n + d) (guard_choice s v n d)
        ≤ distance s (guard_start s v n + d) k
  guard_distance zero d k le inside lt =
      let up : page * 0 ≤ page * k = mul-le-mul_left page (omega arith) in ground (arith, up)
  guard_distance (suc m) d k le inside lt = elim (dec_lt k (suc m)) [
    | yes p ↦
        let before : page * k ≤ page * m = mul-le-mul_left page (omega arith) in
        ground (arith, before, mul-suc page m)
    | no p ↦
        let after : page * suc m ≤ page * k = mul-le-mul_left page (omega arith) in
        ground (arith, after, mul-suc page m)
  ]

  -- `getNearestSlot` returns, for each address in the pool, the index of a slot that is no further than
  -- any other.
  pub get_nearest_slot-least :
      (a : ℕ)
      → pointer_is_mine s a ≡ true
      → (n : ℕ) × (get_nearest_slot s a ≡ some n)
        × (n < slots)
        × ((k : ℕ) → k < slots → distance s a n ≤ distance s a k)
  get_nearest_slot-least a mine = elim (place a mine) [
    | in_slot n d lt inside e ↦
        rw e (n, get_nearest_slot-slot s v n d lt inside, lt, λ k l. ground arith)
    | in_guard n d le inside e ↦ rw e (
      guard_choice s v n d,
      get_nearest_slot-guard s v n d le inside,
      choice_below n d le,
      λ k l. guard_distance n d k le inside l,
    )
  ]
    where
      choice_below : (n d : ℕ) → n ≤ slots → guard_choice s v n d < slots
      choice_below zero d le = v.has_slots
      choice_below (suc m) d le = ground arith
