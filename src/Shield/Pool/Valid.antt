-- ===== src/Shield/Pool/Valid.antt =====
-- The states of the guarded pool between two calls, and the heap that such a state stands for: which
-- pointers are blocks, and of which size.
use native.Mathlib.Nat.{mul-le-mul_left}
use native.Mathlib.Decide.{ℕ_discrete, dec_lt}
use remniw.Prelude.{
  ℕ, zero, suc, ◌+◌, ◌*◌, ◌≤◌, ◌<◌, ◌≡◌, ◌≢◌, refl, sym, ap, ◌∙◌, inl, inr, Bool, true, false, not,
  ◌&&◌, Option, none, some, ltb, ◌==◌, if◌then◌else◌, arith, Option-cases,
}
use remniw.Shield.Layout.{AllocatorState, IsLayout}
use remniw.Shield.Layout.Nearest.{slot_start, further}
use remniw.Shield.System.{System, in_range}
use remniw.Shield.Pool.{Pool, AllocationMetadata}
use remniw.Shield.Pool.Slots.{IsSlots}

-- A slot is live when it was handed out and is not freed.
abbrev pub is_live : ℕ → (ℕ → AllocationMetadata) → ℕ → Bool
is_live num md n = ltb n num && not (md n).is_deallocated

pub record IsPlaced (s : AllocatorState) (n : ℕ) (m : AllocationMetadata) : Type 0 where
  pub has_size : 0 < m.size
  pub after_start : slot_start s n ≤ m.addr
  pub before_end : m.addr + m.size ≤ slot_start s n + s.page_size

-- The pages that a program may touch are those of the live slots.
pub record IsShielded (s : AllocatorState) (num : ℕ) (md : ℕ → AllocationMetadata)
    (is_open : ℕ → Bool) : Type 0 where
  pub slot_pages :
      (n b : ℕ)
      → n < s.max_simultaneous_allocations
      → in_range (slot_start s n) s.page_size b ≡ true
      → is_open b ≡ is_live num md n
  pub guard_pages :
      (n b : ℕ)
      → n ≤ s.max_simultaneous_allocations
      → in_range (s.guarded_page_pool + 2 * (s.page_size * n)) s.page_size b ≡ true
      → is_open b ≡ false

pub record IsPool (os : System) (st : Pool os.Pages) : Type 0 where
  pub layout : IsLayout st.state
  pub same_page : st.state.page_size ≡ os.page_size
  pub few_allocations : st.num_allocations ≤ st.state.max_simultaneous_allocations
  pub slots : IsSlots st.num_allocations st.metadata st.free_slots st.free_slots_length
  pub placed : (n : ℕ) → n < st.num_allocations → IsPlaced st.state n (st.metadata n)
  pub unused : (n : ℕ) → st.num_allocations ≤ n → (st.metadata n).addr ≡ 0
  pub shielded : IsShielded st.state st.num_allocations st.metadata (os.accessible st.pages)

abbrev or_else : Option ℕ → Option ℕ → Option ℕ
or_else none b = b
or_else (some a) b = some a

-- The first of the entries below `N` that is there.
abbrev pub first_some : (ℕ → Option ℕ) → ℕ → Option ℕ
first_some f zero = none
first_some f (suc n) = or_else (f n) (first_some f n)

abbrev pub entry : ℕ → (ℕ → AllocationMetadata) → ℕ → ℕ → Option ℕ
entry num md q n = if is_live num md n && ((md n).addr == q) then some (md n).size else none

-- The block at an address.
abbrev pub blocks : ℕ → ℕ → (ℕ → AllocationMetadata) → ℕ → Option ℕ
blocks slots num md q = first_some (entry num md q) slots

abbrev pub block_at : {P : Type 0} → Pool P → ℕ → Option ℕ
block_at st q = blocks st.state.max_simultaneous_allocations st.num_allocations st.metadata q

pub first_some-ext :
    (f g : ℕ → Option ℕ) (N : ℕ) → ((i : ℕ) → i < N → f i ≡ g i) → first_some f N ≡ first_some g N
first_some-ext f g zero h = refl
first_some-ext f g (suc N) h =
    rw (h N (omega arith), first_some-ext f g N (λ i lt. h i (omega arith))) refl

pub first_some-none :
    (f : ℕ → Option ℕ) (N : ℕ) → ((i : ℕ) → i < N → f i ≡ none) → first_some f N ≡ none
first_some-none f zero h = refl
first_some-none f (suc N) h =
    rw (h N (omega arith)) (first_some-none f N (λ i lt. h i (omega arith)))

pub first_some-at :
    (f : ℕ → Option ℕ) (N n : ℕ)
    → n < N
    → ((i : ℕ) → i < N → i ≢ n → f i ≡ none)
    → first_some f N ≡ f n
first_some-at f zero n lt h = absurd (omega arith)
first_some-at f (suc N) n lt h = elim (ℕ_discrete N n) [
  | yes e ↦ elim (Option-cases (f N)) [
    | inl gone ↦
        rw (gone, first_some-none f N (λ i l. h i (omega arith) (omega arith))) (sym gone ∙ ap f e)
    | inr (a, is) ↦ rw is (sym is ∙ ap f e)
  ]
  | no e ↦
      rw (h N (omega arith) e) (first_some-at f N n (omega arith) (λ i l ne. h i (omega arith) ne))
]

pub first_some-some :
    (f : ℕ → Option ℕ) (N a : ℕ) → first_some f N ≡ some a → (n : ℕ) × (n < N) × (f n ≡ some a)
first_some-some f zero a h = absurd (no_none h)
  where
    no_none : none ≡ some a → ⊥
    no_none e = grind arith
first_some-some f (suc N) a h = elim (Option-cases (f N)) [
  | inl gone ↦
      let rest : first_some f N ≡ some a = rw gone at h in
      let (n, lt, e) = first_some-some f N a rest in (n, omega arith, e)
  | inr (b, is) ↦ let same : some b ≡ some a = rw is at h in (N, omega arith, is ∙ same)
]

module _ (s : AllocatorState) (v : IsLayout s) where
  -- Different slots, and a slot and a guard page, have no byte in common.
  pub slots_apart :
      (n i b : ℕ)
      → i ≢ n
      → in_range (slot_start s i) s.page_size b ≡ true
      → in_range (slot_start s n) s.page_size b ≡ false
  slots_apart n i b ne h = elim (dec_lt i n) [
    | yes p ↦ ground (arith, further s v i n p)
    | no p ↦ ground (arith, further s v n i (omega arith))
  ]

  pub guard_apart :
      (n i b : ℕ)
      → in_range (s.guarded_page_pool + 2 * (s.page_size * i)) s.page_size b ≡ true
      → in_range (slot_start s n) s.page_size b ≡ false
  guard_apart n i b h = elim (dec_lt n i) [
    | yes p ↦ ground (arith, further s v n i p)
    | no p ↦
        let before : s.page_size * i ≤ s.page_size * n =
          mul-le-mul_left s.page_size (omega arith) in
        ground (arith, before)
  ]
