-- ===== src/Shield/Pool/Slots.antt =====
-- The bookkeeping of the guarded pool allocator: which slots are live, which are in the list of free
-- slots, and how reserving, recording and freeing a slot moves it.
use native.Mathlib.Decide.{ℕ_discrete}
use remniw.Prelude.{
  ℕ, zero, suc, ◌+◌, ◌-◌, ◌≤◌, ◌<◌, ◌≡◌, ◌≢◌, refl, sym, ◌∙◌, ◌⊎◌, inl, inr, Bool, true, false,
  ◌==◌, if◌then◌else◌, arith,
}
use remniw.Shield.Pool.{AllocationMetadata, put_at}

pub put_at-same {ℓ} : {A : Type ℓ} (f : ℕ → A) (i : ℕ) (a : A) → put_at f i a i ≡ a
put_at-same f i a = let e : (i == i) ≡ true = ground arith in rw e refl

pub put_at-other {ℓ} : {A : Type ℓ} (f : ℕ → A) (i j : ℕ) (a : A) → i ≢ j → put_at f i a j ≡ f j
put_at-other f i j a ne = let e : (i == j) ≡ false = ground arith in rw e refl

-- How many of the first slots are live.
abbrev pub live_count : (ℕ → AllocationMetadata) → ℕ → ℕ
live_count md zero = 0
live_count md (suc n) = (if (md n).is_deallocated then 0 else 1) + live_count md n

pub live_count-put :
    (md : ℕ → AllocationMetadata) (m : AllocationMetadata) (n : ℕ) (N : ℕ)
    → N ≤ n
    → live_count (put_at md n m) N ≡ live_count md N
live_count-put md m n zero h = refl
live_count-put md m n (suc N) h =
    rw (put_at-other md n N m (omega arith), live_count-put md m n N (omega arith)) refl

-- A slot that becomes live is counted, and one that is freed is not.
pub live_count-revive :
    (md : ℕ → AllocationMetadata) (m : AllocationMetadata) (n : ℕ) (N : ℕ)
    → n < N
    → (md n).is_deallocated ≡ true
    → m.is_deallocated ≡ false
    → live_count (put_at md n m) N ≡ suc (live_count md N)
live_count-revive md m n zero h d l = absurd (omega arith)
live_count-revive md m n (suc N) h d l = elim (ℕ_discrete n N) [
  | yes e ↦ rw (← e, put_at-same md n m, l, d, live_count-put md m n n (omega arith)) (omega arith)
  | no e ↦ rw (put_at-other md n N m e, live_count-revive md m n N (omega arith) d l) (omega arith)
]

pub live_count-kill :
    (md : ℕ → AllocationMetadata) (m : AllocationMetadata) (n : ℕ) (N : ℕ)
    → n < N
    → (md n).is_deallocated ≡ false
    → m.is_deallocated ≡ true
    → suc (live_count (put_at md n m) N) ≡ live_count md N
live_count-kill md m n zero h d l = absurd (omega arith)
live_count-kill md m n (suc N) h d l = elim (ℕ_discrete n N) [
  | yes e ↦ rw (← e, put_at-same md n m, l, d, live_count-put md m n n (omega arith)) (omega arith)
  | no e ↦
      let rest : suc (live_count (put_at md n m) N) ≡ live_count md N =
        live_count-kill md m n N (omega arith) d l in
      rw (put_at-other md n N m e) (omega arith)
]

-- Each slot handed out once is live, or stands in the list of free slots, once.
pub record IsSlots (num : ℕ) (md : ℕ → AllocationMetadata) (free : ℕ → ℕ) (len : ℕ) : Type 0 where
  pub counted : live_count md num + len ≡ num
  pub free_below : (i : ℕ) → i < len → free i < num
  pub free_dead : (i : ℕ) → i < len → (md (free i)).is_deallocated ≡ true
  pub free_distinct : (i j : ℕ) → i < len → j < len → free i ≡ free j → i ≡ j

module _ (num : ℕ) (md : ℕ → AllocationMetadata) (free : ℕ → ℕ) (len : ℕ)
    (v : IsSlots num md free len) where
  -- A slot that was never used is used.
  pub extend-IsSlots :
      (m : AllocationMetadata)
      → m.is_deallocated ≡ false
      → IsSlots (suc num) (put_at md num m) free len
  extend-IsSlots m l = record {
    counted =
        rw (put_at-same md num m, l, live_count-put md m num num (omega arith))
          (omega (arith, v.counted));
    free_below = λ i h. omega (arith, v.free_below i h);
    free_dead = λ i h.
        rw (put_at-other md num (free i) m (omega (arith, v.free_below i h))) (v.free_dead i h);
    free_distinct = v.free_distinct;
  }

  module _ (r : ℕ) (at : r < len) where
    abbrev taken : ℕ → ℕ
    taken = put_at free r (free (len - 1))

    taken-from :
        (i : ℕ)
        → i < len - 1
        → (j : ℕ) × (taken i ≡ free j) × (j < len) × (j ≢ r) × ((i ≡ r) × (j ≡ len - 1) ⊎ (i ≡ j))
    taken-from i h = elim (ℕ_discrete r i) [
      | yes e ↦ (
        len - 1,
        rw (← e) (put_at-same free r (free (len - 1))),
        omega arith,
        omega arith,
        inl (sym e, refl),
      )
      | no e ↦ (i, put_at-other free r i (free (len - 1)) e, omega arith, omega arith, inr refl)
    ]

    -- A free slot is used.
    pub take-IsSlots :
        (m : AllocationMetadata)
        → m.is_deallocated ≡ false
        → IsSlots num (put_at md (free r) m) taken (len - 1)
    take-IsSlots m l =
        let flip = live_count-revive md m (free r) num (v.free_below r at) (v.free_dead r at) l in
        record {
          counted = omega (arith, flip, v.counted);
          free_below = λ i h. below i h;
          free_dead = λ i h. dead m i h;
          free_distinct = λ i j h g e. distinct i j h g e;
        }
      where
        below : (i : ℕ) → i < len - 1 → taken i < num
        below i h = let (j, e, lt, ne, c) = taken-from i h in rw e (v.free_below j lt)

        dead :
            (m : AllocationMetadata) (i : ℕ)
            → i < len - 1
            → (put_at md (free r) m (taken i)).is_deallocated ≡ true
        dead m i h =
            let (j, e, lt, ne, c) = taken-from i h in
            rw
              (
                e,
                put_at-other md (free r) (free j) m
                    (λ same. ne (sym (v.free_distinct r j at lt same))),
              )
              (v.free_dead j lt)

        distinct : (i j : ℕ) → i < len - 1 → j < len - 1 → taken i ≡ taken j → i ≡ j
        distinct i j h g e =
            let (a, ea, la, na, ca) = taken-from i h in
            let (b, eb, lb, nb, cb) = taken-from j g in
            let same : a ≡ b = v.free_distinct a b la lb (sym ea ∙ e ∙ eb) in
            elim ca [
              | inl p ↦ elim cb [
                | inl q ↦ omega (arith, p, q)
                | inr q ↦ absurd (omega (arith, p, q))
              ]
              | inr p ↦ elim cb [
                | inl q ↦ absurd (omega (arith, p, q))
                | inr q ↦ omega (arith, p, q)
              ]
            ]

  module _ (n : ℕ) (below : n < num) (live : (md n).is_deallocated ≡ false) where
    -- There is room in the list for a slot that is live.
    pub release-room : len < num
    release-room =
        let m : AllocationMetadata = record (md n) { is_deallocated = true } in
        let flip : suc (live_count (put_at md n m) num) ≡ live_count md num =
          live_count-kill md m n num below live refl in
        omega (arith, flip, v.counted)

    -- A live slot is freed.
    pub release-IsSlots :
        (m : AllocationMetadata)
        → m.is_deallocated ≡ true
        → IsSlots num (put_at md n m) (put_at free len n) (len + 1)
    release-IsSlots m d =
        let flip : suc (live_count (put_at md n m) num) ≡ live_count md num =
          live_count-kill md m n num below live d in
        record {
          counted = omega (arith, flip, v.counted);
          free_below = λ i h. entry_below i h;
          free_dead = λ i h. dead m d i h;
          free_distinct = λ i j h g e. distinct i j h g e;
        }
      where
        old : (i : ℕ) → i < len → free i ≢ n
        old i h e = dead_live (v.free_dead i h) (rw e live)
          where
            dead_live : {b : Bool} → b ≡ true → b ≡ false → ⊥
            dead_live p q = ground arith

        entry :
            (i : ℕ)
            → i < len + 1
            → ((i ≡ len) × (put_at free len n i ≡ n)) ⊎ ((i < len) × (put_at free len n i ≡ free i))
        entry i h = elim (ℕ_discrete len i) [
          | yes e ↦ inl (sym e, rw (← e) (put_at-same free len n))
          | no e ↦ inr (omega arith, put_at-other free len i n e)
        ]

        entry_below : (i : ℕ) → i < len + 1 → put_at free len n i < num
        entry_below i h = elim (entry i h) [
          | inl (p, e) ↦ rw e below
          | inr (p, e) ↦ rw e (v.free_below i p)
        ]

        dead :
            (m : AllocationMetadata)
            → m.is_deallocated ≡ true
            → (i : ℕ) → i < len + 1
            → (put_at md n m (put_at free len n i)).is_deallocated ≡ true
        dead m d i h = elim (entry i h) [
          | inl (p, e) ↦ rw (e, put_at-same md n m) d
          | inr (p, e) ↦
              rw (e, put_at-other md n (free i) m (λ s. old i p (sym s))) (v.free_dead i p)
        ]

        distinct :
            (i j : ℕ)
            → i < len + 1
            → j < len + 1
            → put_at free len n i ≡ put_at free len n j
            → i ≡ j
        distinct i j h g e = elim (entry i h) [
          | inl (p, a) ↦ elim (entry j g) [
            | inl (q, b) ↦ p ∙ sym q
            | inr (q, b) ↦ absurd (old j q (sym b ∙ sym e ∙ a))
          ]
          | inr (p, a) ↦ elim (entry j g) [
            | inl (q, b) ↦ absurd (old i p (sym a ∙ e ∙ b))
            | inr (q, b) ↦ v.free_distinct i j p q (sym a ∙ e ∙ b)
          ]
        ]
