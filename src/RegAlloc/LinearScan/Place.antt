-- ===== src/RegAlloc/LinearScan/Place.antt =====
-- The two ways in which a round of `doRegAlloc` changes where a register is: it gives an interval a
-- physical register that no active one has, or it gives a register a fresh stack slot.
use remniw.Prelude.{
  ℕ, ◌≤◌, ◌≡◌, ◌≢◌, refl, sym, ap, ◌∙◌, ◌⊎◌, inl, inr, true, false, List, [], ◌∷◌, ◌++◌, ◌==◌, In,
  In-append, In-append_left, In-append_right, arith, if◌then◌else◌,
}
use remniw.RegAlloc.Interval.{LiveInterval}
use remniw.RegAlloc.Interval.Sorting.{Distinct}
use remniw.RegAlloc.LinearScan.{Allocator, allocated, is_free}
use remniw.RegAlloc.LinearScan.Invariant.{Inv, Unfixed, Disjoint}
use remniw.RegAlloc.Register.{is_physical_register}
use remniw.RegAlloc.Target.{contains}

snoc_cases : (x y : LiveInterval) (l : List LiveInterval) → In x (l ++ y ∷ []) → In x l ⊎ (x ≡ y)
snoc_cases x y l i = elim (In-append x l (y ∷ []) i) [
  | inl j ↦ inl j
  | inr (inl e) ↦ inr e
  | inr (inr n) ↦ absurd n
]

In-snoc : (y : LiveInterval) (l : List LiveInterval) → In y (l ++ y ∷ [])
In-snoc y l = In-append_right y l (y ∷ []) (inl refl)

snoc-Distinct :
    (y : LiveInterval) (l : List LiveInterval)
    → Distinct l
    → ((x : LiveInterval) → In x l → x.reg ≢ y.reg)
    → Distinct (l ++ y ∷ [])
snoc-Distinct y [] d h = (λ x i. absurd i, tt)
snoc-Distinct y (z ∷ l) d h = (
  λ x i. elim (snoc_cases x y l i) [
    | inl j ↦ d.0 x j
    | inr e ↦ λ r. h z (inl refl) (sym r ∙ ap (λ (w : LiveInterval). w.reg) e)
  ],
  snoc-Distinct y l d.1 (λ x i. h x (inr i)),
)

-- The pieces of a list with distinct registers.
pub front-Distinct :
    (l : List LiveInterval) (y : LiveInterval)
    → Distinct (l ++ y ∷ [])
    → Distinct l × ((x : LiveInterval) → In x l → x.reg ≢ y.reg)
front-Distinct [] y d = (tt, λ x i. absurd i)
front-Distinct (z ∷ l) y d = (
  (λ x i. d.0 x (In-append_left x l (y ∷ []) i), (front-Distinct l y d.1).0),
  λ x i. elim i [
    | inl e ↦ λ r. d.0 y (In-snoc y l) (sym r ∙ ap (λ (w : LiveInterval). w.reg) e)
    | inr j ↦ (front-Distinct l y d.1).1 x j
  ],
)

-- What `place-Inv` asks of the state after: `reg` is at `phys`, which is not free, and all else is
-- as it was.
pub record Places (reg phys : ℕ) (st st' : Allocator) : Type 0 where
  pub at_phys : (j : ℕ) → allocated st' j ≡ (if j == reg then phys else allocated st j)
  pub phys_is_busy : is_free st' phys ≡ false
  pub busy_stays : (j : ℕ) → is_free st j ≡ false → is_free st' j ≡ false
  pub keys_stay :
      (j : ℕ)
      → contains st'.free_registers.keys j ≡ true
      → (contains st.free_registers.keys j ≡ true) ⊎ (phys ≡ j)
  pub same_fixed : st'.fixed ≡ st.fixed
  pub same_spilled : st'.spilled ≡ st.spilled
  pub same_index : st'.stack_slot_index ≡ st.stack_slot_index

module _ (handled active : List LiveInterval) (t : ℕ) (li : LiveInterval) (phys : ℕ)
    (st st' : Allocator) (v : Inv handled t active st) (q : Places li.reg phys st st')
    (fresh : (h : LiveInterval) → In h handled → h.reg ≢ li.reg) (in_time : t ≤ li.start_point)
    (is_phys : is_physical_register phys ≡ true)
    (unused : (a : LiveInterval) → In a active → allocated st a.reg ≢ phys)
    (no_fixed : Unfixed st phys) where
  stays : (h : LiveInterval) → In h handled → allocated st' h.reg ≡ allocated st h.reg
  stays h i = ground (arith, q.at_phys h.reg, fresh h i)

  here : (h : LiveInterval) → h ≡ li → allocated st' h.reg ≡ phys
  here h e = ground (arith, q.at_phys h.reg, ap (λ (w : LiveInterval). w.reg) e)

  active_cases :
      (a : LiveInterval)
      → In a (active ++ li ∷ [])
      → (In a active × (allocated st' a.reg ≡ allocated st a.reg))
        ⊎ ((a ≡ li) × (allocated st' a.reg ≡ phys))
  active_cases a i = elim (snoc_cases a li active i) [
    | inl j ↦ inl (j, stays a (v.active_is_handled a j))
    | inr e ↦ inr (e, here a e)
  ]

  -- An older interval in the same register has ended.
  ended :
      (h : LiveInterval) → In h handled → allocated st h.reg ≡ phys → h.end_point ≤ li.start_point
  ended h i e = elim (v.done h i (rw e is_phys)) [
    | inl a ↦ absurd (unused h a e)
    | inr d ↦ omega arith
  ]

  apart_after :
      (g h : LiveInterval)
      → In g (li ∷ handled)
      → In h (li ∷ handled)
      → g.reg ≢ h.reg
      → allocated st' g.reg ≡ allocated st' h.reg
      → Disjoint g h
  apart_after g h (inl e) (inl f) n p = absurd (n (ap (λ (w : LiveInterval). w.reg) (e ∙ sym f)))
  apart_after g h (inl e) (inr j) n p = inr (rw e (ended h j (sym (stays h j) ∙ sym p ∙ here g e)))
  apart_after g h (inr i) (inl f) n p = inl (rw f (ended g i (sym (stays g i) ∙ p ∙ here h f)))
  apart_after g h (inr i) (inr j) n p = v.apart g h i j n (sym (stays g i) ∙ p ∙ stays h j)

  pub place-Inv : Inv (li ∷ handled) t (active ++ li ∷ []) st'
  place-Inv = record {
    active_is_handled = λ a i. elim (snoc_cases a li active i) [
      | inl j ↦ inr (v.active_is_handled a j)
      | inr e ↦ inl e
    ];
    active_is_physical = λ a i. elim (active_cases a i) [
      | inl (j, e) ↦ rw e (v.active_is_physical a j)
      | inr (_, e) ↦ rw e is_phys
    ];
    active_is_busy = λ a i. elim (active_cases a i) [
      | inl (j, e) ↦ rw e (q.busy_stays _ (v.active_is_busy a j))
      | inr (_, e) ↦ rw e q.phys_is_busy
    ];
    active_is_unique = λ a b i j p. elim (active_cases a i) [
      | inl (k, e) ↦ elim (active_cases b j) [
        | inl (l, f) ↦ v.active_is_unique a b k l (sym e ∙ p ∙ f)
        | inr (_, f) ↦ absurd (unused a k (sym e ∙ p ∙ f))
      ]
      | inr (k, e) ↦ elim (active_cases b j) [
        | inl (l, f) ↦ absurd (unused b l (sym f ∙ sym p ∙ e))
        | inr (l, f) ↦ ap (λ (w : LiveInterval). w.reg) (k ∙ sym l)
      ]
    ];
    active_is_distinct =
        snoc-Distinct li active v.active_is_distinct (λ x i. fresh x (v.active_is_handled x i));
    done = λ h i p. elim i [
      | inl e ↦ inl (rw e (In-snoc li active))
      | inr j ↦ elim (v.done h j (rw (stays h j) at p)) [
        | inl a ↦ inl (In-append_left h active (li ∷ []) a)
        | inr d ↦ inr d
      ]
    ];
    apart = apart_after;
    placed = λ h i. elim i [
      | inl e ↦ inl (rw (here h e) is_phys)
      | inr j ↦ rw (stays h j, q.same_index) (v.placed h j)
    ];
    unfixed = λ h i p. elim i [
      | inl e ↦ rw (here h e, q.same_fixed) no_fixed
      | inr j ↦ rw (stays h j, q.same_fixed) (v.unfixed h j (rw (stays h j) at p))
    ];
    keys_are_physical = λ reg k. elim (q.keys_stay reg k) [
      | inl j ↦ v.keys_are_physical reg j
      | inr e ↦ rw (← e) is_phys
    ];
    slots_are_spilled = rw (q.same_index, q.same_spilled) v.slots_are_spilled;
  }
