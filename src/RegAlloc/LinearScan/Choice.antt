-- ===== src/RegAlloc/LinearScan/Choice.antt =====
-- What `getFreePhysReg` chooses, and what `Active.back()` is.
use remniw.Prelude.{
  ◌⊎◌, ==→eq, ℕ, ◌<◌, ltb, ◌==◌, ◌≤◌, ◌≡◌, ◌≢◌, refl, inl, inr, true, false, List, [], ◌∷◌, ◌++◌,
  In, none, some, arith, Bool-cases, Option-cases,
}
use remniw.RegAlloc.Interval.{LiveInterval}
use remniw.RegAlloc.LinearScan.{
  Allocator, is_free, conflict_with_fixed, split_back, suits, first_suitable, get_free_phys_reg,
  take_register, spill_interval, spill_last, spill_at_interval, allocate,
}
use remniw.RegAlloc.Register.{no_register}
use remniw.RegAlloc.Target.{TargetInfo, contains}

-- A register has no conflict only if each fixed interval of it ends before `li` starts and also
-- starts after `li` ends.
pub conflict_with_fixed-false :
    (fixed : List LiveInterval) (reg : ℕ) (li f : LiveInterval)
    → conflict_with_fixed fixed reg li ≡ false
    → In f fixed
    → f.reg ≡ reg
    → (f.end_point ≤ li.start_point) × (li.end_point ≤ f.start_point)
unfolding conflict_with_fixed
conflict_with_fixed-false [] reg li f h i e = absurd i
conflict_with_fixed-false (x ∷ fixed) reg li f h (inl p) e = ground arith
conflict_with_fixed-false (x ∷ fixed) reg li f h (inr r) e =
    ground (arith, conflict_with_fixed-false fixed reg li f)

module _ (ti : TargetInfo) (li : LiveInterval) (st : Allocator) where
  first_suitable-suits :
      (regs : List ℕ)
      → first_suitable ti regs li st ≢ no_register
      → (contains regs (first_suitable ti regs li st) ≡ true)
        × (suits ti li st (first_suitable ti regs li st) ≡ true)
  unfolding first_suitable
  first_suitable-suits [] h = absurd (h refl)
  first_suitable-suits (reg ∷ regs) h = elim (Bool-cases (suits ti li st reg)) [
    | inl e ↦ rw e (ground arith, e)
    | inr e ↦ rw e (ground (arith, first_suitable-suits regs (rw e at h)))
  ]

  -- A register that is found is one of the map's, and passes the tests.
  pub get_free_phys_reg-suits :
      get_free_phys_reg ti li st ≢ no_register
      → (contains st.free_registers.keys (get_free_phys_reg ti li st) ≡ true)
        × (suits ti li st (get_free_phys_reg ti li st) ≡ true)
  unfolding get_free_phys_reg
  get_free_phys_reg-suits h = first_suitable-suits st.free_registers.keys h

-- `Active` is empty where it has no back.
pub split_back-nil : (l : List LiveInterval) → split_back l ≡ none → l ≡ []
unfolding split_back
split_back-nil [] e = refl
split_back-nil (a ∷ l) e = ground arith

-- Otherwise it is its front and its back.
pub split_back-append :
    (l front : List LiveInterval) (last : LiveInterval)
    → split_back l ≡ some (front, last)
    → l ≡ front ++ last ∷ []
unfolding split_back
split_back-append [] front last e = cc
split_back-append (a ∷ l) front last e = elim (Option-cases (split_back l)) [
  | inl n ↦ ground (arith, split_back-nil l n)
  | inr (p, n) ↦ ground (arith, split_back-append l p.0 p.1)
]

-- The branches of the body of the loop.
pub allocate_cases {ℓ} :
    (P : Allocator → Type ℓ) (ti : TargetInfo) (li : LiveInterval) (st : Allocator)
    → (get_free_phys_reg ti li st ≢ no_register
        → P (take_register (get_free_phys_reg ti li st) li st))
    → P (spill_interval li st)
    → ((front : List LiveInterval) (last : LiveInterval)
        → st.active ≡ front ++ last ∷ []
        → li.end_point < last.end_point
        → P (spill_last front last li st))
    → P (allocate ti li st)
unfolding allocate spill_at_interval
allocate_cases P ti li st take spill steal =
    elim (Bool-cases (get_free_phys_reg ti li st == no_register)) [
      | inr e ↦ rw e (take (ground arith))
      | inl e ↦ rw e (elim (Option-cases (split_back st.active)) [
        | inl n ↦ rw (n, spill_at_interval) spill
        | inr ((front, last), n) ↦
            rw (n, spill_at_interval)
              (elim (Bool-cases (ltb li.end_point last.end_point)) [
                | inl f ↦
                    rw f
                      (steal front last (split_back-append st.active front last n) (ground arith))
                | inr f ↦ rw f spill
              ])
      ])
    ]

-- A register that an interval can have.
pub record IsSuitable (ti : TargetInfo) (li : LiveInterval) (st : Allocator) (reg : ℕ)
    : Type 0 where
  pub free : is_free st reg ≡ true
  pub apart :
      (f : LiveInterval)
      → In f st.fixed
      → f.reg ≡ reg
      → (f.end_point ≤ li.start_point) × (li.end_point ≤ f.start_point)
  pub callee_saved : li.used_across_call ≡ true → ti.is_callee_saved_register reg ≡ true
  pub caller_saved : li.used_across_call ≡ false → ti.is_caller_saved_register reg ≡ true

no_conflict :
    (fixed : List LiveInterval) (reg : ℕ) (li : LiveInterval)
    → ((f : LiveInterval)
        → In f fixed
        → f.reg ≡ reg
        → (f.end_point ≤ li.start_point) × (li.end_point ≤ f.start_point))
    → conflict_with_fixed fixed reg li ≡ false
unfolding conflict_with_fixed
no_conflict [] reg li apart = refl
no_conflict (x ∷ fixed) reg li apart =
    let rest = no_conflict fixed reg li (λ f i e. apart f (inr i) e) in
    elim (Bool-cases (x.reg == reg)) [
      | inl same ↦
          let (before, after) = apart x (inl refl) (==→eq x.reg reg same) in
          ground (arith, rest, before, after)
      | inr other ↦ rw other rest
    ]

module _ (ti : TargetInfo) (li : LiveInterval) (st : Allocator) where
  -- The tests of the loop find out just that.
  suits-IsSuitable : (reg : ℕ) → suits ti li st reg ≡ true → IsSuitable ti li st reg
  unfolding suits
  suits-IsSuitable reg h = record {
    free = ground arith;
    apart = λ f i e. conflict_with_fixed-false st.fixed reg li f (ground arith) i e;
    callee_saved = λ used. ground arith;
    caller_saved = λ unused. ground arith;
  }

  suits-false : (reg : ℕ) → suits ti li st reg ≡ false → ¬ (IsSuitable ti li st reg)
  unfolding suits
  suits-false reg h v =
      let quiet = no_conflict st.fixed reg li v.apart in
      elim (Bool-cases li.used_across_call) [
        | inl used ↦ ground (arith, v.free, quiet, used, v.callee_saved used)
        | inr unused ↦ ground (arith, v.free, quiet, unused, v.caller_saved unused)
      ]

  first_suitable-none :
      (regs : List ℕ)
      → ((reg : ℕ) → contains regs reg ≡ true → reg ≢ no_register)
      → first_suitable ti regs li st ≡ no_register
      → (reg : ℕ) → contains regs reg ≡ true
      → suits ti li st reg ≡ false
  unfolding first_suitable
  first_suitable-none [] nz e reg h = cc
  first_suitable-none (r ∷ regs) nz e reg h = elim (Bool-cases (suits ti li st r)) [
    | inl s ↦ absurd (nz r (ground arith) (rw s at e))
    | inr s ↦ elim (Bool-cases (r == reg)) [
      | inl p ↦ ground (arith, s)
      | inr p ↦ first_suitable-none regs (λ k c. nz k (ground arith)) (rw s at e) reg (rw p at h)
    ]
  ]

  -- Where no register of the map is `NoRegister`: `getFreePhysReg` gives a register of the map that is
  -- free, of which each fixed interval ends before the interval starts and starts after it ends, and
  -- that is callee-saved if the interval is used across a call and caller-saved if not; or no register
  -- of the map is such a one, and it gives `NoRegister`.
  pub get_free_phys_reg_lem :
      ((reg : ℕ) → contains st.free_registers.keys reg ≡ true → reg ≢ no_register)
      → ((contains st.free_registers.keys (get_free_phys_reg ti li st) ≡ true)
          × IsSuitable ti li st (get_free_phys_reg ti li st))
        ⊎ ((get_free_phys_reg ti li st ≡ no_register)
            × ((reg : ℕ)
                → contains st.free_registers.keys reg ≡ true
                → ¬ (IsSuitable ti li st reg)))
  unfolding get_free_phys_reg
  get_free_phys_reg_lem nz = elim (Bool-cases (get_free_phys_reg ti li st == no_register)) [
    | inl e ↦
        let none_found : get_free_phys_reg ti li st ≡ no_register = ==→eq _ _ e in
        inr (
          none_found,
          λ reg has.
              suits-false reg (first_suitable-none st.free_registers.keys nz none_found reg has),
        )
    | inr e ↦
        let (has, fit) = get_free_phys_reg-suits ti li st (λ p. ground arith) in
        inl (has, suits-IsSuitable (get_free_phys_reg ti li st) fit)
  ]
