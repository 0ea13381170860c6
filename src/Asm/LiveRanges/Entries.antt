-- ===== src/Asm/LiveRanges/Entries.antt =====
-- The map of live ranges, and the test for calls.
use remniw.Prelude.{
  ℕ, ◌+◌, ◌≤◌, ◌≡◌, ◌≢◌, refl, ap, ◌⊎◌, inl, inr, true, List, [], ◌∷◌, ◌++◌, In, length, some, ◌==◌,
  ◌||◌, arith, Bool-cases,
}
use remniw.Asm.LiveRanges.{find, put, crosses_call, mark_call, change_back}
use remniw.RegAlloc.Interval.{LiveRange, LiveRanges}
use remniw.RegAlloc.LinearScan.Sets.{RangesMap, DistinctKeys}

module _ (key : ℕ) (lr : LiveRanges) where
  pub find-put_self : (m : RangesMap) → find key (put key lr m) ≡ some lr
  unfolding find put
  find-put_self [] = ground arith
  find-put_self ((k, old) ∷ m) = ground (arith, find-put_self m)

  pub find-put_ne :
      (m : RangesMap) (other : ℕ) → other ≢ key → find other (put key lr m) ≡ find other m
  unfolding find put
  find-put_ne [] other n = ground arith
  find-put_ne ((k, old) ∷ m) other n = ground (arith, find-put_ne m other n)

  put-keys :
      (m : RangesMap) (k : ℕ) (l : LiveRanges)
      → In (k, l) (put key lr m)
      → (k ≡ key) ⊎ ((l' : LiveRanges) × In (k, l') m)
  unfolding put
  put-keys [] k l (inl e) = inl (ap (λ (p : ℕ × LiveRanges). p.0) e)
  put-keys [] k l (inr i) = absurd i
  put-keys ((j, old) ∷ m) k l i = elim (Bool-cases (j == key)) [
    | inl t ↦ elim (rw t at i) [
      | inl e ↦ inr (old, inl (ap (λ (p : ℕ × LiveRanges). (p.0, old)) e))
      | inr h ↦ inr (l, inr h)
    ]
    | inr t ↦ elim (rw t at i) [
      | inl e ↦ inr (l, inl e)
      | inr h ↦ elim (put-keys m k l h) [ inl e ↦ inl e | inr (l', h') ↦ inr (l', inr h') ]
    ]
  ]

  pub put-DistinctKeys : (m : RangesMap) → DistinctKeys m → DistinctKeys (put key lr m)
  unfolding put
  put-DistinctKeys [] d = (λ reg l i. absurd i, tt)
  put-DistinctKeys ((k, old) ∷ m) d = elim (Bool-cases (k == key)) [
    | inl t ↦ rw t d
    | inr t ↦ rw t (
      λ reg l i. elim (put-keys m reg l i) [ inl e ↦ ground arith | inr (l', h) ↦ d.0 reg l' h ],
      put-DistinctKeys m d.1,
    )
  ]

  pub length-put : (m : RangesMap) → length (put key lr m) ≤ length m + 1
  unfolding put
  length-put [] = omega arith
  length-put ((k, old) ∷ m) = ground (arith, length-put m)

-- An entry is the one that is found.
pub In-find :
    (m : RangesMap) (reg : ℕ) (lr : LiveRanges)
    → DistinctKeys m
    → In (reg, lr) m
    → find reg m ≡ some lr
unfolding find
In-find [] reg lr d i = absurd i
In-find ((k, old) ∷ m) reg lr d (inl e) =
    ground (arith, ap (λ (p : ℕ × LiveRanges). p.0) e, ap (λ (p : ℕ × LiveRanges). p.1) e)
In-find ((k, old) ∷ m) reg lr d (inr i) = ground (arith, d.0 reg lr i, In-find m reg lr d.1 i)

pub find-In : (m : RangesMap) (reg : ℕ) (lr : LiveRanges) → find reg m ≡ some lr → In (reg, lr) m
unfolding find
find-In [] reg lr e = ground arith
find-In ((k, old) ∷ m) reg lr e = elim (Bool-cases (k == reg)) [
  | inl t ↦ inl (ground arith)
  | inr t ↦ inr (find-In m reg lr (rw t at e))
]

-- A longer range crosses no fewer calls.
pub crosses_call_grows :
    (cs : List ℕ) (s e e' : ℕ)
    → e ≤ e'
    → (crosses_call cs s e || crosses_call cs s e') ≡ crosses_call cs s e'
unfolding crosses_call
crosses_call_grows [] s e e' h = refl
crosses_call_grows (c ∷ cs) s e e' h = ground (arith, crosses_call_grows cs s e e' h)

-- A wider one neither.
pub crosses_call_wider :
    (cs : List ℕ) (s e s' e' : ℕ)
    → s' ≤ s
    → e ≤ e'
    → crosses_call cs s e ≡ true
    → crosses_call cs s' e' ≡ true
unfolding crosses_call
crosses_call_wider [] s e s' e' p q h = ground arith
crosses_call_wider (c ∷ cs) s e s' e' p q h = ground (arith, crosses_call_wider cs s e s' e' p q)

-- A new call crosses no range that has ended.
pub crosses_call-snoc :
    (cs : List ℕ) (c s e : ℕ) → e ≤ c → crosses_call (cs ++ c ∷ []) s e ≡ crosses_call cs s e
unfolding crosses_call
crosses_call-snoc [] c s e h = ground arith
crosses_call-snoc (x ∷ cs) c s e h = rw (crosses_call-snoc cs c s e h) refl

pub mark_call-single :
    (cs : List ℕ) (s e : ℕ) (r : LiveRange)
    → (mark_call cs s e (r ∷ [])).ranges
      ≡ record r { used_across_call = r.used_across_call || crosses_call cs s e } ∷ []
unfolding mark_call change_back
mark_call-single cs s e r = elim (Bool-cases (crosses_call cs s e)) [
  | inl t ↦ ground arith
  | inr t ↦ ground arith
]
