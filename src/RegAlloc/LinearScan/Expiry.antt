-- ===== src/RegAlloc/LinearScan/Expiry.antt =====
-- `expireOldIntervals`, on the list that the round has sorted by the ends.
use remniw.Prelude.{ℕ, ◌≤◌, ◌<◌, ◌↔◌, ap, inl, inr, List, [], ◌∷◌, In, arith, Bool-cases, ltb}
use remniw.RegAlloc.Interval.{LiveInterval, sort_by_end}
use remniw.RegAlloc.Interval.Sorting.{EndsFrom, sort-EndsFrom, In-sort, In-sort_back}
use remniw.RegAlloc.LinearScan.{Allocator, release, expire_loop, expire_old_intervals}

EndsFrom-le :
    (k : ℕ) (l : List LiveInterval) (x : LiveInterval) → EndsFrom k l → In x l → k ≤ x.end_point
EndsFrom-le k (a ∷ l) x e (inl p) = omega (arith, ap (λ (w : LiveInterval). w.end_point) p)
EndsFrom-le k (a ∷ l) x e (inr i) = omega (arith, EndsFrom-le a.end_point l x e.1 i)
EndsFrom-le k [] x e i = absurd i

expire_loop-active :
    (l : List LiveInterval) (k : ℕ) (li x : LiveInterval) (st : Allocator)
    → EndsFrom k l
    → In x (expire_loop l li st).active ↔ (In x l × (li.start_point < x.end_point))
unfolding expire_loop
expire_loop-active [] k li x st e = (λ i. absurd i, λ p. p.0)
expire_loop-active (a ∷ l) k li x st e = elim (Bool-cases (ltb li.start_point a.end_point)) [
  | inl t ↦ rw t (
    λ i. (
      i,
      elim i [
        | inl p ↦ ground (arith, ap (λ (w : LiveInterval). w.end_point) p)
        | inr j ↦ ground (arith, EndsFrom-le a.end_point l x e.1 j)
      ],
    ),
    λ p. p.0,
  )
  | inr t ↦
      let rest = expire_loop-active l a.end_point li x (release a st) e.1 in
      rw t (
        λ i. (inr (rest.0 i).0, (rest.0 i).1),
        λ p. elim p.0 [
          | inl q ↦ absurd (ground (arith, ap (λ (w : LiveInterval). w.end_point) q))
          | inr j ↦ rest.1 (j, p.1)
        ],
      )
]

-- After sorting and expiring, exactly those intervals are still active that end after the new one
-- starts.
pub expire-active_iff :
    (li x : LiveInterval) (st : Allocator)
    → In x (expire_old_intervals li (record st { active = sort_by_end st.active })).active
      ↔ (In x st.active × (li.start_point < x.end_point))
unfolding expire_old_intervals
expire-active_iff li x st =
    let loop = expire_loop-active (sort_by_end st.active) 0 li x _ (sort-EndsFrom st.active) in
    (
      λ i. (In-sort x st.active (loop.0 i).0, (loop.0 i).1),
      λ p. loop.1 (In-sort_back x st.active p.0, p.1),
    )
