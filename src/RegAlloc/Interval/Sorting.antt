-- ===== src/RegAlloc/Interval/Sorting.antt =====
-- The queue and the sort of the allocator keep their intervals, and put them in order.
use remniw.Prelude.{
  ℕ, ◌≤◌, ◌≡◌, ◌≢◌, refl, sym, ap, ◌∙◌, ◌⊎◌, inl, inr, List, [], ◌∷◌, In, arith, Bool-cases,
}
use remniw.RegAlloc.Interval.{
  LiveInterval, start_point_increasing_order_compare, end_point_increasing_order_compare, push,
  insert_by_end, sort_by_end,
}

-- No two intervals of the list belong to one register.
abbrev pub Distinct : List LiveInterval → Type 0
Distinct [] = Unit {0}
Distinct (x ∷ xs) = ((y : LiveInterval) → In y xs → y.reg ≢ x.reg) × Distinct xs

-- Their starts do not fall, from `t` on.
abbrev pub StartsFrom : ℕ → List LiveInterval → Type 0
StartsFrom t [] = Unit {0}
StartsFrom t (x ∷ xs) = (t ≤ x.start_point) × StartsFrom x.start_point xs

-- Their ends do not fall, from `t` on.
abbrev pub EndsFrom : ℕ → List LiveInterval → Type 0
EndsFrom t [] = Unit {0}
EndsFrom t (x ∷ xs) = (t ≤ x.end_point) × EndsFrom x.end_point xs

module _ (li x : LiveInterval) where
  pub In-push : (qs : List LiveInterval) → In x (push li qs) → (x ≡ li) ⊎ In x qs
  unfolding push
  In-push [] h = h
  In-push (q ∷ qs) h = elim (Bool-cases (start_point_increasing_order_compare q li)) [
    | inl e ↦ rw e at h
    | inr e ↦ elim (rw e at h) [
      | inl p ↦ inr (inl p)
      | inr r ↦ elim (In-push qs r) [ inl p ↦ inl p | inr s ↦ inr (inr s) ]
    ]
  ]

  pub In-push_back : (qs : List LiveInterval) → (x ≡ li) ⊎ In x qs → In x (push li qs)
  unfolding push
  In-push_back [] h = h
  In-push_back (q ∷ qs) h = elim (Bool-cases (start_point_increasing_order_compare q li)) [
    | inl e ↦ rw e h
    | inr e ↦ rw e (elim h [
      | inl p ↦ inr (In-push_back qs (inl p))
      | inr (inl p) ↦ inl p
      | inr (inr r) ↦ inr (In-push_back qs (inr r))
    ])
  ]

  In-insert_by_end : (l : List LiveInterval) → In x (insert_by_end li l) → (x ≡ li) ⊎ In x l
  unfolding insert_by_end
  In-insert_by_end [] h = h
  In-insert_by_end (a ∷ l) h = elim (Bool-cases (end_point_increasing_order_compare a li)) [
    | inl e ↦ elim (rw e at h) [
      | inl p ↦ inr (inl p)
      | inr r ↦ elim (In-insert_by_end l r) [ inl p ↦ inl p | inr s ↦ inr (inr s) ]
    ]
    | inr e ↦ rw e at h
  ]

  In-insert_by_end_back : (l : List LiveInterval) → (x ≡ li) ⊎ In x l → In x (insert_by_end li l)
  unfolding insert_by_end
  In-insert_by_end_back [] h = h
  In-insert_by_end_back (a ∷ l) h = elim (Bool-cases (end_point_increasing_order_compare a li)) [
    | inl e ↦ rw e (elim h [
      | inl p ↦ inr (In-insert_by_end_back l (inl p))
      | inr (inl p) ↦ inl p
      | inr (inr r) ↦ inr (In-insert_by_end_back l (inr r))
    ])
    | inr e ↦ rw e h
  ]

-- Sorting keeps the intervals.
pub In-sort : (x : LiveInterval) (l : List LiveInterval) → In x (sort_by_end l) → In x l
unfolding sort_by_end
In-sort x [] h = h
In-sort x (a ∷ l) h = elim (In-insert_by_end a x (sort_by_end l) h) [
  | inl e ↦ inl e
  | inr r ↦ inr (In-sort x l r)
]

pub In-sort_back : (x : LiveInterval) (l : List LiveInterval) → In x l → In x (sort_by_end l)
unfolding sort_by_end
In-sort_back x [] h = h
In-sort_back x (a ∷ l) (inl e) = In-insert_by_end_back a x (sort_by_end l) (inl e)
In-sort_back x (a ∷ l) (inr r) =
    In-insert_by_end_back a x (sort_by_end l) (inr (In-sort_back x l r))

-- The queue stays distinct when an interval of a register that is not in it is pushed.
pub push-Distinct :
    (li : LiveInterval) (qs : List LiveInterval)
    → Distinct qs
    → ((q : LiveInterval) → In q qs → q.reg ≢ li.reg)
    → Distinct (push li qs)
unfolding push
push-Distinct li [] d h = (λ y i. absurd i, tt)
push-Distinct li (q ∷ qs) d h = elim (Bool-cases (start_point_increasing_order_compare q li)) [
  | inl e ↦ rw e (h, d)
  | inr e ↦ rw e (
    λ y i. elim (In-push li y qs i) [
      | inl p ↦ λ r. h q (inl refl) (sym (sym (ap (λ (z : LiveInterval). z.reg) p) ∙ r))
      | inr s ↦ d.0 y s
    ],
    push-Distinct li qs d.1 (λ y i. h y (inr i)),
  )
]

insert_by_end-Distinct :
    (li : LiveInterval) (l : List LiveInterval)
    → Distinct l
    → ((q : LiveInterval) → In q l → q.reg ≢ li.reg)
    → Distinct (insert_by_end li l)
unfolding insert_by_end
insert_by_end-Distinct li [] d h = (λ y i. absurd i, tt)
insert_by_end-Distinct li (a ∷ l) d h =
    elim (Bool-cases (end_point_increasing_order_compare a li)) [
      | inl e ↦ rw e (
        λ y i. elim (In-insert_by_end li y l i) [
          | inl p ↦ λ r. h a (inl refl) (sym (sym (ap (λ (z : LiveInterval). z.reg) p) ∙ r))
          | inr s ↦ d.0 y s
        ],
        insert_by_end-Distinct li l d.1 (λ y i. h y (inr i)),
      )
      | inr e ↦ rw e (h, d)
    ]

pub sort-Distinct : (l : List LiveInterval) → Distinct l → Distinct (sort_by_end l)
unfolding sort_by_end
sort-Distinct [] d = d
sort-Distinct (a ∷ l) d =
    insert_by_end-Distinct a (sort_by_end l) (sort-Distinct l d.1) (λ q i. d.0 q (In-sort q l i))

-- The queue gives intervals out by their starts.
pub push-StartsFrom :
    (t : ℕ) (li : LiveInterval) (qs : List LiveInterval)
    → t ≤ li.start_point
    → StartsFrom t qs
    → StartsFrom t (push li qs)
unfolding push start_point_increasing_order_compare
push-StartsFrom t li [] h s = (h, tt)
push-StartsFrom t li (q ∷ qs) h s = ground (arith, push-StartsFrom q.start_point li qs)

insert_by_end-EndsFrom :
    (t : ℕ) (li : LiveInterval) (l : List LiveInterval)
    → t ≤ li.end_point
    → EndsFrom t l
    → EndsFrom t (insert_by_end li l)
unfolding insert_by_end end_point_increasing_order_compare
insert_by_end-EndsFrom t li [] h s = (h, tt)
insert_by_end-EndsFrom t li (a ∷ l) h s = ground (arith, insert_by_end-EndsFrom a.end_point li l)

pub sort-EndsFrom : (l : List LiveInterval) → EndsFrom 0 (sort_by_end l)
unfolding sort_by_end
sort-EndsFrom [] = tt
sort-EndsFrom (a ∷ l) = insert_by_end-EndsFrom 0 a (sort_by_end l) (omega arith) (sort-EndsFrom l)
