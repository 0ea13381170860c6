-- ===== src/RegAlloc/Interval.antt =====
-- codegen/asm/LiveInterval.h, and the two orders of RegisterAllocator.h by which the allocator sorts
-- intervals, with the standard library's queue and sort that are called with them.
pub mod Sorting
use remniw.Prelude.{ℕ, Bool, List, [], ◌∷◌, ◌==◌, ◌&&◌, ◌||◌, ltb, if◌then◌else◌}

pub record LiveRange : Type 0 where
  pub start_point : ℕ
  pub end_point : ℕ
  pub used_across_call : Bool

-- A lifetime with holes.
pub record LiveRanges : Type 0 where
  pub ranges : List LiveRange

-- A lifetime with no holes.
pub record LiveInterval : Type 0 where
  pub start_point : ℕ
  pub end_point : ℕ
  pub reg : ℕ
  pub used_across_call : Bool

-- `LiveIntervalStartPointIncreasingOrderCompare`
unfoldable pub start_point_increasing_order_compare : LiveInterval → LiveInterval → Bool
start_point_increasing_order_compare lhs rhs =
    ltb rhs.start_point lhs.start_point
    || lhs.start_point == rhs.start_point && ltb rhs.end_point lhs.end_point

-- `LiveIntervalEndPointIncreasingOrderCompare`
unfoldable pub end_point_increasing_order_compare : LiveInterval → LiveInterval → Bool
end_point_increasing_order_compare lhs rhs = ltb lhs.end_point rhs.end_point

-- `std::priority_queue` with the first order: the list holds what the queue gives out, in that order.
-- An entry goes before those that compare greater than it.
unfoldable pub push : LiveInterval → List LiveInterval → List LiveInterval
push li [] = li ∷ []
push li (q ∷ qs) = if start_point_increasing_order_compare q li then li ∷ q ∷ qs else q ∷ push li qs

unfoldable pub insert_by_end : LiveInterval → List LiveInterval → List LiveInterval
insert_by_end li [] = li ∷ []
insert_by_end li (a ∷ rest) =
    if end_point_increasing_order_compare a li then a ∷ insert_by_end li rest else li ∷ a ∷ rest

-- `std::sort` with the second order.
unfoldable pub sort_by_end : List LiveInterval → List LiveInterval
sort_by_end [] = []
sort_by_end (a ∷ rest) = insert_by_end a (sort_by_end rest)
