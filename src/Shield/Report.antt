-- ===== src/Shield/Report.antt =====
-- error_report.cpp: what is printed when the program touches memory that it may not touch.
pub mod Faults
pub mod Blocks
use remniw.Prelude.{
  ℕ, ◌+◌, ◌≤◌, ◌<◌, ◌≡◌, Bool, true, false, not, ◌&&◌, ◌||◌, Option, none, some, ltb, leb, ◌==◌,
  if◌then◌else◌, List, [], ◌∷◌, ◌>>=◌,
}
use remniw.Shield.Layout.{
  AllocatorState, Error, unknown, use_after_free, double_free, invalid_free, buffer_overflow,
  buffer_underflow, get_nearest_slot, slot_to_addr, is_guard_page,
}
use remniw.Shield.Pool.{AllocationMetadata}

abbrev pub is_unknown : Error → Bool
is_unknown unknown = true
is_unknown use_after_free = false
is_unknown double_free = false
is_unknown invalid_free = false
is_unknown buffer_overflow = false
is_unknown buffer_underflow = false

unfoldable pub error_is_mine : AllocatorState → ℕ → Bool
error_is_mine s error_ptr =
    if not (is_unknown s.failure_type) && not (s.failure_address == 0)
    then true
    else leb s.guarded_page_pool error_ptr && ltb error_ptr s.guarded_page_pool_end

abbrev pub get_internal_crash_address : AllocatorState → ℕ
get_internal_crash_address s = s.failure_address

unfoldable pub addr_to_metadata :
    AllocatorState → (ℕ → AllocationMetadata) → ℕ → Option AllocationMetadata
addr_to_metadata s metadata ptr = do slot ← get_nearest_slot s ptr; some (metadata slot)

-- What an access in a guard page was, from what is on record of the nearest slot.
abbrev pub diagnose_guard : AllocationMetadata → ℕ → Error
diagnose_guard slot_meta error_ptr =
    if slot_meta.addr == 0
    then unknown
    else if ltb slot_meta.addr error_ptr
    then buffer_overflow
    else buffer_underflow

abbrev pub diagnose_guard_page : AllocatorState → (ℕ → AllocationMetadata) → ℕ → Option Error
diagnose_guard_page s metadata error_ptr = do
  slot ← get_nearest_slot s error_ptr
  slot_meta ← addr_to_metadata s metadata (slot_to_addr s slot)
  some (diagnose_guard slot_meta error_ptr)

abbrev pub diagnose_slot : AllocatorState → (ℕ → AllocationMetadata) → ℕ → Option Error
diagnose_slot s metadata error_ptr = do
  slot_meta ← addr_to_metadata s metadata error_ptr
  some (if slot_meta.is_deallocated then use_after_free else unknown)

-- `none` where an assertion fails.
unfoldable pub diagnose_error : AllocatorState → (ℕ → AllocationMetadata) → ℕ → Option Error
unfolding error_is_mine addr_to_metadata
diagnose_error s metadata error_ptr =
    if not (error_is_mine s error_ptr)
    then some unknown
    else if not (is_unknown s.failure_type)
    then some s.failure_type
    else is_guard_page s error_ptr >>= λ guard.
        if guard
        then diagnose_guard_page s metadata error_ptr
        else diagnose_slot s metadata error_ptr

-- The lines that are printed.
pub data Line : Type 0 where
  detected_line : Line
  error_line : Error → ℕ → Line
  no_more_information_line : Line

abbrev pub error_lines : Error → ℕ → List Line
error_lines e error_ptr =
    if is_unknown e
    then error_line e error_ptr ∷ no_more_information_line ∷ []
    else error_line e error_ptr ∷ []

-- The address that the report is about.
unfoldable pub report_address : AllocatorState → ℕ → ℕ
report_address s error_ptr =
    let internal_error_ptr = get_internal_crash_address s in
    if internal_error_ptr == 0 then error_ptr else internal_error_ptr

unfoldable pub dump_report : AllocatorState → (ℕ → AllocationMetadata) → ℕ → Option (List Line)
unfolding error_is_mine report_address diagnose_error
dump_report s metadata error_ptr =
    let ptr = report_address s error_ptr in
    if not (error_is_mine s error_ptr)
    then some []
    else (do e ← diagnose_error s metadata ptr; some (detected_line ∷ error_lines e ptr))
