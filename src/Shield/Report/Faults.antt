-- ===== src/Shield/Report/Faults.antt =====
-- What the report says of an access to memory of the pool that is not open.
use remniw.Prelude.{
  ℕ, ◌+◌, ◌≤◌, ◌<◌, ◌≡◌, refl, ap, ◌∙◌, true, some, ◌==◌, if◌then◌else◌, arith, ◌∷◌,
}
use remniw.Shield.Layout.{
  AllocatorState, IsLayout, Error, unknown, use_after_free, is_guard_page_slot, is_guard_page_guard,
  get_nearest_slot, slots_below, slots_up_to, slot_to_addr_lem,
}
use remniw.Shield.Layout.Nearest.{
  slot_start, guard_start, guard_choice, get_nearest_slot-slot, get_nearest_slot-guard,
}
use remniw.Shield.Pool.{AllocationMetadata}
use remniw.Shield.Report.{
  detected_line, error_lines, dump_report, diagnose_error, diagnose_guard, error_is_mine,
  addr_to_metadata, report_address, is_unknown,
}

-- No error was found before.
pub record IsClean (s : AllocatorState) : Type 0 where
  pub no_failure : s.failure_type ≡ unknown
  pub no_address : s.failure_address ≡ 0

module _ (s : AllocatorState) (v : IsLayout s) (clean : IsClean s)
    (md : ℕ → AllocationMetadata) where
  abbrev page : ℕ
  page = s.page_size

  abbrev slots : ℕ
  slots = s.max_simultaneous_allocations

  no_failure : is_unknown s.failure_type ≡ true
  no_failure = ap is_unknown clean.no_failure

  no_address : (s.failure_address == 0) ≡ true
  no_address = ground (arith, clean.no_address)

  mine : (b : ℕ) → s.guarded_page_pool ≤ b → b < s.guarded_page_pool_end → error_is_mine s b ≡ true
  unfolding error_is_mine
  mine b low high = rw no_failure (ground arith)

  unchanged_address : (b : ℕ) → report_address s b ≡ b
  unfolding report_address
  unchanged_address b = rw no_address refl

  dump_report-diagnosed :
      (b : ℕ) (e : Error)
      → error_is_mine s b ≡ true
      → diagnose_error s md b ≡ some e
      → dump_report s md b ≡ some (detected_line ∷ error_lines e b)
  unfolding dump_report
  dump_report-diagnosed b e is_mine h = rw (is_mine, unchanged_address b, h) refl

  diagnose_error-slot :
      (n d : ℕ)
      → n < slots
      → d < page
      → error_is_mine s (slot_start s n + d) ≡ true
      → diagnose_error s md (slot_start s n + d)
        ≡ some (if (md n).is_deallocated then use_after_free else unknown)
  unfolding diagnose_error addr_to_metadata
  diagnose_error-slot n d lt inside is_mine =
      rw
        (
          is_mine,
          no_failure,
          is_guard_page_slot s v n d lt inside,
          get_nearest_slot-slot s v n d lt inside,
        )
        refl

  -- A byte of a slot: it is known whether the slot was freed.
  pub dump_report-slot :
      (n d : ℕ)
      → n < slots
      → d < page
      → dump_report s md (slot_start s n + d)
        ≡ some (
            detected_line
            ∷ error_lines
                (if (md n).is_deallocated then use_after_free else unknown)
                (slot_start s n + d))
  dump_report-slot n d lt inside =
      let b = slot_start s n + d in
      let is_mine = mine b (omega arith) (omega (arith, slots_below s v n lt, v.end_is)) in
      dump_report-diagnosed b (if (md n).is_deallocated then use_after_free else unknown) is_mine
        (diagnose_error-slot n d lt inside is_mine)

  diagnose_error-guard :
      (n d : ℕ)
      → n ≤ slots
      → d < page
      → guard_choice s v n d < slots
      → error_is_mine s (guard_start s v n + d) ≡ true
      → diagnose_error s md (guard_start s v n + d)
        ≡ some (diagnose_guard (md (guard_choice s v n d)) (guard_start s v n + d))
  unfolding diagnose_error addr_to_metadata
  diagnose_error-guard n d le inside lt is_mine =
      let k = guard_choice s v n d in
      let again : get_nearest_slot s (slot_start s k) ≡ some k =
        ap (get_nearest_slot s) (omega arith) ∙ get_nearest_slot-slot s v k 0 lt v.has_pages in
      rw
        (
          is_mine,
          no_failure,
          is_guard_page_guard s v n d le inside,
          get_nearest_slot-guard s v n d le inside,
          slot_to_addr_lem s v k lt,
          again,
        )
        refl

  -- A byte of a guard page: the nearest slot is asked.
  pub dump_report-guard :
      (n d : ℕ)
      → n ≤ slots
      → d < page
      → guard_choice s v n d < slots
      → dump_report s md (guard_start s v n + d)
        ≡ some (
            detected_line
            ∷ error_lines
                (diagnose_guard (md (guard_choice s v n d)) (guard_start s v n + d))
                (guard_start s v n + d))
  dump_report-guard n d le inside lt =
      let b = guard_start s v n + d in
      let is_mine = mine b (omega arith) (omega (arith, slots_up_to s v n le, v.end_is)) in
      dump_report-diagnosed b (diagnose_guard (md (guard_choice s v n d)) b) is_mine
        (diagnose_error-guard n d le inside lt is_mine)
