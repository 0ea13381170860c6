-- ===== src/Shield/Report/Blocks.antt =====
-- The misuse that the allocator is there to find, and what is reported of it.
use native.Mathlib.Nat.{mul-suc}
use remniw.Prelude.{
  ℕ, zero, suc, ◌+◌, ◌-◌, ◌/◌, ◌%◌, ◌≤◌, ◌<◌, ◌≡◌, ◌≢◌, refl, ◌∙◌, ◌⊎◌, inl, inr, true, false,
  Option, none, some, ◌==◌, arith, List, [], ◌∷◌,
}
use remniw.Prelude.Bits.{mod_unique}
use remniw.Shield.Layout.{
  AllocatorState, Error, use_after_free, double_free, invalid_free, buffer_overflow,
  buffer_underflow, pointer_is_mine,
}
use remniw.Shield.Layout.Nearest.{slot_start, guard_start, guard_choice}
use remniw.Shield.System.{System, IsSystem, in_range}
use remniw.Shield.Pool.{Pool, AllocationMetadata, trapped, deallocate}
use remniw.Shield.Pool.Place.{start-IsMultiple}
use remniw.Shield.Pool.Valid.{IsPool, IsPlaced, block_at}
use remniw.Shield.Pool.Install.{block_at-some}
use remniw.Shield.Pool.Deallocate.{frees, dies, freed_before, never_given, deallocate-Deallocated}
use remniw.Shield.Report.{
  Line, detected_line, error_line, dump_report, diagnose_error, diagnose_guard, error_is_mine,
  report_address, is_unknown,
}
use remniw.Shield.Report.Faults.{IsClean, dump_report-slot, dump_report-guard}

abbrev pub reported : Error → ℕ → Option (List Line)
reported e b = some (detected_line ∷ error_line e b ∷ [])

-- Of an error that `deallocate` has found, the report does not depend on the address that was touched.
abbrev failed : AllocatorState → Error → ℕ → AllocatorState
failed s e p = record s { failure_type = e; failure_address = p }

dump_report-failed :
    (s : AllocatorState) (md : ℕ → AllocationMetadata) (e : Error) (p b : ℕ)
    → is_unknown e ≡ false
    → p ≢ 0
    → dump_report (failed s e p) md b ≡ reported e p
unfolding dump_report diagnose_error error_is_mine report_address
dump_report-failed s md e p b known pos =
    let set : (p == 0) ≡ false = ground arith in rw (known, set, known) refl

module _ (os : System) (laws : IsSystem os) (st : Pool os.Pages) (v : IsPool os st) where
  abbrev s : AllocatorState
  s = st.state

  abbrev page : ℕ
  page = s.page_size

  abbrev report : ℕ → Option (List Line)
  report b = dump_report s st.metadata b

  module _ (clean : IsClean s) where
    -- Each byte of a slot that was freed and not used since is shut, and touching it is reported as a
    -- use after free at that address, where no error was found before.
    pub dump_report-use_after_free :
        (n b : ℕ)
        → n < st.num_allocations
        → (st.metadata n).is_deallocated ≡ true
        → in_range (slot_start s n) page b ≡ true
        → (os.accessible st.pages b ≡ false) × (report b ≡ reported use_after_free b)
    dump_report-use_after_free n b lt dead inside =
        let below : n < s.max_simultaneous_allocations = omega (arith, lt, v.few_allocations) in
        let d = b - slot_start s n in
        let at : b ≡ slot_start s n + d = ground arith in
        let said : report (slot_start s n + d) ≡ reported use_after_free (slot_start s n + d) =
          dump_report-slot s v.layout clean st.metadata n d below (ground arith) ∙ (rw dead refl) in
        (v.shielded.slot_pages n b below inside ∙ ground arith, rw at said)

    -- The page that a block is in, between two guard pages.
    near_block :
        (n p : ℕ)
        → IsPlaced s n (st.metadata n)
        → (st.metadata n).addr ≡ p
        → p - p % page ≡ slot_start s n
    near_block n p w at =
        let (q, start) = start-IsMultiple os s v.layout n in
        let rest : p % page ≡ p - slot_start s n =
          mod_unique p page q (p - slot_start s n) (omega (arith, start, at, w.after_start))
            (omega (arith, at, w.before_end, w.after_start, w.has_size)) in
        omega (arith, rest, at, w.after_start)

    overflow :
        (n d : ℕ)
        → n < s.max_simultaneous_allocations
        → IsPlaced s n (st.metadata n)
        → d ≤ page / 2
        → d < page
        → (os.accessible st.pages (slot_start s n + page + d) ≡ false)
          × (report (slot_start s n + page + d)
              ≡ reported buffer_overflow (slot_start s n + page + d))
    overflow n d lt w half inside =
        let base = slot_start s n in
        let chosen : guard_choice s v.layout (suc n) d ≡ n = ground arith in
        let at : guard_start s v.layout (suc n) + d ≡ base + page + d =
          omega (arith, mul-suc page n) in
        let is_over : diagnose_guard (st.metadata n) (base + page + d) ≡ buffer_overflow =
          ground (arith, w.after_start, w.before_end, w.has_size, v.layout.is_mapped) in
        let said =
          dump_report-guard s v.layout clean st.metadata (suc n) d lt inside (rw chosen lt) in
        (
          v.shielded.guard_pages (suc n) (base + page + d) lt (ground (arith, at)),
          rw (at, chosen, is_over) at said,
        )

    underflow :
        (n d : ℕ)
        → n < s.max_simultaneous_allocations
        → IsPlaced s n (st.metadata n)
        → page / 2 < d
        → d < page
        → (os.accessible st.pages (guard_start s v.layout n + d) ≡ false)
          × (report (guard_start s v.layout n + d)
              ≡ reported buffer_underflow (guard_start s v.layout n + d))
    underflow n d lt w half inside =
        let b = guard_start s v.layout n + d in
        let le : n ≤ s.max_simultaneous_allocations = omega arith in
        let chosen : guard_choice s v.layout n d ≡ n = chosen_below n d lt half in
        let is_under : diagnose_guard (st.metadata n) b ≡ buffer_underflow =
          ground (arith, w.after_start, v.layout.is_mapped) in
        let said = dump_report-guard s v.layout clean st.metadata n d le inside (rw chosen lt) in
        (v.shielded.guard_pages n b le (ground arith), rw (chosen, is_under) at said)
      where
        chosen_below :
            (n d : ℕ)
            → n < s.max_simultaneous_allocations
            → page / 2 < d
            → guard_choice s v.layout n d ≡ n
        chosen_below zero d lt half = refl
        chosen_below (suc m) d lt half = ground arith

    -- Where no error was found before, for a block of `t` bytes at `p`: a byte of it is open; a byte in
    -- the half page that follows the page of the block is shut, and touching it is reported as an overflow
    -- at that address; a byte before the page of the block, by less than half a page, is shut, and touching
    -- it is reported as an underflow.
    pub dump_report-block :
        (p t b over under : ℕ)
        → block_at st p ≡ some t
        → in_range p t b ≡ true
        → over ≤ page / 2
        → over < page
        → page / 2 < under
        → under < page
        → (os.accessible st.pages b ≡ true)
          × (os.accessible st.pages (p - p % page + page + over) ≡ false)
          × (report (p - p % page + page + over)
              ≡ reported buffer_overflow (p - p % page + page + over))
          × (os.accessible st.pages (p - p % page - page + under) ≡ false)
          × (report (p - p % page - page + under)
              ≡ reported buffer_underflow (p - p % page - page + under))
    dump_report-block p t b d e h inside half after far before =
        let (n, lt, live, w, at, size) = block_at-some os laws st v p t h in
        let start = near_block n p w at in
        let guard : slot_start s n - page ≡ guard_start s v.layout n = omega arith in
        let (over_shut, over_said) = overflow n d lt w half after in
        let (under_shut, under_said) = underflow n e lt w far before in
        rw (start, guard)
          (
            v.shielded.slot_pages n b lt (ground (arith, at, size, w.after_start, w.before_end))
                ∙ live,
            over_shut,
            over_said,
            under_shut,
            under_said,
          )

  is_mapped : (p : ℕ) → pointer_is_mine s p ≡ true → p ≢ 0
  unfolding pointer_is_mine
  is_mapped p mine = ground (arith, v.layout.is_mapped)

  -- A pointer into the pool that is not a block is not freed: `deallocate` traps, and whatever byte raises
  -- the signal, the report names the error, a double free or an invalid free, and the pointer.
  pub dump_report-deallocate :
      (p : ℕ)
      → pointer_is_mine s p ≡ true
      → block_at st p ≡ none
      → (e : Error) × (st' : Pool os.Pages) × (deallocate os p st ≡ trapped st')
        × ((e ≡ double_free) ⊎ (e ≡ invalid_free))
        × ((b : ℕ) → dump_report st'.state st'.metadata b ≡ reported e p)
  dump_report-deallocate p mine gone = elim (deallocate-Deallocated os laws st v p mine) [
    | frees t st' block e w same blocks shut ↦ absurd (not_both gone block)
    | dies n t lt at block why e ↦ absurd (not_both gone block)
    | freed_before n none_at lt dead at e ↦ (
      double_free,
      record st { state = record s { failure_type = double_free; failure_address = p } },
      e,
      inl refl,
      λ b. dump_report-failed s st.metadata double_free p b refl (is_mapped p mine),
    )
    | never_given none_at none_such e ↦ (
      invalid_free,
      record st { state = record s { failure_type = invalid_free; failure_address = p } },
      e,
      inr refl,
      λ b. dump_report-failed s st.metadata invalid_free p b refl (is_mapped p mine),
    )
  ]
    where
      not_both : {o : Option ℕ} {t : ℕ} → o ≡ none → o ≡ some t → ⊥
      not_both p q = grind arith
