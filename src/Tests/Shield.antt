-- ===== src/Tests/Shield.antt =====
-- A pool of two slots on a small system, with a block of 10 bytes at the end of the first slot; and the
-- same pool after that block was freed.
use remniw.Prelude.{
  ℕ, ◌+◌, ◌^◌, ◌<◌, ◌≡◌, refl, ◌⊎◌, Bool, true, false, Option, none, some, ◌==◌, if◌then◌else◌,
  arith, List, [], ◌∷◌,
}
use remniw.Shield.Layout.{
  AllocatorState, Error, unknown, use_after_free, double_free, invalid_free, buffer_overflow,
  buffer_underflow, pointer_is_mine,
}
use remniw.Shield.System.{in_range}
use remniw.Shield.Options.{
  Options, Message, Text, init_options, parse_string, parse_options, parse_option, parse_value,
  set_option_to_value, parse_bool,
}
use remniw.Shield.Options.Usable.{init_options-IsUsable}
use remniw.Shield.Pool.{
  Pool, AllocationMetadata, Outcome, done, trapped, died, asserted, allocate, deallocate,
}
use remniw.Shield.Pool.Init.{no_metadata, init, reserve_guarded_pool, map_tables, map}
use remniw.Shield.Pool.Start.{Initialized}
use remniw.Shield.Pool.Valid.{IsPool}
use remniw.Shield.Pool.Allocate.{Allocated, allocate-Allocated}
use remniw.Shield.Pool.Deallocate.{Deallocated, deallocate-Deallocated}
use remniw.Shield.Heap.{Call, allocate_call, deallocate_call, Runs, run, run-Runs}
use remniw.Shield.Report.{dump_report}
use remniw.Shield.Report.Faults.{IsClean}
use remniw.Shield.Report.Blocks.{
  reported, dump_report-block, dump_report-use_after_free, dump_report-deallocate,
}
use remniw.Shield.Entry.{Library, init_aphotic_shield}
use remniw.Shield.Entry.Startup.{init_aphotic_shield-Initialized}
use remniw.Shield.Entry.Roundtrip.{Restored, alloc_dealloc, as_dealloc-as_alloc}
use remniw.Shield.Words.{round_up_to, is_power_of_two}
use remniw.Tests.ShieldSystem.{Memory, small_system, small_system-IsSystem}

-- The slots begin at 32 and at 64.
abbrev two_slots : AllocatorState
two_slots = record {
  max_simultaneous_allocations = 2;
  guarded_page_pool = 16;
  guarded_page_pool_end = 96;
  page_size = 16;
  failure_type = unknown;
  failure_address = 0;
}

two_slots-IsClean : IsClean two_slots
two_slots-IsClean = record { no_failure = refl; no_address = refl }

abbrev first_slot : Bool → ℕ → AllocationMetadata
first_slot freed n =
    if n == 0 then record { addr = 38; size = 10; is_deallocated = freed } else no_metadata

abbrev live_pool : Pool Memory
live_pool = record {
  state = two_slots;
  num_allocations = 1;
  metadata = first_slot false;
  free_slots = λ i. 0;
  free_slots_length = 0;
  random_state = 0xacd979ce;
  pages = record { limit = 96; is_open = in_range 32 16 };
}

abbrev freed_pool : Pool Memory
freed_pool = record {
  state = two_slots;
  num_allocations = 1;
  metadata = first_slot true;
  free_slots = λ i. 0;
  free_slots_length = 1;
  random_state = 0xacd979ce;
  pages = record { limit = 96; is_open = λ b. false };
}

live_pool-IsPool : IsPool small_system live_pool
live_pool-IsPool = record {
  layout = record {
    has_slots = omega arith;
    has_pages = omega arith;
    is_mapped = omega arith;
    at_page = refl;
    end_is = refl;
    is_word = omega arith;
  };
  same_page = refl;
  few_allocations = omega arith;
  slots = record {
    counted = refl;
    free_below = λ i lt. absurd (omega arith);
    free_dead = λ i lt. absurd (omega arith);
    free_distinct = λ i j lt l e. absurd (omega arith);
  };
  placed = λ n lt.
      let e : n ≡ 0 = omega arith in
      rw e (record { has_size = omega arith; after_start = omega arith; before_end = omega arith });
  unused = λ n le. ground arith;
  shielded = record {
    slot_pages = λ n b lt inside. ground arith;
    guard_pages = λ n b le inside. ground arith;
  };
}

freed_pool-IsPool : IsPool small_system freed_pool
freed_pool-IsPool = record {
  layout = live_pool-IsPool.layout;
  same_page = refl;
  few_allocations = omega arith;
  slots = record {
    counted = refl;
    free_below = λ i lt. omega arith;
    free_dead = λ i lt. refl;
    free_distinct = λ i j lt l e. omega arith;
  };
  placed = λ n lt.
      let e : n ≡ 0 = omega arith in
      rw e (record { has_size = omega arith; after_start = omega arith; before_end = omega arith });
  unused = λ n le. ground arith;
  shielded = record {
    slot_pages = λ n b lt inside. ground arith;
    guard_pages = λ n b le inside. refl;
  };
}

-- A library whose numbers are all 7, and whose memory begins at 5000.
abbrev small_library : Library
small_library = record {
  State = ℕ;
  malloc = λ size used. (5000 + used, used + size);
  free = λ p used. used;
  strtol = λ t. (7, []);
}

allocate-Allocated_example :
    Allocated small_system live_pool 5 8 (allocate small_system 5 8 live_pool)
allocate-Allocated_example =
    allocate-Allocated small_system live_pool small_system-IsSystem live_pool-IsPool 5 8
      (omega arith) (omega arith)

deallocate-Deallocated_example :
    Deallocated small_system small_system-IsSystem live_pool live_pool-IsPool 38
      (deallocate small_system 38 live_pool)
unfolding pointer_is_mine
deallocate-Deallocated_example =
    deallocate-Deallocated small_system small_system-IsSystem live_pool live_pool-IsPool 38 refl

abbrev three_calls : List Call
three_calls = allocate_call 5 8 ∷ deallocate_call 38 ∷ deallocate_call 38 ∷ []

run-Runs_example : Runs small_system live_pool three_calls (run small_system three_calls live_pool)
unfolding pointer_is_mine
run-Runs_example =
    run-Runs small_system small_system-IsSystem three_calls live_pool live_pool-IsPool
      ((omega arith, omega arith), (refl, (refl, tt)))

-- The byte 40 is in the block, 51 is behind its page and 28 before it.
dump_report-block_example :
    (in_range 32 16 40 ≡ true)
    × (in_range 32 16 51 ≡ false)
    × (dump_report two_slots (first_slot false) 51 ≡ reported buffer_overflow 51)
    × (in_range 32 16 28 ≡ false)
    × (dump_report two_slots (first_slot false) 28 ≡ reported buffer_underflow 28)
dump_report-block_example =
    dump_report-block small_system small_system-IsSystem live_pool live_pool-IsPool
      two_slots-IsClean 38 10 40 3 12 refl refl (omega arith) (omega arith) (omega arith)
      (omega arith)

dump_report-use_after_free_example :
    (false ≡ false) × (dump_report two_slots (first_slot true) 40 ≡ reported use_after_free 40)
dump_report-use_after_free_example =
    dump_report-use_after_free small_system small_system-IsSystem freed_pool freed_pool-IsPool
      two_slots-IsClean 0 40 (omega arith) refl refl

dump_report-deallocate_example :
    (e : Error) × (st' : Pool Memory) × (deallocate small_system 38 freed_pool ≡ trapped st')
    × ((e ≡ double_free) ⊎ (e ≡ invalid_free))
    × ((b : ℕ) → dump_report st'.state st'.metadata b ≡ reported e 38)
unfolding pointer_is_mine
dump_report-deallocate_example =
    dump_report-deallocate small_system small_system-IsSystem freed_pool freed_pool-IsPool 38 refl
      refl

as_dealloc-as_alloc_example :
    Restored small_system small_library small_system-IsSystem 20 live_pool 3
      (alloc_dealloc small_system small_library small_system-IsSystem 20 (live_pool, 3))
unfolding pointer_is_mine
as_dealloc-as_alloc_example =
    as_dealloc-as_alloc small_system small_library small_system-IsSystem 20 live_pool 3
      live_pool-IsPool (omega arith) refl

-- "MaxSimultaneousAllocations=7"
abbrev seven : Text
seven =
    77 ∷ 97 ∷ 120 ∷ 83 ∷ 105 ∷ 109 ∷ 117 ∷ 108 ∷ 116 ∷ 97 ∷ 110 ∷ 101 ∷ 111 ∷ 117 ∷ 115 ∷ 65 ∷ 108
    ∷ 108 ∷ 111 ∷ 99 ∷ 97 ∷ 116 ∷ 105 ∷ 111 ∷ 110 ∷ 115 ∷ 61 ∷ 55 ∷ []

init_options-IsUsable_example :
    (o : Options) × (messages : List Message) × (init_options small_library.strtol (some seven)
      ≡ some (o, messages))
    × (o.enabled ≡ true
        → (0 < o.max_simultaneous_allocations) × (o.max_simultaneous_allocations < 2 ^ 31))
init_options-IsUsable_example = init_options-IsUsable small_library.strtol (some seven)

init_aphotic_shield-Initialized_example :
    (o : Options) × (messages : List Message) × (out : Outcome (Pool Memory) (Unit {0}))
    × (init_options small_library.strtol (some seven) ≡ some (o, messages))
    × (init_aphotic_shield small_system small_library
          (some seven)
          (record { limit = 0; is_open = λ b. false })
        ≡ some out)
    × Initialized small_system small_system-IsSystem o
        (record { limit = 0; is_open = λ b. false })
        out
init_aphotic_shield-Initialized_example =
    init_aphotic_shield-Initialized small_system small_library small_system-IsSystem (some seven)
      (record { limit = 0; is_open = λ b. false })

abbrev pool_end : Option (Outcome (Pool Memory) (Unit {0})) → ℕ
pool_end none = 0
pool_end (some (done a st)) = st.state.guarded_page_pool_end
pool_end (some (trapped st)) = 1
pool_end (some died) = 2
pool_end (some asserted) = 3

-- Seven slots, in 240 bytes from 16 on.
starts_with_seven :
    pool_end (
      init_aphotic_shield small_system small_library
        (some seven)
        (record { limit = 0; is_open = λ b. false }))
    ≡ 256
unfolding init_aphotic_shield init_options parse_string parse_options parse_option parse_value
    set_option_to_value parse_bool init reserve_guarded_pool map_tables map round_up_to
    is_power_of_two
starts_with_seven = refl
