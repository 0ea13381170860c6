-- ===== src/Shield/Entry.antt =====
-- aphotic_shield_allocator.cpp and aphotic_shield_interface.cpp: what a program calls. `malloc` and `free` are
-- the C library's, and parameters here, with a state of their own.
pub mod Roundtrip
pub mod Startup
use remniw.Prelude.{ℕ, ◌≡◌, Bool, true, false, Option, none, some, if◌then◌else◌, List}
use remniw.Shield.Layout.{pointer_is_mine}
use remniw.Shield.Options.{Options, Text, Message, init_options}
use remniw.Shield.System.{System}
use remniw.Shield.Pool.{Pool, Outcome, done, trapped, died, asserted, allocate, deallocate}
use remniw.Shield.Pool.Init.{init, new_pool}

-- A pointer of zero is the null pointer.
pub record Library : Type 1 where
  pub State : Type 0
  pub malloc : ℕ → State → ℕ × State
  pub free : ℕ → State → State
  pub strtol : Text → ℕ × Text

module _ (os : System) (lib : Library) where
  abbrev pub Program : Type 0
  Program = Pool os.Pages × lib.State

  -- A call of the pool leaves the library as it is.
  abbrev pub beside : {A : Type 0} → lib.State → Outcome (Pool os.Pages) A → Outcome Program A
  beside c (done a st) = done a (st, c)
  beside c (trapped st) = trapped (st, c)
  beside c died = died
  beside c asserted = asserted

  abbrev pub then_malloc : ℕ → lib.State → Outcome (Pool os.Pages) (Option ℕ) → Outcome Program ℕ
  then_malloc size c (done none st) = done (lib.malloc size c).0 (st, (lib.malloc size c).1)
  then_malloc size c (done (some p) st) = done p (st, c)
  then_malloc size c (trapped st) = trapped (st, c)
  then_malloc size c died = died
  then_malloc size c asserted = asserted

  unfoldable pub aphotic_shield_allocate : ℕ → ℕ → Program → Outcome Program ℕ
  aphotic_shield_allocate size alignment (st, c) =
      then_malloc size c (allocate os size alignment st)

  unfoldable pub aphotic_shield_deallocate : ℕ → ℕ → ℕ → Program → Outcome Program (Unit {0})
  aphotic_shield_deallocate ptr size alignment (st, c) =
      if pointer_is_mine st.state ptr
      then beside c (deallocate os ptr st)
      else done tt (st, lib.free ptr c)

  unfoldable pub as_alloc : ℕ → Program → Outcome Program ℕ
  unfolding aphotic_shield_allocate
  as_alloc size program = aphotic_shield_allocate size 0 program

  unfoldable pub as_dealloc : ℕ → Program → Outcome Program (Unit {0})
  unfolding aphotic_shield_deallocate
  as_dealloc ptr program = aphotic_shield_deallocate ptr 0 0 program

  -- `initAphoticShield`, for the value of the environment variable. `none` where the parser of the
  -- options does not end.
  unfoldable pub init_aphotic_shield :
      Option Text → os.Pages → Option (Outcome (Pool os.Pages) (Unit {0}))
  init_aphotic_shield environment pages = elim (init_options lib.strtol environment) [
    | none ↦ none
    | some r ↦ some (init os r.0 (new_pool pages))
  ]
