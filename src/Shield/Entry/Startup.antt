-- ===== src/Shield/Entry/Startup.antt =====
-- The start of the allocator, from the environment variable to the pool.
use remniw.Prelude.{◌≡◌, refl, inl, inr, false, List, Option, some, arith, Bool-cases}
use remniw.Shield.Options.{Options, Text, Message, init_options}
use remniw.Shield.Options.Usable.{init_options-IsUsable}
use remniw.Shield.System.{System, IsSystem}
use remniw.Shield.Pool.{Pool, Outcome, done}
use remniw.Shield.Pool.Init.{init, new_pool}
use remniw.Shield.Pool.Start.{Initialized, is_disabled, init-Initialized}
use remniw.Shield.Entry.{Library, init_aphotic_shield}

module _ (os : System) (lib : Library) (laws : IsSystem os) where
  -- Where the options do not enable the allocator, nothing is changed.
  init-off :
      (o : Options) (pages : os.Pages)
      → o.enabled ≡ false
      → init os o (new_pool pages) ≡ done tt (new_pool pages)
  unfolding init
  init-off o pages off = rw off refl

  -- Whatever the environment variable is, and whatever `strtol` makes of a number, `initOptions` gives
  -- options, and `initAphoticShield` fails no assertion: where they do not enable the allocator, or give it
  -- no slots, it is left disabled; else the program ends, where the number of slots is negative or the
  -- system refuses the bytes of the pool of that many slots, or gives them and refuses those of a table; or the pool is empty, with as many slots as the options say and no byte
  -- open.
  pub init_aphotic_shield-Initialized :
      (environment : Option Text) (pages : os.Pages)
      → (o : Options) × (messages : List Message) × (out : Outcome (Pool os.Pages) (Unit {0}))
        × (init_options lib.strtol environment ≡ some (o, messages))
        × (init_aphotic_shield os lib environment pages ≡ some out)
        × Initialized os laws o pages out
  unfolding init_aphotic_shield
  init_aphotic_shield-Initialized environment pages =
      let (o, messages, is, usable) = init_options-IsUsable lib.strtol environment in
      (
        o,
        messages,
        init os o (new_pool pages),
        is,
        rw (init_aphotic_shield, is) refl,
        elim (Bool-cases o.enabled) [
          | inl on ↦ init-Initialized os laws o pages (omega (arith, usable on))
          | inr off ↦ is_disabled (init-off o pages off) (inl off)
        ],
      )
