-- ===== src/Shield/Heap.antt =====
-- What the guarded pool promises: a heap, of which each call is allowed so much, and the calls of
-- `allocate` and `deallocate` one after the other.
use remniw.Prelude.{
  ℕ, ◌+◌, ◌%◌, ◌^◌, ◌≤◌, ◌<◌, ◌≡◌, refl, ap, ◌∙◌, ◌⊎◌, inl, inr, true, false, Option, none, some,
  ◌==◌, if◌then◌else◌, List, [], ◌∷◌, ◌++◌,
}
use remniw.Shield.Layout.{AllocatorState, Error, pointer_is_mine, double_free, invalid_free}
use remniw.Shield.System.{System, IsSystem}
use remniw.Shield.Layout.Nearest.{slot_start}
use remniw.Shield.Pool.{
  Pool, Outcome, done, trapped, died, M, allocate, deallocate, real_size, real_alignment,
  is_supported, ◌>>=◌ as bind, pure,
}
use remniw.Shield.Pool.Valid.{IsPool, is_live, block_at}
use remniw.Shield.Pool.Allocate.{declines, dies, gives, allocate-Allocated}
use remniw.Shield.Pool.Deallocate.{
  frees, freed_before, never_given, deallocate-Deallocated, dies as dies_shutting,
}

-- Which addresses are blocks, and of which size.
abbrev pub Heap : Type 0
Heap = ℕ → Option ℕ

pub data Call : Type 0 where
  allocate_call : ℕ → ℕ → Call
  deallocate_call : ℕ → Call

-- What a call may do to a heap, and answer.
pub data Allows (h h' : Heap) : Call → Option ℕ → Type 0 where
  no_block :
      {size alignment : ℕ}
      → ((q : ℕ) → h' q ≡ h q)
      → Allows h h' (allocate_call size alignment) none
  new_block :
      {size alignment p : ℕ}
      → p % real_alignment alignment ≡ 0
      → ((q t : ℕ) → h q ≡ some t → (p + real_size size ≤ q) ⊎ (q + t ≤ p))
      → ((q : ℕ) → h' q ≡ (if q == p then some (real_size size) else h q))
      → Allows h h' (allocate_call size alignment) (some p)
  no_longer :
      {p t : ℕ}
      → h p ≡ some t
      → ((q : ℕ) → h' q ≡ (if q == p then none else h q))
      → Allows h h' (deallocate_call p) none

pub data Trace : Heap → List Call → List (Option ℕ) → Heap → Type 0 where
  ends : {h h' : Heap} → ((q : ℕ) → h' q ≡ h q) → Trace h [] [] h'
  goes :
      {h next h' : Heap} {c : Call} {a : Option ℕ} {cs : List Call} {rest : List (Option ℕ)}
      → Allows h next c a
      → Trace next cs rest h'
      → Trace h (c ∷ cs) (a ∷ rest) h'

-- A call for words, and for addresses of the pool.
abbrev pub IsCall : AllocatorState → Call → Type 0
IsCall s (allocate_call size alignment) = (size < 2 ^ 64) × (alignment < 2 ^ 64)
IsCall s (deallocate_call p) = pointer_is_mine s p ≡ true

abbrev pub AreCalls : AllocatorState → List Call → Type 0
AreCalls s [] = Unit {0}
AreCalls s (c ∷ cs) = IsCall s c × AreCalls s cs

module _ (os : System) where
  abbrev pub call : Call → M os (Option ℕ)
  call (allocate_call size alignment) = allocate os size alignment
  call (deallocate_call p) = bind os (deallocate os p) (λ _. pure os none)

  abbrev pub run : List Call → M os (List (Option ℕ))
  run [] = pure os []
  run (c ∷ cs) = bind os (call c) (λ a. bind os (run cs) (λ rest. pure os (a ∷ rest)))

  -- What the system refuses for a call in a state: to open the page of a free slot, for an allocation that
  -- is supported; to shut the page of the slot that has the block, for a deallocation.
  abbrev pub Refused : Pool os.Pages → Call → Type 0
  Refused st (allocate_call size alignment) =
      (n : ℕ) × (n < st.state.max_simultaneous_allocations)
      × (is_live st.num_allocations st.metadata n ≡ false)
      × (is_supported os st.state (real_size size) (real_alignment alignment) ≡ true)
      × (os.mprotect_read_write (slot_start st.state n) st.state.page_size st.pages ≡ none)
  Refused st (deallocate_call p) =
      (n t : ℕ) × (n < st.num_allocations)
      × ((st.metadata n).addr ≡ p)
      × (block_at st p ≡ some t)
      × (os.mmap_fixed_none (slot_start st.state n) st.state.page_size st.pages ≡ none)

  -- Calls come to their end, as the heap allows; or the heap allows those before a call for which, in the
  -- state that they leave, the system refuses the page, and there the program ends; or the heap allows those before a
  -- `deallocate` of what is not a block, and there the program stops, with the error and the address.
  pub data Runs (st : Pool os.Pages) (cs : List Call)
      (out : Outcome (Pool os.Pages) (List (Option ℕ))) : Type 0 where
    finishes :
        (answers : List (Option ℕ)) (st' : Pool os.Pages)
        → out ≡ done answers st'
        → IsPool os st'
        → st'.state ≡ st.state
        → Trace (block_at st) cs answers (block_at st')
        → Runs st cs out
    stops :
        (before after : List Call) (c : Call) (answers : List (Option ℕ)) (st' : Pool os.Pages)
        → cs ≡ before ++ c ∷ after
        → run before st ≡ done answers st'
        → Trace (block_at st) before answers (block_at st')
        → Refused st' c
        → out ≡ died
        → Runs st cs out
    catches :
        (before after : List Call) (p : ℕ) (answers : List (Option ℕ)) (st' : Pool os.Pages)
        (e : Error)
        → cs ≡ before ++ deallocate_call p ∷ after
        → run before st ≡ done answers st'
        → Trace (block_at st) before answers (block_at st')
        → block_at st' p ≡ none
        → (e ≡ double_free) ⊎ (e ≡ invalid_free)
        → out
          ≡ trapped
              (record st' { state = record st'.state { failure_type = e; failure_address = p } })
        → Runs st cs out

  module _ (laws : IsSystem os) where
    -- A call, and those after it.
    run_after :
        (st st1 : Pool os.Pages) (c : Call) (cs : List Call) (a : Option ℕ)
        → call c st ≡ done a st1
        → st1.state ≡ st.state
        → Allows (block_at st) (block_at st1) c a
        → Runs st1 cs (run cs st1)
        → Runs st (c ∷ cs) (run (c ∷ cs) st)
    run_after st st1 c cs a e same step (finishes rest st' out v kept trace) =
        rw (bind, e, out) (finishes (a ∷ rest) st' refl v (kept ∙ same) (goes step trace))
    run_after st st1 c cs a e same step (stops before after d rest st' split prior trace why out) =
        rw (bind, e, out)
          (stops (c ∷ before) after d (a ∷ rest) st' (ap (λ l. c ∷ l) split)
            (rw (bind, e, prior) refl) (goes step trace) why refl)
    run_after st st1 c cs a e same step
          (catches before after p rest st' f split prior trace gone kind out) =
        rw (bind, e, out)
          (catches (c ∷ before) after p (a ∷ rest) st' f (ap (λ l. c ∷ l) split)
            (rw (bind, e, prior) refl) (goes step trace) gone kind refl)

    -- `allocate` and `deallocate` refine the heap: from a state between two calls, for sizes and alignments
    -- that are words and pointers into the pool, a sequence of calls fails no assertion. It comes to its
    -- end with answers that the heap allows. Or the calls before one of them do, and the program ends in
    -- that one, for which the system refuses, in the state then, to open the page of a free slot or to shut
    -- the page of the block's slot. Or they do, and it stops at a `deallocate` of what is not a block then, with a double or an invalid free of that address recorded.
    pub run-Runs :
        (cs : List Call) (st : Pool os.Pages)
        → IsPool os st
        → AreCalls st.state cs
        → Runs st cs (run cs st)
    run-Runs [] st v calls = finishes [] st refl v refl (ends (λ q. refl))
    run-Runs (allocate_call size alignment ∷ cs) st v ((sz, al), calls) =
        elim (allocate-Allocated os st laws v size alignment sz al) [
          | declines e why ↦
              run_after st st (allocate_call size alignment) cs none e refl (no_block (λ q. refl))
                (run-Runs cs st v calls)
          | dies n lt vacant fit why e ↦
              rw (bind, e)
                (stops [] cs (allocate_call size alignment) [] st refl refl (ends (λ q. refl))
                  (n, lt, vacant, fit, why) refl)
          | gives p st1 e w same aligned apart blocks opens ↦
              run_after st st1 (allocate_call size alignment) cs (some p) e same
                (new_block aligned apart blocks) (run-Runs cs st1 w (rw same calls))
        ]
    run-Runs (deallocate_call p ∷ cs) st v (mine, calls) =
        elim (deallocate-Deallocated os laws st v p mine) [
          | frees t st1 block e w same blocks shut ↦
              run_after st st1 (deallocate_call p) cs none (rw (bind, e) refl) same
                (no_longer block blocks) (run-Runs cs st1 w (rw same calls))
          | dies_shutting n t lt at block why e ↦
              rw (bind, e)
                (stops [] cs (deallocate_call p) [] st refl refl (ends (λ q. refl))
                  (n, t, lt, at, block, why) refl)
          | freed_before n gone lt dead at e ↦
              rw (bind, e)
                (catches [] cs p [] st double_free refl refl (ends (λ q. refl)) gone (inl refl)
                  refl)
          | never_given gone none_at e ↦
              rw (bind, e)
                (catches [] cs p [] st invalid_free refl refl (ends (λ q. refl)) gone (inr refl)
                  refl)
        ]
