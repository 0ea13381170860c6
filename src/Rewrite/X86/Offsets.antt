-- ===== src/Rewrite/X86/Offsets.antt =====
-- Where the local objects lie, and how far the stack pointer is moved.
use remniw.Prelude.{
  ℕ, ◌+◌, ◌*◌, ◌%◌, ◌^◌, ◌≤◌, ◌<◌, ◌≡◌, ◌≢◌, refl, inl, inr, Bool, true, false, List, [], ◌∷◌, some,
  In, arith, le→leb,
}
use remniw.Rewrite.{AsmFunction, StackObject, ObjectValue, incoming_arg, alloca, other, neg}
use remniw.Select.{u64}
use remniw.Rewrite.X86.Frame.{stack_size_for_callee_saved_regs, needed_stack_size, place_objects}

-- The bytes of the local objects, which is what `LocalFrameSize` is the sum of.
abbrev pub local_size : List StackObject → ℕ
local_size [] = 0
local_size (o ∷ os) = elim o.v [
  | alloca ↦ o.size + local_size os
  | incoming_arg n ↦ local_size os
  | other ↦ local_size os
]

-- Arguments on the stack are those after the sixth, and local objects are not empty.
abbrev pub IsObject : StackObject → Type 0
IsObject o = elim o.v [ alloca ↦ 1 ≤ o.size | incoming_arg n ↦ 6 ≤ n | other ↦ Unit {0} ]

abbrev pub AllObjects : List StackObject → Type 0
AllObjects [] = Unit {0}
AllObjects (o ∷ os) = IsObject o × AllObjects os

-- A local object whose bytes end `top` below the frame pointer at most, and begin at `bottom` at
-- most: offsets are negative words.
pub record Within (top bottom : ℕ) (o : StackObject) : Type 0 where
  pub below : o.offset + o.size + top ≤ 2 ^ 64
  pub above : 2 ^ 64 ≤ o.offset + bottom

abbrev pub AllWithin : ℕ → ℕ → List StackObject → Type 0
AllWithin top bottom os = (o : StackObject) → In o os → o.v ≡ alloca → Within top bottom o

-- Each local object lies below those before it.
abbrev pub Apart : List StackObject → Type 0
Apart [] = Unit {0}
Apart (x ∷ xs) =
    ((y : StackObject) → In y xs → x.v ≡ alloca → y.v ≡ alloca → y.offset + y.size ≤ x.offset)
    × Apart xs

pub record LaidOut (incoming depth : ℕ) (os : List StackObject) : Type 0 where
  pub objects : List StackObject
  pub returns : place_objects incoming depth os ≡ some objects
  pub within : AllWithin depth (depth + local_size os) objects
  pub apart : Apart objects

abbrev is_local : ObjectValue → Bool
is_local alloca = true
is_local _ = false

-- An object that is not local does not matter.
not_local :
    (o : StackObject) (top bottom : ℕ) (os : List StackObject)
    → is_local o.v ≡ false
    → AllWithin top bottom os
    → Apart os
    → AllWithin top bottom (o ∷ os) × Apart (o ∷ os)
not_local o top bottom os n within apart = (
  λ y i local. elim i [
    | inl e ↦ absurd (false_ne (rw (← e, local) at n))
    | inr i' ↦ within y i' local
  ],
  (λ y i local. absurd (false_ne (rw local at n)), apart),
)
  where
    false_ne : true ≢ false
    false_ne h = ground (arith, h)

abbrev pub object : ℕ → ℕ → ObjectValue → StackObject
object size offset v = record { size = size; offset = offset; v = v }

-- One more object, by what it stands for.
one_more :
    (incoming depth size offset : ℕ) (v : ObjectValue) (os : List StackObject)
    → IsObject (object size offset v)
    → depth + local_size (object size offset v ∷ os) < 2 ^ 63
    → ((i d : ℕ) → d + local_size os < 2 ^ 63 → LaidOut i d os)
    → LaidOut incoming depth (object size offset v ∷ os)
unfolding place_objects
one_more incoming depth size offset (incoming_arg n) os given small rest =
    let more = rest (incoming + size) depth (omega arith) in
    let placed = object size (u64 incoming) (incoming_arg n) in
    let parts =
      not_local placed depth (depth + local_size os) more.objects refl more.within more.apart in
    record {
      objects = placed ∷ more.objects;
      returns = rw (more.returns, le→leb 6 n given) refl;
      within = parts.0;
      apart = parts.1;
    }
one_more incoming depth size offset other os given small rest =
    let more = rest incoming depth (omega arith) in
    let placed = object size offset other in
    let parts =
      not_local placed depth (depth + local_size os) more.objects refl more.within more.apart in
    record {
      objects = placed ∷ more.objects;
      returns = rw more.returns refl;
      within = parts.0;
      apart = parts.1;
    }
one_more incoming depth size offset alloca os given small rest =
    let more = rest incoming (depth + size) (omega arith) in
    let placed = object size (neg (depth + size)) alloca in
    let at : placed.offset + (depth + size) ≡ 2 ^ 64 = omega arith in
    record {
      objects = placed ∷ more.objects;
      returns = rw more.returns refl;
      within = λ y i local. elim i [
        | inl same ↦ rw same (record { below = omega (arith, at); above = omega (arith, at) })
        | inr i' ↦
            let w = more.within y i' local in
            record { below = omega (arith, w.below); above = omega (arith, w.above) }
      ];
      apart = (λ y i here local. omega (arith, (more.within y i local).below, at), more.apart);
    }

-- Where arguments on the stack are those after the sixth, local objects are not empty and fewer than
-- 2 ^ 63 bytes are taken: `adjustStackFrame` returns, and gives each local object bytes of its own
-- below the frame pointer and the first `depth` bytes, within the sum of the sizes, each below those
-- of the objects before it.
pub place_objects-LaidOut :
    (incoming depth : ℕ) (os : List StackObject)
    → AllObjects os
    → depth + local_size os < 2 ^ 63
    → LaidOut incoming depth os
unfolding place_objects
place_objects-LaidOut incoming depth [] given small = record {
  objects = [];
  returns = refl;
  within = λ o i. absurd i;
  apart = tt;
}
place_objects-LaidOut incoming depth (o ∷ os) (given, rest) small =
    one_more incoming depth o.size o.offset o.v os given small
      (λ i d fits. place_objects-LaidOut i d os rest fits)

-- Where there are fewer than 2 ^ 28 spilled registers and as few reserved slots, the stack pointer is
-- moved by enough for the call frame, the local objects, the spilled registers and the reserved slots,
-- by less than 16 bytes more, and to a multiple of 16 counting the saved registers, RBP and the return
-- address.
pub needed_stack_size-fits :
    (f : AsmFunction) (num_spilled max_num_reserved : ℕ) (used : List ℕ)
    → num_spilled < 2 ^ 28
    → max_num_reserved < 2 ^ 28
    → let needed = needed_stack_size f num_spilled max_num_reserved used in
      let asked =
        f.max_call_frame_size + f.local_frame_size + 8 * (num_spilled + max_num_reserved) in
      (asked ≤ needed)
      × (needed < asked + 16)
      × ((needed + 16 + stack_size_for_callee_saved_regs f.is_main used) % 16 ≡ 0)
unfolding needed_stack_size
needed_stack_size-fits f num_spilled max_num_reserved used p q =
    (ground arith, ground arith, ground arith)
