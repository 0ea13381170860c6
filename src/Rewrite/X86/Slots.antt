-- ===== src/Rewrite/X86/Slots.antt =====
-- The places of spilled registers, and how they lie to the local objects.
use remniw.Prelude.{
  ℕ, ◌+◌, ◌-◌, ◌*◌, ◌^◌, ◌<◌, ◌≡◌, refl, sym, ap, ◌∙◌, false, List, [], ◌∷◌, ◌++◌, some, arith,
  length, le→leb,
}
use remniw.RegAlloc.Register.{is_stack_slot, stack_slot2_index, first_stack_slot}
use remniw.Rewrite.{
  StackObject, ObjectValue, incoming_arg, alloca, other, neg, get_stack_slot_offset,
}
use remniw.Select.{u64}
use remniw.Rewrite.X86.Frame.{stack_size_for_callee_saved_regs, place_objects}
use remniw.Rewrite.X86.Offsets.{local_size, IsObject, AllObjects, object}

-- The place of the spilled register with the index `i`.
slot_offset :
    (local_frame_size i : ℕ)
    → i < 2 ^ 28
    → local_frame_size < 2 ^ 62
    → get_stack_slot_offset 8 local_frame_size (first_stack_slot + i)
      ≡ some (2 ^ 64 - (local_frame_size + 8 * (i + 1)))
unfolding get_stack_slot_offset stack_slot2_index is_stack_slot
slot_offset local_frame_size i small frame = ground arith

-- The last object, where it is local, begins where the sum of all sizes says.
record LastAt (incoming depth : ℕ) (os : List StackObject) : Type 0 where
  front : List StackObject
  last : StackObject
  returns : place_objects incoming depth os ≡ some (front ++ last ∷ [])
  is_alloca : last.v ≡ alloca
  at : last.offset ≡ neg (depth + local_size os)

last_after :
    (incoming depth size offset : ℕ) (v : ObjectValue) (os : List StackObject)
    → IsObject (object size offset v)
    → ((i d : ℕ) → LastAt i d os)
    → LastAt incoming depth (object size offset v ∷ os)
unfolding place_objects
last_after incoming depth size offset (incoming_arg n) os given rest =
    let more = rest (incoming + size) depth in
    record {
      front = object size (u64 incoming) (incoming_arg n) ∷ more.front;
      last = more.last;
      returns = rw (more.returns, le→leb 6 n given) refl;
      is_alloca = more.is_alloca;
      at = more.at;
    }
last_after incoming depth size offset other os given rest =
    let more = rest incoming depth in
    record {
      front = object size offset other ∷ more.front;
      last = more.last;
      returns = rw more.returns refl;
      is_alloca = more.is_alloca;
      at = more.at;
    }
last_after incoming depth size offset alloca os given rest =
    let more = rest incoming (depth + size) in
    record {
      front = object size (neg (depth + size)) alloca ∷ more.front;
      last = more.last;
      returns = rw more.returns refl;
      is_alloca = more.is_alloca;
      at = more.at ∙ ap neg (omega arith);
    }

last_object :
    (incoming depth size offset : ℕ) (os : List StackObject)
    → AllObjects os
    → LastAt incoming depth (os ++ object size offset alloca ∷ [])
unfolding place_objects
last_object incoming depth size offset [] given = record {
  front = [];
  last = object size (neg (depth + size)) alloca;
  returns = refl;
  is_alloca = refl;
  at = ap neg (omega arith);
}
last_object incoming depth size offset (o ∷ os) (given, rest) =
    last_after incoming depth o.size o.offset o.v (os ++ object size offset alloca ∷ []) given
      (λ i d. last_object i d size offset os rest)

-- Outside `main`, where `n + 1` callee-saved registers are used, `n` is below 2 ^ 28, arguments on the
-- stack are those after the sixth, local objects are not empty before a last one, and all take fewer
-- than 2 ^ 62 bytes: the objects are placed, the last of them is a local one, and the spilled register
-- with the index `n` is given its offset.
pub spilled_at_last_local :
    (os : List StackObject) (size offset n : ℕ) (used : List ℕ)
    → AllObjects os
    → local_size (os ++ object size offset alloca ∷ []) < 2 ^ 62
    → length used ≡ n + 1
    → n < 2 ^ 28
    → (front : List StackObject) × (o : StackObject) × (place_objects 16
          (stack_size_for_callee_saved_regs false used)
          (os ++ object size offset alloca ∷ [])
        ≡ some (front ++ o ∷ []))
      × (o.v ≡ alloca)
      × (get_stack_slot_offset 8
            (local_size (os ++ object size offset alloca ∷ []))
            (first_stack_slot + n)
          ≡ some o.offset)
unfolding stack_size_for_callee_saved_regs
spilled_at_last_local os size offset n used given frame saved small =
    let found = last_object 16 (length used * 8) size offset os given in
    let all = local_size (os ++ object size offset alloca ∷ []) in
    let at : found.last.offset ≡ 2 ^ 64 - (all + 8 * (n + 1)) =
      found.at ∙ omega (arith, saved, frame) in
    (
      found.front,
      found.last,
      found.returns,
      found.is_alloca,
      slot_offset all n small frame ∙ ap some (sym at),
    )
