-- ===== src/Rewrite/X86/Function.antt =====
-- The loop body of `AsmRewriter::rewrite`, for x86-64.
use remniw.Prelude.{
  ℕ, Bool, true, false, List, [], ◌∷◌, ◌++◌, Option, some, ◌>>=◌, ltb, if◌then◌else◌,
}
use remniw.Asm.Operand.{AsmInstruction}
use remniw.RegAlloc.DenseMap.{DenseMap}
use remniw.RegAlloc.Interval.{LiveRanges}
use remniw.RegAlloc.LinearScan.{Allocator, do_reg_alloc, get_spilled_reg_count}
use remniw.RegAlloc.Target.{contains}
use remniw.RegAlloc.Target.X86.{x86_target_info, is_callee_saved_register}
use remniw.Rewrite.{AsmFunction}
use remniw.Rewrite.X86.{rewrite_inst_virt_reg_to_phys_reg, spill_inst}
use remniw.Rewrite.X86.Frame.{
  stack_size_for_callee_saved_regs, needed_stack_size, insert_prologue, insert_epilogue,
  adjust_stack_frame,
}

unfoldable pub rewrite_insts : DenseMap ℕ → List AsmInstruction → Option (List AsmInstruction)
unfolding rewrite_inst_virt_reg_to_phys_reg
rewrite_insts m [] = some []
rewrite_insts m (i ∷ is) = do
  i' ← rewrite_inst_virt_reg_to_phys_reg m i
  is' ← rewrite_insts m is
  some (i' ∷ is')

-- The second loop, with `MaxNumReversedStackSlotForReg`. It meets the instructions that are put after
-- one too, which have no virtual registers and stay as they are.
unfoldable pub spill_insts :
    DenseMap ℕ → ℕ → ℕ → ℕ → List AsmInstruction → Option (List AsmInstruction × ℕ)
unfolding spill_inst
spill_insts m local_frame_size num_spilled max [] = some ([], max)
spill_insts m local_frame_size num_spilled max (i ∷ is) = do
  (new, num_reserved) ← spill_inst m local_frame_size num_spilled i
  (rest, max') ←
      spill_insts m local_frame_size num_spilled
        (if ltb max num_reserved then num_reserved else max) is
  some (new ++ rest, max')

-- The callee-saved registers that the map gives, each once, in the order in which they are met.
unfoldable pub used_callee_saved_regs : DenseMap ℕ → List ℕ → List ℕ → List ℕ
used_callee_saved_regs m [] acc = acc
used_callee_saved_regs m (k ∷ ks) acc = used_callee_saved_regs m ks (
    if is_callee_saved_register (m.at k)
    then (if contains acc (m.at k) then acc else acc ++ m.at k ∷ [])
    else acc)

abbrev is_empty : List AsmInstruction → Bool
is_empty [] = true
is_empty (i ∷ is) = false

-- The function with its registers allocated, and the allocator as it is left for the next one. A
-- function with no instruction is passed over.
unfoldable pub rewrite_function :
    List (ℕ × LiveRanges) → Allocator → AsmFunction → Option (AsmFunction × Allocator)
unfolding rewrite_insts spill_insts used_callee_saved_regs insert_prologue insert_epilogue
    adjust_stack_frame
rewrite_function ranges_map lsra f = if is_empty f.inst_list then some (f, lsra) else (do
  lsra' ← do_reg_alloc x86_target_info ranges_map lsra
  let m = lsra'.virt_reg_to_allocated_reg_map
  let num_spilled = get_spilled_reg_count lsra'
  insts ← rewrite_insts m f.inst_list
  (insts', max_num_reserved) ← spill_insts m f.local_frame_size num_spilled 0 insts
  let used = used_callee_saved_regs m m.keys []
  let needed = needed_stack_size f num_spilled max_num_reserved used
  let framed =
      insert_epilogue (insert_prologue (record f { inst_list = insts' }) needed used) needed used
  f' ← adjust_stack_frame (stack_size_for_callee_saved_regs f.is_main used) framed
  some (f', lsra'))

-- The functions, each with its live ranges, in turn.
unfoldable pub rewrite :
    List (List (ℕ × LiveRanges) × AsmFunction) → Allocator → Option (List AsmFunction)
unfolding rewrite_function
rewrite [] lsra = some []
rewrite ((ranges_map, f) ∷ fs) lsra = do
  (f', lsra') ← rewrite_function ranges_map lsra f
  fs' ← rewrite fs lsra'
  some (f' ∷ fs')
