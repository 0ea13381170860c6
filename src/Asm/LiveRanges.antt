-- ===== src/Asm/LiveRanges.antt =====
-- codegen/asm/AsmBuilder.h, the recording of live ranges: `updateRegLiveRanges`,
-- `updateAsmOperandLiveRanges`, and the calls that stand between instructions.
pub mod Entries
pub mod Code
pub mod Kept
pub mod Steps
pub mod Result
pub mod Uses
pub mod Allocation
use remniw.Prelude.{
  ℕ, ◌+◌, Bool, true, false, not, List, [], ◌∷◌, ◌++◌, Option, none, some, ◌==◌, ◌&&◌, ◌||◌, ltb,
  leb, if◌then◌else◌, length, ◌>>=◌,
}
use remniw.Asm.Operand.{AsmOperand, reg, mem, imm, lbl, MemOp, AsmInstruction}
use remniw.RegAlloc.Interval.{LiveRange, LiveRanges}
use remniw.RegAlloc.LinearScan.{back}
use remniw.RegAlloc.Register.{u32, no_register, is_physical_register, is_virtual_register}

-- The function that is built, and the members of the builder that hold for one function. The map of
-- ranges is a list of entries, a new key at the end.
pub record Building : Type 0 where
  pub inst_list : List AsmInstruction
  pub reg_live_ranges_map : List (ℕ × LiveRanges)
  pub call_inst_indexes : List ℕ

-- `build` starts each function with no calls, and the function with nothing in it.
abbrev pub new_function : Building
new_function = record { inst_list = []; reg_live_ranges_map = []; call_inst_indexes = [] }

unfoldable pub find : ℕ → List (ℕ × LiveRanges) → Option LiveRanges
find key [] = none
find key ((k, lr) ∷ entries) = if k == key then some lr else find key entries

-- `Map[key] = lr`
unfoldable pub put : ℕ → LiveRanges → List (ℕ × LiveRanges) → List (ℕ × LiveRanges)
put key lr [] = (key, lr) ∷ []
put key lr ((k, old) ∷ entries) =
    let rest = put key lr entries in if k == key then (k, lr) ∷ entries else (k, old) ∷ rest

-- A write to `Ranges.back()`; a vector that is empty has none.
unfoldable pub change_back : (LiveRange → LiveRange) → List LiveRange → List LiveRange
change_back f [] = []
change_back f (r ∷ []) = f r ∷ []
change_back f (r ∷ s ∷ rs) = r ∷ change_back f (s ∷ rs)

-- The `find_if` over `CurrentCallInstIndexes`.
unfoldable pub crosses_call : List ℕ → ℕ → ℕ → Bool
crosses_call [] start_point end_point = false
crosses_call (index ∷ indexes) start_point end_point =
    leb start_point index && ltb index end_point || crosses_call indexes start_point end_point

-- Sets the flag of the last range where a call stands between the two points.
unfoldable pub mark_call : List ℕ → ℕ → ℕ → List LiveRange → LiveRanges
mark_call indexes start_point end_point ranges = record {
  ranges =
      if crosses_call indexes start_point end_point
      then change_back (λ r. record r { used_across_call = true }) ranges
      else ranges;
}

abbrev pub new_range : ℕ → ℕ → LiveRange
new_range s e = record { start_point = s; end_point = e; used_across_call = false }

abbrev pub extend : ℕ → LiveRange → LiveRange
extend e r = record r { end_point = e }

-- A virtual register has one range, which is extended to the new end.
unfoldable pub virtual_live_ranges : List ℕ → ℕ → ℕ → Option LiveRanges → Option LiveRanges
virtual_live_ranges indexes s e none = some (mark_call indexes s e (new_range s e ∷ []))
virtual_live_ranges indexes s e (some lr) = do
  last ← back lr.ranges
  some (mark_call indexes last.start_point e (change_back (extend e) lr.ranges))

-- A physical register has a range for each stretch of uses that follow one another.
unfoldable pub physical_live_ranges : List ℕ → ℕ → ℕ → List LiveRange → LiveRanges
physical_live_ranges indexes s e ranges = elim (back ranges) [
  | none ↦ mark_call indexes s e (ranges ++ new_range s e ∷ [])
  | some last ↦
      if last.start_point == s && last.end_point == e
      then mark_call indexes s e ranges
      else if last.end_point == s
      then mark_call indexes last.start_point e (change_back (extend e) ranges)
      else mark_call indexes s e (ranges ++ new_range s e ∷ [])
]

abbrev pub ranges_of : Option LiveRanges → List LiveRange
ranges_of none = []
ranges_of (some lr) = lr.ranges

unfoldable pub update_reg_live_ranges : ℕ → Building → Option Building
update_reg_live_ranges reg_no b =
    let s = u32 (length b.inst_list) in
    let e = u32 (s + 1) in
    let old = find reg_no b.reg_live_ranges_map in
    if is_virtual_register reg_no
    then (virtual_live_ranges b.call_inst_indexes s e old >>= λ lr.
        some (record b { reg_live_ranges_map = put reg_no lr b.reg_live_ranges_map }))
    else if is_physical_register reg_no
    then some (record b {
      reg_live_ranges_map =
          put reg_no (physical_live_ranges b.call_inst_indexes s e (ranges_of old))
            b.reg_live_ranges_map;
    })
    else some b

-- `updateRegLiveRanges` of a register of a memory operand, which may be none.
unfoldable pub update_unless_none : ℕ → Building → Option Building
update_unless_none reg_no b =
    if not (reg_no == no_register) then update_reg_live_ranges reg_no b else some b

unfoldable pub update_asm_operand_live_ranges : AsmOperand → Building → Option Building
update_asm_operand_live_ranges (reg reg_no) b = update_reg_live_ranges reg_no b
update_asm_operand_live_ranges (mem m) b =
    update_unless_none m.base_reg b >>= update_unless_none m.index_reg
update_asm_operand_live_ranges (imm val) b = some b
update_asm_operand_live_ranges (lbl symbol) b = some b

-- `AsmInstruction::create` at the end of the function.
unfoldable pub add_inst : AsmInstruction → Building → Building
add_inst inst b = record b { inst_list = b.inst_list ++ inst ∷ [] }

-- The end of `createCALLInst`: the index is that of the instruction after the call.
unfoldable pub add_call : AsmInstruction → Building → Building
unfolding add_inst
add_call inst b =
    let b' = add_inst inst b in
    record b' { call_inst_indexes = b'.call_inst_indexes ++ u32 (length b'.inst_list) ∷ [] }

-- What the functions that create instructions do to a function: they are compositions of these.
pub data Emission : Type 0 where
  use_operand : AsmOperand → Emission
  inst : AsmInstruction → Emission
  call : AsmInstruction → Emission

unfoldable pub emit : Emission → Building → Option Building
emit (use_operand op) b = update_asm_operand_live_ranges op b
emit (inst i) b = some (add_inst i b)
emit (call i) b = some (add_call i b)

unfoldable pub emit_all : List Emission → Building → Option Building
emit_all [] b = some b
emit_all (e ∷ es) b = emit e b >>= emit_all es
