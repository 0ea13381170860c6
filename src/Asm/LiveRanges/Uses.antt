-- ===== src/Asm/LiveRanges/Uses.antt =====
-- Each use of a virtual register lies in its lifetime.
use remniw.Prelude.{
  ℕ, ◌+◌, ◌*◌, ◌%◌, ◌≤◌, ◌<◌, ◌^◌, ◌≡◌, refl, sym, ◌∙◌, inl, inr, true, false, ◌⊎◌, ◌==◌, List, [],
  ◌∷◌, ◌++◌, Option, some, length, arith, ◌>>=◌, Option-cases,
}
use remniw.Asm.LiveRanges.{
  Building, new_function, put, update_reg_live_ranges, Emission, use_operand, emit, emit_all,
  update_asm_operand_live_ranges, update_unless_none,
}
use remniw.Asm.LiveRanges.Code.{update_unless-SameCode}
use remniw.Asm.LiveRanges.Entries.{find-put_self}
use remniw.Asm.LiveRanges.Kept.{Kept, Covers, Step, extended}
use remniw.Asm.LiveRanges.Result.{emit_all-Step, new_function-Kept, Covers-Lifetime}
use remniw.Asm.LiveRanges.Steps.{operand-Step, update_unless-Step, Step-le}
use remniw.Asm.Operand.{AsmOperand, reg, mem, imm, lbl}
use remniw.RegAlloc.Interval.{LiveRange}
use remniw.RegAlloc.LinearScan.Sets.{Lifetime}
use remniw.RegAlloc.Register.{is_virtual_register, no_register}

update-Covers :
    (k : ℕ) (b b' : Building) (reg_no : ℕ)
    → Kept k b
    → k < 2 ^ 31
    → is_virtual_register reg_no ≡ true
    → update_reg_live_ranges reg_no b ≡ some b'
    → Covers reg_no (length b.inst_list) (length b.inst_list + 1) b'
unfolding update_reg_live_ranges
update-Covers k b b' reg_no v small virtual e =
    let x = extended k b v reg_no virtual in
    let done = record b {
      reg_live_ranges_map = put reg_no (record { ranges = x.range ∷ [] }) b.reg_live_ranges_map;
    } in
    let is_new : done ≡ b' = cc (rw (virtual, mod_small, mod_next, x.is_new) at e) in
    rw (← is_new) (record {
      range = x.range;
      is_found = find-put_self reg_no _ b.reg_live_ranges_map;
      from = x.from;
      to = omega (arith, x.to);
    })
  where
    mod_small : length b.inst_list % 2 ^ 32 ≡ length b.inst_list
    mod_small = omega (arith, v.insts)

    mod_next : (length b.inst_list + 1) % 2 ^ 32 ≡ length b.inst_list + 1
    mod_next = omega (arith, v.insts)

emit_all-append :
    (es fs : List Emission) (b : Building) → emit_all (es ++ fs) b ≡ (emit_all es b >>= emit_all fs)
unfolding emit_all
emit_all-append [] fs b = refl
emit_all-append (e ∷ es) fs b = elim (Option-cases (emit e b)) [
  | inl n ↦ rw n refl
  | inr (b', n) ↦ rw n (emit_all-append es fs b')
]

-- A step's result, by another name.
returned :
    {k : ℕ} {b b' : Building} {o : Option Building} (n : ℕ)
    → Step k n b o
    → o ≡ some b'
    → Kept n b'
      × ((reg_no s e : ℕ)
          → is_virtual_register reg_no ≡ true
          → Covers reg_no s e b
          → Covers reg_no s e b')
returned {b' = b'} n step e =
    let same : step.after ≡ b' = cc (sym step.returns ∙ e) in
    (rw (← same) step.kept, λ reg_no s f virtual c. rw (← same) (step.longer reg_no s f virtual c))

-- The operand is the register, or a memory operand with the register as base or index.
abbrev pub UsesReg : AsmOperand → ℕ → Type 0
UsesReg (reg r) reg_no = r ≡ reg_no
UsesReg (mem a) reg_no = (a.base_reg ≡ reg_no) ⊎ (a.index_reg ≡ reg_no)
UsesReg (imm i) reg_no = ⊥
UsesReg (lbl l) reg_no = ⊥

module _ (k : ℕ) (b b' : Building) (reg_no : ℕ) (v : Kept k b) (small : k + 1 < 2 ^ 31)
    (virtual : is_virtual_register reg_no ≡ true) where
  unless_none-Covers :
      update_unless_none reg_no b ≡ some b'
      → Covers reg_no (length b.inst_list) (length b.inst_list + 1) b'
  unfolding update_unless_none is_virtual_register
  unless_none-Covers e =
      let given : (reg_no == no_register) ≡ false = ground (arith, virtual) in
      update-Covers k b b' reg_no v (omega (arith, small)) virtual (rw given at e)

module _ (k : ℕ) (b b' : Building) (reg_no : ℕ) (v : Kept k b) (small : k + 2 < 2 ^ 31)
    (virtual : is_virtual_register reg_no ≡ true) where
  operand-Covers :
      (op : AsmOperand)
      → UsesReg op reg_no
      → update_asm_operand_live_ranges op b ≡ some b'
      → Covers reg_no (length b.inst_list) (length b.inst_list + 1) b'
  unfolding update_asm_operand_live_ranges
  operand-Covers (reg r) u e =
      update-Covers k b b' reg_no v (omega (arith, small)) virtual (rw u at e)
  operand-Covers (mem a) u e = elim (Option-cases (update_unless_none a.base_reg b)) [
    | inl n ↦ absurd (ground (arith, rw n at e))
    | inr (b1, n) ↦
        let (kept, grows) =
          returned (k + 1) (update_unless-Step k b v (omega (arith, small)) a.base_reg) n in
        let after = rw n at e in
        elim u [
          | inl base ↦
              (returned (k + 2)
                  (Step-le (k + 1) (k + 1 + 1) (k + 2) b1 _ (omega arith)
                    (update_unless-Step (k + 1) b1 kept (omega (arith, small)) a.index_reg))
                  after).1
                reg_no _ _ virtual
                (unless_none-Covers k b b1 reg_no v (omega (arith, small)) virtual (rw base at n))
          | inr index ↦
              let same = (update_unless-SameCode a.base_reg b b1 n).insts in
              rw (← same) (
                unless_none-Covers (k + 1) b1 b' reg_no kept (omega (arith, small)) virtual
                  (rw index at after))
        ]
  ]
  operand-Covers (imm i) u e = absurd u
  operand-Covers (lbl l) u e = absurd u

-- Where an operand that uses a virtual register, as itself or as the base or the index of a memory
-- operand, is recorded, and fewer than 2 ^ 29 steps stand before and after, and all return: the lifetime
-- that the register has in the end holds the index of the instruction that the use is for.
pub emit_all-covers :
    (before later : List Emission) (op : AsmOperand) (reg_no : ℕ) (at_use b : Building)
    → UsesReg op reg_no
    → length before + length later < 2 ^ 29
    → is_virtual_register reg_no ≡ true
    → emit_all before new_function ≡ some at_use
    → emit_all (before ++ use_operand op ∷ later) new_function ≡ some b
    → (range : LiveRange) × Lifetime b.reg_live_ranges_map reg_no range
      × (range.start_point ≤ length at_use.inst_list)
      × (length at_use.inst_list < range.end_point)
unfolding emit_all emit
emit_all-covers before later op reg_no at_use b uses small virtual first whole =
    let k = 0 + 2 * length before in
    let kept =
      (returned k (emit_all-Step before 0 new_function new_function-Kept (omega arith)) first).0 in
    elim (Option-cases (update_asm_operand_live_ranges op at_use)) [
      | inl n ↦ absurd (ground (arith, rw (first, n) at whole_split))
      | inr (next, n) ↦
          let next_kept = (returned (k + 2) (operand-Step k at_use kept (omega arith) op) n).0 in
          let (last_kept, longer) =
            returned (k + 2 + 2 * length later)
              (emit_all-Step later (k + 2) next next_kept (omega arith))
              (rw (first, n) at whole_split) in
          let (range, l, from, to) =
            Covers-Lifetime (k + 2 + 2 * length later) b last_kept reg_no _ _ virtual (
              longer reg_no _ _ virtual
                (operand-Covers k at_use next reg_no kept (omega arith) virtual op uses n)) in
          (range, l, from, omega (arith, to))
    ]
  where
    whole_split : (emit_all before new_function >>= emit_all (use_operand op ∷ later)) ≡ some b
    whole_split = sym (emit_all-append before (use_operand op ∷ later) new_function) ∙ whole
