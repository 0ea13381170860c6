-- ===== src/Asm/LiveRanges/Code.antt =====
-- What the recording leaves of the function itself: a use of an operand adds no instruction and no call,
-- and the indexes of the calls are those that are counted in the code.
use mathlib.Core.List.{append-nil, append_assoc}
use remniw.Prelude.{
  ℕ, ◌+◌, ◌<◌, ◌≤◌, ◌^◌, ◌≡◌, refl, sym, ◌∙◌, inl, inr, true, ltb, leb, ◌&&◌, ◌↔◌, In, List, [],
  ◌∷◌, ◌++◌, some, length, length-append, arith, Bool-cases, Option-cases, ◌==◌,
}
use remniw.Asm.LiveRanges.{
  Building, find, virtual_live_ranges, update_reg_live_ranges, update_unless_none,
  update_asm_operand_live_ranges, crosses_call, add_inst, add_call, Emission, use_operand, inst,
  call, emit, emit_all,
}
use remniw.Asm.Operand.{AsmOperand, reg, mem, imm, lbl}
use remniw.RegAlloc.Interval.{LiveRanges}
use remniw.RegAlloc.Register.{is_virtual_register, is_physical_register, no_register, u32}

-- The instructions and the calls are the same.
pub record SameCode (b b' : Building) : Type 0 where
  pub insts : b'.inst_list ≡ b.inst_list
  pub calls : b'.call_inst_indexes ≡ b.call_inst_indexes

new_map-SameCode :
    (b b' : Building) (m : List (ℕ × LiveRanges))
    → some (record b { reg_live_ranges_map = m }) ≡ some b'
    → SameCode b b'
new_map-SameCode b b' m e = record { insts = ground arith; calls = ground arith }

same-SameCode : (b b' : Building) → some b ≡ some b' → SameCode b b'
same-SameCode b b' e = record { insts = ground arith; calls = ground arith }

update-SameCode :
    (reg_no : ℕ) (b b' : Building) → update_reg_live_ranges reg_no b ≡ some b' → SameCode b b'
unfolding update_reg_live_ranges
update-SameCode reg_no b b' e = elim (Bool-cases (is_virtual_register reg_no)) [
  | inl t ↦
      elim (Option-cases (
        virtual_live_ranges b.call_inst_indexes (u32 (length b.inst_list))
          (u32 (u32 (length b.inst_list) + 1)) (find reg_no b.reg_live_ranges_map))) [
            | inl n ↦ absurd (ground (arith, rw (t, n) at e))
            | inr (lr, n) ↦ new_map-SameCode b b' _ (rw (t, n) at e)
          ]
  | inr t ↦ elim (Bool-cases (is_physical_register reg_no)) [
    | inl p ↦ new_map-SameCode b b' _ (rw (t, p) at e)
    | inr p ↦ same-SameCode b b' (rw (t, p) at e)
  ]
]

pub update_unless-SameCode :
    (reg_no : ℕ) (b b' : Building) → update_unless_none reg_no b ≡ some b' → SameCode b b'
unfolding update_unless_none
update_unless-SameCode reg_no b b' e = elim (Bool-cases (reg_no == no_register)) [
  | inl t ↦ same-SameCode b b' (rw t at e)
  | inr t ↦ update-SameCode reg_no b b' (rw t at e)
]

pub operand-SameCode :
    (op : AsmOperand) (b b' : Building)
    → update_asm_operand_live_ranges op b ≡ some b'
    → SameCode b b'
unfolding update_asm_operand_live_ranges
operand-SameCode (reg r) b b' e = update-SameCode r b b' e
operand-SameCode (mem m) b b' e = elim (Option-cases (update_unless_none m.base_reg b)) [
  | inl n ↦ absurd (ground (arith, rw n at e))
  | inr (b1, n) ↦
      let first = update_unless-SameCode m.base_reg b b1 n in
      let second = update_unless-SameCode m.index_reg b1 b' (rw n at e) in
      record { insts = second.insts ∙ first.insts; calls = second.calls ∙ first.calls }
]
operand-SameCode (imm i) b b' e = same-SameCode b b' e
operand-SameCode (lbl l) b b' e = same-SameCode b b' e

-- For each call in the code, the number of instructions up to the call, itself included; `n` come before.
pub calls_in : ℕ → List Emission → List ℕ
calls_in n [] = []
calls_in n (use_operand op ∷ es) = calls_in n es
calls_in n (inst i ∷ es) = calls_in (n + 1) es
calls_in n (call i ∷ es) = (n + 1) ∷ calls_in (n + 1) es

-- The test for calls, said of the indexes.
pub crosses_call_iff :
    (calls : List ℕ) (s e : ℕ)
    → (crosses_call calls s e ≡ true) ↔ ((index : ℕ) × In index calls × (s ≤ index) × (index < e))
unfolding crosses_call
crosses_call_iff [] s e = (λ h. absurd (ground arith), λ p. absurd p.1)
crosses_call_iff (c ∷ calls) s e =
    let rest = crosses_call_iff calls s e in
    (
      λ h. elim (Bool-cases (leb s c && ltb c e)) [
        | inl here ↦ (c, inl refl, ground arith, ground arith)
        | inr past ↦
            let (index, member, from, to) = rest.0 (rw past at h) in (index, inr member, from, to)
      ],
      λ p. elim p.1 [
        | inl here ↦ ground (arith, here, p.2, p.3)
        | inr later ↦ let crossed = rest.1 (p.0, later, p.2, p.3) in ground (arith, crossed)
      ],
    )

pub emit_all-calls :
    (es : List Emission) (b b' : Building)
    → length b.inst_list + length es < 2 ^ 32
    → emit_all es b ≡ some b'
    → b'.call_inst_indexes ≡ b.call_inst_indexes ++ calls_in (length b.inst_list) es
unfolding emit_all emit add_inst add_call calls_in
emit_all-calls [] b b' h e = (same-SameCode b b' e).calls ∙ sym (append-nil b.call_inst_indexes)
emit_all-calls (use_operand op ∷ es) b b' h e =
    elim (Option-cases (update_asm_operand_live_ranges op b)) [
      | inl n ↦ absurd (ground (arith, rw n at e))
      | inr (b1, n) ↦
          let same = operand-SameCode op b b1 n in
          let rest = emit_all-calls es b1 b' (rw same.insts (omega (arith, h))) (rw n at e) in
          rw (← same.insts, ← same.calls) rest
    ]
emit_all-calls (inst i ∷ es) b b' h e =
    let size = length-append b.inst_list (i ∷ []) in
    emit_all-calls es (record b { inst_list = b.inst_list ++ i ∷ [] }) b' (omega (arith, h, size)) e
    ∙ (rw size refl)
emit_all-calls (call i ∷ es) b b' h e =
    let size = length-append b.inst_list (i ∷ []) in
    let word : u32 (length (b.inst_list ++ i ∷ [])) ≡ length b.inst_list + 1 =
      omega (arith, h, size) in
    let grown = record b {
      inst_list = b.inst_list ++ i ∷ [];
      call_inst_indexes = b.call_inst_indexes ++ u32 (length (b.inst_list ++ i ∷ [])) ∷ [];
    } in
    let rest = emit_all-calls es grown b' (omega (arith, h, size)) e in
    rest
    ∙ (rw (word, size)
        (append_assoc b.call_inst_indexes ((length b.inst_list + 1) ∷ [])
          (calls_in (length b.inst_list + 1) es)))
