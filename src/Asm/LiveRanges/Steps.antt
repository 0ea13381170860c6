-- ===== src/Asm/LiveRanges/Steps.antt =====
-- Each step of the recording keeps what holds of it.
use remniw.Prelude.{
  ℕ, ◌+◌, ◌%◌, ◌≤◌, ◌<◌, ◌^◌, ◌≡◌, refl, sym, ap, ◌∙◌, inl, inr, true, List, [], ◌∷◌, ◌++◌, Option,
  some, length, length-append, ◌==◌, arith, Bool-cases, ◌>>=◌,
}
use remniw.Asm.LiveRanges.{
  Building, find, put, crosses_call, update_reg_live_ranges, update_unless_none,
  update_asm_operand_live_ranges, add_inst, add_call, Emission, use_operand, inst, call, emit,
}
use remniw.Asm.LiveRanges.Entries.{
  find-put_self, find-put_ne, put-DistinctKeys, length-put, crosses_call-snoc,
}
use remniw.Asm.LiveRanges.Kept.{Fits, Kept, Kept-le, Covers, Step, extended}
use remniw.Asm.Operand.{AsmOperand, AsmInstruction, reg, mem, imm, lbl}
use remniw.RegAlloc.Interval.{LiveRange, LiveRanges}
use remniw.RegAlloc.Register.{is_virtual_register, is_physical_register, no_register}

module _ (k : ℕ) (b : Building) (v : Kept k b) where
  -- Nothing happens.
  pub same-Step : (n : ℕ) → k ≤ n → Step k n b (some b)
  same-Step n h = record {
    after = b;
    returns = refl;
    kept = Kept-le k n b h v;
    longer = λ reg_no s e virtual c. c;
    not_fewer = omega arith;
  }

  -- The entry of one register changes.
  module _ (reg_no : ℕ) (lr : LiveRanges)
      (fits : is_virtual_register reg_no ≡ true → (r : LiveRange) × (lr.ranges ≡ r ∷ []) × Fits b r)
      (longer : (s e : ℕ)
        → is_virtual_register reg_no ≡ true
        → Covers reg_no s e b
        → (r : LiveRange) × (lr ≡ record { ranges = r ∷ [] })
          × (r.start_point ≤ s)
          × (e ≤ r.end_point)) where
    abbrev put_step : Building
    put_step = record b { reg_live_ranges_map = put reg_no lr b.reg_live_ranges_map }

    put_step-Kept : Kept (k + 1) put_step
    put_step-Kept = record {
      distinct = put-DistinctKeys reg_no lr b.reg_live_ranges_map v.distinct;
      single = λ other l virtual f. elim (Bool-cases (other == reg_no)) [
        | inl t ↦
            let same : other ≡ reg_no = ground arith in
            let is_new : some l ≡ some lr =
              sym f
              ∙ ap (λ (x : ℕ). find x put_step.reg_live_ranges_map) same
              ∙ find-put_self reg_no lr b.reg_live_ranges_map in
            let (r, e, p) = fits (ground arith) in
            (r, ground arith, record { forward = p.forward; ended = p.ended; flag = p.flag })
        | inr t ↦
            let (r, e, p) =
              v.single other l virtual
                (sym (find-put_ne reg_no lr b.reg_live_ranges_map other (ground arith)) ∙ f) in
            (r, e, record { forward = p.forward; ended = p.ended; flag = p.flag })
      ];
      entries = omega (arith, v.entries, length-put reg_no lr b.reg_live_ranges_map);
      insts = omega (arith, v.insts);
    }

    put-Step : Step k (k + 1) b (some put_step)
    put-Step = record {
      after = put_step;
      returns = refl;
      kept = put_step-Kept;
      longer = λ other s e virtual c. elim (Bool-cases (other == reg_no)) [
        | inl t ↦
            let same : reg_no ≡ other = ground arith in
            let (r, is_new, from, to) = longer s e (rw same virtual) (rw same c) in
            record {
              range = r;
              is_found =
                  rw (← same) (find-put_self reg_no lr b.reg_live_ranges_map ∙ ap some is_new);
              from = from;
              to = to;
            }
        | inr t ↦ record {
          range = c.range;
          is_found = find-put_ne reg_no lr b.reg_live_ranges_map other (ground arith) ∙ c.is_found;
          from = c.from;
          to = c.to;
        }
      ];
      not_fewer = omega arith;
    }

  module _ (small : k < 2 ^ 31) where
    virtual-Step :
        (reg_no : ℕ) (virtual : is_virtual_register reg_no ≡ true)
        → Step k (k + 1) b (update_reg_live_ranges reg_no b)
    unfolding update_reg_live_ranges
    virtual-Step reg_no virtual =
        let x = extended k b v reg_no virtual in
        rw (virtual, mod_small, mod_next, x.is_new)
          (put-Step reg_no (record { ranges = x.range ∷ [] }) (λ _. (x.range, refl, x.fits))
            (λ s e _ c.
              let (r, single, fits) = v.single reg_no _ virtual c.is_found in
              let last : c.range.end_point ≤ length b.inst_list + 1 = ground (arith, fits.ended) in
              (
                x.range,
                refl,
                omega (arith, x.around c.range c.is_found, c.from),
                omega (arith, x.to, c.to, last),
              )))
      where
        mod_small : length b.inst_list % 2 ^ 32 ≡ length b.inst_list
        mod_small = omega (arith, v.insts)

        mod_next : (length b.inst_list + 1) % 2 ^ 32 ≡ length b.inst_list + 1
        mod_next = omega (arith, v.insts)

    pub update-Step : (reg_no : ℕ) → Step k (k + 1) b (update_reg_live_ranges reg_no b)
    unfolding update_reg_live_ranges
    update-Step reg_no = elim (Bool-cases (is_virtual_register reg_no)) [
      | inl t ↦ virtual-Step reg_no t
      | inr t ↦ elim (Bool-cases (is_physical_register reg_no)) [
        | inl p ↦
            rw (t, p)
              (put-Step reg_no _ (λ virtual. absurd (ground arith))
                (λ s e virtual c. absurd (ground arith)))
        | inr p ↦ rw (t, p) (same-Step (k + 1) (omega arith))
      ]
    ]

    pub update_unless-Step : (reg_no : ℕ) → Step k (k + 1) b (update_unless_none reg_no b)
    unfolding update_unless_none
    update_unless-Step reg_no = elim (Bool-cases (reg_no == no_register)) [
      | inl t ↦ rw t (same-Step (k + 1) (omega arith))
      | inr t ↦ rw t (update-Step reg_no)
    ]

  -- A new instruction, and perhaps a call before the next one.
  add-Step :
      (i : AsmInstruction) (calls : List ℕ)
      → ((s e : ℕ)
          → e ≤ length b.inst_list + 1
          → crosses_call calls s e ≡ crosses_call b.call_inst_indexes s e)
      → Step k
          (k + 1)
          b
          (some (record b { inst_list = b.inst_list ++ i ∷ []; call_inst_indexes = calls }))
  add-Step i calls same =
      let longer = length-append b.inst_list (i ∷ []) in
      record {
        after = record b { inst_list = b.inst_list ++ i ∷ []; call_inst_indexes = calls };
        returns = refl;
        kept = record {
          distinct = v.distinct;
          single = λ reg_no lr virtual f.
              let (r, e, p) = v.single reg_no lr virtual f in
              (
                r,
                e,
                record {
                  forward = p.forward;
                  ended = omega (arith, p.ended, longer);
                  flag = p.flag ∙ sym (same r.start_point r.end_point p.ended);
                },
              );
          entries = omega (arith, v.entries);
          insts = omega (arith, v.insts, longer);
        };
        longer = λ reg_no s e virtual c. record {
          range = c.range;
          is_found = c.is_found;
          from = c.from;
          to = c.to;
        };
        not_fewer = omega (arith, longer);
      }

-- One step after another.
pub bind-Step :
    (k n l : ℕ) (b : Building) (o : Option Building) (f : Building → Option Building)
    → Step k n b o
    → ((b' : Building) → Kept n b' → Step n l b' (f b'))
    → Step k l b (o >>= f)
bind-Step k n l b o f first then_step =
    let b' = first.after in
    let second = then_step b' first.kept in
    record {
      after = second.after;
      returns = rw first.returns second.returns;
      kept = second.kept;
      longer = λ reg_no s e virtual c.
          second.longer reg_no s e virtual (first.longer reg_no s e virtual c);
      not_fewer = omega (arith, first.not_fewer, second.not_fewer);
    }

pub Step-le : (k m n : ℕ) (b : Building) (o : Option Building) → m ≤ n → Step k m b o → Step k n b o
Step-le k m n b o h step = record {
  after = step.after;
  returns = step.returns;
  kept = Kept-le m n step.after h step.kept;
  longer = step.longer;
  not_fewer = step.not_fewer;
}

module _ (k : ℕ) (b : Building) (v : Kept k b) (small : k + 2 < 2 ^ 31) where
  pub operand-Step : (op : AsmOperand) → Step k (k + 2) b (update_asm_operand_live_ranges op b)
  unfolding update_asm_operand_live_ranges
  operand-Step (reg reg_no) =
      Step-le k (k + 1) (k + 2) b _ (omega arith) (update-Step k b v (omega arith) reg_no)
  operand-Step (mem m) =
      bind-Step k (k + 1) (k + 2) b (update_unless_none m.base_reg b)
        (update_unless_none m.index_reg) (update_unless-Step k b v (omega arith) m.base_reg)
        (λ b' v'.
          Step-le (k + 1) (k + 1 + 1) (k + 2) b' _ (omega arith)
            (update_unless-Step (k + 1) b' v' (omega arith) m.index_reg))
  operand-Step (imm val) = same-Step k b v (k + 2) (omega arith)
  operand-Step (lbl symbol) = same-Step k b v (k + 2) (omega arith)

  pub emit-Step : (e : Emission) → Step k (k + 2) b (emit e b)
  unfolding emit add_inst add_call
  emit-Step (use_operand op) = operand-Step op
  emit-Step (inst i) =
      Step-le k (k + 1) (k + 2) b _ (omega arith)
        (add-Step k b v i b.call_inst_indexes (λ s e h. refl))
  emit-Step (call i) =
      let longer = length-append b.inst_list (i ∷ []) in
      Step-le k (k + 1) (k + 2) b _ (omega arith) (
        add-Step k b v i _
          (λ s e h. crosses_call-snoc b.call_inst_indexes _ s e (omega (arith, longer, v.insts))))
