-- ===== src/Rewrite/Riscv/Spilled.antt =====
-- Where a spilled register lies in the frame of RISC-V.
use remniw.Prelude.{ℕ, ◌+◌, ◌*◌, ◌%◌, ◌^◌, ◌≤◌, ◌<◌, ◌≡◌, List, arith}
use remniw.Rewrite.{AsmFunction}
use remniw.Rewrite.Riscv.Frame.{total_stack_frame_size, stack_size_for_callee_saved_regs}

-- The frame is a multiple of 16 bytes, and holds what is put in it and the two registers.
pub total_stack_frame_size-fits :
    (f : AsmFunction) (num_spilled max_num_reserved : ℕ) (used : List ℕ)
    → num_spilled < 2 ^ 28
    → max_num_reserved < 2 ^ 28
    → (total_stack_frame_size f num_spilled max_num_reserved used % 16 ≡ 0)
      × (f.max_call_frame_size
            + 8 * num_spilled
            + 8 * max_num_reserved
            + f.local_frame_size
            + stack_size_for_callee_saved_regs f.is_main used
            + 16
          ≤ total_stack_frame_size f num_spilled max_num_reserved used)
unfolding total_stack_frame_size
total_stack_frame_size-fits f n k used small less = ground arith
