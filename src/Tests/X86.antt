-- ===== src/Tests/X86.antt =====
-- Selected x86-64 code on a processor whose register r holds 100 * r at first, and whose word at the
-- address a is a + 1.
use remniw.Prelude.{ℕ, ◌+◌, ◌-◌, ◌*◌, ◌%◌, ◌^◌, refl, inl, arith}
use remniw.Asm.Operand.{reg, mem, imm}
use remniw.RegAlloc.Target.X86.{reg_no, rdi}
use remniw.Select.{Counters, base_mem, create_stack_object}
use remniw.Select.Effects.{Addresses, Puts, Passes, advanced}
use remniw.Select.Machine.{Computes}
use remniw.Select.X86.Addresses.{handle_getelementptr-Addresses}
use remniw.Select.X86.Arith.{handle_add, handle_sub, handle_mul, handle_sdiv}
use remniw.Select.X86.Control.{handle_arg}
use remniw.Select.X86.Memory.{handle_store, handle_getelementptr}
use remniw.Select.X86.Passing.{handle_arg-register, handle_arg-stack, handle_arg-stack_memory}
use remniw.Select.X86.Quotients.{Divided, rax_no, handle_sdiv-Divided, handle_sdiv-rax}
use remniw.Select.X86.Sums.{handle_arithmetic-Computes}
use remniw.Select.X86.Transfers.{handle_store-Puts}
use remniw.Tests.Cells.{Cells, read}
use remniw.Tests.X86Machine.{processor, processor-IsX86}

abbrev start : Counters
start = record { next_index = 4; call_arg_offset = 16 }

abbrev cells : Cells
cells = record { regs = λ r. 100 * r; words = λ a. a + 1 }

abbrev virt : ℕ → ℕ
virt i = i + 2 ^ 31

handle_arithmetic-Computes_example :
    Computes processor
      (handle_add (imm 7) (reg (virt 3)))
      start
      (λ s. (7 + read s (virt 3)) % 2 ^ 64)
    × Computes processor
        (handle_sub (imm 7) (reg (virt 3)))
        start
        (λ s. (7 + 2 ^ 64 - read s (virt 3)) % 2 ^ 64)
    × Computes processor
        (handle_mul (imm 7) (reg (virt 3)))
        start
        (λ s. 7 * read s (virt 3) % 2 ^ 64)
handle_arithmetic-Computes_example =
    handle_arithmetic-Computes processor processor-IsX86 start (imm 7) (reg (virt 3)) tt
      (inl (omega arith)) tt (omega arith) (omega arith)

-- 500 / 7
handle_sdiv-Divided_example : Divided processor start (handle_sdiv (reg 5) (imm 7)) cells 71
handle_sdiv-Divided_example =
    handle_sdiv-Divided processor processor-IsX86 start cells (reg 5) (imm 7) tt tt (omega arith) tt
      (omega arith) (omega arith, inl (omega arith))

-- 500 / 100 should be 5, and is 1.
handle_sdiv-rax_example : Divided processor start (handle_sdiv (reg 5) (reg rax_no)) cells 1
handle_sdiv-rax_example =
    handle_sdiv-rax processor processor-IsX86 start cells (reg 5) tt tt
      (omega arith, inl (omega arith))

handle_getelementptr-Addresses_example :
    Addresses processor start
      (handle_getelementptr 8 (mem (create_stack_object 2)) (reg (virt 1)))
      cells
      (4112 + 8 * (100 * virt 1))
handle_getelementptr-Addresses_example =
    handle_getelementptr-Addresses processor processor-IsX86 start cells 8
      (mem (create_stack_object 2)) (reg (virt 1)) (omega arith, omega arith) refl (omega arith)

handle_store-Puts_example :
    Puts processor start
      (record { next_index = 5; call_arg_offset = 16 })
      (handle_store (mem (create_stack_object 1)) (mem (base_mem 8 3)))
      cells
      308
      4104
handle_store-Puts_example =
    handle_store-Puts processor processor-IsX86 start (mem (create_stack_object 1))
      (mem (base_mem 8 3)) cells tt (omega arith, omega arith) (omega arith)

handle_arg-register_example :
    Passes processor start (handle_arg 0 8 (mem (create_stack_object 1))) cells (reg_no rdi) 4104
handle_arg-register_example =
    handle_arg-register processor processor-IsX86 start 0 8 (mem (create_stack_object 1)) cells tt
      (omega arith)

handle_arg-stack_example :
    Puts processor start (advanced start 8) (handle_arg 6 8 (reg 3)) cells 1016 300
handle_arg-stack_example =
    handle_arg-stack processor processor-IsX86 start 6 8 (reg 3) cells tt tt (omega arith)

-- The word at 4104, and not 4104.
handle_arg-stack_memory_example :
    Puts processor start
      (record { next_index = 5; call_arg_offset = 24 })
      (handle_arg 6 8 (mem (create_stack_object 1)))
      cells
      1016
      4105
handle_arg-stack_memory_example =
    handle_arg-stack_memory processor processor-IsX86 start 6 8 (create_stack_object 1) cells
      (omega arith) (omega arith)
