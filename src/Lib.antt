-- ===== src/Lib.antt =====
-- remniw, a compiler for a toy language to x86-64 and RISC-V assembly.
--
-- The program reads a source file (src/frontend), infers types (src/semantic), generates LLVM IR
-- (src/codegen/ir) and from it assembly (src/codegen/asm): instruction selection gives instructions
-- over virtual registers together with their live ranges, linear scan allocation gives each virtual
-- register a physical register or a stack slot, and the rewriter puts these into the instructions.
--
-- Files:
--   Prelude: tests on numbers, lists, and `&` and `|` as arithmetic (Prelude/Bits).
--   RegAlloc/Register: src/codegen/asm/Register.h, register numbers in 32 bits.
--   RegAlloc/Target: src/codegen/asm/TargetInfo.h and the two targets.
--   RegAlloc/Interval, RegAlloc/LinearScan: src/codegen/asm/LiveInterval.h and RegisterAllocator.h.
--     The state of `LinearScanRegisterAllocator` is the record `Allocator`, and each member function is
--     the function of its name in snake case; `doRegAlloc` is `do_reg_alloc`, its loop `scan`. The maps
--     of LLVM are taken as finite maps with an order of iteration (RegAlloc/DenseMap); the order in
--     which `FreeRegisters` is met is an argument, so the theorems hold for any. `std::sort` and
--     `std::priority_queue` are insertion into a sorted list; the order of equal elements, which the
--     standard leaves open, is one of those that it allows. Live ranges are 32-bit numbers in the
--     source and unbounded here, which makes no difference where nothing is added to them.
--   Asm/Operand, Asm/LiveRanges: src/codegen/asm/AsmOperand.h, AsmInstruction.h and AsmBuilder.h. The
--     function that is built, with the map of live ranges and the indexes of its calls, is the record
--     `Building`; `updateRegLiveRanges` is `update_reg_live_ranges`. The functions that create
--     instructions are compositions of the three steps of `Emission`, and any sequence of these is
--     allowed. The map they fill is the argument of `do_reg_alloc`.
--   Select: src/codegen/asm/X86/X86AsmBuilder.cpp and RISCV/RISCVAsmBuilder.cpp. A handler and a
--     function that creates an instruction are values of the monad `Select`: it carries the offset of
--     the next argument and the index of the next virtual register, gives the steps of `Emission` in
--     order, and `none` stands for an assertion that fails or an overload that the source does not
--     handle. Select/X86 and Select/Riscv hold the two targets: Create the functions that create one
--     instruction, Arith, Memory and Control the handlers, `handleADD` being `handle_add`. What LLVM
--     says of an instruction (a size, a predicate, which block is next) is an argument, and so is the
--     test for `printf` and `scanf`.
--   Select/Machine, Select/Effects: a processor, which is not in the repository and so a parameter: its
--     states, the reading of registers and memory, and the execution of an instruction.
--     Select/X86/Isa and Select/Riscv/Isa are the laws of the instructions that are selected, as the
--     manuals describe them, for operands that a processor of 64 bits can have. Jumps, calls and the
--     pseudo-instructions of RISC-V that the rewriter expands have no law: the theorems are about the
--     straight-line code of the other handlers.
--   Rewrite: src/codegen/asm/AsmRewriter.h, X86/X86AsmRewriter.h and AsmFunction.h. Each member function
--     is the function of its name; the instructions put before and after one are lists in the record
--     `Spilling`, and the counters of slots are arguments and results. Rewrite/X86/Frame is the prologue,
--     the epilogue and the offsets of stack objects, with sizes that are not negative. Whether a
--     function is `main`, and what a stack object stands for, are fields. Rewrite/Riscv is the same for
--     RISCV/RISCVAsmRewriter.h; the loop over the functions is modelled for x86-64 only.
--   Shield: src/runtime/aphotic_shield, the allocator that finds misuse of the heap. Shield/Words and
--     Shield/Layout are the helpers on words and `AllocatorState`; Shield/Pool is
--     `GuardedPoolAllocator`, whose methods are functions of the state into an `Outcome`: they return,
--     raise the signal on purpose, end by a failed `Check`, or fail an assertion. The state is the record
--     `Pool`, with the two arrays as functions of the index; Shield/Pool/Init is `init`. Shield/System
--     is what is used of the operating system, a parameter: which addresses are mapped and accessible, and
--     the laws of `mmap` and `mprotect` in `IsSystem`, calls that may also fail; a page has 2 ^ 4 to
--     2 ^ 30 bytes. `IsPool` (Shield/Pool/Valid) holds between two calls, and `block_at` is the heap that a
--     state stands for. Shield/Heap is the abstract heap, Shield/Report is error_report.cpp, Shield/Options
--     is options.cpp with `strtol` as a parameter, and Shield/Entry is aphotic_shield_allocator.cpp and
--     aphotic_shield_interface.cpp with `malloc` and `free` as parameters. A call is one step: threads that
--     take turns within a call are not modelled.
--   Tests: runs, a processor of each kind that meets the laws, and each theorem at an input.
--
-- Loops are recursions on a list, or on the 16 registers that `getAvailableRegister` tries; `parseOptions`
-- has fuel, one more than the length of the string, and each round takes a byte. A function has at most 2 ^ 29 steps in the
-- theorems on its live ranges, which keeps the indices in 32 bits and the map below the 2 ^ 30 stack
-- slots that there are.
--
-- Not modelled: type inference, LLVM IR generation, the tree matcher that calls the handlers (generated
-- code), printing, and the mutex of the runtime's allocator.
pub mod Prelude
pub mod Asm
pub mod RegAlloc
pub mod Select
pub mod Rewrite
pub mod Shield
mod Tests
