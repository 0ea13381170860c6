-- ===== src/Shield.antt =====
-- src/runtime/aphotic_shield: the guarded pool allocator that finds misuse of the heap.
pub mod Words
pub mod Layout
pub mod System
pub mod Options
pub mod Pool
pub mod Heap
pub mod Report
pub mod Entry
