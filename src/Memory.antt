-- ===== src/Memory.antt =====
-- Package store/memory (store/memory/memory.go).
pub mod Defs
pub mod Written
pub mod Guards
pub mod Sweep
pub mod Invariant
pub mod Index
pub mod Contract
pub mod Cleanup
pub mod Heap
pub mod Pointers
pub mod Reordered
pub mod Order
