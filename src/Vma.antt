-- ===== src/Vma.antt =====
-- LibOS/shim/src/bookkeep/shim_vma.c: the bookkeeping of virtual memory areas.
pub mod Types
pub mod Tree
pub mod View
pub mod Holders
pub mod Free
pub mod Gap
pub mod Remove
pub mod Change
pub mod Space
pub mod Alloc
pub mod Calls
pub mod Query
mod Samples
mod QueryTests
mod Tests
mod CallTests
