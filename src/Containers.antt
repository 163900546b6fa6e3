-- ===== src/Containers.antt =====
-- The container templates of archive/todo/optimization-examples/cppexamples, one module each.
pub mod Outcome
pub mod Circular
pub mod Fifo
pub mod Filo
pub mod SortedList
pub mod StringPool
pub mod StringPoolL
pub mod Growth
pub mod Memory
pub mod MixedPool
pub mod AlignedArray
pub mod DynamicArray
pub mod DynamicQueue
