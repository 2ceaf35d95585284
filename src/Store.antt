-- ===== src/Store.antt =====
-- src/storage/file_store.ts: a module for the process's state and the file, one for the operations
-- on rows, one for transactions and initial data, and the laws of each.
pub mod Table
pub mod State
pub mod Rows
pub mod Views
pub mod Changes
pub mod Ids
pub mod Finds
pub mod Integrity
pub mod Refinement
pub mod Transaction
pub mod Machine
